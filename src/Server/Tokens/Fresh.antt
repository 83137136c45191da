-- ===== src/Server/Tokens/Fresh.antt =====
-- What a rotation that succeeds with a new request id did: the session it found, the statement it
-- ran and the result it keeps.
use mathlib.Core.Path.{subst}
use jitong_app.Base.{
  ℕ, zero, suc, ◌+◌, ◌/◌, ◌%◌, ◌≡◌, ◌≢◌, refl, sym, ap, ◌∙◌, Bool, true, false, Option, none, some,
  [], ◌∷◌, Bytes, bytes_eq_iff, arith, Option-cases, inl, inr,
}
use jitong_app.Base.Dict.{find, bytes_Eq}
use jitong_app.Server.AuthTable.{
  AuthSession, Db, c_str, find_by_refresh_hash, rotate_refresh_token, was_refresh_token_used,
}
use jitong_app.Server.Tokens.{
  TokenPair, Results, Cached, Service, Env, token_hash, random_token, to_hex, hex_digit,
}
use jitong_app.Server.Tokens.Rotate.{
  Rotated, rotated, sweep, revoke_family, refuse_used, remember, next_pair, store_next,
  rotate_found, answer, rotate_refresh,
}

c_str_positive : (c : ℕ) (s : Bytes) → c ≢ 0 → c_str (c ∷ s) ≡ c ∷ c_str s
unfolding c_str
c_str_positive zero s n = absurd (n refl)
c_str_positive (suc c) s n = refl

c_str-digit : (n : ℕ) (s : Bytes) → c_str (hex_digit n ∷ s) ≡ hex_digit n ∷ c_str s
c_str-digit n s = c_str_positive (hex_digit n) s (λ z. ground arith)

-- A string of hexadecimal digits holds no zero byte.
c_str-to_hex : (b : Bytes) → c_str (to_hex b) ≡ to_hex b
unfolding to_hex
c_str-to_hex [] = unfold c_str in refl
c_str-to_hex (x ∷ xs) =
    rw (c_str-digit (x / 16) (hex_digit (x % 16) ∷ to_hex xs))
      (rw (c_str-digit (x % 16) (to_hex xs)) (rw (c_str-to_hex xs) refl))

pub c_str-token_hash :
    (digest : Bytes → Bytes) (t : Bytes) → c_str (token_hash digest t) ≡ token_hash digest t
unfolding token_hash
c_str-token_hash digest t = c_str-to_hex (digest t)

pub c_str-c_str : (b : Bytes) → c_str (c_str b) ≡ c_str b
unfolding c_str
c_str-c_str [] = refl
c_str-c_str (zero ∷ b) = refl
c_str-c_str (suc c ∷ b) = ap (λ (x : Bytes). suc c ∷ x) (c_str-c_str b)

revoke_family_none :
    (e : Env) (s : Service) (o : Option Bytes) (p : TokenPair) → (revoke_family e s o).1 ≢ rotated p
revoke_family_none e s none p h = cc
revoke_family_none e s (some f) p h = ground arith

module _ (digest : Bytes → Bytes) (begin : Results → Bytes) (e : Env)
    (hash device request : Bytes) where
  abbrev pub kept : TokenPair → Cached
  kept p = record { refresh_hash = hash; device_id = device; pair = p; expires_at = e.now + 120 }

  abbrev pub statement : AuthSession → TokenPair → Db → Db × Bool
  statement old p =
      rotate_refresh_token e.sqlite old hash (token_hash digest p.access_token) p.access_expires_at
        (token_hash digest p.refresh_token) p.refresh_expires_at

  pub record Rotation (s t : Service) (p : TokenPair) : Type 0 where
    pub old : AuthSession
    pub found : find_by_refresh_hash e.sqlite hash s.db ≡ some old
    pub live : old.revoked ≡ false
    pub same_device : old.device_id ≡ device
    pub pair : p ≡ next_pair e old p.access_token p.refresh_token
    pub stored : (statement old p s.db).1 ≡ true
    pub after : t ≡ record {
      db = (statement old p s.db).0;
      refresh_results = remember begin request (kept p) s.refresh_results;
    }

  store_next_lem :
      (old : AuthSession) (next p : TokenPair) (s : Service)
      → (store_next digest begin e old hash device request next s).1 ≡ rotated p
      → (p ≡ next)
        × ((statement old next s.db).1 ≡ true)
        × ((store_next digest begin e old hash device request next s).0 ≡ record {
          db = (statement old next s.db).0;
          refresh_results = remember begin request (kept next) s.refresh_results;
        })
  unfolding store_next refuse_used
  store_next_lem old next p s h =
      ground (arith, revoke_family_none e s (was_refresh_token_used e.sqlite hash s.db) p)

  rotate_found_lem :
      (old : AuthSession) (p : TokenPair) (s : Service)
      → find_by_refresh_hash e.sqlite hash s.db ≡ some old
      → (rotate_found digest begin e old hash device request s).1 ≡ rotated p
      → Rotation s (rotate_found digest begin e old hash device request s).0 p
  unfolding rotate_found
  rotate_found_lem old p s f h = elim (Option-cases (random_token e 0)) [
    | inl n ↦ ground arith
    | inr (access, a) ↦ elim (Option-cases (random_token e 1)) [
      | inl n ↦ ground arith
      | inr (refresh, b) ↦
          let next : TokenPair = next_pair e old access refresh in
          let same : rotate_found digest begin e old hash device request s
              ≡ store_next digest begin e old hash device request next s =
            ground arith in
          let l =
            store_next_lem old next p s (ap (λ (x : Service × Rotated). x.1) (sym same) ∙ h) in
          record {
            old = old;
            found = f;
            live = ground arith;
            same_device = ground (arith, bytes_eq_iff old.device_id device);
            pair = rw l.0 refl;
            stored = rw l.0 l.1;
            after = ap (λ (x : Service × Rotated). x.0) same ∙ rw l.0 l.2;
          }
    ]
  ]

  answer_lem :
      (p : TokenPair) (s : Service)
      → find request s.refresh_results ≡ none
      → (answer digest begin e hash device request s).1 ≡ rotated p
      → Rotation s (answer digest begin e hash device request s).0 p
  unfolding answer refuse_used
  answer_lem p s n h = elim (Option-cases (find_by_refresh_hash e.sqlite hash s.db)) [
    | inl f ↦ ground (arith, revoke_family_none e s (was_refresh_token_used e.sqlite hash s.db) p)
    | inr (old, f) ↦
        let same : answer digest begin e hash device request s
            ≡ rotate_found digest begin e old hash device request s =
          ground arith in
        let l = rotate_found_lem old p s f (ap (λ (x : Service × Rotated). x.1) (sym same) ∙ h) in
        subst (λ (x : Service × Rotated). Rotation s x.0 p) (sym same) l
  ]

  pub rotate_refresh_lem :
      (token : Bytes) (p : TokenPair) (s : Service)
      → token_hash digest token ≡ hash
      → find request (sweep e.now s.refresh_results) ≡ none
      → (rotate_refresh digest begin e token device request s).1 ≡ rotated p
      → Rotation
          (record s { refresh_results = sweep e.now s.refresh_results })
          (rotate_refresh digest begin e token device request s).0
          p
  unfolding rotate_refresh
  rotate_refresh_lem token p s q n h =
      let swept : Service = record s { refresh_results = sweep e.now s.refresh_results } in
      let same : rotate_refresh digest begin e token device request s
          ≡ answer digest begin e hash device request swept =
        ground arith in
      let l = answer_lem p swept n (ap (λ (x : Service × Rotated). x.1) (sym same) ∙ h) in
      subst (λ (x : Service × Rotated). Rotation swept x.0 p) (sym same) l
