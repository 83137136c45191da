-- ===== src/Server/Tokens/Stable.antt =====
-- TokenService: properties of the tables that every call keeps.
use jitong_app.Base.{◌≡◌, ◌≢◌, false, Bytes, bytes_eq, bytes_eq_iff, arith}
use jitong_app.Base.Dict.{bytes_Eq}
use jitong_app.Server.AuthTable.{c_str, create_auth_session, new_session}
use jitong_app.Server.AuthTable.Unique.{
  Apart, insert_session-Apart, revoke_token_family-Apart, revoke_where-Apart,
  rotate_refresh_token-Apart,
}
use jitong_app.Server.AuthTable.Revoked.{
  IsRevoked, insert_session-IsRevoked, revoke_token_family-IsRevoked, revoke_where-IsRevoked,
  rotate_refresh_token-IsRevoked,
}
use jitong_app.Server.AuthTable.History.{
  IsSpent, insert_session-IsSpent, revoke_token_family-IsSpent, revoke_where-IsSpent,
  rotate_refresh_token-IsSpent,
}
use jitong_app.Server.Tokens.{token_hash}
use jitong_app.Server.Tokens.Runs.{IsStable}
use jitong_app.Server.Tokens.Fresh.{c_str-token_hash}

abbrev pub Any : Bytes → Type 0
Any t = Unit

module _ (digest : Bytes → Bytes) where
  pub Apart-IsStable : IsStable digest Any Any (λ d. Apart d.sessions)
  Apart-IsStable = record {
    inserts = λ q sid family user device access au token ru d a b h.
        unfold create_auth_session in
        insert_session-Apart q
          (new_session sid family user device access au (token_hash digest token) ru) d h;
    rotates = λ q old old_hash access au token ru d a h.
        rotate_refresh_token-Apart q old old_hash access (token_hash digest token) au ru d h;
    revokes_family = revoke_token_family-Apart;
    revokes = revoke_where-Apart;
  }

  -- An issued session is of another family.
  abbrev pub IsOther : Bytes → Bytes → Type 0
  IsOther family f = c_str f ≢ family

  pub IsRevoked-IsStable :
      (family : Bytes) → IsStable digest (IsOther family) Any (λ d. IsRevoked family d.sessions)
  IsRevoked-IsStable family = record {
    inserts = λ q sid f user device access au token ru d a b h.
        unfold create_auth_session in
        insert_session-IsRevoked family q
          (new_session sid f user device access au (token_hash digest token) ru) d
          (ground (arith, a, bytes_eq_iff (c_str f) family)) h;
    rotates = λ q old old_hash access au token ru d a h.
        rotate_refresh_token-IsRevoked family q old old_hash access (token_hash digest token) au ru
          d h;
    revokes_family = revoke_token_family-IsRevoked family;
    revokes = revoke_where-IsRevoked family;
  }

  -- A token whose hash is another.
  abbrev pub Differs : Bytes → Bytes → Type 0
  Differs hash t = token_hash digest t ≢ hash

  pub differs :
      (hash t : Bytes) → Differs hash t → bytes_eq (c_str (token_hash digest t)) hash ≡ false
  differs hash t n =
      rw (c_str-token_hash digest t) (ground (arith, n, bytes_eq_iff (token_hash digest t) hash))

  pub IsSpent-IsStable :
      (hash family : Bytes) → IsStable digest Any (Differs hash) (IsSpent hash family)
  IsSpent-IsStable hash family = record {
    inserts = λ q sid f user device access au token ru d a b h.
        unfold create_auth_session in
        insert_session-IsSpent hash family q
          (new_session sid f user device access au (token_hash digest token) ru) d
          (differs hash token b) h;
    rotates = λ q old old_hash access au token ru d a h.
        rotate_refresh_token-IsSpent hash family q old old_hash access (token_hash digest token) au
          ru d (differs hash token a) h;
    revokes_family = revoke_token_family-IsSpent hash family;
    revokes = revoke_where-IsSpent hash family;
  }
