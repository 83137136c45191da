-- ===== src/Server/Auth/Binding.antt =====
-- AuthHandler: what has been checked when a connection becomes that of a user.
use jitong_app.Base.{
  ℕ, ◌≡◌, refl, ap, ◌∙◌, true, false, some, [], codes, arith, Option-cases, inl, inr,
}
use jitong_app.Transport.Messages.{LoginRq, TokenLoginRq}
use jitong_app.Server.Login.{allow}
use jitong_app.Server.Tokens.{Service, Issued, issued, threw, issue, Access, validate_access}
use jitong_app.Server.DeviceKeys.{bind_device_public_key}
use jitong_app.Server.Auth.{Connection, Server, Outside, authenticated, verify_device}
use jitong_app.Server.Auth.Login.{
  on_login, is_malformed, password_credential, check_password, log_in, finish_login,
}
use jitong_app.Server.Auth.Sessions.{on_token_login, proven}

module _ {Chat : Type 0} (o : Outside Chat) (c : Connection) (s : Server Chat) where
  -- What a password login has passed.
  pub record IsChecked (rq : LoginRq) (user : ℕ) : Type 0 where
    pub admitted : (allow c.peer_address [] o.tick s.limiter).1 ≡ true
    pub admitted_account :
        (allow c.peer_address rq.tel o.tick (allow c.peer_address [] o.tick s.limiter).0).1 ≡ true
    pub well_formed : is_malformed rq c ≡ false
    pub signed :
        verify_device o c
          (codes "password-login")
          rq.device_id
          (password_credential rq)
          rq.device_public_key
          rq.device_signature
          true
        ≡ true
    pub known : o.login_user rq.tel rq.pass ≡ (0, user)
    pub bound :
        (bind_device_public_key o.inserts_key o.finds_key user rq.device_id rq.device_public_key
          s.keys).1
        ≡ true

  finish_login_lem :
      (rq : LoginRq) (user : ℕ) (t : Server Chat) (r : Service × Issued)
      → authenticated c ≡ false
      → authenticated (finish_login o rq user c t r).1 ≡ true
      → (finish_login o rq user c t r).1.user_id ≡ user
  finish_login_lem rq user t (tokens, threw) a b = ground arith
  finish_login_lem rq user t (tokens, issued p) a b = refl

  log_in_lem :
      (rq : LoginRq) (user : ℕ) (t : Server Chat)
      → authenticated c ≡ false
      → authenticated (log_in o rq user c t).1 ≡ true
      → ((log_in o rq user c t).1.user_id ≡ user)
        × ((bind_device_public_key o.inserts_key o.finds_key user rq.device_id rq.device_public_key
              t.keys).1
            ≡ true)
  unfolding log_in
  log_in_lem rq user t a b =
      let t1 : Server Chat = record t {
        keys =
            (bind_device_public_key o.inserts_key o.finds_key user rq.device_id rq.device_public_key
              t.keys).0;
      } in
      ground
        (arith, finish_login_lem rq user t1 (issue o.digest o.env user rq.device_id t1.tokens) a)

  -- The states behind the two tests of the limiter.
  abbrev after_first : Server Chat
  after_first = record s { limiter = (allow c.peer_address [] o.tick s.limiter).0 }

  abbrev after_second : LoginRq → Server Chat
  after_second rq = record s {
    limiter = (allow c.peer_address rq.tel o.tick after_first.limiter).0;
  }

  on_login_lem :
      (rq : LoginRq)
      → authenticated c ≡ false
      → authenticated (on_login o (some rq) c s).1 ≡ true
      → ((allow c.peer_address [] o.tick s.limiter).1 ≡ true)
        × (is_malformed rq c ≡ false)
        × (verify_device o c
              (codes "password-login")
              rq.device_id
              (password_credential rq)
              rq.device_public_key
              rq.device_signature
              true
            ≡ true)
        × ((on_login o (some rq) c s).1 ≡ (check_password o rq c after_first).1)
  unfolding on_login
  on_login_lem rq a b = ground arith

  check_password_lem :
      (rq : LoginRq)
      → authenticated c ≡ false
      → authenticated (check_password o rq c after_first).1 ≡ true
      → ((allow c.peer_address rq.tel o.tick after_first.limiter).1 ≡ true)
        × ((o.login_user rq.tel rq.pass).0 ≡ 0)
        × ((check_password o rq c after_first).1
            ≡ (log_in o rq (o.login_user rq.tel rq.pass).1 c (after_second rq)).1)
  unfolding check_password
  check_password_lem rq a b = ground arith

  -- A connection that had no user and has one after a password login: the limiter let the address
  -- and the account pass, the request was well formed, the device's signature was verified, the
  -- database knew the password, and the user's device has the key of the request.
  pub on_login-IsChecked :
      (rq : LoginRq)
      → authenticated c ≡ false
      → authenticated (on_login o (some rq) c s).1 ≡ true
      → IsChecked rq (on_login o (some rq) c s).1.user_id
  on_login-IsChecked rq a b =
      let user = (o.login_user rq.tel rq.pass).1 in
      let first = on_login_lem rq a b in
      let second = check_password_lem rq a (rw first.3 at b) in
      let third = log_in_lem rq user (after_second rq) a (rw (first.3, second.2) at b) in
      let same : (on_login o (some rq) c s).1.user_id ≡ user =
        ap (λ (x : Connection). x.user_id) (first.3 ∙ second.2) ∙ third.0 in
      rw same (record {
        admitted = first.0;
        admitted_account = second.0;
        well_formed = first.1;
        signed = first.2;
        known = ap (λ (n : ℕ). (n, user)) second.1;
        bound = third.1;
      })

  -- What a login by token has passed.
  pub record IsProven (rq : TokenLoginRq) (user : ℕ) : Type 0 where
    pub access : Access
    pub same_user : access.user_id ≡ user
    pub valid :
        validate_access o.digest o.env rq.access_token [] rq.device_id s.tokens ≡ some access
    pub signed :
        proven o c (codes "token-login") user rq.device_id rq.access_token rq.device_signature s
        ≡ true

  -- A connection that had no user and has one after a login by token: the token was valid for that
  -- user's session on the device of the request, and the key that the table keeps for the user and
  -- the device verified the signature.
  pub on_token_login-IsProven :
      (rq : TokenLoginRq)
      → authenticated c ≡ false
      → authenticated (on_token_login o (some rq) c s).1 ≡ true
      → IsProven rq (on_token_login o (some rq) c s).1.user_id
  unfolding on_token_login
  on_token_login-IsProven rq a b =
      elim (Option-cases
        (validate_access o.digest o.env rq.access_token [] rq.device_id s.tokens)) [
          | inl n ↦ ground arith
          | inr (access, v) ↦ record {
            access = access;
            same_user = ground arith;
            valid = v;
            signed = ground arith;
          }
        ]
