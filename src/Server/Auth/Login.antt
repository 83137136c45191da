-- ===== src/Server/Auth/Login.antt =====
-- AuthHandler::onRegister and onLogin, with the checks of their fields.
use jitong_app.Base.{
  ℕ, Bool, true, false, not, ◌&&◌, ◌||◌, Option, none, some, [], ◌∷◌, ◌++◌, Bytes, codes, ltb, leb,
  ◌==◌, if◌then◌else◌, length, is_empty,
}
use jitong_app.Transport.Messages.{RegisterRq, LoginRq, LoginRs}
use jitong_app.Server.Login.{allow, record_failure, record_success}
use jitong_app.Server.Tokens.{TokenPair, Service, Issued, issued, threw, issue}
use jitong_app.Server.DeviceKeys.{bind_device_public_key}
use jitong_app.Server.Auth.{
  register_rs, login_rs, Connection, Server, Outside, authenticated, bind_auth, deliver,
  verify_device, activate_session,
}

abbrev is_digit : ℕ → Bool
is_digit c = leb 48 c && leb c 57

unfoldable pub all_of : (ℕ → Bool) → Bytes → Bool
all_of p [] = true
all_of p (c ∷ s) = p c && all_of p s

-- Eleven digits that begin with 1 and one of 3 to 9.
unfoldable pub valid_mainland_mobile : Bytes → Bool
valid_mainland_mobile (a ∷ b ∷ s) =
    length s == 9 && (a == 49 && (leb 51 b && (leb b 57 && all_of is_digit (a ∷ b ∷ s))))
valid_mainland_mobile _ = false

abbrev is_hex : ℕ → Bool
is_hex c = is_digit c || (leb 97 c && leb c 102 || leb 65 c && leb c 70)

unfoldable pub valid_sha256_proof : Bytes → Bool
valid_sha256_proof proof = length proof == 64 && all_of is_hex proof

-- REGISTER_INVALID is 4 and USER_NICK_LEN 30.
unfoldable pub on_register :
    {Chat : Type 0} → Outside Chat → Option RegisterRq → Connection → Server Chat → Server Chat
on_register o none c s = s
on_register o (some rq) c s =
    if is_empty rq.nick
      || (leb 30 (length rq.nick)
          || (not (valid_mainland_mobile rq.tel) || not (valid_sha256_proof rq.pass)))
    then deliver c.id (register_rs 4) s
    else deliver c.id (register_rs (o.register_user rq.nick rq.tel rq.pass)) s

-- LoginRs with a result and nothing else.
abbrev pub only_result : ℕ → LoginRs
only_result result = record {
  userid = 0;
  result = result;
  access_token = [];
  refresh_token = [];
  access_token_expire_at = 0;
  refresh_token_expire_at = 0;
  session_id = [];
}

abbrev pub login_result : ℕ → TokenPair → LoginRs
login_result user p = record {
  userid = user;
  result = 0;
  access_token = p.access_token;
  refresh_token = p.refresh_token;
  access_token_expire_at = p.access_expires_at;
  refresh_token_expire_at = p.refresh_expires_at;
  session_id = p.session_id;
}

-- What the login asks of its request before it looks at any credential.
unfoldable pub is_malformed : LoginRq → Connection → Bool
is_malformed rq c =
    not (valid_mainland_mobile rq.tel)
    || (not (valid_sha256_proof rq.pass)
        || (is_empty rq.device_id
            || (ltb 128 (length rq.device_id)
                || (authenticated c
                    || (is_empty rq.device_public_key || is_empty rq.device_signature)))))

abbrev pub password_credential : LoginRq → Bytes
password_credential rq = rq.tel ++ 0 ∷ rq.pass

module _ {Chat : Type 0} where
  abbrev pub reject : ℕ → Connection → Server Chat → Server Chat × Connection
  reject result c s = (deliver c.id (login_rs (only_result result)) s, c)

  abbrev pub fail : Outside Chat → Connection → Bytes → Server Chat → Server Chat
  fail o c account s = record s { limiter = record_failure c.peer_address account o.tick s.limiter }

  -- The end of a login whose tokens were issued, or not.
  abbrev pub finish_login :
      Outside Chat
      → LoginRq
      → ℕ
      → Connection
      → Server Chat
      → Service × Issued
      → Server Chat × Connection
  finish_login o rq user c s (tokens, threw) = reject 2 c s
  finish_login o rq user c s (tokens, issued p) =
      let s1 = deliver c.id (login_rs (login_result user p)) (record s { tokens = tokens }) in
      (
        activate_session o c.id user
            (record s1 { limiter = record_success c.peer_address rq.tel s1.limiter }),
        bind_auth user p.session_id rq.device_id p.access_expires_at c,
      )

  unfoldable pub log_in :
      Outside Chat → LoginRq → ℕ → Connection → Server Chat → Server Chat × Connection
  log_in o rq user c s =
      let bound =
        bind_device_public_key o.inserts_key o.finds_key user rq.device_id rq.device_public_key
          s.keys in
      let s1 : Server Chat = record s { keys = bound.0 } in
      if not bound.1
      then reject 2 c s1
      else finish_login o rq user c s1 (issue o.digest o.env user rq.device_id s1.tokens)

  -- From the second test of the limiter on.
  unfoldable pub check_password :
      Outside Chat → LoginRq → Connection → Server Chat → Server Chat × Connection
  check_password o rq c s =
      let admitted = allow c.peer_address rq.tel o.tick s.limiter in
      let s1 : Server Chat = record s { limiter = admitted.0 } in
      let found = o.login_user rq.tel rq.pass in
      if not admitted.1
      then reject 4 c s1
      else if not (found.0 == 0)
      then reject found.0 c (fail o c rq.tel s1)
      else log_in o rq found.1 c s1

  -- LOGIN_PASSERROR is 2, LOGIN_INVALID 3 and LOGIN_RATE_LIMITED 4.
  unfoldable pub on_login :
      Outside Chat → Option LoginRq → Connection → Server Chat → Server Chat × Connection
  on_login o none c s = (s, c)
  on_login o (some rq) c s =
      let admitted = allow c.peer_address [] o.tick s.limiter in
      let s1 : Server Chat = record s { limiter = admitted.0 } in
      if not admitted.1
      then reject 4 c s1
      else if is_malformed rq c
      then reject 3 c (fail o c [] s1)
      else if not (
          verify_device o c (codes "password-login") rq.device_id (password_credential rq)
            rq.device_public_key rq.device_signature true)
      then reject 2 c (fail o c rq.tel s1)
      else check_password o rq c s1
