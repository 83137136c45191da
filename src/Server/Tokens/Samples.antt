-- ===== src/Server/Tokens/Samples.antt =====
-- Sample data: a login, a refresh, the revocation of another session, and the first token again.
use jitong_app.Base.{ℕ, ◌+◌, true, false, none, some, List, [], ◌∷◌, Bytes, codes}
use jitong_app.Base.Dict.{bytes_Eq}
use jitong_app.Server.AuthTable.{AuthSession, Sqlite}
use jitong_app.Server.Tokens.{TokenPair, Results, Service, Env, Issued, issued, to_hex, issue}
use jitong_app.Server.Tokens.Rotate.{Rotated, rotated, refused, rotate_refresh}
use jitong_app.Server.Tokens.Runs.{Event, revokes_session, run}

abbrev pub good : Sqlite
good = record {
  inserts = true;
  finds = true;
  rotates = true;
  finds_used = true;
  finds_user = true;
  prepares_revoke = true;
  runs_revoke = true;
  stamp = 5;
}

-- The k-th draw of a call is the byte `seed + k`.
abbrev pub env : ℕ → ℕ → Env
env now seed = record { now = now; random = λ k. some ((seed + k) ∷ []); sqlite = good }

-- The digest of a token is the token, and a map's iteration begins at its first key.
abbrev pub digest : Bytes → Bytes
digest t = t

abbrev pub begin : Results → Bytes
begin [] = []
begin ((k, c) ∷ m) = k

abbrev pub empty : Service
empty = record { db = record { sessions = []; history = [] }; refresh_results = [] }

abbrev pub phone : Bytes
phone = codes "phone"

abbrev pub pair_of : Rotated → TokenPair
pair_of (rotated p) = p
pair_of _ = record {
  session_id = [];
  family_id = [];
  access_token = [];
  refresh_token = [];
  access_expires_at = 0;
  refresh_expires_at = 0;
}

abbrev pub first_pair : Issued → TokenPair
first_pair (issued p) = p
first_pair _ = pair_of (refused none)

abbrev pub at_login : Service × Issued
at_login = issue digest (env 1000 16) 7 phone empty

abbrev pub first : TokenPair
first = first_pair at_login.1

abbrev pub at_refresh : Service × Rotated
at_refresh =
    rotate_refresh digest begin (env 1060 32) first.refresh_token phone (codes "r1") at_login.0

abbrev pub second : TokenPair
second = pair_of at_refresh.1

-- The row of the login, as the refresh finds it.
abbrev pub old_row : AuthSession
old_row = record {
  session_id = codes "10";
  family_id = codes "11";
  user_id = 7;
  device_id = phone;
  access_hash = to_hex (codes "12");
  access_expires_at = 1300;
  refresh_hash = to_hex (codes "13");
  refresh_expires_at = 173800;
  generation = 1;
  revoked = false;
}

-- Between the refresh and the reuse, another session is revoked.
abbrev pub between : List Event
between = revokes_session (env 1070 0) (codes "zz") ∷ []

abbrev pub after : Service
after = run digest begin between at_refresh.0

abbrev pub again : Service × Rotated
again = rotate_refresh digest begin (env 1080 96) first.refresh_token phone (codes "r2") after
