-- ===== src/Account/TokenManager/Stale.antt =====
-- TokenManager: a refresh that is pending while another account is loaded.
use jitong_app.Base.{ℕ, ◌<◌, ◌≡◌, ap, ◌∙◌, Bool, true, false, none, is_empty, arith}
use jitong_app.Account.TokenManager.{TokenSession, TokenManager, load_from_store, begin_refresh}
use jitong_app.Account.TokenManager.Restore.{IsStorable, IsStored, load_from_store-IsStored}

begin_refresh_pending :
    (accepts : Bool) (now : ℕ) (m : TokenManager)
    → m.refresh_in_flight ≡ true
    → is_empty m.refresh_request_id ≡ false
    → (begin_refresh accepts now m).1 ≡ m.refresh_request_id
unfolding begin_refresh
begin_refresh_pending accepts now m a b = ground arith

-- A manager has a refresh pending and loads an account whose record the store holds without a
-- request id. The account's session is loaded, and the next refresh, though of this account, gets
-- the request id that was pending before. The session has no empty field, its times are positive
-- 64-bit numbers, and its refresh token has not expired at the time of the load.
pub begin_refresh-load_from_store :
    (s : TokenSession) (accepts accepts' : Bool) (now later : ℕ) (m : TokenManager)
    → let loaded = (load_from_store accepts s.account now m).0 in
      IsStorable s
      → IsStored s none m.store
      → now < s.refresh_expire_at
      → m.refresh_in_flight ≡ true
      → is_empty m.refresh_request_id ≡ false
      → (loaded.session ≡ s) × ((begin_refresh accepts' later loaded).1 ≡ m.refresh_request_id)
begin_refresh-load_from_store s accepts accepts' now later m k h t a b =
    let same =
      ap (λ (r : TokenManager × Bool). r.0) (load_from_store-IsStored s none accepts now m k h t) in
    (
      ap (λ (n : TokenManager). n.session) same,
      ap (λ (n : TokenManager). (begin_refresh accepts' later n).1) same
          ∙ begin_refresh_pending accepts' later (record m { session = s }) a b,
    )
