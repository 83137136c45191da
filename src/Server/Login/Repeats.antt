-- ===== src/Server/Login/Repeats.antt =====
-- LoginRateLimiter: enough failures in a window block the account at the address.
use mathlib.Core.List.{append_assoc, append-nil}
use jitong_app.Base.{
  ℕ, ◌+◌, ◌≤◌, ◌<◌, ◌≡◌, refl, sym, ap, ◌∙◌, true, false, Option, List, [], ◌∷◌, ◌++◌, Bytes,
  is_empty, length, length-append, All, All-append, arith,
}
use jitong_app.Base.Dict.{find, bytes_Eq}
use jitong_app.Server.Login.{
  Policy, Bucket, Limiter, or_new, pair_key, drop_old, blocked, blocked_at, fail_bucket, allow,
  record_failure,
}
use jitong_app.Server.Login.Buckets.{drop_old-append}
use jitong_app.Server.Login.Blocking.{
  Inv, record_failure-Inv, policy-record_failure, find-record_failure, allow_lem,
}

-- One failure after the other.
unfoldable pub fail_times : Bytes → Bytes → List ℕ → Limiter → Limiter
fail_times ip account [] l = l
fail_times ip account (t ∷ ts) l = fail_times ip account ts (record_failure ip account t l)

abbrev pub IsIn : ℕ → ℕ → ℕ → Type 0
IsIn first window t = (first ≤ t) × (t ≤ first + window)

pub failures_of : Bytes → Bytes → Limiter → List ℕ
failures_of ip account l = (or_new (find (pair_key ip account) l.pair_buckets)).failures

is_recent :
    (first window now : ℕ) (ts : List ℕ)
    → IsIn first window now
    → All (IsIn first window) ts
    → All (λ (t : ℕ). now ≤ t + window) ts
is_recent first window now [] h hs = tt
is_recent first window now (t ∷ ts) h hs = (omega arith, is_recent first window now ts h hs.1)

failures-record_failure :
    (ip account : Bytes) (now : ℕ) (l : Limiter)
    → is_empty account ≡ false
    → Inv l
    → failures_of ip account (record_failure ip account now l)
      ≡ drop_old l.policy.window now (failures_of ip account l) ++ now ∷ []
unfolding failures_of fail_bucket
failures-record_failure ip account now l a v =
    ap (λ (o : Option Bucket). (or_new o).failures) (find-record_failure ip account now l a v)

failures-fail_times :
    (ip account : Bytes) (first : ℕ) (ts recent old : List ℕ) (l : Limiter)
    → is_empty account ≡ false
    → Inv l
    → failures_of ip account l ≡ old ++ recent
    → All (IsIn first l.policy.window) recent
    → All (IsIn first l.policy.window) ts
    → (older : List ℕ) × (failures_of ip account (fail_times ip account ts l)
        ≡ older ++ (recent ++ ts))
unfolding fail_times
failures-fail_times ip account first [] recent old l a v e r h =
    (old, e ∙ ap (λ (x : List ℕ). old ++ x) (sym (append-nil recent)))
failures-fail_times ip account first (t ∷ ts) recent old l a v e r h =
    let w = l.policy.window in
    let now_here =
      failures-record_failure ip account t l a v
      ∙ ap (λ (x : List ℕ). drop_old w t x ++ t ∷ []) e
      ∙ ap (λ (x : List ℕ). x ++ t ∷ [])
          (drop_old-append w t old recent (is_recent first w t recent h.0 r))
      ∙ append_assoc (drop_old w t old) recent (t ∷ []) in
    let same = policy-record_failure ip account t l in
    let later =
      failures-fail_times ip account first ts (recent ++ t ∷ []) (drop_old w t old)
        (record_failure ip account t l) a (record_failure-Inv ip account t l v) now_here
        (rw same (All-append _ recent (t ∷ []) r (h.0, tt))) (rw same h.1) in
    (later.0, later.1 ∙ ap (λ (x : List ℕ). later.0 ++ x) (append_assoc recent (t ∷ []) ts))

Inv-fail_times :
    (ip account : Bytes) (ts : List ℕ) (l : Limiter) → Inv l → Inv (fail_times ip account ts l)
unfolding fail_times
Inv-fail_times ip account [] l v = v
Inv-fail_times ip account (t ∷ ts) l v =
    Inv-fail_times ip account ts (record_failure ip account t l)
      (record_failure-Inv ip account t l v)

policy-fail_times :
    (ip account : Bytes) (ts : List ℕ) (l : Limiter)
    → (fail_times ip account ts l).policy ≡ l.policy
unfolding fail_times
policy-fail_times ip account [] l = refl
policy-fail_times ip account (t ∷ ts) l =
    policy-fail_times ip account ts (record_failure ip account t l)
    ∙ policy-record_failure ip account t l

blocks_after :
    (p : Policy) (now later : ℕ) (b : Bucket)
    → p.pair_failure_limit ≤ length (drop_old p.window now b.failures) + 1
    → later < now + p.pair_block
    → blocked (fail_bucket p p.pair_failure_limit p.pair_block now b) later ≡ true
unfolding fail_bucket
blocks_after p now later b h k =
    ground (arith, length-append (drop_old p.window now b.failures) (now ∷ []))

-- Take failures of one account at one address, at the times `ts` and then `last`, all of them
-- inside one window that starts at `first`, and as many as the policy's limit for the pair. At any
-- time before `last` plus the policy's block of the pair, `allow` refuses this account at this
-- address, whatever failures the limiter held before. The account is not empty, and no key stands
-- twice in the limiter's maps.
pub repeated_failures_block :
    (ip account : Bytes) (first last later : ℕ) (ts : List ℕ) (l : Limiter)
    → is_empty account ≡ false
    → Inv l
    → All (IsIn first l.policy.window) ts
    → IsIn first l.policy.window last
    → l.policy.pair_failure_limit ≤ length ts + 1
    → later < last + l.policy.pair_block
    → (allow ip account later (record_failure ip account last (fail_times ip account ts l))).1
      ≡ false
unfolding blocked_at failures_of
repeated_failures_block ip account first last later ts l a v h hl enough soon =
    let before = fail_times ip account ts l in
    let after = record_failure ip account last before in
    let same = policy-fail_times ip account ts l in
    let held =
      failures-fail_times ip account first ts [] (failures_of ip account l) l a v
        (sym (append-nil (failures_of ip account l))) tt h in
    let b = or_new (find (pair_key ip account) before.pair_buckets) in
    let w = before.policy.window in
    let kept : drop_old w last b.failures ≡ drop_old w last held.0 ++ ts =
      ap (drop_old w last) held.1
      ∙ drop_old-append w last held.0 ts (rw same (is_recent first l.policy.window last ts hl h)) in
    let found = find-record_failure ip account last before a (Inv-fail_times ip account ts l v) in
    let blocks : blocked
          (fail_bucket before.policy before.policy.pair_failure_limit before.policy.pair_block last
            b)
          later
        ≡ true =
      blocks_after before.policy last later b
        (rw (kept, same) (ground (arith, length-append (drop_old w last held.0) ts)))
        (rw same soon) in
    allow_lem ip account later after ∙ ground (arith, found, blocks)
