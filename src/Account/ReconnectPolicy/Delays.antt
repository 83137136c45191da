-- ===== src/Account/ReconnectPolicy/Delays.antt =====
-- ReconnectPolicy: the delays of a row of attempts.
use jitong_app.Base.{
  times-pow-suc, le-times-pow, ◌∙◌, ℕ, zero, suc, ◌+◌, ◌*◌, ◌^◌, ◌<◌, ◌≡◌, min, refl, true, Option,
  none, some, arith, List, [], ◌∷◌, length,
}
use jitong_app.Account.ReconnectPolicy.{
  ReconnectPolicy, doubled, capped, with_jitter, next_delay_ms, reset,
}

doubled_exact : (i cap delay : ℕ) → min cap (doubled i cap delay) ≡ min cap (delay * 2 ^ i)
unfolding doubled
doubled_exact zero cap delay = ground arith
doubled_exact (suc i) cap delay =
    ground
      (arith, times-pow-suc delay i, le-times-pow (delay * 2) i, doubled_exact i cap (2 * delay))

pub or_zero : Option ℕ → ℕ
or_zero none = 0
or_zero (some j) = j

-- One call after the other, each with its jitter.
unfoldable pub calls : List (Option ℕ) → ReconnectPolicy → ReconnectPolicy
calls [] p = p
calls (j ∷ js) p = calls js (next_delay_ms j p).0

next_delay_exact :
    (j : Option ℕ) (p : ReconnectPolicy)
    → p.enabled ≡ true
    → (next_delay_ms j p).1
      ≡ some (min p.max_ms (min p.max_ms (p.base_ms * 2 ^ p.attempt) + or_zero j))
unfolding next_delay_ms with_jitter capped or_zero
next_delay_exact none p e = ground (arith, doubled_exact p.attempt p.max_ms p.base_ms)
next_delay_exact (some j) p e = ground (arith, doubled_exact p.attempt p.max_ms p.base_ms)

-- The policy after some calls.
record Called (p p' : ReconnectPolicy) (n : ℕ) : Type 0 where
  base_ms : p'.base_ms ≡ p.base_ms
  max_ms : p'.max_ms ≡ p.max_ms
  enabled : p'.enabled ≡ true
  attempt : p'.attempt ≡ p.attempt + n

calls-Called :
    (js : List (Option ℕ)) (p : ReconnectPolicy)
    → p.enabled ≡ true
    → p.attempt + length js < 4294967296
    → Called p (calls js p) (length js)
unfolding calls next_delay_ms
calls-Called [] p e h = record { base_ms = refl; max_ms = refl; enabled = e; attempt = omega arith }
calls-Called (j ∷ js) p e h =
    let p1 = (next_delay_ms j p).0 in
    let c = calls-Called js p1 (ground (arith, e)) (ground (arith, e, h)) in
    record {
      base_ms = ground (arith, e, c.base_ms);
      max_ms = ground (arith, e, c.max_ms);
      enabled = c.enabled;
      attempt = ground (arith, e, h, c.attempt);
    }

-- After a reset and `n` calls, fewer than 2^32 of them and with any jitter, the next delay is the
-- base doubled n times, cut off at the limit, plus this call's jitter, cut off at the limit again.
pub delay_exact :
    (js : List (Option ℕ)) (j : Option ℕ) (p : ReconnectPolicy)
    → length js < 4294967296
    → (next_delay_ms j (calls js (reset p))).1
      ≡ some (min p.max_ms (min p.max_ms (p.base_ms * 2 ^ length js) + or_zero j))
unfolding reset
delay_exact js j p h =
    let c = calls-Called js (reset p) refl (omega arith) in
    let n : (calls js (reset p)).attempt ≡ length js = omega (arith, c.attempt) in
    next_delay_exact j (calls js (reset p)) c.enabled ∙ rw (c.max_ms, c.base_ms, n) refl
