-- ===== src/Account/ReconnectPolicy.antt =====
-- client_core/include/client_core/ReconnectPolicy.h and src/account/ReconnectPolicy.cpp. The source of
-- jitter is outside: `jitter` is what `static_cast<int64_t>(frac * jitterMax)` gives in this call, or
-- `none` where there is no source or no positive ratio.
pub mod Delays
use jitong_app.Base.{
  ℕ, zero, suc, ◌+◌, ◌*◌, ◌%◌, min, Bool, true, false, Option, none, some, leb, ltb, if◌then◌else◌,
}

pub record ReconnectPolicy : Type 0 where
  pub base_ms : ℕ
  pub max_ms : ℕ
  pub attempt : ℕ
  pub enabled : Bool

unfoldable pub new : ℕ → ℕ → ReconnectPolicy
new base max = record { base_ms = base; max_ms = max; attempt = 0; enabled = true }

-- The loop over `i < m_attempt`, which is left at the cap.
unfoldable pub doubled : ℕ → ℕ → ℕ → ℕ
doubled zero cap delay = delay
doubled (suc i) cap delay = elim (leb cap (2 * delay)) [
  | true ↦ cap
  | false ↦ doubled i cap (2 * delay)
]

unfoldable pub capped : ℕ → ℕ → ℕ
capped cap delay = if ltb cap delay then cap else delay

abbrev pub u32 : ℕ → ℕ
u32 n = n % 4294967296

unfoldable pub with_jitter : ℕ → Option ℕ → ℕ → ℕ
unfolding capped
with_jitter cap none delay = delay
with_jitter cap (some j) delay = capped cap (delay + j)

-- nextDelayMs, with `none` for -1.
unfoldable pub next_delay_ms : Option ℕ → ReconnectPolicy → ReconnectPolicy × Option ℕ
unfolding doubled with_jitter
next_delay_ms jitter p =
    if p.enabled
    then (
      record p { attempt = u32 (p.attempt + 1) },
      some (with_jitter p.max_ms jitter (capped p.max_ms (doubled p.attempt p.max_ms p.base_ms))),
    )
    else (p, none)

unfoldable pub reset : ReconnectPolicy → ReconnectPolicy
reset p = record p { attempt = 0; enabled = true }

unfoldable pub disable : ReconnectPolicy → ReconnectPolicy
disable p = record p { enabled = false }

unfoldable pub enable : ReconnectPolicy → ReconnectPolicy
enable p = record p { enabled = true }
