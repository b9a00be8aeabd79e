-- ===== src/TimerMs.antt =====
-- src/lib/timing-constants.ts: the delays in milliseconds and their clamp. A number of JavaScript
-- that is not finite is `none`; a negative one is clamped as 0 is.
use io_broker_govee_smart.Base.{ℕ, ◌*◌, min, max, Option, or_else}

abbrev pub max_timer_ms : ℕ
max_timer_ms = 2_147_483_647

abbrev pub min_rate_limit_retry_ms : ℕ
min_rate_limit_retry_ms = 5_000

abbrev pub max_rate_limit_retry_ms : ℕ
max_rate_limit_retry_ms = 60 * 60 * 1000

abbrev pub transient_retry_ms : ℕ
transient_retry_ms = 5 * 60_000

abbrev pub cloud_unreachable_confirm_ms : ℕ
cloud_unreachable_confirm_ms = 60 * 1000

-- `clampTimerMs(ms, fallback, max)`
unfoldable pub clamp_timer_ms : Option ℕ → ℕ → ℕ → ℕ
clamp_timer_ms ms fallback most = min (max 0 (or_else ms fallback)) (min most max_timer_ms)
