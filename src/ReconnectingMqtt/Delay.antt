-- ===== src/ReconnectingMqtt/Delay.antt =====
-- src/lib/reconnecting-mqtt-client.ts: how long a reconnect waits, and that the wait is enough.
use io_broker_govee_smart.Base.{
  ℕ, zero, suc, ◌+◌, ◌-◌, ◌*◌, ◌/◌, ◌^◌, ◌≤◌, ◌<◌, min, ltb, arith, ◌≡◌, length, length-keep, keep,
  is_recent, IsOrdered, IsOrdered-keep, length-keep-is_recent, Bool-cases, inl, inr,
}
use io_broker_govee_smart.ReconnectingMqtt.{
  reconnect_backoff, compute_backoff_delay, MqttLink, connect_wait_ms, connect_window_ms,
}

mul_le_mul : (a b c : ℕ) → a ≤ b → a * c ≤ b * c
mul_le_mul a b c h = grind arith

pow_pos : (n : ℕ) → 1 ≤ 2 ^ n
pow_pos zero = omega arith
pow_pos (suc n) = omega (arith, pow_pos n)

two_to : (attempt : ℕ) → 1 ≤ attempt → 2 ≤ 2 ^ attempt
two_to zero h = absurd (omega arith)
two_to (suc n) h = omega (arith, pow_pos n)

-- From the first attempt on, and with whatever jitter, the delay of a reconnect is from 5 seconds to
-- 150 seconds.
pub compute_backoff_delay_bounds :
    (attempt r : ℕ)
    → 1 ≤ attempt
    → r < 2 ^ 53
    → (5000 ≤ compute_backoff_delay attempt reconnect_backoff r)
      × (compute_backoff_delay attempt reconnect_backoff r ≤ 150000)
unfolding compute_backoff_delay
compute_backoff_delay_bounds attempt r first h =
    let base = min (5000 * 2 ^ attempt / 2) 120000 in
    let jitter = min base 30000 in
    let most : r * jitter ≤ 2 ^ 53 * jitter = mul_le_mul r (2 ^ 53) jitter (omega arith) in
    (omega (arith, two_to attempt first), omega (arith, most))

-- The wait is enough: when it is over, and no connect was made meanwhile, one more connect fits.
-- (The times of the connects are in order.)
pub connect_wait_ms_enough :
    (s : MqttLink) (now later : ℕ)
    → IsOrdered s.connect_times
    → now + (connect_wait_ms s now).1 ≤ later
    → (connect_wait_ms (connect_wait_ms s now).0 later).1 ≡ 0
unfolding connect_wait_ms
connect_wait_ms_enough s now later h le =
    let recent = keep (is_recent connect_window_ms now) s.connect_times in
    let ordered = IsOrdered-keep (is_recent connect_window_ms now) s.connect_times h in
    let fewer = length-keep (is_recent connect_window_ms later) recent in
    let still = length (keep (is_recent connect_window_ms later) recent) in
    let few : still < 2 = elim (Bool-cases (ltb (length recent) 2)) [
      | inl e ↦ ground arith
      | inr e ↦
          let gone =
            length-keep-is_recent connect_window_ms later (length recent - 2) recent ordered
              (ground arith) (ground arith) in
          ground arith
    ] in
    ground arith
