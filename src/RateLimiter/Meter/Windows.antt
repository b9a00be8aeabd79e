-- ===== src/RateLimiter/Meter/Windows.antt =====
-- src/lib/rate-limiter.ts: the meters of the minute windows, of the day and of a device's day, and
-- what they promise to Govee.
use io_broker_govee_smart.Base.{
  ℕ, ◌+◌, ◌-◌, ◌≤◌, Bool, true, false, ◌&&◌, String, List, Option, if◌then◌else◌, arith, ◌≡◌, refl,
  ap, if_cases, All, insert, Map, lookup-insert, str_eq, eq_iff, Values-lookup, ◌==◌,
}
use io_broker_govee_smart.RateLimiter.State.{
  CallLane, account_list, device_read, device_control, app_api, DeviceBudget, SpentCall,
  CloudLimits, Limiter,
}
use io_broker_govee_smart.RateLimiter.Ledger.{
  count_of, charge_lane, spend, refund, refund_window, refund_tokens, refund_day,
}
use io_broker_govee_smart.RateLimiter.Loop.{reset_daily}
use io_broker_govee_smart.RateLimiter.Events.{Event, minute_tick, run_events}
use io_broker_govee_smart.RateLimiter.Within.{IsWithin}
use io_broker_govee_smart.RateLimiter.Sound.{IsSound}
use io_broker_govee_smart.RateLimiter.Sound.Steps.{EventAllows, run_from-IsSound}
use io_broker_govee_smart.RateLimiter.Meter.{
  Meter, IsMeter, Counters, counters, one_if, runs, given_back,
}
use io_broker_govee_smart.RateLimiter.Meter.Count.{run_events-Counts}

-- A window that is counted by the minute.
pub data Window : Type 0 where
  account_window app_window : Window
  device_window : String → Window

abbrev pub is_charged : Window → CallLane → Bool
is_charged account_window account_list = true
is_charged app_window app_api = true
is_charged (device_window key) (device_read other) = str_eq key other
is_charged _ _ = false

abbrev pub window_used : Window → Counters → ℕ
window_used account_window c = c.account_list
window_used app_window c = c.app_api
window_used (device_window key) c = count_of key c.device_read

abbrev pub window_limit : Window → CloudLimits → ℕ
window_limit account_window limits = limits.account_list_per_minute
window_limit app_window limits = limits.app_api_per_minute
window_limit (device_window key) limits = limits.device_read_per_minute

abbrev pub is_minute_tick : Event → Bool
is_minute_tick minute_tick = true
is_minute_tick _ = false

abbrev pub is_same_minute : Limiter → SpentCall → Bool
is_same_minute s spent = spent.minute_epoch == s.minute_epoch

abbrev pub window_meter : Window → Meter
window_meter w = record {
  used = λ s. window_used w (counters s);
  charges = λ spent. is_charged w spent.lane;
  is_open = is_same_minute;
  resets = is_minute_tick;
}

pub count_of-insert :
    (k j : String) (v : ℕ) (m : Map ℕ)
    → count_of j (insert k v m) ≡ (if str_eq k j then v else count_of j m)
count_of-insert k j v m = ground (arith, lookup-insert k j v m)

window_spends :
    (w : Window) (s : Limiter) (lane : CallLane) (budget : Option DeviceBudget) (now : ℕ)
    → window_used w (counters (spend s lane budget now).0)
      ≡ window_used w (counters s) + one_if (is_charged w (spend s lane budget now).1.lane)
unfolding spend charge_lane
window_spends account_window s account_list budget now = refl
window_spends app_window s app_api budget now = refl
window_spends (device_window key) s (device_read other) budget now = ground (
  arith,
  count_of-insert other key (count_of other s.device_read_used + 1) s.device_read_used,
  eq_iff other key,
  eq_iff key other,
)
window_spends w s lane budget now = omega arith

window_refunded :
    (w : Window) (s : Limiter) (lane : CallLane)
    → window_used w (counters s)
      ≤ window_used w (counters (refund_window s lane)) + one_if (is_charged w lane)
unfolding refund_window
window_refunded account_window s account_list = omega arith
window_refunded app_window s app_api = omega arith
window_refunded (device_window key) s (device_read other) = ground (
  arith,
  count_of-insert other key (count_of other s.device_read_used - 1) s.device_read_used,
  eq_iff other key,
  eq_iff key other,
)
window_refunded w s lane = omega arith

-- The windows are left alone by what is given back of the buckets and of the day.
window_untouched :
    (w : Window) (s : Limiter) (lane : CallLane) (budget : Option DeviceBudget) (now : ℕ)
    → (window_used w (counters (refund_tokens s lane now)) ≡ window_used w (counters s))
      × (window_used w (counters (refund_day s budget)) ≡ window_used w (counters s))
unfolding refund_tokens refund_day
window_untouched account_window s (device_control key) budget now = (refl, refl)
window_untouched app_window s (device_control key) budget now = (refl, refl)
window_untouched (device_window k) s (device_control key) budget now = (refl, refl)
window_untouched account_window s _ budget now = (refl, refl)
window_untouched app_window s _ budget now = (refl, refl)
window_untouched (device_window k) s _ budget now = (refl, refl)

window_refunds :
    (w : Window) (s : Limiter) (spent : SpentCall) (now : ℕ)
    → window_used w (counters s)
      ≤ window_used w (counters (refund s spent now))
        + one_if (is_charged w spent.lane && is_same_minute s spent)
unfolding refund
window_refunds w s spent now =
    let v = if spent.minute_epoch == s.minute_epoch then refund_window s spent.lane else s in
    let t = refund_tokens v spent.lane now in
    let first : window_used w (counters s)
        ≤ window_used w (counters v) + one_if (is_charged w spent.lane && is_same_minute s spent) =
      if_cases
        (λ u.
          window_used w (counters s)
          ≤ window_used w (counters u) + one_if (is_charged w spent.lane && is_same_minute s spent))
        (spent.minute_epoch == s.minute_epoch) (λ e. ground (arith, window_refunded w s spent.lane))
        (λ e. omega arith) in
    let left = window_untouched w v spent.lane spent.budget now in
    if_cases
      (λ u.
        window_used w (counters s)
        ≤ window_used w (counters u) + one_if (is_charged w spent.lane && is_same_minute s spent))
      (spent.day_epoch == t.day_epoch)
      (λ e. omega (arith, first, left.0, (window_untouched w t spent.lane spent.budget now).1))
      (λ e. omega (arith, first, left.0))

window_next_day :
    (w : Window) (s : Limiter)
    → window_used w (counters (reset_daily s).0) ≡ window_used w (counters s)
unfolding reset_daily
window_next_day account_window s = refl
window_next_day app_window s = refl
window_next_day (device_window key) s = refl

pub window_meter-IsMeter : (w : Window) → IsMeter (window_meter w)
window_meter-IsMeter w = record {
  spends = λ s lane budget now. window_spends w s lane budget now;
  refunds = λ s spent now. window_refunds w s spent now;
  keeps = λ s t same. ap (window_used w) same;
  minute = λ e s. cc;
  day = λ e s. window_next_day w s;
  kick = λ e. refl;
}

window_within :
    (w : Window) (limits : CloudLimits) (allowance : ℕ) (s : Limiter)
    → IsWithin limits allowance s
    → window_used w (counters s) ≤ window_limit w limits
window_within account_window limits allowance s h = h.account_list_within
window_within app_window limits allowance s h = h.app_api_within
window_within (device_window key) limits allowance s h =
    Values-lookup (λ n. n ≤ limits.device_read_per_minute) key 0 s.device_read_used (omega arith)
      h.device_read_within

-- Between two resets of the minute, whatever calls come and whatever settles, no more calls of a
-- lane are started than its limit per minute, on top of those whose booking was given back while the
-- minute that it was made in lasted.
-- This holds for the account's lists, the app API and the reads of each single device, from any
-- sound state.
pub window_limit_kept :
    (w : Window) (limits : CloudLimits) (allowance : ℕ) (s : Limiter) (es : List (ℕ × Event))
    → IsSound limits allowance s
    → All (λ e. EventAllows allowance e.1) es
    → All (λ e. is_minute_tick e.1 ≡ false) es
    → runs (window_meter w) (run_events s es).1
      ≤ window_limit w limits + given_back (window_meter w) s es
window_limit_kept w limits allowance s es h allow keep =
    let after = run_from-IsSound limits allowance s es allow h in
    omega (
      arith,
      run_events-Counts (window_meter w) (window_meter-IsMeter w) s es keep,
      window_within w limits allowance (run_events s es).0 after.within,
    )
