-- ===== src/RateLimiter/Meter/Days.antt =====
-- src/lib/rate-limiter.ts: the meters of the day and of a device's day, and what they promise.
use io_broker_govee_smart.Base.{
  ℕ, ◌+◌, ◌-◌, ◌≤◌, Bool, true, false, ◌&&◌, String, List, Option, none, some, if◌then◌else◌, arith,
  ◌≡◌, refl, ap, All, Map, str_eq, eq_iff, Values-lookup, ◌==◌,
}
use io_broker_govee_smart.RateLimiter.State.{
  CallLane, account_list, device_read, device_control, app_api, DeviceBudget, SpentCall,
  CloudLimits, Limiter,
}
use io_broker_govee_smart.RateLimiter.Ledger.{
  count_of, charge_lane, charge_device, spend, refund, refund_window, refund_tokens, refund_device,
  refund_day,
}
use io_broker_govee_smart.RateLimiter.Loop.{clear_minute}
use io_broker_govee_smart.RateLimiter.Events.{Event, day_tick, kickoff, run_events}
use io_broker_govee_smart.RateLimiter.Sound.{IsSound}
use io_broker_govee_smart.RateLimiter.Sound.Steps.{EventAllows, run_from-IsSound}
use io_broker_govee_smart.RateLimiter.Meter.{Meter, IsMeter, Counters, one_if, runs, given_back}
use io_broker_govee_smart.RateLimiter.Meter.Windows.{count_of-insert}
use io_broker_govee_smart.RateLimiter.Meter.Count.{run_events-Counts}

abbrev pub is_day_reset : Event → Bool
is_day_reset day_tick = true
is_day_reset kickoff = true
is_day_reset _ = false

abbrev pub is_same_day : Limiter → SpentCall → Bool
is_same_day s spent = spent.day_epoch == s.day_epoch

abbrev pub day_meter : Meter
day_meter = record {
  used = λ s. s.calls_today;
  charges = λ spent. true;
  is_open = is_same_day;
  resets = is_day_reset;
}

abbrev pub is_budget_of : String → Option DeviceBudget → Bool
is_budget_of key none = false
is_budget_of key (some b) = str_eq key b.key

abbrev pub device_meter : String → Meter
device_meter key = record {
  used = λ s. count_of key s.calls_today_per_device;
  charges = λ spent. is_budget_of key spent.budget;
  is_open = is_same_day;
  resets = is_day_reset;
}

day_untouched :
    (s : Limiter) (lane : CallLane) (now : ℕ)
    → ((charge_lane s lane now).calls_today ≡ s.calls_today)
      × ((refund_window s lane).calls_today ≡ s.calls_today)
      × ((refund_tokens s lane now).calls_today ≡ s.calls_today)
      × ((charge_lane s lane now).calls_today_per_device ≡ s.calls_today_per_device)
      × ((refund_window s lane).calls_today_per_device ≡ s.calls_today_per_device)
      × ((refund_tokens s lane now).calls_today_per_device ≡ s.calls_today_per_device)
      × ((refund_window s lane).day_epoch ≡ s.day_epoch)
      × ((refund_tokens s lane now).day_epoch ≡ s.day_epoch)
unfolding charge_lane refund_window refund_tokens
day_untouched s account_list now = (refl, refl, refl, refl, refl, refl, refl, refl)
day_untouched s app_api now = (refl, refl, refl, refl, refl, refl, refl, refl)
day_untouched s (device_read key) now = (refl, refl, refl, refl, refl, refl, refl, refl)
day_untouched s (device_control key) now = (refl, refl, refl, refl, refl, refl, refl, refl)

day_spends :
    (s : Limiter) (lane : CallLane) (budget : Option DeviceBudget) (now : ℕ)
    → (spend s lane budget now).0.calls_today ≡ s.calls_today + 1
unfolding spend
day_spends s lane budget now = omega (arith, (day_untouched s lane now).0)

day_refunds :
    (s : Limiter) (spent : SpentCall) (now : ℕ)
    → s.calls_today ≤ (refund s spent now).calls_today + one_if (is_same_day s spent)
unfolding refund refund_day
day_refunds s spent now =
    let w = if spent.minute_epoch == s.minute_epoch then refund_window s spent.lane else s in
    ground (arith, day_untouched s spent.lane now, day_untouched w spent.lane now)

pub day_meter-IsMeter : IsMeter day_meter
unfolding clear_minute
day_meter-IsMeter = record {
  spends = λ s lane budget now. day_spends s lane budget now;
  refunds = λ s spent now. day_refunds s spent now;
  keeps = λ s t same. ap (λ (c : Counters). c.day) same;
  minute = λ e s. refl;
  day = λ e s. cc;
  kick = λ e. cc;
}

device_charged :
    (key : String) (budget : Option DeviceBudget) (counts : Map ℕ)
    → count_of key (charge_device budget counts)
      ≡ count_of key counts + one_if (is_budget_of key budget)
device_charged key none counts = omega arith
device_charged key (some b) counts = ground (
  arith,
  count_of-insert b.key key (count_of b.key counts + 1) counts,
  eq_iff b.key key,
  eq_iff key b.key,
)

device_given_back :
    (key : String) (budget : Option DeviceBudget) (counts : Map ℕ)
    → count_of key counts
      ≤ count_of key (refund_device budget counts) + one_if (is_budget_of key budget)
device_given_back key none counts = omega arith
device_given_back key (some b) counts = ground (
  arith,
  count_of-insert b.key key (count_of b.key counts - 1) counts,
  eq_iff b.key key,
  eq_iff key b.key,
)

device_spends :
    (key : String) (s : Limiter) (lane : CallLane) (budget : Option DeviceBudget) (now : ℕ)
    → count_of key (spend s lane budget now).0.calls_today_per_device
      ≡ count_of key s.calls_today_per_device
        + one_if (is_budget_of key (spend s lane budget now).1.budget)
unfolding spend
device_spends key s lane budget now =
    let same = (day_untouched s lane now).3 in
    rw same (device_charged key budget s.calls_today_per_device)

device_refunds :
    (key : String) (s : Limiter) (spent : SpentCall) (now : ℕ)
    → count_of key s.calls_today_per_device
      ≤ count_of key (refund s spent now).calls_today_per_device
        + one_if (is_budget_of key spent.budget && is_same_day s spent)
unfolding refund refund_day
device_refunds key s spent now =
    let w = if spent.minute_epoch == s.minute_epoch then refund_window s spent.lane else s in
    ground (
      arith,
      day_untouched s spent.lane now,
      day_untouched w spent.lane now,
      device_given_back key spent.budget s.calls_today_per_device,
    )

pub device_meter-IsMeter : (key : String) → IsMeter (device_meter key)
unfolding clear_minute
device_meter-IsMeter key = record {
  spends = λ s lane budget now. device_spends key s lane budget now;
  refunds = λ s spent now. device_refunds key s spent now;
  keeps = λ s t same. ap (λ (c : Counters). count_of key c.devices) same;
  minute = λ e s. refl;
  day = λ e s. cc;
  kick = λ e. cc;
}

-- Between two daily resets, from any sound state: all started calls together stay within the daily
-- ceiling, and those of one device within its own allowance, on top of the calls whose booking was
-- given back while its day lasted.
pub daily_limits_kept :
    (limits : CloudLimits) (allowance : ℕ) (key : String) (s : Limiter) (es : List (ℕ × Event))
    → IsSound limits allowance s
    → All (λ e. EventAllows allowance e.1) es
    → All (λ e. is_day_reset e.1 ≡ false) es
    → (runs day_meter (run_events s es).1 ≤ limits.per_day + given_back day_meter s es)
      × (runs (device_meter key) (run_events s es).1
          ≤ allowance + given_back (device_meter key) s es)
daily_limits_kept limits allowance key s es h allow keep =
    let after = (run_from-IsSound limits allowance s es allow h).within in
    let t = (run_events s es).0 in
    let device : count_of key t.calls_today_per_device ≤ allowance =
      Values-lookup (λ n. n ≤ allowance) key 0 t.calls_today_per_device (omega arith)
        after.devices_within in
    (
      omega (arith, run_events-Counts day_meter day_meter-IsMeter s es keep, after.day_within),
      omega (
        arith,
        run_events-Counts (device_meter key) (device_meter-IsMeter key) s es keep,
        device,
      ),
    )
