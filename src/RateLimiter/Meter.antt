-- ===== src/RateLimiter/Meter.antt =====
-- src/lib/rate-limiter.ts: a counter of the limiter as a meter of the calls that are really
-- started, with the laws by which it counts them.
pub mod Quiet
pub mod Count
pub mod Windows
pub mod Days
use io_broker_govee_smart.Base.{
  ℕ, ◌+◌, ◌≤◌, Bool, true, false, ◌&&◌, List, [], ◌∷◌, ◌++◌, Option, ◌≡◌, Map, arith,
}
use io_broker_govee_smart.CallBooking.{Booking, seal}
use io_broker_govee_smart.RateLimiter.State.{
  CallLane, DeviceBudget, SpentCall, Effect, run, Limiter,
}
use io_broker_govee_smart.RateLimiter.Ledger.{spend, refund}
use io_broker_govee_smart.RateLimiter.Loop.{clear_minute, reset_daily}
use io_broker_govee_smart.RateLimiter.Events.{Event, settled, minute_tick, day_tick, kickoff, step}

-- `charges`: which started calls the counter counts. `is_open`: whether the window that a call was
-- booked in is still open. `resets`: which events set the counter to 0.
pub record Meter : Type 0 where
  pub used : Limiter → ℕ
  pub charges : SpentCall → Bool
  pub is_open : Limiter → SpentCall → Bool
  pub resets : Event → Bool

abbrev pub one_if : Bool → ℕ
one_if true = 1
one_if false = 0

pub record Counters : Type 0 where
  pub account_list : ℕ
  pub app_api : ℕ
  pub device_read : Map ℕ
  pub day : ℕ
  pub devices : Map ℕ

abbrev pub counters : Limiter → Counters
counters s = record {
  account_list = s.account_list_used;
  app_api = s.app_api_used;
  device_read = s.device_read_used;
  day = s.calls_today;
  devices = s.calls_today_per_device;
}

pub record IsMeter (m : Meter) : Type 0 where
  pub spends :
      (s : Limiter) (lane : CallLane) (budget : Option DeviceBudget) (now : ℕ)
      → (let r = spend s lane budget now in m.used r.0 ≡ m.used s + one_if (m.charges r.1))
  pub refunds :
      (s : Limiter) (spent : SpentCall) (now : ℕ)
      → m.used s ≤ m.used (refund s spent now) + one_if (m.charges spent && m.is_open s spent)
  pub keeps : (s t : Limiter) → counters s ≡ counters t → m.used s ≡ m.used t
  pub minute : m.resets minute_tick ≡ false → (s : Limiter) → m.used (clear_minute s) ≡ m.used s
  pub day : m.resets day_tick ≡ false → (s : Limiter) → m.used (reset_daily s).0 ≡ m.used s
  pub kick : m.resets kickoff ≡ false → m.resets day_tick ≡ false

-- How many calls that the meter counts were started.
abbrev pub runs : Meter → List Effect → ℕ
runs m [] = 0
runs m (run id spent ∷ fx) = one_if (m.charges spent) + runs m fx
runs m (_ ∷ fx) = runs m fx

abbrev pub refunds_of : Meter → Limiter → Event → ℕ
refunds_of m s (settled spent booking) = elim (seal booking) [
  | true ↦ one_if (m.charges spent && m.is_open s spent)
  | false ↦ 0
]
refunds_of m s _ = 0

-- How many bookings that the meter counts were given back while their window was open.
abbrev pub given_back : Meter → Limiter → List (ℕ × Event) → ℕ
given_back m s [] = 0
given_back m s ((now, e) ∷ es) = refunds_of m s e + given_back m (step s now e).0 es
