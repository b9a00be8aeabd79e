-- ===== src/RateLimiter/State.antt =====
-- src/lib/rate-limiter.ts: lanes, calls, budgets and the limiter's fields. A call's `execute` and
-- `reject` closures are the number of the call, and what the limiter does to the outside is a list
-- of effects.
use io_broker_govee_smart.Base.{ℕ, Bool, true, false, String, List, [], ◌∷◌, Option, Map}
use io_broker_govee_smart.RateLimiter.Bucket.{TokenBucket, make_bucket}

pub data CallLane : Type 0 where
  account_list : CallLane
  device_read : String → CallLane
  device_control : String → CallLane
  app_api : CallLane

pub record DeviceBudget : Type 0 where
  pub key : String
  pub per_day : ℕ

pub record SpentCall : Type 0 where
  pub lane : CallLane
  pub budget : Option DeviceBudget
  pub minute_epoch : ℕ
  pub day_epoch : ℕ

-- `tracked`: a reject callback is given.
pub record QueuedCall : Type 0 where
  pub id : ℕ
  pub lane : CallLane
  pub priority : ℕ
  pub tracked : Bool
  pub budget : Option DeviceBudget

abbrev pub max_queue_length : ℕ
max_queue_length = 200

pub record BucketLimit : Type 0 where
  pub per_second : ℕ
  pub burst : ℕ

pub record CloudLimits : Type 0 where
  pub account_list_per_minute : ℕ
  pub device_read_per_minute : ℕ
  pub device_control : BucketLimit
  pub account_control : BucketLimit
  pub app_api_per_minute : ℕ
  pub per_day : ℕ

-- Why a call is refused: the texts of the errors that `reject` is called with.
pub data Refusal : Type 0 where
  limiter_stopped day_budget_spent_today queue_full evicted : Refusal
  device_budget_used_up : DeviceBudget → Refusal

-- The lines of the log; `loud` tells a warning from a debug line.
pub data LogLine : Type 0 where
  day_ceiling daily_reset : LogLine
  device_ceiling : DeviceBudget → LogLine
  dropped_on_full : Bool → ℕ → LogLine

pub data Timer : Type 0 where
  minute_reset day_kickoff day_reset process : Timer

pub data Effect : Type 0 where
  run : ℕ → SpentCall → Effect
  reject : ℕ → Refusal → Effect
  log : LogLine → Effect
  set_timer clear_timer : Timer → Effect

-- The four `…Timer` fields say whether a handle is held.
pub record Limiter : Type 0 where
  pub limits : CloudLimits
  pub queue : List QueuedCall
  pub account_list_used : ℕ
  pub app_api_used : ℕ
  pub device_read_used : Map ℕ
  pub device_control : Map TokenBucket
  pub account_control : TokenBucket
  pub calls_today : ℕ
  pub not_delivered_today : ℕ
  pub minute_epoch : ℕ
  pub day_epoch : ℕ
  pub stopped : Bool
  pub warned_queue_full : Bool
  pub calls_today_per_device : Map ℕ
  pub warned_device_budget : List String
  pub warned_day_budget : Bool
  pub process_timer : Bool
  pub minute_reset_timer : Bool
  pub day_reset_timer : Bool
  pub day_reset_kickoff : Bool

unfoldable pub make_limiter : CloudLimits → ℕ → Limiter
unfolding make_bucket
make_limiter limits now = record {
  limits = limits;
  queue = [];
  account_list_used = 0;
  app_api_used = 0;
  device_read_used = [];
  device_control = [];
  account_control = make_bucket limits.account_control.burst limits.account_control.per_second now;
  calls_today = 0;
  not_delivered_today = 0;
  minute_epoch = 0;
  day_epoch = 0;
  stopped = false;
  warned_queue_full = false;
  calls_today_per_device = [];
  warned_device_budget = [];
  warned_day_budget = false;
  process_timer = false;
  minute_reset_timer = false;
  day_reset_timer = false;
  day_reset_kickoff = false;
}

-- `call.reject?.(…)`
abbrev pub reject_call : QueuedCall → Refusal → List Effect
reject_call call why = elim call.tracked [ true ↦ reject call.id why ∷ [] | false ↦ [] ]

-- src/lib/timing-constants.ts: the limits of the adapter. The daily number is read from
-- api-limits.json.
abbrev pub cloud_limits : CloudLimits
cloud_limits = record {
  account_list_per_minute = 20;
  device_read_per_minute = 20;
  device_control = record { per_second = 2; burst = 6 };
  account_control = record { per_second = 12; burst = 80 };
  app_api_per_minute = 8;
  per_day = 9000;
}

abbrev pub cloud_appliance_daily_limit : ℕ
cloud_appliance_daily_limit = 90
