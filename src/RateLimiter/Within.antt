-- ===== src/RateLimiter/Within.antt =====
-- src/lib/rate-limiter.ts: no counter passes its limit, whatever is called in whatever order.
use io_broker_govee_smart.Base.{
  ℕ, ◌+◌, ◌-◌, ◌≤◌, ◌<◌, Bool, true, false, String, Option, none, some, Map, ◌==◌, leb,
  if◌then◌else◌, arith, ◌≡◌, refl, Bool-cases, inl, inr, All, Values, Values-insert, Values-lookup,
}
use io_broker_govee_smart.RateLimiter.Bucket.{refill, has_token}
use io_broker_govee_smart.RateLimiter.Bucket.Rate.{
  IsBucket, has_token-IsBucket, take_token-IsBucket, give_token-IsBucket, make_bucket-IsBucket,
}
use io_broker_govee_smart.RateLimiter.State.{
  CallLane, account_list, device_read, device_control, app_api, DeviceBudget, SpentCall,
  CloudLimits, Limiter, make_limiter,
}
use io_broker_govee_smart.RateLimiter.Ledger.{
  count_of, control_bucket, charge_lane, charge_device, spend, refund_window, refund_tokens,
  refund_device, refund_day, refund, lane_free, can_make_call,
}

abbrev pub Allows : ℕ → Option DeviceBudget → Type 0
Allows allowance none = Unit
Allows allowance (some b) = b.per_day ≤ allowance

-- The counters of a limiter with these limits, whose device budgets are at most `allowance` a day.
pub record IsWithin (limits : CloudLimits) (allowance : ℕ) (s : Limiter) : Type 0 where
  pub same_limits : s.limits ≡ limits
  pub account_list_within : s.account_list_used ≤ limits.account_list_per_minute
  pub app_api_within : s.app_api_used ≤ limits.app_api_per_minute
  pub device_read_within : Values (λ n. n ≤ limits.device_read_per_minute) s.device_read_used
  pub account_control_within :
      IsBucket limits.account_control.burst limits.account_control.per_second s.account_control
  pub device_control_within :
      Values
        (IsBucket limits.device_control.burst limits.device_control.per_second)
        s.device_control
  pub day_within : s.calls_today ≤ limits.per_day
  pub devices_within : Values (λ n. n ≤ allowance) s.calls_today_per_device
  pub queue_allowed : All (λ c. Allows allowance c.budget) s.queue

-- What makes it right to charge a lane, and a device.
abbrev pub IsFree : CallLane → Limiter → Type 0
IsFree account_list s = s.account_list_used < s.limits.account_list_per_minute
IsFree app_api s = s.app_api_used < s.limits.app_api_per_minute
IsFree (device_read key) s = count_of key s.device_read_used < s.limits.device_read_per_minute
IsFree (device_control key) s = Unit

abbrev pub IsUnder : Option DeviceBudget → Limiter → Type 0
IsUnder none s = Unit
IsUnder (some b) s = count_of b.key s.calls_today_per_device < b.per_day

charge_lane-same :
    (s : Limiter) (lane : CallLane) (now : ℕ)
    → ((charge_lane s lane now).calls_today ≡ s.calls_today)
      × ((charge_lane s lane now).calls_today_per_device ≡ s.calls_today_per_device)
unfolding charge_lane
charge_lane-same s account_list now = (refl, refl)
charge_lane-same s app_api now = (refl, refl)
charge_lane-same s (device_read key) now = (refl, refl)
charge_lane-same s (device_control key) now = (refl, refl)

module _ (limits : CloudLimits) (allowance : ℕ) where
  pub make_limiter-IsWithin : (now : ℕ) → IsWithin limits allowance (make_limiter limits now)
  unfolding make_limiter
  make_limiter-IsWithin now = record {
    same_limits = refl;
    account_list_within = omega arith;
    app_api_within = omega arith;
    device_read_within = tt;
    account_control_within = make_bucket-IsBucket _ _ now;
    device_control_within = tt;
    day_within = omega arith;
    devices_within = tt;
    queue_allowed = tt;
  }

  control_bucket-IsBucket :
      {s : Limiter} (key : String) (now : ℕ)
      → IsWithin limits allowance s
      → IsBucket limits.device_control.burst limits.device_control.per_second
          (control_bucket s key now)
  unfolding control_bucket
  control_bucket-IsBucket {s} key now w =
      Values-lookup _ key _ s.device_control (rw w.same_limits (make_bucket-IsBucket _ _ now))
        w.device_control_within

  pub lane_free-IsWithin :
      (s : Limiter) (lane : CallLane) (now : ℕ)
      → IsWithin limits allowance s
      → IsWithin limits allowance (lane_free s lane now).0
  unfolding lane_free
  lane_free-IsWithin s account_list now w = w
  lane_free-IsWithin s app_api now w = w
  lane_free-IsWithin s (device_read key) now w = w
  lane_free-IsWithin s (device_control key) now w =
      let account = (has_token s.account_control now).0 in
      let a = record s { account_control = account } in
      let aw : IsWithin limits allowance a =
        assumption (has_token-IsBucket now w.account_control_within) in
      elim (Bool-cases (leb 1000 (refill s.account_control now).tokens)) [
        | inl e ↦ rw e (
            assumption (
              Values-insert _ key _ s.device_control
                  (has_token-IsBucket now (control_bucket-IsBucket key now aw))
                  w.device_control_within,
              has_token-IsBucket now w.account_control_within,
            ))
        | inr e ↦ rw e aw
      ]

  charge_lane-IsWithin :
      (s : Limiter) (lane : CallLane) (now : ℕ)
      → IsFree lane s
      → IsWithin limits allowance s
      → IsWithin limits allowance (charge_lane s lane now)
  unfolding charge_lane
  charge_lane-IsWithin s account_list now free w = ground arith
  charge_lane-IsWithin s app_api now free w = ground arith
  charge_lane-IsWithin s (device_read key) now free w = ground (
    arith,
    Values-insert (λ n. n ≤ limits.device_read_per_minute) key (count_of key s.device_read_used + 1)
        s.device_read_used,
  )
  charge_lane-IsWithin s (device_control key) now free w = assumption (
    take_token-IsBucket now w.account_control_within,
    Values-insert _ key _ s.device_control
        (take_token-IsBucket now (control_bucket-IsBucket key now w)) w.device_control_within,
  )

  pub can_make_call-IsWithin :
      (s : Limiter) (lane : CallLane) (now : ℕ)
      → IsWithin limits allowance s
      → IsWithin limits allowance (can_make_call s lane now).0
  unfolding can_make_call
  can_make_call-IsWithin s lane now w = elim (Bool-cases (leb s.limits.per_day s.calls_today)) [
    | inl e ↦ rw e w
    | inr e ↦ rw e (lane_free-IsWithin s lane now w)
  ]

  charge_device-within :
      (budget : Option DeviceBudget) (s : Limiter)
      → IsUnder budget s
      → Allows allowance budget
      → Values (λ n. n ≤ allowance) s.calls_today_per_device
      → Values (λ n. n ≤ allowance) (charge_device budget s.calls_today_per_device)
  charge_device-within none s under allow v = v
  charge_device-within (some b) s under allow v =
      Values-insert _ b.key _ s.calls_today_per_device (omega arith) v

  pub spend-IsWithin :
      (s : Limiter) (lane : CallLane) (budget : Option DeviceBudget) (now : ℕ)
      → IsFree lane s
      → s.calls_today < s.limits.per_day
      → IsUnder budget s
      → Allows allowance budget
      → IsWithin limits allowance s
      → IsWithin limits allowance (spend s lane budget now).0
  unfolding spend
  spend-IsWithin s lane budget now free day under allow w =
      let c = charge_lane-IsWithin s lane now free w in
      let same = charge_lane-same s lane now in
      let devices = charge_device-within budget s under allow w.devices_within in
      let day' : (charge_lane s lane now).calls_today + 1 ≤ limits.per_day =
        rw (same.0, ← w.same_limits) (omega arith) in
      let devices' : Values (λ n. n ≤ allowance)
          (charge_device budget (charge_lane s lane now).calls_today_per_device) =
        rw same.1 devices in
      assumption (day', devices', c)

  refund_device-within :
      (budget : Option DeviceBudget) (counts : Map ℕ)
      → Values (λ n. n ≤ allowance) counts
      → Values (λ n. n ≤ allowance) (refund_device budget counts)
  refund_device-within none counts v = v
  refund_device-within (some b) counts v =
      Values-insert _ b.key _ counts
        (omega (arith, Values-lookup (λ n. n ≤ allowance) b.key 0 counts (omega arith) v)) v

  refund_window-IsWithin :
      (s : Limiter) (lane : CallLane)
      → IsWithin limits allowance s
      → IsWithin limits allowance (refund_window s lane)
  unfolding refund_window
  refund_window-IsWithin s account_list w = ground arith
  refund_window-IsWithin s app_api w = ground arith
  refund_window-IsWithin s (device_read key) w =
      let P : ℕ → Type 0 = λ n. n ≤ limits.device_read_per_minute in
      assumption (
        Values-insert P key (count_of key s.device_read_used - 1) s.device_read_used
          (omega
            (arith, Values-lookup P key 0 s.device_read_used (omega arith) w.device_read_within))
          w.device_read_within)
  refund_window-IsWithin s (device_control key) w = w

  refund_tokens-IsWithin :
      (s : Limiter) (lane : CallLane) (now : ℕ)
      → IsWithin limits allowance s
      → IsWithin limits allowance (refund_tokens s lane now)
  unfolding refund_tokens
  refund_tokens-IsWithin s (device_control key) now w = assumption (
    give_token-IsBucket now w.account_control_within,
    Values-insert _ key _ s.device_control
        (give_token-IsBucket now (control_bucket-IsBucket key now w)) w.device_control_within,
  )
  refund_tokens-IsWithin s _ now w = w

  refund_day-IsWithin :
      (s : Limiter) (budget : Option DeviceBudget)
      → IsWithin limits allowance s
      → IsWithin limits allowance (refund_day s budget)
  unfolding refund_day
  refund_day-IsWithin s budget w =
      ground (arith, refund_device-within budget s.calls_today_per_device w.devices_within)

  pub refund-IsWithin :
      (s : Limiter) (spent : SpentCall) (now : ℕ)
      → IsWithin limits allowance s
      → IsWithin limits allowance (refund s spent now)
  unfolding refund
  refund-IsWithin s spent now w =
      let window : IsWithin limits allowance
          (if spent.minute_epoch == s.minute_epoch then refund_window s spent.lane else s) =
        branch (spent.minute_epoch == s.minute_epoch) (refund_window-IsWithin s spent.lane w) w in
      let tokens = refund_tokens-IsWithin _ spent.lane now window in
      branch _ (refund_day-IsWithin _ spent.budget tokens) tokens
    where
      branch :
          {t u : Limiter} (b : Bool)
          → IsWithin limits allowance t
          → IsWithin limits allowance u
          → IsWithin limits allowance (if b then t else u)
      branch true h k = h
      branch false h k = k

pub can_make_call-true :
    (s : Limiter) (lane : CallLane) (now : ℕ)
    → (can_make_call s lane now).1 ≡ true
    → (let t = (can_make_call s lane now).0 in IsFree lane t × (t.calls_today < t.limits.per_day))
unfolding can_make_call lane_free
can_make_call-true s account_list now h = ground arith
can_make_call-true s app_api now h = ground arith
can_make_call-true s (device_read key) now h = ground arith
can_make_call-true s (device_control key) now h = ground arith
