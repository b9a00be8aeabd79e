-- ===== src/RateLimiter/Ledger.antt =====
-- src/lib/rate-limiter.ts: what a call costs. The daily ceilings, booking a call (`spend`), giving
-- a booking back (`refund`), and the test whether a lane is free. The clock is read once in each
-- call of these: `now`.
use io_broker_govee_smart.Base.{
  ℕ, ◌+◌, ◌-◌, Bool, true, false, String, List, [], ◌∷◌, Option, none, some, Map, lookup, insert,
  or_else, ltb, leb, ◌==◌, if◌then◌else◌, member, add,
}
use io_broker_govee_smart.RateLimiter.Bucket.{
  TokenBucket, make_bucket, has_token, take_token, give_token,
}
use io_broker_govee_smart.RateLimiter.State.{
  CallLane, account_list, device_read, device_control, app_api, DeviceBudget, SpentCall, Effect,
  log, day_ceiling, device_ceiling, Limiter,
}

unfoldable pub day_budget_spent : Limiter → Limiter × Bool × List Effect
day_budget_spent s =
    if ltb s.calls_today s.limits.per_day
    then (s, false, [])
    else if s.warned_day_budget
    then (s, true, [])
    else (record s { warned_day_budget = true }, true, log day_ceiling ∷ [])

-- The counter of a map at a key, 0 when it has none.
abbrev pub count_of : String → Map ℕ → ℕ
count_of key counts = or_else (lookup key counts) 0

unfoldable pub device_budget_spent : Limiter → DeviceBudget → Limiter × Bool × List Effect
device_budget_spent s budget =
    if ltb (count_of budget.key s.calls_today_per_device) budget.per_day
    then (s, false, [])
    else if member budget.key s.warned_device_budget
    then (s, true, [])
    else (
      record s { warned_device_budget = add budget.key s.warned_device_budget },
      true,
      log (device_ceiling budget) ∷ [],
    )

-- `controlBucket`: the device's bucket, made full when there is none. Each caller stores what it
-- makes of the bucket, which stands for the shared object in the map.
unfoldable pub control_bucket : Limiter → String → ℕ → TokenBucket
unfolding make_bucket
control_bucket s key now =
    or_else (lookup key s.device_control)
      (make_bucket s.limits.device_control.burst s.limits.device_control.per_second now)

-- The lane's part of `spend`.
unfoldable pub charge_lane : Limiter → CallLane → ℕ → Limiter
unfolding control_bucket take_token
charge_lane s account_list now = record s { account_list_used = s.account_list_used + 1 }
charge_lane s app_api now = record s { app_api_used = s.app_api_used + 1 }
charge_lane s (device_read key) now = record s {
  device_read_used = insert key (count_of key s.device_read_used + 1) s.device_read_used;
}
charge_lane s (device_control key) now = record s {
  device_control = insert key (take_token (control_bucket s key now) now) s.device_control;
  account_control = take_token s.account_control now;
}

abbrev pub charge_device : Option DeviceBudget → Map ℕ → Map ℕ
charge_device none counts = counts
charge_device (some b) counts = insert b.key (count_of b.key counts + 1) counts

unfoldable pub spend : Limiter → CallLane → Option DeviceBudget → ℕ → Limiter × SpentCall
unfolding charge_lane
spend s lane budget now =
    let c = charge_lane s lane now in
    (
      record c {
        calls_today = c.calls_today + 1;
        calls_today_per_device = charge_device budget c.calls_today_per_device;
      },
      record {
        lane = lane;
        budget = budget;
        minute_epoch = c.minute_epoch;
        day_epoch = c.day_epoch;
      },
    )

-- The minute windows' part of `refund`. `Math.max(0, n - 1)` is truncated subtraction.
unfoldable pub refund_window : Limiter → CallLane → Limiter
refund_window s account_list = record s { account_list_used = s.account_list_used - 1 }
refund_window s app_api = record s { app_api_used = s.app_api_used - 1 }
refund_window s (device_read key) = record s {
  device_read_used = insert key (count_of key s.device_read_used - 1) s.device_read_used;
}
refund_window s (device_control key) = s

-- The control buckets' part of `refund`.
unfoldable pub refund_tokens : Limiter → CallLane → ℕ → Limiter
unfolding control_bucket give_token
refund_tokens s (device_control key) now = record s {
  device_control = insert key (give_token (control_bucket s key now) now) s.device_control;
  account_control = give_token s.account_control now;
}
refund_tokens s account_list now = s
refund_tokens s app_api now = s
refund_tokens s (device_read key) now = s

abbrev pub refund_device : Option DeviceBudget → Map ℕ → Map ℕ
refund_device none counts = counts
refund_device (some b) counts = insert b.key (count_of b.key counts - 1) counts

unfoldable pub refund_day : Limiter → Option DeviceBudget → Limiter
refund_day s budget = record s {
  calls_today = s.calls_today - 1;
  not_delivered_today = s.not_delivered_today + 1;
  calls_today_per_device = refund_device budget s.calls_today_per_device;
}

unfoldable pub refund : Limiter → SpentCall → ℕ → Limiter
unfolding refund_window refund_tokens refund_day
refund s spent now =
    let w = if spent.minute_epoch == s.minute_epoch then refund_window s spent.lane else s in
    let t = refund_tokens w spent.lane now in
    if spent.day_epoch == t.day_epoch then refund_day t spent.budget else t

-- The lane's part of `canMakeCall`. The account's bucket is asked first; the device's only if that
-- has a token.
unfoldable pub lane_free : Limiter → CallLane → ℕ → Limiter × Bool
unfolding control_bucket has_token
lane_free s account_list now = (s, ltb s.account_list_used s.limits.account_list_per_minute)
lane_free s app_api now = (s, ltb s.app_api_used s.limits.app_api_per_minute)
lane_free s (device_read key) now =
    (s, ltb (count_of key s.device_read_used) s.limits.device_read_per_minute)
lane_free s (device_control key) now =
    let (account, account_ok) = has_token s.account_control now in
    let a = record s { account_control = account } in
    let (device, device_ok) = has_token (control_bucket a key now) now in
    if account_ok
    then (record a { device_control = insert key device a.device_control }, device_ok)
    else (a, false)

unfoldable pub can_make_call : Limiter → CallLane → ℕ → Limiter × Bool
unfolding lane_free
can_make_call s lane now =
    if leb s.limits.per_day s.calls_today then (s, false) else lane_free s lane now
