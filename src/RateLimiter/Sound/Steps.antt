-- ===== src/RateLimiter/Sound/Steps.antt =====
-- src/lib/rate-limiter.ts: every event keeps the limiter sound.
use io_broker_govee_smart.Base.{
  ℕ, ◌≤◌, ◌<◌, Bool, true, false, not, List, [], ◌∷◌, Option, none, some, arith, ◌≡◌, if_cases, All,
  length,
}
use io_broker_govee_smart.RateLimiter.State.{
  QueuedCall, CallLane, account_list, device_read, device_control, app_api, DeviceBudget,
  CloudLimits, Limiter, make_limiter, max_queue_length, Effect, Refusal,
}
use io_broker_govee_smart.RateLimiter.Ledger.{day_budget_spent, device_budget_spent, can_make_call}
use io_broker_govee_smart.RateLimiter.Loop.{
  over_budget, start_call, try_execute, execute_tracked, visit, drain, process_queue, clear_minute,
  reset_minute_window, reset_daily, start, day_kickoff_fires, stop,
}
use io_broker_govee_smart.RateLimiter.Within.{
  Allows, IsFree, IsUnder, make_limiter-IsWithin, can_make_call-true,
}
use io_broker_govee_smart.RateLimiter.Sorted.{IsSorted}
use io_broker_govee_smart.RateLimiter.Events.{
  Event, enqueued, tried, tracked_call, settled, starts, stops, minute_tick, day_tick, kickoff,
  queue_tick, step, run_events,
}
use io_broker_govee_smart.RateLimiter.Sound.{
  IsSound, can_make_call-devices, enqueue-IsSound, spend-IsSound, can_make_call-IsSound,
  over_budget-IsSound, settle-IsSound, day_budget_spent-IsSound,
}

can_make_call-IsUnder :
    (s : Limiter) (lane : CallLane) (budget : Option DeviceBudget) (now : ℕ)
    → IsUnder budget s
    → IsUnder budget (can_make_call s lane now).0
can_make_call-IsUnder s lane none now h = tt
can_make_call-IsUnder s lane (some b) now h = rw (can_make_call-devices s lane now) h

over_budget-false :
    (s : Limiter) (budget : Option DeviceBudget)
    → (over_budget s budget).1 ≡ false
    → IsUnder budget (over_budget s budget).0
unfolding over_budget device_budget_spent
over_budget-false s none h = tt
over_budget-false s (some b) h = ground arith

over_budget-IsFree :
    (s : Limiter) (budget : Option DeviceBudget) (lane : CallLane)
    → IsFree lane s
    → s.calls_today < s.limits.per_day
    → (let t = (over_budget s budget).0 in IsFree lane t × (t.calls_today < t.limits.per_day))
unfolding over_budget device_budget_spent
over_budget-IsFree s none lane free day = (free, day)
over_budget-IsFree s (some b) account_list free day = ground arith
over_budget-IsFree s (some b) app_api free day = ground arith
over_budget-IsFree s (some b) (device_read key) free day = ground arith
over_budget-IsFree s (some b) (device_control key) free day = ground arith

module _ (limits : CloudLimits) (allowance : ℕ) where
  abbrev Sound : Limiter → Type 0
  Sound = IsSound limits allowance

  -- A call that passed both tests, in the order of `tryExecute` and `executeTracked`.
  start_after-IsSound :
      (s : Limiter) (c : QueuedCall) (now : ℕ)
      → Allows allowance c.budget
      → Sound s
      → (over_budget s c.budget).1 ≡ false
      → (let m = can_make_call (over_budget s c.budget).0 c.lane now in
          m.1 ≡ true → Sound (start_call m.0 c now).0)
  start_after-IsSound s c now allow h under free =
      let b = (over_budget s c.budget).0 in
      let room = can_make_call-true b c.lane now free in
      spend-IsSound limits allowance (can_make_call b c.lane now).0 c now room.0 room.1
        (can_make_call-IsUnder b c.lane c.budget now (over_budget-false s c.budget under)) allow
        (can_make_call-IsSound limits allowance b c.lane now
          (over_budget-IsSound limits allowance s c.budget h))

  try_execute-IsSound :
      (s : Limiter) (c : QueuedCall) (now : ℕ)
      → Allows allowance c.budget
      → Sound s
      → Sound (try_execute s c now).0
  unfolding try_execute
  try_execute-IsSound s c now allow h =
      let b = (over_budget s c.budget).0 in
      let bh = over_budget-IsSound limits allowance s c.budget h in
      let P : Limiter × Bool × List Effect → Type 0 = λ r. Sound r.0 in
      if_cases P (over_budget s c.budget).1 (λ over. bh)
        λ under.
          if_cases P (can_make_call b c.lane now).1 (start_after-IsSound s c now allow h under)
            (λ busy.
              enqueue-IsSound limits allowance _ (record c { tracked = false }) allow
                (can_make_call-IsSound limits allowance b c.lane now bh))

  execute_tracked-IsSound :
      (s : Limiter) (c : QueuedCall) (now : ℕ)
      → Allows allowance c.budget
      → Sound s
      → Sound (execute_tracked s c now).0
  unfolding execute_tracked
  execute_tracked-IsSound s c now allow h =
      let b = (over_budget s c.budget).0 in
      let bh = over_budget-IsSound limits allowance s c.budget h in
      let P : Limiter × Option Refusal × List Effect → Type 0 = λ r. Sound r.0 in
      if_cases P (over_budget s c.budget).1 (λ over. bh)
        λ under.
          if_cases P (can_make_call b c.lane now).1 (start_after-IsSound s c now allow h under)
            (λ busy.
              enqueue-IsSound limits allowance _ (record c { tracked = true }) allow
                (can_make_call-IsSound limits allowance b c.lane now bh))

  visit-IsSound :
      (s : Limiter) (c : QueuedCall) (now : ℕ)
      → Allows allowance c.budget
      → Sound s
      → Sound (visit s c now).0
  unfolding visit
  visit-IsSound s c now allow h =
      let m = (can_make_call s c.lane now).0 in
      let mh = can_make_call-IsSound limits allowance s c.lane now h in
      let b = (over_budget m c.budget).0 in
      let bh = over_budget-IsSound limits allowance m c.budget mh in
      let P : Limiter × Bool × List Effect → Type 0 = λ r. Sound r.0 in
      if_cases P (not (can_make_call s c.lane now).1) (λ busy. mh)
        λ free.
          if_cases P (over_budget m c.budget).1 (λ over. bh)
            λ under.
              (let room = can_make_call-true s c.lane now (ground arith) in
                let still = over_budget-IsFree m c.budget c.lane room.0 room.1 in
                spend-IsSound limits allowance b c now still.0 still.1
                  (over_budget-false m c.budget under) allow bh)

drain-All {ℓ} :
    (P : QueuedCall → Type ℓ) (q : List QueuedCall) (s : Limiter) (now : ℕ)
    → All P q
    → All P (drain q s now).0
unfolding drain
drain-All P [] s now h = tt
drain-All P (c ∷ cs) s now (p, h) =
    let ih = drain-All P cs (visit s c now).0 now h in
    if_cases (All P) (visit s c now).1 (λ stays. (p, ih)) (λ gone. ih)

drain-IsSorted :
    (q : List QueuedCall) (s : Limiter) (now : ℕ) → IsSorted q → IsSorted (drain q s now).0
unfolding drain
drain-IsSorted [] s now h = tt
drain-IsSorted (c ∷ cs) s now (lo, h) =
    let t = (visit s c now).0 in
    let ih = drain-IsSorted cs t now h in
    if_cases IsSorted (visit s c now).1 (λ stays. (drain-All _ cs t now lo, ih)) (λ gone. ih)

length-drain : (q : List QueuedCall) (s : Limiter) (now : ℕ) → length (drain q s now).0 ≤ length q
unfolding drain
length-drain [] s now = omega arith
length-drain (c ∷ cs) s now = ground (arith, length-drain cs (visit s c now).0 now)

-- The calls that a caller hands in carry budgets of at most `allowance` a day.
abbrev pub EventAllows : ℕ → Event → Type 0
EventAllows allowance (enqueued c) = Allows allowance c.budget
EventAllows allowance (tried c) = Allows allowance c.budget
EventAllows allowance (tracked_call c) = Allows allowance c.budget
EventAllows allowance _ = Unit

module _ (limits : CloudLimits) (allowance : ℕ) where
  drain-IsSound :
      (q : List QueuedCall) (s : Limiter) (now : ℕ)
      → All (λ c. Allows allowance c.budget) q
      → IsSound limits allowance s
      → IsSound limits allowance (drain q s now).1
  unfolding drain
  drain-IsSound [] s now allow h = h
  drain-IsSound (c ∷ cs) s now (p, allow) h =
      drain-IsSound cs (visit s c now).0 now allow (visit-IsSound limits allowance s c now p h)

  process_queue-IsSound :
      (s : Limiter) (now : ℕ)
      → IsSound limits allowance s
      → IsSound limits allowance (process_queue s now).0
  unfolding process_queue
  process_queue-IsSound s now h =
      let d = (day_budget_spent s).0 in
      let dh = day_budget_spent-IsSound limits allowance s h in
      let P : Limiter × List Effect → Type 0 = λ r. IsSound limits allowance r.0 in
      let kept = (drain d.queue d now).0 in
      let allowed = dh.within.queue_allowed in
      let t = drain-IsSound d.queue d now allowed dh in
      let kept_allowed = drain-All (λ c. Allows allowance c.budget) d.queue d now allowed in
      let kept_sorted = drain-IsSorted d.queue d now dh.sorted in
      let kept_short : length kept ≤ max_queue_length =
        omega (arith, length-drain d.queue d now, dh.short) in
      if_cases P s.stopped (λ e. h)
        λ e.
          if_cases P (day_budget_spent s).1
            (λ e. record { within = assumption (tt, dh.within); sorted = tt; short = omega arith })
            (λ e. record {
              within = assumption (kept_allowed, t.within);
              sorted = kept_sorted;
              short = kept_short;
            })

  pub step-IsSound :
      (s : Limiter) (now : ℕ) (e : Event)
      → EventAllows allowance e
      → IsSound limits allowance s
      → IsSound limits allowance (step s now e).0
  unfolding step reset_minute_window reset_daily start day_kickoff_fires stop
  step-IsSound s now (enqueued c) allow h = enqueue-IsSound limits allowance s c allow h
  step-IsSound s now (tried c) allow h = try_execute-IsSound limits allowance s c now allow h
  step-IsSound s now (tracked_call c) allow h =
      execute_tracked-IsSound limits allowance s c now allow h
  step-IsSound s now (settled spent booking) allow h =
      settle-IsSound limits allowance s spent booking now h
  step-IsSound s now starts allow h = ground arith
  step-IsSound s now stops allow h = ground arith
  step-IsSound s now minute_tick allow h =
      process_queue-IsSound (clear_minute s) now (unfold clear_minute in ground arith)
  step-IsSound s now day_tick allow h = ground arith
  step-IsSound s now kickoff allow h = ground arith
  step-IsSound s now queue_tick allow h = process_queue-IsSound s now h

  pub run_from-IsSound :
      (s : Limiter) (es : List (ℕ × Event))
      → All (λ e. EventAllows allowance e.1) es
      → IsSound limits allowance s
      → IsSound limits allowance (run_events s es).0
  unfolding run_events
  run_from-IsSound s [] allow h = h
  run_from-IsSound s ((now, e) ∷ es) (p, allow) h =
      run_from-IsSound (step s now e).0 es allow (step-IsSound s now e p h)

  pub make_limiter-IsSound : (now : ℕ) → IsSound limits allowance (make_limiter limits now)
  unfolding make_limiter
  make_limiter-IsSound now = record {
    within = make_limiter-IsWithin limits allowance now;
    sorted = tt;
    short = omega arith;
  }

  -- From a new limiter, whatever calls come, run, fail and settle and whatever timers fire, in
  -- whatever order and at whatever times: every counter is within its limit, each control bucket
  -- holds at most its burst, and the queue is sorted and holds at most 200 calls. (The device
  -- budgets that callers pass are at most `allowance` a day.)
  pub run_events-IsSound :
      (start_time : ℕ) (es : List (ℕ × Event))
      → All (λ e. EventAllows allowance e.1) es
      → IsSound limits allowance (run_events (make_limiter limits start_time) es).0
  run_events-IsSound start_time es allow =
      run_from-IsSound (make_limiter limits start_time) es allow (make_limiter-IsSound start_time)
