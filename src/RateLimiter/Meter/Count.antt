-- ===== src/RateLimiter/Meter/Count.antt =====
-- src/lib/rate-limiter.ts: a meter never shows less than the calls started since its last reset,
-- less those given back.
use mathlib.Core.List.{append-nil}
use io_broker_govee_smart.Base.{
  ℕ, ◌+◌, ◌≤◌, Bool, true, false, not, List, [], ◌∷◌, ◌++◌, Option, if◌then◌else◌, arith, ◌≡◌, refl,
  if_cases, All,
}
use io_broker_govee_smart.RateLimiter.State.{
  QueuedCall, CallLane, DeviceBudget, Limiter, Effect, reject, set_timer, Refusal, limiter_stopped,
  day_budget_spent_today, queue_full, Timer, minute_reset, day_kickoff, day_reset, process,
}
use io_broker_govee_smart.RateLimiter.Ledger.{day_budget_spent, can_make_call}
use io_broker_govee_smart.RateLimiter.Queue.{enqueue}
use io_broker_govee_smart.RateLimiter.Loop.{
  over_budget, start_call, settle, try_execute, execute_tracked, budget_reject, visit, drain,
  reject_all, is_empty, process_queue, clear_minute, reset_minute_window, reset_daily, start,
  day_kickoff_fires, stop, clear_if,
}
use io_broker_govee_smart.RateLimiter.Events.{
  Event, enqueued, tried, tracked_call, settled, starts, stops, minute_tick, day_tick, kickoff,
  queue_tick, step, run_events,
}
use io_broker_govee_smart.RateLimiter.Meter.{Meter, IsMeter, runs, refunds_of, given_back}
use io_broker_govee_smart.RateLimiter.Meter.Quiet.{
  can_make_call-counters, over_budget-counters, day_budget_spent-counters, enqueue-counters,
  runs-append, runs-reject_all, runs-budget_reject, runs-over_budget, runs-day_budget, runs-enqueue,
}

module _ (m : Meter) (law : IsMeter m) where
  -- An operation that leads to `r` counts what it starts.
  abbrev Counts : Limiter → Limiter → List Effect → Type 0
  Counts s t fx = m.used s + runs m fx ≡ m.used t

  start_call-Counts :
      (s : Limiter) (c : QueuedCall) (now : ℕ) → (let r = start_call s c now in Counts s r.0 r.1)
  unfolding start_call
  start_call-Counts s c now = omega (arith, law.spends s c.lane c.budget now)

  can_make_call-used :
      (s : Limiter) (lane : CallLane) (now : ℕ) → m.used (can_make_call s lane now).0 ≡ m.used s
  can_make_call-used s lane now = law.keeps _ _ (can_make_call-counters s lane now)

  over_budget-used :
      (s : Limiter) (budget : Option DeviceBudget) → m.used (over_budget s budget).0 ≡ m.used s
  over_budget-used s budget = law.keeps _ _ (over_budget-counters s budget)

  enqueue-Counts : (s : Limiter) (c : QueuedCall) → Counts s (enqueue s c).0 (enqueue s c).2
  enqueue-Counts s c =
      omega (arith, law.keeps (enqueue s c).0 s (enqueue-counters s c), runs-enqueue m s c)

  visit-Counts :
      (s : Limiter) (c : QueuedCall) (now : ℕ) → (let r = visit s c now in Counts s r.0 r.2)
  unfolding visit
  visit-Counts s c now =
      let t = (can_make_call s c.lane now).0 in
      let b = (over_budget t c.budget).0 in
      let lines = (over_budget t c.budget).2 in
      let et = can_make_call-used s c.lane now in
      let eb = over_budget-used t c.budget in
      let quiet = runs-over_budget m t c.budget in
      let P : Limiter × Bool × List Effect → Type 0 = λ r. Counts s r.0 r.2 in
      if_cases P (not (can_make_call s c.lane now).1) (λ busy. omega (arith, et))
        λ free.
          if_cases P (over_budget t c.budget).1
            (λ over.
              omega (
                arith,
                et,
                eb,
                quiet,
                runs-append m lines (budget_reject c),
                runs-budget_reject m c,
              ))
            (λ under. omega (
              arith,
              et,
              eb,
              quiet,
              runs-append m lines (start_call b c now).1,
              start_call-Counts b c now,
            ))

  -- A call that has passed the device's budget: it starts, or is handed to the queue.
  after_budget-Counts :
      (s : Limiter) (budget : Option DeviceBudget) (c d : QueuedCall) (now : ℕ) (last : List Effect)
      → runs m last ≡ 0
      → (let b = over_budget s budget in
          let t = (can_make_call b.0 c.lane now).0 in
          let r = start_call t c now in
          let q = enqueue t d in Counts s r.0 (b.2 ++ r.1) × Counts s q.0 (b.2 ++ (q.2 ++ last)))
  after_budget-Counts s budget c d now last none_run =
      let b = (over_budget s budget).0 in
      let lines = (over_budget s budget).2 in
      let t = (can_make_call b c.lane now).0 in
      let fx = (start_call t c now).1 in
      let gx = (enqueue t d).2 in
      let eb = over_budget-used s budget in
      let et = can_make_call-used b c.lane now in
      let quiet = runs-over_budget m s budget in
      (
        omega (arith, eb, et, quiet, runs-append m lines fx, start_call-Counts t c now),
        omega (
          arith,
          eb,
          et,
          quiet,
          runs-append m lines (gx ++ last),
          runs-append m gx last,
          enqueue-Counts t d,
        ),
      )

  drain-Counts :
      (q : List QueuedCall) (s : Limiter) (now : ℕ) → (let r = drain q s now in Counts s r.1 r.2)
  unfolding drain
  drain-Counts [] s now = omega arith
  drain-Counts (c ∷ cs) s now =
      let t = (visit s c now).0 in
      omega (
        arith,
        visit-Counts s c now,
        drain-Counts cs t now,
        runs-append m (visit s c now).2 (drain cs t now).2,
      )

  process_queue-Counts : (s : Limiter) (now : ℕ) → (let r = process_queue s now in Counts s r.0 r.1)
  unfolding process_queue
  process_queue-Counts s now =
      let d = (day_budget_spent s).0 in
      let ed = law.keeps d s (day_budget_spent-counters s) in
      let quiet = runs-day_budget m s in
      let r = drain d.queue d now in
      let P : Limiter × List Effect → Type 0 = λ r. Counts s r.0 r.1 in
      let gone = reject_all d.queue day_budget_spent_today in
      if_cases P s.stopped (λ e. omega arith)
        λ e.
          if_cases P (day_budget_spent s).1
            (λ e. omega (
              arith,
              ed,
              quiet,
              law.keeps (record d { queue = [] }) d refl,
              runs-append m (day_budget_spent s).2 gone,
              runs-reject_all m d.queue day_budget_spent_today,
            ))
            (λ e. omega (
              arith,
              ed,
              quiet,
              drain-Counts d.queue d now,
              runs-append m (day_budget_spent s).2 r.2,
              law.keeps
                  (record r.1 {
                    queue = r.0;
                    warned_queue_full = if is_empty r.0 then false else r.1.warned_queue_full;
                  })
                  r.1 refl,
            ))

  try_execute-Counts :
      (s : Limiter) (c : QueuedCall) (now : ℕ) → (let r = try_execute s c now in Counts s r.0 r.2)
  unfolding try_execute
  try_execute-Counts s c now =
      let P : Limiter × Bool × List Effect → Type 0 = λ r. Counts s r.0 r.2 in
      let b = over_budget s c.budget in
      let after = after_budget-Counts s c.budget c (record c { tracked = false }) now [] refl in
      if_cases P b.1
        (λ over. omega (arith, over_budget-used s c.budget, runs-over_budget m s c.budget))
        λ under.
          if_cases P (can_make_call b.0 c.lane now).1 (λ free. after.0)
            (λ busy.
              (rw
                (append-nil
                  (enqueue (can_make_call b.0 c.lane now).0 (record c { tracked = false })).2)
                at after.1))

  execute_tracked-Counts :
      (s : Limiter) (c : QueuedCall) (now : ℕ)
      → (let r = execute_tracked s c now in Counts s r.0 r.2)
  unfolding execute_tracked
  execute_tracked-Counts s c now =
      let P : Limiter × Option Refusal × List Effect → Type 0 = λ r. Counts s r.0 r.2 in
      let b = over_budget s c.budget in
      let t = (can_make_call b.0 c.lane now).0 in
      let d = record c { tracked = true } in
      let last = if (enqueue t d).1 then [] else reject c.id queue_full ∷ [] in
      let after = after_budget-Counts s c.budget c d now last (ground arith) in
      if_cases P b.1
        (λ over. omega (arith, over_budget-used s c.budget, runs-over_budget m s c.budget))
        λ under. if_cases P (can_make_call b.0 c.lane now).1 (λ free. after.0) (λ busy. after.1)

  runs-reset_daily : (s : Limiter) → runs m (reset_daily s).1 ≡ 0
  unfolding reset_daily
  runs-reset_daily s = refl

  day_kickoff_fires-Counts :
      (s : Limiter) → m.resets day_tick ≡ false → (let r = day_kickoff_fires s in Counts s r.0 r.1)
  unfolding day_kickoff_fires
  day_kickoff_fires-Counts s keep =
      let k = record s { day_reset_kickoff = false } in
      let d = (reset_daily k).0 in
      let P : Limiter × List Effect → Type 0 = λ r. Counts s r.0 r.1 in
      if_cases P k.stopped (λ e. omega (arith, law.keeps k s refl))
        λ e. omega (
          arith,
          law.keeps k s refl,
          law.day keep k,
          law.keeps (record d { day_reset_timer = true }) d refl,
          runs-append m (reset_daily k).1 (set_timer day_reset ∷ []),
          runs-reset_daily k,
        )

  runs-clear_if :
      (held : Bool) (t : Timer) (fx : List Effect) → runs m (clear_if held t ++ fx) ≡ runs m fx
  runs-clear_if true t fx = refl
  runs-clear_if false t fx = refl

  stop-Counts : (s : Limiter) → (let r = stop s in Counts s r.0 r.1)
  unfolding stop
  stop-Counts s =
      rw
        (
          runs-clear_if s.minute_reset_timer minute_reset,
          runs-clear_if s.day_reset_kickoff day_kickoff,
          runs-clear_if s.day_reset_timer day_reset,
          runs-clear_if s.process_timer process,
        )
        (omega (arith, runs-reject_all m s.queue limiter_stopped, law.keeps _ s refl))

  -- An event that does not reset the meter.
  pub step-Counts :
      (s : Limiter) (now : ℕ) (e : Event)
      → m.resets e ≡ false
      → (let r = step s now e in m.used s + runs m r.1 ≤ m.used r.0 + refunds_of m s e)
  unfolding step reset_minute_window start
  step-Counts s now (enqueued c) keep = omega (arith, enqueue-Counts s c)
  step-Counts s now (tried c) keep = omega (arith, try_execute-Counts s c now)
  step-Counts s now (tracked_call c) keep = omega (arith, execute_tracked-Counts s c now)
  step-Counts s now (settled spent booking) keep =
      unfold settle in ground (arith, law.refunds s spent now)
  step-Counts s now starts keep = omega (arith, law.keeps (start s).0 s refl)
  step-Counts s now stops keep = omega (arith, stop-Counts s)
  step-Counts s now minute_tick keep =
      omega (arith, law.minute keep s, process_queue-Counts (clear_minute s) now)
  step-Counts s now day_tick keep = omega (arith, law.day keep s, runs-reset_daily s)
  step-Counts s now kickoff keep = omega (arith, day_kickoff_fires-Counts s (law.kick keep))
  step-Counts s now queue_tick keep = omega (arith, process_queue-Counts s now)

  -- Over events of which none resets the meter.
  pub run_events-Counts :
      (s : Limiter) (es : List (ℕ × Event))
      → All (λ e. m.resets e.1 ≡ false) es
      → (let r = run_events s es in m.used s + runs m r.1 ≤ m.used r.0 + given_back m s es)
  unfolding run_events
  run_events-Counts s [] keep = omega arith
  run_events-Counts s ((now, e) ∷ es) (p, keep) =
      let t = (step s now e).0 in
      omega (
        arith,
        step-Counts s now e p,
        run_events-Counts t es keep,
        runs-append m (step s now e).1 (run_events t es).1,
      )
