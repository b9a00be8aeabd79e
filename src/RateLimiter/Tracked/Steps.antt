-- ===== src/RateLimiter/Tracked/Steps.antt =====
-- src/lib/rate-limiter.ts: over any run of events, every tracked call ends or still waits.
use io_broker_govee_smart.Base.{
  ℕ, Bool, true, false, List, [], ◌∷◌, ◌++◌, Option, none, some, if◌then◌else◌, arith, ◌≡◌, refl,
  ◌⊎◌, inl, inr, if_cases, is_some,
}
use mathlib.Core.List.{Memᴰ}
use io_broker_govee_smart.RateLimiter.State.{
  QueuedCall, CallLane, DeviceBudget, Limiter, Effect, Refusal, limiter_stopped, Timer,
  minute_reset, day_kickoff, day_reset, process, queue_full, reject,
}
use io_broker_govee_smart.RateLimiter.Ledger.{can_make_call}
use io_broker_govee_smart.RateLimiter.Queue.{enqueue}
use io_broker_govee_smart.RateLimiter.Loop.{
  over_budget, start_call, try_execute, execute_tracked, budget_refusal, clear_minute,
  reset_minute_window, reset_daily, start, day_kickoff_fires, stop, clear_if,
}
use io_broker_govee_smart.RateLimiter.Events.{
  Event, enqueued, tried, tracked_call, settled, starts, stops, minute_tick, day_tick, kickoff,
  queue_tick, step, run_events,
}
use io_broker_govee_smart.RateLimiter.Sound.{
  spend-queue, can_make_call-queue, over_budget-queue, settle-queue,
}
use io_broker_govee_smart.RateLimiter.Tracked.{
  Ended, Kept, Ended-append, Kept-more, enqueue-Kept, enqueue_self, start_call-Ended,
  process_queue-Kept, reject_all-Ended,
}

over_budget_refusal :
    (s : Limiter) (budget : Option DeviceBudget)
    → (over_budget s budget).1 ≡ true
    → is_some (budget_refusal budget) ≡ true
unfolding over_budget
over_budget_refusal s none h = cc
over_budget_refusal s (some b) h = refl

start_call-queue : (s : Limiter) (c : QueuedCall) (now : ℕ) → (start_call s c now).0.queue ≡ s.queue
unfolding start_call
start_call-queue s c now = spend-queue s c.lane c.budget now

-- A tracked call that is handed in is running, waits in the queue as a tracked call, or its caller
-- is told: by a rejection or by the error that is thrown.
pub execute_tracked_accounted :
    (s : Limiter) (c : QueuedCall) (now : ℕ)
    → (let r = execute_tracked s c now in
        (is_some r.1 ≡ true) ⊎ Kept (record c { tracked = true }) r.0.queue r.2)
unfolding execute_tracked
execute_tracked_accounted s c now =
    let P : Limiter × Option Refusal × List Effect → Type 0 =
      λ r. (is_some r.1 ≡ true) ⊎ Kept (record c { tracked = true }) r.0.queue r.2 in
    let d = record c { tracked = true } in
    let b = over_budget s c.budget in
    let t = (can_make_call b.0 c.lane now).0 in
    if_cases P b.1 (λ over. inl (over_budget_refusal s c.budget over))
      λ under.
        if_cases P (can_make_call b.0 c.lane now).1
          (λ free.
            inr (
              inr
                (Ended-append d b.2 (start_call t c now).1 (inr (start_call-Ended d refl t now)))))
          (λ busy. inr (Kept-more d refl _ b.2 _ (enqueue_self d refl t)))

module _ (c : QueuedCall) (tracked : c.tracked ≡ true) where
  waiting :
      (s : Limiter) (budget : Option DeviceBudget) (now : ℕ) (lane : CallLane)
      → Memᴰ c s.queue
      → Memᴰ c (can_make_call (over_budget s budget).0 lane now).0.queue
  waiting s budget now lane m =
      rw (can_make_call-queue (over_budget s budget).0 lane now, over_budget-queue s budget) m

  try_execute-Kept :
      (s : Limiter) (d : QueuedCall) (now : ℕ)
      → Memᴰ c s.queue
      → (let r = try_execute s d now in Kept c r.0.queue r.2)
  unfolding try_execute
  try_execute-Kept s d now m =
      let P : Limiter × Bool × List Effect → Type 0 = λ r. Kept c r.0.queue r.2 in
      let b = over_budget s d.budget in
      let t = (can_make_call b.0 d.lane now).0 in
      if_cases P b.1 (λ over. inl (rw (over_budget-queue s d.budget) m))
        λ under.
          if_cases P (can_make_call b.0 d.lane now).1
            (λ free. inl (rw (start_call-queue t d now) (waiting s d.budget now d.lane m)))
            (λ busy. Kept-more c tracked _ b.2 _ (
              enqueue-Kept c tracked t (record d { tracked = false })
                (waiting s d.budget now d.lane m)))

  Kept-first : (q : List QueuedCall) (fx gx : List Effect) → Kept c q fx → Kept c q (fx ++ gx)
  Kept-first q fx gx (inl m) = inl m
  Kept-first q fx gx (inr e) = inr (Ended-append c fx gx (inl e))

  execute_tracked-Kept :
      (s : Limiter) (d : QueuedCall) (now : ℕ)
      → Memᴰ c s.queue
      → (let r = execute_tracked s d now in Kept c r.0.queue r.2)
  unfolding execute_tracked
  execute_tracked-Kept s d now m =
      let P : Limiter × Option Refusal × List Effect → Type 0 = λ r. Kept c r.0.queue r.2 in
      let b = over_budget s d.budget in
      let t = (can_make_call b.0 d.lane now).0 in
      let queued = record d { tracked = true } in
      let r = enqueue t queued in
      let last = if r.1 then [] else reject d.id queue_full ∷ [] in
      if_cases P b.1 (λ over. inl (rw (over_budget-queue s d.budget) m))
        λ under.
          if_cases P (can_make_call b.0 d.lane now).1
            (λ free. inl (rw (start_call-queue t d now) (waiting s d.budget now d.lane m)))
            (λ busy. Kept-more c tracked r.0.queue b.2 (r.2 ++ last) (
              Kept-first r.0.queue r.2 last
                (enqueue-Kept c tracked t queued (waiting s d.budget now d.lane m))))

  Ended-clear_if :
      (held : Bool) (t : Timer) (fx : List Effect) → Ended c fx → Ended c (clear_if held t ++ fx)
  Ended-clear_if held t fx e = Ended-append c (clear_if held t) fx (inr e)

  stop-Ended : (s : Limiter) → Memᴰ c s.queue → Ended c (stop s).1
  unfolding stop
  stop-Ended s m =
      let last = reject_all-Ended c s.queue limiter_stopped tracked m in
      Ended-clear_if s.minute_reset_timer minute_reset _ (
        Ended-clear_if s.day_reset_kickoff day_kickoff _ (
          Ended-clear_if s.day_reset_timer day_reset _
            (Ended-clear_if s.process_timer process _ last)))

  day_kickoff_fires-queue : (s : Limiter) → (day_kickoff_fires s).0.queue ≡ s.queue
  unfolding day_kickoff_fires
  day_kickoff_fires-queue s = ground arith

  step-Kept :
      (s : Limiter) (now : ℕ) (e : Event)
      → Memᴰ c s.queue
      → (let r = step s now e in Kept c r.0.queue r.1)
  unfolding step reset_minute_window
  step-Kept s now (enqueued d) m = enqueue-Kept c tracked s d m
  step-Kept s now (tried d) m = try_execute-Kept s d now m
  step-Kept s now (tracked_call d) m = execute_tracked-Kept s d now m
  step-Kept s now (settled spent booking) m = inl (rw (settle-queue s spent booking now) m)
  step-Kept s now starts m = unfold start in inl m
  step-Kept s now stops m = inr (stop-Ended s m)
  step-Kept s now minute_tick m =
      process_queue-Kept c tracked (clear_minute s) now (unfold clear_minute in m)
  step-Kept s now day_tick m = unfold reset_daily in inl m
  step-Kept s now kickoff m = inl (rw (day_kickoff_fires-queue s) m)
  step-Kept s now queue_tick m = process_queue-Kept c tracked s now m

  -- A tracked call that waits in the queue is never dropped in silence: over any events it is run,
  -- or rejected, or it still waits.
  pub run_events-Kept :
      (s : Limiter) (es : List (ℕ × Event))
      → Memᴰ c s.queue
      → (let r = run_events s es in Kept c r.0.queue r.1)
  unfolding run_events
  run_events-Kept s [] m = inl m
  run_events-Kept s ((now, e) ∷ es) m =
      let t = (step s now e).0 in
      let fx = (step s now e).1 in
      let rest = run_events t es in
      elim (step-Kept s now e m) [
        | inl k ↦ Kept-more c tracked rest.0.queue fx rest.1 (run_events-Kept t es k)
        | inr ended ↦ inr (Ended-append c fx rest.1 (inl ended))
      ]
