-- ===== src/RateLimiter/Events.antt =====
-- src/lib/rate-limiter.ts: everything that can happen to a limiter, as a list of events in the
-- order in which they happen. A call that was started settles at any later event, so the calls in
-- flight interleave with the timers and with new calls.
use io_broker_govee_smart.Base.{ℕ, List, [], ◌∷◌, ◌++◌}
use io_broker_govee_smart.CallBooking.{Booking}
use io_broker_govee_smart.RateLimiter.State.{SpentCall, QueuedCall, Effect, Limiter}
use io_broker_govee_smart.RateLimiter.Queue.{enqueue}
use io_broker_govee_smart.RateLimiter.Loop.{
  settle, try_execute, execute_tracked, process_queue, reset_minute_window, reset_daily, start,
  day_kickoff_fires, stop,
}

pub data Event : Type 0 where
  enqueued tried tracked_call : QueuedCall → Event
  settled : SpentCall → Booking → Event
  starts stops minute_tick day_tick kickoff queue_tick : Event

unfoldable pub step : Limiter → ℕ → Event → Limiter × List Effect
step s now (enqueued c) = let (t, _, fx) = enqueue s c in (t, fx)
step s now (tried c) = let (t, _, fx) = try_execute s c now in (t, fx)
step s now (tracked_call c) = let (t, _, fx) = execute_tracked s c now in (t, fx)
step s now (settled spent booking) = (settle s spent booking now, [])
step s now starts = start s
step s now stops = stop s
step s now minute_tick = reset_minute_window s now
step s now day_tick = reset_daily s
step s now kickoff = day_kickoff_fires s
step s now queue_tick = process_queue s now

unfoldable pub run_events : Limiter → List (ℕ × Event) → Limiter × List Effect
unfolding step
run_events s [] = (s, [])
run_events s ((now, e) ∷ es) =
    let (t, fx) = step s now e in let (u, more) = run_events t es in (u, fx ++ more)
