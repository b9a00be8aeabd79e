-- ===== src/CloudRetry/Timer.antt =====
-- src/lib/cloud-retry.ts: the pending timer. There is at most one, and its delay is never short.
use io_broker_govee_smart.Base.{
  ℕ, ◌+◌, ◌-◌, ◌≤◌, List, [], ◌∷◌, ◌++◌, Option, none, some, if◌then◌else◌, is_some, ◌==◌, if_cases,
  arith, ◌≡◌, All, All-append,
}
use io_broker_govee_smart.TimerMs.{min_rate_limit_retry_ms, max_rate_limit_retry_ms}
use io_broker_govee_smart.CloudRetry.{
  CloudLoadResult, ok, auth_failed, transient, rate_limited, RetryLoop, Effect, set_timer,
  clear_timer, load, restored, pause_ms, handle_result, load_succeeds, load_ends, Event,
  connection_is, unloads, key_accepted, fires, load_throws, result_is, load_result, step,
  run_events,
}

-- Whatever a server names as its wait, the pause is from 5 seconds to 1 hour.
pub pause_ms_bounds :
    (retry_after : Option ℕ)
    → (min_rate_limit_retry_ms ≤ pause_ms retry_after)
      × (pause_ms retry_after ≤ max_rate_limit_retry_ms)
unfolding pause_ms
pause_ms_bounds none = omega arith
pause_ms_bounds (some ms) = omega arith

abbrev pub Paced : Effect → Type 0
Paced (set_timer delay) = (min_rate_limit_retry_ms ≤ delay) × (delay ≤ max_rate_limit_retry_ms)
Paced _ = Unit

handle_result-Paced : (s : RetryLoop) (r : CloudLoadResult) → All Paced (handle_result s r).1
unfolding handle_result
handle_result-Paced s ok = tt
handle_result-Paced s auth_failed = ground arith
handle_result-Paced s transient = ground arith
handle_result-Paced s (rate_limited retry_after) = ground (arith, pause_ms_bounds retry_after)

load_succeeds-Paced : (s : RetryLoop) (r : CloudLoadResult) → All Paced (load_succeeds s r).1
load_succeeds-Paced s ok = (tt, tt)
load_succeeds-Paced s r = handle_result-Paced s r

load_ends-Paced : (s : RetryLoop) (r : CloudLoadResult) → All Paced (load_ends s r).1
unfolding load_ends
load_ends-Paced s r =
    let t = record s { in_flight = s.in_flight - 1 } in
    if_cases (λ (x : RetryLoop × List Effect). All Paced x.1) s.stopped (λ e. tt)
      (λ e. load_succeeds-Paced t r)

step-Paced : (s : RetryLoop) (e : Event) → All Paced (step s e).1
unfolding step
step-Paced s (connection_is up) = ground arith
step-Paced s unloads = ground arith
step-Paced s key_accepted = ground arith
step-Paced s (result_is r) = handle_result-Paced s r
step-Paced s fires = ground arith
step-Paced s (load_result r) =
    if_cases (λ (x : RetryLoop × List Effect). All Paced x.1) (s.in_flight == 0) (λ e. tt)
      (λ e. load_ends-Paced s r)
step-Paced s load_throws = tt

-- Whatever the cloud answers and in whatever order, every timer that the loop sets waits for 5
-- seconds at least and for 1 hour at most.
pub run_events-Paced : (s : RetryLoop) (es : List Event) → All Paced (run_events s es).1
unfolding run_events
run_events-Paced s [] = tt
run_events-Paced s (e ∷ es) =
    All-append Paced (step s e).1 _ (step-Paced s e) (run_events-Paced (step s e).0 es)

abbrev pub pending : RetryLoop → ℕ
pending s = if is_some s.armed then 1 else 0

abbrev pub timers_set : List Effect → ℕ
timers_set [] = 0
timers_set (set_timer delay ∷ fx) = 1 + timers_set fx
timers_set (_ ∷ fx) = timers_set fx

abbrev pub timers_cleared : List Effect → ℕ
timers_cleared [] = 0
timers_cleared (clear_timer ∷ fx) = 1 + timers_cleared fx
timers_cleared (_ ∷ fx) = timers_cleared fx

abbrev pub fired_by : RetryLoop → Event → ℕ
fired_by s fires = pending s
fired_by s _ = 0

-- How many of the events were the firing of a pending timer.
abbrev pub timers_fired : RetryLoop → List Event → ℕ
timers_fired s [] = 0
timers_fired s (e ∷ es) = fired_by s e + timers_fired (step s e).0 es

timers-append :
    (fx gx : List Effect)
    → (timers_set (fx ++ gx) ≡ timers_set fx + timers_set gx)
      × (timers_cleared (fx ++ gx) ≡ timers_cleared fx + timers_cleared gx)
timers-append [] gx = omega arith
timers-append (set_timer d ∷ fx) gx = omega (arith, timers-append fx gx)
timers-append (clear_timer ∷ fx) gx = omega (arith, timers-append fx gx)
timers-append (load ∷ fx) gx = omega (arith, timers-append fx gx)
timers-append (restored ∷ fx) gx = omega (arith, timers-append fx gx)

abbrev Balanced : RetryLoop → RetryLoop × List Effect → ℕ → Type 0
Balanced s r fired = pending s + timers_set r.1 ≡ pending r.0 + timers_cleared r.1 + fired

handle_result-Balanced : (s : RetryLoop) (r : CloudLoadResult) → Balanced s (handle_result s r) 0
unfolding handle_result
handle_result-Balanced s ok = omega arith
handle_result-Balanced s auth_failed = ground arith
handle_result-Balanced s transient = ground arith
handle_result-Balanced s (rate_limited retry_after) = ground arith

load_succeeds-Balanced : (s : RetryLoop) (r : CloudLoadResult) → Balanced s (load_succeeds s r) 0
load_succeeds-Balanced s ok = omega arith
load_succeeds-Balanced s r = handle_result-Balanced s r

step-Balanced : (s : RetryLoop) (e : Event) → Balanced s (step s e) (fired_by s e)
unfolding step load_ends
step-Balanced s (connection_is up) = ground arith
step-Balanced s unloads = ground arith
step-Balanced s key_accepted = ground arith
step-Balanced s (result_is r) = handle_result-Balanced s r
step-Balanced s fires = ground arith
step-Balanced s (load_result r) =
    let t = record s { in_flight = s.in_flight - 1 } in
    if_cases (λ x. Balanced s x 0) (s.in_flight == 0) (λ e. omega arith)
      λ e.
        if_cases (λ x. Balanced s x 0) s.stopped (λ e. omega arith)
          (λ e. load_succeeds-Balanced t r)
step-Balanced s load_throws = omega arith

-- No timer is lost: each timer that was set has fired, was cleared, or is the one that is pending.
pub run_events-Balanced :
    (s : RetryLoop) (es : List Event)
    → (let r = run_events s es in
        pending s + timers_set r.1 ≡ pending r.0 + timers_cleared r.1 + timers_fired s es)
unfolding run_events
run_events-Balanced s [] = omega arith
run_events-Balanced s (e ∷ es) =
    let t = (step s e).0 in
    omega (
      arith,
      step-Balanced s e,
      run_events-Balanced t es,
      timers-append (step s e).1 (run_events t es).1,
    )
