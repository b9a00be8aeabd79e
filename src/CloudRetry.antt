-- ===== src/CloudRetry.antt =====
-- src/lib/cloud-retry.ts: the loop that retries the load of the cloud. A load takes time: it starts
-- in one event and ends in a later one.
pub mod Timer
pub mod Stopped
use io_broker_govee_smart.Base.{
  ℕ, suc, ◌+◌, ◌-◌, max, Bool, true, false, not, ◌&&◌, ◌||◌, List, [], ◌∷◌, ◌++◌, Option, none,
  some, if◌then◌else◌, is_some, ◌==◌,
}
use mathlib.Core.Option
use io_broker_govee_smart.TimerMs.{
  clamp_timer_ms, min_rate_limit_retry_ms, max_rate_limit_retry_ms, transient_retry_ms,
}

pub data CloudLoadResult : Type 0 where
  ok auth_failed transient : CloudLoadResult
  rate_limited : Option ℕ → CloudLoadResult

-- `armed`: the delay of the pending timer. `in_flight`: the loads that have not ended.
pub record RetryLoop : Type 0 where
  pub armed : Option ℕ
  pub connected : Bool
  pub stopped : Bool
  pub disposed : Bool
  pub in_flight : ℕ

pub data Effect : Type 0 where
  set_timer : ℕ → Effect
  clear_timer load restored : Effect

abbrev pub make_loop : RetryLoop
make_loop = record {
  armed = none;
  connected = false;
  stopped = false;
  disposed = false;
  in_flight = 0;
}

-- `if (this.retryTimer !== undefined) { clearTimeout(…); this.retryTimer = undefined; }`
unfoldable pub disarm : RetryLoop → RetryLoop × List Effect
disarm s = (record s { armed = none }, if is_some s.armed then clear_timer ∷ [] else [])

unfoldable pub set_connected : RetryLoop → Bool → RetryLoop × List Effect
unfolding disarm
set_connected s up = let t = record s { connected = up } in if up then disarm t else (t, [])

unfoldable pub dispose : RetryLoop → RetryLoop × List Effect
unfolding disarm
dispose s = disarm (record s { disposed = true; stopped = true })

unfoldable pub note_key_accepted : RetryLoop → RetryLoop × List Effect
note_key_accepted s = (if not s.disposed then record s { stopped = false } else s, [])

unfoldable pub schedule : RetryLoop → ℕ → RetryLoop × List Effect
schedule s delay =
    if s.stopped || s.connected
    then (s, [])
    else if is_some s.armed
    then (s, [])
    else (record s { armed = some delay }, set_timer delay ∷ [])

-- The wait that a 429 names, floored and capped.
unfoldable pub pause_ms : Option ℕ → ℕ
unfolding clamp_timer_ms
pause_ms retry_after =
    clamp_timer_ms (Option.map (λ ms. max ms min_rate_limit_retry_ms) retry_after)
      min_rate_limit_retry_ms max_rate_limit_retry_ms

unfoldable pub handle_result : RetryLoop → CloudLoadResult → RetryLoop × List Effect
unfolding disarm schedule
handle_result s ok = (s, [])
handle_result s auth_failed = disarm (record s { stopped = true })
handle_result s (rate_limited retry_after) = schedule s (pause_ms retry_after)
handle_result s transient = schedule s transient_retry_ms

-- The timer's callback and `runAttempt` up to its wait for the load.
unfoldable pub timer_fires : RetryLoop → RetryLoop × List Effect
timer_fires s =
    let t = record s { armed = none } in
    if t.connected || t.stopped
    then (t, [])
    else (record t { in_flight = t.in_flight + 1 }, load ∷ [])

abbrev pub load_succeeds : RetryLoop → CloudLoadResult → RetryLoop × List Effect
load_succeeds s ok = (record s { connected = true }, restored ∷ [])
load_succeeds s result = handle_result s result

-- `runAttempt` from the end of the load.
unfoldable pub load_ends : RetryLoop → CloudLoadResult → RetryLoop × List Effect
unfolding handle_result
load_ends s result =
    let t = record s { in_flight = s.in_flight - 1 } in
    if t.stopped then (t, []) else load_succeeds t result

pub data Event : Type 0 where
  connection_is : Bool → Event
  unloads key_accepted fires load_throws : Event
  result_is load_result : CloudLoadResult → Event

-- A timer fires only while it is pending, and a load ends only if one runs.
unfoldable pub step : RetryLoop → Event → RetryLoop × List Effect
unfolding set_connected dispose note_key_accepted handle_result timer_fires load_ends
step s (connection_is up) = set_connected s up
step s unloads = dispose s
step s key_accepted = note_key_accepted s
step s (result_is r) = handle_result s r
step s fires = if is_some s.armed then timer_fires s else (s, [])
step s (load_result r) = if s.in_flight == 0 then (s, []) else load_ends s r
step s load_throws = (record s { in_flight = s.in_flight - 1 }, [])

unfoldable pub run_events : RetryLoop → List Event → RetryLoop × List Effect
run_events s [] = (s, [])
run_events s (e ∷ es) = let (t, fx) = step s e in let (u, more) = run_events t es in (u, fx ++ more)
