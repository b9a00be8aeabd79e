-- ===== src/RateLimiter/Loop.antt =====
-- src/lib/rate-limiter.ts: the entry points of the callers, the timers' callbacks, `processQueue`
-- and `stop`. A synchronous operation reads the clock once. A call that is started reports back
-- later, by `settle`.
use io_broker_govee_smart.Base.{
  ℕ, ◌+◌, Bool, true, false, not, List, [], ◌∷◌, ◌++◌, Option, none, some, if◌then◌else◌,
}
use io_broker_govee_smart.CallBooking.{Booking, seal}
use io_broker_govee_smart.RateLimiter.State.{
  SpentCall, QueuedCall, Refusal, limiter_stopped, day_budget_spent_today, queue_full,
  device_budget_used_up, Effect, run, reject, log, daily_reset, set_timer, clear_timer, Timer,
  minute_reset, day_kickoff, day_reset, process, DeviceBudget, Limiter, reject_call,
}
use io_broker_govee_smart.RateLimiter.Ledger.{
  day_budget_spent, device_budget_spent, can_make_call, spend, refund,
}
use io_broker_govee_smart.RateLimiter.Queue.{enqueue}

-- `budget && deviceBudgetSpent(budget)`
unfoldable pub over_budget : Limiter → Option DeviceBudget → Limiter × Bool × List Effect
unfolding device_budget_spent
over_budget s none = (s, false, [])
over_budget s (some b) = device_budget_spent s b

abbrev pub budget_refusal : Option DeviceBudget → Option Refusal
budget_refusal none = none
budget_refusal (some b) = some (device_budget_used_up b)

abbrev pub budget_reject : QueuedCall → List Effect
budget_reject call = elim call.budget [
  | none ↦ []
  | some b ↦ reject_call call (device_budget_used_up b)
]

-- `runSpent(execute, spend(…))` up to its first wait.
unfoldable pub start_call : Limiter → QueuedCall → ℕ → Limiter × List Effect
unfolding spend
start_call s call now =
    let (t, spent) = spend s call.lane call.budget now in (t, run call.id spent ∷ [])

-- The end of `runSpent`.
unfoldable pub settle : Limiter → SpentCall → Booking → ℕ → Limiter
unfolding seal refund
settle s spent booking now = if seal booking then refund s spent now else s

unfoldable pub try_execute : Limiter → QueuedCall → ℕ → Limiter × Bool × List Effect
unfolding over_budget can_make_call start_call enqueue
try_execute s call now =
    let (b, over, lines) = over_budget s call.budget in
    if over
    then (b, false, lines)
    else (let (m, free) = can_make_call b call.lane now in
        if free
        then (let (r, fx) = start_call m call now in (r, true, lines ++ fx))
        else (let (q, _, fx) = enqueue m (record call { tracked = false }) in
            (q, false, lines ++ fx)))

-- The promise of a tracked call is settled by its run, by a `reject`, or (thrown before any of
-- these) by the refusal that is returned; a second `reject` of one promise is without effect.
unfoldable pub execute_tracked : Limiter → QueuedCall → ℕ → Limiter × Option Refusal × List Effect
unfolding over_budget can_make_call start_call enqueue
execute_tracked s call now =
    let (b, over, lines) = over_budget s call.budget in
    if over
    then (b, budget_refusal call.budget, lines)
    else (let (m, free) = can_make_call b call.lane now in
        if free
        then (let (r, fx) = start_call m call now in (r, none, lines ++ fx))
        else (let (q, accepted, fx) = enqueue m (record call { tracked = true }) in
            (q, none, lines ++ (fx ++ (if accepted then [] else reject call.id queue_full ∷ [])))))

-- A round of the loop of `processQueue`: whether the call stays in the queue.
unfoldable pub visit : Limiter → QueuedCall → ℕ → Limiter × Bool × List Effect
unfolding over_budget can_make_call start_call
visit s call now =
    let (m, free) = can_make_call s call.lane now in
    if not free
    then (m, true, [])
    else (let (b, over, lines) = over_budget m call.budget in
        if over
        then (b, false, lines ++ budget_reject call)
        else (let (r, fx) = start_call b call now in (r, false, lines ++ fx)))

-- The loop of `processQueue`: the calls that stay, in their order.
unfoldable pub drain : List QueuedCall → Limiter → ℕ → List QueuedCall × Limiter × List Effect
unfolding visit
drain [] s now = ([], s, [])
drain (c ∷ cs) s now =
    let (t, stays, fx) = visit s c now in
    let (kept, u, more) = drain cs t now in ((if stays then c ∷ kept else kept), u, fx ++ more)

abbrev pub reject_all : List QueuedCall → Refusal → List Effect
reject_all [] why = []
reject_all (c ∷ cs) why = reject_call c why ++ reject_all cs why

abbrev pub is_empty {ℓ} : {A : Type ℓ} → List A → Bool
is_empty [] = true
is_empty (x ∷ xs) = false

unfoldable pub process_queue : Limiter → ℕ → Limiter × List Effect
unfolding day_budget_spent drain
process_queue s now =
    if s.stopped
    then (s, [])
    else (let (d, spent, lines) = day_budget_spent s in
        if spent
        then (record d { queue = [] }, lines ++ reject_all d.queue day_budget_spent_today)
        else (let (kept, t, fx) = drain d.queue d now in
            (
              record t {
                queue = kept;
                warned_queue_full = if is_empty kept then false else t.warned_queue_full;
              },
              lines ++ fx,
            )))

unfoldable pub clear_minute : Limiter → Limiter
clear_minute s = record s {
  minute_epoch = s.minute_epoch + 1;
  account_list_used = 0;
  app_api_used = 0;
  device_read_used = [];
}

unfoldable pub reset_minute_window : Limiter → ℕ → Limiter × List Effect
unfolding clear_minute process_queue
reset_minute_window s now = process_queue (clear_minute s) now

unfoldable pub reset_daily : Limiter → Limiter × List Effect
reset_daily s = (
  record s {
    calls_today = 0;
    warned_day_budget = false;
    not_delivered_today = 0;
    day_epoch = s.day_epoch + 1;
    calls_today_per_device = [];
    warned_device_budget = [];
  },
  log daily_reset ∷ [],
)

unfoldable pub start : Limiter → Limiter × List Effect
start s = (
  record s {
    stopped = false;
    minute_reset_timer = true;
    day_reset_kickoff = true;
    process_timer = true;
  },
  set_timer minute_reset ∷ set_timer day_kickoff ∷ set_timer process ∷ [],
)

-- The callback of the timer that waits for midnight (UTC).
unfoldable pub day_kickoff_fires : Limiter → Limiter × List Effect
unfolding reset_daily
day_kickoff_fires s =
    let k = record s { day_reset_kickoff = false } in
    if k.stopped
    then (k, [])
    else (let (d, fx) = reset_daily k in
        (record d { day_reset_timer = true }, fx ++ set_timer day_reset ∷ []))

abbrev pub clear_if : Bool → Timer → List Effect
clear_if held timer = if held then clear_timer timer ∷ [] else []

unfoldable pub stop : Limiter → Limiter × List Effect
stop s = (
  record s {
    stopped = true;
    queue = [];
    minute_reset_timer = false;
    day_reset_kickoff = false;
    day_reset_timer = false;
    process_timer = false;
  },
  clear_if s.minute_reset_timer minute_reset
      ++ (clear_if s.day_reset_kickoff day_kickoff
          ++ (clear_if s.day_reset_timer day_reset
              ++ (clear_if s.process_timer process ++ reject_all s.queue limiter_stopped))),
)
