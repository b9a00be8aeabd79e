-- ===== src/RateLimiter/Queue.antt =====
-- src/lib/rate-limiter.ts, `enqueue`: the queue of waiting calls, sorted by priority. The sort of
-- JavaScript is stable; it is modelled by insertion from the left.
use io_broker_govee_smart.Base.{
  Bool, true, false, not, List, [], ◌∷◌, ◌++◌, Option, none, some, leb, if◌then◌else◌, length,
  last?, init,
}
use io_broker_govee_smart.RateLimiter.State.{
  QueuedCall, max_queue_length, limiter_stopped, day_budget_spent_today, evicted, Effect, log,
  dropped_on_full, Limiter, reject_call,
}
use io_broker_govee_smart.RateLimiter.Ledger.{day_budget_spent}

-- One round of the sort: behind the calls of the same priority.
unfoldable pub insert_call : QueuedCall → List QueuedCall → List QueuedCall
insert_call c [] = c ∷ []
insert_call c (x ∷ xs) = if leb x.priority c.priority then x ∷ insert_call c xs else c ∷ x ∷ xs

unfoldable pub sort_from : List QueuedCall → List QueuedCall → List QueuedCall
sort_from done [] = done
sort_from done (c ∷ cs) = sort_from (insert_call c done) cs

unfoldable pub sort_queue : List QueuedCall → List QueuedCall
unfolding sort_from insert_call
sort_queue q = sort_from [] q

-- `push` and `sort`.
unfoldable pub push_call : Limiter → QueuedCall → Limiter
unfolding sort_queue
push_call s call = record s { queue = sort_queue (s.queue ++ call ∷ []) }

-- The new call is dropped: the first time of an overflow with a warning.
unfoldable pub drop_new : Limiter → QueuedCall → Limiter × Bool × List Effect
drop_new s call = (
  record s { warned_queue_full = true },
  false,
  log (dropped_on_full (not s.warned_queue_full) call.priority) ∷ [],
)

-- The full queue gives up its tail for a call that outranks it.
unfoldable pub enqueue_full :
    Limiter → QueuedCall → Option QueuedCall → Limiter × Bool × List Effect
unfolding drop_new push_call
enqueue_full s call none = drop_new s call
enqueue_full s call (some tail) =
    if leb tail.priority call.priority
    then drop_new s call
    else (push_call (record s { queue = init s.queue }) call, true, reject_call tail evicted)

-- Whether the call was queued, and what was done outside.
unfoldable pub enqueue : Limiter → QueuedCall → Limiter × Bool × List Effect
unfolding enqueue_full push_call day_budget_spent
enqueue s call =
    if s.stopped
    then (s, false, reject_call call limiter_stopped)
    else (let (d, spent, lines) = day_budget_spent s in
        if spent
        then (d, false, lines ++ reject_call call day_budget_spent_today)
        else if leb max_queue_length (length d.queue)
        then enqueue_full d call (last? d.queue)
        else (push_call d call, true, []))
