-- ===== src/RateLimiter/Meter/Quiet.antt =====
-- src/lib/rate-limiter.ts: what leaves the counters alone, and what starts no call.
use io_broker_govee_smart.Base.{
  ℕ, ◌+◌, Bool, List, [], ◌∷◌, ◌++◌, Option, none, some, arith, ◌≡◌, refl, if_cases, length, leb,
  last?,
}
use io_broker_govee_smart.RateLimiter.State.{
  QueuedCall, CallLane, account_list, device_read, device_control, app_api, DeviceBudget, Limiter,
  max_queue_length, Effect, run, reject, log, set_timer, clear_timer, Refusal, limiter_stopped,
  day_budget_spent_today, evicted, reject_call,
}
use io_broker_govee_smart.RateLimiter.Ledger.{
  day_budget_spent, device_budget_spent, lane_free, can_make_call,
}
use io_broker_govee_smart.RateLimiter.Queue.{enqueue, push_call, enqueue_full, drop_new}
use io_broker_govee_smart.RateLimiter.Loop.{over_budget, budget_reject, reject_all}
use io_broker_govee_smart.RateLimiter.Meter.{Meter, counters, runs}

pub can_make_call-counters :
    (s : Limiter) (lane : CallLane) (now : ℕ) → counters (can_make_call s lane now).0 ≡ counters s
unfolding can_make_call lane_free
can_make_call-counters s account_list now = ground arith
can_make_call-counters s app_api now = ground arith
can_make_call-counters s (device_read key) now = ground arith
can_make_call-counters s (device_control key) now = ground arith

pub over_budget-counters :
    (s : Limiter) (budget : Option DeviceBudget) → counters (over_budget s budget).0 ≡ counters s
unfolding over_budget device_budget_spent
over_budget-counters s none = refl
over_budget-counters s (some b) = ground arith

pub day_budget_spent-counters : (s : Limiter) → counters (day_budget_spent s).0 ≡ counters s
unfolding day_budget_spent
day_budget_spent-counters s = ground arith

pub enqueue_full-counters :
    (s : Limiter) (c : QueuedCall) (tail : Option QueuedCall)
    → counters (enqueue_full s c tail).0 ≡ counters s
unfolding enqueue_full push_call drop_new
enqueue_full-counters s c none = refl
enqueue_full-counters s c (some tail) = ground arith

pub enqueue-counters : (s : Limiter) (c : QueuedCall) → counters (enqueue s c).0 ≡ counters s
unfolding enqueue push_call day_budget_spent
enqueue-counters s c =
    let d = (day_budget_spent s).0 in ground (arith, enqueue_full-counters d c (last? d.queue))

module _ (m : Meter) where
  pub runs-append : (fx gx : List Effect) → runs m (fx ++ gx) ≡ runs m fx + runs m gx
  runs-append [] gx = omega arith
  runs-append (run id spent ∷ fx) gx = omega (arith, runs-append fx gx)
  runs-append (reject id why ∷ fx) gx = runs-append fx gx
  runs-append (log line ∷ fx) gx = runs-append fx gx
  runs-append (set_timer t ∷ fx) gx = runs-append fx gx
  runs-append (clear_timer t ∷ fx) gx = runs-append fx gx

  pub runs-reject_call : (c : QueuedCall) (why : Refusal) → runs m (reject_call c why) ≡ 0
  runs-reject_call c why = ground arith

  pub runs-reject_all : (cs : List QueuedCall) (why : Refusal) → runs m (reject_all cs why) ≡ 0
  runs-reject_all [] why = refl
  runs-reject_all (c ∷ cs) why = omega (
    arith,
    runs-append (reject_call c why) (reject_all cs why),
    runs-reject_call c why,
    runs-reject_all cs why,
  )

  pub runs-budget_reject : (c : QueuedCall) → runs m (budget_reject c) ≡ 0
  runs-budget_reject c = ground arith

  pub runs-over_budget :
      (s : Limiter) (budget : Option DeviceBudget) → runs m (over_budget s budget).2 ≡ 0
  unfolding over_budget device_budget_spent
  runs-over_budget s none = refl
  runs-over_budget s (some b) = ground arith

  pub runs-day_budget : (s : Limiter) → runs m (day_budget_spent s).2 ≡ 0
  unfolding day_budget_spent
  runs-day_budget s = ground arith

  pub runs-enqueue_full :
      (s : Limiter) (c : QueuedCall) (tail : Option QueuedCall)
      → runs m (enqueue_full s c tail).2 ≡ 0
  unfolding enqueue_full drop_new
  runs-enqueue_full s c none = refl
  runs-enqueue_full s c (some tail) = ground (arith, runs-reject_call tail evicted)

  pub runs-enqueue : (s : Limiter) (c : QueuedCall) → runs m (enqueue s c).2 ≡ 0
  unfolding enqueue
  runs-enqueue s c =
      let d = (day_budget_spent s).0 in
      let P : Limiter × Bool × List Effect → Type 0 = λ r. runs m r.2 ≡ 0 in
      if_cases P s.stopped (λ e. runs-reject_call c limiter_stopped)
        λ e.
          if_cases P (day_budget_spent s).1
            (λ e. omega (
              arith,
              runs-append (day_budget_spent s).2 (reject_call c day_budget_spent_today),
              runs-reject_call c day_budget_spent_today,
              runs-day_budget s,
            ))
            λ e.
              if_cases P (leb max_queue_length (length d.queue))
                (λ e. runs-enqueue_full d c (last? d.queue)) (λ e. refl)
