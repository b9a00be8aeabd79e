-- ===== src/RateLimiter/Sound.antt =====
-- src/lib/rate-limiter.ts: the invariant of the limiter, kept by every event.
pub mod Steps
use io_broker_govee_smart.Base.{
  ℕ, suc, ◌+◌, ◌≤◌, ◌<◌, Bool, true, false, not, List, [], ◌∷◌, ◌++◌, Option, none, some,
  if◌then◌else◌, arith, ◌≡◌, refl, sym, ap, ◌∙◌, if_cases, Bool-cases, Option-cases, inl, inr, All,
  All-append, All-init, ◌==◌, leb, ltb, leb→le, last?, init, length, length-append, length-init,
  keep,
}
use io_broker_govee_smart.CallBooking.{Booking, seal}
use io_broker_govee_smart.RateLimiter.State.{
  QueuedCall, CallLane, account_list, device_read, device_control, app_api, DeviceBudget, SpentCall,
  CloudLimits, Limiter, make_limiter, max_queue_length, Effect,
}
use io_broker_govee_smart.RateLimiter.Ledger.{
  day_budget_spent, device_budget_spent, spend, charge_lane, refund, refund_window, refund_tokens,
  refund_day, lane_free, can_make_call,
}
use io_broker_govee_smart.RateLimiter.Queue.{
  insert_call, push_call, drop_new, enqueue_full, enqueue,
}
use io_broker_govee_smart.RateLimiter.Loop.{
  over_budget, start_call, settle, try_execute, execute_tracked, visit, drain, process_queue,
  reset_minute_window, reset_daily, start, day_kickoff_fires, stop,
}
use io_broker_govee_smart.RateLimiter.Within.{
  IsWithin, Allows, IsFree, IsUnder, make_limiter-IsWithin, can_make_call-IsWithin,
  can_make_call-true, spend-IsWithin, refund-IsWithin,
}
use io_broker_govee_smart.RateLimiter.Sorted.{
  IsSorted, All-insert_call, insert_call-IsSorted, length-insert_call, push_call_lem,
}

-- No counter passes its limit, and the queue is sorted and holds at most 200 calls.
pub record IsSound (limits : CloudLimits) (allowance : ℕ) (s : Limiter) : Type 0 where
  pub within : IsWithin limits allowance s
  pub sorted : IsSorted s.queue
  pub short : length s.queue ≤ max_queue_length

IsSorted-init : (q : List QueuedCall) → IsSorted q → IsSorted (init q)
IsSorted-init [] h = tt
IsSorted-init (x ∷ []) h = tt
IsSorted-init (x ∷ y ∷ q) (lo, h) = (All-init _ (y ∷ q) lo, IsSorted-init (y ∷ q) h)

length-init_le : (q : List QueuedCall) → length (init q) ≤ length q
length-init_le [] = omega arith
length-init_le (x ∷ xs) = omega (arith, length-init x xs)

length-init_last :
    (q : List QueuedCall) {c : QueuedCall} → last? q ≡ some c → suc (length (init q)) ≡ length q
length-init_last [] e = cc
length-init_last (x ∷ xs) e = length-init x xs

-- What is left as it was where only the counters are charged or given back.
refund_parts-queue :
    (s : Limiter) (lane : CallLane) (budget : Option DeviceBudget) (now : ℕ)
    → ((refund_window s lane).queue ≡ s.queue)
      × ((refund_tokens s lane now).queue ≡ s.queue)
      × ((refund_day s budget).queue ≡ s.queue)
unfolding refund_window refund_tokens refund_day
refund_parts-queue s account_list budget now = (refl, refl, refl)
refund_parts-queue s app_api budget now = (refl, refl, refl)
refund_parts-queue s (device_read key) budget now = (refl, refl, refl)
refund_parts-queue s (device_control key) budget now = (refl, refl, refl)

refund-queue : (s : Limiter) (spent : SpentCall) (now : ℕ) → (refund s spent now).queue ≡ s.queue
unfolding refund
refund-queue s spent now =
    let w = if spent.minute_epoch == s.minute_epoch then refund_window s spent.lane else s in
    let t = refund_tokens w spent.lane now in
    ground (
      arith,
      refund_parts-queue s spent.lane spent.budget now,
      refund_parts-queue w spent.lane spent.budget now,
      refund_parts-queue t spent.lane spent.budget now,
    )

charge_lane-queue :
    (s : Limiter) (lane : CallLane) (now : ℕ) → (charge_lane s lane now).queue ≡ s.queue
unfolding charge_lane
charge_lane-queue s account_list now = refl
charge_lane-queue s app_api now = refl
charge_lane-queue s (device_read key) now = refl
charge_lane-queue s (device_control key) now = refl

pub spend-queue :
    (s : Limiter) (lane : CallLane) (budget : Option DeviceBudget) (now : ℕ)
    → (spend s lane budget now).0.queue ≡ s.queue
unfolding spend
spend-queue s lane budget now = charge_lane-queue s lane now

pub can_make_call-queue :
    (s : Limiter) (lane : CallLane) (now : ℕ) → (can_make_call s lane now).0.queue ≡ s.queue
unfolding can_make_call lane_free
can_make_call-queue s account_list now = ground arith
can_make_call-queue s app_api now = ground arith
can_make_call-queue s (device_read key) now = ground arith
can_make_call-queue s (device_control key) now = ground arith

pub can_make_call-devices :
    (s : Limiter) (lane : CallLane) (now : ℕ)
    → (can_make_call s lane now).0.calls_today_per_device ≡ s.calls_today_per_device
unfolding can_make_call lane_free
can_make_call-devices s account_list now = ground arith
can_make_call-devices s app_api now = ground arith
can_make_call-devices s (device_read key) now = ground arith
can_make_call-devices s (device_control key) now = ground arith

pub over_budget-queue :
    (s : Limiter) (budget : Option DeviceBudget) → (over_budget s budget).0.queue ≡ s.queue
unfolding over_budget device_budget_spent
over_budget-queue s none = refl
over_budget-queue s (some b) = ground arith

module _ (limits : CloudLimits) (allowance : ℕ) where
  over_budget-IsWithin :
      (s : Limiter) (budget : Option DeviceBudget)
      → IsWithin limits allowance s
      → IsWithin limits allowance (over_budget s budget).0
  unfolding over_budget device_budget_spent
  over_budget-IsWithin s none w = w
  over_budget-IsWithin s (some b) w = ground arith

  push_call-IsSound :
      (s : Limiter) (c : QueuedCall)
      → Allows allowance c.budget
      → IsSound limits allowance s
      → length s.queue < max_queue_length
      → IsSound limits allowance (push_call s c)
  unfolding push_call
  push_call-IsSound s c allow h room =
      let e = push_call_lem s c h.sorted in
      record {
        within = assumption (
          h.within,
          (let a : All (λ c. Allows allowance c.budget) (push_call s c).queue =
                rw e (All-insert_call _ c s.queue allow h.within.queue_allowed) in
              a),
        );
        sorted = rw e (insert_call-IsSorted c s.queue h.sorted);
        short = rw (e, length-insert_call c s.queue) room;
      }

  pub day_budget_spent-IsSound :
      (s : Limiter) → IsSound limits allowance s → IsSound limits allowance (day_budget_spent s).0
  unfolding day_budget_spent
  day_budget_spent-IsSound s h = ground arith

  init-IsSound :
      (s : Limiter)
      → IsSound limits allowance s
      → IsSound limits allowance (record s { queue = init s.queue })
  init-IsSound s h = record {
    within =
        assumption
          (All-init (λ c. Allows allowance c.budget) s.queue h.within.queue_allowed, h.within);
    sorted = IsSorted-init s.queue h.sorted;
    short = omega (arith, length-init_le s.queue, h.short);
  }

  enqueue_full-IsSound :
      (s : Limiter) (c : QueuedCall) (tail : Option QueuedCall)
      → Allows allowance c.budget
      → IsSound limits allowance s
      → last? s.queue ≡ tail
      → IsSound limits allowance (enqueue_full s c tail).0
  unfolding enqueue_full drop_new
  enqueue_full-IsSound s c none allow h e = ground arith
  enqueue_full-IsSound s c (some tail) allow h e =
      elim (Bool-cases (leb tail.priority c.priority)) [
        | inl before ↦ rw before (assumption h)
        | inr outranks ↦ rw outranks (
            push_call-IsSound (record s { queue = init s.queue }) c allow (init-IsSound s h)
              (omega (arith, length-init_last s.queue e, h.short)))
      ]

  pub enqueue-IsSound :
      (s : Limiter) (c : QueuedCall)
      → Allows allowance c.budget
      → IsSound limits allowance s
      → IsSound limits allowance (enqueue s c).0
  unfolding enqueue
  enqueue-IsSound s c allow h =
      let d = (day_budget_spent s).0 in
      let dh = day_budget_spent-IsSound s h in
      let P : Limiter × Bool × List Effect → Type 0 = λ r. IsSound limits allowance r.0 in
      if_cases P s.stopped (λ e. h)
        λ e.
          if_cases P (day_budget_spent s).1 (λ e. dh)
            λ e.
              if_cases P (leb max_queue_length (length d.queue))
                (λ e. enqueue_full-IsSound d c (last? d.queue) allow dh refl)
                (λ e. push_call-IsSound d c allow dh (ground arith))

  pub spend-IsSound :
      (s : Limiter) (c : QueuedCall) (now : ℕ)
      → IsFree c.lane s
      → s.calls_today < s.limits.per_day
      → IsUnder c.budget s
      → Allows allowance c.budget
      → IsSound limits allowance s
      → IsSound limits allowance (start_call s c now).0
  unfolding start_call
  spend-IsSound s c now free day under allow h = record {
    within = spend-IsWithin limits allowance s c.lane c.budget now free day under allow h.within;
    sorted = rw (spend-queue s c.lane c.budget now) h.sorted;
    short = rw (spend-queue s c.lane c.budget now) h.short;
  }

  pub can_make_call-IsSound :
      (s : Limiter) (lane : CallLane) (now : ℕ)
      → IsSound limits allowance s
      → IsSound limits allowance (can_make_call s lane now).0
  can_make_call-IsSound s lane now h = record {
    within = can_make_call-IsWithin limits allowance s lane now h.within;
    sorted = rw (can_make_call-queue s lane now) h.sorted;
    short = rw (can_make_call-queue s lane now) h.short;
  }

  pub over_budget-IsSound :
      (s : Limiter) (budget : Option DeviceBudget)
      → IsSound limits allowance s
      → IsSound limits allowance (over_budget s budget).0
  over_budget-IsSound s budget h = record {
    within = over_budget-IsWithin s budget h.within;
    sorted = rw (over_budget-queue s budget) h.sorted;
    short = rw (over_budget-queue s budget) h.short;
  }

  pub settle-IsSound :
      (s : Limiter) (spent : SpentCall) (booking : Booking) (now : ℕ)
      → IsSound limits allowance s
      → IsSound limits allowance (settle s spent booking now)
  unfolding settle
  settle-IsSound s spent booking now h =
      if_cases (IsSound limits allowance) (seal booking)
        (λ e. record {
          within = refund-IsWithin limits allowance s spent now h.within;
          sorted = rw (refund-queue s spent now) h.sorted;
          short = rw (refund-queue s spent now) h.short;
        })
        (λ e. h)

pub settle-queue :
    (s : Limiter) (spent : SpentCall) (booking : Booking) (now : ℕ)
    → (settle s spent booking now).queue ≡ s.queue
unfolding settle
settle-queue s spent booking now = ground (arith, refund-queue s spent now)
