-- ===== src/RateLimiter/Tracked.antt =====
-- src/lib/rate-limiter.ts: no tracked call is lost. Its caller waits for a promise, so it must be
-- run or rejected before it may leave the queue.
pub mod Steps
use io_broker_govee_smart.Base.{
  ℕ, Bool, true, false, not, List, [], ◌∷◌, ◌++◌, Option, none, some, if◌then◌else◌, arith, ◌≡◌,
  refl, sym, ◌⊎◌, inl, inr, if_cases, Bool-cases, leb, length, last?, init, any, ◌==◌, ◌||◌,
}
use mathlib.Core.Path.{subst}
use mathlib.Core.List.{Memᴰ}
use io_broker_govee_smart.RateLimiter.State.{
  QueuedCall, CallLane, DeviceBudget, SpentCall, Limiter, max_queue_length, Effect, run, reject,
  log, set_timer, clear_timer, Refusal, limiter_stopped, day_budget_spent_today, evicted,
  queue_full, reject_call,
}
use io_broker_govee_smart.RateLimiter.Ledger.{day_budget_spent, can_make_call}
use io_broker_govee_smart.RateLimiter.Queue.{
  insert_call, sort_from, sort_queue, push_call, drop_new, enqueue_full, enqueue,
}
use io_broker_govee_smart.RateLimiter.Loop.{
  over_budget, start_call, settle, try_execute, execute_tracked, budget_reject, visit, drain,
  reject_all, is_empty, process_queue, clear_minute, reset_minute_window, reset_daily, start,
  day_kickoff_fires, stop, clear_if,
}
use io_broker_govee_smart.RateLimiter.Events.{
  Event, enqueued, tried, tracked_call, settled, starts, stops, minute_tick, day_tick, kickoff,
  queue_tick, step, run_events,
}

-- The effect runs or rejects the call.
abbrev pub ends : ℕ → Effect → Bool
ends id (run i spent) = i == id
ends id (reject i why) = i == id
ends id _ = false

abbrev pub Ended : QueuedCall → List Effect → Type 0
Ended c fx = any (ends c.id) fx ≡ true

any-append {ℓ} :
    {A : Type ℓ} (p : A → Bool) (xs ys : List A) → any p (xs ++ ys) ≡ (any p xs || any p ys)
any-append p [] ys = refl
any-append p (x ∷ xs) ys = ground (arith, any-append p xs ys)

pub Ended-append :
    (c : QueuedCall) (fx gx : List Effect) → Ended c fx ⊎ Ended c gx → Ended c (fx ++ gx)
Ended-append c fx gx (inl h) = ground (arith, any-append (ends c.id) fx gx)
Ended-append c fx gx (inr h) = ground (arith, any-append (ends c.id) fx gx)

-- The call waits in the queue or has been run or rejected.
abbrev pub Kept : QueuedCall → List QueuedCall → List Effect → Type 0
Kept c q fx = Memᴰ c q ⊎ Ended c fx

reject_call-Ended :
    (c : QueuedCall) (why : Refusal) → c.tracked ≡ true → Ended c (reject_call c why)
reject_call-Ended c why t = ground arith

pub reject_all-Ended :
    (c : QueuedCall) (q : List QueuedCall) (why : Refusal)
    → c.tracked ≡ true
    → Memᴰ c q
    → Ended c (reject_all q why)
reject_all-Ended c [] why t m = elim m [ ]
reject_all-Ended c (d ∷ q) why t (Memᴰ.head e) =
    Ended-append c (reject_call d why) (reject_all q why)
      (inl (subst (λ x. Ended c (reject_call x why)) e (reject_call-Ended c why t)))
reject_all-Ended c (d ∷ q) why t (Memᴰ.tail m) =
    Ended-append c (reject_call d why) (reject_all q why) (inr (reject_all-Ended c q why t m))

insert_call-mem :
    (c d : QueuedCall) (q : List QueuedCall) → (c ≡ d) ⊎ Memᴰ c q → Memᴰ c (insert_call d q)
unfolding insert_call
insert_call-mem c d [] (inl e) = Memᴰ.head e
insert_call-mem c d (x ∷ xs) (inl e) =
    if_cases (Memᴰ c) (leb x.priority d.priority) (λ b. Memᴰ.tail (insert_call-mem c d xs (inl e)))
      (λ b. Memᴰ.head e)
insert_call-mem c d (x ∷ xs) (inr (Memᴰ.head e)) =
    if_cases (Memᴰ c) (leb x.priority d.priority) (λ b. Memᴰ.head e) (λ b. Memᴰ.tail (Memᴰ.head e))
insert_call-mem c d (x ∷ xs) (inr (Memᴰ.tail m)) =
    if_cases (Memᴰ c) (leb x.priority d.priority) (λ b. Memᴰ.tail (insert_call-mem c d xs (inr m)))
      (λ b. Memᴰ.tail (Memᴰ.tail m))
insert_call-mem c d [] (inr m) = elim m [ ]

sort_from-mem :
    (c : QueuedCall) (done q : List QueuedCall) → Memᴰ c done ⊎ Memᴰ c q → Memᴰ c (sort_from done q)
unfolding sort_from
sort_from-mem c done [] (inl m) = m
sort_from-mem c done [] (inr m) = elim m [ ]
sort_from-mem c done (d ∷ q) (inl m) =
    sort_from-mem c (insert_call d done) q (inl (insert_call-mem c d done (inr m)))
sort_from-mem c done (d ∷ q) (inr (Memᴰ.head e)) =
    sort_from-mem c (insert_call d done) q (inl (insert_call-mem c d done (inl e)))
sort_from-mem c done (d ∷ q) (inr (Memᴰ.tail m)) = sort_from-mem c (insert_call d done) q (inr m)

mem-snoc : (c d : QueuedCall) (q : List QueuedCall) → (c ≡ d) ⊎ Memᴰ c q → Memᴰ c (q ++ d ∷ [])
mem-snoc c d [] (inl e) = Memᴰ.head e
mem-snoc c d [] (inr m) = elim m [ ]
mem-snoc c d (x ∷ q) (inl e) = Memᴰ.tail (mem-snoc c d q (inl e))
mem-snoc c d (x ∷ q) (inr (Memᴰ.head e)) = Memᴰ.head e
mem-snoc c d (x ∷ q) (inr (Memᴰ.tail m)) = Memᴰ.tail (mem-snoc c d q (inr m))

push_call-mem :
    (s : Limiter) (c d : QueuedCall) → (c ≡ d) ⊎ Memᴰ c s.queue → Memᴰ c (push_call s d).queue
unfolding push_call sort_queue
push_call-mem s c d h = sort_from-mem c [] (s.queue ++ d ∷ []) (inr (mem-snoc c d s.queue h))

init-mem :
    (c : QueuedCall) (q : List QueuedCall) {t : QueuedCall}
    → last? q ≡ some t
    → Memᴰ c q
    → Memᴰ c (init q) ⊎ (c ≡ t)
init-mem c [] e m = elim m [ ]
init-mem c (x ∷ []) e (Memᴰ.head p) = inr (cc)
init-mem c (x ∷ []) e (Memᴰ.tail m) = elim m [ ]
init-mem c (x ∷ y ∷ q) e (Memᴰ.head p) = inl (Memᴰ.head p)
init-mem c (x ∷ y ∷ q) e (Memᴰ.tail m) = elim (init-mem c (y ∷ q) e m) [
  | inl k ↦ inl (Memᴰ.tail k)
  | inr p ↦ inr p
]

module _ (c : QueuedCall) (tracked : c.tracked ≡ true) where
  pub Kept-more : (q : List QueuedCall) (fx gx : List Effect) → Kept c q gx → Kept c q (fx ++ gx)
  Kept-more q fx gx (inl m) = inl m
  Kept-more q fx gx (inr e) = inr (Ended-append c fx gx (inr e))

  enqueue_full-Kept :
      (s : Limiter) (d : QueuedCall) (tail : Option QueuedCall)
      → last? s.queue ≡ tail
      → Memᴰ c s.queue
      → (let r = enqueue_full s d tail in Kept c r.0.queue r.2)
  unfolding enqueue_full drop_new
  enqueue_full-Kept s d none e m = inl m
  enqueue_full-Kept s d (some tail) e m =
      let P : Limiter × Bool × List Effect → Type 0 = λ r. Kept c r.0.queue r.2 in
      if_cases P (leb tail.priority d.priority) (λ b. inl m)
        λ b. elim (init-mem c s.queue e m) [
          | inl k ↦ inl (push_call-mem (record s { queue = init s.queue }) c d (inr k))
          | inr p ↦
              inr (
                subst (λ x. Ended c (reject_call x evicted)) p
                  (reject_call-Ended c evicted tracked))
        ]

  day_budget_spent-queue : (s : Limiter) → (day_budget_spent s).0.queue ≡ s.queue
  unfolding day_budget_spent
  day_budget_spent-queue s = ground arith

  pub enqueue-Kept :
      (s : Limiter) (d : QueuedCall)
      → Memᴰ c s.queue
      → (let r = enqueue s d in Kept c r.0.queue r.2)
  unfolding enqueue
  enqueue-Kept s d m =
      let t = (day_budget_spent s).0 in
      let k : Memᴰ c t.queue = rw (day_budget_spent-queue s) m in
      let P : Limiter × Bool × List Effect → Type 0 = λ r. Kept c r.0.queue r.2 in
      if_cases P s.stopped (λ e. inl m)
        λ e.
          if_cases P (day_budget_spent s).1 (λ e. inl k)
            λ e.
              if_cases P (leb max_queue_length (length t.queue))
                (λ e. enqueue_full-Kept t d (last? t.queue) refl k)
                (λ e. inl (push_call-mem t c d (inr k)))

  enqueue_full_self :
      (s : Limiter) (tail : Option QueuedCall)
      → (let r = enqueue_full s c tail in
          Kept c r.0.queue (r.2 ++ (if r.1 then [] else reject c.id queue_full ∷ [])))
  unfolding enqueue_full drop_new
  enqueue_full_self s none = inr (ground arith)
  enqueue_full_self s (some tail) =
      let P : Limiter × Bool × List Effect → Type 0 =
        λ r. Kept c r.0.queue (r.2 ++ (if r.1 then [] else reject c.id queue_full ∷ [])) in
      if_cases P (leb tail.priority c.priority) (λ b. inr (ground arith))
        (λ b. inl (push_call-mem (record s { queue = init s.queue }) c c (inl refl)))

  -- Where the call itself is handed to the queue, it gets in or is refused.
  pub enqueue_self :
      (s : Limiter)
      → (let r = enqueue s c in
          Kept c r.0.queue (r.2 ++ (if r.1 then [] else reject c.id queue_full ∷ [])))
  unfolding enqueue
  enqueue_self s =
      let t = (day_budget_spent s).0 in
      let P : Limiter × Bool × List Effect → Type 0 =
        λ r. Kept c r.0.queue (r.2 ++ (if r.1 then [] else reject c.id queue_full ∷ [])) in
      let refused : (fx : List Effect) → Ended c (fx ++ reject c.id queue_full ∷ []) =
        λ fx. Ended-append c fx (reject c.id queue_full ∷ []) (inr (ground arith)) in
      if_cases P s.stopped (λ e. inr (refused (reject_call c limiter_stopped)))
        λ e.
          if_cases P (day_budget_spent s).1
            (λ e. inr (refused ((day_budget_spent s).2 ++ reject_call c day_budget_spent_today)))
            λ e.
              if_cases P (leb max_queue_length (length t.queue))
                (λ e. enqueue_full_self t (last? t.queue))
                (λ e. inl (push_call-mem t c c (inl refl)))

  pub start_call-Ended : (s : Limiter) (now : ℕ) → Ended c (start_call s c now).1
  unfolding start_call
  start_call-Ended s now = ground arith

  budget_reject-Ended :
      (s : Limiter) → (over_budget s c.budget).1 ≡ true → Ended c (budget_reject c)
  unfolding over_budget
  budget_reject-Ended s over = ground arith

  visit-Kept : (s : Limiter) (now : ℕ) → (let r = visit s c now in (r.1 ≡ true) ⊎ Ended c r.2)
  unfolding visit
  visit-Kept s now =
      let t = (can_make_call s c.lane now).0 in
      let b = (over_budget t c.budget).0 in
      let lines = (over_budget t c.budget).2 in
      let P : Limiter × Bool × List Effect → Type 0 = λ r. (r.1 ≡ true) ⊎ Ended c r.2 in
      if_cases P (not (can_make_call s c.lane now).1) (λ busy. inl refl)
        λ free.
          if_cases P (over_budget t c.budget).1
            (λ over.
              inr (Ended-append c lines (budget_reject c) (inr (budget_reject-Ended t over))))
            (λ under.
              inr (Ended-append c lines (start_call b c now).1 (inr (start_call-Ended b now))))

  drain-head :
      (q : List QueuedCall) (s : Limiter) (now : ℕ)
      → (let r = drain (c ∷ q) s now in Kept c r.0 r.2)
  unfolding drain
  drain-head q s now = elim (visit-Kept s now) [
    | inl stays ↦ inl (rw stays (Memᴰ.head refl))
    | inr e ↦ inr (Ended-append c (visit s c now).2 (drain q (visit s c now).0 now).2 (inl e))
  ]

  drain-tail :
      (d : QueuedCall) (q : List QueuedCall) (s : Limiter) (now : ℕ)
      → (let r = drain q (visit s d now).0 now in Kept c r.0 r.2)
      → (let r = drain (d ∷ q) s now in Kept c r.0 r.2)
  unfolding drain
  drain-tail d q s now (inl m) =
      inl (if_cases (Memᴰ c) (visit s d now).1 (λ e. Memᴰ.tail m) (λ e. m))
  drain-tail d q s now (inr e) =
      inr (Ended-append c (visit s d now).2 (drain q (visit s d now).0 now).2 (inr e))

  drain-Kept :
      (q : List QueuedCall) (s : Limiter) (now : ℕ)
      → Memᴰ c q
      → (let r = drain q s now in Kept c r.0 r.2)
  drain-Kept [] s now m = elim m [ ]
  drain-Kept (d ∷ q) s now (Memᴰ.head e) =
      subst (λ x. let r = drain (x ∷ q) s now in Kept c r.0 r.2) e (drain-head q s now)
  drain-Kept (d ∷ q) s now (Memᴰ.tail m) =
      drain-tail d q s now (drain-Kept q (visit s d now).0 now m)

  pub process_queue-Kept :
      (s : Limiter) (now : ℕ)
      → Memᴰ c s.queue
      → (let r = process_queue s now in Kept c r.0.queue r.1)
  unfolding process_queue
  process_queue-Kept s now m =
      let d = (day_budget_spent s).0 in
      let k : Memᴰ c d.queue = rw (day_budget_spent-queue s) m in
      let lines = (day_budget_spent s).2 in
      let P : Limiter × List Effect → Type 0 = λ r. Kept c r.0.queue r.1 in
      if_cases P s.stopped (λ e. inl m)
        λ e.
          if_cases P (day_budget_spent s).1
            (λ e. inr (
              Ended-append c lines (reject_all d.queue day_budget_spent_today)
                (inr (reject_all-Ended c d.queue day_budget_spent_today tracked k))))
            (λ e.
              Kept-more (drain d.queue d now).0 lines (drain d.queue d now).2
                (drain-Kept d.queue d now k))
