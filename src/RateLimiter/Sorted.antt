-- ===== src/RateLimiter/Sorted.antt =====
-- src/lib/rate-limiter.ts: the queue stays sorted by priority, first come first served among
-- equals, and bounded; `processQueue` keeps the order of what stays.
use mathlib.Core.List.{append-nil, append_assoc}
use io_broker_govee_smart.Base.{
  ℕ, suc, ◌≤◌, ◌<◌, List, [], ◌∷◌, ◌++◌, arith, ◌≡◌, refl, ap, ◌∙◌, Bool-cases, inl, inr, All,
  All-append, leb, ltb, leb→le, length, keep,
}
use io_broker_govee_smart.RateLimiter.State.{QueuedCall, Limiter}
use io_broker_govee_smart.RateLimiter.Queue.{insert_call, sort_from, sort_queue, push_call}

abbrev pub IsSorted : List QueuedCall → Type 0
IsSorted [] = Unit
IsSorted (x ∷ xs) = All (λ y. x.priority ≤ y.priority) xs × IsSorted xs

module _ {ℓ} (P : QueuedCall → Type ℓ) where
  pub All-insert_call :
      (c : QueuedCall) (q : List QueuedCall) → P c → All P q → All P (insert_call c q)
  unfolding insert_call
  All-insert_call c [] p h = (p, tt)
  All-insert_call c (x ∷ xs) p (px, h) = elim (Bool-cases (leb x.priority c.priority)) [
    | inl e ↦ rw e (px, All-insert_call c xs p h)
    | inr e ↦ rw e (p, (px, h))
  ]

All-le_trans :
    (a b : ℕ) (q : List QueuedCall)
    → a ≤ b
    → All (λ y. b ≤ y.priority) q
    → All (λ y. a ≤ y.priority) q
All-le_trans a b [] h all = tt
All-le_trans a b (x ∷ xs) h (p, all) = (omega arith, All-le_trans a b xs h all)

pub insert_call-IsSorted :
    (c : QueuedCall) (q : List QueuedCall) → IsSorted q → IsSorted (insert_call c q)
unfolding insert_call
insert_call-IsSorted c [] h = (tt, tt)
insert_call-IsSorted c (x ∷ xs) (lo, h) = elim (Bool-cases (leb x.priority c.priority)) [
  | inl e ↦ rw e (All-insert_call _ c xs (leb→le _ _ e) lo, insert_call-IsSorted c xs h)
  | inr e ↦ rw e ((ground arith, All-le_trans c.priority x.priority xs (ground arith) lo), (lo, h))
]

pub length-insert_call :
    (c : QueuedCall) (q : List QueuedCall) → length (insert_call c q) ≡ suc (length q)
unfolding insert_call
length-insert_call c [] = refl
length-insert_call c (x ∷ xs) = ground (arith, length-insert_call c xs)

-- A call that nothing in the list comes after goes to its end.
insert_call-last :
    (c : QueuedCall) (q : List QueuedCall)
    → All (λ x. x.priority ≤ c.priority) q
    → insert_call c q ≡ q ++ c ∷ []
unfolding insert_call
insert_call-last c [] h = refl
insert_call-last c (x ∷ xs) (p, h) = ground (arith, insert_call-last c xs h)

-- Every call of the first list may stand before every call of the second.
abbrev Before : List QueuedCall → List QueuedCall → Type 0
Before done [] = Unit
Before done (c ∷ cs) = All (λ x. x.priority ≤ c.priority) done × Before done cs

Before-push :
    (done : List QueuedCall) (c : QueuedCall) (cs : List QueuedCall)
    → All (λ y. c.priority ≤ y.priority) cs
    → Before done cs
    → Before (done ++ c ∷ []) cs
Before-push done c [] h b = tt
Before-push done c (d ∷ ds) (p, h) (q, b) =
    (All-append _ done (c ∷ []) q (p, tt), Before-push done c ds h b)

-- On a sorted list the loop of the sort copies it.
sort_from-IsSorted :
    (done q rest : List QueuedCall)
    → IsSorted q
    → Before done q
    → sort_from done (q ++ rest) ≡ sort_from (done ++ q) rest
unfolding sort_from
sort_from-IsSorted done [] rest h b = rw append-nil
sort_from-IsSorted done (c ∷ cs) rest (lo, h) (p, b) =
    rw (insert_call-last c done p, sort_from)
      (sort_from-IsSorted (done ++ c ∷ []) cs rest h (Before-push done c cs lo b)
        ∙ ap (λ l. sort_from l rest) (append_assoc done (c ∷ []) cs))

Before-nil : (q : List QueuedCall) → Before [] q
Before-nil [] = tt
Before-nil (c ∷ cs) = (tt, Before-nil cs)

-- Pushing on a sorted queue and sorting it again is one insertion.
pub push_call_lem :
    (s : Limiter) (c : QueuedCall)
    → IsSorted s.queue
    → (push_call s c).queue ≡ insert_call c s.queue
unfolding push_call sort_queue
push_call_lem s c h = sort_from-IsSorted [] s.queue (c ∷ []) h (Before-nil s.queue)

keep-none :
    (c : ℕ) (q : List QueuedCall)
    → All (λ y. c < y.priority) q
    → (keep (λ x. leb x.priority c) q ≡ []) × (keep (λ x. ltb c x.priority) q ≡ q)
keep-none c [] h = (refl, refl)
keep-none c (x ∷ xs) (p, h) = let ih = keep-none c xs h in (ground arith, ground arith)

All-lt_le_trans :
    (a b : ℕ) (q : List QueuedCall)
    → a < b
    → All (λ y. b ≤ y.priority) q
    → All (λ y. a < y.priority) q
All-lt_le_trans a b [] h all = tt
All-lt_le_trans a b (x ∷ xs) h (p, all) = (omega arith, All-lt_le_trans a b xs h all)

insert_call-split :
    (c : QueuedCall) (q : List QueuedCall)
    → IsSorted q
    → insert_call c q
      ≡ keep (λ x. leb x.priority c.priority) q ++ c ∷ keep (λ x. ltb c.priority x.priority) q
unfolding insert_call
insert_call-split c [] h = refl
insert_call-split c (x ∷ xs) (lo, h) = elim (Bool-cases (leb x.priority c.priority)) [
  | inl e ↦ ground (arith, insert_call-split c xs h)
  | inr e ↦
      let none_left =
        keep-none c.priority xs (All-lt_le_trans c.priority x.priority xs (ground arith) lo) in
      ground arith
]

-- On a sorted queue, `push` and `sort` put the new call behind every waiting call of its priority
-- or a more urgent one and before every less urgent one, and leave the order of those as it was.
pub push_call-split :
    (s : Limiter) (c : QueuedCall)
    → IsSorted s.queue
    → (push_call s c).queue
      ≡ keep (λ x. leb x.priority c.priority) s.queue
        ++ c ∷ keep (λ x. ltb c.priority x.priority) s.queue
push_call-split s c h = push_call_lem s c h ∙ insert_call-split c s.queue h
