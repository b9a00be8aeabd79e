-- ===== src/DeviceId/Counted.antt =====
-- src/lib/device-id.ts (counted): the loop ends, on an id that is free.
use io_broker_govee_smart.Base.{
  ℕ, zero, suc, ◌+◌, ◌/◌, ◌%◌, ◌≤◌, ◌<◌, true, false, not, List, [], ◌∷◌, ◌++◌, length, drop, keep,
  leb, ◌==◌, ==_iff, arith, ◌≡◌, refl, sym, ap, ◌∙◌, Bool-cases, inl, inr, if_cases, length-append,
  length-keep,
}
use io_broker_govee_smart.Text.{Text, text_eq, decimal, decimal_digits, read_decimal}
use io_broker_govee_smart.TextMap.{text_eq_iff}
use io_broker_govee_smart.DeviceId.{
  reserved_device_ids, has_id, is_held, candidate, counted_from, counted,
}

read_decimal-digits :
    (fuel n : ℕ) (tail : Text)
    → n < fuel
    → read_decimal 0 (decimal_digits fuel n tail) ≡ read_decimal n tail
unfolding read_decimal
read_decimal-digits zero n tail h = elim h [ ]
read_decimal-digits (suc fuel) n tail h =
    if_cases (λ (s : Text). read_decimal 0 s ≡ read_decimal n tail) (leb n 9)
      (λ e. ap (λ (k : ℕ). read_decimal k tail) (ground arith))
      (λ e.
        read_decimal-digits fuel (n / 10) ((b'0' + n % 10) ∷ tail) (ground arith)
        ∙ ap (λ (k : ℕ). read_decimal k tail) (omega arith))

read_decimal-decimal : (n : ℕ) → read_decimal 0 (decimal n) ≡ n
unfolding decimal
read_decimal-decimal n = read_decimal-digits (suc n) n [] (omega arith) ∙ end n
  where
    end : (k : ℕ) → read_decimal k [] ≡ k
    end k = unfold read_decimal in refl

drop-append : (xs ys : Text) → drop (length xs) (xs ++ ys) ≡ ys
drop-append [] ys = refl
drop-append (x ∷ xs) ys = drop-append xs ys

numbered : Text → ℕ → Text
numbered base n = base ++ (b'-' ∷ decimal n)

-- The number of a numbered id.
number_of : Text → Text → ℕ
number_of base id = read_decimal 0 (drop 1 (drop (length base) id))

number_of-numbered : (base : Text) (n : ℕ) → number_of base (numbered base n) ≡ n
unfolding number_of numbered
number_of-numbered base n =
    ap (λ (s : Text). read_decimal 0 (drop 1 s)) (drop-append base (b'-' ∷ decimal n))
    ∙ read_decimal-decimal n

length-numbered : (base : Text) (n : ℕ) → length base < length (numbered base n)
unfolding numbered
length-numbered base n = omega (arith, length-append base (b'-' ∷ decimal n))

candidate-numbered : (base : Text) (n : ℕ) → 2 ≤ n → candidate base n ≡ numbered base n
unfolding numbered
candidate-numbered base n h = ground arith

-- Different rounds try different ids.
candidate-injective :
    (base : Text) (m n : ℕ) → 1 ≤ m → m < n → candidate base m ≡ candidate base n → ⊥
candidate-injective base m n h lt e = elim (Bool-cases (leb m 1)) [
  | inl first ↦
      let small : candidate base m ≡ base = ground arith in
      let p =
        ap (λ (s : Text). length s) (sym small ∙ e ∙ candidate-numbered base n (omega arith)) in
      omega (arith, p, length-numbered base n)
  | inr later ↦
      let two : 2 ≤ m = ground arith in
      let p =
        ap (number_of base)
          (sym (candidate-numbered base m two) ∙ e ∙ candidate-numbered base n (omega arith)) in
      omega (arith, p, number_of-numbered base m, number_of-numbered base n)
]

without_id : Text → List Text → List Text
without_id id ids = keep (λ k. not (text_eq id k)) ids

length-without_id :
    (id : Text) (ids : List Text) → has_id id ids ≡ true → length (without_id id ids) < length ids
unfolding without_id
length-without_id id [] h = cc
length-without_id id (k ∷ ids) h =
    ground (arith, length-without_id id ids, length-keep (λ k. not (text_eq id k)) ids)

has_id-without_id :
    (id other : Text) (ids : List Text)
    → text_eq id other ≡ false
    → has_id other (without_id id ids) ≡ has_id other ids
unfolding without_id
has_id-without_id id other [] h = refl
has_id-without_id id other (k ∷ ids) h = ground (
  arith,
  has_id-without_id id other ids,
  text_eq_iff id k,
  text_eq_iff other k,
  text_eq_iff id other,
)

text_eq-false : (s t : Text) → (s ≡ t → ⊥) → text_eq s t ≡ false
text_eq-false s t h = elim (Bool-cases (text_eq s t)) [
  | inl same ↦ absurd (h ((text_eq_iff s t).0 same))
  | inr other ↦ other
]

-- Among more rounds than ids there is one whose id is none of them.
free_round :
    (rounds n : ℕ) (base : Text) (ids : List Text)
    → 1 ≤ n
    → length ids < rounds
    → (i : ℕ) × (n ≤ i) × (i < n + rounds) × (has_id (candidate base i) ids ≡ false)
free_round zero n base ids p h = elim h [ ]
free_round (suc rounds) n base ids p h = elim (Bool-cases (has_id (candidate base n) ids)) [
  | inr free ↦ (n, omega arith, omega arith, free)
  | inl held ↦
      let fewer = length-without_id (candidate base n) ids held in
      let (i, lo, hi, free) =
        free_round rounds (n + 1) base (without_id (candidate base n) ids) (omega arith)
          (omega arith) in
      let other : text_eq (candidate base n) (candidate base i) ≡ false =
        text_eq-false (candidate base n) (candidate base i)
          (λ e. candidate-injective base n i p (omega arith) e) in
      (
        i,
        omega arith,
        omega arith,
        sym (has_id-without_id (candidate base n) (candidate base i) ids other) ∙ free,
      )
]

later_round :
    (n i : ℕ) (base : Text) (taken : List Text)
    → n ≤ i
    → is_held taken (candidate base n) ≡ true
    → is_held taken (candidate base i) ≡ false
    → n + 1 ≤ i
later_round n i base taken lo held free = elim (Bool-cases (n == i)) [
  | inl same ↦
      let e : is_held taken (candidate base n) ≡ is_held taken (candidate base i) =
        ap (λ (k : ℕ). is_held taken (candidate base k)) ((==_iff n i).0 same) in
      cc
  | inr other ↦ ground arith
]

-- The loop stops no later than at a round whose id is free.
counted_from-free :
    (rounds n i : ℕ) (base : Text) (taken : List Text)
    → n ≤ i
    → i < n + rounds
    → is_held taken (candidate base i) ≡ false
    → is_held taken (counted_from rounds base n taken) ≡ false
unfolding counted_from
counted_from-free zero n i base taken lo hi free = absurd (omega arith)
counted_from-free (suc rounds) n i base taken lo hi free =
    elim (Bool-cases (is_held taken (candidate base n))) [
      | inr unheld ↦ rw unheld unheld
      | inl held ↦ rw held (
          counted_from-free rounds (n + 1) i base taken (later_round n i base taken lo held free)
            (omega arith) free)
    ]

-- The loop of `counted` ends: among as many rounds as there are held ids, and one more, it comes to
-- an id that is neither taken nor reserved.
pub counted_free : (base : Text) (taken : List Text) → is_held taken (counted base taken) ≡ false
unfolding counted
counted_free base taken =
    let ids = taken ++ reserved_device_ids in
    let (i, lo, hi, free) = free_round (length ids + 1) 1 base ids (omega arith) (omega arith) in
    counted_from-free (length ids + 1) 1 i base taken lo hi free
