-- ===== src/CallGate/Tracks.antt =====
-- src/lib/call-gate.ts: runs at the gate, and what it remembers of the calls that were let through.
use io_broker_govee_smart.Base.{
  ℕ, ◌+◌, ◌*◌, ◌≤◌, ◌<◌, Bool, true, false, ◌&&◌, String, List, [], ◌∷◌, ◌++◌, some, if◌then◌else◌,
  length, get_elem?, keep, ltb, leb, str_eq, arith, ◌≡◌, refl, sym, ◌∙◌, ap, ◌⊎◌, if_cases,
  Bool-cases, inl, inr, length-append,
}
use io_broker_govee_smart.CallGate.{
  ApiLimit, Counterpart, GateKey, Seen, in_window, wait_ms, try_admit,
}
use io_broker_govee_smart.CallGate.Window.{hits}

-- A call at the gate: whether it only asks how long to wait, its counterpart and host, and the two
-- times at which the clock is read.
pub record GateCall : Type 0 where
  pub asks_only : Bool
  pub counterpart : Counterpart
  pub host : String
  pub now : ℕ
  pub counted_at : ℕ

abbrev pub step : Seen → GateCall → Seen × Bool
step seen call =
    if call.asks_only
    then ((wait_ms seen call.counterpart call.host call.now).0, false)
    else try_admit seen call.counterpart call.host call.now call.counted_at

-- The limit of this index counts the call under the key.
abbrev pub counts_for : GateKey → ApiLimit → GateCall → Bool
counts_for key limit call = hits key limit call.counterpart.name call.host

-- The times at which calls that count for the key were let through, over a run from `seen`.
unfoldable pub admitted_at : GateKey → ApiLimit → Seen → List GateCall → List ℕ
admitted_at key limit seen [] = []
admitted_at key limit seen (call ∷ calls) =
    let r = step seen call in
    let rest = admitted_at key limit r.0 calls in
    if r.1 && counts_for key limit call then call.counted_at ∷ rest else rest

-- The clock does not go back over the run.
abbrev pub Runs : ℕ → List GateCall → Type 0
Runs now [] = Unit
Runs now (call ∷ calls) =
    (now ≤ call.now) × (call.now ≤ call.counted_at) × Runs call.counted_at calls

abbrev pub calls_in : ℕ → ℕ → List ℕ → ℕ
calls_in from until times = length (keep (λ t. leb from t && ltb t until) times)

-- A counterpart of the key's name has this limit at the key's index.
abbrev pub HasLimit : GateKey → ApiLimit → GateCall → Type 0
HasLimit key limit call =
    str_eq call.counterpart.name key.name ≡ true
    → get_elem? call.counterpart.limits key.index ≡ some limit

module _ {ℓ} {A : Type ℓ} where
  keep-keep :
      (p q : A → Bool) (xs : List A)
      → ((x : A) → p x ≡ true → q x ≡ true)
      → keep p (keep q xs) ≡ keep p xs
  keep-keep p q [] h = refl
  keep-keep p q (x ∷ xs) h =
      let ih = keep-keep p q xs h in
      if_cases (λ (l : List A). keep p l ≡ keep p (x ∷ xs)) (q x)
        (λ e.
          if_cases (λ (l : List A). l ≡ keep p (x ∷ xs)) (p x) (λ t. rw (t, ih) refl)
            (λ t. rw (t, ih) refl))
        (λ e.
          if_cases (λ (l : List A). keep p (keep q xs) ≡ l) (p x)
            (λ t. absurd (let f = h x t in cc)) (λ t. ih))

  length-keep_le :
      (p q : A → Bool) (xs : List A)
      → ((x : A) → p x ≡ true → q x ≡ true)
      → length (keep p xs) ≤ length (keep q xs)
  length-keep_le p q [] h = omega arith
  length-keep_le p q (x ∷ xs) h = let f = h x in ground (arith, length-keep_le p q xs h)

  keep-append : (p : A → Bool) (xs ys : List A) → keep p (xs ++ ys) ≡ keep p xs ++ keep p ys
  keep-append p [] ys = refl
  keep-append p (x ∷ xs) ys = ground (arith, keep-append p xs ys)

-- What the gate remembers stands for all calls that were let through, from this time on.
abbrev pub Tracks : ApiLimit → ℕ → List ℕ → List ℕ → Type 0
Tracks limit now history times =
    (later : ℕ)
    → now ≤ later
    → keep (in_window limit later) history ≡ keep (in_window limit later) times

window_le :
    (limit : ApiLimit) (now later t : ℕ)
    → now ≤ later
    → in_window limit later t ≡ true
    → in_window limit now t ≡ true
window_le limit now later t le h = ground arith

Tracks-keep :
    (limit : ApiLimit) (now : ℕ) (history times : List ℕ)
    → Tracks limit now history times
    → Tracks limit now history (keep (in_window limit now) times)
Tracks-keep limit now history times h later le =
    h later le
    ∙ sym (
        keep-keep (in_window limit later) (in_window limit now) times
          (λ t. window_le limit now later t le))

pub Tracks-left :
    (limit : ApiLimit) (now later : ℕ) (history times after : List ℕ)
    → now ≤ later
    → Tracks limit now history times
    → (after ≡ times) ⊎ (after ≡ keep (in_window limit now) times)
    → Tracks limit later history after
Tracks-left limit now later history times after le h (inl e) =
    λ t lt. h t (omega arith) ∙ ap (keep (in_window limit t)) (sym e)
Tracks-left limit now later history times after le h (inr e) = λ t lt.
    Tracks-keep limit now history times h t (omega arith) ∙ ap (keep (in_window limit t)) (sym e)

pub Tracks-snoc :
    (limit : ApiLimit) (now later : ℕ) (history times after : List ℕ)
    → now ≤ later
    → Tracks limit now history times
    → after ≡ keep (in_window limit now) times ++ later ∷ []
    → Tracks limit later (history ++ later ∷ []) after
Tracks-snoc limit now later history times after le h e t lt =
    let p = in_window limit t in
    let kept = keep (in_window limit now) times in
    keep-append p history (later ∷ [])
    ∙ (ap (λ l. l ++ keep p (later ∷ [])) (Tracks-keep limit now history times h t (omega arith))
        ∙ (sym (keep-append p kept (later ∷ [])) ∙ ap (keep p) (sym e)))

-- One more call keeps each window where the gate had room for it.
pub calls_in-snoc :
    (limit : ApiLimit) (from now counted_at : ℕ) (history times : List ℕ)
    → now ≤ counted_at
    → Tracks limit now history times
    → length (keep (in_window limit now) times) < limit.most
    → calls_in from (from + limit.seconds * 1000) history ≤ limit.most
    → calls_in from (from + limit.seconds * 1000) (history ++ counted_at ∷ []) ≤ limit.most
calls_in-snoc limit from now counted_at history times le tracks room before =
    let p : ℕ → Bool = λ t. leb from t && ltb t (from + limit.seconds * 1000) in
    let total =
      ap length (keep-append p history (counted_at ∷ []))
      ∙ length-append (keep p history) (keep p (counted_at ∷ [])) in
    let same = ap length (tracks now (omega arith)) in
    elim (Bool-cases (p counted_at)) [
      | inl e ↦
          let fewer = length-keep_le p (in_window limit now) history (λ t q. ground arith) in
          let one : length (keep p (counted_at ∷ [])) ≤ 1 = ground arith in
          omega (arith, total, same, fewer, one, room)
      | inr e ↦
          let none_more : length (keep p (counted_at ∷ [])) ≡ 0 = ground arith in
          omega (arith, total, none_more, before)
    ]
