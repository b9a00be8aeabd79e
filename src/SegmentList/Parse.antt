-- ===== src/SegmentList/Parse.antt =====
-- src/lib/segment-list.ts: what a list that is accepted holds.
use io_broker_govee_smart.Base.{
  ℕ, zero, suc, ◌+◌, ◌-◌, ◌≤◌, Bool, true, false, ◌||◌, ◌&&◌, List, [], ◌∷◌, Option, none,
  if◌then◌else◌, any, ltb, leb, ◌==◌, arith, ◌≡◌, refl, ◌∙◌, All, if_cases, is_some, ◌⊎◌, inl, inr,
}
use io_broker_govee_smart.SegmentList.{
  Entry, blank, other, index, range, Parsed, found, failed, SegmentListParseResult, holds_index,
  add_index, add_range, parse_entry, parse_entries, insert_index, sort_indices, is_nil,
  effective_max_of, refused, no_indices, parse_segment_list,
}
use io_broker_govee_smart.SegmentList.Indices.{
  IsAscending, covers, holds_index-add_index, holds_index-sort_indices, IsOnce, IsIndexSet,
  add_index-IsIndexSet,
}

-- The loop has failed, or the set holds exactly these segments.
abbrev Holds : ℕ → (ℕ → Bool) → Parsed → Type 0
Holds most p (failed error) = Unit
Holds most p (found set) = IsIndexSet most set × ((i : ℕ) → holds_index i set ≡ p i)

Holds-same :
    (most : ℕ) (p q : ℕ → Bool) (r : Parsed)
    → ((i : ℕ) → p i ≡ q i)
    → Holds most p r
    → Holds most q r
Holds-same most p q (failed error) e h = tt
Holds-same most p q (found set) e (h, k) = (h, λ i. k i ∙ e i)

in_range :
    (i j rounds : ℕ)
    → (j == i || (leb (j + 1) i && ltb i (j + 1 + rounds))) ≡ (leb j i && ltb i (j + suc rounds))
in_range i j rounds = ground arith

out_of_range : (i j : ℕ) → (leb j i && ltb i (j + 0)) ≡ false
out_of_range i j = ground arith

range_end :
    (i start end : ℕ)
    → ltb end start ≡ false
    → (leb start i && ltb i (start + (end + 1 - start))) ≡ (leb start i && leb i end)
range_end i start end h = ground arith

add_range-Holds :
    (most rounds j : ℕ) (set : List ℕ)
    → IsIndexSet most set
    → Holds most
        (λ i. holds_index i set || (leb j i && ltb i (j + rounds)))
        (add_range most rounds j set)
unfolding add_range
add_range-Holds most zero j set h = (h, λ i. ground (arith, out_of_range i j))
add_range-Holds most (suc rounds) j set h =
    let p : ℕ → Bool = λ i. holds_index i set || (leb j i && ltb i (j + suc rounds)) in
    if_cases (Holds most p) (ltb most j) (λ e. tt)
      λ e.
        Holds-same most
          (λ i. holds_index i (add_index j set) || (leb (j + 1) i && ltb i (j + 1 + rounds))) p
          (add_range most rounds (j + 1) (add_index j set))
          (λ i. ground (arith, holds_index-add_index i j set, in_range i j rounds))
          (add_range-Holds most rounds (j + 1) (add_index j set)
            (add_index-IsIndexSet most j set (ground arith) h))

parse_entry-Holds :
    (most : ℕ) (e : Entry) (set : List ℕ)
    → IsIndexSet most set
    → Holds most (λ i. holds_index i set || covers i e) (parse_entry most e set)
unfolding parse_entry
parse_entry-Holds most blank set h = (h, λ i. ground arith)
parse_entry-Holds most other set h = tt
parse_entry-Holds most (index j) set h =
    if_cases (Holds most (λ i. holds_index i set || j == i)) (ltb most j) (λ e. tt)
      λ e. (add_index-IsIndexSet most j set (ground arith) h, λ i. holds_index-add_index i j set)
parse_entry-Holds most (range start end) set h =
    let p : ℕ → Bool = λ i. holds_index i set || (leb start i && leb i end) in
    if_cases (Holds most p) (ltb end start) (λ e. tt)
      λ e.
        Holds-same most
          (λ i. holds_index i set || (leb start i && ltb i (start + (end + 1 - start)))) p
          (add_range most (end + 1 - start) start set)
          (λ i. ground (arith, range_end i start end e))
          (add_range-Holds most (end + 1 - start) start set h)

pub parse_entries-Holds :
    (most : ℕ) (es : List Entry) (set : List ℕ)
    → IsIndexSet most set
    → Holds most (λ i. holds_index i set || any (covers i) es) (parse_entries most es set)
unfolding parse_entries
parse_entries-Holds most [] set h = (h, λ i. ground arith)
parse_entries-Holds most (e ∷ es) set h =
    go (λ more k. parse_entries-Holds most es more k) (parse_entry most e set)
      (parse_entry-Holds most e set h)
  where
    go :
        ((more : List ℕ)
          → IsIndexSet most more
          → Holds most (λ i. holds_index i more || any (covers i) es) (parse_entries most es more))
        → (r : Parsed) → Holds most (λ i. holds_index i set || covers i e) r
        → Holds most
            (λ i. holds_index i set || any (covers i) (e ∷ es))
            (elim r [ failed error ↦ failed error | found more ↦ parse_entries most es more ])
    go rest (failed error) k = tt
    go rest (found more) (k, same) =
        Holds-same most (λ i. holds_index i more || any (covers i) es) _
          (parse_entries most es more) (λ i. ground (arith, same i)) (rest more k)

IsAscending-insert_index :
    (low i : ℕ) (is : List ℕ)
    → low ≤ i
    → holds_index i is ≡ false
    → IsAscending low is
    → IsAscending low (insert_index i is)
IsAscending-insert_index low i [] le n h = (le, tt)
IsAscending-insert_index low i (j ∷ is) le n (p, h) =
    if_cases (IsAscending low) (leb j i)
      (λ e. (p, IsAscending-insert_index (j + 1) i is (ground arith) (ground arith) h))
      (λ e. (le, (ground arith, h)))

pub sort_indices-IsAscending : (is : List ℕ) → IsOnce is → IsAscending 0 (sort_indices is)
sort_indices-IsAscending [] h = tt
sort_indices-IsAscending (i ∷ is) (n, h) =
    IsAscending-insert_index 0 i (sort_indices is) (omega arith) (holds_index-sort_indices i is ∙ n)
      (sort_indices-IsAscending is h)

All-insert_index :
    (most i : ℕ) (is : List ℕ)
    → i ≤ most
    → All (λ j. j ≤ most) is
    → All (λ j. j ≤ most) (insert_index i is)
All-insert_index most i [] le h = (le, tt)
All-insert_index most i (j ∷ is) le (p, h) =
    if_cases (All (λ j. j ≤ most)) (leb j i) (λ e. (p, All-insert_index most i is le h))
      (λ e. (le, (p, h)))

pub All-sort_indices :
    (most : ℕ) (is : List ℕ) → All (λ j. j ≤ most) is → All (λ j. j ≤ most) (sort_indices is)
All-sort_indices most [] h = tt
All-sort_indices most (i ∷ is) (le, h) =
    All-insert_index most i (sort_indices is) le (All-sort_indices most is h)

-- What an accepted list holds: its segments in ascending order, each once.
abbrev pub IsListOf : ℕ → List Entry → List ℕ → Type 0
IsListOf most es indices =
    IsAscending 0 indices
    × All (λ i. i ≤ most) indices
    × ((i : ℕ) → holds_index i indices ≡ any (covers i) es)

-- A list is refused and yields no segment, or it yields exactly the segments that its entries name,
-- in ascending order and each once, none above the device's maximum and the protocol's.
pub parse_segment_list_lem :
    (es : List Entry) (max_index : Option ℕ)
    → (let r = parse_segment_list es max_index in
        ((is_some r.error ≡ true) × (r.indices ≡ []))
        ⊎ ((r.error ≡ none) × IsListOf (effective_max_of max_index) es r.indices))
unfolding parse_segment_list
parse_segment_list_lem [] max_index = inl (refl, refl)
parse_segment_list_lem (e ∷ es) max_index =
    go (parse_entries most (e ∷ es) [])
      (parse_entries-Holds most (e ∷ es) [] (record { once = tt; small = tt }))
  where
    most : ℕ
    most = effective_max_of max_index

    go :
        (r : Parsed)
        → Holds most (λ i. any (covers i) (e ∷ es)) r
        → (let out : SegmentListParseResult = elim r [
          | failed error ↦ refused error
          | found set ↦
              if is_nil set
              then refused no_indices
              else record { indices = sort_indices set; error = none }
        ] in
            ((is_some out.error ≡ true) × (out.indices ≡ []))
            ⊎ ((out.error ≡ none) × IsListOf most (e ∷ es) out.indices))
    go (failed error) k = inl (refl, refl)
    go (found set) (k, same) =
        if_cases
          (λ (out : SegmentListParseResult).
            ((is_some out.error ≡ true) × (out.indices ≡ []))
            ⊎ ((out.error ≡ none) × IsListOf most (e ∷ es) out.indices))
          (is_nil set) (λ _. inl (refl, refl))
          λ _. inr (
            refl,
            (
              sort_indices-IsAscending set k.once,
              All-sort_indices most set k.small,
              λ i. holds_index-sort_indices i set ∙ same i,
            ),
          )
