-- ===== src/SegmentList/Compact.antt =====
-- src/lib/segment-wizard.ts, `compactIndices` and `consolidate`: the list that the wizard writes is
-- read back as what it measured.
use mathlib.Core.Path.{subst}
use mathlib.Core.List.{append-nil, append_assoc}
use io_broker_govee_smart.Base.{
  ℕ, zero, suc, ◌+◌, ◌-◌, ◌≤◌, ◌<◌, min, false, List, [], ◌∷◌, ◌++◌, Option, none, some,
  if◌then◌else◌, ltb, ◌==◌, arith, ◌≡◌, refl, sym, ◌∙◌, ap, All, All-append, if_cases, ==_iff,
  Bool-cases, inl, inr,
}
use io_broker_govee_smart.SegmentList.{
  segment_hard_max, no_indices, refused, Entry, found, failed, holds_index, add_index, add_range,
  parse_entry, parse_entries, insert_index, sort_indices, is_nil, effective_max_of,
  parse_segment_list, part_of, compact_runs, compact_indices,
}
use io_broker_govee_smart.SegmentList.Indices.{IsAscending}

abbrev pub upto : ℕ → ℕ → List ℕ
upto i zero = []
upto i (suc n) = i ∷ upto (i + 1) n

Below : ℕ → List ℕ → Type 0
Below i is = All (λ j. j < i) is

holds_index-Below : (i low : ℕ) (is : List ℕ) → low ≤ i → Below low is → holds_index i is ≡ false
unfolding Below
holds_index-Below i low [] le h = refl
holds_index-Below i low (j ∷ is) le (p, h) = ground (arith, holds_index-Below i low is le h)

Below-le : (low high : ℕ) (is : List ℕ) → low ≤ high → Below low is → Below high is
unfolding Below
Below-le low high [] le h = tt
Below-le low high (j ∷ is) le (p, h) = (omega arith, Below-le low high is le h)

Below-snoc :
    (low high j : ℕ) (is : List ℕ)
    → low ≤ high
    → j < high
    → Below low is
    → Below high (is ++ j ∷ [])
unfolding Below
Below-snoc low high j is le lt h = All-append _ is (j ∷ []) (Below-le low high is le h) (lt, tt)

Below-upto : (n a high : ℕ) → a + n ≤ high → Below high (upto a n)
unfolding Below
Below-upto zero a high le = tt
Below-upto (suc n) a high le = (omega arith, Below-upto n (a + 1) high (omega arith))

upto-snoc : (n a : ℕ) → upto a (suc n) ≡ upto a n ++ (a + n) ∷ []
upto-snoc zero a = ground arith
upto-snoc (suc n) a =
    let e : a + 1 + n ≡ a + suc n = omega arith in
    ap (λ l. a ∷ l) (upto-snoc n (a + 1) ∙ ap (λ k. upto (a + 1) n ++ k ∷ []) e)

add_index-fresh : (i : ℕ) (set : List ℕ) → Below i set → add_index i set ≡ set ++ i ∷ []
add_index-fresh i set h = rw (holds_index-Below i i set (omega arith) h) refl

add_range-upto :
    (most n i : ℕ) (set : List ℕ)
    → Below i set
    → i + n ≤ most + 1
    → add_range most n i set ≡ found (set ++ upto i n)
unfolding add_range
add_range-upto most zero i set h le = ap found (sym (append-nil set))
add_range-upto most (suc n) i set h le =
    let fits : ltb most i ≡ false = ground arith in
    let ih =
      add_range-upto most n (i + 1) (set ++ i ∷ [])
        (Below-snoc i (i + 1) i set (omega arith) (omega arith) h) (omega arith) in
    rw (fits, add_index-fresh i set h, ih) (ap found (append_assoc set (i ∷ []) (upto (i + 1) n)))

-- A run is read as its segments.
parse_entry-part_of :
    (most a b : ℕ) (set : List ℕ)
    → a ≤ b
    → b ≤ most
    → Below a set
    → parse_entry most (part_of a b) set ≡ found (set ++ upto a (b + 1 - a))
unfolding parse_entry
parse_entry-part_of most a b set le fits h = elim (Bool-cases (a == b)) [
  | inl e ↦
      let same : a ≡ b = (==_iff a b).0 e in
      let one : b + 1 - a ≡ 1 = omega arith in rw (e, one, add_index-fresh a set h) (ground arith)
  | inr e ↦ rw (e, add_range-upto most (b + 1 - a) a set h (omega arith)) (ground arith)
]

Below-upto_run :
    (a b i : ℕ) (set : List ℕ) → a ≤ b → b < i → Below a set → Below i (set ++ upto a (b + 1 - a))
unfolding Below
Below-upto_run a b i set le lt h =
    All-append _ set _ (Below-le a i set (omega arith) h) (Below-upto (b + 1 - a) a i (omega arith))

parse_entries-found :
    (most : ℕ) (e : Entry) (es : List Entry) (set more : List ℕ)
    → parse_entry most e set ≡ found more
    → parse_entries most (e ∷ es) set ≡ parse_entries most es more
unfolding parse_entries
parse_entries-found most e es set more h =
    ap (λ r. elim r [ failed error ↦ failed error | found got ↦ parse_entries most es got ]) h

parse_entries-compact_runs :
    (most a b : ℕ) (is set : List ℕ)
    → a ≤ b
    → b ≤ most
    → Below a set
    → IsAscending (b + 1) is
    → All (λ i. i ≤ most) is
    → parse_entries most (compact_runs a b is) set ≡ found (set ++ (upto a (b + 1 - a) ++ is))
unfolding compact_runs
parse_entries-compact_runs most a b [] set le fits h asc all =
    let run = parse_entry-part_of most a b set le fits h in
    parse_entries-found most (part_of a b) [] set _ run
    ∙ (unfold parse_entries in ap (λ l. found (set ++ l)) (sym (append-nil (upto a (b + 1 - a)))))
parse_entries-compact_runs most a b (i ∷ is) set le fits h (lo, asc) (p, all) =
    let run = upto a (b + 1 - a) in
    if_cases (λ (es : List Entry). parse_entries most es set ≡ found (set ++ (run ++ i ∷ is)))
      (i == b + 1)
      (λ e.
        let same : i ≡ b + 1 = (==_iff i (b + 1)).0 e in
        let longer : i + 1 - a ≡ suc (b + 1 - a) = omega arith in
        let end : a + (b + 1 - a) ≡ i = omega arith in
        let ih = parse_entries-compact_runs most a i is set (omega arith) p h asc all in
        let row : upto a (i + 1 - a) ≡ run ++ i ∷ [] =
          ap (upto a) longer ∙ (upto-snoc (b + 1 - a) a ∙ ap (λ k. run ++ k ∷ []) end) in
        ih ∙ ap (λ l. found (set ++ l)) (ap (λ l. l ++ is) row ∙ append_assoc run (i ∷ []) is))
      (λ e.
        let next : b + 1 < i = ground arith in
        let one : i + 1 - i ≡ 1 = omega arith in
        let below : Below i (set ++ run) = Below-upto_run a b i set le (omega arith) h in
        let ih =
          parse_entries-compact_runs most i i is (set ++ run) (omega arith) p below asc all in
        let row : upto i (i + 1 - i) ≡ i ∷ [] = ap (upto i) one in
        parse_entries-found most (part_of a b) (compact_runs i i is) set (set ++ run)
          (parse_entry-part_of most a b set le fits h)
        ∙ (ih
            ∙ (ap (λ l. found ((set ++ run) ++ (l ++ is))) row
                ∙ ap found (append_assoc set run (i ∷ is)))))

sort_indices-ascending : (low : ℕ) (is : List ℕ) → IsAscending low is → sort_indices is ≡ is
sort_indices-ascending low [] h = refl
sort_indices-ascending low (i ∷ is) (le, h) =
    rw (sort_indices-ascending (i + 1) is h) (first i is h)
  where
    first : (i : ℕ) (is : List ℕ) → IsAscending (i + 1) is → insert_index i is ≡ i ∷ is
    first i [] h = refl
    first i (j ∷ is) (lt, h) = ground arith

parse_segment_list-found :
    (es : List Entry) (max_index : Option ℕ) (i : ℕ) (is : List ℕ)
    → parse_entries (effective_max_of max_index) es [] ≡ found (i ∷ is)
    → parse_segment_list es max_index ≡ record { indices = sort_indices (i ∷ is); error = none }
unfolding parse_segment_list
parse_segment_list-found [] max_index i is h = absurd (unfold parse_entries in cc)
parse_segment_list-found (e ∷ es) max_index i is h =
    ap
      (λ r. elim r [
        | failed error ↦ refused error
        | found set ↦
            if is_nil set
            then refused no_indices
            else record { indices = sort_indices set; error = none }
      ])
      h

-- The list that the wizard writes for ascending segments is read back as those segments, with no
-- error, where none of them is above the maximum that the reader is given.
pub parse_segment_list-compact_indices :
    (max_index i : ℕ) (is : List ℕ)
    → max_index ≤ segment_hard_max
    → IsAscending 0 (i ∷ is)
    → All (λ j. j ≤ max_index) (i ∷ is)
    → parse_segment_list (compact_indices (i ∷ is)) (some max_index)
      ≡ record { indices = i ∷ is; error = none }
unfolding parse_segment_list compact_indices Below
parse_segment_list-compact_indices max_index i is small (le, asc) (p, all) =
    let one : i + 1 - i ≡ 1 = omega arith in
    let most : min max_index segment_hard_max ≡ max_index = omega arith in
    let read =
      parse_entries-compact_runs (min max_index segment_hard_max) i i is [] (omega arith)
        (omega arith) tt asc (All-most most all) in
    let row : upto i (i + 1 - i) ++ is ≡ i ∷ is = ap (λ n. upto i n ++ is) one in
    parse_segment_list-found (compact_runs i i is) (some max_index) i is (read ∙ ap found row)
    ∙ ap (λ l. record { indices = l; error = none }) (sort_indices-ascending 0 (i ∷ is) (le, asc))
  where
    All-most :
        min max_index segment_hard_max ≡ max_index
        → All (λ j. j ≤ max_index) is
        → All (λ j. j ≤ min max_index segment_hard_max) is
    All-most e h = subst (λ m. All (λ j. j ≤ m) is) (sym e) h
