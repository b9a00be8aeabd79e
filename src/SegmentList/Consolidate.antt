-- ===== src/SegmentList/Consolidate.antt =====
-- src/lib/segment-wizard.ts, `consolidate`: the result says exactly which segments lit.
use mathlib.Core.Path.{subst}
use io_broker_govee_smart.Base.{
  ℕ, suc, ◌+◌, ◌-◌, ◌≤◌, Bool, true, false, ◌||◌, ◌&&◌, List, [], ◌∷◌, Option, none, some,
  if◌then◌else◌, length, last?, ltb, leb, ◌==◌, arith, ◌≡◌, refl, sym, ◌∙◌, ap, All, if_cases,
}
use io_broker_govee_smart.SegmentList.{
  segment_hard_max, SegmentListParseResult, holds_index, sort_indices, parse_segment_list,
  compact_indices, WizardResult, addressable, result_of, consolidate,
}
use io_broker_govee_smart.SegmentList.Parse.{sort_indices-IsAscending, All-sort_indices}
use io_broker_govee_smart.SegmentList.Indices.{
  IsAscending, IsIndexSet, add_index-IsIndexSet, holds_index-add_index, holds_index-sort_indices,
}
use io_broker_govee_smart.SegmentList.Compact.{upto, parse_segment_list-compact_indices}

-- The user saw the segment, and the protocol can address it.
abbrev pub is_measured : ℕ → List (Option ℕ) → Bool
is_measured i [] = false
is_measured i (none ∷ lit) = is_measured i lit
is_measured i (some j ∷ lit) = (j == i && leb i segment_hard_max) || is_measured i lit

-- The segments that a result stands for, as a reader of its list has them.
abbrev pub segments_of : WizardResult → List ℕ
segments_of r =
    if r.has_gaps
    then (parse_segment_list r.manual_list (some (r.segment_count - 1))).indices
    else upto 0 r.segment_count

holds_index-addressable :
    (i : ℕ) (lit : List (Option ℕ)) → holds_index i (addressable lit) ≡ is_measured i lit
holds_index-addressable i [] = refl
holds_index-addressable i (none ∷ lit) = holds_index-addressable i lit
holds_index-addressable i (some j ∷ lit) =
    ground (arith, holds_index-addressable i lit, holds_index-add_index i j (addressable lit))

addressable-IsIndexSet : (lit : List (Option ℕ)) → IsIndexSet segment_hard_max (addressable lit)
addressable-IsIndexSet [] = record { once = tt; small = tt }
addressable-IsIndexSet (none ∷ lit) = addressable-IsIndexSet lit
addressable-IsIndexSet (some j ∷ lit) =
    if_cases (IsIndexSet segment_hard_max) (leb j segment_hard_max)
      (λ e.
        add_index-IsIndexSet segment_hard_max j (addressable lit) (ground arith)
          (addressable-IsIndexSet lit))
      (λ e. addressable-IsIndexSet lit)

length-ascending :
    (low last : ℕ) (is : List ℕ)
    → IsAscending low is
    → All (λ i. i ≤ last) is
    → length is ≤ last + 1 - low
length-ascending low last [] h all = omega arith
length-ascending low last (i ∷ is) (lo, h) (p, all) =
    omega (arith, length-ascending (i + 1) last is h all)

-- An ascending list without room for a gap has none.
full-upto :
    (low last : ℕ) (is : List ℕ)
    → IsAscending low is
    → All (λ i. i ≤ last) is
    → last + 1 ≤ low + length is
    → is ≡ upto low (last + 1 - low)
full-upto low last [] h all full = let e : last + 1 - low ≡ 0 = omega arith in rw e refl
full-upto low last (i ∷ is) (lo, h) (p, all) full =
    let size = length-ascending (i + 1) last is h all in
    let first : i ≡ low = omega arith in
    let more : last + 1 - low ≡ suc (last + 1 - (i + 1)) = omega arith in
    let rest = full-upto (i + 1) last is h all (omega arith) in
    let step : upto low (last + 1 - low) ≡ low ∷ upto (low + 1) (last + 1 - (i + 1)) =
      ap (upto low) more in
    cc

last-facts :
    (low most i : ℕ) (is : List ℕ)
    → IsAscending low (i ∷ is)
    → All (λ j. j ≤ most) (i ∷ is)
    → (last : ℕ) × (last? (i ∷ is) ≡ some last)
      × (i ≤ last)
      × (last ≤ most)
      × All (λ j. j ≤ last) is
last-facts low most i [] h (p, all) = (i, refl, omega arith, p, tt)
last-facts low most i (j ∷ is) (lo, h) (p, all) =
    let (last, e, le, small, rest) = last-facts (i + 1) most j is h all in
    let lt = h.0 in (last, e, omega arith, small, (le, rest))

segments_of-gaps :
    (i last : ℕ) (is : List ℕ)
    → IsAscending 0 (i ∷ is)
    → All (λ j. j ≤ last) (i ∷ is)
    → last ≤ segment_hard_max
    → (gaps : Bool) → (gaps ≡ false → last + 1 ≤ length (i ∷ is))
    → segments_of (record {
      segment_count = last + 1;
      manual_list = if gaps then compact_indices (i ∷ is) else [];
      has_gaps = gaps;
    })
      ≡ i ∷ is
segments_of-gaps i last is h all small true full =
    let back : last + 1 - 1 ≡ last = omega arith in
    ap (λ m. (parse_segment_list (compact_indices (i ∷ is)) (some m)).indices) back
    ∙ ap (λ (r : SegmentListParseResult). r.indices)
        (parse_segment_list-compact_indices last i is small h all)
segments_of-gaps i last is h all small false full =
    let whole : last + 1 ≡ last + 1 - 0 = omega arith in
    ap (upto 0) whole ∙ sym (full-upto 0 last (i ∷ is) h all (let f = full refl in omega arith))

-- What a result stands for is the ascending list that it was made of.
segments_of-result_of :
    (i last : ℕ) (is : List ℕ)
    → IsAscending 0 (i ∷ is)
    → All (λ j. j ≤ last) (i ∷ is)
    → last ≤ segment_hard_max
    → (r : WizardResult) → result_of (i ∷ is) (some last) ≡ some r
    → (r.segment_count ≤ 56) × (segments_of r ≡ i ∷ is)
segments_of-result_of i last is h all small r made =
    let gaps = ltb (length (i ∷ is)) (last + 1) in
    let made_of : WizardResult = record {
      segment_count = last + 1;
      manual_list = if gaps then compact_indices (i ∷ is) else [];
      has_gaps = gaps;
    } in
    let same : made_of ≡ r = cc in
    let listed = segments_of-gaps i last is h all small gaps (λ e. ground arith) in
    subst (λ (x : WizardResult). (x.segment_count ≤ 56) × (segments_of x ≡ i ∷ is)) same
      (omega arith, listed)

-- The result of a measurement has at most 56 segments, and with its list or, where it has none, with
-- its count it says exactly which segments lit, of those that the protocol can address.
pub consolidate_lem :
    (lit : List (Option ℕ)) (r : WizardResult)
    → consolidate lit ≡ some r
    → (r.segment_count ≤ 56) × ((i : ℕ) → holds_index i (segments_of r) ≡ is_measured i lit)
unfolding consolidate
consolidate_lem lit r h =
    go (sort_indices (addressable lit))
      (sort_indices-IsAscending (addressable lit) (addressable-IsIndexSet lit).once)
      (All-sort_indices segment_hard_max (addressable lit) (addressable-IsIndexSet lit).small)
      (λ i. holds_index-sort_indices i (addressable lit) ∙ holds_index-addressable i lit) h
  where
    go :
        (clean : List ℕ)
        → IsAscending 0 clean
        → All (λ i. i ≤ segment_hard_max) clean
        → ((i : ℕ) → holds_index i clean ≡ is_measured i lit)
        → result_of clean (last? clean) ≡ some r
        → (r.segment_count ≤ 56) × ((i : ℕ) → holds_index i (segments_of r) ≡ is_measured i lit)
    go [] asc all same made = absurd cc
    go (i ∷ is) asc all same made =
        let (last, e, le, small, rest) = last-facts 0 segment_hard_max i is asc all in
        let (count, listed) =
          segments_of-result_of i last is asc (le, rest) small r
            (ap (result_of (i ∷ is)) (sym e) ∙ made) in
        (count, λ k. ap (holds_index k) listed ∙ same k)

last-some : (j : ℕ) (is : List ℕ) → (last : ℕ) × (last? (j ∷ is) ≡ some last)
last-some j [] = (j, refl)
last-some j (k ∷ is) = last-some k is

-- A measurement in which an addressable segment lit has a result.
pub consolidate-is_measured :
    (lit : List (Option ℕ)) (i : ℕ)
    → is_measured i lit ≡ true
    → (r : WizardResult) × (consolidate lit ≡ some r)
unfolding consolidate
consolidate-is_measured lit i h =
    go (sort_indices (addressable lit))
      (holds_index-sort_indices i (addressable lit) ∙ (holds_index-addressable i lit ∙ h))
  where
    go :
        (clean : List ℕ)
        → holds_index i clean ≡ true
        → (r : WizardResult) × (result_of clean (last? clean) ≡ some r)
    go [] e = absurd cc
    go (j ∷ clean) e = let (last, at) = last-some j clean in (_, ap (result_of (j ∷ clean)) at)
