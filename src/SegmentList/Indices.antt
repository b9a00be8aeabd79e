-- ===== src/SegmentList/Indices.antt =====
-- src/lib/segment-list.ts: sets and sorted lists of segment indices.
use mathlib.Core.Path.{subst}
use io_broker_govee_smart.Base.{
  ℕ, ◌+◌, ◌≤◌, Bool, true, false, ◌||◌, ◌&&◌, List, [], ◌∷◌, ◌++◌, leb, ◌==◌, arith, ◌≡◌, refl, ◌∙◌,
  ap, All, All-append, if_cases, ==_iff, Bool-cases, inl, inr,
}
use io_broker_govee_smart.SegmentList.{
  Entry, blank, other, index, range, holds_index, add_index, insert_index, sort_indices,
}

-- Strictly ascending, from `low` on.
abbrev pub IsAscending : ℕ → List ℕ → Type 0
IsAscending low [] = Unit
IsAscending low (i ∷ is) = (low ≤ i) × IsAscending (i + 1) is

abbrev pub covers : ℕ → Entry → Bool
covers i blank = false
covers i other = false
covers i (index j) = j == i
covers i (range start end) = leb start i && leb i end

pub holds_index-append :
    (i : ℕ) (xs ys : List ℕ) → holds_index i (xs ++ ys) ≡ (holds_index i xs || holds_index i ys)
holds_index-append i [] ys = refl
holds_index-append i (x ∷ xs) ys = ground (arith, holds_index-append i xs ys)

pub holds_index-add_index :
    (i j : ℕ) (is : List ℕ) → holds_index i (add_index j is) ≡ (holds_index i is || j == i)
holds_index-add_index i j is = elim (Bool-cases (holds_index j is)) [
  | inl e ↦ elim (Bool-cases (j == i)) [
    | inl same ↦
        let q : j ≡ i = (==_iff j i).0 same in
        let p : holds_index i is ≡ true = subst (λ k. holds_index k is ≡ true) q e in ground arith
    | inr differs ↦ ground arith
  ]
  | inr e ↦ ground (arith, holds_index-append i is (j ∷ []))
]

pub holds_index-insert_index :
    (i j : ℕ) (is : List ℕ) → holds_index i (insert_index j is) ≡ (j == i || holds_index i is)
holds_index-insert_index i j [] = refl
holds_index-insert_index i j (k ∷ is) = ground (arith, holds_index-insert_index i j is)

pub holds_index-sort_indices :
    (i : ℕ) (is : List ℕ) → holds_index i (sort_indices is) ≡ holds_index i is
holds_index-sort_indices i [] = refl
holds_index-sort_indices i (j ∷ is) =
    holds_index-insert_index i j (sort_indices is)
    ∙ ap (λ b. j == i || b) (holds_index-sort_indices i is)

abbrev pub IsOnce : List ℕ → Type 0
IsOnce [] = Unit
IsOnce (i ∷ is) = (holds_index i is ≡ false) × IsOnce is

IsOnce-snoc : (i : ℕ) (is : List ℕ) → holds_index i is ≡ false → IsOnce is → IsOnce (is ++ i ∷ [])
IsOnce-snoc i [] e h = (refl, tt)
IsOnce-snoc i (j ∷ is) e (n, h) =
    (ground (arith, holds_index-append j is (i ∷ [])), IsOnce-snoc i is (ground arith) h)

pub add_index-IsOnce : (i : ℕ) (is : List ℕ) → IsOnce is → IsOnce (add_index i is)
add_index-IsOnce i is h = if_cases IsOnce (holds_index i is) (λ e. h) (λ e. IsOnce-snoc i is e h)

pub record IsIndexSet (most : ℕ) (set : List ℕ) : Type 0 where
  pub once : IsOnce set
  pub small : All (λ i. i ≤ most) set

pub add_index-IsIndexSet :
    (most i : ℕ) (set : List ℕ) → i ≤ most → IsIndexSet most set → IsIndexSet most (add_index i set)
add_index-IsIndexSet most i set le h = record {
  once = add_index-IsOnce i set h.once;
  small =
      if_cases (All (λ j. j ≤ most)) (holds_index i set) (λ e. h.small)
        (λ e. All-append _ set (i ∷ []) h.small (le, tt));
}
