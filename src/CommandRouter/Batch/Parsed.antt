-- ===== src/CommandRouter/Batch/Parsed.antt =====
-- src/lib/command-router.ts (parseSegmentBatch): which segments a batch command addresses.
use io_broker_govee_smart.Base.{
  ℕ, zero, suc, ◌+◌, ◌-◌, ◌≤◌, min, Bool, true, false, ◌&&◌, ◌||◌, List, [], ◌∷◌, Option, none,
  some, if◌then◌else◌, leb, ltb, ◌==◌, ==_iff, arith, ◌≡◌, ap, ◌∙◌, any, Bool-cases, inl, inr,
}
use io_broker_govee_smart.Text.{
  Text, codes, text_eq, trim, split, Whole, nan, plus, minus, parse_int, match_range,
}
use io_broker_govee_smart.SegmentList.{segment_hard_max, holds_index}
use io_broker_govee_smart.SegmentList.Indices.{holds_index-append, holds_index-sort_indices}
use io_broker_govee_smart.CommandRouter.Batch.{
  push_valid, push_range, push_index, push_part, push_parts, up_to, is_valid, all_segments,
  named_segments,
}

-- Whether one part of the list, a range or a number, names the segment.
abbrev names_whole : ℕ → Whole → Bool
names_whole i nan = false
names_whole i (plus j) = j == i
names_whole i (minus zero) = 0 == i
names_whole i (minus (suc n)) = false

abbrev names : ℕ → Text → Option (ℕ × ℕ) → Bool
names i part none = names_whole i (parse_int part)
names i part (some (start, end)) = leb start i && leb i end

abbrev part_names : ℕ → Text → Bool
part_names i part = names i (trim part) (match_range (trim part))

-- Whether the text names the segment: it says `all`, or one of its parts does.
abbrev pub mentions : ℕ → Text → Bool
mentions i seg_str = text_eq seg_str (codes "all") || any (part_names i) (split b',' seg_str)

module _ (valid : ℕ → Bool) (i : ℕ) (small : valid i ≡ true → i ≤ segment_hard_max) where
  holds_index-push_valid :
      (j : ℕ) (segments : List ℕ)
      → holds_index i (push_valid valid j segments)
        ≡ (holds_index i segments || (valid i && j == i))
  holds_index-push_valid j segments = elim (Bool-cases (j == i)) [
    | inl same ↦
        let e : valid j ≡ valid i = ap valid ((==_iff j i).0 same) in
        ground (arith, holds_index-append i segments (j ∷ []))
    | inr other ↦ ground (arith, holds_index-append i segments (j ∷ []))
  ]

  holds_index-push_range :
      (rounds j : ℕ) (segments : List ℕ)
      → holds_index i (push_range valid rounds j segments)
        ≡ (holds_index i segments || (valid i && (leb j i && ltb i (j + rounds))))
  unfolding push_range
  holds_index-push_range zero j segments = ground arith
  holds_index-push_range (suc rounds) j segments =
      holds_index-push_range rounds (j + 1) (push_valid valid j segments)
      ∙ ground (arith, holds_index-push_valid j segments)

  holds_index-push_index :
      (n : Whole) (segments : List ℕ)
      → holds_index i (push_index valid n segments)
        ≡ (holds_index i segments || (valid i && names_whole i n))
  holds_index-push_index nan segments = ground arith
  holds_index-push_index (plus j) segments = holds_index-push_valid j segments
  holds_index-push_index (minus zero) segments = holds_index-push_valid 0 segments
  holds_index-push_index (minus (suc n)) segments = ground arith

  holds_index-push_part :
      (part : Text) (r : Option (ℕ × ℕ)) (segments : List ℕ)
      → holds_index i (push_part valid part r segments)
        ≡ (holds_index i segments || (valid i && names i part r))
  holds_index-push_part part none segments = holds_index-push_index (parse_int part) segments
  holds_index-push_part part (some (start, end)) segments =
      holds_index-push_range (min end segment_hard_max + 1 - start) start segments ∙ ground arith

  holds_index-push_parts :
      (parts : List Text) (segments : List ℕ)
      → holds_index i (push_parts valid parts segments)
        ≡ (holds_index i segments || (valid i && any (part_names i) parts))
  unfolding push_parts
  holds_index-push_parts [] segments = ground arith
  holds_index-push_parts (part ∷ parts) segments =
      holds_index-push_parts parts (push_part valid (trim part) (match_range (trim part)) segments)
      ∙ ground (arith, holds_index-push_part (trim part) (match_range (trim part)) segments)

holds_index-up_to : (i j n : ℕ) → holds_index i (up_to j n) ≡ (leb j i && ltb i (j + n))
unfolding up_to
holds_index-up_to i j zero = ground arith
holds_index-up_to i j (suc n) = ground (arith, holds_index-up_to i (j + 1) n)

-- The segments that a list of indices yields are the valid ones that it names.
pub holds_index-named_segments :
    (set : Option (List ℕ)) (seg_count i : ℕ) (seg_str : Text)
    → (is_valid set seg_count i ≡ true → i ≤ segment_hard_max)
    → holds_index i (named_segments set seg_count seg_str)
      ≡ (is_valid set seg_count i && mentions i seg_str)
unfolding named_segments
holds_index-named_segments set seg_count i seg_str small =
    go set small (text_eq seg_str (codes "all"))
  where
    go :
        (set : Option (List ℕ))
        → (is_valid set seg_count i ≡ true → i ≤ segment_hard_max)
        → (all : Bool)
        → holds_index i (
            if all
            then all_segments set seg_count
            else push_parts (is_valid set seg_count) (split b',' seg_str) [])
          ≡ (is_valid set seg_count i && (all || any (part_names i) (split b',' seg_str)))
    go none small true = ground (arith, holds_index-up_to i 0 seg_count)
    go (some set) small true = ground (arith, holds_index-sort_indices i set)
    go set small false =
        holds_index-push_parts (is_valid set seg_count) i small (split b',' seg_str) []
