-- ===== src/SegmentWizard/Grouped.antt =====
-- src/lib/device-baseline.ts, `restoreSegmentsGrouped`: the batches paint what was saved.
use io_broker_govee_smart.Base.{
  ℕ, Bool, true, false, ◌&&◌, ◌||◌, List, [], ◌∷◌, ◌++◌, map, if_cases, arith, ◌≡◌, refl, ◌∙◌, ap,
  any, ◌==◌,
}
use io_broker_govee_smart.SegmentList.{holds_index}
use io_broker_govee_smart.SegmentList.Indices.{holds_index-append}
use io_broker_govee_smart.SegmentWizard.Restore.{
  Command, segment_batch, SegmentColor, Group, color_of, is_in_group, add_to_group, group_segments,
  restore_segments_grouped,
}

or_first : (a b c x : Bool) → x ≡ (a || b) → (x || c) ≡ (a || (b || c))
or_first a b c x h = ground arith

or_later : (a b g x : Bool) → x ≡ (a || b) → (g || x) ≡ (a || (g || b))
or_later a b g x h = ground arith

or_moved : (a b c x : Bool) → x ≡ (a || b) → (x || c) ≡ (b || (a || c))
or_moved a b c x h = ground arith

-- The command gives the segment this colour and brightness.
abbrev pub paints : ℕ → ℕ → ℕ → Command → Bool
paints i color level (segment_batch is c l) = holds_index i is && (c == color && l == level)
paints i color level _ = false

abbrev pub is_saved : ℕ → ℕ → ℕ → SegmentColor → Bool
is_saved i color level s = s.idx == i && (color_of s == color && s.level == level)

abbrev in_group : ℕ → ℕ → ℕ → Group → Bool
in_group i color level g = holds_index i g.segments && (g.color == color && g.level == level)

in_group-more :
    (i color level : ℕ) (s : SegmentColor) (g : Group)
    → is_in_group s g ≡ true
    → in_group i color level (record g { segments = g.segments ++ s.idx ∷ [] })
      ≡ (is_saved i color level s || in_group i color level g)
in_group-more i color level s g h = ground (arith, holds_index-append i g.segments (s.idx ∷ []))

any-add_to_group :
    (i color level : ℕ) (s : SegmentColor) (gs : List Group)
    → any (in_group i color level) (add_to_group s gs)
      ≡ (is_saved i color level s || any (in_group i color level) gs)
unfolding add_to_group
any-add_to_group i color level s [] = ground arith
any-add_to_group i color level s (g ∷ gs) =
    let ih = any-add_to_group i color level s gs in
    if_cases
      (λ (l : List Group).
        any (in_group i color level) l
        ≡ (is_saved i color level s || any (in_group i color level) (g ∷ gs)))
      (is_in_group s g) (λ e. let more = in_group-more i color level s g e in or_first _ _ _ _ more)
      (λ e. or_later _ _ _ _ ih)

any-group_segments :
    (i color level : ℕ) (gs : List Group) (ss : List SegmentColor)
    → any (in_group i color level) (group_segments gs ss)
      ≡ (any (in_group i color level) gs || any (is_saved i color level) ss)
unfolding group_segments
any-group_segments i color level gs [] = ground arith
any-group_segments i color level gs (s ∷ ss) =
    let ih = any-group_segments i color level (add_to_group s gs) ss in
    let first = any-add_to_group i color level s gs in ih ∙ or_moved _ _ _ _ first

any-map :
    (i color level : ℕ) (gs : List Group)
    → any (paints i color level) (map (λ (g : Group). segment_batch g.segments g.color g.level) gs)
      ≡ any (in_group i color level) gs
any-map i color level [] = refl
any-map i color level (g ∷ gs) = ap (λ b. in_group i color level g || b) (any-map i color level gs)

-- A segment is given a colour and a brightness by some batch exactly when they were saved for it.
pub restore_segments_grouped_lem :
    (i color level : ℕ) (ss : List SegmentColor)
    → any (paints i color level) (restore_segments_grouped ss) ≡ any (is_saved i color level) ss
unfolding restore_segments_grouped
restore_segments_grouped_lem i color level ss =
    any-map i color level (group_segments [] ss) ∙ any-group_segments i color level [] ss
