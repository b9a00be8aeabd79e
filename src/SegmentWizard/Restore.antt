-- ===== src/SegmentWizard/Restore.antt =====
-- src/lib/segment-wizard.ts (`flashSegment`, `restoreBaseline`), `restoreSegmentsGrouped` of
-- src/lib/device-baseline.ts and `restoresAsColorTemperature` of src/lib/color-mode.ts: what is sent
-- to show a segment and to bring the strip back. A saved colour is its text, the text in lower case,
-- and the number that the source's regular expression and `parseInt` read from it.
use io_broker_govee_smart.Base.{
  ℕ, zero, suc, ◌+◌, Bool, false, not, ◌&&◌, ◌||◌, String, List, [], ◌∷◌, ◌++◌, map, Option, none,
  some, if◌then◌else◌, ltb, ◌==◌, any, keep, length, str_eq, or_else,
}
use io_broker_govee_smart.SegmentList.{segment_hard_max}

abbrev pub segment_count_max : ℕ
segment_count_max = segment_hard_max + 1

pub data Command : Type 0 where
  power : Bool → Command
  brightness color_temperature : ℕ → Command
  flash_atomic : ℕ → Command
  restore_atomic : ℕ → ℕ → ℕ → Command
  segment_batch : List ℕ → ℕ → ℕ → Command

pub record SavedColor : Type 0 where
  pub text : String
  pub lower : String
  pub rgb : Option ℕ

pub record SegmentColor : Type 0 where
  pub idx : ℕ
  pub color : SavedColor
  pub level : ℕ

pub record Baseline : Type 0 where
  pub was_on : Option Bool
  pub level : Option ℕ
  pub color_rgb : Option SavedColor
  pub kelvin : Option ℕ
  pub segment_colors : List SegmentColor

abbrev pub no_baseline : Baseline
no_baseline = record {
  was_on = none;
  level = none;
  color_rgb = none;
  kelvin = none;
  segment_colors = [];
}

abbrev pub indices_from : ℕ → ℕ → List ℕ
indices_from i zero = []
indices_from i (suc n) = i ∷ indices_from (i + 1) n

-- The segment is shown by one datagram, or by two commands where the host could not send it.
unfoldable pub flash_segment : Bool → ℕ → List Command
flash_segment atomic idx =
    if atomic
    then flash_atomic idx ∷ []
    else (let others = keep (λ i. not (i == idx)) (indices_from 0 segment_count_max) in
        flash_atomic idx
        ∷ ((if ltb 0 (length others) then segment_batch others 0 0 ∷ [] else [])
            ++ segment_batch (idx ∷ []) 0xffffff 100 ∷ []))

abbrev pub is_color_placeholder : SavedColor → Bool
is_color_placeholder c = str_eq c.lower "#000000" || str_eq c.lower "#ffffff"

unfoldable pub restores_as_color_temperature : Option SavedColor → Option ℕ → Bool
restores_as_color_temperature color none = false
restores_as_color_temperature none (some kelvin) = ltb 0 kelvin
restores_as_color_temperature (some c) (some kelvin) = ltb 0 kelvin && is_color_placeholder c

pub record Group : Type 0 where
  pub segments : List ℕ
  pub color : ℕ
  pub level : ℕ

-- A malformed colour is black.
abbrev pub color_of : SegmentColor → ℕ
color_of s = or_else s.color.rgb 0

abbrev pub is_in_group : SegmentColor → Group → Bool
is_in_group s g = color_of s == g.color && s.level == g.level

unfoldable pub add_to_group : SegmentColor → List Group → List Group
add_to_group s [] = record { segments = s.idx ∷ []; color = color_of s; level = s.level } ∷ []
add_to_group s (g ∷ gs) =
    let rest = add_to_group s gs in
    if is_in_group s g then record g { segments = g.segments ++ s.idx ∷ [] } ∷ gs else g ∷ rest

unfoldable pub group_segments : List Group → List SegmentColor → List Group
unfolding add_to_group
group_segments gs [] = gs
group_segments gs (s ∷ ss) = group_segments (add_to_group s gs) ss

unfoldable pub restore_segments_grouped : List SegmentColor → List Command
unfolding group_segments
restore_segments_grouped ss =
    map (λ (g : Group). segment_batch g.segments g.color g.level) (group_segments [] ss)

-- `new Set(segs.map(…)).size >= 2`: the text and the brightness of some segment differ from the
-- first one's.
abbrev pub is_same_tuple : SegmentColor → SegmentColor → Bool
is_same_tuple a b = str_eq a.color.text b.color.text && a.level == b.level

unfoldable pub is_gradient : List SegmentColor → Bool
is_gradient [] = false
is_gradient (s ∷ ss) = any (λ t. not (is_same_tuple s t)) ss

abbrev pub first_level : List SegmentColor → ℕ
first_level [] = 100
first_level (s ∷ ss) = s.level

abbrev pub restore_uniform : ℕ → Bool → List SegmentColor → Option SavedColor → List Command
restore_uniform total atomic ss none = []
restore_uniform total atomic ss (some c) = elim c.rgb [
  | none ↦ []
  | some color ↦
      if ltb 0 total
      then restore_atomic total color (first_level ss)
        ∷ (if atomic then [] else segment_batch (indices_from 0 total) color (first_level ss) ∷ [])
      else []
]

abbrev pub restore_level : Option ℕ → List Command
restore_level none = []
restore_level (some level) = if level == 100 then [] else brightness level ∷ []

abbrev pub restore_power : Option Bool → List Command
restore_power (some false) = power false ∷ []
restore_power _ = []

-- `total`: the segments of the device's tree. `atomic`: the host took the one datagram. No command
-- is refused here: the first one that is ends the restore, with a warning.
unfoldable pub restore_baseline : ℕ → Bool → Baseline → List Command
unfolding is_gradient restore_segments_grouped restores_as_color_temperature
restore_baseline total atomic b =
    let colors =
      if ltb 0 total && (length b.segment_colors == total && is_gradient b.segment_colors)
      then restore_segments_grouped b.segment_colors
      else if restores_as_color_temperature b.color_rgb b.kelvin
      then color_temperature (or_else b.kelvin 0) ∷ []
      else restore_uniform total atomic b.segment_colors b.color_rgb in
    colors ++ (restore_level b.level ++ restore_power b.was_on)

-- What `dispose` sends: one datagram, with the brightness of the device.
unfoldable pub restore_on_stop : ℕ → Baseline → List Command
unfolding restores_as_color_temperature
restore_on_stop total b =
    if restores_as_color_temperature b.color_rgb b.kelvin
    then color_temperature (or_else b.kelvin 0) ∷ []
    else elim b.color_rgb [
      | none ↦ []
      | some c ↦ elim c.rgb [
        | none ↦ []
        | some color ↦
            if ltb 0 total then restore_atomic total color (or_else b.level 100) ∷ [] else []
      ]
    ]
