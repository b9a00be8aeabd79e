-- ===== src/Tests/Segments.antt =====
-- src/lib/segment-list.ts, src/lib/segment-wizard.ts and src/lib/device-baseline.ts: lists and
-- sessions at concrete inputs.
use mathlib.Core.List.{Memᴰ}
use io_broker_govee_smart.Base.{
  ℕ, ◌≤◌, true, false, List, [], ◌∷◌, ◌++◌, none, some, is_some, any, arith, ◌≡◌, refl, ◌⊎◌,
  replicate, get_or,
}
use io_broker_govee_smart.SegmentList.{
  Entry, blank, index, range, WizardResult, parse_segment_list, compact_indices, consolidate,
  effective_max_of, holds_index,
}
use io_broker_govee_smart.SegmentList.Parse.{IsListOf, parse_segment_list_lem}
use io_broker_govee_smart.SegmentList.Compact.{parse_segment_list-compact_indices}
use io_broker_govee_smart.SegmentList.Consolidate.{segments_of, is_measured, consolidate_lem}
use io_broker_govee_smart.SegmentWizard.Restore.{
  SavedColor, SegmentColor, no_baseline, restore_segments_grouped,
}
use io_broker_govee_smart.SegmentWizard.Grouped.{paints, is_saved, restore_segments_grouped_lem}
use io_broker_govee_smart.SegmentWizard.{
  Event, Wizard, Session, RestoreFacts, DeviceFacts, apply_result, make_wizard, answer, routed,
  captured, refuses, abort_ends, start_of, yes, abort_of, step, route, start, baseline_captured,
  start_refused, aborts,
}
use io_broker_govee_smart.SegmentWizard.IdleTimer.{run_steps}
use io_broker_govee_smart.SegmentWizard.Measure.{Reply, run_answers, sights, measurement_applied}

abbrev typed_list : List Entry
typed_list = range 3 5 ∷ blank ∷ index 1 ∷ index 4 ∷ []

typed_list_read : (parse_segment_list typed_list (some 9)).indices ≡ 1 ∷ 3 ∷ 4 ∷ 5 ∷ []
unfolding parse_segment_list
typed_list_read = refl

parse_segment_list_lem_example :
    ((is_some (parse_segment_list typed_list (some 9)).error ≡ true)
      × ((parse_segment_list typed_list (some 9)).indices ≡ []))
    ⊎ (((parse_segment_list typed_list (some 9)).error ≡ none)
        × IsListOf
            (effective_max_of (some 9))
            typed_list
            (parse_segment_list typed_list (some 9)).indices)
parse_segment_list_lem_example = parse_segment_list_lem typed_list (some 9)

parse_segment_list-compact_indices_example :
    parse_segment_list (compact_indices (0 ∷ 1 ∷ 4 ∷ [])) (some 14)
    ≡ record { indices = 0 ∷ 1 ∷ 4 ∷ []; error = none }
parse_segment_list-compact_indices_example =
    parse_segment_list-compact_indices 14 0 (1 ∷ 4 ∷ []) (omega arith) (ground arith) (ground arith)

abbrev cut_strip : WizardResult
cut_strip = record { segment_count = 5; manual_list = range 0 1 ∷ index 4 ∷ []; has_gaps = true }

consolidate_lem_example :
    (cut_strip.segment_count ≤ 56)
    × ((i : ℕ)
        → holds_index i (segments_of cut_strip)
          ≡ is_measured i (some 4 ∷ none ∷ some 0 ∷ some 1 ∷ some 99 ∷ []))
unfolding consolidate
consolidate_lem_example =
    consolidate_lem (some 4 ∷ none ∷ some 0 ∷ some 1 ∷ some 99 ∷ []) cut_strip refl

abbrev lamp_facts : RestoreFacts
lamp_facts = record { total = 5; atomic = true }

abbrev lamp : DeviceFacts
lamp = record { has_segments = true; online = true }

abbrev lamp_session : Session
lamp_session = record {
  id = 0;
  device_key = "lamp";
  current = 0;
  visible = [];
  baseline = no_baseline;
}

abbrev lamp_wizard : Wizard
lamp_wizard = record { session = some lamp_session; idle_timer = true; starts = 1 }

abbrev seen_reply : Reply
seen_reply = record { was_visible = true; facts = lamp_facts }

abbrev dark_reply : Reply
dark_reply = record { was_visible = false; facts = lamp_facts }

abbrev first_answers : List Reply
first_answers = seen_reply ∷ replicate 54 dark_reply

measurement_applied_example :
    (r : WizardResult) × Memᴰ
      (apply_result "lamp" r)
      (answer (run_answers lamp_wizard first_answers) false (some lamp_facts)).1
    × ((k : ℕ)
        → holds_index k (segments_of r) ≡ get_or (sights first_answers ++ false ∷ []) k false)
measurement_applied_example =
    measurement_applied lamp_wizard lamp_session first_answers dark_reply 0 refl refl refl refl refl

-- An answer, an abort that is still restoring, and a second start that is refused meanwhile.
abbrev idle_events : List Event
idle_events =
    routed (yes (some lamp_facts))
    ∷ routed (abort_of (some lamp_facts))
    ∷ routed (start_of "lamp" (some lamp))
    ∷ []

-- The sends of a first session are refused after it was aborted and a second one began: the second
-- session is gone.
late_refusal :
    (run_steps make_wizard (
      routed (start_of "lamp" (some lamp))
      ∷ captured 0 no_baseline true
      ∷ routed (abort_of (some lamp_facts))
      ∷ abort_ends
      ∷ routed (start_of "strip" (some lamp))
      ∷ refuses
      ∷ [])).session
    ≡ none
unfolding run_steps step route start baseline_captured start_refused aborts
late_refusal = refl

-- 57 answers, the last one a yes: the session is still open and holds a segment past the limit.
all_dark :
    (run_answers lamp_wizard (replicate 56 dark_reply ++ seen_reply ∷ [])).session
    ≡ some (record lamp_session { current = 57; visible = 56 ∷ [] })
unfolding run_answers answer
all_dark = refl

abbrev red : SavedColor
red = record { text = "#FF0000"; lower = "#ff0000"; rgb = some 0xff0000 }

abbrev gradient : List SegmentColor
gradient =
    record { idx = 0; color = red; level = 100 }
    ∷ record { idx = 1; color = red; level = 50 }
    ∷ record { idx = 2; color = red; level = 100 }
    ∷ []

restore_segments_grouped_lem_example :
    any (paints 2 0xff0000 100) (restore_segments_grouped gradient)
    ≡ any (is_saved 2 0xff0000 100) gradient
restore_segments_grouped_lem_example = restore_segments_grouped_lem 2 0xff0000 100 gradient
