-- ===== src/SegmentLearning/Runs.antt =====
-- src/lib/device-manager.ts: the segment count of a device over all it pushes.
use mathlib.Core.Path.{subst}
use io_broker_govee_smart.Base.{
  ℕ, ◌≤◌, true, false, not, ◌&&◌, ◌||◌, List, [], ◌∷◌, Option, none, some, if◌then◌else◌, arith,
  ◌≡◌, refl, sym, ap, ◌∙◌, leb, ltb, if_cases, Bool-cases, inl, inr, is_some,
}
use io_broker_govee_smart.SegmentList.{holds_index}
use io_broker_govee_smart.SegmentWizard.Restore.{segment_count_max}
use io_broker_govee_smart.Device.SegmentCount.{plausible_segment_count}
use io_broker_govee_smart.SegmentPush.{ParsedMqttSegments, parse_mqtt_segment_data}
use io_broker_govee_smart.SnapshotFrames.{segment_count_from_snapshot_frames}
use io_broker_govee_smart.SegmentLearning.{
  Strip, Masks, Action, current_count, with_count, adopt_segment_count, is_count,
  may_lower_segment_count, count_seen, is_empty, process_segments, process_parsed,
  process_mqtt_segment_packet, review, review_deferred_segment_shrink,
}
use io_broker_govee_smart.SegmentLearning.Lowered.{
  held, IsHeld, IsJudged, may_lower-IsJudged, finish_push-IsHeld, finish_push_big, resolve_locked,
  with_count-IsHeld, count_seen_positive,
}

-- What happens to a device: it pushes, or its snapshot masks have loaded.
pub data Event : Type 0 where
  pushes : List (Option (List ℕ)) → Event
  masks_load : Masks → Event

unfoldable pub step : Option ℕ → Strip → Event → Strip
unfolding process_mqtt_segment_packet review_deferred_segment_shrink
step quirk s (pushes op_command) = (process_mqtt_segment_packet quirk s op_command).0
step quirk s (masks_load masks) =
    (review_deferred_segment_shrink quirk (record s { masks = masks })).0

-- The latest event is the first of the list.
unfoldable pub run_events : Option ℕ → Strip → List Event → Strip
unfolding step
run_events quirk s [] = s
run_events quirk s (e ∷ older) = step quirk (run_events quirk s older) e

-- The counts of the pushes that carried the whole list.
abbrev pub add_end : ParsedMqttSegments → List ℕ → List ℕ
add_end p ends = if p.complete then count_seen 0 p.segments ∷ ends else ends

unfoldable pub ends_of : List Event → List ℕ
unfolding parse_mqtt_segment_data
ends_of [] = []
ends_of (pushes op_command ∷ older) = add_end (parse_mqtt_segment_data op_command) (ends_of older)
ends_of (masks_load masks ∷ older) = ends_of older

process_segments-IsHeld :
    (quirk : Option ℕ) (s : Strip) (p : ParsedMqttSegments) (seen : ℕ) (ends : List ℕ)
    → 1 ≤ seen
    → held ends s.deferred ≡ true
    → (not p.complete || holds_index seen ends) ≡ true
    → IsHeld quirk ends s (process_segments quirk s p seen).0
unfolding process_segments held
process_segments-IsHeld quirk s p seen ends lo h k =
    let m =
      if ltb seen (current_count quirk s)
      then may_lower_segment_count s seen p.complete p.trail_guess
      else (s, false) in
    elim (Bool-cases (ltb segment_count_max seen)) [
      | inl big ↦
          subst (IsHeld quirk ends s)
            (sym (finish_push_big quirk s p.segments seen m (ground arith))) (h, ground arith)
      | inr small ↦ finish_push-IsHeld quirk s p.segments seen ends m lo (ground arith) (
          if_cases (IsJudged s ends seen) (ltb seen (current_count quirk s))
            (λ _. may_lower-IsJudged s seen p.complete p.trail_guess ends h (ground arith))
            (λ _. record { device = refl; waits = h; lowers = refl }))
    ]

held_more : (n : ℕ) (ends : List ℕ) (o : Option ℕ) → held ends o ≡ true → held (n ∷ ends) o ≡ true
unfolding held
held_more n ends none h = refl
held_more n ends (some k) h = ground arith

process_parsed-IsHeld :
    (quirk : Option ℕ) (s : Strip) (p : ParsedMqttSegments) (ends : List ℕ)
    → held ends s.deferred ≡ true
    → IsHeld quirk (add_end p ends) s (process_parsed quirk s p).0
process_parsed-IsHeld quirk s p ends h =
    let seen = count_seen 0 p.segments in
    let more =
      if_cases (λ es. held es s.deferred ≡ true) p.complete (λ _. held_more seen ends s.deferred h)
        (λ _. h) in
    elim (Bool-cases (is_empty p.segments)) [
      | inl nothing ↦ rw nothing (more, ground arith)
      | inr something ↦ rw something (
          process_segments-IsHeld quirk s p seen (add_end p ends)
            (count_seen_positive p.segments something) more (ground arith))
    ]

nothing_held : (ends : List ℕ) → held ends none ≡ true
unfolding held
nothing_held ends = refl

adopted-IsHeld :
    (quirk : Option ℕ) (s : Strip) (seen : ℕ) (ends : List ℕ)
    → held ends (some seen) ≡ true
    → IsHeld quirk ends s (with_count (record s { deferred = none }) seen)
unfolding held
adopted-IsHeld quirk s seen ends h = elim (Bool-cases (is_some (plausible_segment_count quirk))) [
  | inl locked ↦ (nothing_held ends, ground (arith, resolve_locked quirk s.device seen locked))
  | inr free ↦
      with_count-IsHeld quirk s (record s { deferred = none }) seen ends refl free (ground arith)
        (ground arith) (nothing_held ends) (ground arith)
]

review-IsHeld :
    (quirk : Option ℕ) (s : Strip) (ends : List ℕ) (o : Option ℕ)
    → s.deferred ≡ o
    → held ends o ≡ true
    → IsHeld quirk ends s (review quirk s o).0
unfolding adopt_segment_count
review-IsHeld quirk s ends none q h = (ap (held ends) q ∙ h, ground arith)
review-IsHeld quirk s ends (some seen) q h =
    let next : Strip = record s { deferred = none } in
    let current = current_count quirk s in
    if_cases (λ (r : Strip × List Action). IsHeld quirk ends s r.0)
      (ltb seen current && is_count seen (segment_count_from_snapshot_frames s.masks))
      (λ _. adopted-IsHeld quirk s seen ends h) (λ _. (nothing_held ends, ground arith))

step-IsHeld :
    (quirk : Option ℕ) (s : Strip) (e : Event) (older : List Event)
    → held (ends_of older) s.deferred ≡ true
    → IsHeld quirk (ends_of (e ∷ older)) s (step quirk s e)
unfolding step ends_of process_mqtt_segment_packet review_deferred_segment_shrink
step-IsHeld quirk s (pushes op_command) older h =
    process_parsed-IsHeld quirk s (parse_mqtt_segment_data op_command) (ends_of older) h
step-IsHeld quirk s (masks_load masks) older h =
    review-IsHeld quirk (record s { masks = masks }) (ends_of older) s.deferred refl h

run_events-held :
    (quirk : Option ℕ) (s : Strip) (es : List Event)
    → s.deferred ≡ none
    → held (ends_of es) (run_events quirk s es).deferred ≡ true
unfolding run_events
run_events-held quirk s [] fresh = ap (held (ends_of [])) fresh ∙ nothing_held (ends_of [])
run_events-held quirk s (e ∷ older) fresh =
    (step-IsHeld quirk (run_events quirk s older) e older (run_events-held quirk s older fresh)).0

-- Whatever a device pushes and whatever masks load, in whatever order: where its segment count falls,
-- it falls to the count of a push that carried the whole list. No count waits at the start.
pub run_events-lowered :
    (quirk : Option ℕ) (s : Strip) (e : Event) (older : List Event)
    → s.deferred ≡ none
    → (leb
          (current_count quirk (run_events quirk s older))
          (current_count quirk (run_events quirk s (e ∷ older)))
        || holds_index (current_count quirk (run_events quirk s (e ∷ older))) (ends_of (e ∷ older)))
      ≡ true
unfolding run_events
run_events-lowered quirk s e older fresh =
    (step-IsHeld quirk (run_events quirk s older) e older (run_events-held quirk s older fresh)).1
