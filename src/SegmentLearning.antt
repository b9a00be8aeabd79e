-- ===== src/SegmentLearning.antt =====
-- src/lib/device-manager.ts (processMqttSegmentPacket, mayLowerSegmentCount,
-- reviewDeferredSegmentShrink, adoptSegmentCount): how the segment count of one device follows what
-- it pushes. The first argument of the handlers is the `segmentCount` quirk of its model.
pub mod Lowered
pub mod Runs
use io_broker_govee_smart.Base.{
  ℕ, suc, ◌+◌, max, Bool, true, false, not, ◌&&◌, ◌||◌, List, [], ◌∷◌, ◌++◌, Option, none, some,
  if◌then◌else◌, ltb, ◌==◌, is_some, keep,
}
use io_broker_govee_smart.SegmentList.{holds_index}
use io_broker_govee_smart.SegmentWizard.Restore.{segment_count_max}
use io_broker_govee_smart.Device.{GoveeDevice}
use io_broker_govee_smart.Device.SegmentCount.{plausible_segment_count, resolve_segment_count}
use io_broker_govee_smart.SegmentPush.{MqttSegmentData, ParsedMqttSegments, parse_mqtt_segment_data}
use io_broker_govee_smart.SnapshotFrames.{segment_count_from_snapshot_frames}

pub data CountOrigin : Type 0 where
  by_push by_wizard : CountOrigin

abbrev pub Masks : Type 0
Masks = Option (List (Option (List (Option (List (Option (List ℕ)))))))

-- A device with its `snapshotBleCmds` as they are stored, and its entry of `deferredSegmentShrink`.
pub record Strip : Type 0 where
  pub device : GoveeDevice
  pub origin : Option CountOrigin
  pub masks : Masks
  pub deferred : Option ℕ

pub data Action : Type 0 where
  reports_learned persisted tree_rebuilt : Action
  too_many : ℕ → Action
  adopted : Bool → ℕ → ℕ → Action
  updated : List MqttSegmentData → Action

abbrev pub current_count : Option ℕ → Strip → ℕ
current_count quirk s = (resolve_segment_count quirk s.device).0

abbrev pub with_count : Strip → ℕ → Strip
with_count s n = record s {
  device = record s.device { segment_count = some n };
  origin = some by_push;
}

-- `grown` says which word the log line has.
unfoldable pub adopt_segment_count : Strip → ℕ → Bool → ℕ → Strip × List Action
adopt_segment_count s count grown was =
    (with_count s count, adopted grown count was ∷ persisted ∷ tree_rebuilt ∷ [])

abbrev pub is_count : ℕ → Option ℕ → Bool
is_count n none = false
is_count n (some m) = m == n

abbrev pub judge : Strip → ℕ → Option ℕ → Strip × Bool
judge s seen none = (record s { deferred = some seen }, false)
judge s seen (some reference) = (s, reference == seen)

unfoldable pub may_lower_segment_count : Strip → ℕ → Bool → Bool → Strip × Bool
unfolding segment_count_from_snapshot_frames
may_lower_segment_count s seen complete trail_guess =
    if not complete
    then (s, false)
    else if not trail_guess
    then (s, true)
    else judge s seen (segment_count_from_snapshot_frames s.masks)

-- `segData.reduce((m, s) => Math.max(m, s.index), -1) + 1`, from the count so far
abbrev pub count_seen : ℕ → List MqttSegmentData → ℕ
count_seen count [] = count
count_seen count (s ∷ segments) = count_seen (max count (s.index + 1)) segments

abbrev pub is_cut : List ℕ → Bool
is_cut [] = false
is_cut (i ∷ is) = true

abbrev pub is_empty : List MqttSegmentData → Bool
is_empty [] = true
is_empty (s ∷ segments) = false

abbrev pub shown_segments : GoveeDevice → List MqttSegmentData → List MqttSegmentData
shown_segments device segments =
    if device.manual_mode && is_cut device.manual_segments
    then keep (λ s. holds_index s.index device.manual_segments) segments
    else segments

abbrev pub update_of : List MqttSegmentData → List Action
update_of [] = []
update_of (s ∷ segments) = updated (s ∷ segments) ∷ []

-- The end of the handler, where no count is adopted.
unfoldable pub confirm_count : Strip → Bool → ℕ → ℕ → List MqttSegmentData → Strip × List Action
confirm_count s locked seen current segments =
    let updates = update_of (shown_segments s.device segments) in
    if not locked && ((seen == current) && not (is_count seen s.device.segment_count))
    then (with_count s seen, persisted ∷ updates)
    else (s, updates)

-- What follows once it is judged whether the count may fall.
abbrev pub finish_push :
    Option ℕ → Strip → List MqttSegmentData → ℕ → Strip × Bool → Strip × List Action
finish_push quirk s segments seen (judged, lower) =
    let locked = is_some (plausible_segment_count quirk) in
    let current = current_count quirk s in
    let grow = ltb current seen in
    if ltb segment_count_max seen
    then (s, too_many seen ∷ [])
    else if not locked && (grow || lower)
    then adopt_segment_count judged seen grow current
    else confirm_count judged locked seen current segments

unfoldable pub process_segments : Option ℕ → Strip → ParsedMqttSegments → ℕ → Strip × List Action
unfolding plausible_segment_count resolve_segment_count may_lower_segment_count adopt_segment_count
    confirm_count
process_segments quirk s p seen = finish_push quirk s p.segments seen (
    if ltb seen (current_count quirk s)
    then may_lower_segment_count s seen p.complete p.trail_guess
    else (s, false))

abbrev pub after_reports : Strip × List Action → Strip × List Action
after_reports (s, acts) = (s, reports_learned ∷ acts)

abbrev pub process_parsed : Option ℕ → Strip → ParsedMqttSegments → Strip × List Action
process_parsed quirk s p =
    if is_empty p.segments
    then (s, [])
    else after_reports (process_segments quirk s p (count_seen 0 p.segments))

unfoldable pub process_mqtt_segment_packet :
    Option ℕ → Strip → List (Option (List ℕ)) → Strip × List Action
unfolding parse_mqtt_segment_data process_segments
process_mqtt_segment_packet quirk s op_command =
    process_parsed quirk s (parse_mqtt_segment_data op_command)

abbrev pub review : Option ℕ → Strip → Option ℕ → Strip × List Action
review quirk s none = (s, [])
review quirk s (some seen) =
    let next = record s { deferred = none } in
    let current = current_count quirk s in
    if ltb seen current && is_count seen (segment_count_from_snapshot_frames s.masks)
    then adopt_segment_count next seen false current
    else (next, [])

unfoldable pub review_deferred_segment_shrink : Option ℕ → Strip → Strip × List Action
unfolding resolve_segment_count segment_count_from_snapshot_frames adopt_segment_count
review_deferred_segment_shrink quirk s = review quirk s s.deferred
