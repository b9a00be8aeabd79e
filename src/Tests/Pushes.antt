-- ===== src/Tests/Pushes.antt =====
-- parseMqttSegmentData and segmentCountFromSnapshotFrames of src/lib/device-manager/lookups.ts at concrete inputs.
use io_broker_govee_smart.Base.{
  ℕ, ◌||◌, leb, [], ◌∷◌, List, Option, none, some, true, false, ◌≡◌, refl, length,
}
use io_broker_govee_smart.BleFrame.{finish_packet, build_segment_color_packet}
use io_broker_govee_smart.Text.{codes}
use io_broker_govee_smart.Device.{GoveeDevice}
use io_broker_govee_smart.SegmentList.{holds_index}
use io_broker_govee_smart.SegmentLearning.{
  Strip, Masks, current_count, process_mqtt_segment_packet, review_deferred_segment_shrink, adopted,
  persisted, tree_rebuilt,
}
use io_broker_govee_smart.SegmentLearning.Runs.{
  pushes, masks_load, run_events, ends_of, run_events-lowered,
}
use io_broker_govee_smart.SnapshotFrames.{count_found, segment_count_from_snapshot_frames}
use io_broker_govee_smart.SnapshotFrames.ColorPackets.{
  ColorWrite, packets_of, highest_of_all, segment_count-packets_of,
}
use io_broker_govee_smart.SegmentPush.{parse_mqtt_segment_data}
use io_broker_govee_smart.SegmentPush.Listed.{IsListed, parse_mqtt_segment_data-IsListed}

abbrev frame : List ℕ → Option (List ℕ)
unfolding finish_packet
frame bytes = some (finish_packet bytes)

-- Two segments and two empty slots, then filler that repeats the brightness of the second one.
abbrev first_packet : List ℕ
first_packet =
    170 ∷ 165 ∷ 1 ∷ 100 ∷ 255 ∷ 0 ∷ 0 ∷ 50 ∷ 0 ∷ 0 ∷ 9 ∷ 2 ∷ 50 ∷ 50 ∷ 50 ∷ 0 ∷ 0 ∷ 0 ∷ 0 ∷ []

abbrev report : List (Option (List ℕ))
report =
    frame (170 ∷ 5 ∷ 1 ∷ [])
    ∷ none
    ∷ frame first_packet
    ∷ frame first_packet
    ∷ some (170 ∷ 165 ∷ 2 ∷ [])
    ∷ frame (170 ∷ 17 ∷ [])
    ∷ []

two_segments : length (parse_mqtt_segment_data report).segments ≡ 2
unfolding parse_mqtt_segment_data frame
two_segments = refl

whole_list : (parse_mqtt_segment_data report).complete ≡ true
unfolding parse_mqtt_segment_data frame
whole_list = refl

guessed_trail : (parse_mqtt_segment_data report).trail_guess ≡ true
unfolding parse_mqtt_segment_data frame
guessed_trail = refl

-- A segment frame that stands alone proves nothing about the end.
lone_frame : (parse_mqtt_segment_data (frame first_packet ∷ [])).complete ≡ false
unfolding parse_mqtt_segment_data frame
lone_frame = refl

abbrev three_slots : List ℕ
three_slots = 170 ∷ 165 ∷ 1 ∷ 40 ∷ 1 ∷ 2 ∷ 3 ∷ 40 ∷ 1 ∷ 2 ∷ 3 ∷ 40 ∷ 1 ∷ 2 ∷ 3 ∷ []

abbrev three_more : List ℕ
three_more = 170 ∷ 165 ∷ 2 ∷ 40 ∷ 1 ∷ 2 ∷ 3 ∷ 40 ∷ 1 ∷ 2 ∷ 3 ∷ 146 ∷ 1 ∷ 2 ∷ 3 ∷ []

five_of_three :
    length (parse_mqtt_segment_data (frame three_more ∷ frame three_slots ∷ [])).segments ≡ 5
unfolding parse_mqtt_segment_data frame
five_of_three = refl

parse_mqtt_segment_data-IsListed_example : IsListed (parse_mqtt_segment_data report)
parse_mqtt_segment_data-IsListed_example = parse_mqtt_segment_data-IsListed report

abbrev writes : List ColorWrite
writes =
    (record { r = 255; g = 0; b = 9; segments = 3 ∷ 0 ∷ [] })
    ∷ (record { r = 0; g = 0; b = 0; segments = 8 ∷ 60 ∷ 1 ∷ [] })
    ∷ []

nine_segments :
    segment_count_from_snapshot_frames (some (some (some (packets_of writes) ∷ []) ∷ [])) ≡ some 9
unfolding segment_count_from_snapshot_frames build_segment_color_packet
nine_segments = refl

no_packets : segment_count_from_snapshot_frames (some (none ∷ some (none ∷ []) ∷ [])) ≡ none
unfolding segment_count_from_snapshot_frames
no_packets = refl

segment_count-packets_of_example :
    segment_count_from_snapshot_frames (some (some (some (packets_of writes) ∷ []) ∷ []))
    ≡ count_found (highest_of_all 0 writes)
segment_count-packets_of_example = segment_count-packets_of writes

-- A light for which the cloud declares 15 segments.
abbrev light : GoveeDevice
light = record {
  sku = codes "H6076";
  device_id = codes "aabb";
  is_light = true;
  lan_ip = none;
  iot_topic = none;
  cloud = true;
  online = true;
  color_rgb = none;
  capabilities =
      some (record {
        type = codes "devices.capabilities.segment_color_setting";
        instance_name = codes "segmentedColorRgb";
        segment_maxima = some 14 ∷ [];
      })
      ∷ [];
  scenes = [];
  diy_scenes = [];
  snapshots = [];
  scene_library = [];
  diy_library = [];
  snapshot_ble_cmds = [];
  scene_speed = none;
  segment_count = none;
  manual_mode = false;
  manual_segments = [];
  group_members = none;
}

abbrev unlearned : Strip
unlearned = record { device = light; origin = none; masks = none; deferred = none }

abbrev two_masks : Masks
two_masks = some (
    some (some (packets_of (record { r = 1; g = 2; b = 3; segments = 0 ∷ 1 ∷ [] } ∷ [])) ∷ []) ∷ [])

-- The count of a push that rests on a guess waits for the masks.
waits_for_masks : (process_mqtt_segment_packet none unlearned report).0.deferred ≡ some 2
unfolding process_mqtt_segment_packet frame
waits_for_masks = refl

falls_with_masks :
    current_count none (run_events none unlearned (masks_load two_masks ∷ pushes report ∷ [])) ≡ 2
unfolding run_events frame build_segment_color_packet
falls_with_masks = refl

-- The review of a count that waited does not ask for the quirk of the model: it says and stores a
-- count of 2, and has the tree built again, although the tree keeps its 10 segments.
quirk_unasked :
    (review_deferred_segment_shrink
      (some 10)
      (record (run_events (some 10) unlearned (pushes report ∷ [])) { masks = two_masks })).1
    ≡ adopted false 2 10 ∷ persisted ∷ tree_rebuilt ∷ []
unfolding review_deferred_segment_shrink run_events frame build_segment_color_packet
quirk_unasked = refl

run_events-lowered_example :
    (leb
        (current_count none (run_events none unlearned (pushes report ∷ [])))
        (current_count none (run_events none unlearned (masks_load two_masks ∷ pushes report ∷ [])))
      || holds_index
          (current_count none
            (run_events none unlearned (masks_load two_masks ∷ pushes report ∷ [])))
          (ends_of (masks_load two_masks ∷ pushes report ∷ [])))
    ≡ true
run_events-lowered_example =
    run_events-lowered none unlearned (masks_load two_masks) (pushes report ∷ []) refl
