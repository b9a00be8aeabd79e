-- ===== src/Tests/Frames.antt =====
-- src/lib/ble-frame.ts: packets that are built for real inputs.
use io_broker_govee_smart.Base.{
  none, Option, refl, length, some, ℕ, true, List, [], ◌∷◌, arith, ◌≡◌, All, any, ◌==◌,
  if◌then◌else◌, replicate,
}
use io_broker_govee_smart.ApplianceFrames.{
  Appliance, h7127_purifier, work_mode, decode_appliance_frames,
}
use io_broker_govee_smart.ApplianceFrames.Declared.{IsDeclared, decode_appliance_frames-IsDeclared}
use io_broker_govee_smart.BleFrame.{
  to_buffer, finish_packet, decode_ble_frame, SpeedEntry, speed_pages, build_scene_packets,
  build_diy_packets, build_gradient_packet, build_music_mode_packet, build_segment_bitmask,
  build_segment_color_packet, build_segment_brightness_packet,
}
use io_broker_govee_smart.BleFrame.Valid.{
  IsFrame, build_scene_packets-IsFrame, build_diy_packets-IsFrame,
}
use io_broker_govee_smart.BleFrame.Segments.{segment_packets-IsFrame, mode_packets-IsFrame}
use io_broker_govee_smart.BleFrame.Speed.{page_offsets, speed_pages-page_offsets}
use io_broker_govee_smart.BleFrame.Mask.{segment_bit, build_segment_bitmask-bit}

abbrev scene_bytes : List ℕ
scene_bytes = replicate 40 18

build_scene_packets-IsFrame_example : All IsFrame (build_scene_packets 2163 scene_bytes)
build_scene_packets-IsFrame_example =
    build_scene_packets-IsFrame 2163 scene_bytes (ground arith) (omega arith)

diy_frames : All IsFrame (build_diy_packets scene_bytes)
diy_frames = build_diy_packets-IsFrame scene_bytes (ground arith) (omega arith)

segment_frames :
    IsFrame (build_segment_color_packet 300 0 12 (0 ∷ 9 ∷ []))
    × IsFrame (build_segment_brightness_packet 50 (0 ∷ 9 ∷ []))
segment_frames = segment_packets-IsFrame 300 0 12 50 (0 ∷ 9 ∷ [])

build_segment_bitmask-bit_example :
    segment_bit (build_segment_bitmask (0 ∷ 9 ∷ []) 7) 9
    ≡ (if any (λ s. s == 9) (0 ∷ 9 ∷ []) then 1 else 0)
build_segment_bitmask-bit_example = build_segment_bitmask-bit (0 ∷ 9 ∷ []) 7 9 (omega arith)

mode_frames :
    IsFrame (build_gradient_packet true) × IsFrame (build_music_mode_packet 3 true 1 2 300)
mode_frames = mode_packets-IsFrame true true 3 1 2 300

abbrev two_pages : List ℕ
two_pages = 2 ∷ 6 ∷ 1 ∷ 2 ∷ 3 ∷ 4 ∷ 5 ∷ 6 ∷ 5 ∷ 1 ∷ 2 ∷ 3 ∷ 4 ∷ 5 ∷ []

abbrev fast_page : List SpeedEntry
fast_page = record { page = 0; move_in = some (10 ∷ 20 ∷ 30 ∷ []) } ∷ []

two_pages_faster :
    speed_pages fast_page 2 2 0 1 two_pages
    ≡ 2 ∷ 6 ∷ 1 ∷ 30 ∷ 3 ∷ 4 ∷ 5 ∷ 6 ∷ 5 ∷ 1 ∷ 2 ∷ 3 ∷ 4 ∷ 5 ∷ []
unfolding speed_pages
two_pages_faster = refl

speed_pages-page_offsets_example :
    (length (speed_pages fast_page 2 2 0 1 two_pages) ≡ length two_pages)
    × (page_offsets 2 1 (speed_pages fast_page 2 2 0 1 two_pages) ≡ page_offsets 2 1 two_pages)
speed_pages-page_offsets_example = speed_pages-page_offsets fast_page 2 2 0 1 two_pages

abbrev purifier : Appliance
purifier = record {
  work_modes = some (record {
    modes = record { name = "gearMode"; value = some 1 } ∷ [];
    levels = record { name = "gearMode"; options = some (some 1 ∷ some 2 ∷ some 3 ∷ []) } ∷ [];
  });
  has_filter = true;
}

-- The mode, its level, a frame with a broken checksum, and no frame at all.
abbrev pushed : List (Option (List ℕ))
pushed =
    some (to_buffer (finish_packet (0xaa ∷ 0x05 ∷ 0x00 ∷ 1 ∷ [])))
    ∷ some (to_buffer (finish_packet (0xaa ∷ 0x05 ∷ 0x01 ∷ 3 ∷ [])))
    ∷ some (replicate 20 0xaa)
    ∷ none
    ∷ []

pushed_read :
    decode_appliance_frames purifier (some pushed) (some h7127_purifier) ≡ work_mode 1 3 ∷ []
unfolding decode_appliance_frames to_buffer finish_packet decode_ble_frame
pushed_read = refl

decode_appliance_frames-IsDeclared_example :
    All (IsDeclared purifier) (decode_appliance_frames purifier (some pushed) (some h7127_purifier))
decode_appliance_frames-IsDeclared_example =
    decode_appliance_frames-IsDeclared purifier (some pushed) (some h7127_purifier)
