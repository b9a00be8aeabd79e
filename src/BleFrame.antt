-- ===== src/BleFrame.antt =====
-- src/lib/ble-frame.ts: Govee's BLE frames. A packet is the list of its bytes: base64 (Node's
-- `Buffer`) stands outside, on both ends. A byte list that is built is cut to bytes at the end, as
-- `Buffer.from` does. JSON is parsed outside too.
pub mod Bytes
pub mod Valid
pub mod Segments
pub mod Mask
pub mod Speed
use Prim.Native.Nat.{bit_xor, bit_or}
use io_broker_govee_smart.Base.{
  ℕ, zero, suc, ◌+◌, ◌-◌, ◌*◌, ◌/◌, ◌%◌, ◌^◌, min, Bool, true, false, ◌&&◌, List, [], ◌∷◌, ◌++◌,
  map, Option, none, some, if◌then◌else◌, length, get_elem?, get_or, set, take, drop, replicate,
  find, ltb, leb, ◌==◌,
}

abbrev pub ble_frame_bytes : ℕ
ble_frame_bytes = 20

abbrev pub segment_color_bitmask_bytes : ℕ
segment_color_bitmask_bytes = 7

abbrev pub segment_brightness_bitmask_bytes : ℕ
segment_brightness_bitmask_bytes = 14

-- The loop of `xorChecksum`.
unfoldable pub xor_from : ℕ → List ℕ → ℕ
xor_from checksum [] = checksum
xor_from checksum (b ∷ bs) = xor_from (bit_xor checksum b) bs

unfoldable pub xor_checksum : List ℕ → ℕ
unfolding xor_from
xor_checksum bytes = xor_from 0 bytes

-- `none` for what is no text.
unfoldable pub decode_ble_frame : Option (List ℕ) → Option (List ℕ)
unfolding xor_checksum
decode_ble_frame none = none
decode_ble_frame (some bytes) =
    if length bytes == ble_frame_bytes && xor_checksum (take 19 bytes) == get_or bytes 19 0
    then some bytes
    else none

-- The loop `while (data.length < 19) data.push(0)`, with the rounds that are left.
unfoldable pub pad_zeros : ℕ → List ℕ → List ℕ
pad_zeros zero bytes = bytes
pad_zeros (suc rounds) bytes = pad_zeros rounds (bytes ++ 0 ∷ [])

unfoldable pub finish_packet : List ℕ → List ℕ
unfolding pad_zeros xor_checksum
finish_packet bytes =
    let padded = pad_zeros (19 - length bytes) bytes in padded ++ xor_checksum padded ∷ []

-- `Buffer.from(bytes)`
unfoldable pub to_buffer : List ℕ → List ℕ
to_buffer bytes = map (λ b. b % 256) bytes

-- The loop of `buildAFramedPackets`: the raw data, the number of continuation lines, and the index
-- of the last line's marker.
unfoldable pub frame_lines : List ℕ → List ℕ → List ℕ → ℕ → ℕ → List ℕ × ℕ × ℕ
frame_lines cont_prefix [] raw lines marker = (raw, lines, marker)
frame_lines cont_prefix (b ∷ bs) raw lines marker =
    let full = length raw % 19 == 0 in
    let opened = raw ++ cont_prefix in
    frame_lines cont_prefix bs (if full then opened ++ (lines + 1) ∷ b ∷ [] else raw ++ b ∷ [])
      (if full then lines + 1 else lines) (if full then length opened else marker)

-- The loop over the 19-byte slices, with the rounds that are left.
unfoldable pub slice_packets : ℕ → List ℕ → List (List ℕ)
slice_packets zero raw = []
slice_packets (suc rounds) [] = []
slice_packets (suc rounds) (b ∷ bs) =
    to_buffer (finish_packet (take 19 (b ∷ bs))) ∷ slice_packets rounds (drop 19 (b ∷ bs))

unfoldable pub build_a_framed_packets : List ℕ → List ℕ → List ℕ → ℕ → List (List ℕ)
unfolding frame_lines slice_packets
build_a_framed_packets param_bytes header cont_prefix init_marker =
    let (raw, lines, marker) = frame_lines cont_prefix param_bytes header 0 init_marker in
    let marked = set (set raw marker 0xff) 3 (lines + 1) in slice_packets (length marked) marked

-- An empty parameter text is an empty list.
unfoldable pub scene_data_packets : List ℕ → List (List ℕ)
unfolding build_a_framed_packets
scene_data_packets [] = []
scene_data_packets (b ∷ bs) =
    build_a_framed_packets (b ∷ bs) (0xa3 ∷ 0x00 ∷ 0x01 ∷ 0x00 ∷ 0x02 ∷ []) (0xa3 ∷ []) 1

unfoldable pub build_scene_packets : ℕ → List ℕ → List (List ℕ)
unfolding scene_data_packets finish_packet to_buffer
build_scene_packets scene_code scene_param =
    scene_data_packets scene_param
    ++ (to_buffer
          (finish_packet (0x33 ∷ 0x05 ∷ 0x04 ∷ scene_code % 256 ∷ scene_code / 256 % 256 ∷ []))
        ∷ [])

unfoldable pub diy_data_packets : List ℕ → List (List ℕ)
unfolding build_a_framed_packets
diy_data_packets [] = []
diy_data_packets (b ∷ bs) =
    build_a_framed_packets (b ∷ bs) (0xa1 ∷ 0x02 ∷ 0x00 ∷ 0x00 ∷ []) (0xa1 ∷ 0x02 ∷ []) 2

unfoldable pub build_diy_packets : List ℕ → List (List ℕ)
unfolding diy_data_packets finish_packet to_buffer
build_diy_packets scene_param =
    diy_data_packets scene_param ++ (to_buffer (finish_packet (0x33 ∷ 0x05 ∷ 0x0a ∷ [])) ∷ [])

unfoldable pub build_gradient_packet : Bool → List ℕ
unfolding finish_packet to_buffer
build_gradient_packet on =
    to_buffer (finish_packet (0x33 ∷ 0x14 ∷ (if on then 0x01 else 0x00) ∷ []))

-- The clamps, of whole numbers that are not negative.
unfoldable pub clamp_byte : ℕ → ℕ
clamp_byte v = min 255 v

unfoldable pub clamp_percent : ℕ → ℕ
clamp_percent v = min 100 v

unfoldable pub build_music_mode_packet : ℕ → Bool → ℕ → ℕ → ℕ → List ℕ
unfolding finish_packet to_buffer clamp_byte
build_music_mode_packet sub_mode include_rgb r g b =
    let rgb = if include_rgb then clamp_byte r ∷ clamp_byte g ∷ clamp_byte b ∷ [] else [] in
    to_buffer (finish_packet (0x33 ∷ 0x05 ∷ 0x01 ∷ sub_mode % 256 ∷ rgb))

-- A round of the loop of `buildSegmentBitmask`.
unfoldable pub mark_segment : ℕ → List ℕ → ℕ → List ℕ
mark_segment byte_count mask seg =
    if ltb (seg / 8) byte_count
    then set mask (seg / 8) (bit_or (get_or mask (seg / 8) 0) (2 ^ (seg % 8)))
    else mask

unfoldable pub mark_segments : ℕ → List ℕ → List ℕ → List ℕ
unfolding mark_segment
mark_segments byte_count mask [] = mask
mark_segments byte_count mask (s ∷ segments) =
    mark_segments byte_count (mark_segment byte_count mask s) segments

unfoldable pub build_segment_bitmask : List ℕ → ℕ → List ℕ
unfolding mark_segments
build_segment_bitmask segments byte_count =
    mark_segments byte_count (replicate byte_count 0) segments

unfoldable pub build_segment_color_packet : ℕ → ℕ → ℕ → List ℕ → List ℕ
unfolding finish_packet to_buffer clamp_byte build_segment_bitmask
build_segment_color_packet r g b segments = to_buffer (
    finish_packet (
      0x33
      ∷ 0x05
      ∷ 0x15
      ∷ 0x01
      ∷ clamp_byte r
      ∷ clamp_byte g
      ∷ clamp_byte b
      ∷ 0
      ∷ 0
      ∷ 0
      ∷ 0
      ∷ 0
      ∷ build_segment_bitmask segments segment_color_bitmask_bytes))

unfoldable pub build_segment_brightness_packet : ℕ → List ℕ → List ℕ
unfolding finish_packet to_buffer clamp_percent build_segment_bitmask
build_segment_brightness_packet brightness segments = to_buffer (
    finish_packet (
      0x33
      ∷ 0x05
      ∷ 0x15
      ∷ 0x02
      ∷ clamp_percent brightness
      ∷ build_segment_bitmask segments segment_brightness_bitmask_bytes))

-- An entry of the speed configuration; `move_in` may be missing.
pub record SpeedEntry : Type 0 where
  pub page : ℕ
  pub move_in : Option (List ℕ)

abbrev pub speed_of : Option SpeedEntry → ℕ → Option ℕ
speed_of none level = none
speed_of (some c) level = elim c.move_in [ none ↦ none | some speeds ↦ get_elem? speeds level ]

-- The new byte of a page, where the configuration has one and the page is long enough.
unfoldable pub write_speed : List ℕ → ℕ → ℕ → Option ℕ → List ℕ
write_speed bytes offset page_len none = bytes
write_speed bytes offset page_len (some speed) =
    let pos = offset + 1 + page_len - 5 in
    if ltb offset pos && ltb pos (offset + 1 + page_len) then set bytes pos speed else bytes

-- The loop over the pages, with the rounds that are left.
unfoldable pub speed_pages : List SpeedEntry → ℕ → ℕ → ℕ → ℕ → List ℕ → List ℕ
unfolding write_speed
speed_pages entries level zero page_idx offset bytes = bytes
speed_pages entries level (suc rounds) page_idx offset bytes =
    let page_len = get_or bytes offset 0 in
    let written =
      write_speed bytes offset page_len (speed_of (find (λ c. c.page == page_idx) entries) level) in
    let rest = speed_pages entries level rounds (page_idx + 1) (offset + 1 + page_len) written in
    if ltb offset (length bytes) && leb (offset + 1 + page_len) (length bytes) then rest else bytes

-- `none`: the configuration is empty or no JSON array.
unfoldable pub apply_scene_speed : List ℕ → ℕ → Option (List SpeedEntry) → List ℕ
unfolding speed_pages to_buffer
apply_scene_speed [] level config = []
apply_scene_speed (b ∷ bytes) level none = b ∷ bytes
apply_scene_speed (b ∷ bytes) level (some []) = b ∷ bytes
apply_scene_speed (b ∷ bytes) level (some (c ∷ entries)) =
    to_buffer (speed_pages (c ∷ entries) level b 0 1 (b ∷ bytes))
