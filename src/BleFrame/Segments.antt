-- ===== src/BleFrame/Segments.antt =====
-- src/lib/ble-frame.ts: the packets of segments and modes are valid.
use Prim.Native.Nat.{bit_or}
use io_broker_govee_smart.Base.{
  ℕ, zero, suc, ◌/◌, ◌%◌, ◌^◌, ◌<◌, min, Bool, arith, ◌≡◌, refl, ◌∙◌, ltb, if◌then◌else◌, if_cases,
  List, [], ◌∷◌, ◌++◌, All-append, length, length-set, length-replicate, get_or, replicate,
}
use io_broker_govee_smart.BleFrame.{
  mark_segment, mark_segments, build_gradient_packet, clamp_byte, clamp_percent,
  build_music_mode_packet, build_segment_bitmask, build_segment_color_packet,
  build_segment_brightness_packet,
}
use io_broker_govee_smart.BleFrame.Bytes.{or-lt, AllBytes}
use io_broker_govee_smart.BleFrame.Valid.{IsFrame, finish_packet-IsFrame, All-set}

pub get_or-lt : (m : List ℕ) (i : ℕ) → AllBytes m → get_or m i 0 < 256
get_or-lt [] i h = omega arith
get_or-lt (b ∷ m) zero (p, h) = p
get_or-lt (b ∷ m) (suc i) (p, h) = get_or-lt m i h

pub mark_segments_facts :
    (byte_count : ℕ) (mask segments : List ℕ)
    → AllBytes mask
    → AllBytes (mark_segments byte_count mask segments)
      × (length (mark_segments byte_count mask segments) ≡ length mask)
unfolding mark_segments mark_segment
mark_segments_facts n mask [] h = (h, refl)
mark_segments_facts n mask (s ∷ segments) h =
    let byte = bit_or (get_or mask (s / 8) 0) (2 ^ (s % 8)) in
    let lt = or-lt (get_or mask (s / 8) 0) (s % 8) (get_or-lt mask (s / 8) h) (omega arith) in
    let (ih, size) =
      mark_segments_facts n (mark_segment n mask s) segments
        (if_cases AllBytes (ltb (s / 8) n) (λ e. All-set _ mask (s / 8) byte lt h) (λ e. h)) in
    (
      ih,
      size
          ∙ if_cases (λ (m : List ℕ). length m ≡ length mask) (ltb (s / 8) n)
              (λ e. length-set mask (s / 8) byte) (λ e. refl),
    )

pub replicate-AllBytes : (n : ℕ) → AllBytes (replicate n 0)
replicate-AllBytes zero = tt
replicate-AllBytes (suc n) = (omega arith, replicate-AllBytes n)

-- A bitmask has the bytes asked for, whatever the segments.
pub build_segment_bitmask_facts :
    (segments : List ℕ) (byte_count : ℕ)
    → AllBytes (build_segment_bitmask segments byte_count)
      × (length (build_segment_bitmask segments byte_count) ≡ byte_count)
unfolding build_segment_bitmask
build_segment_bitmask_facts segments n =
    let f = mark_segments_facts n (replicate n 0) segments (replicate-AllBytes n) in
    (f.0, f.1 ∙ length-replicate n 0)

-- The packets for a segment's colour and for its brightness are frames for any colour, brightness
-- and list of segments, those of no device included.
pub segment_packets-IsFrame :
    (r g b brightness : ℕ) (segments : List ℕ)
    → IsFrame (build_segment_color_packet r g b segments)
      × IsFrame (build_segment_brightness_packet brightness segments)
unfolding build_segment_color_packet build_segment_brightness_packet clamp_byte clamp_percent
segment_packets-IsFrame r g b brightness segments =
    let (colors, seven) = build_segment_bitmask_facts segments 7 in
    let (levels, fourteen) = build_segment_bitmask_facts segments 14 in
    let color_head : List ℕ =
      0x33 ∷ 0x05 ∷ 0x15 ∷ 0x01 ∷ min 255 r ∷ min 255 g ∷ min 255 b ∷ 0 ∷ 0 ∷ 0 ∷ 0 ∷ 0 ∷ [] in
    let level_head : List ℕ = 0x33 ∷ 0x05 ∷ 0x15 ∷ 0x02 ∷ min 100 brightness ∷ [] in
    (
      finish_packet-IsFrame (color_head ++ build_segment_bitmask segments 7)
          (All-append _ color_head _ (ground arith) colors) (omega (arith, seven)),
      finish_packet-IsFrame (level_head ++ build_segment_bitmask segments 14)
          (All-append _ level_head _ (ground arith) levels) (omega (arith, fourteen)),
    )

-- The packets of the gradient switch and of the music mode are frames for any mode and colour.
pub mode_packets-IsFrame :
    (on include_rgb : Bool) (sub_mode r g b : ℕ)
    → IsFrame (build_gradient_packet on)
      × IsFrame (build_music_mode_packet sub_mode include_rgb r g b)
unfolding build_gradient_packet build_music_mode_packet clamp_byte
mode_packets-IsFrame on include_rgb sub_mode r g b =
    let rgb : List ℕ = min 255 r ∷ min 255 g ∷ min 255 b ∷ [] in
    (
      finish_packet-IsFrame (0x33 ∷ 0x14 ∷ (if on then 0x01 else 0x00) ∷ []) (ground arith)
          (omega arith),
      finish_packet-IsFrame
          (0x33 ∷ 0x05 ∷ 0x01 ∷ sub_mode % 256 ∷ (if include_rgb then rgb else []))
          (All-append _ (0x33 ∷ 0x05 ∷ 0x01 ∷ sub_mode % 256 ∷ []) _ (ground arith)
            (if_cases AllBytes include_rgb (λ e. ground arith) (λ e. tt)))
          (ground arith),
    )
