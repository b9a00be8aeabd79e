-- ===== src/SnapshotFrames/ColorPackets.antt =====
-- src/lib/device-manager/lookups.ts (segmentCountFromSnapshotFrames) on the packets that
-- buildSegmentColorPacket of src/lib/ble-frame.ts writes.
use io_broker_govee_smart.Base.{
  ℕ, zero, suc, ◌+◌, ◌/◌, ◌%◌, ◌^◌, ◌<◌, max, Bool, false, ◌&&◌, ◌||◌, List, [], ◌∷◌, ◌++◌, Option,
  some, if◌then◌else◌, arith, ◌≡◌, refl, ap, ◌∙◌, leb, ltb, ◌==◌, length, length-append, get_or,
  any, map,
}
use io_broker_govee_smart.BleFrame.{
  build_segment_bitmask, build_segment_color_packet, finish_packet, to_buffer, clamp_byte,
}
use io_broker_govee_smart.BleFrame.Bytes.{to_buffer-AllBytes}
use io_broker_govee_smart.BleFrame.Segments.{build_segment_bitmask_facts}
use io_broker_govee_smart.BleFrame.Mask.{build_segment_bitmask-bit}
use io_broker_govee_smart.SnapshotFrames.{
  mask_bit, scan_mask, is_other_frame, scan_frame, scan_group, count_found,
  segment_count_from_snapshot_frames,
}

-- The highest of the segments that the protocol addresses, plus 1; `count` where there is none
-- above.
unfoldable pub highest_of : ℕ → List ℕ → ℕ
highest_of count [] = count
highest_of count (s ∷ segments) =
    highest_of (if ltb s 56 then max count (s + 1) else count) segments

-- The loop of `scan_mask`, with the bits as a test.
scan_bits : (ℕ → Bool) → ℕ → ℕ → ℕ → ℕ
scan_bits p zero j count = count
scan_bits p (suc rounds) j count =
    scan_bits p rounds (j + 1) (if p j then max count (j + 1) else count)

scan_mask-bits :
    (p : ℕ → Bool) (b : List ℕ) (rounds j count : ℕ)
    → ((i : ℕ) → i < j + rounds → mask_bit b i ≡ (if p i then 1 else 0))
    → scan_mask rounds j b count ≡ scan_bits p rounds j count
unfolding scan_mask scan_bits
scan_mask-bits p b zero j count h = refl
scan_mask-bits p b (suc rounds) j count h =
    scan_mask-bits p b rounds (j + 1) (if mask_bit b j == 1 then max count (j + 1) else count)
      (λ i lt. h i (omega arith))
    ∙ ap (scan_bits p rounds (j + 1)) (ground (arith, h j (omega arith)))

scan_bits_none : (rounds j count : ℕ) → scan_bits (λ i. false) rounds j count ≡ count
unfolding scan_bits
scan_bits_none zero j count = refl
scan_bits_none (suc rounds) j count = scan_bits_none rounds (j + 1) count

scan_bits_or :
    (s : ℕ) (p : ℕ → Bool) (rounds j count : ℕ)
    → scan_bits (λ i. (s == i) || p i) rounds j count
      ≡ scan_bits p rounds j (if leb j s && ltb s (j + rounds) then max count (s + 1) else count)
unfolding scan_bits
scan_bits_or s p zero j count = ground arith
scan_bits_or s p (suc rounds) j count =
    scan_bits_or s p rounds (j + 1) (if (s == j) || p j then max count (j + 1) else count)
    ∙ ap (scan_bits p rounds (j + 1)) (ground arith)

scan_bits-any :
    (segments : List ℕ) (count : ℕ)
    → scan_bits (λ i. any (λ s. s == i) segments) 56 0 count ≡ highest_of count segments
unfolding highest_of
scan_bits-any [] count = scan_bits_none 56 0 count
scan_bits-any (s ∷ segments) count =
    scan_bits_or s (λ i. any (λ t. t == i) segments) 56 0 count
    ∙ ap (scan_bits (λ i. any (λ t. t == i) segments) 56 0) (ground arith)
    ∙ scan_bits-any segments (if ltb s 56 then max count (s + 1) else count)

get_or-append : (xs ys : List ℕ) (i : ℕ) → get_or (xs ++ ys) (length xs + i) 0 ≡ get_or ys i 0
get_or-append [] ys i = ap (λ k. get_or ys k 0) (omega arith)
get_or-append (x ∷ xs) ys i = ground (arith, get_or-append xs ys i)

get_or-prefix : (xs ys : List ℕ) (i : ℕ) → i < length xs → get_or (xs ++ ys) i 0 ≡ get_or xs i 0
get_or-prefix [] ys i lt = absurd (omega arith)
get_or-prefix (x ∷ xs) ys zero lt = refl
get_or-prefix (x ∷ xs) ys (suc i) lt = get_or-prefix xs ys i (omega arith)

to_bytes : List ℕ → List ℕ
to_bytes bytes = map (λ b. b % 256) bytes

to_bytes-append : (xs ys : List ℕ) → to_bytes (xs ++ ys) ≡ to_bytes xs ++ to_bytes ys
unfolding to_bytes
to_bytes-append [] ys = refl
to_bytes-append (x ∷ xs) ys = ap (λ zs. (x % 256) ∷ zs) (to_bytes-append xs ys)

-- A packet whose bytes are full is sent as it is, with its checksum.
color_head : ℕ → ℕ → ℕ → List ℕ
color_head r g b =
    0x33 ∷ 0x05 ∷ 0x15 ∷ 0x01 ∷ clamp_byte r ∷ clamp_byte g ∷ clamp_byte b ∷ 0 ∷ 0 ∷ 0 ∷ 0 ∷ 0 ∷ []

finish_packet_full :
    (bytes : List ℕ)
    → length bytes ≡ 19
    → (c : ℕ) × (to_buffer (finish_packet bytes) ≡ to_bytes (bytes ++ c ∷ []))
unfolding finish_packet to_buffer to_bytes
finish_packet_full bytes full = rw full (_, refl)

-- The bytes of a colour packet: the head, the mask and a checksum.
color_packet_bytes :
    (r g b : ℕ) (segments : List ℕ)
    → (c : ℕ) × (build_segment_color_packet r g b segments
        ≡ to_bytes (color_head r g b) ++ (build_segment_bitmask segments 7 ++ c ∷ []))
unfolding build_segment_color_packet color_head to_bytes
color_packet_bytes r g b segments =
    let mask = build_segment_bitmask segments 7 in
    let (bytes, seven) = build_segment_bitmask_facts segments 7 in
    let (c, same) = finish_packet_full (color_head r g b ++ mask) (omega (arith, seven)) in
    (
      c % 256,
      same
          ∙ to_bytes-append (color_head r g b) (mask ++ c ∷ [])
          ∙ ap (λ rest. to_bytes (color_head r g b) ++ rest)
              (to_bytes-append mask (c ∷ [])
                ∙ ap (λ m. m ++ (c % 256) ∷ []) (to_buffer-AllBytes mask bytes)),
    )

-- The segments that a colour packet names are those whose bits its mask has.
color_packet-bit :
    (r g b : ℕ) (segments : List ℕ) (j : ℕ)
    → j < 56
    → mask_bit (build_segment_color_packet r g b segments) j
      ≡ (if any (λ s. s == j) segments then 1 else 0)
unfolding color_head to_bytes
color_packet-bit r g b segments j lt =
    let mask = build_segment_bitmask segments 7 in
    let seven = (build_segment_bitmask_facts segments 7).1 in
    let (c, same) = color_packet_bytes r g b segments in
    let byte : get_or (build_segment_color_packet r g b segments) (12 + j / 8) 0
        ≡ get_or mask (j / 8) 0 =
      ap (λ bytes. get_or bytes (12 + j / 8) 0) same
      ∙ get_or-append (to_bytes (color_head r g b)) (mask ++ c ∷ []) (j / 8)
      ∙ get_or-prefix mask (c ∷ []) (j / 8) (omega (arith, seven)) in
    ap (λ k. k / 2 ^ (j % 8) % 2) byte ∙ build_segment_bitmask-bit segments 7 j (omega arith)

color_packet-counts :
    (r g b : ℕ) (segments : List ℕ)
    → is_other_frame (build_segment_color_packet r g b segments) ≡ false
unfolding color_head to_bytes
color_packet-counts r g b segments =
    let (c, same) = color_packet_bytes r g b segments in
    let seven = (build_segment_bitmask_facts segments 7).1 in
    ap is_other_frame same
    ∙ ground (arith, seven, length-append (build_segment_bitmask segments 7) (c ∷ []))

pub record ColorWrite : Type 0 where
  pub r : ℕ
  pub g : ℕ
  pub b : ℕ
  pub segments : List ℕ

abbrev pub packets_of : List ColorWrite → List (Option (List ℕ))
packets_of [] = []
packets_of (w ∷ ws) = some (build_segment_color_packet w.r w.g w.b w.segments) ∷ packets_of ws

-- The highest segment of all writes that the protocol addresses, plus 1.
unfoldable pub highest_of_all : ℕ → List ColorWrite → ℕ
unfolding highest_of
highest_of_all count [] = count
highest_of_all count (w ∷ ws) = highest_of_all (highest_of count w.segments) ws

scan_frame-color_packet :
    (count : ℕ) (w : ColorWrite)
    → scan_frame count (some (build_segment_color_packet w.r w.g w.b w.segments))
      ≡ highest_of count w.segments
scan_frame-color_packet count w = rw (color_packet-counts w.r w.g w.b w.segments) (
    scan_mask-bits (λ i. any (λ s. s == i) w.segments)
      (build_segment_color_packet w.r w.g w.b w.segments) 56 0 count
      (λ i lt. color_packet-bit w.r w.g w.b w.segments i (omega arith))
    ∙ scan_bits-any w.segments count)

scan_group-packets_of :
    (count : ℕ) (ws : List ColorWrite) → scan_group count (packets_of ws) ≡ highest_of_all count ws
unfolding scan_group highest_of_all
scan_group-packets_of count [] = refl
scan_group-packets_of count (w ∷ ws) =
    ap (λ k. scan_group k (packets_of ws)) (scan_frame-color_packet count w)
    ∙ scan_group-packets_of (highest_of count w.segments) ws

-- A snapshot that is a group of colour packets for segments gives back the highest segment written,
-- plus 1, of those below 56 that a packet can address, whatever the colours; `none` where there is
-- none.
pub segment_count-packets_of :
    (ws : List ColorWrite)
    → segment_count_from_snapshot_frames (some (some (some (packets_of ws) ∷ []) ∷ []))
      ≡ count_found (highest_of_all 0 ws)
unfolding segment_count_from_snapshot_frames
segment_count-packets_of ws = ap count_found (scan_group-packets_of 0 ws)
