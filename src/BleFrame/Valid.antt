-- ===== src/BleFrame/Valid.antt =====
-- src/lib/ble-frame.ts: every packet that is built passes the one rule for received frames.
use Prim.Native.Nat.{bit_xor}
use io_broker_govee_smart.Base.{
  ℕ, zero, suc, ◌+◌, ◌-◌, ◌*◌, ◌/◌, ◌%◌, ◌≤◌, ◌<◌, arith, ◌≡◌, refl, ap, ◌==◌, if◌then◌else◌,
  if_cases, List, [], ◌∷◌, ◌++◌, All, All-append, some, length, length-append, length-take, take,
  drop, get_or, set,
}
use io_broker_govee_smart.BleFrame.{
  xor_from, xor_checksum, decode_ble_frame, pad_zeros, finish_packet, to_buffer, frame_lines,
  slice_packets, build_a_framed_packets, scene_data_packets, build_scene_packets, diy_data_packets,
  build_diy_packets,
}
use io_broker_govee_smart.BleFrame.Bytes.{AllBytes, xor-lt, to_buffer-AllBytes}

-- The receiver's rule takes the packet, and takes it whole.
abbrev pub IsFrame : List ℕ → Type 0
IsFrame packet = decode_ble_frame (some packet) ≡ some packet

xor_from-lt : (c : ℕ) (bytes : List ℕ) → c < 256 → AllBytes bytes → xor_from c bytes < 256
unfolding xor_from
xor_from-lt c [] p h = p
xor_from-lt c (b ∷ bs) p (q, h) = xor_from-lt (bit_xor c b) bs (xor-lt c b p q) h

module _ {ℓ} {A : Type ℓ} where
  take-append : (n : ℕ) (xs ys : List A) → length xs ≡ n → take n (xs ++ ys) ≡ xs
  take-append zero [] ys h = refl
  take-append zero (x ∷ xs) ys h = absurd (omega arith)
  take-append (suc n) [] ys h = absurd (omega arith)
  take-append (suc n) (x ∷ xs) ys h = ap (λ l. x ∷ l) (take-append n xs ys (omega arith))

  get_or-append : (n : ℕ) (xs : List A) (y d : A) → length xs ≡ n → get_or (xs ++ y ∷ []) n d ≡ y
  get_or-append zero [] y d h = refl
  get_or-append zero (x ∷ xs) y d h = absurd (omega arith)
  get_or-append (suc n) [] y d h = absurd (omega arith)
  get_or-append (suc n) (x ∷ xs) y d h = get_or-append n xs y d (omega arith)

pad_zeros_facts :
    (n : ℕ) (bytes : List ℕ)
    → AllBytes bytes
    → AllBytes (pad_zeros n bytes) × (length (pad_zeros n bytes) ≡ length bytes + n)
unfolding pad_zeros
pad_zeros_facts zero bytes h = (h, omega arith)
pad_zeros_facts (suc n) bytes h =
    let ih =
      pad_zeros_facts n (bytes ++ 0 ∷ []) (All-append _ bytes (0 ∷ []) h (omega arith, tt)) in
    (ih.0, omega (arith, ih.1, length-append bytes (0 ∷ [])))

-- What is padded and given its checksum is a frame.
pub finish_packet-IsFrame :
    (bytes : List ℕ)
    → AllBytes bytes
    → length bytes ≤ 19
    → IsFrame (to_buffer (finish_packet bytes))
unfolding finish_packet to_buffer decode_ble_frame xor_checksum
finish_packet-IsFrame bytes h n =
    let (all, len) = pad_zeros_facts (19 - length bytes) bytes h in
    let padded = pad_zeros (19 - length bytes) bytes in
    let c = xor_from 0 padded in
    let same =
      to_buffer-AllBytes (padded ++ c ∷ [])
        (All-append _ padded (c ∷ []) all (xor_from-lt 0 padded (omega arith) all, tt)) in
    let nineteen : length padded ≡ 19 = omega (arith, len) in
    let front = take-append 19 padded (c ∷ []) nineteen in
    let back = get_or-append 19 padded c 0 nineteen in
    let size : length (padded ++ c ∷ []) ≡ 20 = omega (arith, length-append padded (c ∷ []), len) in
    rw (same, size, front, back) (ground arith)

module _ {ℓ κ} {A : Type ℓ} (P : A → Type κ) where
  All-take : (n : ℕ) (xs : List A) → All P xs → All P (take n xs)
  All-take zero xs h = tt
  All-take (suc n) [] h = tt
  All-take (suc n) (x ∷ xs) (p, h) = (p, All-take n xs h)

  All-drop : (n : ℕ) (xs : List A) → All P xs → All P (drop n xs)
  All-drop zero xs h = h
  All-drop (suc n) [] h = tt
  All-drop (suc n) (x ∷ xs) (p, h) = All-drop n xs h

  pub All-set : (xs : List A) (i : ℕ) (v : A) → P v → All P xs → All P (set xs i v)
  All-set [] i v q h = tt
  All-set (x ∷ xs) zero v q (p, h) = (q, h)
  All-set (x ∷ xs) (suc i) v q (p, h) = (p, All-set xs i v q h)

slice_packets-IsFrame :
    (rounds : ℕ) (raw : List ℕ) → AllBytes raw → All IsFrame (slice_packets rounds raw)
unfolding slice_packets
slice_packets-IsFrame zero raw h = tt
slice_packets-IsFrame (suc rounds) [] h = tt
slice_packets-IsFrame (suc rounds) (b ∷ bs) h = (
  finish_packet-IsFrame (take 19 (b ∷ bs)) (All-take _ 19 (b ∷ bs) h)
      (omega (arith, length-take 19 (b ∷ bs))),
  slice_packets-IsFrame rounds (drop 19 (b ∷ bs)) (All-drop _ 19 (b ∷ bs) h),
)

-- A line is opened only at a multiple of 19, so the line numbers stay bytes as long as the data does
-- not pass 4000 bytes.
frame_lines_facts :
    (cont_prefix bytes raw : List ℕ) (lines marker : ℕ)
    → AllBytes cont_prefix
    → length cont_prefix ≤ 2
    → AllBytes bytes
    → AllBytes raw
    → 19 * lines < length raw
    → length raw + length bytes ≤ 4005 + 3 * lines
    → (let r = frame_lines cont_prefix bytes raw lines marker in AllBytes r.0 × (r.1 < 255))
unfolding frame_lines
frame_lines_facts pre [] raw lines marker p short bs r lo hi = (r, omega arith)
frame_lines_facts pre (b ∷ bytes) raw lines marker p short (q, bs) r lo hi =
    let full = length raw % 19 == 0 in
    let opened = raw ++ pre in
    let fresh = (lines + 1) ∷ b ∷ [] in
    let size = length-append raw pre in
    let size_opened = length-append opened fresh in
    let size_more = length-append raw (b ∷ []) in
    frame_lines_facts pre bytes (if full then opened ++ fresh else raw ++ b ∷ [])
      (if full then lines + 1 else lines) (if full then length opened else marker) p short bs
      (if_cases AllBytes full
        (λ e. All-append _ opened fresh (All-append _ raw pre r p) (omega arith, (q, tt)))
        (λ e. All-append _ raw (b ∷ []) r (q, tt)))
      (ground (arith, size, size_opened, size_more)) (ground (arith, size, size_opened, size_more))

build_a_framed_packets-IsFrame :
    (bytes header cont_prefix : List ℕ) (marker : ℕ)
    → AllBytes bytes
    → AllBytes header
    → AllBytes cont_prefix
    → length bytes ≤ 4000
    → 1 ≤ length header
    → length header ≤ 5
    → length cont_prefix ≤ 2
    → All IsFrame (build_a_framed_packets bytes header cont_prefix marker)
unfolding build_a_framed_packets
build_a_framed_packets-IsFrame bytes header pre marker bs hs ps n one h p =
    let r = frame_lines pre bytes header 0 marker in
    let f = frame_lines_facts pre bytes header 0 marker ps p bs hs (omega arith) (omega arith) in
    let marked = set (set r.0 r.2 0xff) 3 (r.1 + 1) in
    slice_packets-IsFrame (length marked) marked (
      All-set _ (set r.0 r.2 0xff) 3 (r.1 + 1) (omega (arith, f.1))
        (All-set _ r.0 r.2 0xff (omega arith) f.0))

scene_data_packets-IsFrame :
    (param : List ℕ) → AllBytes param → length param ≤ 4000 → All IsFrame (scene_data_packets param)
unfolding scene_data_packets
scene_data_packets-IsFrame [] h n = tt
scene_data_packets-IsFrame (b ∷ bs) h n =
    build_a_framed_packets-IsFrame (b ∷ bs) (0xa3 ∷ 0x00 ∷ 0x01 ∷ 0x00 ∷ 0x02 ∷ []) (0xa3 ∷ []) 1 h
      (ground arith) (ground arith) n (omega arith) (omega arith) (omega arith)

-- Each packet of a scene is a frame that the receiver's rule takes, for any scene code and for scene
-- data of at most 4000 bytes.
pub build_scene_packets-IsFrame :
    (scene_code : ℕ) (param : List ℕ)
    → AllBytes param
    → length param ≤ 4000
    → All IsFrame (build_scene_packets scene_code param)
unfolding build_scene_packets
build_scene_packets-IsFrame scene_code param h n =
    All-append IsFrame (scene_data_packets param) _ (scene_data_packets-IsFrame param h n) (
      finish_packet-IsFrame (0x33 ∷ 0x05 ∷ 0x04 ∷ scene_code % 256 ∷ scene_code / 256 % 256 ∷ [])
          (ground arith) (omega arith),
      tt,
    )

diy_data_packets-IsFrame :
    (param : List ℕ) → AllBytes param → length param ≤ 4000 → All IsFrame (diy_data_packets param)
unfolding diy_data_packets
diy_data_packets-IsFrame [] h n = tt
diy_data_packets-IsFrame (b ∷ bs) h n =
    build_a_framed_packets-IsFrame (b ∷ bs) (0xa1 ∷ 0x02 ∷ 0x00 ∷ 0x00 ∷ []) (0xa1 ∷ 0x02 ∷ []) 2 h
      (ground arith) (ground arith) n (omega arith) (omega arith) (omega arith)

-- Each packet of a DIY scene is a frame that the receiver's rule takes, for DIY data of at most 4000
-- bytes.
pub build_diy_packets-IsFrame :
    (param : List ℕ) → AllBytes param → length param ≤ 4000 → All IsFrame (build_diy_packets param)
unfolding build_diy_packets
build_diy_packets-IsFrame param h n =
    All-append IsFrame (diy_data_packets param) _ (diy_data_packets-IsFrame param h n)
      (finish_packet-IsFrame (0x33 ∷ 0x05 ∷ 0x0a ∷ []) (ground arith) (omega arith), tt)
