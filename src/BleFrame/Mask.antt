-- ===== src/BleFrame/Mask.antt =====
-- src/lib/ble-frame.ts: what the bits of a segment bitmask say.
use Prim.Native.Nat.{bit_or}
use io_broker_govee_smart.Base.{
  ℕ, zero, suc, ◌*◌, ◌/◌, ◌%◌, ◌^◌, ◌<◌, false, Bool-cases, inl, inr, ==_iff, arith, ◌≡◌, refl, ◌∙◌,
  ltb, ◌==◌, if◌then◌else◌, if_cases, List, [], ◌∷◌, length, length-replicate, get_or, set,
  replicate, any,
}
use io_broker_govee_smart.BleFrame.{mark_segment, mark_segments, build_segment_bitmask}
use io_broker_govee_smart.BleFrame.Bytes.{AllBytes, or_bit}
use io_broker_govee_smart.BleFrame.Segments.{mark_segments_facts, replicate-AllBytes, get_or-lt}

-- The bit of a segment, as the device reads it.
abbrev pub segment_bit : List ℕ → ℕ → ℕ
segment_bit mask seg = get_or mask (seg / 8) 0 / 2 ^ (seg % 8) % 2

get_or-set :
    (m : List ℕ) (i j v : ℕ)
    → i < length m
    → get_or (set m i v) j 0 ≡ (if i == j then v else get_or m j 0)
get_or-set [] i j v h = absurd (omega arith)
get_or-set (x ∷ m) zero zero v h = refl
get_or-set (x ∷ m) zero (suc j) v h = ground arith
get_or-set (x ∷ m) (suc i) zero v h = ground arith
get_or-set (x ∷ m) (suc i) (suc j) v h = ground (arith, get_or-set m i j v (omega arith))

same_eighth : (s j : ℕ) → s / 8 ≡ j / 8 → (s == j) ≡ (s % 8 == j % 8)
same_eighth s j h = ground arith

segment_bit-set :
    (mask : List ℕ) (s j : ℕ)
    → AllBytes mask
    → s / 8 < length mask
    → segment_bit (set mask (s / 8) (bit_or (get_or mask (s / 8) 0) (2 ^ (s % 8)))) j
      ≡ (if s == j then 1 else segment_bit mask j)
segment_bit-set mask s j h lt =
    let byte = bit_or (get_or mask (s / 8) 0) (2 ^ (s % 8)) in
    let written = get_or-set mask (s / 8) (j / 8) byte lt in
    elim (Bool-cases (s / 8 == j / 8)) [
      | inl e ↦
          let same = (==_iff (s / 8) (j / 8)).0 e in
          let bit =
            or_bit (get_or mask (s / 8) 0) (s % 8) (j % 8) (get_or-lt mask (s / 8) h) (omega arith)
              (omega arith) in
          rw (written, e, bit, same_eighth s j same, same) refl
      | inr e ↦ let other : (s == j) ≡ false = ground arith in rw (written, e, other) refl
    ]

segment_bit-mark_segment :
    (n : ℕ) (mask : List ℕ) (s j : ℕ)
    → AllBytes mask
    → length mask ≡ n
    → j < 8 * n
    → segment_bit (mark_segment n mask s) j ≡ (if s == j then 1 else segment_bit mask j)
unfolding mark_segment
segment_bit-mark_segment n mask s j h size lt =
    if_cases (λ (m : List ℕ). segment_bit m j ≡ (if s == j then 1 else segment_bit mask j))
      (ltb (s / 8) n) (λ e. segment_bit-set mask s j h (ground arith))
      λ e. let other : (s == j) ≡ false = ground arith in rw other refl

segment_bit-mark_segments :
    (n : ℕ) (mask segments : List ℕ) (j : ℕ)
    → AllBytes mask
    → length mask ≡ n
    → j < 8 * n
    → segment_bit (mark_segments n mask segments) j
      ≡ (if any (λ s. s == j) segments then 1 else segment_bit mask j)
unfolding mark_segments
segment_bit-mark_segments n mask [] j h size lt = refl
segment_bit-mark_segments n mask (s ∷ segments) j h size lt =
    let (bytes, same) = mark_segments_facts n mask (s ∷ []) h in
    let ih =
      segment_bit-mark_segments n (mark_segment n mask s) segments j bytes (same ∙ size) lt in
    let first = segment_bit-mark_segment n mask s j h size lt in ih ∙ ground arith

get_or-replicate : (n i : ℕ) → get_or (replicate n 0) i 0 ≡ zero
get_or-replicate zero i = refl
get_or-replicate (suc n) zero = refl
get_or-replicate (suc n) (suc i) = get_or-replicate n i

zero_bit : (k : ℕ) → 0 / 2 ^ k % 2 ≡ 0
zero_bit k = omega arith

-- A bit is set in the mask exactly when its segment is in the list, for each segment that the bytes
-- reach.
pub build_segment_bitmask-bit :
    (segments : List ℕ) (byte_count j : ℕ)
    → j < 8 * byte_count
    → segment_bit (build_segment_bitmask segments byte_count) j
      ≡ (if any (λ s. s == j) segments then 1 else 0)
unfolding build_segment_bitmask
build_segment_bitmask-bit segments n j lt =
    segment_bit-mark_segments n (replicate n 0) segments j (replicate-AllBytes n)
      (length-replicate n 0) lt
    ∙ rw (get_or-replicate n (j / 8), zero_bit (j % 8)) refl
