-- ===== src/SnapshotFrames.antt =====
-- src/lib/device-manager/lookups.ts (segmentCountFromSnapshotFrames): the segment count that the
-- snapshots of the app address. A level of the input is `none` where the source finds no array, or
-- no text; a text is the bytes that it stands for in base64.
pub mod ColorPackets
use io_broker_govee_smart.Base.{
  ℕ, zero, suc, ◌+◌, ◌*◌, ◌/◌, ◌%◌, ◌^◌, max, Bool, not, ◌||◌, List, [], ◌∷◌, Option, none, some,
  if◌then◌else◌, ◌==◌, length, get_or,
}

-- `(b[12 + i] >> bit) & 1`, where `j` is `i * 8 + bit`
abbrev pub mask_bit : List ℕ → ℕ → ℕ
mask_bit b j = get_or b (12 + j / 8) 0 / 2 ^ (j % 8) % 2

-- The two loops over the bits of a mask, with the bits that are left. A count is `highest + 1`.
unfoldable pub scan_mask : ℕ → ℕ → List ℕ → ℕ → ℕ
scan_mask zero j b count = count
scan_mask (suc rounds) j b count =
    scan_mask rounds (j + 1) b (if mask_bit b j == 1 then max count (j + 1) else count)

-- Whether the frame is skipped.
abbrev pub is_other_frame : List ℕ → Bool
is_other_frame b =
    not (length b == 20)
    || (not (get_or b 0 0 == 0x33)
        || (not (get_or b 1 0 == 0x05)
            || (not (get_or b 2 0 == 0x15) || not (get_or b 3 0 == 0x01))))

abbrev pub scan_frame : ℕ → Option (List ℕ) → ℕ
scan_frame count none = count
scan_frame count (some b) = if is_other_frame b then count else scan_mask (7 * 8) 0 b count

unfoldable pub scan_group : ℕ → List (Option (List ℕ)) → ℕ
unfolding scan_mask
scan_group count [] = count
scan_group count (f ∷ fs) = scan_group (scan_frame count f) fs

abbrev pub scan_option {ℓ} : {A : Type ℓ} → (ℕ → List A → ℕ) → ℕ → Option (List A) → ℕ
scan_option scan count none = count
scan_option scan count (some xs) = scan count xs

unfoldable pub scan_groups : ℕ → List (Option (List (Option (List ℕ)))) → ℕ
unfolding scan_group
scan_groups count [] = count
scan_groups count (g ∷ gs) = scan_groups (scan_option scan_group count g) gs

unfoldable pub scan_snapshots : ℕ → List (Option (List (Option (List (Option (List ℕ)))))) → ℕ
unfolding scan_groups
scan_snapshots count [] = count
scan_snapshots count (s ∷ ss) = scan_snapshots (scan_option scan_groups count s) ss

abbrev pub count_found : ℕ → Option ℕ
count_found zero = none
count_found (suc n) = some (suc n)

unfoldable pub segment_count_from_snapshot_frames :
    Option (List (Option (List (Option (List (Option (List ℕ))))))) → Option ℕ
unfolding scan_snapshots
segment_count_from_snapshot_frames cmds = count_found (scan_option scan_snapshots 0 cmds)
