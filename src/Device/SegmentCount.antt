-- ===== src/Device/SegmentCount.antt =====
-- src/lib/device-manager/lookups.ts (plausibleSegmentCount, resolveSegmentCountWithSource): how many
-- segments a device has. `none` stands for what is no whole number.
use io_broker_govee_smart.Base.{
  ℕ, ◌+◌, ◌≤◌, ◌&&◌, List, [], ◌∷◌, Option, none, some, if◌then◌else◌, leb, ltb, arith, if_cases,
}
use io_broker_govee_smart.Text.{codes, includes}
use io_broker_govee_smart.Device.{Capability, GoveeDevice}
use io_broker_govee_smart.SegmentWizard.Restore.{segment_count_max}

unfoldable pub plausible_segment_count : Option ℕ → Option ℕ
plausible_segment_count none = none
plausible_segment_count (some n) = if leb 1 n && leb n segment_count_max then some n else none

abbrev pub smaller : Option ℕ → Option ℕ → Option ℕ
smaller none m = m
smaller (some n) none = some n
smaller (some n) (some m) = if ltb n m then some n else some m

abbrev pub count_of_max : Option ℕ → Option ℕ
count_of_max none = none
count_of_max (some raw_max) = plausible_segment_count (some (raw_max + 1))

-- The loop over the fields of one capability; the second argument is the minimum so far.
unfoldable pub min_of_fields : List (Option ℕ) → Option ℕ → Option ℕ
unfolding plausible_segment_count
min_of_fields [] least = least
min_of_fields (raw_max ∷ fields) least = min_of_fields fields (smaller (count_of_max raw_max) least)

-- The loop over the capabilities.
unfoldable pub min_of_capabilities : List (Option Capability) → Option ℕ → Option ℕ
unfolding min_of_fields includes
min_of_capabilities [] least = least
min_of_capabilities (none ∷ caps) least = min_of_capabilities caps least
min_of_capabilities (some c ∷ caps) least = min_of_capabilities caps (
    if includes c.type (codes "segment_color_setting")
    then min_of_fields c.segment_maxima least
    else least)

pub data SegmentCountSource : Type 0 where
  quirk learned cloud_capability unknown : SegmentCountSource

abbrev pub count_of_capabilities : Option ℕ → ℕ × SegmentCountSource
count_of_capabilities none = (0, unknown)
count_of_capabilities (some n) = (n, cloud_capability)

abbrev pub learned_or : Option ℕ → ℕ × SegmentCountSource → ℕ × SegmentCountSource
learned_or none declared = declared
learned_or (some n) declared = (n, learned)

abbrev pub quirk_or : Option ℕ → ℕ × SegmentCountSource → ℕ × SegmentCountSource
quirk_or none resolved = resolved
quirk_or (some n) resolved = (n, quirk)

-- The first argument is the `segmentCount` quirk of the model.
unfoldable pub resolve_segment_count : Option ℕ → GoveeDevice → ℕ × SegmentCountSource
unfolding plausible_segment_count min_of_capabilities
resolve_segment_count quirk_count device = quirk_or (plausible_segment_count quirk_count) (
    learned_or (plausible_segment_count device.segment_count)
      (count_of_capabilities (min_of_capabilities device.capabilities none)))

abbrev IsSlotCount : Option ℕ → Type 0
IsSlotCount none = Unit
IsSlotCount (some n) = (1 ≤ n) × (n ≤ segment_count_max)

plausible-IsSlotCount : (n : Option ℕ) → IsSlotCount (plausible_segment_count n)
unfolding plausible_segment_count
plausible-IsSlotCount none = tt
plausible-IsSlotCount (some n) =
    if_cases IsSlotCount (leb 1 n && leb n segment_count_max) (λ e. ground arith) (λ e. tt)

smaller-IsSlotCount : (n m : Option ℕ) → IsSlotCount n → IsSlotCount m → IsSlotCount (smaller n m)
smaller-IsSlotCount none m p q = q
smaller-IsSlotCount (some n) none p q = p
smaller-IsSlotCount (some n) (some m) p q = if_cases IsSlotCount (ltb n m) (λ _. p) (λ _. q)

count_of_max-IsSlotCount : (raw_max : Option ℕ) → IsSlotCount (count_of_max raw_max)
count_of_max-IsSlotCount none = tt
count_of_max-IsSlotCount (some n) = plausible-IsSlotCount (some (n + 1))

min_of_fields-IsSlotCount :
    (fields : List (Option ℕ)) (least : Option ℕ)
    → IsSlotCount least
    → IsSlotCount (min_of_fields fields least)
unfolding min_of_fields
min_of_fields-IsSlotCount [] least p = p
min_of_fields-IsSlotCount (raw_max ∷ fields) least p =
    min_of_fields-IsSlotCount fields (smaller (count_of_max raw_max) least)
      (smaller-IsSlotCount (count_of_max raw_max) least (count_of_max-IsSlotCount raw_max) p)

min_of_capabilities-IsSlotCount :
    (caps : List (Option Capability)) (least : Option ℕ)
    → IsSlotCount least
    → IsSlotCount (min_of_capabilities caps least)
unfolding min_of_capabilities
min_of_capabilities-IsSlotCount [] least p = p
min_of_capabilities-IsSlotCount (none ∷ caps) least p = min_of_capabilities-IsSlotCount caps least p
min_of_capabilities-IsSlotCount (some c ∷ caps) least p = min_of_capabilities-IsSlotCount caps _ (
    if_cases IsSlotCount (includes c.type (codes "segment_color_setting"))
      (λ _. min_of_fields-IsSlotCount c.segment_maxima least p) (λ _. p))

pub resolve_segment_count-le :
    (quirk_count : Option ℕ) (device : GoveeDevice)
    → (resolve_segment_count quirk_count device).0 ≤ segment_count_max
unfolding resolve_segment_count
resolve_segment_count-le quirk_count device =
    go (plausible_segment_count quirk_count) (plausible_segment_count device.segment_count)
      (min_of_capabilities device.capabilities none) (plausible-IsSlotCount quirk_count)
      (plausible-IsSlotCount device.segment_count)
      (min_of_capabilities-IsSlotCount device.capabilities none tt)
  where
    go :
        (quirk learned declared : Option ℕ)
        → IsSlotCount quirk
        → IsSlotCount learned
        → IsSlotCount declared
        → (quirk_or quirk (learned_or learned (count_of_capabilities declared))).0
          ≤ segment_count_max
    go (some n) l d p q r = p.1
    go none (some n) d p q r = q.1
    go none none (some n) p q r = r.1
    go none none none p q r = omega arith
