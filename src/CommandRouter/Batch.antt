-- ===== src/CommandRouter/Batch.antt =====
-- src/lib/command-router.ts (parseSegmentBatch, coerceParsedBatch): a command for several segments,
-- such as `1-5:#ff0000:20`.
pub mod Parsed
pub mod Accepted
use io_broker_govee_smart.Base.{
  ℕ, zero, suc, ◌+◌, ◌-◌, ◌^◌, ◌%◌, ◌<◌, min, Bool, true, false, ◌&&◌, List, [], ◌∷◌, ◌++◌, Option,
  none, some, if◌then◌else◌, leb, ltb, ◌==◌, length,
}
use io_broker_govee_smart.Text.{
  Text, codes, text_eq, trim, split, Whole, nan, plus, minus, parse_int, match_range, read_hex,
}
use io_broker_govee_smart.SegmentList.{segment_hard_max, add_index, holds_index, sort_indices}
use io_broker_govee_smart.Device.{GoveeDevice}
use io_broker_govee_smart.Device.SegmentCount.{resolve_segment_count}
use io_broker_govee_smart.Command.{BatchInput, Value, batch, text, clamp_whole}
use io_broker_govee_smart.CommandRouter.{Quirks}

pub record ParsedBatch : Type 0 where
  pub segments : List ℕ
  pub color : Option ℕ
  pub brightness : Option ℕ

-- `new Set(indices)`
abbrev pub set_of : List ℕ → List ℕ → List ℕ
set_of set [] = set
set_of set (i ∷ is) = set_of (add_index i set) is

-- The list of a cut strip; `none` where the strip is whole.
abbrev pub manual_indices : List ℕ → Option (List ℕ)
manual_indices [] = none
manual_indices (i ∷ is) = some (set_of [] (i ∷ is))

unfoldable pub valid_indices : GoveeDevice → Option (List ℕ)
valid_indices device = if device.manual_mode then manual_indices device.manual_segments else none

unfoldable pub is_valid : Option (List ℕ) → ℕ → ℕ → Bool
is_valid none seg_count i = ltb i seg_count
is_valid (some set) seg_count i = holds_index i set

abbrev pub push_valid : (ℕ → Bool) → ℕ → List ℕ → List ℕ
push_valid valid i segments = if valid i then segments ++ i ∷ [] else segments

-- The loop from `start` to the clamped end, with the rounds that are left.
unfoldable pub push_range : (ℕ → Bool) → ℕ → ℕ → List ℕ → List ℕ
push_range valid zero i segments = segments
push_range valid (suc rounds) i segments =
    push_range valid rounds (i + 1) (push_valid valid i segments)

abbrev pub push_index : (ℕ → Bool) → Whole → List ℕ → List ℕ
push_index valid nan segments = segments
push_index valid (plus i) segments = push_valid valid i segments
push_index valid (minus zero) segments = push_valid valid 0 segments
push_index valid (minus (suc n)) segments = segments

abbrev pub push_part : (ℕ → Bool) → Text → Option (ℕ × ℕ) → List ℕ → List ℕ
push_part valid part none segments = push_index valid (parse_int part) segments
push_part valid part (some (start, end)) segments =
    push_range valid (min end segment_hard_max + 1 - start) start segments

-- The loop over the parts between the commas.
unfoldable pub push_parts : (ℕ → Bool) → List Text → List ℕ → List ℕ
unfolding push_range parse_int match_range trim
push_parts valid [] segments = segments
push_parts valid (part ∷ parts) segments =
    push_parts valid parts (push_part valid (trim part) (match_range (trim part)) segments)

unfoldable pub up_to : ℕ → ℕ → List ℕ
up_to i zero = []
up_to i (suc n) = i ∷ up_to (i + 1) n

abbrev pub all_segments : Option (List ℕ) → ℕ → List ℕ
all_segments none seg_count = up_to 0 seg_count
all_segments (some set) seg_count = sort_indices set

unfoldable pub named_segments : Option (List ℕ) → ℕ → Text → List ℕ
unfolding up_to push_parts split is_valid
named_segments set seg_count seg_str =
    if text_eq seg_str (codes "all")
    then all_segments set seg_count
    else push_parts (is_valid set seg_count) (split b',' seg_str) []

-- `/^#?[0-9a-fA-F]{6}$/`, and the number that the digits write.
abbrev pub six_digits : Text → Option ℕ
six_digits s = if length s == 6 then read_hex 0 s else none

abbrev pub color_digits : Text → Text
color_digits [] = []
color_digits (c ∷ s) = if c == b'#' then s else c ∷ s

unfoldable pub batch_color : List Text → Option ℕ
unfolding read_hex trim
batch_color (p ∷ [] ∷ parts) = none
batch_color (p ∷ (c ∷ s) ∷ parts) = six_digits (color_digits (trim (c ∷ s)))
batch_color _ = none

abbrev pub percent_in_range : Whole → Option ℕ
percent_in_range nan = none
percent_in_range (plus n) = if leb n 100 then some n else none
percent_in_range (minus zero) = some 0
percent_in_range (minus (suc n)) = none

unfoldable pub batch_brightness : List Text → Option ℕ
unfolding parse_int trim
batch_brightness (p ∷ q ∷ [] ∷ parts) = none
batch_brightness (p ∷ q ∷ (c ∷ s) ∷ parts) = percent_in_range (parse_int (trim (c ∷ s)))
batch_brightness _ = none

-- Nothing to set, or nothing to set it on: no command.
abbrev pub batch_of : List ℕ → Option ℕ → Option ℕ → Option ParsedBatch
batch_of [] color brightness = none
batch_of (i ∷ is) none none = none
batch_of (i ∷ is) color brightness =
    some (record { segments = i ∷ is; color = color; brightness = brightness })

abbrev pub parse_parts : Option (List ℕ) → ℕ → List Text → Option ParsedBatch
parse_parts set seg_count [] = none
parse_parts set seg_count ([] ∷ parts) = none
parse_parts set seg_count ((c ∷ s) ∷ parts) =
    batch_of (named_segments set seg_count (trim (c ∷ s))) (batch_color ((c ∷ s) ∷ parts))
      (batch_brightness ((c ∷ s) ∷ parts))

unfoldable pub parse_segment_batch : Quirks → GoveeDevice → Text → Option ParsedBatch
unfolding valid_indices named_segments batch_color batch_brightness split resolve_segment_count
parse_segment_batch quirks device cmd =
    parse_parts (valid_indices device) (resolve_segment_count quirks.segment_count device).0
      (split b':' cmd)

-- The numbers of the list that are not negative; `-0` is 0.
abbrev pub addressed : List Whole → List ℕ
addressed [] = []
addressed (plus i ∷ is) = i ∷ addressed is
addressed (minus zero ∷ is) = 0 ∷ addressed is
addressed (_ ∷ is) = addressed is

-- `v.color & 0xffffff`
abbrev pub packed_color : Whole → Option ℕ
packed_color nan = none
packed_color (plus n) = some (n % 2 ^ 24)
packed_color (minus n) = some ((2 ^ 24 - n % 2 ^ 24) % 2 ^ 24)

abbrev pub clamped_brightness : Whole → Option ℕ
clamped_brightness nan = none
clamped_brightness n = some (clamp_whole 0 100 0 n)

abbrev pub coerce_segments : Option (List Whole) → List ℕ
coerce_segments none = []
coerce_segments (some is) = addressed is

unfoldable pub coerce_parsed_batch : Value → Option ParsedBatch
coerce_parsed_batch (batch b) =
    batch_of (coerce_segments b.segments) (packed_color b.color) (clamped_brightness b.brightness)
coerce_parsed_batch _ = none

-- A text is parsed, anything else coerced.
unfoldable pub read_batch : Quirks → GoveeDevice → Value → Option ParsedBatch
unfolding parse_segment_batch coerce_parsed_batch
read_batch quirks device (text s) = parse_segment_batch quirks device s
read_batch quirks device value = coerce_parsed_batch value
