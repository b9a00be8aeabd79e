-- ===== src/CommandRouter/Batch/Accepted.antt =====
-- src/lib/command-router.ts (parseSegmentBatch): what a batch command that is accepted holds.
use mathlib.Core.Path.{subst}
use io_broker_govee_smart.Base.{
  ℕ, zero, suc, ◌+◌, ◌*◌, ◌≤◌, ◌<◌, Bool, true, false, ◌&&◌, ◌||◌, List, [], ◌∷◌, Option, none,
  some, if◌then◌else◌, leb, ◌==◌, ==_iff, arith, ◌≡◌, ap, sym, ◌∙◌, All, All-append, Bool-cases,
  if_cases, is_some, inl, inr, length,
}
use io_broker_govee_smart.Text.{
  Text, trim, split, Whole, nan, plus, minus, parse_int, hex_digit, shift_in, read_hex,
}
use io_broker_govee_smart.SegmentList.{segment_hard_max, holds_index, add_index}
use io_broker_govee_smart.Device.{GoveeDevice}
use io_broker_govee_smart.Device.SegmentCount.{resolve_segment_count, resolve_segment_count-le}
use io_broker_govee_smart.CommandRouter.{Quirks}
use io_broker_govee_smart.CommandRouter.Batch.{
  ParsedBatch, set_of, manual_indices, valid_indices, is_valid, named_segments, six_digits,
  color_digits, batch_color, percent_in_range, batch_brightness, batch_of, parse_parts,
  parse_segment_batch, coerce_segments, packed_color, clamped_brightness, coerce_parsed_batch,
  read_batch,
}
use io_broker_govee_smart.Command.{Value, boolean, number, text, batch, null, undefined}
use io_broker_govee_smart.CommandRouter.Batch.Parsed.{mentions, holds_index-named_segments}

abbrev IsSlot : ℕ → Type 0
IsSlot i = i ≤ segment_hard_max

All-add_index :
    (i : ℕ) (set : List ℕ) → i ≤ segment_hard_max → All IsSlot set → All IsSlot (add_index i set)
All-add_index i set p h =
    if_cases (All IsSlot) (holds_index i set) (λ e. h)
      (λ e. All-append IsSlot set (i ∷ []) h (p, tt))

All-set_of : (set is : List ℕ) → All IsSlot set → All IsSlot is → All IsSlot (set_of set is)
All-set_of set [] h k = h
All-set_of set (i ∷ is) h (p, k) = All-set_of (add_index i set) is (All-add_index i set p h) k

holds_index-le :
    (i : ℕ) (set : List ℕ) → All IsSlot set → holds_index i set ≡ true → i ≤ segment_hard_max
holds_index-le i [] h e = cc
holds_index-le i (j ∷ set) (p, h) e = elim (Bool-cases (j == i)) [
  | inl same ↦ ground arith
  | inr other ↦ holds_index-le i set h (ground arith)
]

-- The segments that the device has, of a strip that was cut those that are listed.
abbrev pub has_segment : Quirks → GoveeDevice → ℕ → Bool
has_segment quirks device i =
    is_valid (valid_indices device) (resolve_segment_count quirks.segment_count device).0 i

has_segment-le :
    (quirks : Quirks) (device : GoveeDevice) (i : ℕ)
    → All IsSlot device.manual_segments
    → has_segment quirks device i ≡ true
    → i ≤ segment_hard_max
unfolding is_valid valid_indices
has_segment-le quirks device i h = go device.manual_mode device.manual_segments h
  where
    go :
        (mode : Bool) (list : List ℕ)
        → All IsSlot list
        → is_valid
            (if mode then manual_indices list else none)
            (resolve_segment_count quirks.segment_count device).0
            i
          ≡ true
        → i ≤ segment_hard_max
    go false list h e = ground (arith, resolve_segment_count-le quirks.segment_count device)
    go true [] h e = ground (arith, resolve_segment_count-le quirks.segment_count device)
    go true (j ∷ list) h e =
        holds_index-le i (set_of [] (j ∷ list)) (All-set_of [] (j ∷ list) tt h) e

abbrev first_of : List Text → Text
first_of [] = []
first_of (p ∷ ps) = p

-- The text before the first colon.
abbrev pub segment_text : Text → Text
segment_text cmd = trim (first_of (split b':' cmd))

abbrev pub InRange : Option ℕ → ℕ → Type 0
InRange none most = Unit
InRange (some n) most = n ≤ most

-- What `digits` more hexadecimal digits make of a bound.
abbrev hex_bound : ℕ → ℕ → ℕ
hex_bound zero k = k
hex_bound (suc digits) k = hex_bound digits (k * 16)

abbrev Below : Option ℕ → ℕ → Type 0
Below none k = Unit
Below (some n) k = n < k

hex_digit-Below : (c : ℕ) → Below (hex_digit c) 16
unfolding hex_digit
hex_digit-Below c =
    if_cases P (leb b'0' c && leb c b'9') (λ e. ground arith)
      λ _.
        if_cases P (leb b'a' c && leb c b'f') (λ e. ground arith)
          λ _. if_cases P (leb b'A' c && leb c b'F') (λ e. ground arith) (λ _. tt)
  where
    P : Option ℕ → Type 0
    P o = Below o 16

read_hex-Below : (acc k : ℕ) (s : Text) → acc < k → Below (read_hex acc s) (hex_bound (length s) k)
unfolding read_hex
read_hex-Below acc k [] h = h
read_hex-Below acc k (c ∷ s) h =
    go (λ n p. read_hex-Below n (k * 16) s p) (hex_digit c) (hex_digit-Below c)
  where
    go :
        ((n : ℕ) → n < k * 16 → Below (read_hex n s) (hex_bound (length s) (k * 16)))
        → (o : Option ℕ) → Below o 16
        → Below
            (elim (shift_in acc o) [ none ↦ none | some n ↦ read_hex n s ])
            (hex_bound (length s) (k * 16))
    go rest none p = tt
    go rest (some d) p = rest (acc * 16 + d) (omega arith)

InRange-Below : (o : Option ℕ) → Below o 0x1000000 → InRange o 0xffffff
InRange-Below none h = tt
InRange-Below (some n) h = omega arith

six_digits-InRange : (s : Text) → InRange (six_digits s) 0xffffff
six_digits-InRange s =
    if_cases (λ o. InRange o 0xffffff) (length s == 6)
      (λ e. InRange-Below (read_hex 0 s) (
        subst (λ n. Below (read_hex 0 s) (hex_bound n 1)) ((==_iff (length s) 6).0 e)
          (read_hex-Below 0 1 s (omega arith))))
      (λ _. tt)

batch_color-InRange : (parts : List Text) → InRange (batch_color parts) 0xffffff
unfolding batch_color
batch_color-InRange [] = tt
batch_color-InRange (p ∷ []) = tt
batch_color-InRange (p ∷ [] ∷ parts) = tt
batch_color-InRange (p ∷ (c ∷ s) ∷ parts) = six_digits-InRange (color_digits (trim (c ∷ s)))

percent-InRange : (n : Whole) → InRange (percent_in_range n) 100
percent-InRange nan = tt
percent-InRange (plus n) = if_cases (λ o. InRange o 100) (leb n 100) (λ e. ground arith) (λ _. tt)
percent-InRange (minus zero) = omega arith
percent-InRange (minus (suc n)) = tt

batch_brightness-InRange : (parts : List Text) → InRange (batch_brightness parts) 100
unfolding batch_brightness
batch_brightness-InRange [] = tt
batch_brightness-InRange (p ∷ []) = tt
batch_brightness-InRange (p ∷ q ∷ []) = tt
batch_brightness-InRange (p ∷ q ∷ [] ∷ parts) = tt
batch_brightness-InRange (p ∷ q ∷ (c ∷ s) ∷ parts) = percent-InRange (parse_int (trim (c ∷ s)))

-- A batch takes over what was read, and is never empty.
pub batch_of_lem :
    (segments : List ℕ) (color brightness : Option ℕ) {b : ParsedBatch}
    → batch_of segments color brightness ≡ some b
    → (b.segments ≡ segments)
      × (1 ≤ length segments)
      × (b.color ≡ color)
      × (b.brightness ≡ brightness)
      × ((is_some color || is_some brightness) ≡ true)
batch_of_lem [] color brightness h = cc
batch_of_lem (i ∷ is) none none h = cc
batch_of_lem (i ∷ is) (some c) brightness h = ground arith
batch_of_lem (i ∷ is) none (some p) h = ground arith

-- With the list of a cut strip within the protocol, a command that is accepted addresses exactly
-- the segments that the device has and the text names, at least one; it sets a colour or a
-- brightness, the colour of 24 bits and the brightness at most 100.
pub parse_segment_batch_lem :
    (quirks : Quirks) (device : GoveeDevice) (cmd : Text) {b : ParsedBatch}
    → All IsSlot device.manual_segments
    → parse_segment_batch quirks device cmd ≡ some b
    → ((i : ℕ)
        → holds_index i b.segments ≡ (has_segment quirks device i && mentions i (segment_text cmd)))
      × (1 ≤ length b.segments)
      × InRange b.color 0xffffff
      × InRange b.brightness 100
      × ((is_some b.color || is_some b.brightness) ≡ true)
unfolding parse_segment_batch
parse_segment_batch_lem quirks device cmd {b} small h = go (split b':' cmd) h
  where
    set : Option (List ℕ)
    set = valid_indices device

    seg_count : ℕ
    seg_count = (resolve_segment_count quirks.segment_count device).0

    go :
        (parts : List Text)
        → parse_parts set seg_count parts ≡ some b
        → ((i : ℕ)
            → holds_index i b.segments
              ≡ (is_valid set seg_count i && mentions i (trim (first_of parts))))
          × (1 ≤ length b.segments)
          × InRange b.color 0xffffff
          × InRange b.brightness 100
          × ((is_some b.color || is_some b.brightness) ≡ true)
    go [] e = cc
    go ([] ∷ parts) e = cc
    go ((c ∷ s) ∷ parts) e =
        let seg_str = trim (c ∷ s) in
        let q =
          batch_of_lem (named_segments set seg_count seg_str) (batch_color ((c ∷ s) ∷ parts))
            (batch_brightness ((c ∷ s) ∷ parts)) e in
        (
          λ i.
              ap (holds_index i) q.0
              ∙ holds_index-named_segments set seg_count i seg_str
                  (has_segment-le quirks device i small),
          subst (λ (is : List ℕ). 1 ≤ length is) (sym q.0) q.1,
          subst (λ (o : Option ℕ). InRange o 0xffffff) (sym q.2)
              (batch_color-InRange ((c ∷ s) ∷ parts)),
          subst (λ (o : Option ℕ). InRange o 100) (sym q.3)
              (batch_brightness-InRange ((c ∷ s) ∷ parts)),
          rw (q.2, q.3) q.4,
        )

-- A batch that is read sets a colour or a brightness.
pub read_batch-sets :
    (quirks : Quirks) (device : GoveeDevice) (value : Value) {b : ParsedBatch}
    → read_batch quirks device value ≡ some b
    → (is_some b.color || is_some b.brightness) ≡ true
unfolding read_batch parse_segment_batch coerce_parsed_batch
read_batch-sets quirks device (text s) {b} h = go (split b':' s) h
  where
    go :
        (parts : List Text)
        → parse_parts
            (valid_indices device)
            (resolve_segment_count quirks.segment_count device).0
            parts
          ≡ some b
        → (is_some b.color || is_some b.brightness) ≡ true
    go [] e = cc
    go ([] ∷ parts) e = cc
    go ((c ∷ t) ∷ parts) e = let q = batch_of_lem _ _ _ e in rw (q.2, q.3) q.4
read_batch-sets quirks device (batch v) h =
    let q =
      batch_of_lem (coerce_segments v.segments) (packed_color v.color)
        (clamped_brightness v.brightness) h in
    rw (q.2, q.3) q.4
read_batch-sets quirks device (boolean v) h = cc
read_batch-sets quirks device (number v) h = cc
read_batch-sets quirks device null h = cc
read_batch-sets quirks device undefined h = cc
