-- ===== src/Command.antt =====
-- Commands and the values that are written, as src/lib/command-router.ts takes them. The texts
-- `segmentColor:N` and `segmentBrightness:N` are read outside: their index is `none` where it is no
-- number or below 0. Numbers are whole.
use io_broker_govee_smart.Base.{
  ℕ, leb, ◌==◌, Bool, true, false, not, List, Option, none, some, [], ◌∷◌, if◌then◌else◌,
}
use io_broker_govee_smart.Text.{Text, codes, decimal, Whole, nan, plus, minus}
use io_broker_govee_smart.Color.{Rgb, black, hex_to_rgb}
use io_broker_govee_smart.Device.{ControlKind}

-- A command that an internal caller passes already parsed: `segments` is `none` where it is no
-- array, an element where it is no finite number.
pub record BatchInput : Type 0 where
  pub segments : Option (List Whole)
  pub color : Whole
  pub brightness : Whole

pub data Value : Type 0 where
  boolean : Bool → Value
  number : Whole → Value
  text : Text → Value
  batch : BatchInput → Value
  null undefined : Value

pub data Command : Type 0 where
  control : ControlKind → Command
  scene light_scene diy_scene snapshot gradient_toggle segment_batch : Command
  segment_color segment_brightness : Option ℕ → Command
  other : Text → Command

abbrev pub nonzero : Whole → Bool
nonzero nan = false
nonzero (plus n) = not (n == 0)
nonzero (minus n) = not (n == 0)

abbrev nonempty : Text → Bool
nonempty [] = false
nonempty (c ∷ s) = true

-- Whether the language takes the value for true.
unfoldable pub is_truthy : Value → Bool
is_truthy (boolean b) = b
is_truthy (number n) = nonzero n
is_truthy (text s) = nonempty s
is_truthy (batch b) = true
is_truthy null = false
is_truthy undefined = false

-- `String(value)`
unfoldable pub to_text : Value → Text
unfolding decimal
to_text (boolean true) = codes "true"
to_text (boolean false) = codes "false"
to_text (number nan) = codes "NaN"
to_text (number (plus n)) = decimal n
to_text (number (minus n)) = b'-' ∷ decimal n
to_text (text s) = s
to_text (batch b) = codes "[object Object]"
to_text null = codes "null"
to_text undefined = codes "undefined"

-- `Number(value)`; how the language reads a number in a text is the first argument.
unfoldable pub to_number : (Text → Whole) → Value → Whole
to_number read (boolean true) = plus 1
to_number read (boolean false) = plus 0
to_number read (number n) = n
to_number read (text s) = read s
to_number read (batch b) = nan
to_number read null = plus 0
to_number read undefined = nan

-- `hexToRgb(value as string)`
unfoldable pub rgb_of_value : Value → Rgb
unfolding hex_to_rgb
rgb_of_value (text s) = hex_to_rgb s
rgb_of_value _ = black

-- Whether the value is a number, and which.
abbrev pub as_number : Value → Option Whole
as_number (number n) = some n
as_number _ = none

-- A number clamped to `low`..`high`; what is no number is `fallback`.
abbrev pub clamp_whole : ℕ → ℕ → ℕ → Whole → ℕ
clamp_whole low high fallback nan = fallback
clamp_whole low high fallback (plus n) = if leb n low then low else if leb high n then high else n
clamp_whole low high fallback (minus n) = low
