-- ===== src/Color.antt =====
-- src/lib/color.ts: colours as text, as one number and as bytes. The channels are whole numbers.
pub mod RoundTrip
use io_broker_govee_smart.Base.{
  ℕ, ◌+◌, ◌-◌, ◌*◌, ◌/◌, ◌%◌, ◌^◌, min, List, [], ◌∷◌, ◌++◌, Option, none, some, if◌then◌else◌,
  length, ltb, ◌==◌, ◌&&◌,
}
use io_broker_govee_smart.Text.{Text, read_hex, without_hash}

pub record Rgb : Type 0 where
  pub r : ℕ
  pub g : ℕ
  pub b : ℕ

abbrev pub black : Rgb
black = record { r = 0; g = 0; b = 0 }

-- `(r << 16) | (g << 8) | b`, for bytes.
abbrev pub rgb_int : Rgb → ℕ
rgb_int c = c.r * 65536 + c.g * 256 + c.b

abbrev pub rgb_of_int : ℕ → Rgb
rgb_of_int n = record { r = n / 65536 % 256; g = n / 256 % 256; b = n % 256 }

abbrev pub rgb_of_hex : Option ℕ → Rgb
rgb_of_hex none = black
rgb_of_hex (some n) = rgb_of_int n

unfoldable pub hex_to_rgb : Text → Rgb
unfolding read_hex without_hash
hex_to_rgb hex =
    let cleaned = without_hash hex in
    if length cleaned == 6 then rgb_of_hex (read_hex 0 cleaned) else black

-- The lower-case digit of a number below 16.
abbrev pub hex_char : ℕ → ℕ
hex_char d = if ltb d 10 then b'0' + d else b'a' + (d - 10)

-- `clampByte(v).toString(16).padStart(2, "0")`
unfoldable pub hex_byte : ℕ → Text
hex_byte v = let n = min 255 v in hex_char (n / 16) ∷ hex_char (n % 16) ∷ []

unfoldable pub rgb_to_hex : ℕ → ℕ → ℕ → Text
unfolding hex_byte
rgb_to_hex r g b = b'#' ∷ hex_byte r ++ (hex_byte g ++ hex_byte b)

-- `(rgb & 0xffffff).toString(16).padStart(6, "0")`
unfoldable pub rgb_int_to_hex : ℕ → Text
unfolding hex_byte
rgb_int_to_hex rgb =
    b'#' ∷ hex_byte (rgb / 65536 % 256) ++ (hex_byte (rgb / 256 % 256) ++ hex_byte (rgb % 256))
