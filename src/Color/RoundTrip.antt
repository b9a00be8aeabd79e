-- ===== src/Color/RoundTrip.antt =====
-- src/lib/color.ts: a colour that was written as text is read back.
use io_broker_govee_smart.Base.{
  ℕ, ◌+◌, ◌*◌, ◌<◌, ◌/◌, ◌%◌, min, [], ◌∷◌, ◌++◌, Option, none, some, arith, ◌≡◌, refl, ap, ◌∙◌,
}
use io_broker_govee_smart.Text.{Text, hex_digit, read_hex, shift_in}
use io_broker_govee_smart.Color.{
  hex_char, hex_byte, rgb_int, rgb_of_hex, rgb_to_hex, rgb_int_to_hex, hex_to_rgb,
}

hex_digit-hex_char : (d : ℕ) → d < 16 → hex_digit (hex_char d) ≡ some d
unfolding hex_digit
hex_digit-hex_char d h = ground arith

read_hex-hex_char :
    (acc d : ℕ) (s : Text) → d < 16 → read_hex acc (hex_char d ∷ s) ≡ read_hex (acc * 16 + d) s
unfolding read_hex
read_hex-hex_char acc d s h =
    ap (λ (o : Option ℕ). elim (shift_in acc o) [ none ↦ none | some n ↦ read_hex n s ])
      (hex_digit-hex_char d h)

read_hex-hex_byte :
    (acc v : ℕ) (s : Text) → v < 256 → read_hex acc (hex_byte v ++ s) ≡ read_hex (acc * 256 + v) s
unfolding hex_byte
read_hex-hex_byte acc v s h =
    let n = min 255 v in
    read_hex-hex_char acc (n / 16) (hex_char (n % 16) ∷ s) (omega arith)
    ∙ read_hex-hex_char (acc * 16 + n / 16) (n % 16) s (omega arith)
    ∙ ap (λ (k : ℕ). read_hex k s) (omega arith)

read_hex-nil : (acc : ℕ) → read_hex acc [] ≡ some acc
unfolding read_hex
read_hex-nil acc = refl

read_hex-bytes :
    (r g b : ℕ)
    → r < 256
    → g < 256
    → b < 256
    → read_hex 0 (hex_byte r ++ (hex_byte g ++ hex_byte b)) ≡ some (r * 65536 + g * 256 + b)
unfolding hex_byte
read_hex-bytes r g b hr hg hb =
    read_hex-hex_byte 0 r (hex_byte g ++ hex_byte b) hr
    ∙ read_hex-hex_byte (0 * 256 + r) g (hex_byte b) hg
    ∙ read_hex-hex_byte ((0 * 256 + r) * 256 + g) b [] hb
    ∙ read_hex-nil ((((0 * 256 + r) * 256) + g) * 256 + b)
    ∙ ap some (omega arith)

-- A colour whose channels are bytes is read back from the text that `rgbToHex` writes, and the
-- text of its packed number is the same text.
pub hex_to_rgb-rgb_to_hex :
    (r g b : ℕ)
    → r < 256
    → g < 256
    → b < 256
    → (hex_to_rgb (rgb_to_hex r g b) ≡ record { r = r; g = g; b = b })
      × (rgb_int_to_hex (rgb_int (record { r = r; g = g; b = b })) ≡ rgb_to_hex r g b)
unfolding hex_to_rgb rgb_to_hex rgb_int_to_hex hex_byte
hex_to_rgb-rgb_to_hex r g b hr hg hb =
    let n = r * 65536 + g * 256 + b in
    let high : n / 65536 % 256 ≡ r = omega arith in
    let middle : n / 256 % 256 ≡ g = omega arith in
    let low : n % 256 ≡ b = omega arith in (ap rgb_of_hex (read_hex-bytes r g b hr hg hb) ∙ cc, cc)
