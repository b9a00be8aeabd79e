-- ===== src/BleFrame/Bytes.antt =====
-- Byte facts of src/lib/ble-frame.ts, checked over all values.
use Prim.Native.Nat.{bit_xor, bit_or}
use io_broker_govee_smart.Base.{
  ℕ, zero, suc, ◌/◌, ◌%◌, ◌^◌, ◌<◌, Bool, true, ◌&&◌, arith, ◌≡◌, refl, ltb, ltb→lt, ◌==◌,
  if◌then◌else◌, List, [], ◌∷◌, map, All, ==_iff,
}

below : ℕ → (ℕ → Bool) → Bool
below zero p = true
below (suc n) p = p n && below n p

below_sound : (n : ℕ) (p : ℕ → Bool) (x : ℕ) → below n p ≡ true → x < n → p x ≡ true
unfolding below
below_sound zero p x h lt = absurd (omega arith)
below_sound (suc n) p x h lt = ground (arith, below_sound n p x)

abbrev xor_row : ℕ → Bool
xor_row a = below 256 (λ b. ltb (bit_xor a b) 256)

xor_table : below 256 xor_row ≡ true
unfolding below
xor_table = refl

pub xor-lt : (a b : ℕ) → a < 256 → b < 256 → bit_xor a b < 256
xor-lt a b p q = ltb→lt _ _ (below_sound 256 _ b (below_sound 256 xor_row a xor_table p) q)

abbrev or_cell : ℕ → ℕ → ℕ → Bool
or_cell a k i = bit_or a (2 ^ k) / 2 ^ i % 2 == (if k == i then 1 else a / 2 ^ i % 2)

abbrev or_row : ℕ → Bool
or_row a = below 8 (λ k. ltb (bit_or a (2 ^ k)) 256 && below 8 (or_cell a k))

or_table : below 256 or_row ≡ true
unfolding below
or_table = refl

or_facts :
    (a k : ℕ) → a < 256 → k < 8 → (ltb (bit_or a (2 ^ k)) 256 && below 8 (or_cell a k)) ≡ true
or_facts a k p q =
    below_sound 8 (λ k. ltb (bit_or a (2 ^ k)) 256 && below 8 (or_cell a k)) k
      (below_sound 256 or_row a or_table p) q

pub or-lt : (a k : ℕ) → a < 256 → k < 8 → bit_or a (2 ^ k) < 256
or-lt a k p q = ground (arith, or_facts a k p q)

-- Setting a bit of a byte sets that bit and leaves the others.
pub or_bit :
    (a k i : ℕ)
    → a < 256
    → k < 8
    → i < 8
    → bit_or a (2 ^ k) / 2 ^ i % 2 ≡ (if k == i then 1 else a / 2 ^ i % 2)
or_bit a k i p q r =
    (==_iff _ _).0 (below_sound 8 (or_cell a k) i (and_right _ _ (or_facts a k p q)) r)
  where
    and_right : (x y : Bool) → (x && y) ≡ true → y ≡ true
    and_right x y h = ground arith

abbrev pub AllBytes : List ℕ → Type 0
AllBytes = All (λ b. b < 256)

pub to_buffer-AllBytes : (bytes : List ℕ) → AllBytes bytes → map (λ b. b % 256) bytes ≡ bytes
to_buffer-AllBytes [] h = refl
to_buffer-AllBytes (b ∷ bs) (p, h) =
    let e : b % 256 ≡ b = omega arith in cc (to_buffer-AllBytes bs h)
