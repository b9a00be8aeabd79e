-- ===== src/TextMap.antt =====
-- JavaScript's `Map` with texts as keys: an association list in the order of insertion.
use mathlib.Core.Path.{subst}
use io_broker_govee_smart.Base.{
  true, List, [], ◌∷◌, ◌++◌, Option, none, some, if◌then◌else◌, arith, ◌≡◌, ◌↔◌, refl,
}
use io_broker_govee_smart.Text.{Text, text_eq}

abbrev pub TextMap {ℓ} : Type ℓ → Type ℓ
TextMap V = List (Text × V)

pub text_eq_refl : (s : Text) → text_eq s s ≡ true
text_eq_refl [] = refl
text_eq_refl (c ∷ s) = ground (arith, text_eq_refl s)

pub text_eq_sound : (s t : Text) → text_eq s t ≡ true → s ≡ t
text_eq_sound [] [] h = refl
text_eq_sound [] (d ∷ t) h = cc
text_eq_sound (c ∷ s) [] h = cc
text_eq_sound (c ∷ s) (d ∷ t) h = ground (arith, text_eq_sound s t)

pub text_eq_iff : (s t : Text) → (text_eq s t ≡ true) ↔ (s ≡ t)
text_eq_iff s t = (text_eq_sound s t, λ e. subst (λ u. text_eq s u ≡ true) e (text_eq_refl s))

module _ {ℓ} {V : Type ℓ} where
  -- `m.get(k)`
  abbrev pub find_key : Text → TextMap V → Option V
  find_key k [] = none
  find_key k (e ∷ m) = if text_eq k e.0 then some e.1 else find_key k m

  -- `m.set(k, v)` of a key that is not there yet.
  abbrev pub append_key : Text → V → TextMap V → TextMap V
  append_key k v m = m ++ (k, v) ∷ []

  -- `m.delete(k)`
  abbrev pub delete_key : Text → TextMap V → TextMap V
  delete_key k [] = []
  delete_key k (e ∷ m) = let rest = delete_key k m in if text_eq k e.0 then rest else e ∷ rest

  pub find_key-append_key :
      (k j : Text) (v : V) (m : TextMap V)
      → find_key k m ≡ none
      → find_key j (append_key k v m) ≡ (if text_eq k j then some v else find_key j m)
  find_key-append_key k j v [] h = ground (arith, text_eq_iff k j, text_eq_iff j k)
  find_key-append_key k j v (e ∷ m) h = ground (
    arith,
    text_eq_iff k j,
    text_eq_iff j k,
    text_eq_iff k e.0,
    text_eq_iff j e.0,
    find_key-append_key k j v m,
  )

  pub find_key-delete_key :
      (k j : Text) (m : TextMap V)
      → find_key j (delete_key k m) ≡ (if text_eq k j then none else find_key j m)
  find_key-delete_key k j [] = ground (arith, text_eq_iff k j)
  find_key-delete_key k j (e ∷ m) = ground (
    arith,
    text_eq_iff k j,
    text_eq_iff j k,
    text_eq_iff k e.0,
    text_eq_iff j e.0,
    find_key-delete_key k j m,
  )
