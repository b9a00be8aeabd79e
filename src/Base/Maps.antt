-- ===== src/Base/Maps.antt =====
-- JavaScript's `Map` and `Set` with text keys: an association list in insertion order.
use Prim.Native.String.{String}
use mathlib.Core.Path.{◌≡◌, refl}
use mathlib.Core.Bool.{Bool, true, false, ◌||◌}
use mathlib.Core.List.{List, [], ◌∷◌, ◌++◌}
use mathlib.Core.Option.{Option, none, some}
use mathlib.Core.Logic.{inl, inr}
use native.Mathlib.Omega.{arith}
use text.Mathlib.Text.{◌==◌}
use text.Mathlib.TextEquality.{eq_iff}
use io_broker_govee_smart.Base.Tests.{if◌then◌else◌, or_else, Bool-cases}
use io_broker_govee_smart.Base.Lists.{All}

abbrev pub Map {ℓ} : Type ℓ → Type ℓ
Map V = List (String × V)

module _ {ℓ} {V : Type ℓ} where
  -- `m.get(k)`
  abbrev pub lookup : String → Map V → Option V
  lookup k [] = none
  lookup k (e ∷ m) = if k == e.0 then some e.1 else lookup k m

  -- `m.set(k, v)`: a known key keeps its place, a new one goes to the end.
  abbrev pub insert : String → V → Map V → Map V
  insert k v [] = (k, v) ∷ []
  insert k v (e ∷ m) = if k == e.0 then (e.0, v) ∷ m else e ∷ insert k v m

  -- `m.delete(k)`
  abbrev pub erase : String → Map V → Map V
  erase k [] = []
  erase k (e ∷ m) = if k == e.0 then m else e ∷ erase k m

  pub lookup-insert :
      (k j : String) (v : V) (m : Map V)
      → lookup j (insert k v m) ≡ (if k == j then some v else lookup j m)
  lookup-insert k j v [] = ground (arith, eq_iff k j, eq_iff j k)
  lookup-insert k j v (e ∷ m) =
      ground (arith, eq_iff k j, eq_iff j k, eq_iff k e.0, eq_iff j e.0, lookup-insert k j v m)

  -- Each key stands once.
  abbrev pub Unique : Map V → Type ℓ
  Unique [] = Unit
  Unique (e ∷ m) = (lookup e.0 m ≡ none) × Unique m

  pub lookup-erase :
      (k j : String) (m : Map V)
      → Unique m
      → lookup j (erase k m) ≡ (if k == j then none else lookup j m)
  lookup-erase k j [] u = ground (arith, eq_iff k j)
  lookup-erase k j (e ∷ m) u =
      ground (arith, eq_iff k j, eq_iff j k, eq_iff k e.0, eq_iff j e.0, lookup-erase k j m)

  pub Unique-insert : (k : String) (v : V) (m : Map V) → Unique m → Unique (insert k v m)
  Unique-insert k v [] u = (refl, tt)
  Unique-insert k v (e ∷ m) (n, u) = elim (Bool-cases (k == e.0)) [
    | inl same ↦ rw same (n, u)
    | inr other ↦ rw other (ground (arith, lookup-insert k e.0 v m), Unique-insert k v m u)
  ]

  pub Unique-erase : (k : String) (m : Map V) → Unique m → Unique (erase k m)
  Unique-erase k [] u = tt
  Unique-erase k (e ∷ m) (n, u) = elim (Bool-cases (k == e.0)) [
    | inl same ↦ rw same u
    | inr other ↦ rw other (ground (arith, lookup-erase k e.0 m u), Unique-erase k m u)
  ]

module _ {ℓ κ} {V : Type ℓ} (P : V → Type κ) where
  abbrev pub Values : Map V → Type κ
  Values m = All (λ e. P e.1) m

  pub Values-insert : (k : String) (v : V) (m : Map V) → P v → Values m → Values (insert k v m)
  Values-insert k v [] p h = (p, tt)
  Values-insert k v (e ∷ m) p (q, h) = step (k == e.0) (Values-insert k v m p h)
    where
      step :
          (b : Bool) → Values (insert k v m) → Values (if b then (e.0, v) ∷ m else e ∷ insert k v m)
      step true r = (p, h)
      step false r = (q, r)

  pub Values-lookup : (k : String) (d : V) (m : Map V) → P d → Values m → P (or_else (lookup k m) d)
  Values-lookup k d [] p h = p
  Values-lookup k d (e ∷ m) p (q, h) = step (k == e.0) (Values-lookup k d m p h)
    where
      step :
          (b : Bool)
          → P (or_else (lookup k m) d)
          → P (or_else (if b then some e.1 else lookup k m) d)
      step true r = q
      step false r = r

-- `s.has(k)` and `s.add(k)` of a `Set`.
abbrev pub member : String → List String → Bool
member k [] = false
member k (x ∷ xs) = k == x || member k xs

abbrev pub add : String → List String → List String
add k xs = if member k xs then xs else xs ++ k ∷ []
