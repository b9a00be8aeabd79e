-- ===== src/Base/Windows.antt =====
-- Times in the order in which they were noted, and those that a sliding window still holds.
use Prim.Native.Nat.{ℕ, zero, suc, ◌+◌, ◌≤◌, ◌<◌}
use mathlib.Core.Bool.{Bool}
use mathlib.Core.List.{List, [], ◌∷◌}
use native.Mathlib.Omega.{arith}
use io_broker_govee_smart.Base.Tests.{ltb, if_cases}
use io_broker_govee_smart.Base.Lists.{length, get_or, keep, length-keep, All, All-keep}

abbrev pub is_recent : ℕ → ℕ → ℕ → Bool
is_recent window now t = ltb now (t + window)

abbrev pub IsOrdered : List ℕ → Type 0
IsOrdered [] = Unit
IsOrdered (t ∷ ts) = All (λ u. t ≤ u) ts × IsOrdered ts

get_or-All : (t i : ℕ) (ts : List ℕ) → All (λ u. t ≤ u) ts → i < length ts → t ≤ get_or ts i 0
get_or-All t i [] h lt = absurd (omega arith)
get_or-All t zero (u ∷ ts) (p, h) lt = p
get_or-All t (suc i) (u ∷ ts) (p, h) lt = get_or-All t i ts h (omega arith)

-- When the time at an index has left the window, so have those before it.
pub length-keep-is_recent :
    (window later i : ℕ) (ts : List ℕ)
    → IsOrdered ts
    → i < length ts
    → get_or ts i 0 + window ≤ later
    → length (keep (is_recent window later) ts) + i < length ts
length-keep-is_recent window later i [] h lt gone = absurd (omega arith)
length-keep-is_recent window later zero (t ∷ ts) (lo, h) lt gone =
    ground (arith, length-keep (is_recent window later) ts)
length-keep-is_recent window later (suc i) (t ∷ ts) (lo, h) lt gone =
    let first = get_or-All t i ts lo (omega arith) in
    let ih = length-keep-is_recent window later i ts h (omega arith) gone in ground arith

pub IsOrdered-keep : (p : ℕ → Bool) (ts : List ℕ) → IsOrdered ts → IsOrdered (keep p ts)
IsOrdered-keep p [] h = tt
IsOrdered-keep p (t ∷ ts) (lo, h) =
    if_cases IsOrdered (p t) (λ e. (All-keep (λ u. t ≤ u) p ts lo, IsOrdered-keep p ts h))
      (λ e. IsOrdered-keep p ts h)
