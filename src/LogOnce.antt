-- ===== src/LogOnce.antt =====
-- src/lib/log-once.ts: a problem is said loud once for each key and kind.
use io_broker_govee_smart.Base.{
  ℕ, suc, ◌-◌, ◌≤◌, ◌<◌, Bool, true, false, not, ◌&&◌, ◌||◌, String, List, [], ◌∷◌, Option, none,
  some, if◌then◌else◌, ltb, leb, arith, ◌≡◌, Map, lookup, insert, erase, length, str_eq, eq_iff,
  lookup-insert, if_cases, lookup-erase, Unique, Unique-insert, Unique-erase,
}

pub record Seen : Type 0 where
  pub kind : String
  pub at : ℕ

pub record LogOnceOptions : Type 0 where
  pub window_ms : Option ℕ
  pub max_keys : Option ℕ

-- Whether a remembered report makes this one a repeat.
unfoldable pub is_repeat : Option ℕ → Option Seen → String → ℕ → Bool
is_repeat window none kind now = false
is_repeat none (some last) kind now = str_eq last.kind kind
is_repeat (some window) (some last) kind now = str_eq last.kind kind && ltb (now - last.at) window

-- The oldest key goes where the memory is full.
unfoldable pub forget_oldest : Option ℕ → Map Seen → Map Seen
forget_oldest none m = m
forget_oldest (some most) [] = []
forget_oldest (some most) (e ∷ m) = if leb most (length (e ∷ m)) then m else e ∷ m

-- `report`: the memory, and whether the line went out loud. `kind` is `report.kind ?? text`.
unfoldable pub report : LogOnceOptions → Map Seen → String → String → ℕ → Map Seen × Bool
unfolding is_repeat forget_oldest
report options seen key kind now =
    if is_repeat options.window_ms (lookup key seen) kind now then (seen, false) else (
      insert key (record { kind = kind; at = now })
          (forget_oldest options.max_keys (erase key seen)),
      true,
    )

abbrev is_known : Option Seen → Bool
is_known none = false
is_known (some last) = true

-- `recovered`: whether the info line went out.
unfoldable pub recovered : Map Seen → String → Map Seen × Bool
recovered seen key = (erase key seen, is_known (lookup key seen))

unfoldable pub forget : Map Seen → String → Map Seen
forget seen key = erase key seen

length-erase : (key : String) (m : Map Seen) → length (erase key m) ≤ length m
length-erase key [] = omega arith
length-erase key (e ∷ m) = ground (arith, length-erase key m)

length-insert : (key : String) (v : Seen) (m : Map Seen) → length (insert key v m) ≤ suc (length m)
length-insert key v [] = omega arith
length-insert key v (e ∷ m) = ground (arith, length-insert key v m)

length-forget_oldest :
    (most : ℕ) (m : Map Seen)
    → 1 ≤ most
    → length m ≤ most
    → length (forget_oldest (some most) m) < most
unfolding forget_oldest
length-forget_oldest most [] p h = p
length-forget_oldest most (e ∷ m) p h = ground arith

-- With a cap of at least one key the memory never grows past it.
pub length-report :
    (options : LogOnceOptions) (most : ℕ) (seen : Map Seen) (key kind : String) (now : ℕ)
    → options.max_keys ≡ some most
    → 1 ≤ most
    → length seen ≤ most
    → length (report options seen key kind now).0 ≤ most
unfolding report
length-report options most seen key kind now o p h =
    let cut = forget_oldest (some most) (erase key seen) in
    rw o (
      if_cases (λ (r : Map Seen × Bool). length r.0 ≤ most)
        (is_repeat options.window_ms (lookup key seen) kind now) (λ e. h)
        (λ e. omega (
          arith,
          length-forget_oldest most (erase key seen) p (omega (arith, length-erase key seen)),
          length-insert key (record { kind = kind; at = now }) cut,
        )))

forget_oldest-Unique : (most : Option ℕ) (m : Map Seen) → Unique m → Unique (forget_oldest most m)
unfolding forget_oldest
forget_oldest-Unique none m u = u
forget_oldest-Unique (some most) [] u = tt
forget_oldest-Unique (some most) (e ∷ m) (n, u) =
    if_cases Unique (leb most (length (e ∷ m))) (λ _. u) (λ _. (n, u))

report-Unique :
    (options : LogOnceOptions) (seen : Map Seen) (key kind : String) (now : ℕ)
    → Unique seen
    → Unique (report options seen key kind now).0
unfolding report
report-Unique options seen key kind now u =
    if_cases (λ (r : Map Seen × Bool). Unique r.0)
      (is_repeat options.window_ms (lookup key seen) kind now) (λ e. u)
      λ e. Unique-insert key _ _ (forget_oldest-Unique options.max_keys _ (Unique-erase key seen u))

report_known :
    (options : LogOnceOptions) (m : Map Seen) (key kind : String) (now : ℕ)
    → (is_repeat options.window_ms (lookup key m) kind now ≡ true
        → (report options m key kind now).1 ≡ false)
      × (lookup key m ≡ none → (report options m key kind now).1 ≡ true)
unfolding report
report_known options m key kind now = (λ h. ground arith, λ h. rw h)

recovered-lookup : (m : Map Seen) (key : String) → Unique m → lookup key (recovered m key).0 ≡ none
unfolding recovered
recovered-lookup m key u = ground (arith, lookup-erase key key m u, eq_iff key key)

-- Neither a window nor a cap of the keys.
abbrev pub pure_latch : LogOnceOptions
pure_latch = record { window_ms = none; max_keys = none }

-- What reports do with the memory of a latch.
pub data LogEvent : Type 0 where
  reports : String → String → ℕ → LogEvent
  recovers forgets : String → LogEvent

unfoldable pub run_log : LogOnceOptions → Map Seen → List LogEvent → Map Seen
unfolding report recovered forget
run_log options m [] = m
run_log options m (reports key kind now ∷ es) = run_log options (report options m key kind now).0 es
run_log options m (recovers key ∷ es) = run_log options (recovered m key).0 es
run_log options m (forgets key ∷ es) = run_log options (forget m key) es

-- The problem lasts: its key does not recover, is not forgotten and does not report another kind.
unfoldable pub lasts : String → String → List LogEvent → Bool
lasts key kind [] = true
lasts key kind (reports k other now ∷ es) =
    (not (str_eq k key) || str_eq other kind) && lasts key kind es
lasts key kind (recovers k ∷ es) = not (str_eq k key) && lasts key kind es
lasts key kind (forgets k ∷ es) = not (str_eq k key) && lasts key kind es

-- The memory of a latch that holds every key: it holds the kind under the key, and each key once.
record IsLatched (key kind : String) (m : Map Seen) : Type 0 where
  known : is_repeat none (lookup key m) kind 0 ≡ true
  once : Unique m

report-IsLatched :
    (key kind k other : String) (now : ℕ) (m : Map Seen)
    → (not (str_eq k key) || str_eq other kind) ≡ true
    → IsLatched key kind m
    → IsLatched key kind (report (pure_latch) m k other now).0
unfolding report is_repeat forget_oldest
report-IsLatched key kind k other now m same h =
    let v : Seen = record { kind = other; at = now } in
    record {
      known = ground (
        arith,
        lookup-insert k key v (erase k m),
        lookup-erase k key m h.once,
        eq_iff k key,
        h.known,
      );
      once = report-Unique pure_latch m k other now h.once;
    }

erase-IsLatched :
    (key kind k : String) (m : Map Seen)
    → str_eq k key ≡ false
    → IsLatched key kind m
    → IsLatched key kind (erase k m)
unfolding is_repeat
erase-IsLatched key kind k m other h = record {
  known = ground (arith, lookup-erase k key m h.once, h.known);
  once = Unique-erase k m h.once;
}

run_log-IsLatched :
    (key kind : String) (m : Map Seen) (es : List LogEvent)
    → lasts key kind es ≡ true
    → IsLatched key kind m
    → IsLatched key kind (run_log (pure_latch) m es)
unfolding run_log lasts recovered forget
run_log-IsLatched key kind m [] l h = h
run_log-IsLatched key kind m (reports k other now ∷ es) l h =
    run_log-IsLatched key kind (report pure_latch m k other now).0 es (ground arith)
      (report-IsLatched key kind k other now m (ground arith) h)
run_log-IsLatched key kind m (recovers k ∷ es) l h =
    run_log-IsLatched key kind (erase k m) es (ground arith)
      (erase-IsLatched key kind k m (ground arith) h)
run_log-IsLatched key kind m (forgets k ∷ es) l h =
    run_log-IsLatched key kind (erase k m) es (ground arith)
      (erase-IsLatched key kind k m (ground arith) h)

-- A report makes its own kind the one that is held.
reported-IsLatched :
    (key kind : String) (now : ℕ) (m : Map Seen)
    → Unique m
    → IsLatched key kind (report (pure_latch) m key kind now).0
unfolding report is_repeat forget_oldest
reported-IsLatched key kind now m u =
    let v : Seen = record { kind = kind; at = now } in
    record {
      known =
          ground (arith, lookup-insert key key v (erase key m), eq_iff key key, eq_iff kind kind);
      once = report-Unique pure_latch m key kind now u;
    }

latched_silent :
    (key kind : String) (later : ℕ) (m : Map Seen)
    → IsLatched key kind m
    → (report (pure_latch) m key kind later).1 ≡ false
unfolding is_repeat
latched_silent key kind later m h =
    (report_known (pure_latch) m key kind later).0 (ground (arith, h.known))

-- With neither a window nor a cap of the keys: a problem that was reported is not said loud again,
-- whatever is reported, recovers or is forgotten in between, as long as it lasts: its key does not
-- recover, is not forgotten and reports no other kind. Once the key has recovered the same problem is
-- said loud again. (The memory holds each key once, as a `Map` does.)
pub report_latch :
    (seen : Map Seen) (key kind : String) (now later : ℕ) (es : List LogEvent)
    → Unique seen
    → lasts key kind es ≡ true
    → (let m = run_log pure_latch (report pure_latch seen key kind now).0 es in
        ((report pure_latch m key kind later).1 ≡ false)
        × ((report pure_latch (recovered m key).0 key kind later).1 ≡ true))
report_latch seen key kind now later es u l =
    let m = run_log pure_latch (report pure_latch seen key kind now).0 es in
    let h =
      run_log-IsLatched key kind (report pure_latch seen key kind now).0 es l
        (reported-IsLatched key kind now seen u) in
    (
      latched_silent key kind later m h,
      (report_known pure_latch (recovered m key).0 key kind later).1
          (recovered-lookup m key h.once),
    )
