-- ===== src/CallGate.antt =====
-- src/lib/call-gate.ts and the types of src/lib/api-limits.ts: the gate that keeps the short windows
-- of every counterpart. Times are milliseconds. A key is the record of the three parts that the
-- source joins with `|`; a `Map` read with a default is a function. A limit's `max` is at least 1.
pub mod Window
pub mod Runs
pub mod Tracks
pub mod Wait
use io_broker_govee_smart.Base.{
  ℕ, zero, suc, ◌+◌, ◌-◌, ◌*◌, min, max, Bool, true, false, not, ◌||◌, ◌&&◌, String, List, [], ◌∷◌,
  ◌++◌, Option, none, some, if◌then◌else◌, length, get_or, keep, ltb, leb, ◌==◌, str_eq, Map,
  lookup, insert, erase, or_else,
}
use io_broker_govee_smart.TimerMs.{min_rate_limit_retry_ms, max_rate_limit_retry_ms}

pub data Per : Type 0 where
  per_account per_host : Per

pub record ApiLimit : Type 0 where
  pub most : ℕ
  pub seconds : ℕ
  pub per : Per

pub record Counterpart : Type 0 where
  pub name : String
  pub limits : List ApiLimit

abbrev pub gate_max_window_seconds : ℕ
gate_max_window_seconds = 3600

abbrev pub default_retry_after_ms : ℕ
default_retry_after_ms = 60000

pub record GateKey : Type 0 where
  pub name : String
  pub index : ℕ
  pub scope : String

abbrev pub key_eq : GateKey → GateKey → Bool
key_eq a b = str_eq a.name b.name && (a.index == b.index && str_eq a.scope b.scope)

abbrev pub scope_of : Per → String → String
scope_of per_account host = ""
scope_of per_host host = host

abbrev pub gate_key : String → ℕ → ApiLimit → String → GateKey
gate_key name index limit host = record {
  name = name;
  index = index;
  scope = scope_of limit.per host;
}

abbrev pub Seen : Type 0
Seen = GateKey → List ℕ

abbrev pub put : GateKey → List ℕ → Seen → Seen
put key times seen k = if key_eq key k then times else seen k

-- The filter of `window`: `now - t < limit.seconds * 1000`, which also holds of a time to come.
abbrev pub in_window : ApiLimit → ℕ → ℕ → Bool
in_window limit now t = ltb now (t + limit.seconds * 1000)

-- `window`: what the gate still knows of the key, which it stores.
unfoldable pub window : Seen → GateKey → ApiLimit → ℕ → Seen × List ℕ
window seen key limit now =
    let kept = keep (in_window limit now) (seen key) in (put key kept seen, kept)

-- A round of the loop of `waitMs`.
unfoldable pub wait_limit : Seen → GateKey → ApiLimit → ℕ → ℕ → Seen × ℕ
unfolding window
wait_limit seen key limit now longest =
    if ltb gate_max_window_seconds limit.seconds
    then (seen, longest)
    else (let (s, times) = window seen key limit now in
        (
          s,
          if leb limit.most (length times)
              then max longest
                  (get_or times (length times - limit.most) 0 + limit.seconds * 1000 + 1 - now)
              else longest,
        ))

-- The loop of `waitMs` from the limit of this index on.
unfoldable pub wait_from : String → String → ℕ → ℕ → List ApiLimit → Seen → ℕ → Seen × ℕ
unfolding wait_limit
wait_from name host now index [] seen longest = (seen, longest)
wait_from name host now index (limit ∷ limits) seen longest =
    let (s, wait) = wait_limit seen (gate_key name index limit host) limit now longest in
    wait_from name host now (index + 1) limits s wait

unfoldable pub wait_ms : Seen → Counterpart → String → ℕ → Seen × ℕ
unfolding wait_from
wait_ms seen c host now = wait_from c.name host now 0 c.limits seen 0

-- The loop of `tryAdmit` that counts the call.
unfoldable pub count_from : String → String → ℕ → ℕ → List ApiLimit → Seen → Seen
count_from name host now index [] seen = seen
count_from name host now index (limit ∷ limits) seen =
    let key = gate_key name index limit host in
    count_from name host now (index + 1) limits (
      if leb limit.seconds gate_max_window_seconds
      then put key (seen key ++ now ∷ []) seen
      else seen)

-- The clock is read twice: for the test and for the count.
unfoldable pub try_admit : Seen → Counterpart → String → ℕ → ℕ → Seen × Bool
unfolding wait_ms count_from
try_admit seen c host now counted_at =
    let (s, wait) = wait_ms seen c host now in
    if ltb 0 wait then (s, false) else (count_from c.name host counted_at 0 c.limits s, true)

-- `heldMs`
unfoldable pub held_ms : Map ℕ → String → ℕ → Map ℕ × ℕ
held_ms held_until host now = elim (lookup host held_until) [
  | none ↦ (held_until, 0)
  | some until ↦ if leb until now then (erase host held_until, 0) else (held_until, until - now)
]

-- `hold`; `none` is a header that is missing or no whole number of seconds.
unfoldable pub hold : Map ℕ → String → Option ℕ → ℕ → Map ℕ
hold held_until host retry_after now =
    let ms : ℕ = elim retry_after [
      | none ↦ default_retry_after_ms
      | some seconds ↦ seconds * 1000
    ] in
    let hold_ms = min (max ms min_rate_limit_retry_ms) max_rate_limit_retry_ms in
    insert host (max (or_else (lookup host held_until) 0) (now + hold_ms)) held_until
