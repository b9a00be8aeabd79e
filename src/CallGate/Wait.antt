-- ===== src/CallGate/Wait.antt =====
-- src/lib/call-gate.ts: the wait that the gate names is enough, so the loop of `admit` ends.
use mathlib.Core.Path.{subst}
use io_broker_govee_smart.Base.{
  ℕ, zero, suc, ◌+◌, ◌-◌, ◌*◌, ◌≤◌, ◌<◌, true, false, String, List, [], ◌∷◌, some, length,
  length-keep, get_or, get_elem?, keep, ltb, leb, eq_iff, arith, ◌≡◌, refl, sym, ◌∙◌, ap, All,
  Bool-cases, inl, inr, IsOrdered, IsOrdered-keep, length-keep-is_recent,
}
use io_broker_govee_smart.CallGate.{
  ApiLimit, Counterpart, gate_max_window_seconds, GateKey, scope_of, gate_key, Seen, in_window,
  window, wait_limit, wait_from, wait_ms, try_admit,
}
use io_broker_govee_smart.CallGate.Window.{
  hits, wait_from-longest, wait_limit-other, key_eq-index, wait_from-stored,
}

-- The end of the wait that a full window asks for.
abbrev free_at : ApiLimit → List ℕ → ℕ
free_at limit times = get_or times (length times - limit.most) 0 + limit.seconds * 1000 + 1

wait_limit-covers :
    (seen : Seen) (key : GateKey) (limit : ApiLimit) (now longest : ℕ)
    → limit.seconds ≤ gate_max_window_seconds
    → limit.most ≤ length (keep (in_window limit now) (seen key))
    → free_at limit (keep (in_window limit now) (seen key))
      ≤ now + (wait_limit seen key limit now longest).1
unfolding wait_limit window
wait_limit-covers seen key limit now longest short full =
    let times = keep (in_window limit now) (seen key) in
    let q : ltb gate_max_window_seconds limit.seconds ≡ false = ground arith in
    let r : leb limit.most (length times) ≡ true = ground arith in rw (q, r) (omega arith)

wait_from-covers :
    (limit : ApiLimit) (name host : String) (now index j : ℕ) (limits : List ApiLimit) (seen : Seen)
    (longest : ℕ)
    → limit.seconds ≤ gate_max_window_seconds
    → get_elem? limits j ≡ some limit
    → (let times = keep (in_window limit now) (seen (gate_key name (index + j) limit host)) in
        limit.most ≤ length times
        → free_at limit times ≤ now + (wait_from name host now index limits seen longest).1)
unfolding wait_from
wait_from-covers limit name host now index j [] seen longest short at = absurd cc
wait_from-covers limit name host now index zero (l ∷ limits) seen longest short at =
    let here : index + 0 ≡ index = omega arith in
    let equal : limit ≡ l = cc in
    λ full.
      let key = gate_key name index l host in
      let r = wait_limit seen key l now longest in
      let full_here : l.most ≤ length (keep (in_window l now) (seen key)) =
        subst
          (λ (x : ApiLimit).
            x.most ≤ length (keep (in_window x now) (seen (gate_key name index x host))))
          equal
          (subst
            (λ n.
              limit.most ≤ length (keep (in_window limit now) (seen (gate_key name n limit host))))
            here full) in
      let covers =
        wait_limit-covers seen key l now longest
          (subst (λ (x : ApiLimit). x.seconds ≤ gate_max_window_seconds) equal short) full_here in
      let long = wait_from-longest name host now (index + 1) limits r.0 r.1 in
      let goal : free_at l (keep (in_window l now) (seen key))
          ≤ now + (wait_from name host now (index + 1) limits r.0 r.1).1 =
        omega (arith, covers, long) in
      subst
        (λ n.
          free_at limit (keep (in_window limit now) (seen (gate_key name n limit host)))
          ≤ now + (wait_from name host now (index + 1) limits r.0 r.1).1)
        (sym here)
        (subst
          (λ (x : ApiLimit).
            free_at x (keep (in_window x now) (seen (gate_key name index x host)))
            ≤ now + (wait_from name host now (index + 1) limits r.0 r.1).1)
          (sym equal) goal)
wait_from-covers limit name host now index (suc j) (l ∷ limits) seen longest short at =
    let head = gate_key name index l host in
    let r = wait_limit seen head l now longest in
    let next : index + suc j ≡ index + 1 + j = omega arith in
    let key = gate_key name (index + 1 + j) limit host in
    let before =
      wait_limit-other seen head key l now longest (key_eq-index head key (omega arith)) in
    let ih = wait_from-covers limit name host now (index + 1) j limits r.0 r.1 short at in
    subst
      (λ n.
        limit.most ≤ length (keep (in_window limit now) (seen (gate_key name n limit host)))
        → free_at limit (keep (in_window limit now) (seen (gate_key name n limit host)))
          ≤ now + (wait_from name host now (index + 1) limits r.0 r.1).1)
      (sym next)
      (subst
        (λ times.
          limit.most ≤ length (keep (in_window limit now) times)
          → free_at limit (keep (in_window limit now) times)
            ≤ now + (wait_from name host now (index + 1) limits r.0 r.1).1)
        before ih)

-- There is room in each window that the gate keeps.
abbrev HasRoom : String → String → ℕ → ℕ → List ApiLimit → Seen → Type 0
HasRoom name host now index limits seen =
    (j : ℕ) (limit : ApiLimit)
    → get_elem? limits j ≡ some limit
    → limit.seconds ≤ gate_max_window_seconds
    → length (keep (in_window limit now) (seen (gate_key name (index + j) limit host))) < limit.most

wait_limit-free :
    (seen : Seen) (key : GateKey) (limit : ApiLimit) (now : ℕ)
    → (limit.seconds ≤ gate_max_window_seconds
        → length (keep (in_window limit now) (seen key)) < limit.most)
    → (wait_limit seen key limit now 0).1 ≡ 0
unfolding wait_limit window
wait_limit-free seen key limit now room =
    elim (Bool-cases (ltb gate_max_window_seconds limit.seconds)) [
      | inl e ↦ rw e refl
      | inr e ↦
          let small = room (ground arith) in
          let q : leb limit.most (length (keep (in_window limit now) (seen key))) ≡ false =
            ground arith in
          rw (e, q) refl
    ]

wait_from-free :
    (name host : String) (now index : ℕ) (limits : List ApiLimit) (seen : Seen)
    → HasRoom name host now index limits seen
    → (wait_from name host now index limits seen 0).1 ≡ 0
unfolding wait_from
wait_from-free name host now index [] seen room = refl
wait_from-free name host now index (l ∷ limits) seen room =
    let key = gate_key name index l host in
    let r = wait_limit seen key l now 0 in
    let here : index + 0 ≡ index = omega arith in
    let free = wait_limit-free seen key l now (λ short.
      subst (λ n. length (keep (in_window l now) (seen (gate_key name n l host))) < l.most) here
        (room zero l refl short)) in
    let rest = wait_from-free name host now (index + 1) limits r.0 (λ j limit at short.
      let other = gate_key name (index + 1 + j) limit host in
      let next : index + suc j ≡ index + 1 + j = omega arith in
      let same = wait_limit-other seen key other l now 0 (key_eq-index key other (omega arith)) in
      subst (λ times. length (keep (in_window limit now) times) < limit.most) (sym same)
        (subst
          (λ n.
            length (keep (in_window limit now) (seen (gate_key name n limit host))) < limit.most)
          next (room (suc j) limit at short))) in
    ap (λ w. (wait_from name host now (index + 1) limits r.0 w).1) free ∙ rest

-- On ordered times a window has room once the wait that it asked for is over.
room_later :
    (limit : ApiLimit) (now later : ℕ) (times : List ℕ)
    → 1 ≤ limit.most
    → IsOrdered times
    → (limit.most ≤ length (keep (in_window limit now) times)
        → free_at limit (keep (in_window limit now) times) ≤ later)
    → length (keep (in_window limit later) (keep (in_window limit now) times)) < limit.most
room_later limit now later times one ordered covers =
    let kept = keep (in_window limit now) times in
    let fewer = length-keep (in_window limit later) kept in
    elim (Bool-cases (leb limit.most (length kept))) [
      | inl e ↦
          let free = covers (ground arith) in
          let gone =
            length-keep-is_recent (limit.seconds * 1000) later (length kept - limit.most) kept
              (IsOrdered-keep (in_window limit now) times ordered) (ground arith)
              (omega (arith, free)) in
          ground (arith, gone)
      | inr e ↦ ground (arith, fewer)
    ]

All-get_elem? :
    (limits : List ApiLimit) (j : ℕ) (limit : ApiLimit)
    → All (λ (l : ApiLimit). 1 ≤ l.most) limits
    → get_elem? limits j ≡ some limit
    → 1 ≤ limit.most
All-get_elem? [] j limit h at = absurd cc
All-get_elem? (l ∷ limits) zero limit (p, h) at =
    let e : l ≡ limit = cc in subst (λ (x : ApiLimit). 1 ≤ x.most) e p
All-get_elem? (l ∷ limits) (suc j) limit (p, h) at = All-get_elem? limits j limit h at

hits_self :
    (limit : ApiLimit) (name host : String) (i : ℕ)
    → hits (gate_key name i limit host) limit name host ≡ true
hits_self limit name host i =
    ground (arith, eq_iff name name, eq_iff (scope_of limit.per host) (scope_of limit.per host))

-- The wait is enough: a call that comes when it is over, with no other call meanwhile, is let
-- through. (Each limit has a maximum of at least 1, and the gate has noted its times in order.)
pub try_admit_after_wait :
    (seen : Seen) (c : Counterpart) (host : String) (now later counted_at : ℕ)
    → All (λ (l : ApiLimit). 1 ≤ l.most) c.limits
    → ((key : GateKey) → IsOrdered (seen key))
    → now + (wait_ms seen c host now).1 ≤ later
    → (try_admit (wait_ms seen c host now).0 c host later counted_at).1 ≡ true
unfolding try_admit wait_ms
try_admit_after_wait seen c host now later counted_at one ordered over =
    let s = (wait_from c.name host now 0 c.limits seen 0).0 in
    let free = wait_from-free c.name host later 0 c.limits s (λ j limit at short.
      let key = gate_key c.name (0 + j) limit host in
      let most = All-get_elem? c.limits j limit one at in
      let covers = wait_from-covers limit c.name host now 0 j c.limits seen 0 short at in
      let stored =
        wait_from-stored key limit short most c.name host now 0 j c.limits seen 0 at refl in
      let hit : hits key limit c.name host ≡ true = hits_self limit c.name host (0 + j) in
      let same : s key ≡ keep (in_window limit now) (seen key) = stored.0 ∙ rw hit refl in
      subst (λ times. length (keep (in_window limit later) times) < limit.most) (sym same)
        (room_later limit now later (seen key) most (ordered key)
          (λ full. let f = covers full in omega (arith, f, over)))) in
    rw free refl
