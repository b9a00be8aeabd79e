-- ===== src/CallGate/Runs.antt =====
-- src/lib/call-gate.ts: over any run, the calls that are let through keep every sliding window.
use mathlib.Core.List.{append-nil, append_assoc}
use mathlib.Core.Path.{subst}
use io_broker_govee_smart.Base.{
  ℕ, ◌+◌, ◌*◌, ◌≤◌, ◌<◌, Bool, true, false, ◌&&◌, List, [], ◌∷◌, ◌++◌, some, length, get_elem?,
  keep, ltb, leb, str_eq, arith, ◌≡◌, refl, ◌∙◌, ap, ◌⊎◌, All, if_cases, Bool-cases, inl, inr,
}
use io_broker_govee_smart.CallGate.{
  ApiLimit, gate_max_window_seconds, GateKey, Seen, in_window, wait_from, wait_ms, try_admit,
}
use io_broker_govee_smart.CallGate.Window.{
  hits, wait_from-other, count_from-other, wait_from-stored, count_from-stored,
}
use io_broker_govee_smart.CallGate.Tracks.{
  GateCall, step, counts_for, admitted_at, Runs, calls_in, HasLimit, Tracks, Tracks-left,
  Tracks-snoc, calls_in-snoc,
}

-- What a call does to the key: it is let through and counted where there is room, or it leaves the
-- key as it was, up to times that have left the window.
abbrev Stores : GateKey → ApiLimit → Seen → GateCall → Seen × Bool → Type 0
Stores key limit seen call r =
    let kept = keep (in_window limit call.now) (seen key) in
    (((r.1 && counts_for key limit call) ≡ false) × ((r.0 key ≡ seen key) ⊎ (r.0 key ≡ kept)))
    ⊎ (((r.1 && counts_for key limit call) ≡ true)
        × (r.0 key ≡ kept ++ call.counted_at ∷ [])
        × (length kept < limit.most))

module _ (key : GateKey) (limit : ApiLimit) (short : limit.seconds ≤ gate_max_window_seconds)
    (one : 1 ≤ limit.most) where
  step-other :
      (seen : Seen) (call : GateCall)
      → str_eq call.counterpart.name key.name ≡ false
      → Stores key limit seen call (step seen call)
  unfolding try_admit wait_ms
  step-other seen call h =
      let c = call.counterpart in
      let away : (str_eq c.name key.name && leb 0 key.index) ≡ false = ground arith in
      let s = wait_from c.name call.host call.now 0 c.limits seen 0 in
      let waited = wait_from-other key c.name call.host call.now 0 c.limits seen 0 away in
      let counted = count_from-other key c.name call.host call.counted_at 0 c.limits s.0 away in
      if_cases (Stores key limit seen call) call.asks_only (λ e. inl (refl, inl waited))
        λ e.
          if_cases (Stores key limit seen call) (ltb 0 s.1) (λ w. inl (refl, inl waited))
            λ w. inl (rw h refl, inl (counted ∙ waited))

  step-same :
      (seen : Seen) (call : GateCall)
      → get_elem? call.counterpart.limits key.index ≡ some limit
      → Stores key limit seen call (step seen call)
  unfolding try_admit wait_ms
  step-same seen call at =
      let c = call.counterpart in
      let hit = hits key limit c.name call.host in
      let kept = keep (in_window limit call.now) (seen key) in
      let s = wait_from c.name call.host call.now 0 c.limits seen 0 in
      let waited =
        wait_from-stored key limit short one c.name call.host call.now 0 key.index c.limits seen 0
          at (omega arith) in
      let counted =
        count_from-stored key limit short one c.name call.host call.counted_at 0 key.index c.limits
          s.0 at (omega arith) in
      elim (Bool-cases hit) [
        | inl h ↦
            let stored : s.0 key ≡ kept = waited.0 ∙ rw h refl in
            if_cases (Stores key limit seen call) call.asks_only (λ e. inl (refl, inr stored))
              λ e.
                if_cases (Stores key limit seen call) (ltb 0 s.1) (λ w. inl (refl, inr stored))
                  λ w. inr (
                    h,
                    counted ∙ (rw h (ap (λ l. l ++ call.counted_at ∷ []) stored)),
                    room (length kept) limit.most s.1 w (waited.1 h),
                  )
        | inr h ↦
            let stored : s.0 key ≡ seen key = waited.0 ∙ rw h refl in
            if_cases (Stores key limit seen call) call.asks_only (λ e. inl (refl, inl stored))
              λ e.
                if_cases (Stores key limit seen call) (ltb 0 s.1) (λ w. inl (refl, inl stored))
                  λ w. inl (h, inl (counted ∙ (rw h stored)))
      ]
    where
      room : (size most wait : ℕ) → ltb 0 wait ≡ false → (most ≤ size → 0 < wait) → size < most
      room size most wait w f = ground arith

  step-Stores :
      (seen : Seen) (call : GateCall)
      → HasLimit key limit call
      → Stores key limit seen call (step seen call)
  step-Stores seen call at = elim (Bool-cases (str_eq call.counterpart.name key.name)) [
    | inl e ↦ step-same seen call (at e)
    | inr e ↦ step-other seen call e
  ]

  calls_in-admitted_at :
      (from now : ℕ) (history : List ℕ) (seen : Seen) (calls : List GateCall)
      → All (HasLimit key limit) calls
      → Runs now calls
      → Tracks limit now history (seen key)
      → calls_in from (from + limit.seconds * 1000) history ≤ limit.most
      → calls_in from (from + limit.seconds * 1000) (history ++ admitted_at key limit seen calls)
        ≤ limit.most
  unfolding admitted_at
  calls_in-admitted_at from now history seen [] at runs tracks before = rw append-nil before
  calls_in-admitted_at from now history seen (call ∷ calls) (at, more_at) (le, le_counted, runs)
        tracks before =
      let r = step seen call in
      let now_tracks : Tracks limit call.now history (seen key) =
        λ later l. tracks later (omega arith) in
      let rest = admitted_at key limit r.0 calls in
      let until = from + limit.seconds * 1000 in
      elim (step-Stores seen call at) [
        | inl (quiet, left) ↦
            let ih =
              calls_in-admitted_at from call.counted_at history r.0 calls more_at runs
                (Tracks-left limit call.now call.counted_at history (seen key) (r.0 key) le_counted
                  now_tracks left)
                before in
            rw quiet ih
        | inr (told, stored, room) ↦
            let ih =
              calls_in-admitted_at from call.counted_at (history ++ call.counted_at ∷ []) r.0 calls
                more_at runs
                (Tracks-snoc limit call.now call.counted_at history (seen key) (r.0 key) le_counted
                  now_tracks stored)
                (calls_in-snoc limit from call.now call.counted_at history (seen key) le_counted
                  now_tracks room before) in
            rw told (
              subst (λ l. calls_in from until l ≤ limit.most)
                (append_assoc history (call.counted_at ∷ []) rest) ih)
      ]

-- Whatever calls come to the gate, of this and of other counterparts, that ask or are let through at
-- times that do not go back: in each time span of the limit's window, wherever it begins, at most
-- `most` of the calls that count for the key are let through.
pub gate_keeps_window :
    (key : GateKey) (limit : ApiLimit) (start from : ℕ) (calls : List GateCall)
    → limit.seconds ≤ gate_max_window_seconds
    → 1 ≤ limit.most
    → All (HasLimit key limit) calls
    → Runs start calls
    → calls_in from (from + limit.seconds * 1000) (admitted_at key limit (λ k. []) calls)
      ≤ limit.most
gate_keeps_window key limit start from calls short one at runs =
    calls_in-admitted_at key limit short one from start [] (λ k. []) calls at runs
      (λ later le. refl) (omega arith)
