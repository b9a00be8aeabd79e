-- ===== src/CallGate/Window.antt =====
-- src/lib/call-gate.ts: what the loops of the gate store under one key, and when they make a call
-- wait.
use mathlib.Core.Path.{subst}
use io_broker_govee_smart.Base.{
  ℕ, zero, suc, ◌+◌, ◌-◌, ◌*◌, ◌≤◌, ◌<◌, Bool, true, false, ◌&&◌, String, List, [], ◌∷◌, ◌++◌, some,
  if◌then◌else◌, length, get_or, get_elem?, keep, ltb, leb, str_eq, eq_iff, arith, ◌≡◌, refl, sym,
  ◌∙◌, ap, All, if_cases,
}
use io_broker_govee_smart.CallGate.{
  ApiLimit, gate_max_window_seconds, GateKey, key_eq, scope_of, gate_key, Seen, put, in_window,
  window, wait_limit, wait_from, count_from,
}

pub wait_from-longest :
    (name host : String) (now index : ℕ) (limits : List ApiLimit) (seen : Seen) (longest : ℕ)
    → longest ≤ (wait_from name host now index limits seen longest).1
unfolding wait_from wait_limit
wait_from-longest name host now index [] seen longest = omega arith
wait_from-longest name host now index (l ∷ limits) seen longest =
    let r = wait_limit seen (gate_key name index l host) l now longest in
    let ih = wait_from-longest name host now (index + 1) limits r.0 r.1 in ground (arith, ih)

-- A key of another name or of a smaller index is left as it is.
pub wait_from-other :
    (key : GateKey) (name host : String) (now index : ℕ) (limits : List ApiLimit) (seen : Seen)
    (longest : ℕ)
    → (str_eq name key.name && leb index key.index) ≡ false
    → (wait_from name host now index limits seen longest).0 key ≡ seen key
unfolding wait_from wait_limit window
wait_from-other key name host now index [] seen longest h = refl
wait_from-other key name host now index (l ∷ limits) seen longest h =
    let r = wait_limit seen (gate_key name index l host) l now longest in
    let ih = wait_from-other key name host now (index + 1) limits r.0 r.1 (ground arith) in
    ground (arith, ih)

pub count_from-other :
    (key : GateKey) (name host : String) (now index : ℕ) (limits : List ApiLimit) (seen : Seen)
    → (str_eq name key.name && leb index key.index) ≡ false
    → count_from name host now index limits seen key ≡ seen key
unfolding count_from
count_from-other key name host now index [] seen h = refl
count_from-other key name host now index (l ∷ limits) seen h =
    let k = gate_key name index l host in
    let s : Seen =
      if leb l.seconds gate_max_window_seconds then put k (seen k ++ now ∷ []) seen else seen in
    let ih = count_from-other key name host now (index + 1) limits s (ground arith) in
    ground (arith, ih)

module _ (limit : ApiLimit) where
  get_or-window :
      (now i : ℕ) (times : List ℕ)
      → All (λ t. in_window limit now t ≡ true) times
      → i < length times
      → now < get_or times i 0 + limit.seconds * 1000
  get_or-window now i [] h lt = absurd (omega arith)
  get_or-window now zero (t ∷ times) (p, h) lt = ground arith
  get_or-window now (suc i) (t ∷ times) (p, h) lt = get_or-window now i times h (omega arith)

  keep-window :
      (now : ℕ) (times : List ℕ)
      → All (λ t. in_window limit now t ≡ true) (keep (in_window limit now) times)
  keep-window now [] = tt
  keep-window now (t ∷ times) =
      if_cases (All (λ t. in_window limit now t ≡ true)) (in_window limit now t)
        (λ e. (e, keep-window now times)) (λ e. keep-window now times)

  -- A full window makes the call wait.
  wait_limit-full :
      (seen : Seen) (key : GateKey) (now longest : ℕ)
      → limit.seconds ≤ gate_max_window_seconds
      → 1 ≤ limit.most
      → limit.most ≤ length (keep (in_window limit now) (seen key))
      → 0 < (wait_limit seen key limit now longest).1
  unfolding wait_limit window
  wait_limit-full seen key now longest short one full =
      let times = keep (in_window limit now) (seen key) in
      let oldest =
        get_or-window now (length times - limit.most) times (keep-window now (seen key))
          (omega arith) in
      let q : ltb gate_max_window_seconds limit.seconds ≡ false = ground arith in
      let r : leb limit.most (length times) ≡ true = ground arith in
      rw (q, r) (omega (arith, oldest))

  wait_limit-stored :
      (seen : Seen) (key : GateKey) (now longest : ℕ) (k : GateKey)
      → limit.seconds ≤ gate_max_window_seconds
      → (wait_limit seen key limit now longest).0 k
        ≡ (if key_eq key k then keep (in_window limit now) (seen key) else seen k)
  unfolding wait_limit window
  wait_limit-stored seen key now longest k short =
      let q : ltb gate_max_window_seconds limit.seconds ≡ false = ground arith in rw q refl

pub key_eq-index : (a b : GateKey) → a.index < b.index → key_eq a b ≡ false
key_eq-index a b h = ground arith

pub wait_limit-other :
    (seen : Seen) (key k : GateKey) (limit : ApiLimit) (now longest : ℕ)
    → key_eq key k ≡ false
    → (wait_limit seen key limit now longest).0 k ≡ seen k
unfolding wait_limit window
wait_limit-other seen key k limit now longest h = ground arith

abbrev pub hits : GateKey → ApiLimit → String → String → Bool
hits key limit name host = str_eq name key.name && str_eq (scope_of limit.per host) key.scope

key_eq-hits :
    (key : GateKey) (limit : ApiLimit) (name host : String) (index : ℕ)
    → key.index ≡ index
    → key_eq (gate_key name index limit host) key ≡ hits key limit name host
key_eq-hits key limit name host index h = ground arith

key_eq_sound : (a b : GateKey) → key_eq a b ≡ true → a ≡ b
key_eq_sound a b h =
    let names = (eq_iff a.name b.name).0 (ground arith) in
    let scopes = (eq_iff a.scope b.scope).0 (ground arith) in
    let indices : a.index ≡ b.index = ground arith in cc

-- What is stored under an equal key is stored under this key.
at_gate :
    (key : GateKey) (f : List ℕ → List ℕ) (b : Bool) (gate : GateKey) (seen : Seen)
    → key_eq gate key ≡ b
    → (if key_eq gate key then f (seen gate) else seen key) ≡ (if b then f (seen key) else seen key)
at_gate key f true gate seen e =
    if_cases (λ (l : List ℕ). l ≡ f (seen key)) (key_eq gate key)
      (λ t. ap (λ k. f (seen k)) (key_eq_sound gate key e)) (λ t. absurd cc)
at_gate key f false gate seen e =
    if_cases (λ (l : List ℕ). l ≡ seen key) (key_eq gate key) (λ t. absurd cc) (λ t. refl)

module _ (key : GateKey) (limit : ApiLimit) (short : limit.seconds ≤ gate_max_window_seconds)
    (one : 1 ≤ limit.most) where
  wait_from-first :
      (name host : String) (now index : ℕ) (limits : List ApiLimit) (seen : Seen) (longest : ℕ)
      → key.index ≡ index
      → ((wait_from name host now index (limit ∷ limits) seen longest).0 key
          ≡ (if hits key limit name host then keep (in_window limit now) (seen key) else seen key))
        × (hits key limit name host ≡ true
            → limit.most ≤ length (keep (in_window limit now) (seen key))
            → 0 < (wait_from name host now index (limit ∷ limits) seen longest).1)
  unfolding wait_from
  wait_from-first name host now index limits seen longest same =
      let gate = gate_key name index limit host in
      let r = wait_limit seen gate limit now longest in
      let rest = wait_from-other key name host now (index + 1) limits r.0 r.1 (ground arith) in
      let stored = wait_limit-stored limit seen gate now longest key short in
      let hit = key_eq-hits key limit name host index same in
      (
        rest
            ∙ (stored
                ∙ at_gate key (λ times. keep (in_window limit now) times) (hits key limit name host)
                    gate seen hit),
        λ h full.
            let equal = key_eq_sound gate key (hit ∙ h) in
            let full_gate : limit.most ≤ length (keep (in_window limit now) (seen gate)) =
              subst (λ k. limit.most ≤ length (keep (in_window limit now) (seen k))) (sym equal)
                full in
            let waits = wait_limit-full limit seen gate now longest short one full_gate in
            let long = wait_from-longest name host now (index + 1) limits r.0 r.1 in
            omega (arith, waits, long),
      )

  pub wait_from-stored :
      (name host : String) (now index j : ℕ) (limits : List ApiLimit) (seen : Seen) (longest : ℕ)
      → get_elem? limits j ≡ some limit
      → key.index ≡ index + j
      → ((wait_from name host now index limits seen longest).0 key
          ≡ (if hits key limit name host then keep (in_window limit now) (seen key) else seen key))
        × (hits key limit name host ≡ true
            → limit.most ≤ length (keep (in_window limit now) (seen key))
            → 0 < (wait_from name host now index limits seen longest).1)
  unfolding wait_from
  wait_from-stored name host now index j [] seen longest at same = absurd cc
  wait_from-stored name host now index zero (l ∷ limits) seen longest at same =
      let equal : limit ≡ l = cc in
      let first = wait_from-first name host now index limits seen longest (omega arith) in
      subst
        (λ x.
          ((wait_from name host now index (x ∷ limits) seen longest).0 key ≡ (
            if hits key limit name host then keep (in_window limit now) (seen key) else seen key))
          × (hits key limit name host ≡ true
              → limit.most ≤ length (keep (in_window limit now) (seen key))
              → 0 < (wait_from name host now index (x ∷ limits) seen longest).1))
        equal first
  wait_from-stored name host now index (suc j) (l ∷ limits) seen longest at same =
      let r = wait_limit seen (gate_key name index l host) l now longest in
      let before =
        wait_limit-other seen (gate_key name index l host) key l now longest
          (key_eq-index (gate_key name index l host) key (omega arith)) in
      let ih = wait_from-stored name host now (index + 1) j limits r.0 r.1 at (omega arith) in
      (
        ih.0 ∙ rw before refl,
        λ h full. ih.1 h (
            subst (λ times. limit.most ≤ length (keep (in_window limit now) times)) (sym before)
              full),
      )

  count_from-first :
      (name host : String) (now index : ℕ) (limits : List ApiLimit) (seen : Seen)
      → key.index ≡ index
      → count_from name host now index (limit ∷ limits) seen key
        ≡ (if hits key limit name host then seen key ++ now ∷ [] else seen key)
  unfolding count_from
  count_from-first name host now index limits seen same =
      let gate = gate_key name index limit host in
      let q : leb limit.seconds gate_max_window_seconds ≡ true = ground arith in
      let rest =
        count_from-other key name host now (index + 1) limits
          (put gate (seen gate ++ now ∷ []) seen) (ground arith) in
      let hit = key_eq-hits key limit name host index same in
      if_cases
        (λ (s : Seen).
          count_from name host now (index + 1) limits s key
          ≡ (if hits key limit name host then seen key ++ now ∷ [] else seen key))
        (leb limit.seconds gate_max_window_seconds)
        (λ e.
          rest ∙ at_gate key (λ times. times ++ now ∷ []) (hits key limit name host) gate seen hit)
        (λ e. absurd cc)

  pub count_from-stored :
      (name host : String) (now index j : ℕ) (limits : List ApiLimit) (seen : Seen)
      → get_elem? limits j ≡ some limit
      → key.index ≡ index + j
      → count_from name host now index limits seen key
        ≡ (if hits key limit name host then seen key ++ now ∷ [] else seen key)
  unfolding count_from
  count_from-stored name host now index j [] seen at same = absurd cc
  count_from-stored name host now index zero (l ∷ limits) seen at same =
      let equal : limit ≡ l = cc in
      subst
        (λ x.
          count_from name host now index (x ∷ limits) seen key
          ≡ (if hits key limit name host then seen key ++ now ∷ [] else seen key))
        equal (count_from-first name host now index limits seen (omega arith))
  count_from-stored name host now index (suc j) (l ∷ limits) seen at same =
      let k = gate_key name index l host in
      let s : Seen =
        if leb l.seconds gate_max_window_seconds then put k (seen k ++ now ∷ []) seen else seen in
      let differs = key_eq-index k key (omega arith) in
      let before : s key ≡ seen key =
        if_cases (λ (x : Seen). x key ≡ seen key) (leb l.seconds gate_max_window_seconds)
          (λ e. ground arith) (λ e. refl) in
      let ih = count_from-stored name host now (index + 1) j limits s at (omega arith) in
      ih ∙ rw before refl
