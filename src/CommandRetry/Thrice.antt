-- ===== src/CommandRetry/Thrice.antt =====
-- src/lib/command-router.ts (sendBudgeted): how often a write is sent.
use io_broker_govee_smart.Base.{
  ℕ, zero, suc, ◌+◌, ◌*◌, ◌≤◌, ◌<◌, true, ◌&&◌, String, List, [], ◌∷◌, ◌++◌, Option, none, some,
  if◌then◌else◌, get_elem?, set, str_eq, eq_iff, ◌==◌, arith, ◌≡◌, refl, ap, All, if_cases,
  Bool-cases, inl, inr,
}
use io_broker_govee_smart.CommandRetry.{
  Phase, running, delivered, gave_up, waiting, Send, Start, Sends, Outcome, Event, write, settles,
  resumes, seq_of, attempt_ends, send_budgeted, settle_running, retry, resume_waiting, settle_at,
  resume_at, step, run_events, make_sends,
}
use io_broker_govee_smart.CommandRetry.Newest.{IsSendOf, IsFresh, step-IsFresh}

-- How many attempts of a write were handed over.
unfoldable pub times_started : String → ℕ → List Start → ℕ
times_started slot seq [] = 0
times_started slot seq (t ∷ starts) =
    let rest = times_started slot seq starts in
    if str_eq t.slot slot && t.seq == seq then rest + 1 else rest

-- How many sends carry a write, and how many attempts they count.
carriers : String → ℕ → List Send → ℕ
carriers slot seq [] = 0
carriers slot seq (s ∷ sends) =
    let rest = carriers slot seq sends in
    if str_eq s.slot slot && s.seq == seq then rest + 1 else rest

attempts : String → ℕ → List Send → ℕ
attempts slot seq [] = 0
attempts slot seq (s ∷ sends) =
    let rest = attempts slot seq sends in
    if str_eq s.slot slot && s.seq == seq then rest + s.attempt else rest

-- A write is carried by one send, which counts its attempts.
record IsCounted (slot : String) (seq : ℕ) (r : Sends) : Type 0 where
  alone : carriers slot seq r.active ≤ 1
  started : times_started slot seq r.starts ≤ attempts slot seq r.active

carriers-append :
    (slot : String) (seq : ℕ) (xs : List Send) (s : Send)
    → carriers slot seq (xs ++ s ∷ [])
      ≡ carriers slot seq xs + (if str_eq s.slot slot && s.seq == seq then 1 else 0)
unfolding carriers
carriers-append slot seq [] s = ground arith
carriers-append slot seq (x ∷ xs) s = ground (arith, carriers-append slot seq xs s)

attempts-append :
    (slot : String) (seq : ℕ) (xs : List Send) (s : Send)
    → attempts slot seq (xs ++ s ∷ [])
      ≡ attempts slot seq xs + (if str_eq s.slot slot && s.seq == seq then s.attempt else 0)
unfolding attempts
attempts-append slot seq [] s = ground arith
attempts-append slot seq (x ∷ xs) s = ground (arith, attempts-append slot seq xs s)

-- A number that is past the slot's is carried by none.
carriers_none :
    (slot : String) (seq : ℕ) (seqs : _) (sends : List Send)
    → seq_of slot seqs < seq
    → All (IsSendOf seqs) sends
    → carriers slot seq sends ≡ 0
unfolding carriers
carriers_none slot seq seqs [] lt h = refl
carriers_none slot seq seqs (s ∷ sends) lt (p, h) =
    let rest = carriers_none slot seq seqs sends lt h in
    if_cases (λ n. n ≡ 0) (str_eq s.slot slot && s.seq == seq)
      (λ e.
        let same = ap (λ (k : String). seq_of k seqs) ((eq_iff s.slot slot).0 (ground arith)) in
        absurd (ground (arith, p.0)))
      (λ _. rest)

carriers-set :
    (slot : String) (seq : ℕ) (xs : List Send) (i : ℕ) (s t : Send)
    → get_elem? xs i ≡ some s
    → t.slot ≡ s.slot
    → t.seq ≡ s.seq
    → carriers slot seq (set xs i t) ≡ carriers slot seq xs
unfolding carriers
carriers-set slot seq [] i s t e p q = absurd cc
carriers-set slot seq (x ∷ xs) zero s t e p q =
    let same : x ≡ s = cc in
    let slots : t.slot ≡ x.slot = cc in let seqs : t.seq ≡ x.seq = cc in rw (slots, seqs) refl
carriers-set slot seq (x ∷ xs) (suc i) s t e p q =
    ground (arith, carriers-set slot seq xs i s t e p q)

attempts-set :
    (slot : String) (seq : ℕ) (xs : List Send) (i : ℕ) (s t : Send)
    → get_elem? xs i ≡ some s
    → t.slot ≡ s.slot
    → t.seq ≡ s.seq
    → attempts slot seq (set xs i t) + (if str_eq s.slot slot && s.seq == seq then s.attempt else 0)
      ≡ attempts slot seq xs + (if str_eq s.slot slot && s.seq == seq then t.attempt else 0)
unfolding attempts
attempts-set slot seq [] i s t e p q = absurd cc
attempts-set slot seq (x ∷ xs) zero s t e p q =
    let same : x ≡ s = cc in
    let slots : x.slot ≡ s.slot = cc in
    let seqs : x.seq ≡ s.seq = cc in
    let tries : x.attempt ≡ s.attempt = cc in rw (slots, seqs, tries, p, q) (ground arith)
attempts-set slot seq (x ∷ xs) (suc i) s t e p q =
    ground (arith, attempts-set slot seq xs i s t e p q)

send_budgeted-IsCounted :
    (slot : String) (seq : ℕ) (r : Sends) (k : String) (now : ℕ)
    → IsFresh r
    → IsCounted slot seq r
    → IsCounted slot seq (send_budgeted r k now)
unfolding send_budgeted times_started
send_budgeted-IsCounted slot seq r k now f h =
    let n = seq_of k r.send_seq + 1 in
    let s : Send = record { slot = k; seq = n; attempt = 1; started_at = now; phase = running } in
    let free : (str_eq k slot && n == seq) ≡ true → carriers slot seq r.active ≡ 0 = λ e.
      carriers_none slot seq r.send_seq r.active
        (let same = ap (λ (j : String). seq_of j r.send_seq) ((eq_iff k slot).0 (ground arith)) in
          ground arith)
        f.sends in
    record {
      alone = elim (Bool-cases (str_eq k slot && n == seq)) [
        | inl e ↦ ground (arith, free e, carriers-append slot seq r.active s)
        | inr e ↦ ground (arith, h.alone, carriers-append slot seq r.active s)
      ];
      started = ground (arith, h.started, attempts-append slot seq r.active s);
    }

set-IsCounted :
    (slot : String) (seq : ℕ) (r : Sends) (i : ℕ) (s t : Send)
    → get_elem? r.active i ≡ some s
    → t.slot ≡ s.slot
    → t.seq ≡ s.seq
    → t.attempt ≡ s.attempt
    → IsCounted slot seq r
    → IsCounted slot seq (record r { active = set r.active i t })
set-IsCounted slot seq r i s t e p q a h = record {
  alone = omega (arith, h.alone, carriers-set slot seq r.active i s t e p q);
  started = ground (arith, h.started, attempts-set slot seq r.active i s t e p q, a);
}

retry-IsCounted :
    (slot : String) (seq : ℕ) (r : Sends) (i : ℕ) (s : Send)
    → get_elem? r.active i ≡ some s
    → IsCounted slot seq r
    → IsCounted slot seq (retry r i s)
unfolding retry times_started
retry-IsCounted slot seq r i s e h =
    if_cases (IsCounted slot seq) (seq_of s.slot r.send_seq == s.seq)
      (λ _.
        let again : Send = record s { attempt = s.attempt + 1; phase = running } in
        record {
          alone = omega (arith, h.alone, carriers-set slot seq r.active i s again e refl refl);
          started = ground (arith, h.started, attempts-set slot seq r.active i s again e refl refl);
        })
      (λ _. set-IsCounted slot seq r i s (record s { phase = gave_up }) e refl refl refl h)

settle_running-IsCounted :
    (slot : String) (seq : ℕ) (r : Sends) (i : ℕ) (s : Send) (outcome : Outcome) (now : ℕ)
    (phase : Phase)
    → get_elem? r.active i ≡ some s
    → IsCounted slot seq r
    → IsCounted slot seq (settle_running r i s outcome now phase)
settle_running-IsCounted slot seq r i s outcome now running e h =
    set-IsCounted slot seq r i s (record s { phase = attempt_ends r.send_seq s outcome now }) e refl
      refl refl h
settle_running-IsCounted slot seq r i s outcome now delivered e h = h
settle_running-IsCounted slot seq r i s outcome now gave_up e h = h
settle_running-IsCounted slot seq r i s outcome now (waiting due) e h = h

resume_waiting-IsCounted :
    (slot : String) (seq : ℕ) (r : Sends) (i : ℕ) (s : Send) (phase : Phase)
    → get_elem? r.active i ≡ some s
    → IsCounted slot seq r
    → IsCounted slot seq (resume_waiting r i s phase)
resume_waiting-IsCounted slot seq r i s (waiting due) e h = retry-IsCounted slot seq r i s e h
resume_waiting-IsCounted slot seq r i s running e h = h
resume_waiting-IsCounted slot seq r i s delivered e h = h
resume_waiting-IsCounted slot seq r i s gave_up e h = h

settle_at-IsCounted :
    (slot : String) (seq : ℕ) (r : Sends) (i : ℕ) (outcome : Outcome) (now : ℕ) (o : Option Send)
    → get_elem? r.active i ≡ o
    → IsCounted slot seq r
    → IsCounted slot seq (settle_at r i outcome now o)
settle_at-IsCounted slot seq r i outcome now none e h = h
settle_at-IsCounted slot seq r i outcome now (some s) e h =
    settle_running-IsCounted slot seq r i s outcome now s.phase e h

resume_at-IsCounted :
    (slot : String) (seq : ℕ) (r : Sends) (i : ℕ) (o : Option Send)
    → get_elem? r.active i ≡ o
    → IsCounted slot seq r
    → IsCounted slot seq (resume_at r i o)
resume_at-IsCounted slot seq r i none e h = h
resume_at-IsCounted slot seq r i (some s) e h = resume_waiting-IsCounted slot seq r i s s.phase e h

step-IsCounted :
    (slot : String) (seq : ℕ) (r : Sends) (e : Event)
    → IsFresh r
    → IsCounted slot seq r
    → IsCounted slot seq (step r e)
unfolding step
step-IsCounted slot seq r (write k now) f h = send_budgeted-IsCounted slot seq r k now f h
step-IsCounted slot seq r (settles i outcome now) f h =
    settle_at-IsCounted slot seq r i outcome now (get_elem? r.active i) refl h
step-IsCounted slot seq r (resumes i) f h =
    resume_at-IsCounted slot seq r i (get_elem? r.active i) refl h

-- Three attempts for each send.
attempts_le :
    (slot : String) (seq : ℕ) (seqs : _) (sends : List Send)
    → All (IsSendOf seqs) sends
    → attempts slot seq sends ≤ 3 * carriers slot seq sends
unfolding attempts carriers
attempts_le slot seq seqs [] h = omega arith
attempts_le slot seq seqs (s ∷ sends) (p, h) =
    ground (arith, attempts_le slot seq seqs sends h, p.2)

times_started_le :
    (slot : String) (seq : ℕ) (r : Sends)
    → IsFresh r
    → IsCounted slot seq r
    → times_started slot seq r.starts ≤ 3
times_started_le slot seq r f h =
    omega (arith, h.alone, h.started, attempts_le slot seq r.send_seq r.active f.sends)

runs-IsCounted :
    (slot : String) (seq : ℕ) (r : Sends) (es : List Event)
    → IsFresh r
    → IsCounted slot seq r
    → IsFresh (run_events r es) × IsCounted slot seq (run_events r es)
unfolding run_events
runs-IsCounted slot seq r [] f h = (f, h)
runs-IsCounted slot seq r (e ∷ es) f h =
    runs-IsCounted slot seq (step r e) es (step-IsFresh r e f) (step-IsCounted slot seq r e f h)

-- However writes, failures and pauses interleave: of two attempts for one datapoint the later one
-- never carries an older write, no more than three attempts of a write are handed over, and a pause
-- that is waited out ends within ten seconds of the write.
pub run_events-thrice :
    (es : List Event) (slot : String) (seq : ℕ)
    → IsFresh (run_events make_sends es)
      × (times_started slot seq (run_events make_sends es).starts ≤ 3)
unfolding times_started carriers attempts
run_events-thrice es slot seq =
    let empty : IsFresh make_sends = record { sends = tt; started = tt; newest = tt } in
    let (f, h) =
      runs-IsCounted slot seq make_sends es empty
        (record { alone = omega arith; started = omega arith }) in
    (f, times_started_le slot seq (run_events make_sends es) f h)
