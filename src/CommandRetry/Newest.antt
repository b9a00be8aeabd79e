-- ===== src/CommandRetry/Newest.antt =====
-- src/lib/command-router.ts (sendBudgeted): an older value never follows a newer one.
use io_broker_govee_smart.Base.{
  str_eq, Bool, true, false, not, ◌||◌, leb, ℕ, zero, suc, ◌+◌, ◌-◌, ◌≤◌, ◌&&◌, String, List, [],
  ◌∷◌, Option, none, some, get_elem?, set, Map, insert, ◌==◌, arith, ◌≡◌, refl, ap, All, All-append,
  if_cases, eq_iff, lookup-insert,
}
use io_broker_govee_smart.CommandRetry.{
  Phase, running, delivered, gave_up, waiting, Send, Start, Sends, Outcome, arrived, never_sent,
  refused, Event, write, settles, resumes, command_retry_window_ms, seq_of, pause_of, start_of,
  send_budgeted, phase_after, attempt_ends, settle_running, retry, resume_waiting, settle_at,
  resume_at, step, run_events, make_sends,
}

-- The pause that a send waits out ends within the window.
abbrev pub IsTimely : ℕ → ℕ → Phase → Type 0
IsTimely attempt started_at (waiting due) =
    (attempt ≤ 2) × (due ≤ started_at + command_retry_window_ms)
IsTimely attempt started_at _ = Unit

abbrev pub IsSendOf : Map ℕ → Send → Type 0
IsSendOf seqs s =
    (s.seq ≤ seq_of s.slot seqs)
    × (1 ≤ s.attempt)
    × (s.attempt ≤ 3)
    × IsTimely s.attempt s.started_at s.phase

abbrev pub IsStartOf : Map ℕ → Start → Type 0
IsStartOf seqs t = t.seq ≤ seq_of t.slot seqs

-- Of two attempts for one slot the later one carries a write that is not older.
abbrev NotNewer : Start → Start → Type 0
NotNewer t u = (not (str_eq u.slot t.slot) || leb u.seq t.seq) ≡ true

abbrev pub IsNewest : List Start → Type 0
IsNewest [] = Unit
IsNewest (t ∷ starts) = All (NotNewer t) starts × IsNewest starts

pub record IsFresh (r : Sends) : Type 0 where
  pub sends : All (IsSendOf r.send_seq) r.active
  pub started : All (IsStartOf r.send_seq) r.starts
  pub newest : IsNewest r.starts

All-set {ℓ κ} :
    {A : Type ℓ} (P : A → Type κ) (xs : List A) (i : ℕ) (v : A)
    → P v
    → All P xs
    → All P (set xs i v)
All-set P [] i v p h = tt
All-set P (x ∷ xs) zero v p (q, h) = (p, h)
All-set P (x ∷ xs) (suc i) v p (q, h) = (q, All-set P xs i v p h)

All-map {ℓ κ μ} :
    {A : Type ℓ} {P : A → Type κ} {Q : A → Type μ} (f : (x : A) → P x → Q x) (xs : List A)
    → All P xs
    → All Q xs
All-map f [] h = tt
All-map f (x ∷ xs) (p, h) = (f x p, All-map f xs h)

seq_of-insert :
    (slot k : String) (seqs : Map ℕ)
    → seq_of k seqs ≤ seq_of k (insert slot (seq_of slot seqs + 1) seqs)
seq_of-insert slot k seqs =
    ground (arith, lookup-insert slot k (seq_of slot seqs + 1) seqs, eq_iff slot k)

seq_of-insert_self : (slot : String) (n : ℕ) (seqs : Map ℕ) → seq_of slot (insert slot n seqs) ≡ n
seq_of-insert_self slot n seqs = ground (arith, lookup-insert slot slot n seqs, eq_iff slot slot)

IsSendOf-insert :
    (slot : String) (seqs : Map ℕ) (s : Send)
    → IsSendOf seqs s
    → IsSendOf (insert slot (seq_of slot seqs + 1) seqs) s
IsSendOf-insert slot seqs s p = (omega (arith, p.0, seq_of-insert slot s.slot seqs), p.1, p.2, p.3)

IsStartOf-insert :
    (slot : String) (seqs : Map ℕ) (t : Start)
    → IsStartOf seqs t
    → IsStartOf (insert slot (seq_of slot seqs + 1) seqs) t
IsStartOf-insert slot seqs t le = omega (arith, seq_of-insert slot t.slot seqs)

-- A start of the newest write is newer than all before it.
NotNewer-All :
    (seqs : Map ℕ) (t : Start) (starts : List Start)
    → seq_of t.slot seqs ≤ t.seq
    → All (IsStartOf seqs) starts
    → All (NotNewer t) starts
NotNewer-All seqs t starts le h =
    All-map {Q = NotNewer t} (λ u p. one u p (str_eq u.slot t.slot) refl) starts h
  where
    one :
        (u : Start)
        → IsStartOf seqs u
        → (same : Bool) → str_eq u.slot t.slot ≡ same
        → (not same || leb u.seq t.seq) ≡ true
    one u p false e = refl
    one u p true e =
        let q = ap (λ (k : String). seq_of k seqs) ((eq_iff u.slot t.slot).0 e) in ground arith

send_budgeted-IsFresh :
    (r : Sends) (slot : String) (now : ℕ) → IsFresh r → IsFresh (send_budgeted r slot now)
unfolding send_budgeted
send_budgeted-IsFresh r slot now h =
    let seq = seq_of slot r.send_seq + 1 in
    let seqs = insert slot seq r.send_seq in
    let t : Start = record { slot = slot; seq = seq } in
    let self : seq_of slot seqs ≡ seq = seq_of-insert_self slot seq r.send_seq in
    let old : All (IsStartOf seqs) r.starts =
      All-map (IsStartOf-insert slot r.send_seq) r.starts h.started in
    record {
      sends =
          All-append (IsSendOf seqs) r.active _
            (All-map (IsSendOf-insert slot r.send_seq) r.active h.sends)
            ((omega (arith, self), omega arith, omega arith, tt), tt);
      started = (omega (arith, self), old);
      newest = (NotNewer-All seqs t r.starts (omega (arith, self)) old, h.newest);
    }

pause_of-le : (attempt : ℕ) {pause : ℕ} → pause_of attempt ≡ some pause → 1 ≤ attempt → attempt ≤ 2
unfolding pause_of
pause_of-le zero e h = elim h [ ]
pause_of-le (suc zero) e h = omega arith
pause_of-le (suc (suc zero)) e h = omega arith
pause_of-le (suc (suc (suc n))) e h = ground arith

phase_after-IsTimely :
    (seqs : Map ℕ) (s : Send) (o : Option ℕ) (now : ℕ)
    → pause_of s.attempt ≡ o
    → 1 ≤ s.attempt
    → IsTimely s.attempt s.started_at (phase_after seqs s o now)
unfolding phase_after
phase_after-IsTimely seqs s none now e h = tt
phase_after-IsTimely seqs s (some pause) now e h =
    if_cases (IsTimely s.attempt s.started_at)
      (leb (now - s.started_at + pause) command_retry_window_ms && seq_of s.slot seqs == s.seq)
      (λ t. (pause_of-le s.attempt e h, ground arith)) (λ _. tt)

attempt_ends-IsTimely :
    (seqs : Map ℕ) (s : Send) (outcome : Outcome) (now : ℕ)
    → 1 ≤ s.attempt
    → IsTimely s.attempt s.started_at (attempt_ends seqs s outcome now)
unfolding attempt_ends
attempt_ends-IsTimely seqs s arrived now h = tt
attempt_ends-IsTimely seqs s refused now h = tt
attempt_ends-IsTimely seqs s never_sent now h =
    phase_after-IsTimely seqs s (pause_of s.attempt) now refl h

-- A change of one send that keeps its facts keeps the others'.
set-IsFresh :
    (r : Sends) (i : ℕ) (s : Send)
    → IsSendOf r.send_seq s
    → IsFresh r
    → IsFresh (record r { active = set r.active i s })
set-IsFresh r i s p h = record {
  sends = All-set (IsSendOf r.send_seq) r.active i s p h.sends;
  started = h.started;
  newest = h.newest;
}

settle_running-IsFresh :
    (r : Sends) (i : ℕ) (s : Send) (outcome : Outcome) (now : ℕ) (phase : Phase)
    → IsSendOf r.send_seq s
    → IsFresh r
    → IsFresh (settle_running r i s outcome now phase)
settle_running-IsFresh r i s outcome now running p h =
    set-IsFresh r i (record s { phase = attempt_ends r.send_seq s outcome now })
      (p.0, p.1, p.2, attempt_ends-IsTimely r.send_seq s outcome now p.1) h
settle_running-IsFresh r i s outcome now delivered p h = h
settle_running-IsFresh r i s outcome now gave_up p h = h
settle_running-IsFresh r i s outcome now (waiting due) p h = h

retry-IsFresh :
    (r : Sends) (i : ℕ) (s : Send)
    → s.attempt ≤ 2
    → IsSendOf r.send_seq s
    → IsFresh r
    → IsFresh (retry r i s)
unfolding retry
retry-IsFresh r i s two p h =
    if_cases IsFresh (seq_of s.slot r.send_seq == s.seq)
      (λ e.
        let again : Send = record s { attempt = s.attempt + 1; phase = running } in
        record {
          sends =
              All-set (IsSendOf r.send_seq) r.active i again (p.0, omega arith, omega arith, tt)
                h.sends;
          started = (p.0, h.started);
          newest =
              (NotNewer-All r.send_seq (start_of s) r.starts (ground arith) h.started, h.newest);
        })
      (λ _. set-IsFresh r i (record s { phase = gave_up }) (p.0, p.1, p.2, tt) h)

-- The facts of a send whose phase is passed on its own.
resume_waiting-IsFresh :
    (r : Sends) (i : ℕ) (s : Send) (phase : Phase)
    → IsTimely s.attempt s.started_at phase
    → IsSendOf r.send_seq s
    → IsFresh r
    → IsFresh (resume_waiting r i s phase)
resume_waiting-IsFresh r i s (waiting due) t p h = retry-IsFresh r i s t.0 p h
resume_waiting-IsFresh r i s running t p h = h
resume_waiting-IsFresh r i s delivered t p h = h
resume_waiting-IsFresh r i s gave_up t p h = h

abbrev pub IsSendOf? : Map ℕ → Option Send → Type 0
IsSendOf? seqs none = Unit
IsSendOf? seqs (some s) = IsSendOf seqs s

pub get_elem?-IsSendOf :
    (seqs : Map ℕ) (active : List Send) (i : ℕ)
    → All (IsSendOf seqs) active
    → IsSendOf? seqs (get_elem? active i)
get_elem?-IsSendOf seqs [] i h = tt
get_elem?-IsSendOf seqs (s ∷ active) zero (p, h) = p
get_elem?-IsSendOf seqs (s ∷ active) (suc i) (p, h) = get_elem?-IsSendOf seqs active i h

settle_at-IsFresh :
    (r : Sends) (i : ℕ) (outcome : Outcome) (now : ℕ) (o : Option Send)
    → IsSendOf? r.send_seq o
    → IsFresh r
    → IsFresh (settle_at r i outcome now o)
settle_at-IsFresh r i outcome now none p h = h
settle_at-IsFresh r i outcome now (some s) p h =
    settle_running-IsFresh r i s outcome now s.phase p h

resume_at-IsFresh :
    (r : Sends) (i : ℕ) (o : Option Send)
    → IsSendOf? r.send_seq o
    → IsFresh r
    → IsFresh (resume_at r i o)
resume_at-IsFresh r i none p h = h
resume_at-IsFresh r i (some s) p h = resume_waiting-IsFresh r i s s.phase p.3 p h

pub step-IsFresh : (r : Sends) (e : Event) → IsFresh r → IsFresh (step r e)
unfolding step
step-IsFresh r (write slot now) h = send_budgeted-IsFresh r slot now h
step-IsFresh r (settles i outcome now) h =
    settle_at-IsFresh r i outcome now (get_elem? r.active i)
      (get_elem?-IsSendOf r.send_seq r.active i h.sends) h
step-IsFresh r (resumes i) h =
    resume_at-IsFresh r i (get_elem? r.active i) (get_elem?-IsSendOf r.send_seq r.active i h.sends)
      h

pub runs-IsFresh : (r : Sends) (es : List Event) → IsFresh r → IsFresh (run_events r es)
unfolding run_events
runs-IsFresh r [] h = h
runs-IsFresh r (e ∷ es) h = runs-IsFresh (step r e) es (step-IsFresh r e h)

pub run_events-IsFresh : (es : List Event) → IsFresh (run_events make_sends es)
run_events-IsFresh es =
    runs-IsFresh make_sends es (record { sends = tt; started = tt; newest = tt })
