-- ===== src/CommandRetry.antt =====
-- src/lib/command-router.ts (sendBudgeted): a command that never reached Govee is sent again. Each
-- write is a send of its own, and the sends interleave: what follows an `await` is an event. `starts`
-- is the history of the attempts that were handed to the limiter, the newest first.
pub mod Newest
pub mod Thrice
use io_broker_govee_smart.Base.{
  ℕ, zero, suc, ◌+◌, ◌-◌, Bool, true, false, ◌&&◌, String, List, [], ◌∷◌, ◌++◌, Option, none, some,
  if◌then◌else◌, get_elem?, set, Map, lookup, insert, or_else, leb, ◌==◌,
}

abbrev pub command_retry_delays_ms : List ℕ
command_retry_delays_ms = 1000 ∷ 2000 ∷ []

abbrev pub command_retry_window_ms : ℕ
command_retry_window_ms = 10000

-- `waiting due`: the pause before the next attempt ends at `due`.
pub data Phase : Type 0 where
  running delivered gave_up : Phase
  waiting : ℕ → Phase

-- `slot`: the device and the datapoint.
pub record Send : Type 0 where
  pub slot : String
  pub seq : ℕ
  pub attempt : ℕ
  pub started_at : ℕ
  pub phase : Phase

pub record Start : Type 0 where
  pub slot : String
  pub seq : ℕ

pub record Sends : Type 0 where
  pub send_seq : Map ℕ
  pub active : List Send
  pub starts : List Start

-- How an attempt ends: `never_sent` is an error with `neverSent === true`.
pub data Outcome : Type 0 where
  arrived never_sent refused : Outcome

pub data Event : Type 0 where
  write : String → ℕ → Event
  settles : ℕ → Outcome → ℕ → Event
  resumes : ℕ → Event

-- `this.sendSeq.get(slot) ?? 0`
abbrev pub seq_of : String → Map ℕ → ℕ
seq_of slot seqs = or_else (lookup slot seqs) 0

-- `COMMAND_RETRY_DELAYS_MS[attempt - 1]`
unfoldable pub pause_of : ℕ → Option ℕ
pause_of attempt = get_elem? command_retry_delays_ms (attempt - 1)

abbrev pub start_of : Send → Start
start_of s = record { slot = s.slot; seq = s.seq }

unfoldable pub send_budgeted : Sends → String → ℕ → Sends
send_budgeted r slot now =
    let seq = seq_of slot r.send_seq + 1 in
    let s : Send = record {
      slot = slot;
      seq = seq;
      attempt = 1;
      started_at = now;
      phase = running;
    } in
    record {
      send_seq = insert slot seq r.send_seq;
      active = r.active ++ s ∷ [];
      starts = start_of s ∷ r.starts;
    }

-- The phase after an error that says the command was never sent.
unfoldable pub phase_after : Map ℕ → Send → Option ℕ → ℕ → Phase
phase_after seqs s none now = gave_up
phase_after seqs s (some pause) now =
    if leb (now - s.started_at + pause) command_retry_window_ms && seq_of s.slot seqs == s.seq
    then waiting (now + pause)
    else gave_up

unfoldable pub attempt_ends : Map ℕ → Send → Outcome → ℕ → Phase
unfolding phase_after pause_of
attempt_ends seqs s arrived now = delivered
attempt_ends seqs s refused now = gave_up
attempt_ends seqs s never_sent now = phase_after seqs s (pause_of s.attempt) now

abbrev pub settle_running : Sends → ℕ → Send → Outcome → ℕ → Phase → Sends
settle_running r i s outcome now running = record r {
  active = set r.active i (record s { phase = attempt_ends r.send_seq s outcome now });
}
settle_running r i s outcome now _ = r

-- After the pause: a newer write to the slot ends this send.
unfoldable pub retry : Sends → ℕ → Send → Sends
retry r i s =
    if seq_of s.slot r.send_seq == s.seq
    then record r {
      active = set r.active i (record s { attempt = s.attempt + 1; phase = running });
      starts = start_of s ∷ r.starts;
    }
    else record r { active = set r.active i (record s { phase = gave_up }) }

abbrev pub resume_waiting : Sends → ℕ → Send → Phase → Sends
resume_waiting r i s (waiting due) = retry r i s
resume_waiting r i s _ = r

abbrev pub settle_at : Sends → ℕ → Outcome → ℕ → Option Send → Sends
settle_at r i outcome now none = r
settle_at r i outcome now (some s) = settle_running r i s outcome now s.phase

abbrev pub resume_at : Sends → ℕ → Option Send → Sends
resume_at r i none = r
resume_at r i (some s) = resume_waiting r i s s.phase

unfoldable pub step : Sends → Event → Sends
unfolding send_budgeted attempt_ends retry
step r (write slot now) = send_budgeted r slot now
step r (settles i outcome now) = settle_at r i outcome now (get_elem? r.active i)
step r (resumes i) = resume_at r i (get_elem? r.active i)

unfoldable pub run_events : Sends → List Event → Sends
unfolding step
run_events r [] = r
run_events r (e ∷ es) = run_events (step r e) es

abbrev pub make_sends : Sends
make_sends = record { send_seq = []; active = []; starts = [] }
