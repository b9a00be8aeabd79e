-- ===== src/CloudOutage.antt =====
-- src/lib/cloud-outage.ts: whether the cloud is down, decided from the outcome of real calls.
use io_broker_govee_smart.Base.{
  ℕ, suc, ◌+◌, ◌-◌, Bool, true, false, not, ◌&&◌, ◌||◌, String, List, [], ◌∷◌, Option, none, some,
  if◌then◌else◌, ltb, leb, any, arith, ◌≡◌, refl,
}
use io_broker_govee_smart.TimerMs.{cloud_unreachable_confirm_ms}

pub record CloudOutage : Type 0 where
  pub first_failure_at : Option ℕ
  pub first_reason : String
  pub is_confirmed : Bool

abbrev pub make_outage : CloudOutage
make_outage = record { first_failure_at = none; first_reason = ""; is_confirmed = false }

abbrev note_after : CloudOutage → Option ℕ → ℕ → String → CloudOutage × Bool
note_after s none now reason =
    (record s { first_failure_at = some now; first_reason = reason }, false)
note_after s (some first) now reason =
    if ltb (now - first) cloud_unreachable_confirm_ms
    then (s, false)
    else (record s { is_confirmed = true }, true)

-- The answer is true where this failure confirms the outage.
pub note_unreachable : CloudOutage → ℕ → String → CloudOutage × Bool
note_unreachable s now reason =
    if s.is_confirmed then (s, false) else note_after s s.first_failure_at now reason

-- The answer is true where this answer ends a confirmed outage.
pub note_answer : CloudOutage → CloudOutage × Bool
note_answer s = (make_outage, s.is_confirmed)

pub cloud_reachable : Bool → CloudOutage → Bool
cloud_reachable cloud_was_connected s = cloud_was_connected && not s.is_confirmed

-- Failed calls, each with its time, with no accepted answer among them.
pub note_failures : CloudOutage → List (ℕ × String) → CloudOutage
note_failures s [] = s
note_failures s ((now, reason) ∷ fs) = note_failures (note_unreachable s now reason).0 fs

abbrev pub confirms : ℕ → ℕ × String → Bool
confirms first f = leb cloud_unreachable_confirm_ms (f.0 - first)

note_failures-from :
    (s : CloudOutage) (first : ℕ) (fs : List (ℕ × String))
    → s.first_failure_at ≡ some first
    → ((note_failures s fs).is_confirmed ≡ (s.is_confirmed || any (confirms first) fs))
      × ((note_failures s fs).first_failure_at ≡ some first)
      × ((note_failures s fs).first_reason ≡ s.first_reason)
unfolding note_failures note_unreachable
note_failures-from s first [] h = ground arith
note_failures-from s first ((now, reason) ∷ fs) h =
    let t = (note_unreachable s now reason).0 in ground (arith, note_failures-from t first fs)

-- From an answer of the cloud on, a run of failed calls confirms the outage exactly when one of the
-- later ones comes 60 seconds or more after the first, and the time and reason that are kept are
-- those of the first.
pub note_failures_iff :
    (s : CloudOutage) (first : ℕ) (reason : String) (fs : List (ℕ × String))
    → (let t = note_failures (note_answer s).0 ((first, reason) ∷ fs) in
        (t.is_confirmed ≡ any (confirms first) fs)
        × (t.first_failure_at ≡ some first)
        × (t.first_reason ≡ reason))
unfolding note_failures note_unreachable note_answer
note_failures_iff s first reason fs =
    note_failures-from
      (record { first_failure_at = some first; first_reason = reason; is_confirmed = false }) first
      fs refl

pub data OutageEvent : Type 0 where
  unreachable : ℕ → String → OutageEvent
  answered : OutageEvent

-- How often an outage was reported as confirmed, and how often as ended.
pub report_outages : CloudOutage → List OutageEvent → CloudOutage × ℕ × ℕ
report_outages s [] = (s, 0, 0)
report_outages s (unreachable now reason ∷ es) =
    let (t, news) = note_unreachable s now reason in
    let (u, begun, ended) = report_outages t es in (u, (if news then suc begun else begun), ended)
report_outages s (answered ∷ es) =
    let (t, news) = note_answer s in
    let (u, begun, ended) = report_outages t es in (u, begun, if news then suc ended else ended)

abbrev pub down : CloudOutage → ℕ
down s = if s.is_confirmed then 1 else 0

-- Every confirmed outage is reported once and ended once: over any calls, the reports of an outage
-- are those of its end, and one more while an outage lasts.
pub report_outages-balanced :
    (s : CloudOutage) (es : List OutageEvent)
    → (let r = report_outages s es in down s + r.1 ≡ down r.0 + r.2)
unfolding report_outages note_unreachable note_answer
report_outages-balanced s [] = omega arith
report_outages-balanced s (unreachable now reason ∷ es) =
    let t = (note_unreachable s now reason).0 in ground (arith, report_outages-balanced t es)
report_outages-balanced s (answered ∷ es) = ground (arith, report_outages-balanced make_outage es)
