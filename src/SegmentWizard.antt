-- ===== src/SegmentWizard.antt =====
-- src/lib/segment-wizard.ts: the wizard that finds out how many segments a strip has. Each `await`
-- splits a method: what follows it is an event of its own, so calls of other methods may come in
-- between. A session's `id` is the identity of its object. What the host answers is part of the
-- event; what is sent, applied, answered and timed is a list of effects. (The answer that a session
-- is active follows the sends of `start` and `answer` and changes nothing.)
pub mod Restore
pub mod Grouped
pub mod Measure
pub mod IdleTimer
use io_broker_govee_smart.Base.{
  ℕ, ◌+◌, Bool, true, false, not, ◌&&◌, ◌||◌, String, List, [], ◌∷◌, ◌++◌, map, Option, none, some,
  if◌then◌else◌, ltb, ◌==◌,
}
use io_broker_govee_smart.SegmentList.{segment_hard_max, WizardResult, consolidate}
use io_broker_govee_smart.SegmentWizard.Restore.{
  Command, power, brightness, flash_segment, Baseline, no_baseline, restore_baseline,
  restore_on_stop,
}

pub record Session : Type 0 where
  pub id : ℕ
  pub device_key : String
  pub current : ℕ
  pub visible : List ℕ
  pub baseline : Baseline

-- `idle_timer`: a timer is pending. `starts`: how many sessions were made.
pub record Wizard : Type 0 where
  pub session : Option Session
  pub idle_timer : Bool
  pub starts : ℕ

-- What the host says of the device when a session is started.
pub record DeviceFacts : Type 0 where
  pub has_segments : Bool
  pub online : Bool

-- What the host answers when a strip is restored: the count of its segments, and whether the one
-- datagram was taken.
pub record RestoreFacts : Type 0 where
  pub total : ℕ
  pub atomic : Bool

pub data Refusal : Type 0 where
  no_wizard already_active device_not_found no_segments device_offline : Refusal
  command_refused device_gone answer_first unknown_action : Refusal

pub data Response : Type 0 where
  refused : Refusal → Response
  aborted : Response
  done applied : WizardResult → Response

pub data Effect : Type 0 where
  send : String → Command → Effect
  apply_result : String → WizardResult → Effect
  respond : Response → Effect
  set_idle_timer clear_idle_timer : Effect

abbrev pub make_wizard : Wizard
make_wizard = record { session = none; idle_timer = false; starts = 0 }

unfoldable pub clear_idle_timer_of : Wizard → Wizard × List Effect
clear_idle_timer_of w =
    (record w { idle_timer = false }, if w.idle_timer then clear_idle_timer ∷ [] else [])

unfoldable pub schedule_idle_timeout : Wizard → Wizard × List Effect
unfolding clear_idle_timer_of
schedule_idle_timeout w =
    let (c, fx) = clear_idle_timer_of w in
    (record c { idle_timer = true }, fx ++ set_idle_timer ∷ [])

-- `this.session = null; this.clearIdleTimer()` and the answer of the method.
unfoldable pub close : Wizard → Response → Wizard × List Effect
unfolding clear_idle_timer_of
close w response =
    let (c, fx) = clear_idle_timer_of (record w { session = none }) in
    (c, fx ++ respond response ∷ [])

abbrev send_all : String → List Command → List Effect
send_all device commands = map (λ c. send device c) commands

-- `start` up to its first `await`; `none` is a device that is not found.
unfoldable pub start : Wizard → String → Option DeviceFacts → Wizard × List Effect
start w device_key device = elim w.session [
  | some s ↦ (w, respond (refused already_active) ∷ [])
  | none ↦ elim device [
    | none ↦ (w, respond (refused device_not_found) ∷ [])
    | some d ↦
        if not d.has_segments
        then (w, respond (refused no_segments) ∷ [])
        else if not d.online
        then (w, respond (refused device_offline) ∷ [])
        else (
          record w {
            session = some (record {
              id = w.starts;
              device_key = device_key;
              current = 0;
              visible = [];
              baseline = no_baseline;
            });
            starts = w.starts + 1;
          },
          [],
        )
  ]
]

-- `start` from the end of the capture, up to the end of its sends.
unfoldable pub baseline_captured : Wizard → ℕ → Baseline → Bool → Wizard × List Effect
unfolding schedule_idle_timeout flash_segment
baseline_captured w id baseline atomic = elim w.session [
  | none ↦ (w, respond (refused already_active) ∷ [])
  | some s ↦
      if s.id == id
      then (let (t, fx) =
            schedule_idle_timeout
              (record w { session = some (record s { baseline = baseline }) }) in
          (t, fx ++ send_all s.device_key (power true ∷ brightness 100 ∷ flash_segment atomic 0)))
      else (w, respond (refused already_active) ∷ [])
]

-- The `catch` of `start`.
unfoldable pub start_refused : Wizard → Wizard × List Effect
unfolding close
start_refused w = close w (refused command_refused)

-- `finish`, `apply` and `finalize` up to the end of the host's work.
abbrev finalize : Wizard → Session → WizardResult → RestoreFacts → Wizard × List Effect
finalize w s result facts = (
  w,
  apply_result s.device_key result
      ∷ send_all s.device_key (restore_baseline facts.total facts.atomic s.baseline),
)

unfoldable pub finish : Wizard → Session → Option RestoreFacts → Wizard × List Effect
unfolding close consolidate restore_baseline
finish w s none = close w (refused device_gone)
finish w s (some facts) = elim (consolidate (map (λ i. some i) s.visible)) [
  | none ↦ (w, respond (refused answer_first) ∷ [])
  | some result ↦ finalize w s result facts
]

unfoldable pub apply : Wizard → List (Option ℕ) → Option RestoreFacts → Wizard × List Effect
unfolding close consolidate restore_baseline
apply w indices device = elim w.session [
  | none ↦ (w, respond (refused no_wizard) ∷ [])
  | some s ↦ elim (consolidate indices) [
    | none ↦ (w, respond (refused answer_first) ∷ [])
    | some result ↦ elim device [
      | none ↦ close w (refused device_gone)
      | some facts ↦ finalize w s result facts
    ]
  ]
]

abbrev pub answered : Session → Bool → Session
answered s was_visible = record s {
  visible = if was_visible then s.visible ++ s.current ∷ [] else s.visible;
  current = s.current + 1;
}

-- `device`: whether it is found, with what its strip answers.
unfoldable pub answer : Wizard → Bool → Option RestoreFacts → Wizard × List Effect
unfolding schedule_idle_timeout finish close flash_segment
answer w was_visible device = elim w.session [
  | none ↦ (w, respond (refused no_wizard) ∷ [])
  | some s ↦
      let t = answered s was_visible in
      let (v, fx) = schedule_idle_timeout (record w { session = some t }) in
      let (u, more) = if ltb segment_hard_max t.current then finish v t device else elim device [
        | none ↦ close v (refused device_gone)
        | some facts ↦ (v, send_all t.device_key (flash_segment facts.atomic t.current))
      ] in
      (u, fx ++ more)
]

-- `abort` up to the end of the restore.
unfoldable pub abort : Wizard → Option RestoreFacts → Wizard × List Effect
unfolding restore_baseline close
abort w device = elim w.session [
  | none ↦ (w, respond (refused no_wizard) ∷ [])
  | some s ↦ elim device [
    | none ↦ close w aborted
    | some facts ↦ (w, send_all s.device_key (restore_baseline facts.total facts.atomic s.baseline))
  ]
]

-- The rest of `abort`, and of `finish` and `apply` after the restore.
unfoldable pub aborts : Wizard → Wizard × List Effect
unfolding close
aborts w = close w aborted

unfoldable pub finalizes : Wizard → Response → Wizard × List Effect
unfolding close
finalizes w response = close w response

-- The callback of the idle timer.
unfoldable pub idle_fires : Wizard → Option RestoreFacts → Wizard × List Effect
unfolding abort
idle_fires w device =
    let t = record w { idle_timer = false } in
    elim t.session [ none ↦ (t, []) | some s ↦ abort t device ]

unfoldable pub dispose : Wizard → Option RestoreFacts → Wizard × List Effect
unfolding clear_idle_timer_of restore_on_stop
dispose w device =
    let restore : List Effect = elim w.session [
      | none ↦ []
      | some s ↦ elim device [
        | none ↦ []
        | some facts ↦ send_all s.device_key (restore_on_stop facts.total s.baseline)
      ]
    ] in
    let (c, fx) = clear_idle_timer_of w in (record c { session = none }, restore ++ fx)

pub data Action : Type 0 where
  start_of : String → Option DeviceFacts → Action
  yes no abort_of : Option RestoreFacts → Action
  apply_of : List (Option ℕ) → Option RestoreFacts → Action
  unknown : Action

-- `route`
unfoldable pub route : Wizard → Action → Wizard × List Effect
unfolding start answer abort apply
route w (start_of device_key device) = start w device_key device
route w (yes device) = answer w true device
route w (no device) = answer w false device
route w (abort_of device) = abort w device
route w (apply_of indices device) = apply w indices device
route w unknown = elim w.session [
  | none ↦ (w, respond (refused no_wizard) ∷ [])
  | some s ↦ (w, respond (refused unknown_action) ∷ [])
]

-- Everything that can happen to the wizard.
pub data Event : Type 0 where
  routed : Action → Event
  captured : ℕ → Baseline → Bool → Event
  refuses : Event
  abort_ends : Event
  finalize_ends : Response → Event
  idle disposes : Option RestoreFacts → Event

-- The timer fires only while it is pending.
unfoldable pub step : Wizard → Event → Wizard × List Effect
unfolding route baseline_captured start_refused aborts finalizes idle_fires dispose
step w (routed action) = route w action
step w (captured id baseline atomic) = baseline_captured w id baseline atomic
step w refuses = start_refused w
step w abort_ends = aborts w
step w (finalize_ends response) = finalizes w response
step w (idle device) = if w.idle_timer then idle_fires w device else (w, [])
step w (disposes device) = dispose w device
