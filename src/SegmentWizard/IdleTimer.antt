-- ===== src/SegmentWizard/IdleTimer.antt =====
-- src/lib/segment-wizard.ts: the idle timer belongs to the session.
use io_broker_govee_smart.Base.{
  ℕ, Bool, true, false, not, ◌||◌, List, [], ◌∷◌, Option, none, some, any, map, ltb, ◌==◌,
  if◌then◌else◌, ◌≡◌,
}
use io_broker_govee_smart.SegmentList.{segment_hard_max}
use io_broker_govee_smart.SegmentWizard.Restore.{flash_segment}
use io_broker_govee_smart.SegmentWizard.{
  Session, Wizard, RestoreFacts, Effect, refused, device_gone, send, set_idle_timer, close, finish,
  Event, step,
}

unfoldable pub run_steps : Wizard → List Event → Wizard
run_steps w [] = w
run_steps w (e ∷ es) = run_steps (step w e).0 es

abbrev pub sets_timer : Effect → Bool
sets_timer set_idle_timer = true
sets_timer _ = false

abbrev pub id_or : Option Session → ℕ → ℕ
id_or none owner = owner
id_or (some s) owner = s.id

-- The session that the latest timer was set for: the one that was open when it was set.
abbrev pub owner_after : Wizard → ℕ → List Effect → ℕ
owner_after w owner fx = if any sets_timer fx then id_or w.session owner else owner

unfoldable pub owner_of : Wizard → ℕ → List Event → ℕ
owner_of w owner [] = owner
owner_of w owner (e ∷ es) = owner_of (step w e).0 (owner_after w owner (step w e).1) es

abbrev pub is_open : ℕ → Option Session → Bool
is_open owner none = false
is_open owner (some s) = s.id == owner

-- Where a timer is pending, the session that it was set for is the open one.
abbrev pub IsOwned : Wizard → ℕ → Type 0
IsOwned w owner = (not w.idle_timer || is_open owner w.session) ≡ true

-- What a step leaves.
abbrev IsOwnedAfter : Wizard → ℕ → Wizard × List Effect → Type 0
IsOwnedAfter w owner r = IsOwned r.0 (owner_after w owner r.1)

-- What `answer` does once its timer is set.
abbrev rest_of_answer : Wizard → Session → Option RestoreFacts → Wizard × List Effect
rest_of_answer v t device =
    if ltb segment_hard_max t.current then finish v t device else elim device [
      | none ↦ close v (refused device_gone)
      | some facts ↦ (v, map (λ c. send t.device_key c) (flash_segment facts.atomic t.current))
    ]
