-- ===== src/GroupFanout/Noted.antt =====
-- src/lib/group-fanout.ts: what one member of a group leaves behind.
use io_broker_govee_smart.Base.{
  ℕ, Bool, true, false, not, ◌&&◌, ◌||◌, List, [], ◌∷◌, ◌++◌, Option, none, some, any, ◌==◌, arith,
  ◌≡◌, refl, ◌∙◌, if_cases,
}
use io_broker_govee_smart.Text.{Text, plus, text_eq}
use io_broker_govee_smart.Device.{GoveeDevice}
use io_broker_govee_smart.Command.{Value, number, light_scene, to_text}
use io_broker_govee_smart.GroupFanout.{
  GroupCommand, scene_command, music_command, plain_command, Answer, threw, answered,
  GroupFanoutHost, Taken, took, took_nothing, fan_out_scene, fan_out_music, named_scene, named_mode,
  send_scene, send_mode, taken_music, taken_if, music_mode_suffix,
}
use io_broker_govee_smart.GroupFanout.Members.{
  is_counted, member_takes, Fan, note_taken, fan_members,
}

abbrev pub is_taken : Taken → Bool
is_taken (took awaits) = true
is_taken (took_nothing reason) = false

abbrev pub is_awaiting : Taken → Bool
is_awaiting (took awaits) = awaits
is_awaiting (took_nothing reason) = false

abbrev pub is_empty : List GoveeDevice → Bool
is_empty [] = true
is_empty (d ∷ ds) = false

is_empty-snoc : (ds : List GoveeDevice) (d : GoveeDevice) → is_empty (ds ++ d ∷ []) ≡ false
is_empty-snoc [] d = refl
is_empty-snoc (e ∷ ds) d = refl

-- A property of the loop's record after one member.
record Noted (fan next : Fan) (counted : Bool) (t : Taken) : Type 0 where
  succeeded : (next.succeeded == 0) ≡ (fan.succeeded == 0 && not (is_taken t))
  awaiting : next.awaiting_report ≡ (fan.awaiting_report || is_awaiting t)
  failed : is_empty next.failed ≡ (is_empty fan.failed && not (counted && not (is_taken t)))

note_taken-Noted :
    (group : GoveeDevice) (counted : Bool) (member : GoveeDevice) (t : Taken) (fan : Fan)
    → Noted fan (note_taken group counted member t fan) counted t
unfolding note_taken
note_taken-Noted group counted member (took awaits) fan = record {
  succeeded = ground arith;
  awaiting = refl;
  failed = ground arith;
}
note_taken-Noted group true member (took_nothing reason) fan = record {
  succeeded = ground arith;
  awaiting = ground arith;
  failed = ground (arith, is_empty-snoc fan.failed member);
}
note_taken-Noted group false member (took_nothing reason) fan = record {
  succeeded = ground arith;
  awaiting = ground arith;
  failed = ground arith;
}

module _ (host : GroupFanoutHost) (group : GoveeDevice) (command : GroupCommand)
    (state_suffix : Text) (value : Value) where
  abbrev pub takes : GoveeDevice → Taken
  takes d = member_takes host command state_suffix value d

  abbrev pub counts : GoveeDevice → Bool
  counts d = is_counted host command d

  pub fan_succeeded :
      (members : List GoveeDevice) (fan : Fan)
      → ((fan_members host group command state_suffix value members fan).succeeded == 0)
        ≡ (fan.succeeded == 0 && not (any (λ d. is_taken (takes d)) members))
  unfolding fan_members
  fan_succeeded [] fan = ground arith
  fan_succeeded (d ∷ members) fan =
      let next =
        note_taken group (is_counted host command d) d
          (member_takes host command state_suffix value d) fan in
      let n =
        note_taken-Noted group (is_counted host command d) d
          (member_takes host command state_suffix value d) fan in
      fan_succeeded members next ∙ ground (arith, n.succeeded)

  pub fan_awaiting :
      (members : List GoveeDevice) (fan : Fan)
      → (fan_members host group command state_suffix value members fan).awaiting_report
        ≡ (fan.awaiting_report || any (λ d. is_awaiting (takes d)) members)
  unfolding fan_members
  fan_awaiting [] fan = ground arith
  fan_awaiting (d ∷ members) fan =
      let next =
        note_taken group (is_counted host command d) d
          (member_takes host command state_suffix value d) fan in
      let n =
        note_taken-Noted group (is_counted host command d) d
          (member_takes host command state_suffix value d) fan in
      fan_awaiting members next ∙ ground (arith, n.awaiting)

  pub fan_failed :
      (members : List GoveeDevice) (fan : Fan)
      → is_empty (fan_members host group command state_suffix value members fan).failed
        ≡ (is_empty fan.failed && not (any (λ d. counts d && not (is_taken (takes d))) members))
  unfolding fan_members
  fan_failed [] fan = ground arith
  fan_failed (d ∷ members) fan =
      let next =
        note_taken group (is_counted host command d) d
          (member_takes host command state_suffix value d) fan in
      let n =
        note_taken-Noted group (is_counted host command d) d
          (member_takes host command state_suffix value d) fan in
      fan_failed members next ∙ ground (arith, n.failed)

-- Only a member that counts has a report that is waited for.
scene_not_awaiting :
    (host : GroupFanoutHost) (d : GoveeDevice) (value : Value)
    → is_awaiting (fan_out_scene host d value) ≡ false
unfolding fan_out_scene
scene_not_awaiting host d value = named (host.scene_name (to_text value))
  where
    after_call : (a : Answer (Unit {0})) → is_awaiting (taken_if a) ≡ false
    after_call threw = refl
    after_call (answered done) = refl

    after_index : (i : Option ℕ) → is_awaiting (send_scene host d i) ≡ false
    after_index none = refl
    after_index (some idx) = after_call (host.sends d light_scene (number (plus idx)))

    named : (a : Answer (Option Text)) → is_awaiting (named_scene host d a) ≡ false
    named threw = refl
    named (answered none) = refl
    named (answered (some [])) = refl
    named (answered (some (c ∷ name))) = after_index _

music_not_awaiting :
    (host : GroupFanoutHost) (d : GoveeDevice) (state_suffix : Text) (value : Value)
    → is_awaiting (fan_out_music host d state_suffix value) ≡ false
unfolding fan_out_music
music_not_awaiting host d state_suffix value =
    if_cases (λ t. is_awaiting t ≡ false) (text_eq state_suffix music_mode_suffix)
      (λ _. named (host.music_name (to_text value)))
      (λ _. after_call (host.sends_music d state_suffix value))
  where
    after_call : (a : Answer Bool) → is_awaiting (taken_music a) ≡ false
    after_call threw = refl
    after_call (answered true) = refl
    after_call (answered false) = refl

    after_index : (i : Option ℕ) → is_awaiting (send_mode host d i) ≡ false
    after_index none = refl
    after_index (some idx) = after_call (host.sends_music d music_mode_suffix (number (plus idx)))

    named : (a : Answer (Option Text)) → is_awaiting (named_mode host d a) ≡ false
    named threw = refl
    named (answered none) = refl
    named (answered (some [])) = refl
    named (answered (some (c ∷ name))) = after_index _

pub awaiting-counted :
    (host : GroupFanoutHost) (command : GroupCommand) (state_suffix : Text) (value : Value)
    (d : GoveeDevice)
    → (is_awaiting (member_takes host command state_suffix value d)
        && not (is_counted host command d))
      ≡ false
unfolding member_takes is_counted
awaiting-counted host scene_command state_suffix value d =
    ground (arith, scene_not_awaiting host d value)
awaiting-counted host music_command state_suffix value d =
    ground (arith, music_not_awaiting host d state_suffix value)
awaiting-counted host (plain_command command) state_suffix value d = ground arith

pub awaiting-taken : (t : Taken) → (is_awaiting t && not (is_taken t)) ≡ false
awaiting-taken (took awaits) = ground arith
awaiting-taken (took_nothing reason) = refl
