-- ===== src/GroupFanout/Members.antt =====
-- src/lib/group-fanout.ts: `fanOut`, its loop over the members and its warnings.
use io_broker_govee_smart.Base.{
  ℕ, ◌+◌, Bool, true, false, not, ◌&&◌, ◌||◌, List, [], ◌∷◌, ◌++◌, Option, none, some,
  if◌then◌else◌, keep, any, is_some, ◌==◌, map,
}
use io_broker_govee_smart.Text.{Text, codes, text_eq, plus, minus}
use io_broker_govee_smart.Device.{GoveeDevice}
use io_broker_govee_smart.Command.{Value, number, text}
use io_broker_govee_smart.GroupFanout.{
  GroupCommand, scene_command, music_command, plain_command, Answer, threw, answered,
  GroupFanoutHost, Warned, debug, warn, FanOut, call_failed, Taken, took, took_nothing,
  fan_out_scene, fan_out_music, resolve_group_members,
}

-- The channel of the member can carry the command: a LAN light has to be online.
abbrev pub is_reachable : GoveeDevice → Bool
is_reachable d = d.online || (d.cloud && not (is_some d.lan_ip))

abbrev has_modes : List Text → Bool
has_modes [] = false
has_modes (m ∷ modes) = true

-- Whether the member has to take the command for the group to be confirmed.
unfoldable pub is_counted : GroupFanoutHost → GroupCommand → GoveeDevice → Bool
is_counted host music_command d = has_modes (host.music_modes d)
is_counted host _ d = true

abbrev pub taken_plain : Answer (Unit {0}) → Bool → Taken
taken_plain threw awaits = took_nothing call_failed
taken_plain (answered done) awaits = took awaits

-- What one member makes of the command.
unfoldable pub member_takes : GroupFanoutHost → GroupCommand → Text → Value → GoveeDevice → Taken
unfolding fan_out_scene fan_out_music is_counted
member_takes host scene_command state_suffix value member = fan_out_scene host member value
member_takes host music_command state_suffix value member =
    fan_out_music host member state_suffix value
member_takes host (plain_command command) state_suffix value member =
    taken_plain (host.sends member command value)
      (is_counted host (plain_command command) member && host.awaits_report member command)

-- `group:member`
abbrev pub member_key : GoveeDevice → GoveeDevice → Text
member_key group member = group.device_id ++ (b':' ∷ member.device_id)

abbrev pub has_text : Text → List Text → Bool
has_text key keys = any (λ k. text_eq k key) keys

abbrev pub add_text : Text → List Text → List Text
add_text key keys = if has_text key keys then keys else keys ++ key ∷ []

abbrev pub delete_text : Text → List Text → List Text
delete_text key keys = keep (λ k. not (text_eq k key)) keys

-- `failed` keeps the members; their reasons stand in the text of the line only.
pub record Fan : Type 0 where
  pub warned_members : List Text
  pub succeeded : ℕ
  pub awaiting_report : Bool
  pub failed : List GoveeDevice

unfoldable pub note_taken : GoveeDevice → Bool → GoveeDevice → Taken → Fan → Fan
note_taken group counted member (took awaits) fan = record {
  warned_members = delete_text (member_key group member) fan.warned_members;
  succeeded = fan.succeeded + 1;
  awaiting_report = fan.awaiting_report || awaits;
  failed = fan.failed;
}
note_taken group counted member (took_nothing reason) fan = record fan {
  failed = if counted then fan.failed ++ member ∷ [] else fan.failed;
}

-- The loop over the members that can be reached.
unfoldable pub fan_members :
    GroupFanoutHost → GoveeDevice → GroupCommand → Text → Value → List GoveeDevice → Fan → Fan
unfolding note_taken member_takes is_counted
fan_members host group command state_suffix value [] fan = fan
fan_members host group command state_suffix value (member ∷ members) fan =
    fan_members host group command state_suffix value members (
      note_taken group (is_counted host command member) member
        (member_takes host command state_suffix value member) fan)

-- `warnGroupOnce`
unfoldable pub warn_group_once : GoveeDevice → Warned → FanOut
warn_group_once group warned =
    if has_text group.device_id warned.groups
    then record { warned = warned; logs = debug ∷ []; confirmed = false }
    else record {
      warned = record warned { groups = add_text group.device_id warned.groups };
      logs = warn ∷ [];
      confirmed = false;
    }

abbrev pub add_all : List Text → List Text → List Text
add_all [] warned = warned
add_all (k ∷ keys) warned = add_all keys (add_text k warned)

-- `reportFailedMembers`
unfoldable pub report_failed_members : GoveeDevice → List GoveeDevice → Warned → FanOut
report_failed_members group failed warned =
    let keys = map (member_key group) failed in
    if any (λ k. not (has_text k warned.members)) keys
    then record {
      warned = record warned { members = add_all keys warned.members };
      logs = warn ∷ [];
      confirmed = false;
    }
    else record { warned = warned; logs = debug ∷ []; confirmed = false }

-- What follows the loop.
abbrev pub after_failures : GoveeDevice → Warned → Bool → List GoveeDevice → FanOut
after_failures group warned awaiting [] = record {
  warned = warned;
  logs = [];
  confirmed = not awaiting;
}
after_failures group warned awaiting (d ∷ failed) = report_failed_members group (d ∷ failed) warned

unfoldable pub finish_fan : GoveeDevice → Warned → Fan → FanOut
unfolding warn_group_once report_failed_members
finish_fan group warned fan =
    let marked : Warned = record warned { members = fan.warned_members } in
    if fan.succeeded == 0
    then warn_group_once group marked
    else after_failures group (record marked { groups = delete_text group.device_id marked.groups })
        fan.awaiting_report fan.failed

abbrev pub with_members :
    GroupFanoutHost
    → GoveeDevice
    → GroupCommand
    → Text
    → Value
    → Warned
    → List GoveeDevice
    → List GoveeDevice
    → FanOut
with_members host group command state_suffix value warned all [] = warn_group_once group warned
with_members host group command state_suffix value warned all (m ∷ members) =
    finish_fan group warned (
      fan_members host group command state_suffix value (m ∷ members) (record {
        warned_members = warned.members;
        succeeded = 0;
        awaiting_report = false;
        failed = keep (λ d. is_counted host command d && not (is_reachable d)) all;
      }))

-- `value === "0" || value === 0`
abbrev pub is_reset_value : Value → Bool
is_reset_value (number (plus n)) = n == 0
is_reset_value (number (minus n)) = n == 0
is_reset_value (text s) = text_eq s (codes "0")
is_reset_value _ = false

-- The reset of a dropdown.
abbrev pub is_reset : GroupCommand → Value → Bool
is_reset (plain_command command) value = false
is_reset _ value = is_reset_value value

abbrev pub fan_out_all :
    GroupFanoutHost → GoveeDevice → GroupCommand → Text → Value → Warned → List GoveeDevice → FanOut
fan_out_all host group command state_suffix value warned all =
    with_members host group command state_suffix value warned all (keep is_reachable all)

abbrev pub fan_out_command :
    GroupFanoutHost → GoveeDevice → Text → Value → Warned → Option GroupCommand → FanOut
fan_out_command host group state_suffix value warned none = record {
  warned = warned;
  logs = [];
  confirmed = false;
}
fan_out_command host group state_suffix value warned (some command) =
    if is_reset command value
    then record { warned = warned; logs = []; confirmed = true }
    else fan_out_all host group command state_suffix value warned
        (resolve_group_members group.group_members host.devices)

unfoldable pub fan_out : GroupFanoutHost → GoveeDevice → Text → Value → Warned → FanOut
unfolding fan_members finish_fan is_counted resolve_group_members warn_group_once
fan_out host group state_suffix value warned =
    if is_some group.group_members
    then fan_out_command host group state_suffix value warned (host.command_of state_suffix)
    else record { warned = warned; logs = []; confirmed = false }
