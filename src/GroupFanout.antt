-- ===== src/GroupFanout.antt =====
-- src/lib/group-fanout.ts: a command to a group goes to its members one by one (`fanOut`). What the
-- host answers is a record of functions; a device stands for its object, so a member that is listed
-- twice answers alike.
pub mod Members
pub mod Noted
pub mod Confirmed
use io_broker_govee_smart.Base.{
  ℕ, zero, suc, ◌+◌, Bool, true, false, not, ◌&&◌, ◌||◌, List, [], ◌∷◌, ◌++◌, Option, none, some,
  if◌then◌else◌, keep, any, is_some, ltb, ◌==◌, map,
}
use io_broker_govee_smart.Text.{Text, codes, text_eq, to_lower, keep_alphanumeric, Whole, plus}
use io_broker_govee_smart.Device.{GoveeDevice, MemberRef, CloudScene}
use io_broker_govee_smart.Command.{Value, number, text, Command, light_scene, to_text}

-- `sessionKey` of src/lib/device-key.ts.
unfoldable pub session_key : Text → Text → Text
session_key sku device_id = sku ++ (b':' ∷ device_id)

-- `byKey.get(key)`, after every device was set under its key: the last one stays.
unfoldable pub device_by_key : Text → List GoveeDevice → Option GoveeDevice
unfolding session_key
device_by_key key [] = none
device_by_key key (d ∷ devices) = elim (device_by_key key devices) [
  | some later ↦ some later
  | none ↦ if text_eq (session_key d.sku d.device_id) key then some d else none
]

abbrev pub push_found : Option GoveeDevice → List GoveeDevice → List GoveeDevice
push_found none out = out
push_found (some d) out = d ∷ out

unfoldable pub resolve_refs : List MemberRef → List GoveeDevice → List GoveeDevice
unfolding device_by_key
resolve_refs [] devices = []
resolve_refs (m ∷ refs) devices =
    push_found (device_by_key (session_key m.sku m.device_id) devices) (resolve_refs refs devices)

unfoldable pub resolve_group_members : Option (List MemberRef) → List GoveeDevice → List GoveeDevice
unfolding resolve_refs
resolve_group_members none devices = []
resolve_group_members (some refs) devices = resolve_refs refs devices

-- What a datapoint of the group stands for (`stateToCommand`).
pub data GroupCommand : Type 0 where
  scene_command music_command : GroupCommand
  plain_command : Command → GroupCommand

-- How a call of the host ends: it throws, or it answers.
pub data Answer (A : Type 0) : Type 0 where
  threw : Answer A
  answered : A → Answer A

-- `sends` and `sends_music`: the calls for one member; `sends_music` answers whether something was
-- sent. `scene_name` and `music_name`: the name that the group's dropdown has for a key.
-- `music_modes`: the names that `memberMusicModes` lists.
pub record GroupFanoutHost : Type 0 where
  pub devices : List GoveeDevice
  pub command_of : Text → Option GroupCommand
  pub sends : GoveeDevice → Command → Value → Answer (Unit {0})
  pub awaits_report : GoveeDevice → Command → Bool
  pub sends_music : GoveeDevice → Text → Value → Answer Bool
  pub scene_name : Text → Answer (Option Text)
  pub music_name : Text → Answer (Option Text)
  pub music_modes : GoveeDevice → List Text

-- Which members and groups were warned of.
pub record Warned : Type 0 where
  pub members : List Text
  pub groups : List Text

pub data Level : Type 0 where
  debug warn : Level

pub record FanOut : Type 0 where
  pub warned : Warned
  pub logs : List Level
  pub confirmed : Bool

-- What became of the command at one member: whether its own report is still due, or why it took
-- nothing.
pub data Reason : Type 0 where
  not_reachable unknown_scene no_music_command call_failed : Reason

pub data Taken : Type 0 where
  took : Bool → Taken
  took_nothing : Reason → Taken

-- `findIndex` of a name, from 1 as the dropdown counts.
abbrev pub index_from : ℕ → (Text → Bool) → List Text → Option ℕ
index_from i p [] = none
index_from i p (n ∷ names) = if p n then some i else index_from (i + 1) p names

abbrev pub scene_names : List CloudScene → List Text
scene_names scenes = map (λ s. s.name) scenes

abbrev pub taken_if : Answer (Unit {0}) → Taken
taken_if threw = took_nothing call_failed
taken_if (answered done) = took false

abbrev pub send_scene : GroupFanoutHost → GoveeDevice → Option ℕ → Taken
send_scene host member none = took_nothing unknown_scene
send_scene host member (some idx) = taken_if (host.sends member light_scene (number (plus idx)))

-- A name that is missing or empty is no name.
abbrev pub named_scene : GroupFanoutHost → GoveeDevice → Answer (Option Text) → Taken
named_scene host member threw = took_nothing call_failed
named_scene host member (answered none) = took_nothing unknown_scene
named_scene host member (answered (some [])) = took_nothing unknown_scene
named_scene host member (answered (some (c ∷ name))) =
    send_scene host member (index_from 1 (λ n. text_eq n (c ∷ name)) (scene_names member.scenes))

unfoldable pub fan_out_scene : GroupFanoutHost → GoveeDevice → Value → Taken
unfolding to_text
fan_out_scene host member value = named_scene host member (host.scene_name (to_text value))

-- `musicNameKey` of src/lib/capability-mapper.ts.
unfoldable pub music_name_key : Text → Text
unfolding to_lower keep_alphanumeric
music_name_key name = keep_alphanumeric (to_lower name)

abbrev pub taken_music : Answer Bool → Taken
taken_music threw = took_nothing call_failed
taken_music (answered true) = took false
taken_music (answered false) = took_nothing no_music_command

abbrev pub music_mode_suffix : Text
music_mode_suffix = codes "music.music_mode"

abbrev pub send_mode : GroupFanoutHost → GoveeDevice → Option ℕ → Taken
send_mode host member none = took_nothing no_music_command
send_mode host member (some idx) =
    taken_music (host.sends_music member music_mode_suffix (number (plus idx)))

abbrev pub named_mode : GroupFanoutHost → GoveeDevice → Answer (Option Text) → Taken
named_mode host member threw = took_nothing call_failed
named_mode host member (answered none) = took_nothing no_music_command
named_mode host member (answered (some [])) = took_nothing no_music_command
named_mode host member (answered (some (c ∷ name))) = send_mode host member (
    index_from 1 (λ n. text_eq (music_name_key n) (music_name_key (c ∷ name)))
      (host.music_modes member))

unfoldable pub fan_out_music : GroupFanoutHost → GoveeDevice → Text → Value → Taken
unfolding to_text music_name_key
fan_out_music host member state_suffix value =
    if text_eq state_suffix music_mode_suffix
    then named_mode host member (host.music_name (to_text value))
    else taken_music (host.sends_music member state_suffix value)
