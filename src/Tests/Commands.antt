-- ===== src/Tests/Commands.antt =====
-- src/lib/command-router.ts, src/lib/group-fanout.ts and src/lib/color.ts at concrete inputs.
use io_broker_govee_smart.Base.{
  ℕ, ◌≤◌, true, false, ◌||◌, ◌&&◌, List, [], ◌∷◌, none, some, ◌≡◌, refl, arith, length, is_some,
  find,
}
use io_broker_govee_smart.Text.{codes, plus, nan, parse_int, decimal}
use io_broker_govee_smart.Color.{hex_to_rgb, rgb_to_hex, rgb_int, rgb_int_to_hex}
use io_broker_govee_smart.Color.RoundTrip.{hex_to_rgb-rgb_to_hex}
use io_broker_govee_smart.SegmentList.{holds_index}
use io_broker_govee_smart.Device.{Capability, GoveeDevice, ControlKind}
use io_broker_govee_smart.Command.{boolean, text, control, light_scene, segment_color}
use io_broker_govee_smart.CommandRouter.{Quirks, Clients, channel_of, resolve_transport, over_lan}
use io_broker_govee_smart.CommandRouter.Route.{can_take, preference, resolve_transport-first}
use io_broker_govee_smart.CommandRouter.Batch.{ParsedBatch, parse_segment_batch}
use io_broker_govee_smart.CommandRouter.Batch.Parsed.{mentions}
use io_broker_govee_smart.CommandRouter.Batch.Accepted.{
  has_segment, segment_text, InRange, parse_segment_batch_lem,
}
use io_broker_govee_smart.CommandRouter.World.{World, accepted, unconfirmed, not_accepted}
use io_broker_govee_smart.CommandRouter.Send.{send_command, sent, failed}
use io_broker_govee_smart.CommandRouter.Own.{has_left}
use io_broker_govee_smart.CommandRetry as Retry
use io_broker_govee_smart.CommandRetry.Newest as Newest
use io_broker_govee_smart.CommandRetry.Thrice.{times_started, run_events-thrice}
use io_broker_govee_smart.GroupFanout.{
  GroupFanoutHost, Warned, plain_command, answered, threw, resolve_group_members,
}
use io_broker_govee_smart.GroupFanout.Members.{fan_out}
use io_broker_govee_smart.GroupFanout.Confirmed.{confirmed_by, fan_out-confirmed}

abbrev dynamic_scene : Capability
dynamic_scene = record {
  type = codes "devices.capabilities.dynamic_scene";
  instance_name = codes "lightScene";
  segment_maxima = [];
}

abbrev segment_colors : Capability
segment_colors = record {
  type = codes "devices.capabilities.segment_color_setting";
  instance_name = codes "segmentedColorRgb";
  segment_maxima = some 14 ∷ [];
}

abbrev strip : GoveeDevice
strip = record {
  sku = codes "H61E1";
  device_id = codes "aabb";
  is_light = true;
  lan_ip = some (codes "10.0.0.7");
  iot_topic = none;
  cloud = true;
  online = true;
  color_rgb = none;
  capabilities = none ∷ some dynamic_scene ∷ some segment_colors ∷ [];
  scenes = record { name = codes "Aurora-A"; value = 7 } ∷ [];
  diy_scenes = [];
  snapshots = [];
  scene_library =
      record {
        name = codes "Aurora";
        scene_code = 215;
        scence_param = 1 ∷ 2 ∷ [];
        speed_info = none;
      }
      ∷ [];
  diy_library = [];
  snapshot_ble_cmds = [];
  scene_speed = none;
  segment_count = none;
  manual_mode = false;
  manual_segments = [];
  group_members = none;
}

abbrev plain_quirks : Quirks
plain_quirks = record {
  transport_overrides = λ command. none;
  broken_broker_commands = false;
  segment_count = none;
}

abbrev all_clients : Clients
all_clients = record { lan = true; cloud = true; broker_connected = false }

abbrev world : World
world = record {
  clients = all_clients;
  quirks = plain_quirks;
  read_number = λ s. nan;
  declared_scene = λ v. v;
  published = false;
  outcome_of = λ request. accepted;
}

number_read : parse_int (codes "  42nd") ≡ plus 42
unfolding parse_int
number_read = refl

number_written : decimal 2048 ≡ codes "2048"
unfolding decimal
number_written = refl

batch_read :
    parse_segment_batch plain_quirks strip (codes "1-3, 99,5:#ff0000:20")
    ≡ some (record { segments = 1 ∷ 2 ∷ 3 ∷ 5 ∷ []; color = some 0xff0000; brightness = some 20 })
unfolding parse_segment_batch
batch_read = refl

-- The scene is played over the LAN, from the library's entry without the ending.
scene_played :
    (send_command world strip light_scene (text (codes "1"))).ending
    ≡ sent (text (codes "1")) over_lan
unfolding send_command
scene_played = refl

-- A colour of a segment leaves as its own datagram.
segment_painted :
    (let s = send_command world strip (segment_color (some 3)) (text (codes "#ff0000")) in
      has_left world strip (segment_color (some 3)) (text (codes "#ff0000")) over_lan s.acts)
    ≡ true
unfolding send_command has_left
segment_painted = refl

-- A call that failed may have reached Govee; the command throws.
abbrev failing : World
failing = record world {
  clients = record all_clients { lan = false };
  outcome_of = λ request. unconfirmed;
}

call_failed :
    (send_command failing strip light_scene (text (codes "1"))).ending ≡ failed not_accepted
unfolding send_command
call_failed = refl

hex_to_rgb-rgb_to_hex_example :
    (hex_to_rgb (rgb_to_hex 255 102 0) ≡ record { r = 255; g = 102; b = 0 })
    × (rgb_int_to_hex (rgb_int (record { r = 255; g = 102; b = 0 })) ≡ rgb_to_hex 255 102 0)
hex_to_rgb-rgb_to_hex_example =
    hex_to_rgb-rgb_to_hex 255 102 0 (omega arith) (omega arith) (omega arith)

resolve_transport-first_example :
    channel_of (resolve_transport all_clients plain_quirks strip light_scene)
    ≡ find
        (can_take all_clients plain_quirks strip light_scene)
        (preference plain_quirks light_scene)
resolve_transport-first_example = resolve_transport-first all_clients plain_quirks strip light_scene

abbrev batch_result : ParsedBatch
batch_result = record { segments = 1 ∷ 2 ∷ 3 ∷ 5 ∷ []; color = some 0xff0000; brightness = some 20 }

parse_segment_batch_lem_example :
    ((i : ℕ)
      → holds_index i batch_result.segments ≡ (
          has_segment plain_quirks strip i
          && mentions i (segment_text (codes "1-3, 99,5:#ff0000:20"))))
    × (1 ≤ length batch_result.segments)
    × InRange batch_result.color 0xffffff
    × InRange batch_result.brightness 100
    × ((is_some batch_result.color || is_some batch_result.brightness) ≡ true)
parse_segment_batch_lem_example =
    parse_segment_batch_lem plain_quirks strip (codes "1-3, 99,5:#ff0000:20") tt batch_read

-- Two writes; the first one's retry comes after the second and is dropped.
abbrev overtaken : List Retry.Event
overtaken =
    Retry.Event.write "H61E1:powerSwitch" 0
    ∷ Retry.Event.settles 0 Retry.Outcome.never_sent 100
    ∷ Retry.Event.write "H61E1:powerSwitch" 500
    ∷ Retry.Event.resumes 0
    ∷ []

overtaken_starts : length (Retry.run_events Retry.make_sends overtaken).starts ≡ 2
unfolding Retry.run_events
overtaken_starts = refl

run_events-thrice_example :
    Newest.IsFresh (Retry.run_events Retry.make_sends overtaken)
    × (times_started "H61E1:powerSwitch" 1 (Retry.run_events Retry.make_sends overtaken).starts ≤ 3)
run_events-thrice_example = run_events-thrice overtaken "H61E1:powerSwitch" 1

abbrev group : GoveeDevice
group = record strip {
  sku = codes "BaseGroup";
  device_id = codes "9";
  group_members = some (record { sku = codes "H61E1"; device_id = codes "aabb" } ∷ []);
}

abbrev host : GroupFanoutHost
host = record {
  devices = strip ∷ [];
  command_of = λ suffix. some (plain_command (control ControlKind.power));
  sends = λ member command value. answered tt;
  awaits_report = λ member command. false;
  sends_music = λ member suffix value. threw;
  scene_name = λ key. threw;
  music_name = λ key. threw;
  music_modes = λ member. [];
}

abbrev unwarned : Warned
unwarned = record { members = []; groups = [] }

group_switched :
    (fan_out host group (codes "control.power") (boolean true) unwarned).confirmed ≡ true
unfolding fan_out
group_switched = refl

fan_out-confirmed_example :
    (fan_out host group (codes "control.power") (boolean true) unwarned).confirmed ≡ (
      is_some group.group_members
      && confirmed_by host
          (codes "control.power")
          (boolean true)
          (resolve_group_members group.group_members host.devices)
          (host.command_of (codes "control.power")))
fan_out-confirmed_example =
    fan_out-confirmed host group (codes "control.power") (boolean true) unwarned
