-- ===== src/CommandRouter/Cloud.antt =====
-- src/lib/command-router.ts: a command over the cloud (toCloudValue, findCapabilityForCommand,
-- sendCloudCommand, sendSegmentBatchParsed, sendCapabilityCommand).
use io_broker_govee_smart.Base.{
  ℕ, suc, Bool, false, not, ◌&&◌, List, [], ◌∷◌, Option, none, some, if◌then◌else◌, get_elem?,
  or_else, String,
}
use io_broker_govee_smart.Text.{codes, text_eq, Whole, plus, parse_int, without}
use io_broker_govee_smart.Color.{rgb_int}
use io_broker_govee_smart.Device.{
  Capability, CloudScene, GoveeDevice, ControlKind, short_type, names_brightness,
  cap_matches_control,
}
use io_broker_govee_smart.Command.{
  Value, Command, number, control, scene, light_scene, diy_scene, snapshot, gradient_toggle,
  segment_color, segment_brightness, is_truthy, to_text, rgb_of_value,
}
use io_broker_govee_smart.CommandRouter.{has_cloud}
use io_broker_govee_smart.CommandRouter.Batch.{ParsedBatch}
use io_broker_govee_smart.CommandRouter.World.{
  CloudValue, plain, flag, packed, scene_value, segment_rgb, segment_level, Request, World, Run,
  went, refused, after, send_budgeted, no_cloud, no_capability, invalid_index,
  no_segment_capability,
}

-- The 1-based index of a dropdown, looked up in the list; `none` where it is out of range.
abbrev pub nth_scene : List CloudScene → Whole → Option CloudScene
nth_scene scenes (plus (suc i)) = get_elem? scenes i
nth_scene scenes _ = none

-- `parseInt(String(value), 10)` and the test of its range.
unfoldable pub scene_at : List CloudScene → Value → Option CloudScene
unfolding parse_int to_text
scene_at scenes value = nth_scene scenes (parse_int (to_text value))

abbrev pub value_of_scene : Option CloudScene → Option CloudValue
value_of_scene none = none
value_of_scene (some s) = some (scene_value s.value)

abbrev pub segment_value : (List ℕ → CloudValue) → Option ℕ → Option CloudValue
segment_value make none = none
segment_value make (some seg_idx) = some (make (seg_idx ∷ []))

-- `none`: the method throws.
unfoldable pub to_cloud_value : World → GoveeDevice → Command → Value → Option CloudValue
unfolding is_truthy rgb_of_value scene_at
to_cloud_value world device (control ControlKind.power) value =
    some (flag (if is_truthy value then 1 else 0))
to_cloud_value world device (control ControlKind.color_rgb) value =
    some (packed (rgb_int (rgb_of_value value)))
to_cloud_value world device scene value = some (plain (world.declared_scene value))
to_cloud_value world device gradient_toggle value = some (flag (if is_truthy value then 1 else 0))
to_cloud_value world device light_scene value = value_of_scene (scene_at device.scenes value)
to_cloud_value world device diy_scene value = value_of_scene (scene_at device.diy_scenes value)
to_cloud_value world device snapshot value = value_of_scene (scene_at device.snapshots value)
to_cloud_value world device (segment_color index) value =
    segment_value (λ is. segment_rgb is (rgb_int (rgb_of_value value))) index
to_cloud_value world device (segment_brightness index) value =
    segment_value (λ is. segment_level is value) index
to_cloud_value world device _ value = some (plain value)

-- The row of `CAPABILITY_OF_COMMAND`.
abbrev pub is_fixed : Capability → String → String → Bool
is_fixed cap type instance_name =
    text_eq (short_type cap) (codes type) && text_eq cap.instance_name (codes instance_name)

abbrev pub sets_segments : Capability → Bool
sets_segments cap = text_eq (short_type cap) (codes "segment_color_setting")

unfoldable pub cap_serves : Capability → Command → Bool
unfolding cap_matches_control without
cap_serves cap (control kind) = cap_matches_control cap kind
cap_serves cap scene = is_fixed cap "mode" "presetScene"
cap_serves cap light_scene = is_fixed cap "dynamic_scene" "lightScene"
cap_serves cap diy_scene = is_fixed cap "dynamic_scene" "diyScene"
cap_serves cap snapshot = is_fixed cap "dynamic_scene" "snapshot"
cap_serves cap gradient_toggle = is_fixed cap "toggle" "gradientToggle"
cap_serves cap (segment_color index) = sets_segments cap && not (names_brightness cap)
cap_serves cap (segment_brightness index) = sets_segments cap && names_brightness cap
cap_serves cap _ = false

unfoldable pub find_capability_for_command : List (Option Capability) → Command → Option Capability
unfolding cap_serves
find_capability_for_command [] command = none
find_capability_for_command (none ∷ caps) command = find_capability_for_command caps command
find_capability_for_command (some cap ∷ caps) command =
    if cap_serves cap command then some cap else find_capability_for_command caps command

abbrev pub request_to : Capability → CloudValue → Request
request_to cap value = record { type = cap.type; instance_name = cap.instance_name; value = value }

abbrev pub send_value : World → Capability → Option CloudValue → Run
send_value world cap none = refused invalid_index
send_value world cap (some value) = send_budgeted world (request_to cap value)

abbrev pub send_through : World → GoveeDevice → Command → Value → Option Capability → Run
send_through world device command value none = refused no_capability
send_through world device command value (some cap) =
    send_value world cap (to_cloud_value world device command value)

unfoldable pub send_cloud_command : World → GoveeDevice → Command → Value → Run
unfolding find_capability_for_command to_cloud_value
send_cloud_command world device command value =
    if world.clients.cloud
    then send_through world device command value
        (find_capability_for_command device.capabilities command)
    else refused no_cloud

abbrev pub send_batch_color : World → Capability → List ℕ → Option ℕ → Run
send_batch_color world cap segments none = went []
send_batch_color world cap segments (some rgb) =
    send_budgeted world (request_to cap (segment_rgb segments rgb))

abbrev pub send_batch_brightness : World → Capability → List ℕ → Option ℕ → Run
send_batch_brightness world cap segments none = went []
send_batch_brightness world cap segments (some percent) =
    send_budgeted world (request_to cap (segment_level segments (number (plus percent))))

-- The capability of the colour, and the one of the brightness where there is one.
abbrev pub send_batch_through : World → Option Capability → Option Capability → ParsedBatch → Run
send_batch_through world none bright_cap parsed = refused no_segment_capability
send_batch_through world (some cap) bright_cap parsed =
    after (send_batch_color world cap parsed.segments parsed.color)
      (send_batch_brightness world (or_else bright_cap cap) parsed.segments parsed.brightness)

unfoldable pub send_segment_batch_parsed : World → GoveeDevice → ParsedBatch → Run
unfolding find_capability_for_command
send_segment_batch_parsed world device parsed =
    if world.clients.cloud
    then send_batch_through world
        (find_capability_for_command device.capabilities (segment_color (some 0)))
        (find_capability_for_command device.capabilities (segment_brightness (some 0))) parsed
    else refused no_cloud

-- `sendCapabilityCommand`: a write to one named capability.
unfoldable pub send_capability_command : World → GoveeDevice → Capability → Value → Run
unfolding is_truthy without
send_capability_command world device cap value =
    if has_cloud world.clients device
    then send_budgeted world (
        request_to cap (
          if text_eq (short_type cap) (codes "toggle")
          then flag (if is_truthy value then 1 else 0)
          else plain value))
    else refused no_cloud
