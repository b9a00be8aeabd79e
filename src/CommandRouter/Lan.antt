-- ===== src/CommandRouter/Lan.antt =====
-- src/lib/command-router.ts: a command over the LAN (sendLanCommand, cloudFallbackForCase,
-- forceColorMode).
use io_broker_govee_smart.Base.{
  ℕ, ltb, ◌&&◌, List, [], ◌∷◌, ◌++◌, Option, none, some, if◌then◌else◌, leb, ◌==◌, find,
}
use io_broker_govee_smart.Text.{Text, text_eq}
use io_broker_govee_smart.Color.{Rgb, hex_to_rgb}
use io_broker_govee_smart.BleFrame.{apply_scene_speed}
use io_broker_govee_smart.Device.{
  CloudScene, SpeedInfo, LibraryScene, LibraryDiy, SnapshotPackets, GoveeDevice, ControlKind,
}
use io_broker_govee_smart.Command.{
  Value, Command, control, light_scene, diy_scene, snapshot, gradient_toggle, rgb_of_value,
}
use io_broker_govee_smart.LanClient.{
  Datagram, set_power, set_brightness, set_color, set_color_temperature, set_scene, set_gradient,
  set_diy_scene, pt_real,
}
use io_broker_govee_smart.CommandRouter.World.{
  World, Act, datagram, delay, Run, went, refused, no_lan_path, invalid_index,
}
use io_broker_govee_smart.CommandRouter.Cloud.{scene_at, send_cloud_command}

abbrev pub force_color_mode_settle_ms : ℕ
force_color_mode_settle_ms = 150

abbrev pub current_color : Option Text → Rgb
current_color none = record { r = 255; g = 255; b = 255 }
current_color (some hex) = hex_to_rgb hex

-- `forceColorMode`, for a light with an address and a client.
unfoldable pub force_color_mode : Text → GoveeDevice → List Act
unfolding set_color
force_color_mode ip device =
    datagram ip (set_color (current_color device.color_rgb)) ∷ delay force_color_mode_settle_ms ∷ []

-- The name without an ending such as `-A`.
unfoldable pub base_name : Text → Text
base_name [] = []
base_name (c ∷ []) = c ∷ []
base_name (c ∷ d ∷ []) = if c == b'-' && (leb b'A' d && leb d b'Z') then [] else c ∷ d ∷ []
base_name (c ∷ d ∷ e ∷ s) = c ∷ base_name (d ∷ e ∷ s)

abbrev pub or_find : Option LibraryScene → Option LibraryScene → Option LibraryScene
or_find none other = other
or_find (some s) other = some s

unfoldable pub library_entry : List LibraryScene → Text → Option LibraryScene
unfolding base_name
library_entry library name =
    or_find (find (λ s. text_eq s.name name) library)
      (find (λ s. text_eq s.name (base_name name)) library)

abbrev pub speeded : List ℕ → Option ℕ → Option SpeedInfo → List ℕ
speeded param none info = param
speeded param (some speed) none = param
speeded param (some speed) (some info) =
    if ltb 0 speed && (info.sup_speed && info.has_config)
    then apply_scene_speed param speed info.config
    else param

abbrev pub send_datagram : Text → Option Datagram → Run
send_datagram ip none = went []
send_datagram ip (some d) = went (datagram ip d ∷ [])

-- Where the library has no entry the command goes on to the cloud.
abbrev pub play_scene : Text → GoveeDevice → Option LibraryScene → Run → Run
play_scene ip device none fallback = fallback
play_scene ip device (some entry) fallback =
    send_datagram ip
      (set_scene entry.scene_code (speeded entry.scence_param device.scene_speed entry.speed_info))

abbrev pub send_light_scene : Text → GoveeDevice → Option CloudScene → Run → Run
send_light_scene ip device none fallback = refused invalid_index
send_light_scene ip device (some scene) fallback =
    play_scene ip device (library_entry device.scene_library scene.name) fallback

abbrev pub play_diy : Text → Option LibraryDiy → Run → Run
play_diy ip none fallback = fallback
play_diy ip (some entry) fallback = send_datagram ip (some (set_diy_scene entry.scence_param))

abbrev pub send_diy_scene : Text → GoveeDevice → Option CloudScene → Run → Run
send_diy_scene ip device none fallback = refused invalid_index
send_diy_scene ip device (some scene) fallback =
    play_diy ip (find (λ d. text_eq d.name scene.name) device.diy_library) fallback

-- `cmdGroups.flat()`
abbrev pub flat : List (List (List ℕ)) → List (List ℕ)
flat [] = []
flat (group ∷ groups) = group ++ flat groups

abbrev pub packets_of : Option SnapshotPackets → List (List ℕ)
packets_of none = []
packets_of (some p) = flat p.cmds

abbrev pub play_packets : Text → List (List ℕ) → Run → Run
play_packets ip [] fallback = fallback
play_packets ip (p ∷ packets) fallback = send_datagram ip (some (pt_real (p ∷ packets)))

abbrev pub send_snapshot : Text → GoveeDevice → Option CloudScene → Run → Run
send_snapshot ip device none fallback = refused invalid_index
send_snapshot ip device (some scene) fallback =
    play_packets ip (packets_of (find (λ p. text_eq p.name scene.name) device.snapshot_ble_cmds))
      fallback

-- `sendLanCommand` at an address. The last argument is `cloudFallbackForCase`.
unfoldable pub send_to_ip : Text → GoveeDevice → Command → Value → Run → Run
unfolding set_power set_brightness set_color set_color_temperature set_gradient rgb_of_value
    library_entry set_scene set_diy_scene scene_at
send_to_ip ip device (control ControlKind.power) value fallback =
    send_datagram ip (some (set_power value))
send_to_ip ip device (control ControlKind.brightness) value fallback =
    send_datagram ip (some (set_brightness value))
send_to_ip ip device (control ControlKind.color_rgb) value fallback =
    send_datagram ip (some (set_color (rgb_of_value value)))
send_to_ip ip device (control ControlKind.color_temperature) value fallback =
    send_datagram ip (some (set_color_temperature value))
send_to_ip ip device gradient_toggle value fallback = send_datagram ip (some (set_gradient value))
send_to_ip ip device diy_scene value fallback =
    send_diy_scene ip device (scene_at device.diy_scenes value) fallback
send_to_ip ip device light_scene value fallback =
    send_light_scene ip device (scene_at device.scenes value) fallback
send_to_ip ip device snapshot value fallback =
    send_snapshot ip device (scene_at device.snapshots value) fallback
send_to_ip ip device _ value fallback = fallback

abbrev pub to_ip : World → GoveeDevice → Command → Value → Option Text → Run
to_ip world device command value none = refused no_lan_path
to_ip world device command value (some ip) =
    if world.clients.lan
    then send_to_ip ip device command value (send_cloud_command world device command value)
    else refused no_lan_path

unfoldable pub send_lan_command : World → GoveeDevice → Command → Value → Run
unfolding send_to_ip send_cloud_command
send_lan_command world device command value = to_ip world device command value device.lan_ip
