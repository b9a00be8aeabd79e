-- ===== src/CommandRouter/Own.antt =====
-- src/lib/command-router.ts: what a command has to send over each channel.
use io_broker_govee_smart.Base.{
  ℕ, Bool, true, false, ◌&&◌, ◌||◌, List, [], ◌∷◌, Option, none, some, any, if◌then◌else◌, is_some,
  ◌==◌, arith, ◌≡◌, refl,
}
use io_broker_govee_smart.Text.{Text, text_eq}
use io_broker_govee_smart.TextMap.{text_eq_refl}
use io_broker_govee_smart.Color.{Rgb, rgb_of_int}
use io_broker_govee_smart.Device.{
  LibraryScene, LibraryDiy, SnapshotPackets, GoveeDevice, ControlKind,
}
use io_broker_govee_smart.Command.{
  Value, Command, control, scene, light_scene, diy_scene, snapshot, gradient_toggle, segment_batch,
  segment_color, segment_brightness, other, rgb_of_value,
}
use io_broker_govee_smart.LanClient.{
  Datagram, turn, colorwc, pt_real, set_power, set_brightness, set_color, set_color_temperature,
  set_scene, set_gradient, set_diy_scene, set_segment_color, set_segment_brightness,
  percent_of_value,
}
use io_broker_govee_smart.CommandRouter.{Channel, over_lan, over_broker, over_cloud}
use io_broker_govee_smart.CommandRouter.Batch.{ParsedBatch, read_batch}
use io_broker_govee_smart.CommandRouter.Lan.{speeded, flat}
use io_broker_govee_smart.CommandRouter.World.{
  CloudValue, segment_rgb, segment_level, Act, datagram, publish, control_device, World,
}

abbrev pub is_control : Act → Bool
is_control (control_device request) = true
is_control _ = false

abbrev pub is_publish : Act → Bool
is_publish (publish topic payload) = true
is_publish _ = false

-- Something leaves for the device, or the cloud accepts a call for it.
abbrev pub is_out : Act → Bool
is_out (datagram ip d) = true
is_out (publish topic payload) = true
is_out (control_device request) = true
is_out _ = false

abbrev pub packets_eq : List (List ℕ) → List (List ℕ) → Bool
packets_eq [] [] = true
packets_eq [] (q ∷ qs) = false
packets_eq (p ∷ ps) [] = false
packets_eq (p ∷ ps) (q ∷ qs) = text_eq p q && packets_eq ps qs

abbrev pub rgb_eq : Rgb → Rgb → Bool
rgb_eq c d = (c.r == d.r) && ((c.g == d.g) && (c.b == d.b))

abbrev pub datagram_eq : Datagram → Datagram → Bool
datagram_eq (turn m) (turn n) = m == n
datagram_eq (Datagram.brightness m) (Datagram.brightness n) = m == n
datagram_eq (colorwc c m) (colorwc d n) = rgb_eq c d && (m == n)
datagram_eq (pt_real ps) (pt_real qs) = packets_eq ps qs
datagram_eq _ _ = false

packets_eq_refl : (ps : List (List ℕ)) → packets_eq ps ps ≡ true
packets_eq_refl [] = refl
packets_eq_refl (p ∷ ps) = ground (arith, text_eq_refl p, packets_eq_refl ps)

pub datagram_eq_refl : (d : Datagram) → datagram_eq d d ≡ true
datagram_eq_refl (turn m) = ground arith
datagram_eq_refl (Datagram.brightness m) = ground arith
datagram_eq_refl (colorwc c m) = ground arith
datagram_eq_refl (pt_real ps) = packets_eq_refl ps

abbrev pub is_datagram : Datagram → Option Datagram → Bool
is_datagram d none = false
is_datagram d (some e) = datagram_eq d e

abbrev pub plays_scene : GoveeDevice → Datagram → LibraryScene → Bool
plays_scene device d s =
    is_datagram d (set_scene s.scene_code (speeded s.scence_param device.scene_speed s.speed_info))

abbrev pub plays_diy : Datagram → LibraryDiy → Bool
plays_diy d s = datagram_eq d (set_diy_scene s.scence_param)

abbrev pub plays_snapshot : Datagram → SnapshotPackets → Bool
plays_snapshot d p = datagram_eq d (pt_real (flat p.cmds))

abbrev pub for_index : Option ℕ → (ℕ → Datagram) → Datagram → Bool
for_index none make d = false
for_index (some i) make d = datagram_eq d (make i)

-- Whether the datagram is the one of the command and its value, or plays a scene that the device has.
unfoldable pub own_datagram : GoveeDevice → Command → Value → Datagram → Bool
own_datagram device (control ControlKind.power) value d = datagram_eq d (set_power value)
own_datagram device (control ControlKind.brightness) value d = datagram_eq d (set_brightness value)
own_datagram device (control ControlKind.color_rgb) value d =
    datagram_eq d (set_color (rgb_of_value value))
own_datagram device (control ControlKind.color_temperature) value d =
    datagram_eq d (set_color_temperature value)
own_datagram device gradient_toggle value d = datagram_eq d (set_gradient value)
own_datagram device (segment_color index) value d =
    for_index index (λ i. set_segment_color (rgb_of_value value) (i ∷ [])) d
own_datagram device (segment_brightness index) value d =
    for_index index (λ i. set_segment_brightness (percent_of_value value) (i ∷ [])) d
own_datagram device light_scene value d = any (plays_scene device d) device.scene_library
own_datagram device diy_scene value d = any (plays_diy d) device.diy_library
own_datagram device snapshot value d = any (plays_snapshot d) device.snapshot_ble_cmds
own_datagram device scene value d = false
own_datagram device segment_batch value d = false
own_datagram device (other name) value d = false

abbrev pub is_address : Text → Option Text → Bool
is_address ip none = false
is_address ip (some address) = text_eq ip address

abbrev pub sends_datagram : GoveeDevice → (Datagram → Bool) → Act → Bool
sends_datagram device p (datagram ip d) = is_address ip device.lan_ip && p d
sends_datagram device p _ = false

-- The commands that the LAN may leave to the cloud: it does not know them, or not their value.
abbrev pub may_fall_back : Command → Bool
may_fall_back scene = true
may_fall_back light_scene = true
may_fall_back diy_scene = true
may_fall_back snapshot = true
may_fall_back (other name) = true
may_fall_back _ = false

-- What has to leave for a command that is no batch.
abbrev pub carries : GoveeDevice → Command → Value → Channel → Act → Bool
carries device command value over_lan act =
    sends_datagram device (own_datagram device command value) act
    || (may_fall_back command && is_control act)
carries device command value over_broker act = is_publish act
carries device command value over_cloud act = is_control act

-- The call for a batch's colour, and for its brightness.
abbrev pub is_rgb_value : List ℕ → ℕ → CloudValue → Bool
is_rgb_value segments rgb (segment_rgb is n) = text_eq is segments && (n == rgb)
is_rgb_value segments rgb _ = false

abbrev pub is_level_value : List ℕ → CloudValue → Bool
is_level_value segments (segment_level is level) = text_eq is segments
is_level_value segments _ = false

abbrev pub calls_with : (CloudValue → Bool) → Act → Bool
calls_with p (control_device request) = p request.value
calls_with p _ = false

abbrev pub carries_color : GoveeDevice → List ℕ → ℕ → Channel → Act → Bool
carries_color device segments rgb over_lan act =
    sends_datagram device (datagram_eq (set_segment_color (rgb_of_int rgb) segments)) act
carries_color device segments rgb over_broker act = false
carries_color device segments rgb over_cloud act = calls_with (is_rgb_value segments rgb) act

abbrev pub carries_brightness : GoveeDevice → List ℕ → ℕ → Channel → Act → Bool
carries_brightness device segments percent over_lan act =
    sends_datagram device (datagram_eq (set_segment_brightness percent segments)) act
carries_brightness device segments percent over_broker act = false
carries_brightness device segments percent over_cloud act = calls_with (is_level_value segments) act

-- What a batch sets left for the device: the colour, the brightness or both.
abbrev pub is_given : (ℕ → Channel → Act → Bool) → Channel → Option ℕ → List Act → Bool
is_given p via none acts = true
is_given p via (some n) acts = any (p n via) acts

abbrev pub batch_left : GoveeDevice → Channel → Option ParsedBatch → List Act → Bool
batch_left device via none acts = false
batch_left device via (some b) acts =
    (is_some b.color || is_some b.brightness)
    && (is_given (carries_color device b.segments) via b.color acts
        && is_given (carries_brightness device b.segments) via b.brightness acts)

abbrev pub is_batch : Command → Bool
is_batch segment_batch = true
is_batch _ = false

-- What left for the device is what the command has to send.
unfoldable pub has_left : World → GoveeDevice → Command → Value → Channel → List Act → Bool
unfolding own_datagram
has_left world device command value via acts =
    if is_batch command
    then batch_left device via (read_batch world.quirks device value) acts
    else any (carries device command value via) acts
