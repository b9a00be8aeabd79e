-- ===== src/LanClient.antt =====
-- src/lib/govee-lan-client.ts: the datagram of each command. The limit of the light, the socket and
-- the answers are outside: a datagram counts as sent when it is handed over.
use io_broker_govee_smart.Base.{ℕ, List, [], ◌∷◌, Option, none, some, if◌then◌else◌, ◌==◌}
use io_broker_govee_smart.Text.{Whole, nan}
use io_broker_govee_smart.Color.{Rgb, black}
use io_broker_govee_smart.Command.{Value, is_truthy, as_number, clamp_whole}
use io_broker_govee_smart.BleFrame.{
  clamp_byte, build_scene_packets, build_diy_packets, build_gradient_packet,
  build_segment_color_packet, build_segment_brightness_packet,
}

pub data Datagram : Type 0 where
  turn brightness : ℕ → Datagram
  colorwc : Rgb → ℕ → Datagram
  pt_real : List (List ℕ) → Datagram

unfoldable pub set_power : Value → Datagram
unfolding is_truthy
set_power on = turn (if is_truthy on then 1 else 0)

abbrev pub percent_of : Option Whole → ℕ
percent_of none = 0
percent_of (some n) = clamp_whole 0 100 0 n

-- `clampByte0_100` of a value that may be no number.
unfoldable pub percent_of_value : Value → ℕ
percent_of_value v = percent_of (as_number v)

unfoldable pub set_brightness : Value → Datagram
unfolding percent_of_value
set_brightness v = brightness (percent_of_value v)

unfoldable pub set_color : Rgb → Datagram
unfolding clamp_byte
set_color c = colorwc (record { r = clamp_byte c.r; g = clamp_byte c.g; b = clamp_byte c.b }) 0

unfoldable pub lan_color_temperature_k : Whole → ℕ
lan_color_temperature_k kelvin = clamp_whole 2000 9000 2000 kelvin

abbrev pub kelvin_of : Option Whole → ℕ
kelvin_of none = lan_color_temperature_k nan
kelvin_of (some n) = lan_color_temperature_k n

unfoldable pub set_color_temperature : Value → Datagram
unfolding lan_color_temperature_k
set_color_temperature v = colorwc black (kelvin_of (as_number v))

-- `none`: nothing is sent.
unfoldable pub set_scene : ℕ → List ℕ → Option Datagram
unfolding build_scene_packets
set_scene scene_code scence_param =
    if scene_code == 0 then none else some (pt_real (build_scene_packets scene_code scence_param))

unfoldable pub set_gradient : Value → Datagram
unfolding build_gradient_packet is_truthy
set_gradient on = pt_real (build_gradient_packet (is_truthy on) ∷ [])

unfoldable pub set_diy_scene : List ℕ → Datagram
unfolding build_diy_packets
set_diy_scene scence_param = pt_real (build_diy_packets scence_param)

unfoldable pub set_segment_color : Rgb → List ℕ → Datagram
unfolding build_segment_color_packet
set_segment_color c segments = pt_real (build_segment_color_packet c.r c.g c.b segments ∷ [])

unfoldable pub set_segment_brightness : ℕ → List ℕ → Datagram
unfolding build_segment_brightness_packet
set_segment_brightness percent segments =
    pt_real (build_segment_brightness_packet percent segments ∷ [])
