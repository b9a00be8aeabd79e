-- ===== src/BrokerCommands.antt =====
-- src/lib/broker-commands.ts: which commands the account broker carries, and in which form.
use io_broker_govee_smart.Base.{
  ℕ, Bool, true, false, not, ◌&&◌, Option, none, some, if◌then◌else◌, ◌==◌, is_some,
}
use io_broker_govee_smart.Text.{Text, codes, text_eq, Whole, nan, plus, minus}
use io_broker_govee_smart.Color.{Rgb, black, hex_to_rgb}
use io_broker_govee_smart.Device.{GoveeDevice, ControlKind}
use io_broker_govee_smart.Command.{
  Value, boolean, number, text, Command, control, to_text, to_number, clamp_whole,
}

pub record BrokerRoute : Type 0 where
  pub lan_path : Bool
  pub broker_connected : Bool
  pub broker_excluded : Bool

-- The commands with a row in `BROKER_COMMAND_DATAPOINTS`.
abbrev pub has_datapoint : Command → Bool
has_datapoint (control kind) = true
has_datapoint _ = false

unfoldable pub broker_carries : GoveeDevice → Command → BrokerRoute → Bool
broker_carries device command route =
    has_datapoint command
    && device.is_light
    && is_some device.iot_topic
    && not route.lan_path
    && route.broker_connected
    && not route.broker_excluded

pub data BrokerData : Type 0 where
  turn brightness : ℕ → BrokerData
  colorwc : Rgb → ℕ → BrokerData

pub record BrokerMessage : Type 0 where
  pub payload : BrokerData
  pub sent : Value

-- `value === true || value === 1 || value === "true"`
abbrev pub is_on : Value → Bool
is_on (boolean b) = b
is_on (number (plus n)) = n == 1
is_on (text s) = text_eq s (codes "true")
is_on _ = false

abbrev message : BrokerData → Value → Option BrokerMessage
message payload sent = some (record { payload = payload; sent = sent })

abbrev pub brightness_message : Whole → Option BrokerMessage
brightness_message nan = none
brightness_message n =
    let pct = clamp_whole 0 100 0 n in message (brightness pct) (number (plus pct))

abbrev pub kelvin_message : Whole → Option BrokerMessage
kelvin_message nan = none
kelvin_message (minus n) = none
kelvin_message (plus n) = if n == 0 then none else message (colorwc black n) (number (plus n))

-- `none`: the method throws.
unfoldable pub broker_message : (Text → Whole) → Command → Value → Option BrokerMessage
unfolding to_text to_number hex_to_rgb
broker_message read (control ControlKind.power) value =
    let on = is_on value in message (turn (if on then 1 else 0)) (boolean on)
broker_message read (control ControlKind.brightness) value =
    brightness_message (to_number read value)
broker_message read (control ControlKind.color_rgb) value =
    message (colorwc (hex_to_rgb (to_text value)) 0) value
broker_message read (control ControlKind.color_temperature) value =
    kelvin_message (to_number read value)
broker_message read _ value = none
