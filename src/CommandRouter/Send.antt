-- ===== src/CommandRouter/Send.antt =====
-- src/lib/command-router.ts: `sendCommand` and the dispatchers under it.
use io_broker_govee_smart.Base.{
  Bool, true, false, not, ◌&&◌, List, [], ◌∷◌, Option, none, some, if◌then◌else◌,
}
use io_broker_govee_smart.Text.{Text, plus}
use io_broker_govee_smart.Device.{GoveeDevice, ControlKind}
use io_broker_govee_smart.Command.{
  Value, number, Command, control, segment_batch, segment_color, segment_brightness,
}
use io_broker_govee_smart.LanClient.{lan_color_temperature_k}
use io_broker_govee_smart.BrokerCommands.{BrokerMessage, broker_message}
use io_broker_govee_smart.CommandRouter.{
  TransportDecision, lan, broker, cloud, skip, SkipReason, no_channel, override_cloud_missing,
  Channel, over_lan, over_broker, over_cloud, Marker, cloud_broker_down, channel_of, has_cloud,
  resolve_transport, decision_to_channel_marker,
}
use io_broker_govee_smart.CommandRouter.World.{
  World, Act, publish, read_back_lan, read_back_broker, Run, went, after, Failure,
  override_without_cloud, cloud_not_ready, no_channel_available, broker_down, not_a_number,
}
use io_broker_govee_smart.CommandRouter.Cloud.{send_cloud_command}
use io_broker_govee_smart.CommandRouter.Segments.{
  dispatch_segment_color, dispatch_segment_brightness, dispatch_segment_batch,
}
use io_broker_govee_smart.CommandRouter.Lan.{send_lan_command}

-- `describeSkip`
unfoldable pub describe_skip : World → GoveeDevice → SkipReason → Failure
describe_skip world device override_cloud_missing = override_without_cloud
describe_skip world device no_channel =
    if device.cloud && not world.clients.cloud then cloud_not_ready else no_channel_available

-- What a dispatch ends with: the value that went out and its way, or what it threw.
pub data Ending : Type 0 where
  sent : Value → Channel → Ending
  failed : Failure → Ending

pub record Dispatch : Type 0 where
  pub acts : List Act
  pub ending : Ending

abbrev pub ends_with : Run → Ending → Dispatch
ends_with r ending = elim r.failure [
  | none ↦ record { acts = r.acts; ending = ending }
  | some f ↦ record { acts = r.acts; ending = failed f }
]

-- `decision.kind` of a decision that is no skip.
abbrev pub kind_of : TransportDecision → Channel
kind_of lan = over_lan
kind_of broker = over_broker
kind_of _ = over_cloud

abbrev pub lan_kelvin : Value → Value
lan_kelvin (number n) = number (plus (lan_color_temperature_k n))
lan_kelvin value = value

-- The value that the LAN packet carries.
abbrev pub lan_sent : Command → Value → Value
lan_sent (control ControlKind.color_temperature) value = lan_kelvin value
lan_sent _ value = value

-- `scheduleLanReadBack`, which asks the light once, later.
abbrev pub lan_read_back : Option Text → List Act
lan_read_back none = []
lan_read_back (some ip) = read_back_lan ip ∷ []

abbrev pub lan_dispatch : World → GoveeDevice → Command → Value → Dispatch
lan_dispatch world device command value =
    ends_with
      (after (send_lan_command world device command value) (went (lan_read_back device.lan_ip)))
      (sent (lan_sent command value) over_lan)

abbrev pub cloud_dispatch : World → GoveeDevice → Command → Value → Dispatch
cloud_dispatch world device command value =
    ends_with (send_cloud_command world device command value) (sent value over_cloud)

abbrev pub throws : Failure → Dispatch
throws f = record { acts = []; ending = failed f }

-- The broker dropped between the decision and the send: the cloud is next.
abbrev pub instead_of_broker : World → GoveeDevice → Command → Value → Dispatch
instead_of_broker world device command value =
    if has_cloud world.clients device
    then cloud_dispatch world device command value
    else throws broker_down

abbrev pub publish_message :
    World → GoveeDevice → Command → Value → Option BrokerMessage → Option Text → Dispatch
publish_message world device command value none topic = throws not_a_number
publish_message world device command value (some message) none =
    instead_of_broker world device command value
publish_message world device command value (some message) (some topic) =
    if world.published
    then record {
      acts = publish topic message.payload ∷ read_back_broker device.device_id ∷ [];
      ending = sent message.sent over_broker;
    }
    else instead_of_broker world device command value

-- The generic part of `dispatchCommand`.
unfoldable pub dispatch_generic :
    World → GoveeDevice → Command → Value → TransportDecision → Dispatch
unfolding send_lan_command lan_color_temperature_k broker_message send_cloud_command describe_skip
dispatch_generic world device command value lan = lan_dispatch world device command value
dispatch_generic world device command value broker =
    publish_message world device command value (broker_message world.read_number command value)
      device.iot_topic
dispatch_generic world device command value (cloud reason) =
    cloud_dispatch world device command value
dispatch_generic world device command value (skip reason) =
    throws (describe_skip world device reason)

-- `dispatchCommand`, for a decision that is no skip.
unfoldable pub dispatch_taken : World → GoveeDevice → Command → Value → TransportDecision → Dispatch
unfolding dispatch_generic dispatch_segment_color dispatch_segment_brightness dispatch_segment_batch
dispatch_taken world device (segment_color index) value decision =
    ends_with (dispatch_segment_color world device index value decision)
      (sent value (kind_of decision))
dispatch_taken world device segment_batch value decision =
    ends_with (dispatch_segment_batch world device value decision) (sent value (kind_of decision))
dispatch_taken world device (segment_brightness index) value decision =
    ends_with (dispatch_segment_brightness world device index value decision)
      (sent value (kind_of decision))
dispatch_taken world device command value decision =
    dispatch_generic world device command value decision

unfoldable pub dispatch_command :
    World → GoveeDevice → Command → Value → TransportDecision → Dispatch
unfolding dispatch_taken describe_skip
dispatch_command world device command value (skip reason) =
    throws (describe_skip world device reason)
dispatch_command world device command value decision =
    dispatch_taken world device command value decision

-- What `onCommandResult` reports: the value, the way as the diagnostics name it, and the error.
pub record CommandResult : Type 0 where
  pub value : Value
  pub transport : Marker
  pub error : Option Failure

pub record Sent : Type 0 where
  pub acts : List Act
  pub ending : Ending
  pub result : CommandResult

abbrev pub same_channel : Channel → Option Channel → Bool
same_channel over_lan (some over_lan) = true
same_channel over_broker (some over_broker) = true
same_channel over_cloud (some over_cloud) = true
same_channel _ _ = false

abbrev pub report_of : TransportDecision → Value → Ending → CommandResult
report_of decision value (sent out via) = record {
  value = out;
  transport =
      if same_channel via (channel_of decision)
      then decision_to_channel_marker decision
      else cloud_broker_down;
  error = none;
}
report_of decision value (failed f) = record {
  value = value;
  transport = decision_to_channel_marker decision;
  error = some f;
}

abbrev pub reported : TransportDecision → Value → Dispatch → Sent
reported decision value d = record {
  acts = d.acts;
  ending = d.ending;
  result = report_of decision value d.ending;
}

unfoldable pub send_command : World → GoveeDevice → Command → Value → Sent
unfolding resolve_transport dispatch_command decision_to_channel_marker
send_command world device command value =
    let decision = resolve_transport world.clients world.quirks device command in
    reported decision value (dispatch_command world device command value decision)
