-- ===== src/CommandRouter/Route.antt =====
-- src/lib/command-router.ts: the order of the ways, as the class comment promises it, and that
-- `resolveTransport` keeps to it.
use io_broker_govee_smart.Base.{
  Bool, false, not, ◌&&◌, List, [], ◌∷◌, if◌then◌else◌, find, ◌==◌, arith, ◌≡◌, is_some,
}
use io_broker_govee_smart.Device.{GoveeDevice}
use io_broker_govee_smart.Command.{Command, control, light_scene}
use io_broker_govee_smart.Device.SegmentCount.{resolve_segment_count}
use io_broker_govee_smart.BrokerCommands.{has_datapoint, broker_carries}
use io_broker_govee_smart.CommandRouter.{
  Clients, Quirks, Channel, over_lan, over_broker, over_cloud, channel_of, has_lan, has_cloud,
  is_cloud_target, should_heuristically_use_cloud, resolve_transport,
}

-- A scene for a light that has no segments.
abbrev is_flat_scene : Quirks → GoveeDevice → Command → Bool
is_flat_scene quirks device light_scene = (resolve_segment_count quirks.segment_count device).0 == 0
is_flat_scene quirks device _ = false

-- What each channel can take, whatever the others can.
abbrev pub can_take : Clients → Quirks → GoveeDevice → Command → Channel → Bool
can_take clients quirks device command over_lan =
    has_lan clients device && not (is_flat_scene quirks device command)
can_take clients quirks device command over_broker =
    has_datapoint command
    && device.is_light
    && is_some device.iot_topic
    && clients.broker_connected
    && not quirks.broken_broker_commands
can_take clients quirks device command over_cloud = has_cloud clients device

-- The channels in the order of preference.
abbrev pub preference : Quirks → Command → List Channel
preference quirks command =
    if is_cloud_target (quirks.transport_overrides command)
    then over_cloud ∷ []
    else over_lan ∷ over_broker ∷ over_cloud ∷ []

-- The command takes the first channel that can take it, in the order LAN, account broker, cloud; a
-- model with an override to the cloud takes the cloud or nothing. It is skipped exactly when no
-- channel of the order can take it.
pub resolve_transport-first :
    (clients : Clients) (quirks : Quirks) (device : GoveeDevice) (command : Command)
    → channel_of (resolve_transport clients quirks device command)
      ≡ find (can_take clients quirks device command) (preference quirks command)
unfolding resolve_transport broker_carries should_heuristically_use_cloud
resolve_transport-first clients quirks device light_scene = ground arith
resolve_transport-first clients quirks device (control k) = ground arith
resolve_transport-first clients quirks device _ = ground arith
