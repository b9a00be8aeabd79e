-- ===== src/CommandRouter.antt =====
-- src/lib/command-router.ts: which way a command goes (`resolveTransport`), with what the router
-- knows of its channels. The children send the command; each proof stands in a child too.
pub mod Route
pub mod Batch
pub mod World
pub mod Cloud
pub mod Lan
pub mod Segments
pub mod Send
pub mod Own
pub mod Accounted
pub mod Fits
pub mod Ways
pub mod BatchSent
pub mod Confirmed
use io_broker_govee_smart.Base.{
  ℕ, Bool, true, false, not, ◌&&◌, List, Option, none, some, if◌then◌else◌, ◌==◌, is_some,
}
use io_broker_govee_smart.Text.{Text, Whole}
use io_broker_govee_smart.Device.{GoveeDevice}
use io_broker_govee_smart.Device.SegmentCount.{resolve_segment_count}
use io_broker_govee_smart.Command.{Command, light_scene}
use io_broker_govee_smart.BrokerCommands.{broker_carries}

pub data TransportTarget : Type 0 where
  cloud_target lan_target : TransportTarget

-- What `getQuirks` answers for a model.
pub record Quirks : Type 0 where
  pub transport_overrides : Command → Option TransportTarget
  pub broken_broker_commands : Bool
  pub segment_count : Option ℕ

-- The clients that are registered: whether there is a LAN client and a cloud client, and whether
-- the broker's client is there and connected.
pub record Clients : Type 0 where
  pub lan : Bool
  pub cloud : Bool
  pub broker_connected : Bool

pub data CloudReason : Type 0 where
  override no_lan no_segments_heuristic light_no_lan_fallback : CloudReason

pub data SkipReason : Type 0 where
  no_channel override_cloud_missing : SkipReason

pub data TransportDecision : Type 0 where
  lan broker : TransportDecision
  cloud : CloudReason → TransportDecision
  skip : SkipReason → TransportDecision

-- The way a command takes.
pub data Channel : Type 0 where
  over_lan over_broker over_cloud : Channel

abbrev pub channel_of : TransportDecision → Option Channel
channel_of lan = some over_lan
channel_of broker = some over_broker
channel_of (cloud reason) = some over_cloud
channel_of (skip reason) = none

-- `device.lanIp && this.lanClient`
abbrev pub has_lan : Clients → GoveeDevice → Bool
has_lan clients device = is_some device.lan_ip && clients.lan

-- `device.channels.cloud && this.cloudClient`
abbrev pub has_cloud : Clients → GoveeDevice → Bool
has_cloud clients device = device.cloud && clients.cloud

abbrev pub is_cloud_target : Option TransportTarget → Bool
is_cloud_target (some cloud_target) = true
is_cloud_target _ = false

unfoldable pub should_heuristically_use_cloud : Quirks → GoveeDevice → Command → Bool
should_heuristically_use_cloud quirks device light_scene =
    (resolve_segment_count quirks.segment_count device).0 == 0
should_heuristically_use_cloud quirks device _ = false

-- `resolveTransport`, where there is no LAN path and no override to the cloud.
abbrev pub without_lan : Clients → Quirks → GoveeDevice → Command → TransportDecision
without_lan clients quirks device command =
    if broker_carries device command (record {
      lan_path = false;
      broker_connected = clients.broker_connected;
      broker_excluded = quirks.broken_broker_commands;
    })
    then broker
    else if has_cloud clients device
    then cloud
        (if device.is_light && not (is_some device.lan_ip) then light_no_lan_fallback else no_lan)
    else skip no_channel

unfoldable pub resolve_transport : Clients → Quirks → GoveeDevice → Command → TransportDecision
unfolding should_heuristically_use_cloud broker_carries
resolve_transport clients quirks device command =
    if is_cloud_target (quirks.transport_overrides command)
    then (if has_cloud clients device then cloud override else skip override_cloud_missing)
    else if has_lan clients device
    then (if should_heuristically_use_cloud quirks device command
        then (if has_cloud clients device then cloud no_segments_heuristic else skip no_channel)
        else lan)
    else without_lan clients quirks device command

-- How the diagnostics name the way.
pub data Marker : Type 0 where
  lan_marker broker_marker cloud_marker cloud_fallback cloud_override cloud_no_segments : Marker
  skip_override skip_no_channel cloud_broker_down : Marker

unfoldable pub decision_to_channel_marker : TransportDecision → Marker
decision_to_channel_marker lan = lan_marker
decision_to_channel_marker broker = broker_marker
decision_to_channel_marker (cloud light_no_lan_fallback) = cloud_fallback
decision_to_channel_marker (cloud override) = cloud_override
decision_to_channel_marker (cloud no_segments_heuristic) = cloud_no_segments
decision_to_channel_marker (cloud no_lan) = cloud_marker
decision_to_channel_marker (skip override_cloud_missing) = skip_override
decision_to_channel_marker (skip no_channel) = skip_no_channel
