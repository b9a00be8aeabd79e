-- ===== src/CommandRouter/Segments.antt =====
-- src/lib/command-router.ts: the dispatchers of the segment commands.
use io_broker_govee_smart.Base.{ℕ, Bool, List, [], ◌∷◌, ◌++◌, Option, none, some, if◌then◌else◌}
use io_broker_govee_smart.Text.{Text}
use io_broker_govee_smart.Color.{rgb_of_int}
use io_broker_govee_smart.Device.{GoveeDevice}
use io_broker_govee_smart.Command.{Value, text, segment_color, segment_brightness, rgb_of_value}
use io_broker_govee_smart.LanClient.{set_segment_color, set_segment_brightness, percent_of_value}
use io_broker_govee_smart.CommandRouter.{TransportDecision, lan, cloud}
use io_broker_govee_smart.CommandRouter.Batch.{ParsedBatch, read_batch}
use io_broker_govee_smart.CommandRouter.World.{
  World, Act, datagram, batch_update, Run, went, refused, after, Failure, invalid_index,
  unreadable_batch, invalid_batch,
}
use io_broker_govee_smart.CommandRouter.Cloud.{send_cloud_command, send_segment_batch_parsed}
use io_broker_govee_smart.CommandRouter.Lan.{force_color_mode}

-- `decision.kind === "lan" && device.lanIp && this.lanClient`, and else the cloud's branch.
abbrev pub by_decision : Bool → TransportDecision → Option Text → (Text → Run) → Run → Run
by_decision client lan none on_lan on_cloud = went []
by_decision client lan (some ip) on_lan on_cloud = if client then on_lan ip else went []
by_decision client (cloud reason) ip on_lan on_cloud = on_cloud
by_decision client _ ip on_lan on_cloud = went []

abbrev pub for_segment : Option ℕ → (ℕ → Run) → Run
for_segment none send = refused invalid_index
for_segment (some seg_idx) send = send seg_idx

unfoldable pub dispatch_segment_color :
    World → GoveeDevice → Option ℕ → Value → TransportDecision → Run
unfolding force_color_mode set_segment_color rgb_of_value send_cloud_command
dispatch_segment_color world device index value decision = for_segment index λ seg_idx.
    by_decision world.clients.lan decision device.lan_ip
      (λ ip. went (
        force_color_mode ip device
        ++ datagram ip (set_segment_color (rgb_of_value value) (seg_idx ∷ [])) ∷ []))
      (send_cloud_command world device (segment_color index) value)

unfoldable pub dispatch_segment_brightness :
    World → GoveeDevice → Option ℕ → Value → TransportDecision → Run
unfolding force_color_mode set_segment_brightness percent_of_value send_cloud_command
dispatch_segment_brightness world device index value decision = for_segment index λ seg_idx.
    by_decision world.clients.lan decision device.lan_ip
      (λ ip. went (
        force_color_mode ip device
        ++ datagram ip (set_segment_brightness (percent_of_value value) (seg_idx ∷ [])) ∷ []))
      (send_cloud_command world device (segment_brightness index) value)

abbrev pub color_datagrams : Text → ParsedBatch → Option ℕ → List Act
color_datagrams ip parsed none = []
color_datagrams ip parsed (some rgb) =
    datagram ip (set_segment_color (rgb_of_int rgb) parsed.segments) ∷ []

abbrev pub brightness_datagrams : Text → ParsedBatch → Option ℕ → List Act
brightness_datagrams ip parsed none = []
brightness_datagrams ip parsed (some percent) =
    datagram ip (set_segment_brightness percent parsed.segments) ∷ []

-- A text that cannot be read is told from another value that cannot.
abbrev pub batch_failure : Value → Failure
batch_failure (text s) = unreadable_batch
batch_failure _ = invalid_batch

abbrev pub dispatch_parsed :
    World → GoveeDevice → Value → TransportDecision → Option ParsedBatch → Run
dispatch_parsed world device value decision none = refused (batch_failure value)
dispatch_parsed world device value decision (some parsed) =
    by_decision world.clients.lan decision device.lan_ip
      (λ ip. went (
        force_color_mode ip device
        ++ (color_datagrams ip parsed parsed.color
            ++ (brightness_datagrams ip parsed parsed.brightness ++ batch_update parsed ∷ []))))
      (after (send_segment_batch_parsed world device parsed) (went (batch_update parsed ∷ [])))

unfoldable pub dispatch_segment_batch : World → GoveeDevice → Value → TransportDecision → Run
unfolding read_batch force_color_mode set_segment_color set_segment_brightness
    send_segment_batch_parsed
dispatch_segment_batch world device value decision =
    dispatch_parsed world device value decision (read_batch world.quirks device value)
