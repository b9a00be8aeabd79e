-- ===== src/Device.antt =====
-- src/lib/types.ts: a device as far as commands need it, with `capMatchesControl`, and the segment
-- count of src/lib/device-manager/lookups.ts. `lan_ip` and `iot_topic` are `none` for an empty text
-- too. A capability whose type or instance is no text is `none`. BLE packets and `scenceParam` are
-- bytes, as in BleFrame; what Govee sent as the value of a scene is a number that stands for it.
pub mod SegmentCount
use io_broker_govee_smart.Base.{
  ℕ, suc, ◌+◌, Bool, true, false, ◌&&◌, List, [], ◌∷◌, Option, none, some, if◌then◌else◌, leb,
}
use io_broker_govee_smart.Text.{Text, codes, text_eq, to_lower, includes, without}
use io_broker_govee_smart.BleFrame.{SpeedEntry}

-- `segment_maxima`: for each field named `segment`, the `elementRange.max`; `none` where it is no
-- number, or below 0.
pub record Capability : Type 0 where
  pub type : Text
  pub instance_name : Text
  pub segment_maxima : List (Option ℕ)

pub record CloudScene : Type 0 where
  pub name : Text
  pub value : ℕ

-- `config`: the entries of the configuration; `none` where it is no JSON array.
pub record SpeedInfo : Type 0 where
  pub sup_speed : Bool
  pub has_config : Bool
  pub config : Option (List SpeedEntry)

pub record LibraryScene : Type 0 where
  pub name : Text
  pub scene_code : ℕ
  pub scence_param : List ℕ
  pub speed_info : Option SpeedInfo

pub record LibraryDiy : Type 0 where
  pub name : Text
  pub diy_code : ℕ
  pub scence_param : List ℕ

pub record SnapshotPackets : Type 0 where
  pub name : Text
  pub cmds : List (List (List ℕ))

pub record MemberRef : Type 0 where
  pub sku : Text
  pub device_id : Text

-- `is_light`: the type is `GOVEE_DEVICE_TYPE.LIGHT`. `online`, `color_rgb`: of the device's state.
pub record GoveeDevice : Type 0 where
  pub sku : Text
  pub device_id : Text
  pub is_light : Bool
  pub lan_ip : Option Text
  pub iot_topic : Option Text
  pub cloud : Bool
  pub online : Bool
  pub color_rgb : Option Text
  pub capabilities : List (Option Capability)
  pub scenes : List CloudScene
  pub diy_scenes : List CloudScene
  pub snapshots : List CloudScene
  pub scene_library : List LibraryScene
  pub diy_library : List LibraryDiy
  pub snapshot_ble_cmds : List SnapshotPackets
  pub scene_speed : Option ℕ
  pub segment_count : Option ℕ
  pub manual_mode : Bool
  pub manual_segments : List ℕ
  pub group_members : Option (List MemberRef)

abbrev pub capability_prefix : Text
capability_prefix = codes "devices.capabilities."

abbrev pub short_type : Capability → Text
short_type cap = without capability_prefix cap.type

pub data ControlKind : Type 0 where
  power brightness color_rgb color_temperature : ControlKind

abbrev pub names_brightness : Capability → Bool
names_brightness cap = includes (to_lower cap.instance_name) (codes "brightness")

unfoldable pub cap_matches_control : Capability → ControlKind → Bool
unfolding without includes to_lower
cap_matches_control cap power = text_eq (short_type cap) (codes "on_off")
cap_matches_control cap brightness =
    text_eq (short_type cap) (codes "range") && names_brightness cap
cap_matches_control cap color_rgb =
    text_eq (short_type cap) (codes "color_setting") && text_eq cap.instance_name (codes "colorRgb")
cap_matches_control cap color_temperature =
    text_eq (short_type cap) (codes "color_setting")
    && includes cap.instance_name (codes "colorTem")
