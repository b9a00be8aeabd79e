-- ===== src/ApplianceFrames.antt =====
-- src/lib/appliance-frames.ts: what an appliance's own status push says. A frame that the broker
-- relays is the list of its bytes, or `none` for what is no text (base64 stands outside). What the
-- device declared is read from its capabilities outside (`declaredWorkMode`): a value that is no
-- whole number is `none`, and so are the options of a group that has no list of them.
pub mod Declared
use io_broker_govee_smart.Base.{
  ℕ, ◌+◌, ◌%◌, ◌≤◌, Bool, true, false, ◌&&◌, ◌||◌, String, List, [], ◌∷◌, ◌++◌, Option, none, some,
  if◌then◌else◌, if_cases, is_some, get_or, find, any, all, leb, leb→le, ◌==◌, ==_iff, str_eq,
  arith, ◌≡◌, refl, All, All-append, Option-cases, inl, inr,
}
use io_broker_govee_smart.BleFrame.{decode_ble_frame}

pub record Frame : Type 0 where
  pub fn : ℕ
  pub sub : ℕ
  pub bytes : List ℕ

pub record ModeOption : Type 0 where
  pub name : String
  pub value : Option ℕ

pub record LevelGroup : Type 0 where
  pub name : String
  pub options : Option (List (Option ℕ))

pub record WorkModes : Type 0 where
  pub modes : List ModeOption
  pub levels : List LevelGroup

pub record Appliance : Type 0 where
  pub work_modes : Option WorkModes
  pub has_filter : Bool

pub data Reading : Type 0 where
  work_mode : ℕ → ℕ → Reading
  filter_life battery : ℕ → Reading

pub data PushDecoder : Type 0 where
  h7127_purifier h1741_battery : PushDecoder

abbrev pub frame_of : List ℕ → Option Frame
frame_of bytes =
    if get_or bytes 0 0 == 0xaa
    then some (record { fn = get_or bytes 1 0; sub = get_or bytes 2 0; bytes = bytes })
    else none

unfoldable pub parse_frame : Option (List ℕ) → Option Frame
unfolding decode_ble_frame
parse_frame raw = elim (decode_ble_frame raw) [ none ↦ none | some bytes ↦ frame_of bytes ]

abbrev pub is_value : ℕ → Option ℕ → Bool
is_value n none = false
is_value n (some v) = v == n

abbrev pub has_option : ℕ → LevelGroup → Bool
has_option n g = elim g.options [ none ↦ false | some os ↦ any (is_value n) os ]

-- The manual level, where the group of the mode's name has it as an option.
unfoldable pub mode_value_of : Option LevelGroup → Option Frame → ℕ
mode_value_of none level_frame = 0
mode_value_of (some g) none = 0
mode_value_of (some g) (some f) =
    if has_option (get_or f.bytes 3 0) g then get_or f.bytes 3 0 else 0

abbrev pub group_of : WorkModes → ModeOption → Option LevelGroup
group_of w o = find (λ (g : LevelGroup). str_eq g.name o.name && is_some g.options) w.levels

abbrev pub report_mode : WorkModes → ℕ → Option Frame → Option ModeOption → List Reading
report_mode w mode level_frame none = []
report_mode w mode level_frame (some o) =
    work_mode mode (mode_value_of (group_of w o) level_frame) ∷ []

unfoldable pub read_work_mode : Option WorkModes → Option Frame → Option Frame → List Reading
unfolding mode_value_of
read_work_mode none mode_frame level_frame = []
read_work_mode (some w) none level_frame = []
read_work_mode (some w) (some f) level_frame =
    let mode = get_or f.bytes 3 0 in
    report_mode w mode level_frame (find (λ (o : ModeOption). is_value mode o.value) w.modes)

unfoldable pub read_filter : Bool → Option Frame → List Reading
read_filter has_filter none = []
read_filter has_filter (some f) =
    if leb (get_or f.bytes 7 0) 100 && has_filter then filter_life (get_or f.bytes 7 0) ∷ [] else []

abbrev pub find_frame : ℕ → ℕ → List Frame → Option Frame
find_frame fn sub frames = find (λ (f : Frame). f.fn == fn && f.sub == sub) frames

unfoldable pub purifier_h7127 : List Frame → Appliance → List Reading
unfolding read_work_mode read_filter
purifier_h7127 frames device =
    read_work_mode device.work_modes (find_frame 0x05 0x00 frames) (find_frame 0x05 0x01 frames)
    ++ read_filter device.has_filter (find_frame 0x19 0x00 frames)

-- `frame.sub & 0x7f`
abbrev pub read_battery : Option Frame → List Reading
read_battery none = []
read_battery (some f) = if leb (f.sub % 128) 100 then battery (f.sub % 128) ∷ [] else []

unfoldable pub lamp_h1741 : List Frame → List Reading
lamp_h1741 frames = read_battery (find (λ (f : Frame). f.fn == 0x42) frames)

abbrev pub parse_frames : List (Option (List ℕ)) → List Frame
parse_frames [] = []
parse_frames (raw ∷ raws) =
    let rest = parse_frames raws in elim (parse_frame raw) [ none ↦ rest | some f ↦ f ∷ rest ]

abbrev pub decode_with : PushDecoder → List Frame → Appliance → List Reading
decode_with decoder [] device = []
decode_with h7127_purifier (f ∷ frames) device = purifier_h7127 (f ∷ frames) device
decode_with h1741_battery (f ∷ frames) device = lamp_h1741 (f ∷ frames)

-- `op_command`: `none` is no array.
unfoldable pub decode_appliance_frames :
    Appliance → Option (List (Option (List ℕ))) → Option PushDecoder → List Reading
unfolding parse_frame purifier_h7127 lamp_h1741
decode_appliance_frames device op_command none = []
decode_appliance_frames device none (some decoder) = []
decode_appliance_frames device (some raws) (some decoder) =
    decode_with decoder (parse_frames raws) device
