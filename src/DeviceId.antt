-- ===== src/DeviceId.antt =====
-- src/lib/device-id.ts: the object id that a device's tree lives under, and the registry of the ids
-- that were given out. A SKU and a device id are texts.
pub mod Counted
pub mod Free
pub mod Inverse
pub mod Distinct
use io_broker_govee_smart.Base.{
  ℕ, zero, suc, ◌+◌, ◌-◌, Bool, true, false, not, ◌&&◌, ◌||◌, List, [], ◌∷◌, ◌++◌, Option, none,
  some, if◌then◌else◌, length, drop, any, is_some, leb, ltb, ◌==◌, map,
}
use io_broker_govee_smart.Text.{
  Text, codes, text_eq, to_lower, keep_alphanumeric, after_prefix, decimal,
}
use io_broker_govee_smart.TextMap.{TextMap, find_key, append_key, delete_key}

-- `id.replace(/:/g, "").toLowerCase()`
unfoldable pub remove_colons : Text → Text
remove_colons [] = []
remove_colons (c ∷ s) = let rest = remove_colons s in if c == b':' then rest else c ∷ rest

unfoldable pub normalize_device_id : Text → Text
unfolding remove_colons to_lower
normalize_device_id id = to_lower (remove_colons id)

-- `mapKey` of src/lib/device-key.ts.
unfoldable pub map_key : Text → Text → Text
unfolding normalize_device_id
map_key sku device_id = sku ++ (b'_' ∷ normalize_device_id device_id)

abbrev is_word : ℕ → Bool
is_word c = (leb b'a' c && leb c b'z') || (leb b'0' c && leb c b'9')

abbrev hyphen_before : Text → Text
hyphen_before [] = b'-' ∷ []
hyphen_before (c ∷ s) = if c == b'-' then c ∷ s else b'-' ∷ c ∷ s

-- `replace(/[^a-z0-9]+/g, "-")`
unfoldable pub hyphenate : Text → Text
hyphenate [] = []
hyphenate (c ∷ s) = let rest = hyphenate s in if is_word c then c ∷ rest else hyphen_before rest

-- `replace(/^-+|-+$/g, "")`
unfoldable pub strip_start : Text → Text
strip_start [] = []
strip_start (c ∷ s) = if c == b'-' then strip_start s else c ∷ s

unfoldable pub strip_end : Text → Text
strip_end [] = []
strip_end (c ∷ s) = elim (strip_end s) [ [] ↦ if c == b'-' then [] else c ∷ [] | d ∷ t ↦ c ∷ d ∷ t ]

abbrev pub or_device : Text → Text
or_device [] = codes "device"
or_device (c ∷ s) = c ∷ s

unfoldable pub model_part : Text → Text
unfolding to_lower hyphenate strip_start strip_end
model_part sku = or_device (strip_end (strip_start (hyphenate (to_lower sku))))

unfoldable pub id_piece : Text → Text
unfolding normalize_device_id keep_alphanumeric
id_piece device_id = keep_alphanumeric (normalize_device_id device_id)

abbrev pub reserved_device_ids : List Text
reserved_device_ids = codes "info" ∷ []

abbrev pub has_id : Text → List Text → Bool
has_id id ids = any (text_eq id) ids

-- `taken.has(id) || RESERVED_DEVICE_IDS.has(id)`
abbrev pub is_held : List Text → Text → Bool
is_held taken id = has_id id (taken ++ reserved_device_ids)

-- The id of a round: `base`, then `base-2`, `base-3` and on.
abbrev pub candidate : Text → ℕ → Text
candidate base n = if leb n 1 then base else base ++ (b'-' ∷ decimal n)

-- The loop of `counted`, with the rounds that are left.
unfoldable pub counted_from : ℕ → Text → ℕ → List Text → Text
counted_from zero base n taken = candidate base n
counted_from (suc rounds) base n taken =
    let next = counted_from rounds base (n + 1) taken in
    if is_held taken (candidate base n) then next else candidate base n

-- There are as many rounds as ids that may be held, and one more.
unfoldable pub counted : Text → List Text → Text
unfolding counted_from decimal
counted base taken = counted_from (length (taken ++ reserved_device_ids) + 1) base 1 taken

abbrev pub id_tail : ℕ
id_tail = 4

-- `piece.slice(-ID_TAIL)`
abbrev pub last_four : Text → Text
last_four piece = drop (length piece - id_tail) piece

abbrev pub id_of_piece : Text → Text → List Text → Text
id_of_piece model [] taken = counted model taken
id_of_piece model (c ∷ piece) taken =
    let short = model ++ (b'-' ∷ last_four (c ∷ piece)) in
    if is_held taken short then counted (model ++ (b'-' ∷ c ∷ piece)) taken else short

unfoldable pub device_id_for : Text → Text → List Text → Text
unfolding model_part id_piece counted
device_id_for sku device_id taken = id_of_piece (model_part sku) (id_piece device_id) taken

abbrev pub devices_folder : Text
devices_folder = codes "devices"

abbrev pub groups_folder : Text
groups_folder = codes "groups"

abbrev pub app_group_sku : Text
app_group_sku = codes "BaseGroup"

unfoldable pub is_app_group : Text → Bool
is_app_group sku = text_eq sku app_group_sku

unfoldable pub device_folder : Text → Text
unfolding is_app_group
device_folder sku = if is_app_group sku then groups_folder else devices_folder

pub record Entry : Type 0 where
  pub sku : Text
  pub device_id : Text
  pub prefix : Text

pub record DeviceIdRegistry : Type 0 where
  pub by_key : TextMap Entry
  pub by_prefix : TextMap Entry
  pub unmoved : List Text

abbrev pub make_registry : DeviceIdRegistry
make_registry = record { by_key = []; by_prefix = []; unmoved = [] }

abbrev pub entry_key : Entry → Text
entry_key e = map_key e.sku e.device_id

abbrev pub has_prefix : Text → Option Entry → Bool
has_prefix prefix none = false
has_prefix prefix (some e) = text_eq e.prefix prefix

-- Whether the tree is recorded for the device afterwards.
unfoldable pub seed : DeviceIdRegistry → Text → Text → Text → DeviceIdRegistry × Bool
seed r sku device_id prefix =
    let key = map_key sku device_id in
    let e : Entry = record { sku = sku; device_id = device_id; prefix = prefix } in
    if is_some (find_key key r.by_key) || is_some (find_key prefix r.by_prefix)
    then (r, has_prefix prefix (find_key key r.by_key))
    else (
      record r { by_key = append_key key e r.by_key; by_prefix = append_key prefix e r.by_prefix },
      true,
    )

abbrev pub push_some : Option Text → List Text → List Text
push_some none ids = ids
push_some (some id) ids = id ∷ ids

-- `idsIn`: the ids behind `folder.`
unfoldable pub ids_in : Text → TextMap Entry → List Text
unfolding after_prefix
ids_in folder [] = []
ids_in folder (e ∷ m) = push_some (after_prefix (folder ++ b'.' ∷ []) e.0) (ids_in folder m)

abbrev pub fresh_prefix : DeviceIdRegistry → Text → Text → Text
fresh_prefix r sku device_id =
    let folder = device_folder sku in
    (folder ++ b'.' ∷ []) ++ device_id_for sku device_id (ids_in folder r.by_prefix)

abbrev pub known_or_new : DeviceIdRegistry → Text → Text → Option Entry → DeviceIdRegistry × Text
known_or_new r sku device_id (some e) = (r, e.prefix)
known_or_new r sku device_id none =
    let prefix = fresh_prefix r sku device_id in ((seed r sku device_id prefix).0, prefix)

unfoldable pub prefix_for : DeviceIdRegistry → Text → Text → DeviceIdRegistry × Text
unfolding seed ids_in device_id_for device_folder map_key
prefix_for r sku device_id =
    known_or_new r sku device_id (find_key (map_key sku device_id) r.by_key)

abbrev pub release_entry : DeviceIdRegistry → Text → Option Entry → DeviceIdRegistry
release_entry r prefix none = r
release_entry r prefix (some e) = record r {
  by_key = delete_key (entry_key e) r.by_key;
  by_prefix = delete_key prefix r.by_prefix;
}

unfoldable pub release : DeviceIdRegistry → Text → DeviceIdRegistry
unfolding map_key
release r prefix = release_entry r prefix (find_key prefix r.by_prefix)

abbrev pub release_assigned : DeviceIdRegistry → Option Entry → DeviceIdRegistry
release_assigned r none = r
release_assigned r (some e) = release r e.prefix

abbrev pub mark_unmoved : DeviceIdRegistry → Text → DeviceIdRegistry
mark_unmoved r prefix = record r {
  unmoved = if has_id prefix r.unmoved then r.unmoved else r.unmoved ++ prefix ∷ [];
}

unfoldable pub keep_unmoved : DeviceIdRegistry → Text → Text → Text → DeviceIdRegistry
unfolding release seed
keep_unmoved r sku device_id prefix =
    let freed = release_assigned r (find_key (map_key sku device_id) r.by_key) in
    mark_unmoved (seed freed sku device_id prefix).0 prefix

-- What stands behind the first dot; `none` where there is no dot.
unfoldable pub after_dot : Text → Option Text
after_dot [] = none
after_dot (c ∷ s) = let rest = after_dot s in if c == b'.' then some s else rest

-- `prefix.slice(prefix.indexOf(".") + 1)`
abbrev pub id_of_prefix : Text → Option Text → Text
id_of_prefix prefix none = prefix
id_of_prefix prefix (some id) = id

unfoldable pub id_for : DeviceIdRegistry → Text → Text → DeviceIdRegistry × Text
unfolding prefix_for after_dot
id_for r sku device_id =
    let (next, prefix) = prefix_for r sku device_id in
    (next, id_of_prefix prefix (after_dot prefix))

unfoldable pub is_unmoved : DeviceIdRegistry → Text → Bool
is_unmoved r prefix = has_id prefix r.unmoved
