-- ===== src/Reconciler.antt =====
-- src/lib/device-manager/reconciler.ts: which devices are no longer in the account. A key set is the
-- list of its keys; the trees of a source are not read here.
pub mod Evicted
use io_broker_govee_smart.Base.{
  ℕ, suc, ◌+◌, Bool, true, false, not, ◌&&◌, ◌||◌, List, [], ◌∷◌, Option, none, some, if◌then◌else◌,
  any, or_else, leb,
}
use io_broker_govee_smart.Text.{Text, codes, text_eq}
use io_broker_govee_smart.DeviceId.{is_app_group}

pub record ReconcileSource : Type 0 where
  pub ok : Bool
  pub keys : List Text

pub record ReconcileSources : Type 0 where
  pub cloud : ReconcileSource
  pub app : ReconcileSource
  pub group : ReconcileSource

abbrev pub absent_source : ReconcileSource
absent_source = record { ok = false; keys = [] }

abbrev pub default_evict_threshold : ℕ
default_evict_threshold = 2

-- What a pass reads and writes of `GoveeDevice`; `lan` is `channels.lan`.
pub record AccountDevice : Type 0 where
  pub sku : Text
  pub device_id : Text
  pub type : Text
  pub lan : Bool
  pub account_miss_count : Option ℕ

unfoldable pub is_sensor_type : Text → Bool
is_sensor_type type =
    text_eq type (codes "devices.types.thermometer")
    || (text_eq type (codes "devices.types.sensor")
        || (text_eq type (codes "thermometer") || text_eq type (codes "sensor")))

pub data SourceKind : Type 0 where
  cloud_list app_list group_list : SourceKind

abbrev pub same_kind : SourceKind → SourceKind → Bool
same_kind cloud_list cloud_list = true
same_kind app_list app_list = true
same_kind group_list group_list = true
same_kind cloud_list app_list = false
same_kind cloud_list group_list = false
same_kind app_list cloud_list = false
same_kind app_list group_list = false
same_kind group_list cloud_list = false
same_kind group_list app_list = false

unfoldable pub authoritative_kind : AccountDevice → SourceKind
unfolding is_app_group is_sensor_type
authoritative_kind d =
    if is_app_group d.sku
    then group_list
    else if is_sensor_type d.type
    then app_list
    else cloud_list

-- `sources[kind]`
abbrev pub source_of : ReconcileSources → SourceKind → ReconcileSource
source_of s cloud_list = s.cloud
source_of s app_list = s.app
source_of s group_list = s.group

-- One pass, less the devices.
pub record ReconcileInput : Type 0 where
  pub sources : ReconcileSources
  pub key_of : Text → Text → Text
  pub refreshed_source : SourceKind
  pub evict_threshold : Option ℕ

abbrev pub lists_key : ReconcileSource → Text → Bool
lists_key s key = s.ok && any (text_eq key) s.keys

unfoldable pub is_owned : ReconcileInput → AccountDevice → Bool
is_owned input d =
    let key = input.key_of d.sku d.device_id in
    lists_key input.sources.cloud key
    || (lists_key input.sources.app key || lists_key input.sources.group key)

-- The body of the loop: the device afterwards, and whether it is pushed to the evicted ones.
unfoldable pub reconcile_device : ReconcileInput → AccountDevice → AccountDevice × Bool
reconcile_device input d =
    let kind = authoritative_kind d in
    let misses = or_else d.account_miss_count 0 + 1 in
    if d.lan
    then (record d { account_miss_count = some 0 }, false)
    else if is_owned input d
    then (record d { account_miss_count = some 0 }, false)
    else if not (same_kind kind input.refreshed_source) || not (source_of input.sources kind).ok
    then (d, false)
    else (
      record d { account_miss_count = some misses },
      leb (or_else input.evict_threshold default_evict_threshold) misses,
    )

abbrev pub push_if : Bool → AccountDevice → List AccountDevice → List AccountDevice
push_if true d ds = d ∷ ds
push_if false d ds = ds

-- The devices afterwards, and those to evict.
unfoldable pub reconcile_account_membership :
    ReconcileInput → List AccountDevice → List AccountDevice × List AccountDevice
unfolding reconcile_device
reconcile_account_membership input [] = ([], [])
reconcile_account_membership input (d ∷ ds) =
    let (next, evicted) = reconcile_device input d in
    let (rest, others) = reconcile_account_membership input ds in
    (next ∷ rest, push_if evicted next others)
