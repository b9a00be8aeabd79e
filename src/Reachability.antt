-- ===== src/Reachability.antt =====
-- src/lib/device-manager/lookups.ts: whether a device can be reached (`isLanDriven`,
-- `resolveDeviceReachability`), and `applyOnlineCap` of src/lib/device-manager/cloud-merge.ts, which
-- keeps what Govee said of it. Times are milliseconds; `none` stands for a value that is missing.
-- A clock that went back makes a time lie in the future, which counts as fresh, as in the source.
pub mod Proven
pub mod Reported
use io_broker_govee_smart.Base.{
  ℕ, ◌+◌, ◌*◌, Bool, true, false, not, ◌&&◌, ◌||◌, List, [], ◌∷◌, Option, none, some, if◌then◌else◌,
  ltb,
}
use io_broker_govee_smart.Text.{Text, codes, text_eq}

abbrev pub lan_reply_freshness_ms : ℕ
lan_reply_freshness_ms = 90000

abbrev pub cloud_online_evidence_ttl_ms : ℕ
cloud_online_evidence_ttl_ms = 30 * 60 * 1000

abbrev pub lan_capable_memory_ms : ℕ
lan_capable_memory_ms = 7 * 24 * 60 * 60 * 1000

pub data ReachabilitySource : Type 0 where
  device_push account_online app_list state_read cloud_event : ReachabilitySource

-- What the reachability of a device is read from, of `GoveeDevice` and of its state.
pub record Reach : Type 0 where
  pub is_light : Bool
  pub has_lan_ip : Bool
  pub last_lan_reply_at : Option ℕ
  pub last_lan_seen_at : Option ℕ
  pub last_seen_on_network : Option ℕ
  pub gateway_online : Option Bool
  pub no_cloud_path : Bool
  pub cloud_reported_online : Option Bool
  pub cloud_reported_by : Option ReachabilitySource
  pub cloud_reported_online_at : Option ℕ
  pub cloud_liveness_at : Option ℕ
  pub cloud_liveness_by : Option ReachabilitySource
  pub device_push_at : Option ℕ
  pub online : Option Bool

pub data DecidedBy : Type 0 where
  lan_reply gateway_down cloudless cloud_report cloud_liveness no_evidence : DecidedBy

pub record ReachabilityDecision : Type 0 where
  pub online : Bool
  pub proven : Bool
  pub decided_by : DecidedBy
  pub source : Option ReachabilitySource
  pub last_evidence_at : Option ℕ

-- `typeof at === "number" && now - at < span`
abbrev pub is_within : ℕ → ℕ → Option ℕ → Bool
is_within span now none = false
is_within span now (some at) = ltb now (at + span)

-- Whether a time is there and not 0.
abbrev pub is_set : Option ℕ → Bool
is_set none = false
is_set (some at) = ltb 0 at

unfoldable pub is_lan_driven : Reach → ℕ → Bool
is_lan_driven d now =
    d.is_light && (d.has_lan_ip || is_within lan_capable_memory_ms now d.last_lan_seen_at)

abbrev pub is_false : Option Bool → Bool
is_false none = false
is_false (some b) = not b

abbrev pub nothing_heard : DecidedBy → ReachabilityDecision
nothing_heard by = record {
  online = false;
  proven = false;
  decided_by = by;
  source = none;
  last_evidence_at = none;
}

-- The last two branches: no report counts.
unfoldable pub resolve_liveness : Reach → ℕ → ReachabilityDecision
resolve_liveness d now =
    if is_within cloud_online_evidence_ttl_ms now d.cloud_liveness_at
    then record {
      online = true;
      proven = true;
      decided_by = cloud_liveness;
      source = d.cloud_liveness_by;
      last_evidence_at = d.cloud_liveness_at;
    }
    else nothing_heard no_evidence

unfoldable pub resolve_report : Reach → ℕ → Option Bool → ReachabilityDecision
unfolding resolve_liveness
resolve_report d now none = resolve_liveness d now
resolve_report d now (some reported) =
    if is_within cloud_online_evidence_ttl_ms now d.cloud_reported_online_at
    then record {
      online = reported;
      proven = true;
      decided_by = cloud_report;
      source = d.cloud_reported_by;
      last_evidence_at = d.cloud_reported_online_at;
    }
    else resolve_liveness d now

unfoldable pub resolve_device_reachability : Reach → ℕ → ReachabilityDecision
unfolding is_lan_driven resolve_report
resolve_device_reachability d now =
    if is_lan_driven d now
    then record {
      online =
          is_set d.last_lan_reply_at && is_within lan_reply_freshness_ms now d.last_lan_reply_at;
      proven = true;
      decided_by = lan_reply;
      source = none;
      last_evidence_at = d.last_lan_reply_at;
    }
    else if is_false d.gateway_online
    then record (nothing_heard gateway_down) { proven = true }
    else if d.no_cloud_path
    then nothing_heard cloudless
    else resolve_report d now d.cloud_reported_online

-- `type`: `none` where the capability is no object or its type no text; `value`: `none` where there
-- is no state, or its value is no Boolean.
pub record CloudStateCapability : Type 0 where
  pub type : Option Text
  pub value : Option Bool

abbrev pub is_online_type : Option Text → Bool
is_online_type none = false
is_online_type (some t) =
    text_eq t (codes "devices.capabilities.online") || text_eq t (codes "online")

abbrev pub stated : Bool → Option Bool → Option Bool → Option Bool
stated true (some b) later = some b
stated true none later = later
stated false value later = later

-- What the first capability for it says of the device.
unfoldable pub stated_online : List CloudStateCapability → Option Bool
stated_online [] = none
stated_online (c ∷ caps) = stated (is_online_type c.type) c.value (stated_online caps)

unfoldable pub is_device_push_fresh : Reach → ℕ → Bool
is_device_push_fresh d now = is_within cloud_online_evidence_ttl_ms now d.device_push_at

abbrev pub is_true : Option Bool → Bool
is_true none = false
is_true (some b) = b

-- A capability list that does not speak of the device.
abbrev pub note_arrival : Reach → ReachabilitySource → ℕ → Reach × Option Bool
note_arrival d source now = (
  record d {
    cloud_liveness_at = some now;
    cloud_liveness_by = some source;
    last_seen_on_network = some now;
    online = some true;
  },
  if is_true d.online then none else some true,
)

abbrev pub note_report : Reach → Bool → ReachabilitySource → ℕ → Reach × Option Bool
note_report d reported source now = (
  record d {
    cloud_reported_online = some reported;
    cloud_reported_by = some source;
    cloud_reported_online_at = some now;
    last_seen_on_network = if reported then some now else d.last_seen_on_network;
    online = some reported;
  },
  if is_true d.online && reported then none else some reported,
)

abbrev pub note_capabilities :
    Reach → Option Bool → List CloudStateCapability → ReachabilitySource → ℕ → Reach × Option Bool
note_capabilities d none [] source now = (d, none)
note_capabilities d none (c ∷ caps) source now = note_arrival d source now
note_capabilities d (some reported) caps source now =
    if not reported && is_within cloud_online_evidence_ttl_ms now d.device_push_at
    then (d, none)
    else note_report d reported source now

-- The device after a capability list came, and the value of `online` that is passed on, if any.
unfoldable pub apply_online_cap :
    Reach → List CloudStateCapability → ReachabilitySource → ℕ → Reach × Option Bool
unfolding stated_online
apply_online_cap d caps source now = note_capabilities d (stated_online caps) caps source now
