-- ===== src/Tests/Devices.antt =====
-- src/lib/device-id.ts and src/lib/device-manager/ at concrete inputs.
use io_broker_govee_smart.Base.{
  ℕ, ◌≤◌, true, false, List, [], ◌∷◌, none, some, ◌≡◌, ◌↔◌, refl, any, take, arith, length,
}
use io_broker_govee_smart.Text.{Text, codes, text_eq}
use io_broker_govee_smart.DeviceId.{
  map_key, model_part, id_piece, is_held, counted, device_id_for, make_registry, prefix_for, id_for,
  is_unmoved,
}
use io_broker_govee_smart.Reachability.{
  Reach, state_read, cloud_event, CloudStateCapability, is_lan_driven, is_device_push_fresh,
  stated_online, apply_online_cap, resolve_device_reachability,
}
use io_broker_govee_smart.Reachability.Proven.{IsProven, resolve_device_reachability-IsProven}
use io_broker_govee_smart.Reachability.Reported.{
  Arrival, run_arrivals, all_silent, offline_report_holds,
}
use io_broker_govee_smart.Reconciler.{
  AccountDevice, ReconcileInput, absent_source, app_list, cloud_list, reconcile_device, is_owned,
  authoritative_kind, reconcile_account_membership,
}
use io_broker_govee_smart.Reconciler.Evicted.{
  Pass, over_pass, after, is_present, is_missed, count_missed, threshold_of, evicted_iff,
}
use io_broker_govee_smart.DeviceId.Counted.{counted_free}
use io_broker_govee_smart.DeviceId.Distinct.{
  Operation, seeds, keeps_unmoved, asks, releases, run_operations, prefix_for-distinct,
}

abbrev taken_ids : List Text
taken_ids = codes "h61be-525f" ∷ codes "h61be" ∷ codes "h61be-2" ∷ []

group_model : model_part (codes "BaseGroup") ≡ codes "basegroup"
unfolding model_part
group_model = refl

spaced_model : model_part (codes " H61 / be-") ≡ codes "h61-be"
unfolding model_part
spaced_model = refl

no_model : model_part (codes "--") ≡ codes "device"
unfolding model_part
no_model = refl

piece : id_piece (codes "AB:CD:12:34:52:5F") ≡ codes "abcd1234525f"
unfolding id_piece
piece = refl

third_id : counted (codes "h61be") taken_ids ≡ codes "h61be-3"
unfolding counted
third_id = refl

reserved_id : counted (codes "info") [] ≡ codes "info-2"
unfolding counted
reserved_id = refl

short_id : device_id_for (codes "H61BE") (codes "AB:CD:52:5F") [] ≡ codes "h61be-525f"
unfolding device_id_for
short_id = refl

long_id : device_id_for (codes "H61BE") (codes "AB:CD:52:5F") taken_ids ≡ codes "h61be-abcd525f"
unfolding device_id_for
long_id = refl

counted_free_example : is_held taken_ids (counted (codes "h61be") taken_ids) ≡ false
counted_free_example = counted_free (codes "h61be") taken_ids

abbrev lived : List Operation
lived =
    seeds (codes "H61BE") (codes "AA:52:5F") (codes "devices.h61be-525f")
    ∷ asks (codes "BaseGroup") (codes "12")
    ∷ keeps_unmoved (codes "BaseGroup") (codes "12") (codes "groups.basegroup_12")
    ∷ releases (codes "devices.unknown")
    ∷ []

left_unmoved : is_unmoved (run_operations make_registry lived) (codes "groups.basegroup_12") ≡ true
unfolding is_unmoved run_operations
left_unmoved = refl

unmoved_member :
    (id_for (run_operations make_registry lived) (codes "BaseGroup") (codes "12")).1
    ≡ codes "basegroup_12"
unfolding id_for run_operations
unmoved_member = refl

second_device :
    (prefix_for (run_operations make_registry lived) (codes "H61BE") (codes "BB:52:5F")).1
    ≡ codes "devices.h61be-bb525f"
unfolding prefix_for run_operations
second_device = refl

prefix_for-distinct_example :
    (let r = run_operations make_registry lived in
      let first = prefix_for r (codes "H61BE") (codes "AA:52:5F") in
      let second = prefix_for first.0 (codes "H61BE") (codes "BB:52:5F") in
      (text_eq first.1 second.1
        ≡ text_eq
            (map_key (codes "H61BE") (codes "AA:52:5F"))
            (map_key (codes "H61BE") (codes "BB:52:5F")))
      × ((prefix_for second.0 (codes "H61BE") (codes "AA:52:5F")).1 ≡ first.1))
prefix_for-distinct_example =
    prefix_for-distinct lived (codes "H61BE") (codes "AA:52:5F") (codes "H61BE") (codes "BB:52:5F")

abbrev sensor : Reach
sensor = record {
  is_light = false;
  has_lan_ip = false;
  last_lan_reply_at = none;
  last_lan_seen_at = none;
  last_seen_on_network = none;
  gateway_online = none;
  no_cloud_path = false;
  cloud_reported_online = none;
  cloud_reported_by = none;
  cloud_reported_online_at = none;
  cloud_liveness_at = some 400;
  cloud_liveness_by = some cloud_event;
  device_push_at = none;
  online = some true;
}

abbrev says_offline : List CloudStateCapability
says_offline =
    (record { type = none; value = some true })
    ∷ (record { type = some (codes "devices.capabilities.online"); value = some false })
    ∷ []

abbrev reading : List CloudStateCapability
reading = (record { type = some (codes "devices.capabilities.property"); value = none }) ∷ []

abbrev readings : List Arrival
readings =
    (record { capabilities = reading; source = cloud_event; at = 2000 })
    ∷ (record { capabilities = []; source = cloud_event; at = 3000 })
    ∷ []

online_by_reading : (resolve_device_reachability sensor 500).online ≡ true
unfolding resolve_device_reachability
online_by_reading = refl

passed_on : (apply_online_cap sensor says_offline state_read 1000).1 ≡ some false
unfolding apply_online_cap
passed_on = refl

push_outvotes :
    (apply_online_cap (record sensor { device_push_at = some 900 }) says_offline state_read 1000).1
    ≡ none
unfolding apply_online_cap
push_outvotes = refl

resolve_device_reachability-IsProven_example :
    IsProven sensor 500 (resolve_device_reachability sensor 500)
resolve_device_reachability-IsProven_example = resolve_device_reachability-IsProven sensor 500

offline_report_holds_example :
    (resolve_device_reachability
      (run_arrivals (apply_online_cap sensor says_offline state_read 1000).0 readings)
      4000).online
    ≡ false
unfolding stated_online is_device_push_fresh is_lan_driven all_silent
offline_report_holds_example =
    offline_report_holds sensor says_offline state_read 1000 4000 readings refl refl refl refl
      (omega arith)

abbrev thermometer : AccountDevice
thermometer = record {
  sku = codes "H5179";
  device_id = codes "AA:BB";
  type = codes "devices.types.thermometer";
  lan = false;
  account_miss_count = none;
}

abbrev app_answers : List Text → ReconcileInput
app_answers keys = record {
  sources = record {
    cloud = absent_source;
    app = record { ok = true; keys = keys };
    group = absent_source;
  };
  key_of = map_key;
  refreshed_source = app_list;
  evict_threshold = none;
}

abbrev missing : Pass
missing = record { input = app_answers (codes "H5179_other" ∷ []); lan = false }

abbrev listed : Pass
listed = record { input = app_answers (codes "H5179_aabb" ∷ []); lan = false }

abbrev cloud_only : Pass
cloud_only = record {
  input = record (app_answers []) { refreshed_source = cloud_list };
  lan = false;
}

abbrev met : List Pass
met = cloud_only ∷ missing ∷ listed ∷ missing ∷ []

evicted_now : (over_pass (after thermometer met) missing).1 ≡ true
unfolding after over_pass reconcile_device is_owned authoritative_kind map_key
evicted_now = refl

one_miss : length (reconcile_account_membership missing.input (thermometer ∷ [])).1 ≡ 0
unfolding reconcile_account_membership reconcile_device is_owned authoritative_kind map_key
one_miss = refl

evicted_iff_example : ((over_pass (after thermometer met) missing).1 ≡ true) ↔ (
    (is_missed thermometer missing ≡ true)
    × ((k : ℕ) × (any (is_present thermometer) (take k (missing ∷ met)) ≡ false)
        × (threshold_of missing ≤ count_missed thermometer (take k (missing ∷ met)))))
evicted_iff_example = evicted_iff thermometer missing met refl
