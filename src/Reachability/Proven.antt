-- ===== src/Reachability/Proven.antt =====
-- src/lib/device-manager/lookups.ts (resolveDeviceReachability): what proves a device reachable.
use io_broker_govee_smart.Base.{
  ℕ, Bool, true, false, not, ◌==◌, Option, none, some, ◌&&◌, ◌||◌, if◌then◌else◌, arith, ◌≡◌,
}
use io_broker_govee_smart.Reachability.{
  Reach, ReachabilityDecision, cloud_online_evidence_ttl_ms, lan_reply_freshness_ms, is_within,
  is_lan_driven, is_false, is_true, is_set, resolve_liveness, resolve_report,
  resolve_device_reachability,
}

-- The device answered on the LAN within ninety seconds.
abbrev pub answered_on_lan : Reach → ℕ → Bool
answered_on_lan d now =
    is_set d.last_lan_reply_at && is_within lan_reply_freshness_ms now d.last_lan_reply_at

-- Within half an hour the cloud reported the device online, or delivered something from it.
abbrev pub heard_by_cloud : Reach → ℕ → Bool
heard_by_cloud d now =
    (is_true d.cloud_reported_online
      && is_within cloud_online_evidence_ttl_ms now d.cloud_reported_online_at)
    || is_within cloud_online_evidence_ttl_ms now d.cloud_liveness_at

-- No gateway is known to be down, and a channel of the cloud works.
abbrev pub is_uncapped : Reach → Bool
is_uncapped d = not (is_false d.gateway_online) && not d.no_cloud_path

-- No report that says offline is younger than half an hour.
abbrev pub is_undenied : Reach → ℕ → Bool
is_undenied d now = not (
    is_false d.cloud_reported_online
    && is_within cloud_online_evidence_ttl_ms now d.cloud_reported_online_at)

abbrev pub has_proof : Reach → ℕ → Bool
has_proof d now =
    if is_lan_driven d now
    then answered_on_lan d now
    else is_uncapped d && (heard_by_cloud d now && is_undenied d now)

abbrev pub evidence_span : Reach → ℕ → ℕ
evidence_span d now =
    if is_lan_driven d now then lan_reply_freshness_ms else cloud_online_evidence_ttl_ms

-- The time of what proves it.
abbrev pub evidence_of : Reach → ℕ → Option ℕ
evidence_of d now =
    if is_lan_driven d now
    then d.last_lan_reply_at
    else if is_true d.cloud_reported_online
        && is_within cloud_online_evidence_ttl_ms now d.cloud_reported_online_at
    then d.cloud_reported_online_at
    else d.cloud_liveness_at

abbrev pub is_same_time : Option ℕ → Option ℕ → Bool
is_same_time none none = true
is_same_time (some m) (some n) = m == n
is_same_time _ _ = false

-- The decision says online exactly where what is stored of the device proves it; then it counts as
-- proven, and the evidence that it names is what proves it, which is young enough.
abbrev pub IsProven : Reach → ℕ → ReachabilityDecision → Type 0
IsProven d now r =
    (r.online ≡ has_proof d now)
    × ((not r.online
          || (r.proven
              && (is_same_time r.last_evidence_at (evidence_of d now)
                  && is_within (evidence_span d now) now r.last_evidence_at)))
        ≡ true)

-- A device is said to be online exactly where what is stored of it proves so: for one that the LAN
-- decides, a reply within ninety seconds; for any other a report that it is online, or something that
-- it delivered, within half an hour, with no gateway known to be down, a channel that works and no
-- report of the half hour that says offline. Then the decision counts as proven, and the time
-- that it names is the one of that proof.
pub resolve_device_reachability-IsProven :
    (d : Reach) (now : ℕ) → IsProven d now (resolve_device_reachability d now)
unfolding resolve_device_reachability resolve_report resolve_liveness
resolve_device_reachability-IsProven d now = (ground arith, ground arith)
