-- ===== src/Reachability/Reported.antt =====
-- src/lib/device-manager/cloud-merge.ts (applyOnlineCap): a report outlasts what merely arrives.
use io_broker_govee_smart.Base.{
  ℕ, ◌+◌, ◌<◌, Bool, true, false, ◌&&◌, List, [], ◌∷◌, Option, none, some, arith, ◌≡◌, refl,
}
use io_broker_govee_smart.Reachability.{
  Reach, ReachabilitySource, CloudStateCapability, cloud_online_evidence_ttl_ms, is_lan_driven,
  stated_online, is_device_push_fresh, note_capabilities, apply_online_cap, resolve_report,
  resolve_device_reachability,
}

pub record Arrival : Type 0 where
  pub capabilities : List CloudStateCapability
  pub source : ReachabilitySource
  pub at : ℕ

unfoldable pub run_arrivals : Reach → List Arrival → Reach
unfolding apply_online_cap
run_arrivals d [] = d
run_arrivals d (a ∷ later) = run_arrivals (apply_online_cap d a.capabilities a.source a.at).0 later

abbrev is_silent : Option Bool → Bool
is_silent none = true
is_silent (some b) = false

-- No arrival speaks of the device.
unfoldable pub all_silent : List Arrival → Bool
unfolding stated_online
all_silent [] = true
all_silent (a ∷ later) = is_silent (stated_online a.capabilities) && all_silent later

-- The device was reported offline at `at`, and `now` it is none of the LAN.
record IsReported (at now : ℕ) (d : Reach) : Type 0 where
  offline : d.cloud_reported_online ≡ some false
  stamped : d.cloud_reported_online_at ≡ some at
  no_lan : is_lan_driven d now ≡ false

note_silent :
    (at now : ℕ) (d : Reach) (o : Option Bool) (caps : List CloudStateCapability)
    (source : ReachabilitySource) (later : ℕ)
    → is_silent o ≡ true
    → IsReported at now d
    → IsReported at now (note_capabilities d o caps source later).0
unfolding is_lan_driven
note_silent at now d none [] source later q h = h
note_silent at now d none (c ∷ caps) source later q h = record {
  offline = h.offline;
  stamped = h.stamped;
  no_lan = h.no_lan;
}
note_silent at now d (some b) caps source later q h = absurd (ground arith)

run_arrivals-IsReported :
    (at now : ℕ) (d : Reach) (later : List Arrival)
    → all_silent later ≡ true
    → IsReported at now d
    → IsReported at now (run_arrivals d later)
unfolding run_arrivals all_silent apply_online_cap
run_arrivals-IsReported at now d [] q h = h
run_arrivals-IsReported at now d (a ∷ later) q h =
    run_arrivals-IsReported at now (apply_online_cap d a.capabilities a.source a.at).0 later
      (ground arith)
      (note_silent at now d (stated_online a.capabilities) a.capabilities a.source a.at
        (ground arith) h)

resolve-IsReported :
    (at now : ℕ) (d : Reach)
    → now < at + cloud_online_evidence_ttl_ms
    → IsReported at now d
    → (resolve_device_reachability d now).online ≡ false
unfolding resolve_device_reachability resolve_report
resolve-IsReported at now d fresh h = ground (arith, h.offline, h.stamped, h.no_lan)

note_offline :
    (at now : ℕ) (d : Reach) (o : Option Bool) (caps : List CloudStateCapability)
    (source : ReachabilitySource)
    → o ≡ some false
    → is_device_push_fresh d at ≡ false
    → is_lan_driven d now ≡ false
    → IsReported at now (note_capabilities d o caps source at).0
unfolding is_device_push_fresh is_lan_driven
note_offline at now d none caps source q old no_lan = absurd cc
note_offline at now d (some true) caps source q old no_lan = absurd cc
note_offline at now d (some false) caps source q old no_lan =
    rw old (record { offline = refl; stamped = refl; no_lan = no_lan })

-- Where a list says that a device is offline that did not itself push within the half hour, the
-- device is offline until that report is half an hour old, whatever lists arrive in between that do
-- not speak of it. The device is none that the LAN decides.
pub offline_report_holds :
    (d : Reach) (caps : List CloudStateCapability) (source : ReachabilitySource) (at now : ℕ)
    (later : List Arrival)
    → stated_online caps ≡ some false
    → is_device_push_fresh d at ≡ false
    → is_lan_driven d now ≡ false
    → all_silent later ≡ true
    → now < at + cloud_online_evidence_ttl_ms
    → (resolve_device_reachability
        (run_arrivals (apply_online_cap d caps source at).0 later)
        now).online
      ≡ false
unfolding apply_online_cap
offline_report_holds d caps source at now later says old no_lan silent fresh =
    resolve-IsReported at now (run_arrivals (apply_online_cap d caps source at).0 later) fresh (
      run_arrivals-IsReported at now (apply_online_cap d caps source at).0 later silent
        (note_offline at now d (stated_online caps) caps source says old no_lan))
