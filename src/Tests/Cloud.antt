-- ===== src/Tests/Cloud.antt =====
-- src/lib/cloud-retry.ts, src/lib/cloud-outage.ts and src/lib/log-once.ts: runs of the cloud's
-- retry loop, of the outage watch and of the log.
use io_broker_govee_smart.Base.{
  ℕ, ◌+◌, ◌≤◌, true, false, String, List, [], ◌∷◌, none, some, arith, ◌≡◌, refl, any, All, is_some,
  Map, length,
}
use io_broker_govee_smart.CloudRetry.{
  RetryLoop, make_loop, load, handle_result, dispose, load_ends, timer_fires, transient,
  auth_failed, rate_limited, Event, connection_is, fires, result_is, load_result, run_events,
}
use io_broker_govee_smart.CloudRetry.Timer.{
  Paced, run_events-Paced, pending, timers_set, timers_cleared, timers_fired, run_events-Balanced,
}
use io_broker_govee_smart.CloudRetry.Stopped.{dispose_final, auth_failed_final, failure_retried}
use io_broker_govee_smart.CloudOutage.{
  make_outage, note_answer, note_failures, confirms, note_failures_iff, OutageEvent, unreachable,
  answered, report_outages, down, report_outages-balanced,
}
use io_broker_govee_smart.LogOnce.{
  Seen, LogOnceOptions, report, recovered, LogEvent, reports, recovers, forgets, run_log, lasts,
  pure_latch, length-report, report_latch,
}

abbrev waiting_loop : RetryLoop
waiting_loop = record make_loop { armed = some 60000; in_flight = 1 }

abbrev busy_night : List Event
busy_night =
    result_is (rate_limited (some 100)) ∷ fires ∷ load_result transient ∷ connection_is true ∷ []

dispose_final_example :
    (run_events (dispose waiting_loop).0 (fires ∷ load_result transient ∷ [])).1 ≡ []
dispose_final_example = dispose_final waiting_loop (fires ∷ load_result transient ∷ [])

auth_failed_final_example :
    (run_events (handle_result waiting_loop auth_failed).0 (fires ∷ load_result transient ∷ [])).1
    ≡ []
auth_failed_final_example =
    auth_failed_final waiting_loop (fires ∷ load_result transient ∷ []) (ground arith)

failure_retried_example :
    (is_some (load_ends make_loop transient).0.armed ≡ true)
    × ((timer_fires (load_ends make_loop transient).0).1 ≡ load ∷ [])
failure_retried_example = failure_retried make_loop transient refl refl refl

run_events-Balanced_example :
    pending make_loop + timers_set (run_events make_loop busy_night).1
    ≡ pending (run_events make_loop busy_night).0
      + timers_cleared (run_events make_loop busy_night).1
      + timers_fired make_loop busy_night
run_events-Balanced_example = run_events-Balanced make_loop busy_night

run_events-Paced_example : All Paced (run_events make_loop busy_night).1
run_events-Paced_example = run_events-Paced make_loop busy_night

abbrev bad_minute : List (ℕ × String)
bad_minute = (30000, "timeout") ∷ (70000, "refused") ∷ []

note_failures_iff_example :
    (let t = note_failures (note_answer make_outage).0 ((1000, "dns") ∷ bad_minute) in
      (t.is_confirmed ≡ any (confirms 1000) bad_minute)
      × (t.first_failure_at ≡ some 1000)
      × (t.first_reason ≡ "dns"))
note_failures_iff_example = note_failures_iff make_outage 1000 "dns" bad_minute

abbrev two_outages : List OutageEvent
two_outages =
    unreachable 0 "dns"
    ∷ unreachable 60000 "dns"
    ∷ answered
    ∷ unreachable 90000 "dns"
    ∷ unreachable 150000 "dns"
    ∷ []

outages_balanced :
    down make_outage + (report_outages make_outage two_outages).1
    ≡ down (report_outages make_outage two_outages).0 + (report_outages make_outage two_outages).2
outages_balanced = report_outages-balanced make_outage two_outages

abbrev one_key : LogOnceOptions
one_key = record { window_ms = none; max_keys = some 1 }

abbrev seen_lamp : Map Seen
seen_lamp = ("lamp", record { kind = "offline"; at = 5 }) ∷ []

memory_capped : length (report one_key seen_lamp "strip" "offline" 9).0 ≤ 1
memory_capped =
    length-report one_key 1 seen_lamp "strip" "offline" 9 refl (omega arith) (omega arith)

abbrev log_events : List LogEvent
log_events =
    reports "lamp" "timeout" 10
    ∷ reports "strip" "offline" 12
    ∷ recovers "lamp"
    ∷ forgets "plug"
    ∷ []

report_latch_example :
    (let m = run_log pure_latch (report pure_latch seen_lamp "strip" "offline" 9).0 log_events in
      ((report pure_latch m "strip" "offline" 20).1 ≡ false)
      × ((report pure_latch (recovered m "strip").0 "strip" "offline" 20).1 ≡ true))
unfolding lasts
report_latch_example = report_latch seen_lamp "strip" "offline" 9 20 log_events (refl, tt) refl
