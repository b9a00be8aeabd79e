-- ===== src/Tests/Limiter.antt =====
-- src/lib/rate-limiter.ts: runs of the adapter's limiter.
use io_broker_govee_smart.Base.{
  ℕ, ◌+◌, ◌-◌, ◌*◌, ◌≤◌, true, false, List, [], ◌∷◌, ◌++◌, none, some, arith, ◌≡◌, refl, keep, leb,
  ltb, ◌⊎◌, is_some,
}
use mathlib.Core.List.{Memᴰ}
use io_broker_govee_smart.CallBooking.{Booking}
use io_broker_govee_smart.RateLimiter.Bucket.{TokenBucket, make_bucket, refill, has_token}
use io_broker_govee_smart.RateLimiter.Bucket.Rate.{take_all, take_all_bounded, has_token_again}
use io_broker_govee_smart.RateLimiter.State.{
  account_list, device_control, DeviceBudget, QueuedCall, SpentCall, Limiter, make_limiter,
  cloud_limits,
}
use io_broker_govee_smart.RateLimiter.Queue.{push_call}
use io_broker_govee_smart.RateLimiter.Loop.{
  start, try_execute, execute_tracked, process_queue, settle,
}
use io_broker_govee_smart.RateLimiter.Events.{
  Event, enqueued, tried, tracked_call, settled, starts, stops, queue_tick, run_events, step,
}
use io_broker_govee_smart.RateLimiter.Sorted.{push_call-split}
use io_broker_govee_smart.RateLimiter.Sound.{IsSound}
use io_broker_govee_smart.RateLimiter.Sound.Steps.{make_limiter-IsSound, run_events-IsSound}
use io_broker_govee_smart.RateLimiter.Meter.{runs, given_back}
use io_broker_govee_smart.RateLimiter.Meter.Windows.{
  account_window, window_meter, window_limit, window_limit_kept,
}
use io_broker_govee_smart.RateLimiter.Meter.Days.{day_meter, device_meter, daily_limits_kept}
use io_broker_govee_smart.RateLimiter.Tracked.{Kept}
use io_broker_govee_smart.RateLimiter.Tracked.Steps.{execute_tracked_accounted, run_events-Kept}

abbrev kettle : DeviceBudget
kettle = record { key = "kettle"; per_day = 90 }

abbrev list_call : ℕ → QueuedCall
list_call id = record { id = id; lane = account_list; priority = 2; tracked = false; budget = none }

abbrev kettle_call : ℕ → QueuedCall
kettle_call id = record {
  id = id;
  lane = device_control "kettle";
  priority = 0;
  tracked = true;
  budget = some kettle;
}

abbrev failed_booking : Booking
failed_booking = record { delivered = false; not_delivered = true }

abbrev kettle_spent : SpentCall
kettle_spent = record {
  lane = device_control "kettle";
  budget = some kettle;
  minute_epoch = 0;
  day_epoch = 0;
}

abbrev morning : List (ℕ × Event)
morning =
    (0, starts)
    ∷ (10, tried (list_call 1))
    ∷ (20, tracked_call (kettle_call 2))
    ∷ (30, enqueued (list_call 3))
    ∷ (40, queue_tick)
    ∷ (900, settled kettle_spent failed_booking)
    ∷ []

abbrev fresh_limiter : Limiter
fresh_limiter = make_limiter cloud_limits 0

-- Calls 1 to 3 run, and the booking of the call that never reached the cloud is given back.
morning_run :
    (runs day_meter (run_events fresh_limiter morning).1 ≡ 3)
    × ((run_events fresh_limiter morning).0.calls_today ≡ 2)
unfolding run_events step make_limiter start try_execute execute_tracked refill process_queue settle
morning_run = (refl, refl)

abbrev waiting_limiter : Limiter
waiting_limiter = record fresh_limiter { queue = kettle_call 7 ∷ list_call 8 ∷ [] }

run_events-IsSound_example : IsSound cloud_limits 90 (run_events fresh_limiter morning).0
run_events-IsSound_example = run_events-IsSound cloud_limits 90 0 morning (ground arith)

daily_limits_kept_example :
    (runs day_meter (run_events fresh_limiter morning).1
      ≤ cloud_limits.per_day + given_back day_meter fresh_limiter morning)
    × (runs (device_meter "kettle") (run_events fresh_limiter morning).1
        ≤ 90 + given_back (device_meter "kettle") fresh_limiter morning)
daily_limits_kept_example =
    daily_limits_kept cloud_limits 90 "kettle" fresh_limiter morning
      (make_limiter-IsSound cloud_limits 90 0) (ground arith) (ground arith)

window_limit_kept_example :
    runs (window_meter account_window) (run_events fresh_limiter morning).1
    ≤ window_limit account_window cloud_limits
      + given_back (window_meter account_window) fresh_limiter morning
window_limit_kept_example =
    window_limit_kept account_window cloud_limits 90 fresh_limiter morning
      (make_limiter-IsSound cloud_limits 90 0) (ground arith) (ground arith)

run_events-Kept_example :
    Kept
      (kettle_call 7)
      (run_events waiting_limiter ((5, stops) ∷ (6, queue_tick) ∷ [])).0.queue
      (run_events waiting_limiter ((5, stops) ∷ (6, queue_tick) ∷ [])).1
run_events-Kept_example =
    run_events-Kept (kettle_call 7) refl waiting_limiter ((5, stops) ∷ (6, queue_tick) ∷ [])
      (Memᴰ.head refl)

execute_tracked_accounted_example :
    (is_some (execute_tracked fresh_limiter (kettle_call 9) 0).1 ≡ true)
    ⊎ Kept
        (record (kettle_call 9) { tracked = true })
        (execute_tracked fresh_limiter (kettle_call 9) 0).0.queue
        (execute_tracked fresh_limiter (kettle_call 9) 0).2
execute_tracked_accounted_example = execute_tracked_accounted fresh_limiter (kettle_call 9) 0

push_split :
    (push_call waiting_limiter (kettle_call 9)).queue
    ≡ keep (λ x. leb x.priority 0) waiting_limiter.queue
      ++ kettle_call 9 ∷ keep (λ x. ltb 0 x.priority) waiting_limiter.queue
push_split = push_call-split waiting_limiter (kettle_call 9) ((omega arith, tt), (tt, tt))

take_all_bounded_example :
    1000 * (take_all (make_bucket 6 2 0) (0 ∷ 100 ∷ 5000 ∷ [])).1 ≤ 1000 * 6 + (5000 - 0) * 2
take_all_bounded_example =
    take_all_bounded 6 2 0 5000 (0 ∷ 100 ∷ 5000 ∷ []) (omega arith) (ground arith)

abbrev empty_bucket : TokenBucket
empty_bucket = record { capacity = 6; per_second = 2; tokens = 0; updated_at = 100 }

token_again : (has_token empty_bucket 600).1 ≡ true
token_again = has_token_again empty_bucket 600 (omega arith) (omega arith) (omega arith)
