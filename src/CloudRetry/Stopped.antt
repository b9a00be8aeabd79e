-- ===== src/CloudRetry/Stopped.antt =====
-- src/lib/cloud-retry.ts: when the loop is silent, and when it goes on.
use io_broker_govee_smart.Base.{
  Bool, true, false, List, [], ◌∷◌, none, is_some, arith, ◌≡◌, refl, All, ◌⊎◌, inl, inr,
}
use io_broker_govee_smart.CloudRetry.{
  CloudLoadResult, ok, auth_failed, transient, rate_limited, RetryLoop, load, handle_result,
  load_ends, timer_fires, dispose, Event, connection_is, unloads, key_accepted, fires, load_throws,
  result_is, load_result, step, run_events,
}

-- The loop is stopped and no timer is pending.
pub record IsSilent (s : RetryLoop) : Type 0 where
  pub halted : s.stopped ≡ true
  pub unarmed : s.armed ≡ none

abbrev pub is_key_accepted : Event → Bool
is_key_accepted key_accepted = true
is_key_accepted _ = false

-- What may come without waking the loop: anything, once it is disposed; else all but an accepted key.
abbrev pub StaysSilent : RetryLoop → Event → Type 0
StaysSilent s e = (s.disposed ≡ true) ⊎ (is_key_accepted e ≡ false)

handle_result-IsSilent :
    (s : RetryLoop) (r : CloudLoadResult)
    → IsSilent s
    → ((handle_result s r).1 ≡ [])
      × IsSilent (handle_result s r).0
      × ((handle_result s r).0.disposed ≡ s.disposed)
unfolding handle_result
handle_result-IsSilent s ok h = ground arith
handle_result-IsSilent s auth_failed h = ground arith
handle_result-IsSilent s transient h = ground arith
handle_result-IsSilent s (rate_limited retry_after) h = ground arith

step-IsSilent :
    (s : RetryLoop) (e : Event)
    → IsSilent s
    → StaysSilent s e
    → ((step s e).1 ≡ [])
      × IsSilent (step s e).0
      × (s.disposed ≡ true → (step s e).0.disposed ≡ true)
unfolding step
step-IsSilent s (connection_is up) h k = ground arith
step-IsSilent s unloads h k = ground arith
step-IsSilent s key_accepted h k = ground arith
step-IsSilent s (result_is r) h k = ground (arith, handle_result-IsSilent s r h)
step-IsSilent s fires h k = ground arith
step-IsSilent s (load_result r) h k = unfold load_ends in ground arith
step-IsSilent s load_throws h k = ground arith

silent_from :
    (s : RetryLoop) (es : List Event)
    → IsSilent s
    → (s.disposed ≡ true) ⊎ All (λ e. is_key_accepted e ≡ false) es
    → (run_events s es).1 ≡ []
unfolding run_events
silent_from s [] h k = refl
silent_from s (e ∷ es) h (inl d) =
    let q = step-IsSilent s e h (inl d) in
    ground (arith, silent_from (step s e).0 es q.1 (inl (q.2 d)))
silent_from s (e ∷ es) h (inr (p, k)) =
    let q = step-IsSilent s e h (inr p) in ground (arith, silent_from (step s e).0 es q.1 (inr k))

-- After the adapter has unloaded, nothing happens any more, whatever comes: no timer is set, no load
-- starts, and a load that was in flight reports nothing when it ends.
pub dispose_final : (s : RetryLoop) (es : List Event) → (run_events (dispose s).0 es).1 ≡ []
unfolding dispose
dispose_final s es = silent_from (dispose s).0 es (ground arith) (inl refl)

-- After a rejected key the loop is silent in the same way until a key is accepted.
pub auth_failed_final :
    (s : RetryLoop) (es : List Event)
    → All (λ e. is_key_accepted e ≡ false) es
    → (run_events (handle_result s auth_failed).0 es).1 ≡ []
unfolding handle_result
auth_failed_final s es k = silent_from (handle_result s auth_failed).0 es (ground arith) (inr k)

-- What a retry may be tried again after.
abbrev pub is_retried : CloudLoadResult → Bool
is_retried transient = true
is_retried (rate_limited retry_after) = true
is_retried _ = false

-- The loop does not die of a failure: a load that fails for a time leaves a timer pending, and when
-- it fires the next load starts, as long as the loop is neither stopped nor connected.
pub failure_retried :
    (s : RetryLoop) (r : CloudLoadResult)
    → s.stopped ≡ false
    → s.connected ≡ false
    → is_retried r ≡ true
    → (let t = (load_ends s r).0 in (is_some t.armed ≡ true) × ((timer_fires t).1 ≡ load ∷ []))
unfolding load_ends timer_fires
failure_retried s ok h k e = cc
failure_retried s auth_failed h k e = cc
failure_retried s transient h k e = ground arith
failure_retried s (rate_limited retry_after) h k e = ground arith
