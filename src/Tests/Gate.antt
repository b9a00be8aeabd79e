-- ===== src/Tests/Gate.antt =====
-- src/lib/call-gate.ts: a run at the gate.
use io_broker_govee_smart.Base.{true, ℕ, ◌+◌, ◌*◌, ◌≤◌, false, List, [], ◌∷◌, arith, ◌≡◌, refl}
use io_broker_govee_smart.CallGate.{ApiLimit, per_account, Counterpart, GateKey, try_admit, wait_ms}
use io_broker_govee_smart.CallGate.Wait.{try_admit_after_wait}
use io_broker_govee_smart.CallGate.Runs.{gate_keeps_window}
use io_broker_govee_smart.CallGate.Tracks.{GateCall, admitted_at, calls_in}

abbrev two_a_minute : ApiLimit
two_a_minute = record { most = 2; seconds = 60; per = per_account }

abbrev app_api : Counterpart
app_api = record { name = "Govee App API"; limits = two_a_minute ∷ [] }

abbrev app_key : GateKey
app_key = record { name = "Govee App API"; index = 0; scope = "" }

abbrev app_call : ℕ → GateCall
app_call now = record {
  asks_only = false;
  counterpart = app_api;
  host = "app2.govee.com";
  now = now;
  counted_at = now;
}

abbrev burst_of_calls : List GateCall
burst_of_calls = app_call 0 ∷ app_call 10 ∷ app_call 20 ∷ app_call 60000 ∷ []

-- The third call is held back; a minute after the first there is room again.
burst_run : admitted_at app_key two_a_minute (λ k. []) burst_of_calls ≡ 0 ∷ 10 ∷ 60000 ∷ []
unfolding admitted_at try_admit wait_ms
burst_run = refl

gate_keeps_window_example :
    calls_in 5 (5 + 60 * 1000) (admitted_at app_key two_a_minute (λ k. []) burst_of_calls) ≤ 2
gate_keeps_window_example =
    gate_keeps_window app_key two_a_minute 0 5 burst_of_calls (omega arith) (omega arith)
      (λ e. refl, (λ e. refl, (λ e. refl, (λ e. refl, tt)))) (ground arith)

abbrev busy_gate : GateKey → List ℕ
busy_gate k = 0 ∷ 10 ∷ []

try_admit_after_wait_example :
    (try_admit
      (wait_ms busy_gate app_api "app2.govee.com" 20).0
      app_api
      "app2.govee.com"
      60001
      60002).1
    ≡ true
unfolding wait_ms
try_admit_after_wait_example =
    try_admit_after_wait busy_gate app_api "app2.govee.com" 20 60001 60002 (omega arith, tt)
      (λ k. ground arith) (omega arith)
