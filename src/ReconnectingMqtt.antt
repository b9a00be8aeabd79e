-- ===== src/ReconnectingMqtt.antt =====
-- src/lib/reconnecting-mqtt-client.ts: when a lost broker connection is opened again. Of the client
-- itself only its presence is kept. `Math.random()` is `r / 2^53` with `r` below `2^53`.
pub mod Delay
pub mod Disposed
use io_broker_govee_smart.Base.{
  ℕ, ◌+◌, ◌-◌, ◌*◌, ◌/◌, ◌^◌, min, max, Bool, true, false, List, [], ◌∷◌, ◌++◌, Option, none, some,
  if◌then◌else◌, is_some, ltb, length, get_or, keep, is_recent,
}

abbrev pub max_connects_per_window : ℕ
max_connects_per_window = 2

abbrev pub connect_window_ms : ℕ
connect_window_ms = 60000

pub record BackoffOpts : Type 0 where
  pub first_delay : ℕ
  pub cap : ℕ
  pub jitter_cap : ℕ

abbrev pub reconnect_backoff : BackoffOpts
reconnect_backoff = record { first_delay = 5000; cap = 120000; jitter_cap = 30000 }

-- `Math.round(base + jitter)`, where `base` is a whole number: `Math.pow(2, attempt - 1)` is
-- `2 ^ attempt / 2`, and before the first attempt a half, so an even delay is halved.
unfoldable pub compute_backoff_delay : ℕ → BackoffOpts → ℕ → ℕ
compute_backoff_delay attempt opts r =
    let base = min (opts.first_delay * 2 ^ attempt / 2) opts.cap in
    base + (2 * (r * min base opts.jitter_cap) + 2 ^ 53) / 2 ^ 54

pub record MqttLink : Type 0 where
  pub client : Bool
  pub reconnect_timer : Option ℕ
  pub reconnect_attempts : ℕ
  pub disposed : Bool
  pub connect_times : List ℕ

pub data Effect : Type 0 where
  set_timer : ℕ → Effect
  clear_timer reconnect end_client connect : Effect

abbrev pub make_link : MqttLink
make_link = record {
  client = false;
  reconnect_timer = none;
  reconnect_attempts = 0;
  disposed = false;
  connect_times = [];
}

-- The link remembers the connects of the window only.
unfoldable pub connect_wait_ms : MqttLink → ℕ → MqttLink × ℕ
connect_wait_ms s now =
    let recent = keep (is_recent connect_window_ms now) s.connect_times in
    (
      record s { connect_times = recent },
      if ltb (length recent) max_connects_per_window
          then 0
          else get_or recent (length recent - max_connects_per_window) 0
            + connect_window_ms
            + 1
            - now,
    )

-- `exhausted`: what the subclass answers.
unfoldable pub schedule_reconnect : MqttLink → Bool → ℕ → ℕ → MqttLink × List Effect
unfolding compute_backoff_delay connect_wait_ms
schedule_reconnect s exhausted r now =
    if s.disposed
    then (s, [])
    else if is_some s.reconnect_timer
    then (s, [])
    else if exhausted
    then (s, [])
    else (let t = record s { reconnect_attempts = s.reconnect_attempts + 1 } in
        let (u, wait) = connect_wait_ms t now in
        let delay = max (compute_backoff_delay t.reconnect_attempts reconnect_backoff r) wait in
        (record u { reconnect_timer = some delay }, set_timer delay ∷ []))

-- The callback of the timer.
unfoldable pub reconnect_fires : MqttLink → MqttLink × List Effect
reconnect_fires s =
    let t = record s { reconnect_timer = none } in
    if t.disposed then (t, []) else (t, reconnect ∷ [])

unfoldable pub release_client : MqttLink → MqttLink × List Effect
release_client s = (record s { client = false }, if s.client then end_client ∷ [] else [])

unfoldable pub open_broker : MqttLink → ℕ → MqttLink × List Effect
unfolding release_client
open_broker s now =
    let (t, fx) = release_client s in
    (record t { client = true; connect_times = t.connect_times ++ now ∷ [] }, fx ++ connect ∷ [])

unfoldable pub disconnect : MqttLink → MqttLink × List Effect
unfolding release_client
disconnect s =
    let cleared = if is_some s.reconnect_timer then clear_timer ∷ [] else [] in
    let (t, fx) = release_client (record s { disposed = true; reconnect_timer = none }) in
    (t, cleared ++ fx)
