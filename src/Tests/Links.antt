-- ===== src/Tests/Links.antt =====
-- src/lib/reconnecting-mqtt-client.ts: delays and waits of a link.
use io_broker_govee_smart.Base.{◌-◌, ◌^◌, ◌≤◌, true, false, [], ◌∷◌, some, arith, ◌≡◌, refl}
use io_broker_govee_smart.ReconnectingMqtt.{
  reconnect_backoff, compute_backoff_delay, MqttLink, connect_wait_ms, disconnect,
}
use io_broker_govee_smart.ReconnectingMqtt.Delay.{
  compute_backoff_delay_bounds, connect_wait_ms_enough,
}
use io_broker_govee_smart.ReconnectingMqtt.Disposed.{
  lost, fires, disconnects, retry_run, disconnect_final,
}

abbrev busy_link : MqttLink
busy_link = record {
  client = true;
  reconnect_timer = some 5000;
  reconnect_attempts = 1;
  disposed = false;
  connect_times = 1000 ∷ 20000 ∷ [];
}

busy_link_waits : (connect_wait_ms busy_link 30000).1 ≡ 31001
unfolding connect_wait_ms
busy_link_waits = refl

compute_backoff_delay_bounds_example :
    (5000 ≤ compute_backoff_delay 9 reconnect_backoff (2 ^ 53 - 1))
    × (compute_backoff_delay 9 reconnect_backoff (2 ^ 53 - 1) ≤ 150000)
compute_backoff_delay_bounds_example =
    compute_backoff_delay_bounds 9 (2 ^ 53 - 1) (omega arith) (omega arith)

second_delay : compute_backoff_delay 2 reconnect_backoff 0 ≡ 10000
unfolding compute_backoff_delay
second_delay = refl

half_delay : compute_backoff_delay 0 reconnect_backoff 0 ≡ 2500
unfolding compute_backoff_delay
half_delay = refl

waited_enough : (connect_wait_ms (connect_wait_ms busy_link 30000).0 61001).1 ≡ 0
unfolding connect_wait_ms
waited_enough = connect_wait_ms_enough busy_link 30000 61001 (ground arith) (omega arith)

stays_disconnected :
    (retry_run (disconnect busy_link).0 (lost false 0 7 ∷ fires ∷ disconnects ∷ [])).1 ≡ []
stays_disconnected = disconnect_final busy_link (lost false 0 7 ∷ fires ∷ disconnects ∷ [])
