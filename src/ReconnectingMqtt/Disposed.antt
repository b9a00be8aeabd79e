-- ===== src/ReconnectingMqtt/Disposed.antt =====
-- src/lib/reconnecting-mqtt-client.ts: after `disconnect` no reconnect is made.
use io_broker_govee_smart.Base.{
  ℕ, Bool, true, false, List, [], ◌∷◌, ◌++◌, none, is_some, if◌then◌else◌, arith, ◌≡◌, refl,
}
use io_broker_govee_smart.ReconnectingMqtt.{
  MqttLink, Effect, schedule_reconnect, reconnect_fires, disconnect,
}

pub data RetryEvent : Type 0 where
  lost : Bool → ℕ → ℕ → RetryEvent
  fires disconnects : RetryEvent

-- What the base class does by itself; a timer fires only while it is pending.
unfoldable pub retry_step : MqttLink → RetryEvent → MqttLink × List Effect
unfolding schedule_reconnect reconnect_fires disconnect
retry_step s (lost exhausted r now) = schedule_reconnect s exhausted r now
retry_step s fires = if is_some s.reconnect_timer then reconnect_fires s else (s, [])
retry_step s disconnects = disconnect s

unfoldable pub retry_run : MqttLink → List RetryEvent → MqttLink × List Effect
unfolding retry_step
retry_run s [] = (s, [])
retry_run s (e ∷ es) =
    let (t, fx) = retry_step s e in let (u, more) = retry_run t es in (u, fx ++ more)

record IsOff (s : MqttLink) : Type 0 where
  off : s.disposed ≡ true
  unarmed : s.reconnect_timer ≡ none
  no_client : s.client ≡ false

retry_step-IsOff :
    (s : MqttLink) (e : RetryEvent) → IsOff s → ((retry_step s e).1 ≡ []) × IsOff (retry_step s e).0
unfolding retry_step
retry_step-IsOff s (lost exhausted r now) h = ground arith
retry_step-IsOff s fires h = ground arith
retry_step-IsOff s disconnects h = unfold disconnect in ground arith

retry_run-silent : (s : MqttLink) (es : List RetryEvent) → IsOff s → (retry_run s es).1 ≡ []
unfolding retry_run
retry_run-silent s [] h = refl
retry_run-silent s (e ∷ es) h =
    let q = retry_step-IsOff s e h in ground (arith, retry_run-silent (retry_step s e).0 es q.1)

-- After `disconnect` nothing is sent and no timer is set, whatever connection is reported lost and
-- however often the link is disconnected again.
pub disconnect_final :
    (s : MqttLink) (es : List RetryEvent) → (retry_run (disconnect s).0 es).1 ≡ []
unfolding disconnect
disconnect_final s es = retry_run-silent (disconnect s).0 es (ground arith)
