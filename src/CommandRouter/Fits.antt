-- ===== src/CommandRouter/Fits.antt =====
-- src/lib/command-router.ts: what a decision of `resolveTransport` says of the device.
use io_broker_govee_smart.Base.{true, false, arith, ◌≡◌, if_cases}
use io_broker_govee_smart.Device.{GoveeDevice}
use io_broker_govee_smart.Command.{Command}
use io_broker_govee_smart.BrokerCommands.{BrokerRoute, has_datapoint, broker_carries}
use io_broker_govee_smart.CommandRouter.{
  Clients, Quirks, TransportDecision, lan, broker, has_lan, has_cloud, is_cloud_target,
  should_heuristically_use_cloud, without_lan, resolve_transport,
}

-- What the decision knows of its way.
abbrev pub Fits : Clients → GoveeDevice → Command → TransportDecision → Type 0
Fits clients device command lan = has_lan clients device ≡ true
Fits clients device command broker = has_datapoint command ≡ true
Fits clients device command _ = Unit

without_lan-Fits :
    (clients : Clients) (quirks : Quirks) (device : GoveeDevice) (command : Command)
    → Fits clients device command (without_lan clients quirks device command)
without_lan-Fits clients quirks device command =
    if_cases (Fits clients device command) (broker_carries device command route) (λ e. carried e)
      λ _. if_cases (Fits clients device command) (has_cloud clients device) (λ _. tt) (λ _. tt)
  where
    route : BrokerRoute
    route = record {
      lan_path = false;
      broker_connected = clients.broker_connected;
      broker_excluded = quirks.broken_broker_commands;
    }

    carried : broker_carries device command route ≡ true → has_datapoint command ≡ true
    carried e = unfold broker_carries in ground arith

pub resolve_transport-Fits :
    (clients : Clients) (quirks : Quirks) (device : GoveeDevice) (command : Command)
    → Fits clients device command (resolve_transport clients quirks device command)
unfolding resolve_transport
resolve_transport-Fits clients quirks device command =
    if_cases P (is_cloud_target (quirks.transport_overrides command))
      (λ _. if_cases P (has_cloud clients device) (λ _. tt) (λ _. tt))
      λ _.
        if_cases P (has_lan clients device)
          (λ e.
            if_cases P (should_heuristically_use_cloud quirks device command)
              (λ _. if_cases P (has_cloud clients device) (λ _. tt) (λ _. tt)) (λ _. e))
          (λ _. without_lan-Fits clients quirks device command)
  where
    P : TransportDecision → Type 0
    P d = Fits clients device command d
