-- ===== src/CommandRouter/Confirmed.antt =====
-- src/lib/command-router.ts: `sendCommand` confirms what went out, and nothing else (principle 5).
use io_broker_govee_smart.Command.{Command}
use io_broker_govee_smart.CommandRouter.World.{World}
use io_broker_govee_smart.CommandRouter.Fits.{Fits}
