-- ===== src/CommandRouter/Ways.antt =====
-- src/lib/command-router.ts: what goes out over each channel when a command is confirmed.
use io_broker_govee_smart.Base.{
  not, Bool, true, false, ◌||◌, List, [], ◌∷◌, ◌++◌, Option, none, some, any, All, arith, ◌≡◌, refl,
  if_cases,
}
use io_broker_govee_smart.Text.{Text}
use io_broker_govee_smart.Device.{GoveeDevice}
use io_broker_govee_smart.Command.{
  Value, Command, control, scene, light_scene, diy_scene, snapshot, gradient_toggle, segment_batch,
  segment_color, segment_brightness, other,
}
use io_broker_govee_smart.BrokerCommands.{BrokerMessage, broker_message}
use io_broker_govee_smart.CommandRouter.{
  TransportDecision, lan, broker, cloud, skip, Channel, over_lan, over_cloud, has_cloud,
}
use io_broker_govee_smart.CommandRouter.Cloud.{send_cloud_command}
use io_broker_govee_smart.CommandRouter.Lan.{send_lan_command}
use io_broker_govee_smart.CommandRouter.World.{Act, World, Run, Failure, went, after}
use io_broker_govee_smart.CommandRouter.Own.{is_out, carries, is_batch, has_left}
use io_broker_govee_smart.CommandRouter.Accounted.{
  is_generic, Served, Serves, IsCoded, send_cloud_command-Serves, send_lan_command-Serves,
}
use io_broker_govee_smart.CommandRouter.Send.{
  Ending, sent, failed, Dispatch, ends_with, lan_read_back, lan_sent, lan_dispatch, cloud_dispatch,
  instead_of_broker, publish_message, dispatch_generic,
}

-- A command that is confirmed left over the channel. One that throws sent no datagram, published
-- nothing and had no call accepted, unless it is a batch.
abbrev pub IsAccounted : World → GoveeDevice → Command → Value → List Act → Ending → Type 0
IsAccounted world device command value acts (sent out via) =
    has_left world device command value via acts ≡ true
IsAccounted world device command value acts (failed f) =
    (not (any is_out acts) || is_batch command) ≡ true

abbrev pub Accounts : World → GoveeDevice → Command → Value → Dispatch → Type 0
Accounts world device command value d = IsAccounted world device command value d.acts d.ending

pub any-append : (p : Act → Bool) (xs ys : List Act) → any p (xs ++ ys) ≡ (any p xs || any p ys)
any-append p [] ys = refl
any-append p (x ∷ xs) ys = ground (arith, any-append p xs ys)

pub ends_with-Accounts :
    (world : World) (device : GoveeDevice) (command : Command) (value : Value) (r : Run)
    (out : Value) (via : Channel)
    → is_batch command ≡ false
    → Serves (carries device command value via) r
    → Accounts world device command value (ends_with r (sent out via))
unfolding has_left
ends_with-Accounts world device command value r out via plain h = go r.acts r.failure h
  where
    go :
        (acts : List Act) (f : Option Failure)
        → Served (carries device command value via) acts f
        → Accounts world device command value
            (ends_with (record { acts = acts; failure = f }) (sent out via))
    go acts none h = rw plain h
    go acts (some f) h = ground arith

-- What the second part does takes nothing away.
after-Serves :
    (p : Act → Bool) (r : Run) (acts : List Act) → Serves p r → Serves p (after r (went acts))
after-Serves p r acts h = go r.acts r.failure h
  where
    go :
        (xs : List Act) (f : Option Failure)
        → Served p xs f
        → Serves p (after (record { acts = xs; failure = f }) (went acts))
    go xs none h = ground (arith, any-append p xs acts)
    go xs (some f) h = h

generic_plain : (command : Command) → is_generic command ≡ true → is_batch command ≡ false
generic_plain (segment_color index) g = absurd cc
generic_plain (segment_brightness index) g = absurd cc
generic_plain segment_batch g = absurd cc
generic_plain (control kind) g = refl
generic_plain scene g = refl
generic_plain light_scene g = refl
generic_plain diy_scene g = refl
generic_plain snapshot g = refl
generic_plain gradient_toggle g = refl
generic_plain (other name) g = refl

module _ (world : World) (device : GoveeDevice) (command : Command) (value : Value)
    (g : is_generic command ≡ true) where
  cloud_dispatch-Accounts :
      Accounts world device command value (cloud_dispatch world device command value)
  cloud_dispatch-Accounts =
      ends_with-Accounts world device command value (send_cloud_command world device command value)
        value over_cloud (generic_plain command g)
        (send_cloud_command-Serves world device command value)

  lan_dispatch-Accounts :
      All IsCoded device.scene_library
      → Accounts world device command value (lan_dispatch world device command value)
  lan_dispatch-Accounts coded =
      let r = send_lan_command world device command value in
      ends_with-Accounts world device command value (after r (went (lan_read_back device.lan_ip)))
        (lan_sent command value) over_lan (generic_plain command g)
        (after-Serves (carries device command value over_lan) r (lan_read_back device.lan_ip)
          (send_lan_command-Serves world device command value coded g))

  instead_of_broker-Accounts :
      Accounts world device command value (instead_of_broker world device command value)
  instead_of_broker-Accounts =
      if_cases (Accounts world device command value) (has_cloud world.clients device)
        (λ _. cloud_dispatch-Accounts) (λ _. refl)

  publish_message-Accounts :
      (message : Option BrokerMessage) (topic : Option Text)
      → Accounts world device command value
          (publish_message world device command value message topic)
  unfolding has_left
  publish_message-Accounts none topic = refl
  publish_message-Accounts (some message) none = instead_of_broker-Accounts
  publish_message-Accounts (some message) (some topic) =
      if_cases (Accounts world device command value) world.published
        (λ _. rw (generic_plain command g) refl) (λ _. instead_of_broker-Accounts)

  pub dispatch_generic-Accounts :
      (decision : TransportDecision)
      → All IsCoded device.scene_library
      → Accounts world device command value (dispatch_generic world device command value decision)
  unfolding dispatch_generic
  dispatch_generic-Accounts lan coded = lan_dispatch-Accounts coded
  dispatch_generic-Accounts broker coded =
      publish_message-Accounts (broker_message world.read_number command value) device.iot_topic
  dispatch_generic-Accounts (cloud reason) coded = cloud_dispatch-Accounts
  dispatch_generic-Accounts (skip reason) coded = refl
