-- ===== src/CommandRouter/World.antt =====
-- src/lib/command-router.ts: what a command meets and what it leaves behind. What takes place is a
-- list of acts, in order. A call that failed may have reached Govee, unless it never left: it is an
-- act of its own.
use io_broker_govee_smart.Base.{ℕ, Bool, List, [], ◌∷◌, ◌++◌, Option, none, some}
use io_broker_govee_smart.Text.{Text, Whole}
use io_broker_govee_smart.Command.{Value}
use io_broker_govee_smart.LanClient.{Datagram}
use io_broker_govee_smart.BrokerCommands.{BrokerData}
use io_broker_govee_smart.CommandRouter.{Clients, Quirks}
use io_broker_govee_smart.CommandRouter.Batch.{ParsedBatch}

-- What `toCloudValue` yields. `scene_value`: what Govee sent for the scene.
pub data CloudValue : Type 0 where
  plain : Value → CloudValue
  flag packed scene_value : ℕ → CloudValue
  segment_rgb : List ℕ → ℕ → CloudValue
  segment_level : List ℕ → Value → CloudValue

pub record Request : Type 0 where
  pub type : Text
  pub instance_name : Text
  pub value : CloudValue

-- `unconfirmed`: the call failed, but Govee may have received it. `never_left`: it was not booked, or
-- it failed before anything was sent.
pub data CloudOutcome : Type 0 where
  accepted unconfirmed never_left : CloudOutcome

-- `read_number`: how the language reads a number in a text. `declared_scene`: what
-- `declaredOptionValue` answers for the preset scenes. `published`: what `publishCommand` answers.
-- `outcome_of`: what a budgeted send comes to, with its retries.
pub record World : Type 0 where
  pub clients : Clients
  pub quirks : Quirks
  pub read_number : Text → Whole
  pub declared_scene : Value → Value
  pub published : Bool
  pub outcome_of : Request → CloudOutcome

pub data Act : Type 0 where
  datagram : Text → Datagram → Act
  publish : Text → BrokerData → Act
  control_device unconfirmed_call : Request → Act
  delay : ℕ → Act
  read_back_lan read_back_broker : Text → Act
  batch_update : ParsedBatch → Act

pub data Failure : Type 0 where
  override_without_cloud cloud_not_ready no_channel_available : Failure
  no_cloud no_lan_path broker_down no_capability not_accepted : Failure
  invalid_index not_a_number unreadable_batch invalid_batch no_segment_capability : Failure

pub record Run : Type 0 where
  pub acts : List Act
  pub failure : Option Failure

abbrev pub went : List Act → Run
went acts = record { acts = acts; failure = none }

abbrev pub refused : Failure → Run
refused f = record { acts = []; failure = some f }

-- What follows runs when the first part did not throw.
abbrev pub after : Run → Run → Run
after r next = elim r.failure [
  | none ↦ record { acts = r.acts ++ next.acts; failure = next.failure }
  | some f ↦ r
]

abbrev pub call_ends : Request → CloudOutcome → Run
call_ends request accepted = went (control_device request ∷ [])
call_ends request unconfirmed = record {
  acts = unconfirmed_call request ∷ [];
  failure = some not_accepted;
}
call_ends request never_left = refused not_accepted

-- One budgeted send.
abbrev pub send_budgeted : World → Request → Run
send_budgeted world request = call_ends request (world.outcome_of request)
