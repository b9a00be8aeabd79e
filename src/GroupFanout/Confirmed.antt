-- ===== src/GroupFanout/Confirmed.antt =====
-- src/lib/group-fanout.ts: when the command to a group counts as confirmed.
use io_broker_govee_smart.Base.{
  Bool, true, false, not, ◌&&◌, ◌||◌, List, [], ◌∷◌, Option, none, some, if◌then◌else◌, keep, any,
  is_some, ◌==◌, arith, ◌≡◌, refl, ◌∙◌, if_cases, map,
}
use io_broker_govee_smart.Text.{Text}
use io_broker_govee_smart.Device.{GoveeDevice}
use io_broker_govee_smart.Command.{Value}
use io_broker_govee_smart.GroupFanout.{
  GroupCommand, GroupFanoutHost, Warned, FanOut, resolve_group_members,
}
use io_broker_govee_smart.GroupFanout.Members.{
  is_reachable, is_counted, member_takes, Fan, fan_members, warn_group_once, report_failed_members,
  after_failures, finish_fan, with_members, is_reset, fan_out_all, fan_out_command, fan_out,
  has_text, member_key, delete_text,
}
use io_broker_govee_smart.GroupFanout.Noted.{
  is_taken, is_awaiting, is_empty, fan_succeeded, fan_awaiting, fan_failed, awaiting-counted,
  awaiting-taken,
}

any-keep :
    (p q : GoveeDevice → Bool) (ds : List GoveeDevice)
    → any p (keep q ds) ≡ any (λ d. q d && p d) ds
any-keep p q [] = refl
any-keep p q (d ∷ ds) = ground (arith, any-keep p q ds)

is_empty-keep :
    (q : GoveeDevice → Bool) (ds : List GoveeDevice) → is_empty (keep q ds) ≡ not (any q ds)
is_empty-keep q [] = refl
is_empty-keep q (d ∷ ds) = ground (arith, is_empty-keep q ds)

report_failed_members-confirmed :
    (group : GoveeDevice) (failed : List GoveeDevice) (warned : Warned)
    → (report_failed_members group failed warned).confirmed ≡ false
unfolding report_failed_members
report_failed_members-confirmed group failed warned =
    if_cases (λ (r : FanOut). r.confirmed ≡ false)
      (any (λ k. not (has_text k warned.members)) (map (member_key group) failed)) (λ _. refl)
      (λ _. refl)

after_failures-confirmed :
    (group : GoveeDevice) (warned : Warned) (awaiting : Bool) (failed : List GoveeDevice)
    → (after_failures group warned awaiting failed).confirmed ≡ (is_empty failed && not awaiting)
after_failures-confirmed group warned awaiting [] = refl
after_failures-confirmed group warned awaiting (d ∷ failed) =
    report_failed_members-confirmed group (d ∷ failed) warned

warn_group_once-confirmed :
    (group : GoveeDevice) (warned : Warned) → (warn_group_once group warned).confirmed ≡ false
unfolding warn_group_once
warn_group_once-confirmed group warned =
    if_cases (λ (r : FanOut). r.confirmed ≡ false) (has_text group.device_id warned.groups)
      (λ _. refl) (λ _. refl)

finish_fan-confirmed :
    (group : GoveeDevice) (warned : Warned) (fan : Fan)
    → (finish_fan group warned fan).confirmed
      ≡ (not (fan.succeeded == 0) && (is_empty fan.failed && not fan.awaiting_report))
unfolding finish_fan
finish_fan-confirmed group warned fan =
    let marked : Warned = record warned { members = fan.warned_members } in
    let recovered : Warned = record marked { groups = delete_text group.device_id marked.groups } in
    if_cases
      (λ (r : FanOut).
        r.confirmed
        ≡ (not (fan.succeeded == 0) && (is_empty fan.failed && not fan.awaiting_report)))
      (fan.succeeded == 0) (λ e. ground (arith, warn_group_once-confirmed group marked))
      (λ e. ground (arith, after_failures-confirmed group recovered fan.awaiting_report fan.failed))

-- The members that keep the group from being confirmed: they count, and were not reached, took
-- nothing or owe their report.
abbrev pub holds_back : GroupFanoutHost → GroupCommand → Text → Value → GoveeDevice → Bool
holds_back host command state_suffix value d =
    let t = member_takes host command state_suffix value d in
    is_counted host command d && not (is_reachable d && (is_taken t && not (is_awaiting t)))

abbrev pub takes_it : GroupFanoutHost → GroupCommand → Text → Value → GoveeDevice → Bool
takes_it host command state_suffix value d =
    is_reachable d && is_taken (member_takes host command state_suffix value d)

with_members-confirmed :
    (host : GroupFanoutHost) (group : GoveeDevice) (command : GroupCommand) (state_suffix : Text)
    (value : Value) (warned : Warned) (all reached : List GoveeDevice)
    → (with_members host group command state_suffix value warned all reached).confirmed ≡ (
        any (λ d. is_taken (member_takes host command state_suffix value d)) reached
        && (not (any (λ d. is_counted host command d && not (is_reachable d)) all)
            && (not (
                  any
                    (λ d.
                      is_counted host command d
                      && not (is_taken (member_takes host command state_suffix value d)))
                    reached)
                && not (
                    any
                      (λ d. is_awaiting (member_takes host command state_suffix value d))
                      reached))))
with_members-confirmed host group command state_suffix value warned all [] =
    warn_group_once-confirmed group warned
with_members-confirmed host group command state_suffix value warned all (m ∷ reached) =
    let missed = keep (λ d. is_counted host command d && not (is_reachable d)) all in
    let fan : Fan = record {
      warned_members = warned.members;
      succeeded = 0;
      awaiting_report = false;
      failed = missed;
    } in
    let members = m ∷ reached in
    let end = fan_members host group command state_suffix value members fan in
    finish_fan-confirmed group warned end
    ∙ ground (
      arith,
      fan_succeeded host group command state_suffix value members fan,
      fan_awaiting host group command state_suffix value members fan,
      fan_failed host group command state_suffix value members fan,
      is_empty-keep (λ d. is_counted host command d && not (is_reachable d)) all,
    )

-- One member, from what was said of each of the three lists.
any-holds_back :
    (host : GroupFanoutHost) (command : GroupCommand) (state_suffix : Text) (value : Value)
    (all : List GoveeDevice)
    → (not (any (λ d. is_counted host command d && not (is_reachable d)) all)
        && (not (
              any
                (λ d.
                  is_reachable d
                  && (is_counted host command d
                      && not (is_taken (member_takes host command state_suffix value d))))
                all)
            && not (
                any
                  (λ d.
                    is_reachable d && is_awaiting (member_takes host command state_suffix value d))
                  all)))
      ≡ not (any (holds_back host command state_suffix value) all)
any-holds_back host command state_suffix value [] = refl
any-holds_back host command state_suffix value (d ∷ all) = ground (
  arith,
  any-holds_back host command state_suffix value all,
  awaiting-counted host command state_suffix value d,
  awaiting-taken (member_takes host command state_suffix value d),
)

fan_out_all-confirmed :
    (host : GroupFanoutHost) (group : GoveeDevice) (command : GroupCommand) (state_suffix : Text)
    (value : Value) (warned : Warned) (all : List GoveeDevice)
    → (fan_out_all host group command state_suffix value warned all).confirmed ≡ (
        any (takes_it host command state_suffix value) all
        && not (any (holds_back host command state_suffix value) all))
fan_out_all-confirmed host group command state_suffix value warned all =
    let reached = keep is_reachable all in
    with_members-confirmed host group command state_suffix value warned all reached
    ∙ ground (
      arith,
      any-keep (λ d. is_taken (member_takes host command state_suffix value d)) is_reachable all,
      any-keep
          (λ d.
            is_counted host command d
            && not (is_taken (member_takes host command state_suffix value d)))
          is_reachable all,
      any-keep (λ d. is_awaiting (member_takes host command state_suffix value d)) is_reachable all,
      any-holds_back host command state_suffix value all,
    )

-- What the group needs to be confirmed, for a command and the members that were found.
abbrev pub confirmed_by :
    GroupFanoutHost → Text → Value → List GoveeDevice → Option GroupCommand → Bool
confirmed_by host state_suffix value all none = false
confirmed_by host state_suffix value all (some command) =
    is_reset command value
    || (any (takes_it host command state_suffix value) all
        && not (any (holds_back host command state_suffix value) all))

-- A write to a group is confirmed exactly when it resets a dropdown, or when at least one member
-- took the command and no member that counts failed: each was reachable, took it, and owes no
-- report of its own. A group without members, and a datapoint without a command, are not confirmed.
pub fan_out-confirmed :
    (host : GroupFanoutHost) (group : GoveeDevice) (state_suffix : Text) (value : Value)
    (warned : Warned)
    → (fan_out host group state_suffix value warned).confirmed ≡ (
        is_some group.group_members
        && confirmed_by host state_suffix value
            (resolve_group_members group.group_members host.devices)
            (host.command_of state_suffix))
unfolding fan_out
fan_out-confirmed host group state_suffix value warned =
    go (is_some group.group_members) (host.command_of state_suffix)
  where
    all : List GoveeDevice
    all = resolve_group_members group.group_members host.devices

    go :
        (members : Bool) (command : Option GroupCommand)
        → (if members
            then fan_out_command host group state_suffix value warned command
            else record { warned = warned; logs = []; confirmed = false }).confirmed
          ≡ (members && confirmed_by host state_suffix value all command)
    go false command = refl
    go true none = refl
    go true (some command) =
        if_cases
          (λ (r : FanOut). r.confirmed ≡ confirmed_by host state_suffix value all (some command))
          (is_reset command value) (λ e. ground arith)
          (λ e.
            ground (arith, fan_out_all-confirmed host group command state_suffix value warned all))
