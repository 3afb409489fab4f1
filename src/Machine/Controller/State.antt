-- ===== src/Machine/Controller/State.antt =====
-- `reconcileNormal` of controllers/maasmachine_controller.go from the instance on: what the state of
-- the instance in MAAS makes of the machine.
pub mod Laws
use cluster_api_provider_maa.Base.{
  String, ◌<>◌, Bool, true, false, not, ◌&&◌, ◌||◌, Option, none, some, ◌==◌, deref, if◌then◌else◌,
  M, Result, ok, err, Error, error_text, wrap, return, fail, wrapping, ◌>>=◌, ◌>>◌,
}
use cluster_api_provider_maa.Status.{
  ConditionStatus, condition_true, condition_false, condition_unknown, MaasMachineStatus, Instance,
  machine_state_allocated, machine_state_deploying, machine_state_deployed, machine_state_ready,
  machine_state_disk_erasing, machine_state_releasing, machine_state_new,
  machine_deployed_condition, machine_deployed_reason, machine_deploying_reason,
  machine_terminated_reason, machine_powered_off_reason, machine_state_undefined_reason,
}
use cluster_api_provider_maa.Api.{MaasMachine, MaasMachineSpec}
use cluster_api_provider_maa.Hmc.Controller.{Outcome, done, requeue_after}
use cluster_api_provider_maa.Machine.Scope.{
  Live, lift, current, modify, set_status, set_spec, set_ready, set_not_ready, set_provider_id,
  set_failure_domain, set_system_id, machine_is_in_known_state,
}
use cluster_api_provider_maa.Machine.Service.{power_on_machine}
use cluster_api_provider_maa.Machine.Controller.{
  Reconciler, is_confirmed_powered_off, emit, conditioned,
}

-- `SetProviderID` to `SetPowered`: the ids, the host's name and the state of the instance.
unfoldable pub record_spec : Instance → MaasMachineSpec → MaasMachineSpec
unfolding set_provider_id
record_spec i spec =
    set_system_id i.id
      (set_failure_domain i.availability_zone (set_provider_id i.id i.availability_zone spec))

unfoldable pub record_status : Instance → MaasMachineStatus → MaasMachineStatus
record_status i st = record st {
  hostname = some i.hostname;
  machine_state = some i.state;
  machine_powered = i.powered;
}

unfoldable pub record_instance : Instance → MaasMachine → MaasMachine
unfolding record_spec record_status
record_instance i mm = set_status (record_status i) (set_spec (record_spec i) mm)

-- `capierrors.UpdateMachineError`, with its message.
unfoldable pub set_failure : String → MaasMachineStatus → MaasMachineStatus
set_failure text st = record st { failure_reason = some "UpdateError"; failure_message = some text }

-- The cases of the switch over an instance's state.
unfoldable pub is_waiting : String → Bool
is_waiting s = s == machine_state_ready || s == machine_state_allocated

unfoldable pub is_terminating : String → Bool
is_terminating s =
    s == machine_state_disk_erasing || s == machine_state_releasing || s == machine_state_new

module _ {S : Type 0} (r : Reconciler S) where
  -- `SetNotReady`, and the condition that says why.
  unfoldable pub not_ready : ConditionStatus → String → M (Live S) (Unit {0})
  unfolding set_not_ready
  not_ready status reason =
      modify (set_status set_not_ready) >> conditioned r machine_deployed_condition status reason ""

  -- The state is not expected: a failure that stays.
  unfoldable pub failed_in :
      String → String → ConditionStatus → String → String → M (Live S) (Unit {0})
  unfolding set_not_ready set_failure
  failed_in event text status reason failure =
      modify (set_status set_not_ready)
      >> emit r event text
      >> conditioned r machine_deployed_condition status reason ""
      >> modify (set_status (set_failure failure))

  unfoldable pub go_on : M (Live S) (Unit {0}) → M (Live S) (Option Outcome)
  go_on m = m >>= λ _. return none

  unfoldable pub power_on_deployed : MaasMachine → M (Live S) (Option Outcome)
  unfolding power_on_machine
  power_on_deployed mm =
      wrapping "unable to power on deployed machine"
        (lift (power_on_machine r.scope.lower r.maas r.fleet (deref mm.spec.system_id)))
      >>= λ _. return (some (requeue_after 60))

  -- The instance is powered off, which MAAS has confirmed.
  unfoldable pub powered_off : M (Live S) (Option Outcome)
  unfolding power_on_deployed not_ready go_on
  powered_off l =
      if deref l.maas_machine.status.machine_state == machine_state_deployed
      then power_on_deployed l.maas_machine l
      else go_on (not_ready condition_false machine_powered_off_reason) l

  unfoldable pub set_deployed : M (Live S) (Unit {0})
  unfolding set_ready
  set_deployed =
      modify (set_status set_ready)
      >> conditioned r machine_deployed_condition condition_true machine_deployed_reason ""

  -- The switch; a result of `some` ends the reconcile.
  unfoldable pub reconcile_state : Instance → M (Live S) (Option Outcome)
  unfolding powered_off set_deployed not_ready failed_in go_on
  reconcile_state i l =
      if is_waiting i.state
      then go_on (not_ready condition_false machine_deploying_reason) l
      else if is_terminating i.state
      then go_on
          (failed_in "MachineUnexpectedTermination" "Unexpected Maas m termination" condition_false
            machine_terminated_reason ("Maas machine state " <> (i.state <> " is unexpected")))
          l
      else if machine_is_in_known_state l.maas_machine && is_confirmed_powered_off i.power_state
      then powered_off l
      else if i.state == machine_state_deploying
      then go_on (not_ready condition_false machine_deploying_reason) l
      else if i.state == machine_state_deployed
      then go_on set_deployed l
      else go_on
          (failed_in "MachineUnhandledState" "MaaS m state is undefined" condition_unknown
            machine_state_undefined_reason ("MaaS m state " <> (i.state <> " is undefined")))
          l

  -- The instance is recorded, and then its state is looked at.
  unfoldable pub reconcile_instance : Instance → M (Live S) (Option Outcome)
  unfolding record_instance reconcile_state
  reconcile_instance i = modify (record_instance i) >> reconcile_state i
