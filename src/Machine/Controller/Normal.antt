-- ===== src/Machine/Controller/Normal.antt =====
-- `reconcileNormal` and `Reconcile` of controllers/maasmachine_controller.go.
pub mod Found
pub mod Laws
use cluster_api_provider_maa.Base.{
  ℕ, String, Bool, true, false, not, ◌&&◌, ◌||◌, [], ◌∷◌, ◌++◌, Option, none, some, ◌==◌, deref,
  if◌then◌else◌, M, Result, ok, err, errors_is, error_text, return, fail, attempt, wrapping, ◌>>=◌,
  ◌>>◌,
}
use cluster_api_provider_maa.Services.{Maas}
use cluster_api_provider_maa.Kube.{Kube}
use cluster_api_provider_maa.Status.{
  Instance, condition_false, condition_unknown, machine_state_deployed, machine_state_deploying,
  machine_deployed_condition, machine_deploying_reason, machine_not_found_reason,
  machine_deploy_failed_reason, machine_deploy_started_reason,
  waiting_for_cluster_infrastructure_reason, waiting_for_bootstrap_data_reason, machine_finalizer,
}
use cluster_api_provider_maa.Api.{MaasMachine, is_set, is_hcp_maas_cluster}
use cluster_api_provider_maa.Hmc.Service.{host_evacuation_finalizer, contains_string}
use cluster_api_provider_maa.Hmc.Controller.{Outcome, done, requeue_after}
use cluster_api_provider_maa.Machine.Scope.{
  Live, lift, current, modify, set_status, get_raw_bootstrap_data, patch_object,
  machine_is_in_known_state, machine_is_operational,
}
use cluster_api_provider_maa.Machine.Node.{Tracker, is_api_server_online, set_node_provider_id}
use cluster_api_provider_maa.Machine.Controller.{
  Reconciler, emit, conditioned, reconcile_dns_attachment,
}
use cluster_api_provider_maa.Machine.Controller.State.{reconcile_instance}
use cluster_api_provider_maa.Machine.Controller.Delete.{find_machine, reconcile_delete}
use cluster_api_provider_maa.Machine.Controller.Tags.{cleanup_stale_tags_after_deployment}

-- `controllerutil.AddFinalizer`, where the finalizer is not there.
unfoldable pub with_finalizer : String → MaasMachine → MaasMachine
with_finalizer name mm = record mm { finalizers = mm.finalizers ++ name ∷ [] }

-- An instance that is deployed or being deployed is not deployed again.
unfoldable pub is_deployed_or_deploying : Option Instance → Bool
is_deployed_or_deploying none = false
is_deployed_or_deploying (some i) =
    i.state == machine_state_deployed || i.state == machine_state_deploying

-- `deploy` is `DeployMachine`, and `encode` the encoding in base 64.
module _ {S : Type 0} (r : Reconciler S) (k : Kube S) (client_set : String × String → Maas S)
    (tracker : Tracker S) (encode : String → String) (deploy : String → M (Live S) Instance) where
  unfoldable pub waiting_for : String → M (Live S) Outcome
  waiting_for reason =
      conditioned r machine_deployed_condition condition_false reason "" >> return done

  unfoldable pub bootstrap_data : Result String × S → Live S → Result String × Live S
  bootstrap_data (ok text, s) l = (ok (encode text), record l { world = s })
  bootstrap_data (err e, s) l =
      (err e, record l { world = r.runtime.event "FailedGetBootstrapData" (error_text e) s })

  -- `resolveUserData`
  unfoldable pub resolve_user_data : M (Live S) String
  unfolding bootstrap_data
  resolve_user_data l = bootstrap_data (get_raw_bootstrap_data r.scope l.world) l

  -- `deployMachine`
  unfoldable pub deploy_instance : M (Live S) Instance
  deploy_instance = wrapping "failed to resolve userdata" resolve_user_data >>= λ user_data.
      wrapping "failed to deploy MaasMachine instance" (deploy user_data)

  -- The condition does not go from failed back to started.
  unfoldable pub mark_started : M (Live S) (Unit {0})
  mark_started = current >>= λ mm.
      if r.scope.conditions.get_reason mm.status.conditions machine_deployed_condition
        == machine_deploy_failed_reason
      then return tt
      else (conditioned r machine_deployed_condition condition_false machine_deploy_started_reason
            ""
          >> patch_object r.scope)

  unfoldable pub finish_node : Result (Unit {0}) → M (Live S) Outcome
  finish_node (ok _) = return done
  finish_node (err e) =
      emit r "NodeProviderUpdateFailed" "Unable to set the node provider update"
      >> return (requeue_after 30)

  unfoldable pub is_online : Result Bool → Bool
  is_online (ok b) = b
  is_online (err e) = false

  unfoldable pub finish_online : Result Bool → M (Live S) Outcome
  unfolding is_online finish_node
  finish_online online = current >>= λ mm.
      if not (is_online online)
      then return (requeue_after 300)
      else if not (machine_is_operational mm)
      then return (requeue_after 300)
      else (attempt (set_node_provider_id r.scope.lower tracker) >>= finish_node)

  unfoldable pub check_online : M (Live S) Outcome
  unfolding finish_online
  check_online = attempt (lift (is_api_server_online r.scope.lower tracker)) >>= finish_online

  unfoldable pub finish_attachment : Result (Unit {0}) → M (Live S) Outcome
  unfolding check_online
  finish_attachment (ok _) = check_online
  finish_attachment (err e) =
      if errors_is e "ErrRequeueDNS" then return (requeue_after 10) else fail e

  -- What can be done in all known states.
  unfoldable pub reconcile_addresses : Instance → M (Live S) Outcome
  unfolding finish_attachment
  reconcile_addresses i = modify (set_status (λ st. record st { addresses = i.addresses })) >>= λ _.
      attempt (reconcile_dns_attachment r i) >>= finish_attachment

  unfoldable pub finish_known : Instance → MaasMachine → M (Live S) Outcome
  unfolding reconcile_addresses check_online
  finish_known i mm = if machine_is_in_known_state mm then reconcile_addresses i else check_online

  unfoldable pub finish_state : Instance → Option Outcome → M (Live S) Outcome
  unfolding finish_known
  finish_state i (some outcome) = return outcome
  finish_state i none = current >>= finish_known i

  unfoldable pub reconcile_found : Instance → M (Live S) Outcome
  unfolding finish_state
  reconcile_found i = reconcile_instance r i >>= finish_state i

  -- A panic of the deployment goes by the tests of its errors.
  unfoldable pub finish_deployment : Result Instance → M (Live S) Outcome
  unfolding reconcile_found
  finish_deployment (ok i) = current >>= λ mm.
      attempt (lift (cleanup_stale_tags_after_deployment k client_set mm i.id)) >>= λ _.
      reconcile_found i
  finish_deployment (err e) =
      if errors_is e "panic"
      then fail e
      else if errors_is e "ErrBrokenMachine"
      then (conditioned r machine_deployed_condition condition_false machine_deploying_reason
            "retrying after broken machine"
          >> return (requeue_after 120))
      else if errors_is e "ErrVMComposing"
      then return (requeue_after 30)
      else (conditioned r machine_deployed_condition condition_false machine_deploy_failed_reason
            (error_text e)
          >> fail e)

  unfoldable pub deploy_and_reconcile : M (Live S) Outcome
  unfolding mark_started finish_deployment
  deploy_and_reconcile = mark_started >>= λ _. attempt deploy_instance >>= finish_deployment

  unfoldable pub deploy_or_reconcile : Option Instance → M (Live S) Outcome
  unfolding deploy_and_reconcile reconcile_found
  deploy_or_reconcile none = deploy_and_reconcile
  deploy_or_reconcile (some i) =
      if is_deployed_or_deploying (some i) then reconcile_found i else deploy_and_reconcile

  unfoldable pub finish_find : Result (Option Instance) → M (Live S) Outcome
  unfolding deploy_or_reconcile
  finish_find (ok found) = deploy_or_reconcile found
  finish_find (err e) =
      conditioned r machine_deployed_condition condition_unknown machine_not_found_reason
        (error_text e)
      >> fail e

  unfoldable pub reconcile_provisioned : M (Live S) Outcome
  unfolding finish_find
  reconcile_provisioned = attempt (find_machine r) >>= finish_find

  unfoldable pub is_unprotected_host : MaasMachine → Bool
  is_unprotected_host mm =
      deref mm.spec.parent == ""
      && is_hcp_maas_cluster r.scope.maas_cluster
      && not (contains_string mm.finalizers host_evacuation_finalizer)

  unfoldable pub has_secret : Option String → Bool
  has_secret none = false
  has_secret (some name) = true

  unfoldable pub reconcile_ready : MaasMachine → M (Live S) Outcome
  unfolding waiting_for reconcile_provisioned is_unprotected_host has_secret
  reconcile_ready mm =
      if not (contains_string mm.finalizers machine_finalizer)
      then (modify (with_finalizer machine_finalizer) >> return done)
      else if is_unprotected_host mm
      then (modify (with_finalizer host_evacuation_finalizer) >> return done)
      else if not (is_set r.scope.cluster.infrastructure_provisioned)
      then waiting_for waiting_for_cluster_infrastructure_reason
      else if not (has_secret r.scope.machine.data_secret_name)
      then waiting_for waiting_for_bootstrap_data_reason
      else reconcile_provisioned

  -- `reconcileNormal`
  unfoldable pub reconcile_normal : M (Live S) Outcome
  unfolding reconcile_ready
  reconcile_normal = current >>= reconcile_ready

  unfoldable pub reconcile_by : Option ℕ → M (Live S) Outcome
  reconcile_by none = reconcile_normal
  reconcile_by (some deleted_at) = reconcile_delete r

  unfoldable pub closed : Result (Unit {0}) × Live S → Result Outcome → Result Outcome × Live S
  closed (closing, l) (err e) = (err e, l)
  closed (ok _, l) (ok outcome) = (ok outcome, l)
  closed (err e, l) (ok outcome) = (err e, l)

  -- `Reconcile`, from the scopes on: the machine is stored at the end, whatever came of the reconcile,
  -- and an error of storing it counts where there is no other.
  unfoldable pub reconcile_scoped : M (Live S) Outcome
  unfolding reconcile_by closed
  reconcile_scoped l =
      let reconciled = reconcile_by l.maas_machine.deletion_timestamp l in
      closed (patch_object r.scope reconciled.1) reconciled.0
