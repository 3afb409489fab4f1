-- ===== src/Machine/Controller/Normal/Laws.antt =====
-- A reconcile keeps a machine well-formed: it is ready only while MAAS has it deployed, and has then
-- been provisioned.
use cluster_api_provider_maa.Base.{
  ℕ, String, Option, none, some, ◌==◌, not, M, Result, ok, err, errors_is, return, fail, attempt,
  wrapping, ◌>>=◌, ◌>>◌, if◌then◌else◌, error_text,
}
use cluster_api_provider_maa.Services.{Maas}
use cluster_api_provider_maa.Kube.{Kube}
use cluster_api_provider_maa.Status.{
  waiting_for_cluster_infrastructure_reason, waiting_for_bootstrap_data_reason, Instance,
  machine_finalizer, machine_deploying_reason, condition_false, machine_deploy_started_reason,
  machine_deployed_condition, machine_deploy_failed_reason,
}
use cluster_api_provider_maa.Api.{MaasMachine, is_set}
use cluster_api_provider_maa.Hmc.Service.{host_evacuation_finalizer, contains_string}
use cluster_api_provider_maa.Hmc.Controller.{Outcome, done, requeue_after}
use cluster_api_provider_maa.Machine.Scope.{
  modify, Live, lift, get_raw_bootstrap_data, patch_object,
}
use cluster_api_provider_maa.Machine.Scope.Keeps.{
  IsWellFormed, Keeps, >>=-Keeps, wrapping-Keeps, choice-Keeps,
}
use cluster_api_provider_maa.Machine.Node.{Tracker}
use cluster_api_provider_maa.Machine.Controller.{Reconciler, conditioned}
use cluster_api_provider_maa.Machine.Controller.Delete.{find_machine}
use cluster_api_provider_maa.Machine.Controller.Delete.Laws.{find_machine-Keeps}
use cluster_api_provider_maa.Machine.Controller.Normal.{
  waiting_for, with_finalizer, is_unprotected_host, has_secret, bootstrap_data, resolve_user_data,
  deploy_instance, mark_started, reconcile_found, finish_deployment, deploy_and_reconcile,
  deploy_or_reconcile, finish_find, reconcile_provisioned, reconcile_ready, reconcile_normal,
  reconcile_by, reconcile_scoped, is_deployed_or_deploying, closed,
}
use cluster_api_provider_maa.Machine.Controller.Delete.WellFormed.{reconcile_delete-IsWellFormed}
use cluster_api_provider_maa.Machine.Controller.Tags.{cleanup_stale_tags_after_deployment}
use cluster_api_provider_maa.Machine.Controller.Normal.Found.{reconcile_found-Keeps}

module _ {S : Type 0} (r : Reconciler S) (k : Kube S) (client_set : String × String → Maas S)
    (tracker : Tracker S) (encode : String → String) (deploy : String → M (Live S) Instance)
    (deploys : (user_data : String) → Keeps IsWellFormed (deploy user_data)) where
  bootstrap_data-Keeps :
      (x : Result String × S) (l : Live S)
      → IsWellFormed l.maas_machine
      → IsWellFormed (bootstrap_data r k client_set tracker encode deploy x l).1.maas_machine
  unfolding bootstrap_data
  bootstrap_data-Keeps (ok text, s) l p = p
  bootstrap_data-Keeps (err e, s) l p = p

  resolve_user_data-Keeps :
      Keeps IsWellFormed (resolve_user_data r k client_set tracker encode deploy)
  unfolding resolve_user_data
  resolve_user_data-Keeps l p = bootstrap_data-Keeps (get_raw_bootstrap_data r.scope l.world) l p

  deploy_instance-Keeps : Keeps IsWellFormed (deploy_instance r k client_set tracker encode deploy)
  unfolding deploy_instance
  deploy_instance-Keeps =
      >>=-Keeps IsWellFormed
        (wrapping "failed to resolve userdata"
          (resolve_user_data r k client_set tracker encode deploy))
        (λ user_data. wrapping "failed to deploy MaasMachine instance" (deploy user_data))
        (wrapping-Keeps IsWellFormed "failed to resolve userdata"
          (resolve_user_data r k client_set tracker encode deploy) resolve_user_data-Keeps)
        (λ user_data.
          wrapping-Keeps IsWellFormed "failed to deploy MaasMachine instance" (deploy user_data)
            (deploys user_data))

  mark_started-Keeps : Keeps IsWellFormed (mark_started r k client_set tracker encode deploy)
  unfolding mark_started patch_object
  mark_started-Keeps l =
      choice-Keeps IsWellFormed
        (r.scope.conditions.get_reason l.maas_machine.status.conditions machine_deployed_condition
          == machine_deploy_failed_reason)
        (return tt)
        (conditioned r machine_deployed_condition condition_false machine_deploy_started_reason ""
          >> patch_object r.scope)
        (λ _ p. p) (λ _ p. p) l

  finish_deployment-Keeps :
      (x : Result Instance)
      → Keeps IsWellFormed (finish_deployment r k client_set tracker encode deploy x)
  unfolding finish_deployment
  finish_deployment-Keeps (ok i) = λ l.
      >>=-Keeps IsWellFormed
        (attempt (lift (cleanup_stale_tags_after_deployment k client_set l.maas_machine i.id)))
        (λ _. reconcile_found r k client_set tracker encode deploy i) (λ _ p. p)
        (λ _. reconcile_found-Keeps r k client_set tracker encode deploy i) l
  finish_deployment-Keeps (err e) =
      let failed : M (Live S) Outcome =
        conditioned r machine_deployed_condition condition_false machine_deploy_failed_reason
          (error_text e)
        >> fail e in
      let unbroken : M (Live S) Outcome =
        if errors_is e "ErrVMComposing" then return (requeue_after 30) else failed in
      let broken : M (Live S) Outcome =
        conditioned r machine_deployed_condition condition_false machine_deploying_reason
          "retrying after broken machine"
        >> return (requeue_after 120) in
      let handled : M (Live S) Outcome =
        if errors_is e "ErrBrokenMachine" then broken else unbroken in
      choice-Keeps IsWellFormed (errors_is e "panic") (fail e) handled (λ _ p. p)
        (choice-Keeps IsWellFormed (errors_is e "ErrBrokenMachine") broken unbroken (λ _ p. p)
          (choice-Keeps IsWellFormed (errors_is e "ErrVMComposing") (return (requeue_after 30))
            failed (λ _ p. p) (λ _ p. p)))

  deploy_and_reconcile-Keeps :
      Keeps IsWellFormed (deploy_and_reconcile r k client_set tracker encode deploy)
  unfolding deploy_and_reconcile
  deploy_and_reconcile-Keeps =
      >>=-Keeps IsWellFormed (mark_started r k client_set tracker encode deploy)
        (λ _.
          attempt (deploy_instance r k client_set tracker encode deploy)
          >>= finish_deployment r k client_set tracker encode deploy)
        mark_started-Keeps
        (λ _.
          >>=-Keeps IsWellFormed (attempt (deploy_instance r k client_set tracker encode deploy))
            (finish_deployment r k client_set tracker encode deploy) deploy_instance-Keeps
            finish_deployment-Keeps)

  deploy_or_reconcile-Keeps :
      (found : Option Instance)
      → Keeps IsWellFormed (deploy_or_reconcile r k client_set tracker encode deploy found)
  unfolding deploy_or_reconcile
  deploy_or_reconcile-Keeps none = deploy_and_reconcile-Keeps
  deploy_or_reconcile-Keeps (some i) =
      choice-Keeps IsWellFormed (is_deployed_or_deploying (some i))
        (reconcile_found r k client_set tracker encode deploy i)
        (deploy_and_reconcile r k client_set tracker encode deploy)
        (reconcile_found-Keeps r k client_set tracker encode deploy i) deploy_and_reconcile-Keeps

  finish_find-Keeps :
      (x : Result (Option Instance))
      → Keeps IsWellFormed (finish_find r k client_set tracker encode deploy x)
  unfolding finish_find
  finish_find-Keeps (ok found) = deploy_or_reconcile-Keeps found
  finish_find-Keeps (err e) = λ _ p. p

  reconcile_provisioned-Keeps :
      Keeps IsWellFormed (reconcile_provisioned r k client_set tracker encode deploy)
  unfolding reconcile_provisioned
  reconcile_provisioned-Keeps =
      >>=-Keeps IsWellFormed (attempt (find_machine r))
        (finish_find r k client_set tracker encode deploy) (find_machine-Keeps r IsWellFormed)
        finish_find-Keeps

  reconcile_ready-Keeps :
      (mm : MaasMachine)
      → Keeps IsWellFormed (reconcile_ready r k client_set tracker encode deploy mm)
  unfolding reconcile_ready waiting_for with_finalizer
  reconcile_ready-Keeps mm =
      let provisioned = reconcile_provisioned r k client_set tracker encode deploy in
      let waiting = waiting_for r k client_set tracker encode deploy in
      let with_secret : M (Live S) Outcome =
        if not (has_secret r k client_set tracker encode deploy r.scope.machine.data_secret_name)
        then waiting waiting_for_bootstrap_data_reason
        else provisioned in
      let with_infrastructure : M (Live S) Outcome =
        if not (is_set r.scope.cluster.infrastructure_provisioned)
        then waiting waiting_for_cluster_infrastructure_reason
        else with_secret in
      let protected : M (Live S) Outcome =
        if is_unprotected_host r k client_set tracker encode deploy mm
        then (modify (with_finalizer host_evacuation_finalizer) >> return done)
        else with_infrastructure in
      choice-Keeps IsWellFormed (not (contains_string mm.finalizers machine_finalizer))
        (modify (with_finalizer machine_finalizer) >> return done) protected (λ _ p. p)
        (choice-Keeps IsWellFormed (is_unprotected_host r k client_set tracker encode deploy mm)
          (modify (with_finalizer host_evacuation_finalizer) >> return done) with_infrastructure
          (λ _ p. p)
          (choice-Keeps IsWellFormed (not (is_set r.scope.cluster.infrastructure_provisioned))
            (waiting waiting_for_cluster_infrastructure_reason) with_secret (λ _ p. p)
            (choice-Keeps IsWellFormed
              (not
                (has_secret r k client_set tracker encode deploy r.scope.machine.data_secret_name))
              (waiting waiting_for_bootstrap_data_reason) provisioned (λ _ p. p)
              reconcile_provisioned-Keeps)))

  reconcile_by-Keeps :
      (deleted_at : Option ℕ)
      → Keeps IsWellFormed (reconcile_by r k client_set tracker encode deploy deleted_at)
  unfolding reconcile_by reconcile_normal
  reconcile_by-Keeps none = λ l. reconcile_ready-Keeps l.maas_machine l
  reconcile_by-Keeps (some deleted_at) = reconcile_delete-IsWellFormed r

  closed-Keeps :
      (x : Result (Unit {0}) × Live S) (o : Result Outcome)
      → IsWellFormed x.1.maas_machine
      → IsWellFormed (closed r k client_set tracker encode deploy x o).1.maas_machine
  unfolding closed
  closed-Keeps (closing, l) (err e) p = p
  closed-Keeps (ok _, l) (ok outcome) p = p
  closed-Keeps (err e, l) (ok outcome) p = p

  -- A whole reconcile keeps a machine well-formed: where the machine was ready only while its recorded
  -- state was deployed and it counted as provisioned, this is so at the end, whatever MAAS, the
  -- cluster and the node return, in the deletion and otherwise, if deploying a machine keeps it.
  pub reconcile_scoped-Keeps :
      Keeps IsWellFormed (reconcile_scoped r k client_set tracker encode deploy)
  unfolding reconcile_scoped patch_object
  reconcile_scoped-Keeps l p =
      closed-Keeps
        (patch_object r.scope
          (reconcile_by r k client_set tracker encode deploy l.maas_machine.deletion_timestamp l).1)
        (reconcile_by r k client_set tracker encode deploy l.maas_machine.deletion_timestamp l).0
        (reconcile_by-Keeps l.maas_machine.deletion_timestamp l p)
