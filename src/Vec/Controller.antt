-- ===== src/Vec/Controller.antt =====
-- `Reconcile` of `VMEvacuationReconciler` in controllers/vmevacuation_controller.go.
pub mod Permission
pub mod Laws
use cluster_api_provider_maa.Base.{
  ℕ, String, Bool, true, false, not, List, [], ◌∷◌, Option, none, some, nat_beq, ltb, if◌then◌else◌,
  M, Result, ok, err, wrap, is_not_found, return, attempt, wrapping, ◌>>=◌, ◌>>◌,
}
use cluster_api_provider_maa.Services.{Maas, Runtime, Codec}
use cluster_api_provider_maa.Kube.{Kube, CapiMachine, Cluster, Kcp, ClusterApi}
use cluster_api_provider_maa.Api.{MaasMachineSpec, MaasCluster}
use cluster_api_provider_maa.Hmc.Controller.{Outcome, done, requeue_after}
use cluster_api_provider_maa.Vec.Session.{
  list_maintenance_sessions, tag_replacement_vm_and_complete_session,
}
use cluster_api_provider_maa.Vec.Scan.{
  CpMachineOnMaintenanceHost, find_cp_machines_on_maintenance_hosts,
}
use cluster_api_provider_maa.Vec.ControlPlane.{
  is_kcp_stable, replicas_of, get_kubeadm_control_plane, has_other_cp_being_deleted,
  delete_cp_machine, is_wlc_cluster, create_new_maas_machine_template,
  swap_kcp_template_with_max_surge,
}

-- The operation id that a range over the map of sessions gives first.
abbrev first_op_id : List String → String
first_op_id [] = ""
first_op_id (op_id ∷ _) = op_id

module _ {S : Type 0} (c : Codec) (k : Kube S) (r : Runtime S) (api : ClusterApi S)
    (range_order : List String → List String) (first_eight : String → String)
    (same_spec : MaasMachineSpec → MaasMachineSpec → Bool) where
  -- Every step that fails is retried after half a minute, as the end of every branch is.
  abbrev or_retry : {A : Type 0} → (A → M S Outcome) → Result A × S → Result Outcome × S
  or_retry f (ok a, s) = f a s
  or_retry f (err e, s) = (ok (requeue_after 30), s)

  abbrev retrying : {A : Type 0} → M S A → (A → M S Outcome) → M S Outcome
  retrying m f s = or_retry f (m s)

  -- An active session: wait for the control plane, then tag the replacement and complete.
  continue_if_stable : Maas S → Cluster → String → Kcp → M S Outcome
  continue_if_stable maas cluster op_id kcp =
      if is_kcp_stable kcp
      then (attempt
            (tag_replacement_vm_and_complete_session c k.config_maps maas cluster.namespace op_id)
          >>= λ _. return (requeue_after 30))
      else return (requeue_after 30)

  continue_session : Maas S → Cluster → String → M S Outcome
  unfolding continue_if_stable
  continue_session maas cluster op_id =
      retrying (get_kubeadm_control_plane api cluster) (continue_if_stable maas cluster op_id)

  swap_template : Kcp → M S Outcome
  swap_template kcp =
      retrying (create_new_maas_machine_template api r first_eight same_spec kcp) (λ name.
        retrying (swap_kcp_template_with_max_surge api kcp name) (λ _. return (requeue_after 30)))

  -- Three replicas and more: delete the machine. One: swap the template.
  evacuate_machine : CapiMachine → Kcp → M S Outcome
  unfolding swap_template
  evacuate_machine machine kcp =
      let replicas = replicas_of kcp.spec_replicas in
      if ltb 2 replicas
      then retrying (delete_cp_machine api machine) (λ _. return (requeue_after 30))
      else if nat_beq replicas 1
      then swap_template kcp
      else return (requeue_after 30)

  evacuate_unless : CapiMachine → Kcp → Bool → M S Outcome
  unfolding evacuate_machine
  evacuate_unless machine kcp true = return (requeue_after 30)
  evacuate_unless machine kcp false = evacuate_machine machine kcp

  evacuate_if_stable : Cluster → CapiMachine → Kcp → M S Outcome
  unfolding evacuate_unless
  evacuate_if_stable cluster machine kcp =
      if is_kcp_stable kcp
      then has_other_cp_being_deleted api cluster machine >>= evacuate_unless machine kcp
      else return (requeue_after 30)

  -- The first of the machines that were found.
  unfoldable pub evacuate_first : Cluster → List CpMachineOnMaintenanceHost → M S Outcome
  unfolding evacuate_if_stable
  evacuate_first cluster [] = return (requeue_after 300)
  evacuate_first cluster (info ∷ _) =
      retrying (get_kubeadm_control_plane api cluster) (evacuate_if_stable cluster info.machine)

  scan_and_evacuate : Maas S → Cluster → M S Outcome
  unfolding evacuate_first
  scan_and_evacuate maas cluster =
      retrying (find_cp_machines_on_maintenance_hosts c k r api maas cluster)
        (evacuate_first cluster)

  with_sessions : Maas S → Cluster → List String → M S Outcome
  unfolding continue_session scan_and_evacuate
  with_sessions maas cluster [] = scan_and_evacuate maas cluster
  with_sessions maas cluster (op_id ∷ op_ids) =
      continue_session maas cluster (first_op_id (range_order (op_id ∷ op_ids)))

  with_scope : Cluster → Maas S → M S Outcome
  unfolding with_sessions
  with_scope cluster maas =
      retrying (list_maintenance_sessions c k.config_maps cluster.namespace)
        (with_sessions maas cluster)

  if_wlc : MaasCluster → Cluster → Bool → M S Outcome
  unfolding with_scope
  if_wlc mc cluster false = return done
  if_wlc mc cluster true =
      wrapping "failed to create cluster scope" (api.new_cluster_scope cluster mc)
      >>= with_scope cluster

  with_cluster : MaasCluster → Result (Option Cluster) × S → Result Outcome × S
  unfolding if_wlc
  with_cluster mc (err e, s) = (ok done, s)
  with_cluster mc (ok none, s) = (ok done, s)
  with_cluster mc (ok (some cluster), s) =
      retrying (is_wlc_cluster api cluster) (if_wlc mc cluster) s

  with_maas_cluster : Result MaasCluster × S → Result Outcome × S
  unfolding with_cluster
  with_maas_cluster (err e, s) = if is_not_found e then (ok done, s) else (err e, s)
  with_maas_cluster (ok mc, s) = with_cluster mc (api.get_owner_cluster mc s)

  unfoldable pub reconcile : String → String → M S Outcome
  unfolding with_maas_cluster
  reconcile namespace name s = with_maas_cluster (k.get_maas_cluster namespace name s)
