-- ===== src/Vec/ControlPlane.antt =====
-- The control plane of a workload cluster, as controllers/vmevacuation_controller.go reads and
-- changes it.
pub mod Laws
use cluster_api_provider_maa.Base.{
  ℕ, ℤ, pos, negsuc, String, ◌<>◌, Bool, true, false, not, ◌&&◌, ◌||◌, List, [], ◌∷◌, Option, none,
  some, ◌==◌, deref, any, ltb, leb, int_beq, if◌then◌else◌, M, Result, ok, err, message, wrap,
  is_not_found, is_already_exists, return, fail, attempt, wrapping, ◌>>=◌, ◌>>◌,
}
use cluster_api_provider_maa.Services.{Runtime}
use cluster_api_provider_maa.Kube.{CapiMachine, Cluster, Kcp, ClusterApi}
use cluster_api_provider_maa.Api.{MaasMachineSpec, MaasMachineTemplate, template_has_lxd_enabled}

abbrev is_true : Option Bool → Bool
is_true none = false
is_true (some b) = b

same_replicas : Option ℤ → Option ℤ → Option ℤ → Option ℤ → Bool
same_replicas (some spec) (some ready) (some updated) (some status) =
    int_beq ready updated && int_beq updated status && int_beq status spec
same_replicas _ _ _ _ = false

-- `isKCPStable`, of a control plane that is not nil.
unfoldable pub is_kcp_stable : Kcp → Bool
unfolding same_replicas
is_kcp_stable kcp =
    if is_true kcp.paused
    then false
    else same_replicas kcp.spec_replicas kcp.ready_replicas kcp.updated_replicas kcp.status_replicas

-- The number of replicas that decides on the strategy.
unfoldable pub replicas_of : Option ℤ → ℕ
replicas_of none = 3
replicas_of (some (negsuc n)) = 3
replicas_of (some (pos n)) = if ltb 2147483647 n then 3 else n

unfoldable pub is_other_being_deleted : CapiMachine → List CapiMachine → Bool
is_other_being_deleted current machines =
    any (λ (m : CapiMachine). not (m.uid == current.uid) && m.is_deleting) machines

module _ {S : Type 0} (api : ClusterApi S) where
  unfoldable pub get_kubeadm_control_plane : Cluster → M S Kcp
  get_kubeadm_control_plane cluster =
      if cluster.has_control_plane_ref
      then wrapping "failed to get KubeadmControlPlane" (api.get_control_plane cluster)
      else fail (message "cluster has no controlPlaneRef")

  unfoldable pub other_of_listed : CapiMachine → Result (List CapiMachine) × S → Result Bool × S
  unfolding is_other_being_deleted
  other_of_listed current (err e, s) = (ok true, s)
  other_of_listed current (ok machines, s) = (ok (is_other_being_deleted current machines), s)

  unfoldable pub has_other_cp_being_deleted : Cluster → CapiMachine → M S Bool
  unfolding other_of_listed
  has_other_cp_being_deleted cluster current s =
      other_of_listed current (api.list_cp_machines cluster.namespace cluster.name s)

  deleted : Result (Unit {0}) × S → Result (Unit {0}) × S
  deleted (ok u, s) = (ok tt, s)
  deleted (err e, s) =
      if is_not_found e then (ok tt, s) else (err (wrap "failed to delete machine" e), s)

  unfoldable pub delete_cp_machine : CapiMachine → M S (Unit {0})
  unfolding deleted
  delete_cp_machine machine s = deleted (api.delete_machine machine s)

  unfoldable pub wlc_of_template : Kcp → Option String → M S Bool
  wlc_of_template kcp none = return false
  wlc_of_template kcp (some name) =
      if name == ""
      then return false
      else api.get_template kcp.namespace name >>= λ tmpl. return (template_has_lxd_enabled tmpl)

  unfoldable pub is_wlc_cluster : Cluster → M S Bool
  unfolding wlc_of_template
  is_wlc_cluster cluster =
      get_kubeadm_control_plane cluster >>= λ kcp. wlc_of_template kcp kcp.template_name

  module _ (r : Runtime S) (first_eight : String → String)
      (same_spec : MaasMachineSpec → MaasMachineSpec → Bool) where
    -- A template of the new name that is already there must have the current spec.
    validate_existing : MaasMachineTemplate → String → MaasMachineTemplate → M S String
    validate_existing current name existing =
        if same_spec existing.spec current.spec
        then return name
        else fail (
            message (
              "existing MaasMachineTemplate "
              <> (name
                  <> " has different spec than expected, this could lead to unexpected behavior")))

    created_or_existing :
        MaasMachineTemplate → MaasMachineTemplate → Result (Unit {0}) × S → Result String × S
    unfolding validate_existing
    created_or_existing current new (ok u, s) = (ok new.name, s)
    created_or_existing current new (err e, s) =
        if not (is_already_exists e)
        then (err (wrap "failed to create new MaasMachineTemplate" e), s)
        else ◌>>=◌
            (wrapping "failed to get existing MaasMachineTemplate for validation"
              (api.get_template new.namespace new.name))
            (validate_existing current new.name) s

    create_clone : Kcp → String → MaasMachineTemplate → String → M S String
    unfolding created_or_existing
    create_clone kcp current_name current uuid s =
        let new : MaasMachineTemplate = record {
          namespace = kcp.namespace;
          name = current_name <> ("-evac-" <> first_eight uuid);
          labels = current.labels;
          spec = current.spec;
        } in
        created_or_existing current new (api.create_template new s)

    clone_template : Kcp → Option String → M S String
    unfolding create_clone
    clone_template kcp none =
        fail (message "failed to get machineTemplate.spec.infrastructureRef from KCP")
    clone_template kcp (some name) =
        if name == "" then fail (message "invalid template name in KCP") else do
          current ←
              wrapping "failed to get current MaasMachineTemplate"
                (api.get_template kcp.namespace name)
          uuid ← r.new_uuid
          create_clone kcp name current uuid

    unfoldable pub create_new_maas_machine_template : Kcp → M S String
    unfolding clone_template
    create_new_maas_machine_template kcp = clone_template kcp kcp.template_name

  unfoldable pub swap_kcp_template_with_max_surge : Kcp → String → M S (Unit {0})
  swap_kcp_template_with_max_surge kcp name =
      wrapping "failed to update KCP"
        (api.update_control_plane (record kcp { template_name = some name; max_surge = some 1 }))
