-- ===== src/Machine/Reconcile/Laws.antt =====
-- What a whole reconcile of a machine does: the machine stays well-formed, and it is not deployed
-- before its time.
use cluster_api_provider_maa.Base.{
  ◌≡◌, ◌≢◌, ◌⊎◌, ℕ, refl, ap, inl, inr, String, Bool, true, false, not, ◌&&◌, List, Option, none,
  some, arith, ◌==◌, ==_iff, Bool-cases, deref, M,
}
use cluster_api_provider_maa.Services.{Maas, ConfigMaps}
use cluster_api_provider_maa.Kube.{Kube}
use cluster_api_provider_maa.Status.{Instance, machine_finalizer}
use cluster_api_provider_maa.Api.{MaasMachine, is_set, is_hcp_maas_cluster}
use cluster_api_provider_maa.Lxd.{Floats, Candidate}
use cluster_api_provider_maa.Hmc.Service.{host_evacuation_finalizer, contains_string}
use cluster_api_provider_maa.Machine.Scope.{Live, patch_object}
use cluster_api_provider_maa.Machine.Scope.Keeps.{IsWellFormed, Keeps}
use cluster_api_provider_maa.Machine.Vm.{VmFormats}
use cluster_api_provider_maa.Machine.Compose.{create_vm_via_maas}
use cluster_api_provider_maa.Machine.Compose.Keeps.{create_vm_via_maas-Keeps}
use cluster_api_provider_maa.Machine.Deploy.Keeps.{deploy_machine-Keeps}
use cluster_api_provider_maa.Machine.Node.{Tracker}
use cluster_api_provider_maa.Machine.Controller.{Reconciler}
use cluster_api_provider_maa.Machine.Controller.Normal.{
  waiting_for, is_unprotected_host, has_secret, reconcile_ready, reconcile_normal, reconcile_by,
  reconcile_scoped, closed,
}
use cluster_api_provider_maa.Machine.Controller.Normal.Laws.{reconcile_scoped-Keeps}
use cluster_api_provider_maa.Machine.Reconcile.{deploy_with_service, reconcile_machine}

module _ (floats : Floats) {S : Type 0} (r : Reconciler S) (f : VmFormats)
    (sort : (Candidate floats → Candidate floats → Bool)
      → List (Candidate floats)
      → List (Candidate floats))
    (configs : ConfigMaps S) (k : Kube S) (client_set : String × String → Maas S)
    (tracker : Tracker S) (encode : String → String)
    (match_machine_id : String → Option String) where
  -- A whole reconcile keeps a machine well-formed: where the machine was ready only while its
  -- recorded state was deployed and it counted as provisioned, this is so at the end, whatever
  -- MAAS, the cluster and the node return, in a deletion, a deployment and otherwise.
  pub reconcile_machine-Keeps :
      Keeps IsWellFormed
        (reconcile_machine floats r f sort configs k client_set tracker encode match_machine_id)
  unfolding reconcile_machine
  reconcile_machine-Keeps =
      reconcile_scoped-Keeps r k client_set tracker encode
        (deploy_with_service floats r f sort configs k client_set tracker encode match_machine_id)
        (deploy_machine-Keeps r.scope r.maas r.fleet match_machine_id
          (create_vm_via_maas floats r.scope f sort configs r.maas r.fleet)
          (create_vm_via_maas-Keeps floats r.scope f sort configs r.maas r.fleet))

-- What a machine must have before it is deployed.
pub record IsDeployable {S : Type 0} (r : Reconciler S) (mm : MaasMachine) : Type 0 where
  pub alive : mm.deletion_timestamp ≡ none
  pub finalized : contains_string mm.finalizers machine_finalizer ≡ true
  pub protected :
      deref mm.spec.parent ≡ ""
      → is_hcp_maas_cluster r.scope.maas_cluster ≡ true
      → contains_string mm.finalizers host_evacuation_finalizer ≡ true
  pub provisioned : is_set r.scope.cluster.infrastructure_provisioned ≡ true
  pub bootstrapped : r.scope.machine.data_secret_name ≢ none

none-cases : (o : Option String) → (o ≡ none) ⊎ (o ≢ none)
none-cases none = inl refl
none-cases (some a) = inr (λ h. cc h)

module _ {S : Type 0} (r : Reconciler S) (k : Kube S) (client_set : String × String → Maas S)
    (tracker : Tracker S) (encode : String → String)
    (deploy deploy' : String → M (Live S) Instance) where
  protected_host :
      (mm : MaasMachine)
      → deref mm.spec.parent ≡ ""
      → is_hcp_maas_cluster r.scope.maas_cluster ≡ true
      → (deref mm.spec.parent == ""
          && is_hcp_maas_cluster r.scope.maas_cluster
          && not (contains_string mm.finalizers host_evacuation_finalizer))
        ≡ false
      → contains_string mm.finalizers host_evacuation_finalizer ≡ true
  protected_host mm parent hcp h = ground (arith, ==_iff (deref mm.spec.parent) "")

  reconcile_ready-undeployed :
      (mm : MaasMachine) (l : Live S)
      → mm.deletion_timestamp ≡ none
      → ¬ IsDeployable r mm
      → reconcile_ready r k client_set tracker encode deploy mm l
        ≡ reconcile_ready r k client_set tracker encode deploy' mm l
  unfolding reconcile_ready waiting_for is_unprotected_host has_secret
  reconcile_ready-undeployed mm l alive undeployable =
      elim (Bool-cases (contains_string mm.finalizers machine_finalizer)) [
        | inr e ↦ rw (e) refl
        | inl finalized ↦
            elim (Bool-cases (
              deref mm.spec.parent == ""
              && is_hcp_maas_cluster r.scope.maas_cluster
              && not (contains_string mm.finalizers host_evacuation_finalizer))) [
                | inl e ↦ rw (finalized, e) refl
                | inr protected ↦
                    elim (Bool-cases (is_set r.scope.cluster.infrastructure_provisioned)) [
                      | inr e ↦ rw (finalized, protected, e) refl
                      | inl provisioned ↦ elim (none-cases r.scope.machine.data_secret_name) [
                        | inl e ↦ rw (finalized, protected, provisioned, e) refl
                        | inr bootstrapped ↦ absurd (
                            undeployable (record {
                              alive = alive;
                              finalized = finalized;
                              protected = λ parent hcp. protected_host mm parent hcp protected;
                              provisioned = provisioned;
                              bootstrapped = bootstrapped;
                            }))
                      ]
                    ]
              ]
      ]

  reconcile_by-undeployed :
      (deleted_at : Option ℕ) (l : Live S)
      → l.maas_machine.deletion_timestamp ≡ deleted_at
      → ¬ IsDeployable r l.maas_machine
      → reconcile_by r k client_set tracker encode deploy deleted_at l
        ≡ reconcile_by r k client_set tracker encode deploy' deleted_at l
  unfolding reconcile_by reconcile_normal
  reconcile_by-undeployed none l alive undeployable =
      reconcile_ready-undeployed l.maas_machine l alive undeployable
  reconcile_by-undeployed (some t) l dead undeployable = refl

  -- Where a machine is being deleted, or lacks its finalizer, the infrastructure of its cluster,
  -- its bootstrap data or, as a host of an HCP cluster, the finalizer of the evacuation, a
  -- reconcile does the same whatever deploying a machine would do: no such machine is deployed.
  pub reconcile_scoped-undeployed :
      (l : Live S)
      → ¬ IsDeployable r l.maas_machine
      → reconcile_scoped r k client_set tracker encode deploy l
        ≡ reconcile_scoped r k client_set tracker encode deploy' l
  unfolding reconcile_scoped closed
  reconcile_scoped-undeployed l undeployable =
      ap (λ x. closed r k client_set tracker encode deploy (patch_object r.scope x.1) x.0)
        (reconcile_by-undeployed l.maas_machine.deletion_timestamp l refl undeployable)
