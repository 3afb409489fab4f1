-- ===== src/Machine/Reconcile.antt =====
-- `Reconcile` of controllers/maasmachine_controller.go, from its scopes on, with the machine service
-- of pkg/maas/machine/machine.go.
pub mod Laws
use cluster_api_provider_maa.Base.{String, Bool, List, Option, M}
use cluster_api_provider_maa.Services.{Maas, ConfigMaps}
use cluster_api_provider_maa.Kube.{Kube}
use cluster_api_provider_maa.Status.{Instance}
use cluster_api_provider_maa.Lxd.{Floats, Candidate}
use cluster_api_provider_maa.Hmc.Controller.{Outcome}
use cluster_api_provider_maa.Machine.Scope.{Live}
use cluster_api_provider_maa.Machine.Vm.{VmFormats}
use cluster_api_provider_maa.Machine.Compose.{create_vm_via_maas}
use cluster_api_provider_maa.Machine.Deploy.{deploy_machine}
use cluster_api_provider_maa.Machine.Node.{Tracker}
use cluster_api_provider_maa.Machine.Controller.{Reconciler}
use cluster_api_provider_maa.Machine.Controller.Normal.{reconcile_scoped}

module _ (floats : Floats) {S : Type 0} (r : Reconciler S) (f : VmFormats)
    (sort : (Candidate floats → Candidate floats → Bool)
      → List (Candidate floats)
      → List (Candidate floats))
    (configs : ConfigMaps S) (k : Kube S) (client_set : String × String → Maas S)
    (tracker : Tracker S) (encode : String → String)
    (match_machine_id : String → Option String) where
  -- The deployment that the machine service does.
  unfoldable pub deploy_with_service : String → M (Live S) Instance
  deploy_with_service =
      deploy_machine r.scope r.maas r.fleet match_machine_id
        (create_vm_via_maas floats r.scope f sort configs r.maas r.fleet)

  unfoldable pub reconcile_machine : M (Live S) Outcome
  unfolding deploy_with_service
  reconcile_machine = reconcile_scoped r k client_set tracker encode deploy_with_service
