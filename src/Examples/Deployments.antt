-- ===== src/Examples/Deployments.antt =====
-- The deployment of a machine at concrete inputs.
use cluster_api_provider_maa.Base.{
  ◌≡◌, String, false, [], ◌∷◌, Option, none, some, M, Result, ok, err, api, other, fail, ◌==◌,
  message,
}
use cluster_api_provider_maa.Services.{MachineDetails}
use cluster_api_provider_maa.Status.{Instance, machine_finalizer}
use cluster_api_provider_maa.Api.{MaasMachine}
use cluster_api_provider_maa.Fleet.{Fleet}
use cluster_api_provider_maa.Hmc.Service.{host_evacuation_finalizer}
use cluster_api_provider_maa.Machine.Scope.{Live}
use cluster_api_provider_maa.Machine.Scope.Keeps.{IsWellFormed}
use cluster_api_provider_maa.Machine.Vm.{VmFormats}
use cluster_api_provider_maa.Machine.Node.{Tracker}
use cluster_api_provider_maa.Machine.Deploy.{obtain, deploy_machine}
use cluster_api_provider_maa.Machine.Controller.{Reconciler}
use cluster_api_provider_maa.Machine.Controller.Normal.{reconcile_scoped}
use cluster_api_provider_maa.Machine.Reconcile.{reconcile_machine}
use cluster_api_provider_maa.Machine.Reconcile.Laws.{
  IsDeployable, reconcile_machine-Keeps, reconcile_scoped-undeployed,
}
use cluster_api_provider_maa.Examples.Memory.{World, host, kube, config_maps}
use cluster_api_provider_maa.Examples.Services.{idle_fleet, machine_details}
use cluster_api_provider_maa.Examples.Hosts.{floats, sort}
use cluster_api_provider_maa.Examples.Machines.{scope, maas, reconciler, live}

abbrev zoned : String → MachineDetails
zoned id = record (machine_details id) { zone = some "z" }

abbrev no_world : World
no_world = record { configs = λ ns n. none; tags = λ id. []; machine = host }

-- The fleet has a machine in a zone, and deploys it or not.
abbrev fleet_with : Result MachineDetails → Fleet World
fleet_with deployed = record idle_fleet {
  allocate = λ params s. (ok (zoned "abc"), s);
  deploy = λ id params s. (deployed, s);
}

-- The bootstrap data of the machine is there.
abbrev bootstrapped : Reconciler World
bootstrapped = record (reconciler (fleet_with (ok (zoned "abc")))) {
  scope = record (scope {S = World}) {
    machine = record (scope {S = World}).machine { data_secret_name = some "boot" };
  };
}

abbrev tracker : Tracker World
tracker = record { is_deleting = λ s. (ok false, s); get_client = λ s. (err (api other "down"), s) }

abbrev formats : VmFormats
formats = record { hash = λ s. s; equal_fold = λ s t. s == t; format = λ n. "1"; fold = λ c. c }

-- A host that is to be deployed.
abbrev fresh : MaasMachine
fresh = record host {
  finalizers = machine_finalizer ∷ host_evacuation_finalizer ∷ [];
  deletion_timestamp = none;
}

abbrev no_match : String → Option String
no_match text = none

fresh_well : IsWellFormed fresh
fresh_well ready = cc ready

reconcile_machine-Keeps_example :
    IsWellFormed
      (reconcile_machine floats bootstrapped formats sort config_maps kube
        (λ id. maas)
        tracker
        (λ s. s)
        no_match
        (live fresh no_world)).1.maas_machine
reconcile_machine-Keeps_example =
    reconcile_machine-Keeps floats bootstrapped formats sort config_maps kube (λ id. maas) tracker
      (λ s. s) no_match (live fresh no_world) fresh_well

abbrev refuse : String → M (Live World) Instance
refuse user_data = fail (message "refused")

abbrev broken : Fleet World
broken = fleet_with (err (api other "no link"))

-- What is obtained, and the host with its id.
abbrev obtained : Result MachineDetails × Live World
obtained = obtain scope maas broken no_match refuse fresh (live fresh no_world)

-- The host after a deployment that failed.
abbrev released : Live World
released = (deploy_machine scope maas broken no_match refuse "data" (live fresh no_world)).1

-- The machine is being deleted.
dead : ¬ IsDeployable bootstrapped host
dead d = cc d.alive

reconcile_scoped-undeployed_example :
    reconcile_scoped bootstrapped kube (λ id. maas) tracker (λ s. s) refuse (live host no_world)
    ≡ reconcile_scoped bootstrapped kube
        (λ id. maas)
        tracker
        (λ s. s)
        (λ user_data. fail (message "another"))
        (live host no_world)
reconcile_scoped-undeployed_example =
    reconcile_scoped-undeployed bootstrapped kube (λ id. maas) tracker (λ s. s) refuse
      (λ user_data. fail (message "another")) (live host no_world) dead
