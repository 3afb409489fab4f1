-- ===== src/Machine/Deploy/Laws.antt =====
-- What a deployment that fails leaves for the next one.
use cluster_api_provider_maa.Base.{◌≡◌, String, Option, none, M}
use cluster_api_provider_maa.Services.{Maas}
use cluster_api_provider_maa.Status.{Instance}
use cluster_api_provider_maa.Fleet.{Fleet}
use cluster_api_provider_maa.Machine.Scope.{MachineScope, Live, get_instance_id}
use cluster_api_provider_maa.Machine.Deploy.{obtain, allocate_machine}

module _ {S : Type 0} (sc : MachineScope S) (maas : Maas S) (fleet : Fleet S)
    (match_machine_id : String → Option String)
    (create_vm_via_maas : String → M (Live S) Instance) where
  -- Nothing is known of a machine without ids, so a deployment allocates one.
  AllocatesNext : Live S → Type 0
  AllocatesNext l =
      (get_instance_id l.maas_machine ≡ none)
      × (obtain sc maas fleet match_machine_id create_vm_via_maas l.maas_machine
          ≡ allocate_machine sc maas fleet match_machine_id create_vm_via_maas l.maas_machine
              l.maas_machine.spec.min_cpu l.maas_machine.spec.min_memory_in_mb)
