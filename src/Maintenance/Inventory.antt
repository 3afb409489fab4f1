-- ===== src/Maintenance/Inventory.antt =====
-- `InventoryService` of pkg/maas/maintenance/maintenance_interface.go and its implementation over
-- the MAAS client in common.go.
pub mod Laws
use cluster_api_provider_maa.Base.{
  String, Bool, true, false, List, [], ◌∷◌, ◌==◌, if◌then◌else◌, M, Result, ok, err, wrap, return,
  ◌>>=◌,
}
use cluster_api_provider_maa.Services.{Maas, MachineDetails}

-- `Machine`
pub record Machine : Type 0 where
  pub system_id : String
  pub host_system_id : String
  pub tags : List String
  pub zone : String
  pub resource_pool : String
  pub fqdn : String
  pub power_state : String
  pub power_type : String
  pub hostname : String
  pub ip_addresses : List String

pub machine_of_details : MachineDetails → Machine
machine_of_details d = record {
  system_id = d.system_id;
  host_system_id = d.parent;
  tags = d.tags;
  zone = d.zone_name;
  resource_pool = d.resource_pool_name;
  fqdn = d.fqdn;
  power_state = d.power_state;
  power_type = d.power_type;
  hostname = d.hostname;
  ip_addresses = d.ip_addresses;
}

-- A host has no parent of its own.
pub host_of_details : MachineDetails → Machine
unfolding machine_of_details
host_of_details d = record (machine_of_details d) { host_system_id = "" }

module _ {S : Type 0} (maas : Maas S) where
  -- One round of a loop over listed machines: a machine whose details cannot be read is passed over.
  pub collect_round :
      (MachineDetails → Bool)
      → Result MachineDetails × S
      → M S (List Machine)
      → Result (List Machine) × S
  unfolding machine_of_details
  collect_round wanted (err e, s) rest = rest s
  collect_round wanted (ok d, s) rest =
      if wanted d then ◌>>=◌ rest (λ vms. return (machine_of_details d ∷ vms)) s else rest s

  pub collect : (MachineDetails → Bool) → List String → M S (List Machine)
  unfolding collect_round
  collect wanted [] = return []
  collect wanted (id ∷ ids) =
      let rest = collect wanted ids in λ s. collect_round wanted (maas.get_machine id s) rest

  list_or_all : Result (List String) × S → Result (List String) × S
  list_or_all (ok ids, s) = (ok ids, s)
  list_or_all (err e, s) = wrap_list (maas.list_machines [] s)
    where
      wrap_list : Result (List String) × S → Result (List String) × S
      wrap_list (ok ids, s) = (ok ids, s)
      wrap_list (err e, s) = (err (wrap "failed to list machines" e), s)

  -- The machines that MAAS lists for the parent; all of them where it refuses the filter.
  pub list_children : String → M S (List String)
  unfolding list_or_all
  list_children host_system_id s =
      list_or_all (maas.list_machines (("parent", host_system_id) ∷ []) s)

  unfoldable pub list_host_vms : String → M S (List Machine)
  unfolding list_children collect
  list_host_vms host_system_id =
      list_children host_system_id >>= collect (λ d. d.parent == host_system_id)

  unfoldable pub list_all_vms : M S (List Machine)
  unfolding collect
  list_all_vms = maas.list_machines [] >>= collect (λ d. d.power_type == "lxd")

  hostname_round : String → Result MachineDetails × S → M S String → Result String × S
  hostname_round hostname (err e, s) rest = rest s
  hostname_round hostname (ok d, s) rest =
      if d.hostname == hostname then (ok d.system_id, s) else rest s

  find_hostname : String → List String → M S String
  unfolding hostname_round
  find_hostname hostname [] = return ""
  find_hostname hostname (id ∷ ids) =
      let rest = find_hostname hostname ids in
      λ s. hostname_round hostname (maas.get_machine id s) rest

  unfoldable pub resolve_system_id_by_hostname : String → M S String
  unfolding find_hostname
  resolve_system_id_by_hostname hostname =
      maas.list_machines (("hostname", hostname) ∷ []) >>= find_hostname hostname

  unfoldable pub get_machine : String → M S Machine
  unfolding machine_of_details
  get_machine system_id = maas.get_machine system_id >>= λ d. return (machine_of_details d)

  unfoldable pub get_host : String → M S Machine
  unfolding host_of_details
  get_host system_id = maas.get_machine system_id >>= λ d. return (host_of_details d)

  unfoldable pub get_vm_host_for_vm : String → M S String
  get_vm_host_for_vm vm_system_id = maas.get_machine vm_system_id >>= λ d. return d.parent

-- `GetVM` does what `GetMachine` does.
unfoldable pub get_vm : {S : Type 0} → Maas S → String → M S Machine
unfolding get_machine
get_vm maas = get_machine maas
