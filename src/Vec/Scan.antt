-- ===== src/Vec/Scan.antt =====
-- The scan of `VMEvacuationReconciler` in controllers/vmevacuation_controller.go for control-plane
-- machines on hosts under maintenance, and the provider id of pkg/maas/scope/machine.go.
pub mod Laws
use Prim.Native.Char.{code}
use cluster_api_provider_maa.Base.{
  ℕ, String, ◌<>◌, Bool, true, false, not, ◌&&◌, ◌||◌, List, [], ◌∷◌, Option, none, some, ◌==◌,
  deref, nat_beq, if◌then◌else◌, has_prefix, trim_prefix, M, Result, ok, err, message, wrap, return,
  fail, attempt, wrapping, ◌>>=◌, ◌>>◌,
}
use cluster_api_provider_maa.Services.{Maas, MachineDetails, Runtime, Codec}
use cluster_api_provider_maa.Kube.{Kube, CapiMachine, Cluster, ClusterApi}
use cluster_api_provider_maa.Api.{MaasMachine}
use cluster_api_provider_maa.Maintenance.Tags.{
  tag_host_maintenance, tag_host_no_schedule, tag_host_op_prefix,
}
use cluster_api_provider_maa.Maintenance.Session.{status_active}
use cluster_api_provider_maa.Vec.Session.{save_maintenance_session}

-- `SetProviderID` of the machine scope.
unfoldable pub provider_id_of : String → String → String
provider_id_of system_id availability_zone = "maas:///" <> (availability_zone <> ("/" <> system_id))

-- The last part of a text that is split at `/`, where there are two parts.
unfoldable pub last_part : String → Option String
last_part String.[] = none
last_part (String.◌∷◌ c s) = elim (last_part s) [
  | some part ↦ some part
  | none ↦ if nat_beq (code c) b'/' then some s else none
]

unfoldable pub extract_system_id_from_provider_id : String → String
unfolding last_part
extract_system_id_from_provider_id provider_id = deref (last_part provider_id)

-- `cpMachineOnMaintenanceHost`
pub record CpMachineOnMaintenanceHost : Type 0 where
  pub machine : CapiMachine
  pub host_system_id : String
  pub op_id : String

-- The loop over a host's tags: the two static tags, and the operation id of the last tag that has
-- the prefix.
unfoldable pub scan_host_tags : List String → Bool × Bool × String → Bool × Bool × String
scan_host_tags [] found = found
scan_host_tags (tag ∷ tags) (has_maintenance, has_no_schedule, op_id) = scan_host_tags tags (
  tag == tag_host_maintenance || has_maintenance,
  tag == tag_host_no_schedule || has_no_schedule,
  (if has_prefix tag tag_host_op_prefix then trim_prefix tag tag_host_op_prefix else op_id),
)

-- The operation id, where the tags say that the host is under maintenance.
op_id_of_scan : Bool × Bool × String → Option String
op_id_of_scan (has_maintenance, has_no_schedule, op_id) =
    if has_maintenance && has_no_schedule && not (op_id == "") then some op_id else none

unfoldable pub maintenance_op_id : List String → Option String
unfolding scan_host_tags op_id_of_scan
maintenance_op_id tags = op_id_of_scan (scan_host_tags tags (false, false, ""))

module _ {S : Type 0} (c : Codec) (k : Kube S) (r : Runtime S) (api : ClusterApi S)
    (maas : Maas S) where
  parent_of : String → MachineDetails → M S String
  parent_of vm_system_id d =
      if d.parent == ""
      then fail (message ("VM " <> (vm_system_id <> " has no parent host")))
      else return d.parent

  unfoldable pub get_vm_host_system_id : String → M S String
  unfolding parent_of
  get_vm_host_system_id vm_system_id =
      wrapping "failed to get VM machine details" (maas.get_machine vm_system_id)
      >>= parent_of vm_system_id

  -- An error of saving the session is passed over.
  note_host :
      String → CapiMachine → String → Option String → M S (Option CpMachineOnMaintenanceHost)
  note_host namespace machine host_system_id none = return none
  note_host namespace machine host_system_id (some op_id) =
      attempt
        (save_maintenance_session c k.config_maps r namespace op_id host_system_id status_active)
      >>= λ _.
          return
            (some (record { machine = machine; host_system_id = host_system_id; op_id = op_id }))

  check_host :
      String
      → CapiMachine
      → String
      → Result MachineDetails × S
      → Result (Option CpMachineOnMaintenanceHost) × S
  unfolding note_host
  check_host namespace machine host (err e, s) = (ok none, s)
  check_host namespace machine host (ok d, s) =
      note_host namespace machine host (maintenance_op_id d.tags) s

  check_vm_host :
      String → CapiMachine → Result String × S → Result (Option CpMachineOnMaintenanceHost) × S
  unfolding check_host
  check_vm_host namespace machine (err e, s) = (ok none, s)
  check_vm_host namespace machine (ok host, s) =
      check_host namespace machine host (maas.get_machine host s)

  check_maas_machine :
      String → CapiMachine → Result MaasMachine × S → Result (Option CpMachineOnMaintenanceHost) × S
  unfolding check_vm_host
  check_maas_machine namespace machine (err e, s) = (ok none, s)
  check_maas_machine namespace machine (ok m, s) =
      let vm_system_id = extract_system_id_from_provider_id (deref m.spec.provider_id) in
      if vm_system_id == ""
      then (ok none, s)
      else check_vm_host namespace machine (get_vm_host_system_id vm_system_id s)

  -- One round of the loop over the machines.
  unfoldable pub check_cp_machine : String → CapiMachine → M S (Option CpMachineOnMaintenanceHost)
  unfolding check_maas_machine
  check_cp_machine namespace machine s =
      if machine.is_deleting || machine.infrastructure_name == ""
      then (ok none, s)
      else check_maas_machine namespace machine
          (k.get_maas_machine machine.namespace machine.infrastructure_name s)

  add_found :
      Option CpMachineOnMaintenanceHost
      → List CpMachineOnMaintenanceHost
      → List CpMachineOnMaintenanceHost
  add_found none infos = infos
  add_found (some info) infos = info ∷ infos

  unfoldable pub check_cp_machines :
      String → List CapiMachine → M S (List CpMachineOnMaintenanceHost)
  unfolding add_found
  check_cp_machines namespace [] = return []
  check_cp_machines namespace (machine ∷ machines) =
      let rest = check_cp_machines namespace machines in
      do found ← check_cp_machine namespace machine; infos ← rest; return (add_found found infos)

  unfoldable pub find_cp_machines_on_maintenance_hosts :
      Cluster → M S (List CpMachineOnMaintenanceHost)
  find_cp_machines_on_maintenance_hosts cluster =
      wrapping "failed to list machines" (api.list_cp_machines cluster.namespace cluster.name)
      >>= check_cp_machines cluster.namespace
