-- ===== src/Machine/Deploy.antt =====
-- `DeployMachine` of pkg/maas/machine/machine.go: a machine that MAAS allocates or that was allocated
-- before is deployed, or a VM is created. A nil pointer that the source dereferences is a panic, which
-- the controller runtime makes an error of; `match_machine_id` is what a regular expression finds of a
-- system id in the text of an error.
pub mod Keeps
pub mod Laws
use cluster_api_provider_maa.Base.{
  ℕ, String, ◌<>◌, Bool, ◌&&◌, ◌||◌, Option, none, some, ◌==◌, deref, if◌then◌else◌, contains_text,
  M, Result, ok, err, Error, sentinel, wrap, error_text, return, fail, attempt, wrapping, ◌>>=◌,
  ◌>>◌,
}
use cluster_api_provider_maa.Services.{Maas, MachineDetails}
use cluster_api_provider_maa.Status.{Instance}
use cluster_api_provider_maa.Api.{MaasMachine, MaasMachineSpec, is_hcp_maas_cluster}
use cluster_api_provider_maa.Fleet.{Fleet, AllocateParams, DeployParams}
use cluster_api_provider_maa.Machine.Scope.{
  MachineScope, Live, lift, current, modify, set_spec, set_provider_id, get_instance_id,
  get_dynamic_lxd, patch_object,
}
use cluster_api_provider_maa.Machine.Service.{split_image, from_sdk_type_to_machine}
use cluster_api_provider_maa.Machine.Compose.{nil_pointer}

abbrev pub err_broken_machine : Error
err_broken_machine = sentinel "ErrBrokenMachine" "broken machine encountered"

-- The power types of virtual machines.
unfoldable pub is_vm_power_type : String → Bool
is_vm_power_type pt = pt == "lxd" || pt == "lxdvm" || pt == "virsh"

-- The ids are taken off, so that the next reconcile allocates anew.
unfoldable pub clear_ids : MaasMachineSpec → MaasMachineSpec
clear_ids spec = record spec { provider_id = none; system_id = none }

-- A name that is not empty.
non_empty : String → Option String
non_empty s = if s == "" then none else some s

zone_or : Option String → String → Option String
unfolding non_empty
zone_or none zone = non_empty zone
zone_or (some zone) other = some zone

module _ {S : Type 0} (sc : MachineScope S) (maas : Maas S) (fleet : Fleet S)
    (match_machine_id : String → Option String)
    (create_vm_via_maas : String → M (Live S) Instance) where
  -- `IsLXDHostEnabled`
  unfoldable pub is_lxd_host_enabled : Bool
  is_lxd_host_enabled = is_hcp_maas_cluster sc.maas_cluster

  force_release_matched : Option String → M S (Unit {0})
  force_release_matched none = return tt
  force_release_matched (some id) = attempt (fleet.force_release id) >>= λ _. return tt

  -- `logVMHostDiagnostics`, but for its log lines.
  unfoldable pub log_vm_host_diagnostics : Error → M S (Unit {0})
  unfolding force_release_matched
  log_vm_host_diagnostics e = force_release_matched (match_machine_id (error_text e))

  unfoldable pub allocate_params : MaasMachine → ℕ → ℕ → AllocateParams
  unfolding zone_or is_lxd_host_enabled
  allocate_params mm cpu memory = record {
    cpu_count = cpu;
    memory = memory;
    zone = zone_or mm.spec.failure_domain sc.machine.failure_domain;
    resource_pool = mm.spec.resource_pool;
    not_pod = is_lxd_host_enabled;
    not_pod_type = if is_lxd_host_enabled then some "lxd" else none;
    tags = mm.spec.tags;
  }

  -- A virtual machine is no host of an HCP cluster.
  unfoldable pub is_rejected : MachineDetails → Bool
  unfolding is_lxd_host_enabled is_vm_power_type
  is_rejected d = is_lxd_host_enabled && is_vm_power_type (sc.lower d.power_type)

  unfoldable pub keep_in_zone : MachineDetails → Option String → M (Live S) MachineDetails
  keep_in_zone d none = fail nil_pointer
  keep_in_zone d (some zone) =
      modify (set_spec (set_provider_id d.system_id zone))
      >> (wrapping "unable to pathc machine with provider id" (patch_object sc) >> return d)

  unfoldable pub keep_allocated : MachineDetails → M (Live S) MachineDetails
  unfolding is_rejected keep_in_zone
  keep_allocated d =
      if is_rejected d
      then (attempt (lift (fleet.force_release d.system_id)) >>= λ _. fail err_broken_machine)
      else keep_in_zone d d.zone

  unfoldable pub allocated : Result MachineDetails × Live S → Result MachineDetails × Live S
  unfolding keep_allocated log_vm_host_diagnostics
  allocated (ok d, l) = keep_allocated d l
  allocated (err e, l) =
      if contains_text (error_text e) "Invalid transition: Broken"
      then (lift (log_vm_host_diagnostics e) >> fail err_broken_machine) l
      else (err (wrap "Unable to allocate machine" e), l)

  unfoldable pub allocate_machine : MaasMachine → Option ℕ → Option ℕ → M (Live S) MachineDetails
  unfolding allocate_params allocated
  allocate_machine mm (some cpu) (some memory) =
      λ l. allocated (lift (fleet.allocate (allocate_params mm cpu memory)) l)
  allocate_machine mm _ _ = fail nil_pointer

  -- The machine of an earlier reconcile; where it is rejected, its ids are taken off.
  unfoldable pub keep_found : MachineDetails → M (Live S) MachineDetails
  unfolding is_rejected clear_ids
  keep_found d =
      if is_rejected d
      then (attempt (lift (fleet.force_release d.system_id)) >>= λ _.
          modify (set_spec clear_ids) >>= λ _.
          attempt (patch_object sc) >>= λ _. fail err_broken_machine)
      else return d

  unfoldable pub reuse_allocated : Option String → M (Live S) MachineDetails
  unfolding keep_found
  reuse_allocated none = fail nil_pointer
  reuse_allocated (some id) =
      wrapping ("unable to find machine " <> id) (lift (maas.get_machine id)) >>= keep_found

  unfoldable pub obtain : MaasMachine → M (Live S) MachineDetails
  unfolding allocate_machine reuse_allocated
  obtain mm =
      if deref mm.spec.provider_id == ""
      then allocate_machine mm mm.spec.min_cpu mm.spec.min_memory_in_mb
      else reuse_allocated (get_instance_id mm)

  unfoldable pub bridge_of : String → MachineDetails → M (Live S) (Unit {0})
  bridge_of system_id d =
      if d.boot_interface_type == "physical"
      then (attempt (lift (fleet.create_boot_interface_bridge system_id "br0")) >>= λ _. return tt)
      else return tt

  unfoldable pub bridge_of_read : String → Result MachineDetails → M (Live S) (Unit {0})
  unfolding bridge_of
  bridge_of_read system_id (ok d) = bridge_of system_id d
  bridge_of_read system_id (err e) = fail nil_pointer

  -- `createBootInterfaceBridge`, whose errors are passed over.
  unfoldable pub create_boot_interface_bridge : String → M (Live S) (Unit {0})
  unfolding bridge_of_read
  create_boot_interface_bridge system_id =
      if is_lxd_host_enabled
      then (attempt (lift (maas.get_machine system_id)) >>= bridge_of_read system_id)
      else return tt

  unfoldable pub deploy_params : String → MaasMachine → DeployParams
  deploy_params user_data mm = record {
    user_data = user_data;
    os_system = (split_image mm.spec.image).0;
    distro_series = (split_image mm.spec.image).1;
    ephemeral_deploy = mm.spec.deploy_in_memory;
  }

  -- The machine is deployed without swap.
  unfoldable pub deploy_obtained : String → MaasMachine → MachineDetails → M (Live S) Instance
  unfolding deploy_params
  deploy_obtained user_data mm d =
      wrapping "Unable to disable swap" (lift (fleet.set_swap_size d.system_id 0)) >>= λ _.
      wrapping "Unable to deploy machine"
        (lift (fleet.deploy d.system_id (deploy_params user_data mm)))
      >>= λ deploying. return (from_sdk_type_to_machine deploying)

  -- The deferred function: a machine that was not deployed is released, and its ids are taken off.
  unfoldable pub release_failed :
      MachineDetails → Result Instance × Live S → Result Instance × Live S
  unfolding clear_ids
  release_failed d (ok i, l) = (ok i, l)
  release_failed d (err e, l) =
      (attempt (lift (fleet.release d.system_id)) >>= λ _.
      modify (set_spec clear_ids) >>= λ _. attempt (patch_object sc) >>= λ _. fail e)
        l

  -- From the machine that was obtained on.
  unfoldable pub deploy_or_release : String → MaasMachine → MachineDetails → M (Live S) Instance
  unfolding release_failed deploy_obtained
  deploy_or_release user_data mm d l = release_failed d (deploy_obtained user_data mm d l)

  unfoldable pub deploy_allocated : String → MaasMachine → M (Live S) Instance
  unfolding obtain
  deploy_allocated user_data mm = obtain mm >>= λ d.
      create_boot_interface_bridge d.system_id >>= λ _. deploy_or_release user_data mm d

  -- `DeployMachine`
  unfoldable pub deploy_machine : String → M (Live S) Instance
  unfolding deploy_allocated
  deploy_machine user_data = current >>= λ mm.
      if get_dynamic_lxd mm then create_vm_via_maas user_data else deploy_allocated user_data mm
