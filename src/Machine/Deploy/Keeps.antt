-- ===== src/Machine/Deploy/Keeps.antt =====
-- What deploying a machine leaves of its status: it changes the ids of the spec, and no more.
use cluster_api_provider_maa.Base.{
  ℕ, String, ◌<>◌, Option, none, some, ◌==◌, deref, contains_text, M, Result, ok, err, Error, wrap,
  error_text, return, fail, attempt, wrapping, ◌>>=◌, ◌>>◌,
}
use cluster_api_provider_maa.Services.{Maas, MachineDetails}
use cluster_api_provider_maa.Status.{Instance}
use cluster_api_provider_maa.Api.{MaasMachine}
use cluster_api_provider_maa.Fleet.{Fleet}
use cluster_api_provider_maa.Machine.Scope.{
  MachineScope, Live, lift, modify, set_spec, set_provider_id, get_instance_id, get_dynamic_lxd,
  patch_object,
}
use cluster_api_provider_maa.Machine.Scope.Keeps.{
  IsWellFormed, Keeps, >>=-Keeps, wrapping-Keeps, if-Keeps, choice-Keeps,
}
use cluster_api_provider_maa.Machine.Service.{from_sdk_type_to_machine}
use cluster_api_provider_maa.Machine.Deploy.{
  err_broken_machine, clear_ids, is_lxd_host_enabled, log_vm_host_diagnostics, allocate_params,
  is_rejected, keep_in_zone, keep_allocated, allocated, allocate_machine, keep_found,
  reuse_allocated, obtain, bridge_of, bridge_of_read, create_boot_interface_bridge, deploy_params,
  deploy_obtained, release_failed, deploy_or_release, deploy_allocated, deploy_machine,
}

module _ {S : Type 0} (sc : MachineScope S) (maas : Maas S) (fleet : Fleet S)
    (match_machine_id : String → Option String) (create_vm_via_maas : String → M (Live S) Instance)
    (creates : (user_data : String) → Keeps IsWellFormed (create_vm_via_maas user_data)) where
  keep_in_zone-Keeps :
      (d : MachineDetails) (zone : Option String)
      → Keeps IsWellFormed (keep_in_zone sc maas fleet match_machine_id create_vm_via_maas d zone)
  unfolding keep_in_zone patch_object
  keep_in_zone-Keeps d none = λ _ p. p
  keep_in_zone-Keeps d (some zone) =
      let store : M (Live S) (Unit {0}) =
        wrapping "unable to pathc machine with provider id" (patch_object sc) in
      >>=-Keeps IsWellFormed (modify (set_spec (set_provider_id d.system_id zone)))
        (λ _. store >> return d) (λ _ p. p)
        (λ _.
          >>=-Keeps IsWellFormed store (λ _. return d)
            (wrapping-Keeps IsWellFormed "unable to pathc machine with provider id"
              (patch_object sc) (λ _ p. p))
            (λ _ _ p. p))

  keep_allocated-Keeps :
      (d : MachineDetails)
      → Keeps IsWellFormed (keep_allocated sc maas fleet match_machine_id create_vm_via_maas d)
  unfolding keep_allocated
  keep_allocated-Keeps d =
      choice-Keeps IsWellFormed (is_rejected sc maas fleet match_machine_id create_vm_via_maas d)
        (attempt (lift (fleet.force_release d.system_id)) >>= λ _. fail err_broken_machine)
        (keep_in_zone sc maas fleet match_machine_id create_vm_via_maas d d.zone) (λ _ p. p)
        (keep_in_zone-Keeps d d.zone)

  broken-Keeps :
      (e : Error)
      → Keeps {A = MachineDetails} IsWellFormed (
          lift (log_vm_host_diagnostics sc maas fleet match_machine_id create_vm_via_maas e)
          >> fail err_broken_machine)
  broken-Keeps e =
      >>=-Keeps IsWellFormed
        (lift (log_vm_host_diagnostics sc maas fleet match_machine_id create_vm_via_maas e))
        (λ _. fail err_broken_machine) (λ _ p. p) (λ _ _ p. p)

  allocated-Keeps :
      (x : Result MachineDetails × Live S)
      → IsWellFormed x.1.maas_machine
      → IsWellFormed (allocated sc maas fleet match_machine_id create_vm_via_maas x).1.maas_machine
  unfolding allocated
  allocated-Keeps (ok d, l) p = keep_allocated-Keeps d l p
  allocated-Keeps (err e, l) p =
      if-Keeps IsWellFormed (contains_text (error_text e) "Invalid transition: Broken")
        (lift (log_vm_host_diagnostics sc maas fleet match_machine_id create_vm_via_maas e)
          >> fail err_broken_machine)
        (fail (wrap "Unable to allocate machine" e)) (broken-Keeps e) (λ _ p. p) l p

  allocate_machine-Keeps :
      (mm : MaasMachine) (cpu memory : Option ℕ)
      → Keeps IsWellFormed
          (allocate_machine sc maas fleet match_machine_id create_vm_via_maas mm cpu memory)
  unfolding allocate_machine
  allocate_machine-Keeps mm (some cpu) (some memory) = λ l p.
      allocated-Keeps
        (lift
          (fleet.allocate
            (allocate_params sc maas fleet match_machine_id create_vm_via_maas mm cpu memory))
          l)
        p
  allocate_machine-Keeps mm (some cpu) none = λ _ p. p
  allocate_machine-Keeps mm none memory = λ _ p. p

  keep_found-Keeps :
      (d : MachineDetails)
      → Keeps IsWellFormed (keep_found sc maas fleet match_machine_id create_vm_via_maas d)
  unfolding keep_found clear_ids patch_object
  keep_found-Keeps d =
      choice-Keeps IsWellFormed (is_rejected sc maas fleet match_machine_id create_vm_via_maas d)
        (attempt (lift (fleet.force_release d.system_id)) >>= λ _.
          modify (set_spec clear_ids) >>= λ _.
          attempt (patch_object sc) >>= λ _. fail err_broken_machine)
        (return d) (λ _ p. p) (λ _ p. p)

  reuse_allocated-Keeps :
      (id : Option String)
      → Keeps IsWellFormed (reuse_allocated sc maas fleet match_machine_id create_vm_via_maas id)
  unfolding reuse_allocated
  reuse_allocated-Keeps none = λ _ p. p
  reuse_allocated-Keeps (some id) =
      >>=-Keeps IsWellFormed
        (wrapping ("unable to find machine " <> id) (lift (maas.get_machine id)))
        (keep_found sc maas fleet match_machine_id create_vm_via_maas)
        (wrapping-Keeps IsWellFormed ("unable to find machine " <> id) (lift (maas.get_machine id))
          (λ _ p. p))
        keep_found-Keeps

  obtain-Keeps :
      (mm : MaasMachine)
      → Keeps IsWellFormed (obtain sc maas fleet match_machine_id create_vm_via_maas mm)
  unfolding obtain
  obtain-Keeps mm =
      choice-Keeps IsWellFormed (deref mm.spec.provider_id == "")
        (allocate_machine sc maas fleet match_machine_id create_vm_via_maas mm mm.spec.min_cpu
          mm.spec.min_memory_in_mb)
        (reuse_allocated sc maas fleet match_machine_id create_vm_via_maas (get_instance_id mm))
        (allocate_machine-Keeps mm mm.spec.min_cpu mm.spec.min_memory_in_mb)
        (reuse_allocated-Keeps (get_instance_id mm))

  bridge_of_read-Keeps :
      (id : String) (x : Result MachineDetails)
      → Keeps IsWellFormed (bridge_of_read sc maas fleet match_machine_id create_vm_via_maas id x)
  unfolding bridge_of_read bridge_of
  bridge_of_read-Keeps id (err e) = λ _ p. p
  bridge_of_read-Keeps id (ok d) =
      choice-Keeps IsWellFormed (d.boot_interface_type == "physical")
        (attempt (lift (fleet.create_boot_interface_bridge id "br0")) >>= λ _. return tt)
        (return tt) (λ _ p. p) (λ _ p. p)

  create_boot_interface_bridge-Keeps :
      (id : String)
      → Keeps IsWellFormed
          (create_boot_interface_bridge sc maas fleet match_machine_id create_vm_via_maas id)
  unfolding create_boot_interface_bridge
  create_boot_interface_bridge-Keeps id =
      choice-Keeps IsWellFormed
        (is_lxd_host_enabled sc maas fleet match_machine_id create_vm_via_maas)
        (attempt (lift (maas.get_machine id))
          >>= bridge_of_read sc maas fleet match_machine_id create_vm_via_maas id)
        (return tt)
        (>>=-Keeps IsWellFormed (attempt (lift (maas.get_machine id)))
          (bridge_of_read sc maas fleet match_machine_id create_vm_via_maas id) (λ _ p. p)
          (bridge_of_read-Keeps id))
        (λ _ p. p)

  deploy_obtained-Keeps :
      (user_data : String) (mm : MaasMachine) (d : MachineDetails)
      → Keeps IsWellFormed
          (deploy_obtained sc maas fleet match_machine_id create_vm_via_maas user_data mm d)
  unfolding deploy_obtained
  deploy_obtained-Keeps user_data mm d =
      let unswapped =
        wrapping "Unable to disable swap" (lift (fleet.set_swap_size d.system_id 0)) in
      let deploying : M (Live S) MachineDetails = lift (
        fleet.deploy d.system_id
          (deploy_params sc maas fleet match_machine_id create_vm_via_maas user_data mm)) in
      >>=-Keeps IsWellFormed unswapped
        (λ _. wrapping "Unable to deploy machine" deploying >>= λ deployed.
          return (from_sdk_type_to_machine deployed))
        (wrapping-Keeps IsWellFormed "Unable to disable swap"
          (lift (fleet.set_swap_size d.system_id 0)) (λ _ p. p))
        (λ _.
          >>=-Keeps IsWellFormed (wrapping "Unable to deploy machine" deploying)
            (λ deployed. return (from_sdk_type_to_machine deployed))
            (wrapping-Keeps IsWellFormed "Unable to deploy machine" deploying (λ _ p. p))
            (λ _ _ p. p))

  release_failed-Keeps :
      (d : MachineDetails) (x : Result Instance × Live S)
      → IsWellFormed x.1.maas_machine
      → IsWellFormed
          (release_failed sc maas fleet match_machine_id create_vm_via_maas d x).1.maas_machine
  unfolding release_failed clear_ids patch_object
  release_failed-Keeps d (ok i, l) p = p
  release_failed-Keeps d (err e, l) p = p

  deploy_allocated-Keeps :
      (user_data : String) (mm : MaasMachine)
      → Keeps IsWellFormed
          (deploy_allocated sc maas fleet match_machine_id create_vm_via_maas user_data mm)
  unfolding deploy_allocated deploy_or_release
  deploy_allocated-Keeps user_data mm =
      >>=-Keeps IsWellFormed (obtain sc maas fleet match_machine_id create_vm_via_maas mm)
        (λ d.
          create_boot_interface_bridge sc maas fleet match_machine_id create_vm_via_maas d.system_id
          >>= λ _.
              deploy_or_release sc maas fleet match_machine_id create_vm_via_maas user_data mm d)
        (obtain-Keeps mm)
        (λ d.
          >>=-Keeps IsWellFormed
            (create_boot_interface_bridge sc maas fleet match_machine_id create_vm_via_maas
              d.system_id)
            (λ _.
              deploy_or_release sc maas fleet match_machine_id create_vm_via_maas user_data mm d)
            (create_boot_interface_bridge-Keeps d.system_id)
            (λ _ l p.
              release_failed-Keeps d
                (deploy_obtained sc maas fleet match_machine_id create_vm_via_maas user_data mm d l)
                (deploy_obtained-Keeps user_data mm d l p)))

  -- Deploying a machine keeps it well-formed, where creating a VM does.
  pub deploy_machine-Keeps :
      (user_data : String)
      → Keeps IsWellFormed
          (deploy_machine sc maas fleet match_machine_id create_vm_via_maas user_data)
  unfolding deploy_machine
  deploy_machine-Keeps user_data l =
      choice-Keeps IsWellFormed (get_dynamic_lxd l.maas_machine) (create_vm_via_maas user_data)
        (deploy_allocated sc maas fleet match_machine_id create_vm_via_maas user_data
          l.maas_machine)
        (creates user_data) (deploy_allocated-Keeps user_data l.maas_machine) l
