-- ===== src/Machine/Compose/Keeps.antt =====
-- What composing and deploying a VM leaves of a machine's status: it changes the spec, an annotation
-- and the conditions.
use cluster_api_provider_maa.Base.{
  ℕ, String, ◌<>◌, Bool, List, [], Option, none, some, ◌==◌, deref, if◌then◌else◌, M, Result, ok,
  err, Error, wrap, return, fail, attempt, wrapping, ◌>>=◌, ◌>>◌, keep_first,
}
use cluster_api_provider_maa.Services.{read_data, Maas, MachineDetails, ConfigMaps}
use cluster_api_provider_maa.Status.{
  Instance, condition_false, machine_deployed_condition, machine_deploying_reason,
}
use cluster_api_provider_maa.Api.{MaasMachine}
use cluster_api_provider_maa.Fleet.{Fleet, VmHost}
use cluster_api_provider_maa.Lxd.{Floats, Candidate, select_lxd_host}
use cluster_api_provider_maa.Machine.Scope.{
  MachineScope, Live, lift, modify, set_status, set_condition, get_instance_id, patch_object,
}
use cluster_api_provider_maa.Machine.Scope.Keeps.{
  IsWellFormed, Keeps, >>=-Keeps, wrapping-Keeps, if-Keeps, choice-Keeps,
}
use cluster_api_provider_maa.Machine.Service.{from_sdk_type_to_machine}
use cluster_api_provider_maa.Machine.Vm.{
  VmFormats, with_zone, tag_control_plane, derive_cluster_id, store_ids, reuse_existing_vm,
  wanted_zone, deploy_existing,
}
use cluster_api_provider_maa.Machine.Compose.{
  err_vm_composing, vm_name_annotation, annotate_name, select_options, existing_vm, vm_name,
  named_among, reuse_or, reuse_named, is_name_taken, record_composed, composed, compose_params,
  compose_in, compose_on, select_and_compose, compose_vm, prepare_at, prepare_lxd_vm,
  compose_and_wait, create_at, create_vm_via_maas,
}
use cluster_api_provider_maa.Machine.Vm.Keeps.{
  store_ids-Keeps, tag_control_plane-Keeps, deploy_existing-Keeps,
}

module _ (floats : Floats) {S : Type 0} (sc : MachineScope S) (f : VmFormats)
    (sort : (Candidate floats → Candidate floats → Bool)
      → List (Candidate floats)
      → List (Candidate floats))
    (configs : ConfigMaps S) (maas : Maas S) (fleet : Fleet S) where
  existing_vm-Keeps :
      (id : String) → Keeps IsWellFormed (existing_vm floats sc f sort configs maas fleet id)
  unfolding existing_vm
  existing_vm-Keeps id =
      >>=-Keeps IsWellFormed
        (wrapping "failed to get existing VM by system-id (pre-bootstrap)"
          (lift (maas.get_machine id)))
        (λ d. return (from_sdk_type_to_machine d))
        (wrapping-Keeps IsWellFormed "failed to get existing VM by system-id (pre-bootstrap)"
          (lift (maas.get_machine id)) (λ _ p. p))
        (λ _ _ p. p)

  vm_name-Keeps :
      (mm : MaasMachine) → Keeps IsWellFormed (vm_name floats sc f sort configs maas fleet mm)
  unfolding vm_name annotate_name patch_object
  vm_name-Keeps mm =
      let kept = read_data mm.annotations vm_name_annotation in
      let name = "vm-" <> (sc.machine.name <> ("-" <> keep_first 5 sc.machine.uid)) in
      choice-Keeps IsWellFormed (kept == "")
        (modify (annotate_name name) >>= λ _. attempt (patch_object sc) >>= λ _. return name)
        (return kept) (λ _ p. p) (λ _ p. p)

  reuse_or-Keeps :
      (zone : String) (otherwise : M (Live S) Instance) (found : Option MachineDetails)
      → Keeps IsWellFormed otherwise
      → Keeps IsWellFormed (reuse_or floats sc f sort configs maas fleet zone otherwise found)
  unfolding reuse_or reuse_existing_vm store_ids patch_object
  reuse_or-Keeps zone otherwise none keeps = keeps
  reuse_or-Keeps zone otherwise (some d) keeps = λ _ p. p

  reuse_named-Keeps :
      (zone name : String) (host : VmHost) (e : Error)
      → Keeps IsWellFormed (reuse_named floats sc f sort configs maas fleet zone name host e)
  unfolding reuse_named
  reuse_named-Keeps zone name host e =
      let refused : M (Live S) Instance = fail (wrap "failed to compose VM on LXD host" e) in
      let guests : M (Live S) (Option MachineDetails) = lift (λ s.
        named_among floats sc f sort configs maas fleet name
          (fleet.list_guests host.system_id s)) in
      >>=-Keeps IsWellFormed
        (lift (λ s. named_among floats sc f sort configs maas fleet name (maas.list_machines [] s)))
        (reuse_or floats sc f sort configs maas fleet zone
          (guests >>= reuse_or floats sc f sort configs maas fleet zone refused))
        (λ _ p. p)
        (λ found.
          reuse_or-Keeps zone (guests >>= reuse_or floats sc f sort configs maas fleet zone refused)
            found
            (>>=-Keeps IsWellFormed guests
              (reuse_or floats sc f sort configs maas fleet zone refused) (λ _ p. p)
              (λ found. reuse_or-Keeps zone refused found (λ _ p. p))))

  record_composed-Keeps :
      (zone : String) (d : MachineDetails)
      → Keeps IsWellFormed (record_composed floats sc f sort configs maas fleet zone d)
  unfolding record_composed
  record_composed-Keeps zone d =
      let stored =
        store_ids floats sc f sort configs maas fleet d.system_id zone
        >> tag_control_plane floats sc f sort configs maas fleet d.system_id in
      >>=-Keeps IsWellFormed (if d.system_id == "" then return tt else stored)
        (λ _. return (with_zone zone (from_sdk_type_to_machine d)))
        (choice-Keeps IsWellFormed (d.system_id == "") (return tt) stored (λ _ p. p)
          (>>=-Keeps IsWellFormed (store_ids floats sc f sort configs maas fleet d.system_id zone)
            (λ _. tag_control_plane floats sc f sort configs maas fleet d.system_id)
            (store_ids-Keeps floats sc f sort configs maas fleet d.system_id zone)
            (λ _. tag_control_plane-Keeps floats sc f sort configs maas fleet d.system_id)))
        (λ _ _ p. p)

  composed-Keeps :
      (zone name : String) (host : VmHost) (x : Result MachineDetails × Live S)
      → IsWellFormed x.1.maas_machine
      → IsWellFormed (composed floats sc f sort configs maas fleet zone name host x).1.maas_machine
  unfolding composed
  composed-Keeps zone name host (ok d, l) p = record_composed-Keeps zone d l p
  composed-Keeps zone name host (err e, l) p =
      if-Keeps IsWellFormed (is_name_taken floats sc f sort configs maas fleet e)
        (reuse_named floats sc f sort configs maas fleet zone name host e)
        (fail (wrap "failed to compose VM on LXD host" e)) (reuse_named-Keeps zone name host e)
        (λ _ p. p) l p

  compose_in-Keeps :
      (mm : MaasMachine) (name : String) (host : VmHost) (zone pool : Option (String × ℕ))
      → Keeps IsWellFormed (compose_in floats sc f sort configs maas fleet mm name host zone pool)
  unfolding compose_in
  compose_in-Keeps mm name host none pool = λ _ p. p
  compose_in-Keeps mm name host (some zone) none = λ _ p. p
  compose_in-Keeps mm name host (some (zone, zone_id)) (some (pool, pool_id)) = λ l p.
      composed-Keeps (wanted_zone floats sc f sort configs maas fleet mm) name host
        (lift
          (fleet.compose host.system_id
            (compose_params floats sc f sort configs maas fleet mm name zone_id pool_id))
          l)
        p

  select_and_compose-Keeps :
      (mm : MaasMachine) (name : String) (hosts : List VmHost)
      → Keeps IsWellFormed (select_and_compose floats sc f sort configs maas fleet mm name hosts)
  unfolding select_and_compose compose_on
  select_and_compose-Keeps mm name hosts =
      let cluster_id =
        if sc.machine.is_control_plane
        then derive_cluster_id floats sc f sort configs maas fleet
        else "" in
      let selection : M (Live S) VmHost = lift (
        select_lxd_host floats sc.lower sc.trim_space f.fold sort maas fleet hosts
          (select_options (wanted_zone floats sc f sort configs maas fleet mm) cluster_id mm)) in
      >>=-Keeps IsWellFormed (wrapping "failed to select LXD VM host" selection)
        (compose_on floats sc f sort configs maas fleet mm name)
        (wrapping-Keeps IsWellFormed "failed to select LXD VM host" selection (λ _ p. p))
        (λ host. compose_in-Keeps mm name host host.zone host.resource_pool)

  compose_vm-Keeps :
      (mm : MaasMachine) → Keeps IsWellFormed (compose_vm floats sc f sort configs maas fleet mm)
  unfolding compose_vm
  compose_vm-Keeps mm =
      let listed = wrapping "failed to list LXD VM hosts" (lift fleet.list_vm_hosts) in
      >>=-Keeps IsWellFormed (vm_name floats sc f sort configs maas fleet mm)
        (λ name. listed >>= select_and_compose floats sc f sort configs maas fleet mm name)
        (vm_name-Keeps mm)
        (λ name.
          >>=-Keeps IsWellFormed listed
            (select_and_compose floats sc f sort configs maas fleet mm name)
            (wrapping-Keeps IsWellFormed "failed to list LXD VM hosts" (lift fleet.list_vm_hosts)
              (λ _ p. p))
            (select_and_compose-Keeps mm name))

  prepare_at-Keeps :
      (mm : MaasMachine) (id : Option String)
      → Keeps IsWellFormed (prepare_at floats sc f sort configs maas fleet mm id)
  unfolding prepare_at
  prepare_at-Keeps mm none = compose_vm-Keeps mm
  prepare_at-Keeps mm (some id) =
      choice-Keeps IsWellFormed (id == "") (compose_vm floats sc f sort configs maas fleet mm)
        (existing_vm floats sc f sort configs maas fleet id) (compose_vm-Keeps mm)
        (existing_vm-Keeps id)

  prepare_lxd_vm-Keeps : Keeps IsWellFormed (prepare_lxd_vm floats sc f sort configs maas fleet)
  unfolding prepare_lxd_vm
  prepare_lxd_vm-Keeps l =
      choice-Keeps IsWellFormed (deref l.maas_machine.spec.system_id == "")
        (prepare_at floats sc f sort configs maas fleet l.maas_machine
          (get_instance_id l.maas_machine))
        (existing_vm floats sc f sort configs maas fleet (deref l.maas_machine.spec.system_id))
        (prepare_at-Keeps l.maas_machine (get_instance_id l.maas_machine))
        (existing_vm-Keeps (deref l.maas_machine.spec.system_id)) l

  compose_and_wait-Keeps : Keeps IsWellFormed (compose_and_wait floats sc f sort configs maas fleet)
  unfolding compose_and_wait patch_object
  compose_and_wait-Keeps =
      >>=-Keeps IsWellFormed
        (wrapping "compose failed prior to deploy"
          (prepare_lxd_vm floats sc f sort configs maas fleet))
        (λ _.
          modify (
            set_status (
              set_condition sc.conditions machine_deployed_condition condition_false
                machine_deploying_reason "VM composed; commissioning"))
          >>= λ _. attempt (patch_object sc) >>= λ _. fail err_vm_composing)
        (wrapping-Keeps IsWellFormed "compose failed prior to deploy"
          (prepare_lxd_vm floats sc f sort configs maas fleet) prepare_lxd_vm-Keeps)
        (λ _ _ p. p)

  create_at-Keeps :
      (user_data : String) (mm : MaasMachine) (id : Option String)
      → Keeps IsWellFormed (create_at floats sc f sort configs maas fleet user_data mm id)
  unfolding create_at
  create_at-Keeps user_data mm none = compose_and_wait-Keeps
  create_at-Keeps user_data mm (some id) =
      let read = wrapping "failed to get existing VM by system-id" (lift (maas.get_machine id)) in
      choice-Keeps IsWellFormed (id == "") (compose_and_wait floats sc f sort configs maas fleet)
        (read >>= deploy_existing floats sc f sort configs maas fleet user_data mm)
        compose_and_wait-Keeps
        (>>=-Keeps IsWellFormed read
          (deploy_existing floats sc f sort configs maas fleet user_data mm)
          (wrapping-Keeps IsWellFormed "failed to get existing VM by system-id"
            (lift (maas.get_machine id)) (λ _ p. p))
          (deploy_existing-Keeps floats sc f sort configs maas fleet user_data mm))

  -- Composing or deploying a VM keeps a machine well-formed.
  pub create_vm_via_maas-Keeps :
      (user_data : String)
      → Keeps IsWellFormed (create_vm_via_maas floats sc f sort configs maas fleet user_data)
  unfolding create_vm_via_maas
  create_vm_via_maas-Keeps user_data l =
      create_at-Keeps user_data l.maas_machine (get_instance_id l.maas_machine) l
