-- ===== src/Machine/Compose.antt =====
-- The composition of a VM on an LXD host in pkg/maas/machine/machine.go. A nil pointer that the source dereferences is a panic, which the
-- controller runtime makes an error of.
pub mod Keeps
use cluster_api_provider_maa.Base.{
  ℕ, String, ◌<>◌, Bool, ◌&&◌, List, [], ◌∷◌, Option, none, some, ◌==◌, deref, if◌then◌else◌,
  contains_text, keep_first, M, Result, ok, err, Error, message, sentinel, wrap, error_text, return,
  fail, attempt, wrapping, ◌>>=◌, ◌>>◌,
}
use cluster_api_provider_maa.Services.{Maas, MachineDetails, ConfigMaps, put, read_data}
use cluster_api_provider_maa.Status.{
  Instance, condition_false, machine_deployed_condition, machine_deploying_reason,
}
use cluster_api_provider_maa.Api.{MaasMachine}
use cluster_api_provider_maa.Fleet.{Fleet, VmHost}
use cluster_api_provider_maa.Lxd.{SelectOptions, Floats, Candidate, select_lxd_host}
use cluster_api_provider_maa.Machine.Scope.{
  MachineScope, Live, lift, current, modify, set_status, set_condition, get_instance_id,
  patch_object,
}
use cluster_api_provider_maa.Machine.Service.{from_sdk_type_to_machine}
use cluster_api_provider_maa.Machine.Vm.{
  VmFormats, with_zone, positive, disk_size_of, derive_cluster_id, reuse_existing_vm, store_ids,
  wanted_zone, deploy_existing, tag_control_plane,
}

abbrev pub err_vm_composing : Error
err_vm_composing = sentinel "ErrVMComposing" "vm composing/commissioning"

-- A panic, which goes by the tests of errors up to the end of the reconcile.
abbrev pub nil_pointer : Error
nil_pointer = sentinel "panic" "runtime error: invalid memory address or nil pointer dereference"

abbrev pub vm_name_annotation : String
vm_name_annotation = "maas.spectrocloud.com/vm-name"

unfoldable pub annotate_name : String → MaasMachine → MaasMachine
annotate_name name mm = record mm {
  annotations = some (put (read_data mm.annotations) vm_name_annotation name);
}

unfoldable pub select_options : String → String → MaasMachine → SelectOptions
unfolding positive disk_size_of
select_options zone cluster_id mm = record {
  zone = zone;
  resource_pool = deref mm.spec.resource_pool;
  tags = mm.spec.tags;
  min_cores = positive mm.spec.min_cpu;
  min_memory = positive mm.spec.min_memory_in_mb;
  min_disk_size_gb = disk_size_of (positive mm.spec.min_disk_size_in_gb) mm.spec.lxd;
  cluster_id = cluster_id;
}

module _ (floats : Floats) {S : Type 0} (sc : MachineScope S) (f : VmFormats)
    (sort : (Candidate floats → Candidate floats → Bool)
      → List (Candidate floats)
      → List (Candidate floats))
    (configs : ConfigMaps S) (maas : Maas S) (fleet : Fleet S) where
  unfoldable pub existing_vm : String → M (Live S) Instance
  existing_vm id =
      wrapping "failed to get existing VM by system-id (pre-bootstrap)" (lift (maas.get_machine id))
      >>= λ d. return (from_sdk_type_to_machine d)

  -- The name of the VM, which is made once and kept in an annotation.
  unfoldable pub vm_name : MaasMachine → M (Live S) String
  unfolding annotate_name
  vm_name mm =
      let kept = read_data mm.annotations vm_name_annotation in
      let name = "vm-" <> (sc.machine.name <> ("-" <> keep_first 5 sc.machine.uid)) in
      if kept == ""
      then (modify (annotate_name name) >>= λ _. attempt (patch_object sc) >>= λ _. return name)
      else return kept

  has_name : String → Result MachineDetails → Option MachineDetails
  has_name name (err e) = none
  has_name name (ok d) = if f.equal_fold d.hostname name then some d else none

  -- The first of the listed machines that has the name.
  first_of : M S (Option MachineDetails) → Option MachineDetails → M S (Option MachineDetails)
  first_of rest none = rest
  first_of rest (some d) = return (some d)

  -- The first of the listed machines that has the name.
  find_named : String → List String → M S (Option MachineDetails)
  unfolding has_name first_of
  find_named name [] = return none
  find_named name (id ∷ ids) =
      let rest = find_named name ids in
      if id == ""
      then rest
      else (attempt (maas.get_machine id) >>= λ d. first_of rest (has_name name d))

  unfoldable pub named_among :
      String → Result (List String) × S → Result (Option MachineDetails) × S
  unfolding find_named
  named_among name (err e, s) = (ok none, s)
  named_among name (ok ids, s) = find_named name ids s

  unfoldable pub reuse_or :
      String → M (Live S) Instance → Option MachineDetails → M (Live S) Instance
  reuse_or zone otherwise none = otherwise
  reuse_or zone otherwise (some d) = reuse_existing_vm floats sc f sort configs maas fleet zone d

  -- A VM of the name that is there already, of all machines or of the host's guests, is reused.
  unfoldable pub reuse_named : String → String → VmHost → Error → M (Live S) Instance
  unfolding named_among reuse_or
  reuse_named zone name host e =
      lift (λ s. named_among name (maas.list_machines [] s))
      >>= reuse_or zone (
          lift (λ s. named_among name (fleet.list_guests host.system_id s))
          >>= reuse_or zone (fail (wrap "failed to compose VM on LXD host" e)))

  unfoldable pub is_name_taken : Error → Bool
  is_name_taken e =
      let text = sc.lower (error_text e) in
      contains_text text "hostname" && contains_text text "already exists"

  unfoldable pub record_composed : String → MachineDetails → M (Live S) Instance
  record_composed zone d =
      (if d.system_id == ""
        then return tt
        else (store_ids floats sc f sort configs maas fleet d.system_id zone
            >> tag_control_plane floats sc f sort configs maas fleet d.system_id))
      >>= λ _. return (with_zone zone (from_sdk_type_to_machine d))

  unfoldable pub composed :
      String → String → VmHost → Result MachineDetails × Live S → Result Instance × Live S
  unfolding record_composed reuse_named is_name_taken
  composed zone name host (ok d, l) = record_composed zone d l
  composed zone name host (err e, l) =
      if is_name_taken e
      then reuse_named zone name host e l
      else (err (wrap "failed to compose VM on LXD host" e), l)

  unfoldable pub compose_params : MaasMachine → String → ℕ → ℕ → List (String × String)
  unfolding select_options
  compose_params mm name zone_id pool_id =
      let opts = select_options "" "" mm in
      ("hostname", name)
      ∷ ("cores", f.format opts.min_cores)
      ∷ ("memory", f.format opts.min_memory)
      ∷ ("storage", f.format opts.min_disk_size_gb)
      ∷ ("zone", f.format zone_id)
      ∷ ("pool", f.format pool_id)
      ∷ []

  unfoldable pub compose_in :
      MaasMachine
      → String
      → VmHost
      → Option (String × ℕ)
      → Option (String × ℕ)
      → M (Live S) Instance
  unfolding composed compose_params
  compose_in mm name host none pool = fail nil_pointer
  compose_in mm name host (some zone) none =
      fail (message "selected LXD host has no resource pool; shouldn't use default resource pool")
  compose_in mm name host (some (zone, zone_id)) (some (pool, pool_id)) = λ l.
      composed (wanted_zone floats sc f sort configs maas fleet mm) name host
        (lift (fleet.compose host.system_id (compose_params mm name zone_id pool_id)) l)

  unfoldable pub compose_on : MaasMachine → String → VmHost → M (Live S) Instance
  unfolding compose_in
  compose_on mm name host = compose_in mm name host host.zone host.resource_pool

  unfoldable pub select_and_compose : MaasMachine → String → List VmHost → M (Live S) Instance
  unfolding compose_on
  select_and_compose mm name hosts =
      let cluster_id =
        if sc.machine.is_control_plane
        then derive_cluster_id floats sc f sort configs maas fleet
        else "" in
      wrapping "failed to select LXD VM host" (
        lift (
          select_lxd_host floats sc.lower sc.trim_space f.fold sort maas fleet hosts
            (select_options (wanted_zone floats sc f sort configs maas fleet mm) cluster_id mm)))
      >>= compose_on mm name

  unfoldable pub compose_vm : MaasMachine → M (Live S) Instance
  unfolding vm_name select_and_compose
  compose_vm mm = do
    name ← vm_name mm
    hosts ← wrapping "failed to list LXD VM hosts" (lift fleet.list_vm_hosts)
    select_and_compose mm name hosts

  unfoldable pub prepare_at : MaasMachine → Option String → M (Live S) Instance
  unfolding existing_vm compose_vm
  prepare_at mm none = compose_vm mm
  prepare_at mm (some id) = if id == "" then compose_vm mm else existing_vm id

  -- `PrepareLXDVM`
  unfoldable pub prepare_lxd_vm : M (Live S) Instance
  unfolding prepare_at existing_vm
  prepare_lxd_vm = current >>= λ mm.
      if deref mm.spec.system_id == ""
      then prepare_at mm (get_instance_id mm)
      else existing_vm (deref mm.spec.system_id)

  unfoldable pub compose_and_wait : M (Live S) Instance
  compose_and_wait = wrapping "compose failed prior to deploy" prepare_lxd_vm >>= λ _.
      modify (
        set_status (
          set_condition sc.conditions machine_deployed_condition condition_false
            machine_deploying_reason "VM composed; commissioning"))
      >>= λ _. attempt (patch_object sc) >>= λ _. fail err_vm_composing

  unfoldable pub create_at : String → MaasMachine → Option String → M (Live S) Instance
  unfolding compose_and_wait
  create_at user_data mm none = compose_and_wait
  create_at user_data mm (some id) =
      if id == ""
      then compose_and_wait
      else (wrapping "failed to get existing VM by system-id" (lift (maas.get_machine id))
          >>= deploy_existing floats sc f sort configs maas fleet user_data mm)

  -- `createVMViaMAAS`
  unfoldable pub create_vm_via_maas : String → M (Live S) Instance
  unfolding create_at
  create_vm_via_maas user_data = current >>= λ mm. create_at user_data mm (get_instance_id mm)
