-- ===== src/Machine/Vm.antt =====
-- The VMs that pkg/maas/machine/machine.go composes on LXD hosts, deploys and tags.
pub mod Keeps
use cluster_api_provider_maa.Base.{
  ℤ, pos, negsuc, ℕ, String, ◌<>◌, Bool, false, not, ◌&&◌, ◌||◌, List, [], ◌∷◌, Option, none, some,
  ◌==◌, deref, ltb, if◌then◌else◌, has_prefix, trim_prefix, M, Result, ok, err, return, attempt,
  wrapping, ◌>>=◌, ◌>>◌,
}
use cluster_api_provider_maa.Services.{Maas, MachineDetails, ConfigMap, ConfigMaps, put, read_data}
use cluster_api_provider_maa.Status.{Instance}
use cluster_api_provider_maa.Api.{MaasMachine, MaasMachineSpec, MachineLxdConfig}
use cluster_api_provider_maa.Fleet.{Fleet}
use cluster_api_provider_maa.Maintenance.Tags.{tag_vm_control_plane, tag_vm_cluster_prefix}
use cluster_api_provider_maa.Maintenance.Sanitize.{sanitize_id}
use cluster_api_provider_maa.Maintenance.Session.{status_active}
use cluster_api_provider_maa.Lxd.{Floats, Candidate}
use cluster_api_provider_maa.Machine.Scope.{
  MachineScope, Live, lift, modify, set_spec, set_provider_id, set_failure_domain, set_system_id,
  patch_object,
}
use cluster_api_provider_maa.Machine.Service.{split_image, from_sdk_type_to_machine}

-- What the creation of VMs uses of Go's libraries: the first eight digits of a hash, `EqualFold`, and
-- the decimal digits of a number.
pub record VmFormats : Type 0 where
  pub hash : String → String
  pub equal_fold : String → String → Bool
  pub format : ℕ → String
  pub fold : ℕ → ℕ

-- A name, or another one where it is empty.
abbrev pub or_else : String → String → String
or_else a b = if a == "" then b else a

-- The zone of an instance is filled in where MAAS has none.
unfoldable pub with_zone : String → Instance → Instance
with_zone zone i = record i { availability_zone = or_else i.availability_zone zone }

-- `SetSystemID`, `SetProviderID`, and `SetFailureDomain` where the zone is known.
unfoldable pub record_ids : String → String → MaasMachineSpec → MaasMachineSpec
unfolding set_provider_id
record_ids system_id zone spec =
    let named = set_provider_id system_id zone (set_system_id system_id spec) in
    if zone == "" then named else set_failure_domain zone named

-- Whether a ConfigMap is that of an active evacuation.
unfoldable pub is_active_session : ConfigMap → Bool
is_active_session cm =
    let d = read_data cm.content in
    has_prefix cm.name "vec-maintenance-" && not (d "opId" == "") && d "status" == status_active

unfoldable pub positive : Option ℕ → ℕ
positive none = 0
positive (some n) = n

-- A size that is not set, or negative, is no more than any minimum.
size_or_zero : Option ℤ → ℕ
size_or_zero none = 0
size_or_zero (some (pos n)) = n
size_or_zero (some (negsuc n)) = 0

unfoldable pub disk_size_of : ℕ → Option MachineLxdConfig → ℕ
unfolding positive size_or_zero
disk_size_of minimum none = minimum
disk_size_of minimum (some lxd) =
    if ltb minimum (size_or_zero lxd.disk_size) then size_or_zero lxd.disk_size else minimum

module _ (floats : Floats) {S : Type 0} (sc : MachineScope S) (f : VmFormats)
    (sort : (Candidate floats → Candidate floats → Bool)
      → List (Candidate floats)
      → List (Candidate floats))
    (configs : ConfigMaps S) (maas : Maas S) (fleet : Fleet S) where
  -- `deriveClusterID`
  unfoldable pub derive_cluster_id : String
  derive_cluster_id =
      let namespace = sc.cluster.namespace in
      if has_prefix namespace "cluster-" && not (trim_prefix namespace "cluster-" == "")
      then trim_prefix namespace "cluster-"
      else f.hash namespace

  -- `tagVM`, which passes over errors.
  unfoldable pub tag_vm : String → List String → M S (Unit {0})
  tag_vm system_id [] = return tt
  tag_vm system_id (tag ∷ tags) =
      let rest = tag_vm system_id tags in
      if system_id == "" || tag == ""
      then rest
      else (attempt (maas.create_tag tag) >>= λ _.
          attempt (maas.assign_tag tag system_id) >>= λ _. rest)

  cp_tags : List String
  unfolding derive_cluster_id
  cp_tags =
      tag_vm_control_plane ∷ (tag_vm_cluster_prefix <> sanitize_id f.fold derive_cluster_id) ∷ []

  -- `tagCPVM`
  unfoldable pub tag_cp_vm : String → M S (Unit {0})
  unfolding cp_tags
  tag_cp_vm system_id =
      if system_id == "" || derive_cluster_id == "" then return tt else tag_vm system_id cp_tags

  note_new_vm : String → ConfigMap → M S (Unit {0})
  note_new_vm system_id cm =
      attempt (
        configs.update
          (record cm { content = some (put (read_data cm.content) "newVMSystemID" system_id) }))
      >>= λ _. return tt

  -- The first ConfigMap of an active evacuation.
  tag_for_session : String → List ConfigMap → M S (Unit {0})
  unfolding note_new_vm
  tag_for_session system_id [] = return tt
  tag_for_session system_id (cm ∷ cms) =
      let rest = tag_for_session system_id cms in
      if is_active_session cm then (tag_cp_vm system_id >> note_new_vm system_id cm) else rest

  tag_listed : String → Result (List ConfigMap) × S → Result (Unit {0}) × S
  unfolding tag_for_session
  tag_listed system_id (err e, s) = (ok tt, s)
  tag_listed system_id (ok cms, s) = tag_for_session system_id cms s

  -- `tagVMIfMaintenanceActive`
  unfoldable pub tag_vm_if_maintenance_active : String → M S (Unit {0})
  unfolding tag_listed
  tag_vm_if_maintenance_active system_id = if system_id == "" then return tt else λ s.
      tag_listed system_id (configs.list sc.cluster.namespace s)

  unfoldable pub tag_control_plane : String → M (Live S) (Unit {0})
  tag_control_plane system_id =
      if sc.machine.is_control_plane
      then lift (tag_cp_vm system_id >> tag_vm_if_maintenance_active system_id)
      else return tt

  -- The ids are recorded and stored; an error of storing is passed over.
  unfoldable pub store_ids : String → String → M (Live S) (Unit {0})
  unfolding record_ids
  store_ids system_id zone = modify (set_spec (record_ids system_id zone)) >>= λ _.
      attempt (patch_object sc) >>= λ _. return tt

  -- `reuseExistingVM`
  unfoldable pub reuse_existing_vm : String → MachineDetails → M (Live S) Instance
  unfolding store_ids
  reuse_existing_vm zone d =
      store_ids d.system_id zone >>= λ _. return (with_zone zone (from_sdk_type_to_machine d))

  -- The zone that the spec or the Cluster API Machine asks for.
  unfoldable pub wanted_zone : MaasMachine → String
  wanted_zone mm = or_else (deref mm.spec.failure_domain) sc.machine.failure_domain

  unfoldable pub finish_deploy : String → MachineDetails → M (Live S) Instance
  unfolding store_ids tag_control_plane
  finish_deploy wanted d =
      let zone = or_else (deref d.zone) wanted in
      store_ids d.system_id zone >>= λ _.
      tag_control_plane d.system_id >>= λ _. return (with_zone zone (from_sdk_type_to_machine d))

  -- A VM that was composed before is deployed.
  unfoldable pub deploy_existing : String → MaasMachine → MachineDetails → M (Live S) Instance
  unfolding finish_deploy wanted_zone
  deploy_existing user_data mm d =
      attempt (lift (fleet.set_hostname d.system_id ("vm-" <> sc.machine.name))) >>= λ _.
      wrapping "failed to deploy existing VM" (
        lift (
          fleet.deploy d.system_id (record {
            user_data = user_data;
            os_system = (split_image mm.spec.image).0;
            distro_series = (split_image mm.spec.image).1;
            ephemeral_deploy = false;
          })))
      >>= finish_deploy (wanted_zone mm)
