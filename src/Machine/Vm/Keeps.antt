-- ===== src/Machine/Vm/Keeps.antt =====
-- What deploying a VM that was composed leaves of a machine's status.
use cluster_api_provider_maa.Base.{
  String, ◌<>◌, Bool, false, List, deref, M, return, attempt, wrapping, ◌>>=◌, ◌>>◌,
}
use cluster_api_provider_maa.Services.{Maas, MachineDetails, ConfigMaps}
use cluster_api_provider_maa.Api.{MaasMachine}
use cluster_api_provider_maa.Fleet.{Fleet}
use cluster_api_provider_maa.Lxd.{Floats, Candidate}
use cluster_api_provider_maa.Machine.Scope.{MachineScope, Live, lift, patch_object}
use cluster_api_provider_maa.Machine.Scope.Keeps.{
  IsWellFormed, Keeps, >>=-Keeps, wrapping-Keeps, choice-Keeps,
}
use cluster_api_provider_maa.Machine.Service.{split_image, from_sdk_type_to_machine}
use cluster_api_provider_maa.Machine.Vm.{
  VmFormats, or_else, with_zone, tag_cp_vm, tag_vm_if_maintenance_active, tag_control_plane,
  store_ids, wanted_zone, finish_deploy, deploy_existing,
}

module _ (floats : Floats) {S : Type 0} (sc : MachineScope S) (f : VmFormats)
    (sort : (Candidate floats → Candidate floats → Bool)
      → List (Candidate floats)
      → List (Candidate floats))
    (configs : ConfigMaps S) (maas : Maas S) (fleet : Fleet S) where
  pub store_ids-Keeps :
      (id zone : String)
      → Keeps IsWellFormed (store_ids floats sc f sort configs maas fleet id zone)
  unfolding store_ids patch_object
  store_ids-Keeps id zone = λ _ p. p

  pub tag_control_plane-Keeps :
      (id : String) → Keeps IsWellFormed (tag_control_plane floats sc f sort configs maas fleet id)
  unfolding tag_control_plane
  tag_control_plane-Keeps id =
      choice-Keeps IsWellFormed sc.machine.is_control_plane
        (lift (
          tag_cp_vm floats sc f sort configs maas fleet id
          >> tag_vm_if_maintenance_active floats sc f sort configs maas fleet id))
        (return tt) (λ _ p. p) (λ _ p. p)

  finish_deploy-Keeps :
      (wanted : String) (d : MachineDetails)
      → Keeps IsWellFormed (finish_deploy floats sc f sort configs maas fleet wanted d)
  unfolding finish_deploy
  finish_deploy-Keeps wanted d =
      let zone = or_else (deref d.zone) wanted in
      >>=-Keeps IsWellFormed (store_ids floats sc f sort configs maas fleet d.system_id zone)
        (λ _. tag_control_plane floats sc f sort configs maas fleet d.system_id >>= λ _.
          return (with_zone zone (from_sdk_type_to_machine d)))
        (store_ids-Keeps d.system_id zone)
        (λ _.
          >>=-Keeps IsWellFormed (tag_control_plane floats sc f sort configs maas fleet d.system_id)
            (λ _. return (with_zone zone (from_sdk_type_to_machine d)))
            (tag_control_plane-Keeps d.system_id) (λ _ _ p. p))

  pub deploy_existing-Keeps :
      (user_data : String) (mm : MaasMachine) (d : MachineDetails)
      → Keeps IsWellFormed (deploy_existing floats sc f sort configs maas fleet user_data mm d)
  unfolding deploy_existing
  deploy_existing-Keeps user_data mm d l p =
      let deploying : M (Live S) MachineDetails = lift (
        fleet.deploy d.system_id (record {
          user_data = user_data;
          os_system = (split_image mm.spec.image).0;
          distro_series = (split_image mm.spec.image).1;
          ephemeral_deploy = false;
        })) in
      >>=-Keeps IsWellFormed
        (attempt (lift (fleet.set_hostname d.system_id ("vm-" <> sc.machine.name))))
        (λ _.
          wrapping "failed to deploy existing VM" deploying
          >>= finish_deploy floats sc f sort configs maas fleet
              (wanted_zone floats sc f sort configs maas fleet mm))
        (λ _ p. p)
        (λ _.
          >>=-Keeps IsWellFormed (wrapping "failed to deploy existing VM" deploying)
            (finish_deploy floats sc f sort configs maas fleet
              (wanted_zone floats sc f sort configs maas fleet mm))
            (wrapping-Keeps IsWellFormed "failed to deploy existing VM" deploying (λ _ p. p))
            (finish_deploy-Keeps (wanted_zone floats sc f sort configs maas fleet mm)))
        l p
