-- ===== src/Machine/Controller/Tags.antt =====
-- `cleanupStaleTagsAfterDeployment` of controllers/maasmachine_controller.go.
use cluster_api_provider_maa.Base.{
  String, Bool, not, ◌||◌, List, [], ◌∷◌, ◌==◌, deref, if◌then◌else◌, has_prefix, M, return,
  attempt, ◌>>=◌, ◌>>◌,
}
use cluster_api_provider_maa.Services.{Maas}
use cluster_api_provider_maa.Kube.{Kube}
use cluster_api_provider_maa.Api.{MaasMachine}
use cluster_api_provider_maa.Maintenance.Tags.{
  tag_host_maintenance, tag_host_no_schedule, tag_host_op_prefix, tag_vm_control_plane,
  tag_vm_cluster_prefix, tag_vm_ready_op_prefix,
}
use cluster_api_provider_maa.Maintenance.TagService.{new_tag_service}
use cluster_api_provider_maa.Maintenance.Inventory.{Machine, get_host}
use cluster_api_provider_maa.Hmc.Controller.{get_maas_credentials}

-- A tag of an operation, of a cluster or of a ready VM.
unfoldable pub is_stale_tag : String → Bool
is_stale_tag tag =
    has_prefix tag tag_host_op_prefix
    || has_prefix tag tag_vm_cluster_prefix
    || has_prefix tag tag_vm_ready_op_prefix

module _ {S : Type 0} (k : Kube S) (client_set : String × String → Maas S) where
  -- An error of removing a tag is passed over.
  remove_tag : Maas S → String → String → M S (Unit {0})
  remove_tag maas system_id tag =
      attempt ((new_tag_service maas).remove_tag_from_host system_id tag) >>= λ _. return tt

  remove_stale_tags : Maas S → String → List String → M S (Unit {0})
  unfolding remove_tag is_stale_tag
  remove_stale_tags maas system_id [] = return tt
  remove_stale_tags maas system_id (tag ∷ tags) =
      let rest = remove_stale_tags maas system_id tags in
      if is_stale_tag tag then (remove_tag maas system_id tag >> rest) else rest

  cleanup_host : Maas S → String → Machine → M S (Unit {0})
  unfolding remove_tag remove_stale_tags
  cleanup_host maas system_id host =
      if host.power_type == "lxd"
      then return tt
      else (remove_tag maas system_id tag_host_maintenance
          >> remove_tag maas system_id tag_host_no_schedule
          >> remove_tag maas system_id tag_vm_control_plane
          >> remove_stale_tags maas system_id host.tags)

  unfoldable pub cleanup_stale_tags_after_deployment : MaasMachine → String → M S (Unit {0})
  unfolding cleanup_host
  cleanup_stale_tags_after_deployment mm system_id =
      if not (deref mm.spec.parent == "")
      then return tt
      else (get_maas_credentials k mm.namespace >>= λ credentials.
          get_host (client_set credentials) system_id
          >>= cleanup_host (client_set credentials) system_id)
