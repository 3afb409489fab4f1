-- ===== src/Vec/Session.antt =====
-- The sessions of `VMEvacuationReconciler` in controllers/vmevacuation_controller.go: one ConfigMap
-- for each operation id.
pub mod Laws
use cluster_api_provider_maa.Base.{
  ℕ, String, ◌<>◌, Bool, true, false, not, ◌&&◌, List, [], ◌∷◌, some, ◌==◌, if◌then◌else◌,
  has_prefix, M, Result, ok, err, wrap, is_already_exists, return, wrapping, ◌>>=◌, ◌>>◌,
}
use cluster_api_provider_maa.Services.{
  Maas, ConfigMap, ConfigMaps, Runtime, Codec, Data, empty_data, put, read_data,
}
use cluster_api_provider_maa.Maintenance.Session.{status_active, status_completed}
use cluster_api_provider_maa.Maintenance.TagService.{tag_vm_ready_op}
use cluster_api_provider_maa.Hmc.Service.{remove_string}

abbrev pub maintenance_config_map_prefix : String
maintenance_config_map_prefix = "vec-maintenance-"

unfoldable pub maintenance_config_map_name : String → String
maintenance_config_map_name op_id = maintenance_config_map_prefix <> op_id

-- The operation ids of the active sessions, each once: the keys of the map, whose order Go leaves
-- open.
unfoldable pub active_op_ids : List ConfigMap → List String
unfolding remove_string
active_op_ids [] = []
active_op_ids (cm ∷ cms) =
    let rest = active_op_ids cms in
    let op_id = read_data cm.content "opId" in
    if has_prefix cm.name maintenance_config_map_prefix
      && not (op_id == "")
      && read_data cm.content "status" == status_active
    then op_id ∷ remove_string rest op_id
    else rest

module _ {S : Type 0} (c : Codec) (k : ConfigMaps S) where
  unfoldable pub list_maintenance_sessions : String → M S (List String)
  unfolding active_op_ids
  list_maintenance_sessions namespace =
      wrapping "failed to list ConfigMaps" (k.list namespace) >>= λ cms. return (active_op_ids cms)

  -- What the ConfigMap of a session holds, where the session is saved at time `t`.
  unfoldable pub session_config : String → String → String → String → ℕ → ConfigMap
  unfolding maintenance_config_map_name
  session_config namespace op_id host_system_id status t = record {
    namespace = namespace;
    name = maintenance_config_map_name op_id;
    uid = "";
    content = some (
        put (put (put (put empty_data "opId" op_id) "status" status) "currentHost" host_system_id)
          "startedAt" (c.format_time t));
  }

  update_existing : ConfigMap → ConfigMap → M S (Unit {0})
  update_existing cm existing =
      wrapping "failed to update maintenance session ConfigMap"
        (k.update (record existing { content = cm.content }))

  replace_if_exists : ConfigMap → Result (Unit {0}) × S → Result (Unit {0}) × S
  unfolding update_existing
  replace_if_exists cm (ok u, s) = (ok tt, s)
  replace_if_exists cm (err e, s) =
      if is_already_exists e
      then ◌>>=◌ (wrapping "failed to get existing ConfigMap" (k.get cm.namespace cm.name))
          (update_existing cm) s
      else (err (wrap "failed to create maintenance session ConfigMap" e), s)

  create_or_replace : ConfigMap → M S (Unit {0})
  unfolding replace_if_exists
  create_or_replace cm s = replace_if_exists cm (k.create cm s)

  unfoldable pub save_maintenance_session :
      Runtime S → String → String → String → String → M S (Unit {0})
  unfolding create_or_replace session_config
  save_maintenance_session r namespace op_id host_system_id status =
      r.now >>= λ t. create_or_replace (session_config namespace op_id host_system_id status t)

  mark_completed : ConfigMap → M S (Unit {0})
  mark_completed cm = wrapping "failed to mark session as completed" (
      k.update
        (record cm { content = some (put (read_data cm.content) "status" status_completed) }))

  complete_if_provisioned : Maas S → String → ConfigMap → M S (Unit {0})
  unfolding mark_completed
  complete_if_provisioned maas op_id cm =
      let new_vm = read_data cm.content "newVMSystemID" in
      if new_vm == ""
      then return tt
      else wrapping "failed to tag replacement VM with ready-op" (tag_vm_ready_op maas new_vm op_id)
        >>= λ _. mark_completed cm

  unfoldable pub tag_replacement_vm_and_complete_session : Maas S → String → String → M S (Unit {0})
  unfolding complete_if_provisioned maintenance_config_map_name
  tag_replacement_vm_and_complete_session maas namespace op_id =
      wrapping "failed to get maintenance session ConfigMap"
        (k.get namespace (maintenance_config_map_name op_id))
      >>= complete_if_provisioned maas op_id
