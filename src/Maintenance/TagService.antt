-- ===== src/Maintenance/TagService.antt =====
-- `TagService` of pkg/maas/maintenance/maintenance_interface.go, its implementation over the MAAS
-- client in common.go, and the groups of tags that host_tagging.go writes and removes.
pub mod Laws
use cluster_api_provider_maa.Base.{
  ℕ, String, Bool, true, false, ◌||◌, List, [], ◌∷◌, ◌==◌, any, if◌then◌else◌, M, return, ◌>>=◌,
  ◌>>◌,
}
use cluster_api_provider_maa.Services.{Maas}
use cluster_api_provider_maa.Maintenance.Tags.{
  tag_host_maintenance, tag_host_no_schedule, build_op_tag, parse_op_tag, build_vm_ready_op_tag,
}
use cluster_api_provider_maa.Maintenance.Sanitize.{build_ready_host_tag}

pub record TagService (S : Type 0) : Type 0 where
  pub ensure_tag_in_inventory : String → M S (Unit {0})
  pub add_tag_to_machine : String → String → M S (Unit {0})
  pub remove_tag_from_machine : String → String → M S (Unit {0})
  pub add_tag_to_host : String → String → M S (Unit {0})
  pub remove_tag_from_host : String → String → M S (Unit {0})

module _ {S : Type 0} (maas : Maas S) where
  ensure_among : String → List String → M S (Unit {0})
  ensure_among name existing =
      if any (λ tag. tag == name) existing then return tt else maas.create_tag name

  ensure_tag_in_inventory : String → M S (Unit {0})
  unfolding ensure_among
  ensure_tag_in_inventory name = maas.list_tags >>= ensure_among name

  unfoldable pub new_tag_service : TagService S
  unfolding ensure_tag_in_inventory
  new_tag_service = record {
    ensure_tag_in_inventory = ensure_tag_in_inventory;
    add_tag_to_machine = λ system_id tag. maas.assign_tag tag system_id;
    remove_tag_from_machine = λ system_id tag. maas.unassign_tag tag system_id;
    add_tag_to_host = λ system_id tag. maas.assign_tag tag system_id;
    remove_tag_from_host = λ system_id tag. maas.unassign_tag tag system_id;
  }

  -- `TagVMReadyOp`, with a client that is not nil. An error of `Create` is passed over.
  unfoldable pub tag_vm_ready_op : String → String → M S (Unit {0})
  tag_vm_ready_op system_id op_id = if system_id == "" || op_id == "" then return tt else λ s.
      maas.assign_tag (build_vm_ready_op_tag op_id) system_id
        (maas.create_tag (build_vm_ready_op_tag op_id) s).1

  -- `GetHostOpID`, with a client that is not nil.
  unfoldable pub get_host_op_id : String → M S (String × Bool)
  get_host_op_id host_system_id =
      if host_system_id == ""
      then return ("", false)
      else maas.get_machine host_system_id >>= λ m. return (parse_op_tag m.tags)

module _ {S : Type 0} (tags : TagService S) where
  unfoldable pub ensure_host_maintenance_tags : String → String → M S (Unit {0})
  ensure_host_maintenance_tags host_system_id op_id = do
    tags.ensure_tag_in_inventory tag_host_maintenance
    tags.ensure_tag_in_inventory tag_host_no_schedule
    tags.ensure_tag_in_inventory (build_op_tag op_id)
    tags.add_tag_to_host host_system_id tag_host_maintenance
    tags.add_tag_to_host host_system_id tag_host_no_schedule
    tags.add_tag_to_host host_system_id (build_op_tag op_id)

  unfoldable pub ensure_host_ready_ack_tag : (ℕ → ℕ) → String → String → String → M S (Unit {0})
  ensure_host_ready_ack_tag fold host_system_id cluster_id op_id = do
    tags.ensure_tag_in_inventory (build_ready_host_tag fold cluster_id op_id)
    tags.add_tag_to_host host_system_id (build_ready_host_tag fold cluster_id op_id)

  remove_host_marks : String → Bool → M S (Unit {0})
  remove_host_marks host_system_id false = return tt
  remove_host_marks host_system_id true = do
    tags.remove_tag_from_host host_system_id tag_host_no_schedule
    tags.remove_tag_from_host host_system_id tag_host_maintenance

  unfoldable pub clear_host_maintenance_tags : String → String → Bool → M S (Unit {0})
  unfolding remove_host_marks
  clear_host_maintenance_tags host_system_id op_id remove_maintenance = do
    tags.remove_tag_from_host host_system_id (build_op_tag op_id)
    remove_host_marks host_system_id remove_maintenance
