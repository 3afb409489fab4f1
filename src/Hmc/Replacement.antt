-- ===== src/Hmc/Replacement.antt =====
-- The loops of `checkWLCReadyTags` in controllers/host_maintenance_service.go: which VMs of a host
-- need a replacement, and which VM replaces one.
pub mod Laws
use cluster_api_provider_maa.Base.{
  String, Bool, true, false, not, ◌&&◌, ◌||◌, List, [], ◌∷◌, ◌==◌, any, all, if◌then◌else◌,
  has_prefix,
}
use cluster_api_provider_maa.Maintenance.Tags.{
  tag_vm_control_plane, tag_vm_cluster_prefix, tag_vm_ready_op_prefix,
}
use cluster_api_provider_maa.Maintenance.Inventory.{Machine}

-- `vmToReplace`
pub record VmToReplace : Type 0 where
  pub system_id : String
  pub cluster_tag : String

-- The scan of a VM's tags: whether it is a control plane, and the last tag with the cluster prefix.
unfoldable pub scan_vm_tags : List String → Bool → String → Bool × String
scan_vm_tags [] is_cp_vm cluster_tag = (is_cp_vm, cluster_tag)
scan_vm_tags (tag ∷ tags) is_cp_vm cluster_tag =
    scan_vm_tags tags (tag == tag_vm_control_plane || is_cp_vm)
      (if has_prefix tag tag_vm_cluster_prefix then tag else cluster_tag)

unfoldable pub vms_needing_replacement : List Machine → List VmToReplace
unfolding scan_vm_tags
vms_needing_replacement [] = []
vms_needing_replacement (vm ∷ vms) =
    let rest = vms_needing_replacement vms in
    let (is_cp_vm, cluster_tag) = scan_vm_tags vm.tags false "" in
    if is_cp_vm && not (cluster_tag == "")
    then record { system_id = vm.system_id; cluster_tag = cluster_tag } ∷ rest
    else rest

-- A candidate in the pool and the zone of the host, other than the VM, with all three tags.
unfoldable pub is_replacement : Machine → VmToReplace → Machine → Bool
is_replacement host vm candidate =
    if not (candidate.resource_pool == host.resource_pool) || not (candidate.zone == host.zone)
    then false
    else if candidate.system_id == vm.system_id
    then false
    else any (λ tag. tag == tag_vm_control_plane) candidate.tags
      && any (λ tag. tag == vm.cluster_tag) candidate.tags
      && any (λ tag. has_prefix tag tag_vm_ready_op_prefix) candidate.tags

unfoldable pub all_replaced : Machine → List VmToReplace → List Machine → Bool
unfolding is_replacement
all_replaced host needing all_vms = all (λ vm. any (is_replacement host vm) all_vms) needing
