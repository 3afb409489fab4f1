-- ===== src/Maintenance/Tags.antt =====
-- The tag names of pkg/maas/maintenance/tags.go, and how an operation id is put into a tag and read.
use cluster_api_provider_maa.Base.{
  ◌≡◌, ◌++◌, String, ◌<>◌, Bool, true, false, not, ◌&&◌, List, [], ◌∷◌, arith, ◌==◌, ==_iff,
  if◌then◌else◌, has_prefix, trim_prefix, has_prefix-append, trim_prefix-append, ◌≢◌,
}

abbrev pub tag_host_maintenance : String
tag_host_maintenance = "maas-lxd-host-maintenance"

abbrev pub tag_host_no_schedule : String
tag_host_no_schedule = "maas-lxd-host-noschedule"

abbrev pub tag_host_op_prefix : String
tag_host_op_prefix = "maas-lxd-hcp-op-"

abbrev pub tag_vm_control_plane : String
tag_vm_control_plane = "maas-lxd-wlc-cp"

abbrev pub tag_vm_cluster_prefix : String
tag_vm_cluster_prefix = "maas-lxd-wlc-"

abbrev pub tag_vm_ready_op_prefix : String
tag_vm_ready_op_prefix = "maas-lxd-ready-op-"

unfoldable pub build_op_tag : String → String
build_op_tag op_id = tag_host_op_prefix <> op_id

-- `len(t) > len(prefix)`, for a text that has the prefix, says that something is left behind it.
unfoldable pub parse_op_tag : List String → String × Bool
parse_op_tag [] = ("", false)
parse_op_tag (t ∷ ts) =
    let rest = parse_op_tag ts in
    if has_prefix t tag_host_op_prefix && not (trim_prefix t tag_host_op_prefix == "")
    then (trim_prefix t tag_host_op_prefix, true)
    else rest

unfoldable pub build_vm_ready_op_tag : String → String
build_vm_ready_op_tag op_id = tag_vm_ready_op_prefix <> op_id

pub has_prefix-build_op_tag :
    (op_id : String) → has_prefix (build_op_tag op_id) tag_host_op_prefix ≡ true
unfolding build_op_tag
has_prefix-build_op_tag op_id = has_prefix-append tag_host_op_prefix op_id

pub trim_prefix-build_op_tag :
    (op_id : String) → trim_prefix (build_op_tag op_id) tag_host_op_prefix ≡ op_id
unfolding build_op_tag
trim_prefix-build_op_tag op_id = trim_prefix-append tag_host_op_prefix op_id

-- The tag that is written for an operation id that is not empty is read back as that id, whatever
-- tags follow it, where the tags before it yield no id.
pub parse_op_tag-build_op_tag :
    (op_id : String) (before after : List String)
    → op_id ≢ ""
    → parse_op_tag before ≡ ("", false)
    → parse_op_tag (before ++ build_op_tag op_id ∷ after) ≡ (op_id, true)
unfolding parse_op_tag
parse_op_tag-build_op_tag op_id [] after named none_before =
    ground (arith, has_prefix-build_op_tag op_id, trim_prefix-build_op_tag op_id, ==_iff op_id "")
parse_op_tag-build_op_tag op_id (t ∷ before) after named none_before =
    ground (arith, parse_op_tag-build_op_tag op_id before after named)
