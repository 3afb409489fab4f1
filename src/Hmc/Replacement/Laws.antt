-- ===== src/Hmc/Replacement/Laws.antt =====
-- When the replacements are complete, and what the order of a VM's tags does to the test.
use mathlib.Core.Path.{subst}
use cluster_api_provider_maa.Base.{
  ◌≡◌, sym, ◌≢◌, ◌↔◌, refl, String, Bool, true, false, ◌||◌, List, [], ◌∷◌, ◌++◌, arith, ◌==◌,
  ==_iff, ==_refl, any, All, Any, All-map, Any-map, all_iff, any_iff, has_prefix,
}
use cluster_api_provider_maa.Maintenance.Tags.{
  tag_vm_control_plane, tag_vm_cluster_prefix, tag_vm_ready_op_prefix,
}
use cluster_api_provider_maa.Maintenance.Inventory.{Machine}
use cluster_api_provider_maa.Hmc.Replacement.{
  VmToReplace, scan_vm_tags, vms_needing_replacement, is_replacement, all_replaced,
}

-- The machine carries the tag.
abbrev pub Carries : String → Machine → Type 0
Carries tag vm = Any (λ t. t ≡ tag) vm.tags

-- What makes a VM the replacement of another one, for an evacuation of `host`.
pub record Replaces (host : Machine) (vm : VmToReplace) (candidate : Machine) : Type 0 where
  pub same_pool : candidate.resource_pool ≡ host.resource_pool
  pub same_zone : candidate.zone ≡ host.zone
  pub another : candidate.system_id ≢ vm.system_id
  pub control_plane : Carries tag_vm_control_plane candidate
  pub same_cluster : Carries vm.cluster_tag candidate
  pub ready : Any (λ t. has_prefix t tag_vm_ready_op_prefix ≡ true) candidate.tags

any-eq_iff :
    (tag : String) (tags : List String)
    → (any (λ t. t == tag) tags ≡ true) ↔ Any (λ t. t ≡ tag) tags
any-eq_iff tag [] = (λ h. cc, λ h. absurd h)
any-eq_iff tag (t ∷ tags) = ground (arith, ==_iff t tag, any-eq_iff tag tags)

module _ (host : Machine) (vm : VmToReplace) (candidate : Machine) where
  is_replacement-Replaces : is_replacement host vm candidate ≡ true → Replaces host vm candidate
  unfolding is_replacement
  is_replacement-Replaces h = record {
    same_pool = ground (arith, ==_iff candidate.resource_pool host.resource_pool);
    same_zone = ground (arith, ==_iff candidate.zone host.zone);
    another = ground (arith, ==_iff candidate.system_id vm.system_id);
    control_plane = (any-eq_iff tag_vm_control_plane candidate.tags).0 (ground arith);
    same_cluster = (any-eq_iff vm.cluster_tag candidate.tags).0 (ground arith);
    ready = (any_iff (λ t. has_prefix t tag_vm_ready_op_prefix) candidate.tags).0 (ground arith);
  }

  Replaces-is_replacement : Replaces host vm candidate → is_replacement host vm candidate ≡ true
  unfolding is_replacement
  Replaces-is_replacement r =
      rw
        (
          (==_iff candidate.resource_pool host.resource_pool).1 r.same_pool,
          (==_iff candidate.zone host.zone).1 r.same_zone,
          (any-eq_iff tag_vm_control_plane candidate.tags).1 r.control_plane,
          (any-eq_iff vm.cluster_tag candidate.tags).1 r.same_cluster,
          (any_iff (λ t. has_prefix t tag_vm_ready_op_prefix) candidate.tags).1 r.ready,
        )
        (ground (arith, ==_iff candidate.system_id vm.system_id, r.another))

-- The replacements are complete exactly if each of the VMs has among the candidates another
-- control-plane machine of its cluster tag with a ready tag, in the pool and zone of the host.
pub all_replaced_iff :
    (host : Machine) (needing : List VmToReplace) (all_vms : List Machine)
    → (all_replaced host needing all_vms ≡ true)
      ↔ All (λ vm. Any (Replaces host vm) all_vms) needing
unfolding all_replaced
all_replaced_iff host needing all_vms = (
  λ h.
      All-map _ _
        (λ vm e.
          Any-map _ _ (is_replacement-Replaces host vm) all_vms
            ((any_iff (is_replacement host vm) all_vms).0 e))
        needing ((all_iff (λ vm. any (is_replacement host vm) all_vms) needing).0 h),
  λ h. (all_iff (λ vm. any (is_replacement host vm) all_vms) needing).1 (
      All-map (λ vm. Any (Replaces host vm) all_vms) _
        (λ vm r.
          (any_iff (is_replacement host vm) all_vms).1
            (Any-map _ _ (Replaces-is_replacement host vm) all_vms r))
        needing h),
)

-- No tag has the prefix of a cluster tag.
abbrev pub NoClusterTag : List String → Type 0
NoClusterTag tags = All (λ t. has_prefix t tag_vm_cluster_prefix ≡ false) tags

scan_vm_tags_of_none :
    (tags : List String) (cp : Bool) (cluster_tag : String)
    → NoClusterTag tags
    → (scan_vm_tags tags cp cluster_tag).1 ≡ cluster_tag
unfolding scan_vm_tags
scan_vm_tags_of_none [] cp cluster_tag h = refl
scan_vm_tags_of_none (t ∷ tags) cp cluster_tag h =
    ground (arith, scan_vm_tags_of_none tags (t == tag_vm_control_plane || cp) cluster_tag h.1)

scan_vm_tags-cp :
    (tags : List String) (cluster_tag : String) → (scan_vm_tags tags true cluster_tag).0 ≡ true
unfolding scan_vm_tags
scan_vm_tags-cp [] cluster_tag = refl
scan_vm_tags-cp (t ∷ tags) cluster_tag =
    ground (arith, scan_vm_tags-cp tags t, scan_vm_tags-cp tags cluster_tag)

cp_has_cluster_prefix : has_prefix tag_vm_control_plane tag_vm_cluster_prefix ≡ true
unfolding has_prefix
cp_has_cluster_prefix = refl

-- The control-plane tag has the prefix of the cluster tags: where no cluster tag stands behind it,
-- it is itself taken for the VM's cluster tag.
pub scan_vm_tags_of_cp_last :
    (before after : List String) (cp : Bool) (cluster_tag : String)
    → NoClusterTag after
    → scan_vm_tags (before ++ tag_vm_control_plane ∷ after) cp cluster_tag
      ≡ (true, tag_vm_control_plane)
unfolding scan_vm_tags ◌==◌ has_prefix
scan_vm_tags_of_cp_last [] after cp cluster_tag h =
    rw (==_refl tag_vm_control_plane, cp_has_cluster_prefix)
      (ground (
        arith,
        scan_vm_tags_of_none after true tag_vm_control_plane h,
        scan_vm_tags-cp after tag_vm_control_plane,
      ))
scan_vm_tags_of_cp_last (t ∷ before) after cp cluster_tag h =
    scan_vm_tags_of_cp_last before after _ _ h

-- The cluster tags of a control-plane VM all stand before its control-plane tag.
abbrev pub EndsInControlPlane : List String → Type 0
EndsInControlPlane tags =
    (before : List String) × (after : List String) × (tags ≡ before ++ tag_vm_control_plane ∷ after)
    × NoClusterTag after

-- Another ready control-plane VM in the pool and zone of the host, of whichever cluster.
pub record IsForeign (host vm candidate : Machine) : Type 0 where
  pub same_pool : candidate.resource_pool ≡ host.resource_pool
  pub same_zone : candidate.zone ≡ host.zone
  pub another : candidate.system_id ≢ vm.system_id
  pub control_plane : Carries tag_vm_control_plane candidate
  pub ready : Any (λ t. has_prefix t tag_vm_ready_op_prefix ≡ true) candidate.tags

needing_of_cp_last :
    (vm : Machine) (vms : List Machine)
    → EndsInControlPlane vm.tags
    → vms_needing_replacement (vm ∷ vms)
      ≡ record { system_id = vm.system_id; cluster_tag = tag_vm_control_plane }
        ∷ vms_needing_replacement vms
unfolding vms_needing_replacement ◌==◌
needing_of_cp_last vm vms (before, after, tags, h) =
    rw (tags, scan_vm_tags_of_cp_last before after false "" h)

IsForeign-Replaces :
    (host vm candidate : Machine)
    → IsForeign host vm candidate
    → Replaces host
        (record { system_id = vm.system_id; cluster_tag = tag_vm_control_plane })
        candidate
IsForeign-Replaces host vm candidate f = record {
  same_pool = f.same_pool;
  same_zone = f.same_zone;
  another = f.another;
  control_plane = f.control_plane;
  same_cluster = f.control_plane;
  ready = f.ready;
}

replaced_of_foreign :
    (host : Machine) (vms all_vms : List Machine)
    → All (λ vm. EndsInControlPlane vm.tags × Any (IsForeign host vm) all_vms) vms
    → All (λ vm. Any (Replaces host vm) all_vms) (vms_needing_replacement vms)
unfolding vms_needing_replacement
replaced_of_foreign host [] all_vms h = tt
replaced_of_foreign host (vm ∷ vms) all_vms ((last, foreign), h) =
    subst (λ needing. All (λ v. Any (Replaces host v) all_vms) needing)
      (sym (needing_of_cp_last vm vms last))
      (
        Any-map (IsForeign host vm) _ (IsForeign-Replaces host vm) all_vms foreign,
        replaced_of_foreign host vms all_vms h,
      )

-- Where each VM of a host is a control plane whose cluster tags all stand before its control-plane
-- tag, and the machines that are searched hold for each another ready control-plane VM in the pool
-- and zone of the host, of whichever cluster, every VM counts as replaced.
pub all_replaced_of_foreign :
    (host : Machine) (vms all_vms : List Machine)
    → All (λ vm. EndsInControlPlane vm.tags × Any (IsForeign host vm) all_vms) vms
    → all_replaced host (vms_needing_replacement vms) all_vms ≡ true
all_replaced_of_foreign host vms all_vms h =
    (all_replaced_iff host (vms_needing_replacement vms) all_vms).1
      (replaced_of_foreign host vms all_vms h)
