-- ===== src/Examples/Tags.antt =====
-- The theorems on tags, names, listings and webhooks, at concrete inputs.
use cluster_api_provider_maa.Base.{
  ℕ, ◌≡◌, ◌≢◌, ◌↔◌, ◌≤◌, refl, String, true, false, [], ◌∷◌, ◌++◌, length, All, ok, ◌==◌,
  has_prefix,
}
use cluster_api_provider_maa.Maintenance.Tags.{
  tag_host_maintenance, build_op_tag, parse_op_tag, parse_op_tag-build_op_tag,
}
use cluster_api_provider_maa.Maintenance.Sanitize.{codes, sanitize_id}
use cluster_api_provider_maa.Maintenance.Sanitize.Laws.{
  is_token, sanitize_id-is_token, sanitize_id_idem,
}
use cluster_api_provider_maa.Maintenance.TagService.{
  new_tag_service, ensure_host_maintenance_tags, clear_host_maintenance_tags,
}
use cluster_api_provider_maa.Maintenance.TagService.Laws.{
  ensure_host_maintenance_tags-tagged, clear_host_maintenance_tags-tagged,
}
use cluster_api_provider_maa.Maintenance.Inventory.{Machine, list_host_vms, list_all_vms}
use cluster_api_provider_maa.Maintenance.Inventory.Laws.{list_host_vms-host}
use cluster_api_provider_maa.Api.Webhook.{
  allowed, SameShape, validate_machine_update, validate_machine_update_iff,
}
use cluster_api_provider_maa.Examples.Memory.{World, fresh, maas, tag_laws, host, spec}

op_ne : ◌≢◌ {A = String} "op1" ""
op_ne h = cc h

no_op_tag : parse_op_tag (tag_host_maintenance ∷ []) ≡ ("", false)
unfolding parse_op_tag ◌==◌ has_prefix
no_op_tag = refl

parse_op_tag-build_op_tag_example :
    parse_op_tag ((tag_host_maintenance ∷ []) ++ build_op_tag "op1" ∷ "other" ∷ []) ≡ ("op1", true)
parse_op_tag-build_op_tag_example =
    parse_op_tag-build_op_tag "op1" (tag_host_maintenance ∷ []) ("other" ∷ []) op_ne no_op_tag

id_ne : ◌≢◌ {A = String} "My Cluster!" ""
id_ne h = cc h

abbrev no_fold : ℕ → ℕ
no_fold c = c

sanitize_id-is_token_example :
    (is_token true (codes (sanitize_id no_fold "My Cluster!")) ≡ true)
    × (length (codes (sanitize_id no_fold "My Cluster!")) ≤ 63)
sanitize_id-is_token_example = sanitize_id-is_token no_fold "My Cluster!" id_ne

sanitize_id_idem_example :
    sanitize_id no_fold (sanitize_id no_fold "My Cluster!") ≡ sanitize_id no_fold "My Cluster!"
sanitize_id_idem_example = sanitize_id_idem no_fold "My Cluster!"

marked : World
unfolding ensure_host_maintenance_tags new_tag_service maas ◌==◌
marked = (ensure_host_maintenance_tags (new_tag_service (maas [] "" true)) "host1" "op1" fresh).1

is_marked :
    ensure_host_maintenance_tags (new_tag_service (maas [] "" true)) "host1" "op1" fresh
    ≡ (ok tt, marked)
unfolding ensure_host_maintenance_tags new_tag_service maas ◌==◌ marked
is_marked = refl

ensure_host_maintenance_tags-tagged_example :
    (tag_laws [] "").tagged marked "host1" tag_host_maintenance ≡ true
unfolding ◌==◌
ensure_host_maintenance_tags-tagged_example =
    ensure_host_maintenance_tags-tagged (maas [] "" true) (tag_laws [] "") "host1" "op1" fresh
      marked is_marked "host1" tag_host_maintenance

unmarked : World
unfolding clear_host_maintenance_tags new_tag_service maas ◌==◌ marked
unmarked =
    (clear_host_maintenance_tags (new_tag_service (maas [] "" true)) "host1" "op1" true marked).1

is_unmarked :
    clear_host_maintenance_tags (new_tag_service (maas [] "" true)) "host1" "op1" true marked
    ≡ (ok tt, unmarked)
unfolding clear_host_maintenance_tags new_tag_service maas ◌==◌ unmarked
is_unmarked = refl

clear_host_maintenance_tags-tagged_example :
    (tag_laws [] "").tagged unmarked "host1" tag_host_maintenance ≡ false
unfolding ◌==◌ build_op_tag
clear_host_maintenance_tags-tagged_example =
    clear_host_maintenance_tags-tagged (maas [] "" true) (tag_laws [] "") "host1" "op1" true marked
      unmarked is_unmarked "host1" tag_host_maintenance

abbrev vm1 : Machine
vm1 = record {
  system_id = "vm1";
  host_system_id = "host1";
  tags = [];
  zone = "zone";
  resource_pool = "pool";
  fqdn = "name.maas";
  power_state = "on";
  power_type = "lxd";
  hostname = "name";
  ip_addresses = [];
}

lists_host : list_host_vms (maas ("vm1" ∷ []) "host1" true) "host1" fresh ≡ (ok (vm1 ∷ []), fresh)
unfolding list_host_vms maas ◌==◌
lists_host = refl

list_host_vms-host_example : All (λ (vm : Machine). vm.host_system_id ≡ "host1") (vm1 ∷ [])
list_host_vms-host_example =
    list_host_vms-host (maas ("vm1" ∷ []) "host1" true) "host1" fresh fresh (vm1 ∷ []) lists_host

lists_all : list_all_vms (maas ("vm1" ∷ []) "host1" true) fresh ≡ (ok (vm1 ∷ []), fresh)
unfolding list_all_vms maas ◌==◌
lists_all = refl

validate_machine_update_iff_example :
    (validate_machine_update host host ≡ allowed) ↔ SameShape spec spec
validate_machine_update_iff_example = validate_machine_update_iff host host
