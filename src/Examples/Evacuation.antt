-- ===== src/Examples/Evacuation.antt =====
-- The theorems on the evacuation of a host, at concrete inputs.
use mathlib.Core.Path.{subst}
use cluster_api_provider_maa.Base.{
  ap, Result, ◌≡◌, ◌≢◌, ◌↔◌, inl, inr, refl, String, true, false, List, [], ◌∷◌, none, some, All,
  Any, api, other, ok, err, ◌==◌, ==_iff, sym, ◌∙◌, if◌then◌else◌, has_prefix,
}
use cluster_api_provider_maa.Services.{Maas}
use cluster_api_provider_maa.Api.{MaasMachine}
use cluster_api_provider_maa.Maintenance.Tags.{
  tag_vm_control_plane, tag_host_maintenance, build_op_tag,
}
use cluster_api_provider_maa.Maintenance.Session.{
  empty_state, load_session, save_session, complete_session,
}
use cluster_api_provider_maa.Maintenance.Session.Laws.{stored, Loads, load_session-save_session}
use cluster_api_provider_maa.Services.Laws.{to_second}
use cluster_api_provider_maa.Maintenance.TagService.{new_tag_service, ensure_host_maintenance_tags}
use cluster_api_provider_maa.Maintenance.Inventory.{Machine, list_host_vms, get_host}
use cluster_api_provider_maa.Hmc.Replacement.{
  VmToReplace, vms_needing_replacement, all_replaced, scan_vm_tags,
}
use cluster_api_provider_maa.Hmc.Replacement.Laws.{
  Replaces, IsForeign, all_replaced_iff, all_replaced_of_foreign, scan_vm_tags_of_cp_last,
}
use cluster_api_provider_maa.Hmc.Service.{
  host_evacuation_finalizer, contains_string, is_host_machine, add_evacuation_finalizer,
  check_evacuation_gates, clear_maintenance_tags, clear_maintenance_tags_and_remove_finalizer,
  note_progress,
}
use cluster_api_provider_maa.Hmc.Service.Gates.{
  check_evacuation_gates-empty, check_evacuation_gates-load_session,
  check_evacuation_gates_of_unreadable,
}
use cluster_api_provider_maa.Hmc.Service.Cleanup.{
  add_evacuation_finalizer-contains, clear_maintenance_tags-tagged,
  clear_maintenance_tags_and_remove_finalizer-finalizers,
}
use cluster_api_provider_maa.Hmc.Controller.{
  done, evacuate, get_maas_credentials, reconcile_deleted_host,
}
use cluster_api_provider_maa.Hmc.Controller.Laws.{
  get_maas_credentials-AreSet, reconcile_deleted_host_of_cleared, evacuate_done-empty,
}
use cluster_api_provider_maa.Examples.Formats.{codec, codec_laws}
use cluster_api_provider_maa.Examples.Memory.{
  World, fresh, runtime, kube, config_maps, config_maps_laws, maas, tag_laws, host, spec,
}
use cluster_api_provider_maa.Examples.Session.{session}

abbrev no_vms : Maas World
no_vms = maas [] "" true

abbrev same_order : List String → List String
same_order l = l

abbrev client_set : String × String → Maas World
client_set creds = no_vms

gated : World
unfolding check_evacuation_gates config_maps maas ◌==◌
gated = (check_evacuation_gates codec kube runtime no_vms same_order "ns" host fresh).1

is_gated :
    check_evacuation_gates codec kube runtime no_vms same_order "ns" host fresh ≡ (ok true, gated)
unfolding check_evacuation_gates config_maps maas ◌==◌ gated list_host_vms get_host note_progress
    load_session
is_gated = refl

check_evacuation_gates-empty_example :
    (id : String) × (t : World) × (spec.system_id ≡ some id)
    × (list_host_vms no_vms id fresh ≡ (ok [], t))
check_evacuation_gates-empty_example =
    check_evacuation_gates-empty codec kube runtime no_vms same_order "ns" host fresh gated is_gated

evacuated : World
unfolding evacuate config_maps maas ◌==◌
evacuated = (evacuate codec kube runtime client_set same_order host session (some "host1") fresh).1

is_evacuated :
    evacuate codec kube runtime client_set same_order host session (some "host1") fresh
    ≡ (ok done, evacuated)
unfolding evacuate config_maps maas ◌==◌ evacuated get_maas_credentials ensure_host_maintenance_tags
    new_tag_service check_evacuation_gates list_host_vms get_host note_progress load_session
    clear_maintenance_tags_and_remove_finalizer has_prefix build_op_tag complete_session
is_evacuated = refl

evacuate_done-empty_example :
    (first second : String × String) × (s₁ s₂ s₃ s₄ : World) × (get_maas_credentials kube "ns" fresh
      ≡ (ok first, s₁))
    × (ensure_host_maintenance_tags (new_tag_service (client_set first)) "host1" "op1" s₁
        ≡ (ok tt, s₂))
    × (get_maas_credentials kube "ns" s₂ ≡ (ok second, s₃))
    × (list_host_vms (client_set second) "host1" s₃ ≡ (ok [], s₄))
evacuate_done-empty_example =
    evacuate_done-empty codec kube runtime client_set same_order host session "host1" fresh
      evacuated refl is_evacuated

abbrev host_view : Machine
host_view = record {
  system_id = "h";
  host_system_id = "";
  tags = [];
  zone = "zone";
  resource_pool = "pool";
  fqdn = "name.maas";
  power_state = "on";
  power_type = "lxd";
  hostname = "name";
  ip_addresses = [];
}

host_machine : Machine
host_machine = record host_view { system_id = "host1" }

lists_nothing : list_host_vms no_vms "host1" fresh ≡ (ok [], fresh)
unfolding list_host_vms maas
lists_nothing = refl

loads_nothing : load_session codec config_maps "ns" fresh ≡ (ok (empty_state, none), fresh)
unfolding load_session config_maps
loads_nothing = refl

gets_host : get_host no_vms "host1" fresh ≡ (ok host_machine, fresh)
unfolding get_host maas host_machine
gets_host = refl

-- A session is kept, and then kept again without affected clusters and pending VMs.
with_session : World
unfolding save_session config_maps ◌==◌
with_session = (save_session codec config_maps "ns" session fresh).1

session_kept : save_session codec config_maps "ns" session fresh ≡ (ok tt, with_session)
unfolding save_session config_maps ◌==◌ with_session
session_kept = refl

session-Loads :
    Loads codec codec_laws config_maps config_maps_laws "ns" (stored session) with_session
session-Loads =
    load_session-save_session codec codec_laws config_maps config_maps_laws "ns" session fresh
      with_session session_kept

noted : World
unfolding save_session config_maps ◌==◌ with_session
noted =
    (save_session codec config_maps "ns"
      (record (stored session) { affected_wlc_clusters = []; pending_ready_vm_replacements = [] })
      with_session).1

is_noted :
    save_session codec config_maps "ns"
      (record (stored session) { affected_wlc_clusters = []; pending_ready_vm_replacements = [] })
      with_session
    ≡ (ok tt, noted)
unfolding save_session config_maps ◌==◌ with_session noted
is_noted = refl

lists_none : list_host_vms no_vms "host1" with_session ≡ (ok [], with_session)
unfolding list_host_vms maas
lists_none = refl

gets_it : get_host no_vms "host1" with_session ≡ (ok host_machine, with_session)
unfolding get_host maas host_machine with_session save_session config_maps ◌==◌
gets_it = refl

has_operation : (stored session).op_id ≢ ""
has_operation h = cc h

check_evacuation_gates-load_session_example :
    (check_evacuation_gates codec kube runtime no_vms same_order "ns" host with_session
      ≡ (ok true, noted))
    × Loads codec codec_laws config_maps config_maps_laws "ns"
        (record (stored session) {
          started_at = to_second (stored session).started_at;
          affected_wlc_clusters = [];
          pending_ready_vm_replacements = [];
        })
        noted
check_evacuation_gates-load_session_example =
    check_evacuation_gates-load_session codec kube runtime no_vms same_order "ns" codec_laws
      config_maps_laws host "host1" host_machine (stored session) (some session-Loads.0)
      with_session noted refl lists_none session-Loads.1 gets_it has_operation is_noted

-- MAAS lists a machine for the host, and shows no details but the host's.
abbrev half_readable : Maas World
half_readable = record (maas ("vm1" ∷ []) "" true) {
  get_machine =
      λ id w. if id == "host1" then (maas [] "" true).get_machine id w else (err (api other id), w);
}

lists_vm : half_readable.list_machines (("parent", "host1") ∷ []) fresh ≡ (ok ("vm1" ∷ []), fresh)
unfolding maas
lists_vm = refl

vm_unreadable : half_readable.get_machine "vm1" fresh ≡ (err (api other "vm1"), fresh)
unfolding ◌==◌
vm_unreadable = refl

gets_half : get_host half_readable "host1" fresh ≡ (ok host_machine, fresh)
unfolding get_host maas host_machine ◌==◌
gets_half = refl

check_evacuation_gates_of_unreadable_example :
    (check_evacuation_gates codec kube runtime half_readable same_order "ns" host fresh).0 ≡ ok true
check_evacuation_gates_of_unreadable_example =
    check_evacuation_gates_of_unreadable codec kube runtime half_readable same_order "ns" host
      "host1" ("vm1" ∷ []) host_machine (ok (empty_state, none)) fresh refl lists_vm
      ((api other "vm1", vm_unreadable), tt) loads_nothing gets_half

abbrev wlc_vm : Machine
wlc_vm = record host_view { system_id = "vm1"; tags = "maas-lxd-wlc-a" ∷ tag_vm_control_plane ∷ [] }

abbrev foreign : Machine
foreign = record host_view {
  system_id = "vm2";
  tags = "maas-lxd-wlc-b" ∷ tag_vm_control_plane ∷ "maas-lxd-ready-op-1" ∷ [];
}

all_replaced_iff_example :
    (all_replaced host_view
        (record { system_id = "vm1"; cluster_tag = "maas-lxd-wlc-b" } ∷ [])
        (foreign ∷ [])
      ≡ true)
    ↔ All
        (λ (vm : VmToReplace). Any (Replaces host_view vm) (foreign ∷ []))
        (record { system_id = "vm1"; cluster_tag = "maas-lxd-wlc-b" } ∷ [])
all_replaced_iff_example =
    all_replaced_iff host_view (record { system_id = "vm1"; cluster_tag = "maas-lxd-wlc-b" } ∷ [])
      (foreign ∷ [])

differ : ("vm2" == "vm1") ≡ false
unfolding ◌==◌
differ = refl

other_id : ◌≢◌ {A = String} "vm2" "vm1"
other_id h = cc (sym differ ∙ (==_iff "vm2" "vm1").1 h)

ready_op : has_prefix "maas-lxd-ready-op-1" "maas-lxd-ready-op-" ≡ true
unfolding has_prefix
ready_op = refl

foreign-IsForeign : IsForeign host_view wlc_vm foreign
foreign-IsForeign = record {
  same_pool = refl;
  same_zone = refl;
  another = other_id;
  control_plane = inr (inl refl);
  ready = inr (inr (inl ready_op));
}

-- The listing holds the VM itself as well.
all_replaced_of_foreign_example :
    all_replaced host_view (vms_needing_replacement (wlc_vm ∷ [])) (wlc_vm ∷ foreign ∷ []) ≡ true
all_replaced_of_foreign_example =
    all_replaced_of_foreign host_view (wlc_vm ∷ []) (wlc_vm ∷ foreign ∷ [])
      (((("maas-lxd-wlc-a" ∷ []), [], refl, tt), inr (inl foreign-IsForeign)), tt)

scan_vm_tags_of_cp_last_example :
    scan_vm_tags ("maas-lxd-wlc-a" ∷ tag_vm_control_plane ∷ []) false ""
    ≡ (true, tag_vm_control_plane)
scan_vm_tags_of_cp_last_example = scan_vm_tags_of_cp_last ("maas-lxd-wlc-a" ∷ []) [] false "" tt

abbrev new_host : MaasMachine
new_host = record host { finalizers = "other" ∷ [] }

is_host : is_host_machine new_host ≡ true
unfolding is_host_machine ◌==◌
is_host = refl

adds : add_evacuation_finalizer codec kube runtime no_vms new_host fresh ≡ (ok host, fresh)
unfolding add_evacuation_finalizer ◌==◌
adds = refl

add_evacuation_finalizer-contains_example :
    (contains_string host.finalizers host_evacuation_finalizer ≡ true)
    × ((t : World) → add_evacuation_finalizer codec kube runtime no_vms host t ≡ (ok host, t))
add_evacuation_finalizer-contains_example =
    add_evacuation_finalizer-contains codec kube runtime no_vms new_host host fresh fresh is_host
      adds

abbrev tagged_world : World
tagged_world = record fresh {
  tags = λ id. "keep" ∷ tag_host_maintenance ∷ "maas-lxd-hcp-op-1" ∷ "maas-lxd-hcp-op-2" ∷ [];
}

cleared : World
unfolding clear_maintenance_tags maas ◌==◌
cleared = (clear_maintenance_tags codec kube runtime no_vms "host1" tagged_world).1

is_cleared :
    clear_maintenance_tags codec kube runtime no_vms "host1" tagged_world ≡ (ok tt, cleared)
unfolding clear_maintenance_tags maas ◌==◌ cleared get_host has_prefix new_tag_service
is_cleared = refl

clear_maintenance_tags-tagged_example :
    (tag_laws [] "").tagged cleared "host1" "maas-lxd-hcp-op-2" ≡ false
unfolding ◌==◌ has_prefix
clear_maintenance_tags-tagged_example =
    clear_maintenance_tags-tagged codec kube runtime no_vms (tag_laws [] "") "host1" tagged_world
      cleared is_cleared "host1" "maas-lxd-hcp-op-2"

removed : World
unfolding clear_maintenance_tags_and_remove_finalizer maas ◌==◌
removed =
    (clear_maintenance_tags_and_remove_finalizer codec kube runtime no_vms host tagged_world).1

is_removed :
    clear_maintenance_tags_and_remove_finalizer codec kube runtime no_vms host tagged_world
    ≡ (ok new_host, removed)
unfolding clear_maintenance_tags_and_remove_finalizer maas ◌==◌ removed get_host has_prefix
    new_tag_service
is_removed = refl

clear_maintenance_tags_and_remove_finalizer-finalizers_example :
    ((f : String)
      → contains_string new_host.finalizers f
        ≡ (if f == host_evacuation_finalizer then false else contains_string host.finalizers f))
    × (new_host.spec ≡ host.spec)
clear_maintenance_tags_and_remove_finalizer-finalizers_example =
    clear_maintenance_tags_and_remove_finalizer-finalizers codec kube runtime no_vms host new_host
      tagged_world removed is_removed

kept :
    (m : MaasMachine) (s s' : World)
    → kube.update_maas_machine m s ≡ (ok tt, s')
    → kube.get_maas_machine m.namespace m.name s' ≡ (ok m, s')
kept m s s' h =
    subst (λ (x : World). ◌≡◌ {A = Result MaasMachine × World} (ok x.machine, x) (ok m, x))
      (ap (λ p. p.1) h) refl

reconcile_deleted_host_of_cleared_example :
    (read : MaasMachine) × (kube.get_maas_machine "ns" "m" removed ≡ (ok read, removed))
    × (contains_string read.finalizers host_evacuation_finalizer ≡ false)
    × ((t : World)
        → reconcile_deleted_host codec kube runtime client_set same_order read t ≡ (ok done, t))
reconcile_deleted_host_of_cleared_example =
    reconcile_deleted_host_of_cleared codec kube runtime client_set same_order kept no_vms host
      new_host tagged_world removed is_removed

get_maas_credentials-AreSet_example : ◌≢◌ {A = String} "secret" "" × ◌≢◌ {A = String} "secret" ""
unfolding get_maas_credentials ◌==◌
get_maas_credentials-AreSet_example = get_maas_credentials-AreSet kube "ns" fresh
