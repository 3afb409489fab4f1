-- ===== src/Examples/Workload.antt =====
-- The theorems on the evacuation of workload clusters, at concrete inputs.
use mathlib.Core.Path.{subst}
use cluster_api_provider_maa.Base.{
  Option, M, Result, err, fail, message, All, ap, sym, ◌∙◌, ==_iff, ok_parts, pos, ◌≡◌, ◌≢◌, ◌↔◌,
  refl, String, Bool, true, false, List, [], ◌∷◌, ◌++◌, none, some, Any, any, ok, ◌==◌, has_prefix,
  trim_prefix,
}
use cluster_api_provider_maa.Services.{Maas, ConfigMap}
use cluster_api_provider_maa.Kube.{CapiMachine, Cluster, Kcp, ClusterApi}
use cluster_api_provider_maa.Api.{MaasMachineSpec, MaasMachineTemplate, template_has_lxd_enabled}
use cluster_api_provider_maa.Maintenance.Tags.{
  tag_host_maintenance, tag_host_no_schedule, build_op_tag,
}
use cluster_api_provider_maa.Maintenance.Session.{status_active}
use cluster_api_provider_maa.Hmc.Service.{contains_string}
use cluster_api_provider_maa.Vec.Session.{
  maintenance_config_map_name, list_maintenance_sessions, save_maintenance_session,
}
use cluster_api_provider_maa.Vec.Session.Laws.{list_maintenance_sessions-save_maintenance_session}
use cluster_api_provider_maa.Vec.Scan.{
  CpMachineOnMaintenanceHost, last_part, provider_id_of, extract_system_id_from_provider_id,
  maintenance_op_id,
}
use cluster_api_provider_maa.Vec.Scan.Laws.{
  extract_system_id_from_provider_id-provider_id_of, maintenance_op_id-Any,
  maintenance_op_id-build_op_tag,
}
use cluster_api_provider_maa.Vec.ControlPlane.{
  is_kcp_stable, get_kubeadm_control_plane, is_wlc_cluster,
}
use cluster_api_provider_maa.Vec.ControlPlane.Laws.{IsSettled, is_kcp_stable_iff}
use cluster_api_provider_maa.Vec.Controller.{evacuate_first, reconcile}
use cluster_api_provider_maa.Vec.Controller.Permission.{MayEvacuate, Evacuates, with_writes}
use cluster_api_provider_maa.Vec.Controller.Laws.{evacuate_first-barred, reconcile-barred}
use cluster_api_provider_maa.Examples.Formats.{codec}
use cluster_api_provider_maa.Examples.Memory.{
  World, config_maps, config_maps_laws, config_maps-shown, fresh, runtime, kube, maas, spec,
}

abbrev kcp : Kcp
kcp = record {
  namespace = "ns";
  name = "kcp";
  paused = none;
  spec_replicas = some (pos 3);
  ready_replicas = some (pos 3);
  updated_replicas = some (pos 3);
  status_replicas = some (pos 3);
  template_name = some "t";
  max_surge = none;
}

abbrev cluster : Cluster
cluster = record {
  namespace = "ns";
  name = "c";
  has_control_plane_ref = true;
  infrastructure_provisioned = some true;
  control_plane_endpoint = none;
}

abbrev machine : CapiMachine
machine = record {
  namespace = "ns";
  name = "m1";
  uid = "1";
  is_deleting = false;
  infrastructure_name = "m1";
  is_control_plane = true;
  failure_domain = "";
  data_secret_name = some "bootstrap";
}

abbrev deleting : CapiMachine
deleting = record {
  namespace = "ns";
  name = "m2";
  uid = "2";
  is_deleting = true;
  infrastructure_name = "m2";
  is_control_plane = true;
  failure_domain = "";
  data_secret_name = some "bootstrap";
}

abbrev lxd_template : MaasMachineTemplate
lxd_template = record {
  namespace = "ns";
  name = "t";
  labels = none;
  spec = record spec { lxd = some (record { enabled = some true; disk_size = none }) };
}

abbrev no_vms : Maas World
no_vms = maas [] "" true

abbrev api : ClusterApi World
api = record {
  get_owner_cluster = λ mc w. (ok (some cluster), w);
  new_cluster_scope = λ cl mc w. (ok no_vms, w);
  get_control_plane = λ cl w. (ok kcp, w);
  update_control_plane = λ kcp w. (ok tt, w);
  list_cp_machines = λ ns n w. (ok (machine ∷ deleting ∷ []), w);
  delete_machine = λ m w. (ok tt, w);
  get_template = λ ns n w. (ok lxd_template, w);
  create_template = λ t w. (ok tt, w);
}

abbrev same_order : List String → List String
same_order l = l

abbrev same_text : String → String
same_text s = s

abbrev same_spec : MaasMachineSpec → MaasMachineSpec → Bool
same_spec a b = true

no_slash : last_part "abc" ≡ none
unfolding last_part
no_slash = refl

extract_system_id_from_provider_id-provider_id_of_example :
    extract_system_id_from_provider_id (provider_id_of "abc" "zone/1") ≡ "abc"
extract_system_id_from_provider_id-provider_id_of_example =
    extract_system_id_from_provider_id-provider_id_of "abc" "zone/1" no_slash

abbrev host_tags : List String
host_tags = (tag_host_maintenance ∷ tag_host_no_schedule ∷ []) ++ build_op_tag "op1" ∷ []

scanned : maintenance_op_id host_tags ≡ some "op1"
unfolding maintenance_op_id build_op_tag ◌==◌ has_prefix trim_prefix
scanned = refl

maintenance_op_id-Any_example :
    Any (λ (t : String). t ≡ tag_host_maintenance) host_tags
    × Any (λ (t : String). t ≡ tag_host_no_schedule) host_tags
    × Any (λ (t : String). t ≡ build_op_tag "op1") host_tags
    × ◌≢◌ {A = String} "op1" ""
maintenance_op_id-Any_example = maintenance_op_id-Any host_tags "op1" scanned

op_named : ◌≢◌ {A = String} "op1" ""
op_named h = cc h

has_maintenance : any (λ t. t == tag_host_maintenance) host_tags ≡ true
unfolding build_op_tag ◌==◌
has_maintenance = refl

has_no_schedule : any (λ t. t == tag_host_no_schedule) host_tags ≡ true
unfolding build_op_tag ◌==◌
has_no_schedule = refl

maintenance_op_id-build_op_tag_example : maintenance_op_id host_tags ≡ some "op1"
maintenance_op_id-build_op_tag_example =
    maintenance_op_id-build_op_tag (tag_host_maintenance ∷ tag_host_no_schedule ∷ []) [] "op1"
      op_named tt has_maintenance has_no_schedule

is_kcp_stable_iff_example : (is_kcp_stable kcp ≡ true) ↔ (kcp.paused ≢ some true) × IsSettled kcp
is_kcp_stable_iff_example = is_kcp_stable_iff kcp

abbrev info : CpMachineOnMaintenanceHost
info = record { machine = machine; host_system_id = "host1"; op_id = "op1" }

-- The calls that write, made to fail.
abbrev refuse_delete : CapiMachine → M World (Unit {0})
refuse_delete m = fail (message "no deletion")

abbrev refuse_update : Kcp → M World (Unit {0})
refuse_update changed = fail (message "no update")

abbrev refuse_create : MaasMachineTemplate → M World (Unit {0})
refuse_create t = fail (message "no template")

listed_or : List CapiMachine → Result (List CapiMachine) → List CapiMachine
listed_or ms (ok ns) = ns
listed_or ms (err e) = ms

two_uids : ("2" == "1") ≡ false
unfolding ◌==◌
two_uids = refl

-- The other machine is being deleted.
other_bars : ¬ MayEvacuate api cluster info.machine fresh
unfolding listed_or
other_bars m =
    let listed : machine ∷ deleting ∷ [] ≡ m.machines = ap (λ p. listed_or [] p.0) m.listed in
    let alone =
      subst (λ ms. All (λ (x : CapiMachine). x.is_deleting ≡ true → x.uid ≡ "1") ms) (sym listed)
        m.alone in
    cc (sym two_uids ∙ (==_iff "2" "1").1 (alone.1.0 refl))

evacuate_first-barred_example :
    evacuate_first codec kube runtime
      (with_writes refuse_delete refuse_update refuse_create api)
      same_order
      same_text
      same_spec
      cluster
      (info ∷ [])
      fresh
    ≡ evacuate_first codec kube runtime api same_order same_text same_spec cluster (info ∷ []) fresh
evacuate_first-barred_example =
    evacuate_first-barred codec kube runtime api same_order same_text same_spec refuse_delete
      refuse_update refuse_create cluster info [] fresh other_bars

saved : World
unfolding save_maintenance_session config_maps ◌==◌
saved =
    (save_maintenance_session codec config_maps runtime "ns" "op1" "host1" status_active fresh).1

is_saved :
    save_maintenance_session codec config_maps runtime "ns" "op1" "host1" status_active fresh
    ≡ (ok tt, saved)
unfolding save_maintenance_session config_maps ◌==◌ saved
is_saved = refl

lists_op1 : list_maintenance_sessions codec config_maps "ns" saved ≡ (ok ("op1" ∷ []), saved)
unfolding list_maintenance_sessions config_maps ◌==◌ saved save_maintenance_session
    maintenance_config_map_name has_prefix
lists_op1 = refl

shows_op1 :
    (cm : ConfigMap) (cms : List ConfigMap)
    → config_maps.get "ns" (maintenance_config_map_name "op1") saved ≡ (ok cm, saved)
    → config_maps.list "ns" saved ≡ (ok cms, saved)
    → Any (λ x. x ≡ cm) cms
unfolding maintenance_config_map_name
shows_op1 cm cms = config_maps-shown "ns" saved saved cm cms

list_maintenance_sessions-save_maintenance_session_example :
    contains_string ("op1" ∷ []) "op1" ≡ true
list_maintenance_sessions-save_maintenance_session_example =
    list_maintenance_sessions-save_maintenance_session codec config_maps config_maps_laws runtime
      "ns" "op1" "host1" fresh saved saved ("op1" ∷ []) op_named shows_op1 is_saved lists_op1

is_wlc : is_wlc_cluster api cluster saved ≡ (ok true, saved)
unfolding is_wlc_cluster ◌==◌ template_has_lxd_enabled get_kubeadm_control_plane
is_wlc = refl

owner_or : Cluster → Result (Option Cluster) → Cluster
owner_or cl (ok (some owner)) = owner
owner_or cl _ = cl

-- The session is active.
session_bars : ¬ Evacuates codec kube runtime api "ns" "c" saved
unfolding owner_or
session_bars e =
    let fetched : saved ≡ e.fetched_state = ap (λ p. p.1) e.fetched in
    let owner : cluster ≡ e.cluster = ap (λ p. owner_or cluster p.0) e.owned in
    let owned : saved ≡ e.owned_state = fetched ∙ ap (λ p. p.1) e.owned in
    let typed : is_wlc_cluster api cluster saved ≡ (ok true, e.typed_state) =
      subst (λ x. is_wlc_cluster api x saved ≡ (ok true, e.typed_state)) (sym owner)
        (subst (λ x. is_wlc_cluster api e.cluster x ≡ (ok true, e.typed_state)) (sym owned)
          e.typed) in
    let scoped : saved ≡ e.scoped_state =
      (ok_parts (sym is_wlc ∙ typed)).1 ∙ ap (λ p. p.1) e.scoped in
    let idle : list_maintenance_sessions codec config_maps "ns" saved ≡ (ok [], e.listed_state) =
      subst
        (λ (x : Cluster).
          list_maintenance_sessions codec config_maps x.namespace saved ≡ (ok [], e.listed_state))
        (sym owner)
        (subst
          (λ x.
            list_maintenance_sessions codec config_maps e.cluster.namespace x
            ≡ (ok [], e.listed_state))
          (sym scoped) e.idle) in
    cc (ok_parts (sym lists_op1 ∙ idle)).0

reconcile-barred_example :
    reconcile codec kube runtime
      (with_writes refuse_delete refuse_update refuse_create api)
      same_order
      same_text
      same_spec
      "ns"
      "c"
      saved
    ≡ reconcile codec kube runtime api same_order same_text same_spec "ns" "c" saved
reconcile-barred_example =
    reconcile-barred codec kube runtime api same_order same_text same_spec refuse_delete
      refuse_update refuse_create "ns" "c" saved session_bars
