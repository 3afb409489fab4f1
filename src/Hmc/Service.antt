-- ===== src/Hmc/Service.antt =====
-- `HostMaintenanceService` of controllers/host_maintenance_service.go. Log lines are left out; the
-- recorder of events is there, as the manager sets it.
pub mod Gates
pub mod Cleanup
use cluster_api_provider_maa.Base.{
  ℕ, pos, String, ◌<>◌, Bool, true, false, not, ◌&&◌, ◌||◌, List, [], ◌∷◌, ◌++◌, Option, none, some,
  ◌==◌, length, any, is_nil, deref, if◌then◌else◌, has_prefix, M, Result, ok, err, Error, message,
  wrap, return, fail, attempt, wrapping, ◌>>=◌, ◌>>◌,
}
use cluster_api_provider_maa.Services.{Maas, ConfigMap, Runtime, Codec}
use cluster_api_provider_maa.Kube.{Kube}
use cluster_api_provider_maa.Api.{MaasMachine}
use cluster_api_provider_maa.Maintenance.Tags.{
  tag_host_maintenance, tag_host_no_schedule, tag_host_op_prefix,
}
use cluster_api_provider_maa.Maintenance.Session.{State, empty_state, load_session, save_session}
use cluster_api_provider_maa.Maintenance.TagService.{new_tag_service}
use cluster_api_provider_maa.Maintenance.Inventory.{Machine, list_host_vms, list_all_vms, get_host}
use cluster_api_provider_maa.Hmc.Replacement.{VmToReplace, vms_needing_replacement, all_replaced}

abbrev pub host_evacuation_finalizer : String
host_evacuation_finalizer = "maas.lxd.io/host-evacuation"

unfoldable pub contains_string : List String → String → Bool
contains_string items s = any (λ item. item == s) items

unfoldable pub remove_string : List String → String → List String
remove_string [] s = []
remove_string (item ∷ items) s =
    let rest = remove_string items s in if item == s then rest else item ∷ rest

unfoldable pub is_host_machine : MaasMachine → Bool
is_host_machine m = deref m.spec.parent == ""

-- The name of a VM in an event: its FQDN, else its hostname, else its system id.
vm_name : Machine → String
vm_name vm =
    let named = if vm.fqdn == "" then vm.hostname else vm.fqdn in
    if named == "" then vm.system_id else named

join : List String → String
join [] = ""
join (s ∷ []) = s
join (s ∷ t ∷ ts) = s <> (", " <> join (t ∷ ts))

vm_names : List Machine → List String
unfolding vm_name
vm_names [] = []
vm_names (vm ∷ vms) = vm_name vm ∷ vm_names vms

host_name : String → Result Machine → String
host_name id (err e) = id
host_name id (ok d) = if d.fqdn == "" then (if d.hostname == "" then id else d.hostname) else d.fqdn

-- The distinct cluster tags, in the order in which they first occur.
distinct_tags : List VmToReplace → List String
distinct_tags [] = []
distinct_tags (vm ∷ vms) =
    let rest = distinct_tags vms in vm.cluster_tag ∷ remove_string rest vm.cluster_tag

pending_ids : List VmToReplace → List String
pending_ids [] = []
pending_ids (vm ∷ vms) = vm.system_id ∷ pending_ids vms

module _ {S : Type 0} (c : Codec) (k : Kube S) (r : Runtime S) (maas : Maas S) where
  unfoldable pub add_evacuation_finalizer : MaasMachine → M S MaasMachine
  unfolding is_host_machine contains_string
  add_evacuation_finalizer m =
      if not (is_host_machine m)
      then return m
      else if contains_string m.finalizers host_evacuation_finalizer
      then return m
      else (do
        let m' = record m { finalizers = m.finalizers ++ (host_evacuation_finalizer ∷ []) }
        k.update_maas_machine m' >>= λ _. return m')

  -- A session that cannot be loaded counts as an empty one.
  pub session_or_empty : Result (State × Option ConfigMap) → State
  session_or_empty (ok (st, cm)) = st
  session_or_empty (err e) = empty_state

  -- `if session.OpID != "" { SaveSession }`, with its error passed over.
  unfoldable pub note_progress : String → State → List String → List String → M S (Unit {0})
  note_progress namespace session clusters vms =
      if session.op_id == ""
      then return tt
      else attempt (
          save_session c k.config_maps namespace (record session {
            affected_wlc_clusters = clusters;
            pending_ready_vm_replacements = vms;
          }))
        >>= λ _. return tt

  -- The part behind the collection of the VMs that need a replacement. `range_order` is the order
  -- in which Go ranges over the map of the affected clusters.
  unfoldable pub check_replacements :
      (List String → List String) → String → State → Machine → List VmToReplace → M S Bool
  unfolding distinct_tags pending_ids
  check_replacements range_order namespace session host [] =
      note_progress namespace session [] [] >>= λ _. return true
  check_replacements range_order namespace session host (vm ∷ vms) = do
    note_progress namespace session (range_order (distinct_tags (vm ∷ vms)))
          (pending_ids (vm ∷ vms))
        >>= λ _. wrapping "failed to list all VMs" (list_all_vms maas) >>= λ all_vms.
            return (all_replaced host (vm ∷ vms) all_vms)

  -- The part behind the listing of the host's VMs.
  unfoldable pub check_listed :
      (List String → List String) → String → State → Machine → List Machine → M S Bool
  unfolding check_replacements
  check_listed range_order namespace session host [] =
      note_progress namespace session [] [] >>= λ _. return true
  check_listed range_order namespace session host (vm ∷ vms) =
      check_replacements range_order namespace session host (vms_needing_replacement (vm ∷ vms))

  unfoldable pub check_wlc_ready_tags : (List String → List String) → String → String → M S Bool
  unfolding session_or_empty check_listed
  check_wlc_ready_tags range_order namespace host_system_id = do
    loaded ← attempt (load_session c k.config_maps namespace)
    host ← wrapping "failed to get host details" (get_host maas host_system_id)
    vms ← wrapping "failed to list host VMs" (list_host_vms maas host_system_id)
    check_listed range_order namespace (session_or_empty loaded) host vms

  -- Both refusals look the host up for its name and send an event.
  refuse : String → (String → String) → String → M S Bool
  unfolding host_name
  refuse reason text host_system_id = do
    host ← attempt (get_host maas host_system_id)
    λ s. (ok false, r.event reason (text (host_name host_system_id host)) s)

  still_present : List Machine → String → String
  unfolding vm_names join
  still_present vms host =
      "Host evacuation blocked: "
      <> (c.format_int (pos (length vms))
          <> (" VM(s) still present on host " <> (host <> (": " <> join (vm_names vms)))))

  second_gate : (List String → List String) → String → String → M S Bool
  unfolding refuse check_wlc_ready_tags
  second_gate range_order namespace host_system_id = do
    ready ←
        wrapping "failed to check WLC ready tags"
          (check_wlc_ready_tags range_order namespace host_system_id)
    if ready
        then return true
        else refuse "WLCReplacementPending"
            (λ host. "WLC evacuation blocked: waiting for replacement VMs on host " <> host)
            host_system_id

  gates_of_listed : (List String → List String) → String → String → List Machine → M S Bool
  unfolding second_gate refuse still_present
  gates_of_listed range_order namespace host_system_id [] =
      second_gate range_order namespace host_system_id
  gates_of_listed range_order namespace host_system_id (vm ∷ vms) =
      refuse "EvacuationBlocked" (still_present (vm ∷ vms)) host_system_id

  gates_of_system_id : (List String → List String) → String → Option String → M S Bool
  unfolding gates_of_listed
  gates_of_system_id range_order namespace none = fail (message "maasMachine has no systemID")
  gates_of_system_id range_order namespace (some id) =
      wrapping "failed to list host VMs" (list_host_vms maas id)
      >>= gates_of_listed range_order namespace id

  unfoldable pub check_evacuation_gates :
      (List String → List String) → String → MaasMachine → M S Bool
  unfolding gates_of_system_id
  check_evacuation_gates range_order namespace m =
      gates_of_system_id range_order namespace m.spec.system_id

  -- `clearMaintenanceTags`: the loop over the tags that the host was seen to have.
  remove_op_tags : String → List String → M S (Unit {0})
  remove_op_tags host_system_id [] = return tt
  remove_op_tags host_system_id (tag ∷ tags) =
      let rest = remove_op_tags host_system_id tags in
      if has_prefix tag tag_host_op_prefix
      then (new_tag_service maas).remove_tag_from_host host_system_id tag >> rest
      else rest

  unfoldable pub clear_maintenance_tags : String → M S (Unit {0})
  unfolding remove_op_tags
  clear_maintenance_tags host_system_id = do
    host ← get_host maas host_system_id
    (new_tag_service maas).remove_tag_from_host host_system_id tag_host_maintenance
    (new_tag_service maas).remove_tag_from_host host_system_id tag_host_no_schedule
    remove_op_tags host_system_id host.tags

  remove_finalizer : MaasMachine → String → M S MaasMachine
  unfolding remove_string clear_maintenance_tags
  remove_finalizer m id = do
    clear_maintenance_tags id >>= λ _.
        let m' = record m { finalizers = remove_string m.finalizers host_evacuation_finalizer } in
        k.update_maas_machine m' >>= λ _. return m'

  clear_of_system_id : MaasMachine → Option String → M S MaasMachine
  unfolding remove_finalizer
  clear_of_system_id m none = fail (message "maasMachine has no systemID")
  clear_of_system_id m (some id) = remove_finalizer m id

  unfoldable pub clear_maintenance_tags_and_remove_finalizer : MaasMachine → M S MaasMachine
  unfolding clear_of_system_id
  clear_maintenance_tags_and_remove_finalizer m = clear_of_system_id m m.spec.system_id
