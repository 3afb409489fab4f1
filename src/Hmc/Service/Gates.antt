-- ===== src/Hmc/Service/Gates.antt =====
-- When the evacuation gates of a host open.
use cluster_api_provider_maa.Base.{
  ◌≡◌, ◌≢◌, ◌∙◌, ap, refl, false, ◌==◌, ==_iff, String, true, List, [], ◌∷◌, Option, none, some,
  arith, All, Result, ok, err, Error, wrap_result, bind_result,
}
use cluster_api_provider_maa.Services.{Maas, ConfigMap, Runtime, Codec}
use cluster_api_provider_maa.Kube.{Kube}
use cluster_api_provider_maa.Api.{MaasMachine}
use cluster_api_provider_maa.Maintenance.Session.{State, load_session, save_session}
use cluster_api_provider_maa.Maintenance.Session.Laws.{Loads, load_session-save_session}
use cluster_api_provider_maa.Services.Laws.{CodecLaws, ConfigMapsLaws, to_second}
use cluster_api_provider_maa.Maintenance.Inventory.{Machine, list_host_vms, get_host}
use cluster_api_provider_maa.Maintenance.Inventory.Laws.{list_host_vms_unreadable}
use cluster_api_provider_maa.Hmc.Service.{
  session_or_empty, note_progress, check_listed, check_wlc_ready_tags, refuse, second_gate,
  gates_of_listed, gates_of_system_id, check_evacuation_gates,
}

module _ {S : Type 0} (c : Codec) (k : Kube S) (r : Runtime S) (maas : Maas S)
    (range_order : List String → List String) (namespace : String) where
  gates_of_listed-Empty :
      (id : String) (l : Result (List Machine) × S) (s' : S)
      → bind_result
          (wrap_result "failed to list host VMs" l)
          (gates_of_listed c k r maas range_order namespace id)
        ≡ (ok true, s')
      → (t : S) × (l ≡ (ok [], t))
  unfolding gates_of_listed refuse
  gates_of_listed-Empty id (ok [], t) s' h = (t, refl)
  gates_of_listed-Empty id (ok (vm ∷ vms), t) s' h = ground arith
  gates_of_listed-Empty id (err e, t) s' h = ground arith

  -- The evacuation gates open only for a machine with a system id, and only where the listing of
  -- the VMs on that host, taken first, is empty.
  pub check_evacuation_gates-empty :
      (m : MaasMachine) (s s' : S)
      → check_evacuation_gates c k r maas range_order namespace m s ≡ (ok true, s')
      → (id : String) × (t : S) × (m.spec.system_id ≡ some id)
        × (list_host_vms maas id s ≡ (ok [], t))
  unfolding check_evacuation_gates
  check_evacuation_gates-empty m s s' h = go m.spec.system_id refl h
    where
      go :
          (o : Option String)
          → m.spec.system_id ≡ o
          → gates_of_system_id c k r maas range_order namespace o s ≡ (ok true, s')
          → (id : String) × (t : S) × (m.spec.system_id ≡ some id)
            × (list_host_vms maas id s ≡ (ok [], t))
      go none e h = ground arith
      go (some id) e h =
          let (t, listed) = gates_of_listed-Empty id (list_host_vms maas id s) s' h in
          (id, t, e, listed)

  note_progress-ok :
      (session : State) (clusters vms : List String) (s : S)
      → note_progress c k r maas namespace session clusters vms s
        ≡ (ok tt, (note_progress c k r maas namespace session clusters vms s).1)
  unfolding note_progress
  note_progress-ok session clusters vms s = ground arith

  -- The gates of a host without VMs, where the reads change nothing.
  check_evacuation_gates_of_empty :
      (m : MaasMachine) (id : String) (host : Machine) (loaded : Result (State × Option ConfigMap))
      (s : S)
      → m.spec.system_id ≡ some id
      → list_host_vms maas id s ≡ (ok [], s)
      → load_session c k.config_maps namespace s ≡ (loaded, s)
      → get_host maas id s ≡ (ok host, s)
      → check_evacuation_gates c k r maas range_order namespace m s ≡ (
        ok true,
        (note_progress c k r maas namespace (session_or_empty c k r maas loaded) [] [] s).1,
      )
  unfolding check_evacuation_gates gates_of_system_id gates_of_listed second_gate
      check_wlc_ready_tags check_listed
  check_evacuation_gates_of_empty m id host loaded s named empty session found = rw (
    named,
    empty,
    session,
    found,
    empty,
    note_progress-ok (session_or_empty c k r maas loaded) [] [] s,
  )

  -- The gates open although MAAS lists machines for the host, where the details of none of these
  -- machines can be read, the details of the host itself can, and all reads change nothing.
  pub check_evacuation_gates_of_unreadable :
      (m : MaasMachine) (id : String) (ids : List String) (host : Machine)
      (loaded : Result (State × Option ConfigMap)) (s : S)
      → m.spec.system_id ≡ some id
      → maas.list_machines (("parent", id) ∷ []) s ≡ (ok ids, s)
      → All (λ vm. (e : Error) × (maas.get_machine vm s ≡ (err e, s))) ids
      → load_session c k.config_maps namespace s ≡ (loaded, s)
      → get_host maas id s ≡ (ok host, s)
      → (check_evacuation_gates c k r maas range_order namespace m s).0 ≡ ok true
  check_evacuation_gates_of_unreadable m id ids host loaded s named listed unreadable session
        found =
      ap (λ p. p.0)
        (check_evacuation_gates_of_empty m id host loaded s named
          (list_host_vms_unreadable maas id ids s s listed unreadable) session found)

  module _ (codec_laws : CodecLaws c) (config_maps_laws : ConfigMapsLaws k.config_maps) where
    -- Where the listing of the host's VMs is empty, the host and a session with an operation id are
    -- read, these reads change nothing, and saving the session without affected clusters and
    -- pending VMs ends well, the gates open, in the state after that save; the session is then
    -- loaded with neither of them, its start to the second and its other fields as before.
    pub check_evacuation_gates-load_session :
        (m : MaasMachine) (id : String) (host : Machine) (st : State) (cm : Option ConfigMap)
        (s s' : S)
        → m.spec.system_id ≡ some id
        → list_host_vms maas id s ≡ (ok [], s)
        → load_session c k.config_maps namespace s ≡ (ok (st, cm), s)
        → get_host maas id s ≡ (ok host, s)
        → st.op_id ≢ ""
        → save_session c k.config_maps namespace
            (record st { affected_wlc_clusters = []; pending_ready_vm_replacements = [] })
            s
          ≡ (ok tt, s')
        → (check_evacuation_gates c k r maas range_order namespace m s ≡ (ok true, s'))
          × Loads c codec_laws k.config_maps config_maps_laws namespace
              (record st {
                started_at = to_second st.started_at;
                affected_wlc_clusters = [];
                pending_ready_vm_replacements = [];
              })
              s'
    unfolding note_progress session_or_empty ◌==◌
    check_evacuation_gates-load_session m id host st cm s s' named empty session found open_session
          saved =
        let unset : (st.op_id == "") ≡ false = ground (arith, ==_iff st.op_id "") in
        (
          check_evacuation_gates_of_empty m id host (ok (st, cm)) s named empty session found
              ∙ rw (unset, saved) refl,
          load_session-save_session c codec_laws k.config_maps config_maps_laws namespace
              (record st { affected_wlc_clusters = []; pending_ready_vm_replacements = [] }) s s'
              saved,
        )
