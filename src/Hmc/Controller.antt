-- ===== src/Hmc/Controller.antt =====
-- `HMCMaintenanceReconciler` of controllers/host_maintenance_controller.go, and the credentials of
-- the MAAS client from pkg/maas/maintenance/common.go. The controller runtime ignores the delay of a
-- result that comes with an error, so a reconcile ends in an outcome or an error.
pub mod Laws
use cluster_api_provider_maa.Base.{
  ◌<>◌, ℕ, String, Bool, true, false, not, ◌&&◌, ◌||◌, List, [], ◌∷◌, Option, none, some, ◌==◌, any,
  deref, is_above_one, if◌then◌else◌, M, Result, ok, err, Error, message, is_not_found, return,
  fail, attempt, ◌>>=◌, ◌>>◌,
}
use cluster_api_provider_maa.Services.{Maas, ConfigMap, Data, empty_data, put, Runtime, Codec}
use cluster_api_provider_maa.Kube.{Kube, CapiMachine}
use cluster_api_provider_maa.Api.{OwnerReference, MaasMachine, MaasCluster, is_hcp_maas_cluster}
use cluster_api_provider_maa.Maintenance.Session.{
  session_cm_name, status_active, State, load_session, start_session, complete_session,
  should_start_from_trigger,
}
use cluster_api_provider_maa.Maintenance.TagService.{new_tag_service, ensure_host_maintenance_tags}
use cluster_api_provider_maa.Hmc.Service.{
  host_evacuation_finalizer, contains_string, check_evacuation_gates,
  clear_maintenance_tags_and_remove_finalizer,
}

abbrev pub evacuation_completed_annotation : String
evacuation_completed_annotation = "maas.lxd.io/evacuation-completed"

-- `ctrl.Result`: nothing more, or a requeue after some seconds.
pub data Outcome : Type 0 where
  done : Outcome
  requeue_after : ℕ → Outcome

abbrev pub first_set : String → String → String
first_set a b = if a == "" then b else a

module _ {S : Type 0} (k : Kube S) where
  env_credentials : M S (String × String)
  env_credentials =
      let endpoint = first_set (k.getenv "MAAS_ENDPOINT") (k.getenv "MAAS_API_URL") in
      let api_key = first_set (k.getenv "MAAS_API_KEY") (k.getenv "MAAS_API_TOKEN") in
      if endpoint == ""
      then fail (
          message
            "MAAS endpoint not found: check capmaas-manager-bootstrap-credentials secret (MAAS_ENDPOINT) or MAAS_ENDPOINT/MAAS_API_URL environment variable")
      else if api_key == ""
      then fail (
          message
            "MAAS API key not found: check capmaas-manager-bootstrap-credentials secret (MAAS_API_KEY) or MAAS_API_KEY/MAAS_API_TOKEN environment variable")
      else return (endpoint, api_key)

  secret_credentials : Result Data × S → Result (String × String) × S
  unfolding env_credentials
  secret_credentials (err e, s) = env_credentials s
  secret_credentials (ok d, s) =
      if not (d "MAAS_ENDPOINT" == "") && not (d "MAAS_API_KEY" == "")
      then (ok (d "MAAS_ENDPOINT", d "MAAS_API_KEY"), s)
      else env_credentials s

  -- `GetMAASCredentials`, with a client that is not nil.
  unfoldable pub get_maas_credentials : String → M S (String × String)
  unfolding secret_credentials env_credentials
  get_maas_credentials namespace = if namespace == "" then env_credentials else λ s.
      secret_credentials (k.get_secret namespace "capmaas-manager-bootstrap-credentials" s)

  -- `r.Get` of the MaasCluster, where an error of another kind than `NotFound` is an error.
  hcp_of_cluster : Result MaasCluster × S → Result Bool × S
  hcp_of_cluster (ok mc, s) = (ok (is_hcp_maas_cluster mc), s)
  hcp_of_cluster (err e, s) = if is_not_found e then (ok false, s) else (err e, s)

  hcp_of_infrastructure : String → Result (Option String) × S → Result Bool × S
  unfolding hcp_of_cluster
  hcp_of_infrastructure namespace (err e, s) = (ok false, s)
  hcp_of_infrastructure namespace (ok none, s) = (ok false, s)
  hcp_of_infrastructure namespace (ok (some name), s) =
      hcp_of_cluster (k.get_maas_cluster namespace name s)

  unfoldable pub is_hcp_cluster_for_machine : MaasMachine → M S Bool
  unfolding hcp_of_infrastructure
  is_hcp_cluster_for_machine m s =
      hcp_of_infrastructure m.namespace (k.get_cluster_from_metadata m s)

-- The first owner that is a Cluster API Machine.
machine_owner : List OwnerReference → Option OwnerReference
machine_owner [] = none
machine_owner (ref ∷ refs) =
    let rest = machine_owner refs in
    if ref.kind == "Machine" && ref.api_version == "cluster.x-k8s.io/v1beta2"
    then some ref
    else rest

pub is_annotated : Option Data → Bool
is_annotated none = false
is_annotated (some d) = not (d evacuation_completed_annotation == "")

annotations_of : Option Data → Data
annotations_of none = empty_data
annotations_of (some d) = d

unfoldable pub annotate : MaasMachine → String → MaasMachine
unfolding annotations_of
annotate m op_id = record m {
  annotations = some (put (annotations_of m.annotations) evacuation_completed_annotation op_id);
}

module _ {S : Type 0} (c : Codec) (k : Kube S) (r : Runtime S)
    (client_set : String × String → Maas S) (range_order : List String → List String) where
  -- The last part of `reconcileMaasMachine`: the gates are met.
  unfoldable pub finish_evacuation : Maas S → MaasMachine → State → M S Outcome
  unfolding annotate
  finish_evacuation maas m st = do
    m' ← clear_maintenance_tags_and_remove_finalizer c k r maas m
    updated ← attempt (k.update_maas_machine (annotate m' st.op_id))
    complete_session c k.config_maps m.namespace >>= λ _.
        attempt (load_session c k.config_maps m.namespace) >>= λ _. return done

  evacuate_if : Maas S → MaasMachine → State → Bool → M S Outcome
  unfolding finish_evacuation
  evacuate_if maas m st true = finish_evacuation maas m st
  evacuate_if maas m st false = return (requeue_after 10)

  check_and_finish : MaasMachine → State → String × String → M S Outcome
  unfolding evacuate_if
  check_and_finish m st credentials =
      check_evacuation_gates c k r (client_set credentials) range_order m.namespace m
      >>= evacuate_if (client_set credentials) m st

  -- The service makes a client of its own, from the same credentials.
  make_service_and_check : MaasMachine → State → M S Outcome
  unfolding check_and_finish
  make_service_and_check m st = get_maas_credentials k m.namespace >>= check_and_finish m st

  tag_and_check : MaasMachine → State → String → String × String → M S Outcome
  unfolding make_service_and_check
  tag_and_check m st id credentials =
      ensure_host_maintenance_tags (new_tag_service (client_set credentials)) id st.op_id
      >> make_service_and_check m st

  -- From the system id on: tag the host, check the gates, and finish or wait.
  unfoldable pub evacuate : MaasMachine → State → Option String → M S Outcome
  unfolding tag_and_check
  evacuate m st none = fail (message "maasMachine has no systemID")
  evacuate m st (some id) = get_maas_credentials k m.namespace >>= tag_and_check m st id

  start_if_idle : MaasMachine → State → Option String → M S State
  start_if_idle m st none = return st
  start_if_idle m st (some id) =
      if st.op_id == "" || not (st.status == status_active)
      then start_session c k.config_maps r m.namespace id
      else return st

  -- Behind the checks of the owner: the machine is a host of an HCP cluster that is being deleted.
  unfoldable pub reconcile_deleted_host : MaasMachine → M S Outcome
  unfolding is_annotated start_if_idle evacuate
  reconcile_deleted_host m =
      if is_annotated m.annotations
      then return done
      else if not (contains_string m.finalizers host_evacuation_finalizer)
      then return done
      else (do
        (st, cm) ← load_session c k.config_maps m.namespace
        st' ← start_if_idle m st m.spec.system_id
        evacuate m st' m.spec.system_id)

  with_capi_machine : MaasMachine → Result CapiMachine × S → Result Outcome × S
  unfolding reconcile_deleted_host
  with_capi_machine m (err e, s) = if is_not_found e then (ok done, s) else (err e, s)
  with_capi_machine m (ok machine, s) =
      if machine.is_deleting then reconcile_deleted_host m s else (ok done, s)

  with_owner : MaasMachine → Option OwnerReference → M S Outcome
  unfolding with_capi_machine
  with_owner m none s = (ok done, s)
  with_owner m (some owner) s = with_capi_machine m (k.get_capi_machine m.namespace owner.name s)

  unfoldable pub reconcile_maas_machine : MaasMachine → M S Outcome
  unfolding is_hcp_cluster_for_machine machine_owner with_owner
  reconcile_maas_machine m = if not (deref m.spec.parent == "") then return done else (do
    hcp ← is_hcp_cluster_for_machine k m
    if hcp then with_owner m (machine_owner m.owner_references) else return done)

  start_if_triggered : String → State → Bool × String → M S State
  start_if_triggered namespace st (false, host) = return st
  start_if_triggered namespace st (true, host) = start_session c k.config_maps r namespace host

  tag_current_host : String → State → M S Outcome
  tag_current_host namespace st =
      if not (st.status == status_active) || st.current_host == "" || st.op_id == ""
      then return done
      else if is_above_one st.active_sessions
      then fail (message ("multiple active sessions detected: " <> c.format_int st.active_sessions))
      else (do
        credentials ← get_maas_credentials k namespace
        ensure_host_maintenance_tags (new_tag_service (client_set credentials)) st.current_host
              st.op_id
            >>= λ _. return done)

  unfoldable pub reconcile_config_map : String → String → M S Outcome
  unfolding start_if_triggered tag_current_host
  reconcile_config_map namespace name =
      if name == session_cm_name
      then (do
        (st, cm) ← load_session c k.config_maps namespace
        st' ← start_if_triggered namespace st (should_start_from_trigger cm)
        tag_current_host namespace st')
      else return done

  or_config_map : String → String → Result MaasMachine × S → Result Outcome × S
  unfolding reconcile_maas_machine reconcile_config_map
  or_config_map namespace name (ok m, s) = reconcile_maas_machine m s
  or_config_map namespace name (err e, s) = found (k.config_maps.get namespace name s)
    where
      found : Result ConfigMap × S → Result Outcome × S
      found (ok cm, s) = reconcile_config_map namespace name s
      found (err e, s) = (ok done, s)

  unfoldable pub reconcile : String → String → M S Outcome
  unfolding or_config_map
  reconcile namespace name s = or_config_map namespace name (k.get_maas_machine namespace name s)
