-- ===== src/Maintenance/Session.antt =====
-- pkg/maas/maintenance/session.go: the maintenance session that is kept in a ConfigMap.
pub mod Laws
use cluster_api_provider_maa.Base.{
  ℕ, ℤ, pos, is_one, String, Bool, true, false, not, ◌&&◌, List, [], ◌∷◌, Option, none, some, ◌==◌,
  if◌then◌else◌, M, Result, ok, err, Error, message, wrap, is_not_found, return, fail, ◌>>=◌, ◌>>◌,
}
use cluster_api_provider_maa.Services.{ConfigMap, ConfigMaps, Runtime, Codec, Data, empty_data, put}

abbrev pub session_cm_name : String
session_cm_name = "hcp-maintenance-session"

abbrev pub status_active : String
status_active = "Active"

abbrev pub status_completed : String
status_completed = "Completed"

-- `State`
pub record State : Type 0 where
  pub op_id : String
  pub status : String
  pub started_at : ℕ
  pub current_host : String
  pub active_sessions : ℤ
  pub affected_wlc_clusters : List String
  pub pending_ready_vm_replacements : List String

abbrev pub empty_state : State
empty_state = record {
  op_id = "";
  status = "";
  started_at = 0;
  current_host = "";
  active_sessions = pos 0;
  affected_wlc_clusters = [];
  pending_ready_vm_replacements = [];
}

-- A field that is present and can be parsed; the zero value otherwise.
abbrev parsed {ℓ} : {A : Type ℓ} → A → (String → Option A) → String → A
parsed zero_value parse t =
    if t == "" then zero_value else elim (parse t) [ none ↦ zero_value | some a ↦ a ]

module _ (c : Codec) where
  pub state_of_data : Data → State
  state_of_data d = record {
    op_id = d "opId";
    status = d "status";
    started_at = parsed 0 c.parse_time (d "startedAt");
    current_host = d "currentHost";
    active_sessions = parsed (pos 0) c.scan_int (d "activeSessions");
    affected_wlc_clusters = parsed [] c.unmarshal (d "affectedWLCClusters");
    pending_ready_vm_replacements = parsed [] c.unmarshal (d "pendingReadyVMReplacements");
  }

  pub state_of_content : Option Data → State
  unfolding state_of_data
  state_of_content none = empty_state
  state_of_content (some d) = state_of_data d

  -- A list as JSON; `none` is an error of `json.Marshal`.
  pub marshal_list : List String → Option String
  marshal_list [] = some "[]"
  marshal_list (x ∷ xs) = c.marshal (x ∷ xs)

  -- What `SaveSession` puts into the data of the ConfigMap.
  pub session_data : Data → State → String → String → Data
  session_data d st clusters vms =
      let saved =
        put
          (put
            (put
              (put
                (put (put (put d "opId" st.op_id) "status" st.status) "currentHost" st.current_host)
                "startedAt" (c.format_time st.started_at))
              "activeSessions" (c.format_int st.active_sessions))
            "affectedWLCClusters" clusters)
          "pendingReadyVMReplacements" vms in
      if saved "progress" == "" then put saved "progress" "{}" else saved

  data_of : Option Data → Data
  data_of none = empty_data
  data_of (some d) = d

  module _ {S : Type 0} (k : ConfigMaps S) where
    load_result : Result ConfigMap × S → Result (State × Option ConfigMap) × S
    unfolding state_of_content
    load_result (ok cm, s) = (ok (state_of_content cm.content, some cm), s)
    load_result (err e, s) = if is_not_found e then (ok (empty_state, none), s) else (err e, s)

    unfoldable pub load_session : String → M S (State × Option ConfigMap)
    unfolding load_result
    load_session namespace s = load_result (k.get namespace session_cm_name s)

    -- The ConfigMap to write to: the one that is there, or a new one.
    found_or_new : String → Result ConfigMap × S → Result ConfigMap × S
    found_or_new namespace (ok cm, s) = (ok cm, s)
    found_or_new namespace (err e, s) =
        if is_not_found e
        then (
          ok (record { namespace = namespace; name = session_cm_name; uid = ""; content = none }),
          s,
        )
        else (err e, s)

    create_or_update : ConfigMap → M S (Unit {0})
    create_or_update cm = if cm.uid == "" then k.create cm else k.update cm

    marshalled : String → Option String → M S String
    marshalled text none = fail (wrap text (message "json"))
    marshalled text (some t) = return t

    write_session : State → ConfigMap → String → String → M S (Unit {0})
    unfolding create_or_update session_data data_of
    write_session st cm clusters vms =
        create_or_update
          (record cm { content = some (session_data (data_of cm.content) st clusters vms) })

    save_pending : State → ConfigMap → String → M S (Unit {0})
    save_pending st cm clusters =
        marshalled "failed to serialize pending wlc" (marshal_list st.pending_ready_vm_replacements)
        >>= write_session st cm clusters

    save_into : State → ConfigMap → M S (Unit {0})
    save_into st cm =
        marshalled "failed to serialize affected wlc" (marshal_list st.affected_wlc_clusters)
        >>= save_pending st cm

    get_or_new : String → M S ConfigMap
    unfolding found_or_new
    get_or_new namespace s = found_or_new namespace (k.get namespace session_cm_name s)

    unfoldable pub save_session : String → State → M S (Unit {0})
    unfolding get_or_new save_into save_pending write_session marshalled marshal_list
    save_session namespace st = get_or_new namespace >>= save_into st

    -- There is an active session, and it counts as one.
    unfoldable pub is_running : State → Option ConfigMap → Bool
    is_running st none = false
    is_running st (some cm) = st.status == status_active && is_one st.active_sessions

    module _ (r : Runtime S) where
      new_state : String → String → ℕ → State
      new_state current_host id t = record {
        op_id = id;
        status = status_active;
        started_at = t;
        current_host = current_host;
        active_sessions = pos 1;
        affected_wlc_clusters = [];
        pending_ready_vm_replacements = [];
      }

      save_and_return : String → State → M S State
      unfolding save_session
      save_and_return namespace st = save_session namespace st >>= λ _. return st

      begin_at : String → String → String → M S State
      unfolding new_state save_and_return
      begin_at namespace current_host id =
          r.now >>= λ t. save_and_return namespace (new_state current_host id t)

      begin_session : String → String → M S State
      unfolding begin_at
      begin_session namespace current_host = r.new_uuid >>= begin_at namespace current_host

      unfoldable pub start_session : String → String → M S State
      unfolding load_session is_running begin_session
      start_session namespace current_host = do
        (st, cm) ← load_session namespace
        if is_running st cm then return st else begin_session namespace current_host

    unfoldable pub cleared : State → State
    cleared st = record st {
      status = status_completed;
      active_sessions = pos 0;
      current_host = "";
      affected_wlc_clusters = [];
      pending_ready_vm_replacements = [];
    }

    unfoldable pub complete_session : String → M S (Unit {0})
    unfolding load_session cleared save_session
    complete_session namespace = do
      (st, cm) ← load_session namespace
      if st.status == status_completed then return tt else save_session namespace (cleared st)

-- `ShouldStartFromTrigger`: whether an operator asks for a session, and on which host.
trigger_of_content : Option Data → Bool × String
trigger_of_content none = (false, "")
trigger_of_content (some d) = if d "start" == "true" then (true, d "hostSystemID") else (false, "")

unfoldable pub should_start_from_trigger : Option ConfigMap → Bool × String
unfolding trigger_of_content
should_start_from_trigger none = (false, "")
should_start_from_trigger (some cm) = trigger_of_content cm.content
