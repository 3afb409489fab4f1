-- ===== src/Maintenance/Session/Laws.antt =====
-- What the session operations leave in the ConfigMap: what is saved is loaded, a second start finds
-- the first one's session, and a completed session stays completed.
use mathlib.Core.Path.{ap₂, subst}
use cluster_api_provider_maa.Base.{
  pos, ◌≡◌, ◌∙◌, ap, sym, refl, ◌≢◌, inl, inr, String, false, List, [], ◌∷◌, Option, none, some,
  arith, ◌==◌, ==_iff, ==_refl, Bool-cases, Result, ok, err, >>=-ok,
}
use cluster_api_provider_maa.Services.{ConfigMap, ConfigMaps, Runtime, Codec, Data}
use cluster_api_provider_maa.Services.Laws.{ConfigMapsLaws, CodecLaws, to_second}
use cluster_api_provider_maa.Maintenance.Session.{
  session_cm_name, status_active, status_completed, State, parsed, state_of_data, state_of_content,
  marshal_list, session_data, load_session, save_session, start_session, complete_session,
  create_or_update, found_or_new, cleared, new_state, begin_session, is_running, marshalled,
  get_or_new, save_into, save_pending, write_session, save_and_return, begin_at, data_of,
}

-- The state as the ConfigMap can hold it: the start to the second.
abbrev pub stored : State → State
stored st = record st { started_at = to_second st.started_at }

-- What a session is that was completed.
pub record IsCompleted (st st' : State) : Type 0 where
  pub completed : st'.status ≡ status_completed
  pub counts_none : st'.active_sessions ≡ pos 0
  pub hostless : st'.current_host ≡ ""
  pub nothing_affected : st'.affected_wlc_clusters ≡ []
  pub nothing_pending : st'.pending_ready_vm_replacements ≡ []
  pub same_operation : st'.op_id ≡ st.op_id
  pub same_start : st'.started_at ≡ to_second st.started_at

brackets_ne : ("[]" == "") ≡ false
unfolding ◌==◌
brackets_ne = refl

module _ (c : Codec) (cl : CodecLaws c) where
  marshal_list-round :
      (l : List String) (t : String)
      → marshal_list c l ≡ some t
      → (t ≢ "") × (c.unmarshal t ≡ some l)
  unfolding marshal_list
  marshal_list-round [] t h =
      ground (arith, cl.json_empty, ==_iff "[]" "", brackets_ne, ==_iff t "")
  marshal_list-round (x ∷ xs) t h = (cl.json_named (x ∷ xs) t h, cl.json_round (x ∷ xs) t h)

  -- Each key of the saved data holds its field.
  session_data_fields :
      (d : Data) (st : State) (clusters vms : String)
      → let saved = session_data c d st clusters vms in
        (saved "opId" ≡ st.op_id)
        × (saved "status" ≡ st.status)
        × (saved "currentHost" ≡ st.current_host)
        × (saved "startedAt" ≡ c.format_time st.started_at)
        × (saved "activeSessions" ≡ c.format_int st.active_sessions)
        × (saved "affectedWLCClusters" ≡ clusters)
        × (saved "pendingReadyVMReplacements" ≡ vms)
  unfolding session_data ◌==◌
  session_data_fields d st clusters vms = elim (Bool-cases (d "progress" == "")) [
    | inl e ↦ rw e (refl, refl, refl, refl, refl, refl, refl)
    | inr e ↦ rw e (refl, refl, refl, refl, refl, refl, refl)
  ]

  parsed_lem {ℓ} :
      {A : Type ℓ} (z : A) (parse : String → Option A) (t : String) (a : A)
      → t ≢ ""
      → parse t ≡ some a
      → parsed z parse t ≡ a
  parsed_lem z parse t a named h = rw (no_eq, h)
    where
      no_eq : (t == "") ≡ false
      no_eq = ground (arith, ==_iff t "")

  state_of_data-session_data :
      (d : Data) (st : State) (clusters vms : String)
      → marshal_list c st.affected_wlc_clusters ≡ some clusters
      → marshal_list c st.pending_ready_vm_replacements ≡ some vms
      → state_of_data c (session_data c d st clusters vms) ≡ stored st
  unfolding state_of_data
  state_of_data-session_data d st clusters vms h k =
      let fields = session_data_fields d st clusters vms in
      let listed = marshal_list-round st.affected_wlc_clusters clusters h in
      let pending = marshal_list-round st.pending_ready_vm_replacements vms k in
      simp (fields.0, fields.1, fields.2, fields.3, fields.4, fields.5, fields.6)
        (rw (
          parsed_lem 0 c.parse_time (c.format_time st.started_at) _ (cl.time_named _)
              (cl.time_round _),
          parsed_lem (pos 0) c.scan_int (c.format_int st.active_sessions) _ (cl.int_named _)
              (cl.int_round _),
          parsed_lem [] c.unmarshal clusters _ listed.0 listed.1,
          parsed_lem [] c.unmarshal vms _ pending.0 pending.1,
        ))

  module _ {S : Type 0} (k : ConfigMaps S) (kl : ConfigMapsLaws k) where
    create_or_update-get :
        (cm : ConfigMap) (s s' : S)
        → create_or_update c k cm s ≡ (ok tt, s')
        → (uid : String) × (k.get cm.namespace cm.name s' ≡ (ok (record cm { uid = uid }), s'))
    unfolding create_or_update
    create_or_update-get cm s s' h = elim (Bool-cases (cm.uid == "")) [
      | inl e ↦ let found = kl.get-create cm s s' (rw e at h) in (found.0, found.2)
      | inr e ↦ (cm.uid, kl.get-update cm s s' (rw e at h))
    ]

    -- The ConfigMap that is written has the key of the session.
    found_or_new-key :
        (namespace : String) (s s' : S) (cm : ConfigMap)
        → found_or_new c k namespace (k.get namespace session_cm_name s) ≡ (ok cm, s')
        → (cm.namespace ≡ namespace) × (cm.name ≡ session_cm_name)
    unfolding found_or_new
    found_or_new-key namespace s s' cm h = go (k.get namespace session_cm_name s) refl h
      where
        go :
            (r : Result ConfigMap × S)
            → k.get namespace session_cm_name s ≡ r
            → found_or_new c k namespace r ≡ (ok cm, s')
            → (cm.namespace ≡ namespace) × (cm.name ≡ session_cm_name)
        go (ok cm', t) e h = ground (arith, kl.get_key namespace session_cm_name cm' s t e)
        go (err x, t) e h = ground arith

    marshalled-ok :
        (text : String) (o : Option String) (s : S) {t : String} {s' : S}
        → marshalled c k text o s ≡ (ok t, s')
        → (o ≡ some t) × (s ≡ s')
    unfolding marshalled
    marshalled-ok text none s h = cc (ap (λ r. r.0) h)
    marshalled-ok text (some t) s h = ground arith

    load_session_of_get :
        (namespace : String) (cm : ConfigMap) (s : S)
        → k.get namespace session_cm_name s ≡ (ok cm, s)
        → load_session c k namespace s ≡ (ok (state_of_content c cm.content, some cm), s)
    unfolding load_session
    load_session_of_get namespace cm s h = rw h

    -- After an operation the session is loaded as `st`, and loading it changes nothing.
    abbrev pub Loads : String → State → S → Type 0
    Loads namespace st s = (cm : ConfigMap) × (load_session c k namespace s ≡ (ok (st, some cm), s))

    module _ (namespace : String) (st : State) where
      write_session-Loads :
          (cm : ConfigMap) (clusters vms : String) (s s' : S)
          → (cm.namespace ≡ namespace) × (cm.name ≡ session_cm_name)
          → marshal_list c st.affected_wlc_clusters ≡ some clusters
          → marshal_list c st.pending_ready_vm_replacements ≡ some vms
          → write_session c k st cm clusters vms s ≡ (ok tt, s')
          → Loads namespace (stored st) s'
      unfolding write_session state_of_content
      write_session-Loads cm clusters vms s s' key listed pending h =
          let filled = record cm {
            content = some (session_data c (data_of c cm.content) st clusters vms);
          } in
          let (uid, read) = create_or_update-get filled s s' h in
          let found : k.get namespace session_cm_name s' ≡ (ok (record filled { uid = uid }), s') =
            ap₂ (λ ns n. k.get ns n s') (sym key.0) (sym key.1) ∙ read in
          (
            record filled { uid = uid },
            load_session_of_get namespace (record filled { uid = uid }) s' found
                ∙ ap (λ st'. (ok (st', some (record filled { uid = uid })), s'))
                    (state_of_data-session_data (data_of c cm.content) st clusters vms listed
                      pending),
          )

      save_pending-Loads :
          (cm : ConfigMap) (clusters : String) (s s' : S)
          → (cm.namespace ≡ namespace) × (cm.name ≡ session_cm_name)
          → marshal_list c st.affected_wlc_clusters ≡ some clusters
          → save_pending c k st cm clusters s ≡ (ok tt, s')
          → Loads namespace (stored st) s'
      unfolding save_pending
      save_pending-Loads cm clusters s s' key listed h =
          let (vms, t, found, rest) =
            >>=-ok (marshalled c k _ _) (write_session c k st cm clusters) s h in
          write_session-Loads cm clusters vms t s' key listed (marshalled-ok _ _ s found).0 rest

      save_into-Loads :
          (cm : ConfigMap) (s s' : S)
          → (cm.namespace ≡ namespace) × (cm.name ≡ session_cm_name)
          → save_into c k st cm s ≡ (ok tt, s')
          → Loads namespace (stored st) s'
      unfolding save_into
      save_into-Loads cm s s' key h =
          let (clusters, t, found, rest) =
            >>=-ok (marshalled c k _ _) (save_pending c k st cm) s h in
          save_pending-Loads cm clusters t s' key (marshalled-ok _ _ s found).0 rest

      -- Where saving a session ends well, loading it returns every field as saved, the start to the
      -- second, and changes nothing.
      pub load_session-save_session :
          (s s' : S)
          → save_session c k namespace st s ≡ (ok tt, s')
          → Loads namespace (stored st) s'
      unfolding save_session get_or_new
      load_session-save_session s s' h =
          let (cm, t, found, rest) = >>=-ok (get_or_new c k namespace) (save_into c k st) s h in
          save_into-Loads cm t s' (found_or_new-key namespace s t cm found) rest

    module _ (r : Runtime S) (namespace : String) where
      start_session_of_running :
          (host : String) (st : State) (cm : ConfigMap) (s t : S)
          → load_session c k namespace s ≡ (ok (st, some cm), t)
          → st.status ≡ status_active
          → st.active_sessions ≡ pos 1
          → start_session c k r namespace host s ≡ (ok st, t)
      unfolding start_session
      start_session_of_running host st cm s t loaded active one =
          rw loaded (ground (arith, ==_iff st.status status_active))

      -- What a new session is.
      abbrev IsNew : String → State → Type 0
      IsNew host st =
          (st.status ≡ status_active) × (st.active_sessions ≡ pos 1) × (st.current_host ≡ host)

      save_and_return-Loads :
          (st st' : State) (s s' : S)
          → save_and_return c k r namespace st s ≡ (ok st', s')
          → (st ≡ st') × Loads namespace (stored st) s'
      unfolding save_and_return
      save_and_return-Loads st st' s s' h =
          let (u, t, saved, rest) =
            >>=-ok (save_session c k namespace st) (λ _ s. (ok st, s)) s h in
          let same : t ≡ s' = ap (λ r. r.1) rest in
          (
            ground arith,
            subst (Loads namespace (stored st)) same
                (load_session-save_session namespace st s t saved),
          )

      begin_at-Loads :
          (host id : String) (st : State) (s s' : S)
          → begin_at c k r namespace host id s ≡ (ok st, s')
          → IsNew host st × Loads namespace (stored st) s'
      unfolding begin_at new_state
      begin_at-Loads host id st s s' h =
          let (now, t, clock, rest) =
            >>=-ok r.now (λ t. save_and_return c k r namespace (new_state c k r host id t)) s h in
          let (same, loads) = save_and_return-Loads (new_state c k r host id now) st t s' rest in
          subst (λ st. IsNew host st × Loads namespace (stored st) s') same
            ((refl, refl, refl), loads)

      begin_session-Loads :
          (host : String) (st : State) (s s' : S)
          → begin_session c k r namespace host s ≡ (ok st, s')
          → IsNew host st × Loads namespace (stored st) s'
      unfolding begin_session
      begin_session-Loads host st s s' h =
          let (id, t, made, rest) = >>=-ok r.new_uuid (begin_at c k r namespace host) s h in
          begin_at-Loads host id st t s' rest

      -- Where no session runs, a start that ends well makes one that is active, counts as one and
      -- has the given host; a second start, for whichever host, returns that session, its start to
      -- the second, and changes nothing.
      pub start_session-start_session :
          (host host' : String) (st₀ st : State) (cm : Option ConfigMap) (s t s' : S)
          → load_session c k namespace s ≡ (ok (st₀, cm), t)
          → is_running c k st₀ cm ≡ false
          → start_session c k r namespace host s ≡ (ok st, s')
          → IsNew host st × (start_session c k r namespace host' s' ≡ (ok (stored st), s'))
      unfolding start_session
      start_session-start_session host host' st₀ st cm s t s' loaded idle h =
          let begun : begin_session c k r namespace host t ≡ (ok st, s') = rw (loaded, idle) at h in
          let (new, (cm', loads)) = begin_session-Loads host st t s' begun in
          (new, start_session_of_running host' (stored st) cm' s' s' loads new.0 new.1)

    cleared-IsCompleted : (st : State) → IsCompleted st (stored (cleared c k st))
    unfolding cleared
    cleared-IsCompleted st = record {
      completed = refl;
      counts_none = refl;
      hostless = refl;
      nothing_affected = refl;
      nothing_pending = refl;
      same_operation = refl;
      same_start = refl;
    }

    -- Completing a session that is not completed, where it ends well, leaves one that is loaded as
    -- completed, counts as none and has no host, no affected clusters and no pending VMs, its
    -- operation id as before and its start to the second; a second completion changes nothing.
    pub complete_session-complete_session :
        (namespace : String) (st : State) (cm : Option ConfigMap) (s t s' : S)
        → load_session c k namespace s ≡ (ok (st, cm), t)
        → st.status ≢ status_completed
        → complete_session c k namespace s ≡ (ok tt, s')
        → (st' : State) × IsCompleted st st'
          × Loads namespace st' s'
          × (complete_session c k namespace s' ≡ (ok tt, s'))
    unfolding complete_session cleared
    complete_session-complete_session namespace st cm s t s' loaded open_session h =
        let unequal : (st.status == status_completed) ≡ false =
          ground (arith, ==_iff st.status status_completed) in
        let saved : save_session c k namespace (cleared c k st) t ≡ (ok tt, s') =
          rw (loaded, unequal) at h in
        let (cm', loads) = load_session-save_session namespace (cleared c k st) t s' saved in
        (
          stored (cleared c k st),
          cleared-IsCompleted st,
          (cm', loads),
          rw loads (ground (arith, ==_refl status_completed)),
        )
