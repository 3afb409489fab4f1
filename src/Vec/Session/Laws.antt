-- ===== src/Vec/Session/Laws.antt =====
-- What the sessions of the evacuation of VMs keep.
use mathlib.Core.Path.{subst}
use cluster_api_provider_maa.Base.{
  ℕ, ◌≡◌, ◌≢◌, ◌∙◌, ap, sym, refl, inl, inr, String, true, List, [], ◌∷◌, arith, ◌==◌, ==_iff,
  ==_refl, Bool-cases, Any, Any-map, has_prefix, has_prefix-append, Result, ok, err,
  is_already_exists, wrap_result, wrapping, >>=-ok,
}
use cluster_api_provider_maa.Services.{ConfigMap, ConfigMaps, Runtime, Codec, read_data}
use cluster_api_provider_maa.Services.Laws.{ConfigMapsLaws}
use cluster_api_provider_maa.Maintenance.Session.{status_active}
use cluster_api_provider_maa.Hmc.Service.{contains_string}
use cluster_api_provider_maa.Hmc.Service.Cleanup.{contains_string-remove_string}
use cluster_api_provider_maa.Vec.Session.{
  maintenance_config_map_prefix, maintenance_config_map_name, active_op_ids,
  list_maintenance_sessions, session_config, update_existing, replace_if_exists, create_or_replace,
  save_maintenance_session,
}

abbrev or_nil : Result (List String) → List String
or_nil (ok l) = l
or_nil (err e) = []

-- The ConfigMap is that of an active session of the operation.
abbrev pub IsActive : String → ConfigMap → Type 0
IsActive op_id cm =
    (cm.name ≡ maintenance_config_map_name op_id)
    × (read_data cm.content "opId" ≡ op_id)
    × (read_data cm.content "status" ≡ status_active)

name-prefix :
    (op_id : String)
    → has_prefix (maintenance_config_map_name op_id) maintenance_config_map_prefix ≡ true
unfolding maintenance_config_map_name
name-prefix op_id = has_prefix-append maintenance_config_map_prefix op_id

-- An active session that is among the ConfigMaps is found.
active_op_ids-contains :
    (op_id : String) (cms : List ConfigMap)
    → op_id ≢ ""
    → Any (IsActive op_id) cms
    → contains_string (active_op_ids cms) op_id ≡ true
unfolding active_op_ids contains_string
active_op_ids-contains op_id [] named h = absurd h
active_op_ids-contains op_id (cm ∷ cms) named (inl (name, id, status)) =
    rw (name, id, status, name-prefix op_id, ==_refl status_active)
      (ground (arith, ==_iff op_id "", ==_refl op_id))
active_op_ids-contains op_id (cm ∷ cms) named (inr h) =
    let found = active_op_ids-contains op_id cms named h in
    let kept =
      contains_string-remove_string (active_op_ids cms) (read_data cm.content "opId") op_id in
    ground (
      arith,
      found,
      kept,
      ==_iff op_id (read_data cm.content "opId"),
      ==_iff (read_data cm.content "opId") op_id,
    )

module _ {S : Type 0} (c : Codec) (k : ConfigMaps S) (laws : ConfigMapsLaws k) (r : Runtime S) where
  -- After a save the ConfigMap of the session is there, with the data that was given.
  Saved : ConfigMap → S → Type 0
  Saved cm s = (uid : String) × (k.get cm.namespace cm.name s ≡ (ok (record cm { uid = uid }), s))

  wrap_result-ok :
      {A : Type 0} (text : String) (result : Result A × S) {a : A} {t : S}
      → wrap_result text result ≡ (ok a, t)
      → result ≡ (ok a, t)
  wrap_result-ok text (ok a, t) h = h
  wrap_result-ok text (err e, t) h = cc (ap (λ r. r.0) h)

  update_existing-Saved :
      (cm existing : ConfigMap) (t s' : S)
      → (existing.namespace ≡ cm.namespace) × (existing.name ≡ cm.name)
      → update_existing c k cm existing t ≡ (ok tt, s')
      → Saved cm s'
  unfolding Saved update_existing
  update_existing-Saved cm existing t s' key h =
      let changed = record existing { content = cm.content } in
      let read = laws.get-update changed t s' (wrap_result-ok _ (k.update changed t) h) in
      (
        existing.uid,
        subst
            (λ ns. k.get ns cm.name s' ≡ (
              ok (record {
                namespace = ns;
                name = cm.name;
                uid = existing.uid;
                content = cm.content;
              }),
              s',
            ))
            key.0
            (subst
              (λ n. k.get existing.namespace n s' ≡ (
                ok (record {
                  namespace = existing.namespace;
                  name = n;
                  uid = existing.uid;
                  content = cm.content;
                }),
                s',
              ))
              key.1 read),
      )

  replace_if_exists-Saved :
      (cm : ConfigMap) (s : S) (result : Result (Unit {0}) × S) (s' : S)
      → k.create cm s ≡ result
      → replace_if_exists c k cm result ≡ (ok tt, s')
      → Saved cm s'
  unfolding Saved replace_if_exists
  replace_if_exists-Saved cm s (ok u, t) s' made h =
      let (uid, named, read) = laws.get-create cm s s' (made ∙ h) in (uid, read)
  replace_if_exists-Saved cm s (err e, t) s' made h = elim (Bool-cases (is_already_exists e)) [
    | inl exists ↦
        let (existing, v, got, rest) =
          >>=-ok (wrapping "failed to get existing ConfigMap" (k.get cm.namespace cm.name))
            (update_existing c k cm) t (rw exists at h) in
        update_existing-Saved cm existing v s'
          (laws.get_key cm.namespace cm.name existing t v
            (wrap_result-ok _ (k.get cm.namespace cm.name t) got))
          rest
    | inr new ↦ cc (ap (λ r. r.0) (rw new at h))
  ]

  session_config-IsActive :
      (namespace op_id host : String) (time : ℕ) (uid : String)
      → IsActive op_id
          (record (session_config c k namespace op_id host status_active time) { uid = uid })
  unfolding session_config ◌==◌
  session_config-IsActive namespace op_id host time uid = (refl, refl, refl)

  -- An active session that was saved, with an operation id that is not empty, is among the sessions
  -- that are listed next, where the listing shows the session's ConfigMap as reading it does.
  pub list_maintenance_sessions-save_maintenance_session :
      (namespace op_id host_system_id : String) (s s' t : S) (sessions : List String)
      → op_id ≢ ""
      → ((cm : ConfigMap) (cms : List ConfigMap)
          → k.get namespace (maintenance_config_map_name op_id) s' ≡ (ok cm, s')
          → k.list namespace s' ≡ (ok cms, t)
          → Any (λ x. x ≡ cm) cms)
      → save_maintenance_session c k r namespace op_id host_system_id status_active s ≡ (ok tt, s')
      → list_maintenance_sessions c k namespace s' ≡ (ok sessions, t)
      → contains_string sessions op_id ≡ true
  unfolding save_maintenance_session list_maintenance_sessions create_or_replace session_config
      Saved
  list_maintenance_sessions-save_maintenance_session namespace op_id host s s' t sessions named
        shows saved listed =
      let (time, v, clock, rest) =
        >>=-ok r.now
          (λ t. create_or_replace c k (session_config c k namespace op_id host status_active t)) s
          saved in
      let cm : ConfigMap = session_config c k namespace op_id host status_active time in
      let (uid, read) = replace_if_exists-Saved cm v (k.create cm v) s' refl rest in
      let (cms, w, list, end) =
        >>=-ok (wrapping "failed to list ConfigMaps" (k.list namespace))
          (λ cms s. (ok (active_op_ids cms), s)) s' listed in
      let shown =
        wrap_result-ok _ (k.list namespace s') list
        ∙ ap (λ (r : Result (List String) × S). (ok cms, r.1)) end in
      let among = shows (record cm { uid = uid }) cms read shown in
      let active =
        Any-map (λ x. x ≡ record cm { uid = uid }) (IsActive op_id)
          (λ x e.
            subst (IsActive op_id) (sym e) (session_config-IsActive namespace op_id host time uid))
          cms among in
      ap (λ (l : Result (List String)). contains_string (or_nil l) op_id) (sym (ap (λ r. r.0) end))
      ∙ active_op_ids-contains op_id cms named active
