-- ===== src/Hmc/Controller/Laws.antt =====
-- What a reconcile of a host's deletion does and does not do.
use mathlib.Core.Path.{subst}
use cluster_api_provider_maa.Base.{
  ==_refl, refl, ap, sym, ◌∙◌, ◌≡◌, ◌≢◌, ◌⊎◌, inl, inr, String, Bool, true, false, not, ◌&&◌, List,
  [], some, arith, ◌==◌, ==_iff, Bool-cases, deref, Result, ok, err, >>=-ok,
}
use cluster_api_provider_maa.Services.{Maas, Data, Runtime, Codec}
use cluster_api_provider_maa.Kube.{Kube}
use cluster_api_provider_maa.Api.{MaasMachine}
use cluster_api_provider_maa.Maintenance.Session.{State}
use cluster_api_provider_maa.Maintenance.TagService.{new_tag_service, ensure_host_maintenance_tags}
use cluster_api_provider_maa.Maintenance.Inventory.{list_host_vms}
use cluster_api_provider_maa.Hmc.Service.{
  clear_maintenance_tags_and_remove_finalizer, host_evacuation_finalizer, contains_string,
  check_evacuation_gates,
}
use cluster_api_provider_maa.Hmc.Service.Gates.{check_evacuation_gates-empty}
use cluster_api_provider_maa.Hmc.Service.Cleanup.{
  clear_maintenance_tags_and_remove_finalizer-finalizers,
  clear_maintenance_tags_and_remove_finalizer-updated,
}
use cluster_api_provider_maa.Hmc.Controller.{
  annotate, evacuation_completed_annotation, done, first_set, env_credentials, secret_credentials,
  get_maas_credentials, is_annotated, evacuate_if, check_and_finish, make_service_and_check,
  tag_and_check, evacuate, reconcile_deleted_host,
}

module _ {S : Type 0} (k : Kube S) where
  -- Both parts of a pair of credentials are there.
  abbrev AreSet : Result (String × String) × S → Type 0
  AreSet (ok (endpoint, api_key), s) = (endpoint ≢ "") × (api_key ≢ "")
  AreSet (err e, s) = Unit

  env_credentials-AreSet : (s : S) → AreSet (env_credentials k s)
  unfolding env_credentials
  env_credentials-AreSet s =
      let endpoint = first_set (k.getenv "MAAS_ENDPOINT") (k.getenv "MAAS_API_URL") in
      let api_key = first_set (k.getenv "MAAS_API_KEY") (k.getenv "MAAS_API_TOKEN") in
      elim (Bool-cases (endpoint == "")) [
        | inl e ↦ rw e tt
        | inr e ↦ elim (Bool-cases (api_key == "")) [
          | inl f ↦ rw (e, f) tt
          | inr f ↦
              rw (e, f)
                (
                  λ p. ground (arith, (==_iff endpoint "").1 p),
                  λ p. ground (arith, (==_iff api_key "").1 p),
                )
        ]
      ]

  secret_credentials-AreSet : (r : Result Data × S) → AreSet (secret_credentials k r)
  unfolding secret_credentials
  secret_credentials-AreSet (err e, s) = env_credentials-AreSet s
  secret_credentials-AreSet (ok d, s) =
      elim (Bool-cases (not (d "MAAS_ENDPOINT" == "") && not (d "MAAS_API_KEY" == ""))) [
        | inl e ↦ rw e (
          λ p. ground (arith, (==_iff (d "MAAS_ENDPOINT") "").1 p),
          λ p. ground (arith, (==_iff (d "MAAS_API_KEY") "").1 p),
        )
        | inr e ↦ rw e (env_credentials-AreSet s)
      ]

  -- Credentials that are returned, from the secret or from the environment, are both not empty.
  pub get_maas_credentials-AreSet :
      (namespace : String) (s : S) → AreSet (get_maas_credentials k namespace s)
  unfolding get_maas_credentials
  get_maas_credentials-AreSet namespace s = elim (Bool-cases (namespace == "")) [
    | inl e ↦ rw e (env_credentials-AreSet s)
    | inr e ↦ rw e (secret_credentials-AreSet (k.get_secret namespace _ s))
  ]

is_annotated-annotate :
    (m : MaasMachine) (op_id : String)
    → op_id ≢ ""
    → is_annotated (annotate m op_id).annotations ≡ true
unfolding is_annotated annotate
is_annotated-annotate m op_id named =
    rw (==_refl evacuation_completed_annotation) (ground (arith, ==_iff op_id ""))

module _ {S : Type 0} (c : Codec) (k : Kube S) (r : Runtime S)
    (client_set : String × String → Maas S) (range_order : List String → List String) where
  -- An annotated machine, or one without the evacuation finalizer, is passed over.
  reconcile_deleted_host_skips :
      (m : MaasMachine) (s : S)
      → (is_annotated m.annotations ≡ true)
        ⊎ (contains_string m.finalizers host_evacuation_finalizer ≡ false)
      → reconcile_deleted_host c k r client_set range_order m s ≡ (ok done, s)
  unfolding reconcile_deleted_host
  reconcile_deleted_host_skips m s (inl h) = rw h
  reconcile_deleted_host_skips m s (inr h) = ground arith

  -- Where the API server returns a machine as it was last written, and the clean-up of a host ends
  -- well, reading the machine afterwards returns it without the evacuation finalizer, and a
  -- reconcile of what is read is done and calls nothing, in whatever state: no new session is
  -- started.
  pub reconcile_deleted_host_of_cleared :
      (stores : (m : MaasMachine) (s s' : S)
        → k.update_maas_machine m s ≡ (ok tt, s')
        → k.get_maas_machine m.namespace m.name s' ≡ (ok m, s'))
      (maas : Maas S) (m m' : MaasMachine) (s s' : S)
      → clear_maintenance_tags_and_remove_finalizer c k r maas m s ≡ (ok m', s')
      → (read : MaasMachine) × (k.get_maas_machine m.namespace m.name s' ≡ (ok read, s'))
        × (contains_string read.finalizers host_evacuation_finalizer ≡ false)
        × ((t : S) → reconcile_deleted_host c k r client_set range_order read t ≡ (ok done, t))
  reconcile_deleted_host_of_cleared stores maas m m' s s' h =
      let (written, t, updated) =
        clear_maintenance_tags_and_remove_finalizer-updated c k r maas m m' s s' h in
      let (finalizers, same) =
        clear_maintenance_tags_and_remove_finalizer-finalizers c k r maas m m' s s' h in
      let off : contains_string m'.finalizers host_evacuation_finalizer ≡ false =
        finalizers host_evacuation_finalizer ∙ rw (==_refl host_evacuation_finalizer) refl in
      (
        m',
        subst (λ x. k.get_maas_machine x.0 x.1 s' ≡ (ok m', s')) written (stores m' t s' updated),
        off,
        λ t. reconcile_deleted_host_skips m' t (inr off),
      )

  -- A reconcile of a deleted machine that was annotated with an operation id that is not empty is
  -- done and calls nothing, in whatever state.
  reconcile_deleted_host-annotate :
      (m : MaasMachine) (op_id : String) (t : S)
      → op_id ≢ ""
      → reconcile_deleted_host c k r client_set range_order (annotate m op_id) t ≡ (ok done, t)
  reconcile_deleted_host-annotate m op_id t named =
      reconcile_deleted_host_skips (annotate m op_id) t (inl (is_annotated-annotate m op_id named))

  evacuate_if-ready :
      (m : MaasMachine) (st : State) (maas : Maas S) (ready : Bool) (s t s' : S)
      → evacuate_if c k r client_set range_order maas m st ready t ≡ (ok done, s')
      → check_evacuation_gates c k r maas range_order m.namespace m s ≡ (ok ready, t)
      → check_evacuation_gates c k r maas range_order m.namespace m s ≡ (ok true, t)
  unfolding evacuate_if
  evacuate_if-ready m st maas true s t s' h gates = gates
  evacuate_if-ready m st maas false s t s' h gates = ground arith

  check_and_finish_done-Empty :
      (m : MaasMachine) (st : State) (id : String) (creds : String × String) (s s' : S)
      → m.spec.system_id ≡ some id
      → check_and_finish c k r client_set range_order m st creds s ≡ (ok done, s')
      → (t : S) × (list_host_vms (client_set creds) id s ≡ (ok [], t))
  unfolding check_and_finish
  check_and_finish_done-Empty m st id creds s s' named h =
      let (ready, t, gates, end) =
        >>=-ok (check_evacuation_gates c k r (client_set creds) range_order m.namespace m)
          (evacuate_if c k r client_set range_order (client_set creds) m st) s h in
      let (id', t₁, e, listed) =
        check_evacuation_gates-empty c k r (client_set creds) range_order m.namespace m s t
          (evacuate_if-ready m st (client_set creds) ready s t s' end gates) in
      (
        t₁,
        subst (λ i. list_host_vms (client_set creds) i s ≡ (ok [], t₁)) (ap deref (sym e ∙ named))
            listed,
      )

  -- Where the evacuation of a machine with a system id ends as done, the credentials were read, the
  -- host was tagged for the operation, the credentials were read again, and the listing of the
  -- host's VMs that came next was empty.
  pub evacuate_done-empty :
      (m : MaasMachine) (st : State) (id : String) (s s' : S)
      → m.spec.system_id ≡ some id
      → evacuate c k r client_set range_order m st (some id) s ≡ (ok done, s')
      → (first second : String × String) × (s₁ s₂ s₃ s₄ : S) × (get_maas_credentials k m.namespace s
          ≡ (ok first, s₁))
        × (ensure_host_maintenance_tags (new_tag_service (client_set first)) id st.op_id s₁
            ≡ (ok tt, s₂))
        × (get_maas_credentials k m.namespace s₂ ≡ (ok second, s₃))
        × (list_host_vms (client_set second) id s₃ ≡ (ok [], s₄))
  unfolding evacuate tag_and_check make_service_and_check
  evacuate_done-empty m st id s s' named h =
      let (first, s₁, got, h₁) =
        >>=-ok (get_maas_credentials k m.namespace)
          (tag_and_check c k r client_set range_order m st id) s h in
      let (u, s₂, marked, h₂) =
        >>=-ok (ensure_host_maintenance_tags (new_tag_service (client_set first)) id st.op_id)
          (λ _. make_service_and_check c k r client_set range_order m st) s₁ h₁ in
      let (second, s₃, again, h₃) =
        >>=-ok (get_maas_credentials k m.namespace)
          (check_and_finish c k r client_set range_order m st) s₂ h₂ in
      let (s₄, listed) = check_and_finish_done-Empty m st id second s₃ s' named h₃ in
      (first, second, s₁, s₂, s₃, s₄, got, marked, again, listed)
