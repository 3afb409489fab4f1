-- ===== src/Hmc/Service/Cleanup.antt =====
-- What is left on a host when its evacuation is complete.
use mathlib.Core.Path.{subst}
use cluster_api_provider_maa.Base.{
  ◌≡◌, ◌∙◌, ap, sym, inl, inr, String, Bool, true, false, ◌&&◌, ◌||◌, List, [], ◌∷◌, ◌++◌, Option,
  none, some, arith, ◌==◌, ==_iff, ==_refl, Bool-cases, any, if◌then◌else◌, has_prefix, ok, ◌>>=◌,
  ◌>>◌, >>=-ok, ok_parts, return,
}
use cluster_api_provider_maa.Services.{Maas, Runtime, Codec}
use cluster_api_provider_maa.Services.Laws.{TagLaws}
use cluster_api_provider_maa.Kube.{Kube}
use cluster_api_provider_maa.Api.{MaasMachine}
use cluster_api_provider_maa.Maintenance.Tags.{
  tag_host_maintenance, tag_host_no_schedule, tag_host_op_prefix,
}
use cluster_api_provider_maa.Maintenance.TagService.{new_tag_service}
use cluster_api_provider_maa.Maintenance.TagService.Laws.{
  Changes, Changes->>, drop, remove_tag-Changes,
}
use cluster_api_provider_maa.Maintenance.Inventory.{Machine, host_of_details, get_host}
use cluster_api_provider_maa.Hmc.Service.{
  host_evacuation_finalizer, contains_string, remove_string, is_host_machine,
  add_evacuation_finalizer, remove_op_tags, clear_maintenance_tags, remove_finalizer,
  clear_of_system_id, clear_maintenance_tags_and_remove_finalizer,
}

pub contains_string-remove_string :
    (items : List String) (s t : String)
    → contains_string (remove_string items s) t
      ≡ (if t == s then false else contains_string items t)
unfolding contains_string remove_string
contains_string-remove_string [] s t = ground arith
contains_string-remove_string (item ∷ items) s t =
    ground
      (arith, contains_string-remove_string items s t, ==_iff t s, ==_iff item s, ==_iff item t)

contains_string-append :
    (items : List String) (s : String) → contains_string (items ++ (s ∷ [])) s ≡ true
unfolding contains_string
contains_string-append [] s = ground (arith, ==_refl s)
contains_string-append (item ∷ items) s = ground (arith, contains_string-append items s)

-- What the API server knows a machine by.
abbrev machine_key : MaasMachine → String × String
machine_key m = (m.namespace, m.name)

module _ {S : Type 0} (c : Codec) (k : Kube S) (r : Runtime S) (maas : Maas S) where
  add_of_contains :
      (m : MaasMachine) (t : S)
      → contains_string m.finalizers host_evacuation_finalizer ≡ true
      → add_evacuation_finalizer c k r maas m t ≡ (ok m, t)
  unfolding add_evacuation_finalizer
  add_of_contains m t h = ground arith

  -- Where adding the evacuation finalizer to a host ends well, the host has the finalizer, and
  -- adding it again returns the same machine and calls nothing.
  pub add_evacuation_finalizer-contains :
      (m m' : MaasMachine) (s s' : S)
      → is_host_machine m ≡ true
      → add_evacuation_finalizer c k r maas m s ≡ (ok m', s')
      → (contains_string m'.finalizers host_evacuation_finalizer ≡ true)
        × ((t : S) → add_evacuation_finalizer c k r maas m' t ≡ (ok m', t))
  unfolding add_evacuation_finalizer
  add_evacuation_finalizer-contains m m' s s' host h =
      elim (Bool-cases (contains_string m.finalizers host_evacuation_finalizer)) [
        | inl e ↦
            let same : m ≡ m' = ground arith in
            subst
              (λ m.
                (contains_string m.finalizers host_evacuation_finalizer ≡ true)
                × ((t : S) → add_evacuation_finalizer c k r maas m t ≡ (ok m, t)))
              same (e, λ t. add_of_contains m t e)
        | inr e ↦
            let m₁ = record m { finalizers = m.finalizers ++ (host_evacuation_finalizer ∷ []) } in
            let (u, t, updated, rest) =
              >>=-ok (k.update_maas_machine m₁) (λ _ s. (ok m₁, s)) s (rw (host, e) at h) in
            let added = contains_string-append m.finalizers host_evacuation_finalizer in
            let same : m₁ ≡ m' = ground arith in
            subst
              (λ m.
                (contains_string m.finalizers host_evacuation_finalizer ≡ true)
                × ((t : S) → add_evacuation_finalizer c k r maas m t ≡ (ok m, t)))
              same (added, λ t. add_of_contains m₁ t added)
      ]

  clear_of_system_id-written :
      (o : Option String) (m m' : MaasMachine) (s s' : S)
      → clear_of_system_id c k r maas m o s ≡ (ok m', s')
      → record m { finalizers = remove_string m.finalizers host_evacuation_finalizer } ≡ m'
  unfolding clear_of_system_id remove_finalizer
  clear_of_system_id-written none m m' s s' h = cc (ap (λ r. r.0) h)
  clear_of_system_id-written (some id) m m' s s' h =
      let m₁ = record m { finalizers = remove_string m.finalizers host_evacuation_finalizer } in
      let (u, t, cleared, rest) =
        >>=-ok (clear_maintenance_tags c k r maas id)
          (λ _. k.update_maas_machine m₁ >>= λ _. return m₁) s h in
      let (v, w, updated, end) = >>=-ok (k.update_maas_machine m₁) (λ _ s. (ok m₁, s)) t rest in
      ground arith

  clear_of_system_id-updated :
      (o : Option String) (m m' : MaasMachine) (s s' : S)
      → clear_of_system_id c k r maas m o s ≡ (ok m', s')
      → (machine_key m' ≡ machine_key m) × (t : S) × (k.update_maas_machine m' t ≡ (ok tt, s'))
  unfolding clear_of_system_id remove_finalizer
  clear_of_system_id-updated none m m' s s' h = cc (ap (λ r. r.0) h)
  clear_of_system_id-updated (some id) m m' s s' h =
      let m₁ = record m { finalizers = remove_string m.finalizers host_evacuation_finalizer } in
      let (u, t, cleared, rest) =
        >>=-ok (clear_maintenance_tags c k r maas id)
          (λ _. k.update_maas_machine m₁ >>= λ _. return m₁) s h in
      let (v, w, updated, end) = >>=-ok (k.update_maas_machine m₁) (λ _ s. (ok m₁, s)) t rest in
      let (same, last) = ok_parts end in
      (
        ap machine_key (sym same),
        t,
        subst (λ x. k.update_maas_machine x t ≡ (ok tt, s')) same
            (updated ∙ ap (λ x. (ok tt, x)) last),
      )

  -- The machine that is returned is the one that was written last, under the name it had.
  pub clear_maintenance_tags_and_remove_finalizer-updated :
      (m m' : MaasMachine) (s s' : S)
      → clear_maintenance_tags_and_remove_finalizer c k r maas m s ≡ (ok m', s')
      → (machine_key m' ≡ machine_key m) × (t : S) × (k.update_maas_machine m' t ≡ (ok tt, s'))
  unfolding clear_maintenance_tags_and_remove_finalizer
  clear_maintenance_tags_and_remove_finalizer-updated m m' s s' h =
      clear_of_system_id-updated m.spec.system_id m m' s s' h

  -- Where cleaning up ends well, the machine has lost the evacuation finalizer and no other
  -- finalizer, and its spec is as before.
  pub clear_maintenance_tags_and_remove_finalizer-finalizers :
      (m m' : MaasMachine) (s s' : S)
      → clear_maintenance_tags_and_remove_finalizer c k r maas m s ≡ (ok m', s')
      → ((f : String)
          → contains_string m'.finalizers f
            ≡ (if f == host_evacuation_finalizer then false else contains_string m.finalizers f))
        × (m'.spec ≡ m.spec)
  unfolding clear_maintenance_tags_and_remove_finalizer
  clear_maintenance_tags_and_remove_finalizer-finalizers m m' s s' h =
      let written = clear_of_system_id-written m.spec.system_id m m' s s' h in
      (
        λ f.
            ap (λ (x : MaasMachine). contains_string x.finalizers f) (sym written)
            ∙ contains_string-remove_string m.finalizers host_evacuation_finalizer f,
        ap (λ (x : MaasMachine). x.spec) (sym written),
      )

  module _ (laws : TagLaws maas) where
    open laws use {tagged}

    remove_op_tags-Changes :
        (host : String) (tags : List String)
        → Changes maas laws (remove_op_tags c k r maas host tags) (λ id tag b.
          if id == host && has_prefix tag tag_host_op_prefix && any (λ t. t == tag) tags
          then false
          else b)
    unfolding remove_op_tags
    remove_op_tags-Changes host [] s s' h id tag = ground (arith, ap (λ r. tagged r.1 id tag) h)
    remove_op_tags-Changes host (t ∷ tags) s s' h id tag =
        elim (Bool-cases (has_prefix t tag_host_op_prefix)) [
          | inl e ↦
              Changes->> maas laws ((new_tag_service maas).remove_tag_from_host host t)
                (remove_op_tags c k r maas host tags) (drop maas laws host t)
                (λ id tag b.
                  if id == host && has_prefix tag tag_host_op_prefix && any (λ t. t == tag) tags
                  then false
                  else b)
                (remove_tag-Changes maas laws host t) (remove_op_tags-Changes host tags) s s'
                (rw e at h) id tag
              ∙ ground (arith, ==_iff tag t, ==_iff t tag, e)
          | inr e ↦
              remove_op_tags-Changes host tags s s' (rw e at h) id tag
              ∙ ground (arith, ==_iff t tag, e)
        ]

    get_host-shown :
        (id : String) (h : Machine) (s t : S)
        → get_host maas id s ≡ (ok h, t)
        → (id' tag : String)
        → (any (λ x. x == tag) h.tags ≡ tagged t id tag) × (tagged t id' tag ≡ tagged s id' tag)
    unfolding get_host
    get_host-shown id h s t read id' tag =
        let (d, u, found, rest) =
          >>=-ok (maas.get_machine id) (λ d s. (ok (host_of_details d), s)) s read in
        let same : u ≡ t = ap (λ r. r.1) rest in
        let shown = laws.shown id d s u found tag in
        let viewed = ap (λ r. tagged r.1 id' tag) (sym found) ∙ laws.viewed id s id' tag in
        let tags : d.tags ≡ h.tags = ground arith in
        (
          subst (λ l. any (λ x. x == tag) l ≡ tagged t id tag) tags
              (subst (λ v. any (λ x. x == tag) d.tags ≡ tagged v id tag) same shown),
          subst (λ v. tagged v id' tag ≡ tagged s id' tag) same viewed,
        )

    -- A tag of host maintenance: one of the two static tags, or one with the operation prefix.
    abbrev is_maintenance : String → Bool
    is_maintenance tag =
        tag == tag_host_maintenance
        || tag == tag_host_no_schedule
        || has_prefix tag tag_host_op_prefix

    -- Where cleaning up a host ends well, every maintenance tag is off the host, those of all
    -- operations included, and the other tags of the host and of the other machines are as they
    -- were.
    pub clear_maintenance_tags-tagged :
        (host : String) (s s' : S)
        → clear_maintenance_tags c k r maas host s ≡ (ok tt, s')
        → (id tag : String)
        → tagged s' id tag ≡ (if id == host && is_maintenance tag then false else tagged s id tag)
    unfolding clear_maintenance_tags
    clear_maintenance_tags-tagged host s s' h id tag =
        let service = new_tag_service maas in
        let (machine, t, read, rest) =
          >>=-ok (get_host maas host)
            (λ machine.
              service.remove_tag_from_host host tag_host_maintenance
              >> (service.remove_tag_from_host host tag_host_no_schedule
                  >> remove_op_tags c k r maas host machine.tags))
            s h in
        let (shown, same) = get_host-shown host machine s t read id tag in
        let left =
          Changes->> maas laws (service.remove_tag_from_host host tag_host_maintenance)
            (service.remove_tag_from_host host tag_host_no_schedule
              >> remove_op_tags c k r maas host machine.tags)
            (drop maas laws host tag_host_maintenance)
            (λ id tag b.
              if id == host && has_prefix tag tag_host_op_prefix && any (λ t. t == tag) machine.tags
              then false
              else drop maas laws host tag_host_no_schedule id tag b)
            (remove_tag-Changes maas laws host tag_host_maintenance)
            (Changes->> maas laws (service.remove_tag_from_host host tag_host_no_schedule)
              (remove_op_tags c k r maas host machine.tags)
              (drop maas laws host tag_host_no_schedule)
              (λ id tag b.
                if id == host
                  && has_prefix tag tag_host_op_prefix
                  && any (λ t. t == tag) machine.tags
                then false
                else b)
              (remove_tag-Changes maas laws host tag_host_no_schedule)
              (remove_op_tags-Changes host machine.tags))
            t s' rest id tag in
        left ∙ elim (Bool-cases (id == host)) [
          | inl e ↦
              let here : tagged t id tag ≡ tagged t host tag =
                ap (λ i. tagged t i tag) ((==_iff id host).0 e) in
              ground arith
          | inr e ↦ ground arith
        ]
