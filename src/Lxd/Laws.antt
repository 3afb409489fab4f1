-- ===== src/Lxd/Laws.antt =====
-- The selection of a VM host, against the description of the eligible hosts and of their order.
use cluster_api_provider_maa.Base.{
  ℕ, ◌≡◌, ap, refl, inl, inr, String, Bool, false, List, [], ◌∷◌, ◌==◌, Bool-cases, All, Any,
  All-map, if◌then◌else◌, Result, ok, err, Error,
}
use cluster_api_provider_maa.Services.{Maas, MachineDetails}
use cluster_api_provider_maa.Fleet.{Fleet, VmHost}
use cluster_api_provider_maa.Lxd.{
  SelectOptions, Floats, Candidate, passes_filters, ranks_before, cluster_tag_of, candidate,
  add_if_healthy, collect_candidates, listed_or_none, machines_to_count, first_ranked,
  rank_candidates, select_counted, select_lxd_host,
}
use cluster_api_provider_maa.Lxd.Eligible.{IsEligible, healthy_result, is_eligible, is_eligible_iff}

module _ (f : Floats) (lower trim_space : String → String) (fold : ℕ → ℕ)
    (sort : (Candidate f → Candidate f → Bool) → List (Candidate f) → List (Candidate f)) where
  -- A sorted list begins with an element that no other one is less than, and is empty only if the
  -- list is.
  pub record SortLaws : Type 0 where
    pub first :
        (cs : List (Candidate f)) (c : Candidate f) (rest : List (Candidate f))
        → sort (ranks_before f lower trim_space) cs ≡ c ∷ rest
        → (Any (λ x. x ≡ c) cs) × All (λ x. ranks_before f lower trim_space x c ≡ false) cs
    pub empty : (cs : List (Candidate f)) → sort (ranks_before f lower trim_space) cs ≡ [] → cs ≡ []

module _ (f : Floats) (lower trim_space : String → String) (fold : ℕ → ℕ)
    (sort : (Candidate f → Candidate f → Bool) → List (Candidate f) → List (Candidate f))
    (sorts : SortLaws f lower trim_space fold sort) {S : Type 0} (maas : Maas S) (fleet : Fleet S)
    (view : String → Result MachineDetails)
    (reads : (id : String) (s : S) → maas.get_machine id s ≡ (view id, s))
    (opts : SelectOptions) where
  -- The candidates, written as a filter.
  candidates_of : List MachineDetails → String → List VmHost → List (Candidate f)
  candidates_of listed tag [] = []
  candidates_of listed tag (host ∷ hosts) =
      let rest = candidates_of listed tag hosts in
      if is_eligible opts view host then candidate f opts listed tag host ∷ rest else rest

  add_if_healthy_lem :
      (listed : List MachineDetails) (tag : String) (host : VmHost) (d : Result MachineDetails)
      (rest : List (Candidate f))
      → add_if_healthy f opts listed tag host d rest
        ≡ (if healthy_result d then candidate f opts listed tag host ∷ rest else rest)
  unfolding add_if_healthy
  add_if_healthy_lem listed tag host (ok d) rest = refl
  add_if_healthy_lem listed tag host (err e) rest = refl

  collect_candidates_lem :
      (listed : List MachineDetails) (tag : String) (hosts : List VmHost) (s : S)
      → collect_candidates f lower trim_space fold sort maas fleet opts listed tag hosts s
        ≡ (ok (candidates_of listed tag hosts), s)
  unfolding collect_candidates candidates_of add_if_healthy is_eligible
  collect_candidates_lem listed tag [] s = refl
  collect_candidates_lem listed tag (host ∷ hosts) s =
      elim (Bool-cases (passes_filters opts host)) [
        | inl passes ↦
            rw (passes, reads host.host_system_id s, collect_candidates_lem listed tag hosts s)
              (ap (λ cs. (ok cs, s))
                (add_if_healthy_lem listed tag host (view host.host_system_id)
                  (candidates_of listed tag hosts)))
        | inr fails ↦ rw fails (collect_candidates_lem listed tag hosts s)
      ]

  -- The tag that is counted.
  abbrev pub tag_of : String
  tag_of = cluster_tag_of fold opts.cluster_id

  first_ranked-fails :
      (cs : List (Candidate f)) (s s' : S) (e : Error)
      → first_ranked f lower trim_space fold sort maas fleet cs s ≡ (err e, s')
      → cs ≡ []
  unfolding first_ranked
  first_ranked-fails [] s s' e h = refl
  first_ranked-fails (c ∷ rest) s s' e h = cc (ap (λ p. p.0) h)

  candidates_of-nil :
      (listed : List MachineDetails) (tag : String) (hosts : List VmHost)
      → candidates_of listed tag hosts ≡ []
      → All (λ o. is_eligible opts view o ≡ false) hosts
  unfolding candidates_of
  candidates_of-nil listed tag [] h = tt
  candidates_of-nil listed tag (host ∷ hosts) h = elim (Bool-cases (is_eligible opts view host)) [
    | inl good ↦ cc (rw good at h)
    | inr bad ↦ (bad, candidates_of-nil listed tag hosts (rw bad at h))
  ]

  listed_or_none-ok :
      (x : Result (List MachineDetails) × S)
      → (listed : List MachineDetails) × (t : S) × (listed_or_none f lower trim_space fold sort maas
            fleet x
          ≡ (ok listed, t))
  unfolding listed_or_none
  listed_or_none-ok (ok ds, s) = (ds, s, refl)
  listed_or_none-ok (err e, s) = ([], s, refl)

  machines_to_count-ok :
      (s : S)
      → (listed : List MachineDetails) × (t : S) × (machines_to_count f lower trim_space fold sort
            maas fleet tag_of s
          ≡ (ok listed, t))
  unfolding machines_to_count
  machines_to_count-ok s = elim (Bool-cases (tag_of == "")) [
    | inl unset ↦ ([], s, rw unset refl)
    | inr set ↦ rw set (listed_or_none-ok (fleet.list_details s))
  ]

  -- Where reading a machine changes nothing and the sort keeps a candidate, the selection of a VM
  -- host fails only if none of the hosts is eligible: each lacks the zone, the pool, the tags, the
  -- cores, the memory or the storage that are asked for, or a machine that can be read, is on,
  -- deployed and not under maintenance.
  pub select_lxd_host-fails :
      (hosts : List VmHost) (s s' : S) (e : Error)
      → select_lxd_host f lower trim_space fold sort maas fleet hosts opts s ≡ (err e, s')
      → All (λ o. ¬ IsEligible opts view o) hosts
  unfolding select_lxd_host select_counted rank_candidates
  select_lxd_host-fails [] s s' e h = tt
  select_lxd_host-fails (host ∷ hosts) s s' e h =
      let (listed, t, counted) = machines_to_count-ok s in
      let ranked = rw (counted, collect_candidates_lem listed tag_of (host ∷ hosts) t) at h in
      All-map (λ o. is_eligible opts view o ≡ false) (λ o. ¬ IsEligible opts view o)
        (λ o bad good. cc (bad, (is_eligible_iff opts view o).1 good)) (host ∷ hosts)
        (candidates_of-nil listed tag_of (host ∷ hosts) (
          sorts.empty (candidates_of listed tag_of (host ∷ hosts))
            (first_ranked-fails _ t s' e ranked)))
