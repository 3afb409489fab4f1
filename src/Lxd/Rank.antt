-- ===== src/Lxd/Rank.antt =====
-- Which of two VM hosts ranks before the other, written without the code's tests.
use mathlib.Core.Path.{ap₂, subst}
use cluster_api_provider_maa.Base.{
  ℕ, zero, suc, ◌<◌, ◌≡◌, ◌≢◌, ◌⊎◌, refl, ap, inl, inr, String, Bool, true, false, not, ◌&&◌, List,
  [], ◌∷◌, ◌==◌, ==_iff, arith, Any, Bool-cases, has_prefix,
}
use cluster_api_provider_maa.Services.{MachineDetails}
use cluster_api_provider_maa.Fleet.{VmHost}
use cluster_api_provider_maa.Maintenance.Tags.{tag_vm_control_plane}
use cluster_api_provider_maa.Hmc.Service.{contains_string}
use cluster_api_provider_maa.Lxd.{
  SelectOptions, Floats, candidate, cp_count_of, compute_resource_score, ratio, is_managed_host,
  ranks_before,
}
use cluster_api_provider_maa.Lxd.Eligible.{contains_string_iff}

-- So many elements of the list have the property.
pub data Counted {ℓ} {A : Type ℓ} (P : A → Type 0) : List A → ℕ → Type ℓ where
  none_left : Counted P [] 0
  hit : {a : A} {xs : List A} {n : ℕ} → P a → Counted P xs n → Counted P (a ∷ xs) (suc n)
  miss : {a : A} {xs : List A} {n : ℕ} → ¬ P a → Counted P xs n → Counted P (a ∷ xs) n

-- There is one such number.
Counted-unique {ℓ} :
    {A : Type ℓ} (P : A → Type 0) (xs : List A) {n m : ℕ} → Counted P xs n → Counted P xs m → n ≡ m
Counted-unique P [] none_left none_left = refl
Counted-unique P (x ∷ xs) (hit p c) (hit q d) = ap suc (Counted-unique P xs c d)
Counted-unique P (x ∷ xs) (hit p c) (miss q d) = absurd (q p)
Counted-unique P (x ∷ xs) (miss p c) (hit q d) = absurd (p q)
Counted-unique P (x ∷ xs) (miss p c) (miss q d) = Counted-unique P xs c d

-- A control-plane machine of the cluster, on the host.
pub record IsOn (cluster_tag host_system_id : String) (d : MachineDetails) : Type 0 where
  pub hosted : d.parent ≢ ""
  pub on_host : d.parent ≡ host_system_id
  pub control_plane : Any (λ t. t ≡ tag_vm_control_plane) d.tags
  pub of_cluster : Any (λ t. t ≡ cluster_tag) d.tags

on_host_test : String → String → MachineDetails → Bool
on_host_test cluster_tag host_system_id d =
    not (d.parent == "")
    && d.parent == host_system_id
    && contains_string d.tags tag_vm_control_plane
    && contains_string d.tags cluster_tag

IsOn-sound : (tag id : String) (d : MachineDetails) → on_host_test tag id d ≡ true → IsOn tag id d
unfolding on_host_test
IsOn-sound tag id d h = record {
  hosted = ground (arith, ==_iff d.parent "");
  on_host = ground (arith, ==_iff d.parent id);
  control_plane = (contains_string_iff d.tags tag_vm_control_plane).0 (ground arith);
  of_cluster = (contains_string_iff d.tags tag).0 (ground arith);
}

IsOn-complete :
    (tag id : String) (d : MachineDetails) → on_host_test tag id d ≡ false → ¬ IsOn tag id d
unfolding on_host_test
IsOn-complete tag id d h on =
    let hosted = on.hosted in
    let parent = (==_iff d.parent id).1 on.on_host in
    let cp = (contains_string_iff d.tags tag_vm_control_plane).1 on.control_plane in
    let cluster = (contains_string_iff d.tags tag).1 on.of_cluster in
    ground (arith, ==_iff d.parent "")

-- The count of the code is the number of such machines.
pub cp_count_of-Counted :
    (ds : List MachineDetails) (tag id : String) → Counted (IsOn tag id) ds (cp_count_of ds tag id)
unfolding cp_count_of on_host_test
cp_count_of-Counted [] tag id = none_left
cp_count_of-Counted (d ∷ ds) tag id = elim (Bool-cases (on_host_test tag id d)) [
  | inl on ↦ rw (on) (hit (IsOn-sound tag id d on) (cp_count_of-Counted ds tag id))
  | inr off ↦ rw (off) (miss (IsOn-complete tag id d off) (cp_count_of-Counted ds tag id))
]

module _ (f : Floats) where
  -- What is there for each unit that is asked for.
  abbrev pub share : ℕ → ℕ → f.Float
  share available zero = f.of_int 0
  share available (suc n) = f.divide (f.of_int available) (f.of_int (suc n))

  abbrev pub score : SelectOptions → VmHost → f.Float
  score opts host =
      f.add (share host.available_cores opts.min_cores)
        (share host.available_memory opts.min_memory)

  ratio-share : (available minimum : ℕ) → ratio f available minimum ≡ share available minimum
  unfolding ratio
  ratio-share available zero = refl
  ratio-share available (suc n) = ground arith

  score_lem :
      (opts : SelectOptions) (host : VmHost)
      → compute_resource_score f host.available_cores host.available_memory opts.min_cores
          opts.min_memory
        ≡ score opts host
  unfolding compute_resource_score
  score_lem opts host =
      ap₂ f.add (ratio-share host.available_cores opts.min_cores)
        (ratio-share host.available_memory opts.min_memory)

  module _ (lower trim_space : String → String) (opts : SelectOptions) where
    -- The name of a host that the provider registered begins so.
    abbrev pub IsManaged : VmHost → Type 0
    IsManaged host = has_prefix (lower (trim_space host.name)) "lxd-host-" ≡ true

    -- A host with `n` control-plane machines of the cluster goes before one with `m`: where it has
    -- fewer, or as many and a higher score, or as many and the same score and is the managed one.
    abbrev pub Outranks : VmHost → ℕ → VmHost → ℕ → Type 0
    Outranks a n b m =
        (n < m)
        ⊎ ((n ≡ m)
            × (((f.equals (score opts a) (score opts b) ≡ false)
                  × (f.greater (score opts a) (score opts b) ≡ true))
                ⊎ ((f.equals (score opts a) (score opts b) ≡ true) × IsManaged a × ¬ IsManaged b)))

    pub ranks_before-Outranks :
        (listed : List MachineDetails) (tag : String) (a b : VmHost)
        → ranks_before f lower trim_space
            (candidate f opts listed tag a)
            (candidate f opts listed tag b)
          ≡ false
        → ¬ Outranks a
            (cp_count_of listed tag a.host_system_id)
            b
            (cp_count_of listed tag b.host_system_id)
    unfolding ranks_before candidate is_managed_host
    ranks_before-Outranks listed tag a b h o =
        let h' = rw (score_lem opts a, score_lem opts b) at h in
        elim o [
          | inl fewer ↦ ground arith
          | inr (same, inl (unequal, greater)) ↦ ground arith
          | inr (same, inr (equal, managed, unmanaged)) ↦ ground arith
        ]

    -- By what the machines are that were listed to be counted, the first host goes before the second.
    pub record RanksAbove (listed : List MachineDetails) (tag : String) (a b : VmHost)
        : Type 0 where
      pub n : ℕ
      pub m : ℕ
      pub on_a : Counted (IsOn tag a.host_system_id) listed n
      pub on_b : Counted (IsOn tag b.host_system_id) listed m
      pub above : Outranks a n b m

    pub ranks_before-RanksAbove :
        (listed : List MachineDetails) (tag : String) (a b : VmHost)
        → ranks_before f lower trim_space
            (candidate f opts listed tag a)
            (candidate f opts listed tag b)
          ≡ false
        → ¬ RanksAbove listed tag a b
    ranks_before-RanksAbove listed tag a b h r = ranks_before-Outranks listed tag a b h (
        subst (λ n. Outranks a n b _)
          (Counted-unique (IsOn tag a.host_system_id) listed r.on_a
            (cp_count_of-Counted listed tag a.host_system_id))
          (subst (λ m. Outranks a r.n b m)
            (Counted-unique (IsOn tag b.host_system_id) listed r.on_b
              (cp_count_of-Counted listed tag b.host_system_id))
            r.above))
