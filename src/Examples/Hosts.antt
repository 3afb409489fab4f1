-- ===== src/Examples/Hosts.antt =====
-- The selection of a VM host among two, with whole numbers for `float64` and one pass of exchanges
-- for the sort.
use mathlib.Core.Path.{subst}
use cluster_api_provider_maa.Base.{
  ℕ, ◌+◌, ◌/◌, ◌≡◌, ap, sym, refl, inl, inr, String, Bool, true, false, List, [], ◌∷◌, some, arith,
  ◌==◌, nat_beq, ltb, All, Any, All-map, if◌then◌else◌, Result, ok, err, message,
}
use cluster_api_provider_maa.Services.{Maas, MachineDetails}
use cluster_api_provider_maa.Fleet.{VmHost}
use cluster_api_provider_maa.Maintenance.Tags.{tag_host_maintenance}
use cluster_api_provider_maa.Lxd.{
  SelectOptions, Floats, passes_filters, cp_count_of, compute_resource_score, Candidate,
  ranks_before, select_lxd_host,
}
use cluster_api_provider_maa.Lxd.Eligible.{IsEligible}
use cluster_api_provider_maa.Lxd.Laws.{SortLaws, select_lxd_host-fails}
use cluster_api_provider_maa.Examples.Services.{idle_fleet}

abbrev pub floats : Floats
floats = record {
  Float = ℕ;
  of_int = λ n. n;
  add = λ a b. a + b;
  divide = λ a b. a / b;
  equals = nat_beq;
  greater = λ a b. ltb b a;
}

abbrev same : String → String
same s = s

abbrev less : Candidate floats → Candidate floats → Bool
less = ranks_before floats same same

exchange :
    (Candidate floats → Candidate floats → Bool)
    → Candidate floats
    → List (Candidate floats)
    → List (Candidate floats)
exchange before c [] = c ∷ []
exchange before c (d ∷ ds) = if before d c then d ∷ c ∷ ds else c ∷ d ∷ ds

unfoldable pub sort :
    (Candidate floats → Candidate floats → Bool) → List (Candidate floats) → List (Candidate floats)
unfolding exchange
sort before [] = []
sort before (c ∷ cs) = exchange before c (sort before cs)

less_asym : (c d : Candidate floats) → less d c ≡ true → less c d ≡ false
unfolding ranks_before
less_asym c d h = ground arith

less_trans : (c d x : Candidate floats) → less x d ≡ false → less d c ≡ false → less x c ≡ false
unfolding ranks_before
less_trans c d x h k = ground arith

less_irrefl : (c : Candidate floats) → less c c ≡ false
unfolding ranks_before
less_irrefl c = ground arith

-- No candidate of the list is less than its element `c`.
abbrev IsLeast : Candidate floats → List (Candidate floats) → Type 0
IsLeast c cs = (Any (λ x. x ≡ c) cs) × All (λ x. less x c ≡ false) cs

head_or : Candidate floats → List (Candidate floats) → Candidate floats
head_or c [] = c
head_or c (d ∷ ds) = d

exchange-IsLeast :
    (c d : Candidate floats) (cs : List (Candidate floats)) (b : Bool)
    → less d c ≡ b
    → IsLeast d cs
    → IsLeast (if b then d else c) (c ∷ cs)
exchange-IsLeast c d cs true before (member, least) = (inr member, (less_asym c d before, least))
exchange-IsLeast c d cs false behind (member, least) = (
  inl refl,
  (
    less_irrefl c,
    All-map (λ x. less x d ≡ false) (λ x. less x c ≡ false) (λ x h. less_trans c d x h behind) cs
        least,
  ),
)

-- The head of an exchange, by the test that it makes.
exchange_head :
    (c d e : Candidate floats) (ds rest : List (Candidate floats)) (b : Bool)
    → (if b then d ∷ c ∷ ds else c ∷ d ∷ ds) ≡ e ∷ rest
    → (if b then d else c) ≡ e
unfolding head_or
exchange_head c d e ds rest true h = ap (λ l. head_or c l) h
exchange_head c d e ds rest false h = ap (λ l. head_or c l) h

exchange_not_nil :
    (c d : Candidate floats) (ds : List (Candidate floats)) (b : Bool)
    → ¬ ((if b then d ∷ c ∷ ds else c ∷ d ∷ ds) ≡ [])
exchange_not_nil c d ds true h = cc h
exchange_not_nil c d ds false h = cc h

pass_empty : (cs : List (Candidate floats)) → sort less cs ≡ [] → cs ≡ []
unfolding sort exchange
pass_empty [] h = refl
pass_empty (c ∷ cs) h = exchanged (sort less cs) h
  where
    exchanged : (ds : List (Candidate floats)) → exchange less c ds ≡ [] → c ∷ cs ≡ []
    exchanged [] h = cc h
    exchanged (d ∷ ds) h = absurd (exchange_not_nil c d ds (less d c) h)

-- One pass brings a least element to the front.
pass_first :
    (cs : List (Candidate floats)) (c : Candidate floats) (rest : List (Candidate floats))
    → sort less cs ≡ c ∷ rest
    → IsLeast c cs
unfolding sort exchange head_or
pass_first [] c rest h = cc h
pass_first (d ∷ cs) c rest h = exchanged (pass_first cs) (sort less cs) refl h
  where
    exchanged :
        ((x : Candidate floats) (xs : List (Candidate floats))
          → sort less cs ≡ x ∷ xs
          → IsLeast x cs)
        → (ds : List (Candidate floats)) → sort less cs ≡ ds
        → exchange less d ds ≡ c ∷ rest
        → IsLeast c (d ∷ cs)
    exchanged below [] e h =
        subst (λ x. IsLeast x (d ∷ cs)) (ap (head_or d) h)
          (subst (λ l. IsLeast d (d ∷ l)) (sym (pass_empty cs e)) (inl refl, (less_irrefl d, tt)))
    exchanged below (x ∷ xs) e h =
        subst (λ y. IsLeast y (d ∷ cs)) (exchange_head d x c xs rest (less x d) h)
          (exchange-IsLeast d x cs (less x d) refl (below x xs e))

abbrev same_code : ℕ → ℕ
same_code n = n

sorts : SortLaws floats same same same_code sort
sorts = record { first = pass_first; empty = pass_empty }

-- The machine that backs a host, by its system id.
abbrev backing : String → MachineDetails
backing id = record {
  system_id = id;
  hostname = id;
  fqdn = "";
  state = "Deployed";
  parent = "";
  tags = if id == "busy" then tag_host_maintenance ∷ [] else [];
  zone = some "z";
  zone_name = "z";
  resource_pool_name = "pool";
  power_state = "on";
  power_type = "ipmi";
  ip_addresses = [];
  deployed_in_memory = false;
  boot_interface_type = "physical";
}

abbrev maas : Maas (Unit {0})
maas = record {
  list_tags = λ s. (ok [], s);
  create_tag = λ tag s. (ok tt, s);
  assign_tag = λ tag id s. (ok tt, s);
  unassign_tag = λ tag id s. (ok tt, s);
  list_machines = λ filters s. (ok [], s);
  get_machine = λ id s. (ok (backing id), s);
}

abbrev vm_host : String → String → ℕ → VmHost
vm_host name backed_by cores = record {
  system_id = name;
  name = name;
  host_system_id = backed_by;
  zone = some ("z", 1);
  resource_pool = some ("pool", 1);
  tags = [];
  available_cores = cores;
  available_memory = 16384;
  storage_pools = record { is_remote = false; available = 90000000000; pending = 0 } ∷ [];
}

-- One host is small, one is free, and one is under maintenance.
abbrev hosts : List VmHost
hosts = vm_host "small" "a" 2 ∷ vm_host "free" "b" 8 ∷ vm_host "held" "busy" 64 ∷ []

abbrev opts : ℕ → SelectOptions
opts cores = record {
  zone = "z";
  resource_pool = "";
  tags = [];
  min_cores = cores;
  min_memory = 8192;
  min_disk_size_gb = 60;
  cluster_id = "";
}

abbrev selected : ℕ → Result VmHost × Unit {0}
selected cores =
    select_lxd_host floats same same same_code sort maas idle_fleet hosts (opts cores) tt

none_selected : selected 16 ≡ (err (message "no eligible LXD host found"), tt)
unfolding select_lxd_host sort ◌==◌ passes_filters cp_count_of compute_resource_score
none_selected = refl

select_lxd_host-fails_example : All (λ o. ¬ IsEligible (opts 16) (λ id. ok (backing id)) o) hosts
select_lxd_host-fails_example =
    select_lxd_host-fails floats same same same_code sort sorts maas idle_fleet
      (λ id. ok (backing id)) (λ id s. refl) (opts 16) hosts tt tt
      (message "no eligible LXD host found") none_selected
