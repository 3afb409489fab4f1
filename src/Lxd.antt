-- ===== src/Lxd.antt =====
-- The selection of a VM host in pkg/maas/lxd/host_maas_client.go. `float64` and `sort.Slice` are
-- parameters.
pub mod Eligible
pub mod Rank
pub mod Laws
pub mod Register
use cluster_api_provider_maa.Base.{
  ℕ, suc, ◌+◌, ◌-◌, ◌*◌, ◌%◌, ◌^◌, String, ◌<>◌, Bool, true, false, not, ◌&&◌, ◌||◌, List, [], ◌∷◌,
  Option, none, some, ◌==◌, any, all, ltb, leb, nat_beq, is_nil, if◌then◌else◌, has_prefix, M,
  Result, ok, err, message, return, fail, attempt, ◌>>=◌,
}
use cluster_api_provider_maa.Services.{Maas, MachineDetails}
use cluster_api_provider_maa.Status.{machine_state_deployed, power_state_on}
use cluster_api_provider_maa.Fleet.{Fleet, VmHost, StoragePool}
use cluster_api_provider_maa.Maintenance.Tags.{
  tag_host_maintenance, tag_host_no_schedule, tag_vm_control_plane, tag_vm_cluster_prefix,
}
use cluster_api_provider_maa.Maintenance.Sanitize.{sanitize_id}
use cluster_api_provider_maa.Hmc.Service.{contains_string}

-- `SelectOptions`: what is empty or zero is not asked for.
pub record SelectOptions : Type 0 where
  pub zone : String
  pub resource_pool : String
  pub tags : List String
  pub min_cores : ℕ
  pub min_memory : ℕ
  pub min_disk_size_gb : ℕ
  pub cluster_id : String

-- `float64`
pub record Floats : Type 1 where
  pub Float : Type 0
  pub of_int : ℕ → Float
  pub add : Float → Float → Float
  pub divide : Float → Float → Float
  pub equals : Float → Float → Bool
  pub greater : Float → Float → Bool

unfoldable pub name_of : Option (String × ℕ) → String
name_of none = ""
name_of (some (name, number)) = name

-- `hostHasAllTags`
unfoldable pub host_has_all_tags : VmHost → List String → Bool
unfolding contains_string
host_has_all_tags host required = all (λ t. contains_string host.tags t) required

-- `hasMaintenanceTag`
unfoldable pub has_maintenance_tag : List String → Bool
has_maintenance_tag tags = any (λ t. t == tag_host_maintenance || t == tag_host_no_schedule) tags

-- Whether a pool has `required` bytes that are not committed, where the number of bytes is an `int64`:
-- from 2 ^ 63 on it is negative.
unfoldable pub pool_has : ℕ → StoragePool → Bool
pool_has required pool =
    let bytes = required % 2 ^ 64 in
    if pool.is_remote
    then false
    else if leb (2 ^ 63) bytes
    then leb pool.pending (pool.available + (2 ^ 64 - bytes))
    else leb (pool.pending + bytes) pool.available

-- The storage filter.
unfoldable pub has_storage : ℕ → List StoragePool → Bool
unfolding pool_has
has_storage gb pools = nat_beq gb 0 || any (pool_has (gb * 1000000000)) pools

-- The filters that a VM host passes by itself.
unfoldable pub passes_filters : SelectOptions → VmHost → Bool
unfolding name_of has_storage host_has_all_tags
passes_filters opts host =
    (opts.zone == "" || name_of host.zone == opts.zone)
    && (opts.resource_pool == "" || name_of host.resource_pool == opts.resource_pool)
    && host_has_all_tags host opts.tags
    && leb opts.min_cores host.available_cores
    && leb opts.min_memory host.available_memory
    && has_storage opts.min_disk_size_gb host.storage_pools
    && not (host.host_system_id == "")

-- The health of the machine that backs a VM host, and its maintenance tags.
unfoldable pub is_healthy : MachineDetails → Bool
unfolding has_maintenance_tag
is_healthy d =
    d.power_state == power_state_on
    && d.state == machine_state_deployed
    && not (has_maintenance_tag d.tags)

-- `computeCPCountsByHost`, at a host: the machines on it that have both tags.
unfoldable pub cp_count_of : List MachineDetails → String → String → ℕ
unfolding contains_string
cp_count_of [] cluster_tag host_system_id = 0
cp_count_of (d ∷ ds) cluster_tag host_system_id =
    let rest = cp_count_of ds cluster_tag host_system_id in
    if not (d.parent == "")
      && d.parent == host_system_id
      && contains_string d.tags tag_vm_control_plane
      && contains_string d.tags cluster_tag
    then suc rest
    else rest

module _ (f : Floats) where
  unfoldable pub ratio : ℕ → ℕ → f.Float
  ratio available minimum =
      if ltb 0 minimum then f.divide (f.of_int available) (f.of_int minimum) else f.of_int 0

  -- `computeResourceScore`
  unfoldable pub compute_resource_score : ℕ → ℕ → ℕ → ℕ → f.Float
  unfolding ratio
  compute_resource_score cores memory min_cores min_memory =
      f.add (ratio cores min_cores) (ratio memory min_memory)

  -- `candidateHost`
  pub record Candidate : Type 0 where
    pub host : VmHost
    pub cp_count : ℕ
    pub resource_score : f.Float

module _ (f : Floats) where
  -- What a host that is eligible ranks by.
  unfoldable pub candidate : SelectOptions → List MachineDetails → String → VmHost → Candidate f
  candidate opts listed cluster_tag host = record {
    host = host;
    cp_count = cp_count_of listed cluster_tag host.host_system_id;
    resource_score =
        compute_resource_score f host.available_cores host.available_memory opts.min_cores
          opts.min_memory;
  }

  unfoldable pub add_if_healthy :
      SelectOptions
      → List MachineDetails
      → String
      → VmHost
      → Result MachineDetails
      → List (Candidate f)
      → List (Candidate f)
  unfolding candidate is_healthy
  add_if_healthy opts listed cluster_tag host (err e) rest = rest
  add_if_healthy opts listed cluster_tag host (ok d) rest =
      if is_healthy d then candidate opts listed cluster_tag host ∷ rest else rest

module _ (f : Floats) (lower trim_space : String → String) where
  -- `isManagedHost`
  unfoldable pub is_managed_host : VmHost → Bool
  is_managed_host host = has_prefix (lower (trim_space host.name)) "lxd-host-"

  -- The order of the ranks: fewer control-plane machines, then the higher score, then a managed host.
  unfoldable pub ranks_before : Candidate f → Candidate f → Bool
  ranks_before a b =
      if not (nat_beq a.cp_count b.cp_count)
      then ltb a.cp_count b.cp_count
      else if not (f.equals a.resource_score b.resource_score)
      then f.greater a.resource_score b.resource_score
      else is_managed_host a.host && not (is_managed_host b.host)

-- The tag of the cluster, where the selection is for one.
unfoldable pub cluster_tag_of : (ℕ → ℕ) → String → String
cluster_tag_of fold cluster_id =
    if cluster_id == "" then "" else tag_vm_cluster_prefix <> sanitize_id fold cluster_id

module _ (f : Floats) (lower trim_space : String → String) (fold : ℕ → ℕ)
    (sort : (Candidate f → Candidate f → Bool) → List (Candidate f) → List (Candidate f))
    {S : Type 0} (maas : Maas S) (fleet : Fleet S) where
  -- The loop over the hosts: a host whose machine cannot be read is passed over.
  unfoldable pub collect_candidates :
      SelectOptions → List MachineDetails → String → List VmHost → M S (List (Candidate f))
  unfolding add_if_healthy
  collect_candidates opts listed cluster_tag [] = return []
  collect_candidates opts listed cluster_tag (host ∷ hosts) =
      let rest = collect_candidates opts listed cluster_tag hosts in
      if passes_filters opts host
      then (do
        read ← attempt (maas.get_machine host.host_system_id)
        candidates ← rest
        return (add_if_healthy f opts listed cluster_tag host read candidates))
      else rest

  -- The machines to count: none, where there is no cluster or they cannot be listed.
  unfoldable pub listed_or_none :
      Result (List MachineDetails) × S → Result (List MachineDetails) × S
  listed_or_none (ok ds, s) = (ok ds, s)
  listed_or_none (err e, s) = (ok [], s)

  unfoldable pub machines_to_count : String → M S (List MachineDetails)
  unfolding listed_or_none
  machines_to_count cluster_tag =
      if cluster_tag == "" then return [] else λ s. listed_or_none (fleet.list_details s)

  unfoldable pub first_ranked : List (Candidate f) → M S VmHost
  first_ranked [] = fail (message "no eligible LXD host found")
  first_ranked (c ∷ cs) = return c.host

  unfoldable pub rank_candidates : List (Candidate f) → M S VmHost
  unfolding first_ranked ranks_before
  rank_candidates candidates = first_ranked (sort (ranks_before f lower trim_space) candidates)

  unfoldable pub select_counted : List VmHost → SelectOptions → List MachineDetails → M S VmHost
  unfolding rank_candidates collect_candidates cluster_tag_of
  select_counted hosts opts listed =
      collect_candidates opts listed (cluster_tag_of fold opts.cluster_id) hosts >>= rank_candidates

  -- `SelectLXDHostWithMaasClient`
  unfoldable pub select_lxd_host : List VmHost → SelectOptions → M S VmHost
  unfolding machines_to_count select_counted
  select_lxd_host hosts opts =
      if is_nil hosts
      then fail (message "no LXD hosts available")
      else (machines_to_count (cluster_tag_of fold opts.cluster_id) >>= select_counted hosts opts)
