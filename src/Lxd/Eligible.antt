-- ===== src/Lxd/Eligible.antt =====
-- Which VM hosts are eligible, written without the code's tests, and that the tests decide it.
use cluster_api_provider_maa.Base.{
  ℕ, ◌+◌, ◌-◌, ◌*◌, ◌%◌, ◌^◌, ◌≤◌, ◌<◌, ◌≡◌, ◌≢◌, ◌⊎◌, ◌↔◌, ap, refl, inl, inr, String, Bool, true,
  false, ◌&&◌, ◌||◌, List, [], ◌∷◌, Option, none, some, ◌==◌, ==_iff, any, all, leb, arith, All,
  Any, Bool-cases, if◌then◌else◌, Result, ok, err,
}
use cluster_api_provider_maa.Services.{MachineDetails}
use cluster_api_provider_maa.Fleet.{VmHost, StoragePool}
use cluster_api_provider_maa.Maintenance.Tags.{tag_host_maintenance, tag_host_no_schedule}
use cluster_api_provider_maa.Hmc.Service.{contains_string}
use cluster_api_provider_maa.Lxd.{
  SelectOptions, name_of, pool_has, has_storage, host_has_all_tags, has_maintenance_tag,
  passes_filters, is_healthy,
}

-- The pool is local and has the bytes, which are counted in 64 bits with a sign.
pub record HasRoom (gb : ℕ) (pool : StoragePool) : Type 0 where
  pub is_local : pool.is_remote ≡ false
  pub room :
      (gb * 1000000000 % 2 ^ 64 < 2 ^ 63 × pool.pending + gb * 1000000000 % 2 ^ 64 ≤ pool.available)
      ⊎ (2 ^ 63 ≤ gb * 1000000000 % 2 ^ 64
          × pool.pending ≤ pool.available + (2 ^ 64 - gb * 1000000000 % 2 ^ 64))

-- What is asked for, where it is not empty, is the name.
abbrev pub Wants : String → Option (String × ℕ) → Type 0
Wants wanted named = (wanted ≡ "") ⊎ ((number : ℕ) × (named ≡ some (wanted, number)))

-- What makes a VM host eligible, where `view` shows the machines: it is in the zone and the pool, has the
-- tags, the cores, the memory and the storage, and its machine is on, deployed and not under
-- maintenance.
pub record IsEligible (opts : SelectOptions) (view : String → Result MachineDetails) (host : VmHost)
    : Type 0 where
  pub in_zone : Wants opts.zone host.zone
  pub in_pool : Wants opts.resource_pool host.resource_pool
  pub tagged : All (λ t. Any (λ x. x ≡ t) host.tags) opts.tags
  pub enough_cores : opts.min_cores ≤ host.available_cores
  pub enough_memory : opts.min_memory ≤ host.available_memory
  pub enough_storage :
      (opts.min_disk_size_gb ≡ 0) ⊎ Any (HasRoom opts.min_disk_size_gb) host.storage_pools
  pub backed : host.host_system_id ≢ ""
  pub details : MachineDetails
  pub seen : view host.host_system_id ≡ ok details
  pub powered : details.power_state ≡ "on"
  pub deployed : details.state ≡ "Deployed"
  pub unheld : All (λ t. (t ≢ tag_host_maintenance) × (t ≢ tag_host_no_schedule)) details.tags

abbrev pub healthy_result : Result MachineDetails → Bool
healthy_result (ok d) = is_healthy d
healthy_result (err e) = false

-- The tests of the code, taken together.
unfoldable pub is_eligible : SelectOptions → (String → Result MachineDetails) → VmHost → Bool
is_eligible opts view host = passes_filters opts host && healthy_result (view host.host_system_id)

Wants-iff :
    (wanted : String) (named : Option (String × ℕ))
    → (wanted == "" || name_of named == wanted ≡ true) ↔ Wants wanted named
unfolding name_of
Wants-iff wanted none = (
  λ h. inl (ground (arith, ==_iff wanted "", ==_iff "" wanted)),
  λ w. elim w [ inl e ↦ ground (arith, ==_iff wanted "") | inr (n, e) ↦ cc e ],
)
Wants-iff wanted (some (name, number)) = (
  λ h. elim (Bool-cases (wanted == "")) [
    | inl e ↦ inl ((==_iff wanted "").0 e)
    | inr e ↦ inr (number, ap (λ x. some (x, number)) ((==_iff name wanted).0 (rw e at h)))
  ],
  λ w. elim w [
    | inl e ↦ ground (arith, ==_iff wanted "")
    | inr (n, e) ↦ ground (arith, (==_iff name wanted).1 (ap name_of e))
  ],
)

pub contains_string_iff :
    (tags : List String) (tag : String)
    → (contains_string tags tag ≡ true) ↔ Any (λ x. x ≡ tag) tags
unfolding contains_string
contains_string_iff [] tag = (λ h. cc, λ h. absurd h)
contains_string_iff (t ∷ tags) tag = ground (arith, ==_iff t tag, contains_string_iff tags tag)

all_tags_iff :
    (tags required : List String)
    → (all (λ t. contains_string tags t) required ≡ true)
      ↔ All (λ t. Any (λ x. x ≡ t) tags) required
all_tags_iff tags [] = (λ _. tt, λ _. refl)
all_tags_iff tags (t ∷ required) =
    ground (arith, contains_string_iff tags t, all_tags_iff tags required)

HasBytes : ℕ → StoragePool → Type 0
HasBytes bytes pool =
    (bytes < 2 ^ 63 × pool.pending + bytes ≤ pool.available)
    ⊎ (2 ^ 63 ≤ bytes × pool.pending ≤ pool.available + (2 ^ 64 - bytes))

HasBytes-iff :
    (bytes : ℕ) (pool : StoragePool)
    → ((if leb (2 ^ 63) bytes
          then leb pool.pending (pool.available + (2 ^ 64 - bytes))
          else leb (pool.pending + bytes) pool.available)
        ≡ true)
      ↔ HasBytes bytes pool
unfolding HasBytes
HasBytes-iff bytes pool = (
  λ h. elim (Bool-cases (leb (2 ^ 63) bytes)) [
    | inl big ↦ inr (ground arith, ground arith)
    | inr small ↦ inl (ground arith, ground arith)
  ],
  λ b. elim b [ inl (small, room) ↦ ground arith | inr (big, room) ↦ ground arith ],
)

HasRoom-iff :
    (gb : ℕ) (pool : StoragePool) → (pool_has (gb * 1000000000) pool ≡ true) ↔ HasRoom gb pool
unfolding pool_has HasBytes
HasRoom-iff gb pool =
    let room = HasBytes-iff (gb * 1000000000 % 2 ^ 64) pool in
    (
      λ h. elim (Bool-cases pool.is_remote) [
        | inl remote ↦ cc (rw remote at h)
        | inr local ↦ record { is_local = local; room = room.0 (rw local at h) }
      ],
      λ r. rw (r.is_local) (room.1 r.room),
    )

any_room_iff :
    (gb : ℕ) (pools : List StoragePool)
    → (any (pool_has (gb * 1000000000)) pools ≡ true) ↔ Any (HasRoom gb) pools
any_room_iff gb [] = (λ h. cc, λ h. absurd h)
any_room_iff gb (p ∷ pools) = ground (arith, HasRoom-iff gb p, any_room_iff gb pools)

unheld_iff :
    (tags : List String)
    → (has_maintenance_tag tags ≡ false)
      ↔ All (λ t. (t ≢ tag_host_maintenance) × (t ≢ tag_host_no_schedule)) tags
unfolding has_maintenance_tag
unheld_iff [] = (λ _. tt, λ _. refl)
unheld_iff (t ∷ tags) =
    ground (arith, ==_iff t tag_host_maintenance, ==_iff t tag_host_no_schedule, unheld_iff tags)

passes_filters_iff :
    (opts : SelectOptions) (host : VmHost)
    → (passes_filters opts host ≡ true)
      ↔ Wants opts.zone host.zone
        × Wants opts.resource_pool host.resource_pool
        × All (λ t. Any (λ x. x ≡ t) host.tags) opts.tags
        × (opts.min_cores ≤ host.available_cores)
        × (opts.min_memory ≤ host.available_memory)
        × ((opts.min_disk_size_gb ≡ 0) ⊎ Any (HasRoom opts.min_disk_size_gb) host.storage_pools)
        × (host.host_system_id ≢ "")
unfolding passes_filters host_has_all_tags has_storage
passes_filters_iff opts host = ground (
  arith,
  Wants-iff opts.zone host.zone,
  Wants-iff opts.resource_pool host.resource_pool,
  all_tags_iff host.tags opts.tags,
  any_room_iff opts.min_disk_size_gb host.storage_pools,
  ==_iff host.host_system_id "",
)

healthy_sound :
    (x : Result MachineDetails)
    → healthy_result x ≡ true
    → (d : MachineDetails) × (x ≡ ok d)
      × (d.power_state ≡ "on")
      × (d.state ≡ "Deployed")
      × All (λ t. (t ≢ tag_host_maintenance) × (t ≢ tag_host_no_schedule)) d.tags
unfolding is_healthy
healthy_sound (err e) h = cc h
healthy_sound (ok d) h = (
  d,
  refl,
  ground (arith, ==_iff d.power_state "on"),
  ground (arith, ==_iff d.state "Deployed"),
  (unheld_iff d.tags).0 (ground arith),
)

-- The tests of the code decide which hosts are eligible.
pub is_eligible_iff :
    (opts : SelectOptions) (view : String → Result MachineDetails) (host : VmHost)
    → (is_eligible opts view host ≡ true) ↔ IsEligible opts view host
unfolding is_eligible is_healthy ◌==◌
is_eligible_iff opts view host = (
  λ h.
      let (zone, pool, tagged, cores, memory, storage, backed) =
        (passes_filters_iff opts host).0 (ground arith) in
      let (d, seen, powered, deployed, unheld) =
        healthy_sound (view host.host_system_id) (ground arith) in
      record {
        in_zone = zone;
        in_pool = pool;
        tagged = tagged;
        enough_cores = cores;
        enough_memory = memory;
        enough_storage = storage;
        backed = backed;
        details = d;
        seen = seen;
        powered = powered;
        deployed = deployed;
        unheld = unheld;
      },
  λ e.
      let passes = (passes_filters_iff opts host).1 (
        e.in_zone, e.in_pool, e.tagged, e.enough_cores, e.enough_memory, e.enough_storage, e.backed,
      ) in
      rw (passes, e.seen, e.powered, e.deployed, (unheld_iff e.details.tags).1 e.unheld) refl,
)
