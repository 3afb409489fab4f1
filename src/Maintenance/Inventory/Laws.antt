-- ===== src/Maintenance/Inventory/Laws.antt =====
-- What the listings of virtual machines contain, and what they leave out.
use mathlib.Core.Path.{subst}
use cluster_api_provider_maa.Base.{
  ◌≡◌, bind_result, refl, String, Bool, true, List, [], ◌∷◌, ◌==◌, ==_iff, All, M, Result, ok, err,
  Error, >>=-ok, Bool-cases, inl, inr, return,
}
use cluster_api_provider_maa.Services.{Maas, MachineDetails}
use cluster_api_provider_maa.Maintenance.Inventory.{
  Machine, machine_of_details, collect_round, collect, list_children, list_host_vms, list_all_vms,
}

module _ {S : Type 0} (maas : Maas S) (wanted : MachineDetails → Bool) where
  -- Every machine of a listing that ended well.
  abbrev Listed : (Machine → Type 0) → Result (List Machine) × S → Type 0
  Listed P (ok vms, s) = All P vms
  Listed P (err e, s) = Unit

  module _ (P : Machine → Type 0)
      (good : (d : MachineDetails) → wanted d ≡ true → P (machine_of_details d)) where
    Listed-cons :
        (d : MachineDetails) (r : Result (List Machine) × S)
        → wanted d ≡ true
        → Listed P r
        → Listed P (bind_result r (λ vms. return (machine_of_details d ∷ vms)))
    Listed-cons d (ok vms, s) w h = (good d w, h)
    Listed-cons d (err e, s) w h = tt

    collect_round-Listed :
        (r : Result MachineDetails × S) (rest : M S (List Machine))
        → ((t : S) → Listed P (rest t))
        → Listed P (collect_round maas wanted r rest)
    unfolding collect_round
    collect_round-Listed (err e, s) rest h = h s
    collect_round-Listed (ok d, s) rest h = elim (Bool-cases (wanted d)) [
      | inl w ↦ rw w (Listed-cons d (rest s) w (h s))
      | inr w ↦ rw w (h s)
    ]

    -- What every wanted machine satisfies holds of all that are collected.
    collect-Listed : (ids : List String) (s : S) → Listed P (collect maas wanted ids s)
    unfolding collect
    collect-Listed [] s = tt
    collect-Listed (id ∷ ids) s =
        collect_round-Listed (maas.get_machine id s) (collect maas wanted ids) (collect-Listed ids)

  -- Machines whose details cannot be read are not collected.
  collect_unreadable :
      (ids : List String) (s : S)
      → All (λ id. (e : Error) × (maas.get_machine id s ≡ (err e, s))) ids
      → collect maas wanted ids s ≡ (ok [], s)
  unfolding collect collect_round
  collect_unreadable [] s h = refl
  collect_unreadable (id ∷ ids) s h = rw h.0.1 (collect_unreadable ids s h.1)

module _ {S : Type 0} (maas : Maas S) where
  -- Every virtual machine that is listed for a host names that host as its parent, in whatever way
  -- MAAS filtered the machines.
  pub list_host_vms-host :
      (host : String) (s s' : S) (vms : List Machine)
      → list_host_vms maas host s ≡ (ok vms, s')
      → All (λ vm. vm.host_system_id ≡ host) vms
  unfolding list_host_vms machine_of_details
  list_host_vms-host host s s' vms h =
      let (ids, t, listed, rest) =
        >>=-ok (list_children maas host) (collect maas (λ d. d.parent == host)) s h in
      subst (Listed maas (λ d. d.parent == host) (λ vm. vm.host_system_id ≡ host)) rest (
        collect-Listed maas (λ d. d.parent == host) (λ vm. vm.host_system_id ≡ host)
          (λ d e. (==_iff d.parent host).0 e) ids t)

  -- Every machine of the listing of all VMs has the power type lxd.
  list_all_vms-lxd :
      (s s' : S) (vms : List Machine)
      → list_all_vms maas s ≡ (ok vms, s')
      → All (λ vm. vm.power_type ≡ "lxd") vms
  unfolding list_all_vms machine_of_details
  list_all_vms-lxd s s' vms h =
      let (ids, t, listed, rest) =
        >>=-ok (maas.list_machines []) (collect maas (λ d. d.power_type == "lxd")) s h in
      subst (Listed maas (λ d. d.power_type == "lxd") (λ vm. vm.power_type ≡ "lxd")) rest (
        collect-Listed maas (λ d. d.power_type == "lxd") (λ vm. vm.power_type ≡ "lxd")
          (λ d e. (==_iff d.power_type "lxd").0 e) ids t)

  -- A machine whose details cannot be read is missing from the listing: where that holds of all the
  -- machines that MAAS lists for a host, the host counts as empty.
  pub list_host_vms_unreadable :
      (host : String) (ids : List String) (s t : S)
      → maas.list_machines (("parent", host) ∷ []) s ≡ (ok ids, t)
      → All (λ id. (e : Error) × (maas.get_machine id t ≡ (err e, t))) ids
      → list_host_vms maas host s ≡ (ok [], t)
  unfolding list_host_vms list_children
  list_host_vms_unreadable host ids s t listed unreadable =
      rw listed (collect_unreadable maas (λ d. d.parent == host) ids t unreadable)
