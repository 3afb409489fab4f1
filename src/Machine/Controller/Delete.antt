-- ===== src/Machine/Controller/Delete.antt =====
-- `reconcileDelete` of controllers/maasmachine_controller.go.
pub mod Laws
pub mod WellFormed
pub mod Progress
use cluster_api_provider_maa.Base.{
  ℕ, ◌-◌, String, ◌<>◌, Bool, true, false, not, ◌&&◌, List, [], ◌∷◌, Option, none, some, ◌==◌, ltb,
  deref, if◌then◌else◌, M, Result, ok, err, Error, errors_is, wrap, return, fail, attempt, wrapping,
  ◌>>=◌, ◌>>◌,
}
use cluster_api_provider_maa.Services.{MachineDetails}
use cluster_api_provider_maa.Status.{
  Instance, condition_false, machine_deployed_condition, deleted_reason, machine_finalizer,
}
use cluster_api_provider_maa.Api.{MaasMachine, is_hcp_maas_cluster}
use cluster_api_provider_maa.Fleet.{VmHost}
use cluster_api_provider_maa.Hmc.Service.{host_evacuation_finalizer, contains_string, remove_string}
use cluster_api_provider_maa.Hmc.Controller.{Outcome, done, requeue_after}
use cluster_api_provider_maa.Machine.Scope.{
  Live, lift, current, modify, get_instance_id, get_dynamic_lxd,
}
use cluster_api_provider_maa.Machine.Service.{
  get_machine, release_machine, unregister_lxd_host_by_name, delete_lxd_vm,
}
use cluster_api_provider_maa.Machine.Controller.{
  Reconciler, is_vm_host_removal_required_error, emit, conditioned, reconcile_dns_attachment,
}

-- `controllerutil.RemoveFinalizer`
unfoldable pub without_finalizer : String → MaasMachine → MaasMachine
unfolding remove_string
without_finalizer name mm = record mm { finalizers = remove_string mm.finalizers name }

-- `shouldGateFinalizerRemoval`, at a time: a deletion is young for two minutes.
unfoldable pub should_gate_finalizer_removal : Option ℕ → ℕ → Bool
should_gate_finalizer_removal none now = false
should_gate_finalizer_removal (some deleted_at) now = ltb (now - deleted_at) 120000000000

module _ {S : Type 0} (r : Reconciler S) where
  unfoldable pub find_by_id : Option String → M (Live S) (Option Instance)
  find_by_id none = return none
  find_by_id (some id) =
      if id == ""
      then return none
      else wrapping "Unable to find machine" (lift (get_machine r.scope.lower r.maas r.fleet id))

  -- `findMachine`
  unfoldable pub find_machine : M (Live S) (Option Instance)
  unfolding find_by_id
  find_machine = current >>= λ mm. find_by_id (get_instance_id mm)

  -- `canonicalLXDHostName`
  unfoldable pub canonical_lxd_host_name : String → String
  canonical_lxd_host_name hostname = "lxd-host-" <> r.scope.lower (r.scope.trim_space hostname)

  unfoldable pub unregister : String → M S (Unit {0})
  unregister host_name = unregister_lxd_host_by_name r.scope.lower r.maas r.fleet host_name

  -- Whether the machine is a control-plane machine of a cluster whose hosts are registered in LXD.
  unfoldable pub is_lxd_control_plane : Bool
  is_lxd_control_plane =
      is_hcp_maas_cluster r.scope.maas_cluster && r.scope.machine.is_control_plane

  -- `bestEffortUnregisterLXDHost`, which passes over errors.
  unfoldable pub best_effort_unregister_lxd_host : Instance → M (Live S) (Unit {0})
  unfolding unregister
  best_effort_unregister_lxd_host i =
      let host_name = canonical_lxd_host_name i.hostname in
      if host_name == "lxd-host-"
      then return tt
      else (attempt (lift (unregister host_name)) >>= λ _. return tt)

  delete_guest : Result MachineDetails × S → Result (Unit {0}) × S
  delete_guest (err e, s) = (ok tt, s)
  delete_guest (ok d, s) = (attempt (r.fleet.delete_machine d.system_id) >>= λ _. return tt) s

  delete_guests : List String → M S (Unit {0})
  unfolding delete_guest
  delete_guests [] = return tt
  delete_guests (id ∷ ids) =
      let rest = delete_guests ids in
      (if id == "" then return tt else λ s. delete_guest (r.maas.get_machine id s)) >> rest

  guests_of : Result (List String) × S → Result (Unit {0}) × S
  unfolding delete_guests
  guests_of (err e, s) = (ok tt, s)
  guests_of (ok ids, s) = delete_guests ids s

  -- The first VM host that the machine backs.
  delete_guests_of_host : String → List VmHost → M S (Unit {0})
  unfolding guests_of
  delete_guests_of_host host_system_id [] = return tt
  delete_guests_of_host host_system_id (host ∷ hosts) =
      let rest = delete_guests_of_host host_system_id hosts in
      if host.host_system_id == host_system_id
      then (λ s. guests_of (r.fleet.list_guests host.system_id s))
      else rest

  delete_guests_among : String → Result (List VmHost) × S → Result (Unit {0}) × S
  unfolding delete_guests_of_host
  delete_guests_among host_system_id (err e, s) = (ok tt, s)
  delete_guests_among host_system_id (ok hosts, s) = delete_guests_of_host host_system_id hosts s

  -- `forceDeleteGuestVMsIfControlPlane`
  unfoldable pub force_delete_guest_vms : String → M S (Unit {0})
  unfolding delete_guests_among
  force_delete_guest_vms host_system_id s =
      delete_guests_among host_system_id (r.fleet.list_vm_hosts s)

  unfoldable pub release_instance : Instance → M S (Unit {0})
  release_instance i = release_machine r.scope.lower r.maas r.fleet i.id

  -- The second attempt, where the VM host could be unregistered; otherwise the first error.
  unfoldable pub release_again : Instance → Error → Result (Unit {0}) × S → Result (Unit {0}) × S
  unfolding release_instance
  release_again i e (err u, s) = (err e, s)
  release_again i e (ok _, s) = release_instance i s

  unfoldable pub unregister_and_release : Instance → Error → M S (Unit {0})
  unfolding unregister release_again
  unregister_and_release i e s =
      let host_name = canonical_lxd_host_name i.hostname in
      if host_name == "lxd-host-" then (err e, s) else release_again i e (unregister host_name s)

  unfoldable pub handle_release : Instance → Result (Unit {0}) × S → Result (Unit {0}) × S
  unfolding is_lxd_control_plane unregister_and_release
  handle_release i (ok _, s) = (ok tt, s)
  handle_release i (err e, s) =
      if is_vm_host_removal_required_error e
      then ((if is_lxd_control_plane then force_delete_guest_vms i.id else return tt)
            >> unregister_and_release i e)
          s
      else (err e, s)

  -- `tryReleaseWithVMHostHandling`
  unfoldable pub try_release_with_vm_host_handling : Instance → M S (Unit {0})
  unfolding handle_release release_instance
  try_release_with_vm_host_handling i s = handle_release i (release_instance i s)

  -- `maybeDeleteDynamicLXDVM`, which passes over errors.
  unfoldable pub maybe_delete_dynamic_lxd_vm : String → M (Live S) (Unit {0})
  maybe_delete_dynamic_lxd_vm system_id l =
      if get_dynamic_lxd l.maas_machine
      then (attempt (lift (delete_lxd_vm r.scope.lower r.maas r.fleet system_id)) >>= λ _.
            return tt)
          l
      else (ok tt, l)

  -- `finalizeMachineDeletion`
  unfoldable pub finalize_machine_deletion : String → M (Live S) (Unit {0})
  unfolding without_finalizer
  finalize_machine_deletion system_id =
      conditioned r machine_deployed_condition condition_false deleted_reason ""
      >> emit r "SuccessfulRelease" ("Released instance " <> system_id)
      >> modify (without_finalizer machine_finalizer)

  -- MAAS has no such machine.
  unfoldable pub delete_missing : ℕ → M (Live S) Outcome
  unfolding without_finalizer
  delete_missing now l =
      if should_gate_finalizer_removal l.maas_machine.deletion_timestamp now
      then (ok (requeue_after 30), l)
      else (emit r "NoMachineFound" "Unable to find matching MaaS machine"
            >> modify (without_finalizer machine_finalizer)
            >> return done)
          l

  unfoldable pub delete_released : Instance → M (Live S) Outcome
  delete_released i =
      maybe_delete_dynamic_lxd_vm i.id >> finalize_machine_deletion i.id >> return done

  unfoldable pub release_found : Instance → M (Live S) Outcome
  unfolding is_lxd_control_plane delete_released
  release_found i =
      (if is_lxd_control_plane then best_effort_unregister_lxd_host i else return tt)
      >> (lift (try_release_with_vm_host_handling i) >> delete_released i)

  -- A machine that is still in the DNS waits for the cluster.
  unfoldable pub after_dns : Instance → Result (Unit {0}) × Live S → Result Outcome × Live S
  unfolding release_found
  after_dns i (ok _, l) = release_found i l
  after_dns i (err e, l) = if errors_is e "ErrRequeueDNS" then (ok done, l) else (err e, l)

  unfoldable pub delete_found : Option Instance → M (Live S) Outcome
  unfolding delete_missing after_dns
  delete_found none = lift r.runtime.now >>= delete_missing
  delete_found (some i) = λ l. after_dns i (reconcile_dns_attachment r i l)

  -- A host that is to be evacuated first, which needs a system id.
  unfoldable pub wait_for_evacuation : MaasMachine → M (Live S) Outcome
  unfolding without_finalizer
  wait_for_evacuation mm =
      if deref mm.spec.system_id == ""
      then (modify (without_finalizer host_evacuation_finalizer) >> return done)
      else return (requeue_after 10)

  -- `reconcileDelete`
  unfoldable pub reconcile_delete : M (Live S) Outcome
  unfolding delete_found wait_for_evacuation
  reconcile_delete l =
      if contains_string l.maas_machine.finalizers host_evacuation_finalizer
      then wait_for_evacuation l.maas_machine l
      else (find_machine >>= delete_found) l
