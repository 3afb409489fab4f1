-- ===== src/Machine/Controller/Delete/WellFormed.antt =====
-- What `reconcileDelete` leaves of a machine's status: finalizers and conditions do not count for it.
use cluster_api_provider_maa.Base.{
  ℕ, String, Option, none, some, ◌==◌, deref, if◌then◌else◌, Result, ok, err, errors_is, return,
  fail, attempt, ◌>>=◌, ◌>>◌,
}
use cluster_api_provider_maa.Status.{Instance, machine_finalizer}
use cluster_api_provider_maa.Api.{MaasMachine}
use cluster_api_provider_maa.Hmc.Service.{host_evacuation_finalizer, contains_string}
use cluster_api_provider_maa.Hmc.Controller.{done, requeue_after}
use cluster_api_provider_maa.Machine.Scope.{Live, lift, modify, get_dynamic_lxd}
use cluster_api_provider_maa.Machine.Scope.Keeps.{
  IsWellFormed, Keeps, >>=-Keeps, if-Keeps, choice-Keeps,
}
use cluster_api_provider_maa.Machine.Service.{delete_lxd_vm}
use cluster_api_provider_maa.Machine.Controller.{Reconciler, emit, reconcile_dns_attachment}
use cluster_api_provider_maa.Machine.Controller.Keeps.{reconcile_dns_attachment-Keeps}
use cluster_api_provider_maa.Machine.Controller.Delete.{
  without_finalizer, should_gate_finalizer_removal, find_machine, wait_for_evacuation, delete_found,
  after_dns, release_found, delete_released, delete_missing, try_release_with_vm_host_handling,
  is_lxd_control_plane, unregister, canonical_lxd_host_name, best_effort_unregister_lxd_host,
  maybe_delete_dynamic_lxd_vm, finalize_machine_deletion, reconcile_delete,
}
use cluster_api_provider_maa.Machine.Controller.Delete.Laws.{find_machine-Keeps}

module _ {S : Type 0} (r : Reconciler S) where
  wait_for_evacuation-IsWellFormed :
      (mm : MaasMachine) → Keeps IsWellFormed (wait_for_evacuation r mm)
  unfolding wait_for_evacuation without_finalizer
  wait_for_evacuation-IsWellFormed mm =
      choice-Keeps IsWellFormed (deref mm.spec.system_id == "")
        (modify (without_finalizer host_evacuation_finalizer) >> return done)
        (return (requeue_after 10)) (λ _ p. p) (λ _ p. p)

  delete_missing-IsWellFormed : (now : ℕ) → Keeps IsWellFormed (delete_missing r now)
  unfolding delete_missing without_finalizer
  delete_missing-IsWellFormed now l =
      if-Keeps IsWellFormed (should_gate_finalizer_removal l.maas_machine.deletion_timestamp now)
        (return (requeue_after 30))
        (emit r "NoMachineFound" "Unable to find matching MaaS machine"
          >> modify (without_finalizer machine_finalizer)
          >> return done)
        (λ _ p. p) (λ _ p. p) l

  maybe_delete_dynamic_lxd_vm-IsWellFormed :
      (id : String) → Keeps IsWellFormed (maybe_delete_dynamic_lxd_vm r id)
  unfolding maybe_delete_dynamic_lxd_vm
  maybe_delete_dynamic_lxd_vm-IsWellFormed id l =
      if-Keeps IsWellFormed (get_dynamic_lxd l.maas_machine)
        (attempt (lift (delete_lxd_vm r.scope.lower r.maas r.fleet id)) >>= λ _. return tt)
        (return tt) (λ _ p. p) (λ _ p. p) l

  delete_released-IsWellFormed : (i : Instance) → Keeps IsWellFormed (delete_released r i)
  unfolding delete_released finalize_machine_deletion without_finalizer
  delete_released-IsWellFormed i =
      >>=-Keeps IsWellFormed
        (maybe_delete_dynamic_lxd_vm r i.id >> finalize_machine_deletion r i.id) (λ _. return done)
        (>>=-Keeps IsWellFormed (maybe_delete_dynamic_lxd_vm r i.id)
          (λ _. finalize_machine_deletion r i.id) (maybe_delete_dynamic_lxd_vm-IsWellFormed i.id)
          (λ _ _ p. p))
        (λ _ _ p. p)

  best_effort-IsWellFormed :
      (i : Instance) → Keeps IsWellFormed (best_effort_unregister_lxd_host r i)
  unfolding best_effort_unregister_lxd_host
  best_effort-IsWellFormed i =
      choice-Keeps IsWellFormed (canonical_lxd_host_name r i.hostname == "lxd-host-") (return tt)
        (attempt (lift (unregister r (canonical_lxd_host_name r i.hostname))) >>= λ _. return tt)
        (λ _ p. p) (λ _ p. p)

  release_found-IsWellFormed : (i : Instance) → Keeps IsWellFormed (release_found r i)
  unfolding release_found
  release_found-IsWellFormed i =
      >>=-Keeps IsWellFormed
        (if is_lxd_control_plane r then best_effort_unregister_lxd_host r i else return tt)
        (λ _. lift (try_release_with_vm_host_handling r i) >> delete_released r i)
        (choice-Keeps IsWellFormed (is_lxd_control_plane r) (best_effort_unregister_lxd_host r i)
          (return tt) (best_effort-IsWellFormed i) (λ _ p. p))
        (λ _.
          >>=-Keeps IsWellFormed (lift (try_release_with_vm_host_handling r i))
            (λ _. delete_released r i) (λ _ p. p) (λ _. delete_released-IsWellFormed i))

  after_dns-IsWellFormed :
      (i : Instance) (x : Result (Unit {0}) × Live S)
      → IsWellFormed x.1.maas_machine
      → IsWellFormed (after_dns r i x).1.maas_machine
  unfolding after_dns
  after_dns-IsWellFormed i (ok _, l) p = release_found-IsWellFormed i l p
  after_dns-IsWellFormed i (err e, l) p =
      if-Keeps IsWellFormed (errors_is e "ErrRequeueDNS") (return done) (fail e) (λ _ p. p)
        (λ _ p. p) l p

  delete_found-IsWellFormed : (found : Option Instance) → Keeps IsWellFormed (delete_found r found)
  unfolding delete_found
  delete_found-IsWellFormed none =
      >>=-Keeps IsWellFormed (lift r.runtime.now) (delete_missing r) (λ _ p. p)
        delete_missing-IsWellFormed
  delete_found-IsWellFormed (some i) = λ l p.
      after_dns-IsWellFormed i (reconcile_dns_attachment r i l)
        (reconcile_dns_attachment-Keeps r IsWellFormed (λ _ _ _ p. p) i l p)

  -- The reconcile of a deletion keeps a machine well-formed.
  pub reconcile_delete-IsWellFormed : Keeps IsWellFormed (reconcile_delete r)
  unfolding reconcile_delete
  reconcile_delete-IsWellFormed l =
      if-Keeps IsWellFormed (contains_string l.maas_machine.finalizers host_evacuation_finalizer)
        (wait_for_evacuation r l.maas_machine) (find_machine r >>= delete_found r)
        (wait_for_evacuation-IsWellFormed l.maas_machine)
        (>>=-Keeps IsWellFormed (find_machine r) (delete_found r)
          (find_machine-Keeps r IsWellFormed) delete_found-IsWellFormed)
        l
