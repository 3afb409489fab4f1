-- ===== src/Machine/Controller/Delete/Laws.antt =====
-- When a deletion takes the finalizers of a machine off.
use cluster_api_provider_maa.Base.{
  ◌≡◌, ◌≢◌, ◌∙◌, refl, inl, inr, String, Bool, true, false, Option, none, some, arith, ◌==◌,
  Bool-cases, deref, if◌then◌else◌, M, Result, ok, err, Error, return, wrapping, wrap_result,
  bind_result, attempt, ◌>>=◌, ◌>>◌,
}
use cluster_api_provider_maa.Status.{Instance, machine_finalizer}
use cluster_api_provider_maa.Api.{MaasMachine}
use cluster_api_provider_maa.Hmc.Service.{host_evacuation_finalizer, contains_string}
use cluster_api_provider_maa.Hmc.Service.Cleanup.{contains_string-remove_string}
use cluster_api_provider_maa.Hmc.Controller.{done, requeue_after}
use cluster_api_provider_maa.Machine.Scope.{Live, lift, modify, get_instance_id}
use cluster_api_provider_maa.Machine.Scope.Keeps.{Keeps, >>=-Keeps, wrapping-Keeps, choice-Keeps}
use cluster_api_provider_maa.Machine.Service.{get_machine, release_machine}
use cluster_api_provider_maa.Machine.Controller.{
  Reconciler, reconcile_dns_attachment, is_vm_host_removal_required_error,
}
use cluster_api_provider_maa.Machine.Controller.Keeps.{reconcile_dns_attachment-Keeps}
use cluster_api_provider_maa.Machine.Controller.Delete.{
  without_finalizer, find_by_id, find_machine, wait_for_evacuation, delete_found, after_dns,
  release_found, delete_released, try_release_with_vm_host_handling, handle_release, release_again,
  unregister_and_release, release_instance, is_lxd_control_plane, unregister,
  canonical_lxd_host_name, force_delete_guest_vms, best_effort_unregister_lxd_host,
  reconcile_delete,
}

abbrev pub HasFinalizer : String → MaasMachine → Type 0
HasFinalizer name mm = contains_string mm.finalizers name ≡ true

abbrev pub succeeded : {A : Type 0} → Result A → Bool
succeeded (ok a) = true
succeeded (err e) = false

module _ {S : Type 0} where
  bind_result-failing :
      {A B : Type 0} (r : Result A × S) (m : M S B)
      → ((s : S) → succeeded (m s).0 ≡ false)
      → succeeded (bind_result r (λ _. m)).0 ≡ false
  bind_result-failing (ok a, s) m fails = fails s
  bind_result-failing (err e, s) m fails = refl

  wrap_result-failing :
      {A : Type 0} (text : String) (r : Result A × S)
      → succeeded r.0 ≡ false
      → succeeded (wrap_result text r).0 ≡ false
  wrap_result-failing text (ok a, s) fails = fails
  wrap_result-failing text (err e, s) fails = refl

  bind_result-stops :
      {A : Type 0} (P : MaasMachine → Type 0) (r : Result (Unit {0}) × Live S) (f : M (Live S) A)
      → succeeded r.0 ≡ false
      → P r.1.maas_machine
      → P (bind_result r (λ _. f)).1.maas_machine
  bind_result-stops P (ok a, l) f fails p = cc fails
  bind_result-stops P (err e, l) f fails p = p

  -- A call that fails ends a program that keeps the property up to it.
  lift-failing :
      {A : Type 0} (P : MaasMachine → Type 0) (m : M S (Unit {0})) (f : M (Live S) A)
      → ((s : S) → succeeded (m s).0 ≡ false)
      → Keeps P (lift m >> f)
  lift-failing P m f fails l p = bind_result-stops P (lift m l) f (fails l.world) p

module _ {S : Type 0} (r : Reconciler S) where
  find_by_id-Keeps : (P : MaasMachine → Type 0) (id : Option String) → Keeps P (find_by_id r id)
  unfolding find_by_id
  find_by_id-Keeps P none = λ _ p. p
  find_by_id-Keeps P (some id) =
      choice-Keeps P (id == "") (return none)
        (wrapping "Unable to find machine" (lift (get_machine r.scope.lower r.maas r.fleet id)))
        (λ _ p. p)
        (wrapping-Keeps P "Unable to find machine"
          (lift (get_machine r.scope.lower r.maas r.fleet id)) (λ _ p. p))

  -- Looking for the machine changes nothing of it.
  pub find_machine-Keeps : (P : MaasMachine → Type 0) → Keeps P (find_machine r)
  unfolding find_machine
  find_machine-Keeps P l p = find_by_id-Keeps P (get_instance_id l.maas_machine) l p

  without_finalizer-HasFinalizer :
      (mm : MaasMachine)
      → HasFinalizer machine_finalizer mm
      → HasFinalizer machine_finalizer (without_finalizer host_evacuation_finalizer mm)
  unfolding without_finalizer ◌==◌
  without_finalizer-HasFinalizer mm p =
      contains_string-remove_string mm.finalizers host_evacuation_finalizer machine_finalizer ∙ p

  wait_for_evacuation-Keeps :
      (mm : MaasMachine) → Keeps (HasFinalizer machine_finalizer) (wait_for_evacuation r mm)
  unfolding wait_for_evacuation
  wait_for_evacuation-Keeps mm =
      choice-Keeps (HasFinalizer machine_finalizer) (deref mm.spec.system_id == "")
        (modify (without_finalizer host_evacuation_finalizer) >> return done)
        (return (requeue_after 10)) (λ l p. without_finalizer-HasFinalizer l.maas_machine p)
        (λ _ p. p)

module _ {S : Type 0} (r : Reconciler S)
    (fails : (id : String) (s : S) → succeeded (r.fleet.release id s).0 ≡ false) where
  release-failing : (i : Instance) (s : S) → succeeded (release_instance r i s).0 ≡ false
  unfolding release_instance release_machine
  release-failing i s =
      wrap_result-failing "Unable to release machine" (r.fleet.release i.id s) (fails i.id s)

  release_again-failing :
      (i : Instance) (e : Error) (x : Result (Unit {0}) × S)
      → succeeded (release_again r i e x).0 ≡ false
  unfolding release_again
  release_again-failing i e (ok _, s) = release-failing i s
  release_again-failing i e (err u, s) = refl

  unregister_and_release-failing :
      (i : Instance) (e : Error) (s : S) → succeeded (unregister_and_release r i e s).0 ≡ false
  unfolding unregister_and_release
  unregister_and_release-failing i e s =
      ground
        (arith, release_again-failing i e (unregister r (canonical_lxd_host_name r i.hostname) s))

  handle_release-failing :
      (i : Instance) (x : Result (Unit {0}) × S)
      → succeeded x.0 ≡ false
      → succeeded (handle_release r i x).0 ≡ false
  unfolding handle_release
  handle_release-failing i (ok _, s) failed = cc failed
  handle_release-failing i (err e, s) failed =
      elim (Bool-cases (is_vm_host_removal_required_error e)) [
        | inl required ↦ rw required (
            bind_result-failing
              ((if is_lxd_control_plane r then force_delete_guest_vms r i.id else return tt) s)
              (unregister_and_release r i e) (unregister_and_release-failing i e))
        | inr other ↦ rw other refl
      ]

  -- Without a release that succeeds, neither attempt does.
  pub try_release-failing :
      (i : Instance) (s : S) → succeeded (try_release_with_vm_host_handling r i s).0 ≡ false
  unfolding try_release_with_vm_host_handling
  try_release-failing i s = handle_release-failing i (release_instance r i s) (release-failing i s)

  best_effort-Keeps :
      (i : Instance) → Keeps (HasFinalizer machine_finalizer) (best_effort_unregister_lxd_host r i)
  unfolding best_effort_unregister_lxd_host
  best_effort-Keeps i =
      choice-Keeps (HasFinalizer machine_finalizer)
        (canonical_lxd_host_name r i.hostname == "lxd-host-") (return tt)
        (attempt (lift (unregister r (canonical_lxd_host_name r i.hostname))) >>= λ _. return tt)
        (λ _ p. p) (λ _ p. p)

  release_found-Keeps : (i : Instance) → Keeps (HasFinalizer machine_finalizer) (release_found r i)
  unfolding release_found
  release_found-Keeps i =
      >>=-Keeps (HasFinalizer machine_finalizer)
        (if is_lxd_control_plane r then best_effort_unregister_lxd_host r i else return tt)
        (λ _. lift (try_release_with_vm_host_handling r i) >> delete_released r i)
        (choice-Keeps (HasFinalizer machine_finalizer) (is_lxd_control_plane r)
          (best_effort_unregister_lxd_host r i) (return tt) (best_effort-Keeps i) (λ _ p. p))
        (λ _.
          lift-failing (HasFinalizer machine_finalizer) (try_release_with_vm_host_handling r i)
            (delete_released r i) (try_release-failing i))

  after_dns-Keeps :
      (i : Instance) (x : Result (Unit {0}) × Live S)
      → HasFinalizer machine_finalizer x.1.maas_machine
      → HasFinalizer machine_finalizer (after_dns r i x).1.maas_machine
  unfolding after_dns
  after_dns-Keeps i (ok _, l) p = release_found-Keeps i l p
  after_dns-Keeps i (err e, l) p = ground arith

  delete_found-Keeps :
      (x : Result (Option Instance) × Live S)
      → x.0 ≢ ok none
      → HasFinalizer machine_finalizer x.1.maas_machine
      → HasFinalizer machine_finalizer (bind_result x (delete_found r)).1.maas_machine
  unfolding delete_found
  delete_found-Keeps (ok none, l) found p = absurd (found refl)
  delete_found-Keeps (ok (some i), l) found p =
      after_dns-Keeps i (reconcile_dns_attachment r i l)
        (reconcile_dns_attachment-Keeps r (HasFinalizer machine_finalizer) (λ _ _ _ p. p) i l p)
  delete_found-Keeps (err e, l) found p = p

  -- Where no call to release a machine succeeds and looking for the machine does not tell that it
  -- is gone, the reconcile of a deletion keeps the machine's finalizer.
  pub reconcile_delete-unreleased :
      (l : Live S)
      → (find_machine r l).0 ≢ ok none
      → contains_string l.maas_machine.finalizers machine_finalizer ≡ true
      → contains_string (reconcile_delete r l).1.maas_machine.finalizers machine_finalizer ≡ true
  unfolding reconcile_delete
  reconcile_delete-unreleased l found p =
      elim (Bool-cases (contains_string l.maas_machine.finalizers host_evacuation_finalizer)) [
        | inl evacuating ↦ rw evacuating (wait_for_evacuation-Keeps r l.maas_machine l p)
        | inr free ↦ rw free (
            delete_found-Keeps (find_machine r l) found
              (find_machine-Keeps r (HasFinalizer machine_finalizer) l p))
      ]
