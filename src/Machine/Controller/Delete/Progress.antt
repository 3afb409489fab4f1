-- ===== src/Machine/Controller/Delete/Progress.antt =====
-- That the deletion of a machine which was never allocated ends.
use mathlib.Core.Path.{subst}
use cluster_api_provider_maa.Base.{
  ℕ, ◌+◌, ◌≤◌, ◌≡◌, ◌∙◌, ap, sym, refl, String, Bool, true, false, none, some, arith, ◌==◌, ==_refl,
  deref, ok,
}
use cluster_api_provider_maa.Status.{machine_finalizer}
use cluster_api_provider_maa.Api.{MaasMachine}
use cluster_api_provider_maa.Hmc.Service.{host_evacuation_finalizer, contains_string}
use cluster_api_provider_maa.Hmc.Service.Cleanup.{contains_string-remove_string}
use cluster_api_provider_maa.ProviderId.{new_provider_id}
use cluster_api_provider_maa.Machine.Scope.{Live, get_instance_id}
use cluster_api_provider_maa.Machine.Controller.{Reconciler}
use cluster_api_provider_maa.Machine.Controller.Delete.{
  without_finalizer, should_gate_finalizer_removal, find_by_id, find_machine, wait_for_evacuation,
  delete_found, delete_missing, reconcile_delete,
}

-- The machine has no ids, so that there is nothing to evacuate and nothing to release, and its
-- deletion was asked for at the time.
pub record NeverAllocated (mm : MaasMachine) (deleted_at : ℕ) : Type 0 where
  pub no_system_id : deref mm.spec.system_id ≡ ""
  pub no_provider_id : deref mm.spec.provider_id ≡ ""
  pub deleted : mm.deletion_timestamp ≡ some deleted_at

removed :
    (name : String) (mm : MaasMachine)
    → contains_string (without_finalizer name mm).finalizers name ≡ false
unfolding without_finalizer
removed name mm = contains_string-remove_string mm.finalizers name name ∙ rw (==_refl name) refl

still_removed :
    (name other : String) (mm : MaasMachine)
    → contains_string mm.finalizers name ≡ false
    → contains_string (without_finalizer other mm).finalizers name ≡ false
unfolding without_finalizer
still_removed name other mm h =
    contains_string-remove_string mm.finalizers other name ∙ ground arith

gate_open :
    (deleted_at t : ℕ)
    → deleted_at + 120000000000 ≤ t
    → should_gate_finalizer_removal (some deleted_at) t ≡ false
unfolding should_gate_finalizer_removal
gate_open deleted_at t age = ground arith

module _ {S : Type 0} (r : Reconciler S) (deleted_at : ℕ)
    (late : (s : S)
      → (t : ℕ) × (s' : S) × (r.runtime.now s ≡ (ok t, s')) × (deleted_at + 120000000000 ≤ t)) where
  find_machine-NeverAllocated :
      (l : Live S) → NeverAllocated l.maas_machine deleted_at → find_machine r l ≡ (ok none, l)
  unfolding find_machine find_by_id get_instance_id new_provider_id ◌==◌
  find_machine-NeverAllocated l never = rw never.no_provider_id refl

  -- Without the finalizer of the evacuation, that of the machine is taken off.
  delete_free :
      (l : Live S)
      → NeverAllocated l.maas_machine deleted_at
      → contains_string l.maas_machine.finalizers host_evacuation_finalizer ≡ false
      → (reconcile_delete r l).1.maas_machine ≡ without_finalizer machine_finalizer l.maas_machine
  unfolding reconcile_delete delete_found delete_missing
  delete_free l never free =
      let (t, s', clock, age) = late l.world in
      rw
        (
          free,
          find_machine-NeverAllocated l never,
          clock,
          never.deleted,
          gate_open deleted_at t age,
        )
        refl

  -- With it, it is taken off first.
  delete_evacuating :
      (l : Live S)
      → NeverAllocated l.maas_machine deleted_at
      → contains_string l.maas_machine.finalizers host_evacuation_finalizer ≡ true
      → (reconcile_delete r l).1.maas_machine
        ≡ without_finalizer host_evacuation_finalizer l.maas_machine
  unfolding reconcile_delete wait_for_evacuation ◌==◌
  delete_evacuating l never evacuating = rw (evacuating, never.no_system_id) refl

  abbrev after : Live S → Live S
  after l = (reconcile_delete r l).1

  gone_without_evacuation :
      (l : Live S)
      → NeverAllocated l.maas_machine deleted_at
      → contains_string l.maas_machine.finalizers host_evacuation_finalizer ≡ false
      → (contains_string (after l).maas_machine.finalizers machine_finalizer ≡ false)
        × (contains_string (after l).maas_machine.finalizers host_evacuation_finalizer ≡ false)
  gone_without_evacuation l never free =
      let e = delete_free l never free in
      (
        ap (λ (mm : MaasMachine). contains_string mm.finalizers machine_finalizer) e
            ∙ removed machine_finalizer l.maas_machine,
        ap (λ (mm : MaasMachine). contains_string mm.finalizers host_evacuation_finalizer) e
            ∙ still_removed host_evacuation_finalizer machine_finalizer l.maas_machine free,
      )

  first_step :
      (l : Live S) (b : Bool)
      → contains_string l.maas_machine.finalizers host_evacuation_finalizer ≡ b
      → NeverAllocated l.maas_machine deleted_at
      → (NeverAllocated (after l).maas_machine deleted_at)
        × (contains_string (after l).maas_machine.finalizers host_evacuation_finalizer ≡ false)
  unfolding without_finalizer
  first_step l true h never =
      let e = delete_evacuating l never h in
      (
        subst (λ mm. NeverAllocated mm deleted_at) (sym e)
            (record {
              no_system_id = never.no_system_id;
              no_provider_id = never.no_provider_id;
              deleted = never.deleted;
            }),
        ap (λ (mm : MaasMachine). contains_string mm.finalizers host_evacuation_finalizer) e
            ∙ removed host_evacuation_finalizer l.maas_machine,
      )
  first_step l false h never = (
    subst (λ mm. NeverAllocated mm deleted_at) (sym (delete_free l never h))
        (record {
          no_system_id = never.no_system_id;
          no_provider_id = never.no_provider_id;
          deleted = never.deleted;
        }),
    (gone_without_evacuation l never h).1,
  )

  -- Where a deleted machine has neither a system id nor a provider id and the clock shows at least
  -- two minutes after its deletion, two reconciles take off both its own finalizer and that of the
  -- evacuation.
  pub reconcile_delete-NeverAllocated :
      (l : Live S)
      → NeverAllocated l.maas_machine deleted_at
      → (contains_string
            (reconcile_delete r (reconcile_delete r l).1).1.maas_machine.finalizers
            machine_finalizer
          ≡ false)
        × (contains_string
              (reconcile_delete r (reconcile_delete r l).1).1.maas_machine.finalizers
              host_evacuation_finalizer
            ≡ false)
  reconcile_delete-NeverAllocated l never =
      let (still, free) =
        first_step l (contains_string l.maas_machine.finalizers host_evacuation_finalizer) refl
          never in
      gone_without_evacuation (after l) still free
