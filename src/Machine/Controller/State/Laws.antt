-- ===== src/Machine/Controller/State/Laws.antt =====
-- What the state of an instance makes of the machine: when it is ready, and when it is powered on.
use mathlib.Core.Path.{subst}
use cluster_api_provider_maa.Base.{
  ◌≡◌, ◌∙◌, ap, sym, refl, inl, inr, ◌↔◌, String, Bool, true, false, Option, none, some, arith,
  ◌==◌, ==_iff, Bool-cases, deref, if◌then◌else◌, M, Result, ok, err, return, wrapping,
}
use cluster_api_provider_maa.Status.{
  Instance, machine_state_deployed, power_state_off, is_known_state, is_operational_state,
  is_running_state,
}
use cluster_api_provider_maa.Api.{MaasMachine}
use cluster_api_provider_maa.Hmc.Controller.{Outcome, requeue_after}
use cluster_api_provider_maa.Machine.Scope.{Live, lift, set_ready, set_not_ready, state_has}
use cluster_api_provider_maa.Machine.Scope.Keeps.{IsWellFormed, Keeps, >>=-Keeps, wrapping-Keeps}
use cluster_api_provider_maa.Machine.Service.{power_on_machine}
use cluster_api_provider_maa.Machine.Controller.{Reconciler, is_confirmed_powered_off}
use cluster_api_provider_maa.Machine.Controller.State.{
  is_waiting, is_terminating, record_instance, record_status, not_ready, failed_in, powered_off,
  power_on_deployed, set_deployed, go_on, reconcile_state, reconcile_instance,
}

module _ {S : Type 0} (r : Reconciler S) where
  goes_on : Result (Option Outcome) → Bool
  goes_on (ok none) = true
  goes_on (ok (some o)) = false
  goes_on (err e) = false

  power_on_ends : (mm : MaasMachine) (l : Live S) → goes_on (power_on_deployed r mm l).0 ≡ false
  unfolding power_on_deployed goes_on
  power_on_ends mm l = ground arith

  -- A deployed instance is powered on where it is known to be off, and is ready where it is not.
  reconcile_state-deployed :
      (i : Instance) (l : Live S)
      → i.state ≡ machine_state_deployed
      → l.maas_machine.status.machine_state ≡ some machine_state_deployed
      → reconcile_state r i l ≡ (
          if is_confirmed_powered_off i.power_state
          then power_on_deployed r l.maas_machine l
          else go_on r (set_deployed r) l)
  unfolding reconcile_state is_waiting is_terminating powered_off ◌==◌ state_has is_known_state
      is_operational_state is_running_state
  reconcile_state-deployed i l e known = rw (e, known) refl

  -- Every other instance leaves the machine not ready.
  reconcile_state-other :
      (i : Instance) (l : Live S)
      → (i.state == machine_state_deployed) ≡ false
      → l.maas_machine.status.machine_state ≡ some i.state
      → (reconcile_state r i l).1.maas_machine.status.ready ≡ false
  unfolding reconcile_state powered_off not_ready failed_in set_not_ready
  reconcile_state-other i l e known = rw (e, known) (ground arith)

  ready_of_deployed :
      (off : Bool) (mm : MaasMachine) (l l' : Live S)
      → (if off then power_on_deployed r mm l else go_on r (set_deployed r) l) ≡ (ok none, l')
      → l'.maas_machine.status.ready ≡ true
  unfolding set_deployed set_ready go_on goes_on
  ready_of_deployed true mm l l' h = cc (sym (power_on_ends mm l) ∙ ap (λ p. goes_on p.0) h)
  ready_of_deployed false mm l l' h = sym (ap (λ p. p.1.maas_machine.status.ready) h)

  recorded : Instance → Live S → Live S
  recorded i l = record l { maas_machine = record_instance i l.maas_machine }

  -- Where the switch over an instance's state lets the reconcile go on, the machine is ready
  -- afterwards exactly if the instance is deployed.
  pub reconcile_instance-ready :
      (i : Instance) (l l' : Live S)
      → reconcile_instance r i l ≡ (ok none, l')
      → (l'.maas_machine.status.ready ≡ true) ↔ (i.state ≡ machine_state_deployed)
  unfolding reconcile_instance recorded record_instance record_status
  reconcile_instance-ready i l l' h = elim (Bool-cases (i.state == machine_state_deployed)) [
    | inl deployed ↦
        (let e = (==_iff i.state machine_state_deployed).0 deployed in
          let ready =
            ready_of_deployed (is_confirmed_powered_off i.power_state) (recorded i l).maas_machine
              (recorded i l) l'
              (sym (reconcile_state-deployed i (recorded i l) e (ap some e)) ∙ h) in
          ((λ _. e), (λ _. ready)))
    | inr other ↦
        (let unready =
            sym (reconcile_state-other i (recorded i l) other refl)
            ∙ ap (λ p. p.1.maas_machine.status.ready) h in
          (
            (λ ready. cc (unready ∙ ready)),
            (λ e. cc ((==_iff i.state machine_state_deployed).1 e, other)),
          ))
  ]

  deployed_Keeps :
      (off : Bool) (mm : MaasMachine) (l : Live S)
      → l.maas_machine.status.machine_state ≡ some machine_state_deployed
      → IsWellFormed l.maas_machine
      → IsWellFormed
          (if off then power_on_deployed r mm l else go_on r (set_deployed r) l).1.maas_machine
  unfolding power_on_deployed set_deployed set_ready go_on
  deployed_Keeps true mm l known well =
      >>=-Keeps IsWellFormed
        (wrapping "unable to power on deployed machine"
          (lift (power_on_machine r.scope.lower r.maas r.fleet (deref mm.spec.system_id))))
        (λ _. return (some (requeue_after 60)))
        (wrapping-Keeps IsWellFormed "unable to power on deployed machine"
          (lift (power_on_machine r.scope.lower r.maas r.fleet (deref mm.spec.system_id)))
          (λ l p. p))
        (λ _ l p. p) l well
  deployed_Keeps false mm l known well = λ _. (known, refl)

  -- A machine that is ready only while its recorded state is deployed and it counts as provisioned
  -- stays so when an instance is recorded and its state reconciled, whatever the instance and
  -- whether or not powering it on succeeds.
  pub reconcile_instance-Keeps : (i : Instance) → Keeps IsWellFormed (reconcile_instance r i)
  unfolding reconcile_instance recorded record_instance record_status
  reconcile_instance-Keeps i l well = elim (Bool-cases (i.state == machine_state_deployed)) [
    | inl deployed ↦
        (let e = (==_iff i.state machine_state_deployed).0 deployed in
          subst (λ p. IsWellFormed p.1.maas_machine)
            (sym (reconcile_state-deployed i (recorded i l) e (ap some e)))
            (deployed_Keeps (is_confirmed_powered_off i.power_state) (recorded i l).maas_machine
              (recorded i l) (ap some e) (λ ready. (ap some e, (well ready).1))))
    | inr other ↦ (λ ready. cc (sym (reconcile_state-other i (recorded i l) other refl) ∙ ready))
  ]

module _ {S : Type 0} (r : Reconciler S) where
  -- The reconciler with another call to power a machine on.
  abbrev pub with_power_on : (String → String → M S (Unit {0})) → Reconciler S
  with_power_on p = record r { fleet = record r.fleet { power_on = p } }

  no_power_on_if_deployed :
      (off : Bool) (p : String → String → M S (Unit {0})) (mm : MaasMachine) (l : Live S)
      → off ≡ false
      → (if off
          then power_on_deployed (with_power_on p) mm l
          else go_on (with_power_on p) (set_deployed (with_power_on p)) l)
        ≡ (if off then power_on_deployed r mm l else go_on r (set_deployed r) l)
  unfolding set_deployed go_on
  no_power_on_if_deployed true p mm l on = cc on
  no_power_on_if_deployed false p mm l on = refl

  no_power_on_other :
      (p : String → String → M S (Unit {0})) (i : Instance) (l : Live S)
      → (i.state == machine_state_deployed) ≡ false
      → l.maas_machine.status.machine_state ≡ some i.state
      → reconcile_state (with_power_on p) i l ≡ reconcile_state r i l
  unfolding reconcile_state powered_off not_ready failed_in go_on set_deployed
  no_power_on_other p i l e known = rw (known, e) refl

  -- Unless an instance is deployed and MAAS reports its power state as off, its reconcile does the
  -- same whatever the call to power a machine on would do: only such an instance is powered on.
  pub reconcile_instance-power_on :
      (p : String → String → M S (Unit {0})) (i : Instance) (l : Live S)
      → ¬ ((i.state ≡ machine_state_deployed) × (i.power_state ≡ power_state_off))
      → reconcile_instance (with_power_on p) i l ≡ reconcile_instance r i l
  unfolding reconcile_instance recorded record_instance record_status is_confirmed_powered_off
  reconcile_instance-power_on p i l safe = elim (Bool-cases (i.state == machine_state_deployed)) [
    | inl deployed ↦
        (let e = (==_iff i.state machine_state_deployed).0 deployed in
          let on : i.power_state == power_state_off ≡ false =
            ground (arith, ==_iff i.power_state power_state_off) in
          reconcile_state-deployed (with_power_on p) i (recorded r i l) e (ap some e)
          ∙ no_power_on_if_deployed _ p (recorded r i l).maas_machine (recorded r i l) on
          ∙ sym (reconcile_state-deployed r i (recorded r i l) e (ap some e)))
    | inr other ↦ no_power_on_other p i (recorded r i l) other refl
  ]
