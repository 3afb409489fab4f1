-- ===== src/Machine/Controller/Keeps.antt =====
-- What the reconciliation of the DNS attachment changes of a machine: whether it is attached, and its
-- conditions.
use cluster_api_provider_maa.Base.{
  String, Bool, true, false, List, not, return, ◌<>◌, ◌>>=◌, if◌then◌else◌,
}
use cluster_api_provider_maa.Status.{Condition, Instance}
use cluster_api_provider_maa.Api.{MaasMachine}
use cluster_api_provider_maa.Machine.Scope.{set_status}
use cluster_api_provider_maa.Machine.Scope.Keeps.{Keeps, >>=-Keeps, wrapping-Keeps, if-Keeps}
use cluster_api_provider_maa.Machine.Dns.{machine_is_registered}
use cluster_api_provider_maa.Machine.Dns.Keeps.{machine_is_registered-Keeps}
use cluster_api_provider_maa.Machine.Controller.{
  Reconciler, is_leaving, set_dns_attached, detach, attach, registration, reconcile_dns_attachment,
}

-- A property that does not ask for the attachment and the conditions.
abbrev pub IsClosed : (MaasMachine → Type 0) → Type 0
IsClosed P =
    (mm : MaasMachine) (attached : Bool) (conditions : List Condition)
    → P mm
    → P (set_status (λ st. record st { dns_attached = attached; conditions = conditions }) mm)

module _ {S : Type 0} (r : Reconciler S) (P : MaasMachine → Type 0) (closed : IsClosed P) where
  detach-Keeps : (registered : Bool) → Keeps P (detach r registered)
  unfolding detach set_dns_attached
  detach-Keeps true l p = closed _ _ _ p
  detach-Keeps false l p = closed _ _ _ p

  attach-Keeps : (registered : Bool) → Keeps P (attach r registered)
  unfolding attach set_dns_attached
  attach-Keeps true l p = closed _ _ _ p
  attach-Keeps false l p = closed _ _ _ p

  registration-Keeps : (text : String) (i : Instance) → Keeps P (registration r text i)
  unfolding registration
  registration-Keeps text i =
      wrapping-Keeps P (text <> (i.id <> " - error determining registration status"))
        (machine_is_registered r.scope r.runtime r.fleet i)
        (machine_is_registered-Keeps r.scope r.runtime r.fleet P i)

  pub reconcile_dns_attachment-Keeps : (i : Instance) → Keeps P (reconcile_dns_attachment r i)
  unfolding reconcile_dns_attachment
  reconcile_dns_attachment-Keeps i l =
      if-Keeps P (not r.scope.machine.is_control_plane) (return tt)
        (λ l.
          if is_leaving l.maas_machine
          then (registration r "machine " i >>= detach r) l
          else (registration r "normal machine " i >>= attach r) l)
        (λ _ p. p)
        (λ l.
          if-Keeps P (is_leaving l.maas_machine) (registration r "machine " i >>= detach r)
            (registration r "normal machine " i >>= attach r)
            (>>=-Keeps P (registration r "machine " i) (detach r) (registration-Keeps "machine " i)
              detach-Keeps)
            (>>=-Keeps P (registration r "normal machine " i) (attach r)
              (registration-Keeps "normal machine " i) attach-Keeps)
            l)
        l
