-- ===== src/Machine/Controller/Normal/Found.antt =====
-- What reconciling an instance that was found leaves of a machine.
use cluster_api_provider_maa.Base.{
  String, Bool, Option, none, some, not, M, Result, ok, err, errors_is, return, fail, attempt,
  ◌>>=◌, if◌then◌else◌,
}
use cluster_api_provider_maa.Services.{Maas}
use cluster_api_provider_maa.Kube.{Kube}
use cluster_api_provider_maa.Status.{Instance}
use cluster_api_provider_maa.Hmc.Controller.{Outcome, requeue_after}
use cluster_api_provider_maa.Machine.Scope.{
  set_status, modify, Live, lift, machine_is_operational, machine_is_in_known_state,
}
use cluster_api_provider_maa.Machine.Scope.Keeps.{IsWellFormed, Keeps, >>=-Keeps, choice-Keeps}
use cluster_api_provider_maa.Machine.Node.{Tracker, set_node_provider_id, is_api_server_online}
use cluster_api_provider_maa.Machine.Controller.{Reconciler, reconcile_dns_attachment}
use cluster_api_provider_maa.Machine.Controller.Keeps.{reconcile_dns_attachment-Keeps}
use cluster_api_provider_maa.Machine.Controller.State.{reconcile_instance}
use cluster_api_provider_maa.Machine.Controller.State.Laws.{reconcile_instance-Keeps}
use cluster_api_provider_maa.Machine.Controller.Normal.{
  finish_node, finish_online, check_online, finish_attachment, reconcile_addresses, finish_known,
  finish_state, reconcile_found, is_online,
}

module _ {S : Type 0} (r : Reconciler S) (k : Kube S) (client_set : String × String → Maas S)
    (tracker : Tracker S) (encode : String → String) (deploy : String → M (Live S) Instance) where
  finish_node-Keeps :
      (x : Result (Unit {0}))
      → Keeps IsWellFormed (finish_node r k client_set tracker encode deploy x)
  unfolding finish_node
  finish_node-Keeps (ok _) = λ _ p. p
  finish_node-Keeps (err e) = λ _ p. p

  finish_online-Keeps :
      (x : Result Bool) → Keeps IsWellFormed (finish_online r k client_set tracker encode deploy x)
  unfolding finish_online set_node_provider_id
  finish_online-Keeps x l =
      choice-Keeps IsWellFormed (not (is_online r k client_set tracker encode deploy x))
        (return (requeue_after 300))
        (if not (machine_is_operational l.maas_machine)
          then return (requeue_after 300)
          else (attempt (set_node_provider_id r.scope.lower tracker)
              >>= finish_node r k client_set tracker encode deploy))
        (λ _ p. p)
        (choice-Keeps IsWellFormed (not (machine_is_operational l.maas_machine))
          (return (requeue_after 300))
          (attempt (set_node_provider_id r.scope.lower tracker)
            >>= finish_node r k client_set tracker encode deploy)
          (λ _ p. p)
          (>>=-Keeps IsWellFormed (attempt (set_node_provider_id r.scope.lower tracker))
            (finish_node r k client_set tracker encode deploy) (λ _ p. p) finish_node-Keeps))
        l

  check_online-Keeps : Keeps IsWellFormed (check_online r k client_set tracker encode deploy)
  unfolding check_online
  check_online-Keeps =
      >>=-Keeps IsWellFormed (attempt (lift (is_api_server_online r.scope.lower tracker)))
        (finish_online r k client_set tracker encode deploy) (λ _ p. p) finish_online-Keeps

  finish_attachment-Keeps :
      (x : Result (Unit {0}))
      → Keeps IsWellFormed (finish_attachment r k client_set tracker encode deploy x)
  unfolding finish_attachment
  finish_attachment-Keeps (ok _) = check_online-Keeps
  finish_attachment-Keeps (err e) =
      choice-Keeps IsWellFormed (errors_is e "ErrRequeueDNS") (return (requeue_after 10)) (fail e)
        (λ _ p. p) (λ _ p. p)

  reconcile_addresses-Keeps :
      (i : Instance)
      → Keeps IsWellFormed (reconcile_addresses r k client_set tracker encode deploy i)
  unfolding reconcile_addresses
  reconcile_addresses-Keeps i =
      >>=-Keeps IsWellFormed (modify (set_status (λ st. record st { addresses = i.addresses })))
        (λ _.
          attempt (reconcile_dns_attachment r i)
          >>= finish_attachment r k client_set tracker encode deploy)
        (λ _ p. p)
        (λ _.
          >>=-Keeps IsWellFormed (attempt (reconcile_dns_attachment r i))
            (finish_attachment r k client_set tracker encode deploy)
            (reconcile_dns_attachment-Keeps r IsWellFormed (λ _ _ _ p. p) i)
            finish_attachment-Keeps)

  finish_state-Keeps :
      (i : Instance) (o : Option Outcome)
      → Keeps IsWellFormed (finish_state r k client_set tracker encode deploy i o)
  unfolding finish_state finish_known
  finish_state-Keeps i (some outcome) l p = p
  finish_state-Keeps i none l p =
      choice-Keeps IsWellFormed (machine_is_in_known_state l.maas_machine)
        (reconcile_addresses r k client_set tracker encode deploy i)
        (check_online r k client_set tracker encode deploy) (reconcile_addresses-Keeps i)
        check_online-Keeps l p

  pub reconcile_found-Keeps :
      (i : Instance) → Keeps IsWellFormed (reconcile_found r k client_set tracker encode deploy i)
  unfolding reconcile_found
  reconcile_found-Keeps i =
      >>=-Keeps IsWellFormed (reconcile_instance r i)
        (finish_state r k client_set tracker encode deploy i) (reconcile_instance-Keeps r i)
        (finish_state-Keeps i)
