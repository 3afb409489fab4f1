-- ===== src/Machine/Controller.antt =====
-- `MaasMachineReconciler` of controllers/maasmachine_controller.go: what its reconciles share.
pub mod Keeps
pub mod State
pub mod Delete
pub mod Tags
pub mod Normal
use cluster_api_provider_maa.Base.{
  ℕ, String, ◌<>◌, Bool, true, false, not, ◌&&◌, ◌||◌, Option, none, some, ◌==◌, if◌then◌else◌,
  contains_text, M, Result, ok, err, Error, sentinel, wrap, error_text, return, fail, wrapping,
  ◌>>=◌, ◌>>◌,
}
use cluster_api_provider_maa.Services.{Maas, Runtime}
use cluster_api_provider_maa.Status.{
  ConditionStatus, condition_true, condition_false, Instance, power_state_off,
  dns_attached_condition, dns_attached_reason, dns_detach_pending, dns_attach_pending,
}
use cluster_api_provider_maa.Api.{MaasMachine, MaasCluster, is_hcp_maas_cluster}
use cluster_api_provider_maa.Fleet.{Fleet}
use cluster_api_provider_maa.Machine.Scope.{
  MachineScope, Live, modify, set_status, set_condition, machine_is_running,
}
use cluster_api_provider_maa.Machine.Dns.{machine_is_registered}

-- The services of a reconcile. Every MAAS client that it makes is one of the cluster's identity.
pub record Reconciler (S : Type 0) : Type 0 where
  pub scope : MachineScope S
  pub runtime : Runtime S
  pub maas : Maas S
  pub fleet : Fleet S

-- `ErrRequeueDNS`
abbrev pub err_requeue_dns : Error
err_requeue_dns = sentinel "ErrRequeueDNS" "need to requeue DNS"

-- `isVMHostRemovalRequiredError`
unfoldable pub is_vm_host_removal_required_error : Error → Bool
is_vm_host_removal_required_error e =
    contains_text (error_text e) "status: 400"
    && (contains_text (error_text e) "must be removed first"
        || contains_text (error_text e) "VM hosts")

-- `isConfirmedPoweredOff`
unfoldable pub is_confirmed_powered_off : String → Bool
is_confirmed_powered_off power_state = power_state == power_state_off

is_deleted : Option ℕ → Bool
is_deleted none = false
is_deleted (some t) = true

-- Such a machine is not to be in the DNS.
unfoldable pub is_leaving : MaasMachine → Bool
unfolding is_deleted
is_leaving mm = is_deleted mm.deletion_timestamp || not (machine_is_running mm)

module _ {S : Type 0} (r : Reconciler S) where
  -- An event of the recorder.
  abbrev pub emit : String → String → M (Live S) (Unit {0})
  emit reason text l = (ok tt, record l { world = r.runtime.event reason text l.world })

  abbrev pub conditioned : String → ConditionStatus → String → String → M (Live S) (Unit {0})
  conditioned type status reason text =
      modify (set_status (set_condition r.scope.conditions type status reason text))

  unfoldable pub set_dns_attached : Bool → M (Live S) (Unit {0})
  set_dns_attached registered = modify (set_status (λ st. record st { dns_attached = registered }))

  -- The machine is deleted or does not run: it waits until the cluster has taken it off.
  unfoldable pub detach : Bool → M (Live S) (Unit {0})
  unfolding set_dns_attached
  detach registered =
      set_dns_attached registered
      >> (if registered
          then (conditioned dns_attached_condition condition_false dns_detach_pending ""
              >> fail err_requeue_dns)
          else return tt)

  -- The machine runs: it waits until the cluster has put it on.
  unfoldable pub attach : Bool → M (Live S) (Unit {0})
  unfolding set_dns_attached
  attach registered =
      set_dns_attached registered
      >> (if registered
          then conditioned dns_attached_condition condition_true dns_attached_reason ""
          else (conditioned dns_attached_condition condition_false dns_attach_pending ""
              >> fail err_requeue_dns))

  unfoldable pub registration : String → Instance → M (Live S) Bool
  registration text i =
      wrapping (text <> (i.id <> " - error determining registration status"))
        (machine_is_registered r.scope r.runtime r.fleet i)

  -- `reconcileDNSAttachment`
  unfoldable pub reconcile_dns_attachment : Instance → M (Live S) (Unit {0})
  unfolding detach attach registration is_leaving
  reconcile_dns_attachment i l =
      if not r.scope.machine.is_control_plane
      then (ok tt, l)
      else if is_leaving l.maas_machine
      then (registration "machine " i >>= detach) l
      else (registration "normal machine " i >>= attach) l
