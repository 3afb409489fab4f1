-- ===== src/Machine/Service.antt =====
-- The machine service of pkg/maas/machine/machine.go: finding, releasing and powering a machine, and
-- the VM hosts and VMs of pkg/maas/lxd/host_maas_client.go that a deletion removes.
use cluster_api_provider_maa.Base.{
  String, ◌<>◌, Bool, ◌||◌, List, [], ◌∷◌, ◌++◌, Option, none, some, ◌==◌, deref, if◌then◌else◌,
  cut_at, contains_text, M, Result, ok, err, Error, message, error_text, return, fail, wrapping,
  ◌>>=◌,
}
use cluster_api_provider_maa.Services.{Maas, MachineDetails}
use cluster_api_provider_maa.Status.{
  MachineAddress, external_dns, internal_dns, external_ip, internal_ip, Instance, power_state_on,
}
use cluster_api_provider_maa.Fleet.{Fleet, VmHost}

-- `splitImage`: the OS system and the series of an image's name.
split_parts : String → Option (String × String) → String × String
split_parts image none = ("custom", image)
split_parts image (some (os, series)) = (os, series)

unfoldable pub split_image : String → String × String
unfolding split_parts
split_image image = split_parts image (cut_at b'/' image)

ip_addresses_of : List String → List MachineAddress
ip_addresses_of [] = []
ip_addresses_of (ip ∷ ips) =
    record { kind = external_ip; address = ip }
    ∷ record { kind = internal_ip; address = ip }
    ∷ ip_addresses_of ips

dns_addresses_of : String → List MachineAddress
dns_addresses_of fqdn =
    if fqdn == ""
    then []
    else record { kind = external_dns; address = fqdn }
      ∷ record { kind = internal_dns; address = fqdn }
      ∷ []

-- `fromSDKTypeToMachine`
unfoldable pub from_sdk_type_to_machine : MachineDetails → Instance
unfolding ip_addresses_of dns_addresses_of
from_sdk_type_to_machine d = record {
  id = d.system_id;
  hostname = d.hostname;
  state = d.state;
  powered = d.power_state == power_state_on;
  power_state = d.power_state;
  availability_zone = deref d.zone;
  addresses = dns_addresses_of d.fqdn ++ ip_addresses_of d.ip_addresses;
  deployed_in_memory = d.deployed_in_memory;
}

-- Whether an error of MAAS says that there is no such machine; `lower` is `strings.ToLower`.
unfoldable pub is_machine_gone : (String → String) → Error → Bool
is_machine_gone lower e =
    contains_text (error_text e) "status: 404"
    || contains_text (lower (error_text e)) "no machine matches"

module _ {S : Type 0} (lower : String → String) (maas : Maas S) (fleet : Fleet S) where
  found_or_gone : Result MachineDetails × S → Result (Option Instance) × S
  found_or_gone (ok d, s) = (ok (some (from_sdk_type_to_machine d)), s)
  found_or_gone (err e, s) = if is_machine_gone lower e then (ok none, s) else (err e, s)

  -- `GetMachine`
  unfoldable pub get_machine : String → M S (Option Instance)
  unfolding found_or_gone
  get_machine system_id s =
      if system_id == "" then (ok none, s) else found_or_gone (maas.get_machine system_id s)

  -- `ReleaseMachine`
  unfoldable pub release_machine : String → M S (Unit {0})
  release_machine system_id = wrapping "Unable to release machine" (fleet.release system_id)

  -- `PowerOnMachine`
  unfoldable pub power_on_machine : String → M S (Unit {0})
  power_on_machine system_id = fleet.power_on system_id "maas provider power on"

  -- The loop of `UnregisterLXDHostByNameWithMaasClient`: the first host of the name is deleted.
  unregister_among : String → List VmHost → M S (Unit {0})
  unregister_among host_name [] = return tt
  unregister_among host_name (host ∷ hosts) =
      let rest = unregister_among host_name hosts in
      if host.name == host_name
      then wrapping
          ("failed to delete VM host " <> (host.name <> (" (id=" <> (host.system_id <> ")"))))
          (fleet.delete_vm_host host.system_id)
      else rest

  unfoldable pub unregister_lxd_host_by_name : String → M S (Unit {0})
  unfolding unregister_among
  unregister_lxd_host_by_name host_name =
      wrapping "failed to get VM hosts" fleet.list_vm_hosts >>= unregister_among host_name

  delete_lxd_vm_of : String → MachineDetails → M S (Unit {0})
  delete_lxd_vm_of system_id d =
      if d.power_type == "lxd"
      then wrapping "failed to delete LXD VM" (fleet.delete_machine system_id)
      else fail (
          message (
            "machine "
            <> (system_id <> (" is not an LXD VM (power_type: " <> (d.power_type <> ")")))))

  -- `DeleteLXDVMWithMaasClient`
  unfoldable pub delete_lxd_vm : String → M S (Unit {0})
  unfolding delete_lxd_vm_of
  delete_lxd_vm system_id =
      wrapping ("failed to get machine " <> system_id) (maas.get_machine system_id)
      >>= delete_lxd_vm_of system_id
