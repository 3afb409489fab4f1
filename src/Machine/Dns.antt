-- ===== src/Machine/Dns.antt =====
-- pkg/maas/dns/dns.go, and the DNS name of the cluster scope in pkg/maas/scope/cluster.go.
pub mod Laws
pub mod Keeps
use cluster_api_provider_maa.Base.{
  ℕ, String, ◌<>◌, Bool, true, false, not, List, [], ◌∷◌, Option, none, some, ◌==◌, any,
  if◌then◌else◌, keep_last, M, Result, ok, err, Error, message, sentinel, wrap, return, fail,
  wrapping, ◌>>=◌, ◌>>◌, errors_is,
}
use cluster_api_provider_maa.Services.{Runtime}
use cluster_api_provider_maa.Status.{MachineAddress, Instance}
use cluster_api_provider_maa.Fleet.{Fleet, DnsResource}
use cluster_api_provider_maa.Hmc.Service.{contains_string}
use cluster_api_provider_maa.Machine.Scope.{MachineScope, Live, lift}

err_not_found : Error
err_not_found = sentinel "ErrNotFound" "resource not found"

-- The set of the addresses that are not empty.
unfoldable pub named_ips : List String → List String
named_ips [] = []
named_ips (ip ∷ ips) = let rest = named_ips ips in if ip == "" then rest else ip ∷ rest

-- Whether an address of the machine is in the set.
unfoldable pub has_address_in : List String → List MachineAddress → Bool
unfolding contains_string
has_address_in ips addresses = any (λ (a : MachineAddress). contains_string ips a.address) addresses

module _ {S : Type 0} (sc : MachineScope S) (r : Runtime S) (fleet : Fleet S) where
  set_dns_name : String → M (Live S) (Unit {0})
  set_dns_name name l = (ok tt, record l { dns_name = name })

  -- The name that is made of a uuid is kept in the status.
  unfoldable pub make_dns_name : String → M (Live S) String
  unfolding set_dns_name
  make_dns_name uid =
      let name =
        sc.cluster.name <> ("-" <> (keep_last 6 uid <> ("." <> sc.maas_cluster.dns_domain))) in
      set_dns_name name >>= λ _. return name

  unfoldable pub saved_dns_name : M (Live S) String
  unfolding make_dns_name
  saved_dns_name l =
      if not (l.dns_name == "") then (ok l.dns_name, l) else (lift r.new_uuid >>= make_dns_name) l

  unfoldable pub dns_name_at : Option String → M (Live S) String
  unfolding saved_dns_name
  dns_name_at none = saved_dns_name
  dns_name_at (some host) = return host

  -- `GetDNSName`
  unfoldable pub get_dns_name : M (Live S) String
  unfolding dns_name_at
  get_dns_name = dns_name_at sc.cluster.control_plane_endpoint

  unfoldable pub only_resource : String → List DnsResource → M (Live S) DnsResource
  unfolding err_not_found
  only_resource name [] = fail err_not_found
  only_resource name (d ∷ []) = return d
  only_resource name (d ∷ e ∷ ds) = fail (message ("expected 1 DNS Resource for " <> name))

  unfoldable pub resource_of_name : String → M (Live S) DnsResource
  unfolding only_resource
  resource_of_name name =
      if name == ""
      then fail (message "No DNS on the cluster set!")
      else (wrapping ("error retrieving dns resources " <> name)
            (lift (fleet.list_dns_resources name))
          >>= only_resource name)

  -- `GetDNSResource`
  unfoldable pub get_dns_resource : M (Live S) DnsResource
  unfolding resource_of_name
  get_dns_resource = get_dns_name >>= resource_of_name

  create_resource : String → M (Live S) (Unit {0})
  create_resource name =
      wrapping "Unable to create DNS Resources" (lift (fleet.create_dns_resource name "10"))

  ensure_resource : Result DnsResource × Live S → Result (Unit {0}) × Live S
  unfolding create_resource err_not_found
  ensure_resource (ok d, l) = (ok tt, l)
  ensure_resource (err e, l) =
      if errors_is e "ErrNotFound" then (get_dns_name >>= create_resource) l else (err e, l)

  -- `ReconcileDNS`
  unfoldable pub reconcile_dns : M (Live S) (Unit {0})
  unfolding ensure_resource set_dns_name
  reconcile_dns = (λ l. ensure_resource (get_dns_resource l)) >> (get_dns_name >>= set_dns_name)

  unfoldable pub modify_resource : List String → DnsResource → M (Live S) (Unit {0})
  modify_resource ips d =
      wrapping "Unable to update IPs" (lift (fleet.modify_dns_resource d.id ips))

  -- `UpdateDNSAttachments`
  unfoldable pub update_dns_attachments : List String → M (Live S) (Unit {0})
  unfolding modify_resource
  update_dns_attachments ips = get_dns_resource >>= modify_resource ips

  -- `GetAPIServerDNSRecords`
  unfoldable pub get_api_server_dns_records : M (Live S) (List String)
  get_api_server_dns_records = get_dns_resource >>= λ d. return (named_ips d.ip_addresses)

  -- `MachineIsRegisteredWithAPIServerDNS`
  unfoldable pub machine_is_registered : Instance → M (Live S) Bool
  machine_is_registered i =
      get_api_server_dns_records >>= λ ips. return (has_address_in ips i.addresses)
