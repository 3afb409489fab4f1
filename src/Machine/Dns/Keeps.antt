-- ===== src/Machine/Dns/Keeps.antt =====
-- No program of the DNS service changes the machine.
use cluster_api_provider_maa.Base.{
  String, ◌<>◌, List, [], ◌∷◌, Option, none, some, not, ◌==◌, ok, message, fail, wrapping, return,
  ◌>>=◌,
}
use cluster_api_provider_maa.Services.{Runtime}
use cluster_api_provider_maa.Status.{Instance}
use cluster_api_provider_maa.Api.{MaasMachine}
use cluster_api_provider_maa.Fleet.{Fleet, DnsResource}
use cluster_api_provider_maa.Machine.Scope.{MachineScope, lift}
use cluster_api_provider_maa.Machine.Scope.Keeps.{
  Keeps, >>=-Keeps, wrapping-Keeps, if-Keeps, choice-Keeps,
}
use cluster_api_provider_maa.Machine.Dns.{
  named_ips, has_address_in, make_dns_name, saved_dns_name, dns_name_at, get_dns_name,
  only_resource, resource_of_name, get_dns_resource, get_api_server_dns_records,
  machine_is_registered,
}

module _ {S : Type 0} (sc : MachineScope S) (r : Runtime S) (fleet : Fleet S)
    (P : MaasMachine → Type 0) where
  saved_dns_name-Keeps : Keeps P (saved_dns_name sc r fleet)
  unfolding saved_dns_name make_dns_name
  saved_dns_name-Keeps l =
      if-Keeps P (not (l.dns_name == "")) (λ l. (ok l.dns_name, l))
        (lift r.new_uuid >>= make_dns_name sc r fleet) (λ _ p. p)
        (>>=-Keeps P (lift r.new_uuid) (make_dns_name sc r fleet) (λ _ p. p) (λ _ _ p. p)) l

  dns_name_at-Keeps : (endpoint : Option String) → Keeps P (dns_name_at sc r fleet endpoint)
  unfolding dns_name_at
  dns_name_at-Keeps none = saved_dns_name-Keeps
  dns_name_at-Keeps (some host) = λ _ p. p

  only_resource-Keeps :
      (name : String) (ds : List DnsResource) → Keeps P (only_resource sc r fleet name ds)
  unfolding only_resource
  only_resource-Keeps name [] l p = p
  only_resource-Keeps name (d ∷ []) l p = p
  only_resource-Keeps name (d ∷ e ∷ ds) l p = p

  resource_of_name-Keeps : (name : String) → Keeps P (resource_of_name sc r fleet name)
  unfolding resource_of_name
  resource_of_name-Keeps name =
      let listing = lift (fleet.list_dns_resources name) in
      let text = "error retrieving dns resources " <> name in
      choice-Keeps P (name == "") (fail (message "No DNS on the cluster set!"))
        (wrapping text listing >>= only_resource sc r fleet name) (λ _ p. p)
        (>>=-Keeps P (wrapping text listing) (only_resource sc r fleet name)
          (wrapping-Keeps P text listing (λ _ p. p)) (only_resource-Keeps name))

  get_dns_resource-Keeps : Keeps P (get_dns_resource sc r fleet)
  unfolding get_dns_resource get_dns_name
  get_dns_resource-Keeps =
      >>=-Keeps P (get_dns_name sc r fleet) (resource_of_name sc r fleet)
        (dns_name_at-Keeps sc.cluster.control_plane_endpoint) resource_of_name-Keeps

  pub machine_is_registered-Keeps : (i : Instance) → Keeps P (machine_is_registered sc r fleet i)
  unfolding machine_is_registered get_api_server_dns_records
  machine_is_registered-Keeps i =
      >>=-Keeps P (get_api_server_dns_records sc r fleet)
        (λ ips. return (has_address_in ips i.addresses))
        (>>=-Keeps P (get_dns_resource sc r fleet) (λ d. return (named_ips d.ip_addresses))
          get_dns_resource-Keeps (λ _ _ p. p))
        (λ _ _ p. p)
