-- ===== src/Lxd/Register.antt =====
-- The registration of an LXD host with MAAS in pkg/maas/lxd/host_maas_client.go. `url.Parse` and
-- `net.SplitHostPort` are parameters.
pub mod Laws
use cluster_api_provider_maa.Base.{
  String, ◌<>◌, Bool, true, false, not, ◌&&◌, ◌||◌, List, [], ◌∷◌, ◌++◌, Option, none, some, ◌==◌,
  any, if◌then◌else◌, contains_text, M, Result, ok, err, message, return, fail, wrapping, ◌>>=◌,
}

-- A VM host of MAAS, as far as the registration looks at it.
pub record RegisteredHost : Type 0 where
  pub host_system_id : String
  pub name : String
  pub power_address : String

-- MAAS's VM hosts.
pub record Registry (S : Type 0) : Type 0 where
  pub list : M S (List RegisteredHost)
  pub create : List (String × String) → M S (Unit {0})

-- Of the standard library: `parse` yields the host and the path of a URL, `split_host_port` the host.
pub record Urls : Type 0 where
  pub parse : String → Option (String × String)
  pub split_host_port : String → Option String
  pub trim_space : String → String

pub record HostConfig : Type 0 where
  pub node_ip : String
  pub host_name : String
  pub maas_api_key : String
  pub maas_api_endpoint : String
  pub storage_backend : String
  pub storage_size : String
  pub network_bridge : String
  pub zone : String
  pub resource_pool : String
  pub trust_password : String

-- A parameter that is passed where it is not empty.
optional : String → String → List (String × String)
optional key value = if value == "" then [] else (key, value) ∷ []

without_port : Option String → String → String
without_port none host = host
without_port (some host) other = host

module _ (urls : Urls) where
  host_of_parsed : String → Option (String × String) → String
  unfolding without_port
  host_of_parsed s none = s
  host_of_parsed s (some (host, path)) =
      let h = if host == "" then path else host in without_port (urls.split_host_port h) h

  -- `normalizeHost`
  unfoldable pub normalize_host : String → String
  unfolding host_of_parsed
  normalize_host s =
      if s == ""
      then ""
      else (let url = if contains_text s "://" then s else "https://" <> s in
          host_of_parsed url (urls.parse url))

  unfoldable pub is_host : String → String → String → RegisteredHost → Bool
  unfolding normalize_host
  is_host system_id want_name want_host h =
      (not (urls.trim_space system_id == "") && h.host_system_id == urls.trim_space system_id)
      || (not (want_name == "") && h.name == want_name)
      || (not (want_host == "") && normalize_host h.power_address == want_host)

  unfoldable pub desired_name : HostConfig → String
  desired_name config =
      let name = urls.trim_space config.host_name in
      if name == "" then "lxd-host-" <> config.node_ip else "lxd-host-" <> name

  unfoldable pub register_params : HostConfig → List (String × String)
  unfolding optional desired_name
  register_params config =
      ("type", "lxd")
      ∷ ("power_address", "https://" <> (config.node_ip <> ":8443"))
      ∷ ("name", desired_name config)
      ∷ (optional "zone" config.zone
          ++ (optional "pool" config.resource_pool ++ optional "password" config.trust_password))

  module _ {S : Type 0} (registry : Registry S) where
    -- `validateHostConfig`
    unfoldable pub validate_host_config : HostConfig → M S (Unit {0})
    validate_host_config config =
        if config.node_ip == ""
        then fail (message "node IP is required")
        else if config.maas_api_key == ""
        then fail (message "MAAS API key is required")
        else if config.maas_api_endpoint == ""
        then fail (message "MAAS API endpoint is required")
        else return tt

    -- `isHostRegisteredWithMaasClientAdvanced`
    unfoldable pub is_host_registered : String → String → String → M S Bool
    unfolding is_host
    is_host_registered system_id name node_ip =
        let want_name = urls.trim_space name in
        let want_host = normalize_host (urls.trim_space node_ip) in
        wrapping "failed to get VM hosts" registry.list >>= λ hosts.
        return (any (is_host system_id want_name want_host) hosts)

    -- `registerWithMaasClient`
    unfoldable pub register_host : HostConfig → M S (Unit {0})
    unfolding register_params
    register_host config =
        wrapping "failed to register host with MAAS" (registry.create (register_params config))

    unfoldable pub register_if : HostConfig → Bool → M S (Unit {0})
    unfolding register_host
    register_if config true = return tt
    register_if config false = wrapping "failed to register with MAAS" (register_host config)

    unfoldable pub check_and_register : HostConfig → M S (Unit {0})
    unfolding is_host_registered register_if
    check_and_register config =
        wrapping "failed to check if host is registered"
          (is_host_registered "" (desired_name config) config.node_ip)
        >>= register_if config

    -- `SetupLXDHostWithMaasClient`
    unfoldable pub setup_lxd_host : HostConfig → M S (Unit {0})
    unfolding validate_host_config check_and_register
    setup_lxd_host config =
        wrapping "invalid host configuration" (validate_host_config config) >>= λ _.
        check_and_register config
