-- ===== src/Examples/Registration.antt =====
-- The registration of an LXD host at a concrete input.
use cluster_api_provider_maa.Base.{String, List, [], ◌∷◌, none, ok}
use cluster_api_provider_maa.Lxd.Register.{
  RegisteredHost, Registry, Urls, HostConfig, setup_lxd_host,
}

abbrev urls : Urls
urls = record { parse = λ s. none; split_host_port = λ s. none; trim_space = λ s. s }

-- The parameter after the type and the address.
name_of : List (String × String) → String
name_of (type ∷ address ∷ (key, name) ∷ others) = name
name_of _ = ""

-- The state is the list of the hosts.
unfoldable registry : Registry (List RegisteredHost)
unfolding name_of
registry = record {
  list = λ s. (ok s, s);
  create = λ params s.
      (ok tt, record { host_system_id = ""; name = name_of params; power_address = "" } ∷ s);
}

abbrev config : HostConfig
config = record {
  node_ip = "10.0.0.1";
  host_name = "node";
  maas_api_key = "key";
  maas_api_endpoint = "http://maas";
  storage_backend = "zfs";
  storage_size = "50";
  network_bridge = "br0";
  zone = "z";
  resource_pool = "";
  trust_password = "";
}

-- The hosts after the first setup.
abbrev registered : List RegisteredHost
registered = (setup_lxd_host urls registry config []).1
