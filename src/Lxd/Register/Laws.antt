-- ===== src/Lxd/Register/Laws.antt =====
-- A host is registered once.
use Prim.Native.String.append
use cluster_api_provider_maa.Base.{◌≡◌, String, Bool, true, List, any, M, ok, ◌==◌}
use cluster_api_provider_maa.Lxd.Register.{
  RegisteredHost, Registry, Urls, HostConfig, desired_name, register_params, is_host_registered,
}

-- What the registration relies on of MAAS: listing changes nothing, and a VM host that was created
-- with a name is listed with it.
pub record RegistryLaws (urls : Urls) {S : Type 0} (registry : Registry S) : Type 0 where
  pub list_stable :
      (s s' : S) (hosts : List RegisteredHost) → registry.list s ≡ (ok hosts, s') → s' ≡ s
  pub list_create :
      (config : HostConfig) (s s' : S)
      → registry.create (register_params urls config) s ≡ (ok tt, s')
      → (hosts : List RegisteredHost) × (registry.list s' ≡ (ok hosts, s'))
        × (any (λ (h : RegisteredHost). h.name == desired_name urls config) hosts ≡ true)

module _ (urls : Urls) {S : Type 0} (registry : Registry S) (laws : RegistryLaws urls registry)
    (config : HostConfig)
    (trimmed : urls.trim_space (desired_name urls config) ≡ desired_name urls config) where
  abbrev check : M S Bool
  check = is_host_registered urls registry "" (desired_name urls config) config.node_ip
