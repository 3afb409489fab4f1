-- ===== src/Api.antt =====
-- api/v1beta1: the resources of the provider, as far as the program reads them.
pub mod Webhook
use cluster_api_provider_maa.Base.{
  ℤ, ℕ, String, Bool, true, false, List, Option, none, some, ◌==◌, any,
}
use cluster_api_provider_maa.Services.{Data}
use cluster_api_provider_maa.Status.{MaasMachineStatus}

-- `MachineLXDConfig`, with the disk size of its `VMConfig`.
pub record MachineLxdConfig : Type 0 where
  pub enabled : Option Bool
  pub disk_size : Option ℤ

-- `MaasMachineSpec`. The API server admits no negative number here.
pub record MaasMachineSpec : Type 0 where
  pub failure_domain : Option String
  pub system_id : Option String
  pub parent : Option String
  pub provider_id : Option String
  pub resource_pool : Option String
  pub min_cpu : Option ℕ
  pub min_memory_in_mb : Option ℕ
  pub min_disk_size_in_gb : Option ℕ
  pub tags : List String
  pub image : String
  pub deploy_in_memory : Bool
  pub lxd : Option MachineLxdConfig

pub record OwnerReference : Type 0 where
  pub api_version : String
  pub kind : String
  pub name : String

-- `MaasMachine`: its metadata, its spec and its status. A deletion timestamp that is zero is `none`.
pub record MaasMachine : Type 0 where
  pub namespace : String
  pub name : String
  pub finalizers : List String
  pub annotations : Option Data
  pub deletion_timestamp : Option ℕ
  pub owner_references : List OwnerReference
  pub spec : MaasMachineSpec
  pub status : MaasMachineStatus

-- `MaasCluster`, with `lxdConfig.enabled`: the outer `none` is a nil `LXDConfig`.
pub record MaasCluster : Type 0 where
  pub namespace : String
  pub name : String
  pub dns_domain : String
  pub lxd_enabled : Option (Option Bool)

-- `MaasMachineTemplate`
pub record MaasMachineTemplate : Type 0 where
  pub namespace : String
  pub name : String
  pub labels : Option Data
  pub spec : MaasMachineSpec

abbrev pub is_set : Option Bool → Bool
is_set none = false
is_set (some b) = b

enabled_of : Option (Option Bool) → Bool
enabled_of none = false
enabled_of (some b) = is_set b

-- `isHCPMaasCluster`, of a cluster that is not nil.
unfoldable pub is_hcp_maas_cluster : MaasCluster → Bool
unfolding enabled_of
is_hcp_maas_cluster mc = enabled_of mc.lxd_enabled

lxd_enabled_of : Option MachineLxdConfig → Bool
lxd_enabled_of none = false
lxd_enabled_of (some lxd) = is_set lxd.enabled

-- `templateHasLXDEnabled`, of a template that is not nil.
unfoldable pub template_has_lxd_enabled : MaasMachineTemplate → Bool
unfolding lxd_enabled_of
template_has_lxd_enabled tmpl = lxd_enabled_of tmpl.spec.lxd
