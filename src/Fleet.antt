-- ===== src/Fleet.antt =====
-- The further calls of the MAAS client (github.com/spectrocloud/maas-client-go): allocation,
-- deployment, release and power of machines, VM hosts, network interfaces and DNS resources.
use cluster_api_provider_maa.Base.{ℕ, String, Bool, List, Option, M}
use cluster_api_provider_maa.Services.{MachineDetails}

-- What an allocation asks for: what is `none` or empty is not asked for.
pub record AllocateParams : Type 0 where
  pub cpu_count : ℕ
  pub memory : ℕ
  pub zone : Option String
  pub resource_pool : Option String
  pub not_pod : Bool
  pub not_pod_type : Option String
  pub tags : List String

pub record DeployParams : Type 0 where
  pub user_data : String
  pub os_system : String
  pub distro_series : String
  pub ephemeral_deploy : Bool

pub record StoragePool : Type 0 where
  pub is_remote : Bool
  pub available : ℕ
  pub pending : ℕ

-- A VM host. Its zone and its resource pool may be nil; each has a name and a number.
pub record VmHost : Type 0 where
  pub system_id : String
  pub name : String
  pub host_system_id : String
  pub zone : Option (String × ℕ)
  pub resource_pool : Option (String × ℕ)
  pub tags : List String
  pub available_cores : ℕ
  pub available_memory : ℕ
  pub storage_pools : List StoragePool

pub record DnsResource : Type 0 where
  pub id : String
  pub ip_addresses : List String

-- A machine that is listed or allocated is its system id or its details.
pub record Fleet (S : Type 0) : Type 0 where
  pub allocate : AllocateParams → M S MachineDetails
  pub release : String → M S (Unit {0})
  pub force_release : String → M S (Unit {0})
  pub set_swap_size : String → ℕ → M S (Unit {0})
  pub set_hostname : String → String → M S (Unit {0})
  pub deploy : String → DeployParams → M S MachineDetails
  pub power_on : String → String → M S (Unit {0})
  pub delete_machine : String → M S (Unit {0})
  pub create_boot_interface_bridge : String → String → M S (Unit {0})
  pub list_details : M S (List MachineDetails)
  pub list_vm_hosts : M S (List VmHost)
  -- The system ids of a VM host's guests.
  pub list_guests : String → M S (List String)
  pub delete_vm_host : String → M S (Unit {0})
  pub compose : String → List (String × String) → M S MachineDetails
  pub list_dns_resources : String → M S (List DnsResource)
  pub create_dns_resource : String → String → M S (Unit {0})
  pub modify_dns_resource : String → List String → M S (Unit {0})
