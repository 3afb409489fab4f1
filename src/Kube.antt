-- ===== src/Kube.antt =====
-- The calls of the Kubernetes client and of Cluster API's helpers that the maintenance controllers
-- make, over a state `S`, and what the process reads of its environment.
use cluster_api_provider_maa.Base.{ℕ, ℤ, String, Bool, List, Option, M}
use cluster_api_provider_maa.Services.{Maas, ConfigMaps, Data}
use cluster_api_provider_maa.Api.{MaasMachine, MaasCluster, MaasMachineTemplate}

-- A Cluster API Machine. `is_control_plane` is `util.IsControlPlaneMachine`, which asks for a label.
pub record CapiMachine : Type 0 where
  pub namespace : String
  pub name : String
  pub uid : String
  pub is_deleting : Bool
  pub infrastructure_name : String
  pub is_control_plane : Bool
  pub failure_domain : String
  pub data_secret_name : Option String

pub record Kube (S : Type 0) : Type 0 where
  pub config_maps : ConfigMaps S
  pub get_secret : String → String → M S Data
  pub getenv : String → String
  pub get_maas_machine : String → String → M S MaasMachine
  pub update_maas_machine : MaasMachine → M S (Unit {0})
  pub get_maas_cluster : String → String → M S MaasCluster
  -- `util.GetClusterFromMetadata`: the name of the cluster's infrastructure.
  pub get_cluster_from_metadata : MaasMachine → M S (Option String)
  pub get_capi_machine : String → String → M S CapiMachine

-- A Cluster: whether it refers to a control plane, and the host of its control-plane endpoint,
-- where it is set.
pub record Cluster : Type 0 where
  pub namespace : String
  pub name : String
  pub has_control_plane_ref : Bool
  pub infrastructure_provisioned : Option Bool
  pub control_plane_endpoint : Option String

-- A KubeadmControlPlane, read without a schema: a field that is not there is `none`. A name of the
-- template that is no text counts as "".
pub record Kcp : Type 0 where
  pub namespace : String
  pub name : String
  pub paused : Option Bool
  pub spec_replicas : Option ℤ
  pub ready_replicas : Option ℤ
  pub updated_replicas : Option ℤ
  pub status_replicas : Option ℤ
  pub template_name : Option String
  pub max_surge : Option ℕ

-- The further calls that the evacuation of workload clusters makes.
pub record ClusterApi (S : Type 0) : Type 0 where
  pub get_owner_cluster : MaasCluster → M S (Option Cluster)
  -- `scope.NewClusterScope` and the MAAS client of its identity.
  pub new_cluster_scope : Cluster → MaasCluster → M S (Maas S)
  pub get_control_plane : Cluster → M S Kcp
  pub update_control_plane : Kcp → M S (Unit {0})
  pub list_cp_machines : String → String → M S (List CapiMachine)
  pub delete_machine : CapiMachine → M S (Unit {0})
  pub get_template : String → String → M S MaasMachineTemplate
  pub create_template : MaasMachineTemplate → M S (Unit {0})
