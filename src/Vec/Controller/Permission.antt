-- ===== src/Vec/Controller/Permission.antt =====
-- What allows a reconcile to change the control plane of a cluster, written without its tests.
use cluster_api_provider_maa.Base.{◌≡◌, ◌≢◌, String, true, List, [], ◌∷◌, some, All, M, ok}
use cluster_api_provider_maa.Services.{Maas, Runtime, Codec}
use cluster_api_provider_maa.Kube.{Kube, CapiMachine, Cluster, Kcp, ClusterApi}
use cluster_api_provider_maa.Api.{MaasCluster, MaasMachineTemplate}
use cluster_api_provider_maa.Vec.Session.{list_maintenance_sessions}
use cluster_api_provider_maa.Vec.Scan.{
  CpMachineOnMaintenanceHost, find_cp_machines_on_maintenance_hosts,
}
use cluster_api_provider_maa.Vec.ControlPlane.{get_kubeadm_control_plane, is_wlc_cluster}
use cluster_api_provider_maa.Vec.ControlPlane.Laws.{IsSettled}

-- The cluster with other calls to delete a machine, to change the control plane and to create a
-- template.
abbrev pub with_writes :
    {S : Type 0}
    → (CapiMachine → M S (Unit {0}))
    → (Kcp → M S (Unit {0}))
    → (MaasMachineTemplate → M S (Unit {0}))
    → ClusterApi S
    → ClusterApi S
with_writes delete update create api = record api {
  delete_machine = delete;
  update_control_plane = update;
  create_template = create;
}

-- What allows the evacuation of a machine in a state: the control plane is read, runs and is settled,
-- and its machines are listed with none but this one being deleted.
pub record MayEvacuate {S : Type 0} (api : ClusterApi S) (cluster : Cluster) (machine : CapiMachine)
    (s : S) : Type 0 where
  pub kcp : Kcp
  pub t : S
  pub got : get_kubeadm_control_plane api cluster s ≡ (ok kcp, t)
  pub unpaused : kcp.paused ≢ some true
  pub settled : IsSettled kcp
  pub machines : List CapiMachine
  pub u : S
  pub listed : api.list_cp_machines cluster.namespace cluster.name t ≡ (ok machines, u)
  pub alone : All (λ (m : CapiMachine). m.is_deleting ≡ true → m.uid ≡ machine.uid) machines

-- What the reconcile of a cluster comes to before it evacuates a machine: the cluster is one of
-- workloads, no session is active, the scan finds a machine, and its evacuation is allowed.
pub record Evacuates {S : Type 0} (c : Codec) (k : Kube S) (r : Runtime S) (api : ClusterApi S)
    (namespace name : String) (s : S) : Type 0 where
  pub mc : MaasCluster
  pub cluster : Cluster
  pub maas : Maas S
  pub info : CpMachineOnMaintenanceHost
  pub infos : List CpMachineOnMaintenanceHost
  pub fetched_state : S
  pub owned_state : S
  pub typed_state : S
  pub scoped_state : S
  pub listed_state : S
  pub found_state : S
  pub fetched : k.get_maas_cluster namespace name s ≡ (ok mc, fetched_state)
  pub owned : api.get_owner_cluster mc fetched_state ≡ (ok (some cluster), owned_state)
  pub typed : is_wlc_cluster api cluster owned_state ≡ (ok true, typed_state)
  pub scoped : api.new_cluster_scope cluster mc typed_state ≡ (ok maas, scoped_state)
  pub idle :
      list_maintenance_sessions c k.config_maps cluster.namespace scoped_state
      ≡ (ok [], listed_state)
  pub found :
      find_cp_machines_on_maintenance_hosts c k r api maas cluster listed_state
      ≡ (ok (info ∷ infos), found_state)
  pub allowed : MayEvacuate api cluster info.machine found_state
