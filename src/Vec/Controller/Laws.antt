-- ===== src/Vec/Controller/Laws.antt =====
-- When a reconcile writes to the cluster: which calls it may make, and where.
use cluster_api_provider_maa.Base.{
  ◌≡◌, refl, sym, ap, ◌∙◌, inl, inr, String, Bool, true, false, List, [], ◌∷◌, Option, none, some,
  arith, ==_iff, All, Bool-cases, M, Result, ok, err, bind_result, wrap_result,
}
use cluster_api_provider_maa.Services.{Maas, Runtime, Codec}
use cluster_api_provider_maa.Kube.{Kube, CapiMachine, Cluster, Kcp, ClusterApi}
use cluster_api_provider_maa.Api.{MaasMachineSpec, MaasCluster, MaasMachineTemplate}
use cluster_api_provider_maa.Vec.Session.{list_maintenance_sessions}
use cluster_api_provider_maa.Vec.Scan.{
  CpMachineOnMaintenanceHost, find_cp_machines_on_maintenance_hosts,
}
use cluster_api_provider_maa.Vec.Scan.Laws.{find_cp_machines_same}
use cluster_api_provider_maa.Vec.ControlPlane.{
  is_kcp_stable, is_other_being_deleted, get_kubeadm_control_plane, other_of_listed,
  has_other_cp_being_deleted, is_wlc_cluster, wlc_of_template,
}
use cluster_api_provider_maa.Vec.ControlPlane.Laws.{is_kcp_stable_iff}
use cluster_api_provider_maa.Vec.Controller.{
  evacuate_first, evacuate_if_stable, evacuate_unless, reconcile, with_maas_cluster, with_cluster,
  if_wlc, with_scope, with_sessions, continue_session, continue_if_stable, or_retry,
  scan_and_evacuate,
}
use cluster_api_provider_maa.Vec.Controller.Permission.{with_writes, MayEvacuate, Evacuates}

none_other :
    (current : CapiMachine) (machines : List CapiMachine)
    → is_other_being_deleted current machines ≡ false
    → All (λ (m : CapiMachine). m.is_deleting ≡ true → m.uid ≡ current.uid) machines
unfolding is_other_being_deleted
none_other current [] h = tt
none_other current (m ∷ machines) h = (
  λ deleting. ground (arith, ==_iff m.uid current.uid),
  none_other current machines (ground arith),
)

module _ {S : Type 0} (c : Codec) (k : Kube S) (r : Runtime S) (api : ClusterApi S)
    (range_order : List String → List String) (first_eight : String → String)
    (same_spec : MaasMachineSpec → MaasMachineSpec → Bool) (delete : CapiMachine → M S (Unit {0}))
    (update : Kcp → M S (Unit {0})) (create : MaasMachineTemplate → M S (Unit {0})) where
  abbrev api' : ClusterApi S
  api' = with_writes delete update create api

  module _ (cluster : Cluster) (machine : CapiMachine) (s : S)
      (barred : ¬ MayEvacuate api cluster machine s) where
    evacuate_unless-barred :
        (kcp : Kcp) (t : S) (y : Result (List CapiMachine) × S)
        → get_kubeadm_control_plane api cluster s ≡ (ok kcp, t)
        → is_kcp_stable kcp ≡ true
        → api.list_cp_machines cluster.namespace cluster.name t ≡ y
        → evacuate_if_stable c k r api range_order first_eight same_spec cluster machine kcp t
          ≡ evacuate_if_stable c k r api' range_order first_eight same_spec cluster machine kcp t
    unfolding evacuate_if_stable has_other_cp_being_deleted evacuate_unless other_of_listed
    evacuate_unless-barred kcp t (err e, u) got stable listed = rw (stable, listed) refl
    evacuate_unless-barred kcp t (ok machines, u) got stable listed =
        elim (Bool-cases (is_other_being_deleted machine machines)) [
          | inl other ↦ rw (stable, listed, other) refl
          | inr alone ↦
              (let (unpaused, settled) = (is_kcp_stable_iff kcp).0 stable in
                absurd (
                  barred (record {
                    kcp = kcp;
                    t = t;
                    got = got;
                    unpaused = unpaused;
                    settled = settled;
                    machines = machines;
                    u = u;
                    listed = listed;
                    alone = none_other machine machines alone;
                  })))
        ]

    evacuate_if_stable-barred :
        (x : Result Kcp × S)
        → get_kubeadm_control_plane api cluster s ≡ x
        → or_retry c k r api range_order first_eight same_spec
            (evacuate_if_stable c k r api range_order first_eight same_spec cluster machine)
            x
          ≡ or_retry c k r api' range_order first_eight same_spec
              (evacuate_if_stable c k r api' range_order first_eight same_spec cluster machine)
              x
    unfolding evacuate_if_stable
    evacuate_if_stable-barred (err e, t) got = refl
    evacuate_if_stable-barred (ok kcp, t) got = elim (Bool-cases (is_kcp_stable kcp)) [
      | inl stable ↦
          evacuate_unless-barred kcp t (api.list_cp_machines cluster.namespace cluster.name t) got
            stable refl
      | inr unstable ↦ rw (unstable) refl
    ]

  -- Unless the control plane is read as running and settled and its machines are then listed with
  -- none but the first found one being deleted, the evacuation of that machine does the same
  -- whatever the calls to delete a machine, to change the control plane and to create a template
  -- would do: none of them is made.
  pub evacuate_first-barred :
      (cluster : Cluster) (info : CpMachineOnMaintenanceHost)
      (infos : List CpMachineOnMaintenanceHost) (s : S)
      → ¬ MayEvacuate api cluster info.machine s
      → evacuate_first c k r
          (with_writes delete update create api)
          range_order
          first_eight
          same_spec
          cluster
          (info ∷ infos)
          s
        ≡ evacuate_first c k r api range_order first_eight same_spec cluster (info ∷ infos) s
  unfolding evacuate_first get_kubeadm_control_plane
  evacuate_first-barred cluster info infos s barred = sym (
      evacuate_if_stable-barred cluster info.machine s barred
        (get_kubeadm_control_plane api cluster s) refl)

  scanned_same :
      (cluster : Cluster) (x : Result (List CpMachineOnMaintenanceHost) × S)
      → ((info : CpMachineOnMaintenanceHost) (infos : List CpMachineOnMaintenanceHost) (t : S)
          → x ≡ (ok (info ∷ infos), t)
          → ¬ MayEvacuate api cluster info.machine t)
      → or_retry c k r api' range_order first_eight same_spec
          (evacuate_first c k r api' range_order first_eight same_spec cluster)
          x
        ≡ or_retry c k r api range_order first_eight same_spec
            (evacuate_first c k r api range_order first_eight same_spec cluster)
            x
  unfolding evacuate_first
  scanned_same cluster (err e, t) barred = refl
  scanned_same cluster (ok [], t) barred = refl
  scanned_same cluster (ok (info ∷ infos), t) barred =
      evacuate_first-barred cluster info infos t (barred info infos t refl)

  listed_same :
      (maas : Maas S) (cluster : Cluster) (x : Result (List String) × S)
      → ((info : CpMachineOnMaintenanceHost) (infos : List CpMachineOnMaintenanceHost) (t u : S)
          → x ≡ (ok [], t)
          → find_cp_machines_on_maintenance_hosts c k r api maas cluster t ≡ (ok (info ∷ infos), u)
          → ¬ MayEvacuate api cluster info.machine u)
      → or_retry c k r api' range_order first_eight same_spec
          (with_sessions c k r api' range_order first_eight same_spec maas cluster)
          x
        ≡ or_retry c k r api range_order first_eight same_spec
            (with_sessions c k r api range_order first_eight same_spec maas cluster)
            x
  unfolding with_sessions continue_session get_kubeadm_control_plane continue_if_stable
      scan_and_evacuate
  listed_same maas cluster (err e, t) barred = refl
  listed_same maas cluster (ok (op_id ∷ op_ids), t) barred = refl
  listed_same maas cluster (ok [], t) barred =
      ap
        (λ (m : M S (List CpMachineOnMaintenanceHost)).
          or_retry c k r api' range_order first_eight same_spec
            (evacuate_first c k r api' range_order first_eight same_spec cluster) (m t))
        (find_cp_machines_same c k r api api' maas cluster refl)
      ∙ scanned_same cluster (find_cp_machines_on_maintenance_hosts c k r api maas cluster t)
          (λ info infos u found. barred info infos t u refl found)

  scoped_same :
      (cluster : Cluster) (x : Result (Maas S) × S)
      → ((maas : Maas S) (info : CpMachineOnMaintenanceHost)
            (infos : List CpMachineOnMaintenanceHost) (t u v : S)
          → x ≡ (ok maas, t)
          → list_maintenance_sessions c k.config_maps cluster.namespace t ≡ (ok [], u)
          → find_cp_machines_on_maintenance_hosts c k r api maas cluster u ≡ (ok (info ∷ infos), v)
          → ¬ MayEvacuate api cluster info.machine v)
      → bind_result
          (wrap_result "failed to create cluster scope" x)
          (with_scope c k r api' range_order first_eight same_spec cluster)
        ≡ bind_result
            (wrap_result "failed to create cluster scope" x)
            (with_scope c k r api range_order first_eight same_spec cluster)
  unfolding with_scope
  scoped_same cluster (err e, t) barred = refl
  scoped_same cluster (ok maas, t) barred =
      listed_same maas cluster (list_maintenance_sessions c k.config_maps cluster.namespace t)
        (λ info infos u v idle found. barred maas info infos t u v refl idle found)

  module _ (namespace name : String) (s : S) (barred : ¬ Evacuates c k r api namespace name s) where
    scope_same :
        (mc : MaasCluster) (cluster : Cluster) (t u v : S)
        → k.get_maas_cluster namespace name s ≡ (ok mc, t)
        → api.get_owner_cluster mc t ≡ (ok (some cluster), u)
        → is_wlc_cluster api cluster u ≡ (ok true, v)
        → if_wlc c k r api' range_order first_eight same_spec mc cluster true v
          ≡ if_wlc c k r api range_order first_eight same_spec mc cluster true v
    unfolding if_wlc
    scope_same mc cluster t u v fetched owned typed =
        scoped_same cluster (api.new_cluster_scope cluster mc v)
          (λ maas info infos w x y scoped idle found allowed. barred (record {
            mc = mc;
            cluster = cluster;
            maas = maas;
            info = info;
            infos = infos;
            fetched_state = t;
            owned_state = u;
            typed_state = v;
            scoped_state = w;
            listed_state = x;
            found_state = y;
            fetched = fetched;
            owned = owned;
            typed = typed;
            scoped = scoped;
            idle = idle;
            found = found;
            allowed = allowed;
          }))

    typed_same :
        (mc : MaasCluster) (cluster : Cluster) (t u : S) (x : Result Bool × S)
        → k.get_maas_cluster namespace name s ≡ (ok mc, t)
        → api.get_owner_cluster mc t ≡ (ok (some cluster), u)
        → is_wlc_cluster api cluster u ≡ x
        → or_retry c k r api' range_order first_eight same_spec
            (if_wlc c k r api' range_order first_eight same_spec mc cluster)
            x
          ≡ or_retry c k r api range_order first_eight same_spec
              (if_wlc c k r api range_order first_eight same_spec mc cluster)
              x
    unfolding if_wlc
    typed_same mc cluster t u (err e, v) fetched owned typed = refl
    typed_same mc cluster t u (ok true, v) fetched owned typed =
        scope_same mc cluster t u v fetched owned typed
    typed_same mc cluster t u (ok false, v) fetched owned typed = refl

    owned_same :
        (mc : MaasCluster) (t : S) (x : Result (Option Cluster) × S)
        → k.get_maas_cluster namespace name s ≡ (ok mc, t)
        → api.get_owner_cluster mc t ≡ x
        → with_cluster c k r api' range_order first_eight same_spec mc x
          ≡ with_cluster c k r api range_order first_eight same_spec mc x
    unfolding with_cluster is_wlc_cluster get_kubeadm_control_plane wlc_of_template
    owned_same mc t (err e, u) fetched owned = refl
    owned_same mc t (ok none, u) fetched owned = refl
    owned_same mc t (ok (some cluster), u) fetched owned =
        typed_same mc cluster t u (is_wlc_cluster api cluster u) fetched owned refl

    fetched_same :
        (x : Result MaasCluster × S)
        → k.get_maas_cluster namespace name s ≡ x
        → with_maas_cluster c k r api' range_order first_eight same_spec x
          ≡ with_maas_cluster c k r api range_order first_eight same_spec x
    unfolding with_maas_cluster
    fetched_same (err e, t) fetched = refl
    fetched_same (ok mc, t) fetched = owned_same mc t (api.get_owner_cluster mc t) fetched refl

  -- Unless a reconcile comes to a workload cluster without an active session, finds a control-plane
  -- machine on a host under maintenance, then reads the control plane as running and settled and
  -- lists none of its other machines as being deleted, it does the same whatever the calls to
  -- delete a machine, to change the control plane and to create a template would do: none of them
  -- is made.
  pub reconcile-barred :
      (namespace name : String) (s : S)
      → ¬ Evacuates c k r api namespace name s
      → reconcile c k r
          (with_writes delete update create api)
          range_order
          first_eight
          same_spec
          namespace
          name
          s
        ≡ reconcile c k r api range_order first_eight same_spec namespace name s
  unfolding reconcile
  reconcile-barred namespace name s barred =
      fetched_same namespace name s barred (k.get_maas_cluster namespace name s) refl
