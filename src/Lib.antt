-- ===== src/Lib.antt =====
-- A verification library for the Cluster API provider for MAAS (Go).
--
-- The provider runs Kubernetes clusters on machines of MAAS. Hosts of an HCP cluster (one with
-- `lxdConfig.enabled`) carry virtual machines of workload clusters. When the Cluster API Machine
-- of such a host is deleted, the host maintenance controller starts a maintenance session, which
-- is kept in a ConfigMap, tags the host in MAAS, waits until the gates of the evacuation open,
-- takes the tags and the finalizer off again and completes the session. The VM evacuation
-- controller of a workload cluster finds the tags on the hosts of its control-plane VMs, keeps a
-- session of its own in a ConfigMap, and has the control plane replace one machine at a time.
--
--   Base          shared names, texts, lists, errors and programs over services
--   Services      the MAAS client, the Kubernetes client's ConfigMaps, the clock and the formats, as
--                 records over a state; Services/Laws what the program relies on of them
--   Kube          the other calls of the Kubernetes client and of Cluster API
--   Api           api/v1beta1: the resources; Api/Webhook the admission webhooks
--   Maintenance   pkg/maas/maintenance: Tags and Sanitize (tags.go), Session (session.go),
--                 TagService (common.go, host_tagging.go), Inventory (common.go)
--   Hmc           controllers/host_maintenance_service.go (Replacement, Service) and
--                 controllers/host_maintenance_controller.go (Controller)
--   Vec           controllers/vmevacuation_controller.go: Session (the ConfigMap of an operation), Scan
--                 (control-plane machines on hosts under maintenance), ControlPlane, Controller;
--                 Vec/Controller/Permission describes what allows an evacuation, without the tests
--   Status        api/v1beta1/types.go and condition_consts.go: states, conditions, instances
--   Fleet         the calls of MAAS that the machine controller uses, as a record over a state
--   ProviderId    pkg/util/machine.go
--   Lxd           pkg/maas/lxd/host_maas_client.go: the selection of a VM host; Lxd/Eligible and
--                 Lxd/Rank describe the eligible hosts and their order without the code's tests;
--                 Lxd/Register the registration of a host
--   Machine       the machine controller: Scope and Node (pkg/maas/scope/machine.go), Dns
--                 (pkg/maas/dns/dns.go), Service, Vm, Compose and Deploy (pkg/maas/machine/machine.go),
--                 Controller (controllers/maasmachine_controller.go) with State (the switch over the
--                 instance's state), Delete (reconcileDelete), Tags (stale tags) and Normal
--                 (reconcileNormal and Reconcile); the modules named Keeps show which properties of a
--                 machine a program keeps
--   Examples      the services in memory, and each theorem at a concrete input
--
-- A Go function that calls services is a function `M S A` from a state `S` of the services to a
-- result and the new state; an error is a value, and the order of the calls is the source's. A
-- program of the machine controller runs on `Live S`: the machine in memory, the DNS name of the
-- cluster scope, and the services; storing the machine is a call of its own. What is not in this
-- repository is a parameter: `Maas`, `ConfigMaps`, `Kube`, `Runtime`, `Codec`, the order in which
-- Go ranges over a map, the calls of the evacuation of workload clusters (`ClusterApi`, the
-- cluster scope among them), `Fleet`, the patch and the conditions of Cluster API, the order of
-- floats and the sort of candidates, the formats of `VmFormats`, the encoding in base 64, what a
-- regular expression finds in an error's text, the comparison of specs, the cut of a uuid, and the
-- lowering of letters above ASCII. A nil map of a ConfigMap is `none`; a map is a function that
-- reads "" where a key is missing. A nil pointer is `none`. Loops are recursion on the list that
-- is looped over, so there is no fuel. Times are nanoseconds, and the formats' laws keep whole
-- seconds, as RFC 3339 does.
--
-- Not modelled: log lines, the registration of controllers and their watches, the reads of objects
-- before the scopes of a machine, the reconciler of clusters, the service that registers the LXD
-- hosts of a cluster and their initializer, the migration of failure domains, and generated code.
pub mod Api
pub mod Base
pub mod Examples
pub mod Fleet
pub mod Hmc
pub mod Kube
pub mod Lxd
pub mod Machine
pub mod Maintenance
pub mod ProviderId
pub mod Services
pub mod Status
pub mod Vec
