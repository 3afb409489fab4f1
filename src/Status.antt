-- ===== src/Status.antt =====
-- The status of a MaasMachine: api/v1beta1/types.go, api/v1beta1/condition_consts.go and the status
-- type of api/v1beta1/maasmachine_types.go.
use cluster_api_provider_maa.Base.{String, Bool, ◌||◌, List, Option, ◌==◌}

-- `MachineState`: the states that MAAS reports and the provider knows.
abbrev pub machine_state_allocated : String
machine_state_allocated = "Allocated"

abbrev pub machine_state_deploying : String
machine_state_deploying = "Deploying"

abbrev pub machine_state_deployed : String
machine_state_deployed = "Deployed"

abbrev pub machine_state_ready : String
machine_state_ready = "Ready"

abbrev pub machine_state_disk_erasing : String
machine_state_disk_erasing = "Disk erasing"

abbrev pub machine_state_releasing : String
machine_state_releasing = "Releasing"

abbrev pub machine_state_new : String
machine_state_new = "New"

-- `MachineRunningStates`, `MachineOperationalStates` and `MachineKnownStates`, as tests.
unfoldable pub is_running_state : String → Bool
is_running_state s = s == machine_state_deploying || s == machine_state_deployed

unfoldable pub is_operational_state : String → Bool
unfolding is_running_state
is_operational_state s = is_running_state s || s == machine_state_allocated

unfoldable pub is_known_state : String → Bool
unfolding is_operational_state
is_known_state s =
    is_operational_state s
    || s == machine_state_disk_erasing
    || s == machine_state_releasing
    || s == machine_state_ready
    || s == machine_state_new

abbrev pub power_state_on : String
power_state_on = "on"

abbrev pub power_state_off : String
power_state_off = "off"

pub data AddressType : Type 0 where
  external_dns internal_dns external_ip internal_ip : AddressType

-- `clusterv1.MachineAddress`
pub record MachineAddress : Type 0 where
  pub kind : AddressType
  pub address : String

-- `Machine` of types.go: an instance of MAAS.
pub record Instance : Type 0 where
  pub id : String
  pub hostname : String
  pub state : String
  pub powered : Bool
  pub power_state : String
  pub availability_zone : String
  pub addresses : List MachineAddress
  pub deployed_in_memory : Bool

pub data ConditionStatus : Type 0 where
  condition_true condition_false condition_unknown : ConditionStatus

-- `metav1.Condition`, as far as the program writes it.
pub record Condition : Type 0 where
  pub type : String
  pub status : ConditionStatus
  pub reason : String
  pub message : String

-- `MaasMachineStatus`
pub record MaasMachineStatus : Type 0 where
  pub ready : Bool
  pub provisioned : Option Bool
  pub machine_state : Option String
  pub machine_powered : Bool
  pub hostname : Option String
  pub dns_attached : Bool
  pub addresses : List MachineAddress
  pub conditions : List Condition
  pub failure_reason : Option String
  pub failure_message : Option String

-- The types and reasons of the conditions of a machine.
abbrev pub machine_deployed_condition : String
machine_deployed_condition = "MachineDeployed"

abbrev pub machine_deployed_reason : String
machine_deployed_reason = "MachineDeployed"

abbrev pub deleted_reason : String
deleted_reason = "Deleted"

abbrev pub waiting_for_cluster_infrastructure_reason : String
waiting_for_cluster_infrastructure_reason = "WaitingForClusterInfrastructure"

abbrev pub waiting_for_bootstrap_data_reason : String
waiting_for_bootstrap_data_reason = "WaitingForBootstrapData"

abbrev pub machine_deploying_reason : String
machine_deploying_reason = "MachineDeploying"

abbrev pub machine_terminated_reason : String
machine_terminated_reason = "MachineTerminatedReason"

abbrev pub machine_powered_off_reason : String
machine_powered_off_reason = "MachinePoweredOff"

abbrev pub machine_state_undefined_reason : String
machine_state_undefined_reason = "MachineStateUndefined"

abbrev pub machine_not_found_reason : String
machine_not_found_reason = "MachineNotFound"

abbrev pub machine_deploy_failed_reason : String
machine_deploy_failed_reason = "MachineDeployFailed"

abbrev pub machine_deploy_started_reason : String
machine_deploy_started_reason = "MachineDeployStartedReason"

abbrev pub dns_attached_condition : String
dns_attached_condition = "DNSAttached"

abbrev pub dns_attached_reason : String
dns_attached_reason = "DNSAttached"

abbrev pub dns_detach_pending : String
dns_detach_pending = "DNSDetachPending"

abbrev pub dns_attach_pending : String
dns_attach_pending = "DNSAttachPending"

abbrev pub machine_finalizer : String
machine_finalizer = "maasmachine.infrastructure.cluster.x-k8s.io"
