-- ===== src/Machine/Scope.antt =====
-- `MachineScope` of pkg/maas/scope/machine.go: the machine that a reconcile holds in memory, and
-- programs on it. What a program changes of it is stored by `patch_object`.
pub mod Keeps
use cluster_api_provider_maa.Base.{
  ℕ, String, ◌<>◌, Bool, true, false, Option, none, some, List, [], ◌∷◌, deref, if◌then◌else◌, M,
  Result, ok, err, Error, message, wrap, return, fail, attempt, wrapping, ◌>>=◌, ◌>>◌,
}
use cluster_api_provider_maa.Services.{Data}
use cluster_api_provider_maa.Kube.{CapiMachine, Cluster}
use cluster_api_provider_maa.Status.{
  MachineAddress, ConditionStatus, Condition, MaasMachineStatus, is_running_state,
  is_operational_state, is_known_state, machine_deployed_condition, dns_attached_condition,
}
use cluster_api_provider_maa.Api.{
  MaasMachine, MaasMachineSpec, MaasCluster, MachineLxdConfig, is_set,
}
use cluster_api_provider_maa.Vec.Scan.{provider_id_of}
use cluster_api_provider_maa.ProviderId.{ProviderId, new_provider_id}

-- What a reconcile holds: the machine, the DNS name in the status of the cluster, and the services.
pub record Live (S : Type 0) : Type 0 where
  pub maas_machine : MaasMachine
  pub dns_name : String
  pub world : S

-- Cluster API's `conditions` and `patch`: `set` puts one condition into a list, `get_reason` reads
-- the reason of a type, and `summarize` sets the ready condition from those of the types. `patch`
-- stores the machine.
pub record Conditions : Type 0 where
  pub set : Condition → List Condition → List Condition
  pub get_reason : List Condition → String → String
  pub summarize : List String → List Condition → List Condition

-- What a scope is made of and does not change.
pub record MachineScope (S : Type 0) : Type 0 where
  pub machine : CapiMachine
  pub cluster : Cluster
  pub maas_cluster : MaasCluster
  pub conditions : Conditions
  pub patch : MaasMachine → M S (Unit {0})
  -- What a secret has under the key `value`.
  pub get_secret_value : String → String → M S (Option String)
  -- `strings.ToLower` and `strings.TrimSpace`
  pub lower : String → String
  pub trim_space : String → String

module _ {S : Type 0} where
  -- A call of a service.
  abbrev pub lift : {A : Type 0} → M S A → M (Live S) A
  lift m l = ((m l.world).0, record l { world = (m l.world).1 })

  abbrev pub current : M (Live S) MaasMachine
  current l = (ok l.maas_machine, l)

  abbrev pub modify : (MaasMachine → MaasMachine) → M (Live S) (Unit {0})
  modify f l = (ok tt, record l { maas_machine = f l.maas_machine })

abbrev pub set_status : (MaasMachineStatus → MaasMachineStatus) → MaasMachine → MaasMachine
set_status f mm = record mm { status = f mm.status }

abbrev pub set_spec : (MaasMachineSpec → MaasMachineSpec) → MaasMachine → MaasMachine
set_spec f mm = record mm { spec = f mm.spec }

-- `SetReady`
unfoldable pub set_ready : MaasMachineStatus → MaasMachineStatus
set_ready st = record st { ready = true; provisioned = some true }

or_false : Option Bool → Option Bool
or_false none = some false
or_false (some b) = some b

-- `SetNotReady`
unfoldable pub set_not_ready : MaasMachineStatus → MaasMachineStatus
unfolding or_false
set_not_ready st = record st { ready = false; provisioned = or_false st.provisioned }

-- `conditions.Set` on the machine.
abbrev pub set_condition :
    Conditions → String → ConditionStatus → String → String → MaasMachineStatus → MaasMachineStatus
set_condition c type status reason text st = record st {
  conditions =
      c.set (record { type = type; status = status; reason = reason; message = text })
        st.conditions;
}

-- `SetProviderID`, `SetFailureDomain` and `SetSystemID`
unfoldable pub set_provider_id : String → String → MaasMachineSpec → MaasMachineSpec
set_provider_id system_id availability_zone spec = record spec {
  provider_id = some (provider_id_of system_id availability_zone);
}

abbrev pub set_failure_domain : String → MaasMachineSpec → MaasMachineSpec
set_failure_domain availability_zone spec = record spec { failure_domain = some availability_zone }

abbrev pub set_system_id : String → MaasMachineSpec → MaasMachineSpec
set_system_id system_id spec = record spec { system_id = some system_id }

id_of_parsed : Result ProviderId → Option String
id_of_parsed (ok p) = some p.id
id_of_parsed (err e) = none

-- `GetInstanceID`
unfoldable pub get_instance_id : MaasMachine → Option String
unfolding id_of_parsed
get_instance_id mm = id_of_parsed (new_provider_id (deref mm.spec.provider_id))

holds : (String → Bool) → Option String → Bool
holds test none = false
holds test (some state) = test state

-- `MachineIsRunning`, `MachineIsOperational` and `MachineIsInKnownState`
unfoldable pub state_has : (String → Bool) → MaasMachine → Bool
unfolding holds
state_has test mm = holds test mm.status.machine_state

abbrev pub machine_is_running : MaasMachine → Bool
machine_is_running = state_has is_running_state

abbrev pub machine_is_operational : MaasMachine → Bool
machine_is_operational = state_has is_operational_state

abbrev pub machine_is_in_known_state : MaasMachine → Bool
machine_is_in_known_state = state_has is_known_state

module _ {S : Type 0} (sc : MachineScope S) where
  -- The conditions that the ready condition sums up.
  applicable_conditions : List String
  applicable_conditions =
      if sc.machine.is_control_plane
      then machine_deployed_condition ∷ dns_attached_condition ∷ []
      else machine_deployed_condition ∷ []

  summarize_conditions : MaasMachineStatus → MaasMachineStatus
  unfolding applicable_conditions
  summarize_conditions st = record st {
    conditions = sc.conditions.summarize applicable_conditions st.conditions;
  }

  store_machine : MaasMachine → M (Live S) (Unit {0})
  store_machine mm = lift (sc.patch mm)

  -- `PatchObject`, which is also `Close`.
  unfoldable pub patch_object : M (Live S) (Unit {0})
  unfolding summarize_conditions store_machine
  patch_object = modify (set_status summarize_conditions) >> (current >>= store_machine)

  bootstrap_value : Option String → M S String
  bootstrap_value none =
      fail (message "error retrieving bootstrap data: secret value key is missing")
  bootstrap_value (some value) = return value

  secret_of : Option String → M S String
  unfolding bootstrap_value
  secret_of none =
      fail (
        message "error retrieving bootstrap data: linked Machine's bootstrap.dataSecretName is nil")
  secret_of (some name) =
      wrapping
        ("failed to retrieve bootstrap data secret for MaasMachine "
          <> (sc.machine.namespace <> ("/" <> sc.machine.name)))
        (sc.get_secret_value sc.machine.namespace name)
      >>= bootstrap_value

  -- `GetRawBootstrapData`
  unfoldable pub get_raw_bootstrap_data : M S String
  unfolding secret_of
  get_raw_bootstrap_data = secret_of sc.machine.data_secret_name

lxd_enabled : Option MachineLxdConfig → Bool
lxd_enabled none = false
lxd_enabled (some lxd) = is_set lxd.enabled

-- `GetDynamicLXD`
unfoldable pub get_dynamic_lxd : MaasMachine → Bool
unfolding lxd_enabled
get_dynamic_lxd mm = lxd_enabled mm.spec.lxd
