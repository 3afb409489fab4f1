-- ===== src/Examples/Machines.antt =====
-- The theorems on the reconciliation of machines and on provider ids, at concrete inputs.
use cluster_api_provider_maa.Base.{
  ◌≡◌, ◌≢◌, ◌↔◌, sym, ap, ap₂, ok_parts, refl, String, true, false, List, [], ◌∷◌, none, some, ok,
  err, api, other, any, arith, ◌==◌, cut_at, cut_prefix, keep_last,
}
use cluster_api_provider_maa.Services.{Maas, Runtime}
use cluster_api_provider_maa.Status.{
  external_ip, Instance, machine_finalizer, machine_state_deployed, is_known_state,
}
use cluster_api_provider_maa.Api.{MaasMachine}
use cluster_api_provider_maa.Kube.{CapiMachine, Cluster}
use cluster_api_provider_maa.Fleet.{Fleet, DnsResource}
use cluster_api_provider_maa.ProviderId.{
  new_provider_id, provider_id_regex, matches_at_colon, after_slashes, validate, parts_of,
  before_colon, ends_without_slash,
}
use cluster_api_provider_maa.ProviderId.Laws.{new_provider_id-provider_id_of}
use cluster_api_provider_maa.Vec.Scan.{provider_id_of, last_part}
use cluster_api_provider_maa.Hmc.Service.{host_evacuation_finalizer, contains_string}
use cluster_api_provider_maa.Machine.Scope.{Live, MachineScope, get_instance_id, state_has}
use cluster_api_provider_maa.Machine.Service.{get_machine}
use cluster_api_provider_maa.Machine.Dns.{
  get_dns_name, get_dns_resource, update_dns_attachments, machine_is_registered,
}
use cluster_api_provider_maa.Machine.Dns.Laws.{
  DnsLaws, is_attached, machine_is_registered-update_dns_attachments,
}
use cluster_api_provider_maa.Machine.Controller.{Reconciler, is_confirmed_powered_off}
use cluster_api_provider_maa.Machine.Controller.State.{
  reconcile_instance, is_waiting, is_terminating,
}
use cluster_api_provider_maa.Machine.Controller.State.Laws.{
  with_power_on, reconcile_instance-ready, reconcile_instance-power_on,
}
use cluster_api_provider_maa.Machine.Controller.Delete.{find_machine, reconcile_delete}
use cluster_api_provider_maa.Machine.Controller.Delete.Laws.{reconcile_delete-unreleased}
use cluster_api_provider_maa.Machine.Controller.Delete.Progress.{
  NeverAllocated, reconcile_delete-NeverAllocated,
}
use cluster_api_provider_maa.Examples.Memory.{host, spec}
use cluster_api_provider_maa.Examples.Services.{idle_fleet, machine_details}

abc_ne : ◌≢◌ {A = String} "abc" ""
abc_ne h = cc h

new_provider_id-provider_id_of_example :
    new_provider_id (provider_id_of "abc" "zone")
    ≡ ok (record { original = provider_id_of "abc" "zone"; cloud_provider = "maas"; id = "abc" })
unfolding last_part cut_at
new_provider_id-provider_id_of_example =
    new_provider_id-provider_id_of "abc" "zone" abc_ne refl refl refl

abbrev capi_machine : CapiMachine
capi_machine = record {
  namespace = "ns";
  name = "m";
  uid = "u";
  is_deleting = false;
  infrastructure_name = "m";
  is_control_plane = true;
  failure_domain = "";
  data_secret_name = none;
}

abbrev cluster : Cluster
cluster = record {
  namespace = "ns";
  name = "c";
  has_control_plane_ref = true;
  infrastructure_provisioned = some true;
  control_plane_endpoint = none;
}

abbrev same : String → String
same s = s

module _ {S : Type 0} where
  abbrev pub scope : MachineScope S
  scope = record {
    machine = capi_machine;
    cluster = cluster;
    maas_cluster = record {
      namespace = "ns";
      name = "mc";
      dns_domain = "maas";
      lxd_enabled = some (some true);
    };
    conditions = record {
      set = λ c cs. c ∷ cs;
      get_reason = λ cs type. "";
      summarize = λ types cs. cs;
    };
    patch = λ mm s. (ok tt, s);
    get_secret_value = λ ns name s. (ok (some "data"), s);
    lower = same;
    trim_space = same;
  }

  -- A clock that stands at two hundred seconds.
  abbrev pub clock : Runtime S
  clock = record {
    now = λ s. (ok 200000000000, s);
    new_uuid = λ s. (ok "0123456789", s);
    event = λ reason text s. s;
  }

  abbrev pub maas : Maas S
  maas = record {
    list_tags = λ s. (ok [], s);
    create_tag = λ tag s. (ok tt, s);
    assign_tag = λ tag id s. (ok tt, s);
    unassign_tag = λ tag id s. (ok tt, s);
    list_machines = λ filters s. (ok [], s);
    get_machine = λ id s. (ok (machine_details id), s);
  }

  abbrev pub reconciler : Fleet S → Reconciler S
  reconciler fleet = record { scope = scope; runtime = clock; maas = maas; fleet = fleet }

  abbrev pub live : MaasMachine → S → Live S
  live mm s = record { maas_machine = mm; dns_name = ""; world = s }

-- A DNS resource whose addresses are the state.
abbrev dns_fleet : Fleet (List String)
dns_fleet = record idle_fleet {
  list_dns_resources = λ name ips. (ok (record { id = "1"; ip_addresses = ips } ∷ []), ips);
  modify_dns_resource = λ id ips s. (ok tt, ips);
}

first_id : List DnsResource → String
first_id [] = ""
first_id (d ∷ ds) = d.id

dns_laws : DnsLaws dns_fleet
unfolding first_id
dns_laws = record {
  listed = λ name ds s s' h. sym (ap (λ p. p.1) h);
  modified = λ name d ips s s' h k.
      ap₂ (λ i x. (ok (record { id = i; ip_addresses = x } ∷ []), s')) (ap first_id (ok_parts h).0)
        (sym (ap (λ p. p.1) k));
}

abbrev instance_in : String → String → Instance
instance_in state power_state = record {
  id = "abc";
  hostname = "name";
  state = state;
  powered = false;
  power_state = power_state;
  availability_zone = "zone";
  addresses = record { kind = external_ip; address = "10.0.0.1" } ∷ [];
  deployed_in_memory = false;
}

attached :
    update_dns_attachments scope clock dns_fleet ("10.0.0.1" ∷ []) (live host [])
    ≡ (ok tt, record (live host ("10.0.0.1" ∷ [])) { dns_name = "c-456789.maas" })
unfolding update_dns_attachments get_dns_resource get_dns_name ◌==◌ keep_last
attached = refl

machine_is_registered-update_dns_attachments_example :
    machine_is_registered scope clock dns_fleet
      (instance_in "Deployed" "on")
      (record (live host ("10.0.0.1" ∷ [])) { dns_name = "c-456789.maas" })
    ≡ (
      ok (any (is_attached ("10.0.0.1" ∷ [])) (instance_in "Deployed" "on").addresses),
      record (live host ("10.0.0.1" ∷ [])) { dns_name = "c-456789.maas" },
    )
machine_is_registered-update_dns_attachments_example =
    machine_is_registered-update_dns_attachments scope clock dns_fleet dns_laws ("10.0.0.1" ∷ [])
      (instance_in "Deployed" "on") (live host [])
      (record (live host ("10.0.0.1" ∷ [])) { dns_name = "c-456789.maas" }) attached

-- The machine after the switch, where its instance is in the state.
abbrev switched : String → String → Live (Unit {0})
switched state power_state =
    (reconcile_instance (reconciler idle_fleet) (instance_in state power_state) (live host tt)).1

ready_goes_on :
    reconcile_instance (reconciler idle_fleet) (instance_in "Deployed" "error") (live host tt)
    ≡ (ok none, switched "Deployed" "error")
unfolding reconcile_instance ◌==◌ is_waiting is_terminating state_has is_known_state
    is_confirmed_powered_off
ready_goes_on = refl

reconcile_instance-ready_example :
    ((switched "Deployed" "error").maas_machine.status.ready ≡ true)
    ↔ ((instance_in "Deployed" "error").state ≡ machine_state_deployed)
reconcile_instance-ready_example =
    reconcile_instance-ready (reconciler idle_fleet) (instance_in "Deployed" "error") (live host tt)
      (switched "Deployed" "error") ready_goes_on

not_off : ¬ (
    ((instance_in "Deployed" "error").state ≡ machine_state_deployed)
    × ((instance_in "Deployed" "error").power_state ≡ "off"))
not_off (deployed, off) = cc off

reconcile_instance-power_on_example :
    reconcile_instance
      (with_power_on (reconciler idle_fleet) (λ id comment s. (err (api other "cycled"), s)))
      (instance_in "Deployed" "error")
      (live host tt)
    ≡ reconcile_instance (reconciler idle_fleet) (instance_in "Deployed" "error") (live host tt)
reconcile_instance-power_on_example =
    reconcile_instance-power_on (reconciler idle_fleet)
      (λ id comment s. (err (api other "cycled"), s)) (instance_in "Deployed" "error")
      (live host tt) not_off

-- MAAS in which no release succeeds.
abbrev stuck : Fleet (Unit {0})
stuck = record idle_fleet { release = λ id s. (err (api other "status: 400"), s) }

abbrev allocated : MaasMachine
allocated = record host {
  finalizers = machine_finalizer ∷ [];
  spec = record spec { provider_id = some (provider_id_of "abc" "zone") };
}

allocated_found : (find_machine (reconciler stuck) (live allocated tt)).0 ≢ ok none
unfolding find_machine get_instance_id provider_id_of new_provider_id provider_id_regex
    matches_at_colon after_slashes validate parts_of before_colon last_part cut_at cut_prefix
    ends_without_slash get_machine ◌==◌
allocated_found h = cc h

reconcile_delete-unreleased_example :
    contains_string
      (reconcile_delete (reconciler stuck) (live allocated tt)).1.maas_machine.finalizers
      machine_finalizer
    ≡ true
unfolding contains_string ◌==◌
reconcile_delete-unreleased_example =
    reconcile_delete-unreleased (reconciler stuck) (λ id s. refl) (live allocated tt)
      allocated_found refl

-- A host that is deleted before it was allocated.
abbrev waiting : MaasMachine
waiting = record host {
  finalizers = machine_finalizer ∷ host_evacuation_finalizer ∷ [];
  spec = record spec { system_id = none };
}

waiting-NeverAllocated : NeverAllocated waiting 0
waiting-NeverAllocated = record { no_system_id = refl; no_provider_id = refl; deleted = refl }

abbrev after_two : MaasMachine
after_two =
    (reconcile_delete (reconciler idle_fleet)
      (reconcile_delete (reconciler idle_fleet) (live waiting tt)).1).1.maas_machine

reconcile_delete-NeverAllocated_example :
    (contains_string after_two.finalizers machine_finalizer ≡ false)
    × (contains_string after_two.finalizers host_evacuation_finalizer ≡ false)
reconcile_delete-NeverAllocated_example =
    reconcile_delete-NeverAllocated (reconciler idle_fleet) 0
      (λ s. (200000000000, s, refl, ground arith)) (live waiting tt) waiting-NeverAllocated
