-- ===== src/Examples/Services.antt =====
-- Services over any state that do nothing, to be given the calls that an example is about.
use cluster_api_provider_maa.Base.{String, [], none, true, ok}
use cluster_api_provider_maa.Services.{MachineDetails}
use cluster_api_provider_maa.Fleet.{Fleet}

abbrev pub machine_details : String → MachineDetails
machine_details id = record {
  system_id = id;
  hostname = "name";
  fqdn = "name.maas";
  state = "Deployed";
  parent = "";
  tags = [];
  zone = none;
  zone_name = "";
  resource_pool_name = "";
  power_state = "on";
  power_type = "ipmi";
  ip_addresses = [];
  deployed_in_memory = true;
  boot_interface_type = "physical";
}

module _ {S : Type 0} where
  abbrev pub idle_fleet : Fleet S
  idle_fleet = record {
    allocate = λ params s. (ok (machine_details "abc"), s);
    release = λ id s. (ok tt, s);
    force_release = λ id s. (ok tt, s);
    set_swap_size = λ id size s. (ok tt, s);
    set_hostname = λ id name s. (ok tt, s);
    deploy = λ id params s. (ok (machine_details id), s);
    power_on = λ id comment s. (ok tt, s);
    delete_machine = λ id s. (ok tt, s);
    create_boot_interface_bridge = λ id name s. (ok tt, s);
    list_details = λ s. (ok [], s);
    list_vm_hosts = λ s. (ok [], s);
    list_guests = λ id s. (ok [], s);
    delete_vm_host = λ id s. (ok tt, s);
    compose = λ id params s. (ok (machine_details "abc"), s);
    list_dns_resources = λ name s. (ok [], s);
    create_dns_resource = λ name ttl s. (ok tt, s);
    modify_dns_resource = λ id ips s. (ok tt, s);
  }
