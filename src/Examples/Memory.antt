-- ===== src/Examples/Memory.antt =====
-- The services over a state in memory, which satisfy what the theorems assume of them.
use mathlib.Core.Path.{subst}
use cluster_api_provider_maa.Base.{
  ◌≡◌, ◌∙◌, ap, sym, refl, String, Bool, true, false, ◌&&◌, List, [], ◌∷◌, Option, none, some,
  arith, ◌==◌, ==_iff, ==_refl, any, Any, inl, if◌then◌else◌, Result, ok, err, api, not_found,
  other,
}
use cluster_api_provider_maa.Services.{Maas, MachineDetails, ConfigMap, ConfigMaps, Data, Runtime}
use cluster_api_provider_maa.Services.Laws.{ConfigMapsLaws, TagLaws}
use cluster_api_provider_maa.Kube.{Kube}
use cluster_api_provider_maa.Status.{MaasMachineStatus}
use cluster_api_provider_maa.Api.{MaasMachine, MaasMachineSpec}
use cluster_api_provider_maa.Hmc.Service.{host_evacuation_finalizer, remove_string, contains_string}
use cluster_api_provider_maa.Hmc.Service.Cleanup.{contains_string-remove_string}

pub record World : Type 0 where
  pub configs : String → String → Option (String × Option Data)
  pub tags : String → List String
  pub machine : MaasMachine

read_config : String → String → Option (String × Option Data) → World → Result ConfigMap × World
read_config ns n none w = (err (api not_found n), w)
read_config ns n (some (uid, content)) w =
    (ok (record { namespace = ns; name = n; uid = uid; content = content }), w)

-- The ConfigMap of that name, where there is one.
listing : String → String → Option (String × Option Data) → List ConfigMap
listing ns n none = []
listing ns n (some (uid, content)) =
    record { namespace = ns; name = n; uid = uid; content = content } ∷ []

store : World → ConfigMap → String → World
store w cm uid = record w {
  configs =
      λ ns n. if ns == cm.namespace && n == cm.name then some (uid, cm.content) else w.configs ns n;
}

unfoldable pub config_maps : ConfigMaps World
unfolding read_config store listing
config_maps = record {
  get = λ ns n w. read_config ns n (w.configs ns n) w;
  list = λ ns w. (ok (listing ns "vec-maintenance-op1" (w.configs ns "vec-maintenance-op1")), w);
  create = λ cm w. (ok tt, store w cm "uid");
  update = λ cm w. (ok tt, store w cm cm.uid);
}

get-store :
    (w : World) (cm : ConfigMap) (uid : String)
    → config_maps.get cm.namespace cm.name (store w cm uid)
      ≡ (ok (record cm { uid = uid }), store w cm uid)
unfolding config_maps
get-store w cm uid = rw (==_refl cm.namespace, ==_refl cm.name) refl

read_config-key :
    (ns n : String) (o : Option (String × Option Data)) (w w' : World) (cm : ConfigMap)
    → read_config ns n o w ≡ (ok cm, w')
    → (cm.namespace ≡ ns) × (cm.name ≡ n)
unfolding read_config
read_config-key ns n none w w' cm h = cc (ap (λ r. r.0) h)
read_config-key ns n (some (uid, content)) w w' cm h = (ground arith, ground arith)

pub config_maps_laws : ConfigMapsLaws config_maps
unfolding config_maps
config_maps_laws = record {
  get-create = λ cm s s' h. (
    "uid",
    (λ e. cc e),
    subst (λ t. config_maps.get cm.namespace cm.name t ≡ (ok (record cm { uid = "uid" }), t))
        (ap (λ r. r.1) h) (get-store s cm "uid"),
  );
  get-update = λ cm s s' h.
      subst (λ t. config_maps.get cm.namespace cm.name t ≡ (ok cm, t)) (ap (λ r. r.1) h)
        (get-store s cm cm.uid);
  get_key = λ ns n cm s s' h. read_config-key ns n (s.configs ns n) s s' cm h;
}

abbrev pub ok_or : {A : Type 0} → A → Result A → A
ok_or d (ok a) = a
ok_or d (err e) = d

listing-read_config :
    (ns n : String) (o : Option (String × Option Data)) (w t : World) (cm : ConfigMap)
    (cms : List ConfigMap)
    → read_config ns n o w ≡ (ok cm, w)
    → listing ns n o ≡ cms
    → Any (λ x. x ≡ cm) cms
unfolding read_config listing
listing-read_config ns n none w t cm cms read listed = cc (ap (λ r. r.0) read)
listing-read_config ns n (some (uid, content)) w t cm cms read listed =
    subst (Any (λ x. x ≡ cm)) listed (inl (ap (λ r. ok_or cm r.0) read))

-- The listing shows the ConfigMap as reading it does.
pub config_maps-shown :
    (ns : String) (w t : World) (cm : ConfigMap) (cms : List ConfigMap)
    → config_maps.get ns "vec-maintenance-op1" w ≡ (ok cm, w)
    → config_maps.list ns w ≡ (ok cms, t)
    → Any (λ x. x ≡ cm) cms
unfolding config_maps
config_maps-shown ns w t cm cms read listed =
    listing-read_config ns "vec-maintenance-op1" (w.configs ns "vec-maintenance-op1") w t cm cms
      read (ap (λ r. ok_or cms r.0) listed)

-- MAAS with the given machines; `readable` says whether their details can be read.
module _ (listed : List String) (parent : String) (readable : Bool) where
  details : World → String → MachineDetails
  details w id = record {
    system_id = id;
    hostname = "name";
    fqdn = "name.maas";
    state = "Deployed";
    parent = parent;
    tags = w.tags id;
    zone = some "zone";
    zone_name = "zone";
    resource_pool_name = "pool";
    power_state = "on";
    power_type = "lxd";
    ip_addresses = [];
    deployed_in_memory = false;
    boot_interface_type = "physical";
  }

  set_tags : World → String → List String → World
  set_tags w id tags = record w { tags = λ i. if i == id then tags else w.tags i }

  unfoldable pub maas : Maas World
  unfolding details set_tags remove_string
  maas = record {
    list_tags = λ w. (ok [], w);
    create_tag = λ tag w. (ok tt, w);
    assign_tag = λ tag id w. (ok tt, set_tags w id (tag ∷ w.tags id));
    unassign_tag = λ tag id w. (ok tt, set_tags w id (remove_string (w.tags id) tag));
    list_machines = λ filters w. (ok listed, w);
    get_machine = λ id w. if readable then (ok (details w id), w) else (err (api other id), w);
  }

  tagged : World → String → String → Bool
  unfolding contains_string
  tagged w id tag = contains_string (w.tags id) tag

  tagged-set_tags :
      (w : World) (id : String) (tags : List String) (id' tag' : String)
      → tagged (set_tags w id tags) id' tag'
        ≡ (if id' == id then contains_string tags tag' else tagged w id' tag')
  unfolding tagged set_tags
  tagged-set_tags w id tags id' tag' = ground arith

  cons_tag :
      (w : World) (id tag id' tag' : String)
      → tagged (set_tags w id (tag ∷ w.tags id)) id' tag'
        ≡ (if id' == id && tag' == tag then true else tagged w id' tag')
  unfolding tagged set_tags contains_string
  cons_tag w id tag id' tag' = ground (arith, ==_iff id' id, ==_iff tag' tag, ==_iff tag tag')

  remove_tag :
      (w : World) (id tag id' tag' : String)
      → tagged (set_tags w id (remove_string (w.tags id) tag)) id' tag'
        ≡ (if id' == id && tag' == tag then false else tagged w id' tag')
  unfolding tagged set_tags
  remove_tag w id tag id' tag' =
      ground (arith, ==_iff id' id, contains_string-remove_string (w.tags id) tag tag')

abbrev result_tags : Result MachineDetails → List String
result_tags (ok d) = d.tags
result_tags (err e) = []

pub tag_laws : (listed : List String) (parent : String) → TagLaws (maas listed parent true)
unfolding maas tagged
tag_laws listed parent = record {
  tagged = tagged listed parent true;
  assigned = λ tag id s s' h id' tag'.
      ap (λ r. tagged listed parent true r.1 id' tag') (sym h)
      ∙ (cons_tag listed parent true s id tag id' tag');
  unassigned = λ tag id s s' h id' tag'.
      ap (λ r. tagged listed parent true r.1 id' tag') (sym h)
      ∙ (remove_tag listed parent true s id tag id' tag');
  created = λ tag s id' tag'. refl;
  listed = λ s id' tag'. refl;
  viewed = λ id s id' tag'. refl;
  shown = λ id d s s' h tag.
      ap (λ r. any (λ t. t == tag) (result_tags r.0)) (sym h)
      ∙ ap (λ r. tagged listed parent true r.1 id tag) h;
}

abbrev pub runtime : Runtime World
runtime = record { now = λ w. (ok 7, w); new_uuid = λ w. (ok "op1", w); event = λ reason text w. w }

abbrev pub spec : MaasMachineSpec
spec = record {
  failure_domain = none;
  system_id = some "host1";
  parent = none;
  provider_id = none;
  resource_pool = none;
  min_cpu = some 4;
  min_memory_in_mb = some 8192;
  min_disk_size_in_gb = none;
  tags = [];
  image = "ubuntu";
  deploy_in_memory = false;
  lxd = none;
}

abbrev pub new_status : MaasMachineStatus
new_status = record {
  ready = false;
  provisioned = none;
  machine_state = none;
  machine_powered = false;
  hostname = none;
  dns_attached = false;
  addresses = [];
  conditions = [];
  failure_reason = none;
  failure_message = none;
}

-- A host of an HCP cluster, with the evacuation finalizer.
abbrev pub host : MaasMachine
host = record {
  namespace = "ns";
  name = "m";
  finalizers = "other" ∷ host_evacuation_finalizer ∷ [];
  annotations = none;
  deletion_timestamp = some 0;
  owner_references =
      record { api_version = "cluster.x-k8s.io/v1beta2"; kind = "Machine"; name = "owner" } ∷ [];
  spec = spec;
  status = new_status;
}

abbrev pub fresh : World
fresh = record { configs = λ ns n. none; tags = λ id. []; machine = host }

abbrev credentials : Data
credentials key = "secret"

abbrev pub kube : Kube World
kube = record {
  config_maps = config_maps;
  get_secret = λ ns n w. (ok credentials, w);
  getenv = λ key. "";
  get_maas_machine = λ ns n w. (ok w.machine, w);
  update_maas_machine = λ m w. (ok tt, record w { machine = m });
  get_maas_cluster = λ ns n w. (
    ok (record { namespace = ns; name = n; dns_domain = "maas"; lxd_enabled = some (some true) }),
    w,
  );
  get_cluster_from_metadata = λ m w. (ok (some "cluster"), w);
  get_capi_machine = λ ns n w. (
    ok (record {
      namespace = ns;
      name = n;
      uid = "u";
      is_deleting = true;
      infrastructure_name = "m";
      is_control_plane = true;
      failure_domain = "";
      data_secret_name = some "bootstrap";
    }),
    w,
  );
}
