-- ===== src/Services.antt =====
-- The code that the program calls and does not contain, as interfaces over a state `S`: the MAAS
-- client (github.com/spectrocloud/maas-client-go), the Kubernetes client (controller-runtime), and
-- the clock and the formats of Go's libraries. The program's definitions take them as parameters.
pub mod Laws
use cluster_api_provider_maa.Base.{
  ℕ, String, Bool, List, Option, none, some, M, ℤ, ◌==◌, if◌then◌else◌,
}

-- What `Machines().Machine(id).Get(ctx)` shows of a machine.
pub record MachineDetails : Type 0 where
  pub system_id : String
  pub hostname : String
  pub fqdn : String
  pub state : String
  pub parent : String
  pub tags : List String
  -- The name of `Zone()`, which may be nil.
  pub zone : Option String
  pub zone_name : String
  pub resource_pool_name : String
  pub power_state : String
  pub power_type : String
  pub ip_addresses : List String
  pub deployed_in_memory : Bool
  pub boot_interface_type : String

-- A machine that is listed is a handle: its system id.
pub record Maas (S : Type 0) : Type 0 where
  pub list_tags : M S (List String)
  pub create_tag : String → M S (Unit {0})
  pub assign_tag : String → String → M S (Unit {0})
  pub unassign_tag : String → String → M S (Unit {0})
  pub list_machines : List (String × String) → M S (List String)
  pub get_machine : String → M S MachineDetails

-- The data of a ConfigMap: a nil map, or a map that reads `""` where a key is missing.
abbrev pub Data : Type 0
Data = String → String

abbrev pub empty_data : Data
empty_data k = ""

abbrev pub put : Data → String → String → Data
put d k v j = if k == j then v else d j

-- A nil map reads as an empty one.
abbrev pub read_data : Option Data → Data
read_data none = empty_data
read_data (some d) = d

pub record ConfigMap : Type 0 where
  pub namespace : String
  pub name : String
  pub uid : String
  pub content : Option Data

pub record ConfigMaps (S : Type 0) : Type 0 where
  pub get : String → String → M S ConfigMap
  pub list : String → M S (List ConfigMap)
  pub create : ConfigMap → M S (Unit {0})
  pub update : ConfigMap → M S (Unit {0})

-- `time.Now`, `uuid`, and the event recorder, which cannot fail.
pub record Runtime (S : Type 0) : Type 0 where
  pub now : M S ℕ
  pub new_uuid : M S String
  pub event : String → String → S → S

-- RFC 3339, `%d` and JSON arrays of strings. A time is its nanoseconds since Go's zero time.
pub record Codec : Type 0 where
  pub format_time : ℕ → String
  pub parse_time : String → Option ℕ
  pub format_int : ℤ → String
  pub scan_int : String → Option ℤ
  pub marshal : List String → Option String
  pub unmarshal : String → Option (List String)
