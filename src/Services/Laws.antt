-- ===== src/Services/Laws.antt =====
-- What the program relies on of the services: documented behaviour, as hypotheses of the theorems.
use cluster_api_provider_maa.Base.{
  ℕ, ◌-◌, ◌%◌, ◌≡◌, ◌≢◌, ℤ, String, Bool, true, false, any, List, [], some, ok, ◌==◌, ◌&&◌,
  if◌then◌else◌,
}
use cluster_api_provider_maa.Services.{Maas, MachineDetails, ConfigMap, ConfigMaps, Codec}

-- What is created or updated is read back, reading changes nothing, and the API server gives what
-- it creates a uid, which is not empty.
pub record ConfigMapsLaws {S : Type 0} (k : ConfigMaps S) : Type 0 where
  pub get-create :
      (cm : ConfigMap) (s s' : S)
      → k.create cm s ≡ (ok tt, s')
      → (uid : String) × (uid ≢ "")
        × (k.get cm.namespace cm.name s' ≡ (ok (record cm { uid = uid }), s'))
  pub get-update :
      (cm : ConfigMap) (s s' : S)
      → k.update cm s ≡ (ok tt, s')
      → k.get cm.namespace cm.name s' ≡ (ok cm, s')
  pub get_key :
      (namespace name : String) (cm : ConfigMap) (s s' : S)
      → k.get namespace name s ≡ (ok cm, s')
      → (cm.namespace ≡ namespace) × (cm.name ≡ name)

-- A time without its fraction of a second.
abbrev pub to_second : ℕ → ℕ
to_second t = t - t % 1000000000

-- What is written is read back: RFC 3339 keeps whole seconds.
pub record CodecLaws (c : Codec) : Type 0 where
  pub time_named : (t : ℕ) → c.format_time t ≢ ""
  pub time_round : (t : ℕ) → c.parse_time (c.format_time t) ≡ some (to_second t)
  pub int_named : (n : ℤ) → c.format_int n ≢ ""
  pub int_round : (n : ℤ) → c.scan_int (c.format_int n) ≡ some n
  pub json_named : (l : List String) (t : String) → c.marshal l ≡ some t → t ≢ ""
  pub json_round : (l : List String) (t : String) → c.marshal l ≡ some t → c.unmarshal t ≡ some l
  pub json_empty : c.unmarshal "[]" ≡ some []

-- MAAS as a table of tags: `tagged s id tag` says that the machine carries the tag. Assigning and
-- unassigning change one entry; the inventory of tag names and reading change none.
pub record TagLaws {S : Type 0} (m : Maas S) : Type 0 where
  pub tagged : S → String → String → Bool
  pub assigned :
      (tag id : String) (s s' : S)
      → m.assign_tag tag id s ≡ (ok tt, s')
      → (id' tag' : String)
      → tagged s' id' tag' ≡ (if id' == id && tag' == tag then true else tagged s id' tag')
  pub unassigned :
      (tag id : String) (s s' : S)
      → m.unassign_tag tag id s ≡ (ok tt, s')
      → (id' tag' : String)
      → tagged s' id' tag' ≡ (if id' == id && tag' == tag then false else tagged s id' tag')
  pub created :
      (tag : String) (s : S) (id' tag' : String)
      → tagged (m.create_tag tag s).1 id' tag' ≡ tagged s id' tag'
  pub listed : (s : S) (id' tag' : String) → tagged (m.list_tags s).1 id' tag' ≡ tagged s id' tag'
  pub viewed :
      (id : String) (s : S) (id' tag' : String)
      → tagged (m.get_machine id s).1 id' tag' ≡ tagged s id' tag'
  pub shown :
      (id : String) (d : MachineDetails) (s s' : S)
      → m.get_machine id s ≡ (ok d, s')
      → (tag : String) → any (λ t. t == tag) d.tags ≡ tagged s' id tag
