-- ===== src/Machine/Dns/Laws.antt =====
-- What the DNS service promises the controllers: the addresses that one controller attaches are
-- those that the other sees.
use Prim.Native.String.append
use mathlib.Core.Path.{subst}
use cluster_api_provider_maa.Base.{
  ◌≡◌, ◌≢◌, ◌∙◌, ap, ap₂, sym, refl, inl, inr, String, ◌<>◌, Bool, false, not, ◌&&◌, List, [], ◌∷◌,
  arith, ◌==◌, ==_iff, any, Bool-cases, ok, >>=-ok, ◌>>=◌, wrapping, wrapping-ok, ok_parts,
  Option-cases,
}
use cluster_api_provider_maa.Services.{Runtime}
use cluster_api_provider_maa.Status.{MachineAddress, Instance}
use cluster_api_provider_maa.Fleet.{Fleet, DnsResource}
use cluster_api_provider_maa.Hmc.Service.{contains_string}
use cluster_api_provider_maa.Machine.Scope.{MachineScope, Live, lift}
use cluster_api_provider_maa.Machine.Scope.Keeps.{lift-ok}
use cluster_api_provider_maa.Machine.Dns.{
  named_ips, has_address_in, get_dns_name, dns_name_at, saved_dns_name, make_dns_name,
  get_dns_resource, only_resource, resource_of_name, modify_resource, update_dns_attachments,
  machine_is_registered, get_api_server_dns_records,
}

-- MAAS as a table of DNS resources: listing changes nothing, and what is modified is listed.
pub record DnsLaws {S : Type 0} (fleet : Fleet S) : Type 0 where
  pub listed :
      (name : String) (ds : List DnsResource) (s s' : S)
      → fleet.list_dns_resources name s ≡ (ok ds, s')
      → s' ≡ s
  pub modified :
      (name : String) (d : DnsResource) (ips : List String) (s s' : S)
      → fleet.list_dns_resources name s ≡ (ok (d ∷ []), s)
      → fleet.modify_dns_resource d.id ips s ≡ (ok tt, s')
      → fleet.list_dns_resources name s' ≡ (ok (record d { ip_addresses = ips } ∷ []), s')

-- An address counts where it is not empty.
abbrev pub is_attached : List String → MachineAddress → Bool
is_attached ips a = not (a.address == "") && contains_string ips a.address

named_ips-contains_string :
    (ips : List String) (a : String)
    → contains_string (named_ips ips) a ≡ (not (a == "") && contains_string ips a)
unfolding contains_string named_ips
named_ips-contains_string [] a = ground arith
named_ips-contains_string (ip ∷ ips) a =
    ground (arith, ==_iff ip "", ==_iff a "", ==_iff ip a, named_ips-contains_string ips a)

has_address_in-named_ips :
    (ips : List String) (addresses : List MachineAddress)
    → has_address_in (named_ips ips) addresses ≡ any (is_attached ips) addresses
unfolding has_address_in
has_address_in-named_ips ips [] = refl
has_address_in-named_ips ips (a ∷ addresses) =
    ground (arith, named_ips-contains_string ips a.address, has_address_in-named_ips ips addresses)

==_ne : (s : String) → s ≢ "" → (s == "") ≡ false
==_ne s h = ground (arith, ==_iff s "")

append_ne : (p s : String) → p <> ("-" <> s) ≢ ""
append_ne String.[] s e = cc (sym (append.cons "-" "" s) ∙ sym (append.nil _) ∙ e)
append_ne (String.◌∷◌ c p) s e = cc (sym (append.cons c p ("-" <> s)) ∙ e)

module _ {S : Type 0} (sc : MachineScope S) (r : Runtime S) (fleet : Fleet S) where
  saved_dns_name-named :
      (l : Live S) → l.dns_name ≢ "" → saved_dns_name sc r fleet l ≡ (ok l.dns_name, l)
  unfolding saved_dns_name
  saved_dns_name-named l named = ground (arith, ==_iff l.dns_name "")

  made_dns_name :
      (uid : String) (l l' v : Live S) (name : String)
      → make_dns_name sc r fleet uid l ≡ (ok name, l')
      → v.dns_name ≡ l'.dns_name
      → saved_dns_name sc r fleet v ≡ (ok name, v)
  unfolding make_dns_name
  made_dns_name uid l l' v name h kept =
      let (same, moved) = ok_parts h in
      let dns = ap (λ (t : Live S). t.dns_name) moved ∙ sym kept in
      saved_dns_name-named v (λ e. append_ne sc.cluster.name _ (dns ∙ e))
      ∙ ap (λ n. (ok n, v)) (sym dns ∙ same)

  saved_again :
      (l l' v : Live S) (name : String)
      → saved_dns_name sc r fleet l ≡ (ok name, l')
      → v.dns_name ≡ l'.dns_name
      → saved_dns_name sc r fleet v ≡ (ok name, v)
  unfolding saved_dns_name
  saved_again l l' v name h kept = elim (Bool-cases (l.dns_name == "")) [
    | inl unset ↦
        (let (uid, t, e, made) =
            >>=-ok (lift r.new_uuid) (make_dns_name sc r fleet) l (rw unset at h) in
          made_dns_name uid t l' v name made kept)
    | inr set ↦
        (let named : l.dns_name ≢ "" = (λ e. ground (arith, ==_iff l.dns_name "")) in
          let (same, moved) = ok_parts (sym (saved_dns_name-named l named) ∙ h) in
          let dns : v.dns_name ≡ l.dns_name = kept ∙ ap (λ (t : Live S). t.dns_name) (sym moved) in
          saved_dns_name-named v (λ e. named (sym dns ∙ e)) ∙ ap (λ n. (ok n, v)) (dns ∙ same))
  ]

  -- A DNS name that has been asked for stays: asking again gives it, and makes no uuid.
  pub get_dns_name_again :
      (l l' v : Live S) (name : String)
      → get_dns_name sc r fleet l ≡ (ok name, l')
      → v.dns_name ≡ l'.dns_name
      → get_dns_name sc r fleet v ≡ (ok name, v)
  unfolding get_dns_name dns_name_at
  get_dns_name_again l l' v name h kept = elim (Option-cases sc.cluster.control_plane_endpoint) [
    | inl unset ↦ rw unset (saved_again l l' v name (rw unset at h) kept)
    | inr (host, set) ↦ rw set (ap (λ n. (ok n, v)) (ok_parts (rw set at h)).0)
  ]

  -- Reading the only resource of the name.
  records_of_listed :
      (name : String) (d : DnsResource) (i : Instance) (v : Live S)
      → get_dns_name sc r fleet v ≡ (ok name, v)
      → name ≢ ""
      → fleet.list_dns_resources name v.world ≡ (ok (d ∷ []), v.world)
      → machine_is_registered sc r fleet i v
        ≡ (ok (any (is_attached d.ip_addresses) i.addresses), v)
  unfolding machine_is_registered get_api_server_dns_records get_dns_resource resource_of_name
  records_of_listed name d i v named set only =
      rw (named, ==_ne name set, only)
        (ap (λ b. (ok b, v)) (has_address_in-named_ips d.ip_addresses i.addresses))

  -- The name, and the only resource of that name, that an update of the addresses was made by.
  update_parts :
      (ips : List String) (l l' : Live S)
      → update_dns_attachments sc r fleet ips l ≡ (ok tt, l')
      → (name : String) × (t : Live S) × (d : DnsResource) × (u : Live S) × (get_dns_name sc r fleet
            l
          ≡ (ok name, t))
        × (resource_of_name sc r fleet name t ≡ (ok d, u))
        × (modify_resource sc r fleet ips d u ≡ (ok tt, l'))
  unfolding update_dns_attachments get_dns_resource
  update_parts ips l l' h =
      let (d, u, e, modified) =
        >>=-ok (get_dns_resource sc r fleet) (modify_resource sc r fleet ips) l h in
      let (name, t, e', found) =
        >>=-ok (get_dns_name sc r fleet) (resource_of_name sc r fleet) l e in
      (name, t, d, u, e', found, modified)

  only_resource-ok :
      (name : String) (ds : List DnsResource) (v u : Live S) (d : DnsResource)
      → only_resource sc r fleet name ds v ≡ (ok d, u)
      → (ds ≡ d ∷ []) × (v ≡ u)
  unfolding only_resource
  only_resource-ok name [] v u d h = cc (ap (λ p. p.0) h)
  only_resource-ok name (e ∷ []) v u d h = (ap (λ x. x ∷ []) (ok_parts h).0, (ok_parts h).1)
  only_resource-ok name (e ∷ f ∷ ds) v u d h = cc (ap (λ p. p.0) h)

  resource_of_named :
      (name : String) (t : Live S)
      → name ≢ ""
      → resource_of_name sc r fleet name t
        ≡ (wrapping
                ("error retrieving dns resources " <> name)
                (lift (fleet.list_dns_resources name))
              >>= only_resource sc r fleet name)
            t
  unfolding resource_of_name
  resource_of_named name t named = ground (arith, ==_iff name "")

  only_of_listed :
      (laws : DnsLaws fleet) (name : String) (t u : Live S) (d : DnsResource)
      → resource_of_name sc r fleet name t ≡ (ok d, u)
      → (u ≡ t) × (name ≢ "") × (fleet.list_dns_resources name t.world ≡ (ok (d ∷ []), t.world))
  unfolding resource_of_name
  only_of_listed laws name t u d h = elim (Bool-cases (name == "")) [
    | inl unset ↦ cc (ap (λ p. p.0) (rw unset at h))
    | inr set ↦
        (let (ds, v, listed, only) =
            >>=-ok
              (wrapping ("error retrieving dns resources " <> name)
                (lift (fleet.list_dns_resources name)))
              (only_resource sc r fleet name) t (rw set at h) in
          let (one, same) = only_resource-ok name ds v u d only in
          let (called, moved) = lift-ok (fleet.list_dns_resources name) t (
            wrapping-ok ("error retrieving dns resources " <> name)
              (lift (fleet.list_dns_resources name)) t listed) in
          let still = laws.listed name ds t.world v.world called in
          (
            sym same ∙ moved ∙ ap (λ w. record t { world = w }) still,
            (λ e. ground (arith, ==_iff name "")),
            called ∙ ap₂ (λ l w. (ok l, w)) one still,
          ))
  ]

  -- Where MAAS lists what was modified and listing changes nothing, after an update of the DNS
  -- attachments that ends well a machine counts as registered exactly if one of its addresses is
  -- not empty and among those attached.
  pub machine_is_registered-update_dns_attachments :
      (laws : DnsLaws fleet) (ips : List String) (i : Instance) (l l' : Live S)
      → update_dns_attachments sc r fleet ips l ≡ (ok tt, l')
      → machine_is_registered sc r fleet i l' ≡ (ok (any (is_attached ips) i.addresses), l')
  unfolding modify_resource
  machine_is_registered-update_dns_attachments laws ips i l l' h =
      let (name, t, d, u, named, found, modified) = update_parts ips l l' h in
      let (same, set, only) = only_of_listed laws name t u d found in
      let (called, moved) = lift-ok (fleet.modify_dns_resource d.id ips) u (
        wrapping-ok "Unable to update IPs" (lift (fleet.modify_dns_resource d.id ips)) u
          modified) in
      let listed =
        laws.modified name d ips u.world l'.world
          (subst (λ v. fleet.list_dns_resources name v.world ≡ (ok (d ∷ []), v.world)) (sym same)
            only)
          called in
      records_of_listed name (record d { ip_addresses = ips }) i l'
        (get_dns_name_again l t l' name named
          (ap (λ (v : Live S). v.dns_name) moved ∙ ap (λ (v : Live S). v.dns_name) same))
        set listed
