-- ===== src/Maintenance/TagService/Laws.antt =====
-- What the groups of tags leave on the machines.
use cluster_api_provider_maa.Base.{
  ◌≡◌, ◌∙◌, ap, sym, inl, inr, Bool-cases, String, Bool, true, false, ◌&&◌, ◌||◌, arith, any, ◌==◌,
  if◌then◌else◌, M, ok, ◌>>◌, >>=-ok,
}
use cluster_api_provider_maa.Services.{Maas}
use cluster_api_provider_maa.Services.Laws.{TagLaws}
use cluster_api_provider_maa.Maintenance.Tags.{
  tag_host_maintenance, tag_host_no_schedule, build_op_tag,
}
use cluster_api_provider_maa.Maintenance.TagService.{
  new_tag_service, ensure_tag_in_inventory, ensure_among, ensure_host_maintenance_tags,
  clear_host_maintenance_tags, remove_host_marks,
}

module _ {S : Type 0} (maas : Maas S) (laws : TagLaws maas) where
  open laws use {tagged}

  -- A program that ends well changes the table of tags, entry by entry, by `f`.
  abbrev pub Changes : M S (Unit {0}) → (String → String → Bool → Bool) → Type 0
  Changes m f =
      (s s' : S)
      → m s ≡ (ok tt, s')
      → (id tag : String) → tagged s' id tag ≡ f id tag (tagged s id tag)

  pub Changes->> :
      (m n : M S (Unit {0})) (f g : String → String → Bool → Bool)
      → Changes m f
      → Changes n g
      → Changes (m >> n) (λ id tag b. g id tag (f id tag b))
  Changes->> m n f g cm cn s s' h id tag =
      let (u, t, first, second) = >>=-ok m (λ _. n) s h in
      cn t s' second id tag ∙ ap (g id tag) (cm s t first id tag)

  abbrev pub keep : String → String → Bool → Bool
  keep id tag b = b

  abbrev add : String → String → String → String → Bool → Bool
  add host name id tag b = if id == host && tag == name then true else b

  abbrev pub drop : String → String → String → String → Bool → Bool
  drop host name id tag b = if id == host && tag == name then false else b

  ensure_tag_in_inventory-Changes :
      (name : String) → Changes (ensure_tag_in_inventory maas name) keep
  unfolding ensure_tag_in_inventory ensure_among
  ensure_tag_in_inventory-Changes name s s' h id tag =
      let (existing, t, seen, rest) = >>=-ok maas.list_tags (ensure_among maas name) s h in
      let listed : tagged t id tag ≡ tagged s id tag =
        ap (λ r. tagged r.1 id tag) (sym seen) ∙ laws.listed s id tag in
      elim (Bool-cases (any (λ tag. tag == name) existing)) [
        | inl e ↦ ap (λ r. tagged r.1 id tag) (sym (rw e at rest)) ∙ listed
        | inr e ↦
            ap (λ r. tagged r.1 id tag) (sym (rw e at rest)) ∙ laws.created name t id tag ∙ listed
      ]

  add_tag-Changes :
      (host name : String)
      → Changes ((new_tag_service maas).add_tag_to_host host name) (add host name)
  unfolding new_tag_service
  add_tag-Changes host name s s' h id tag = laws.assigned name host s s' h id tag

  pub remove_tag-Changes :
      (host name : String)
      → Changes ((new_tag_service maas).remove_tag_from_host host name) (drop host name)
  unfolding new_tag_service
  remove_tag-Changes host name s s' h id tag = laws.unassigned name host s s' h id tag

  abbrev is_mark : String → String → Bool
  is_mark op_id tag =
      tag == tag_host_maintenance || tag == tag_host_no_schedule || tag == build_op_tag op_id

  abbrev marked : String → String → String → String → Bool → Bool
  marked host op_id id tag b =
      add host (build_op_tag op_id) id tag
        (add host tag_host_no_schedule id tag (add host tag_host_maintenance id tag b))

  marks-Changes :
      (host op_id : String)
      → Changes
          (do
            maas.assign_tag tag_host_maintenance host
            maas.assign_tag tag_host_no_schedule host
            maas.assign_tag (build_op_tag op_id) host)
          (marked host op_id)
  unfolding new_tag_service
  marks-Changes host op_id =
      Changes->> (maas.assign_tag tag_host_maintenance host)
        (do maas.assign_tag tag_host_no_schedule host; maas.assign_tag (build_op_tag op_id) host)
        (add host tag_host_maintenance)
        (λ id tag b. add host (build_op_tag op_id) id tag (add host tag_host_no_schedule id tag b))
        (add_tag-Changes host tag_host_maintenance)
        (Changes->> (maas.assign_tag tag_host_no_schedule host)
          (maas.assign_tag (build_op_tag op_id) host) (add host tag_host_no_schedule)
          (add host (build_op_tag op_id)) (add_tag-Changes host tag_host_no_schedule)
          (add_tag-Changes host (build_op_tag op_id)))

  -- Three tags are put into the inventory before anything else.
  inventory-Changes :
      (a b c : String) (m : M S (Unit {0})) (f : String → String → Bool → Bool)
      → Changes m f
      → Changes
          (do
            ensure_tag_in_inventory maas a
            ensure_tag_in_inventory maas b
            ensure_tag_in_inventory maas c
            m)
          f
  inventory-Changes a b c m f h =
      Changes->> (ensure_tag_in_inventory maas a) _ keep f (ensure_tag_in_inventory-Changes a) (
        Changes->> (ensure_tag_in_inventory maas b) _ keep f (ensure_tag_in_inventory-Changes b) (
          Changes->> (ensure_tag_in_inventory maas c) m keep f (ensure_tag_in_inventory-Changes c)
            h))

  -- Where tagging a host ends well, it carries the maintenance tag, the no-schedule tag and the tag
  -- of the operation; every other tag of it, and every other machine, is as before.
  pub ensure_host_maintenance_tags-tagged :
      (host op_id : String) (s s' : S)
      → ensure_host_maintenance_tags (new_tag_service maas) host op_id s ≡ (ok tt, s')
      → (id tag : String)
      → tagged s' id tag ≡ (if id == host && is_mark op_id tag then true else tagged s id tag)
  unfolding ensure_host_maintenance_tags new_tag_service
  ensure_host_maintenance_tags-tagged host op_id s s' h id tag =
      inventory-Changes tag_host_maintenance tag_host_no_schedule (build_op_tag op_id) _
        (marked host op_id) (marks-Changes host op_id) s s' h id tag
      ∙ ground arith

  -- Where clearing ends well, the tag of the operation is off the host and, where the caller asks
  -- for it, so are the maintenance and the no-schedule tag; every other tag, and every other
  -- machine, is as before.
  pub clear_host_maintenance_tags-tagged :
      (host op_id : String) (remove_maintenance : Bool) (s s' : S)
      → clear_host_maintenance_tags (new_tag_service maas) host op_id remove_maintenance s
        ≡ (ok tt, s')
      → (id tag : String)
      → tagged s' id tag ≡ (
          if id == host && (tag == build_op_tag op_id || remove_maintenance && is_mark op_id tag)
          then false
          else tagged s id tag)
  unfolding clear_host_maintenance_tags remove_host_marks new_tag_service
  clear_host_maintenance_tags-tagged host op_id false s s' h id tag =
      Changes->> (maas.unassign_tag (build_op_tag op_id) host) (λ s. (ok tt, s))
        (drop host (build_op_tag op_id)) keep (remove_tag-Changes host (build_op_tag op_id))
        (λ s s' e id tag. ap (λ r. tagged r.1 id tag) (sym e)) s s' h id tag
      ∙ ground arith
  clear_host_maintenance_tags-tagged host op_id true s s' h id tag =
      Changes->> (maas.unassign_tag (build_op_tag op_id) host) _ (drop host (build_op_tag op_id))
        (λ id tag b.
          drop host tag_host_maintenance id tag (drop host tag_host_no_schedule id tag b))
        (remove_tag-Changes host (build_op_tag op_id))
        (Changes->> (maas.unassign_tag tag_host_no_schedule host)
          (maas.unassign_tag tag_host_maintenance host) (drop host tag_host_no_schedule)
          (drop host tag_host_maintenance) (remove_tag-Changes host tag_host_no_schedule)
          (remove_tag-Changes host tag_host_maintenance))
        s s' h id tag
      ∙ ground arith
