-- ===== src/Vec/Scan/Laws.antt =====
-- What the scan for hosts under maintenance finds, and that a provider id is read back.
use Prim.Native.String.append
use mathlib.Core.Path.{ap₂, subst}
use cluster_api_provider_maa.Base.{
  ◌≡◌, ◌≢◌, ◌∙◌, ap, sym, refl, ◌⊎◌, inl, inr, String, ◌<>◌, Bool, true, false, ◌||◌, List, [], ◌∷◌,
  ◌++◌, none, some, arith, ◌==◌, ==_iff, Bool-cases, any, All, Any, deref, if◌then◌else◌,
  has_prefix, trim_prefix, has_prefix-trim_prefix, M, return, wrapping, ◌>>=◌,
}
use cluster_api_provider_maa.Services.{Maas, Runtime, Codec}
use cluster_api_provider_maa.Kube.{Kube, CapiMachine, Cluster, ClusterApi}
use cluster_api_provider_maa.Maintenance.Tags.{
  tag_host_maintenance, tag_host_no_schedule, tag_host_op_prefix, build_op_tag,
  has_prefix-build_op_tag, trim_prefix-build_op_tag,
}
use cluster_api_provider_maa.Vec.Scan.{
  provider_id_of, last_part, extract_system_id_from_provider_id, scan_host_tags, op_id_of_scan,
  maintenance_op_id, CpMachineOnMaintenanceHost, check_cp_machine, check_maas_machine,
  check_vm_host, check_host, note_host, get_vm_host_system_id, parent_of, add_found,
  check_cp_machines, find_cp_machines_on_maintenance_hosts,
}

last_part-append : (p s : String) → last_part s ≡ none → last_part (p <> ("/" <> s)) ≡ some s
unfolding last_part
last_part-append String.[] s h = rw (append.nil, append.cons, append.nil) (ground arith)
last_part-append (String.◌∷◌ c p) s h = rw append.cons (ground (arith, last_part-append p s h))

last_part_of_behind :
    (p s : String) {part : String} → last_part s ≡ some part → last_part (p <> s) ≡ some part
unfolding last_part
last_part_of_behind String.[] s h = rw append.nil h
last_part_of_behind (String.◌∷◌ c p) s h =
    rw append.cons (ground (arith, last_part_of_behind p s h))

-- The system id that is put into a provider id is read back, whatever the zone is, where the system
-- id has no slash.
pub extract_system_id_from_provider_id-provider_id_of :
    (system_id availability_zone : String)
    → last_part system_id ≡ none
    → extract_system_id_from_provider_id (provider_id_of system_id availability_zone) ≡ system_id
unfolding extract_system_id_from_provider_id provider_id_of
extract_system_id_from_provider_id-provider_id_of system_id zone h = ap deref (
    last_part_of_behind "maas:///" (zone <> ("/" <> system_id)) (last_part-append zone system_id h))

any-Any :
    (tag : String) (tags : List String) → any (λ t. t == tag) tags ≡ true → Any (λ t. t ≡ tag) tags
any-Any tag [] h = cc h
any-Any tag (t ∷ tags) h = ground (arith, ==_iff t tag, any-Any tag tags)

scan_host_tags-maintenance :
    (tags : List String) (m n : Bool) (o : String)
    → (scan_host_tags tags (m, n, o)).0 ≡ any (λ t. t == tag_host_maintenance) tags || m
unfolding scan_host_tags
scan_host_tags-maintenance [] m n o = refl
scan_host_tags-maintenance (t ∷ tags) m n o = scan_host_tags-maintenance tags _ _ _ ∙ ground arith

scan_host_tags-no_schedule :
    (tags : List String) (m n : Bool) (o : String)
    → (scan_host_tags tags (m, n, o)).1 ≡ any (λ t. t == tag_host_no_schedule) tags || n
unfolding scan_host_tags
scan_host_tags-no_schedule [] m n o = refl
scan_host_tags-no_schedule (t ∷ tags) m n o = scan_host_tags-no_schedule tags _ _ _ ∙ ground arith

scan_host_tags-op_id :
    (tags : List String) (m n : Bool) (o : String)
    → (Any (λ t. t ≡ build_op_tag (scan_host_tags tags (m, n, o)).2) tags)
      ⊎ ((scan_host_tags tags (m, n, o)).2 ≡ o)
unfolding scan_host_tags build_op_tag
scan_host_tags-op_id [] m n o = inr refl
scan_host_tags-op_id (t ∷ tags) m n o =
    elim (scan_host_tags-op_id tags (t == tag_host_maintenance || m)
      (t == tag_host_no_schedule || n)
      (if has_prefix t tag_host_op_prefix then trim_prefix t tag_host_op_prefix else o)) [
        | inl later ↦ inl (inr later)
        | inr e ↦ elim (Bool-cases (has_prefix t tag_host_op_prefix)) [
          | inl p ↦
              let kept : (if has_prefix t tag_host_op_prefix
                    then trim_prefix t tag_host_op_prefix
                    else o)
                  ≡ trim_prefix t tag_host_op_prefix =
                rw p refl in
              inl (
                inl (
                  has_prefix-trim_prefix tag_host_op_prefix t p
                  ∙ ap (λ o. tag_host_op_prefix <> o) (sym (e ∙ kept))))
          | inr p ↦
              let kept : (if has_prefix t tag_host_op_prefix
                    then trim_prefix t tag_host_op_prefix
                    else o)
                  ≡ o =
                rw p refl in
              inr (e ∙ kept)
        ]
      ]

op_id_of_scan-some :
    (found : Bool × Bool × String) (op_id : String)
    → op_id_of_scan found ≡ some op_id
    → (found.0 ≡ true) × (found.1 ≡ true) × (found.2 ≡ op_id) × (op_id ≢ "")
unfolding op_id_of_scan
op_id_of_scan-some (m, n, o) op_id h =
    (ground arith, ground arith, ground arith, λ e. ground (arith, ==_iff o ""))

-- A host counts as under maintenance only if it carries the maintenance tag, the no-schedule tag
-- and the tag of the operation whose id is found, which is not empty.
pub maintenance_op_id-Any :
    (tags : List String) (op_id : String)
    → maintenance_op_id tags ≡ some op_id
    → Any (λ t. t ≡ tag_host_maintenance) tags
      × Any (λ t. t ≡ tag_host_no_schedule) tags
      × Any (λ t. t ≡ build_op_tag op_id) tags
      × (op_id ≢ "")
unfolding maintenance_op_id
maintenance_op_id-Any tags op_id h =
    let (m, n, o, named) = op_id_of_scan-some (scan_host_tags tags (false, false, "")) op_id h in
    (
      any-Any tag_host_maintenance tags
          (ground (arith, scan_host_tags-maintenance tags false false "")),
      any-Any tag_host_no_schedule tags
          (ground (arith, scan_host_tags-no_schedule tags false false "")),
      op_id_found o (scan_host_tags-op_id tags false false ""),
      named,
    )
  where
    op_id_found :
        (scan_host_tags tags (false, false, "")).2 ≡ op_id
        → (Any (λ t. t ≡ build_op_tag (scan_host_tags tags (false, false, "")).2) tags)
          ⊎ ((scan_host_tags tags (false, false, "")).2 ≡ "")
        → Any (λ t. t ≡ build_op_tag op_id) tags
    op_id_found o (inl found) = subst (λ x. Any (λ t. t ≡ build_op_tag x) tags) o found
    op_id_found o (inr e) =
        absurd ((op_id_of_scan-some (scan_host_tags tags (false, false, "")) op_id h).3 (sym o ∙ e))

scan_host_tags_of_no_op :
    (tags : List String) (m n : Bool) (o : String)
    → All (λ t. has_prefix t tag_host_op_prefix ≡ false) tags
    → (scan_host_tags tags (m, n, o)).2 ≡ o
unfolding scan_host_tags
scan_host_tags_of_no_op [] m n o h = refl
scan_host_tags_of_no_op (t ∷ tags) m n o h = scan_host_tags_of_no_op tags _ _ _ h.1 ∙ rw h.0 refl

scan_host_tags_of_op_last :
    (before after : List String) (op_id : String) (m n : Bool) (o : String)
    → All (λ t. has_prefix t tag_host_op_prefix ≡ false) after
    → (scan_host_tags (before ++ build_op_tag op_id ∷ after) (m, n, o)).2 ≡ op_id
unfolding scan_host_tags
scan_host_tags_of_op_last [] after op_id m n o h =
    scan_host_tags_of_no_op after _ _ _ h
    ∙ rw (has_prefix-build_op_tag op_id, trim_prefix-build_op_tag op_id) refl
scan_host_tags_of_op_last (t ∷ before) after op_id m n o h =
    scan_host_tags_of_op_last before after op_id _ _ _ h

op_id_of_scan_lem :
    (found : Bool × Bool × String) (op_id : String)
    → found.0 ≡ true
    → found.1 ≡ true
    → found.2 ≡ op_id
    → op_id ≢ ""
    → op_id_of_scan found ≡ some op_id
unfolding op_id_of_scan
op_id_of_scan_lem (m, n, o) op_id hm hn ho named = rw (hm, hn, ho) (ground (arith, ==_iff op_id ""))

-- A host that carries the maintenance tag, the no-schedule tag and the tag that is built for an
-- operation id that is not empty, with no operation tag behind it, counts as under maintenance of
-- that operation.
pub maintenance_op_id-build_op_tag :
    (before after : List String) (op_id : String)
    → op_id ≢ ""
    → All (λ t. has_prefix t tag_host_op_prefix ≡ false) after
    → any (λ t. t == tag_host_maintenance) (before ++ build_op_tag op_id ∷ after) ≡ true
    → any (λ t. t == tag_host_no_schedule) (before ++ build_op_tag op_id ∷ after) ≡ true
    → maintenance_op_id (before ++ build_op_tag op_id ∷ after) ≡ some op_id
unfolding maintenance_op_id
maintenance_op_id-build_op_tag before after op_id named last maintenance no_schedule =
    op_id_of_scan_lem _ op_id
      (scan_host_tags-maintenance (before ++ build_op_tag op_id ∷ after) false false ""
        ∙ rw maintenance refl)
      (scan_host_tags-no_schedule (before ++ build_op_tag op_id ∷ after) false false ""
        ∙ rw no_schedule refl)
      (scan_host_tags_of_op_last before after op_id false false "" last) named

module _ {S : Type 0} (c : Codec) (k : Kube S) (r : Runtime S) (api api' : ClusterApi S)
    (maas : Maas S) where
  check_cp_machine_same :
      (namespace : String) (machine : CapiMachine)
      → check_cp_machine c k r api' maas namespace machine
        ≡ check_cp_machine c k r api maas namespace machine
  unfolding check_cp_machine check_maas_machine check_vm_host check_host note_host
      get_vm_host_system_id parent_of
  check_cp_machine_same namespace machine = refl

  check_cp_machines_same :
      (namespace : String) (machines : List CapiMachine)
      → check_cp_machines c k r api' maas namespace machines
        ≡ check_cp_machines c k r api maas namespace machines
  unfolding check_cp_machines add_found
  check_cp_machines_same namespace [] = refl
  check_cp_machines_same namespace (machine ∷ machines) =
      ap₂ (λ found infos. found >>= λ o. infos >>= λ os. return (add_found c k r api maas o os))
        (check_cp_machine_same namespace machine) (check_cp_machines_same namespace machines)

  -- The scan asks the cluster for nothing but the list of its machines.
  pub find_cp_machines_same :
      (cluster : Cluster)
      → api'.list_cp_machines ≡ api.list_cp_machines
      → find_cp_machines_on_maintenance_hosts c k r api' maas cluster
        ≡ find_cp_machines_on_maintenance_hosts c k r api maas cluster
  unfolding find_cp_machines_on_maintenance_hosts
  find_cp_machines_same cluster same =
      ap₂
        (λ (list : String → String → M S (List CapiMachine))
            (check : List CapiMachine → M S (List CpMachineOnMaintenanceHost)).
          wrapping "failed to list machines" (list cluster.namespace cluster.name) >>= check)
        same (λ i machines. check_cp_machines_same cluster.namespace machines i)
