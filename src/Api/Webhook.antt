-- ===== src/Api/Webhook.antt =====
-- The admission webhooks of api/v1beta1: which updates of a resource are refused. The webhooks of
-- creation and deletion admit everything, and the defaulters change nothing. The words of a refusal
-- are without the old and the new value.
use cluster_api_provider_maa.Base.{
  ℕ, ◌≡◌, ◌↔◌, refl, String, Option, none, some, arith, ◌==◌, ==_iff, Bool-cases, inl, inr, ◌∙◌,
  nat_beq, if◌then◌else◌,
}
use cluster_api_provider_maa.Api.{MaasMachineSpec, MaasMachine, MaasMachineTemplate, MaasCluster}

-- The answer of a webhook. A nil pointer that is dereferenced is a panic.
pub data Answer : Type 0 where
  allowed : Answer
  bad_request : String → Answer
  panic : Answer

-- `if *new != *old { return BadRequest }`, and the checks that follow.
same_number : String → Option ℕ → Option ℕ → Answer → Answer
same_number text none old rest = panic
same_number text (some n) none rest = panic
same_number text (some n) (some o) rest = if nat_beq n o then rest else bad_request text

-- The checks of a machine's spec, which the webhooks of the machine and the template share in all
-- but the words of the refusal.
validate_spec : String → String → String → MaasMachineSpec → MaasMachineSpec → Answer
unfolding same_number
validate_spec image_text cpu_text memory_text old new =
    if new.image == old.image
    then same_number cpu_text new.min_cpu old.min_cpu
        (same_number memory_text new.min_memory_in_mb old.min_memory_in_mb allowed)
    else bad_request image_text

unfoldable pub validate_machine_update : MaasMachine → MaasMachine → Answer
unfolding validate_spec
validate_machine_update old new =
    validate_spec "maas machine image change is not allowed"
      "maas machine min cpu count change is not allowed"
      "maas machine min memory change is not allowed" old.spec new.spec

unfoldable pub validate_template_update : MaasMachineTemplate → MaasMachineTemplate → Answer
unfolding validate_spec
validate_template_update old new =
    validate_spec "maas machine template image change is not allowed"
      "maas machine template min cpu count change is not allowed"
      "maas machine template min memory change is not allowed" old.spec new.spec

unfoldable pub validate_cluster_update : MaasCluster → MaasCluster → Answer
validate_cluster_update old new =
    if new.dns_domain == old.dns_domain
    then allowed
    else bad_request "changing cluster DNS Domain not allowed"

-- The number that a pointer points to.
abbrev Holds : Option ℕ → Option ℕ → Type 0
Holds new old = (n : ℕ) × (new ≡ some n) × (old ≡ some n)

-- What the machine's webhook protects.
abbrev pub SameShape : MaasMachineSpec → MaasMachineSpec → Type 0
SameShape old new =
    (new.image ≡ old.image)
    × Holds new.min_cpu old.min_cpu
    × Holds new.min_memory_in_mb old.min_memory_in_mb

same_number-allowed :
    (text : String) (new old : Option ℕ) (rest : Answer)
    → same_number text new old rest ≡ allowed
    → Holds new old × (rest ≡ allowed)
unfolding same_number
same_number-allowed text none old rest h = cc
same_number-allowed text (some n) none rest h = cc
same_number-allowed text (some n) (some o) rest h = ((n, refl, ground arith), ground arith)

same_number_of_Holds :
    (text : String) (new old : Option ℕ) (rest : Answer)
    → Holds new old
    → same_number text new old rest ≡ rest
unfolding same_number
same_number_of_Holds text new old rest h = ground arith

validate_spec_iff :
    (image cpu memory : String) (old new : MaasMachineSpec)
    → (validate_spec image cpu memory old new ≡ allowed) ↔ SameShape old new
unfolding validate_spec
validate_spec_iff image cpu memory old new = (sound, complete)
  where
    sound : validate_spec image cpu memory old new ≡ allowed → SameShape old new
    sound h = elim (Bool-cases (new.image == old.image)) [
      | inl e ↦
          let (cpus, rest) = same_number-allowed cpu new.min_cpu old.min_cpu _ (rw e at h) in
          let (memories, end) =
            same_number-allowed memory new.min_memory_in_mb old.min_memory_in_mb _ rest in
          ((==_iff new.image old.image).0 e, cpus, memories)
      | inr e ↦ cc (rw e at h)
    ]

    complete : SameShape old new → validate_spec image cpu memory old new ≡ allowed
    complete (images, cpus, memories) = rw ((==_iff new.image old.image).1 images) (
        same_number_of_Holds cpu new.min_cpu old.min_cpu _ cpus
        ∙ same_number_of_Holds memory new.min_memory_in_mb old.min_memory_in_mb _ memories)

-- An update of a machine is admitted exactly if it keeps the image, the CPU count and the memory,
-- and both numbers are given on both sides.
pub validate_machine_update_iff :
    (old new : MaasMachine)
    → (validate_machine_update old new ≡ allowed) ↔ SameShape old.spec new.spec
unfolding validate_machine_update
validate_machine_update_iff old new = validate_spec_iff _ _ _ old.spec new.spec

-- An update of a template is admitted exactly if it keeps the image, the CPU count and the memory,
-- and both numbers are given on both sides.
validate_template_update_iff :
    (old new : MaasMachineTemplate)
    → (validate_template_update old new ≡ allowed) ↔ SameShape old.spec new.spec
unfolding validate_template_update
validate_template_update_iff old new = validate_spec_iff _ _ _ old.spec new.spec
