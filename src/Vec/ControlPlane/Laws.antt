-- ===== src/Vec/ControlPlane/Laws.antt =====
-- When a control plane counts as stable.
use cluster_api_provider_maa.Base.{
  ℤ, ◌≡◌, ◌≢◌, ◌↔◌, refl, sym, ap, ◌∙◌, Bool, true, false, Option, none, some, arith, int_beq_iff,
  Bool-cases, inl, inr,
}
use cluster_api_provider_maa.Kube.{Kcp}
use cluster_api_provider_maa.Vec.ControlPlane.{is_true, same_replicas, is_kcp_stable}

-- All four counts are there and are one number.
abbrev pub IsSettled : Kcp → Type 0
IsSettled kcp =
    (n : ℤ) × (kcp.spec_replicas ≡ some n)
    × (kcp.ready_replicas ≡ some n)
    × (kcp.updated_replicas ≡ some n)
    × (kcp.status_replicas ≡ some n)

is_true_of_unset : (paused : Option Bool) → paused ≢ some true → is_true paused ≡ false
is_true_of_unset none h = refl
is_true_of_unset (some true) h = absurd (h refl)
is_true_of_unset (some false) h = refl

same_replicas_sound :
    (spec ready updated status : Option ℤ)
    → same_replicas spec ready updated status ≡ true
    → (n : ℤ) × (spec ≡ some n) × (ready ≡ some n) × (updated ≡ some n) × (status ≡ some n)
unfolding same_replicas
same_replicas_sound none _ _ _ h = cc h
same_replicas_sound (some a) none _ _ h = cc h
same_replicas_sound (some a) (some b) none _ h = cc h
same_replicas_sound (some a) (some b) (some c) none h = cc h
same_replicas_sound (some a) (some b) (some c) (some d) h = (
  a,
  refl,
  ground (arith, int_beq_iff b c, int_beq_iff c d, int_beq_iff d a),
  ground (arith, int_beq_iff c d, int_beq_iff d a),
  ground (arith, int_beq_iff d a),
)

same_replicas_of_one : (n : ℤ) → same_replicas (some n) (some n) (some n) (some n) ≡ true
unfolding same_replicas
same_replicas_of_one n = ground (arith, int_beq_iff n n)

-- A control plane counts as stable exactly if it is not paused and all four counts of replicas are
-- there and equal.
pub is_kcp_stable_iff :
    (kcp : Kcp) → (is_kcp_stable kcp ≡ true) ↔ (kcp.paused ≢ some true) × IsSettled kcp
unfolding is_kcp_stable
is_kcp_stable_iff kcp = (sound, complete)
  where
    sound : is_kcp_stable kcp ≡ true → (kcp.paused ≢ some true) × IsSettled kcp
    sound h = elim (Bool-cases (is_true kcp.paused)) [
      | inl e ↦ cc (rw e at h)
      | inr e ↦ (
        λ paused. cc (sym e ∙ ap is_true paused),
        same_replicas_sound kcp.spec_replicas kcp.ready_replicas kcp.updated_replicas
            kcp.status_replicas (rw e at h),
      )
    ]

    complete : (kcp.paused ≢ some true) × IsSettled kcp → is_kcp_stable kcp ≡ true
    complete (unpaused, (n, spec, ready, updated, status)) =
        rw (is_true_of_unset kcp.paused unpaused, spec, ready, updated, status)
          (same_replicas_of_one n)
