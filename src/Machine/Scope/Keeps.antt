-- ===== src/Machine/Scope/Keeps.antt =====
-- How programs on the machine in memory change it.
use cluster_api_provider_maa.Base.{
  String, Bool, true, false, ◌≡◌, ◌∙◌, ap, sym, some, M, Result, ok, err, ◌>>=◌, bind_result,
  wrapping, wrap_result, if◌then◌else◌,
}
use cluster_api_provider_maa.Status.{machine_state_deployed}
use cluster_api_provider_maa.Api.{MaasMachine}
use cluster_api_provider_maa.Machine.Scope.{Live, lift}

module _ {S : Type 0} where
  -- A call of a service leaves the machine and the DNS name as they are.
  pub lift-ok :
      {A : Type 0} (m : M S A) (l : Live S) {a : A} {l' : Live S}
      → lift m l ≡ (ok a, l')
      → (m l.world ≡ (ok a, l'.world)) × (l' ≡ record l { world = l'.world })
  lift-ok m l {a} {l'} h = (
    ap (λ p. (p.0, p.1.world)) h,
    sym (ap (λ p. p.1) h) ∙ ap (λ p. record l { world = p.1.world }) h,
  )

-- A machine that is ready is deployed in MAAS, and counts as provisioned.
abbrev pub IsWellFormed : MaasMachine → Type 0
IsWellFormed mm =
    mm.status.ready ≡ true
    → (mm.status.machine_state ≡ some machine_state_deployed) × (mm.status.provisioned ≡ some true)

-- A program keeps a property of the machine.
abbrev pub Keeps : {S A : Type 0} → (MaasMachine → Type 0) → M (Live S) A → Type 0
Keeps {S} P m = (l : Live S) → P l.maas_machine → P (m l).1.maas_machine

module _ {S : Type 0} (P : MaasMachine → Type 0) where
  bind_result-Keeps :
      {A B : Type 0} (r : Result A × Live S) (f : A → M (Live S) B)
      → ((a : A) → Keeps P (f a))
      → P r.1.maas_machine
      → P (bind_result r f).1.maas_machine
  bind_result-Keeps (ok a, l) f keeps p = keeps a l p
  bind_result-Keeps (err e, l) f keeps p = p

  pub >>=-Keeps :
      {A B : Type 0} (m : M (Live S) A) (f : A → M (Live S) B)
      → Keeps P m
      → ((a : A) → Keeps P (f a))
      → Keeps P (m >>= f)
  >>=-Keeps m f keeps next l p = bind_result-Keeps (m l) f next (keeps l p)

  wrap_result-Keeps :
      {A : Type 0} (text : String) (r : Result A × Live S)
      → P r.1.maas_machine
      → P (wrap_result text r).1.maas_machine
  wrap_result-Keeps text (ok a, l) p = p
  wrap_result-Keeps text (err e, l) p = p

  pub wrapping-Keeps :
      {A : Type 0} (text : String) (m : M (Live S) A) → Keeps P m → Keeps P (wrapping text m)
  wrapping-Keeps text m keeps l p = wrap_result-Keeps text (m l) (keeps l p)

  pub if-Keeps :
      {A : Type 0} (b : Bool) (m n : M (Live S) A)
      → Keeps P m
      → Keeps P n
      → Keeps P (λ l. if b then m l else n l)
  if-Keeps true m n keeps_m keeps_n = keeps_m
  if-Keeps false m n keeps_m keeps_n = keeps_n

  pub choice-Keeps :
      {A : Type 0} (b : Bool) (m n : M (Live S) A)
      → Keeps P m
      → Keeps P n
      → Keeps P (if b then m else n)
  choice-Keeps true m n keeps_m keeps_n = keeps_m
  choice-Keeps false m n keeps_m keeps_n = keeps_n
