-- ===== src/Base/Program.antt =====
-- Go errors as values, and programs that call services: functions on a state of the services,
-- which return the new state and a result.
use Prim.Native.String.{String, ◌++◌}
use mathlib.Core.Path.{◌≡◌, refl, ap}
use mathlib.Core.Bool.{Bool, true, false}
use cluster_api_provider_maa.Base.Tests.{◌==◌}

-- Why an API refused a call, as far as the program asks.
pub data Reason : Type 0 where
  not_found already_exists bad_request other : Reason

-- `wrap` is `errors.Wrap` and `fmt.Errorf` with `%w`, which keep the cause; `sentinel` is an error
-- that a package names: the name and the text.
pub data Error : Type 0 where
  api : Reason → String → Error
  message : String → Error
  sentinel : String → String → Error
  wrap : String → Error → Error

abbrev pub is_not_found : Error → Bool
is_not_found (api not_found _) = true
is_not_found (api _ _) = false
is_not_found (message _) = false
is_not_found (sentinel _ _) = false
is_not_found (wrap _ e) = is_not_found e

abbrev pub is_already_exists : Error → Bool
is_already_exists (api already_exists _) = true
is_already_exists (api _ _) = false
is_already_exists (message _) = false
is_already_exists (sentinel _ _) = false
is_already_exists (wrap _ e) = is_already_exists e

-- `errors.Is` for an error that a package names.
unfoldable pub errors_is : Error → String → Bool
errors_is (api _ _) name = false
errors_is (message _) name = false
errors_is (sentinel own _) name = own == name
errors_is (wrap _ e) name = errors_is e name

-- `err.Error()`
unfoldable pub error_text : Error → String
error_text (api _ text) = text
error_text (message text) = text
error_text (sentinel _ text) = text
error_text (wrap text e) = text ++ (": " ++ error_text e)

pub data Result {ℓ} (A : Type ℓ) : Type ℓ where
  ok : A → Result A
  err : Error → Result A

-- A program over services with state `S`.
abbrev pub M : Type 0 → Type 0 → Type 0
M S A = S → Result A × S

value_or : {A : Type 0} → A → Result A → A
value_or a (ok b) = b
value_or a (err e) = a

module _ {S : Type 0} where
  abbrev pub return : {A : Type 0} → A → M S A
  return a s = (ok a, s)

  abbrev pub fail : {A : Type 0} → Error → M S A
  fail e s = (err e, s)

  abbrev pub bind_result : {A B : Type 0} → Result A × S → (A → M S B) → Result B × S
  bind_result (ok a, s) f = f a s
  bind_result (err e, s) f = (err e, s)

  infixl 5 ◌>>=◌ ◌>>◌
  abbrev pub ◌>>=◌ : {A B : Type 0} → M S A → (A → M S B) → M S B
  ◌>>=◌ m f s = bind_result (m s) f

  abbrev pub ◌>>◌ : {A B : Type 0} → M S A → M S B → M S B
  ◌>>◌ m k s = bind_result (m s) (λ _. k)

  -- The result as a value, for code that looks at the error itself.
  abbrev pub attempt : {A : Type 0} → M S A → M S (Result A)
  attempt m s = (ok (m s).0, (m s).1)

  -- `return ..., errors.Wrap(err, text)`.
  abbrev pub wrap_result : {A : Type 0} → String → Result A × S → Result A × S
  wrap_result text (ok a, s) = (ok a, s)
  wrap_result text (err e, s) = (err (wrap text e), s)

  abbrev pub wrapping : {A : Type 0} → String → M S A → M S A
  wrapping text m s = wrap_result text (m s)

  bind_result-ok :
      {A B : Type 0} (r : Result A × S) (f : A → M S B) {b : B} {s' : S}
      → bind_result r f ≡ (ok b, s')
      → (a : A) × (t : S) × (r ≡ (ok a, t)) × (f a t ≡ (ok b, s'))
  bind_result-ok (ok a, t) f h = (a, t, refl, h)
  bind_result-ok (err e, t) f h = cc (ap (λ r. r.0) h)

  -- A program that ends well ends well in each of its steps.
  pub >>=-ok :
      {A B : Type 0} (m : M S A) (f : A → M S B) (s : S) {b : B} {s' : S}
      → ◌>>=◌ m f s ≡ (ok b, s')
      → (a : A) × (t : S) × (m s ≡ (ok a, t)) × (f a t ≡ (ok b, s'))
  >>=-ok m f s h = bind_result-ok (m s) f h

  -- The value and the state of a program that ends well.
  pub ok_parts :
      {A : Type 0} {a b : A} {s t : S}
      → ◌≡◌ {A = Result A × S} (ok a, s) (ok b, t)
      → (a ≡ b) × (s ≡ t)
  unfolding value_or
  ok_parts {A} {a} h = (ap (λ r. value_or a r.0) h, ap (λ r. r.1) h)

  wrap_result-ok :
      {A : Type 0} (text : String) (r : Result A × S) {a : A} {s : S}
      → wrap_result text r ≡ (ok a, s)
      → r ≡ (ok a, s)
  wrap_result-ok text (ok b, t) h = h
  wrap_result-ok text (err e, t) h = cc (ap (λ r. r.0) h)

  pub wrapping-ok :
      {A : Type 0} (text : String) (m : M S A) (s : S) {a : A} {t : S}
      → wrapping text m s ≡ (ok a, t)
      → m s ≡ (ok a, t)
  wrapping-ok text m s h = wrap_result-ok text (m s) h
