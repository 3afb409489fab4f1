-- ===== src/Base/Text.antt =====
-- Go's `strings.HasPrefix`, `strings.TrimPrefix` and the like, by recursion on the text.
use Prim.Native.Char.{Char, code}
use Prim.Native.Nat.{ℕ, zero, suc}
use Prim.Native.String.{String, ◌++◌}
use Prim.Native.String.append
use mathlib.Core.Path.{◌≡◌, refl, ap, ap₂, sym}
use mathlib.Core.Logic.{inl, inr}
use text.Mathlib.TextEquality.{Char-path}
use mathlib.Core.Bool.{Bool, true, false}
use mathlib.Core.Option.{Option, none, some}
use native.Mathlib.Omega.{arith}
use cluster_api_provider_maa.Base.Tests.{
  leb, nat_beq, nat_beq_iff, Bool-cases, Option-cases, if◌then◌else◌,
}

-- `strings.CutPrefix`: the rest of the text behind the prefix.
unfoldable pub cut_prefix : String → String → Option String
cut_prefix String.[] s = some s
cut_prefix (String.◌∷◌ c p) String.[] = none
cut_prefix (String.◌∷◌ c p) (String.◌∷◌ d s) =
    let rest = cut_prefix p s in if nat_beq (code c) (code d) then rest else none

abbrev is_some : Option String → Bool
is_some none = false
is_some (some _) = true

unfoldable pub has_prefix : String → String → Bool
unfolding cut_prefix
has_prefix s p = is_some (cut_prefix p s)

abbrev or_text : Option String → String → String
or_text none s = s
or_text (some r) s = r

unfoldable pub trim_prefix : String → String → String
unfolding cut_prefix
trim_prefix s p = or_text (cut_prefix p s) s

pub cut_prefix-append : (p s : String) → cut_prefix p (p ++ s) ≡ some s
unfolding cut_prefix
cut_prefix-append String.[] s = rw append.nil
cut_prefix-append (String.◌∷◌ c p) s = rw append.cons (ground (arith, cut_prefix-append p s))

pub has_prefix-append : (p s : String) → has_prefix (p ++ s) p ≡ true
unfolding has_prefix
has_prefix-append p s = rw cut_prefix-append

pub trim_prefix-append : (p s : String) → trim_prefix (p ++ s) p ≡ s
unfolding trim_prefix
trim_prefix-append p s = rw cut_prefix-append

-- A text that has the prefix is the prefix and the rest.
pub cut_prefix_sound : (p s : String) {r : String} → cut_prefix p s ≡ some r → s ≡ p ++ r
unfolding cut_prefix
cut_prefix_sound String.[] s h = rw append.nil (ground arith)
cut_prefix_sound (String.◌∷◌ c p) String.[] h = cc
cut_prefix_sound (String.◌∷◌ c p) (String.◌∷◌ d s) h =
    elim (Bool-cases (nat_beq (code c) (code d))) [
      | inl same ↦ rw append.cons (
          ap₂ String.◌∷◌ (sym (Char-path c d ((nat_beq_iff _ _).0 same)))
            (cut_prefix_sound p s (ground arith)))
      | inr differ ↦ ground arith
    ]

-- So it is the prefix and what is left without it.
pub has_prefix-trim_prefix : (p s : String) → has_prefix s p ≡ true → s ≡ p ++ trim_prefix s p
unfolding has_prefix trim_prefix
has_prefix-trim_prefix p s h = elim (Option-cases (cut_prefix p s)) [
  | inl e ↦ cc (rw e at h)
  | inr (r, e) ↦ rw e (cut_prefix_sound p s e)
]

-- `strings.Contains`
unfoldable pub contains_text : String → String → Bool
unfolding has_prefix
contains_text String.[] t = has_prefix String.[] t
contains_text (String.◌∷◌ c s) t =
    let rest = contains_text s t in if has_prefix (String.◌∷◌ c s) t then true else rest

-- The head of a text is put before the first of two parts.
abbrev before_cut : Char → Option (String × String) → Option (String × String)
before_cut c none = none
before_cut c (some (s, t)) = some (String.◌∷◌ c s, t)

-- `strings.Cut` at a character: the parts before and behind its first place.
unfoldable pub cut_at : ℕ → String → Option (String × String)
cut_at sep String.[] = none
cut_at sep (String.◌∷◌ c s) =
    let rest = cut_at sep s in if nat_beq (code c) sep then some ("", s) else before_cut c rest

before_cut-none : (c : Char) (o : Option (String × String)) → before_cut c o ≡ none → o ≡ none
before_cut-none c none h = refl
before_cut-none c (some p) h = cc h

-- The text cut at the separator that was put between two parts, where the first has none.
pub cut_at-append :
    (c : Char) (p s : String)
    → cut_at (code c) p ≡ none
    → cut_at (code c) (p ++ String.◌∷◌ c s) ≡ some (p, s)
unfolding cut_at
cut_at-append c String.[] s h = rw append.nil (ground (arith, nat_beq_iff (code c) (code c)))
cut_at-append c (String.◌∷◌ d p) s h =
    rw append.cons (ground (arith, cut_at-append c p s, before_cut-none d (cut_at (code c) p)))

before_cut-some :
    (c : Char) (o : Option (String × String)) (p q : String)
    → before_cut c o ≡ some (p, q)
    → (r : String) × (o ≡ some (r, q)) × (p ≡ String.◌∷◌ c r)
before_cut-some c none p q h = cc h
before_cut-some c (some (r, t)) p q h = (r, ground (arith), ground (arith))

-- And putting the separator back between the parts gives the text.
pub cut_at_sound :
    (c : Char) (s p q : String) → cut_at (code c) s ≡ some (p, q) → s ≡ p ++ String.◌∷◌ c q
unfolding cut_at
cut_at_sound c String.[] p q h = cc h
cut_at_sound c (String.◌∷◌ d s) p q h = elim (Bool-cases (nat_beq (code d) (code c))) [
  | inl same ↦
      (let same_char = Char-path d c ((nat_beq_iff _ _).0 same) in
        let (e, e') = cut_parts (rw same at h) in
        rw (sym e) (rw append.nil (ap₂ String.◌∷◌ same_char e')))
  | inr differ ↦
      (let (r, e, e') = before_cut-some d (cut_at (code c) s) p q (ground arith) in
        rw e' (rw append.cons (ap (String.◌∷◌ d) (cut_at_sound c s r q e))))
]
  where
    cut_parts :
        {a b x y : String}
        → ◌≡◌ {A = Option (String × String)} (some (a, b)) (some (x, y))
        → (a ≡ x) × (b ≡ y)
    cut_parts h = (ground arith, ground arith)

text_length : String → ℕ
text_length String.[] = 0
text_length (String.◌∷◌ c s) = suc (text_length s)

-- `s[len(s)-n:]`, where the text has at least `n` characters.
unfoldable pub keep_last : ℕ → String → String
unfolding text_length
keep_last n String.[] = ""
keep_last n (String.◌∷◌ c s) =
    let rest = keep_last n s in if leb (suc (text_length s)) n then String.◌∷◌ c s else rest

-- The first `n` characters, or all, where there are fewer.
unfoldable pub keep_first : ℕ → String → String
keep_first zero s = ""
keep_first (suc n) String.[] = ""
keep_first (suc n) (String.◌∷◌ c s) = String.◌∷◌ c (keep_first n s)
