-- ===== src/ProviderId/Laws.antt =====
-- That a provider id that the machine scope sets is parsed to the system id it was made of.
use Prim.Native.Char.{Char, code}
use Prim.Native.String.append
use text.Mathlib.TextLemmas.{append_assoc}
use cluster_api_provider_maa.Base.{
  ◌≡◌, ◌≢◌, ◌∙◌, ℕ, ap, ap₂, sym, refl, inl, inr, String, ◌<>◌, true, false, none, some, arith,
  ◌==◌, ==_iff, nat_beq, Option-cases, cut_at, cut_prefix, cut_at-append, cut_prefix-append, ok,
}
use cluster_api_provider_maa.Vec.Scan.{
  provider_id_of, last_part, extract_system_id_from_provider_id,
}
use cluster_api_provider_maa.Vec.Scan.Laws.{extract_system_id_from_provider_id-provider_id_of}
use cluster_api_provider_maa.ProviderId.{
  ends_without_slash, matches_at_colon, after_slashes, before_colon, provider_id_regex, validate,
  parts_of, new_provider_id,
}

-- A text without a separator has a head and a rest without it.
cut_at-none :
    (sep : ℕ) (c : Char) (s : String)
    → cut_at sep (String.◌∷◌ c s) ≡ none
    → (nat_beq (code c) sep ≡ false) × (cut_at sep s ≡ none)
unfolding cut_at
cut_at-none sep c s h = (
  ground arith,
  elim (Option-cases (cut_at sep s)) [ inl e ↦ e | inr ((p, q), e) ↦ ground arith ],
)

last_part-none :
    (c : Char) (s : String)
    → last_part (String.◌∷◌ c s) ≡ none
    → (nat_beq (code c) b'/' ≡ false) × (last_part s ≡ none)
unfolding last_part
last_part-none c s h = elim (Option-cases (last_part s)) [
  | inl e ↦ (ground arith, e)
  | inr (p, e) ↦ ground arith
]

ends_without_slash-cons :
    (c : Char) (s : String)
    → nat_beq (code c) 10 ≡ false
    → ends_without_slash s ≡ true
    → ends_without_slash (String.◌∷◌ c s) ≡ true
unfolding ends_without_slash
ends_without_slash-cons c String.[] line h = cc h
ends_without_slash-cons c (String.◌∷◌ d s) line h = ground arith

-- One line that has no slash, and is not empty.
ends_without_slash-part :
    (c : Char) (s : String)
    → last_part (String.◌∷◌ c s) ≡ none
    → cut_at 10 (String.◌∷◌ c s) ≡ none
    → ends_without_slash (String.◌∷◌ c s) ≡ true
unfolding ends_without_slash
ends_without_slash-part c String.[] h line = rw ((last_part-none c String.[] h).0) refl
ends_without_slash-part c (String.◌∷◌ d s) h line =
    ends_without_slash-cons c (String.◌∷◌ d s) (cut_at-none 10 c _ line).0
      (ends_without_slash-part d s (last_part-none c _ h).1 (cut_at-none 10 c _ line).1)

ends_without_slash-append :
    (p s : String)
    → cut_at 10 p ≡ none
    → ends_without_slash s ≡ true
    → ends_without_slash (p <> s) ≡ true
ends_without_slash-append String.[] s line h = rw append.nil h
ends_without_slash-append (String.◌∷◌ c p) s line h = rw append.cons (
    ends_without_slash-cons c (p <> s) (cut_at-none 10 c p line).0
      (ends_without_slash-append p s (cut_at-none 10 c p line).1 h))

-- What is behind the scheme of a provider id.
abbrev path_of : String → String → String
path_of system_id zone = zone <> ("/" <> system_id)

path_of-ends_without_slash :
    (system_id zone : String)
    → system_id ≢ ""
    → last_part system_id ≡ none
    → cut_at 10 system_id ≡ none
    → cut_at 10 zone ≡ none
    → ends_without_slash (path_of system_id zone) ≡ true
unfolding cut_at
path_of-ends_without_slash String.[] zone named h line zone_line = absurd (named refl)
path_of-ends_without_slash (String.◌∷◌ c s) zone named h line zone_line =
    ends_without_slash-append zone ("/" <> (String.◌∷◌ c s)) zone_line
      (ends_without_slash-append "/" (String.◌∷◌ c s) refl (ends_without_slash-part c s h line))

cut_at-scheme : (s : String) → cut_at b':' ("maas:///" <> s) ≡ some ("maas", "///" <> s)
unfolding cut_at
cut_at-scheme s =
    ap (cut_at b':')
      (append_assoc "maas" ":///" s ∙ ap (λ t. "maas" <> t) (append.cons ":" "///" s))
    ∙ cut_at-append ":" "maas" ("///" <> s) refl

matches_at_colon-slashes :
    (s : String) → ends_without_slash s ≡ true → matches_at_colon (some ("maas", "///" <> s)) ≡ true
unfolding matches_at_colon ◌==◌ cut_at
matches_at_colon-slashes s h =
    ap after_slashes
      (ap (cut_prefix "//") (append_assoc "//" "/" s) ∙ cut_prefix-append "//" ("/" <> s))
    ∙ ends_without_slash-append "/" s (refl) h

new_provider_id-matching :
    (id : String)
    → id ≢ ""
    → provider_id_regex id ≡ true
    → validate (parts_of id) ≡ true
    → new_provider_id id ≡ ok (parts_of id)
unfolding new_provider_id
new_provider_id-matching id named matches valid = ground (arith, ==_iff id "")

parts_of-provider_id_of :
    (system_id zone : String)
    → last_part system_id ≡ none
    → parts_of (provider_id_of system_id zone)
      ≡ record { original = provider_id_of system_id zone; cloud_provider = "maas"; id = system_id }
unfolding parts_of provider_id_of before_colon extract_system_id_from_provider_id
parts_of-provider_id_of system_id zone h =
    let provider = ap before_colon (cut_at-scheme (zone <> ("/" <> system_id))) in
    let last = extract_system_id_from_provider_id-provider_id_of system_id zone h in
    ap₂ (λ c i. record { original = provider_id_of system_id zone; cloud_provider = c; id = i })
      provider last

-- The provider id that is made of a zone and a system id is parsed into the provider maas and that
-- system id, where both are one line and the system id is not empty and has no slash.
pub new_provider_id-provider_id_of :
    (system_id zone : String)
    → system_id ≢ ""
    → last_part system_id ≡ none
    → cut_at 10 system_id ≡ none
    → cut_at 10 zone ≡ none
    → new_provider_id (provider_id_of system_id zone)
      ≡ ok (record {
        original = provider_id_of system_id zone;
        cloud_provider = "maas";
        id = system_id;
      })
unfolding provider_id_of validate ◌==◌ provider_id_regex
new_provider_id-provider_id_of system_id zone named h line zone_line =
    let parts = parts_of-provider_id_of system_id zone h in
    new_provider_id-matching (provider_id_of system_id zone)
      (λ e. cc (sym (append.cons "m" "aas:///" _) ∙ e))
      (ap matches_at_colon (cut_at-scheme (zone <> ("/" <> system_id)))
        ∙ matches_at_colon-slashes _
            (path_of-ends_without_slash system_id zone named h line zone_line))
      (ap validate parts ∙ ground (arith, ==_iff system_id ""))
    ∙ ap ok parts
