-- ===== src/Maintenance/Sanitize/Laws.antt =====
-- What `SanitizeID` returns: a token of at most 63 runes, and itself when it is given a token.
use Prim.Native.Char.{code}
use cluster_api_provider_maa.Base.{
  if◌then◌else◌, ℕ, zero, suc, ◌<◌, sym, ◌==◌, Bool-cases, inl, inr, ◌≤◌, ◌≡◌, ◌∙◌, ap, ◌≢◌, refl,
  String, Bool, true, false, not, ◌&&◌, ◌||◌, List, [], ◌∷◌, arith, ltb, nat_beq, ==_iff, ==_refl,
  length, take, is_nil,
}
use cluster_api_provider_maa.Maintenance.Sanitize.{
  codes, is_word, char_of, from_codes, collapse, trim_left, trim_right, limit_length, or_x,
  sanitize_codes, sanitize_id,
}

-- Words with single dashes between them. The flag says that a dash, or nothing, stands before;
-- `loose` leaves open whether a dash stands at the end.
abbrev pub is_loose : Bool → List ℕ → Bool
is_loose dash [] = true
is_loose dash (c ∷ cs) =
    is_word c && is_loose false cs || nat_beq c b'-' && not dash && is_loose true cs

abbrev pub is_token : Bool → List ℕ → Bool
is_token dash [] = not dash
is_token dash (c ∷ cs) =
    is_word c && is_token false cs || nat_beq c b'-' && not dash && is_token true cs

collapse-is_loose :
    (fold : ℕ → ℕ) (rs : List ℕ) (dash : Bool) → is_loose dash (collapse fold rs dash) ≡ true
unfolding collapse
collapse-is_loose fold [] dash = refl
collapse-is_loose fold (r ∷ rs) dash =
    ground (arith, collapse-is_loose fold rs false, collapse-is_loose fold rs true)

is_loose-weaken : (cs : List ℕ) → is_loose true cs ≡ true → is_loose false cs ≡ true
is_loose-weaken [] h = refl
is_loose-weaken (c ∷ cs) h = ground arith

trim_left-is_loose : (cs : List ℕ) → is_loose false cs ≡ true → is_loose true (trim_left cs) ≡ true
unfolding trim_left is_word
trim_left-is_loose [] h = refl
trim_left-is_loose (c ∷ cs) h = ground (arith, trim_left-is_loose cs, is_loose-weaken cs)

-- Without the dashes at its end, a loose text is empty or a token.
trim_right-is_token :
    (cs : List ℕ) (dash : Bool)
    → is_loose dash cs ≡ true
    → (is_nil (trim_right cs) || is_token dash (trim_right cs)) ≡ true
unfolding trim_right is_word
trim_right-is_token [] dash h = refl
trim_right-is_token (c ∷ cs) dash h =
    ground (arith, trim_right-is_token cs false, trim_right-is_token cs true)

is_token-is_loose : (cs : List ℕ) (dash : Bool) → is_token dash cs ≡ true → is_loose dash cs ≡ true
is_token-is_loose [] dash h = refl
is_token-is_loose (c ∷ cs) dash h =
    ground (arith, is_token-is_loose cs false, is_token-is_loose cs true)

take-is_loose :
    (n : ℕ) (cs : List ℕ) (dash : Bool) → is_loose dash cs ≡ true → is_loose dash (take n cs) ≡ true
take-is_loose zero cs dash h = refl
take-is_loose (suc n) [] dash h = refl
take-is_loose (suc n) (c ∷ cs) dash h =
    ground (arith, take-is_loose n cs false, take-is_loose n cs true)

length-take-le {ℓ} : {A : Type ℓ} (n : ℕ) (cs : List A) → length (take n cs) ≤ n
length-take-le zero cs = omega arith
length-take-le (suc n) [] = omega arith
length-take-le (suc n) (c ∷ cs) = omega (arith, length-take-le n cs)

length-trim_right-le : (cs : List ℕ) → length (trim_right cs) ≤ length cs
unfolding trim_right
length-trim_right-le [] = omega arith
length-trim_right-le (c ∷ cs) = ground (arith, length-trim_right-le cs)

-- A result of `SanitizeID` before the last step: nothing, or a token of at most 63 runes.
abbrev IsShort : List ℕ → Type 0
IsShort cs = ((is_nil cs || is_token true cs) ≡ true) × (length cs ≤ 63)

is_short-is_loose : (cs : List ℕ) → (is_nil cs || is_token true cs) ≡ true → is_loose true cs ≡ true
is_short-is_loose [] h = refl
is_short-is_loose (c ∷ cs) h = is_token-is_loose (c ∷ cs) true h

limit_length-IsShort :
    (cs : List ℕ) → (is_nil cs || is_token true cs) ≡ true → IsShort (limit_length cs)
unfolding limit_length
limit_length-IsShort cs h = elim (Bool-cases (ltb 63 (length cs))) [
  | inl long ↦ rw long (
    trim_right-is_token (take 63 cs) true (take-is_loose 63 cs true (is_short-is_loose cs h)),
    omega (arith, length-trim_right-le (take 63 cs), length-take-le {0} 63 cs),
  )
  | inr short ↦ rw short (h, ground arith)
]

or_x-IsToken :
    (cs : List ℕ) → IsShort cs → (is_token true (or_x cs) ≡ true) × (length (or_x cs) ≤ 63)
unfolding or_x is_word
or_x-IsToken [] h = (refl, omega arith)
or_x-IsToken (c ∷ cs) h = h

pub sanitize_codes-is_token :
    (fold : ℕ → ℕ) (id : List ℕ)
    → (is_token true (sanitize_codes fold id) ≡ true) × (length (sanitize_codes fold id) ≤ 63)
unfolding sanitize_codes
sanitize_codes-is_token fold id =
    let loose = collapse-is_loose fold id false in
    let trimmed = trim_left-is_loose (collapse fold id false) loose in
    let token = trim_right-is_token (trim_left (collapse fold id false)) true trimmed in
    or_x-IsToken _ (limit_length-IsShort (trim_right (trim_left (collapse fold id false))) token)

collapse_of_loose :
    (fold : ℕ → ℕ) (cs : List ℕ) (dash : Bool)
    → is_loose dash cs ≡ true
    → collapse fold cs dash ≡ cs
unfolding collapse
collapse_of_loose fold [] dash h = refl
collapse_of_loose fold (c ∷ cs) dash h =
    ground (arith, collapse_of_loose fold cs false, collapse_of_loose fold cs true)

trim_left_of_token : (cs : List ℕ) → is_token true cs ≡ true → trim_left cs ≡ cs
unfolding trim_left is_word
trim_left_of_token [] h = refl
trim_left_of_token (c ∷ cs) h = ground arith

is_nil_of_token : (cs : List ℕ) → is_token true cs ≡ true → is_nil cs ≡ false
is_nil_of_token [] h = cc
is_nil_of_token (c ∷ cs) h = refl

trim_right_of_token : (cs : List ℕ) (dash : Bool) → is_token dash cs ≡ true → trim_right cs ≡ cs
unfolding trim_right is_word
trim_right_of_token [] dash h = refl
trim_right_of_token (c ∷ cs) dash h =
    ground (arith, trim_right_of_token cs false, trim_right_of_token cs true, is_nil_of_token cs)

or_x-limit_length :
    (cs : List ℕ) → is_token true cs ≡ true → length cs ≤ 63 → or_x (limit_length cs) ≡ cs
unfolding or_x limit_length
or_x-limit_length [] h short = cc
or_x-limit_length (c ∷ cs) h short = ground arith

pub sanitize_codes_of_token :
    (fold : ℕ → ℕ) (cs : List ℕ)
    → is_token true cs ≡ true
    → length cs ≤ 63
    → sanitize_codes fold cs ≡ cs
unfolding sanitize_codes
sanitize_codes_of_token fold cs h short =
    rw (collapse_of_loose fold cs false (is_loose-weaken cs (is_token-is_loose cs true h))) (
      rw (trim_left_of_token cs h)
        (rw (trim_right_of_token cs true h) (or_x-limit_length cs h short)))

-- A rune that a token may hold is the code of its character.
abbrev has_code : ℕ → Bool
has_code c = not (is_word c || nat_beq c b'-') || nat_beq (code (char_of c)) c

-- The test of all runes under the bound.
have_codes : ℕ → Bool
have_codes zero = true
have_codes (suc c) = if has_code c then have_codes c else false

have_codes-has_code : (bound c : ℕ) → c < bound → have_codes bound ≡ true → has_code c ≡ true
unfolding have_codes
have_codes-has_code zero c below tested = ground arith
have_codes-has_code (suc bound) c below tested = elim (Bool-cases (has_code bound)) [
  | inl e ↦ ground (arith, have_codes-has_code bound c)
  | inr e ↦ cc (rw e at tested)
]

ascii_have_codes : have_codes 123 ≡ true
unfolding have_codes is_word char_of
ascii_have_codes = refl

word-lt : (c : ℕ) → (is_word c || nat_beq c b'-') ≡ true → c < 123
unfolding is_word
word-lt c h = ground arith

-- The text of a token has the token's runes.
code-char_of : (c : ℕ) → (is_word c || nat_beq c b'-') ≡ true → code (char_of c) ≡ c
code-char_of c h = ground (arith, have_codes-has_code 123 c (word-lt c h) ascii_have_codes)

codes-from_codes :
    (cs : List ℕ) (dash : Bool) → is_token dash cs ≡ true → codes (from_codes cs) ≡ cs
unfolding from_codes
codes-from_codes [] dash h = refl
codes-from_codes (c ∷ cs) dash h =
    ground (arith, code-char_of c, codes-from_codes cs false, codes-from_codes cs true)

sanitize_id_of_empty : (fold : ℕ → ℕ) → sanitize_id fold "" ≡ ""
unfolding sanitize_id
sanitize_id_of_empty fold = ground (arith, ==_refl "")

sanitize_id_of_named :
    (fold : ℕ → ℕ) (id : String)
    → id ≢ ""
    → sanitize_id fold id ≡ from_codes (sanitize_codes fold (codes id))
unfolding sanitize_id
sanitize_id_of_named fold id named = ground (arith, ==_iff id "")

codes-sanitize_id :
    (fold : ℕ → ℕ) (id : String)
    → id ≢ ""
    → codes (sanitize_id fold id) ≡ sanitize_codes fold (codes id)
codes-sanitize_id fold id named =
    ap codes (sanitize_id_of_named fold id named)
    ∙ codes-from_codes _ true (sanitize_codes-is_token fold (codes id)).0

-- A cluster id that is not empty becomes a token of at most 63 runes: words of a to z and 0 to 9
-- with single dashes between them, and no dash at either end.
pub sanitize_id-is_token :
    (fold : ℕ → ℕ) (id : String)
    → id ≢ ""
    → (is_token true (codes (sanitize_id fold id)) ≡ true)
      × (length (codes (sanitize_id fold id)) ≤ 63)
sanitize_id-is_token fold id named =
    rw (codes-sanitize_id fold id named) (sanitize_codes-is_token fold (codes id))

sanitize_id-ne-nil : (fold : ℕ → ℕ) (id : String) → id ≢ "" → sanitize_id fold id ≢ ""
sanitize_id-ne-nil fold id named e =
    cc (ap (λ t. is_token true (codes t)) e, (sanitize_id-is_token fold id named).0)

-- Sanitizing an id twice is sanitizing it once.
pub sanitize_id_idem :
    (fold : ℕ → ℕ) (id : String) → sanitize_id fold (sanitize_id fold id) ≡ sanitize_id fold id
sanitize_id_idem fold id = elim (Bool-cases (id == "")) [
  | inl e ↦ rw ((==_iff id "").0 e) (rw (sanitize_id_of_empty fold) (sanitize_id_of_empty fold))
  | inr e ↦
      let named : id ≢ "" = λ p. ground (arith, (==_iff id "").1 p) in
      let token = sanitize_codes-is_token fold (codes id) in
      sanitize_id_of_named fold (sanitize_id fold id) (sanitize_id-ne-nil fold id named)
      ∙ ap (λ cs. from_codes (sanitize_codes fold cs)) (codes-sanitize_id fold id named)
      ∙ ap from_codes (sanitize_codes_of_token fold _ token.0 token.1)
      ∙ sym (sanitize_id_of_named fold id named)
]
