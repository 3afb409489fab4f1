-- ===== src/Examples/Formats.antt =====
-- Formats that are read back, in place of Go's: numbers as strokes, and lists of one text.
use Prim.Native.Char.{code}
use mathlib.Core.Path.{subst}
use cluster_api_provider_maa.Base.{
  ℕ, zero, suc, ◌≡◌, ◌≢◌, ◌∙◌, ap, refl, ℤ, pos, negsuc, String, List, [], ◌∷◌, Option, none, some,
  nat_beq, if◌then◌else◌,
}
use cluster_api_provider_maa.Services.{Codec}
use cluster_api_provider_maa.Services.Laws.{CodecLaws, to_second}

-- Numbers as strokes.
abbrev strokes : ℕ → String
strokes zero = String.[]
strokes (suc n) = String.◌∷◌ "|" (strokes n)

abbrev count : String → ℕ
count String.[] = 0
count (String.◌∷◌ c s) = suc (count s)

count-strokes : (n : ℕ) → count (strokes n) ≡ n
count-strokes zero = refl
count-strokes (suc n) = ap suc (count-strokes n)

abbrev format_int : ℤ → String
format_int (pos n) = String.◌∷◌ "+" (strokes n)
format_int (negsuc n) = String.◌∷◌ "-" (strokes n)

abbrev scan_int : String → Option ℤ
scan_int String.[] = none
scan_int (String.◌∷◌ c s) = some (if nat_beq (code c) b'-' then negsuc (count s) else pos (count s))

abbrev parse_time : String → Option ℕ
parse_time String.[] = none
parse_time (String.◌∷◌ c s) = some (to_second (count s))

abbrev marshal : List String → Option String
marshal [] = none
marshal (x ∷ []) = some (String.◌∷◌ "1" x)
marshal (x ∷ y ∷ l) = none

abbrev unmarshal : String → Option (List String)
unmarshal String.[] = none
unmarshal (String.◌∷◌ c s) = some (if nat_beq (code c) b'[' then [] else s ∷ [])

abbrev pub codec : Codec
codec = record {
  format_time = λ t. String.◌∷◌ "T" (strokes t);
  parse_time = parse_time;
  format_int = format_int;
  scan_int = scan_int;
  marshal = marshal;
  unmarshal = unmarshal;
}

int_round : (n : ℤ) → scan_int (format_int n) ≡ some n
int_round (pos n) = ap (λ m. some (pos m)) (count-strokes n)
int_round (negsuc n) = ap (λ m. some (negsuc m)) (count-strokes n)

abbrev or_empty : Option String → String
or_empty none = ""
or_empty (some t) = t

json_round : (l : List String) (t : String) → marshal l ≡ some t → unmarshal t ≡ some l
json_round [] t h = cc
json_round (x ∷ []) t h = subst (λ t. unmarshal t ≡ some (x ∷ [])) (ap (or_empty) h) refl
json_round (x ∷ y ∷ l) t h = cc

json_named : (l : List String) (t : String) → marshal l ≡ some t → t ≢ ""
json_named [] t h = cc
json_named (x ∷ []) t h = let read : String.◌∷◌ "1" x ≡ t = ap or_empty h in λ e. cc (read ∙ e)
json_named (x ∷ y ∷ l) t h = cc

int_named : (n : ℤ) → format_int n ≢ ""
int_named (pos n) h = cc
int_named (negsuc n) h = cc

pub codec_laws : CodecLaws codec
codec_laws = record {
  time_named = λ t h. cc h;
  time_round = λ t. ap (λ n. some (to_second n)) (count-strokes t);
  int_named = int_named;
  int_round = int_round;
  json_named = json_named;
  json_round = json_round;
  json_empty = refl;
}
