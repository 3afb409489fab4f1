-- ===== src/Maintenance/Sanitize.antt =====
-- `SanitizeID` and `BuildReadyHostTag` of pkg/maas/maintenance/tags.go, on the runes of the text.
pub mod Laws
use Prim.Native.Char.{Char, code}
use Prim.Native.String.{char_at}
use cluster_api_provider_maa.Base.{
  ℕ, ◌+◌, ◌-◌, String, ◌<>◌, Bool, true, false, ◌&&◌, ◌||◌, List, [], ◌∷◌, ltb, leb, nat_beq, ◌==◌,
  length, take, is_nil, if◌then◌else◌,
}
use cluster_api_provider_maa.Maintenance.Tags.{tag_vm_ready_op_prefix}

-- The runes of a text, and the text of the runes that `SanitizeID` writes.
abbrev pub codes : String → List ℕ
codes String.[] = []
codes (String.◌∷◌ c s) = code c ∷ codes s

unfoldable pub is_word : ℕ → Bool
is_word c = leb b'a' c && leb c b'z' || leb b'0' c && leb c b'9'

unfoldable pub char_of : ℕ → Char
char_of c =
    if leb b'a' c && leb c b'z'
    then char_at "abcdefghijklmnopqrstuvwxyz" (c - b'a')
    else if leb b'0' c && leb c b'9'
    then char_at "0123456789" (c - b'0')
    else "-"

unfoldable pub from_codes : List ℕ → String
from_codes [] = String.[]
from_codes (c ∷ cs) = String.◌∷◌ (char_of c) (from_codes cs)

-- `strings.ToLower` on one rune; `fold` is what Unicode's tables say above the ASCII range.
unfoldable pub to_lower : (ℕ → ℕ) → ℕ → ℕ
to_lower fold c = if leb b'A' c && leb c b'Z' then c + 32 else if ltb c 128 then c else fold c

-- The loop: `prev_dash` says that the last rune written is a dash.
unfoldable pub collapse : (ℕ → ℕ) → List ℕ → Bool → List ℕ
unfolding is_word to_lower
collapse fold [] prev_dash = []
collapse fold (r ∷ rs) prev_dash =
    let c = to_lower fold r in
    let kept = collapse fold rs false in
    let dashed = collapse fold rs true in
    if is_word c then c ∷ kept else if prev_dash then dashed else b'-' ∷ dashed

unfoldable pub trim_left : List ℕ → List ℕ
trim_left [] = []
trim_left (c ∷ cs) = let rest = trim_left cs in if nat_beq c b'-' then rest else c ∷ cs

-- `strings.TrimRight`
unfoldable pub trim_right : List ℕ → List ℕ
trim_right [] = []
trim_right (c ∷ cs) =
    let rest = trim_right cs in if is_nil rest && nat_beq c b'-' then [] else c ∷ rest

unfoldable pub limit_length : List ℕ → List ℕ
unfolding trim_right
limit_length s = if ltb 63 (length s) then trim_right (take 63 s) else s

or_x : List ℕ → List ℕ
or_x [] = b'x' ∷ []
or_x (c ∷ cs) = c ∷ cs

unfoldable pub sanitize_codes : (ℕ → ℕ) → List ℕ → List ℕ
unfolding collapse trim_left trim_right limit_length or_x
sanitize_codes fold id = or_x (limit_length (trim_right (trim_left (collapse fold id false))))

unfoldable pub sanitize_id : (ℕ → ℕ) → String → String
unfolding sanitize_codes from_codes
sanitize_id fold id = if id == "" then id else from_codes (sanitize_codes fold (codes id))

unfoldable pub build_ready_host_tag : (ℕ → ℕ) → String → String → String
unfolding sanitize_id
build_ready_host_tag fold cluster_id op_id =
    tag_vm_ready_op_prefix <> (sanitize_id fold cluster_id <> ("-op-" <> op_id))
