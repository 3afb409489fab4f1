-- ===== src/ProviderId.antt =====
-- `ProviderID` of pkg/util/machine.go.
pub mod Laws
use Prim.Native.Char.{code}
use cluster_api_provider_maa.Base.{
  String, Bool, true, false, not, ◌&&◌, Option, none, some, ◌==◌, nat_beq, deref, if◌then◌else◌,
  cut_at, cut_prefix, Result, ok, err, Error, sentinel,
}
use cluster_api_provider_maa.Vec.Scan.{last_part}

pub record ProviderId : Type 0 where
  pub original : String
  pub cloud_provider : String
  pub id : String

-- `.*[^/]$` of the regular expression: the last character is no slash, and no other one is the end
-- of a line.
unfoldable pub ends_without_slash : String → Bool
ends_without_slash String.[] = false
ends_without_slash (String.◌∷◌ c String.[]) = not (nat_beq (code c) b'/')
ends_without_slash (String.◌∷◌ c (String.◌∷◌ d s)) =
    let rest = ends_without_slash (String.◌∷◌ d s) in if nat_beq (code c) 10 then false else rest

unfoldable pub after_slashes : Option String → Bool
unfolding ends_without_slash
after_slashes none = false
after_slashes (some s) = ends_without_slash s

-- `^[^:]+:` of the regular expression, at the first colon, and `//` behind it.
unfoldable pub matches_at_colon : Option (String × String) → Bool
unfolding after_slashes
matches_at_colon none = false
matches_at_colon (some (provider, s)) = not (provider == "") && after_slashes (cut_prefix "//" s)

-- `providerIDRegex`
unfoldable pub provider_id_regex : String → Bool
unfolding matches_at_colon
provider_id_regex id = matches_at_colon (cut_at b':' id)

unfoldable pub before_colon : Option (String × String) → String
before_colon none = ""
before_colon (some (provider, s)) = provider

-- `Validate`
unfoldable pub validate : ProviderId → Bool
validate p = not (p.cloud_provider == "") && not (p.id == "")

-- The parts of a text that matches: before its first colon, and behind its last slash.
unfoldable pub parts_of : String → ProviderId
unfolding before_colon
parts_of id = record {
  original = id;
  cloud_provider = before_colon (cut_at b':' id);
  id = deref (last_part id);
}

abbrev pub err_invalid_provider_id : Error
err_invalid_provider_id =
    sentinel "ErrInvalidProviderID"
      "providerID must be of the form <cloudProvider>://<optional>/<segments>/<provider id>"

-- `NewProviderID`
unfoldable pub new_provider_id : String → Result ProviderId
unfolding provider_id_regex validate parts_of
new_provider_id id =
    if id == ""
    then err (sentinel "ErrEmptyProviderID" "providerID is empty")
    else if not (provider_id_regex id)
    then err err_invalid_provider_id
    else if not (validate (parts_of id))
    then err err_invalid_provider_id
    else ok (parts_of id)
