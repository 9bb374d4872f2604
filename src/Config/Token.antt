-- ===== src/Config/Token.antt =====
-- veil_core/provisioning.py: the JSON text of a profile and the token that carries it. `json` stands
-- for the text format; a text is given by its bytes in UTF-8.
pub mod RoundTrip
use Prim.Native.Char.{code}
use veil_python_stack.Prelude.{
  ℕ, String, Bool, true, false, Option, none, some, List, [], ◌∷◌, ◌++◌, ltb, nat_eq, ◌==◌,
  if◌then◌else◌,
}
use veil_python_stack.Prelude.Dict.{Dict}
use veil_python_stack.Errors.{Result, ok, err, ◌>>=◌, value_error, type_error}
use veil_python_stack.Message.{
  Value, null, boolean, number, decimal, text, array, object, Json, fields, dict,
}
use veil_python_stack.Text.{cat, strip}
use veil_python_stack.Text.Base64.{encode, decode, rstrip_pads, padded}
use veil_python_stack.Dataclass.{Instance, construct}
use veil_python_stack.Config.Profile.{client_connection_profile}

-- s <= t, by the code points
unfoldable pub leb_text : String → String → Bool
leb_text String.[] t = true
leb_text (String.◌∷◌ c s) String.[] = false
leb_text (String.◌∷◌ c s) (String.◌∷◌ d t) =
    let rest = leb_text s t in if code c == code d then rest else ltb (code c) (code d)

unfoldable pub sorted_insert : String → Value → Dict String Value → Dict String Value
unfolding leb_text
sorted_insert k v [] = (k, v) ∷ []
sorted_insert k v ((j, w) ∷ d) =
    let rest = sorted_insert k v d in if leb_text k j then (k, v) ∷ (j, w) ∷ d else (j, w) ∷ rest

-- The entries in the order of their keys: what `sort_keys=True` writes
unfoldable pub sort_keys : Dict String Value → Dict String Value
unfolding sorted_insert
sort_keys [] = []
sort_keys ((k, v) ∷ d) = sorted_insert k v (sort_keys d)

-- `to_json`, of an object without nested objects; the text ends with a line feed.
unfoldable pub to_json : Json → Instance → List ℕ
unfolding sort_keys
to_json json p = json.encode (object (fields (sort_keys p))) ++ 10 ∷ []

-- The call with the entries of a JSON object
abbrev pub from_value : Value → Result Instance
from_value (object fs) = construct client_connection_profile (dict fs)
from_value null = err (type_error "argument after ** must be a mapping")
from_value (boolean b) = err (type_error "argument after ** must be a mapping")
from_value (number n) = err (type_error "argument after ** must be a mapping")
from_value (decimal n k) = err (type_error "argument after ** must be a mapping")
from_value (text s) = err (type_error "argument after ** must be a mapping")
from_value (array vs) = err (type_error "argument after ** must be a mapping")

-- `from_json_text`
unfoldable pub from_json_text : Json → List ℕ → Result Instance
unfolding construct
from_json_text json raw = json.decode raw >>= from_value

abbrev pub token_prefix : String
token_prefix = "veil://profile/"

-- s[len(prefix):], if the text starts with the prefix
unfoldable pub drop_prefix : String → String → Option String
drop_prefix String.[] s = some s
drop_prefix (String.◌∷◌ c p) String.[] = none
drop_prefix (String.◌∷◌ c p) (String.◌∷◌ d s) =
    let rest = drop_prefix p s in if code c == code d then rest else none

-- `to_import_token`
unfoldable pub to_import_token : Json → Instance → String
unfolding to_json encode rstrip_pads
to_import_token json p = cat token_prefix (rstrip_pads (encode (to_json json p)))

abbrev pub from_encoded : Json → Option String → Result Instance
from_encoded json none = err (value_error "Unsupported profile token format")
from_encoded json (some s) = decode (padded (strip s)) >>= λ raw. from_json_text json raw

-- `from_import_token`
unfoldable pub from_import_token : Json → String → Result Instance
unfolding drop_prefix decode padded strip from_json_text
from_import_token json token = from_encoded json (drop_prefix token_prefix token)
