-- ===== src/Config/Token/RoundTrip.antt =====
-- A profile is read back from its token.
use Prim.Native.Char.{code}
use veil_python_stack.Prelude.{
  ◌≡◌, refl, ◌∙◌, String, true, some, [], ◌∷◌, arith, string_eq, nat_eq, ◌==◌, if◌then◌else◌, All,
}
use veil_python_stack.Prelude.Dict.{Dict, lookup, beq_refl}
use veil_python_stack.Errors.{ok}
use veil_python_stack.Message.{Value, Json, object, fields, dict-fields}
use veil_python_stack.Text.Base64.Alphabet.{IsByte}
use veil_python_stack.Text.Base64.RoundTrip.{padded-encode, decode-encode}
use veil_python_stack.Dataclass.{Class, Instance, has_field, all_fields, construct}
use veil_python_stack.Dataclass.Laws.{
  IsInstance, is_distinct, Agrees, Agrees-self, fill-Agrees, all_fields-IsInstance,
}
use veil_python_stack.Config.Profile.{client_connection_profile}
use veil_python_stack.Config.Token.{
  leb_text, sorted_insert, sort_keys, to_json, from_json_text, drop_prefix, to_import_token,
  from_import_token,
}

leb_text_refl : (s : String) → leb_text s s ≡ true
unfolding leb_text
leb_text_refl String.[] = refl
leb_text_refl (String.◌∷◌ c s) = ground (arith, leb_text_refl s, beq_refl (code c))

lookup-sorted_insert :
    (k j : String) (v : Value) (d : Dict String Value)
    → lookup j (sorted_insert k v d) ≡ (if k == j then some v else lookup j d)
unfolding lookup sorted_insert
lookup-sorted_insert k j v [] = refl
lookup-sorted_insert k j v ((i, w) ∷ d) = ground (
  arith,
  leb_text_refl k,
  string_eq.beq_iff k j,
  string_eq.beq_iff i j,
  string_eq.beq_iff i k,
  lookup-sorted_insert k j v d,
)

lookup-sort_keys : (j : String) (d : Dict String Value) → lookup j (sort_keys d) ≡ lookup j d
unfolding lookup sort_keys
lookup-sort_keys j [] = refl
lookup-sort_keys j ((k, v) ∷ d) =
    ground (arith, lookup-sorted_insert k j v (sort_keys d), lookup-sort_keys j d)

all_fields-sorted_insert :
    (cls : Class) (k : String) (v : Value) (d : Dict String Value)
    → has_field k cls ≡ true
    → all_fields cls d ≡ true
    → all_fields cls (sorted_insert k v d) ≡ true
unfolding all_fields sorted_insert
all_fields-sorted_insert cls k v [] here h = ground (arith, here)
all_fields-sorted_insert cls k v ((j, w) ∷ d) here h =
    ground (arith, here, h, all_fields-sorted_insert cls k v d here)

all_fields-sort_keys :
    (cls : Class) (d : Dict String Value)
    → all_fields cls d ≡ true
    → all_fields cls (sort_keys d) ≡ true
unfolding all_fields sort_keys
all_fields-sort_keys cls [] h = refl
all_fields-sort_keys cls ((k, v) ∷ d) h =
    all_fields-sorted_insert cls k v (sort_keys d) (ground (arith, h))
      (all_fields-sort_keys cls d (ground (arith, h)))

-- The same entries in another order
Agrees-lookup :
    (cls : Class) (i : Instance) (d e : Dict String Value)
    → ((k : String) → lookup k e ≡ lookup k d)
    → Agrees cls i d
    → Agrees cls i e
Agrees-lookup [] [] d e same h = tt
Agrees-lookup [] (x ∷ i) d e same h = elim h [ ]
Agrees-lookup (f ∷ fs) [] d e same h = elim h [ ]
Agrees-lookup ((k, x) ∷ fs) ((j, v) ∷ i) d e same (here, found, rest) =
    (here, same k ∙ found, Agrees-lookup fs i d e same rest)

pub construct-sort_keys :
    (cls : Class) (i : Instance)
    → is_distinct cls ≡ true
    → IsInstance cls i
    → construct cls (sort_keys i) ≡ ok i
unfolding construct
construct-sort_keys cls i distinct h =
    rw (all_fields-sort_keys cls i (all_fields-IsInstance cls i h)) (
      fill-Agrees cls i (sort_keys i) (
        Agrees-lookup cls i i (sort_keys i) (λ k. lookup-sort_keys k i)
          (Agrees-self cls i distinct h)))

profile_distinct : is_distinct client_connection_profile ≡ true
unfolding is_distinct has_field
profile_distinct = refl

-- A profile whose JSON text consists of bytes, and which the JSON parser reads back from this text
-- with its keys in their order, is the profile that its import token is read back as.
pub from_import_token-to_import_token :
    (json : Json) (p : Instance)
    → IsInstance client_connection_profile p
    → All IsByte (to_json json p)
    → json.decode (to_json json p) ≡ ok (object (fields (sort_keys p)))
    → from_import_token json (to_import_token json p) ≡ ok p
unfolding from_import_token to_import_token from_json_text drop_prefix
from_import_token-to_import_token json p h bytes reads =
    rw
      (
        padded-encode (to_json json p) bytes,
        decode-encode (to_json json p) bytes,
        reads,
        dict-fields (sort_keys p),
        construct-sort_keys client_connection_profile p profile_distinct h,
      )
      refl
