-- ===== src/Catalog/Payload.antt =====
-- veil_core/protocol_catalog.py: the catalog and the description of a selection as JSON values. A
-- configuration may hold any value as its wrapper and persona.
use veil_python_stack.Prelude.{
  String, Bool, false, Option, none, some, List, [], ◌∷◌, string_eq, if◌then◌else◌,
}
use veil_python_stack.Prelude.Dict.{Dict}
use veil_python_stack.Errors.{Result, ok, err, ◌>>=◌, attribute_error}
use veil_python_stack.Message.{
  Value, null, boolean, number, decimal, text, array, object, Items, nil, cons, fields, truthy,
}
use veil_python_stack.Catalog.{
  ProtocolWrapperOption, PersonaPresetOption, wrapper_options, persona_options, find_wrapper,
  find_persona, notes_on,
}

-- `to_dict`
abbrev pub wrapper_dict : ProtocolWrapperOption → Dict String Value
wrapper_dict o =
    ("value", text o.value)
    ∷ ("label", text o.label)
    ∷ ("summary", text o.summary)
    ∷ ("best_for", text o.best_for)
    ∷ ("supports_http_upgrade", boolean o.supports_http_upgrade)
    ∷ []

abbrev pub persona_dict : PersonaPresetOption → Dict String Value
persona_dict o =
    ("value", text o.value)
    ∷ ("label", text o.label)
    ∷ ("summary", text o.summary)
    ∷ ("best_with", text o.best_with)
    ∷ []

-- `protocol_wrapper_catalog` and `persona_preset_catalog`, of these options
unfoldable pub wrapper_items : List ProtocolWrapperOption → Items
wrapper_items [] = nil
wrapper_items (o ∷ os) = cons (object (fields (wrapper_dict o))) (wrapper_items os)

unfoldable pub persona_items : List PersonaPresetOption → Items
persona_items [] = nil
persona_items (o ∷ os) = cons (object (fields (persona_dict o))) (persona_items os)

unfoldable pub protocol_catalog_payload : Dict String Value
unfolding wrapper_items persona_items
protocol_catalog_payload =
    ("wrappers", array (wrapper_items wrapper_options))
    ∷ ("personas", array (persona_items persona_options))
    ∷ []

-- `value or default`
unfoldable pub value_or_text : Value → String → Value
unfolding truthy
value_or_text v default = if truthy v then v else text default

abbrev name_in : Value → Result String
name_in (text s) = ok s
name_in null = err (attribute_error "no attribute 'strip'")
name_in (boolean b) = err (attribute_error "no attribute 'strip'")
name_in (number n) = err (attribute_error "no attribute 'strip'")
name_in (decimal n k) = err (attribute_error "no attribute 'strip'")
name_in (array vs) = err (attribute_error "no attribute 'strip'")
name_in (object fs) = err (attribute_error "no attribute 'strip'")

-- The name that `_find_wrapper` and `_find_persona` strip: `value or ""`
unfoldable pub option_name : Value → Result String
unfolding value_or_text
option_name v = name_in (value_or_text v "")

abbrev wrapper_entry : Value → Option ProtocolWrapperOption → Dict String Value
wrapper_entry v (some o) = wrapper_dict o
wrapper_entry v none =
    ("value", v)
    ∷ ("label", value_or_text v "unknown")
    ∷ ("summary", text "Unknown wrapper value.")
    ∷ ("best_for", text "")
    ∷ ("supports_http_upgrade", boolean false)
    ∷ []

abbrev persona_entry : Value → Option PersonaPresetOption → Dict String Value
persona_entry v (some o) = persona_dict o
persona_entry v none =
    ("value", v)
    ∷ ("label", value_or_text v "unknown")
    ∷ ("summary", text "Unknown persona preset.")
    ∷ ("best_with", text "")
    ∷ []

abbrev pub text_items : List String → Items
text_items [] = nil
text_items (s ∷ ss) = cons (text s) (text_items ss)

module _ (lower : String → String) where
  abbrev payload_of :
      Value
      → Value
      → Bool
      → Option ProtocolWrapperOption
      → Option PersonaPresetOption
      → Dict String Value
  payload_of w p http wrapper persona =
      ("wrapper", object (fields (wrapper_entry w wrapper)))
      ∷ ("persona", object (fields (persona_entry p persona)))
      ∷ ("http_upgrade_enabled", boolean http)
      ∷ ("notes", array (text_items (notes_on lower wrapper persona http)))
      ∷ []

  -- `describe_protocol_selection` of values
  unfoldable pub describe_payload : Value → Value → Value → Result (Dict String Value)
  unfolding option_name find_wrapper find_persona truthy value_or_text
  describe_payload w p http = option_name w >>= λ wrapper. option_name p >>= λ persona.
      ok (payload_of w p (truthy http) (find_wrapper lower wrapper) (find_persona lower persona))
