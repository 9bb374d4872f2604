-- ===== src/Catalog/Choice.antt =====
-- What the catalog says about a choice.
use veil_python_stack.Prelude.{
  ◌≡◌, ◌⊎◌, inl, inr, refl, String, Bool, true, some, List, [], ◌∷◌, arith, Option-cases, string_eq,
  ◌==◌,
}
use veil_python_stack.Text.{strip}
use veil_python_stack.Catalog.{
  ProtocolWrapperOption, wrapper_options, wrapper_with, find_wrapper, describe_protocol_selection,
}

wrapper_with-value :
    (name : String) (os : List ProtocolWrapperOption) (o : ProtocolWrapperOption)
    → wrapper_with name os ≡ some o
    → (o.value == name) ≡ true
unfolding wrapper_with
wrapper_with-value name [] o h = ground (arith, h)
wrapper_with-value name (p ∷ os) o h = ground (arith, h, wrapper_with-value name os o)

-- The wrapper that a selection describes has the chosen name, stripped and in lower case, or the
-- name as it was given.
described_wrapper_is_chosen :
    (lower : String → String) (wrapper persona : String) (http : Bool)
    → (((describe_protocol_selection lower wrapper persona http).wrapper.value
          == lower (strip wrapper))
        ≡ true)
      ⊎ ((describe_protocol_selection lower wrapper persona http).wrapper.value ≡ wrapper)
unfolding describe_protocol_selection find_wrapper
described_wrapper_is_chosen lower wrapper persona http =
    elim (Option-cases (wrapper_with (lower (strip wrapper)) wrapper_options)) [
      | inl n ↦ inr (rw n refl)
      | inr (o, found) ↦
          inl (rw found (wrapper_with-value (lower (strip wrapper)) wrapper_options o found))
    ]
