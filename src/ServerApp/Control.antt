-- ===== src/ServerApp/Control.antt =====
-- desktop/veil_vpn_server_ctl.py: the commands of the server's controller and what they print.
use veil_python_stack.Prelude.{String, List, [], ◌∷◌, ◌++◌, string_eq, nat_eq}
use veil_python_stack.Prelude.Dict.{Dict}
use veil_python_stack.Message.{
  Value, null, boolean, number, decimal, text, array, object, Items, nil, cons, Fields, end, field,
  Json, fields, str_of,
}
use veil_python_stack.Text.{cat, join}

module _ (json : Json) where
  -- `render_mapping` of `_format_mapping`: the lines of an object's entries
  mutual
    render_fields : String → Fields → List String
    render_fields indent end = []
    render_fields indent (field k v fs) = render_entry indent k v ++ render_fields indent fs

    render_entry : String → String → Value → List String
    render_entry indent k (object fs) = cat indent (cat k ":") ∷ render_fields (cat indent "  ") fs
    render_entry indent k (array nil) = cat indent (cat k ": []") ∷ []
    render_entry indent k (array (cons v vs)) =
        cat indent (cat k ":") ∷ render_items indent (cons v vs)
    render_entry indent k null = cat indent (cat k ": None") ∷ []
    render_entry indent k (boolean b) = cat indent (cat k (cat ": " (str_of json (boolean b)))) ∷ []
    render_entry indent k (number n) = cat indent (cat k (cat ": " (str_of json (number n)))) ∷ []
    render_entry indent k (decimal n e) =
        cat indent (cat k (cat ": " (str_of json (decimal n e)))) ∷ []
    render_entry indent k (text s) = cat indent (cat k (cat ": " s)) ∷ []

    render_items : String → Items → List String
    render_items indent nil = []
    render_items indent (cons v vs) = render_item indent v ++ render_items indent vs

    render_item : String → Value → List String
    render_item indent (object fs) = cat indent "  -" ∷ render_fields (cat indent "    ") fs
    render_item indent null = cat indent "  - None" ∷ []
    render_item indent (boolean b) = cat indent (cat "  - " (str_of json (boolean b))) ∷ []
    render_item indent (number n) = cat indent (cat "  - " (str_of json (number n))) ∷ []
    render_item indent (decimal n e) = cat indent (cat "  - " (str_of json (decimal n e))) ∷ []
    render_item indent (text s) = cat indent (cat "  - " s) ∷ []
    render_item indent (array vs) = cat indent (cat "  - " (str_of json (array vs))) ∷ []

  -- `_format_mapping`
  unfoldable pub format_mapping : (heading : String) → Dict String Value → String
  unfolding render_fields render_entry render_items render_item join
  format_mapping heading payload = join "\n" (heading ∷ render_fields "" (fields payload))
