-- ===== src/Config/Import.antt =====
-- desktop/veil_vpn_ctl.py: how commands change the configuration file.
use veil_python_stack.Prelude.{
  String, Bool, true, false, ◌||◌, Option, none, some, List, [], ◌∷◌, if◌then◌else◌, string_eq,
  ◌==◌,
}
use veil_python_stack.Prelude.Dict.{Dict, merge}
use veil_python_stack.Errors.{Result, ok, err, ◌>>=◌, runtime_error}
use veil_python_stack.Message.{Value}
use veil_python_stack.Text.{strip}
use veil_python_stack.Dataclass.{Instance, construct}
use veil_python_stack.Config.{ensure_compatible}
use veil_python_stack.Config.Client.{linux_client_config}

-- `_parse_bool`; `lower` is `str.lower`.
unfoldable pub parse_bool : (lower : String → String) → Option String → Result (Option Bool)
unfolding strip
parse_bool lower none = ok none
parse_bool lower (some value) =
    let s = lower (strip value) in
    if s == "1" || (s == "true" || (s == "yes" || s == "on"))
    then ok (some true)
    else if s == "0" || (s == "false" || (s == "no" || s == "off"))
    then ok (some false)
    else err (runtime_error "Unsupported boolean value")

-- The entries that are given
unfoldable pub given_entries : List (String × Option Value) → Dict String Value
given_entries [] = []
given_entries ((k, none) ∷ rest) = given_entries rest
given_entries ((k, some v) ∷ rest) = (k, v) ∷ given_entries rest

-- The configuration that the command "save-config" writes, of the values on the command line
unfoldable pub save_config : List (String × Option Value) → Instance → Result Instance
unfolding construct merge given_entries ensure_compatible
save_config values config =
    construct linux_client_config (merge config (given_entries values)) >>= λ c.
    ok (ensure_compatible c)

-- The configuration that the command "import-profile" writes: `save_client_config` makes it
-- compatible.
unfoldable pub import_profile : (profile config : Instance) → Result Instance
unfolding construct merge ensure_compatible
import_profile profile config =
    construct linux_client_config (merge config profile) >>= λ c. ok (ensure_compatible c)
