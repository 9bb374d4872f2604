-- ===== src/ServerApp/Main.antt =====
-- desktop/veil_vpn_server_ctl.py: `main` without its `--config` option, and with an output
-- that is none of the other files. `keys i n` is the n-th key that
-- the i-th call generates, and `token_hex` what `secrets.token_hex` gives to `gen-psk`.
use veil_python_stack.Prelude.{
  ℕ, ◌+◌, String, ◌||◌, Option, none, some, List, [], ◌∷◌, ◌++◌, string_eq, nat_eq, ◌==◌,
  if◌then◌else◌,
}
use veil_python_stack.Prelude.Dict.{Dict, merge}
use veil_python_stack.Errors.{
  Result, ok, err, ◌>>=◌, runtime_error, type_error, called_process_error,
}
use veil_python_stack.Message.{Value, boolean, text, array, object, Json, fields}
use veil_python_stack.Text.{cat, join}
use veil_python_stack.Catalog.{
  ProtocolWrapperOption, PersonaPresetOption, wrapper_options, persona_options,
}
use veil_python_stack.Catalog.Payload.{describe_payload, protocol_catalog_payload, text_items}
use veil_python_stack.Linux.{Completed}
use veil_python_stack.Dataclass.{Instance, construct, attribute}
use veil_python_stack.Config.{has}
use veil_python_stack.Config.Profile.{generate_psk_hex}
use veil_python_stack.Config.Import.{given_entries}
use veil_python_stack.Config.Server.{
  ServerConfig, linux_server_config, ensure_defaults, export_profile, load_server_config,
}
use veil_python_stack.Config.Token.{sort_keys, to_import_token}
use veil_python_stack.ServerApp.{
  Paths, ServerEnvironment, ServerFiles, doctor, save_server_config, saved, write_client_profile,
  install_server_assets,
}
use veil_python_stack.ServerApp.Status.{profile_summary, read_server_status}
use veil_python_stack.ServerApp.Control.{format_mapping}

pub data Format : Type 0 where
  as_json as_text : Format

pub data Subcommand : Type 0 where
  run_doctor gen_psk status show_config list_protocol_options install export_client_profile
        export_client_token enable_service disable_service :
      Subcommand
  initialise : List (String × Option Value) → (emulation : Option String) → Subcommand
  write_profile : (output : String) → Subcommand

-- What is printed: the JSON text of a value, of a profile or of a configuration, or lines
pub data Output : Type 0 where
  printed_json : Dict String Value → Output
  printed_profile : Instance → Output
  printed_config : ServerConfig → Output
  printed : String → Output
  silent : Output

-- The machine, and what stands for Python's library
pub record Host : Type 0 where
  pub json : Json
  pub lower : String → String
  pub repr_client : Instance → String
  pub environment : ServerEnvironment
  pub paths : Paths
  pub systemctl : Option (Completed × Completed)
  pub returncode : List String → ℕ
  pub token_hex : String
  pub keys : ℕ → ℕ → String
  pub route : List String

abbrev wrapper_lines : List ProtocolWrapperOption → List String
wrapper_lines [] = []
wrapper_lines (o ∷ os) =
    cat "  " (cat o.value (cat ": " o.label)) ∷ cat "    " o.summary ∷ wrapper_lines os

abbrev persona_lines : List PersonaPresetOption → List String
persona_lines [] = []
persona_lines (o ∷ os) =
    cat "  " (cat o.value (cat ": " o.label)) ∷ cat "    " o.summary ∷ persona_lines os

-- `_catalog_text`
unfoldable pub catalog_text : String
unfolding join
catalog_text =
    join "\n"
      ("Wrappers:" ∷ (wrapper_lines wrapper_options ++ "Personas:" ∷ persona_lines persona_options))

abbrev reprs : (Instance → String) → List Instance → List String
reprs repr [] = []
reprs repr (c ∷ cs) = repr c ∷ reprs repr cs

-- The attribute "clients" stands after "psk_hex".
unfoldable pub with_clients : Value → Instance → Dict String Value
with_clients clients [] = []
with_clients clients ((k, v) ∷ i) =
    let rest = with_clients clients i in
    if k == "psk_hex" then (k, v) ∷ ("clients", clients) ∷ i else (k, v) ∷ rest

-- Of a configuration with clients, `json.dumps` refuses the client objects.
abbrev shown : Format → List Instance → Output → Result Output
shown as_text cs out = ok out
shown as_json [] out = ok out
shown as_json (c ∷ cs) out =
    err (type_error "Object of type LinuxServerClientConfig is not JSON serializable")

abbrev emulation : (String → String) → Option String → Option Value
emulation lower none = none
emulation lower (some s) =
    some (boolean (lower s == "1" || (lower s == "true" || (lower s == "yes" || lower s == "on"))))

abbrev pub load_file : (ℕ → String) → List String → Option ServerConfig → Result ServerConfig
load_file keys route none = load_server_config keys route [] []
load_file keys route (some c) = load_server_config keys route c.settings c.clients

module _ (h : Host) where
  -- `_print_payload`
  unfoldable pub print_payload : Format → String → Dict String Value → Output
  unfolding format_mapping
  print_payload as_json heading payload = printed_json payload
  print_payload as_text heading payload = printed (format_mapping h.json heading payload)

  -- `_config_payload`
  unfoldable pub config_payload : ServerConfig → Result (Dict String Value)
  unfolding describe_payload with_clients attribute
  config_payload c =
      describe_payload h.lower (attribute "protocol_wrapper" c.settings)
        (attribute "persona_preset" c.settings)
        (attribute "enable_http_handshake_emulation" c.settings)
      >>= λ protocol. ok (
          with_clients (array (text_items (reprs h.repr_client c.clients))) c.settings
          ++ ("config_path", text h.paths.config_path)
            ∷ ("protocol_details", object (fields protocol))
            ∷ [])

  -- The configuration that "init" saves
  unfoldable pub initialised :
      List (String × Option Value) → Option String → ServerConfig → Result ServerConfig
  unfolding construct merge given_entries ensure_defaults
  initialised values http c =
      construct linux_server_config (
        merge c.settings (
          given_entries
            (values ++ ("enable_http_handshake_emulation", emulation h.lower http) ∷ [])))
      >>= λ settings.
          ensure_defaults (h.keys 1) h.route (record { settings = settings; clients = c.clients })

  abbrev saving : ServerFiles → Result ServerConfig → Result Output × ServerFiles
  saving f (ok c) = (ok (printed_config (saved c)), save_server_config c f)
  saving f (err e) = (err e, f)

  abbrev reported : Result (Dict String Value) × ServerFiles → Result Output × ServerFiles
  reported (ok d, f) = (ok (printed_json d), f)
  reported (err e, f) = (err e, f)

  -- "install": `ensure_defaults` is called before the test of the host's name.
  abbrev installing : Result ServerConfig → ServerFiles → Result Output × ServerFiles
  installing (err e) f = (err e, f)
  installing (ok c) f =
      if has "public_host" c.settings
      then reported (install_server_assets (λ i. h.keys (2 + i)) h.route h.paths h.environment c f)
      else (err (runtime_error "public_host must be configured before install"), f)

  abbrev summarised :
      Format → String → Result ServerConfig × ServerFiles → Result Output × ServerFiles
  summarised fmt output (err e, f) = (err e, f)
  summarised fmt output (ok c, f) = (
    export_profile (h.keys 3) none c >>= λ p. profile_summary h.lower h.json p >>= λ summary. ok (
        print_payload fmt "Veil Linux exported client profile"
          (("output", text output) ∷ ("summary", object (fields summary)) ∷ [])),
    f,
  )

  abbrev called : List (List String) → Result Output
  called [] = ok silent
  called (c ∷ cs) =
      let rest = called cs in if h.returncode c == 0 then rest else err called_process_error

  abbrev when_hosted : ServerConfig → Result Output → Result Output
  when_hosted c out =
      if has "public_host" c.settings
      then out
      else err (runtime_error "public_host must be configured before exporting a client profile")

  -- The commands that need the configuration
  unfoldable pub configured :
      Format → Subcommand → ServerConfig → ServerFiles → Result Output × ServerFiles
  unfolding has read_server_status print_payload config_payload initialised save_server_config saved
      install_server_assets export_profile to_import_token sort_keys write_client_profile
      profile_summary catalog_text protocol_catalog_payload ensure_defaults
  configured fmt run_doctor c f = (ok silent, f)
  configured fmt gen_psk c f = (ok silent, f)
  configured fmt status c f = (
    read_server_status h.lower h.json (h.keys 1) h.paths h.systemctl f c >>= λ payload.
        ok (print_payload fmt "Veil Linux server status" payload),
    f,
  )
  configured fmt show_config c f = (
    config_payload c >>= λ payload.
        shown fmt c.clients (print_payload fmt "Veil Linux server config" payload),
    f,
  )
  configured as_json list_protocol_options c f = (ok (printed_json protocol_catalog_payload), f)
  configured as_text list_protocol_options c f = (ok (printed catalog_text), f)
  configured fmt (initialise values http) c f = saving f (initialised values http c)
  configured fmt install c f = installing (ensure_defaults (h.keys 1) h.route c) f
  configured fmt export_client_profile c f = (
    when_hosted c (export_profile (h.keys 1) none c >>= λ p. ok (printed_profile (sort_keys p))),
    f,
  )
  configured fmt export_client_token c f = (
    when_hosted c
        (export_profile (h.keys 1) none c >>= λ p. ok (printed (to_import_token h.json p))),
    f,
  )
  configured fmt (write_profile output) c f =
      if has "public_host" c.settings
      then summarised fmt output (write_client_profile h.keys h.route 1 2 output c f)
      else (
        err (runtime_error "public_host must be configured before exporting a client profile"),
        f,
      )
  configured fmt enable_service c f = (
    called (
        ("systemctl" ∷ "daemon-reload" ∷ [])
        ∷ ("systemctl" ∷ "enable" ∷ "--now" ∷ h.paths.service_name ∷ [])
        ∷ []),
    f,
  )
  configured fmt disable_service c f = (ok silent, f)

  abbrev with_file :
      Format → Subcommand → Result ServerConfig → ServerFiles → Result Output × ServerFiles
  with_file fmt command (ok c) f = configured fmt command c f
  with_file fmt command (err e) f = (err e, f)

  -- `main`
  unfoldable pub main : Format → Subcommand → ServerFiles → Result Output × ServerFiles
  unfolding doctor generate_psk_hex configured load_server_config
  main fmt run_doctor f =
      (ok (print_payload fmt "Veil Linux server doctor" (doctor h.environment)), f)
  main fmt gen_psk f = (generate_psk_hex 32 h.token_hex >>= λ key. ok (printed key), f)
  main fmt command f = with_file fmt command (load_file (h.keys 0) h.route f.config) f
