-- ===== src/Config/Server/Typed.antt =====
-- What loading a server's configuration returns.
use veil_python_stack.Prelude.{
  ◌≡◌, refl, ℕ, suc, String, true, List, [], ◌∷◌, string_eq, All, if-Holds,
}
use veil_python_stack.Prelude.Dict.{Dict, insert}
use veil_python_stack.Errors.{Result, ok, err, ◌>>=◌}
use veil_python_stack.Message.{Value, text}
use veil_python_stack.Dataclass.{Class, Instance, has_field, construct, set_attribute, attribute}
use veil_python_stack.Dataclass.Laws.{IsInstance}
use veil_python_stack.Dataclass.Typed.{Yields, Yields-bind, construct-Yields}
use veil_python_stack.Config.{has, ensure_compatible, is_incompatible}
use veil_python_stack.Config.Server.{
  ServerConfig, server_client_config, linux_server_config, set_default, name_or_default, with_id,
  with_name, ensure_client_defaults, ensure_all_clients, psk_default, with_interface,
  autodetect_public_interface, ensure_defaults, construct_clients, load_server_config,
}
use veil_python_stack.Config.Merged.{insert-IsInstance}

module _ (cls : Class) where
  set_default-IsInstance :
      (k : String) (v : Value) (i : Instance)
      → has_field k cls ≡ true
      → IsInstance cls i
      → IsInstance cls (set_default k v i)
  unfolding set_attribute
  set_default-IsInstance k v i there h =
      if-Holds (IsInstance cls) (has k i) i (insert k v i) h (insert-IsInstance cls k v i there h)

  pub ensure_compatible-Keeps :
      (i : Instance)
      → has_field "persona_preset" cls ≡ true
      → IsInstance cls i
      → IsInstance cls (ensure_compatible i)
  unfolding ensure_compatible set_attribute
  ensure_compatible-Keeps i there h =
      if-Holds (IsInstance cls) (is_incompatible i) (insert "persona_preset" (text "custom") i) i
        (insert-IsInstance cls "persona_preset" (text "custom") i there h) h

-- The four fields of a client are fields of its class.
client_fields :
    (has_field "client_id" server_client_config ≡ true)
    × (has_field "client_name" server_client_config ≡ true)
    × (has_field "psk_hex" server_client_config ≡ true)
unfolding has_field
client_fields = (refl, refl, refl)

server_fields :
    (has_field "psk_hex" linux_server_config ≡ true)
    × (has_field "public_interface" linux_server_config ≡ true)
    × (has_field "persona_preset" linux_server_config ≡ true)
unfolding has_field
server_fields = (refl, refl, refl)

ensure_client_defaults-IsInstance :
    (key : String) (i : Instance)
    → IsInstance server_client_config i
    → IsInstance server_client_config (ensure_client_defaults key i)
unfolding ensure_client_defaults
ensure_client_defaults-IsInstance key i h =
    let keep = set_default-IsInstance server_client_config in
    keep "psk_hex" (text key) (with_name (with_id i)) client_fields.2 (
      keep "client_name" (attribute "client_id" (with_id i)) (with_id i) client_fields.1
        (keep "client_id" (name_or_default i) i client_fields.0 h))

unfoldable pub AreClients : List Instance → Type 0
AreClients cs = All (IsInstance server_client_config) cs

ensure_all_clients-AreClients :
    (keys : ℕ → String) (n : ℕ) (cs : List Instance)
    → AreClients cs
    → AreClients (ensure_all_clients keys n cs)
unfolding ensure_all_clients AreClients
ensure_all_clients-AreClients keys n [] h = tt
ensure_all_clients-AreClients keys n (c ∷ cs) h = (
  ensure_client_defaults-IsInstance (keys n) c h.0,
  ensure_all_clients-AreClients keys (suc n) cs h.1,
)

construct_clients-AreClients :
    (ds : List (Dict String Value)) → Yields AreClients (construct_clients ds)
unfolding AreClients Yields
construct_clients-AreClients [] = tt
construct_clients-AreClients (d ∷ ds) =
    Yields-bind (IsInstance server_client_config) AreClients (construct server_client_config d)
      (λ c. construct_clients ds >>= λ cs. ok (c ∷ cs)) (construct-Yields server_client_config d)
      (λ c hc.
        Yields-bind AreClients AreClients (construct_clients ds) (λ cs. ok (c ∷ cs))
          (construct_clients-AreClients ds) (λ cs hcs. (hc, hcs)))

psk_default-IsInstance :
    (keys : ℕ → String) (cs : List Instance) (i : Instance)
    → IsInstance linux_server_config i
    → IsInstance linux_server_config (psk_default keys cs i)
psk_default-IsInstance keys [] i h =
    set_default-IsInstance linux_server_config "psk_hex" (text (keys 0)) i server_fields.0 h
psk_default-IsInstance keys (c ∷ cs) i h = h

named_interface-Yields :
    (r : Result String) (i : Instance)
    → IsInstance linux_server_config i
    → Yields
        (IsInstance linux_server_config)
        (r >>= λ dev. ok (set_attribute "public_interface" (text dev) i))
unfolding Yields set_attribute
named_interface-Yields (ok dev) i h =
    insert-IsInstance linux_server_config "public_interface" (text dev) i server_fields.1 h
named_interface-Yields (err e) i h = tt

with_interface-Yields :
    (route : List String) (i : Instance)
    → IsInstance linux_server_config i
    → Yields (IsInstance linux_server_config) (with_interface route i)
unfolding Yields
with_interface-Yields route i h =
    if-Holds (Yields (IsInstance linux_server_config)) (has "public_interface" i) (ok i)
      (autodetect_public_interface route >>= λ dev.
        ok (set_attribute "public_interface" (text dev) i))
      h (named_interface-Yields (autodetect_public_interface route) i h)

-- The settings and all clients are objects of their classes.
unfoldable pub IsServerConfig : ServerConfig → Type 0
IsServerConfig c = IsInstance linux_server_config c.settings × AreClients c.clients

pub ensure_defaults-Yields :
    (keys : ℕ → String) (route : List String) (c : ServerConfig)
    → IsServerConfig c
    → Yields IsServerConfig (ensure_defaults keys route c)
unfolding ensure_defaults IsServerConfig Yields
ensure_defaults-Yields keys route c h =
    Yields-bind (IsInstance linux_server_config) IsServerConfig
      (with_interface route (psk_default keys c.clients c.settings))
      (λ settings. ok (record {
        settings = ensure_compatible settings;
        clients = ensure_all_clients keys 0 c.clients;
      }))
      (with_interface-Yields route (psk_default keys c.clients c.settings)
        (psk_default-IsInstance keys c.clients c.settings h.0))
      (λ settings hs. (
        ensure_compatible-Keeps linux_server_config settings server_fields.2 hs,
        ensure_all_clients-AreClients keys 0 c.clients h.1,
      ))

pub load_server_config-Yields :
    (keys : ℕ → String) (route : List String) (raw : Dict String Value)
    (clients : List (Dict String Value))
    → Yields IsServerConfig (load_server_config keys route raw clients)
unfolding load_server_config IsServerConfig
load_server_config-Yields keys route raw clients =
    Yields-bind AreClients IsServerConfig (construct_clients clients)
      (λ cs. construct linux_server_config raw >>= λ settings.
        ensure_defaults keys route (record { settings = settings; clients = cs }))
      (construct_clients-AreClients clients)
      (λ cs hcs.
        Yields-bind (IsInstance linux_server_config) IsServerConfig
          (construct linux_server_config raw)
          (λ settings. ensure_defaults keys route (record { settings = settings; clients = cs }))
          (construct-Yields linux_server_config raw)
          (λ settings hs.
            ensure_defaults-Yields keys route (record { settings = settings; clients = cs })
              (hs, hcs)))
