-- ===== src/ServerApp/Install.antt =====
-- What `install_server_assets` leaves on the disk fits together.
use veil_python_stack.Prelude.{
  ℕ, ◌≡◌, refl, ◌∙◌, String, true, not, none, some, List, [], ◌∷◌, string_eq, if-true, if-Holds,
  subst, All,
}
use veil_python_stack.Prelude.Dict.{Dict, lookup, lookup-insert, beq_refl}
use veil_python_stack.Errors.{Result, ok, err, runtime_error}
use veil_python_stack.Message.{Value}
use veil_python_stack.Dataclass.{Instance, has_field}
use veil_python_stack.Dataclass.Laws.{is_distinct}
use veil_python_stack.Dataclass.Typed.{Yields}
use veil_python_stack.Config.Server.{
  ServerConfig, server_client_config, linux_server_config, construct_clients, ensure_defaults,
  export_profile, load_server_config,
}
use veil_python_stack.Config.Server.Typed.{IsServerConfig, AreClients, ensure_defaults-Yields}
use veil_python_stack.Config.Server.Clients.{IsFull}
use veil_python_stack.Config.Server.Settled.{
  IsSettled, ensure_defaults-same, ensure_defaults-IsSettled, export_profile-same,
}
use veil_python_stack.Config.Token.{sort_keys}
use veil_python_stack.Config.Token.RoundTrip.{construct-sort_keys}
use veil_python_stack.ServerApp.{
  Paths, ServerEnvironment, ServerFiles, saved, sort_all, save_server_config, write_client_profile,
  wrote, place_scripts, install_ensured, install_server_assets,
}

client_distinct : is_distinct server_client_config ≡ true
unfolding is_distinct has_field
client_distinct = refl

server_distinct : is_distinct linux_server_config ≡ true
unfolding is_distinct has_field
server_distinct = refl

construct_clients-sort_all :
    (cs : List Instance) → AreClients cs → construct_clients (sort_all cs) ≡ ok cs
unfolding AreClients
construct_clients-sort_all [] h = refl
construct_clients-sort_all (c ∷ cs) (hc, h) =
    rw
      (
        construct-sort_keys server_client_config c client_distinct hc,
        construct_clients-sort_all cs h,
      )
      refl

-- A saved configuration without missing defaults is loaded again.
pub load_server_config-saved :
    (keys : ℕ → String) (route : List String) (c : ServerConfig)
    → IsServerConfig c
    → IsSettled c
    → load_server_config keys route (saved c).settings (saved c).clients ≡ ok c
unfolding load_server_config saved IsServerConfig
load_server_config-saved keys route c h settled =
    rw
      (
        construct_clients-sort_all c.clients h.1,
        construct-sort_keys linux_server_config c.settings server_distinct h.0,
        ensure_defaults-same keys route c settled,
      )
      refl

-- The files fit together: the configuration's file is loaded as one configuration and the profile's is
-- the profile that it exports, whatever keys are generated then.
pub record FitTogether (path : String) (f : ServerFiles) : Type 0 where
  pub config : ServerConfig
  pub profile : Instance
  pub config_saved : f.config ≡ some (saved config)
  pub loaded :
      (keys : ℕ → String) (route : List String)
      → load_server_config keys route (saved config).settings (saved config).clients ≡ ok config
  pub exported : (keys : ℕ → String) → export_profile keys none config ≡ ok profile
  pub profile_saved : lookup path f.profiles ≡ some (sort_keys profile)

-- What is returned comes with such files.
unfoldable Fits : String → Result (Dict String Value) × ServerFiles → Type 0
Fits path (ok d, f) = FitTogether path f
Fits path (err e, f) = Unit {0}

module _ (keys : ℕ → ℕ → String) (route : List String) (p : Paths) (e : ServerEnvironment) where
  wrote-Fits :
      (c : ServerConfig) (f : ServerFiles) (r : Result Instance)
      → IsServerConfig c
      → IsSettled c
      → export_profile (keys 2) none c ≡ r
      → Fits p.client_profile_path (
          place_scripts keys route p e
            (wrote keys route p.client_profile_path c (save_server_config c f) r))
  unfolding save_server_config Fits
  wrote-Fits c f (err x) h settled exports = tt
  wrote-Fits c f (ok profile) h settled exports = record {
    config = c;
    profile = profile;
    config_saved = refl;
    loaded = λ keys' route'. load_server_config-saved keys' route' c h settled;
    exported = λ keys'. export_profile-same keys' (keys 2) none c settled.clients ∙ exports;
    profile_saved =
        lookup-insert p.client_profile_path p.client_profile_path (sort_keys profile) f.profiles
        ∙ if-true _ _ (beq_refl p.client_profile_path);
  }

  install_ensured-Fits :
      (r : Result ServerConfig) (f : ServerFiles)
      → Yields IsServerConfig r
      → Yields IsSettled r
      → Fits p.client_profile_path (install_ensured keys route p e r f)
  unfolding write_client_profile Yields Fits
  install_ensured-Fits (err x) f h settled = tt
  install_ensured-Fits (ok c) f h settled =
      rw (ensure_defaults-same (keys 1) route c settled)
        (wrote-Fits c f (export_profile (keys 2) none c) h settled refl)

-- When installing a configuration of the right fields returns, and neither the generated keys nor the
-- words of the route are empty, the configuration that was saved is loaded again as it was, whatever
-- keys are generated then, and exports the very profile that was saved for the client, keys included.
pub install_server_assets-FitTogether :
    (keys : ℕ → ℕ → String) (route : List String) (p : Paths) (e : ServerEnvironment)
    (c : ServerConfig) (f : ServerFiles) (d : Dict String Value) (f' : ServerFiles)
    → ((k : ℕ) → IsFull (keys 0 k))
    → All IsFull route
    → IsServerConfig c
    → install_server_assets keys route p e c f ≡ (ok d, f')
    → FitTogether p.client_profile_path f'
unfolding install_server_assets Fits
install_server_assets-FitTogether keys route p e c f d f' full words_full h done =
    subst (Fits p.client_profile_path) done (
      if-Holds (Fits p.client_profile_path) (not e.is_root)
        (err (runtime_error "Server installation must run as root"), f)
        (install_ensured keys route p e (ensure_defaults (keys 0) route c) f) tt
        (install_ensured-Fits keys route p e (ensure_defaults (keys 0) route c) f
          (ensure_defaults-Yields (keys 0) route c h)
          (ensure_defaults-IsSettled (keys 0) route full words_full c)))
