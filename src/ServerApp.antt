-- ===== src/ServerApp.antt =====
-- veil_core/linux_server_app.py: how the server is installed, and its status. `keys i n` is the n-th
-- key that the i-th call generates, had each client wanted one; `route` are the words that
-- `ip route get` prints.
pub mod Status
pub mod Control
pub mod Main
pub mod Install
use veil_python_stack.Prelude.{
  ℕ, String, Bool, true, false, ◌&&◌, ◌||◌, not, Option, none, some, List, [], ◌∷◌, ◌++◌, nat_eq,
  string_eq, ◌==◌, if◌then◌else◌, or_default,
}
use veil_python_stack.Prelude.Dict.{Dict, insert}
use veil_python_stack.Errors.{Result, ok, err, ◌>>=◌, runtime_error}
use veil_python_stack.Message.{Value, null, boolean, text, object, Json, fields}
use veil_python_stack.Text.{cat, strip}
use veil_python_stack.Text.Quote.{quote}
use veil_python_stack.Catalog.Payload.{describe_payload}
use veil_python_stack.Linux.{Completed}
use veil_python_stack.Dataclass.{Instance, attribute}
use veil_python_stack.Config.{has}
use veil_python_stack.Config.Server.{ServerConfig, ensure_defaults, export_profile, same_fields}
use veil_python_stack.Config.Token.{sort_keys, to_import_token}

-- `LinuxServerPaths`, without the directories of the files
pub record Paths : Type 0 where
  pub repo_root : String
  pub config_path : String
  pub client_profile_path : String
  pub service_name : String
  pub service_path : String
  pub launcher_path : String
  pub ctl_script_path : String
  pub server_script_path : String

-- `LinuxServerPaths.detect`
abbrev pub detect_paths : String → Paths
detect_paths root = record {
  repo_root = root;
  config_path = "/etc/veil-vpn/server.json";
  client_profile_path = "/var/lib/veil-vpn/client-profile.json";
  service_name = "veil-vpn-server.service";
  service_path = "/etc/systemd/system/veil-vpn-server.service";
  launcher_path = "/usr/local/bin/veil-vpn-server";
  ctl_script_path = cat root "/desktop/veil_vpn_server_ctl.py";
  server_script_path = cat root "/desktop/veil_vpn_server.py";
}

-- `LinuxServerEnvironment`, and what its `doctor` asks of the machine
pub record ServerEnvironment : Type 0 where
  pub executable : String
  pub python3 : Option String
  pub ip : Option String
  pub iptables : Option String
  pub systemctl : Option String
  pub tun_exists : Bool
  pub tun_readable : Bool
  pub tun_writable : Bool
  pub is_root : Bool

abbrev optional : Option String → Value
optional none = null
optional (some s) = text s

-- `doctor`
unfoldable pub doctor : ServerEnvironment → Dict String Value
doctor e =
    ("python3", optional e.python3)
    ∷ ("ip", optional e.ip)
    ∷ ("iptables", optional e.iptables)
    ∷ ("systemctl", optional e.systemctl)
    ∷ (
      "tun_device",
      object (
          fields (
            ("path", text "/dev/net/tun")
            ∷ ("exists", boolean e.tun_exists)
            ∷ ("readable", boolean e.tun_readable)
            ∷ ("writable", boolean e.tun_writable)
            ∷ [])),
    )
    ∷ ("is_root", boolean e.is_root)
    ∷ []

-- The files of the server. The configuration's and the profiles' are the JSON objects of their texts,
-- the configuration's "clients" apart; the profiles are given by their paths.
pub record ServerFiles : Type 0 where
  pub config : Option ServerConfig
  pub profiles : Dict String Instance
  pub launcher : Option String
  pub launcher_mode : ℕ
  pub service : Option String

abbrev pub sort_all : List Instance → List (Dict String Value)
sort_all [] = []
sort_all (c ∷ cs) = sort_keys c ∷ sort_all cs

-- The object that `to_json` writes
unfoldable pub saved : ServerConfig → ServerConfig
unfolding sort_keys
saved c = record { settings = sort_keys c.settings; clients = sort_all c.clients }

-- `save_server_config`
unfoldable pub save_server_config : ServerConfig → ServerFiles → ServerFiles
unfolding saved
save_server_config c f = record f { config = some (saved c) }

abbrev non_empty_or : String → Option String → String
non_empty_or default none = default
non_empty_or default (some s) = if s == "" then default else s

-- `render_server_launcher`
unfoldable pub render_server_launcher : Paths → ServerEnvironment → String
unfolding quote
render_server_launcher p e = cat "#!/usr/bin/env bash\nset -euo pipefail\nexport PYTHONPATH=" (
    cat (quote p.repo_root) (
      cat "\nexec " (
        cat (quote (non_empty_or e.executable e.python3)) (
          cat " " (
            cat (quote p.server_script_path)
              (cat " --config " (cat (quote p.config_path) "\n")))))))

-- `render_server_service`
unfoldable pub render_server_service : Paths → String
render_server_service p =
    cat
      "[Unit]\nDescription=Veil VPN Server\nAfter=network-online.target\nWants=network-online.target\n\n[Service]\nType=simple\nExecStart="
      (cat p.launcher_path
        "\nRestart=always\nRestartSec=2\n\n[Install]\nWantedBy=multi-user.target\n")

module _ (keys : ℕ → ℕ → String) (route : List String) where
  abbrev pub wrote :
      String → ServerConfig → ServerFiles → Result Instance → Result ServerConfig × ServerFiles
  wrote path c f (ok profile) =
      (ok c, record f { profiles = insert path (sort_keys profile) f.profiles })
  wrote path c f (err e) = (err e, f)

  abbrev pub export_ensured :
      ℕ → String → Result ServerConfig → ServerFiles → Result ServerConfig × ServerFiles
  export_ensured i path (ok c) f = wrote path c f (export_profile (keys i) none c)
  export_ensured i path (err e) f = (err e, f)

  -- `write_client_profile`, by the keys of calls `i` and `j`; also what the configuration is after
  unfoldable pub write_client_profile :
      (i j : ℕ) (path : String) → ServerConfig → ServerFiles → Result ServerConfig × ServerFiles
  unfolding ensure_defaults export_profile sort_keys insert
  write_client_profile i j path c f = export_ensured j path (ensure_defaults (keys i) route c) f

  abbrev pub place_scripts :
      Paths
      → ServerEnvironment
      → Result ServerConfig × ServerFiles
      → Result (Dict String Value) × ServerFiles
  place_scripts p e (err x, f) = (err x, f)
  place_scripts p e (ok c, f) = (
    ok (
        ("config_path", text p.config_path)
        ∷ ("client_profile_path", text p.client_profile_path)
        ∷ ("launcher_path", text p.launcher_path)
        ∷ ("service_path", text p.service_path)
        ∷ []),
    record f {
      launcher = some (render_server_launcher p e);
      launcher_mode = 493;
      service = some (render_server_service p);
    },
  )

  abbrev pub install_ensured :
      Paths
      → ServerEnvironment
      → Result ServerConfig
      → ServerFiles
      → Result (Dict String Value) × ServerFiles
  install_ensured p e (err x) f = (err x, f)
  install_ensured p e (ok c) f =
      place_scripts p e (write_client_profile 1 2 p.client_profile_path c (save_server_config c f))

  -- `install_server_assets`; 493 is 0o755. That the directories are made is left out.
  unfoldable pub install_server_assets :
      Paths
      → ServerEnvironment
      → ServerConfig
      → ServerFiles
      → Result (Dict String Value) × ServerFiles
  unfolding ensure_defaults write_client_profile save_server_config render_server_launcher
      render_server_service
  install_server_assets p e c f =
      if not e.is_root
      then (err (runtime_error "Server installation must run as root"), f)
      else install_ensured p e (ensure_defaults (keys 0) route c) f
