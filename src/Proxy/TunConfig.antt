-- ===== src/Proxy/TunConfig.antt =====
-- veil_core/linux_proxy.py: `LinuxTunConfig`, the commands of `LinuxTunDevice`, and how
-- `LinuxVpnProxyClient` asks for and resolves its configuration.
use veil_python_stack.Prelude.{
  ℕ, ◌+◌, String, Bool, true, false, not, Option, none, some, List, [], ◌∷◌, ◌++◌, string_eq, ◌==◌,
  if◌then◌else◌, or_default,
}
use veil_python_stack.Prelude.Dict.{Dict, lookup}
use veil_python_stack.Prelude.Int.{ℤ}
use veil_python_stack.Errors.{Result, ok, err, runtime_error}
use veil_python_stack.Text.{strip}
use veil_python_stack.Message.{
  Value, null, boolean, number, decimal, text, array, object, Items, nil, cons, Json, str_of,
  truthy, show_int,
}
use veil_python_stack.Proxy.{texts}

pub record TunConfig : Type 0 where
  pub name : String
  pub address_cidr : Option String
  pub peer_address : Option String
  pub mtu : ℤ
  pub routes : List String

-- Whether Python counts an optional text as true
abbrev given : Option String → Bool
given none = false
given (some s) = not (s == "")

abbrev peer_words : Option String → List String
peer_words none = []
peer_words (some peer) = if peer == "" then [] else "peer" ∷ peer ∷ []

abbrev address_command : String → Option String → String → List String
address_command interface_name peer address =
    ("ip" ∷ "addr" ∷ "replace" ∷ address ∷ []) ++ (peer_words peer ++ "dev" ∷ interface_name ∷ [])

abbrev route_command : String → String → List String
route_command interface_name route =
    "ip" ∷ "route" ∷ "replace" ∷ route ∷ "dev" ∷ interface_name ∷ []

abbrev route_commands : String → List String → List (List String)
route_commands interface_name [] = []
route_commands interface_name (r ∷ rs) =
    route_command interface_name r ∷ route_commands interface_name rs

-- `build_setup_commands`
unfoldable pub build_setup_commands : String → TunConfig → Result (List (List String))
build_setup_commands interface_name c =
    if given c.address_cidr
    then ok (
        address_command interface_name c.peer_address (or_default c.address_cidr "")
        ∷ ("ip" ∷ "link" ∷ "set" ∷ "dev" ∷ interface_name ∷ "mtu" ∷ show_int c.mtu ∷ "up" ∷ [])
        ∷ route_commands interface_name c.routes)
    else err (runtime_error "address_cidr must be resolved before configuring a Linux TUN device")

-- `build_cleanup_commands`
unfoldable pub build_cleanup_commands : String → List (List String)
build_cleanup_commands interface_name =
    ("ip" ∷ "link" ∷ "delete" ∷ "dev" ∷ interface_name ∷ []) ∷ []

-- `resolved`
unfoldable pub resolved : String → Option String → Option (List String) → TunConfig → TunConfig
resolved address_cidr peer_address routes c = record c {
  address_cidr = some address_cidr;
  peer_address = peer_address;
  routes = or_default routes c.routes;
}

-- A TUN device: its commands run, and how often its file was closed
pub record TunDevice : Type 0 where
  pub name : String
  pub is_closed : Bool
  pub commands : List (List String)
  pub fd_closes : ℕ

-- `LinuxTunDevice.close`: a command that fails is passed over.
unfoldable pub close : TunDevice → TunDevice
unfolding build_cleanup_commands
close d = if d.is_closed then d else record d {
  is_closed = true;
  commands = d.commands ++ build_cleanup_commands d.name;
  fd_closes = d.fd_closes + 1;
}

abbrev entry_if : String → Option String → Dict String Value
entry_if key none = []
entry_if key (some s) = if s == "" then [] else (key, text s) ∷ []

abbrev routes_entry : List String → Dict String Value
routes_entry [] = []
routes_entry (r ∷ rs) = ("routes", array (texts (r ∷ rs))) ∷ []

-- `_build_hello_payload`
unfoldable pub build_hello_payload : TunConfig → Dict String Value
build_hello_payload c =
    ("tunnel_mode", text (if given c.address_cidr then "static" else "dynamic"))
    ∷ (entry_if "requested_tun_address" c.address_cidr
        ++ (entry_if "requested_tun_peer" c.peer_address ++ routes_entry c.routes))

module _ (json : Json) where
  -- `parameters.get("tun_address") or self._tun_config.address_cidr or ""`, as a text
  abbrev address_of : Option String → Option Value → String
  address_of own none = or_default own ""
  address_of own (some v) = if truthy v then str_of json v else or_default own ""

  abbrev peer_of : Option String → Option Value → Option String
  peer_of own none = own
  peer_of own (some null) = own
  peer_of own (some (boolean b)) = some (strip (str_of json (boolean b)))
  peer_of own (some (number n)) = some (strip (str_of json (number n)))
  peer_of own (some (decimal n k)) = some (strip (str_of json (decimal n k)))
  peer_of own (some (text s)) = if strip s == "" then own else some (strip s)
  peer_of own (some (array vs)) =
      if strip (str_of json (array vs)) == "" then own else some (strip (str_of json (array vs)))
  peer_of own (some (object fs)) =
      if strip (str_of json (object fs)) == "" then own else some (strip (str_of json (object fs)))

  -- `tuple(str(item) for item in negotiated_routes if str(item).strip())`
  abbrev route_texts : Items → List String
  route_texts nil = []
  route_texts (cons v vs) =
      let rest = route_texts vs in
      if strip (str_of json v) == "" then rest else str_of json v ∷ rest

  abbrev routes_of : List String → Option Value → List String
  routes_of own none = own
  routes_of own (some (array nil)) = own
  routes_of own (some (array (cons v vs))) = route_texts (cons v vs)
  routes_of own (some null) = own
  routes_of own (some (boolean b)) = own
  routes_of own (some (number n)) = own
  routes_of own (some (decimal n k)) = own
  routes_of own (some (text s)) = own
  routes_of own (some (object fs)) = own

  abbrev with_address : Dict String Value → TunConfig → String → Result TunConfig
  with_address parameters c address =
      if address == ""
      then err (
          runtime_error
            "VPN server did not provide a tunnel address and no static client address is configured")
      else ok (
          resolved address (peer_of c.peer_address (lookup "tun_peer" parameters))
            (some (routes_of c.routes (lookup "routes" parameters))) c)

  -- `_resolve_tun_config`, of the peer's parameters
  unfoldable pub resolve_tun_config : Dict String Value → TunConfig → Result TunConfig
  unfolding strip str_of truthy resolved
  resolve_tun_config parameters c =
      with_address parameters c
        (strip (address_of c.address_cidr (lookup "tun_address" parameters)))
