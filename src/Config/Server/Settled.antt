-- ===== src/Config/Server/Settled.antt =====
-- A server's configuration keeps its keys, names and interface once it has them.
use veil_python_stack.Prelude.{
  ℕ, ◌≡◌, refl, ◌∙◌, String, true, false, Option, none, some, List, [], ◌∷◌, string_eq, ◌==◌,
  if-Holds, All, Bool-cases, inl, inr,
}
use veil_python_stack.Prelude.Dict.{insert}
use veil_python_stack.Errors.{Result, ok, err, ◌>>=◌, index_error}
use veil_python_stack.Message.{Value, text}
use veil_python_stack.Dataclass.{Instance, set_attribute}
use veil_python_stack.Config.{has, ensure_compatible, is_incompatible}
use veil_python_stack.Dataclass.Typed.{Yields, Yields-bind}
use veil_python_stack.Config.Merged.{ensure_compatible_lem}
use veil_python_stack.Config.Server.{
  ServerConfig, word_after, ensure_all_clients, psk_default, with_interface, interface_of,
  autodetect_public_interface, ensure_defaults, export_profile,
}
use veil_python_stack.Config.Server.Clients.{
  IsFull, IsSettledClient, has-insert, set_default-has, full-truthy, ensure_all_clients-settles,
  ensure_all_clients-same, resolve_export_client-same,
}

-- Without clients there is a global key.
abbrev HasKey : List Instance → Instance → Type 0
HasKey [] i = has "psk_hex" i ≡ true
HasKey (c ∷ cs) i = Unit {0}

HasKey-insert :
    (cs : List Instance) (j : String) (v : Value) (i : Instance)
    → (j == "psk_hex") ≡ false
    → HasKey cs i
    → HasKey cs (insert j v i)
HasKey-insert [] j v i other h = rw (has-insert "psk_hex" j v i, other) h
HasKey-insert (c ∷ cs) j v i other h = tt

psk_default-HasKey :
    (keys : ℕ → String) (cs : List Instance) (i : Instance)
    → IsFull (keys 0)
    → HasKey cs (psk_default keys cs i)
psk_default-HasKey keys [] i full =
    set_default-has "psk_hex" (text (keys 0)) i (full-truthy (keys 0) full)
psk_default-HasKey keys (c ∷ cs) i full = tt

psk_default-same :
    (keys : ℕ → String) (cs : List Instance) (i : Instance)
    → HasKey cs i
    → psk_default keys cs i ≡ i
psk_default-same keys [] i h = rw h refl
psk_default-same keys (c ∷ cs) i h = refl

HasKey-clients :
    (keys : ℕ → String) (n : ℕ) (cs : List Instance) (i : Instance)
    → HasKey cs i
    → HasKey (ensure_all_clients keys n cs) i
unfolding ensure_all_clients
HasKey-clients keys n [] i h = h
HasKey-clients keys n (c ∷ cs) i h = tt

-- The settings and clients that `ensure_defaults` leaves as they are
pub record IsSettled (c : ServerConfig) : Type 0 where
  pub clients : All IsSettledClient c.clients
  pub key : HasKey c.clients c.settings
  pub interface : has "public_interface" c.settings ≡ true
  pub compatible : is_incompatible c.settings ≡ false

pub ensure_defaults-same :
    (keys : ℕ → String) (route : List String) (c : ServerConfig)
    → IsSettled c
    → ensure_defaults keys route c ≡ ok c
unfolding ensure_defaults ensure_compatible
ensure_defaults-same keys route c h =
    rw
      (
        psk_default-same keys c.clients c.settings h.key,
        h.interface,
        h.compatible,
        ensure_all_clients-same keys 0 c.clients h.clients,
      )
      refl

-- The settings between the test of the interface and that of the persona
abbrev IsNamed : List Instance → Instance → Type 0
IsNamed cs i = HasKey cs i × (has "public_interface" i ≡ true)

unfoldable FullWord : Option (Result String) → Type 0
unfolding Yields
FullWord none = Unit {0}
FullWord (some r) = Yields IsFull r

word_after-FullWord :
    (name : String) (ws : List String) → All IsFull ws → FullWord (word_after name ws)
unfolding word_after FullWord Yields
word_after-FullWord name [] h = tt
word_after-FullWord name (w ∷ []) h =
    if-Holds FullWord (w == name) (some (err (index_error "list index out of range"))) none tt tt
word_after-FullWord name (w ∷ v ∷ ws) (hw, (hv, h)) =
    if-Holds FullWord (w == name) (some (ok v)) (word_after name (v ∷ ws)) hv
      (word_after-FullWord name (v ∷ ws) (hv, h))

interface_of-Yields : (o : Option (Result String)) → FullWord o → Yields IsFull (interface_of o)
unfolding FullWord Yields
interface_of-Yields none h = tt
interface_of-Yields (some r) h = h

set_interface-Yields :
    (cs : List Instance) (r : Result String) (i : Instance)
    → HasKey cs i
    → Yields IsFull r
    → Yields (IsNamed cs) (r >>= λ dev. ok (set_attribute "public_interface" (text dev) i))
unfolding Yields set_attribute
set_interface-Yields cs (err e) i h full = tt
set_interface-Yields cs (ok dev) i h full = (
  HasKey-insert cs "public_interface" (text dev) i refl h,
  has-insert "public_interface" "public_interface" (text dev) i ∙ full-truthy dev full,
)

with_interface-Yields :
    (route : List String) (cs : List Instance) (i : Instance)
    → All IsFull route
    → HasKey cs i
    → Yields (IsNamed cs) (with_interface route i)
unfolding Yields autodetect_public_interface
with_interface-Yields route cs i full h = elim (Bool-cases (has "public_interface" i)) [
  | inl y ↦ rw y (h, y)
  | inr n ↦ rw n (
      set_interface-Yields cs (interface_of (word_after "dev" route)) i h
        (interface_of-Yields (word_after "dev" route) (word_after-FullWord "dev" route full)))
]

IsNamed-ensure_compatible :
    (cs : List Instance) (i : Instance) → IsNamed cs i → IsNamed cs (ensure_compatible i)
unfolding ensure_compatible set_attribute
IsNamed-ensure_compatible cs i h =
    if-Holds (IsNamed cs) (is_incompatible i) (insert "persona_preset" (text "custom") i) i
      (
        HasKey-insert cs "persona_preset" (text "custom") i refl h.0,
        has-insert "public_interface" "persona_preset" (text "custom") i ∙ h.1,
      )
      h

module _ (keys : ℕ → String) (route : List String) (full : (k : ℕ) → IsFull (keys k))
    (words_full : All IsFull route) where
  pub ensure_defaults-IsSettled :
      (c : ServerConfig) → Yields IsSettled (ensure_defaults keys route c)
  unfolding ensure_defaults Yields
  ensure_defaults-IsSettled c =
      Yields-bind (IsNamed c.clients) IsSettled
        (with_interface route (psk_default keys c.clients c.settings))
        (λ settings. ok (record {
          settings = ensure_compatible settings;
          clients = ensure_all_clients keys 0 c.clients;
        }))
        (with_interface-Yields route c.clients (psk_default keys c.clients c.settings) words_full
          (psk_default-HasKey keys c.clients c.settings (full 0)))
        (λ settings h. record {
          clients = ensure_all_clients-settles keys 0 c.clients full;
          key =
              HasKey-clients keys 0 c.clients (ensure_compatible settings)
                (IsNamed-ensure_compatible c.clients settings h).0;
          interface = (IsNamed-ensure_compatible c.clients settings h).1;
          compatible = ensure_compatible_lem settings;
        })

-- The exported profile depends on no generator.
pub export_profile-same :
    (keys keys' : ℕ → String) (id : Option String) (c : ServerConfig)
    → All IsSettledClient c.clients
    → export_profile keys id c ≡ export_profile keys' id c
unfolding export_profile
export_profile-same keys keys' id c h =
    rw (resolve_export_client-same keys keys' id c.clients h) refl
