-- ===== src/Config/Server/Clients.antt =====
-- Clients of a server's configuration that have an id, a name and a key.
use veil_python_stack.Prelude.{
  ℕ, suc, ◌≡◌, refl, ap, String, true, false, Option, List, [], ◌∷◌, arith, string_eq, ◌==◌,
  if◌then◌else◌, All, Bool-cases, inl, inr,
}
use veil_python_stack.Prelude.Dict.{insert, lookup-insert}
use veil_python_stack.Message.{Value, text, truthy}
use veil_python_stack.Dataclass.{Instance, attribute, set_attribute}
use veil_python_stack.Config.{has}
use veil_python_stack.Config.Server.{
  set_default, name_or_default, with_id, with_name, ensure_client_defaults, ensure_all_clients,
  enabled_clients, pick, resolve_export_client,
}

pub has-insert :
    (k j : String) (v : Value) (i : Instance)
    → has k (insert j v i) ≡ (if j == k then truthy v else has k i)
unfolding has attribute
has-insert k j v i = ground (arith, lookup-insert j k v i)

-- What is there stays, and the attribute that gets a default is there.
pub has-set_default :
    (k j : String) (v : Value) (i : Instance)
    → has k i ≡ true
    → truthy v ≡ true
    → has k (set_default j v i) ≡ true
unfolding set_attribute
has-set_default k j v i h full = ground (arith, h, full, has-insert k j v i)

pub set_default-has :
    (k : String) (v : Value) (i : Instance) → truthy v ≡ true → has k (set_default k v i) ≡ true
unfolding set_attribute
set_default-has k v i full = ground (arith, full, has-insert k k v i, string_eq.beq_iff k k)

unfoldable pub IsFull : String → Type 0
IsFull s = (s == "") ≡ false

pub full-truthy : (s : String) → IsFull s → truthy (text s) ≡ true
unfolding truthy IsFull
full-truthy s h = ground (arith, h)

unfoldable pub IsSettledClient : Instance → Type 0
IsSettledClient i =
    (has "client_id" i ≡ true) × (has "client_name" i ≡ true) × (has "psk_hex" i ≡ true)

name_or_default-truthy : (i : Instance) → truthy (name_or_default i) ≡ true
unfolding has truthy
name_or_default-truthy i = elim (Bool-cases (has "client_name" i)) [
  | inl y ↦ rw y y
  | inr n ↦ rw n refl
]

id-truthy : (i : Instance) → truthy (attribute "client_id" (with_id i)) ≡ true
unfolding has
id-truthy i = set_default-has "client_id" (name_or_default i) i (name_or_default-truthy i)

pub ensure_client_defaults-IsSettledClient :
    (key : String) (i : Instance) → IsFull key → IsSettledClient (ensure_client_defaults key i)
unfolding ensure_client_defaults IsSettledClient
ensure_client_defaults-IsSettledClient key i h =
    let key_there = full-truthy key h in
    let id_there = set_default-has "client_id" (name_or_default i) i (name_or_default-truthy i) in
    let named = with_name (with_id i) in
    (
      has-set_default "client_id" "psk_hex" (text key) named
          (has-set_default "client_id" "client_name" (attribute "client_id" (with_id i)) (with_id i)
            id_there (id-truthy i))
          key_there,
      has-set_default "client_name" "psk_hex" (text key) named
          (set_default-has "client_name" (attribute "client_id" (with_id i)) (with_id i)
            (id-truthy i))
          key_there,
      set_default-has "psk_hex" (text key) named key_there,
    )

pub ensure_client_defaults-same :
    (key : String) (i : Instance) → IsSettledClient i → ensure_client_defaults key i ≡ i
unfolding ensure_client_defaults IsSettledClient
ensure_client_defaults-same key i (id_there, name_there, key_there) =
    rw (id_there, name_there, key_there) refl

module _ (keys : ℕ → String) where
  pub ensure_all_clients-settles :
      (n : ℕ) (cs : List Instance)
      → ((k : ℕ) → IsFull (keys k))
      → All IsSettledClient (ensure_all_clients keys n cs)
  unfolding ensure_all_clients
  ensure_all_clients-settles n [] full = tt
  ensure_all_clients-settles n (c ∷ cs) full = (
    ensure_client_defaults-IsSettledClient (keys n) c (full n),
    ensure_all_clients-settles (suc n) cs full,
  )

  pub ensure_all_clients-same :
      (n : ℕ) (cs : List Instance) → All IsSettledClient cs → ensure_all_clients keys n cs ≡ cs
  unfolding ensure_all_clients
  ensure_all_clients-same n [] h = refl
  ensure_all_clients-same n (c ∷ cs) (hc, h) =
      rw (ensure_client_defaults-same (keys n) c hc, ensure_all_clients-same (suc n) cs h) refl

  -- The clients that are enabled, unchanged
  pub enabled_clients-same :
      (keys' : ℕ → String) (n : ℕ) (cs : List Instance)
      → All IsSettledClient cs
      → enabled_clients keys n cs ≡ enabled_clients keys' n cs
  unfolding enabled_clients
  enabled_clients-same keys' n [] h = refl
  enabled_clients-same keys' n (c ∷ cs) (hc, h) =
      rw
        (
          ensure_client_defaults-same (keys n) c hc,
          ensure_client_defaults-same (keys' n) c hc,
          enabled_clients-same keys' (suc n) cs h,
        )
        refl

pub resolve_export_client-same :
    (keys keys' : ℕ → String) (id : Option String) (cs : List Instance)
    → All IsSettledClient cs
    → resolve_export_client keys id cs ≡ resolve_export_client keys' id cs
unfolding resolve_export_client
resolve_export_client-same keys keys' id [] h = refl
resolve_export_client-same keys keys' id (c ∷ cs) h =
    ap (pick id) (enabled_clients-same keys keys' 0 (c ∷ cs) h)
