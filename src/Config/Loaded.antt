-- ===== src/Config/Loaded.antt =====
-- Which values `load_client_config` of the Windows client gives to the fields of a configuration.
use veil_python_stack.Prelude.{
  ◌≡◌, refl, ◌∙◌, String, Bool, true, ◌&&◌, ◌||◌, not, Option, List, [], ◌∷◌, arith, string_eq,
  ◌==◌, if◌then◌else◌, subst, Bool-cases, inl, inr,
}
use veil_python_stack.Prelude.Dict.{Dict, lookup, merge}
use veil_python_stack.Errors.{ok}
use veil_python_stack.Message.{Value, is_text}
use veil_python_stack.Dataclass.{Class, Instance, has_field, all_fields, construct}
use veil_python_stack.Dataclass.Laws.{IsInstance, is_distinct, construct-IsInstance}
use veil_python_stack.Dataclass.Filled.{
  over, default_of, has_defaults, filled, fill-filled, filled-IsInstance, lookup-filled,
  attribute-filled,
}
use veil_python_stack.Config.Merged.{merge-IsInstance}
use veil_python_stack.Config.Windows.Entries.{
  lookup-known_entries, all_fields-known_entries, is_among, lookup-merge-entries_of, renamed_name,
  renamed_other,
}
use veil_python_stack.Config.Windows.{
  windows_client_config, renamed, known_entries, looks_like_legacy_placeholder_config, reset_fields,
  entries_of, upgrade, load_windows_config,
}

-- The fields that a configuration of an older version keeps
abbrev kept_fields : List String
kept_fields =
    "client_name" ∷ "client_id" ∷ "reconnect" ∷ "auto_connect" ∷ "full_tunnel"
    ∷ "disable_system_proxy" ∷ "dns_servers" ∷ []

unfoldable are_split : Class → Bool
are_split [] = true
are_split ((j, default) ∷ fs) =
    let rest = are_split fs in
    if is_among j reset_fields
    then not (is_among j kept_fields) && rest
    else is_among j kept_fields && rest

are_split-among :
    (cls : Class) (k : String)
    → are_split cls ≡ true
    → has_field k cls ≡ true
    → is_among k reset_fields ≡ not (is_among k kept_fields)
unfolding are_split has_field
are_split-among [] k h there = ground (arith, there)
are_split-among ((j, default) ∷ fs) k h there = elim (Bool-cases (j == k)) [
  | inl y ↦
      subst (λ i. is_among i reset_fields ≡ not (is_among i kept_fields))
        ((string_eq.beq_iff j k).0 y) (ground (arith, h))
  | inr n ↦ are_split-among fs k (ground (arith, h)) (ground (arith, there, n))
]

-- What the file gives for a field; the adapter's name had another key in older versions.
unfoldable named : Dict String Value → String → Option Value
named raw k =
    if "adapter_name" == k
    then over (lookup "adapter_name" raw) (lookup "tun_name" raw)
    else lookup k raw

abbrev given : Dict String Value → String → Option Value
given raw k = over (named raw k) (default_of k windows_client_config)

-- A value that only the placeholder configuration of an older version had
unfoldable is_older : Dict String Value → Bool
unfolding named default_of
is_older raw =
    is_text "LegacyTun" (given raw "adapter_name")
    || (is_text "10.0.0.2/30" (given raw "tun_address")
        || is_text "10.0.0.1" (given raw "tun_peer"))

-- What a field is after loading
unfoldable pub loaded : Dict String Value → String → Option Value
unfolding is_older named default_of is_among
loaded raw k =
    if is_older raw && not (is_among k kept_fields)
    then default_of k windows_client_config
    else given raw k

windows_defaults : has_defaults windows_client_config ≡ true
unfolding has_defaults
windows_defaults = refl

windows_distinct : is_distinct windows_client_config ≡ true
unfolding is_distinct has_field
windows_distinct = refl

windows_split : are_split windows_client_config ≡ true
unfolding are_split is_among
windows_split = refl

reset_known : (i : Instance) → all_fields windows_client_config (entries_of reset_fields i) ≡ true
unfolding all_fields entries_of has_field
reset_known i = refl

lookup-renamed :
    (raw : Dict String Value) (k : String)
    → lookup k (renamed (lookup "adapter_name" raw) (lookup "tun_name" raw) raw) ≡ named raw k
unfolding named
lookup-renamed raw k = elim (Bool-cases ("adapter_name" == k)) [
  | inl y ↦
      subst
        (λ j.
          lookup j (renamed (lookup "adapter_name" raw) (lookup "tun_name" raw) raw) ≡ named raw j)
        ((string_eq.beq_iff "adapter_name" k).0 y)
        (renamed_name (lookup "adapter_name" raw) (lookup "tun_name" raw) raw refl)
  | inr n ↦ rw n (renamed_other (lookup "adapter_name" raw) (lookup "tun_name" raw) raw k n)
]

-- The configuration that the constructor makes of the file's entries
abbrev first_config : Dict String Value → Instance
first_config raw = filled windows_client_config (
    known_entries windows_client_config
      (renamed (lookup "adapter_name" raw) (lookup "tun_name" raw) raw))

lookup-first_config :
    (raw : Dict String Value) (k : String)
    → has_field k windows_client_config ≡ true
    → lookup k (first_config raw) ≡ given raw k
lookup-first_config raw k there =
    let raw' = renamed (lookup "adapter_name" raw) (lookup "tun_name" raw) raw in
    lookup-filled windows_client_config (known_entries windows_client_config raw') k
      windows_defaults there
    ∙ rw (lookup-known_entries windows_client_config raw' k there, lookup-renamed raw k) refl

has_name : has_field "adapter_name" windows_client_config ≡ true
unfolding has_field
has_name = refl

has_address : has_field "tun_address" windows_client_config ≡ true
unfolding has_field
has_address = refl

has_peer : has_field "tun_peer" windows_client_config ≡ true
unfolding has_field
has_peer = refl

looks_like-is_older :
    (raw : Dict String Value)
    → looks_like_legacy_placeholder_config (first_config raw) ≡ is_older raw
unfolding looks_like_legacy_placeholder_config is_older
looks_like-is_older raw =
    rw
      (
        lookup-first_config raw "adapter_name" has_name,
        lookup-first_config raw "tun_address" has_address,
        lookup-first_config raw "tun_peer" has_peer,
      )
      refl

-- The values as they are after an update of a configuration
upgrade_lem :
    (k : String) (c : Instance)
    → has_field k windows_client_config ≡ true
    → IsInstance windows_client_config c
    → (r : Instance) × (upgrade c ≡ ok r)
      × IsInstance windows_client_config r
      × (lookup k r ≡ (
          if looks_like_legacy_placeholder_config c && not (is_among k kept_fields)
          then default_of k windows_client_config
          else lookup k c))
unfolding construct
upgrade_lem k c there h =
    let d = filled windows_client_config [] in
    let m = merge c (entries_of reset_fields d) in
    let hm =
      merge-IsInstance windows_client_config c (entries_of reset_fields d) (reset_known d) h in
    elim (Bool-cases (looks_like_legacy_placeholder_config c)) [
      | inl y ↦ (
        m,
        rw
            (
              y,
              fill-filled windows_client_config [] windows_defaults,
              construct-IsInstance windows_client_config m windows_distinct hm,
            )
            refl,
        hm,
        rw y (
            lookup-merge-entries_of reset_fields k c d
            ∙ ground (
              arith,
              are_split-among windows_client_config k windows_split there,
              attribute-filled windows_client_config k windows_defaults there,
            )),
      )
      | inr n ↦ (c, rw n refl, h, rw n refl)
    ]

-- Whatever JSON object the file of the Windows client holds, it is loaded, and each field has the
-- value that the file gives, for the adapter's name also under its old key, and else the default. But if
-- the name of the adapter, its address or its peer is the placeholder of an older version, all fields
-- but the client's name and id, the flags for reconnecting, connecting at the start, the full tunnel and
-- the system proxy, and the DNS servers have their defaults.
pub load_windows_config_lem :
    (raw : Dict String Value) (k : String)
    → has_field k windows_client_config ≡ true
    → (r : Instance) × (load_windows_config raw ≡ ok r)
      × IsInstance windows_client_config r
      × (lookup k r ≡ loaded raw k)
unfolding load_windows_config loaded construct
load_windows_config_lem raw k there =
    let raw' = renamed (lookup "adapter_name" raw) (lookup "tun_name" raw) raw in
    let c = first_config raw in
    let (r, done, h, value) = upgrade_lem k c there (
      filled-IsInstance windows_client_config (known_entries windows_client_config raw')
        windows_defaults) in
    (
      r,
      rw
          (
            all_fields-known_entries windows_client_config raw',
            fill-filled windows_client_config (known_entries windows_client_config raw')
                windows_defaults,
          )
          done,
      h,
      value ∙ rw (looks_like-is_older raw, lookup-first_config raw k there) refl,
    )
