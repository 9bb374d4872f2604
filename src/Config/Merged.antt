-- ===== src/Config/Merged.antt =====
-- What a configuration is after a profile was imported.
use veil_python_stack.Prelude.{
  ◌≡◌, refl, ap, ◌∙◌, String, Bool, true, false, ◌&&◌, Option, none, some, [], ◌∷◌, arith,
  string_eq, ◌==◌, Bool-cases, inl, inr, not, subst, or_default, if◌then◌else◌,
}
use veil_python_stack.Prelude.Dict.{Dict, lookup, insert, merge, lookup-insert}
use veil_python_stack.Errors.{ok}
use veil_python_stack.Message.{Value, text, null, truthy, is_text}
use veil_python_stack.Dataclass.{Class, Instance, has_field, all_fields, attribute, set_attribute}
use veil_python_stack.Dataclass.Laws.{IsInstance, is_distinct, construct-IsInstance}
use veil_python_stack.Dataclass.Filled.{over}
use veil_python_stack.Config.{ensure_compatible, is_incompatible, has}
use veil_python_stack.Config.Profile.{client_connection_profile}
use veil_python_stack.Config.Client.{linux_client_config}
use veil_python_stack.Config.Import.{import_profile}

pub insert-IsInstance :
    (cls : Class) (k : String) (v : Value) (i : Instance)
    → has_field k cls ≡ true
    → IsInstance cls i
    → IsInstance cls (insert k v i)
unfolding has_field insert
insert-IsInstance [] k v [] there h = ground (arith, there)
insert-IsInstance [] k v (e ∷ i) there h = elim h [ ]
insert-IsInstance (f ∷ fs) k v [] there h = elim h [ ]
insert-IsInstance ((j, x) ∷ fs) k v ((l, w) ∷ i) there (e, h) = elim (Bool-cases (l == k)) [
  | inl y ↦ rw y (e, h)
  | inr n ↦ rw n (e, insert-IsInstance fs k v i (ground (arith, there, e, n)) h)
]

pub merge-IsInstance :
    (cls : Class) (i : Instance) (d : Dict String Value)
    → all_fields cls d ≡ true
    → IsInstance cls i
    → IsInstance cls (merge i d)
unfolding all_fields merge
merge-IsInstance cls i [] known h = h
merge-IsInstance cls i ((k, v) ∷ d) known h =
    merge-IsInstance cls (insert k v i) d (ground (arith, known))
      (insert-IsInstance cls k v i (ground (arith, known)) h)

-- A key that is not a field of the class is not in an object.
lookup-IsInstance-none :
    (cls : Class) (k : String) (i : Instance)
    → has_field k cls ≡ false
    → IsInstance cls i
    → lookup k i ≡ none
unfolding has_field lookup
lookup-IsInstance-none [] k [] new h = refl
lookup-IsInstance-none [] k (e ∷ i) new h = elim h [ ]
lookup-IsInstance-none (f ∷ fs) k [] new h = elim h [ ]
lookup-IsInstance-none ((j, x) ∷ fs) k ((l, w) ∷ i) new (e, h) =
    ground (arith, new, e, lookup-IsInstance-none fs k i (ground (arith, new)) h)

lookup-merge-IsInstance :
    (cls : Class) (k : String) (a p : Instance)
    → is_distinct cls ≡ true
    → IsInstance cls p
    → lookup k (merge a p) ≡ over (lookup k p) (lookup k a)
unfolding is_distinct merge lookup
lookup-merge-IsInstance [] k a [] distinct h = refl
lookup-merge-IsInstance [] k a (e ∷ p) distinct h = elim h [ ]
lookup-merge-IsInstance (f ∷ fs) k a [] distinct h = elim h [ ]
lookup-merge-IsInstance ((j, x) ∷ fs) k a ((l, w) ∷ p) distinct (e, h) =
    let none_left = lookup-IsInstance-none fs j p (ground (arith, distinct)) h in
    ground (
      arith,
      e,
      lookup-insert l k w a,
      string_eq.beq_iff l k,
      none_left,
      lookup-merge-IsInstance fs k (insert l w a) p (ground (arith, distinct)) h,
    )

persona_there : has_field "persona_preset" linux_client_config ≡ true
unfolding has_field
persona_there = refl

ensure_compatible-IsInstance :
    (c : Instance)
    → IsInstance linux_client_config c
    → IsInstance linux_client_config (ensure_compatible c)
unfolding ensure_compatible set_attribute
ensure_compatible-IsInstance c h = elim (Bool-cases (is_incompatible c)) [
  | inl y ↦
      rw y
        (insert-IsInstance linux_client_config "persona_preset" (text "custom") c persona_there h)
  | inr n ↦ rw n h
]

ensure_compatible-lookup :
    (k : String) (c : Instance)
    → ("persona_preset" == k) ≡ false
    → lookup k (ensure_compatible c) ≡ lookup k c
unfolding ensure_compatible set_attribute
ensure_compatible-lookup k c other =
    ground (arith, other, lookup-insert "persona_preset" k (text "custom") c)

-- Of every configuration: what `ensure_compatible` leaves needs no change.
pub ensure_compatible_lem : (c : Instance) → is_incompatible (ensure_compatible c) ≡ false
unfolding ensure_compatible set_attribute is_incompatible
ensure_compatible_lem c =
    ground (arith, lookup-insert "persona_preset" "persona_preset" (text "custom") c)

-- Whether all fields of one class are fields of the other
unfoldable pub has_all : Class → Class → Bool
has_all cls [] = true
has_all cls ((k, default) ∷ fs) = has_field k cls && has_all cls fs

all_fields-has_all :
    (cls fs : Class) (i : Instance)
    → has_all cls fs ≡ true
    → IsInstance fs i
    → all_fields cls i ≡ true
unfolding has_all all_fields
all_fields-has_all cls [] [] known h = refl
all_fields-has_all cls [] (e ∷ i) known h = elim h [ ]
all_fields-has_all cls (f ∷ fs) [] known h = elim h [ ]
all_fields-has_all cls ((k, x) ∷ fs) ((j, v) ∷ i) known (e, h) = ground (
  arith,
  known,
  ap (λ s. has_field s cls) e,
  all_fields-has_all cls fs i (ground (arith, known)) h,
)

profile_known : has_all linux_client_config client_connection_profile ≡ true
unfolding has_all has_field
profile_known = refl

client_distinct : is_distinct linux_client_config ≡ true
unfolding is_distinct has_field
client_distinct = refl

profile_distinct : is_distinct client_connection_profile ≡ true
unfolding is_distinct has_field
profile_distinct = refl

-- A websocket wrapper, the browser's websocket persona, and no HTTP handshake emulation
unfoldable asks_without_handshake : (wrapper persona emulation : Option Value) → Bool
asks_without_handshake wrapper persona emulation =
    is_text "websocket" wrapper
    && (is_text "browser_ws" persona && not (truthy (or_default emulation null)))

-- The persona "custom" for those that ask for an HTTP handshake without its emulation, else as given
unfoldable corrected : (wrapper persona emulation : Option Value) → Option Value
unfolding asks_without_handshake
corrected wrapper persona emulation =
    if asks_without_handshake wrapper persona emulation then some (text "custom") else persona

-- What an import of `p` into `c` makes of a field: the profile's, or else the one of the
-- configuration, but for a persona that does not fit the other two settings
unfoldable pub imported : String → Instance → Instance → Option Value
unfolding corrected
imported k p c =
    let given : String → Option Value = λ j. over (lookup j p) (lookup j c) in
    if "persona_preset" == k
    then corrected (given "protocol_wrapper") (given "persona_preset")
        (given "enable_http_handshake_emulation")
    else given k

module _ (p c : Instance) (hp : IsInstance client_connection_profile p) where
  merged-lookup : (k : String) → lookup k (merge c p) ≡ over (lookup k p) (lookup k c)
  merged-lookup k = lookup-merge-IsInstance client_connection_profile k c p profile_distinct hp

  -- The value of a field once both are merged
  abbrev given : String → Option Value
  given k = over (lookup k p) (lookup k c)

  is_incompatible-merge :
      is_incompatible (merge c p)
      ≡ asks_without_handshake
          (given "protocol_wrapper")
          (given "persona_preset")
          (given "enable_http_handshake_emulation")
  unfolding is_incompatible asks_without_handshake has attribute
  is_incompatible-merge =
      rw
        (
          merged-lookup "protocol_wrapper",
          merged-lookup "persona_preset",
          merged-lookup "enable_http_handshake_emulation",
        )
        refl

  ensure_compatible-persona :
      lookup "persona_preset" (ensure_compatible (merge c p)) ≡ imported "persona_preset" p c
  unfolding ensure_compatible set_attribute imported corrected
  ensure_compatible-persona = ground (
    arith,
    is_incompatible-merge,
    merged-lookup "persona_preset",
    lookup-insert "persona_preset" "persona_preset" (text "custom") (merge c p),
  )

  ensure_compatible-imported :
      (k : String) → lookup k (ensure_compatible (merge c p)) ≡ imported k p c
  unfolding imported
  ensure_compatible-imported k = elim (Bool-cases ("persona_preset" == k)) [
    | inl y ↦
        subst (λ j. lookup j (ensure_compatible (merge c p)) ≡ imported j p c)
          ((string_eq.beq_iff "persona_preset" k).0 y) ensure_compatible-persona
    | inr n ↦ rw n (ensure_compatible-lookup k (merge c p) n ∙ merged-lookup k)
  ]

-- Importing a profile into a configuration never raises. Every field of the result is the profile's
-- if the profile has it, and else stays, but for the persona: with the wrapper "websocket", the persona
-- "browser_ws" and no HTTP handshake emulation it is "custom". The result is compatible.
pub import_profile_lem :
    (k : String) (p c : Instance)
    → IsInstance client_connection_profile p
    → IsInstance linux_client_config c
    → (r : Instance) × (import_profile p c ≡ ok r)
      × IsInstance linux_client_config r
      × (lookup k r ≡ imported k p c)
      × (is_incompatible r ≡ false)
unfolding import_profile
import_profile_lem k p c hp hc =
    let m =
      merge-IsInstance linux_client_config c p
        (all_fields-has_all linux_client_config client_connection_profile p profile_known hp) hc in
    (
      ensure_compatible (merge c p),
      rw (construct-IsInstance linux_client_config (merge c p) client_distinct m) refl,
      ensure_compatible-IsInstance (merge c p) m,
      ensure_compatible-imported p c hp k,
      ensure_compatible_lem (merge c p),
    )
