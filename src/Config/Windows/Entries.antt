-- ===== src/Config/Windows/Entries.antt =====
-- The entries of a Windows configuration while it is loaded.
use veil_python_stack.Prelude.{
  ◌≡◌, refl, String, Bool, true, false, ◌||◌, Option, none, some, List, [], ◌∷◌, arith, string_eq,
  ◌==◌, if◌then◌else◌,
}
use veil_python_stack.Prelude.Dict.{Dict, lookup, insert, merge, lookup-insert}
use veil_python_stack.Message.{Value}
use veil_python_stack.Dataclass.{Class, Instance, has_field, all_fields, attribute}
use veil_python_stack.Dataclass.Filled.{over}
use veil_python_stack.Config.Windows.{renamed, known_entries, entries_of}

pub lookup-known_entries :
    (cls : Class) (d : Dict String Value) (k : String)
    → has_field k cls ≡ true
    → lookup k (known_entries cls d) ≡ lookup k d
unfolding known_entries lookup
lookup-known_entries cls [] k there = refl
lookup-known_entries cls ((j, v) ∷ d) k there =
    ground (arith, there, string_eq.beq_iff j k, lookup-known_entries cls d k there)

pub all_fields-known_entries :
    (cls : Class) (d : Dict String Value) → all_fields cls (known_entries cls d) ≡ true
unfolding known_entries all_fields
all_fields-known_entries cls [] = refl
all_fields-known_entries cls ((j, v) ∷ d) = ground (arith, all_fields-known_entries cls d)

unfoldable pub is_among : String → List String → Bool
is_among k [] = false
is_among k (j ∷ ks) = j == k || is_among k ks

pub lookup-merge-entries_of :
    (ks : List String) (k : String) (c i : Instance)
    → lookup k (merge c (entries_of ks i))
      ≡ (if is_among k ks then some (attribute k i) else lookup k c)
unfolding is_among merge entries_of
lookup-merge-entries_of [] k c i = refl
lookup-merge-entries_of (j ∷ ks) k c i = ground (
  arith,
  string_eq.beq_iff j k,
  lookup-merge-entries_of ks k (insert j (attribute j i) c) i,
  lookup-insert j k (attribute j i) c,
)

pub renamed_name :
    (a n : Option Value) (raw : Dict String Value)
    → lookup "adapter_name" raw ≡ a
    → lookup "adapter_name" (renamed a n raw) ≡ over a n
renamed_name none none raw h = h
renamed_name none (some v) raw h = ground (arith, lookup-insert "adapter_name" "adapter_name" v raw)
renamed_name (some a) n raw h = h

pub renamed_other :
    (a n : Option Value) (raw : Dict String Value) (k : String)
    → ("adapter_name" == k) ≡ false
    → lookup k (renamed a n raw) ≡ lookup k raw
renamed_other none none raw k h = refl
renamed_other none (some v) raw k h = ground (arith, h, lookup-insert "adapter_name" k v raw)
renamed_other (some a) n raw k h = refl
