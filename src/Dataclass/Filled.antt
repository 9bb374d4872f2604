-- ===== src/Dataclass/Filled.antt =====
-- What a call of a class gives to the fields when all of them have defaults.
use veil_python_stack.Prelude.{
  ◌≡◌, refl, String, Bool, true, false, Option, none, some, [], ◌∷◌, arith, string_eq, ◌==◌,
  or_default, if◌then◌else◌,
}
use veil_python_stack.Prelude.Dict.{Dict, lookup}
use veil_python_stack.Errors.{ok}
use veil_python_stack.Message.{Value, null}
use veil_python_stack.Dataclass.{Class, Instance, has_field, fill, attribute}
use veil_python_stack.Dataclass.Laws.{IsInstance}

-- The value that `d` gives, or else the one that `a` has
abbrev pub over : Option Value → Option Value → Option Value
over (some v) own = some v
over none own = own

-- The value that the class declares for a field
unfoldable pub default_of : String → Class → Option Value
default_of k [] = none
default_of k ((j, default) ∷ fs) = if j == k then default else default_of k fs

unfoldable pub has_defaults : Class → Bool
has_defaults [] = true
has_defaults ((k, none) ∷ fs) = false
has_defaults ((k, some v) ∷ fs) = has_defaults fs

-- The object of a class all of whose fields have defaults
unfoldable pub filled : Class → Dict String Value → Instance
filled [] d = []
filled ((k, none) ∷ fs) d = filled fs d
filled ((k, some v) ∷ fs) d = (k, or_default (lookup k d) v) ∷ filled fs d

pub fill-filled :
    (cls : Class) (d : Dict String Value) → has_defaults cls ≡ true → fill cls d ≡ ok (filled cls d)
unfolding fill filled has_defaults
fill-filled [] d h = refl
fill-filled ((k, none) ∷ fs) d h = ground (arith, h)
fill-filled ((k, some v) ∷ fs) d h = ground (arith, fill-filled fs d h)

pub filled-IsInstance :
    (cls : Class) (d : Dict String Value) → has_defaults cls ≡ true → IsInstance cls (filled cls d)
unfolding filled has_defaults
filled-IsInstance [] d h = tt
filled-IsInstance ((k, none) ∷ fs) d h = ground (arith, h)
filled-IsInstance ((k, some v) ∷ fs) d h = (refl, filled-IsInstance fs d h)

pub lookup-filled :
    (cls : Class) (d : Dict String Value) (k : String)
    → has_defaults cls ≡ true
    → has_field k cls ≡ true
    → lookup k (filled cls d) ≡ over (lookup k d) (default_of k cls)
unfolding filled has_defaults has_field default_of lookup
lookup-filled [] d k h there = ground (arith, there)
lookup-filled ((j, none) ∷ fs) d k h there = ground (arith, h)
lookup-filled ((j, some v) ∷ fs) d k h there =
    ground (arith, there, string_eq.beq_iff j k, lookup-filled fs d k h)

default_of-some :
    (cls : Class) (k : String)
    → has_defaults cls ≡ true
    → has_field k cls ≡ true
    → some (or_default (default_of k cls) null) ≡ default_of k cls
unfolding has_defaults has_field default_of
default_of-some [] k h there = ground (arith, there)
default_of-some ((j, none) ∷ fs) k h there = ground (arith, h)
default_of-some ((j, some v) ∷ fs) k h there = ground (arith, there, default_of-some fs k h)

pub attribute-filled :
    (cls : Class) (k : String)
    → has_defaults cls ≡ true
    → has_field k cls ≡ true
    → some (attribute k (filled cls [])) ≡ default_of k cls
unfolding attribute lookup
attribute-filled cls k h there = rw (lookup-filled cls [] k h there) (default_of-some cls k h there)
