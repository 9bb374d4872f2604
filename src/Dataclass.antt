-- ===== src/Dataclass.antt =====
-- Python's `@dataclass` as the configuration files use it (veil_core/provisioning.py,
-- veil_core/linux_client_app.py, veil_core/linux_server_app.py, veil_core/windows_client_app.py):
-- the fields of a class, `cls(**entries)`, attributes, `asdict` and `__dict__`. A value may have any
-- JSON type, whatever the annotation says.
pub mod Laws
pub mod Filled
pub mod Typed
use veil_python_stack.Prelude.{
  String, Bool, true, false, ◌&&◌, Option, none, some, List, [], ◌∷◌, string_eq, ◌==◌,
  if◌then◌else◌, or_default,
}
use veil_python_stack.Prelude.Dict.{Dict, lookup, insert}
use veil_python_stack.Errors.{Result, ok, err, ◌>>=◌, type_error}
use veil_python_stack.Message.{Value, null}

-- The fields in their order, with their defaults, if they have one
abbrev pub Class : Type 0
Class = List (String × Option Value)

-- An object: the value of each field, in the order of the fields. It is also its `__dict__` and its
-- `asdict`.
abbrev pub Instance : Type 0
Instance = Dict String Value

unfoldable pub has_field : String → Class → Bool
has_field k [] = false
has_field k ((j, default) ∷ fs) = if j == k then true else has_field k fs

-- The check for unexpected keyword arguments
unfoldable pub all_fields : Class → Dict String Value → Bool
all_fields cls [] = true
all_fields cls ((k, v) ∷ d) = has_field k cls && all_fields cls d

abbrev pub value_or : Option Value → Option Value → Result Value
value_or (some v) default = ok v
value_or none (some v) = ok v
value_or none none = err (type_error "missing a required argument")

abbrev pub prepend : String → Value → Result Instance → Result Instance
prepend k v (ok i) = ok ((k, v) ∷ i)
prepend k v (err e) = err e

abbrev pub join_field : String → Result Value → Result Instance → Result Instance
join_field k (ok v) rest = prepend k v rest
join_field k (err e) rest = err e

unfoldable pub fill : Class → Dict String Value → Result Instance
fill [] d = ok []
fill ((k, default) ∷ fs) d =
    let rest = fill fs d in join_field k (value_or (lookup k d) default) rest

-- `cls(**entries)`
unfoldable pub construct : Class → Dict String Value → Result Instance
unfolding fill all_fields
construct cls d =
    if all_fields cls d then fill cls d else err (type_error "got an unexpected keyword argument")

-- `self.name`
unfoldable pub attribute : String → Instance → Value
unfolding lookup
attribute k i = or_default (lookup k i) null

-- `self.name = value`
unfoldable pub set_attribute : String → Value → Instance → Instance
unfolding insert
set_attribute k v i = insert k v i
