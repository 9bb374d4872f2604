-- ===== src/Dataclass/Typed.antt =====
-- What a call of a class returns is an object of the class: no field is missing, none is added.
use veil_python_stack.Prelude.{refl, String, Option, [], ◌∷◌, string_eq, if-Holds}
use veil_python_stack.Prelude.Dict.{Dict, lookup}
use veil_python_stack.Errors.{Result, ok, err, ◌>>=◌, type_error}
use veil_python_stack.Message.{Value}
use veil_python_stack.Dataclass.{
  Class, Instance, fill, construct, all_fields, join_field, prepend, value_or,
}
use veil_python_stack.Dataclass.Laws.{IsInstance}

-- What is returned, if anything is, satisfies `P`.
unfoldable pub Yields {ℓ} : {A : Type ℓ} → (A → Type 0) → Result A → Type 0
Yields P (ok a) = P a
Yields P (err e) = Unit {0}

pub Yields-bind {ℓ κ} :
    {A : Type ℓ} {B : Type κ} (P : A → Type 0) (Q : B → Type 0) (r : Result A) (f : A → Result B)
    → Yields P r
    → ((a : A) → P a → Yields Q (f a))
    → Yields Q (r >>= f)
unfolding Yields
Yields-bind P Q (ok a) f h next = next a h
Yields-bind P Q (err e) f h next = tt

prepend-Yields :
    (cls : Class) (k : String) (default : Option Value) (v : Value) (rest : Result Instance)
    → Yields (IsInstance cls) rest
    → Yields (IsInstance ((k, default) ∷ cls)) (prepend k v rest)
unfolding Yields
prepend-Yields cls k default v (ok i) h = (refl, h)
prepend-Yields cls k default v (err e) h = tt

join_field-Yields :
    (cls : Class) (k : String) (default : Option Value) (r : Result Value) (rest : Result Instance)
    → Yields (IsInstance cls) rest
    → Yields (IsInstance ((k, default) ∷ cls)) (join_field k r rest)
unfolding Yields
join_field-Yields cls k default (ok v) rest h = prepend-Yields cls k default v rest h
join_field-Yields cls k default (err e) rest h = tt

fill-Yields : (cls : Class) (d : Dict String Value) → Yields (IsInstance cls) (fill cls d)
unfolding fill Yields
fill-Yields [] d = tt
fill-Yields ((k, default) ∷ fs) d =
    join_field-Yields fs k default (value_or (lookup k d) default) (fill fs d) (fill-Yields fs d)

pub construct-Yields :
    (cls : Class) (d : Dict String Value) → Yields (IsInstance cls) (construct cls d)
unfolding construct Yields
construct-Yields cls d =
    if-Holds (Yields (IsInstance cls)) (all_fields cls d) (fill cls d)
      (err (type_error "got an unexpected keyword argument")) (fill-Yields cls d) tt
