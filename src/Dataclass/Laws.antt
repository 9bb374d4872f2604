-- ===== src/Dataclass/Laws.antt =====
-- An object is built again from its own entries, and an entry that is given wins.
use veil_python_stack.Prelude.{
  ◌≡◌, refl, String, Bool, true, false, not, ◌&&◌, Option, some, [], ◌∷◌, arith, string_eq,
}
use veil_python_stack.Prelude.Dict.{Dict, lookup, beq_refl}
use veil_python_stack.Errors.{ok}
use veil_python_stack.Message.{Value}
use veil_python_stack.Dataclass.{Class, Instance, has_field, all_fields, fill, construct}

-- Whether no field is named twice
unfoldable pub is_distinct : Class → Bool
is_distinct [] = true
is_distinct ((k, default) ∷ fs) = not (has_field k fs) && is_distinct fs

-- The object has exactly the class's fields, in their order.
abbrev pub IsInstance : Class → Instance → Type 0
IsInstance [] [] = Unit {0}
IsInstance [] (e ∷ i) = ⊥
IsInstance (f ∷ fs) [] = ⊥
IsInstance ((k, default) ∷ fs) ((j, v) ∷ i) = (j ≡ k) × IsInstance fs i

-- Looking up each field of the class in `d` gives the object's value.
abbrev pub Agrees : Class → Instance → Dict String Value → Type 0
Agrees [] [] d = Unit {0}
Agrees [] (e ∷ i) d = ⊥
Agrees (f ∷ fs) [] d = ⊥
Agrees ((k, default) ∷ fs) ((j, v) ∷ i) d = (j ≡ k) × (lookup k d ≡ some v) × Agrees fs i d

Agrees-cons :
    (cls : Class) (i : Instance) (d : Dict String Value) (k : String) (v : Value)
    → has_field k cls ≡ false
    → Agrees cls i d
    → Agrees cls i ((k, v) ∷ d)
unfolding has_field lookup
Agrees-cons [] [] d k v new h = tt
Agrees-cons [] (e ∷ i) d k v new h = elim h [ ]
Agrees-cons (f ∷ fs) [] d k v new h = elim h [ ]
Agrees-cons ((j, x) ∷ fs) ((l, w) ∷ i) d k v new (e, found, rest) = (
  e,
  ground (arith, new, found, string_eq.beq_iff j k, string_eq.beq_iff k j),
  Agrees-cons fs i d k v (ground (arith, new)) rest,
)

pub Agrees-self :
    (cls : Class) (i : Instance) → is_distinct cls ≡ true → IsInstance cls i → Agrees cls i i
unfolding is_distinct lookup
Agrees-self [] [] distinct h = tt
Agrees-self [] (e ∷ i) distinct h = elim h [ ]
Agrees-self (f ∷ fs) [] distinct h = elim h [ ]
Agrees-self ((k, x) ∷ fs) ((j, v) ∷ i) distinct (e, h) = (
  e,
  ground (arith, e, string_eq.beq_iff j k),
  rw e (
      Agrees-cons fs i i k v (ground (arith, distinct))
        (Agrees-self fs i (ground (arith, distinct)) h)),
)

pub fill-Agrees :
    (cls : Class) (i : Instance) (d : Dict String Value) → Agrees cls i d → fill cls d ≡ ok i
unfolding fill
fill-Agrees [] [] d h = refl
fill-Agrees [] (e ∷ i) d h = elim h [ ]
fill-Agrees (f ∷ fs) [] d h = elim h [ ]
fill-Agrees ((k, x) ∷ fs) ((j, v) ∷ i) d (e, found, rest) =
    rw (found, fill-Agrees fs i d rest, e) refl

has_field-skip :
    (fs : Class) (f : String × Option Value) (d : Dict String Value)
    → all_fields fs d ≡ true
    → all_fields (f ∷ fs) d ≡ true
unfolding all_fields has_field
has_field-skip fs f [] h = refl
has_field-skip fs (j, x) ((k, v) ∷ d) h = ground (arith, h, has_field-skip fs (j, x) d)

pub all_fields-IsInstance :
    (cls : Class) (i : Instance) → IsInstance cls i → all_fields cls i ≡ true
unfolding all_fields has_field
all_fields-IsInstance [] [] h = refl
all_fields-IsInstance [] (e ∷ i) h = elim h [ ]
all_fields-IsInstance (f ∷ fs) [] h = elim h [ ]
all_fields-IsInstance ((k, x) ∷ fs) ((j, v) ∷ i) (e, h) = ground (
  arith,
  e,
  beq_refl k,
  string_eq.beq_iff k j,
  has_field-skip fs (k, x) i (all_fields-IsInstance fs i h),
)

-- Of a class whose fields have different names, an object is built again from its own entries.
pub construct-IsInstance :
    (cls : Class) (i : Instance)
    → is_distinct cls ≡ true
    → IsInstance cls i
    → construct cls i ≡ ok i
unfolding construct
construct-IsInstance cls i distinct h =
    rw (all_fields-IsInstance cls i h) (fill-Agrees cls i i (Agrees-self cls i distinct h))
