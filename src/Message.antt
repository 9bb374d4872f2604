-- ===== src/Message.antt =====
-- veil_core/message.py: messages are JSON values. The JSON text itself is the business of `json`, an
-- interface here. A number with a fraction is an exact decimal.
use Prim.Native.Char.{code}
use veil_python_stack.Prelude.{
  ◌≡◌, refl, ap, ℕ, ◌+◌, ◌-◌, ◌*◌, ◌/◌, ◌^◌, String, Bool, true, false, not, Option, none, some,
  List, [], ◌∷◌, nat_eq, string_eq, ◌==◌, if◌then◌else◌,
}
use veil_python_stack.Prelude.Dict.{Dict}
use veil_python_stack.Prelude.Int.{ℤ, pos, negsuc, negate}
use veil_python_stack.Errors.{Result, ok, err, value_error, type_error}
use veil_python_stack.Text.{cat, show, strip, is_digit}

-- `decimal n k` is the float that is written n / 10 ^ k.
mutual
  pub data Value : Type 0 where
    null : Value
    boolean : Bool → Value
    number : ℤ → Value
    decimal : ℤ → ℕ → Value
    text : String → Value
    array : Items → Value
    object : Fields → Value

  pub data Items : Type 0 where
    nil : Items
    cons : Value → Items → Items

  pub data Fields : Type 0 where
    end : Fields
    field : String → Value → Fields → Fields

-- A Python `dict` with text keys, as a JSON object and back.
abbrev pub fields : Dict String Value → Fields
fields [] = end
fields ((k, v) ∷ d) = field k v (fields d)

abbrev pub dict : Fields → Dict String Value
dict end = []
dict (field k v fs) = (k, v) ∷ dict fs

pub dict-fields : (d : Dict String Value) → dict (fields d) ≡ d
dict-fields [] = refl
dict-fields ((k, v) ∷ d) = ap (λ e. (k, v) ∷ e) (dict-fields d)

-- `json.dumps(...).encode("utf-8")`, `json.loads(data.decode("utf-8"))`, which may raise, and
-- Python's `repr` of lists, dictionaries and floats.
pub record Json : Type 0 where
  pub encode : Value → List ℕ
  pub decode : List ℕ → Result Value
  pub repr : Value → String

-- `Message`
pub record Message : Type 0 where
  pub session_id : ℕ
  pub stream_id : ℕ
  pub body : Value
  pub raw : List ℕ

abbrev message_of : ℕ → ℕ → List ℕ → Result Value → Result Message
message_of s i raw (ok v) = ok (record { session_id = s; stream_id = i; body = v; raw = raw })
message_of s i raw (err e) = err e

-- `message_from_event`, of the fields of a data event
unfoldable pub message_from_event : Json → ℕ → ℕ → List ℕ → Result Message
message_from_event json s i raw = message_of s i raw (json.decode raw)

-- Whether Python counts a value as true.
unfoldable pub truthy : Value → Bool
truthy null = false
truthy (boolean b) = b
truthy (number (pos n)) = not (n == 0)
truthy (number (negsuc n)) = true
truthy (decimal (pos n) k) = not (n == 0)
truthy (decimal (negsuc n) k) = true
truthy (text s) = not (s == "")
truthy (array nil) = false
truthy (array (cons v vs)) = true
truthy (object end) = false
truthy (object (field k v fs)) = true

abbrev pub show_int : ℤ → String
show_int (pos n) = show n
show_int (negsuc n) = cat "-" (show (n + 1))

-- `str(value)`
unfoldable pub str_of : Json → Value → String
str_of json null = "None"
str_of json (boolean true) = "True"
str_of json (boolean false) = "False"
str_of json (number n) = show_int n
str_of json (decimal n k) = json.repr (decimal n k)
str_of json (text s) = s
str_of json (array vs) = json.repr (array vs)
str_of json (object fs) = json.repr (object fs)

-- `str(message.get(key) or default)`
unfoldable pub str_or : Json → String → Option Value → String
unfolding truthy str_of
str_or json default none = default
str_or json default (some v) = if truthy v then str_of json v else default

-- The digits of `int(text)` after a digit or the start; one `_` may stand between two digits.
abbrev underscore : ℕ
underscore = 95

mutual
  int_digit : ℕ → String → Option ℕ
  int_digit n String.[] = none
  int_digit n (String.◌∷◌ c s) =
      let rest = int_digits (n * 10 + (code c - 48)) s in if is_digit (code c) then rest else none

  int_digits : ℕ → String → Option ℕ
  int_digits n String.[] = some n
  int_digits n (String.◌∷◌ c s) =
      let digits = int_digits (n * 10 + (code c - 48)) s in
      let after = int_digit n s in
      if is_digit (code c) then digits else if code c == underscore then after else none

abbrev positive : Option ℕ → Result ℤ
positive none = err (value_error "invalid literal for int()")
positive (some n) = ok (pos n)

abbrev negative : Option ℕ → Result ℤ
negative none = err (value_error "invalid literal for int()")
negative (some n) = ok (negate n)

abbrev signed : String → Result ℤ
signed String.[] = positive none
signed (String.◌∷◌ c s) =
    if code c == 43
    then positive (int_digit 0 s)
    else if code c == 45
    then negative (int_digit 0 s)
    else positive (int_digit 0 (String.◌∷◌ c s))

-- `int(value)`
unfoldable pub int_of : Value → Result ℤ
unfolding strip int_digit int_digits
int_of null = err (type_error "int() argument must be a number")
int_of (boolean true) = ok (pos 1)
int_of (boolean false) = ok (pos 0)
int_of (number n) = ok n
int_of (decimal (pos n) k) = ok (pos (n / 10 ^ k))
int_of (decimal (negsuc n) k) = ok (negate ((n + 1) / 10 ^ k))
int_of (text s) = signed (strip s)
int_of (array vs) = err (type_error "int() argument must be a number")
int_of (object fs) = err (type_error "int() argument must be a number")

-- Whether a value is this text.
abbrev pub is_text : String → Option Value → Bool
is_text t none = false
is_text t (some null) = false
is_text t (some (boolean b)) = false
is_text t (some (number n)) = false
is_text t (some (decimal n k)) = false
is_text t (some (text s)) = s == t
is_text t (some (array vs)) = false
is_text t (some (object fs)) = false
