-- ===== src/Errors.antt =====
-- The exceptions that the program raises or lets through, and results that may be one.
use veil_python_stack.Prelude.{String, Bool, true, false}

pub data Error : Type 0 where
  runtime_error value_error type_error key_error attribute_error index_error : String → Error
  timeout_error cancelled_error eof_error connection_error called_process_error process_lookup_error
        permission_error :
      Error

pub data Result {ℓ} (A : Type ℓ) : Type ℓ where
  err : (raised : Error) → Result A
  ok : (value : A) → Result A

infixl 5 ◌>>=◌
abbrev pub ◌>>=◌ {ℓ κ} : {A : Type ℓ} {B : Type κ} (first : Result A) → (A → Result B) → Result B
err raised >>= rest = err raised
ok value >>= rest = rest value

-- `except ProcessLookupError`
abbrev pub is_gone : Error → Bool
is_gone process_lookup_error = true
is_gone (runtime_error s) = false
is_gone (value_error s) = false
is_gone (type_error s) = false
is_gone (key_error s) = false
is_gone (attribute_error s) = false
is_gone (index_error s) = false
is_gone timeout_error = false
is_gone cancelled_error = false
is_gone eof_error = false
is_gone connection_error = false
is_gone called_process_error = false
is_gone permission_error = false
