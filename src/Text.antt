-- ===== src/Text.antt =====
-- Python's `str` methods as the program uses them, on the native texts by clauses: concatenation,
-- `split`, `strip`, `lower`, decimal numbers and hexadecimal bytes.
pub mod Split
pub mod Base64
pub mod Quote
use Prim.Native.Char.{Char, code}
use veil_python_stack.Prelude.{
  ℕ, zero, suc, ◌+◌, ◌-◌, ◌*◌, ◌/◌, ◌%◌, String, Bool, true, false, ◌&&◌, ◌||◌, Option, none, some,
  List, [], ◌∷◌, get_or, ltb, leb, nat_eq, string_eq, ◌==◌, if◌then◌else◌,
}

-- s + t
abbrev pub cat : String → String → String
cat String.[] t = t
cat (String.◌∷◌ c s) t = String.◌∷◌ c (cat s t)

-- ", ".join(parts)
unfoldable pub join : String → List String → String
join sep [] = ""
join sep (w ∷ []) = w
join sep (w ∷ v ∷ ws) = cat w (cat sep (join sep (v ∷ ws)))

abbrev pub glue : Char → List String → List String
glue c [] = String.◌∷◌ c String.[] ∷ []
glue c (w ∷ ws) = String.◌∷◌ c w ∷ ws

-- s.split(sep), for a separator of one character
unfoldable pub split_on : ℕ → String → List String
split_on sep String.[] = String.[] ∷ []
split_on sep (String.◌∷◌ c s) =
    let rest = split_on sep s in if code c == sep then String.[] ∷ rest else glue c rest

abbrev pub is_digit : ℕ → Bool
is_digit c = leb b'0' c && leb c b'9'

-- The white space of ASCII.
abbrev pub is_space : ℕ → Bool
is_space c = c == b' ' || (leb 9 c && leb c 13 || (leb 28 c && leb c 31))

unfoldable pub lstrip : String → String
lstrip String.[] = String.[]
lstrip (String.◌∷◌ c s) = let rest = lstrip s in if is_space (code c) then rest else String.◌∷◌ c s

unfoldable pub rstrip : String → String
rstrip String.[] = String.[]
rstrip (String.◌∷◌ c s) =
    let rest = rstrip s in if is_space (code c) && rest == "" then String.[] else String.◌∷◌ c rest

-- s.strip(), for ASCII white space
unfoldable pub strip : String → String
unfolding lstrip rstrip
strip s = rstrip (lstrip s)

-- Whether a word ends before this text
abbrev at_gap : String → Bool
at_gap String.[] = true
at_gap (String.◌∷◌ c s) = is_space (code c)

-- s.split(), for ASCII white space
unfoldable pub words : String → List String
words String.[] = []
words (String.◌∷◌ c s) =
    let rest = words s in
    if is_space (code c)
    then rest
    else if at_gap s
    then String.◌∷◌ c String.[] ∷ rest
    else glue c rest

abbrev pub digit_char : ℕ → Char
digit_char d = get_or ("0" ∷ "1" ∷ "2" ∷ "3" ∷ "4" ∷ "5" ∷ "6" ∷ "7" ∷ "8" ∷ "9" ∷ []) d "0"

-- The decimal digits of a number in front of a text; a number has at most as many digits as its
-- value plus one.
unfoldable pub show_from : ℕ → ℕ → String → String
show_from zero n acc = acc
show_from (suc fuel) n acc =
    let acc' = String.◌∷◌ (digit_char (n % 10)) acc in
    let rest = show_from fuel (n / 10) acc' in if ltb n 10 then acc' else rest

-- str(n) of a number that is not negative
unfoldable pub show : ℕ → String
unfolding show_from
show n = show_from (suc n) n ""

-- The value of a text of ASCII digits, after digits that are worth `n`.
unfoldable pub digits_from : ℕ → String → Option ℕ
digits_from n String.[] = some n
digits_from n (String.◌∷◌ c s) =
    let rest = digits_from (n * 10 + (code c - b'0')) s in if is_digit (code c) then rest else none
