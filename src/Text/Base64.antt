-- ===== src/Text/Base64.antt =====
-- Python's `base64.urlsafe_b64encode` and `base64.urlsafe_b64decode` on texts, as
-- veil_core/provisioning.py uses them. Decoding is that of `binascii.a2b_base64` without its strict
-- mode: characters outside the alphabet are skipped.
pub mod Alphabet
pub mod RoundTrip
use Prim.Native.Char.{Char, code}
use veil_python_stack.Prelude.{
  ℕ, zero, suc, ◌+◌, ◌-◌, ◌*◌, ◌/◌, ◌%◌, String, Bool, true, false, not, ◌&&◌, ◌||◌, Option, none,
  some, List, [], ◌∷◌, get_or, ltb, leb, nat_eq, string_eq, ◌==◌, if◌then◌else◌,
}
use veil_python_stack.Text.{cat}
use veil_python_stack.Errors.{Result, ok, err, value_error}

-- The alphabet of `urlsafe_b64encode`
abbrev pub alphabet : List Char
alphabet =
    "A" ∷ "B" ∷ "C" ∷ "D" ∷ "E" ∷ "F" ∷ "G" ∷ "H" ∷ "I" ∷ "J" ∷ "K" ∷ "L" ∷ "M" ∷ "N" ∷ "O" ∷ "P"
    ∷ "Q" ∷ "R" ∷ "S" ∷ "T" ∷ "U" ∷ "V" ∷ "W" ∷ "X" ∷ "Y" ∷ "Z" ∷ "a" ∷ "b" ∷ "c" ∷ "d" ∷ "e" ∷ "f"
    ∷ "g" ∷ "h" ∷ "i" ∷ "j" ∷ "k" ∷ "l" ∷ "m" ∷ "n" ∷ "o" ∷ "p" ∷ "q" ∷ "r" ∷ "s" ∷ "t" ∷ "u" ∷ "v"
    ∷ "w" ∷ "x" ∷ "y" ∷ "z" ∷ "0" ∷ "1" ∷ "2" ∷ "3" ∷ "4" ∷ "5" ∷ "6" ∷ "7" ∷ "8" ∷ "9" ∷ "-" ∷ "_"
    ∷ []

unfoldable pub char_of : ℕ → Char
char_of n = get_or alphabet n "A"

abbrev pub pad : ℕ
pad = 61

-- The value of a character; `urlsafe_b64decode` reads "-" and "_" as "+" and "/".
unfoldable pub sextet : ℕ → Option ℕ
sextet c =
    if leb 65 c && leb c 90
    then some (c - 65)
    else if leb 97 c && leb c 122
    then some (c - 71)
    else if leb 48 c && leb c 57
    then some (c + 4)
    else if c == 45 || c == 43
    then some 62
    else if c == 95 || c == 47
    then some 63
    else none

abbrev pub four : (a b c d : Char) → String → String
four a b c d s = String.◌∷◌ a (String.◌∷◌ b (String.◌∷◌ c (String.◌∷◌ d s)))

-- `urlsafe_b64encode(data).decode("ascii")`: three bytes make four characters.
unfoldable pub encode : List ℕ → String
unfolding char_of
encode [] = ""
encode (x ∷ []) = four (char_of (x / 4)) (char_of (x % 4 * 16)) "=" "=" ""
encode (x ∷ y ∷ []) =
    four (char_of (x / 4)) (char_of (x % 4 * 16 + y / 16)) (char_of (y % 16 * 4)) "=" ""
encode (x ∷ y ∷ z ∷ rest) =
    four (char_of (x / 4)) (char_of (x % 4 * 16 + y / 16)) (char_of (y % 16 * 4 + z / 64))
      (char_of (z % 64)) (encode rest)

-- The place in a group of four characters
pub data Place : Type 0 where
  first second third fourth : Place

-- `left` are the bits that wait for the next character, `pads` how many "=" came since the last one.
pub record Decoder : Type 0 where
  pub place : Place
  pub left : ℕ
  pub pads : ℕ

-- Whether "=" ends the data: the second one after two characters, or one after three
abbrev pub ends_data : Place → ℕ → Bool
ends_data first pads = false
ends_data second pads = false
ends_data third pads = leb 1 pads
ends_data fourth pads = true

abbrev pads_after : Place → ℕ → ℕ
pads_after first pads = pads
pads_after second pads = pads
pads_after third pads = pads + 1
pads_after fourth pads = pads + 1

abbrev pub moved : Place → ℕ → Decoder
moved first v = record { place = second; left = v; pads = 0 }
moved second v = record { place = third; left = v % 16; pads = 0 }
moved third v = record { place = fourth; left = v % 4; pads = 0 }
moved fourth v = record { place = first; left = 0; pads = 0 }

abbrev taken : Option ℕ → Decoder → Decoder
taken none d = d
taken (some v) d = moved d.place v

abbrev pub read : ℕ → Decoder → Decoder
read c d = if c == pad then record d { pads = pads_after d.place d.pads } else taken (sextet c) d

abbrev pub after : ℕ → Result (List ℕ) → Result (List ℕ)
after b (ok bs) = ok (b ∷ bs)
after b (err e) = err e

abbrev pub emit : Place → ℕ → Option ℕ → Result (List ℕ) → Result (List ℕ)
emit place left none rest = rest
emit first left (some v) rest = rest
emit second left (some v) rest = after (left * 4 + v / 16) rest
emit third left (some v) rest = after (left * 16 + v / 4) rest
emit fourth left (some v) rest = after (left * 64 + v) rest

abbrev pub at_end : Place → Result (List ℕ)
at_end first = ok []
at_end second = err (value_error "Invalid base64-encoded string")
at_end third = err (value_error "Incorrect padding")
at_end fourth = err (value_error "Incorrect padding")

-- `binascii.a2b_base64`
unfoldable pub decode_from : Decoder → String → Result (List ℕ)
unfolding sextet
decode_from d String.[] = at_end d.place
decode_from d (String.◌∷◌ c s) =
    let rest = decode_from (read (code c) d) s in
    if code c == pad && ends_data d.place d.pads
    then ok []
    else emit d.place d.left (sextet (code c)) rest

abbrev pub start : Decoder
start = record { place = first; left = 0; pads = 0 }

unfoldable pub is_ascii : String → Bool
is_ascii String.[] = true
is_ascii (String.◌∷◌ c s) = ltb (code c) 128 && is_ascii s

-- `urlsafe_b64decode`
unfoldable pub decode : String → Result (List ℕ)
unfolding decode_from is_ascii
decode s =
    if is_ascii s
    then decode_from start s
    else err (value_error "string argument should contain only ASCII characters")

-- s.rstrip("=")
unfoldable pub rstrip_pads : String → String
rstrip_pads String.[] = String.[]
rstrip_pads (String.◌∷◌ c s) =
    let rest = rstrip_pads s in if code c == pad && rest == "" then String.[] else String.◌∷◌ c rest

unfoldable pub size : String → ℕ
size String.[] = 0
size (String.◌∷◌ c s) = suc (size s)

-- "=" * n
abbrev pub pads_of : ℕ → String
pads_of zero = ""
pads_of (suc n) = String.◌∷◌ "=" (pads_of n)

-- s + "=" * (-len(s) % 4)
unfoldable pub padded : String → String
unfolding size
padded s = cat s (pads_of ((4 - size s % 4) % 4))
