-- ===== src/Text/Base64/Alphabet.antt =====
-- The characters of sextets, and the sextets of three bytes.
use Prim.Native.Char.{code}
use veil_python_stack.Prelude.{
  ℕ, zero, suc, ◌+◌, ◌*◌, ◌/◌, ◌%◌, ◌<◌, ◌≡◌, refl, ap, String, Bool, true, false, not, ◌&&◌,
  Option, none, some, nat_beq, ltb, nat_eq, string_eq, ◌==◌, arith,
}
use veil_python_stack.Text.{is_space}
use veil_python_stack.Text.Base64.{char_of, sextet, decode_from, pad, Decoder, emit, moved}

abbrev pub IsByte : ℕ → Type 0
IsByte b = b < 256

abbrev is_some : Option ℕ → ℕ → Bool
is_some none n = false
is_some (some v) n = nat_beq v n

is_some-some : (o : Option ℕ) (n : ℕ) (rest : Bool) → (is_some o n && rest) ≡ true → o ≡ some n
is_some-some none n rest h = ground (arith, h)
is_some-some (some v) n rest h = ap some (ground (arith, h))

-- Whether a sextet's character reads back as the sextet and is no pad, space or character beyond ASCII
unfoldable good : ℕ → Bool
unfolding sextet char_of
good n =
    is_some (sextet (code (char_of n))) n
    && (not (code (char_of n) == pad)
        && (not (is_space (code (char_of n))) && ltb (code (char_of n)) 128))

unfoldable good_below : ℕ → Bool
good_below zero = true
good_below (suc n) = good n && good_below n

all_good : good_below 64 ≡ true
unfolding good_below good sextet char_of
all_good = refl

good_below-good : (n m : ℕ) → good_below n ≡ true → m < n → good m ≡ true
unfolding good_below
good_below-good zero m h lt = absurd (omega arith)
good_below-good (suc n) m h lt = ground (arith, good_below-good n m)

module _ (n : ℕ) (small : n < 64) where
  is_good : good n ≡ true
  is_good = good_below-good 64 n all_good small

  pub sextet-char_of : sextet (code (char_of n)) ≡ some n
  unfolding good
  sextet-char_of = is_some-some (sextet (code (char_of n))) n _ is_good

  pub char_of-pad : (code (char_of n) == pad) ≡ false
  unfolding good
  char_of-pad = ground (arith, is_good)

  pub char_of-space : is_space (code (char_of n)) ≡ false
  unfolding good
  char_of-space = ground (arith, is_good)

  pub char_of-ascii : ltb (code (char_of n)) 128 ≡ true
  unfolding good
  char_of-ascii = ground (arith, is_good)

  pub decode_from-char_of :
      (d : Decoder) (s : String)
      → decode_from d (String.◌∷◌ (char_of n) s)
        ≡ emit d.place d.left (some n) (decode_from (moved d.place n) s)
  unfolding decode_from
  decode_from-char_of d s = rw (char_of-pad, sextet-char_of) refl

-- The sextets of three bytes
module _ (x y z : ℕ) (hx : IsByte x) (hy : IsByte y) (hz : IsByte z) where
  pub first_small : x / 4 < 64
  first_small = omega arith

  pub second_small : x % 4 * 16 + y / 16 < 64
  second_small = omega arith

  pub third_small : y % 16 * 4 + z / 64 < 64
  third_small = omega arith

  pub fourth_small : z % 64 < 64
  fourth_small = omega arith

  pub first_byte : x / 4 * 4 + (x % 4 * 16 + y / 16) / 16 ≡ x
  first_byte = omega arith

  pub second_byte : (x % 4 * 16 + y / 16) % 16 * 16 + (y % 16 * 4 + z / 64) / 4 ≡ y
  second_byte = omega arith

  pub third_byte : (y % 16 * 4 + z / 64) % 4 * 64 + z % 64 ≡ z
  third_byte = omega arith
