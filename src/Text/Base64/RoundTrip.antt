-- ===== src/Text/Base64/RoundTrip.antt =====
-- Decoding a base64 text, padded again, gives the bytes that were encoded.
use veil_python_stack.Prelude.{
  ℕ, zero, suc, ◌+◌, ◌-◌, ◌*◌, ◌/◌, ◌%◌, ◌<◌, ◌≡◌, refl, ap, ◌∙◌, String, true, List, [], ◌∷◌,
  length, nat_eq, string_eq, arith, All,
}
use veil_python_stack.Errors.{ok}
use veil_python_stack.Text.{cat, lstrip, rstrip, strip}
use veil_python_stack.Text.Base64.{
  char_of, sextet, encode, decode_from, decode, rstrip_pads, size, padded, pads_of, is_ascii, start,
  third, fourth,
}
use veil_python_stack.Text.Base64.Alphabet.{
  IsByte, char_of-pad, char_of-space, char_of-ascii, decode_from-char_of, first_small, second_small,
  third_small, fourth_small, first_byte, second_byte, third_byte,
}

-- The sextets of the bytes, in front of the pads
unfoldable sextets : List ℕ → List ℕ
sextets [] = []
sextets (x ∷ []) = (x / 4) ∷ (x % 4 * 16) ∷ []
sextets (x ∷ y ∷ []) = (x / 4) ∷ (x % 4 * 16 + y / 16) ∷ (y % 16 * 4) ∷ []
sextets (x ∷ y ∷ z ∷ rest) =
    (x / 4) ∷ (x % 4 * 16 + y / 16) ∷ (y % 16 * 4 + z / 64) ∷ (z % 64) ∷ sextets rest

abbrev chars : List ℕ → String
chars [] = ""
chars (n ∷ ns) = String.◌∷◌ (char_of n) (chars ns)

IsSextet : ℕ → Type 0
IsSextet n = n < 64

sextets-small : (bs : List ℕ) → All IsByte bs → All IsSextet (sextets bs)
unfolding sextets IsSextet
sextets-small [] h = tt
sextets-small (x ∷ []) (hx, h) = (omega arith, (omega arith, tt))
sextets-small (x ∷ y ∷ []) (hx, (hy, h)) = (omega arith, (omega arith, (omega arith, tt)))
sextets-small (x ∷ y ∷ z ∷ rest) (hx, (hy, (hz, h))) = (
  first_small x y z hx hy hz,
  (
    second_small x y z hx hy hz,
    (third_small x y z hx hy hz, (fourth_small x y z hx hy hz, sextets-small rest h)),
  ),
)

abbrev missing : List ℕ → ℕ
missing ns = (4 - length ns % 4) % 4

missing-four : (a b c d : ℕ) (ns : List ℕ) → missing (a ∷ b ∷ c ∷ d ∷ ns) ≡ missing ns
missing-four a b c d ns = omega arith

encode-chars : (bs : List ℕ) → encode bs ≡ cat (chars (sextets bs)) (pads_of (missing (sextets bs)))
unfolding encode sextets
encode-chars [] = refl
encode-chars (x ∷ []) = refl
encode-chars (x ∷ y ∷ []) = refl
encode-chars (x ∷ y ∷ z ∷ rest) =
    rw
      (
        missing-four (x / 4) (x % 4 * 16 + y / 16) (y % 16 * 4 + z / 64) (z % 64) (sextets rest),
        encode-chars rest,
      )
      refl

rstrip_pads-pads_of : (k : ℕ) → rstrip_pads (pads_of k) ≡ ""
unfolding rstrip_pads
rstrip_pads-pads_of zero = refl
rstrip_pads-pads_of (suc k) = rw (rstrip_pads-pads_of k) refl

rstrip_pads-chars :
    (ns : List ℕ) (k : ℕ) → All IsSextet ns → rstrip_pads (cat (chars ns) (pads_of k)) ≡ chars ns
unfolding rstrip_pads IsSextet
rstrip_pads-chars [] k h = rstrip_pads-pads_of k
rstrip_pads-chars (n ∷ ns) k (small, h) = rw (char_of-pad n small, rstrip_pads-chars ns k h) refl

rstrip-chars : (ns : List ℕ) → All IsSextet ns → rstrip (chars ns) ≡ chars ns
unfolding rstrip IsSextet
rstrip-chars [] h = refl
rstrip-chars (n ∷ ns) (small, h) = rw (char_of-space n small, rstrip-chars ns h) refl

lstrip-chars : (ns : List ℕ) → All IsSextet ns → lstrip (chars ns) ≡ chars ns
unfolding lstrip IsSextet
lstrip-chars [] h = refl
lstrip-chars (n ∷ ns) (small, h) = rw (char_of-space n small) refl

size-chars : (ns : List ℕ) → size (chars ns) ≡ length ns
unfolding size
size-chars [] = refl
size-chars (n ∷ ns) = ap suc (size-chars ns)

is_ascii-pads_of : (k : ℕ) → is_ascii (pads_of k) ≡ true
unfolding is_ascii
is_ascii-pads_of zero = refl
is_ascii-pads_of (suc k) = is_ascii-pads_of k

is_ascii-chars :
    (ns : List ℕ) (k : ℕ) → All IsSextet ns → is_ascii (cat (chars ns) (pads_of k)) ≡ true
unfolding is_ascii IsSextet
is_ascii-chars [] k h = is_ascii-pads_of k
is_ascii-chars (n ∷ ns) k (small, h) = rw (char_of-ascii n small) (is_ascii-chars ns k h)

-- Without its pads and stripped, the text is padded to what it was.
pub padded-encode :
    (bs : List ℕ) → All IsByte bs → padded (strip (rstrip_pads (encode bs))) ≡ encode bs
unfolding padded strip
padded-encode bs h =
    let small = sextets-small bs h in
    rw
      (
        encode-chars bs,
        rstrip_pads-chars (sextets bs) (missing (sextets bs)) small,
        lstrip-chars (sextets bs) small,
        rstrip-chars (sextets bs) small,
        size-chars (sextets bs),
      )
      refl

decode_from-nil : decode_from start "" ≡ ok []
unfolding decode_from
decode_from-nil = refl

-- "==" after two characters of a group, "=" after three
two_pads : (left : ℕ) → decode_from (record { place = third; left = left; pads = 0 }) "==" ≡ ok []
unfolding decode_from sextet
two_pads left = refl

one_pad : (left : ℕ) → decode_from (record { place = fourth; left = left; pads = 0 }) "=" ≡ ok []
unfolding decode_from sextet
one_pad left = refl

only_byte : (x : ℕ) → IsByte x → x / 4 * 4 + x % 4 * 16 / 16 ≡ x
only_byte x hx = omega arith

last_bytes :
    (x y : ℕ)
    → IsByte x
    → IsByte y
    → (x / 4 * 4 + (x % 4 * 16 + y / 16) / 16 ≡ x)
      × ((x % 4 * 16 + y / 16) % 16 * 16 + y % 16 * 4 / 4 ≡ y)
last_bytes x y hx hy = (omega arith, omega arith)

decode_from-encode : (bs : List ℕ) → All IsByte bs → decode_from start (encode bs) ≡ ok bs
unfolding encode
decode_from-encode [] h = decode_from-nil
decode_from-encode (x ∷ []) (hx, h) =
    rw
      (
        decode_from-char_of (x / 4) (omega arith),
        decode_from-char_of (x % 4 * 16) (omega arith),
        two_pads (x % 4 * 16 % 16),
        only_byte x hx,
      )
      refl
decode_from-encode (x ∷ y ∷ []) (hx, (hy, h)) =
    rw
      (
        decode_from-char_of (x / 4) (omega arith),
        decode_from-char_of (x % 4 * 16 + y / 16) (omega arith),
        decode_from-char_of (y % 16 * 4) (omega arith),
        one_pad (y % 16 * 4 % 4),
        (last_bytes x y hx hy).0,
        (last_bytes x y hx hy).1,
      )
      refl
decode_from-encode (x ∷ y ∷ z ∷ rest) (hx, (hy, (hz, h))) =
    rw
      (
        decode_from-char_of (x / 4) (first_small x y z hx hy hz),
        decode_from-char_of (x % 4 * 16 + y / 16) (second_small x y z hx hy hz),
        decode_from-char_of (y % 16 * 4 + z / 64) (third_small x y z hx hy hz),
        decode_from-char_of (z % 64) (fourth_small x y z hx hy hz),
        decode_from-encode rest h,
        first_byte x y z hx hy hz,
        second_byte x y z hx hy hz,
        third_byte x y z hx hy hz,
      )
      refl

pub decode-encode : (bs : List ℕ) → All IsByte bs → decode (encode bs) ≡ ok bs
unfolding decode
decode-encode bs h =
    rw
      (
        ap is_ascii (encode-chars bs)
            ∙ is_ascii-chars (sextets bs) (missing (sextets bs)) (sextets-small bs h),
        decode_from-encode bs h,
      )
      refl
