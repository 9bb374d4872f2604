-- ===== src/Ipv4/RoundTrip.antt =====
-- The text of an address is read back as that address.
use veil_python_stack.Prelude.{
  ℕ, zero, suc, ◌+◌, ◌*◌, ◌/◌, ◌%◌, ◌<◌, ◌≡◌, refl, ap, ◌∙◌, Bool, true, false, ◌&&◌, Option, none,
  some, [], ◌∷◌, arith, nat_eq, nat_beq_iff, string_eq, ◌==◌, if◌then◌else◌,
}
use veil_python_stack.Text.{cat, split_on, show}
use veil_python_stack.Text.Split.{lacks, split_on_last, split_on-cat}
use veil_python_stack.Ipv4.{
  dot, address_count, parse_octet, parse_octets, parse_address, show_address,
}

abbrev is_some_of : ℕ → Option ℕ → Bool
is_some_of n none = false
is_some_of n (some m) = m == n

is_some_of-eq : (n : ℕ) (o : Option ℕ) → is_some_of n o ≡ true → o ≡ some n
is_some_of-eq n none h = cc
is_some_of-eq n (some m) h = ap some ((nat_beq_iff m n).0 h)

abbrev good_octet : ℕ → Bool
good_octet n = lacks dot (show n) && is_some_of n (parse_octet (show n))

octets_hold : ℕ → Bool
octets_hold zero = true
octets_hold (suc m) = let rest = octets_hold m in if good_octet m then rest else false

octets_hold-at : (m : ℕ) {n : ℕ} → n < m → octets_hold m ≡ true → good_octet n ≡ true
unfolding octets_hold
octets_hold-at zero below h = absurd (omega arith)
octets_hold-at (suc m) {n} below h = ground (arith, h, below, octets_hold-at m {n = n})

octet_table : octets_hold 256 ≡ true
unfolding octets_hold show parse_octet
octet_table = refl

octet : (n : ℕ) → n < 256 → (lacks dot (show n) ≡ true) × (parse_octet (show n) ≡ some n)
octet n h =
    let good = octets_hold-at 256 h octet_table in
    (ground arith, is_some_of-eq n (parse_octet (show n)) (ground arith))

module _ (a b c d : ℕ) (la : a < 256) (lb : b < 256) (lc : c < 256) (ld : d < 256) where
  split_octets :
      split_on dot
        (cat (show a) (cat "." (cat (show b) (cat "." (cat (show c) (cat "." (show d)))))))
      ≡ show a ∷ show b ∷ show c ∷ show d ∷ []
  split_octets =
      split_on-cat dot (show a) "." _ refl (octet a la).0
      ∙ ap (λ ws. show a ∷ ws)
          (split_on-cat dot (show b) "." _ refl (octet b lb).0
            ∙ ap (λ ws. show b ∷ ws)
                (split_on-cat dot (show c) "." _ refl (octet c lc).0
                  ∙ ap (λ ws. show c ∷ ws) (split_on_last dot (show d) (octet d ld).0)))

  parse_split :
      parse_octets (show a ∷ show b ∷ show c ∷ show d ∷ [])
      ≡ some (((a * 256 + b) * 256 + c) * 256 + d)
  parse_split = rw ((octet a la).1, (octet b lb).1, (octet c lc).1, (octet d ld).1)

-- For every 32-bit address, reading its text gives the address.
pub parse_address-show_address :
    (n : ℕ) → n < address_count → parse_address (show_address n) ≡ some n
unfolding parse_address show_address
parse_address-show_address n h =
    let a = n / 256 / 256 / 256 in
    let b = n / 256 / 256 % 256 in
    let c = n / 256 % 256 in
    let d = n % 256 in
    let la : a < 256 = omega arith in
    let lb : b < 256 = omega arith in
    let lc : c < 256 = omega arith in
    let ld : d < 256 = omega arith in
    ap parse_octets (split_octets a b c d la lb lc ld)
    ∙ parse_split a b c d la lb lc ld
    ∙ ap some (omega arith)

-- Different addresses have different texts.
pub show_address-injective :
    (m n : ℕ) → m < address_count → n < address_count → show_address m ≡ show_address n → m ≡ n
show_address-injective m n hm hn e =
    cc (parse_address-show_address m hm, parse_address-show_address n hn)
