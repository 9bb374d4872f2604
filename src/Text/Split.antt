-- ===== src/Text/Split.antt =====
-- `split` undoes `join` by a separator that no part holds.
use Prim.Native.Char.{Char, code}
use veil_python_stack.Prelude.{
  ℕ, ◌≡◌, refl, String, Bool, true, not, ◌&&◌, [], ◌∷◌, arith, nat_eq, ◌==◌,
}
use veil_python_stack.Text.{cat, split_on}

abbrev pub lacks : ℕ → String → Bool
lacks sep String.[] = true
lacks sep (String.◌∷◌ c s) = not (code c == sep) && lacks sep s

pub split_on_last : (sep : ℕ) (s : String) → lacks sep s ≡ true → split_on sep s ≡ s ∷ []
unfolding split_on
split_on_last sep String.[] h = refl
split_on_last sep (String.◌∷◌ c s) h = ground (arith, split_on_last sep s)

pub split_on-cat :
    (sep : ℕ) (s : String) (c : Char) (t : String)
    → code c ≡ sep
    → lacks sep s ≡ true
    → split_on sep (cat s (String.◌∷◌ c t)) ≡ s ∷ split_on sep t
unfolding split_on
split_on-cat sep String.[] c t e h = ground arith
split_on-cat sep (String.◌∷◌ d s) c t e h = ground (arith, split_on-cat sep s c t e)
