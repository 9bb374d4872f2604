-- ===== src/Text/Quote.antt =====
-- Python's `shlex.quote`.
use Prim.Native.Char.{code}
use veil_python_stack.Prelude.{
  ℕ, String, Bool, true, ◌&&◌, ◌||◌, leb, nat_eq, string_eq, ◌==◌, if◌then◌else◌,
}
use veil_python_stack.Text.{cat}

-- A letter, a digit, or one of @ % + = : , . / - _
abbrev is_safe : ℕ → Bool
is_safe c =
    (leb 48 c && leb c 58)
    || ((leb 64 c && leb c 90)
        || ((leb 97 c && leb c 122)
            || (c == 37
                || (c == 43 || (c == 61 || (c == 44 || (leb 45 c && leb c 47 || c == 95)))))))

unfoldable all_safe : String → Bool
all_safe String.[] = true
all_safe (String.◌∷◌ c s) = is_safe (code c) && all_safe s

-- s.replace("'", "'\"'\"'")
unfoldable escaped : String → String
escaped String.[] = ""
escaped (String.◌∷◌ c s) =
    let rest = escaped s in if code c == 39 then cat "'\"'\"'" rest else String.◌∷◌ c rest

-- shlex.quote(s)
unfoldable pub quote : String → String
unfolding all_safe escaped
quote s = if s == "" then "''" else if all_safe s then s else cat "'" (cat (escaped s) "'")
