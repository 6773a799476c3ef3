-- ===== src/Base/Text.antt =====
-- Text as the list of its code points, for the code that looks inside a text.
use Prim.Native.Char.{code}
use Prim.Native.Nat.{ℕ, ◌+◌}
use Prim.Native.String.{String}
use mathlib.Core.Bool.{Bool, true, false, ◌&&◌, ◌||◌}
use mathlib.Core.List.{List, [], ◌∷◌, reverse, map}
use mathlib.Core.Path.{◌≡◌}
use mathlib.Core.Logic.{◌↔◌}
use native.Mathlib.Omega.{arith}
use dapper.Base.Tests.{Eq, leb, nat_beq, if◌then◌else◌}

abbrev pub Codes : Type 0
Codes = List ℕ

abbrev pub codes : String → Codes
codes String.[] = []
codes (String.◌∷◌ c s) = code c ∷ codes s

-- `s.startswith(p)`
unfoldable pub starts_with : Codes → Codes → Bool
starts_with s [] = true
starts_with [] (d ∷ p) = false
starts_with (c ∷ s) (d ∷ p) = nat_beq c d && starts_with s p

-- `p in s`
unfoldable pub has_infix : Codes → Codes → Bool
unfolding starts_with
has_infix p [] = starts_with [] p
has_infix p (c ∷ s) = starts_with (c ∷ s) p || has_infix p s

-- The characters for which `str.isspace` holds, which are those of `\s` too.
unfoldable pub is_space : ℕ → Bool
is_space c =
    (leb 9 c && leb c 13)
    || (leb 28 c && leb c 32)
    || nat_beq c 0x85
    || nat_beq c 0xa0
    || nat_beq c 0x1680
    || (leb 0x2000 c && leb c 0x200a)
    || (leb 0x2028 c && leb c 0x2029)
    || nat_beq c 0x202f
    || nat_beq c 0x205f
    || nat_beq c 0x3000

-- `s.lstrip()`
unfoldable pub lstrip : Codes → Codes
unfolding is_space
lstrip [] = []
lstrip (c ∷ s) = let rest = lstrip s in if is_space c then rest else c ∷ s

-- `s.strip()`
unfoldable pub strip : Codes → Codes
unfolding lstrip
strip s = reverse (lstrip (reverse (lstrip s)))

-- `s.lower()` on the letters of ASCII; other characters are left alone.
unfoldable pub lower_char : ℕ → ℕ
lower_char c = if leb 65 c && leb c 90 then c + 32 else c

unfoldable pub lower : Codes → Codes
unfolding lower_char
lower s = map lower_char s

-- `s == t`
unfoldable pub same_text : Codes → Codes → Bool
same_text [] [] = true
same_text (c ∷ s) (d ∷ t) = nat_beq c d && same_text s t
same_text s t = false

pub same_text_iff : (s t : Codes) → (same_text s t ≡ true) ↔ (s ≡ t)
unfolding same_text
same_text_iff [] [] = ground arith
same_text_iff [] (d ∷ t) = ground arith
same_text_iff (c ∷ s) [] = ground arith
same_text_iff (c ∷ s) (d ∷ t) = ground (arith, same_text_iff s t)

instance abbrev pub codes_eq : Eq Codes
codes_eq = record { beq = same_text; beq_iff = same_text_iff }
