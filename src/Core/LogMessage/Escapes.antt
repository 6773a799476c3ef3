-- ===== src/Core/LogMessage/Escapes.antt =====
-- Doubled braces of a log message: where they stand for themselves, and where they do not.
use dapper.Base.{
  ℕ, ◌≡◌, refl, ap, ◌∙◌, false, ◌||◌, [], ◌∷◌, arith, nat_eq, ◌==◌, All, if◌then◌else◌,
}
use dapper.Base.Text.{Codes}
use dapper.Core.LogMessage.{
  left_placeholder, right_placeholder, replace_double, replace_one, outside, substitute,
  format_log_message,
}

-- A character that is no placeholder.
abbrev pub IsOrdinary : ℕ → Type 0
IsOrdinary c = ((c == left_placeholder) ≡ false) × ((c == right_placeholder) ≡ false)

-- A character that is no brace.
abbrev pub IsNoBrace : ℕ → Type 0
IsNoBrace c = ((c == b'{') ≡ false) × ((c == b'}') ≡ false)

-- The text in which each brace is written twice.
unfoldable pub escape : Codes → Codes
escape [] = []
escape (c ∷ s) = if c == b'{' || c == b'}' then c ∷ c ∷ escape s else c ∷ escape s

pub replace_double_other :
    (c p a : ℕ) (s : Codes)
    → (a == c) ≡ false
    → replace_double c p (a ∷ s) ≡ a ∷ replace_double c p s
unfolding replace_double
replace_double_other c p a [] h = refl
replace_double_other c p a (b ∷ s) h = ground (arith, h)

pub replace_double_same :
    (c p : ℕ) (s : Codes) → replace_double c p (c ∷ c ∷ s) ≡ p ∷ replace_double c p s
unfolding replace_double
replace_double_same c p s = ground arith

-- The text after the first replacement, and after both.
half : Codes → Codes
half [] = []
half (c ∷ s) =
    if c == b'{'
    then left_placeholder ∷ half s
    else if c == b'}'
    then c ∷ c ∷ half s
    else c ∷ half s

marked : Codes → Codes
marked [] = []
marked (c ∷ s) =
    (if c == b'{' then left_placeholder else if c == b'}' then right_placeholder else c) ∷ marked s

replace-escape : (s : Codes) → replace_double b'{' left_placeholder (escape s) ≡ half s
unfolding escape half
replace-escape [] = unfold replace_double in refl
replace-escape (c ∷ s) = ground (
  arith,
  replace-escape s,
  replace_double_same b'{' left_placeholder (escape s),
  replace_double_other b'{' left_placeholder c (escape s),
  replace_double_other b'{' left_placeholder c (c ∷ escape s),
)

replace-half : (s : Codes) → replace_double b'}' right_placeholder (half s) ≡ marked s
unfolding half marked
replace-half [] = unfold replace_double in refl
replace-half (c ∷ s) = ground (
  arith,
  replace-half s,
  replace_double_same b'}' right_placeholder (half s),
  replace_double_other b'}' right_placeholder c (half s),
  replace_double_other b'}' right_placeholder left_placeholder (half s),
)

substitute-marked :
    (repl : Codes → Codes) (s : Codes) → substitute repl outside (marked s) ≡ marked s
unfolding substitute marked
substitute-marked repl [] = refl
substitute-marked repl (c ∷ s) = ground (arith, substitute-marked repl s)

unfoldable pub restore : Codes → Codes
restore s = replace_one right_placeholder b'}' (replace_one left_placeholder b'{' s)

restore-marked : (s : Codes) → All IsOrdinary s → restore (marked s) ≡ s
unfolding restore replace_one marked
restore-marked [] h = refl
restore-marked (c ∷ s) h = ground (arith, restore-marked s h.1, h.0.0, h.0.1)

-- A text of ordinary characters in which every brace is doubled is rendered as that text, whatever
-- the expressions would give.
pub format-escape :
    (repl : Codes → Codes) (s : Codes) → All IsOrdinary s → format_log_message repl (escape s) ≡ s
unfolding format_log_message restore
format-escape repl s h =
    ap (λ t. restore (substitute repl outside (replace_double b'}' right_placeholder t)))
      (replace-escape s)
    ∙ ap (λ t. restore (substitute repl outside t)) (replace-half s)
    ∙ ap restore (substitute-marked repl s)
    ∙ restore-marked s h
