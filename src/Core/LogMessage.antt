-- ===== src/Core/LogMessage.antt =====
-- dapper/core/debug_utils.py: `format_log_message`. `repl` is the text that an expression between
-- braces becomes.
pub mod Escapes
pub mod Expressions
use mathlib.Core.List.{reverse}
use dapper.Base.{ℕ, Bool, true, false, ◌&&◌, List, [], ◌∷◌, ◌++◌, nat_eq, ◌==◌, if◌then◌else◌}
use dapper.Base.Text.{Codes}

abbrev pub left_placeholder : ℕ
left_placeholder = 1

abbrev pub right_placeholder : ℕ
right_placeholder = 2

-- `s.replace(cc, p)`, for a character twice: from the left, with no overlap
unfoldable pub replace_double : ℕ → ℕ → Codes → Codes
replace_double c p [] = []
replace_double c p (a ∷ []) = a ∷ []
replace_double c p (a ∷ b ∷ s) =
    let one = replace_double c p (b ∷ s) in
    let two = replace_double c p s in if a == c && b == c then p ∷ two else a ∷ one

-- `s.replace(p, c)`, for single characters
unfoldable pub replace_one : ℕ → ℕ → Codes → Codes
replace_one p c [] = []
replace_one p c (a ∷ s) = (if a == p then c else a) ∷ replace_one p c s

-- Where `re.sub` stands: outside of braces, or behind a left brace and some characters that are no
-- braces, which are kept in reverse.
pub data Place : Type 0 where
  outside : Place
  inside : Codes → Place

-- What a left brace that does not begin a match leaves.
abbrev pub unmatched : Place → Codes
unmatched outside = []
unmatched (inside body) = b'{' ∷ reverse body

-- What a right brace does: it ends a match whose body is not empty.
unfoldable pub close : (Codes → Codes) → Place → Codes
close repl outside = b'}' ∷ []
close repl (inside []) = b'{' ∷ b'}' ∷ []
close repl (inside (c ∷ body)) = repl (reverse (c ∷ body))

-- A character that is no brace: what is written, and where the scan stands then.
abbrev pub plain_text : Place → ℕ → Codes
plain_text outside c = c ∷ []
plain_text (inside body) c = []

abbrev pub plain_place : Place → ℕ → Place
plain_place outside c = outside
plain_place (inside body) c = inside (c ∷ body)

-- `re.sub(r"\{([^{}]+)\}", repl, s)`
unfoldable pub substitute : (Codes → Codes) → Place → Codes → Codes
unfolding close
substitute repl place [] = unmatched place
substitute repl place (c ∷ s) =
    let opened = unmatched place ++ substitute repl (inside []) s in
    let closed = close repl place ++ substitute repl outside s in
    let plain = plain_text place c ++ substitute repl (plain_place place c) s in
    if c == b'{' then opened else if c == b'}' then closed else plain

unfoldable pub format_log_message : (Codes → Codes) → Codes → Codes
unfolding replace_double replace_one substitute
format_log_message repl template =
    let s = replace_double b'}' right_placeholder (replace_double b'{' left_placeholder template) in
    replace_one right_placeholder b'}'
      (replace_one left_placeholder b'{' (substitute repl outside s))
