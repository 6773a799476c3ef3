-- ===== src/Core/HitCondition.antt =====
-- dapper/core/debug_utils.py: `evaluate_hit_condition`. A text is the list of its code points; the
-- digits that `\d` and `int` read are those of ASCII.
pub mod Refusals
pub mod Syntax
use dapper.Base.{
  ℕ, zero, suc, ◌+◌, ◌-◌, ◌*◌, ◌%◌, Bool, true, false, not, ◌&&◌, Option, none, some, List, [], ◌∷◌,
  ltb, leb, nat_eq, ◌==◌, length, is_empty, if◌then◌else◌,
}
use dapper.Base.Text.{Codes, is_space, strip, lstrip}

unfoldable pub is_digit : ℕ → Bool
is_digit c = leb 48 c && leb c 57

unfoldable pub all_digits : Codes → Bool
unfolding is_digit
all_digits [] = true
all_digits (c ∷ s) = is_digit c && all_digits s

-- What `\d+$` matches, in a text with no line break at its end.
unfoldable pub is_number : Codes → Bool
unfolding all_digits
is_number s = not (is_empty s) && all_digits s

unfoldable pub value_from : ℕ → Codes → ℕ
value_from n [] = n
value_from n (c ∷ s) = value_from (n * 10 + (c - 48)) s

-- `sys.get_int_max_str_digits()`, as the interpreter sets it
abbrev pub int_max_str_digits : ℕ
int_max_str_digits = 4300

-- `int(s)` of digits; `none` is the `ValueError` for too many of them.
unfoldable pub int_of : Codes → Option ℕ
unfolding value_from
int_of s = if ltb int_max_str_digits (length s) then none else some (value_from 0 s)

-- The test that the number of a pattern gives; an exception is caught, and passes.
unfoldable pub passes : (ℕ → Bool) → Codes → Bool
unfolding int_of
passes test s = elim (int_of s) [ none ↦ true | some n ↦ test n ]

-- `re.match(r"^%\s*(\d+)$", s)` and the like: the digits behind a mark.
unfoldable pub after_mark : Codes → Codes → Option Codes
unfolding lstrip is_number
after_mark [] s = let digits = lstrip s in if is_number digits then some digits else none
after_mark (m ∷ mark) [] = none
after_mark (m ∷ mark) (c ∷ s) = let rest = after_mark mark s in if m == c then rest else none

unfoldable pub divides : ℕ → ℕ → Bool
divides hit_count n = ltb 0 n && hit_count % n == 0

-- The matches in turn, on the stripped text.
unfoldable pub evaluate_stripped : Codes → ℕ → Bool
unfolding after_mark passes divides is_number
evaluate_stripped s hit_count = elim (after_mark (b'%' ∷ []) s) [
  | some digits ↦ passes (divides hit_count) digits
  | none ↦ elim (after_mark (b'=' ∷ b'=' ∷ []) s) [
    | some digits ↦ passes (λ n. hit_count == n) digits
    | none ↦ elim (after_mark (b'>' ∷ b'=' ∷ []) s) [
      | some digits ↦ passes (λ n. leb n hit_count) digits
      | none ↦ if is_number s then passes (λ n. hit_count == n) s else true
    ]
  ]
]

unfoldable pub evaluate_hit_condition : Codes → ℕ → Bool
unfolding strip evaluate_stripped
evaluate_hit_condition expr hit_count = evaluate_stripped (strip expr) hit_count
