-- ===== src/Shared/SourceHandlers/UserCode.antt =====
-- Which modules dapper/shared/source_handlers.py takes for user code.
use dapper.Base.{ℕ, false, not, ◌||◌, [], ◌∷◌, ◌≡◌, refl, arith, nat_beq}
use dapper.Base.Text.{Codes, codes, has_infix, starts_with, lower, lower_char}
use dapper.Adapter.Sources.{Files}
use dapper.Shared.SourceHandlers.{is_user_code, has_part}

lower_char-not-L : (c : ℕ) → nat_beq (lower_char c) 76 ≡ false
unfolding lower_char
lower_char-not-L c = ground arith

has_infix-Lib : (s : Codes) → has_infix (codes "Lib") (lower s) ≡ false
unfolding has_infix lower starts_with
has_infix-Lib [] = refl
has_infix-Lib (c ∷ s) = ground (arith, has_infix-Lib s, lower_char-not-L c)

-- The last of the four parts, `Lib`, changes nothing, since it is looked for in the path in lower
-- case: a path is user code exactly when none of the three others is in it.
pub is_user_code_lem :
    (files : Files) (path : Codes)
    → is_user_code files path
      ≡ not (
          has_infix (codes "site-packages") (lower path)
          || has_infix (codes "lib/python") (lower path)
          || has_infix (codes "lib\\python") (lower path))
unfolding is_user_code has_part
is_user_code_lem files path = ground (arith, has_infix-Lib path)
