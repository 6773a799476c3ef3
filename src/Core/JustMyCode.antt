-- ===== src/Core/JustMyCode.antt =====
-- dapper/core/just_my_code.py: which files are the user's code. Texts are lists of code points.
use dapper.Base.{
  ◌≡◌, refl, Bool, true, false, not, ◌&&◌, ◌||◌, Option, none, some, List, [], ◌∷◌, ◌++◌, All,
  arith, nat_eq, ◌==◌, if◌then◌else◌, Option-cases, inl, inr,
}
use dapper.Base.Text.{Codes, codes, starts_with, has_infix, lower, lower_char, same_text}

-- `s.replace("\\", "/")`
unfoldable pub normalize : Codes → Codes
normalize [] = []
normalize (c ∷ s) = (if c == b'\\' then b'/' else c) ∷ normalize s

-- `s.endswith("/")`
unfoldable pub ends_with_slash : Codes → Bool
ends_with_slash [] = false
ends_with_slash (c ∷ []) = c == b'/'
ends_with_slash (c ∷ d ∷ s) = ends_with_slash (d ∷ s)

unfoldable pub with_slash : Codes → Codes
unfolding ends_with_slash
with_slash s = if ends_with_slash s then s else s ++ b'/' ∷ []

-- One prefix of the interpreter; `resolve` is `Path(p).resolve().as_posix()`, which may raise.
unfoldable pub sys_prefix : (Codes → Option Codes) → Codes → Codes
unfolding normalize with_slash lower
sys_prefix resolve p = elim (resolve p) [
  | none ↦ lower (with_slash (normalize p))
  | some r ↦ lower (with_slash r)
]

-- The prefixes, from the attributes of `sys` that are there; an empty one is passed over. The set
-- may hold a prefix twice here, which the search in it does not tell.
unfoldable pub compute_sys_prefixes : (Codes → Option Codes) → List (Option Codes) → List Codes
unfolding sys_prefix
compute_sys_prefixes resolve [] = []
compute_sys_prefixes resolve (none ∷ attributes) = compute_sys_prefixes resolve attributes
compute_sys_prefixes resolve (some [] ∷ attributes) = compute_sys_prefixes resolve attributes
compute_sys_prefixes resolve (some (c ∷ p) ∷ attributes) =
    sys_prefix resolve (c ∷ p) ∷ compute_sys_prefixes resolve attributes

-- The loop over the prefixes.
unfoldable pub has_prefix : List Codes → Codes → Bool
unfolding starts_with
has_prefix [] s = false
has_prefix (p ∷ prefixes) s = starts_with s p || has_prefix prefixes s

unfoldable pub is_user_path : List Codes → Codes → Bool
unfolding starts_with same_text normalize lower has_infix has_prefix
is_user_path prefixes filename =
    if starts_with filename (codes "<frozen ") || same_text filename (codes "<frozen>")
    then false
    else let norm = normalize filename in
      if has_infix (codes "site-packages/") (lower norm)
        || has_infix (codes "dist-packages/") (lower norm)
      then false
      else if has_prefix prefixes (lower norm)
      then false
      else not (has_infix (codes "/dapper/core/") norm)
        && not (has_infix (codes "/dapper/launcher/") norm)

normalize_twice : (s : Codes) → normalize (normalize s) ≡ normalize s
unfolding normalize
normalize_twice [] = refl
normalize_twice (c ∷ s) = ground (arith, normalize_twice s)

-- A text with neither of the two separators.
no_separator : Codes → Bool
no_separator [] = true
no_separator (c ∷ s) = not (c == b'\\') && not (c == b'/') && no_separator s

starts_with-normalize :
    (s p : Codes) → no_separator p ≡ true → starts_with (normalize s) p ≡ starts_with s p
unfolding starts_with normalize no_separator
starts_with-normalize s [] h = refl
starts_with-normalize [] (d ∷ p) h = refl
starts_with-normalize (c ∷ s) (d ∷ p) h = ground (arith, starts_with-normalize s p)

same_text-normalize :
    (s p : Codes) → no_separator p ≡ true → same_text (normalize s) p ≡ same_text s p
unfolding same_text normalize no_separator
same_text-normalize [] [] h = refl
same_text-normalize [] (d ∷ p) h = refl
same_text-normalize (c ∷ s) [] h = refl
same_text-normalize (c ∷ s) (d ∷ p) h = ground (arith, same_text-normalize s p)

-- Whether a file is the user's does not depend on which of the two separators its path has.
pub is_user_path-normalize :
    (prefixes : List Codes) (filename : Codes)
    → is_user_path prefixes (normalize filename) ≡ is_user_path prefixes filename
unfolding is_user_path
is_user_path-normalize prefixes filename =
    rw
      (
        starts_with-normalize filename (codes "<frozen ") (unfold no_separator in refl),
        same_text-normalize filename (codes "<frozen>") (unfold no_separator in refl),
        normalize_twice,
      )
      refl

ends-slash : (s : Codes) → ends_with_slash (s ++ b'/' ∷ []) ≡ true
unfolding ends_with_slash
ends-slash [] = refl
ends-slash (c ∷ []) = refl
ends-slash (c ∷ d ∷ s) = ends-slash (d ∷ s)

ends-with_slash : (s : Codes) → ends_with_slash (with_slash s) ≡ true
unfolding with_slash
ends-with_slash s = ground (arith, ends-slash s)

ends-lower : (s : Codes) → ends_with_slash (lower s) ≡ ends_with_slash s
unfolding ends_with_slash lower lower_char
ends-lower [] = refl
ends-lower (c ∷ []) = ground arith
ends-lower (c ∷ d ∷ s) = ends-lower (d ∷ s)

sys_prefix_end :
    (resolve : Codes → Option Codes) (p : Codes) → ends_with_slash (sys_prefix resolve p) ≡ true
unfolding sys_prefix
sys_prefix_end resolve p = elim (Option-cases (resolve p)) [
  | inl e ↦ rw (e, sys_prefix, ends-lower) (ends-with_slash (normalize p))
  | inr (r, e) ↦ rw (e, sys_prefix, ends-lower) (ends-with_slash r)
]

-- Every prefix that the paths are compared with ends in a slash, so that a directory whose name
-- only begins like the interpreter's is not taken for it.
pub sys_prefixes_end :
    (resolve : Codes → Option Codes) (attributes : List (Option Codes))
    → All (λ p. ends_with_slash p ≡ true) (compute_sys_prefixes resolve attributes)
unfolding compute_sys_prefixes sys_prefix
sys_prefixes_end resolve [] = tt
sys_prefixes_end resolve (none ∷ attributes) = sys_prefixes_end resolve attributes
sys_prefixes_end resolve (some [] ∷ attributes) = sys_prefixes_end resolve attributes
sys_prefixes_end resolve (some (c ∷ p) ∷ attributes) =
    (sys_prefix_end resolve (c ∷ p), sys_prefixes_end resolve attributes)
