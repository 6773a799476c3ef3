-- ===== src/Core/DataBreakpoints/Changes.antt =====
-- Which watched variables `check_for_changes` reports.
use dapper.Base.{
  String, ◌≡◌, refl, ap, Bool, true, false, ◌&&◌, Option, none, some, List, [], ◌∷◌, nat_eq,
  string_eq, arith, eq_iff, contains, is_empty, select, if◌then◌else◌,
}
use dapper.Base.Dict.{Dict}
use dapper.Core.DataBreakpoints.{Comparison, compared, not_comparable, fails, try_select}

pub contains-select :
    (p : String → Bool) (n : String) (names : List String)
    → contains n (select p names) ≡ (contains n names && p n)
unfolding contains select
contains-select p n [] = refl
contains-select p n (m ∷ names) = ground (arith, contains-select p n names, eq_iff n m, ap p)

-- Whether a value now tells of a change from a value before, where there is one: it is another
-- object, and `==` does not say that they are equal. None where an exception leaves the comparison.
abbrev pub verdict {ℓ} :
    {V : Type ℓ} → (V → V → Bool) → (V → V → Comparison) → Option V → Option V → Option Bool
verdict same equal none before = some false
verdict same equal (some now) none = some false
verdict same equal (some now) (some before) = elim (equal now before) [
  | fails ↦ none
  | not_comparable ↦ some (if same before now then false else true)
  | compared truth ↦
      if same before now
      then some false
      else (elim truth [ none ↦ none | some true ↦ some false | some false ↦ some true ])
]

abbrev pub says_so : Option Bool → Bool
says_so none = false
says_so (some b) = b

abbrev pub says_nothing : Option Bool → Bool
says_nothing none = true
says_nothing (some b) = false

-- The members for which the verdict is that they changed, or none where a verdict is missing.
abbrev pub all_or_none {ℓ} : {A : Type ℓ} → (A → Option Bool) → List A → Option (List A)
all_or_none p xs =
    if is_empty (select (λ x. says_nothing (p x)) xs)
    then some (select (λ x. says_so (p x)) xs)
    else none

pub try_select_lem {ℓ} :
    {A : Type ℓ} (p : A → Option Bool) (xs : List A) → try_select p xs ≡ all_or_none p xs
unfolding try_select select
try_select_lem p [] = refl
try_select_lem p (x ∷ xs) = ground (arith, try_select_lem p xs)

pub try_select-agree :
    (p q : String → Option Bool) (xs : List String)
    → ((n : String) → contains n xs ≡ true → p n ≡ q n)
    → try_select p xs ≡ try_select q xs
unfolding try_select contains
try_select-agree p q [] h = refl
try_select-agree p q (x ∷ xs) h =
    let here : p x ≡ q x = h x (ground (arith, eq_iff x x)) in
    let rest : try_select p xs ≡ try_select q xs =
      try_select-agree p q xs (λ n k. h n (ground arith)) in
    ground (arith, here, rest)
