-- ===== src/Base/Lists.antt =====
-- Lists measured by native numbers, and membership as a Boolean test.
use Prim.Native.Nat.{ℕ, zero, suc, ◌+◌, ◌-◌, ◌≤◌}
use mathlib.Core.Path.{◌≡◌, refl, sym, ap, ◌∙◌}
use mathlib.Core.Bool.{Bool, true, false, ◌||◌}
use mathlib.Core.List.{List, [], ◌∷◌, ◌++◌}
use mathlib.Core.Option.{Option, none, some}
use native.Mathlib.Omega.{arith}
use native.Mathlib.Numerals.{unary_clauses}
use dapper.Base.Tests.{Eq, ◌==◌, if◌then◌else◌}

suc_add : (a b : ℕ) → suc (a + b) ≡ suc a + b
suc_add a b = omega arith

module _ {ℓ} {A : Type ℓ} where
  abbrev pub length : List A → ℕ
  length [] = 0
  length (x ∷ xs) = suc (length xs)

  abbrev pub take : ℕ → List A → List A
  take zero xs = []
  take (suc n) [] = []
  take (suc n) (x ∷ xs) = x ∷ take n xs

  abbrev pub drop : ℕ → List A → List A
  drop zero xs = xs
  drop (suc n) [] = []
  drop (suc n) (x ∷ xs) = drop n xs

  abbrev pub is_empty : List A → Bool
  is_empty [] = true
  is_empty (x ∷ xs) = false

  -- The members that pass a test, in order.
  unfoldable pub select : (A → Bool) → List A → List A
  select p [] = []
  select p (x ∷ xs) = let rest = select p xs in if p x then x ∷ rest else rest

  pub length-append : (xs ys : List A) → length (xs ++ ys) ≡ length xs + length ys
  length-append [] ys = omega arith
  length-append (x ∷ xs) ys = omega (arith, length-append xs ys)

  pub take-drop-append : (xs : List A) (a b : ℕ) → take a xs ++ take b (drop a xs) ≡ take (a + b) xs
  take-drop-append xs zero b = ap (λ n. take n xs) (omega arith)
  take-drop-append [] (suc a) zero = simp unary_clauses refl
  take-drop-append [] (suc a) (suc b) = simp unary_clauses refl
  take-drop-append (x ∷ xs) (suc a) b =
      ap (◌∷◌ x) (take-drop-append xs a b) ∙ ap (λ n. take n (x ∷ xs)) (suc_add a b)

  pub drop-drop : (xs : List A) (a b : ℕ) → drop b (drop a xs) ≡ drop (a + b) xs
  drop-drop xs zero b = ap (λ n. drop n xs) (omega arith)
  drop-drop [] (suc a) zero = simp unary_clauses refl
  drop-drop [] (suc a) (suc b) = simp unary_clauses refl
  drop-drop (x ∷ xs) (suc a) b = drop-drop xs a b ∙ ap (λ n. drop n (x ∷ xs)) (suc_add a b)

  pub length-drop : (xs : List A) (n : ℕ) → length (drop n xs) ≡ length xs - n
  length-drop xs zero = omega arith
  length-drop [] (suc n) = omega arith
  length-drop (x ∷ xs) (suc n) = omega (arith, length-drop xs n)

  pub drop-append : (n : ℕ) (xs ys : List A) → n ≤ length xs → drop n (xs ++ ys) ≡ drop n xs ++ ys
  drop-append zero xs ys h = refl
  drop-append (suc n) [] ys h = absurd (omega arith)
  drop-append (suc n) (x ∷ xs) ys h = drop-append n xs ys (omega arith)

  -- `xs[-n:]`, for `n` above 0
  abbrev pub last_of : ℕ → List A → List A
  last_of n xs = drop (length xs - n) xs

  -- The end of a list is found on a list that was cut before.
  pub last_of-append :
      (n : ℕ) (xs ys : List A)
      → length ys ≤ n
      → last_of n (last_of n xs ++ ys) ≡ last_of n (xs ++ ys)
  last_of-append n xs ys h =
      ap (drop (length (last_of n xs ++ ys) - n))
        (sym (drop-append (length xs - n) xs ys (omega arith)))
      ∙ drop-drop (xs ++ ys) (length xs - n) (length (last_of n xs ++ ys) - n)
      ∙ ap (λ k. drop k (xs ++ ys))
          (omega (
            arith,
            length-append xs ys,
            length-append (last_of n xs) ys,
            length-drop xs (length xs - n),
          ))

-- Every member satisfies `P`.
abbrev pub All {ℓ κ} : {A : Type ℓ} → (A → Type κ) → List A → Type κ
All P [] = Unit
All P (x ∷ xs) = P x × All P xs

pub All-weaken {ℓ κ} :
    {A : Type ℓ} {P Q : A → Type κ} (xs : List A) → ((x : A) → P x → Q x) → All P xs → All Q xs
All-weaken [] f h = tt
All-weaken (x ∷ xs) f h = (f x h.0, All-weaken xs f h.1)

pub All-append {ℓ κ} :
    {A : Type ℓ} (P : A → Type κ) (xs ys : List A) → All P xs → All P ys → All P (xs ++ ys)
All-append P [] ys h k = k
All-append P (x ∷ xs) ys h k = (h.0, All-append P xs ys h.1 k)

module _ {ℓ} {A : Type ℓ} ⦃e : Eq A⦄ where
  -- `x in xs`
  unfoldable pub contains : A → List A → Bool
  contains a [] = false
  contains a (x ∷ xs) = a == x || contains a xs

  -- `s.add(x)`: a set is a list of its members, in the order of their arrival.
  unfoldable pub add : A → List A → List A
  unfolding contains
  add a xs = if contains a xs then xs else a ∷ xs

  -- `s.discard(x)`
  unfoldable pub discard : A → List A → List A
  discard a [] = []
  discard a (x ∷ xs) = let rest = discard a xs in if a == x then rest else x ∷ rest

  pub contains-add : (a b : A) (xs : List A) → contains b (add a xs) ≡ (b == a || contains b xs)
  unfolding add
  contains-add a b xs = ground (arith, e.beq_iff b a)

  pub contains-discard :
      (a b : A) (xs : List A)
      → contains b (discard a xs) ≡ (if a == b then false else contains b xs)
  unfolding contains discard
  contains-discard a b [] = ground arith
  contains-discard a b (x ∷ xs) =
      ground (arith, contains-discard a b xs, e.beq_iff a b, e.beq_iff a x, e.beq_iff b x)

module _ {ℓ} {A : Type ℓ} where
  abbrev pub get_elem? : List A → ℕ → Option A
  get_elem? [] i = none
  get_elem? (x ∷ xs) zero = some x
  get_elem? (x ∷ xs) (suc i) = get_elem? xs i

  pub get_elem?_out : (xs : List A) (i : ℕ) → length xs ≤ i → get_elem? xs i ≡ none
  get_elem?_out [] i h = refl
  get_elem?_out (x ∷ xs) zero h = absurd (omega arith)
  get_elem?_out (x ∷ xs) (suc i) h = get_elem?_out xs i (omega arith)
