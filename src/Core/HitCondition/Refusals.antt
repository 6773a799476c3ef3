-- ===== src/Core/HitCondition/Refusals.antt =====
-- Which texts refuse a hit, and that all others pass.
use dapper.Base.{
  ℕ, ◌≤◌, ◌≡◌, refl, ap, sym, ◌∙◌, inl, inr, Bool, true, false, none, some, [], ◌∷◌, ◌++◌, arith,
  leb, nat_eq, ◌==◌, length, Bool-cases, Option-cases,
}
use dapper.Base.Text.{Codes, is_space, strip, lstrip}
use dapper.Core.HitCondition.{
  is_number, value_from, int_max_str_digits, passes, after_mark, divides, evaluate_stripped,
  evaluate_hit_condition,
}
use dapper.Core.HitCondition.Syntax.{
  IsBlank, Form, every, exactly, at_least, plain, written, meaning,
}

lstrip_split : (s : Codes) → (blank : Codes) × (s ≡ blank ++ lstrip s) × IsBlank blank
unfolding lstrip
lstrip_split [] = ([], refl, tt)
lstrip_split (c ∷ s) = elim (Bool-cases (is_space c)) [
  | inl y ↦ let (blank, e, h) = lstrip_split s in (c ∷ blank, rw (y, lstrip) (ap (◌∷◌ c) e), (y, h))
  | inr y ↦ ([], rw (y, lstrip) refl, tt)
]

behind_inv :
    (s digits : Codes)
    → after_mark [] s ≡ some digits
    → (blank : Codes) × (s ≡ blank ++ digits) × IsBlank blank × (is_number digits ≡ true)
unfolding after_mark
behind_inv s digits h =
    let (blank, e, k) = lstrip_split s in (blank, ground (arith, e), k, ground arith)

passes_inv :
    (test : ℕ → Bool) (digits : Codes)
    → passes test digits ≡ false
    → (length digits ≤ int_max_str_digits) × (test (value_from 0 digits) ≡ false)
unfolding passes
passes_inv test digits h = ground arith

-- What a refusal shows of a stripped text.
Refused : Codes → ℕ → Type 0
Refused s hit_count =
    (form : Form) × (blank : Codes) × (digits : Codes) × (s ≡ written form blank digits)
    × IsBlank blank
    × (is_number digits ≡ true)
    × (length digits ≤ int_max_str_digits)
    × (meaning form (value_from 0 digits) hit_count ≡ false)

Refused-by :
    (form : Form) (s rest digits : Codes) (test : ℕ → Bool) (hit_count : ℕ)
    → after_mark [] rest ≡ some digits
    → passes test digits ≡ false
    → ((blank : Codes) → rest ≡ blank ++ digits → s ≡ written form blank digits)
    → test (value_from 0 digits) ≡ meaning form (value_from 0 digits) hit_count
    → Refused s hit_count
unfolding Refused
Refused-by form s rest digits test hit_count found fails shape same =
    let (blank, e, b, k) = behind_inv rest digits found in
    let (l, t) = passes_inv test digits fails in
    (form, blank, digits, shape blank e, b, k, l, sym same ∙ t)

mark_inv :
    (m : ℕ) (mark s digits : Codes)
    → after_mark (m ∷ mark) s ≡ some digits
    → (r : Codes) × (s ≡ m ∷ r) × (after_mark mark r ≡ some digits)
unfolding after_mark
mark_inv m mark [] digits h = absurd (cc)
mark_inv m mark (c ∷ s) digits h = (s, ground arith, ground arith)

-- Which test decided, by which match came first.
module _ (s : Codes) (hit_count : ℕ) where
  by_every :
      (digits : Codes)
      → after_mark (b'%' ∷ []) s ≡ some digits
      → evaluate_stripped s hit_count ≡ passes (divides hit_count) digits
  unfolding evaluate_stripped
  by_every digits found = rw (found, evaluate_stripped) refl

  module _ (no_every : after_mark (b'%' ∷ []) s ≡ none) where
    by_exactly :
        (digits : Codes)
        → after_mark (b'=' ∷ b'=' ∷ []) s ≡ some digits
        → evaluate_stripped s hit_count ≡ passes (λ n. hit_count == n) digits
    unfolding evaluate_stripped
    by_exactly digits found = ground arith

    module _ (no_exactly : after_mark (b'=' ∷ b'=' ∷ []) s ≡ none) where
      by_at_least :
          (digits : Codes)
          → after_mark (b'>' ∷ b'=' ∷ []) s ≡ some digits
          → evaluate_stripped s hit_count ≡ passes (λ n. leb n hit_count) digits
      unfolding evaluate_stripped
      by_at_least digits found = ground arith

      by_plain :
          after_mark (b'>' ∷ b'=' ∷ []) s ≡ none
          → evaluate_stripped s hit_count ≡ false
          → (is_number s ≡ true) × (passes (λ n. hit_count == n) s ≡ false)
      unfolding evaluate_stripped
      by_plain no_at_least h = (ground arith, ground arith)

stripped_inv :
    (s : Codes) (hit_count : ℕ) → evaluate_stripped s hit_count ≡ false → Refused s hit_count
stripped_inv s hit_count h = elim (Option-cases (after_mark (b'%' ∷ []) s)) [
  | inr (digits, found) ↦
      let (r, e, behind) = mark_inv b'%' [] s digits found in
      Refused-by every s r digits (divides hit_count) hit_count behind
        (sym (by_every s hit_count digits found) ∙ h) (λ blank k. e ∙ ap (◌∷◌ b'%') k)
        (unfold meaning divides in refl)
  | inl no_every ↦ elim (Option-cases (after_mark (b'=' ∷ b'=' ∷ []) s)) [
    | inr (digits, found) ↦
        let (r, e, behind) = mark_inv b'=' (b'=' ∷ []) s digits found in
        let (r', e', behind') = mark_inv b'=' [] r digits behind in
        Refused-by exactly s r' digits (λ n. hit_count == n) hit_count behind'
          (sym (by_exactly s hit_count no_every digits found) ∙ h)
          (λ blank k. e ∙ ap (◌∷◌ b'=') (e' ∙ ap (◌∷◌ b'=') k)) (unfold meaning in refl)
    | inl no_exactly ↦ elim (Option-cases (after_mark (b'>' ∷ b'=' ∷ []) s)) [
      | inr (digits, found) ↦
          let (r, e, behind) = mark_inv b'>' (b'=' ∷ []) s digits found in
          let (r', e', behind') = mark_inv b'=' [] r digits behind in
          Refused-by at_least s r' digits (λ n. leb n hit_count) hit_count behind'
            (sym (by_at_least s hit_count no_every no_exactly digits found) ∙ h)
            (λ blank k. e ∙ ap (◌∷◌ b'>') (e' ∙ ap (◌∷◌ b'=') k)) (unfold meaning in refl)
      | inl no_at_least ↦
          let (number, fails) = by_plain s hit_count no_every no_exactly no_at_least h in
          let (l, t) = passes_inv (λ n. hit_count == n) s fails in
          unfold Refused meaning in (plain, [], s, refl, tt, number, l, t)
    ]
  ]
]

-- A condition refuses a hit only if, its blanks stripped, it has one of the four forms, with at
-- most 4300 digits, and the form says so; every other text passes every hit.
pub evaluate_refuses :
    (expr : Codes) (hit_count : ℕ)
    → evaluate_hit_condition expr hit_count ≡ false
    → (form : Form) × (blank : Codes) × (digits : Codes) × (strip expr ≡ written form blank digits)
      × IsBlank blank
      × (is_number digits ≡ true)
      × (length digits ≤ int_max_str_digits)
      × (meaning form (value_from 0 digits) hit_count ≡ false)
unfolding evaluate_hit_condition Refused
evaluate_refuses expr hit_count h = stripped_inv (strip expr) hit_count h
