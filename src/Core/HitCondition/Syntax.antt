-- ===== src/Core/HitCondition/Syntax.antt =====
-- The texts that `evaluate_hit_condition` understands.
use mathlib.Core.List.{reverse, reverse-append, reverse-reverse, append_assoc}
use dapper.Base.{
  ℕ, ◌%◌, ◌≤◌, ◌≡◌, refl, ap, sym, ◌∙◌, Bool, true, false, ◌&&◌, some, [], ◌∷◌, ◌++◌, arith, ltb,
  leb, nat_eq, ◌==◌, length, All,
}
use dapper.Base.Text.{Codes, is_space, strip, lstrip}
use dapper.Core.HitCondition.{
  is_digit, is_number, value_from, int_max_str_digits, passes, after_mark, divides,
  evaluate_stripped, evaluate_hit_condition,
}

abbrev pub IsBlank : Codes → Type 0
IsBlank = All (λ c. is_space c ≡ true)

-- The four forms of a condition, and the mark of each.
pub data Form : Type 0 where
  every exactly at_least plain : Form

abbrev pub written : Form → Codes → Codes → Codes
written every blank digits = b'%' ∷ (blank ++ digits)
written exactly blank digits = b'=' ∷ b'=' ∷ (blank ++ digits)
written at_least blank digits = b'>' ∷ b'=' ∷ (blank ++ digits)
written plain blank digits = digits

-- When a hit passes a condition with a number.
unfoldable pub meaning : Form → ℕ → ℕ → Bool
meaning every n hit_count = ltb 0 n && hit_count % n == 0
meaning exactly n hit_count = hit_count == n
meaning at_least n hit_count = leb n hit_count
meaning plain n hit_count = hit_count == n

digit_not_space : (c : ℕ) → is_digit c ≡ true → is_space c ≡ false
unfolding is_digit is_space
digit_not_space c h = ground arith

lstrip-append : (blank s : Codes) → IsBlank blank → lstrip (blank ++ s) ≡ lstrip s
unfolding lstrip
lstrip-append [] s h = refl
lstrip-append (c ∷ blank) s h = ground (arith, h.0, lstrip-append blank s h.1)

lstrip_start : (c : ℕ) (s : Codes) → is_space c ≡ false → lstrip (c ∷ s) ≡ c ∷ s
unfolding lstrip
lstrip_start c s h = rw h refl

IsBlank-append : (a b : Codes) → IsBlank a → IsBlank b → IsBlank (a ++ b)
IsBlank-append [] b h k = k
IsBlank-append (c ∷ a) b h k = (h.0, IsBlank-append a b h.1 k)

IsBlank-reverse : (s : Codes) → IsBlank s → IsBlank (reverse s)
IsBlank-reverse [] h = h
IsBlank-reverse (c ∷ s) h =
    rw (reverse-append (c ∷ []) s)
      (IsBlank-append (reverse s) (c ∷ []) (IsBlank-reverse s h.1) (h.0, tt))

strip_around :
    (w v front : Codes) (c d : ℕ) (back : Codes)
    → IsBlank w
    → IsBlank v
    → is_space c ≡ false
    → is_space d ≡ false
    → c ∷ front ≡ back ++ d ∷ []
    → strip (w ++ ((c ∷ front) ++ v)) ≡ c ∷ front
unfolding strip
strip_around w v front c d back hw hv hc hd e =
    let core = c ∷ front in
    let turned : reverse core ≡ d ∷ reverse back = ap reverse e ∙ reverse-append back (d ∷ []) in
    rw
      (
        lstrip-append w (core ++ v) hw,
        lstrip_start c (front ++ v) hc,
        reverse-append core v,
        lstrip-append (reverse v) (reverse core) (IsBlank-reverse v hv),
        turned,
        lstrip_start d (reverse back) hd,
        ← turned,
      )
      (reverse-reverse core)

digits_last :
    (s : Codes)
    → is_number s ≡ true
    → (back : Codes) × (d : ℕ) × (s ≡ back ++ d ∷ []) × (is_digit d ≡ true)
unfolding is_number
digits_last [] h = absurd (cc)
digits_last (c ∷ []) h = ([], c, refl, ground arith)
digits_last (c ∷ c' ∷ s) h =
    let (back, d, e, k) = digits_last (c' ∷ s) (ground arith) in (c ∷ back, d, ap (◌∷◌ c) e, k)

digits_first :
    (s : Codes) → is_number s ≡ true → (c : ℕ) × (r : Codes) × (s ≡ c ∷ r) × (is_digit c ≡ true)
unfolding is_number
digits_first [] h = absurd (cc)
digits_first (c ∷ s) h = (c, s, refl, ground arith)

-- What stands behind a mark and blanks is read as it is written.
number_behind :
    (blank digits : Codes)
    → IsBlank blank
    → is_number digits ≡ true
    → after_mark [] (blank ++ digits) ≡ some digits
unfolding after_mark
number_behind blank digits h k =
    let (c, r, e, d) = digits_first digits k in
    let same : lstrip (blank ++ digits) ≡ digits =
      lstrip-append blank digits h ∙ ap lstrip e ∙ lstrip_start c r (digit_not_space c d) ∙ sym e in
    rw (same, k) refl

passes_lem :
    (test : ℕ → Bool) (digits : Codes)
    → length digits ≤ int_max_str_digits
    → passes test digits ≡ test (value_from 0 digits)
unfolding passes
passes_lem test digits h = ground arith

-- What the function does with a stripped text.
stripped_lem :
    (form : Form) (blank digits : Codes) (hit_count : ℕ)
    → IsBlank blank
    → is_number digits ≡ true
    → length digits ≤ int_max_str_digits
    → evaluate_stripped (written form blank digits) hit_count
      ≡ meaning form (value_from 0 digits) hit_count
unfolding meaning evaluate_stripped
stripped_lem every blank digits hit_count h k l =
    ground (arith, number_behind blank digits h k, passes_lem (divides hit_count) digits l)
stripped_lem exactly blank digits hit_count h k l =
    ground (arith, number_behind blank digits h k, passes_lem (λ n. hit_count == n) digits l)
stripped_lem at_least blank digits hit_count h k l =
    ground (arith, number_behind blank digits h k, passes_lem (λ n. leb n hit_count) digits l)
stripped_lem plain blank digits hit_count h k l =
    let (c, r, e, d) = digits_first digits k in
    ground (arith, k, e, d, passes_lem (λ n. hit_count == n) digits l)

-- A written condition begins and ends with a character that is no blank.
Ends : Codes → Type 0
Ends s =
    (c : ℕ) × (front : Codes) × (back : Codes) × (d : ℕ) × (s ≡ c ∷ front)
    × (s ≡ back ++ d ∷ [])
    × (is_space c ≡ false)
    × (is_space d ≡ false)

Ends-append : (c : ℕ) (mark s : Codes) → is_space c ≡ false → Ends s → Ends (c ∷ (mark ++ s))
unfolding Ends
Ends-append c mark s h (a, front, back, d, e, e', k, l) = (
  c,
  mark ++ s,
  c ∷ (mark ++ back),
  d,
  refl,
  ap (λ (r : Codes). c ∷ (mark ++ r)) e' ∙ ap (◌∷◌ c) (sym (append_assoc mark back (d ∷ []))),
  h,
  l,
)

Ends-digits : (digits : Codes) → is_number digits ≡ true → Ends digits
unfolding Ends
Ends-digits digits h =
    let (c, front, e, k) = digits_first digits h in
    let (back, d, e', l) = digits_last digits h in
    (c, front, back, d, e, e', digit_not_space c k, digit_not_space d l)

Ends-written :
    (form : Form) (blank digits : Codes)
    → is_number digits ≡ true
    → Ends (written form blank digits)
unfolding is_space
Ends-written every blank digits h = Ends-append b'%' blank digits refl (Ends-digits digits h)
Ends-written exactly blank digits h =
    Ends-append b'=' (b'=' ∷ blank) digits refl (Ends-digits digits h)
Ends-written at_least blank digits h =
    Ends-append b'>' (b'=' ∷ blank) digits refl (Ends-digits digits h)
Ends-written plain blank digits h = Ends-digits digits h

strip-Ends : (w v s : Codes) → IsBlank w → IsBlank v → Ends s → strip (w ++ (s ++ v)) ≡ s
unfolding Ends
strip-Ends w v s hw hv (c, front, back, d, e, e', k, l) =
    ap (λ (r : Codes). strip (w ++ (r ++ v))) e
    ∙ strip_around w v front c d back hw hv k l (sym e ∙ e')
    ∙ sym e

-- A condition of one of the four forms, with any blanks around it and behind its mark, passes a
-- hit exactly when its form says so of its number, if this has at most 4300 digits.
pub evaluate_written :
    (form : Form) (w blank digits v : Codes) (hit_count : ℕ)
    → IsBlank w
    → IsBlank blank
    → IsBlank v
    → is_number digits ≡ true
    → length digits ≤ int_max_str_digits
    → evaluate_hit_condition (w ++ (written form blank digits ++ v)) hit_count
      ≡ meaning form (value_from 0 digits) hit_count
unfolding evaluate_hit_condition
evaluate_written form w blank digits v hit_count hw hb hv k l =
    ap (λ s. evaluate_stripped s hit_count)
      (strip-Ends w v (written form blank digits) hw hv (Ends-written form blank digits k))
    ∙ stripped_lem form blank digits hit_count hb k l
