-- ===== src/Core/LogMessage/Expressions.antt =====
-- Expressions between the braces of a log message.
use mathlib.Core.List.{reverse, reverse-reverse, reverse-cons, append_assoc, append-nil}
use dapper.Base.{ℕ, ◌≡◌, ◌≢◌, refl, ap, sym, ◌∙◌, false, [], ◌∷◌, ◌++◌, arith, nat_eq, ◌==◌, All}
use dapper.Base.Text.{Codes}
use dapper.Core.LogMessage.{
  left_placeholder, right_placeholder, replace_double, outside, inside, close, substitute,
  format_log_message,
}
use dapper.Core.LogMessage.Escapes.{IsNoBrace, replace_double_other, replace_double_same, restore}

replace_left_plain :
    (e s : Codes)
    → All IsNoBrace e
    → replace_double b'{' left_placeholder (e ++ s) ≡ e ++ replace_double b'{' left_placeholder s
replace_left_plain [] s h = refl
replace_left_plain (c ∷ e) s h =
    replace_double_other b'{' left_placeholder c (e ++ s) h.0.0
    ∙ ap (◌∷◌ c) (replace_left_plain e s h.1)

replace_right_plain :
    (e s : Codes)
    → All IsNoBrace e
    → replace_double b'}' right_placeholder (e ++ s) ≡ e ++ replace_double b'}' right_placeholder s
replace_right_plain [] s h = refl
replace_right_plain (c ∷ e) s h =
    replace_double_other b'}' right_placeholder c (e ++ s) h.0.1
    ∙ ap (◌∷◌ c) (replace_right_plain e s h.1)

replace_double_single :
    (c p b : ℕ) (s : Codes)
    → (b == c) ≡ false
    → replace_double c p (c ∷ b ∷ s) ≡ c ∷ replace_double c p (b ∷ s)
unfolding replace_double
replace_double_single c p b s h = ground arith

replace_double_end : (c p a : ℕ) → replace_double c p (a ∷ []) ≡ a ∷ []
unfolding replace_double
replace_double_end c p a = refl

-- The replacements leave an expression in single braces alone.
module _ (before : Codes) (c : ℕ) (e : Codes) (hb : All IsNoBrace before)
    (he : All IsNoBrace (c ∷ e)) where
  abbrev template : Codes
  template = before ++ (b'{' ∷ ((c ∷ e) ++ b'}' ∷ []))

  left_pass : replace_double b'{' left_placeholder template ≡ template
  left_pass =
      replace_left_plain before _ hb
      ∙ ap (◌++◌ before) (
          replace_double_single b'{' left_placeholder c (e ++ b'}' ∷ []) he.0.0
          ∙ ap (◌∷◌ b'{') (
              replace_left_plain (c ∷ e) (b'}' ∷ []) he
              ∙ ap (◌++◌ (c ∷ e)) (replace_double_end b'{' left_placeholder b'}')))

  right_pass : replace_double b'}' right_placeholder template ≡ template
  right_pass =
      replace_right_plain before _ hb
      ∙ ap (◌++◌ before) (
          replace_double_other b'}' right_placeholder b'{' ((c ∷ e) ++ b'}' ∷ []) refl
          ∙ ap (◌∷◌ b'{') (
              replace_right_plain (c ∷ e) (b'}' ∷ []) he
              ∙ ap (◌++◌ (c ∷ e)) (replace_double_end b'}' right_placeholder b'}')))

right_braces :
    replace_double b'{' left_placeholder (b'}' ∷ b'}' ∷ b'}' ∷ []) ≡ b'}' ∷ b'}' ∷ b'}' ∷ []
unfolding replace_double
right_braces = refl

-- What the replacements make of three braces on each side.
module _ (c : ℕ) (e : Codes) (he : All IsNoBrace (c ∷ e)) where
  left_triple :
      replace_double b'{' left_placeholder
        (b'{' ∷ b'{' ∷ b'{' ∷ ((c ∷ e) ++ b'}' ∷ b'}' ∷ b'}' ∷ []))
      ≡ left_placeholder ∷ b'{' ∷ ((c ∷ e) ++ b'}' ∷ b'}' ∷ b'}' ∷ [])
  left_triple =
      replace_double_same b'{' left_placeholder (b'{' ∷ ((c ∷ e) ++ b'}' ∷ b'}' ∷ b'}' ∷ []))
      ∙ ap (◌∷◌ left_placeholder) (
          replace_double_single b'{' left_placeholder c (e ++ b'}' ∷ b'}' ∷ b'}' ∷ []) he.0.0
          ∙ ap (◌∷◌ b'{') (
              replace_left_plain (c ∷ e) (b'}' ∷ b'}' ∷ b'}' ∷ []) he
              ∙ ap (◌++◌ (c ∷ e)) right_braces))

  right_triple :
      replace_double b'}' right_placeholder
        (left_placeholder ∷ b'{' ∷ ((c ∷ e) ++ b'}' ∷ b'}' ∷ b'}' ∷ []))
      ≡ left_placeholder ∷ b'{' ∷ (((c ∷ e) ++ right_placeholder ∷ []) ++ b'}' ∷ [])
  right_triple =
      replace_double_other b'}' right_placeholder left_placeholder _ refl
      ∙ ap (◌∷◌ left_placeholder) (
          replace_double_other b'}' right_placeholder b'{' _ refl
          ∙ ap (◌∷◌ b'{') (
              replace_right_plain (c ∷ e) (b'}' ∷ b'}' ∷ b'}' ∷ []) he
              ∙ ap (◌++◌ (c ∷ e)) (
                  replace_double_same b'}' right_placeholder (b'}' ∷ [])
                  ∙ ap (◌∷◌ right_placeholder) (replace_double_end b'}' right_placeholder b'}'))
              ∙ sym (append_assoc (c ∷ e) (right_placeholder ∷ []) (b'}' ∷ []))))

IsNoBrace-end : (e : Codes) → All IsNoBrace e → All IsNoBrace (e ++ right_placeholder ∷ [])
IsNoBrace-end [] h = ((refl, refl), tt)
IsNoBrace-end (c ∷ e) h = (h.0, IsNoBrace-end e h.1)

reverse_not_nil : (c : ℕ) (e : Codes) → reverse (c ∷ e) ≢ []
reverse_not_nil c e h =
    let back : c ∷ e ≡ [] = sym (reverse-reverse (c ∷ e)) ∙ ap reverse h in cc back

module _ (repl : Codes → Codes) where
  substitute_plain :
      (e s : Codes)
      → All IsNoBrace e
      → substitute repl outside (e ++ s) ≡ e ++ substitute repl outside s
  unfolding substitute
  substitute_plain [] s h = refl
  substitute_plain (c ∷ e) s h = ground (arith, h.0.0, h.0.1, substitute_plain e s h.1)

  body_step :
      (c : ℕ) (body s : Codes)
      → IsNoBrace c
      → substitute repl (inside body) (c ∷ s) ≡ substitute repl (inside (c ∷ body)) s
  unfolding substitute
  body_step c body s h = ground (arith, h.0, h.1)

  substitute_body :
      (e body s : Codes)
      → All IsNoBrace e
      → substitute repl (inside body) (e ++ s) ≡ substitute repl (inside (reverse e ++ body)) s
  substitute_body [] body s h = refl
  substitute_body (c ∷ e) body s h =
      let same : reverse (c ∷ e) ++ body ≡ reverse e ++ (c ∷ body) =
        ap (λ (r : Codes). r ++ body) (reverse-cons c e) ∙ append_assoc (reverse e) (c ∷ []) body in
      body_step c body (e ++ s) h.0
      ∙ substitute_body e (c ∷ body) s h.1
      ∙ ap (λ (r : Codes). substitute repl (inside r) s) (sym same)

  open_brace : (s : Codes) → substitute repl outside (b'{' ∷ s) ≡ substitute repl (inside []) s
  unfolding substitute
  open_brace s = refl

  closing :
      (r s : Codes)
      → substitute repl (inside r) (b'}' ∷ s) ≡ close repl (inside r) ++ substitute repl outside s
  unfolding substitute
  closing r s = refl

  -- A match with an expression that is not empty.
  close_body : (r : Codes) → r ≢ [] → close repl (inside r) ≡ repl (reverse r)
  unfolding close
  close_body [] h = absurd (h refl)
  close_body (c ∷ r) h = refl

  substitute_match :
      (c : ℕ) (e s : Codes)
      → All IsNoBrace (c ∷ e)
      → substitute repl outside (b'{' ∷ ((c ∷ e) ++ b'}' ∷ s))
        ≡ repl (c ∷ e) ++ substitute repl outside s
  substitute_match c e s h =
      let turned : reverse (c ∷ e) ++ [] ≡ reverse (c ∷ e) = append-nil _ in
      open_brace ((c ∷ e) ++ b'}' ∷ s)
      ∙ substitute_body (c ∷ e) [] (b'}' ∷ s) h
      ∙ ap (λ (r : Codes). substitute repl (inside r) (b'}' ∷ s)) turned
      ∙ closing (reverse (c ∷ e)) s
      ∙ ap (λ (r : Codes). r ++ substitute repl outside s)
          (close_body (reverse (c ∷ e)) (reverse_not_nil c e) ∙ ap repl (reverse-reverse (c ∷ e)))

  end_outside : substitute repl outside [] ≡ []
  unfolding substitute
  end_outside = refl

  match_end :
      (c : ℕ) (e : Codes)
      → All IsNoBrace (c ∷ e)
      → substitute repl outside (b'{' ∷ ((c ∷ e) ++ b'}' ∷ [])) ≡ repl (c ∷ e)
  match_end c e h =
      substitute_match c e [] h ∙ ap (◌++◌ (repl (c ∷ e))) end_outside ∙ append-nil (repl (c ∷ e))

  -- An expression without braces between single braces, behind a text without braces, is
  -- replaced by the text of its value; the placeholders in that become braces again.
  pub format_expression :
      (before : Codes) (c : ℕ) (e : Codes)
      → All IsNoBrace before
      → All IsNoBrace (c ∷ e)
      → format_log_message repl (before ++ (b'{' ∷ ((c ∷ e) ++ b'}' ∷ [])))
        ≡ restore (before ++ repl (c ∷ e))
  unfolding format_log_message restore
  format_expression before c e hb he =
      ap
        (λ (t : Codes). restore (substitute repl outside (replace_double b'}' right_placeholder t)))
        (left_pass before c e hb he)
      ∙ ap (λ (t : Codes). restore (substitute repl outside t)) (right_pass before c e hb he)
      ∙ ap restore (substitute_plain before _ hb ∙ ap (◌++◌ before) (match_end c e he))

  -- Three braces on each side of an expression are no value in braces: the right ones are read
  -- from the left, as an escaped brace that becomes the last character of the expression.
  pub format_triple :
      (c : ℕ) (e : Codes)
      → All IsNoBrace (c ∷ e)
      → format_log_message repl (b'{' ∷ b'{' ∷ b'{' ∷ ((c ∷ e) ++ b'}' ∷ b'}' ∷ b'}' ∷ []))
        ≡ restore (left_placeholder ∷ repl ((c ∷ e) ++ right_placeholder ∷ []))
  unfolding format_log_message restore
  format_triple c e h =
      ap
        (λ (t : Codes). restore (substitute repl outside (replace_double b'}' right_placeholder t)))
        (left_triple c e h)
      ∙ ap (λ (t : Codes). restore (substitute repl outside t)) (right_triple c e h)
      ∙ ap restore (
          substitute_plain (left_placeholder ∷ [])
            (b'{' ∷ (((c ∷ e) ++ right_placeholder ∷ []) ++ b'}' ∷ [])) ((refl, refl), tt)
          ∙ ap (◌∷◌ left_placeholder)
              (match_end c (e ++ right_placeholder ∷ []) (IsNoBrace-end (c ∷ e) h)))
