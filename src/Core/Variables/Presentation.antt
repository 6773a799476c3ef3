-- ===== src/Core/Variables/Presentation.antt =====
-- What `make_variable` says of a value, and when it fails.
use dapper.Base.{
  ℕ, zero, suc, ◌+◌, ◌≤◌, ◌≡◌, String, Bool, true, false, not, ◌&&◌, ◌||◌, Option, none, some, [],
  ◌∷◌, arith, max, length, take, length-append, Option-cases, inl, inr,
}
use dapper.Base.Text.{Codes, codes}
use dapper.Core.StructuredModel.{is_structured_model, get_model_fields}
use dapper.Core.DataBreakpoints as watches
use dapper.Core.Variables.{
  Inspector, V, no_text, undecodable, decoded, Manager, raw_text, shortened, format_value,
  detect_kind_and_attrs, type_and_fields, present, make_variable,
}

length-take_le : (n : ℕ) (s : Codes) → length (take n s) ≤ n
length-take_le zero s = omega arith
length-take_le (suc n) [] = omega arith
length-take_le (suc n) (c ∷ s) = omega (arith, length-take_le n s)

abbrev pub is_none {ℓ} : {A : Type ℓ} → Option A → Bool
is_none none = true
is_none (some a) = false

module _ (inspector : Inspector) where
  open inspector use {objects, is_callable, is_sequence, decode}

  length-shortened : (n : ℕ) (s : Codes) → length (shortened inspector n s) ≤ n + 3
  unfolding shortened
  length-shortened n s = ground (arith, length-append (take n s) (codes "..."), length-take_le n s)

  -- The text of a value is at most three characters longer than the limit, or at most the 21
  -- characters of the text that stands for an error; whatever the value and its `repr`.
  pub length-format_value :
      (v : V inspector) (max_length : ℕ) (hex_format : Bool)
      → length (format_value inspector v max_length hex_format) ≤ max (max_length + 3) 21
  unfolding format_value
  length-format_value v max_length hex_format =
      elim (Option-cases (raw_text inspector v hex_format)) [
        | inl e ↦ rw (e, format_value) (omega arith)
        | inr (s, e) ↦ rw (e, format_value) (omega (arith, length-shortened max_length s))
      ]

  -- Bytes that are no text in UTF-8.
  abbrev pub is_undecodable : V inspector → Bool
  is_undecodable v =
      not (objects.is_class v)
      && not (is_callable v)
      && not (is_sequence v)
      && elim (decode v) [ no_text ↦ false | undecodable ↦ true | decoded s ↦ false ]

  kind_lem :
      (v : V inspector) (max_length : ℕ)
      → is_none (detect_kind_and_attrs inspector v max_length) ≡ is_undecodable v
  unfolding detect_kind_and_attrs
  kind_lem v max_length = ground arith

  type_lem :
      (v : V inspector)
      → is_none (type_and_fields inspector v)
        ≡ (is_structured_model objects v && is_none (get_model_fields objects v))
  unfolding type_and_fields
  type_lem v = ground arith

  -- Making a variable fails exactly on bytes that are no text in UTF-8, and on structured models
  -- whose fields cannot be read; an error of `repr` is no failure.
  pub make_variable_fails :
      (watched : watches.Objects) (m : Manager inspector) (name : String) (v : V inspector)
      (max_length : ℕ) (state : Option (watches.State watched)) (frame : Option ℕ) (hex : Bool)
      → is_none (make_variable inspector watched m name v max_length state frame hex).0 ≡ (
          is_undecodable v
          || (is_structured_model objects v && is_none (get_model_fields objects v)))
  unfolding make_variable present
  make_variable_fails watched m name v max_length state frame hex =
      ground (arith, kind_lem v max_length, type_lem v)
