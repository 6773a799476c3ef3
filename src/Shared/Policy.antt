-- ===== src/Shared/Policy.antt =====
-- dapper/shared/value_conversion.py: the safety policy of `evaluate_with_policy`. Texts are lists
-- of
-- code points; `lower` changes the letters of ASCII only.
use dapper.Base.{
  ◌≡◌, refl, Bool, true, false, not, ◌&&◌, ◌||◌, Option, none, some, List, [], ◌∷◌, arith, is_empty,
  if◌then◌else◌,
}
use dapper.Base.Text.{Codes, codes, has_infix, strip, lower, same_text}

abbrev pub safe_readonly_dunder_names : List Codes
safe_readonly_dunder_names =
    codes "__name__"
    ∷ codes "__file__"
    ∷ codes "__package__"
    ∷ codes "__doc__"
    ∷ codes "__spec__"
    ∷ codes "__loader__"
    ∷ codes "__cached__"
    ∷ []

abbrev pub disallowed_eval_tokens : List Codes
disallowed_eval_tokens =
    codes "import "
    ∷ codes "import("
    ∷ codes "open("
    ∷ codes "exec("
    ∷ codes "eval("
    ∷ codes "compile("
    ∷ codes "globals("
    ∷ codes "locals("
    ∷ codes "vars("
    ∷ codes "os."
    ∷ codes "sys."
    ∷ codes "subprocess"
    ∷ codes "socket"
    ∷ []

-- `any(token in text for token in tokens)`
unfoldable pub any_infix : List Codes → Codes → Bool
unfolding has_infix
any_infix [] s = false
any_infix (token ∷ tokens) s = has_infix token s || any_infix tokens s

unfoldable pub any_same : Codes → List Codes → Bool
unfolding same_text
any_same s [] = false
any_same s (t ∷ texts) = same_text s t || any_same s texts

pub data Evaluation (V : Type 0) : Type 0 where
  value : V → Evaluation V
  empty_expression : Evaluation V
  blocked_by_policy : Evaluation V
  no_frame_context : Evaluation V
  raised : Evaluation V

-- What the interpreter does. `parse_name` gives the name that an expression parses to, if it is a
-- bare name; `run` is `eval` in the context of a frame, with or without the builtins.
pub record Interpreter : Type 1 where
  pub Frame : Type 0
  pub V : Type 0
  pub parse_name : Codes → Option Codes
  pub has_context : Frame → Bool
  pub run : Frame → Bool → Codes → Option V

module _ (python : Interpreter) where
  open python use {Frame, V, parse_name, has_context, run}

  unfoldable pub is_allowed_readonly_dunder_expression : Codes → Bool
  unfolding any_same
  is_allowed_readonly_dunder_expression expression = elim (parse_name expression) [
    | none ↦ false
    | some name ↦ any_same name safe_readonly_dunder_names
  ]

  -- Whether `_enforce_eval_policy` lets an expression pass.
  unfoldable pub enforce_eval_policy : Codes → Bool
  unfolding lower has_infix any_infix is_allowed_readonly_dunder_expression
  enforce_eval_policy expression =
      let lowered = lower expression in
      if has_infix (codes "__") lowered && not (is_allowed_readonly_dunder_expression expression)
      then false
      else not (any_infix disallowed_eval_tokens lowered)

  -- The frame, if there is one and it has its globals and its locals.
  unfoldable pub context_of : Option Frame → Option Frame
  context_of none = none
  context_of (some frame) = if has_context frame then some frame else none

  unfoldable pub ran : Option V → Evaluation V
  ran none = raised
  ran (some v) = value v

  enforce_inv :
      (e : Codes)
      → enforce_eval_policy e ≡ true
      → (any_infix disallowed_eval_tokens (lower e) ≡ false)
        × (has_infix (codes "__") (lower e) && not (is_allowed_readonly_dunder_expression e)
            ≡ false)
  unfolding enforce_eval_policy
  enforce_inv e h = (ground arith, ground arith)

  unfoldable pub evaluate_stripped : Codes → Option Frame → Bool → Evaluation V
  unfolding enforce_eval_policy context_of ran
  evaluate_stripped expr frame allow_builtins =
      if is_empty expr
      then empty_expression
      else if not (enforce_eval_policy expr)
      then blocked_by_policy
      else elim (context_of frame) [
        | none ↦ no_frame_context
        | some f ↦ ran (run f allow_builtins expr)
      ]

  unfoldable pub evaluate_with_policy : Codes → Option Frame → Bool → Evaluation V
  unfolding strip evaluate_stripped
  evaluate_with_policy expression frame allow_builtins =
      evaluate_stripped (strip expression) frame allow_builtins

  -- The two outcomes that only the evaluation itself gives.
  abbrev pub is_outcome : Evaluation V → Bool
  is_outcome (value v) = true
  is_outcome raised = true
  is_outcome _ = false

  evaluate_stripped_inv :
      (e : Codes) (frame : Option Frame) (allow_builtins : Bool)
      → is_outcome (evaluate_stripped e frame allow_builtins) ≡ true
      → (f : Frame) × (frame ≡ some f)
        × (has_context f ≡ true)
        × (evaluate_stripped e frame allow_builtins
            ≡ (elim (run f allow_builtins e) [ none ↦ raised | some v ↦ value v ]))
        × (is_empty e ≡ false)
        × (enforce_eval_policy e ≡ true)
  unfolding evaluate_stripped
  evaluate_stripped_inv e none allow_builtins h = absurd (ground arith)
  evaluate_stripped_inv e (some f) allow_builtins h =
      (f, refl, ground arith, ground arith, ground arith, ground arith)

  -- An evaluation gives a value, or the exception of evaluated code, only on a frame with its
  -- context and for an expression that is not empty when it is stripped; in lower case it holds none
  -- of the forbidden words, and two underscores only where it is one of the allowed names. Then the
  -- value or the exception is that of the stripped expression in this frame.
  pub evaluate_with_policy_sound :
      (expression : Codes) (frame : Option Frame) (allow_builtins : Bool)
      → is_outcome (evaluate_with_policy expression frame allow_builtins) ≡ true
      → (f : Frame) × (frame ≡ some f)
        × (has_context f ≡ true)
        × (evaluate_with_policy expression frame allow_builtins
            ≡ (elim (run f allow_builtins (strip expression)) [ none ↦ raised | some v ↦ value v ]))
        × (is_empty (strip expression) ≡ false)
        × (any_infix disallowed_eval_tokens (lower (strip expression)) ≡ false)
        × (has_infix (codes "__") (lower (strip expression))
              && not (is_allowed_readonly_dunder_expression (strip expression))
            ≡ false)
  unfolding evaluate_with_policy
  evaluate_with_policy_sound expression frame allow_builtins h =
      let (f, e, context, result, full, allowed) =
        evaluate_stripped_inv (strip expression) frame allow_builtins h in
      let (tokens, dunder) = enforce_inv (strip expression) allowed in
      (f, e, context, result, full, tokens, dunder)
