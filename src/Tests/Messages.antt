-- ===== src/Tests/Messages.antt =====
-- Hit conditions, log messages, and breakpoints that have both, with a small interpreter.
use dapper.Base.{
  ℕ, zero, suc, ◌+◌, ◌≤◌, ◌≡◌, refl, Bool, true, false, not, ◌&&◌, Option, none, some, List, [],
  ◌∷◌, ◌++◌, arith, length, is_empty, if◌then◌else◌,
}
use dapper.Base.Text.{Codes, codes, strip, lower, has_infix}
use dapper.Shared.Policy.{
  value, Interpreter, evaluate_with_policy, is_allowed_readonly_dunder_expression, any_infix,
  disallowed_eval_tokens, evaluate_with_policy_sound,
}
use dapper.Core.HitCondition.{is_number, value_from, evaluate_hit_condition}
use dapper.Core.HitCondition.Syntax.{at_least, IsBlank, written, meaning, evaluate_written}
use dapper.Core.LogMessage.{left_placeholder, right_placeholder, format_log_message}
use dapper.Core.LogMessage.Escapes.{restore}
use dapper.Core.LogMessage.Expressions.{format_triple}
use dapper.Core.Resolver.{
  text, is_set, BreakpointMeta, increment_hit, render_log_message, resolve, should_stop,
}
use dapper.Core.Resolver.Decision.{admits, hit_only, hit_times, resolve_lem, nth_hit}

abbrev blank : Codes
blank = 32 ∷ []

abbrev twelve : Codes
twelve = codes "12"

blank-IsBlank : IsBlank blank
blank-IsBlank = (unfold dapper.Base.Text.is_space in refl, tt)

twelve-is_number : is_number twelve ≡ true
twelve-is_number = unfold is_number in refl

-- `" >= 12 "`
abbrev condition : Codes
condition = blank ++ (written at_least blank twelve ++ blank)

evaluate_written_example :
    evaluate_hit_condition condition 12 ≡ meaning at_least (value_from 0 twelve) 12
evaluate_written_example =
    evaluate_written at_least blank blank twelve blank 12 blank-IsBlank blank-IsBlank blank-IsBlank
      twelve-is_number (omega arith)

abbrev shout : Codes → Codes
shout e = e ++ b'!' ∷ []

format_triple_example :
    format_log_message shout (b'{' ∷ b'{' ∷ b'{' ∷ ((b'x' ∷ []) ++ b'}' ∷ b'}' ∷ b'}' ∷ []))
    ≡ restore (left_placeholder ∷ shout ((b'x' ∷ []) ++ right_placeholder ∷ []))
format_triple_example = format_triple shout b'x' [] ((refl, refl), tt)

-- An interpreter in which every expression is the number of its characters.
abbrev counting : Interpreter
counting = record {
  Frame = Unit;
  V = ℕ;
  parse_name = λ e. some e;
  has_context = λ f. true;
  run = λ f builtins e. some (length e);
}

abbrev frame : Option (Unit {0})
frame = some tt

abbrev truth : ℕ → Option Bool
truth zero = some false
truth (suc n) = some true

abbrev show : ℕ → Option Codes
show n = some (n ∷ [])

evaluate_with_policy_example :
    (f : Unit {0}) × (frame ≡ some f)
    × (true ≡ true)
    × (evaluate_with_policy counting (codes "len(x) ") frame true
        ≡ value (length (strip (codes "len(x) "))))
    × (is_empty (strip (codes "len(x) ")) ≡ false)
    × (any_infix disallowed_eval_tokens (lower (strip (codes "len(x) "))) ≡ false)
    × (has_infix (codes "__") (lower (strip (codes "len(x) ")))
          && not (is_allowed_readonly_dunder_expression counting (strip (codes "len(x) ")))
        ≡ false)
evaluate_with_policy_example =
    evaluate_with_policy_sound counting (codes "len(x) ") frame true
      (unfold evaluate_with_policy in refl)

abbrev logpoint : BreakpointMeta
logpoint = record {
  condition = text (codes "x > 1");
  hit_condition = text condition;
  log_message = text (codes "x={x}");
  hit_count = 12;
}

resolve_example :
    (should_stop counting truth show (some logpoint) frame true ≡ (
      admits counting truth show (increment_hit logpoint) frame
      && not (is_set logpoint.log_message)))
    × ((resolve counting truth show (some logpoint) frame true true).meta
        ≡ some (increment_hit logpoint))
    × ((resolve counting truth show (some logpoint) frame true true).emitted ≡ (
        if admits counting truth show (increment_hit logpoint) frame
          && is_set logpoint.log_message
          && true
        then render_log_message counting truth show logpoint.log_message frame ∷ []
        else []))
resolve_example = resolve_lem counting truth show logpoint frame true

nth_hit_example :
    should_stop counting truth show
      (hit_times counting truth show 11 (hit_only condition) frame false)
      frame
      false
    ≡ meaning at_least (value_from 0 twelve) (11 + 1)
nth_hit_example =
    nth_hit counting truth show 11 at_least blank blank twelve blank frame false blank-IsBlank
      blank-IsBlank blank-IsBlank twelve-is_number (omega arith)
