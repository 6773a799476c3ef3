-- ===== src/Tests/Expressions.antt =====
-- An evaluator in which every expression compiles to the number of its characters, and a frame is
-- the number that is added to it.
use dapper.Base.{ℕ, ◌+◌, true, false, some, [], ◌∷◌, nat_eq, string_eq, ◌==◌, length}
use dapper.Base.Text.{codes}
use dapper.Shared.Policy.{Interpreter}
use dapper.Core.DataBreakpoints.{compared}
use dapper.Core.DataBreakpoints.Expressions.{Evaluator, Watches}

abbrev pub adding : Interpreter
adding = record {
  Frame = ℕ;
  V = ℕ;
  parse_name = λ e. some e;
  has_context = λ f. true;
  run = λ f builtins e. some (f + length e);
}

abbrev pub evaluator : Evaluator
evaluator = record {
  python = adding;
  Code = ℕ;
  compile = λ e. some (length (codes e));
  run_code = λ f code. some (f + code);
  same = λ a b. a == b;
  equal = λ a b. compared (some (a == b));
}

abbrev watches : Watches evaluator
watches = record {
  watch_expressions = "a.b" ∷ "c" ∷ [];
  last_expression_values_by_frame = (7, ("a.b", 3) ∷ []) ∷ [];
  global_expression_values = ("c", 2) ∷ [];
  strict_expression_watch_policy = false;
  compiled_expression_cache = [];
}
