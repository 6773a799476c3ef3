-- ===== src/Core/DataBreakpoints/Expressions.antt =====
-- dapper/core/data_breakpoint_state.py: the expressions that `DataBreakpointState` watches, with
-- the
-- cache of compiled expressions. An evaluation does not change the values of the program.
use dapper.Base.{
  ℕ, ◌≡◌, String, Bool, true, false, Option, none, some, List, [], ◌∷◌, nat_eq, string_eq, is_empty,
  if◌then◌else◌,
}
use dapper.Base.Dict.{Dict, get, put}
use dapper.Base.Text.{codes}
use dapper.Core.DataBreakpoints.{Comparison, is_different}
use dapper.Shared.Policy.{Interpreter, Evaluation, value, evaluate_with_policy}

-- `compile` gives the code of an expression, and `run_code` its value in a frame; both may raise.
pub record Evaluator : Type 1 where
  pub python : Interpreter
  pub Code : Type 0
  pub compile : String → Option Code
  pub run_code : python.Frame → Code → Option python.V
  pub same : python.V → python.V → Bool
  pub equal : python.V → python.V → Comparison

module _ (evaluator : Evaluator) where
  open evaluator use {python, Code, compile, run_code, same, equal}

  abbrev pub V : Type 0
  V = python.V

  abbrev pub Frame : Type 0
  Frame = python.Frame

  pub record Watches : Type 0 where
    pub watch_expressions : List String
    pub last_expression_values_by_frame : Dict ℕ (Dict String V)
    pub global_expression_values : Dict String V
    pub strict_expression_watch_policy : Bool
    pub compiled_expression_cache : Dict String Code

  unfoldable pub set_strict_expression_watch_policy : Watches → Bool → Watches
  set_strict_expression_watch_policy s strict = record s { strict_expression_watch_policy = strict }

  abbrev pub value_of : Evaluation V → Option V
  value_of (value v) = some v
  value_of _ = none

  -- The value, unless an exception ends the call, and the state with its cache.
  unfoldable pub evaluate_expression : Watches → String → Frame → Option V × Watches
  unfolding evaluate_with_policy get put
  evaluate_expression s expression frame = elim (s.strict_expression_watch_policy) [
    | true ↦ (value_of (evaluate_with_policy python (codes expression) (some frame) true), s)
    | false ↦ elim (get expression s.compiled_expression_cache) [
      | some code ↦ (run_code frame code, s)
      | none ↦ elim (compile expression) [
        | none ↦ (none, s)
        | some code ↦ (
          run_code frame code,
          record s { compiled_expression_cache = put expression code s.compiled_expression_cache },
        )
      ]
    ]
  ]

  unfoldable pub old_expression_value : Watches → ℕ → String → Option V
  unfolding get
  old_expression_value s frame_id expression =
      elim (get frame_id s.last_expression_values_by_frame) [
        | none ↦ get expression s.global_expression_values
        | some prior ↦ elim (get expression prior) [
          | some v ↦ some v
          | none ↦ get expression s.global_expression_values
        ]
      ]

  unfoldable pub is_expression_changed : Option V → Option V → Option Bool
  unfolding is_different
  is_expression_changed none old = some false
  is_expression_changed (some new) none = some false
  is_expression_changed (some new) (some old) = is_different (same old new) (equal new old)

  -- The loop over the expressions, with the cache that the evaluations leave. A comparison that
  -- raises ends it.
  unfoldable pub check_expressions :
      Watches → ℕ → Frame → List String → Option (List String) × Watches
  unfolding evaluate_expression old_expression_value is_expression_changed
  check_expressions s frame_id frame [] = (some [], s)
  check_expressions s frame_id frame (e ∷ es) =
      let evaluated = evaluate_expression s e frame in
      let rest = check_expressions evaluated.1 frame_id frame es in
      elim (is_expression_changed evaluated.0 (old_expression_value s frame_id e)) [
        | none ↦ (none, evaluated.1)
        | some is_new ↦ (
          elim rest.0 [
            | none ↦ none
            | some changed ↦ some (if is_new then e ∷ changed else changed)
          ],
          rest.1,
        )
      ]

  unfoldable pub check_expression_changes : Watches → ℕ → Frame → Option (List String) × Watches
  unfolding check_expressions
  check_expression_changes s frame_id frame = check_expressions s frame_id frame s.watch_expressions

  -- The loop that records the values; the first dictionary is `current_values`.
  unfoldable pub record_expressions :
      Watches → Frame → Dict String V → List String → Dict String V × Watches
  unfolding evaluate_expression put
  record_expressions s frame values [] = (values, s)
  record_expressions s frame values (e ∷ es) =
      let (v, s') = evaluate_expression s e frame in
      elim v [
        | none ↦ record_expressions s' frame values es
        | some w ↦
            record_expressions
              (record s' { global_expression_values = put e w s'.global_expression_values }) frame
              (put e w values) es
      ]

  unfoldable pub update_expression_snapshots : Watches → ℕ → Frame → Watches
  unfolding record_expressions put
  update_expression_snapshots s frame_id frame =
      let (values, s') = record_expressions s frame [] s.watch_expressions in
      if is_empty s.watch_expressions then s else record s' {
        last_expression_values_by_frame = put frame_id values s'.last_expression_values_by_frame;
      }

  -- The value of an expression, with no cache.
  unfoldable pub direct : Bool → String → Frame → Option V
  unfolding evaluate_with_policy
  direct strict expression frame = elim strict [
    | true ↦ value_of (evaluate_with_policy python (codes expression) (some frame) true)
    | false ↦ elim (compile expression) [ none ↦ none | some code ↦ run_code frame code ]
  ]

  -- Every entry of the cache is what compiling its expression gives.
  abbrev pub IsCached : Dict String Code → Type 0
  IsCached cache = (e : String) (code : Code) → get e cache ≡ some code → compile e ≡ some code

  -- The state with another cache.
  abbrev with_cache : Watches → Dict String Code → Watches
  with_cache s cache = record s { compiled_expression_cache = cache }

  Evaluates : Watches → String → Frame → Option V × Watches → Type 0
  Evaluates s e frame r =
      (cache : Dict String Code) × (r.1 ≡ with_cache s cache)
      × IsCached cache
      × (r.0 ≡ direct s.strict_expression_watch_policy e frame)

  changed_here : Watches → ℕ → Frame → String → Option Bool
  changed_here s frame_id frame e =
      is_expression_changed (direct s.strict_expression_watch_policy e frame)
        (old_expression_value s frame_id e)
