-- ===== src/FrameEval/Conditions.antt =====
-- dapper/_frame_eval/condition_evaluator.py: `ConditionEvaluator`. Compiling and evaluating are the
-- interpreter's, and the time that an evaluation takes is an argument.
pub mod Soundness
use dapper.Base.{
  ℕ, String, Bool, true, false, Option, none, some, List, [], ◌∷◌, ◌++◌, if◌then◌else◌, ltb, length,
}
use dapper.Base.Dict.{Dict, get, put}
use dapper.Base.Text.{Codes, codes, codes_eq}
use dapper.FrameEval.Telemetry.{Telemetry, note_reason, selective_tracing_analysis_failed}

-- What `compile` does: a code object, a `SyntaxError` with its text, or another exception.
pub data Compilation (Code : Type 0) : Type 0 where
  compiled : Code → Compilation Code
  syntax_error : Codes → Compilation Code
  raised : Compilation Code

-- What `bool(eval(...))` does: a truth value, or an exception with its type's name and its text.
pub data Evaluation : Type 0 where
  truth : Bool → Evaluation
  exception : Codes → Codes → Evaluation

pub record Interpreter : Type 1 where
  pub Code : Type 0
  pub Frame : Type 0
  pub compile : Codes → Compilation Code
  pub eval : Code → Frame → Evaluation

-- The contexts of the events
pub data Context : Type 0 where
  failed : Codes → Codes → Context
  budget_exceeded : Codes → ℕ → ℕ → Context
  invalidated : String → ℕ → Context

pub record CompiledCondition (Code : Type 0) : Type 0 where
  pub expression : Codes
  pub code : Option Code
  pub compile_error : Option Codes

pub record ConditionResult : Type 0 where
  pub passed : Bool
  pub fallback : Bool
  pub error : Option Codes
  pub elapsed : ℕ

-- An evaluator, with the telemetry that it writes to.
pub record Evaluator (Code : Type 0) : Type 0 where
  pub budget : ℕ
  pub enabled : Bool
  pub cache : Dict Codes (CompiledCondition Code)
  pub telemetry : Telemetry Context

unfoldable pub clear_cache : {Code : Type 0} → Evaluator Code → Evaluator Code
clear_cache e = record e { cache = [] }

unfoldable pub cache_size : {Code : Type 0} → Evaluator Code → ℕ
cache_size e = length e.cache

module _ (py : Interpreter) where
  unfoldable pub note_failure : Evaluator py.Code → ℕ → Context → Evaluator py.Code
  unfolding note_reason
  note_failure e now context = record e {
    telemetry = note_reason e.telemetry now selective_tracing_analysis_failed context;
  }

  unfoldable pub store :
      Evaluator py.Code → CompiledCondition py.Code → CompiledCondition py.Code × Evaluator py.Code
  unfolding put
  store e entry = (entry, record e { cache = put entry.expression entry e.cache })

  -- A new entry; nothing when `compile` raises another exception than a `SyntaxError`.
  unfoldable pub compile_entry :
      Evaluator py.Code → ℕ → Codes → Option (CompiledCondition py.Code × Evaluator py.Code)
  unfolding store note_failure
  compile_entry e now expression = elim (py.compile expression) [
    | compiled c ↦
        some (store e (record { expression = expression; code = some c; compile_error = none }))
    | syntax_error message ↦
        let error_msg = codes "SyntaxError: " ++ message in
        some (
          store (note_failure e now (failed expression error_msg))
            (record { expression = expression; code = none; compile_error = some error_msg }))
    | raised ↦ none
  ]

  unfoldable pub get_compiled :
      Evaluator py.Code → ℕ → Codes → Option (CompiledCondition py.Code × Evaluator py.Code)
  unfolding get compile_entry
  get_compiled e now expression = elim (get expression e.cache) [
    | some entry ↦ some (entry, e)
    | none ↦ compile_entry e now expression
  ]

  -- What follows `eval`, with the time it took.
  unfoldable pub finish :
      Evaluator py.Code → ℕ → Codes → ℕ → Evaluation → ConditionResult × Evaluator py.Code
  unfolding note_failure
  finish e now expression elapsed (exception type_name message) =
      let error_msg = type_name ++ codes ": " ++ message in
      (
        record { passed = true; fallback = true; error = some error_msg; elapsed = elapsed },
        note_failure e now (failed expression error_msg),
      )
  finish e now expression elapsed (truth result) = (
    record { passed = result; fallback = false; error = none; elapsed = elapsed },
    (if ltb e.budget elapsed
        then note_failure e now (budget_exceeded expression elapsed e.budget)
        else e),
  )

  unfoldable pub evaluate_compiled :
      Evaluator py.Code
      → ℕ
      → Codes
      → ℕ
      → CompiledCondition py.Code
      → py.Frame
      → ConditionResult × Evaluator py.Code
  unfolding finish
  evaluate_compiled e now expression elapsed entry frame = elim entry.code [
    | none ↦
        (record { passed = true; fallback = true; error = entry.compile_error; elapsed = 0 }, e)
    | some c ↦ finish e now expression elapsed (py.eval c frame)
  ]

  -- Nothing when an exception leaves the method.
  unfoldable pub evaluate :
      Evaluator py.Code → ℕ → Codes → ℕ → py.Frame → Option (ConditionResult × Evaluator py.Code)
  unfolding get_compiled evaluate_compiled
  evaluate e now expression elapsed frame = elim e.enabled [
    | false ↦ some (record { passed = true; fallback = true; error = none; elapsed = 0 }, e)
    | true ↦ elim (get_compiled e now expression) [
      | none ↦ none
      | some found ↦ some (evaluate_compiled found.1 now expression elapsed found.0 frame)
    ]
  ]
