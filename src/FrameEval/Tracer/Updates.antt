-- ===== src/FrameEval/Tracer/Updates.antt =====
-- The changes of breakpoints and conditions that `FrameTraceAnalyzer` of
-- dapper/_frame_eval/selective_tracer.py is told of.
use dapper.Base.{
  ℕ, ◌+◌, String, string_eq, nat_eq, Bool, false, not, Option, none, some, List, [], ◌∷◌, ◌++◌,
  if◌then◌else◌, is_empty, select, length,
}
use dapper.Base.Dict.{Dict, put, remove}
use dapper.Base.Text.{Codes, codes, codes_eq, starts_with}
use dapper.FrameEval.Conditions.{Evaluator}
use dapper.FrameEval.Telemetry.{
  note_reason, cache_invalidation_file_reload, cache_invalidation_breakpoint_change,
}
use dapper.FrameEval.Conditions.{invalidated}
use dapper.FrameEval.BreakpointCache.{
  set_breakpoints as cache_set, invalidate_file as cache_invalidate,
}
use dapper.FrameEval.CodeFiles.{invalidate_cached_code_for_file}
use dapper.FrameEval.Tracer.{no_stats, Host, Analyzer}

module _ (host : Host) where
  abbrev drop_analysis : String → List Codes → List Codes
  drop_analysis filename = select (λ key. not (starts_with key (codes filename ++ codes ":")))

  unfoldable pub update_breakpoints :
      Analyzer host.py.Code → ℕ → String → List ℕ → Analyzer host.py.Code
  unfolding cache_set select starts_with
  update_breakpoints a now filename lines = record a {
    cache = cache_set host.mtime a.cache_enabled a.cache now filename lines;
    analysis_cache = drop_analysis filename a.analysis_cache;
  }

  -- The lines that have a condition.
  unfoldable pub active_conditions : Dict ℕ (Option Codes) → Dict ℕ Codes
  active_conditions [] = []
  active_conditions ((lineno, none) ∷ rest) = active_conditions rest
  active_conditions ((lineno, some condition) ∷ rest) = (lineno, condition) ∷ active_conditions rest

  unfoldable pub set_breakpoint_conditions :
      Analyzer host.py.Code → String → Dict ℕ (Option Codes) → Analyzer host.py.Code
  unfolding active_conditions put remove
  set_breakpoint_conditions a filename conditions =
      let active = active_conditions conditions in
      record a {
        breakpoint_conditions =
            if is_empty active
            then remove filename a.breakpoint_conditions
            else put filename active a.breakpoint_conditions;
      }

  -- `invalidate_breakpoints` of cache_manager.py, for its default reason and for a reload. The
  -- entries that the cache of modified bytecode loses are counted by an argument.
  unfoldable pub invalidate_breakpoints :
      Analyzer host.py.Code → ℕ → String → Bool → ℕ → Analyzer host.py.Code
  unfolding cache_invalidate invalidate_cached_code_for_file note_reason
  invalidate_breakpoints a now filename is_reload removed_bytecode =
      let removed = invalidate_cached_code_for_file a.files filename in
      let reason =
        if is_reload
        then cache_invalidation_file_reload
        else cache_invalidation_breakpoint_change in
      let evaluator : Evaluator host.py.Code = a.evaluator in
      record a {
        cache = cache_invalidate a.cache filename;
        files = removed.1;
        evaluator = record evaluator {
          telemetry =
              note_reason evaluator.telemetry now reason
                (invalidated filename (length removed.0 + removed_bytecode));
        };
      }

  unfoldable pub invalidate_file : Analyzer host.py.Code → ℕ → String → ℕ → Analyzer host.py.Code
  unfolding invalidate_breakpoints select starts_with remove
  invalidate_file a now filename removed_bytecode =
      let a' : Analyzer host.py.Code =
        invalidate_breakpoints a now filename false removed_bytecode in
      record a' {
        analysis_cache = drop_analysis filename a'.analysis_cache;
        breakpoint_conditions = remove filename a'.breakpoint_conditions;
      }

unfoldable pub clear_statistics : {Code : Type 0} → Analyzer Code → Analyzer Code
clear_statistics a = record a { stats = no_stats }
