-- ===== src/FrameEval/Tracer.antt =====
-- dapper/_frame_eval/selective_tracer.py: `FrameTraceAnalyzer`, which decides for each frame if the
-- debugger has to see it. The caches of breakpoints and of conditions are those of the modules
-- BreakpointCache and Conditions; what the thread says of itself is an argument.
pub mod Analysis
pub mod Updates
pub mod Dispatcher
pub mod Manager
pub mod Decisions
pub mod Traced
pub mod Clearing
use dapper.Base.{
  ℕ, ◌+◌, ◌≡◌, String, string_eq, nat_eq, Bool, true, false, not, ◌&&◌, ◌||◌, Option, none, some,
  List, [], ◌∷◌, ◌++◌, if◌then◌else◌, ◌==◌, ltb, leb, contains, is_empty, select, map, length,
}
use dapper.Base.Dict.{Dict, get, get_or, put, remove}
use dapper.Base.Text.{Codes, codes, codes_eq, has_infix, starts_with}
use mathlib.Core.List.{reverse}
use dapper.FrameEval.Conditions.{Interpreter, Evaluator, evaluate, ConditionResult}
use dapper.FrameEval.Telemetry.{
  note_reason, cache_invalidation_file_reload, cache_invalidation_breakpoint_change,
}
use dapper.FrameEval.Conditions.{invalidated}
use dapper.FrameEval.BreakpointCache.{Cache}
use dapper.FrameEval.BreakpointCache.{
  get_breakpoints as cache_get, set_breakpoints as cache_set, invalidate_file as cache_invalidate,
}
use dapper.FrameEval.CodeFiles.{Files, invalidate_cached_code_for_file}

pub data TracePath : Type 0 where
  skip original breakpointed : TracePath

pub data Reason : Type 0 where
  thread_skip_frame no_breakpoints_in_file file_not_tracked inside_frame_eval : Reason
  thread_not_initialized debugger_internal_thread conditional_breakpoint_pending : Reason
  breakpoint_on_line condition_not_met function_has_breakpoints no_breakpoints_in_function : Reason

pub record FrameInfo : Type 0 where
  pub filename : String
  pub function : String
  pub lineno : ℕ
  pub is_module : Bool

pub record Decision : Type 0 where
  pub path : TracePath
  pub should_trace : Bool
  pub reason : Reason
  pub breakpoint_lines : List ℕ
  pub frame_info : FrameInfo

pub record Stats : Type 0 where
  pub total_frames : ℕ
  pub traced_frames : ℕ
  pub cache_hits : ℕ
  pub fast_path_hits : ℕ

abbrev pub no_stats : Stats
no_stats = record { total_frames = 0; traced_frames = 0; cache_hits = 0; fast_path_hits = 0 }

-- A code object. The lines that `co_lines` and `dis` tell are `none` where the call raises; a line
-- is `none` where the interpreter has no number for it.
pub record CodeObject : Type 0 where
  pub co_filename : String
  pub co_name : String
  pub co_firstlineno : Option ℕ
  pub co_lines : Option (List (Option ℕ))
  pub instruction_lines : Option (List (Option ℕ))

-- The interpreter, the code and line of its frames, and the times at which files changed.
pub record Host : Type 1 where
  pub py : Interpreter
  pub f_code : py.Frame → CodeObject
  pub f_lineno : py.Frame → ℕ
  pub mtime : String → Option ℕ

pub record ThreadInfo (Frame : Type 0) : Type 0 where
  pub inside_frame_eval : Bool
  pub fully_initialized : Bool
  pub is_debugger_internal_thread : Bool
  pub skip_all_frames : Bool
  pub step_mode : Bool
  pub should_skip_frame : Frame → Bool

-- An analyzer, with the shared caches that it uses.
pub record Analyzer (Code : Type 0) : Type 0 where
  pub analysis_cache : List Codes
  pub breakpoint_conditions : Dict String (Dict ℕ Codes)
  pub stats : Stats
  pub cache : Cache
  pub cache_enabled : Bool
  pub files : Files
  pub evaluator : Evaluator Code
