-- ===== src/FrameEval/Tracer/Manager.antt =====
-- `FrameTraceManager` of dapper/_frame_eval/selective_tracer.py, and the functions of the module
-- that call the one manager there is. A set of lines is the list of its members.
use dapper.Base.{
  ℕ, add, discard, String, string_eq, nat_eq, Bool, true, false, Option, none, some, List, [], ◌∷◌,
  if◌then◌else◌, ◌==◌, map,
}
use dapper.Base.Dict.{Dict, keys, get_or, put}
use dapper.Base.Text.{Codes, codes_eq}
use dapper.FrameEval.Tracer.{Host}
use dapper.FrameEval.Tracer.Updates.{set_breakpoint_conditions}
use dapper.FrameEval.Tracer.Dispatcher.{
  Dispatcher, set_debugger_trace_func, dispatch_update, dispatch_invalidate, clear_dispatches,
}

pub record Manager (Code : Type 0) : Type 0 where
  pub dispatcher : Dispatcher Code
  pub enabled : Bool
  pub global_breakpoints : Dict String (List ℕ)

-- `ConditionalBreakpointSpec`
pub record Spec : Type 0 where
  pub lineno : ℕ
  pub condition : Option Codes

unfoldable pub lines_of : List Spec → List ℕ
unfolding add
lines_of [] = []
lines_of (s ∷ rest) = add s.lineno (lines_of rest)

-- The loop over the specifications: a later one of a line replaces an earlier one.
unfoldable pub conditions_of : Dict ℕ (Option Codes) → List Spec → Dict ℕ (Option Codes)
unfolding put
conditions_of conditions [] = conditions
conditions_of conditions (s ∷ rest) = conditions_of (put s.lineno s.condition conditions) rest

module _ {Code : Type 0} where
  unfoldable pub enable_selective_tracing : Manager Code → Manager Code
  unfolding set_debugger_trace_func
  enable_selective_tracing m = record m {
    dispatcher = set_debugger_trace_func m.dispatcher true;
    enabled = true;
  }

  -- The manager, and the thread's `step_mode` after it.
  unfoldable pub disable_selective_tracing : Manager Code → Manager Code × Bool
  unfolding set_debugger_trace_func
  disable_selective_tracing m =
      (record m { dispatcher = set_debugger_trace_func m.dispatcher false; enabled = false }, false)

  -- Whether `sys.settrace` is given the dispatcher.
  unfoldable pub get_trace_function : Manager Code → Bool
  get_trace_function m = m.enabled

  unfoldable pub get_breakpoints : Manager Code → String → List ℕ
  unfolding get_or
  get_breakpoints m filename = get_or filename [] m.global_breakpoints

  unfoldable pub get_all_breakpoints : Manager Code → Dict String (List ℕ)
  get_all_breakpoints m = m.global_breakpoints

  unfoldable pub manager_clear_statistics : Manager Code → Manager Code
  unfolding clear_dispatches
  manager_clear_statistics m = record m { dispatcher = clear_dispatches m.dispatcher }

module _ (host : Host) where
  unfoldable pub update_file_breakpoints :
      Manager host.py.Code → ℕ → String → List ℕ → Manager host.py.Code
  unfolding put dispatch_update
  update_file_breakpoints m now filename lines = record m {
    global_breakpoints = put filename lines m.global_breakpoints;
    dispatcher = dispatch_update host m.dispatcher now filename lines;
  }

  unfoldable pub set_conditional_breakpoints :
      Manager host.py.Code → ℕ → String → List Spec → Manager host.py.Code
  unfolding update_file_breakpoints lines_of conditions_of set_breakpoint_conditions
  set_conditional_breakpoints m now filename specs =
      let m' : Manager host.py.Code = update_file_breakpoints m now filename (lines_of specs) in
      let d : Dispatcher host.py.Code = m'.dispatcher in
      record m' {
        dispatcher = record d {
          analyzer = set_breakpoint_conditions host d.analyzer filename (conditions_of [] specs);
        };
      }

  unfoldable pub update_each :
      Dispatcher host.py.Code → ℕ → Dict String (List ℕ) → Dispatcher host.py.Code
  unfolding dispatch_update
  update_each d now [] = d
  update_each d now ((filename, lines) ∷ rest) =
      update_each (dispatch_update host d now filename lines) now rest

  unfoldable pub update_all_breakpoints :
      Manager host.py.Code → ℕ → Dict String (List ℕ) → Manager host.py.Code
  unfolding update_each
  update_all_breakpoints m now breakpoint_map = record m {
    global_breakpoints = breakpoint_map;
    dispatcher = update_each m.dispatcher now breakpoint_map;
  }

  unfoldable pub add_breakpoint : Manager host.py.Code → ℕ → String → ℕ → Manager host.py.Code
  unfolding update_file_breakpoints get_or add
  add_breakpoint m now filename lineno =
      update_file_breakpoints m now filename (add lineno (get_or filename [] m.global_breakpoints))

  unfoldable pub remove_breakpoint : Manager host.py.Code → ℕ → String → ℕ → Manager host.py.Code
  unfolding update_file_breakpoints get_or discard
  remove_breakpoint m now filename lineno =
      update_file_breakpoints m now filename
        (discard lineno (get_or filename [] m.global_breakpoints))

  -- The table is emptied before its keys are listed.
  unfoldable pub clear_all_breakpoints : Manager host.py.Code → ℕ → Manager host.py.Code
  unfolding update_each
  clear_all_breakpoints m now =
      let cleared : Dict String (List ℕ) = [] in
      record m {
        global_breakpoints = cleared;
        dispatcher = update_each m.dispatcher now (map (λ file. (file, [])) (keys cleared));
      }

  unfoldable pub clear_breakpoints : Manager host.py.Code → ℕ → Option String → Manager host.py.Code
  unfolding clear_all_breakpoints update_file_breakpoints
  clear_breakpoints m now none = clear_all_breakpoints m now
  clear_breakpoints m now (some filename) =
      if filename == ""
      then clear_all_breakpoints m now
      else update_file_breakpoints m now filename []

  unfoldable pub invalidate_file_cache :
      Manager host.py.Code → ℕ → String → ℕ → Manager host.py.Code
  unfolding dispatch_invalidate
  invalidate_file_cache m now filename removed_bytecode = record m {
    dispatcher = dispatch_invalidate host m.dispatcher now filename removed_bytecode;
  }
