-- ===== src/FrameEval/Tracer/Analysis.antt =====
-- The decisions of `FrameTraceAnalyzer` of dapper/_frame_eval/selective_tracer.py.
use dapper.Base.{
  ℕ, ◌+◌, String, string_eq, nat_eq, Bool, true, false, not, ◌&&◌, ◌||◌, Option, none, some, List,
  [], ◌∷◌, if◌then◌else◌, ◌==◌, ltb, leb, contains, is_empty, select,
}
use dapper.Base.Dict.{get, get_or}
use dapper.Base.Text.{Codes, codes, codes_eq, has_infix, starts_with}
use mathlib.Core.List.{reverse}
use dapper.FrameEval.Conditions.{Evaluator, evaluate, ConditionResult}
use dapper.FrameEval.BreakpointCache.{get_breakpoints as cache_get}
use dapper.FrameEval.Tracer.{
  TracePath, skip, original, breakpointed, Reason, thread_skip_frame, no_breakpoints_in_file,
  file_not_tracked, inside_frame_eval, thread_not_initialized, debugger_internal_thread,
  conditional_breakpoint_pending, breakpoint_on_line, condition_not_met, function_has_breakpoints,
  no_breakpoints_in_function, FrameInfo, Decision, CodeObject, Host, ThreadInfo, Analyzer,
}

unfoldable pub numbers : List (Option ℕ) → List ℕ
numbers [] = []
numbers (none ∷ rest) = numbers rest
numbers (some n ∷ rest) = n ∷ numbers rest

abbrev pub or_nat : ℕ → Option ℕ → ℕ
or_nat default none = default
or_nat default (some n) = n

abbrev pub or_lines : Option (List (Option ℕ)) → List ℕ
or_lines none = []
or_lines (some xs) = numbers xs

abbrev pub maximum : ℕ → List ℕ → ℕ
maximum m [] = m
maximum m (n ∷ rest) = maximum (if ltb m n then n else m) rest

abbrev pub within : ℕ → ℕ → ℕ → Bool
within low high n = leb low n && leb n high

abbrev pub skip_patterns : List Codes
skip_patterns =
    codes "<"
    ∷ codes "site-packages/"
    ∷ codes "python3."
    ∷ codes "lib/python"
    ∷ codes "Python/Lib"
    ∷ codes "importlib"
    ∷ codes "dapper/_frame_eval/"
    ∷ []

unfoldable pub has_pattern : List Codes → Codes → Bool
unfolding has_infix
has_pattern [] filename = false
has_pattern (pattern ∷ rest) filename = has_infix pattern filename || has_pattern rest filename

unfoldable pub should_track_file : String → Bool
unfolding has_pattern starts_with
should_track_file filename =
    not (has_pattern skip_patterns (codes filename))
    && starts_with (reverse (codes filename)) (reverse (codes ".py"))

unfoldable pub get_code_info : CodeObject → ℕ → FrameInfo
get_code_info code lineno = record {
  filename = code.co_filename;
  function = code.co_name;
  lineno = lineno;
  is_module = code.co_name == "<module>";
}

-- The paths of `_create_trace_decision` that do not trace, and the one that does.
abbrev pub untraced : TracePath → Reason → FrameInfo → Decision
untraced path reason info = record {
  path = path;
  should_trace = false;
  reason = reason;
  breakpoint_lines = [];
  frame_info = info;
}

abbrev pub traced : Reason → List ℕ → FrameInfo → Decision
traced reason lines info = record {
  path = breakpointed;
  should_trace = true;
  reason = reason;
  breakpoint_lines = lines;
  frame_info = info;
}

unfoldable pub count_traced : {Code : Type 0} → Analyzer Code → Analyzer Code
count_traced a = record a { stats = record a.stats { traced_frames = a.stats.traced_frames + 1 } }

unfoldable pub count_frame : {Code : Type 0} → Analyzer Code → Analyzer Code
count_frame a = record a { stats = record a.stats { total_frames = a.stats.total_frames + 1 } }

module _ (host : Host) where
  abbrev Frame : Type 0
  Frame = host.py.Frame

  abbrev Traced : Type 0
  Traced = Decision × Analyzer host.py.Code

  unfoldable pub get_frame_info : Frame → FrameInfo
  unfolding get_code_info
  get_frame_info frame = get_code_info (host.f_code frame) (host.f_lineno frame)

  -- `_check_skip_frame`, for a frame or for none
  unfoldable pub check_skip_frame : ThreadInfo Frame → Option Frame → Option Decision
  unfolding get_frame_info
  check_skip_frame thread none = none
  check_skip_frame thread (some frame) =
      if thread.should_skip_frame frame
      then some (untraced skip thread_skip_frame (get_frame_info frame))
      else none

  unfoldable pub should_skip_code_location :
      ThreadInfo Frame → Option Frame → Bool → FrameInfo → Option Decision
  unfolding check_skip_frame
  should_skip_code_location thread frame allow_current_eval_frame info =
      if not allow_current_eval_frame && thread.inside_frame_eval
      then some (untraced skip inside_frame_eval info)
      else if not thread.fully_initialized
      then some (untraced skip thread_not_initialized info)
      else if thread.is_debugger_internal_thread
      then some (untraced skip debugger_internal_thread info)
      else if thread.skip_all_frames
      then some (untraced skip thread_skip_frame info)
      else check_skip_frame thread frame

  unfoldable pub handle_no_breakpoints : String → FrameInfo → Decision
  unfolding should_track_file
  handle_no_breakpoints filename info =
      if should_track_file filename
      then untraced original no_breakpoints_in_file info
      else untraced skip file_not_tracked info

  unfoldable pub estimate_function_end : Frame → ℕ
  unfolding numbers
  estimate_function_end frame =
      let code = host.f_code frame in
      let fallback_end = or_nat (host.f_lineno frame) code.co_firstlineno + 100 in
      elim (or_lines code.instruction_lines) [ [] ↦ fallback_end | n ∷ rest ↦ maximum n rest ]

  abbrev start_of : Option Frame → ℕ
  start_of none = 0
  start_of (some frame) = host.f_lineno frame

  abbrev end_of : ℕ → Option Frame → ℕ
  end_of start none = start + 100
  end_of start (some frame) = estimate_function_end frame

  unfoldable pub get_code_breakpoints : CodeObject → List ℕ → Option Frame → List ℕ
  unfolding contains select numbers estimate_function_end
  get_code_breakpoints code file_breakpoints frame =
      let code_lines = or_lines code.co_lines in
      let start = or_nat (start_of frame) code.co_firstlineno in
      if not (is_empty code_lines)
      then select (λ n. contains n code_lines) file_breakpoints
      else select (within start (end_of start frame)) file_breakpoints

  unfoldable pub should_trace_function_for_step : ThreadInfo Frame → Bool
  should_trace_function_for_step thread = thread.fully_initialized && thread.step_mode

  unfoldable pub trace : Analyzer host.py.Code → Reason → List ℕ → FrameInfo → Traced
  unfolding count_traced
  trace a reason lines info = (traced reason lines info, count_traced a)

  -- A frame on a line with a breakpoint whose condition was evaluated.
  unfoldable pub after_condition :
      Analyzer host.py.Code → ℕ → FrameInfo → ConditionResult × Evaluator host.py.Code → Traced
  unfolding trace
  after_condition a lineno info (result, evaluator) =
      let a' = record a { evaluator = evaluator } in
      if not result.passed && not result.fallback
      then (untraced original condition_not_met info, a')
      else trace a' breakpoint_on_line (lineno ∷ []) info

  -- A frame on a line with a breakpoint. Nothing when an exception leaves the evaluator.
  unfoldable pub on_breakpoint :
      Analyzer host.py.Code → ℕ → ℕ → ℕ → FrameInfo → Option Codes → Option Frame → Option Traced
  unfolding evaluate after_condition trace
  on_breakpoint a now elapsed lineno info none frame =
      some (trace a breakpoint_on_line (lineno ∷ []) info)
  on_breakpoint a now elapsed lineno info (some condition) none =
      some (trace a conditional_breakpoint_pending (lineno ∷ []) info)
  on_breakpoint a now elapsed lineno info (some condition) (some frame) =
      elim (evaluate host.py a.evaluator now condition elapsed frame) [
        | none ↦ none
        | some evaluated ↦ some (after_condition a lineno info evaluated)
      ]

  -- A frame on another line of a file with breakpoints.
  unfoldable pub off_breakpoint :
      Analyzer host.py.Code
      → ThreadInfo Frame
      → CodeObject
      → List ℕ
      → FrameInfo
      → Option Frame
      → Traced
  unfolding get_code_breakpoints should_trace_function_for_step trace
  off_breakpoint a thread code file_breakpoints info frame =
      let func_breakpoints = get_code_breakpoints code file_breakpoints frame in
      if not (is_empty func_breakpoints) && should_trace_function_for_step thread
      then trace a function_has_breakpoints func_breakpoints info
      else (untraced original no_breakpoints_in_function info, a)

  unfoldable pub condition_at : Analyzer host.py.Code → String → ℕ → Option Codes
  unfolding get_or get
  condition_at a filename lineno = get lineno (get_or filename [] a.breakpoint_conditions)

  -- The lines with breakpoints of a file, none when the cache has none, and the cache after.
  unfoldable pub look_up : Analyzer host.py.Code → String → List ℕ × Analyzer host.py.Code
  unfolding cache_get
  look_up a filename =
      let found = cache_get host.mtime a.cache filename in
      let a' = record a { cache = found.1 } in (elim found.0 [ none ↦ [] | some lines ↦ lines ], a')

  unfoldable pub with_breakpoints :
      Analyzer host.py.Code
      → ThreadInfo Frame
      → ℕ
      → ℕ
      → CodeObject
      → ℕ
      → Option Frame
      → FrameInfo
      → List ℕ
      → Option Traced
  unfolding handle_no_breakpoints on_breakpoint off_breakpoint condition_at contains
  with_breakpoints a thread now elapsed code lineno frame info lines =
      if is_empty lines
      then some (handle_no_breakpoints code.co_filename info, a)
      else if contains lineno lines
      then on_breakpoint a now elapsed lineno info (condition_at a code.co_filename lineno) frame
      else some (off_breakpoint a thread code lines info frame)

  unfoldable pub should_trace_code :
      Analyzer host.py.Code
      → ThreadInfo Frame
      → ℕ
      → ℕ
      → CodeObject
      → ℕ
      → Option Frame
      → Bool
      → Option Traced
  unfolding count_frame get_code_info should_skip_code_location look_up with_breakpoints
  should_trace_code a thread now elapsed code lineno frame allow_current_eval_frame =
      let info = get_code_info code lineno in
      elim (should_skip_code_location thread frame allow_current_eval_frame info) [
        | some decision ↦ some (decision, count_frame a)
        | none ↦
            let found = look_up (count_frame a) code.co_filename in
            with_breakpoints found.1 thread now elapsed code lineno frame info found.0
      ]

  unfoldable pub should_trace_frame :
      Analyzer host.py.Code → ThreadInfo Frame → ℕ → ℕ → Frame → Option Traced
  unfolding should_trace_code
  should_trace_frame a thread now elapsed frame =
      should_trace_code a thread now elapsed (host.f_code frame) (host.f_lineno frame) (some frame)
        false
