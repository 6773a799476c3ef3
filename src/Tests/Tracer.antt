-- ===== src/Tests/Tracer.antt =====
-- The theorems on dapper/_frame_eval/telemetry.py, condition_evaluator.py and selective_tracer.py
-- for one file with a conditional breakpoint.
use dapper.Base.{
  ℕ, string_eq, nat_eq, true, false, none, some, List, [], ◌∷◌, ◌≡◌, refl, arith, last_of, ◌==◌,
}
use dapper.Base.Dict.{get, get_or}
use dapper.Base.Text.{codes, codes_eq}
use dapper.FrameEval.Telemetry.{
  Reason, cache_hit, cache_miss, attr_name, reason_code, as_dict, init,
}
use dapper.FrameEval.Telemetry.History.{Given, record_all, events, times, record_all-history}
use dapper.FrameEval.Conditions.{Interpreter, compiled, truth, Evaluator, ConditionResult}
use dapper.FrameEval.Conditions.Soundness.{IsCached}
use dapper.FrameEval.Tracer.{
  Host, CodeObject, ThreadInfo, Analyzer, Decision, no_stats, original, condition_not_met,
}
use dapper.FrameEval.Tracer.Analysis.{get_code_info, look_up, should_trace_code}
use dapper.FrameEval.Tracer.Decisions.{IsMissed, should_trace_code-misses}
use dapper.FrameEval.Tracer.Dispatcher.{no_dispatches}
use dapper.FrameEval.Tracer.Manager.{Manager, get_breakpoints, clear_breakpoints}
use dapper.FrameEval.Tracer.Clearing.{clear_breakpoints_lem}

abbrev given : List (Given ℕ)
given = (1, cache_hit, 7) ∷ (2, cache_miss, 8) ∷ (3, cache_hit, 9) ∷ []

record_all-history_example :
    ((record_all init given).recent_events ≡ last_of 50 (events given))
    × ((q : Reason) → get_or (attr_name q) 0 (record_all init given).reason_counts ≡ times q given)
    × ((q : Reason)
        → get_or (reason_code q) 0 (as_dict (record_all init given).reason_counts) ≡ times q given)
record_all-history_example = record_all-history given

-- Every condition compiles, and is false in the frame 0.
abbrev py : Interpreter
py = record {
  Code = ℕ;
  Frame = ℕ;
  compile = λ text. compiled 1;
  eval = λ code frame. truth (frame == code);
}

abbrev evaluator : Evaluator ℕ
evaluator = record { budget = 100; enabled = true; cache = []; telemetry = init }

evaluator-IsCached : IsCached py evaluator
unfolding get
evaluator-IsCached expression entry h = absurd (ground arith)

abbrev evaluated : ConditionResult × Evaluator ℕ
evaluated = (
  record { passed = false; fallback = false; error = none; elapsed = 5 },
  record evaluator {
    cache =
        (codes "x > 1", record { expression = codes "x > 1"; code = some 1; compile_error = none })
        ∷ [];
  },
)

abbrev code : CodeObject
code = record {
  co_filename = "/app/main.py";
  co_name = "work";
  co_firstlineno = some 1;
  co_lines = some (some 2 ∷ some 3 ∷ []);
  instruction_lines = none;
}

abbrev host : Host
host = record { py = py; f_code = λ f. code; f_lineno = λ f. 3; mtime = λ f. none }

abbrev thread : ThreadInfo ℕ
thread = record {
  inside_frame_eval = false;
  fully_initialized = true;
  is_debugger_internal_thread = false;
  skip_all_frames = false;
  step_mode = false;
  should_skip_frame = λ f. false;
}

abbrev analyzer : Analyzer ℕ
analyzer = record {
  analysis_cache = [];
  breakpoint_conditions = ("/app/main.py", (3, codes "x > 1") ∷ []) ∷ [];
  stats = no_stats;
  cache = record {
    max_entries = 10;
    entries = ("/app/main.py", 3 ∷ []) ∷ [];
    file_mtimes = ("/app/main.py", 1) ∷ [];
    access_order = "/app/main.py" ∷ [];
  };
  cache_enabled = true;
  files = record { func_code_cache = []; func_code_paths = []; breakpoint_cache = [] };
  evaluator = evaluator;
}

abbrev missed : Decision × Analyzer ℕ
missed = (
  record {
    path = original;
    should_trace = false;
    reason = condition_not_met;
    breakpoint_lines = [];
    frame_info = get_code_info code 3;
  },
  record analyzer { stats = record no_stats { total_frames = 1 }; evaluator = evaluated.1 },
)

should_trace_code-misses_example : IsMissed host analyzer "/app/main.py" 3 (some 0)
unfolding should_trace_code look_up
should_trace_code-misses_example =
    should_trace_code-misses host analyzer thread 9 5 code 3 (some 0) false missed
      evaluator-IsCached refl refl refl refl

abbrev manager : Manager ℕ
manager = record {
  dispatcher = record {
    has_trace_func = true;
    analyzer = analyzer;
    dispatch_stats = no_dispatches;
  };
  enabled = true;
  global_breakpoints = ("/app/main.py", 3 ∷ []) ∷ [];
}

clear_breakpoints_example :
    (get_breakpoints (clear_breakpoints host manager 9 (some "/app/main.py")) "/app/main.py" ≡ [])
    × ((look_up host
          (clear_breakpoints host manager 9 (some "/app/main.py")).dispatcher.analyzer
          "/app/main.py").0
        ≡ [])
    × ((clear_breakpoints host manager 9 none).global_breakpoints ≡ [])
    × ((clear_breakpoints host manager 9 none).dispatcher ≡ manager.dispatcher)
clear_breakpoints_example = clear_breakpoints_lem host manager 9 "/app/main.py" refl refl
