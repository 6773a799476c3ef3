-- ===== src/FrameEval/Tracer/Dispatcher.antt =====
-- `SelectiveTraceDispatcher` of dapper/_frame_eval/selective_tracer.py. What the debugger's trace
-- function does is outside; a dispatch says whether the function is called.
use dapper.Base.{
  ℕ, ◌+◌, String, string_eq, nat_eq, Bool, true, false, Option, none, some, List, if◌then◌else◌,
}
use dapper.Base.Text.{codes_eq}
use dapper.FrameEval.Tracer.{breakpointed, Decision, Host, ThreadInfo, Analyzer}
use dapper.FrameEval.Tracer.Analysis.{should_trace_frame}
use dapper.FrameEval.Tracer.Updates.{update_breakpoints, invalidate_file, clear_statistics}

pub record DispatchStats : Type 0 where
  pub total_calls : ℕ
  pub dispatched_calls : ℕ
  pub skipped_calls : ℕ

pub record Dispatcher (Code : Type 0) : Type 0 where
  pub has_trace_func : Bool
  pub analyzer : Analyzer Code
  pub dispatch_stats : DispatchStats

abbrev pub no_dispatches : DispatchStats
no_dispatches = record { total_calls = 0; dispatched_calls = 0; skipped_calls = 0 }

unfoldable pub set_debugger_trace_func : {Code : Type 0} → Dispatcher Code → Bool → Dispatcher Code
set_debugger_trace_func d given = record d { has_trace_func = given }

unfoldable pub clear_dispatches : {Code : Type 0} → Dispatcher Code → Dispatcher Code
unfolding clear_statistics
clear_dispatches d = record d {
  dispatch_stats = no_dispatches;
  analyzer = clear_statistics d.analyzer;
}

-- `_decision_should_trace`; every decision of the analyzer has a path.
unfoldable pub decision_should_trace : Decision → Bool
decision_should_trace d = elim d.path [ breakpointed ↦ true | _ ↦ false ]

unfoldable pub count_call : {Code : Type 0} → Dispatcher Code → Dispatcher Code
count_call d = record d {
  dispatch_stats = record d.dispatch_stats { total_calls = d.dispatch_stats.total_calls + 1 };
}

module _ (host : Host) where
  unfoldable pub count_decision :
      Dispatcher host.py.Code → Decision × Analyzer host.py.Code → Bool × Dispatcher host.py.Code
  unfolding decision_should_trace
  count_decision d (decision, analyzer) =
      if decision_should_trace decision
      then (
        true,
        record d {
          analyzer = analyzer;
          dispatch_stats = record d.dispatch_stats {
            dispatched_calls = d.dispatch_stats.dispatched_calls + 1;
          };
        },
      )
      else (
        false,
        record d {
          analyzer = analyzer;
          dispatch_stats = record d.dispatch_stats {
            skipped_calls = d.dispatch_stats.skipped_calls + 1;
          };
        },
      )

  -- True where the trace function is called with the frame.
  unfoldable pub selective_trace_dispatch :
      Dispatcher host.py.Code
      → ThreadInfo host.py.Frame
      → ℕ
      → ℕ
      → Option host.py.Frame
      → Option (Bool × Dispatcher host.py.Code)
  unfolding count_call should_trace_frame count_decision
  selective_trace_dispatch d thread now elapsed none = some (false, count_call d)
  selective_trace_dispatch d thread now elapsed (some frame) = elim d.has_trace_func [
    | false ↦ some (false, count_call d)
    | true ↦ elim (should_trace_frame host d.analyzer thread now elapsed frame) [
      | none ↦ none
      | some decided ↦ some (count_decision (count_call d) decided)
    ]
  ]

  unfoldable pub dispatch_update :
      Dispatcher host.py.Code → ℕ → String → List ℕ → Dispatcher host.py.Code
  unfolding update_breakpoints
  dispatch_update d now filename lines = record d {
    analyzer = update_breakpoints host d.analyzer now filename lines;
  }

  unfoldable pub dispatch_invalidate :
      Dispatcher host.py.Code → ℕ → String → ℕ → Dispatcher host.py.Code
  unfolding invalidate_file
  dispatch_invalidate d now filename removed_bytecode = record d {
    analyzer = invalidate_file host d.analyzer now filename removed_bytecode;
  }
