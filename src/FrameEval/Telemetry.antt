-- ===== src/FrameEval/Telemetry.antt =====
-- dapper/_frame_eval/telemetry.py: the counters and the latest events of `FrameEvalTelemetry`. The
-- time and the context of an event are arguments.
pub mod Codes
pub mod History
use dapper.Base.{
  ℕ, ◌+◌, String, string_eq, Bool, true, false, ◌&&◌, List, [], ◌∷◌, ◌++◌, map, if◌then◌else◌, ltb,
  nat_beq, length, last_of,
}
use dapper.Base.Dict.{Dict, get_or, has, put}

-- The methods `record_…`
pub data Reason : Type 0 where
  auto_integration_failed cache_hit cache_invalidation_breakpoint_change : Reason
  cache_invalidation_config_change cache_invalidation_file_reload cache_miss : Reason
  bytecode_injection_failed bytecode_optimization_failed : Reason
  bytecode_optimization_file_read_failed bytecode_rollback bytecode_eager_instrumentation : Reason
  bytecode_cache_key_mismatch modified_code_unavailable integration_bdb_failed : Reason
  integration_remove_failed hot_reload_failed hot_reload_succeeded : Reason
  py_debugger_breakpoint_hook_failed py_debugger_integration_failed : Reason
  py_debugger_trace_hook_failed selective_tracing_analysis_failed : Reason

-- The codes in the order in which `as_dict` lists them.
abbrev pub reasons : List Reason
reasons =
    auto_integration_failed ∷ cache_hit ∷ cache_invalidation_breakpoint_change
    ∷ cache_invalidation_config_change ∷ cache_invalidation_file_reload ∷ cache_miss
    ∷ bytecode_injection_failed ∷ bytecode_optimization_failed
    ∷ bytecode_optimization_file_read_failed ∷ bytecode_rollback ∷ bytecode_eager_instrumentation
    ∷ bytecode_cache_key_mismatch ∷ modified_code_unavailable ∷ hot_reload_failed
    ∷ hot_reload_succeeded ∷ integration_bdb_failed ∷ integration_remove_failed
    ∷ py_debugger_breakpoint_hook_failed ∷ py_debugger_integration_failed
    ∷ py_debugger_trace_hook_failed ∷ selective_tracing_analysis_failed ∷ []

-- The two texts that each method gives to `_record`.
unfoldable pub reason_code : Reason → String
reason_code auto_integration_failed = "AUTO_INTEGRATION_FAILED"
reason_code cache_hit = "CACHE_HIT"
reason_code cache_invalidation_breakpoint_change = "CACHE_INVALIDATION_BREAKPOINT_CHANGE"
reason_code cache_invalidation_config_change = "CACHE_INVALIDATION_CONFIG_CHANGE"
reason_code cache_invalidation_file_reload = "CACHE_INVALIDATION_FILE_RELOAD"
reason_code cache_miss = "CACHE_MISS"
reason_code bytecode_injection_failed = "BYTECODE_INJECTION_FAILED"
reason_code bytecode_optimization_failed = "BYTECODE_OPTIMIZATION_FAILED"
reason_code bytecode_optimization_file_read_failed = "BYTECODE_OPTIMIZATION_FILE_READ_FAILED"
reason_code bytecode_rollback = "BYTECODE_ROLLBACK"
reason_code bytecode_eager_instrumentation = "BYTECODE_EAGER_INSTRUMENTATION"
reason_code bytecode_cache_key_mismatch = "BYTECODE_CACHE_KEY_MISMATCH"
reason_code modified_code_unavailable = "MODIFIED_CODE_UNAVAILABLE"
reason_code integration_bdb_failed = "INTEGRATION_BDB_FAILED"
reason_code integration_remove_failed = "INTEGRATION_REMOVE_FAILED"
reason_code hot_reload_failed = "HOT_RELOAD_FAILED"
reason_code hot_reload_succeeded = "HOT_RELOAD_SUCCEEDED"
reason_code py_debugger_breakpoint_hook_failed = "PY_DEBUGGER_BREAKPOINT_HOOK_FAILED"
reason_code py_debugger_integration_failed = "PY_DEBUGGER_INTEGRATION_FAILED"
reason_code py_debugger_trace_hook_failed = "PY_DEBUGGER_TRACE_HOOK_FAILED"
reason_code selective_tracing_analysis_failed = "SELECTIVE_TRACING_ANALYSIS_FAILED"

unfoldable pub attr_name : Reason → String
attr_name auto_integration_failed = "auto_integration_failed"
attr_name cache_hit = "cache_hit"
attr_name cache_invalidation_breakpoint_change = "cache_invalidation_breakpoint_change"
attr_name cache_invalidation_config_change = "cache_invalidation_config_change"
attr_name cache_invalidation_file_reload = "cache_invalidation_file_reload"
attr_name cache_miss = "cache_miss"
attr_name bytecode_injection_failed = "bytecode_injection_failed"
attr_name bytecode_optimization_failed = "bytecode_optimization_failed"
attr_name bytecode_optimization_file_read_failed = "bytecode_optimization_file_read_failed"
attr_name bytecode_rollback = "bytecode_rollback"
attr_name bytecode_eager_instrumentation = "bytecode_eager_instrumentation"
attr_name bytecode_cache_key_mismatch = "bytecode_cache_key_mismatch"
attr_name modified_code_unavailable = "modified_code_unavailable"
attr_name integration_bdb_failed = "integration_bdb_failed"
attr_name integration_remove_failed = "integration_remove_failed"
attr_name hot_reload_failed = "hot_reload_failed"
attr_name hot_reload_succeeded = "hot_reload_succeeded"
attr_name py_debugger_breakpoint_hook_failed = "py_debugger_breakpoint_hook_failed"
attr_name py_debugger_integration_failed = "py_debugger_integration_failed"
attr_name py_debugger_trace_hook_failed = "py_debugger_trace_hook_failed"
attr_name selective_tracing_analysis_failed = "selective_tracing_analysis_failed"

-- The attributes of a new `FrameEvalReasonCounts`
unfoldable pub no_counts : Dict String ℕ
unfolding attr_name
no_counts = map (λ r. (attr_name r, 0)) reasons

abbrev all_zero : Dict String ℕ → Bool
all_zero [] = true
all_zero ((code, n) ∷ rest) = nat_beq n 0 && all_zero rest

unfoldable pub as_dict : Dict String ℕ → Dict String ℕ
unfolding get_or attr_name reason_code
as_dict counts =
    let out = map (λ r. (reason_code r, get_or (attr_name r) 0 counts)) reasons in
    if all_zero out then [] else out

pub record Event (Context : Type 0) : Type 0 where
  pub timestamp : ℕ
  pub code : String
  pub context : Context

pub record Telemetry (Context : Type 0) : Type 0 where
  pub reason_counts : Dict String ℕ
  pub recent_events : List (Event Context)
  pub max_recent_events : ℕ

module _ {Context : Type 0} where
  unfoldable pub init : Telemetry Context
  unfolding no_counts
  init = record { reason_counts = no_counts; recent_events = []; max_recent_events = 50 }

  unfoldable pub add_event : ℕ → List (Event Context) → Event Context → List (Event Context)
  add_event most events e =
      let longer = events ++ e ∷ [] in
      if ltb most (length longer) then last_of most longer else longer

  -- `_record`
  unfoldable pub note : Telemetry Context → ℕ → String → String → Context → Telemetry Context
  unfolding has get_or put add_event
  note t now code attr context = record t {
    reason_counts =
        if has attr t.reason_counts
        then put attr (get_or attr 0 t.reason_counts + 1) t.reason_counts
        else t.reason_counts;
    recent_events =
        add_event t.max_recent_events t.recent_events
          (record { timestamp = now; code = code; context = context });
  }

  -- `record_…(**kwargs)`
  unfoldable pub note_reason : Telemetry Context → ℕ → Reason → Context → Telemetry Context
  unfolding note reason_code attr_name
  note_reason t now r context = note t now (reason_code r) (attr_name r) context

  unfoldable pub snapshot : Telemetry Context → Dict String ℕ × List (Event Context)
  snapshot t = (t.reason_counts, t.recent_events)

  unfoldable pub clear : Telemetry Context → Telemetry Context
  unfolding no_counts
  clear t = record t { reason_counts = no_counts; recent_events = [] }
