-- ===== src/FrameEval/Telemetry/Codes.antt =====
-- The names and codes of the reasons of dapper/_frame_eval/telemetry.py.
use dapper.Base.{
  ℕ, ◌+◌, String, string_eq, nat_eq, true, some, List, [], ◌∷◌, ◌≡◌, refl, sym, ap, ◌∙◌, inl, inr,
  arith, Bool-cases, map, ◌==◌, get_elem?,
}
use mathlib.Core.Option.{some-injective}
use dapper.Base.Dict.{Dict, get, get_or}
use dapper.FrameEval.Telemetry.{
  Reason, auto_integration_failed, cache_hit, cache_invalidation_breakpoint_change,
  cache_invalidation_config_change, cache_invalidation_file_reload, cache_miss,
  bytecode_injection_failed, bytecode_optimization_failed, bytecode_optimization_file_read_failed,
  bytecode_rollback, bytecode_eager_instrumentation, bytecode_cache_key_mismatch,
  modified_code_unavailable, integration_bdb_failed, integration_remove_failed, hot_reload_failed,
  hot_reload_succeeded, py_debugger_breakpoint_hook_failed, py_debugger_integration_failed,
  py_debugger_trace_hook_failed, selective_tracing_analysis_failed, reason_code, attr_name, reasons,
  all_zero, as_dict,
}

-- The reasons by number.
abbrev pub number : Reason → ℕ
number auto_integration_failed = 0
number cache_hit = 1
number cache_invalidation_breakpoint_change = 2
number cache_invalidation_config_change = 3
number cache_invalidation_file_reload = 4
number cache_miss = 5
number bytecode_injection_failed = 6
number bytecode_optimization_failed = 7
number bytecode_optimization_file_read_failed = 8
number bytecode_rollback = 9
number bytecode_eager_instrumentation = 10
number bytecode_cache_key_mismatch = 11
number modified_code_unavailable = 12
number hot_reload_failed = 13
number hot_reload_succeeded = 14
number integration_bdb_failed = 15
number integration_remove_failed = 16
number py_debugger_breakpoint_hook_failed = 17
number py_debugger_integration_failed = 18
number py_debugger_trace_hook_failed = 19
number selective_tracing_analysis_failed = 20

abbrev names : List String
unfolding attr_name
names = map attr_name reasons

abbrev numbered : ℕ → List String → Dict String ℕ
numbered n [] = []
numbered n (name ∷ rest) = (name, n) ∷ numbered (n + 1) rest

name_of_number : (q : Reason) → get_elem? names (number q) ≡ some (attr_name q)
unfolding attr_name
name_of_number auto_integration_failed = refl
name_of_number cache_hit = refl
name_of_number cache_invalidation_breakpoint_change = refl
name_of_number cache_invalidation_config_change = refl
name_of_number cache_invalidation_file_reload = refl
name_of_number cache_miss = refl
name_of_number bytecode_injection_failed = refl
name_of_number bytecode_optimization_failed = refl
name_of_number bytecode_optimization_file_read_failed = refl
name_of_number bytecode_rollback = refl
name_of_number bytecode_eager_instrumentation = refl
name_of_number bytecode_cache_key_mismatch = refl
name_of_number modified_code_unavailable = refl
name_of_number hot_reload_failed = refl
name_of_number hot_reload_succeeded = refl
name_of_number integration_bdb_failed = refl
name_of_number integration_remove_failed = refl
name_of_number py_debugger_breakpoint_hook_failed = refl
name_of_number py_debugger_integration_failed = refl
name_of_number py_debugger_trace_hook_failed = refl
name_of_number selective_tracing_analysis_failed = refl

number_of_name : (q : Reason) → get (attr_name q) (numbered 0 names) ≡ some (number q)
unfolding get attr_name
number_of_name auto_integration_failed = refl
number_of_name cache_hit = refl
number_of_name cache_invalidation_breakpoint_change = refl
number_of_name cache_invalidation_config_change = refl
number_of_name cache_invalidation_file_reload = refl
number_of_name cache_miss = refl
number_of_name bytecode_injection_failed = refl
number_of_name bytecode_optimization_failed = refl
number_of_name bytecode_optimization_file_read_failed = refl
number_of_name bytecode_rollback = refl
number_of_name bytecode_eager_instrumentation = refl
number_of_name bytecode_cache_key_mismatch = refl
number_of_name modified_code_unavailable = refl
number_of_name hot_reload_failed = refl
number_of_name hot_reload_succeeded = refl
number_of_name integration_bdb_failed = refl
number_of_name integration_remove_failed = refl
number_of_name py_debugger_breakpoint_hook_failed = refl
number_of_name py_debugger_integration_failed = refl
number_of_name py_debugger_trace_hook_failed = refl
number_of_name selective_tracing_analysis_failed = refl

-- Two reasons have one name exactly when they are one.
pub same-number : (r q : Reason) → (attr_name r == attr_name q) ≡ (number r == number q)
same-number r q = elim (Bool-cases (attr_name r == attr_name q)) [
  | inl e ↦
      let same : number r ≡ number q = some-injective (number r) (number q) (
        sym (number_of_name r)
        ∙ ap (λ n. get n (numbered 0 names)) ((string_eq.beq_iff _ _).0 e)
        ∙ number_of_name q) in
      e ∙ sym ((nat_eq.beq_iff (number r) (number q)).1 same)
  | inr e ↦ elim (Bool-cases (number r == number q)) [
    | inr k ↦ e ∙ sym k
    | inl k ↦
        let same : attr_name r ≡ attr_name q = some-injective (attr_name r) (attr_name q) (
          sym (name_of_number r)
          ∙ ap (λ n. get_elem? names n) ((nat_eq.beq_iff _ _).0 k)
          ∙ name_of_number q) in
        (string_eq.beq_iff (attr_name r) (attr_name q)).1 same ∙ sym k
  ]
]

abbrev rows : Dict String ℕ → Dict String ℕ
rows counts = map (λ r. (reason_code r, get_or (attr_name r) 0 counts)) reasons

get_or-rows :
    (counts : Dict String ℕ) (q : Reason)
    → get_or (reason_code q) 0 (rows counts) ≡ get_or (attr_name q) 0 counts
unfolding get_or get reason_code attr_name
get_or-rows counts auto_integration_failed = refl
get_or-rows counts cache_hit = refl
get_or-rows counts cache_invalidation_breakpoint_change = refl
get_or-rows counts cache_invalidation_config_change = refl
get_or-rows counts cache_invalidation_file_reload = refl
get_or-rows counts cache_miss = refl
get_or-rows counts bytecode_injection_failed = refl
get_or-rows counts bytecode_optimization_failed = refl
get_or-rows counts bytecode_optimization_file_read_failed = refl
get_or-rows counts bytecode_rollback = refl
get_or-rows counts bytecode_eager_instrumentation = refl
get_or-rows counts bytecode_cache_key_mismatch = refl
get_or-rows counts modified_code_unavailable = refl
get_or-rows counts hot_reload_failed = refl
get_or-rows counts hot_reload_succeeded = refl
get_or-rows counts integration_bdb_failed = refl
get_or-rows counts integration_remove_failed = refl
get_or-rows counts py_debugger_breakpoint_hook_failed = refl
get_or-rows counts py_debugger_integration_failed = refl
get_or-rows counts py_debugger_trace_hook_failed = refl
get_or-rows counts selective_tracing_analysis_failed = refl

get_or-zero : (k : String) (d : Dict String ℕ) → all_zero d ≡ true → get_or k 0 d ≡ 0
unfolding get_or get
get_or-zero k [] h = refl
get_or-zero k ((j, n) ∷ d) h = ground (arith, get_or-zero k d)

-- A reader finds the counter of each reason under its code.
pub get_or-as_dict :
    (counts : Dict String ℕ) (q : Reason)
    → get_or (reason_code q) 0 (as_dict counts) ≡ get_or (attr_name q) 0 counts
unfolding as_dict
get_or-as_dict counts q = elim (Bool-cases (all_zero (rows counts))) [
  | inl h ↦
      rw (h, as_dict)
        (unfold get_or get in
          sym (sym (get_or-rows counts q) ∙ get_or-zero (reason_code q) (rows counts) h))
  | inr h ↦ rw (h, as_dict) (get_or-rows counts q)
]
