-- ===== src/FrameEval/Telemetry/History.antt =====
-- The telemetry of dapper/_frame_eval/telemetry.py after any history of events.
use dapper.Base.{
  ℕ, suc, ◌+◌, ◌-◌, String, string_eq, nat_eq, true, List, [], ◌∷◌, ◌++◌, ◌≡◌, refl, sym, ap, ◌∙◌,
  inl, inr, arith, Bool-cases, if◌then◌else◌, ltb, length, last_of, last_of-append, drop, ◌==◌,
}
use mathlib.Core.List.{append_assoc, append-nil}
use dapper.Base.Dict.{Dict, get, get_or, has, put, get-put, has-put}
use dapper.FrameEval.Telemetry.{
  Reason, auto_integration_failed, cache_hit, cache_invalidation_breakpoint_change,
  cache_invalidation_config_change, cache_invalidation_file_reload, cache_miss,
  bytecode_injection_failed, bytecode_optimization_failed, bytecode_optimization_file_read_failed,
  bytecode_rollback, bytecode_eager_instrumentation, bytecode_cache_key_mismatch,
  modified_code_unavailable, integration_bdb_failed, integration_remove_failed, hot_reload_failed,
  hot_reload_succeeded, py_debugger_breakpoint_hook_failed, py_debugger_integration_failed,
  py_debugger_trace_hook_failed, selective_tracing_analysis_failed, reason_code, attr_name,
  no_counts, as_dict, Event, Telemetry, init, add_event, note, note_reason,
}
use dapper.FrameEval.Telemetry.Codes.{number, same-number, get_or-as_dict}

-- An event before it is recorded: the time, the reason and the context.
abbrev pub Given : Type 0 → Type 0
Given Context = ℕ × Reason × Context

zero_add : (n : ℕ) → 0 + n ≡ n
zero_add n = omega arith

get_or-put :
    (k : String) (v : ℕ) (j : String) (d : Dict String ℕ)
    → get_or j 0 (put k v d) ≡ (if k == j then v else get_or j 0 d)
unfolding get_or
get_or-put k v j d = ground (arith, get-put k v j d)

step-times :
    (k j : String) (d : Dict String ℕ) (n : ℕ)
    → (if k == j then get_or k 0 d + 1 else get_or j 0 d) + n
      ≡ get_or j 0 d + (if k == j then suc n else n)
step-times k j d n = elim (Bool-cases (k == j)) [
  | inl e ↦ rw e (omega (arith, ap (λ i. get_or i 0 d) ((string_eq.beq_iff k j).0 e)))
  | inr e ↦ rw e (omega arith)
]

has-no_counts : (q : Reason) → has (attr_name q) no_counts ≡ true
unfolding no_counts has get attr_name
has-no_counts auto_integration_failed = refl
has-no_counts cache_hit = refl
has-no_counts cache_invalidation_breakpoint_change = refl
has-no_counts cache_invalidation_config_change = refl
has-no_counts cache_invalidation_file_reload = refl
has-no_counts cache_miss = refl
has-no_counts bytecode_injection_failed = refl
has-no_counts bytecode_optimization_failed = refl
has-no_counts bytecode_optimization_file_read_failed = refl
has-no_counts bytecode_rollback = refl
has-no_counts bytecode_eager_instrumentation = refl
has-no_counts bytecode_cache_key_mismatch = refl
has-no_counts modified_code_unavailable = refl
has-no_counts integration_bdb_failed = refl
has-no_counts integration_remove_failed = refl
has-no_counts hot_reload_failed = refl
has-no_counts hot_reload_succeeded = refl
has-no_counts py_debugger_breakpoint_hook_failed = refl
has-no_counts py_debugger_integration_failed = refl
has-no_counts py_debugger_trace_hook_failed = refl
has-no_counts selective_tracing_analysis_failed = refl

get_or-no_counts : (q : Reason) → get_or (attr_name q) 0 no_counts ≡ 0
unfolding no_counts get get_or attr_name
get_or-no_counts auto_integration_failed = refl
get_or-no_counts cache_hit = refl
get_or-no_counts cache_invalidation_breakpoint_change = refl
get_or-no_counts cache_invalidation_config_change = refl
get_or-no_counts cache_invalidation_file_reload = refl
get_or-no_counts cache_miss = refl
get_or-no_counts bytecode_injection_failed = refl
get_or-no_counts bytecode_optimization_failed = refl
get_or-no_counts bytecode_optimization_file_read_failed = refl
get_or-no_counts bytecode_rollback = refl
get_or-no_counts bytecode_eager_instrumentation = refl
get_or-no_counts bytecode_cache_key_mismatch = refl
get_or-no_counts modified_code_unavailable = refl
get_or-no_counts integration_bdb_failed = refl
get_or-no_counts integration_remove_failed = refl
get_or-no_counts hot_reload_failed = refl
get_or-no_counts hot_reload_succeeded = refl
get_or-no_counts py_debugger_breakpoint_hook_failed = refl
get_or-no_counts py_debugger_integration_failed = refl
get_or-no_counts py_debugger_trace_hook_failed = refl
get_or-no_counts selective_tracing_analysis_failed = refl

module _ {Context : Type 0} where
  unfoldable pub record_all : Telemetry Context → List (Given Context) → Telemetry Context
  record_all t [] = t
  record_all t ((now, r, context) ∷ rest) = record_all (note_reason t now r context) rest

  abbrev event_of : Given Context → Event Context
  event_of (now, r, context) = record { timestamp = now; code = reason_code r; context = context }

  abbrev pub events : List (Given Context) → List (Event Context)
  events [] = []
  events (g ∷ rest) = event_of g ∷ events rest

  -- How many of some events have a reason.
  abbrev pub times : Reason → List (Given Context) → ℕ
  times r [] = 0
  times r ((now, q, context) ∷ rest) =
      if number q == number r then suc (times r rest) else times r rest

  add_event-last_of :
      (n : ℕ) (xs : List (Event Context)) (e : Event Context)
      → add_event (suc n) xs e ≡ last_of (suc n) (xs ++ e ∷ [])
  unfolding add_event
  add_event-last_of n xs e = elim (Bool-cases (ltb (suc n) (length (xs ++ e ∷ [])))) [
    | inl h ↦ rw h refl
    | inr h ↦
        let short : 0 ≡ length (xs ++ e ∷ []) - suc n = ground arith in
        rw h (ap (λ k. drop k (xs ++ e ∷ [])) short)
  ]

  record_all-recent :
      (t : Telemetry Context) (xs : List (Event Context)) (gs : List (Given Context)) (n : ℕ)
      → t.max_recent_events ≡ suc n
      → t.recent_events ≡ last_of (suc n) xs
      → (record_all t gs).recent_events ≡ last_of (suc n) (xs ++ events gs)
  unfolding record_all note_reason note
  record_all-recent t xs [] n m h = h ∙ ap (last_of (suc n)) (sym (append-nil xs))
  record_all-recent t xs ((now, r, context) ∷ gs) n m h =
      let e : Event Context = event_of (now, r, context) in
      record_all-recent (note_reason t now r context) (xs ++ e ∷ []) gs n m (
        ap (λ k. add_event k t.recent_events e) m
        ∙ add_event-last_of n t.recent_events e
        ∙ ap (λ l. last_of (suc n) (l ++ e ∷ [])) h
        ∙ last_of-append (suc n) xs (e ∷ []) (omega arith))
      ∙ ap (last_of (suc n)) (append_assoc xs (e ∷ []) (events gs))

  -- Each method has its counter.
  abbrev HasCounters : Telemetry Context → Type 0
  HasCounters t = (r : Reason) → has (attr_name r) t.reason_counts ≡ true

  note_reason-counts :
      (t : Telemetry Context) (now : ℕ) (r : Reason) (context : Context)
      → HasCounters t
      → (note_reason t now r context).reason_counts
        ≡ put (attr_name r) (get_or (attr_name r) 0 t.reason_counts + 1) t.reason_counts
  unfolding note_reason note
  note_reason-counts t now r context c = rw (c r) refl

  note_reason-HasCounters :
      (t : Telemetry Context) (now : ℕ) (r : Reason) (context : Context)
      → HasCounters t
      → HasCounters (note_reason t now r context)
  note_reason-HasCounters t now r context c q =
      ap (has (attr_name q)) (note_reason-counts t now r context c)
      ∙ ground (
        arith,
        has-put (attr_name r) (get_or (attr_name r) 0 t.reason_counts + 1) (attr_name q)
            t.reason_counts,
        c q,
      )

  record_all-counts :
      (t : Telemetry Context) (gs : List (Given Context)) (q : Reason)
      → HasCounters t
      → get_or (attr_name q) 0 (record_all t gs).reason_counts
        ≡ get_or (attr_name q) 0 t.reason_counts + times q gs
  unfolding record_all
  record_all-counts t [] q c = omega arith
  record_all-counts t ((now, r, context) ∷ gs) q c =
      record_all-counts (note_reason t now r context) gs q
        (note_reason-HasCounters t now r context c)
      ∙ ap (λ d. get_or (attr_name q) 0 d + times q gs) (note_reason-counts t now r context c)
      ∙ ap (λ n. n + times q gs)
          (get_or-put (attr_name r) (get_or (attr_name r) 0 t.reason_counts + 1) (attr_name q)
            t.reason_counts)
      ∙ step-times (attr_name r) (attr_name q) t.reason_counts (times q gs)
      ∙ ap
          (λ b.
            get_or (attr_name q) 0 t.reason_counts + (if b then suc (times q gs) else times q gs))
          (same-number r q)

  -- After any history the latest events are the last 50 of it. Of the reasons, each has a counter
  -- of its own, which is the number of its events in the whole history, and a code of its own,
  -- under which a reader finds this number; none stands for two.
  pub record_all-history :
      (gs : List (Given Context))
      → ((record_all init gs).recent_events ≡ last_of 50 (events gs))
        × ((q : Reason) → get_or (attr_name q) 0 (record_all init gs).reason_counts ≡ times q gs)
        × ((q : Reason)
            → get_or (reason_code q) 0 (as_dict (record_all init gs).reason_counts) ≡ times q gs)
  unfolding init
  record_all-history gs =
      let counted : (q : Reason)
          → get_or (attr_name q) 0 (record_all init gs).reason_counts ≡ times q gs =
        λ q.
          record_all-counts init gs q has-no_counts
          ∙ ap (λ n. n + times q gs) (get_or-no_counts q)
          ∙ zero_add (times q gs) in
      (
        record_all-recent init [] gs 49 refl refl,
        counted,
        (λ q. get_or-as_dict (record_all init gs).reason_counts q ∙ counted q),
      )
