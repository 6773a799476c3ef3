-- ===== src/FrameEval/Tracer/Traced.antt =====
-- Which lines a frame is traced for by dapper/_frame_eval/selective_tracer.py.
use dapper.Base.{
  ℕ, String, string_eq, nat_eq, Bool, true, false, not, ◌&&◌, Option, none, some, List, [], ◌∷◌,
  ◌≡◌, refl, sym, ap, ◌∙◌, inl, inr, arith, Bool-cases, Option-cases, All, All-weaken, contains,
  is_empty, select, if◌then◌else◌,
}
use dapper.Base.Text.{Codes}
use mathlib.Core.Path.{subst}
use mathlib.Core.Option.{some-injective, none-ne-some}
use dapper.FrameEval.Conditions.{Evaluator, ConditionResult, evaluate}
use dapper.FrameEval.Tracer.{
  Host, Analyzer, ThreadInfo, CodeObject, Decision, FrameInfo, Reason, breakpoint_on_line,
  conditional_breakpoint_pending,
}
use dapper.FrameEval.Tracer.Analysis.{
  or_lines, count_frame, get_code_info, should_skip_code_location, check_skip_frame, look_up,
  with_breakpoints, on_breakpoint, off_breakpoint, after_condition, handle_no_breakpoints,
  condition_at, trace, should_trace_code, get_code_breakpoints, should_trace_function_for_step,
}
use dapper.FrameEval.Tracer.Decisions.{
  should_trace_code-look_up, should_trace_code-skip, with_breakpoints-on,
}

module _ (host : Host) where
  -- A decision that traces, for the lines with breakpoints of the file.
  abbrev IsTraced : List ℕ → Decision → Type 0
  IsTraced lines d =
      d.should_trace ≡ true
      → (is_empty d.breakpoint_lines ≡ false)
        × All (λ n. contains n lines ≡ true) d.breakpoint_lines

  trace-IsTraced :
      (a : Analyzer host.py.Code) (reason : Reason) (lineno : ℕ) (info : FrameInfo) (lines : List ℕ)
      → contains lineno lines ≡ true
      → IsTraced lines (trace host a reason (lineno ∷ []) info).0
  unfolding trace
  trace-IsTraced a reason lineno info lines c h = (refl, (c, tt))

  after_condition-IsTraced :
      (a : Analyzer host.py.Code) (lineno : ℕ) (info : FrameInfo)
      (out : ConditionResult × Evaluator host.py.Code) (lines : List ℕ)
      → contains lineno lines ≡ true
      → IsTraced lines (after_condition host a lineno info out).0
  unfolding after_condition trace
  after_condition-IsTraced a lineno info (result, evaluator) lines c =
      elim (Bool-cases (not result.passed && not result.fallback)) [
        | inl k ↦ simp k (λ h. absurd (ground arith))
        | inr k ↦ simp k (λ h. (refl, (c, tt)))
      ]

  on_breakpoint-IsTraced :
      (a : Analyzer host.py.Code) (now elapsed lineno : ℕ) (info : FrameInfo)
      (condition : Option Codes) (frame : Option host.py.Frame)
      (out : Decision × Analyzer host.py.Code) (lines : List ℕ)
      → contains lineno lines ≡ true
      → on_breakpoint host a now elapsed lineno info condition frame ≡ some out
      → IsTraced lines out.0
  unfolding on_breakpoint
  on_breakpoint-IsTraced a now elapsed lineno info none frame out lines c h =
      subst (λ o. IsTraced lines o.0) (some-injective _ out h)
        (trace-IsTraced a breakpoint_on_line lineno info lines c)
  on_breakpoint-IsTraced a now elapsed lineno info (some x) none out lines c h =
      subst (λ o. IsTraced lines o.0) (some-injective _ out h)
        (trace-IsTraced a conditional_breakpoint_pending lineno info lines c)
  on_breakpoint-IsTraced a now elapsed lineno info (some x) (some f) out lines c h =
      elim (Option-cases (evaluate host.py a.evaluator now x elapsed f)) [
        | inl e ↦
            let made : on_breakpoint host a now elapsed lineno info (some x) (some f) ≡ none =
              simp (e, on_breakpoint) refl in
            absurd (none-ne-some out (sym made ∙ h))
        | inr (found, e) ↦
            let after : Decision × Analyzer host.py.Code =
              after_condition host a lineno info found in
            let made : on_breakpoint host a now elapsed lineno info (some x) (some f) ≡ some after =
              simp (e, on_breakpoint) refl in
            subst (λ o. IsTraced lines o.0) (some-injective after out (sym made ∙ h))
              (after_condition-IsTraced a lineno info found lines c)
      ]

  select-contains :
      (p : ℕ → Bool) (lines : List ℕ) → All (λ n. contains n lines ≡ true) (select p lines)
  unfolding select contains
  select-contains p [] = tt
  select-contains p (x ∷ lines) =
      let rest =
        All-weaken {Q = λ n. contains n (x ∷ lines) ≡ true} (select p lines) (λ n h. ground arith)
          (select-contains p lines) in
      elim (Bool-cases (p x)) [
        | inl k ↦ rw k (ground (arith, nat_eq.beq_iff x x), rest)
        | inr k ↦ rw k rest
      ]

  select-either :
      (b : Bool) (p q : ℕ → Bool) (lines : List ℕ)
      → All (λ n. contains n lines ≡ true) (if b then select p lines else select q lines)
  select-either true p q lines = select-contains p lines
  select-either false p q lines = select-contains q lines

  get_code_breakpoints-contains :
      (code : CodeObject) (lines : List ℕ) (frame : Option host.py.Frame)
      → All (λ n. contains n lines ≡ true) (get_code_breakpoints host code lines frame)
  unfolding get_code_breakpoints
  get_code_breakpoints-contains code lines frame =
      select-either (not (is_empty (or_lines code.co_lines))) _ _ lines

  off_breakpoint-IsTraced :
      (a : Analyzer host.py.Code) (thread : ThreadInfo host.py.Frame) (code : CodeObject)
      (lines : List ℕ) (info : FrameInfo) (frame : Option host.py.Frame)
      → IsTraced lines (off_breakpoint host a thread code lines info frame).0
  unfolding off_breakpoint trace
  off_breakpoint-IsTraced a thread code lines info frame =
      elim (Bool-cases (
        not (is_empty (get_code_breakpoints host code lines frame))
        && should_trace_function_for_step host thread)) [
          | inl k ↦ simp k (λ h. (ground arith, get_code_breakpoints-contains code lines frame))
          | inr k ↦ simp k (λ h. absurd (ground arith))
        ]

  handle_no_breakpoints-untraced :
      (file : String) (info : FrameInfo)
      → (handle_no_breakpoints host file info).should_trace ≡ false
  unfolding handle_no_breakpoints
  handle_no_breakpoints-untraced file info = ground arith

  should_skip_code_location-untraced :
      (thread : ThreadInfo host.py.Frame) (frame : Option host.py.Frame) (allow : Bool)
      (info : FrameInfo) (d : Decision)
      → should_skip_code_location host thread frame allow info ≡ some d
      → d.should_trace ≡ false
  unfolding should_skip_code_location check_skip_frame
  should_skip_code_location-untraced thread none allow info d h = ground arith
  should_skip_code_location-untraced thread (some f) allow info d h = ground arith

  with_breakpoints-IsTraced :
      (a : Analyzer host.py.Code) (thread : ThreadInfo host.py.Frame) (now elapsed : ℕ)
      (code : CodeObject) (lineno : ℕ) (frame : Option host.py.Frame) (info : FrameInfo)
      (lines : List ℕ) (out : Decision × Analyzer host.py.Code)
      → with_breakpoints host a thread now elapsed code lineno frame info lines ≡ some out
      → IsTraced lines out.0
  unfolding with_breakpoints handle_no_breakpoints
  with_breakpoints-IsTraced a thread now elapsed code lineno frame info lines out h =
      elim (Bool-cases (is_empty lines)) [
        | inl e ↦
            let d : Decision = handle_no_breakpoints host code.co_filename info in
            let made : with_breakpoints host a thread now elapsed code lineno frame info lines
                ≡ some (d, a) =
              simp e refl in
            subst (λ o. IsTraced lines o.0) (some-injective (d, a) out (sym made ∙ h))
              (λ u. absurd (ground (arith, handle_no_breakpoints-untraced code.co_filename info)))
        | inr e ↦ elim (Bool-cases (contains lineno lines)) [
          | inl c ↦
              on_breakpoint-IsTraced a now elapsed lineno info
                (condition_at host a code.co_filename lineno) frame out lines c
                (sym (with_breakpoints-on host a thread now elapsed code lineno frame info lines c)
                  ∙ h)
          | inr c ↦
              let off : Decision × Analyzer host.py.Code =
                off_breakpoint host a thread code lines info frame in
              let made : with_breakpoints host a thread now elapsed code lineno frame info lines
                  ≡ some off =
                simp (e, c) refl in
              subst (λ o. IsTraced lines o.0) (some-injective off out (sym made ∙ h))
                (off_breakpoint-IsTraced a thread code lines info frame)
        ]
      ]

  -- Only frames of code with breakpoints are traced: a traced decision names at least one line,
  -- and every line that it names is one that the cache has for the file.
  pub should_trace_code-traced :
      (a : Analyzer host.py.Code) (thread : ThreadInfo host.py.Frame) (now elapsed : ℕ)
      (code : CodeObject) (lineno : ℕ) (frame : Option host.py.Frame) (allow : Bool)
      (out : Decision × Analyzer host.py.Code)
      → should_trace_code host a thread now elapsed code lineno frame allow ≡ some out
      → out.0.should_trace ≡ true
      → (is_empty out.0.breakpoint_lines ≡ false)
        × All (λ n. contains n (look_up host a code.co_filename).0 ≡ true) out.0.breakpoint_lines
  unfolding look_up count_frame
  should_trace_code-traced a thread now elapsed code lineno frame allow out h =
      elim (Option-cases
        (should_skip_code_location host thread frame allow (get_code_info code lineno))) [
          | inl k ↦
              with_breakpoints-IsTraced (look_up host (count_frame a) code.co_filename).1 thread now
                elapsed code lineno frame (get_code_info code lineno)
                (look_up host (count_frame a) code.co_filename).0 out
                (sym (should_trace_code-look_up host a thread now elapsed code lineno frame allow k)
                  ∙ h)
          | inr (decision, k) ↦
              let made =
                should_trace_code-skip host a thread now elapsed code lineno frame allow decision
                  k in
              let same = some-injective (decision, count_frame a) out (sym made ∙ h) in
              λ u. absurd (
                ground (
                  arith,
                  should_skip_code_location-untraced thread frame allow (get_code_info code lineno)
                      decision k,
                  ap (λ o. o.0.should_trace) same,
                ))
        ]
