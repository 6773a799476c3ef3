-- ===== src/FrameEval/Tracer/Decisions.antt =====
-- When the selective tracer of dapper/_frame_eval/selective_tracer.py lets the debugger see a frame.
use dapper.Base.{
  ℕ, String, string_eq, nat_eq, Bool, true, false, Option, none, some, List, [], ◌∷◌, ◌≡◌, refl,
  sym, ap, ◌∙◌, inl, inr, arith, Bool-cases, Option-cases, contains, is_empty,
}
use dapper.Base.Text.{Codes}
use mathlib.Core.Option.{some-injective, none-ne-some}
use dapper.FrameEval.Conditions.{Evaluator, ConditionResult, evaluate}
use dapper.FrameEval.Conditions.Soundness.{IsCached, IsFalse, evaluate-IsSound}
use dapper.FrameEval.Tracer.{Host, Analyzer, ThreadInfo, CodeObject, Decision, FrameInfo}
use dapper.FrameEval.Tracer.Analysis.{
  count_frame, get_code_info, should_skip_code_location, look_up, with_breakpoints, on_breakpoint,
  after_condition, condition_at, trace, should_trace_code,
}

module _ (host : Host) where
  -- A line with a breakpoint is passed by: its condition is false in the frame.
  pub record IsMissed (a : Analyzer host.py.Code) (file : String) (lineno : ℕ)
      (frame : Option host.py.Frame) : Type 0 where
    pub condition : Codes
    pub has_condition : condition_at host a file lineno ≡ some condition
    pub at : host.py.Frame
    pub has_frame : frame ≡ some at
    pub result : ConditionResult
    pub is_false : IsFalse host.py condition at result

  pub should_trace_code-look_up :
      (a : Analyzer host.py.Code) (thread : ThreadInfo host.py.Frame) (now elapsed : ℕ)
      (code : CodeObject) (lineno : ℕ) (frame : Option host.py.Frame) (allow : Bool)
      → should_skip_code_location host thread frame allow (get_code_info code lineno) ≡ none
      → should_trace_code host a thread now elapsed code lineno frame allow
        ≡ with_breakpoints host
            (look_up host (count_frame a) code.co_filename).1
            thread
            now
            elapsed
            code
            lineno
            frame
            (get_code_info code lineno)
            (look_up host (count_frame a) code.co_filename).0
  unfolding should_trace_code
  should_trace_code-look_up a thread now elapsed code lineno frame allow h =
      simp (h, should_trace_code) refl

  pub should_trace_code-skip :
      (a : Analyzer host.py.Code) (thread : ThreadInfo host.py.Frame) (now elapsed : ℕ)
      (code : CodeObject) (lineno : ℕ) (frame : Option host.py.Frame) (allow : Bool)
      (decision : Decision)
      → should_skip_code_location host thread frame allow (get_code_info code lineno)
        ≡ some decision
      → should_trace_code host a thread now elapsed code lineno frame allow
        ≡ some (decision, count_frame a)
  unfolding should_trace_code
  should_trace_code-skip a thread now elapsed code lineno frame allow decision h =
      simp (h, should_trace_code) refl

  contains-nonempty : (n : ℕ) (xs : List ℕ) → contains n xs ≡ true → is_empty xs ≡ false
  unfolding contains
  contains-nonempty n [] h = absurd (ground arith)
  contains-nonempty n (x ∷ xs) h = refl

  pub with_breakpoints-on :
      (a : Analyzer host.py.Code) (thread : ThreadInfo host.py.Frame) (now elapsed : ℕ)
      (code : CodeObject) (lineno : ℕ) (frame : Option host.py.Frame) (info : FrameInfo)
      (lines : List ℕ)
      → contains lineno lines ≡ true
      → with_breakpoints host a thread now elapsed code lineno frame info lines
        ≡ on_breakpoint host a now elapsed lineno info
            (condition_at host a code.co_filename lineno)
            frame
  unfolding with_breakpoints
  with_breakpoints-on a thread now elapsed code lineno frame info lines h =
      simp (contains-nonempty lineno lines h, h) refl

  after_condition-untraced :
      (a : Analyzer host.py.Code) (lineno : ℕ) (info : FrameInfo)
      (out : ConditionResult × Evaluator host.py.Code)
      → (after_condition host a lineno info out).0.should_trace ≡ false
      → out.0.passed ≡ false
  unfolding after_condition trace
  after_condition-untraced a lineno info (result, evaluator) h = elim (Bool-cases result.passed) [
    | inr p ↦ p
    | inl p ↦
        let still : (after_condition host a lineno info (result, evaluator)).0.should_trace ≡ true =
          simp p refl in
        absurd (ground arith)
  ]

  on_breakpoint-IsMissed :
      (a : Analyzer host.py.Code) (file : String) (now elapsed lineno : ℕ) (info : FrameInfo)
      (condition : Option Codes) (frame : Option host.py.Frame)
      (out : Decision × Analyzer host.py.Code)
      → IsCached host.py a.evaluator
      → condition_at host a file lineno ≡ condition
      → on_breakpoint host a now elapsed lineno info condition frame ≡ some out
      → out.0.should_trace ≡ false
      → IsMissed a file lineno frame
  unfolding on_breakpoint trace
  on_breakpoint-IsMissed a file now elapsed lineno info none frame out v c h u =
      absurd (ground (arith, ap (λ o. o) h))
  on_breakpoint-IsMissed a file now elapsed lineno info (some x) none out v c h u =
      absurd (ground (arith, ap (λ o. o) h))
  on_breakpoint-IsMissed a file now elapsed lineno info (some x) (some f) out v c h u =
      elim (Option-cases (evaluate host.py a.evaluator now x elapsed f)) [
        | inl e ↦
            let made : on_breakpoint host a now elapsed lineno info (some x) (some f) ≡ none =
              simp (e, on_breakpoint) refl in
            absurd (none-ne-some out (sym made ∙ h))
        | inr (found, e) ↦
            let after : Decision × Analyzer host.py.Code =
              after_condition host a lineno info found in
            let made : on_breakpoint host a now elapsed lineno info (some x) (some f) ≡ some after =
              simp (e, on_breakpoint) refl in
            let same : after.0.should_trace ≡ false =
              ap (λ o. o.0.should_trace) (some-injective after out (sym made ∙ h)) ∙ u in
            record {
              condition = x;
              has_condition = c;
              at = f;
              has_frame = refl;
              result = found.0;
              is_false =
                  (evaluate-IsSound host.py a.evaluator now x elapsed f found v e).skips
                    (after_condition-untraced a lineno info found same);
            }
      ]

  -- No breakpoint is missed: when the thread gives no reason to skip the code and the frame's
  -- line is one of the lines that the cache has for its file, the frame is left untraced only
  -- because the line has a condition, which compiles and evaluates to false in the frame.
  pub should_trace_code-misses :
      (a : Analyzer host.py.Code) (thread : ThreadInfo host.py.Frame) (now elapsed : ℕ)
      (code : CodeObject) (lineno : ℕ) (frame : Option host.py.Frame) (allow : Bool)
      (out : Decision × Analyzer host.py.Code)
      → IsCached host.py a.evaluator
      → should_skip_code_location host thread frame allow (get_code_info code lineno) ≡ none
      → contains lineno (look_up host a code.co_filename).0 ≡ true
      → should_trace_code host a thread now elapsed code lineno frame allow ≡ some out
      → out.0.should_trace ≡ false
      → IsMissed a code.co_filename lineno frame
  unfolding look_up count_frame condition_at
  should_trace_code-misses a thread now elapsed code lineno frame allow out v no_skip on h u =
      let a' : Analyzer host.py.Code = (look_up host (count_frame a) code.co_filename).1 in
      let info : FrameInfo = get_code_info code lineno in
      let missed =
        on_breakpoint-IsMissed a' code.co_filename now elapsed lineno info
          (condition_at host a' code.co_filename lineno) frame out v refl
          (sym (
              should_trace_code-look_up a thread now elapsed code lineno frame allow no_skip
              ∙ with_breakpoints-on a' thread now elapsed code lineno frame info
                  (look_up host (count_frame a) code.co_filename).0 on)
            ∙ h)
          u in
      record {
        condition = missed.condition;
        has_condition = missed.has_condition;
        at = missed.at;
        has_frame = missed.has_frame;
        result = missed.result;
        is_false = missed.is_false;
      }
