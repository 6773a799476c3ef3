-- ===== src/FrameEval/Conditions/Soundness.antt =====
-- `ConditionEvaluator` of dapper/_frame_eval/condition_evaluator.py: its cache never holds anything
-- but what `compile` makes, and it skips a breakpoint only for a condition that is false.
use dapper.Base.{
  ℕ, Bool, true, false, none, some, ◌≡◌, refl, sym, ap, ◌∙◌, ◌⊎◌, inl, inr, arith, Bool-cases,
  Option-cases, ◌==◌, ltb, ◌++◌,
}
use dapper.Base.Dict.{Dict, get, put, get-put}
use dapper.Base.Text.{Codes, codes, codes_eq}
use mathlib.Core.Path.{subst}
use mathlib.Core.Option.{some-injective, none-ne-some}
use dapper.FrameEval.Conditions.{
  Compilation, compiled, syntax_error, raised, Evaluation, truth, exception, Interpreter,
  CompiledCondition, ConditionResult, Evaluator, note_failure, store, compile_entry, get_compiled,
  finish, evaluate_compiled, evaluate, failed,
}

module _ (py : Interpreter) where
  -- An entry with code holds the code of its expression.
  abbrev pub IsOf : Codes → CompiledCondition py.Code → Type 0
  IsOf expression entry = (c : py.Code) → entry.code ≡ some c → py.compile expression ≡ compiled c

  abbrev pub IsCached : Evaluator py.Code → Type 0
  IsCached e =
      (expression : Codes) (entry : CompiledCondition py.Code)
      → get expression e.cache ≡ some entry
      → IsOf expression entry

  -- What a look-up gives: an entry of the expression, and a cache that is still one.
  record IsFound (e : Evaluator py.Code) (expression : Codes)
      (found : CompiledCondition py.Code × Evaluator py.Code) : Type 0 where
    entry : IsOf expression found.0
    cached : IsCached found.1
    same : found.1.enabled ≡ e.enabled

  put-IsCached :
      (d : Dict Codes (CompiledCondition py.Code)) (expression : Codes)
      (entry : CompiledCondition py.Code)
      → IsOf expression entry
      → ((x : Codes) (y : CompiledCondition py.Code) → get x d ≡ some y → IsOf x y)
      → (x : Codes) (y : CompiledCondition py.Code) → get x (put expression entry d) ≡ some y
      → IsOf x y
  put-IsCached d expression entry o all x y h = elim (Bool-cases (expression == x)) [
    | inl e ↦
        let same : some entry ≡ some y = ground (arith, get-put expression entry x d) in
        subst (λ z. IsOf z y) ((codes_eq.beq_iff expression x).0 e)
          (subst (IsOf expression) (some-injective entry y same) o)
    | inr e ↦ all x y (ground (arith, get-put expression entry x d))
  ]

  Compilation-cases :
      (r : Compilation py.Code)
      → ((c : py.Code) × (r ≡ compiled c))
        ⊎ (((message : Codes) × (r ≡ syntax_error message)) ⊎ (r ≡ raised))
  Compilation-cases (compiled c) = inl (c, refl)
  Compilation-cases (syntax_error message) = inr (inl (message, refl))
  Compilation-cases raised = inr (inr refl)

  store-IsFound :
      (e e' : Evaluator py.Code) (entry : CompiledCondition py.Code)
      → IsCached e
      → e'.cache ≡ e.cache
      → e'.enabled ≡ e.enabled
      → IsOf entry.expression entry
      → IsFound e entry.expression (store py e' entry)
  unfolding store
  store-IsFound e e' entry v same_cache same o = record {
    entry = o;
    cached = λ x y h.
        put-IsCached e.cache entry.expression entry o v x y
          (ap (λ d. get x (put entry.expression entry d)) (sym same_cache) ∙ h);
    same = same;
  }

  compile_entry-IsFound :
      (e : Evaluator py.Code) (now : ℕ) (expression : Codes)
      (found : CompiledCondition py.Code × Evaluator py.Code)
      → IsCached e
      → compile_entry py e now expression ≡ some found
      → IsFound e expression found
  unfolding compile_entry note_failure
  compile_entry-IsFound e now expression found v h =
      elim (Compilation-cases (py.compile expression)) [
        | inl (c, k) ↦
            let entry : CompiledCondition py.Code = record {
              expression = expression;
              code = some c;
              compile_error = none;
            } in
            let made : compile_entry py e now expression ≡ some (store py e entry) =
              rw (k, compile_entry) refl in
            subst (IsFound e expression) (some-injective (store py e entry) found (sym made ∙ h)) (
              store-IsFound e e entry v refl refl (λ c' j. k ∙ ap compiled (some-injective c c' j)))
        | inr (inl (message, k)) ↦
            let entry : CompiledCondition py.Code = record {
              expression = expression;
              code = none;
              compile_error = some (codes "SyntaxError: " ++ message);
            } in
            let e' : Evaluator py.Code =
              note_failure py e now (failed expression (codes "SyntaxError: " ++ message)) in
            let made : compile_entry py e now expression ≡ some (store py e' entry) =
              rw (k, compile_entry) refl in
            subst (IsFound e expression) (some-injective (store py e' entry) found (sym made ∙ h))
              (store-IsFound e e' entry v refl refl (λ c' j. absurd (ground arith)))
        | inr (inr k) ↦
            let made : compile_entry py e now expression ≡ none = rw (k, compile_entry) refl in
            absurd (none-ne-some found (sym made ∙ h))
      ]

  get_compiled-IsFound :
      (e : Evaluator py.Code) (now : ℕ) (expression : Codes)
      (found : CompiledCondition py.Code × Evaluator py.Code)
      → IsCached e
      → get_compiled py e now expression ≡ some found
      → IsFound e expression found
  unfolding get_compiled
  get_compiled-IsFound e now expression found v h = elim (Option-cases (get expression e.cache)) [
    | inl k ↦
        let made : get_compiled py e now expression ≡ compile_entry py e now expression =
          rw (k, get_compiled) refl in
        compile_entry-IsFound e now expression found v (sym made ∙ h)
    | inr (entry, k) ↦
        let made : get_compiled py e now expression ≡ some (entry, e) = rw (k, get_compiled) refl in
        subst (IsFound e expression) (some-injective (entry, e) found (sym made ∙ h))
          record { entry = v expression entry k; cached = v; same = refl }
  ]

  -- Why a condition does not pass.
  pub record IsFalse (expression : Codes) (frame : py.Frame) (r : ConditionResult) : Type 0 where
    pub code : py.Code
    pub compiles : py.compile expression ≡ compiled code
    pub is_false : py.eval code frame ≡ truth false
    pub no_fallback : r.fallback ≡ false

  Evaluation-cases :
      (r : Evaluation)
      → ((b : Bool) × (r ≡ truth b))
        ⊎ ((name : Codes) × (message : Codes) × (r ≡ exception name message))
  Evaluation-cases (truth b) = inl (b, refl)
  Evaluation-cases (exception name message) = inr (name, message, refl)

  finish-cache :
      (e : Evaluator py.Code) (now : ℕ) (expression : Codes) (elapsed : ℕ) (r : Evaluation)
      → (finish py e now expression elapsed r).1.cache ≡ e.cache
  unfolding finish note_failure
  finish-cache e now expression elapsed (exception name message) = refl
  finish-cache e now expression elapsed (truth b) = elim (Bool-cases (ltb e.budget elapsed)) [
    | inl h ↦ rw h refl
    | inr h ↦ rw h refl
  ]

  finish-passed :
      (e : Evaluator py.Code) (now : ℕ) (expression : Codes) (elapsed : ℕ) (r : Evaluation)
      → (finish py e now expression elapsed r).0.passed ≡ false
      → (r ≡ truth false) × ((finish py e now expression elapsed r).0.fallback ≡ false)
  unfolding finish
  finish-passed e now expression elapsed (exception name message) h = absurd (ground arith)
  finish-passed e now expression elapsed (truth b) h = (ap truth h, refl)

  -- What an evaluation promises of its result and of the evaluator after it.
  pub record IsSound (expression : Codes) (frame : py.Frame)
      (out : ConditionResult × Evaluator py.Code) : Type 0 where
    pub skips : out.0.passed ≡ false → IsFalse expression frame out.0
    pub cached : IsCached out.1

  evaluate_compiled-IsSound :
      (e : Evaluator py.Code) (now : ℕ) (expression : Codes) (elapsed : ℕ)
      (entry : CompiledCondition py.Code) (frame : py.Frame)
      → IsCached e
      → IsOf expression entry
      → IsSound expression frame (evaluate_compiled py e now expression elapsed entry frame)
  unfolding evaluate_compiled
  evaluate_compiled-IsSound e now expression elapsed entry frame v o =
      elim (Option-cases entry.code) [
        | inl k ↦
            rw (k, evaluate_compiled) record { skips = λ h. absurd (ground arith); cached = v }
        | inr (c, k) ↦
            rw (k, evaluate_compiled)
              record {
                skips = λ h.
                    let done = finish-passed e now expression elapsed (py.eval c frame) h in
                    record { code = c; compiles = o c k; is_false = done.0; no_fallback = done.1 };
                cached = λ x y h. v x y (
                    ap (get x) (sym (finish-cache e now expression elapsed (py.eval c frame))) ∙ h);
              }
      ]

  pub evaluate-IsSound :
      (e : Evaluator py.Code) (now : ℕ) (expression : Codes) (elapsed : ℕ) (frame : py.Frame)
      (out : ConditionResult × Evaluator py.Code)
      → IsCached e
      → evaluate py e now expression elapsed frame ≡ some out
      → IsSound expression frame out
  unfolding evaluate
  evaluate-IsSound e now expression elapsed frame out v h = elim (Bool-cases e.enabled) [
    | inr k ↦
        let r : ConditionResult = record {
          passed = true;
          fallback = true;
          error = none;
          elapsed = 0;
        } in
        let made : evaluate py e now expression elapsed frame ≡ some (r, e) =
          simp (k, evaluate) refl in
        subst (IsSound expression frame) (some-injective (r, e) out (sym made ∙ h))
          record { skips = λ j. absurd (ground arith); cached = v }
    | inl k ↦ elim (Option-cases (get_compiled py e now expression)) [
      | inl j ↦
          let made : evaluate py e now expression elapsed frame ≡ none =
            simp (k, j, evaluate) refl in
          absurd (none-ne-some out (sym made ∙ h))
      | inr (found, j) ↦
          let done : ConditionResult × Evaluator py.Code =
            evaluate_compiled py found.1 now expression elapsed found.0 frame in
          let made : evaluate py e now expression elapsed frame ≡ some done =
            simp (k, j, evaluate) refl in
          let is = get_compiled-IsFound e now expression found v j in
          subst (IsSound expression frame) (some-injective done out (sym made ∙ h)) (
            evaluate_compiled-IsSound found.1 now expression elapsed found.0 frame is.cached
              is.entry)
    ]
  ]
