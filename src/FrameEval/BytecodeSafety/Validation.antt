-- ===== src/FrameEval/BytecodeSafety/Validation.antt =====
-- Which bytecode dapper/_frame_eval/bytecode_safety.py lets through.
use dapper.Base.{
  ℕ, ◌+◌, ◌%◌, ◌≤◌, Bool, true, false, Option, none, some, List, [], ◌∷◌, ◌++◌, ◌≡◌, refl, inl, inr,
  ◌↔◌, arith, Bool-cases, if◌then◌else◌, nat_eq, length, contains, is_empty,
}
use mathlib.Core.Option.{some-injective, none-ne-some}
use dapper.Base.Text.{Codes}
use dapper.FrameEval.Telemetry.{Telemetry}
use dapper.FrameEval.BytecodeSafety.{
  CodeObject, SafetyError, SafetyConfig, or_default, default_max_stacksize_delta, scan,
  opcode_stream_error, decodable_errors, size_errors, stacksize_errors, decoding_errors,
  Implausible, validate_code_object, safe_replace_code,
}

-- Bytecode of two-byte words with known opcodes.
pub data IsWordcode (valid_opcodes : List ℕ) : List ℕ → Type 0 where
  done : IsWordcode valid_opcodes []
  word :
      (opcode arg : ℕ) (rest : List ℕ)
      → contains opcode valid_opcodes ≡ true
      → IsWordcode valid_opcodes rest
      → IsWordcode valid_opcodes (opcode ∷ arg ∷ rest)

IsWordcode-scan :
    (ops : List ℕ) (offset : ℕ) (bytes : List ℕ)
    → length bytes % 2 ≡ 0
    → scan ops offset bytes ≡ none
    → IsWordcode ops bytes
unfolding scan
IsWordcode-scan ops offset [] even h = done
IsWordcode-scan ops offset (op ∷ []) even h = absurd (omega arith)
IsWordcode-scan ops offset (op ∷ arg ∷ rest) even h =
    word op arg rest (ground arith)
      (IsWordcode-scan ops (offset + 2) rest (omega arith) (ground arith))

IsWordcode-even : (ops bytes : List ℕ) → IsWordcode ops bytes → length bytes % 2 ≡ 0
IsWordcode-even ops bytes done = omega arith
IsWordcode-even ops bytes (word op arg rest c w) = omega (arith, IsWordcode-even ops rest w)

scan-IsWordcode :
    (ops : List ℕ) (offset : ℕ) (bytes : List ℕ)
    → IsWordcode ops bytes
    → scan ops offset bytes ≡ none
unfolding scan
scan-IsWordcode ops offset bytes done = refl
scan-IsWordcode ops offset bytes (word op arg rest c w) =
    ground (arith, scan-IsWordcode ops (offset + 2) rest w)

opcode_stream_error_lem :
    (ops bytes : List ℕ) → (opcode_stream_error ops bytes ≡ none) ↔ IsWordcode ops bytes
unfolding opcode_stream_error
opcode_stream_error_lem ops bytes = (
  (λ h. IsWordcode-scan ops 0 bytes (ground arith) (ground arith)),
  (λ w. ground (arith, IsWordcode-even ops bytes w, scan-IsWordcode ops 0 bytes w)),
)

module _ (ops : List ℕ) (dis_error : CodeObject → Option Codes) where
  -- What the two checks ask for, each only where it is on.
  pub record IsSafe (config : SafetyConfig) (original modified : CodeObject) : Type 0 where
    pub decodable :
        or_default true config.validate_decodable ≡ true
        → IsWordcode ops modified.co_code × (dis_error modified ≡ none)
    pub bounded :
        or_default true config.validate_stacksize ≡ true
        → (before : ℕ) × (after : ℕ) × (original.co_stacksize ≡ some before)
          × (modified.co_stacksize ≡ some after)
          × (before ≤ after)
          × (after ≤ before + or_default default_max_stacksize_delta config.max_stacksize_delta)

  decoding_errors-none :
      (p : Option Implausible) (q : Option Codes)
      → (decoding_errors p q ≡ []) ↔ ((p ≡ none) × (q ≡ none))
  unfolding decoding_errors
  decoding_errors-none (some reason) q =
      ((λ h. absurd (ground arith)), (λ h. absurd (ground arith)))
  decoding_errors-none none none = ((λ h. (refl, refl)), (λ h. refl))
  decoding_errors-none none (some text) =
      ((λ h. absurd (ground arith)), (λ h. absurd (ground arith)))

  decodable_errors-none :
      (modified : CodeObject)
      → (decodable_errors ops dis_error modified ≡ [])
        ↔ (IsWordcode ops modified.co_code × (dis_error modified ≡ none))
  unfolding decodable_errors
  decodable_errors-none modified =
      let plain =
        decoding_errors-none (opcode_stream_error ops modified.co_code) (dis_error modified) in
      let wordcode = opcode_stream_error_lem ops modified.co_code in
      (
        (λ h. let both = plain.0 h in (wordcode.0 both.0, both.1)),
        (λ h. plain.1 (wordcode.1 h.0, h.1)),
      )

  abbrev IsBounded : ℕ → Option ℕ → Option ℕ → Type 0
  IsBounded most o m =
      (before : ℕ) × (after : ℕ) × (o ≡ some before)
      × (m ≡ some after)
      × (before ≤ after)
      × (after ≤ before + most)

  size_errors-none :
      (most o m : ℕ) → (size_errors ops dis_error most o m ≡ []) ↔ ((o ≤ m) × (m ≤ o + most))
  unfolding size_errors
  size_errors-none most o m = ground arith

  stacksize_errors-none :
      (most : ℕ) (o m : Option ℕ)
      → (stacksize_errors ops dis_error most o m ≡ []) ↔ IsBounded most o m
  unfolding stacksize_errors
  stacksize_errors-none most none m =
      ((λ h. absurd (ground arith)), (λ h. absurd (none-ne-some h.0 h.2)))
  stacksize_errors-none most (some o) none =
      ((λ h. absurd (ground arith)), (λ h. absurd (none-ne-some h.1 h.3)))
  stacksize_errors-none most (some o) (some m) = (
    (λ h. let b = (size_errors-none most o m).0 h in (o, m, refl, refl, b.0, b.1)),
    (λ h. (size_errors-none most o m).1 (
      omega (arith, some-injective o h.0 h.2, some-injective m h.1 h.3),
      omega (arith, some-injective o h.0 h.2, some-injective m h.1 h.3),
    )),
  )

  either-none :
      (b : Bool) (xs : List SafetyError) → ((if b then xs else []) ≡ []) ↔ (b ≡ true → xs ≡ [])
  either-none true xs = ((λ h _. h), (λ h. h refl))
  either-none false xs = ((λ h j. absurd (ground arith)), (λ h. refl))

  append-none : (xs ys : List SafetyError) → (xs ++ ys ≡ []) ↔ ((xs ≡ []) × (ys ≡ []))
  append-none [] ys = ((λ h. (refl, h)), (λ h. h.1))
  append-none (x ∷ xs) ys = ((λ h. absurd (ground arith)), (λ h. absurd (ground arith)))

  validate_code_object-none :
      (original modified : CodeObject) (config : SafetyConfig)
      → (validate_code_object ops dis_error original modified config ≡ [])
        ↔ IsSafe config original modified
  unfolding validate_code_object
  validate_code_object-none original modified config =
      let most = or_default default_max_stacksize_delta config.max_stacksize_delta in
      let sizes = stacksize_errors ops dis_error most original.co_stacksize modified.co_stacksize in
      let d = or_default true config.validate_decodable in
      let s = or_default true config.validate_stacksize in
      let first = either-none d (decodable_errors ops dis_error modified) in
      let second = either-none s sizes in
      let both =
        append-none (if d then decodable_errors ops dis_error modified else [])
          (if s then sizes else []) in
      let bound = stacksize_errors-none most original.co_stacksize modified.co_stacksize in
      (
        (λ h. record {
          decodable = λ on. (decodable_errors-none modified).0 (first.0 (both.0 h).0 on);
          bounded = λ on. bound.0 (second.0 (both.0 h).1 on);
        }),
        (λ safe. both.1 (
          first.1 (λ on. (decodable_errors-none modified).1 (safe.decodable on)),
          second.1 (λ on. bound.1 (safe.bounded on)),
        )),
      )

  is_empty_iff : (xs : List SafetyError) → (is_empty xs ≡ true) ↔ (xs ≡ [])
  is_empty_iff xs = ground arith

  abbrev Log : Type 0
  Log = Telemetry (Codes × Codes × List SafetyError)

  -- Modified bytecode is used exactly when it is safe: where the check is on, its words have
  -- known opcodes and `dis` reads it, and its stack is at least that of the original and larger
  -- by no more than the limit. Otherwise the original is used.
  pub safe_replace_code-IsSafe :
      (t : Log) (now : ℕ) (original modified : CodeObject) (config : SafetyConfig)
      → ((safe_replace_code ops dis_error t now original modified config).0.0 ≡ true
          → IsSafe config original modified)
        × (IsSafe config original modified
            → (safe_replace_code ops dis_error t now original modified config).0 ≡ (true, modified))
        × ((safe_replace_code ops dis_error t now original modified config).0.0 ≡ false
            → (safe_replace_code ops dis_error t now original modified config).0.1 ≡ original)
  unfolding safe_replace_code
  safe_replace_code-IsSafe t now original modified config =
      let errors = validate_code_object ops dis_error original modified config in
      let is = validate_code_object-none original modified config in
      elim (Bool-cases (is_empty errors)) [
        | inl h ↦
            simp h (
              (λ u. is.0 ((is_empty_iff errors).0 h)),
              (λ safe. refl),
              (λ u. absurd (ground arith)),
            )
        | inr h ↦ simp h (
          (λ u. absurd (ground arith)),
          (λ safe.
              let k : is_empty errors ≡ true = (is_empty_iff errors).1 (is.1 safe) in
              absurd (ground arith)),
          (λ u. refl),
        )
      ]
