-- ===== src/FrameEval/BytecodeSafety.antt =====
-- dapper/_frame_eval/bytecode_safety.py: the checks on modified bytecode before it is used. The
-- opcodes of the interpreter, and what `dis` says of a code object, are arguments.
pub mod Validation
use dapper.Base.{
  ℕ, ◌+◌, ◌-◌, ◌%◌, Bool, true, false, not, Option, none, some, List, [], ◌∷◌, ◌++◌, if◌then◌else◌,
  ltb, nat_beq, nat_eq, length, contains, is_empty,
}
use dapper.Base.Text.{Codes}
use dapper.FrameEval.Telemetry.{Telemetry, note_reason, bytecode_injection_failed}

-- The stack size is `none` where the attribute is missing.
pub record CodeObject : Type 0 where
  pub co_code : List ℕ
  pub co_stacksize : Option ℕ
  pub co_filename : Codes
  pub co_name : Codes

pub data Implausible : Type 0 where
  misaligned : ℕ → Implausible
  invalid_opcode : ℕ → ℕ → Implausible

pub data SafetyError : Type 0 where
  not_decodable : Implausible → SafetyError
  dis_failed : Codes → SafetyError
  decreased : ℕ → ℕ → SafetyError
  grew : ℕ → ℕ → ℕ → SafetyError
  no_stacksize : SafetyError

pub record SafetyConfig : Type 0 where
  pub validate_decodable : Option Bool
  pub validate_stacksize : Option Bool
  pub max_stacksize_delta : Option ℕ

abbrev pub default_max_stacksize_delta : ℕ
default_max_stacksize_delta = 16

abbrev pub or_default {ℓ} : {A : Type ℓ} → A → Option A → A
or_default default none = default
or_default default (some a) = a

-- The loop over the even offsets.
unfoldable pub scan : List ℕ → ℕ → List ℕ → Option Implausible
unfolding contains
scan valid_opcodes offset [] = none
scan valid_opcodes offset (opcode ∷ []) =
    if contains opcode valid_opcodes then none else some (invalid_opcode opcode offset)
scan valid_opcodes offset (opcode ∷ arg ∷ rest) =
    let later = scan valid_opcodes (offset + 2) rest in
    if contains opcode valid_opcodes then later else some (invalid_opcode opcode offset)

-- `_has_plausible_opcode_stream`, with the reason against it
unfoldable pub opcode_stream_error : List ℕ → List ℕ → Option Implausible
unfolding scan
opcode_stream_error valid_opcodes code_bytes =
    if nat_beq (length code_bytes % 2) 0
    then scan valid_opcodes 0 code_bytes
    else some (misaligned (length code_bytes))

unfoldable pub decoding_errors : Option Implausible → Option Codes → List SafetyError
decoding_errors (some reason) text = not_decodable reason ∷ []
decoding_errors none none = []
decoding_errors none (some text) = dis_failed text ∷ []

module _ (valid_opcodes : List ℕ) (dis_error : CodeObject → Option Codes) where
  unfoldable pub decodable_errors : CodeObject → List SafetyError
  unfolding opcode_stream_error decoding_errors
  decodable_errors modified =
      decoding_errors (opcode_stream_error valid_opcodes modified.co_code) (dis_error modified)

  unfoldable pub size_errors : ℕ → ℕ → ℕ → List SafetyError
  size_errors max_delta original modified =
      if ltb modified original
      then decreased original modified ∷ []
      else if ltb max_delta (modified - original)
      then grew (modified - original) original modified ∷ []
      else []

  unfoldable pub stacksize_errors : ℕ → Option ℕ → Option ℕ → List SafetyError
  unfolding size_errors
  stacksize_errors max_delta (some original) (some modified) =
      size_errors max_delta original modified
  stacksize_errors max_delta original modified = no_stacksize ∷ []

  unfoldable pub validate_code_object : CodeObject → CodeObject → SafetyConfig → List SafetyError
  unfolding decodable_errors stacksize_errors
  validate_code_object original modified config =
      (if or_default true config.validate_decodable then decodable_errors modified else [])
      ++ (if or_default true config.validate_stacksize
          then stacksize_errors (or_default default_max_stacksize_delta config.max_stacksize_delta)
              original.co_stacksize modified.co_stacksize
          else [])

  -- The context of the event that is recorded names the code and the errors.
  unfoldable pub safe_replace_code :
      Telemetry (Codes × Codes × List SafetyError)
      → ℕ
      → CodeObject
      → CodeObject
      → SafetyConfig
      → (Bool × CodeObject) × Telemetry (Codes × Codes × List SafetyError)
  unfolding validate_code_object note_reason
  safe_replace_code t now original modified config =
      let errors = validate_code_object original modified config in
      if is_empty errors then ((true, modified), t) else (
        (false, original),
        note_reason t now bytecode_injection_failed
            (original.co_filename, original.co_name, errors),
      )
