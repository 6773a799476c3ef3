-- ===== src/FrameEval/Compatibility.antt =====
-- dapper/_frame_eval/compatibility_policy.py: `FrameEvalCompatibilityPolicy`. The modules and the
-- variables of the environment are the lists of their names, and what the compiled evaluator says
-- of itself is an argument. A version is its major, minor and micro number.
pub mod Agreement
use dapper.Base.{
  ℕ, String, string_eq, Bool, true, false, not, ◌&&◌, ◌||◌, Option, none, some, List, [], ◌∷◌,
  if◌then◌else◌, ltb, nat_beq, contains, ◌==◌,
}

pub record Policy : Type 0 where
  pub min_python : ℕ × ℕ
  pub max_python : ℕ × ℕ
  pub supported_platforms : List String
  pub supported_architectures : List String
  pub incompatible_debuggers : List String
  pub incompatible_environment_vars : List String
  pub incompatible_coverage_tools : List String

abbrev pub default_policy : Policy
default_policy = record {
  min_python = (3, 9);
  max_python = (3, 14);
  supported_platforms = "Windows" ∷ "Linux" ∷ "Darwin" ∷ [];
  supported_architectures = "64bit" ∷ "32bit" ∷ [];
  incompatible_debuggers = "pydevd" ∷ "pdb" ∷ "ipdb" ∷ [];
  incompatible_environment_vars = "PYCHARM_HOSTED" ∷ "VSCODE_PID" ∷ [];
  incompatible_coverage_tools = "coverage" ∷ "pytest_cov" ∷ [];
}

-- The texts that say why something is not supported, with what they name.
pub data Reason : Type 0 where
  too_old too_new : ℕ × ℕ → Reason
  platform_not_supported : String → Reason
  platform_or_architecture_not_supported : String → String → Reason
  not_cpython incompatible_debugger incompatible_variable incompatible_tool : String → Reason
  capability_reason : String → Reason
  hook_unavailable : Reason

-- `a < b` on tuples
abbrev pub before : ℕ × ℕ → ℕ × ℕ → Bool
before a b = ltb a.0 b.0 || nat_beq a.0 b.0 && ltb a.1 b.1

-- What `get_frame_eval_capabilities` tells, where it can be asked: whether there is a hook, and
-- the reason that is given.
pub record Capabilities : Type 0 where
  pub supports_eval_frame_hook : Bool
  pub reason : Option String

pub record Runtime : Type 0 where
  pub version : ℕ × ℕ × ℕ
  pub platform_name : String
  pub platform_system : String
  pub architecture : String
  pub implementation : String
  pub modules : List String
  pub environ : List String
  pub capabilities : Option Capabilities

unfoldable pub is_supported_python : Policy → ℕ × ℕ × ℕ → Option Reason
is_supported_python p (major, minor, micro) =
    if before (major, minor) p.min_python
    then some (too_old p.min_python)
    else if before p.max_python (major, minor)
    then some (too_new p.max_python)
    else none

unfoldable pub is_supported_platform : Policy → String → String → Bool
unfolding contains
is_supported_platform p platform_system architecture =
    contains platform_system p.supported_platforms
    && contains architecture p.supported_architectures

-- `any(name in present for name in names)`
unfoldable pub any_present : List String → List String → Bool
unfolding contains
any_present [] present = false
any_present (name ∷ names) present = contains name present || any_present names present

-- `next((name for name in names if name in present), None)`
unfoldable pub first_present : List String → List String → Option String
unfolding contains
first_present [] present = none
first_present (name ∷ names) present =
    let rest = first_present names present in if contains name present then some name else rest

unfoldable pub is_incompatible_environment : Policy → List String → List String → Bool
unfolding any_present
is_incompatible_environment p modules environ =
    any_present p.incompatible_debuggers modules
    || any_present p.incompatible_environment_vars environ
    || any_present p.incompatible_coverage_tools modules

-- `none` for the empty text
unfoldable pub get_incompatible_environment_reason :
    Policy → List String → List String → Option Reason
unfolding first_present
get_incompatible_environment_reason p modules environ =
    elim (first_present p.incompatible_debuggers modules) [
      | some name ↦ some (incompatible_debugger name)
      | none ↦ elim (first_present p.incompatible_environment_vars environ) [
        | some name ↦ some (incompatible_variable name)
        | none ↦ elim (first_present p.incompatible_coverage_tools modules) [
          | some name ↦ some (incompatible_tool name)
          | none ↦ none
        ]
      ]
    ]

unfoldable pub is_supported_implementation : String → Option Reason
is_supported_implementation implementation =
    if implementation == "CPython" then none else some (not_cpython implementation)

unfoldable pub supports_eval_frame : Option Capabilities → Bool
supports_eval_frame none = false
supports_eval_frame (some c) = c.supports_eval_frame_hook

unfoldable pub get_eval_frame_unavailable_reason : Option Capabilities → Reason
get_eval_frame_unavailable_reason none = hook_unavailable
get_eval_frame_unavailable_reason (some c) = elim c.reason [
  | none ↦ hook_unavailable
  | some text ↦ if text == "" then hook_unavailable else capability_reason text
]

-- Why eval-frame cannot be used; `none` where it can.
unfoldable pub can_use_eval_frame : Policy → Runtime → Option Reason
unfolding is_supported_python is_supported_platform is_supported_implementation
    get_incompatible_environment_reason supports_eval_frame get_eval_frame_unavailable_reason
can_use_eval_frame p r = elim (is_supported_python p r.version) [
  | some reason ↦ some reason
  | none ↦
      if not (is_supported_platform p r.platform_system r.architecture)
      then some (platform_or_architecture_not_supported r.platform_system r.architecture)
      else (elim (is_supported_implementation r.implementation) [
        | some reason ↦ some reason
        | none ↦ elim (get_incompatible_environment_reason p r.modules r.environ) [
          | some reason ↦ some reason
          | none ↦
              if supports_eval_frame r.capabilities
              then none
              else some (get_eval_frame_unavailable_reason r.capabilities)
        ]
      ])
]

pub record Compatibility : Type 0 where
  pub compatible : Bool
  pub reason : Option Reason
  pub eval_frame_supported : Bool
  pub eval_frame_reason : Option Reason
  pub recommends_eval_frame : Bool

abbrev pub refused : Option Reason → Compatibility
refused reason = record {
  compatible = false;
  reason = reason;
  eval_frame_supported = false;
  eval_frame_reason = none;
  recommends_eval_frame = false;
}

abbrev pub is_none {ℓ} : {A : Type ℓ} → Option A → Bool
is_none none = true
is_none (some a) = false

-- The entries of the answer that repeat the arguments are left out.
unfoldable pub evaluate_environment : Policy → Runtime → Compatibility
unfolding is_supported_python is_supported_platform is_incompatible_environment
    get_incompatible_environment_reason can_use_eval_frame
evaluate_environment p r = elim (is_supported_python p r.version) [
  | some reason ↦ refused (some reason)
  | none ↦
      if not (is_supported_platform p r.platform_system r.architecture)
      then refused (some (platform_not_supported r.platform_name))
      else if is_incompatible_environment p r.modules r.environ
      then refused (get_incompatible_environment_reason p r.modules r.environ)
      else record {
        compatible = true;
        reason = none;
        eval_frame_supported = is_none (can_use_eval_frame p r);
        eval_frame_reason = can_use_eval_frame p r;
        recommends_eval_frame = is_none (can_use_eval_frame p r);
      }
]
