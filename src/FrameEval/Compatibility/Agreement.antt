-- ===== src/FrameEval/Compatibility/Agreement.antt =====
-- The answers of dapper/_frame_eval/compatibility_policy.py agree with each other.
use dapper.Base.{String, string_eq, not, List, [], ◌∷◌, ◌≡◌, refl, arith}
use dapper.FrameEval.Compatibility.{
  Policy, Runtime, is_none, any_present, first_present, is_incompatible_environment,
  get_incompatible_environment_reason, can_use_eval_frame, evaluate_environment,
}

any_present-first_present :
    (names present : List String)
    → any_present names present ≡ not (is_none (first_present names present))
unfolding any_present first_present
any_present-first_present [] present = refl
any_present-first_present (name ∷ names) present =
    ground (arith, any_present-first_present names present)

-- An environment counts as incompatible exactly when there is a reason to name.
pub is_incompatible_environment-reason :
    (p : Policy) (modules environ : List String)
    → is_incompatible_environment p modules environ
      ≡ not (is_none (get_incompatible_environment_reason p modules environ))
unfolding is_incompatible_environment get_incompatible_environment_reason
is_incompatible_environment-reason p modules environ = ground (
  arith,
  any_present-first_present p.incompatible_debuggers modules,
  any_present-first_present p.incompatible_environment_vars environ,
  any_present-first_present p.incompatible_coverage_tools modules,
)

-- The whole answer is one of a runtime that is refused with a reason, and then tracing is
-- recommended; or of one that is compatible, which then may use eval-frame exactly where no reason
-- stands against it, and eval-frame is recommended exactly there.
pub evaluate_environment_lem :
    (p : Policy) (r : Runtime)
    → let answer = evaluate_environment p r in
      (answer.compatible ≡ is_none answer.reason)
      × (answer.recommends_eval_frame ≡ answer.eval_frame_supported)
      × (answer.eval_frame_supported ≡ is_none (can_use_eval_frame p r))
unfolding evaluate_environment can_use_eval_frame
evaluate_environment_lem p r = (
  ground (arith, is_incompatible_environment-reason p r.modules r.environ),
  ground arith,
  ground (arith, is_incompatible_environment-reason p r.modules r.environ),
)
