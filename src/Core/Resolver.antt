-- ===== src/Core/Resolver.antt =====
-- dapper/core/breakpoint_resolver.py: `BreakpointResolver`.
pub mod Decision
pub mod Dictionaries
use dapper.Base.{
  ℕ, ◌+◌, Bool, true, false, not, ◌&&◌, Option, none, some, List, [], ◌∷◌, is_empty, if◌then◌else◌,
}
use dapper.Base.Text.{Codes, codes}
use dapper.Shared.Policy.{Interpreter, Evaluation, value, evaluate_with_policy}
use dapper.Core.HitCondition.{evaluate_hit_condition}
use dapper.Core.LogMessage.{format_log_message}

pub data ResolveAction : Type 0 where
  stop continue skip : ResolveAction

pub data Reason : Type 0 where
  no_conditions hit_condition_not_met condition_not_met logpoint conditions_met : Reason

-- A field of the metadata: `None`, a text, or a value of another type, with its truth.
pub data Setting : Type 0 where
  absent : Setting
  text : Codes → Setting
  other : Bool → Setting

unfoldable pub is_set : Setting → Bool
is_set absent = false
is_set (text s) = not (is_empty s)
is_set (other truth) = truth

pub record BreakpointMeta : Type 0 where
  pub condition : Setting
  pub hit_condition : Setting
  pub log_message : Setting
  pub hit_count : ℕ

unfoldable pub increment_hit : BreakpointMeta → BreakpointMeta
increment_hit meta = record meta { hit_count = meta.hit_count + 1 }

pub record ResolveResult : Type 0 where
  pub action : ResolveAction
  pub reason : Reason
  pub log_output : Setting

unfoldable pub should_stop_now : ResolveResult → Bool
should_stop_now r = elim (r.action) [ stop ↦ true | continue ↦ false | skip ↦ false ]

unfoldable pub should_continue : ResolveResult → Bool
should_continue r = elim (r.action) [ continue ↦ true | stop ↦ false | skip ↦ false ]

-- `evaluate_hit_condition` passes what is no text, as the exception is caught.
unfoldable pub passes_hit : Setting → ℕ → Bool
unfolding evaluate_hit_condition
passes_hit (text s) hit_count = evaluate_hit_condition s hit_count
passes_hit absent hit_count = true
passes_hit (other truth) hit_count = true

-- What a resolution gives: the result, the metadata with its count, and what was emitted.
pub record Resolution : Type 0 where
  pub result : ResolveResult
  pub meta : Option BreakpointMeta
  pub emitted : List Setting

-- `truth` and `show` are `bool` and `str` of a value, which may raise.
module _ (python : Interpreter) (truth : python.V → Option Bool)
    (show : python.V → Option Codes) where
  open python use {Frame, V}

  unfoldable pub holds : Evaluation V → Bool
  holds (value v) = elim (truth v) [ none ↦ false | some b ↦ b ]
  holds _ = false

  unfoldable pub evaluate_condition : Setting → Option Frame → Bool
  unfolding holds
  evaluate_condition condition none = false
  evaluate_condition (text s) (some frame) = holds (evaluate_with_policy python s (some frame) true)
  evaluate_condition absent (some frame) = false
  evaluate_condition (other b) (some frame) = false

  unfoldable pub shown : Evaluation V → Codes
  shown (value v) = elim (show v) [ none ↦ codes "<error>" | some s ↦ s ]
  shown _ = codes "<error>"

  unfoldable pub render_log_message : Setting → Option Frame → Setting
  unfolding shown
  render_log_message template none = template
  render_log_message (text s) (some frame) =
      text (format_log_message (λ e. shown (evaluate_with_policy python e (some frame) true)) s)
  render_log_message absent (some frame) = absent
  render_log_message (other b) (some frame) = other b

  -- `emits` says whether a callback for output was given.
  unfoldable pub resolve_counted : BreakpointMeta → Option Frame → Bool → Resolution
  resolve_counted meta frame emits =
      if is_set meta.hit_condition && not (passes_hit meta.hit_condition meta.hit_count)
      then record {
        result = record { action = continue; reason = hit_condition_not_met; log_output = absent };
        meta = some meta;
        emitted = [];
      }
      else if is_set meta.condition && not (evaluate_condition meta.condition frame)
      then record {
        result = record { action = continue; reason = condition_not_met; log_output = absent };
        meta = some meta;
        emitted = [];
      }
      else if is_set meta.log_message
      then record {
        result = record {
          action = continue;
          reason = logpoint;
          log_output = render_log_message meta.log_message frame;
        };
        meta = some meta;
        emitted = if emits then render_log_message meta.log_message frame ∷ [] else [];
      }
      else record {
        result = record { action = stop; reason = conditions_met; log_output = absent };
        meta = some meta;
        emitted = [];
      }

  unfoldable pub resolve : Option BreakpointMeta → Option Frame → Bool → Bool → Resolution
  unfolding increment_hit resolve_counted
  resolve none frame emits auto_increment_hit = record {
    result = record { action = stop; reason = no_conditions; log_output = absent };
    meta = none;
    emitted = [];
  }
  resolve (some meta) frame emits auto_increment_hit =
      resolve_counted (if auto_increment_hit then increment_hit meta else meta) frame emits

  unfoldable pub should_stop : Option BreakpointMeta → Option Frame → Bool → Bool
  unfolding should_stop_now resolve
  should_stop meta frame emits = should_stop_now (resolve meta frame emits true).result
