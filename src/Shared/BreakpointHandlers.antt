-- ===== src/Shared/BreakpointHandlers.antt =====
-- dapper/shared/breakpoint_handlers.py: the commands that set breakpoints, over the model of the
-- debugger.
pub mod Recorded
pub mod Filters
use dapper.Base.{
  ℕ, zero, suc, String, Bool, true, false, not, ◌&&◌, Option, none, some, List, [], ◌∷◌, ◌++◌, map,
  ◌==◌, nat_eq, string_eq, contains, add, is_empty, if◌then◌else◌,
}
use dapper.Base.Dict.{Dict, get, put, has, get_or}
use dapper.Base.Text.{Codes}
use dapper.Core.Breakpoints.{Manager, Meta, refreshed}
use dapper.Core.Exceptions.{Config}
use dapper.Core.Debugger.{World, Debugger}
use dapper.Core.Debugger.Events.{
  record_breakpoint, clear_break_meta_for_file, clear_all_function_breakpoints,
}

-- A descriptor of the client: `line` or `name`, and what `_extract_bp_metadata` takes of it.
pub record LineArgument : Type 0 where
  pub line : ℕ
  pub condition : Option String
  pub hit_condition : Option String
  pub log_message : Option String

pub record FunctionArgument : Type 0 where
  pub name : Option String
  pub condition : Option String
  pub hit_condition : Option String
  pub log_message : Option String

-- `bdb.Bdb`: whether a break is verified, that is, neither refused with a text nor with an
-- exception, and the state after each call.
pub record BreakTable (world : World) : Type 0 where
  pub set_break : world.Bdb → String → ℕ → Option String → Bool × world.Bdb
  pub clear_break : world.Bdb → String → ℕ → world.Bdb
  pub clear_all_file_breaks : world.Bdb → String → world.Bdb

module _ (world : World) (table : BreakTable world) where
  open table use {set_break, clear_break, clear_all_file_breaks}

  unfoldable pub clear_lines : world.Bdb → String → List ℕ → world.Bdb
  clear_lines bdb key [] = bdb
  clear_lines bdb key (line ∷ lines) = clear_lines (clear_break bdb key line) key lines

  -- `_clear_for_key`
  unfoldable pub clear_for_key : world.Bdb → String → world.Bdb
  unfolding clear_lines get_or
  clear_for_key bdb key = clear_lines bdb key (get_or key [] (world.breaks bdb))

  unfoldable pub clear_breaks_for_file : Debugger world → String → Debugger world
  unfolding clear_for_key clear_break_meta_for_file
  clear_breaks_for_file d path =
      let canonical = world.canonic path in
      let first = clear_for_key d.bdb path in
      let second = if canonical == path then first else clear_for_key first canonical in
      clear_break_meta_for_file world
        (record d { bdb = clear_all_file_breaks (clear_all_file_breaks second path) canonical })
        path

  unfoldable pub clear_file_breakpoints : Debugger world → String → Debugger world
  unfolding clear_breaks_for_file clear_break_meta_for_file
  clear_file_breakpoints d path =
      clear_break_meta_for_file world (clear_breaks_for_file d path) path

  -- One descriptor: the answer for it, unless it has no line, and the debugger.
  unfoldable pub set_one : Debugger world → String → LineArgument → Bool × Debugger world
  unfolding record_breakpoint
  set_one d path bp =
      let (verified, bdb) = set_break d.bdb path bp.line bp.condition in
      (
        verified,
        record_breakpoint world (record d { bdb = bdb }) path bp.line bp.condition bp.hit_condition
            bp.log_message,
      )

  -- The loop over the descriptors.
  unfoldable pub set_all :
      Debugger world → String → List LineArgument → List (Bool × ℕ) × Debugger world
  unfolding set_one
  set_all d path [] = ([], d)
  set_all d path (bp ∷ bps) = elim (bp.line == 0) [
    | true ↦ set_all d path bps
    | false ↦
        let (verified, d') = set_one d path bp in
        let (answers, d'') = set_all d' path bps in ((verified, bp.line) ∷ answers, d'')
  ]

  -- The answers are `none` where there is no path or no debugger.
  unfoldable pub handle_set_breakpoints :
      Option (Debugger world)
      → Option String
      → List LineArgument
      → Option (List (Bool × ℕ)) × Option (Debugger world)
  unfolding clear_file_breakpoints set_all
  handle_set_breakpoints none path bps = (none, none)
  handle_set_breakpoints (some d) none bps = (none, some d)
  handle_set_breakpoints (some d) (some path) bps =
      if path == ""
      then (none, some d)
      else (let (answers, d') = set_all (clear_file_breakpoints d path) path bps in
          (some answers, some d'))

-- `_register_function_breakpoint`
unfoldable pub register_function : Manager → String → FunctionArgument → Manager
unfolding refreshed put get_or
register_function m name bp = record m {
  function_names = m.function_names ++ name ∷ [];
  function_meta =
      put name
        (refreshed bp.condition bp.hit_condition bp.log_message [] (get_or name [] m.function_meta))
        m.function_meta;
}

-- The name of a descriptor, where it has one that is not empty.
unfoldable pub name_of : FunctionArgument → Option String
name_of bp = elim (bp.name) [ none ↦ none | some s ↦ if s == "" then none else some s ]

unfoldable pub register_functions : Manager → List FunctionArgument → Manager
unfolding name_of register_function
register_functions m [] = m
register_functions m (bp ∷ bps) = elim (name_of bp) [
  | none ↦ register_functions m bps
  | some name ↦ register_functions (register_function m name bp) bps
]

-- `registered_names`
unfoldable pub registered_names : List FunctionArgument → List String
unfolding name_of add
registered_names [] = []
registered_names (bp ∷ bps) = elim (name_of bp) [
  | none ↦ registered_names bps
  | some name ↦ add name (registered_names bps)
]

unfoldable pub is_verified : List String → FunctionArgument → Bool
unfolding name_of contains
is_verified names bp = elim (name_of bp) [ none ↦ false | some name ↦ contains name names ]

module _ (world : World) where
  unfoldable pub handle_set_function_breakpoints :
      Option (Debugger world) → List FunctionArgument → Option (List Bool) × Option (Debugger world)
  unfolding clear_all_function_breakpoints register_functions registered_names is_verified
  handle_set_function_breakpoints none bps = (none, none)
  handle_set_function_breakpoints (some d) bps =
      let cleared = clear_all_function_breakpoints world d in
      (
        some (map (is_verified (registered_names bps)) bps),
        some (record cleared { bp_manager = register_functions cleared.bp_manager bps }),
      )

-- A member of "filterOptions": its "filterId" and its condition, where that is not empty.
pub record FilterOption : Type 0 where
  pub filter_id : String
  pub condition : Option Codes

-- The loop over the options: the filters and the conditions by filter.
unfoldable pub apply_options :
    List String
    → Dict String (Option Codes)
    → List FilterOption
    → List String × Dict String (Option Codes)
unfolding contains put
apply_options filters conditions [] = (filters, conditions)
apply_options filters conditions (o ∷ options) =
    apply_options
      (if not (o.filter_id == "") && not (contains o.filter_id filters)
        then filters ++ o.filter_id ∷ []
        else filters)
      (put o.filter_id o.condition conditions) options

unfoldable pub configure : List String → List FilterOption → Config → Config
unfolding apply_options contains get_or
configure filters options config =
    let (all_filters, conditions) = apply_options filters [] options in
    record {
      break_on_raised = contains "raised" all_filters;
      break_on_uncaught = contains "uncaught" all_filters;
      raised_condition = get_or "raised" none conditions;
      uncaught_condition = get_or "uncaught" none conditions;
    }

module _ (world : World) where
  -- Each filter that is asked for has an answer.
  unfoldable pub handle_set_exception_breakpoints :
      Option (Debugger world)
      → List String
      → List FilterOption
      → Option (List Bool) × Option (Debugger world)
  unfolding apply_options configure
  handle_set_exception_breakpoints none filters options = (none, none)
  handle_set_exception_breakpoints (some d) filters options = (
    some (map (λ f. true) (apply_options filters [] options).0),
    some (record d {
      exceptions = record (d.exceptions) { config = configure filters options d.exceptions.config };
    }),
  )
