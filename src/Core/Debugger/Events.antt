-- ===== src/Core/Debugger/Events.antt =====
-- The handlers of `DebuggerBDB` for calls and exceptions, and its changes to the breakpoints.
use dapper.Base.{
  ◌==◌, ℕ, String, Bool, true, not, ◌&&◌, ◌||◌, Option, none, some, List, [], ◌∷◌, ◌++◌, nat_eq,
  string_eq, contains, is_empty, if◌then◌else◌,
}
use dapper.Base.Dict.{put, has, get_or}
use dapper.Base.Text.{Codes, codes, codes_eq}
use dapper.Core.Breakpoints.{
  Meta, record_line_breakpoint, clear_line_meta_for_file, set_custom_breakpoint,
  clear_custom_breakpoint, clear_all_custom_breakpoints, clear_function_breakpoints,
}
use dapper.Core.Exceptions.{is_enabled, should_break, store_exception_info}
use dapper.Core.Resolver.{Resolution, should_stop_now}
use dapper.Core.Stepping.{function_breakpoint, set_current_frame}
use dapper.Core.Threads.{
  get_frame, max_stack_depth, mark_stopped, build_stack_frames, store_stack_frames,
}
use dapper.Core.DataBreakpoints.{register_watches}
use dapper.Core.DataBreakpoints.Watching.{register_expression_watches}
use dapper.Core.Debugger.{
  objects, needs_tracing_active, World, Frame, Debugger, Outcome, returned, raised,
  exception_stopped, send, send_outputs, resolve_dict,
}
use dapper.Core.Debugger.Lines.{stop_and_wait}

-- `get_function_candidate_names`: of the name of the function, that of its module and that of the
-- class of its `self`, each of which may be missing.
unfoldable pub candidate_names : Codes → Codes → Option Codes → List Codes
candidate_names func module_name self_class =
    let dotted : Codes → Codes → Codes = λ a b. a ++ codes "." ++ b in
    let plain = func ∷ (if is_empty module_name then [] else dotted module_name func ∷ []) in
    elim self_class [
      | none ↦ plain
      | some name ↦
          if is_empty name
          then plain
          else plain
            ++ dotted name func
              ∷ (if is_empty module_name then [] else dotted module_name (dotted name func) ∷ [])
    ]

-- The first name of the list that is a candidate.
unfoldable pub match_name : List String → List Codes → Option String
unfolding contains
match_name [] candidates = none
match_name (name ∷ names) candidates =
    let rest = match_name names candidates in
    if contains (codes name) candidates then some name else rest

-- An exception, as the handler sees it in a frame.
pub record Exception (Info : Type 0) : Type 0 where
  pub mro : Option (List Codes)
  pub condition_holds : Codes → Bool
  pub may_handle : Option Bool
  pub info : Info
  pub exception_text : Codes

module _ (world : World) (process_commands : Debugger world → Debugger world) where
  open world use {is_user_file, path_name, memory, thread_id, Info}

  -- The metadata of a function breakpoint; the new count stays only where there is a dictionary.
  unfoldable pub write_function_meta : Debugger world → String → Meta → Debugger world
  unfolding has put
  write_function_meta d name meta =
      if has name d.bp_manager.function_meta
      then record d {
        bp_manager = record (d.bp_manager) {
          function_meta = put name meta d.bp_manager.function_meta;
        };
      }
      else d

  unfoldable pub at_function :
      Debugger world → Frame world → String → Option (Resolution × Meta) → Outcome world Unit
  unfolding write_function_meta send_outputs should_stop_now stop_and_wait
  at_function d frame name none = raised d
  at_function d frame name (some (resolution, meta)) =
      let d' = send_outputs world (write_function_meta d name meta) resolution.emitted in
      if should_stop_now resolution.result
      then returned _ (stop_and_wait world process_commands d' frame function_breakpoint none)
      else returned _ d'

  unfoldable pub user_call : Debugger world → Frame world → List Codes → Outcome world Unit
  unfolding match_name get_or resolve_dict at_function
  user_call d frame candidates =
      if is_empty d.bp_manager.function_names && is_empty d.bp_manager.function_meta
      then returned _ d
      else elim (match_name d.bp_manager.function_names candidates) [
        | none ↦ returned _ d
        | some name ↦
            at_function d frame name
              (resolve_dict world (get_or name [] d.bp_manager.function_meta) frame true)
      ]

  -- The stop at an exception; the thread is not announced here.
  unfoldable pub stop_at_exception : Debugger world → Frame world → Exception Info → Debugger world
  unfolding send set_current_frame mark_stopped build_stack_frames store_stack_frames
      store_exception_info
  stop_at_exception d frame exception =
      let (frames, tracker) =
        build_stack_frames path_name memory (mark_stopped d.tracker thread_id) (some frame.address)
          max_stack_depth in
      send world
        (record d {
          exceptions = store_exception_info d.exceptions thread_id exception.info;
          controller = set_current_frame d.controller frame.address;
          tracker = store_stack_frames tracker thread_id frames;
        })
        (exception_stopped thread_id exception.exception_text)

  unfoldable pub user_exception : Debugger world → Frame world → Exception Info → Debugger world
  unfolding should_break stop_at_exception
  user_exception d frame exception =
      if d.just_my_code && not (is_user_file frame.filename)
      then d
      else if should_break d.exceptions.config exception.condition_holds exception.mro
          exception.may_handle
      then process_commands (stop_at_exception d frame exception)
      else d

  -- `dispatch_exception`: whether `bdb` stops in the frame, whether the exception ends a generator,
  -- what `bdb.Bdb` would do, and whether the debugger is quitting, which raises `BdbQuit`.
  unfoldable pub dispatch_exception :
      (Debugger world → Outcome world Unit)
      → (world.Bdb → Bool)
      → Bool
      → Bool
      → Debugger world
      → Frame world
      → Exception Info
      → Outcome world Unit
  unfolding is_enabled user_exception
  dispatch_exception base quitting stops_here ends_generator d frame exception =
      let after = user_exception d frame exception in
      if is_enabled d.exceptions.config && not stops_here
      then (if ends_generator
          then returned _ d
          else if quitting after.bdb
          then raised after
          else returned _ after)
      else base d

module _ (world : World) where
  open world use {Bdb}

  unfoldable pub record_breakpoint :
      Debugger world → String → ℕ → Option String → Option String → Option String → Debugger world
  unfolding record_line_breakpoint
  record_breakpoint d path line condition hit_condition log_message = record d {
    bp_manager =
        record_line_breakpoint d.bp_manager path line condition hit_condition log_message [];
  }

  unfoldable pub clear_break_meta_for_file : Debugger world → String → Debugger world
  unfolding clear_line_meta_for_file
  clear_break_meta_for_file d path = record d {
    bp_manager = clear_line_meta_for_file d.bp_manager path;
  }

  -- `set_break` and `clear_break` are those of `bdb.Bdb`.
  unfoldable pub debugger_set_custom :
      (Bdb → String → ℕ → Option String → Bdb)
      → Debugger world
      → String
      → ℕ
      → Option String
      → Debugger world
  unfolding set_custom_breakpoint
  debugger_set_custom set_break d filename line condition = record d {
    bp_manager = set_custom_breakpoint d.bp_manager filename line condition;
    bdb = set_break d.bdb filename line condition;
  }

  unfoldable pub debugger_clear_custom :
      (Bdb → String → ℕ → Bdb) → Debugger world → String → ℕ → Debugger world
  unfolding clear_custom_breakpoint
  debugger_clear_custom clear_break d filename line =
      let (manager, cleared) = clear_custom_breakpoint d.bp_manager filename line in
      if cleared
      then record d { bp_manager = manager; bdb = clear_break d.bdb filename line }
      else d

  unfoldable pub debugger_clear_all_custom : Debugger world → Debugger world
  unfolding clear_all_custom_breakpoints
  debugger_clear_all_custom d = record d { bp_manager = clear_all_custom_breakpoints d.bp_manager }

  unfoldable pub clear_all_function_breakpoints : Debugger world → Debugger world
  unfolding clear_function_breakpoints
  clear_all_function_breakpoints d = record d {
    bp_manager = clear_function_breakpoints d.bp_manager;
  }

  -- `bdb_break_anywhere` is that of `bdb.Bdb`.
  unfoldable pub break_anywhere : (Bdb → Frame world → Bool) → Debugger world → Frame world → Bool
  unfolding needs_tracing_active
  break_anywhere bdb_break_anywhere d frame =
      needs_tracing_active world d || bdb_break_anywhere d.bdb frame

  -- The read watches of a monitoring backend are not told of.
  unfoldable pub register_data_watches :
      Debugger world
      → List String
      → List (String × ℕ)
      → List String
      → List (String × ℕ)
      → Debugger world
  unfolding register_watches register_expression_watches
  register_data_watches d names metas expressions expression_metas =
      let (watched, meta) =
        register_expression_watches world.evaluator d.expressions expressions expression_metas in
      record d {
        watches = register_watches (objects world) d.watches names metas;
        expressions = watched;
        expression_meta = meta;
      }

  -- The line that can be jumped to, for a frame that is known; a line below 1 is none.
  unfoldable pub goto_targets : Debugger world → ℕ → ℕ → List ℕ
  unfolding get_frame
  goto_targets d frame_id line = elim (get_frame d.tracker frame_id) [
    | none ↦ []
    | some frame ↦ if line == 0 then [] else line ∷ []
  ]
