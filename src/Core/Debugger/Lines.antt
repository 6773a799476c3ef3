-- ===== src/Core/Debugger/Lines.antt =====
-- The handlers of `DebuggerBDB` for the events of the trace. `process_commands` is an argument, as
-- the session gives it.
use dapper.Base.{
  ℕ, String, Bool, true, false, not, ◌&&◌, ◌||◌, Option, none, some, List, [], ◌∷◌, ◌++◌, ◌==◌,
  nat_eq, string_eq, pair_eq, contains, is_empty, if◌then◌else◌,
}
use dapper.Base.Dict.{get, get_or}
use dapper.Base.Text.{Codes, codes, codes_eq}
use dapper.Core.Breakpoints.{Meta, store, has_custom_breakpoint}
use dapper.Core.DataBreakpoints.Expressions.{check_expression_changes}
use dapper.Core.Resolver.{should_continue}
use dapper.Core.Stepping.{
  StopReason, data_breakpoint, breakpoint, instruction, consume_stop_state, set_async_step_over,
}
use dapper.Core.Threads.{clear_frames}
use dapper.Core.Debugger.{
  World, Frame, Debugger, Outcome, returned, raised, send_outputs, resolve_dict, set_continue,
  ensure_thread_registered, emit_stopped_event, stop_at, should_stop_for_data_breakpoint,
  should_stop_for_expression_breakpoint, check_data_watch_changes, update_watch_snapshots,
  is_event_loop_file,
}

module _ (world : World) where
  open world use {
    canonic, breaks, get_break, set_step, set_botframe, is_user_file, path_name, memory, thread_id,
    Info,
  }

  -- `int(line) in [... self.breaks.get(filename, [])]`
  unfoldable pub in_break_table : Debugger world → String → ℕ → Bool
  unfolding contains get_or
  in_break_table d filename line = contains line (get_or filename [] (breaks d.bdb))

  unfoldable pub has_line_breakpoint : Debugger world → String → ℕ → Bool
  unfolding in_break_table has_custom_breakpoint
  has_line_breakpoint d filename line =
      get_break d.bdb filename line
      || in_break_table d filename line
      || in_break_table d (canonic filename) line
      || has_custom_breakpoint d.bp_manager filename line
      || has_custom_breakpoint d.bp_manager (canonic filename) line

  -- The address of the metadata, under the name of the file or its canonical name.
  unfoldable pub line_meta_address : Debugger world → String → ℕ → Option ℕ
  unfolding get
  line_meta_address d filename line = elim (get (filename, line) d.bp_manager.line_meta) [
    | some r ↦ some r
    | none ↦
        if canonic filename == filename
        then none
        else get (canonic filename, line) d.bp_manager.line_meta
  ]

  unfoldable pub write_meta : Debugger world → ℕ → Meta → Debugger world
  unfolding store
  write_meta d r meta = record d {
    bp_manager = record (d.bp_manager) { heap = store d.bp_manager.heap r meta };
  }

  -- The explicit breakpoints for which code that is not the user's still stops.
  unfoldable pub has_explicit_breakpoint : Debugger world → Frame world → Bool
  unfolding has_custom_breakpoint
  has_explicit_breakpoint d frame =
      get_break d.bdb frame.filename frame.line
      || get_break d.bdb (canonic frame.filename) frame.line
      || (has_custom_breakpoint d.bp_manager frame.filename frame.line
          && not (frame.filename == ""))

  unfoldable pub report_variables : List String → Frame world → Debugger world → Outcome world Unit
  unfolding should_stop_for_data_breakpoint stop_at
  report_variables [] frame d = returned _ d
  report_variables (name ∷ names) frame d =
      elim (should_stop_for_data_breakpoint world d name frame (codes "write")) [
        | raised d' ↦ raised d'
        | returned false d' ↦ report_variables names frame d'
        | returned true d' ↦
            report_variables names frame
              (stop_at world d' frame data_breakpoint (some (codes name ++ codes " changed")))
      ]

  unfoldable pub report_expressions :
      List String → Frame world → Debugger world → Outcome world Unit
  unfolding should_stop_for_expression_breakpoint stop_at
  report_expressions [] frame d = returned _ d
  report_expressions (e ∷ es) frame d =
      elim (should_stop_for_expression_breakpoint world d e frame) [
        | raised d' ↦ raised d'
        | returned false d' ↦ report_expressions es frame d'
        | returned true d' ↦
            report_expressions es frame
              (stop_at world d' frame data_breakpoint (some (codes e ++ codes " changed")))
      ]

  -- The watches that changed are reported, and the line is left.
  unfoldable pub report_changes :
      List String → List String → Frame world → Debugger world → Outcome world Unit
  unfolding report_variables report_expressions
  report_changes names es frame d = elim (report_variables names frame d) [
    | raised d' ↦ raised d'
    | returned _ d' ↦ report_expressions es frame d'
  ]

  -- The user's code is reached: the asynchronous mode ends.
  unfoldable pub arrive : Debugger world → Frame world → Debugger world
  unfolding set_async_step_over
  arrive d frame = record d {
    controller = set_async_step_over d.controller false;
    bdb = set_botframe d.bdb frame.address;
  }

module _ (world : World) (process_commands : Debugger world → Debugger world) where
  open world use {set_step, is_user_file}

  -- The stop, and then the commands of the client.
  unfoldable pub stop_and_wait :
      Debugger world → Frame world → StopReason → Option Codes → Debugger world
  unfolding stop_at
  stop_and_wait d frame reason description =
      process_commands (stop_at world d frame reason description)

  unfoldable pub handle_resolved : Debugger world → Frame world → Bool → Debugger world
  unfolding set_continue stop_and_wait
  handle_resolved d frame continues =
      if continues then set_continue world d else stop_and_wait d frame breakpoint none

  unfoldable pub handle_regular_breakpoint : Debugger world → Frame world → Outcome world Bool
  unfolding has_line_breakpoint line_meta_address resolve_dict write_meta handle_resolved
      should_continue send_outputs
  handle_regular_breakpoint d frame = elim (has_line_breakpoint world d frame.filename frame.line) [
    | false ↦ returned false d
    | true ↦ elim (line_meta_address world d frame.filename frame.line) [
      | none ↦ returned true (handle_resolved d frame false)
      | some r ↦ elim (resolve_dict world (d.bp_manager.heap r) frame true) [
        | none ↦ raised d
        | some (resolution, meta) ↦ returned true (
            handle_resolved (send_outputs world (write_meta world d r meta) resolution.emitted)
              frame (should_continue resolution.result))
      ]
    ]
  ]

  -- The stop of a step or of the entry, which the controller accounts for.
  unfoldable pub step_stop : Debugger world → Frame world → Debugger world
  unfolding ensure_thread_registered consume_stop_state emit_stopped_event clear_frames
  step_stop d frame =
      let known = ensure_thread_registered world d in
      let (reason, controller) = consume_stop_state known.controller in
      let d' =
        process_commands
          (emit_stopped_event world (record known { controller = controller }) frame reason none) in
      record d' { tracker = clear_frames d'.tracker }

  -- After the watches: the breakpoints of the line, and then the step or the entry.
  unfoldable pub line_or_step : Debugger world → Frame world → Outcome world Unit
  unfolding handle_regular_breakpoint set_continue step_stop
  line_or_step d frame = elim (handle_regular_breakpoint d frame) [
    | raised d' ↦ raised d'
    | returned true d' ↦ returned _ d'
    | returned false d' ↦
        if not d'.controller.stop_on_entry && not d'.controller.stepping
        then returned _ (set_continue world d')
        else returned _ (step_stop d' frame)
  ]

  -- What the changes of the watches leave to do.
  unfoldable pub after_watches :
      List String → List String → Frame world → Debugger world → Outcome world Unit
  unfolding report_changes line_or_step
  after_watches names es frame d =
      if is_empty names && is_empty es
      then line_or_step d frame
      else report_changes world names es frame d

  unfoldable pub at_user_line : Debugger world → Frame world → Outcome world Unit
  unfolding check_data_watch_changes check_expression_changes update_watch_snapshots after_watches
  at_user_line d frame = elim (check_data_watch_changes world d frame) [
    | none ↦ raised d
    | some names ↦
        let found =
          check_expression_changes world.evaluator d.expressions frame.address frame.view in
        let known : Debugger world = record d { expressions = found.1 } in
        elim found.0 [
          | none ↦ raised known
          | some es ↦ after_watches names es frame (update_watch_snapshots world known frame)
        ]
  ]

  unfoldable pub user_line : Debugger world → Frame world → Outcome world Unit
  unfolding is_event_loop_file set_continue has_explicit_breakpoint arrive at_user_line
  user_line d frame =
      if d.controller.async_step_over && is_event_loop_file frame.filename
      then returned _ (set_continue world d)
      else if d.just_my_code
          && not (is_user_file frame.filename)
          && not (has_explicit_breakpoint world d frame)
      then returned _ (record d { bdb = set_step d.bdb })
      else at_user_line (arrive world d frame) frame

  unfoldable pub user_opcode : Debugger world → Frame world → Debugger world
  unfolding is_event_loop_file arrive step_stop
  user_opcode d frame = if not d.controller.stepping then d else elim (d.controller.granularity) [
    | instruction ↦
        if d.controller.async_step_over && is_event_loop_file frame.filename
        then d
        else step_stop (arrive world d frame) frame
    | _ ↦ d
  ]
