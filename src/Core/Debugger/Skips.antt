-- ===== src/Core/Debugger/Skips.antt =====
-- What the watches make of a line in `user_line` of dapper/core/debugger_bdb.py.
use dapper.Base.{
  ◌≡◌, refl, ap, sym, ◌∙◌, String, Bool, true, false, not, ◌&&◌, Option, some, List, arith,
  is_empty, Option-cases, inl, inr,
}
use dapper.Core.DataBreakpoints.Expressions.{check_expression_changes}
use dapper.Core.Debugger.{
  set_continue, World, Frame, Debugger, returned, check_data_watch_changes, update_watch_snapshots,
  is_event_loop_file,
}
use dapper.Core.Debugger.Lines.{
  user_line, arrive, at_user_line, line_or_step, report_changes, has_explicit_breakpoint,
  has_line_breakpoint, after_watches, handle_regular_breakpoint,
}

module _ (world : World) (d : Debugger world) (frame : Frame world) where
  -- The handler goes on to the watches: the line is not one of the event loop during an
  -- asynchronous
  -- step, nor one of code that is not the user's and has no explicit breakpoint.
  abbrev pub is_reached : Bool
  is_reached =
      not (d.controller.async_step_over && is_event_loop_file frame.filename)
      && not (
          d.just_my_code
          && not (world.is_user_file frame.filename)
          && not (has_explicit_breakpoint world d frame))

  -- The watches that have changed at the line, none where a comparison raises.
  abbrev pub changed_names : Option (List String)
  changed_names = check_data_watch_changes world d frame

  abbrev pub changed_expressions : Option (List String)
  changed_expressions =
      (check_expression_changes world.evaluator d.expressions frame.address frame.view).0

  abbrev pub snapshotted : Debugger world
  snapshotted =
      update_watch_snapshots world
        (record d {
          expressions =
              (check_expression_changes world.evaluator d.expressions frame.address frame.view).1;
        })
        frame

  abbrev both_empty : Option (List String) → Option (List String) → Bool
  both_empty (some names) (some es) = is_empty names && is_empty es
  both_empty _ _ = false

  -- Whether every watch is as it was, which none of the comparisons hinders.
  abbrev pub nothing_changed : Bool
  nothing_changed = both_empty changed_names changed_expressions

module _ (world : World) (process_commands : Debugger world → Debugger world) where
  pub user_line_reached :
      (d : Debugger world) (frame : Frame world)
      → is_reached world d frame ≡ true
      → user_line world process_commands d frame
        ≡ at_user_line world process_commands (arrive world d frame) frame
  unfolding user_line
  user_line_reached d frame h = ground arith

  pub after_changes :
      (names es : List String) (frame : Frame world) (d : Debugger world)
      → (is_empty names && is_empty es) ≡ false
      → after_watches world process_commands names es frame d
        ≡ report_changes world names es frame d
  unfolding after_watches
  after_changes names es frame d h = rw (h, after_watches) refl

  after_no_changes :
      (names es : List String) (frame : Frame world) (d : Debugger world)
      → (is_empty names && is_empty es) ≡ true
      → after_watches world process_commands names es frame d
        ≡ line_or_step world process_commands d frame
  unfolding after_watches
  after_no_changes names es frame d h = rw (h, after_watches) refl

  pub at_user_line_unchanged :
      (d : Debugger world) (frame : Frame world)
      → nothing_changed world d frame ≡ true
      → at_user_line world process_commands d frame
        ≡ line_or_step world process_commands (snapshotted world d frame) frame
  unfolding at_user_line
  at_user_line_unchanged d frame h = elim (Option-cases (changed_names world d frame)) [
    | inl e ↦ absurd (ground (arith, e))
    | inr (names, e) ↦ elim (Option-cases (changed_expressions world d frame)) [
      | inl k ↦ absurd (ground (arith, e, k))
      | inr (es, k) ↦
          rw (at_user_line, e, k)
            (after_no_changes names es frame (snapshotted world d frame) (ground (arith, e, k)))
    ]
  ]

-- The client's commands matter only where nothing has changed.
at_user_line_changed :
    (world : World) (p q : Debugger world → Debugger world) (d : Debugger world)
    (frame : Frame world)
    → nothing_changed world d frame ≡ false
    → at_user_line world p d frame ≡ at_user_line world q d frame
unfolding at_user_line
at_user_line_changed world p q d frame h = elim (Option-cases (changed_names world d frame)) [
  | inl e ↦ rw (at_user_line, e) refl
  | inr (names, e) ↦ elim (Option-cases (changed_expressions world d frame)) [
    | inl k ↦ rw (at_user_line, e, k) refl
    | inr (es, k) ↦
        let changed : (is_empty names && is_empty es) ≡ false = ground (arith, e, k) in
        rw (at_user_line, e, k)
          (after_changes world p names es frame (snapshotted world d frame) changed
            ∙ sym (after_changes world q names es frame (snapshotted world d frame) changed))
  ]
]

-- At a line that the handler reaches, where a watched variable or expression has changed or its
-- comparison raises, the result does not depend on what the client's commands would do: the debugger
-- does not wait for them, whether it reports a stop or not.
pub user_line_changed :
    (world : World) (p q : Debugger world → Debugger world) (d : Debugger world)
    (frame : Frame world)
    → is_reached world d frame ≡ true
    → nothing_changed world (arrive world d frame) frame ≡ false
    → user_line world p d frame ≡ user_line world q d frame
user_line_changed world p q d frame reached changed =
    user_line_reached world p d frame reached
    ∙ at_user_line_changed world p q (arrive world d frame) frame changed
    ∙ sym (user_line_reached world q d frame reached)

module _ (world : World) (p : Debugger world → Debugger world) (frame : Frame world)
    (d : Debugger world) where
  pub no_break_found :
      has_line_breakpoint world d frame.filename frame.line ≡ false
      → handle_regular_breakpoint world p d frame ≡ returned false d
  unfolding handle_regular_breakpoint
  no_break_found h = rw (h, handle_regular_breakpoint) refl

  no_stop :
      has_line_breakpoint world d frame.filename frame.line ≡ false
      → d.controller.stop_on_entry ≡ false
      → d.controller.stepping ≡ false
      → line_or_step world p d frame ≡ returned _ (set_continue world d)
  unfolding line_or_step
  no_stop h entry step = rw (line_or_step, no_break_found h, entry, step) refl

-- What going on leaves alone.
continue_keeps :
    (world : World) (d : Debugger world)
    → ((set_continue world d).sent ≡ d.sent)
      × ((set_continue world d).tracker ≡ d.tracker)
      × ((set_continue world d).bp_manager ≡ d.bp_manager)
      × ((set_continue world d).data_heap ≡ d.data_heap)
unfolding set_continue
continue_keeps world d = (ground arith, ground arith, ground arith, ground arith)

-- What the watches leave alone.
pub snapshot_keeps :
    (world : World) (d : Debugger world) (frame : Frame world)
    → ((snapshotted world d frame).sent ≡ d.sent)
      × ((snapshotted world d frame).tracker ≡ d.tracker)
      × ((snapshotted world d frame).bp_manager ≡ d.bp_manager)
      × ((snapshotted world d frame).controller ≡ d.controller)
      × ((snapshotted world d frame).data_heap ≡ d.data_heap)
unfolding update_watch_snapshots
snapshot_keeps world d frame = elim (Option-cases frame.locals) [
  | inl e ↦ rw (e, update_watch_snapshots) (refl, refl, refl, refl, refl)
  | inr (v, e) ↦ rw (e, update_watch_snapshots) (refl, refl, refl, refl, refl)
]

-- A line that the handler reaches, where no watch has changed and no breakpoint stands, while
-- neither a step nor the entry is asked for, never stops: the debugger goes on at once, the client
-- hears nothing, no thread counts as stopped that did not before, and no hit is counted in the
-- metadata of a breakpoint or of a watch.
pub user_line_quiet :
    (world : World) (p : Debugger world → Debugger world) (d : Debugger world) (frame : Frame world)
    → is_reached world d frame ≡ true
    → nothing_changed world (arrive world d frame) frame ≡ true
    → has_line_breakpoint world
        (snapshotted world (arrive world d frame) frame)
        frame.filename
        frame.line
      ≡ false
    → d.controller.stop_on_entry ≡ false
    → d.controller.stepping ≡ false
    → (e : Debugger world) × (user_line world p d frame ≡ returned _ (set_continue world e))
      × ((set_continue world e).sent ≡ d.sent)
      × ((set_continue world e).tracker ≡ d.tracker)
      × ((set_continue world e).bp_manager ≡ d.bp_manager)
      × ((set_continue world e).data_heap ≡ d.data_heap)
unfolding arrive
user_line_quiet world p d frame reached nothing no_break no_entry no_step =
    let e = snapshotted world (arrive world d frame) frame in
    let (sent, tracker, manager, controller, heap) =
      snapshot_keeps world (arrive world d frame) frame in
    let (sent', tracker', manager', heap') = continue_keeps world e in
    (
      e,
      user_line_reached world p d frame reached
          ∙ at_user_line_unchanged world p (arrive world d frame) frame nothing
          ∙ no_stop world p frame e no_break (ap (λ c. c.stop_on_entry) controller ∙ no_entry)
              (ap (λ c. c.stepping) controller ∙ no_step),
      sent' ∙ sent,
      tracker' ∙ tracker,
      manager' ∙ manager,
      heap' ∙ heap,
    )
