-- ===== src/Core/Debugger/Hidden.antt =====
-- What `user_line` of dapper/core/debugger_bdb.py does with the breakpoints of a line where a watch
-- has changed.
use dapper.Base.{
  ℕ, ◌≡◌, refl, sym, ap, ◌∙◌, String, string_eq, Bool, true, false, some, List, [], ◌∷◌, ◌++◌,
  arith, All, All-append, inl, inr, Bool-cases, Option-cases, is_empty,
}
use dapper.Base.Text.{Codes, codes}
use dapper.Base.Dict.{get_or}
use mathlib.Core.List.{append_assoc, append-nil}
use dapper.Core.Breakpoints.{store}
use dapper.Core.Resolver.{should_stop_now}
use dapper.Core.Stepping.{data_breakpoint, StopReason}
use dapper.Core.Threads.{is_thread_registered}
use dapper.Core.Debugger.{
  World, Frame, Debugger, Outcome, returned, raised, Message, thread_started, stopped, send,
  resolve_dict, ensure_thread_registered, emit_stopped_event, stop_at, any_stops,
  should_stop_for_data_breakpoint, should_stop_for_expression_breakpoint, update_watch_snapshots,
}
use dapper.Core.Debugger.Access.{meta_matches_access_type}
use dapper.Core.Debugger.Lines.{
  user_line, arrive, at_user_line, report_changes, report_variables, report_expressions,
}
use dapper.Core.Debugger.Skips.{
  is_reached, nothing_changed, changed_names, changed_expressions, snapshotted, user_line_reached,
  after_changes,
}

-- What a client hears of a watch: of a thread, or of a stop for a data breakpoint.
abbrev pub is_data_stop : StopReason → Bool
is_data_stop data_breakpoint = true
is_data_stop _ = false

abbrev pub is_of_watch : Message → Bool
is_of_watch (thread_started thread_id name) = true
is_of_watch (stopped thread_id reason description) = is_data_stop reason
is_of_watch _ = false

module _ (world : World) where
  -- A state that has the breakpoints and the tracing of another, and whose client has heard no
  -- more than of watches.
  pub record IsAfter (d d' : Debugger world) : Type 0 where
    pub manager : d'.bp_manager ≡ d.bp_manager
    pub tracing : d'.bdb ≡ d.bdb
    pub heard : List Message
    pub sent : d'.sent ≡ d.sent ++ heard
    pub of_watches : All (λ m. is_of_watch m ≡ true) heard

  IsAfter-refl : (d : Debugger world) → IsAfter d d
  IsAfter-refl d = record {
    manager = refl;
    tracing = refl;
    heard = [];
    sent = sym (append-nil d.sent);
    of_watches = tt;
  }

  IsAfter-trans : {a b c : Debugger world} → IsAfter a b → IsAfter b c → IsAfter a c
  IsAfter-trans {a} {b} {c} h k = record {
    manager = k.manager ∙ h.manager;
    tracing = k.tracing ∙ h.tracing;
    heard = h.heard ++ k.heard;
    sent = k.sent ∙ ap (λ m. m ++ k.heard) h.sent ∙ append_assoc a.sent h.heard k.heard;
    of_watches = All-append (λ m. is_of_watch m ≡ true) h.heard k.heard h.of_watches k.of_watches;
  }

  -- The state that a call leaves, whether it returns or raises.
  abbrev pub state_of : {A : Type 0} → Outcome world A → Debugger world
  state_of (returned a d) = d
  state_of (raised d) = d

  known-IsAfter : (d : Debugger world) → IsAfter d (ensure_thread_registered world d)
  unfolding ensure_thread_registered send
  known-IsAfter d = elim (Bool-cases (is_thread_registered d.tracker world.thread_id)) [
    | inl h ↦ rw (h, ensure_thread_registered) (IsAfter-refl d)
    | inr h ↦
        rw (h, ensure_thread_registered)
          (record {
            manager = refl;
            tracing = refl;
            heard = thread_started world.thread_id world.thread_name ∷ [];
            sent = refl;
            of_watches = (refl, tt);
          })
  ]

  stop_at-IsAfter :
      (d : Debugger world) (frame : Frame world) (description : Codes)
      → IsAfter d (stop_at world d frame data_breakpoint (some description))
  unfolding stop_at emit_stopped_event send
  stop_at-IsAfter d frame description = IsAfter-trans (known-IsAfter d) (record {
    manager = refl;
    tracing = refl;
    heard = stopped world.thread_id data_breakpoint (some description) ∷ [];
    sent = refl;
    of_watches = (refl, tt);
  })

  any_stops-IsAfter :
      (applies : ℕ → Bool) (frame : Frame world) (metas : List ℕ) (d : Debugger world)
      → IsAfter d (state_of (any_stops world applies frame metas d))
  unfolding any_stops
  any_stops-IsAfter applies frame [] d = IsAfter-refl d
  any_stops-IsAfter applies frame (m ∷ metas) d = elim (Bool-cases (applies m)) [
    | inr h ↦ rw (h, any_stops) (any_stops-IsAfter applies frame metas d)
    | inl h ↦ elim (Option-cases (resolve_dict world (d.data_heap m) frame false)) [
      | inl k ↦ rw (h, k, any_stops) (IsAfter-refl d)
      | inr ((resolution, meta), k) ↦
          let d' : Debugger world = record d { data_heap = store d.data_heap m meta } in
          let counted : IsAfter d d' = record {
            manager = refl;
            tracing = refl;
            heard = [];
            sent = sym (append-nil d.sent);
            of_watches = tt;
          } in
          elim (Bool-cases (should_stop_now resolution.result)) [
            | inl stops ↦ rw (h, k, stops, any_stops) counted
            | inr stops ↦
                rw (h, k, stops, any_stops)
                  (IsAfter-trans counted (any_stops-IsAfter applies frame metas d'))
          ]
    ]
  ]

  data_stops-IsAfter :
      (d : Debugger world) (name : String) (frame : Frame world) (wanted : Codes)
      → IsAfter d (state_of (should_stop_for_data_breakpoint world d name frame wanted))
  unfolding should_stop_for_data_breakpoint
  data_stops-IsAfter d name frame wanted =
      elim (Bool-cases (is_empty (get_or name [] d.watches.watch_meta))) [
        | inl h ↦ rw (h, should_stop_for_data_breakpoint) (IsAfter-refl d)
        | inr h ↦
            rw (h, should_stop_for_data_breakpoint)
              (any_stops-IsAfter (λ m. meta_matches_access_type (world.access_type m) wanted) frame
                (get_or name [] d.watches.watch_meta) d)
      ]

  expression_stops-IsAfter :
      (d : Debugger world) (expression : String) (frame : Frame world)
      → IsAfter d (state_of (should_stop_for_expression_breakpoint world d expression frame))
  unfolding should_stop_for_expression_breakpoint
  expression_stops-IsAfter d expression frame =
      elim (Bool-cases (is_empty (get_or expression [] d.expression_meta))) [
        | inl h ↦ rw (h, should_stop_for_expression_breakpoint) (IsAfter-refl d)
        | inr h ↦
            rw (h, should_stop_for_expression_breakpoint)
              (any_stops-IsAfter (λ m. true) frame (get_or expression [] d.expression_meta) d)
      ]

  -- One round of either loop: what follows a verdict, given what follows the states after it.
  round-IsAfter :
      {d : Debugger world} (o : Outcome world Bool) (rest : Debugger world → Outcome world Unit)
      (frame : Frame world) (description : Codes)
      → ((e : Debugger world) → IsAfter e (state_of (rest e)))
      → IsAfter d (state_of o)
      → IsAfter d (
          state_of (elim o [
            | raised d' ↦ raised d'
            | returned false d' ↦ rest d'
            | returned true d' ↦ rest (stop_at world d' frame data_breakpoint (some description))
          ]))
  round-IsAfter (raised d') rest frame description k h = h
  round-IsAfter (returned false d') rest frame description k h = IsAfter-trans h (k d')
  round-IsAfter (returned true d') rest frame description k h = IsAfter-trans h (
      IsAfter-trans (stop_at-IsAfter d' frame description)
        (k (stop_at world d' frame data_breakpoint (some description))))

  report_variables-IsAfter :
      (names : List String) (frame : Frame world) (d : Debugger world)
      → IsAfter d (state_of (report_variables world names frame d))
  unfolding report_variables
  report_variables-IsAfter [] frame d = IsAfter-refl d
  report_variables-IsAfter (name ∷ names) frame d =
      round-IsAfter (should_stop_for_data_breakpoint world d name frame (codes "write"))
        (report_variables world names frame) frame (codes name ++ codes " changed")
        (report_variables-IsAfter names frame) (data_stops-IsAfter d name frame (codes "write"))

  report_expressions-IsAfter :
      (es : List String) (frame : Frame world) (d : Debugger world)
      → IsAfter d (state_of (report_expressions world es frame d))
  unfolding report_expressions
  report_expressions-IsAfter [] frame d = IsAfter-refl d
  report_expressions-IsAfter (e ∷ es) frame d =
      round-IsAfter (should_stop_for_expression_breakpoint world d e frame)
        (report_expressions world es frame) frame (codes e ++ codes " changed")
        (report_expressions-IsAfter es frame) (expression_stops-IsAfter d e frame)

  and_then :
      {d : Debugger world} (o : Outcome world Unit) (es : List String) (frame : Frame world)
      → IsAfter d (state_of o)
      → IsAfter d (
          state_of (elim o [
            | raised d' ↦ raised d'
            | returned _ d' ↦ report_expressions world es frame d'
          ]))
  and_then (raised d') es frame h = h
  and_then (returned u d') es frame h = IsAfter-trans h (report_expressions-IsAfter es frame d')

  report_changes-IsAfter :
      (names es : List String) (frame : Frame world) (d : Debugger world)
      → IsAfter d (state_of (report_changes world names es frame d))
  unfolding report_changes
  report_changes-IsAfter names es frame d =
      and_then (report_variables world names frame d) es frame
        (report_variables-IsAfter names frame d)

  snapshotted-IsAfter :
      (d : Debugger world) (frame : Frame world) → IsAfter d (snapshotted world d frame)
  unfolding update_watch_snapshots
  snapshotted-IsAfter d frame = elim (Option-cases frame.locals) [
    | inl e ↦ rw (e, update_watch_snapshots) (unchanged d _ refl refl refl)
    | inr (v, e) ↦ rw (e, update_watch_snapshots) (unchanged d _ refl refl refl)
  ]
    where
      unchanged :
          (a b : Debugger world)
          → b.bp_manager ≡ a.bp_manager
          → b.bdb ≡ a.bdb
          → b.sent ≡ a.sent
          → IsAfter a b
      unchanged a b m t s = record {
        manager = m;
        tracing = t;
        heard = [];
        sent = s ∙ sym (append-nil a.sent);
        of_watches = tt;
      }

  at_user_line-IsAfter :
      (p : Debugger world → Debugger world) (d : Debugger world) (frame : Frame world)
      → nothing_changed world d frame ≡ false
      → IsAfter d (state_of (at_user_line world p d frame))
  unfolding at_user_line
  at_user_line-IsAfter p d frame h = elim (Option-cases (changed_names world d frame)) [
    | inl e ↦ rw (at_user_line, e) (IsAfter-refl d)
    | inr (names, e) ↦ elim (Option-cases (changed_expressions world d frame)) [
      | inl k ↦
          rw (at_user_line, e, k)
            (record {
              manager = refl;
              tracing = refl;
              heard = [];
              sent = sym (append-nil d.sent);
              of_watches = tt;
            })
      | inr (es, k) ↦
          rw (at_user_line, e, k)
            (rw
              (after_changes world p names es frame (snapshotted world d frame)
                (ground (arith, e, k)))
              (IsAfter-trans (snapshotted-IsAfter d frame)
                (report_changes-IsAfter names es frame (snapshotted world d frame))))
    ]
  ]

-- At a line that the handler reaches, where a watched variable or expression has changed or its
-- comparison raises, the breakpoints of the line have no part, whatever breakpoints stand there and
-- whatever their conditions are: the breakpoints with their metadata stay as they were, so that no hit is counted;
-- the tracing is told nothing but that the frame is reached; and the client hears only of the thread
-- and of stops for data breakpoints.
pub watch-hides-breakpoint :
    (world : World) (p : Debugger world → Debugger world) (d : Debugger world) (frame : Frame world)
    → is_reached world d frame ≡ true
    → nothing_changed world (arrive world d frame) frame ≡ false
    → (heard : List Message) × ((state_of world (user_line world p d frame)).bp_manager
        ≡ d.bp_manager)
      × ((state_of world (user_line world p d frame)).bdb ≡ world.set_botframe d.bdb frame.address)
      × ((state_of world (user_line world p d frame)).sent ≡ d.sent ++ heard)
      × All (λ m. is_of_watch m ≡ true) heard
unfolding arrive
watch-hides-breakpoint world p d frame reached changed =
    let after = at_user_line-IsAfter world p (arrive world d frame) frame changed in
    let same = user_line_reached world p d frame reached in
    (
      after.heard,
      ap (λ o. (state_of world o).bp_manager) same ∙ after.manager,
      ap (λ o. (state_of world o).bdb) same ∙ after.tracing,
      ap (λ o. (state_of world o).sent) same ∙ after.sent,
      after.of_watches,
    )
