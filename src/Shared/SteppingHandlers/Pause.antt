-- ===== src/Shared/SteppingHandlers/Pause.antt =====
-- dapper/shared/stepping_handlers.py: `handle_pause_impl`. `DebuggerBDB` has no method `pause`, so
-- that this call is left out.
use dapper.Base.{
  ℕ, ◌≡◌, refl, ap, ◌∙◌, ◌||◌, Option, none, some, [], ◌∷◌, ◌++◌, ◌==◌, nat_eq, contains-add,
  contains,
}
use dapper.Core.Stepping.{pause, set_current_frame}
use dapper.Core.Threads.{
  mark_stopped, is_stopped, build_stack_frames, store_stack_frames, max_stack_depth,
}
use dapper.Core.Debugger.{World, Debugger, stopped, send}
use dapper.Core.Debugger.Stops.{build_keeps}
use dapper.Shared.SteppingHandlers.{ThreadArgument, missing, number, readable, unreadable}

-- The thread to pause: that of the command where none is named, and none where `int` raises.
unfoldable pub paused_thread : ℕ → ThreadArgument → Option ℕ
paused_thread ident missing = some ident
paused_thread ident (number n) = some n
paused_thread ident (readable n) = some n
paused_thread ident unreadable = none

module _ (world : World) where
  -- The frames of a thread that runs, by `sys._current_frames`.
  unfoldable pub show_frames : Debugger world → ℕ → Option ℕ → Debugger world
  unfolding build_stack_frames store_stack_frames set_current_frame
  show_frames d thread_id none = d
  show_frames d thread_id (some frame) =
      let (frames, tracker) =
        build_stack_frames world.path_name world.memory d.tracker (some frame) max_stack_depth in
      record d {
        tracker = store_stack_frames tracker thread_id frames;
        controller = set_current_frame d.controller frame;
      }

  unfoldable pub pause_thread : Debugger world → (ℕ → Option ℕ) → ℕ → Debugger world
  unfolding show_frames mark_stopped send
  pause_thread d current_frames thread_id =
      send world
        (show_frames (record d { tracker = mark_stopped d.tracker thread_id }) thread_id
          (current_frames thread_id))
        (stopped thread_id pause none)

  unfoldable pub handle_pause :
      (ℕ → Option ℕ) → ℕ → ThreadArgument → Option (Debugger world) → Option (Debugger world)
  unfolding paused_thread pause_thread
  handle_pause current_frames ident thread none = none
  handle_pause current_frames ident thread (some d) = elim (paused_thread ident thread) [
    | none ↦ some d
    | some thread_id ↦ some (pause_thread d current_frames thread_id)
  ]

  frames_keep :
      (d : Debugger world) (thread_id : ℕ) (frame : Option ℕ)
      → ((show_frames d thread_id frame).bdb ≡ d.bdb)
        × (record ((show_frames d thread_id frame).controller) {
          current_frame = d.controller.current_frame;
        }
            ≡ d.controller)
        × ((show_frames d thread_id frame).sent ≡ d.sent)
        × ((show_frames d thread_id frame).tracker.stopped_thread_ids
            ≡ d.tracker.stopped_thread_ids)
  unfolding show_frames store_stack_frames set_current_frame
  frames_keep d thread_id none = (refl, refl, refl, refl)
  frames_keep d thread_id (some frame) =
      (refl, refl, refl, (build_keeps world.path_name world.memory d.tracker (some frame)).1)

pause_found :
    (world : World) (current_frames : ℕ → Option ℕ) (ident : ℕ) (thread : ThreadArgument)
    (d : Debugger world) (thread_id : ℕ)
    → paused_thread ident thread ≡ some thread_id
    → handle_pause world current_frames ident thread (some d)
      ≡ some (pause_thread world d current_frames thread_id)
unfolding handle_pause
pause_found world current_frames ident thread d thread_id h = rw (h, handle_pause) refl

-- A pause of a thread that is named by a number, or of the thread of the command, tells the client
-- that the thread has stopped, and counts it as stopped with no other; but `bdb` is told nothing,
-- and of the stepping controller at most the current frame changes: no step is asked for.
pub handle_pause_lem :
    (world : World) (current_frames : ℕ → Option ℕ) (ident : ℕ) (thread : ThreadArgument)
    (d : Debugger world) (thread_id other : ℕ)
    → paused_thread ident thread ≡ some thread_id
    → (d' : Debugger world) × (handle_pause world current_frames ident thread (some d) ≡ some d')
      × (d'.sent ≡ d.sent ++ stopped thread_id pause none ∷ [])
      × (is_stopped d'.tracker other ≡ (other == thread_id || is_stopped d.tracker other))
      × (d'.bdb ≡ d.bdb)
      × (record (d'.controller) { current_frame = d.controller.current_frame } ≡ d.controller)
unfolding pause_thread send is_stopped mark_stopped
handle_pause_lem world current_frames ident thread d thread_id other h =
    let marked : Debugger world = record d { tracker = mark_stopped d.tracker thread_id } in
    let (bdb, stepping, sent, ids) =
      frames_keep world marked thread_id (current_frames thread_id) in
    (
      pause_thread world d current_frames thread_id,
      pause_found world current_frames ident thread d thread_id h,
      ap (λ m. m ++ stopped thread_id pause none ∷ []) sent,
      ap (contains other) ids ∙ contains-add thread_id other d.tracker.stopped_thread_ids,
      bdb,
      stepping,
    )
