-- ===== src/Shared/SteppingHandlers.antt =====
-- dapper/shared/stepping_handlers.py: the commands that let a stopped program go on, over the model
-- of the debugger.
pub mod Resume
pub mod Continue
pub mod Pause
use dapper.Base.{
  ℕ, String, Bool, true, false, not, ◌&&◌, ◌||◌, Option, none, some, ◌==◌, nat_eq, string_eq,
  contains, discard, is_empty, if◌then◌else◌,
}
use dapper.Core.Stepping.{
  Controller, instruction, raw, set_granularity, set_async_step_over, request_step,
}
use dapper.Core.Threads.{
  Tracker, max_stack_depth, mark_stopped, mark_continued, build_stack_frames, store_stack_frames,
}
use dapper.Core.Debugger.{World, Debugger, set_continue}

-- The "threadId" of the arguments: missing, a number, or another value, which `int` may read;
-- numbers that are no integers are outside.
pub data ThreadArgument : Type 0 where
  missing : ThreadArgument
  number : ℕ → ThreadArgument
  readable : ℕ → ThreadArgument
  unreadable : ThreadArgument

-- `int(thread_id) if thread_id is not None else None`, and `None` where `int` raises
unfoldable pub thread_of : ThreadArgument → Option ℕ
thread_of missing = none
thread_of (number n) = some n
thread_of (readable n) = some n
thread_of unreadable = none

-- `arguments.get("granularity") or "line"`
unfoldable pub granularity_argument : Option String → String
granularity_argument none = "line"
granularity_argument (some s) = if s == "" then "line" else s

-- What the handlers use of `bdb.Bdb` and of the frames, which are known by their addresses.
pub record Steps (world : World) : Type 0 where
  pub set_next : world.Bdb → ℕ → world.Bdb
  pub set_return : world.Bdb → ℕ → world.Bdb
  pub trace_opcodes : world.Bdb → ℕ → world.Bdb
  pub is_coroutine : ℕ → Bool

module _ (world : World) (steps : Steps world) where
  open steps use {set_next, set_return, trace_opcodes, is_coroutine}

  unfoldable pub remove_stopped : Debugger world → ℕ → Debugger world
  unfolding discard
  remove_stopped d thread_id = record d {
    tracker = record (d.tracker) {
      stopped_thread_ids = discard thread_id d.tracker.stopped_thread_ids;
    };
  }

  unfoldable pub handle_continue :
      Option (Debugger world) → ThreadArgument → Option (Debugger world)
  unfolding contains remove_stopped set_continue
  handle_continue none thread = none
  handle_continue (some d) (number n) =
      let resumed = remove_stopped d n in
      if contains n d.tracker.stopped_thread_ids
      then (if is_empty resumed.tracker.stopped_thread_ids
          then some (set_continue world resumed)
          else some resumed)
      else some d
  handle_continue (some d) thread = some d

  unfoldable pub thread_is_stopped : Debugger world → Option ℕ → Bool
  unfolding contains
  thread_is_stopped d none = false
  thread_is_stopped d (some tid) = contains tid d.tracker.stopped_thread_ids

  -- `tid == get_thread_ident()`
  unfoldable pub is_current : ℕ → Option ℕ → Bool
  is_current ident none = false
  is_current ident (some tid) = tid == ident

  -- `if _thread_is_stopped: stopped_thread_ids.discard(tid)`
  unfoldable pub resume : Debugger world → Option ℕ → Debugger world
  unfolding thread_is_stopped remove_stopped
  resume d none = d
  resume d (some n) = if thread_is_stopped d (some n) then remove_stopped d n else d

  -- What the three steps share: the guard, the thread that runs again, the flag and the
  -- granularity.
  unfoldable pub begin_step :
      Debugger world → Option ℕ → Option String → ℕ → Option (Debugger world)
  unfolding thread_is_stopped is_current resume request_step set_granularity granularity_argument
  begin_step d tid granularity ident =
      let resumed = resume d tid in
      if is_current ident tid || thread_is_stopped d tid
      then some (record resumed {
        controller =
            set_granularity (request_step resumed.controller)
              (raw (granularity_argument granularity));
      })
      else none

  -- A step in a coroutine skips the frames of the event loop.
  unfoldable pub note_coroutine : Debugger world → ℕ → Debugger world
  unfolding set_async_step_over
  note_coroutine d frame =
      if is_coroutine frame
      then record d { controller = set_async_step_over d.controller true }
      else d

  unfoldable pub is_instruction : Controller → Bool
  is_instruction c = elim (c.granularity) [ instruction ↦ true | _ ↦ false ]

  unfoldable pub step_over : Debugger world → Debugger world
  unfolding note_coroutine is_instruction
  step_over d = elim (d.controller.current_frame) [
    | none ↦ d
    | some frame ↦
        let d' = note_coroutine d frame in
        if is_instruction d'.controller
        then record d' { bdb = world.set_step (trace_opcodes d'.bdb frame) }
        else record d' { bdb = set_next d'.bdb frame }
  ]

  unfoldable pub step_into : Debugger world → Debugger world
  unfolding note_coroutine is_instruction
  step_into d = elim (d.controller.current_frame) [
    | none ↦ record d { bdb = world.set_step d.bdb }
    | some frame ↦
        let d' = note_coroutine d frame in
        if is_instruction d'.controller
        then record d' { bdb = world.set_step (trace_opcodes d'.bdb frame) }
        else record d' { bdb = world.set_step d'.bdb }
  ]

  unfoldable pub step_return : Debugger world → Debugger world
  step_return d = elim (d.controller.current_frame) [
    | none ↦ d
    | some frame ↦ record d { bdb = set_return d.bdb frame }
  ]

  -- `ident` is the thread that handles the command; nothing happens where the guard fails.
  module _ (ident : ℕ) (thread : ThreadArgument) (granularity : Option String) where
    unfoldable pub handle_next : Option (Debugger world) → Option (Debugger world)
    unfolding thread_of begin_step step_over
    handle_next none = none
    handle_next (some d) = elim (begin_step d (thread_of thread) granularity ident) [
      | none ↦ some d
      | some d' ↦ some (step_over d')
    ]

    unfoldable pub handle_step_in : Option (Debugger world) → Option (Debugger world)
    unfolding thread_of begin_step step_into
    handle_step_in none = none
    handle_step_in (some d) = elim (begin_step d (thread_of thread) granularity ident) [
      | none ↦ some d
      | some d' ↦ some (step_into d')
    ]

    unfoldable pub handle_step_out : Option (Debugger world) → Option (Debugger world)
    unfolding thread_of begin_step step_return
    handle_step_out none = none
    handle_step_out (some d) = elim (begin_step d (thread_of thread) granularity ident) [
      | none ↦ some d
      | some d' ↦ some (step_return d')
    ]
