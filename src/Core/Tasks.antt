-- ===== src/Core/Tasks.antt =====
-- The asyncio tasks of the program: dapper/core/asyncio_task_inspector.py. The names and frames
-- of a task are here, and the registry in Registry.
pub mod Await
pub mod Registry
pub mod Frames
pub mod Routing
pub mod Paging
use dapper.Base.{
  ℕ, zero, suc, Bool, true, false, ◌&&◌, Option, none, some, List, [], ◌∷◌, ◌++◌, if◌then◌else◌,
  contains, is_empty, ◌==◌, nat_eq,
}
use dapper.Base.Text.{Codes, codes, codes_eq, has_infix}
use mathlib.Core.List.{reverse}

abbrev pub task_thread_id_base : ℕ
task_thread_id_base = 0x0F000001

abbrev pub task_frame_id_base : ℕ
task_frame_id_base = 0x7FFF0000

abbrev pub max_coro_depth : ℕ
max_coro_depth = 64

-- The attributes of an awaitable that the walk asks for; `none` where `hasattr` is false, and
-- `some none` where the frame is `None`.
pub record Awaitable (Frame Object : Type 0) : Type 0 where
  pub cr_frame : Option (Option Frame)
  pub cr_await : Option Object
  pub gi_frame : Option (Option Frame)
  pub gi_yieldfrom : Option Object
  pub ag_frame : Option (Option Frame)
  pub ag_await : Option Object

-- What `_fut_waiter` holds: a task, a future with what its `done` returns, if it returns, or an
-- object of another type with that type's name.
pub data Waiter (Task : Type 0) : Type 0 where
  task : Task → Waiter Task
  future : Option Bool → Waiter Task
  object : Codes → Waiter Task

-- The names of a code object, where it has them.
pub record CodeNames : Type 0 where
  pub co_filename : Option Codes
  pub co_name : Option Codes

-- The interpreter's objects. A method whose result is an `Option` raises on `none`. `inspects` says
-- whether naming a task and reading what it awaits, which come before its first frame is stored,
-- raise no exception; the other fields matter only for the tasks for which it is so.
pub record Runtime : Type 1 where
  pub Task : Type 0
  pub Object : Type 0
  pub Frame : Type 0
  pub task_id : Task → ℕ
  pub object_id : Object → ℕ
  pub get_name : Task → Option Codes
  pub get_coro : Task → Option (Option Object)
  pub qualified_name : Option Object → Option Codes
  pub plain_name : Option Object → Option Codes
  pub awaitable : Object → Awaitable Frame Object
  pub f_code : Frame → Option CodeNames
  pub f_lineno : Frame → Option ℕ
  pub cancelled : Task → Bool
  pub done : Task → Bool
  pub fut_waiter : Task → Option (Waiter Task)
  pub path_name : Codes → Codes
  pub inspects : Task → Bool
  pub every_task : Option (List Task)
  pub running_loop_tasks : Option (List Task)

abbrev or_else {ℓ} : {A : Type ℓ} → A → Option A → A
or_else default none = default
or_else default (some a) = a

-- `a or b` on texts
unfoldable pub or_text : Codes → Codes → Codes
or_text [] other = other
or_text (c ∷ text) other = c ∷ text

module _ (py : Runtime) where
  unfoldable pub get_all_asyncio_tasks : List py.Task
  get_all_asyncio_tasks = elim py.every_task [
    | some tasks ↦ tasks
    | none ↦ or_else [] py.running_loop_tasks
  ]

  -- `getattr(obj, "__qualname__", "") or getattr(obj, "__name__", "")`, or the empty text when
  -- one of them raises
  unfoldable pub coroutine_name : Option py.Object → Codes
  unfolding or_text
  coroutine_name obj = elim (py.qualified_name obj) [
    | none ↦ []
    | some qualified ↦ or_text qualified (or_else [] (py.plain_name obj))
  ]

  unfoldable pub coro_name_of : py.Task → Codes
  unfolding coroutine_name
  coro_name_of t = elim (py.get_coro t) [ none ↦ [] | some coro ↦ coroutine_name coro ]

  unfoldable pub display : Codes → Codes → Codes
  unfolding or_text
  display name coro_name =
      if is_empty name
      then or_text coro_name (codes "<asyncio task>")
      else if is_empty coro_name
      then name
      else name ++ codes " (" ++ coro_name ++ codes ")"

  unfoldable pub task_display_name : py.Task → Codes
  unfolding display coro_name_of
  task_display_name t = display (or_else [] (py.get_name t)) (coro_name_of t)

  -- The frame of an awaitable and what it waits for; `none` for an object that is none.
  unfoldable pub suspension : py.Object → Option (Option py.Frame × Option py.Object)
  suspension obj =
      let a = py.awaitable obj in
      elim a.cr_frame [
        | some frame ↦ some (frame, a.cr_await)
        | none ↦ elim a.gi_frame [
          | some frame ↦ some (frame, a.gi_yieldfrom)
          | none ↦ elim a.ag_frame [ some frame ↦ some (frame, a.ag_await) | none ↦ none ]
        ]
      ]

  abbrev pub append_frame : List py.Frame → Option py.Frame → List py.Frame
  append_frame frames none = frames
  append_frame frames (some frame) = frames ++ frame ∷ []

  -- The loop: the rounds left, the object, the identities seen, and the frames collected.
  unfoldable pub walk_awaits : ℕ → Option py.Object → List ℕ → List py.Frame → List py.Frame
  unfolding suspension contains
  walk_awaits zero obj seen outer_to_inner = outer_to_inner
  walk_awaits (suc n) none seen outer_to_inner = outer_to_inner
  walk_awaits (suc n) (some obj) seen outer_to_inner = elim (contains (py.object_id obj) seen) [
    | true ↦ outer_to_inner
    | false ↦ elim (suspension obj) [
      | none ↦ outer_to_inner
      | some found ↦
          walk_awaits n found.1 (py.object_id obj ∷ seen) (append_frame outer_to_inner found.0)
    ]
  ]

  unfoldable pub build_coroutine_frame_chain : Option py.Object → List py.Frame
  unfolding walk_awaits
  build_coroutine_frame_chain coro = reverse (walk_awaits max_coro_depth coro [] [])

  unfoldable pub looks_like_sleep_wait : List py.Frame → Bool
  unfolding has_infix
  looks_like_sleep_wait [] = false
  looks_like_sleep_wait (frame ∷ frames) =
      let rest = looks_like_sleep_wait frames in
      elim (py.f_code frame) [
        | none ↦ rest
        | some code ↦
            if or_else [] code.co_name == codes "sleep"
              && has_infix (codes "asyncio") (or_else [] code.co_filename)
            then true
            else rest
      ]

  -- `state`, `wait_reason`, `summary` and `waiter_state` of a snapshot
  pub record Wait : Type 0 where
    pub state : Codes
    pub wait_reason : Codes
    pub summary : Codes
    pub waiter_state : Option Codes

  abbrev pub pending : Codes → Codes → Wait
  pending reason text = record {
    state = codes "pending";
    wait_reason = reason;
    summary = text;
    waiter_state = none;
  }

  unfoldable pub done_state : Option Bool → Option Codes
  done_state none = none
  done_state (some true) = some (codes "done")
  done_state (some false) = some (codes "pending")

  unfoldable pub wait_on : Option (Waiter py.Task) → List py.Frame → Wait
  unfolding task_display_name looks_like_sleep_wait done_state
  wait_on none raw_frames = pending (codes "runnable") (codes "Runnable in event loop")
  wait_on (some (task t)) raw_frames =
      pending (codes "task completion") (codes "Waiting for task " ++ task_display_name t)
  wait_on (some (future is_done)) raw_frames =
      record (if looks_like_sleep_wait raw_frames
        then pending (codes "timer") (codes "Waiting for asyncio.sleep timer")
        else pending (codes "future completion") (codes "Waiting for future completion")) {
          waiter_state = done_state is_done;
        }
  wait_on (some (object type_name)) raw_frames =
      pending type_name (codes "Waiting on " ++ type_name)

  unfoldable pub wait_of : py.Task → List py.Frame → Wait
  unfolding wait_on
  wait_of t raw_frames =
      if py.cancelled t
      then record (pending (codes "cancelled") (codes "Task was cancelled")) {
        state = codes "cancelled";
      }
      else if py.done t
      then record (pending (codes "completed") (codes "Task completed")) { state = codes "done" }
      else wait_on (py.fut_waiter t) raw_frames

  pub record Causality : Type 0 where
    pub task_name : Codes
    pub coroutine : Option Codes
    pub wait : Wait
    pub awaiting : Option Codes
    pub waiter : Option (Waiter py.Task)

  -- `text or None`
  unfoldable pub text_or_none : Codes → Option Codes
  text_or_none [] = none
  text_or_none (c ∷ text) = some (c ∷ text)

  unfoldable pub awaiting_name : List py.Frame → Option Codes
  awaiting_name [] = none
  awaiting_name (frame ∷ frames) = elim (py.f_code frame) [ none ↦ none | some code ↦ code.co_name ]

  unfoldable pub build_task_causality_snapshot : py.Task → List py.Frame → Causality
  unfolding task_display_name coro_name_of wait_of text_or_none awaiting_name
  build_task_causality_snapshot t raw_frames = record {
    task_name = task_display_name t;
    coroutine = text_or_none (coro_name_of t);
    wait = wait_of t raw_frames;
    awaiting = awaiting_name raw_frames;
    waiter = py.fut_waiter t;
  }
