-- ===== src/Core/Tasks/Registry.antt =====
-- `AsyncioTaskRegistry` of dapper/core/asyncio_task_inspector.py: the numbers that the tasks and
-- their frames have from one `threads` request to the next.
use dapper.Base.{
  ℕ, ◌+◌, ◌-◌, min, Bool, Option, none, some, List, [], ◌∷◌, ◌++◌, if◌then◌else◌, ltb, length, take,
  drop, nat_eq,
}
use dapper.Base.Dict.{Dict, get, get_or, put, has}
use dapper.Base.Text.{Codes, codes}
use dapper.Core.Tasks.{
  Runtime, CodeNames, Causality, task_thread_id_base, task_frame_id_base, or_text,
  get_all_asyncio_tasks, task_display_name, build_coroutine_frame_chain,
  build_task_causality_snapshot,
}

pub record DapFrame : Type 0 where
  pub id : ℕ
  pub name : Codes
  pub lineno : ℕ
  pub column : ℕ
  pub source_name : Codes
  pub source_path : Codes

pub record Thread : Type 0 where
  pub id : ℕ
  pub name : Codes

module _ (py : Runtime) where
  pub record Registry : Type 0 where
    pub task_to_pseudo_id : Dict ℕ ℕ
    pub id_to_task : Dict ℕ py.Task
    pub id_to_frames : Dict ℕ (List DapFrame)
    pub frame_id_to_frame : Dict ℕ py.Frame
    pub frame_id_to_task_id : Dict ℕ ℕ
    pub id_to_causality : Dict ℕ (Causality py)
    pub next_thread_id : ℕ
    pub next_frame_id : ℕ

  -- `__init__`; `clear` leaves the registry in the same state.
  unfoldable pub init : Registry
  init = record {
    task_to_pseudo_id = [];
    id_to_task = [];
    id_to_frames = [];
    frame_id_to_frame = [];
    frame_id_to_task_id = [];
    id_to_causality = [];
    next_thread_id = task_thread_id_base;
    next_frame_id = task_frame_id_base;
  }

  unfoldable pub clear : Registry → Registry
  clear r = record r {
    task_to_pseudo_id = [];
    id_to_task = [];
    id_to_frames = [];
    frame_id_to_frame = [];
    frame_id_to_task_id = [];
    id_to_causality = [];
    next_thread_id = task_thread_id_base;
    next_frame_id = task_frame_id_base;
  }

  unfoldable pub allocate_frame_id : Registry → ℕ × Registry
  allocate_frame_id r = (r.next_frame_id, record r { next_frame_id = r.next_frame_id + 1 })

  unfoldable pub register_task : Registry → py.Task → ℕ × Registry
  unfolding get put
  register_task r t = elim (get (py.task_id t) r.task_to_pseudo_id) [
    | some pseudo_id ↦ (pseudo_id, r)
    | none ↦ (
      r.next_thread_id,
      record r {
        next_thread_id = r.next_thread_id + 1;
        task_to_pseudo_id = put (py.task_id t) r.next_thread_id r.task_to_pseudo_id;
        id_to_task = put r.next_thread_id t r.id_to_task;
      },
    )
  ]

  abbrev or_default {ℓ} : {A : Type ℓ} → A → Option A → A
  or_default default none = default
  or_default default (some a) = a

  unfoldable pub make_frame : ℕ → CodeNames → Option ℕ → DapFrame
  unfolding or_text
  make_frame frame_id code lineno =
      let filename = or_default (codes "<unknown>") code.co_filename in
      record {
        id = frame_id;
        name = or_text (or_default (codes "<unknown>") code.co_name) (codes "<unknown>");
        lineno = or_default 0 lineno;
        column = 0;
        source_name = py.path_name filename;
        source_path = filename;
      }

  -- One round of the loop of `_build_frames`, for a frame whose code can be read.
  unfoldable pub add_frame : Registry → ℕ → py.Frame → CodeNames → DapFrame × Registry
  unfolding allocate_frame_id make_frame put
  add_frame r pseudo_id frame code =
      let allocated = allocate_frame_id r in
      let r' : Registry = allocated.1 in
      (
        make_frame allocated.0 code (py.f_lineno frame),
        record r' {
          frame_id_to_frame = put allocated.0 frame r'.frame_id_to_frame;
          frame_id_to_task_id = put allocated.0 pseudo_id r'.frame_id_to_task_id;
        },
      )

  unfoldable pub add_frames : List py.Frame → Registry → ℕ → List DapFrame × Registry
  unfolding add_frame
  add_frames [] r pseudo_id = ([], r)
  add_frames (frame ∷ frames) r pseudo_id = elim (py.f_code frame) [
    | none ↦ add_frames frames r pseudo_id
    | some code ↦
        let added = add_frame r pseudo_id frame code in
        let rest = add_frames frames added.1 pseudo_id in (added.0 ∷ rest.0, rest.1)
  ]

  unfoldable pub build_frames : Registry → py.Task → ℕ → List DapFrame × Registry
  unfolding build_coroutine_frame_chain build_task_causality_snapshot put add_frames
  build_frames r t pseudo_id = elim (py.get_coro t) [
    | none ↦ ([], r)
    | some coro ↦
        let raw_frames = build_coroutine_frame_chain py coro in
        let snapshot = build_task_causality_snapshot py t raw_frames in
        add_frames raw_frames
          (record r { id_to_causality = put pseudo_id snapshot r.id_to_causality }) pseudo_id
  ]

  unfoldable pub is_task_thread_id : Registry → ℕ → Bool
  unfolding has
  is_task_thread_id r thread_id = has thread_id r.id_to_task

  unfoldable pub is_task_frame_id : Registry → ℕ → Bool
  unfolding has
  is_task_frame_id r frame_id = has frame_id r.frame_id_to_task_id

  unfoldable pub get_frame_object : Registry → ℕ → Option py.Frame
  unfolding get
  get_frame_object r frame_id = get frame_id r.frame_id_to_frame

  unfoldable pub get_causality_snapshot : Registry → ℕ → Option (Causality py)
  unfolding get
  get_causality_snapshot r frame_id = elim (get frame_id r.frame_id_to_task_id) [
    | none ↦ none
    | some pseudo_id ↦ get pseudo_id r.id_to_causality
  ]

  -- The rest of a round, for a task that has its number.
  unfoldable pub inspect_task : Registry → py.Task → ℕ → Thread × Registry
  unfolding task_display_name build_frames put
  inspect_task r t pseudo_id =
      let built = build_frames r t pseudo_id in
      let r' : Registry = built.1 in
      (
        record { id = pseudo_id; name = codes "Task: " ++ task_display_name py t },
        record r' { id_to_frames = put pseudo_id built.0 r'.id_to_frames },
      )

  -- One round of the loop of `snapshot_threads`; a task whose inspection raises keeps its number
  -- and is not listed.
  unfoldable pub snapshot_task : Registry → py.Task → List Thread × Registry
  unfolding register_task inspect_task
  snapshot_task r t =
      let registered = register_task r t in
      let inspected = inspect_task registered.1 t registered.0 in
      if py.inspects t then (inspected.0 ∷ [], inspected.1) else ([], registered.1)

  unfoldable pub snapshot_tasks : List py.Task → Registry → List Thread × Registry
  unfolding snapshot_task
  snapshot_tasks [] r = ([], r)
  snapshot_tasks (t ∷ tasks) r =
      let first = snapshot_task r t in
      let rest = snapshot_tasks tasks first.1 in (first.0 ++ rest.0, rest.1)

  unfoldable pub snapshot_threads : Registry → List Thread × Registry
  unfolding clear snapshot_tasks get_all_asyncio_tasks
  snapshot_threads r = snapshot_tasks (get_all_asyncio_tasks py) (clear r)

  unfoldable pub page : List DapFrame → ℕ → ℕ → List DapFrame
  page frames start_frame levels =
      let total = length frames in
      let end = if ltb 0 levels then min (start_frame + levels) total else total in
      take (end - start_frame) (drop start_frame frames)

  -- `start_frame` and `levels` are not negative.
  unfoldable pub get_task_frames : Registry → ℕ → ℕ → ℕ → List DapFrame
  unfolding get_or page
  get_task_frames r pseudo_id start_frame levels =
      page (get_or pseudo_id [] r.id_to_frames) start_frame levels

  unfoldable pub get_task_frame_count : Registry → ℕ → ℕ
  unfolding get_or
  get_task_frame_count r pseudo_id = length (get_or pseudo_id [] r.id_to_frames)
