-- ===== src/Core/Threads.antt =====
-- dapper/core/thread_tracker.py: `ThreadTracker`. The frames of the interpreter are objects of a
-- memory, known by their addresses (`id(frame)`).
pub mod Chain
pub mod Registry
pub mod Stops
use dapper.Base.{
  ℕ, zero, suc, ◌+◌, String, Bool, true, false, not, Option, none, some, List, [], ◌∷◌, ◌==◌,
  nat_eq, string_eq, contains, add, discard, is_empty, if◌then◌else◌,
}
use dapper.Base.Dict.{Dict, get, put, has, get_or}

-- What `getattr(frame, "f_back", None)` gives.
pub data Back : Type 0 where
  top : Back
  caller : ℕ → Back
  fails : Back

-- A frame, as the tracker reads it: an attribute may be missing, and `f_code` may raise.
pub record FrameObject : Type 0 where
  pub code_fails : Bool
  pub co_filename : Option String
  pub co_name : Option String
  pub f_lineno : Option ℕ
  pub f_back : Back

abbrev pub Memory : Type 0
Memory = ℕ → FrameObject

-- A stack frame of the protocol; its column is always 0.
pub record StackFrame : Type 0 where
  pub id : ℕ
  pub name : String
  pub line : ℕ
  pub column : ℕ
  pub source_name : String
  pub source_path : String

pub record Tracker : Type 0 where
  pub threads : Dict ℕ String
  pub stopped_thread_ids : List ℕ
  pub frames_by_thread : Dict ℕ (List StackFrame)
  pub frame_id_to_frame : Dict ℕ ℕ
  pub next_frame_id : ℕ

abbrev pub max_stack_depth : ℕ
max_stack_depth = 128

abbrev pub init : Tracker
init = record {
  threads = [];
  stopped_thread_ids = [];
  frames_by_thread = [];
  frame_id_to_frame = [];
  next_frame_id = 1;
}

unfoldable pub is_thread_registered : Tracker → ℕ → Bool
unfolding has
is_thread_registered t thread_id = has thread_id t.threads

-- `current` is the name of the thread that runs, `threading.current_thread().name`.
unfoldable pub register_thread : Tracker → ℕ → Option String → String → String × Tracker
unfolding put
register_thread t thread_id name current =
    let name' : String = elim name [ none ↦ current | some s ↦ s ] in
    (name', record t { threads = put thread_id name' t.threads })

unfoldable pub get_thread_name : Tracker → ℕ → Option String
unfolding get
get_thread_name t thread_id = get thread_id t.threads

unfoldable pub is_stopped : Tracker → ℕ → Bool
unfolding contains
is_stopped t thread_id = contains thread_id t.stopped_thread_ids

unfoldable pub mark_stopped : Tracker → ℕ → Tracker
unfolding add
mark_stopped t thread_id = record t { stopped_thread_ids = add thread_id t.stopped_thread_ids }

unfoldable pub mark_continued : Tracker → ℕ → Bool × Tracker
unfolding contains discard
mark_continued t thread_id =
    if contains thread_id t.stopped_thread_ids
    then (true, record t { stopped_thread_ids = discard thread_id t.stopped_thread_ids })
    else (false, t)

unfoldable pub has_stopped_threads : Tracker → Bool
has_stopped_threads t = not (is_empty t.stopped_thread_ids)

unfoldable pub all_threads_continued : Tracker → Bool
all_threads_continued t = is_empty t.stopped_thread_ids

unfoldable pub allocate_frame_id : Tracker → ℕ × Tracker
allocate_frame_id t = (t.next_frame_id, record t { next_frame_id = t.next_frame_id + 1 })

unfoldable pub register_frame : Tracker → ℕ → ℕ → Tracker
unfolding put
register_frame t frame_id frame = record t {
  frame_id_to_frame = put frame_id frame t.frame_id_to_frame;
}

unfoldable pub get_frame : Tracker → ℕ → Option ℕ
unfolding get
get_frame t frame_id = get frame_id t.frame_id_to_frame

unfoldable pub clear_frames : Tracker → Tracker
clear_frames t = record t { frame_id_to_frame = []; frames_by_thread = [] }

unfoldable pub store_stack_frames : Tracker → ℕ → List StackFrame → Tracker
unfolding put
store_stack_frames t thread_id frames = record t {
  frames_by_thread = put thread_id frames t.frames_by_thread;
}

unfoldable pub get_stack_frames : Tracker → ℕ → List StackFrame
unfolding get_or
get_stack_frames t thread_id = get_or thread_id [] t.frames_by_thread

unfoldable pub clear : Tracker → Tracker
clear t = init

-- `path_name` is `Path(filename).name`, which depends on the platform.
module _ (path_name : String → String) (memory : Memory) where
  unfoldable pub or_unknown : Option String → String
  or_unknown none = "<unknown>"
  or_unknown (some s) = s

  -- `getattr(code, "co_name", "<unknown>") or "<unknown>"`
  unfoldable pub frame_name : Option String → String
  frame_name none = "<unknown>"
  frame_name (some s) = if s == "" then "<unknown>" else s

  unfoldable pub describe : ℕ → FrameObject → StackFrame
  unfolding or_unknown frame_name
  describe frame_id frame = record {
    id = frame_id;
    name = frame_name frame.co_name;
    line = elim frame.f_lineno [ none ↦ 0 | some n ↦ n ];
    column = 0;
    source_name = path_name (or_unknown frame.co_filename);
    source_path = or_unknown frame.co_filename;
  }

  -- `allocate_frame_id` and `register_frame`, for the frame at an address.
  unfoldable pub admit : Tracker → ℕ → StackFrame × Tracker
  unfolding allocate_frame_id register_frame describe
  admit t f =
      let (frame_id, t') = allocate_frame_id t in
      (describe frame_id (memory f), register_frame t' frame_id f)

  -- The loop of `build_stack_frames`; the first number is `max_depth - depth`.
  unfoldable pub walk : ℕ → Tracker → Option ℕ → List ℕ → List StackFrame × Tracker
  unfolding admit contains
  walk zero t current visited = ([], t)
  walk (suc rounds) t none visited = ([], t)
  walk (suc rounds) t (some f) visited = elim (contains f visited) [
    | true ↦ ([], t)
    | false ↦ elim ((memory f).code_fails) [
      | true ↦ ([], t)
      | false ↦
          let (frame, t') = admit t f in
          elim ((memory f).f_back) [
            | top ↦ let (frames, t'') = walk rounds t' none (f ∷ visited) in (frame ∷ frames, t'')
            | caller g ↦
                let (frames, t'') = walk rounds t' (some g) (f ∷ visited) in (frame ∷ frames, t'')
            | fails ↦ (frame ∷ [], t')
          ]
    ]
  ]

  unfoldable pub build_stack_frames : Tracker → Option ℕ → ℕ → List StackFrame × Tracker
  unfolding walk
  build_stack_frames t frame max_depth = walk max_depth t frame []

  unfoldable pub build_frames_from_list : Tracker → List ℕ → List StackFrame × Tracker
  unfolding admit
  build_frames_from_list t [] = ([], t)
  build_frames_from_list t (f ∷ fs) = elim ((memory f).code_fails) [
    | true ↦ build_frames_from_list t fs
    | false ↦
        let (frame, t') = admit t f in
        let (frames, t'') = build_frames_from_list t' fs in (frame ∷ frames, t'')
  ]
