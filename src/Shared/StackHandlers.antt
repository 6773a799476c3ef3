-- ===== src/Shared/StackHandlers.antt =====
-- dapper/shared/stack_handlers.py: the stack of a thread, the threads, and the scopes of a frame; with
-- `is_synthetic_filename` and `annotate_stack_frames_with_source_refs` of
-- dapper/shared/runtime_source_registry.py. A handler returns the body that it sends.
pub mod Pages
use dapper.Base.{
  ℕ, zero, suc, ◌+◌, Bool, true, false, not, ◌&&◌, Option, none, some, List, [], ◌∷◌, ◌++◌, map,
  if◌then◌else◌, ltb, nat_beq, nat_eq, length, take, drop, is_empty, ◌==◌, contains, get_elem?,
}
use dapper.Base.Dict.{Dict, get, get_or}
use dapper.Base.Text.{Codes, codes, starts_with}
use mathlib.Core.List.{reverse}
use dapper.Shared.Catalog.{Catalog, get_or_register_dynamic_from_linecache}

pub record Frame : Type 0 where
  pub id : ℕ
  pub name : Option Codes
  pub source_name : Codes
  pub source_path : Codes
  pub source_reference : Option ℕ
  pub lineno : ℕ
  pub column : ℕ

-- An entry of the tracker: a frame that is described already, as a dictionary or an object, or a
-- frame object, of which the name and the file matter, with a line.
pub data Tracked : Type 0 where
  described : Frame → Tracked
  tracked_pair : Codes → Codes → ℕ → Tracked

-- An entry of the debugger's stack: a dictionary with its `name`, its `file`, its `path` and its
-- `line`, or a frame object with a line.
pub data Entry : Type 0 where
  dictionary : Option Codes → Option Codes → Option Codes → Option ℕ → Entry
  pair : Codes → Codes → ℕ → Entry

abbrev pub or_else {ℓ} : {A : Type ℓ} → A → Option A → A
or_else default none = default
or_else default (some a) = a

-- `frame.get("file", frame.get("path")) or ""`
abbrev pub file_of : Option Codes → Option Codes → Codes
file_of (some file) path = file
file_of none (some path) = path
file_of none none = []

-- A text, read backwards, without a line break at its end.
unfoldable pub without_break : Codes → Codes
without_break [] = []
without_break (c ∷ back) = if nat_beq c 10 then back else c ∷ back

-- `^<.*>$`: a line break may follow the closing bracket, and none stands inside.
unfoldable pub is_synthetic_filename : Codes → Bool
unfolding starts_with without_break contains
is_synthetic_filename filename =
    let trimmed = without_break (reverse filename) in
    starts_with filename (codes "<")
    && starts_with trimmed (codes ">")
    && ltb 1 (length trimmed)
    && not (contains 10 trimmed)

-- One round of the annotation; the catalog's search for a free number has its fuel, and `none` is
-- its failure.
unfoldable pub annotate : (Codes → List Codes) → Catalog → Frame → Frame × Catalog
unfolding is_synthetic_filename get_or_register_dynamic_from_linecache
annotate getlines c f =
    if is_empty f.source_path
    then (f, c)
    else if not (is_synthetic_filename f.source_path)
    then (f, c)
    else if ltb 0 (or_else 0 f.source_reference)
    then (f, c)
    else (elim (get_or_register_dynamic_from_linecache getlines c f.source_path) [
      | none ↦ (f, c)
      | some registered ↦ (record f { source_reference = some registered.0 }, registered.1)
    ])

unfoldable pub annotate_stack_frames :
    (Codes → List Codes) → Catalog → List Frame → List Frame × Catalog
unfolding annotate
annotate_stack_frames getlines c [] = ([], c)
annotate_stack_frames getlines c (f ∷ rest) =
    let first = annotate getlines c f in
    let others = annotate_stack_frames getlines first.1 rest in (first.0 ∷ others.0, others.1)

module _ (path_name : Codes → Codes) where
  unfoldable pub make_frame : ℕ → Option Codes → Codes → ℕ → Frame
  make_frame id name path lineno = record {
    id = id;
    name = name;
    source_name = path_name path;
    source_path = path;
    source_reference = none;
    lineno = lineno;
    column = 0;
  }

  -- The loop over the tracker's frames; the number is that of the frames before.
  unfoldable pub tracked_frames : ℕ → List Tracked → List Frame
  unfolding make_frame
  tracked_frames n [] = []
  tracked_frames n (described f ∷ rest) = f ∷ tracked_frames (suc n) rest
  tracked_frames n (tracked_pair name path lineno ∷ rest) =
      make_frame n (some name) path lineno ∷ tracked_frames (suc n) rest

  unfoldable pub entry_frame : ℕ → Entry → Frame
  unfolding make_frame
  entry_frame id (dictionary name file path lineno) =
      make_frame id name (file_of file path) (or_else 0 lineno)
  entry_frame id (pair name path lineno) = make_frame id (some name) path lineno

  -- `enumerate(frames, start=start_frame)`
  unfoldable pub entry_frames : ℕ → List Entry → List Frame
  unfolding entry_frame
  entry_frames id [] = []
  entry_frames id (e ∷ rest) = entry_frame id e ∷ entry_frames (id + 1) rest

  -- `stack[start_frame:][:levels]`, for the thread of the command
  unfoldable pub stack_page : List Entry → ℕ → Option ℕ → List Frame
  unfolding entry_frames
  stack_page stack start_frame none = entry_frames start_frame (drop start_frame stack)
  stack_page stack start_frame (some levels) =
      entry_frames start_frame (take levels (drop start_frame stack))

  -- The frames before they are annotated. `is_current` says if the thread is that of the command,
  -- and a debugger without a stack has none.
  unfoldable pub untracked_frames : Option (List Entry) → Bool → ℕ → Option ℕ → List Frame
  unfolding stack_page
  untracked_frames none is_current start_frame levels = []
  untracked_frames (some stack) is_current start_frame levels =
      if is_current then stack_page stack start_frame levels else []

  -- With the frames that the tracker has for the thread, if it has some.
  unfoldable pub handle_stack_trace :
      (Codes → List Codes)
      → Catalog
      → Option (List Tracked)
      → Option (List Entry)
      → Bool
      → ℕ
      → Option ℕ
      → (List Frame × ℕ) × Catalog
  unfolding tracked_frames untracked_frames annotate_stack_frames
  handle_stack_trace getlines c (some raw_frames) stack is_current start_frame levels =
      let frames = tracked_frames 0 raw_frames in ((frames, length frames), c)
  handle_stack_trace getlines c none stack is_current start_frame levels =
      let annotated =
        annotate_stack_frames getlines c (untracked_frames stack is_current start_frame levels) in
      ((annotated.0, length annotated.0), annotated.1)

-- The name of a thread that runs now, or else the stored one.
unfoldable pub handle_threads : Dict ℕ Codes → List (ℕ × Codes) → List (ℕ × Codes)
unfolding get_or
handle_threads live_names [] = []
handle_threads live_names ((tid, stored_name) ∷ rest) =
    (tid, get_or tid stored_name live_names) ∷ handle_threads live_names rest

pub data ScopeName : Type 0 where
  locals globals : ScopeName

pub record Scope : Type 0 where
  pub name : ScopeName
  pub variables_reference : ℕ
  pub expensive : Bool

-- Whether a frame has the number: in the tracker, or else in the debugger's stack, of which the
-- depth is given and whose entries are pairs here.
unfoldable pub has_frame : List ℕ → Option ℕ → ℕ → Bool
unfolding contains
has_frame tracked depth frame_id =
    if contains frame_id tracked
    then true
    else elim depth [ none ↦ false | some n ↦ ltb frame_id n ]

-- `allocate` stands for `allocate_scope_ref` of the variable manager.
module _ {Variables : Type 0} (allocate : Variables → ℕ → ScopeName → ℕ × Variables) where
  unfoldable pub handle_scopes : Variables → List ℕ → Option ℕ → Option ℕ → List Scope × Variables
  unfolding has_frame
  handle_scopes v tracked depth none = ([], v)
  handle_scopes v tracked depth (some frame_id) =
      let locals_ref = allocate v frame_id locals in
      let globals_ref = allocate locals_ref.1 frame_id globals in
      if has_frame tracked depth frame_id
      then (
        record { name = locals; variables_reference = locals_ref.0; expensive = false }
            ∷ record { name = globals; variables_reference = globals_ref.0; expensive = true }
            ∷ [],
        globals_ref.1,
      )
      else ([], v)
