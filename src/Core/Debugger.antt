-- ===== src/Core/Debugger.antt =====
-- dapper/core/debugger_bdb.py: `DebuggerBDB`, over the models of its parts. What it inherits from
-- `bdb.Bdb` is a type of states with the operations that the class calls.
pub mod Lines
pub mod Hidden
pub mod Events
pub mod Access
pub mod AccessTypes
pub mod Skips
pub mod Stops
pub mod Steps
use dapper.Base.{
  ℕ, zero, suc, ◌+◌, String, Bool, true, false, not, ◌&&◌, ◌||◌, Option, none, some, List, [], ◌∷◌,
  ◌++◌, ◌==◌, nat_eq, string_eq, pair_eq, contains, is_empty, if◌then◌else◌,
}
use dapper.Base.Dict.{Dict, get, put, has, get_or}
use dapper.Base.Text.{Codes, codes, strip, lower, same_text, has_infix}
use dapper.Core.Breakpoints as Breakpoints
use dapper.Core.Breakpoints.{
  Manager, Meta, Value, null, num, flag, text as text_value, store, has_custom_breakpoint,
  has_function_breakpoints,
}
use dapper.Core.DataBreakpoints.{
  Objects, State, check_for_changes, update_snapshots, is_read_watching,
}
use dapper.Core.DataBreakpoints.Expressions.{
  Evaluator, Watches, check_expression_changes, update_expression_snapshots,
}
use dapper.Core.Exceptions.{Handler, is_enabled}
use dapper.Core.Resolver.Dictionaries.{meta_from_dict}
use dapper.Core.Debugger.Access.{meta_matches_access_type}
use dapper.Core.Resolver.{
  Setting, absent, text, other, is_set, BreakpointMeta, Resolution, resolve, should_stop_now,
  should_continue,
}
use dapper.Core.Stepping.{
  Controller, StopReason, data_breakpoint, function_breakpoint, breakpoint, consume_stop_state,
  set_current_frame,
}
use dapper.Core.Threads.{
  Tracker, StackFrame, Memory, max_stack_depth, is_thread_registered, mark_stopped, register_thread,
  build_stack_frames, store_stack_frames, clear_frames,
}

-- `bdb.Bdb`, and what the interpreter and the session tell.
pub record World : Type 1 where
  pub evaluator : Evaluator
  pub truth : evaluator.python.V → Option Bool
  pub show : evaluator.python.V → Option Codes
  pub int_of : String → Option ℕ
  pub access_type : ℕ → Option Codes
  pub Bdb : Type 0
  pub canonic : String → String
  pub breaks : Bdb → Dict String (List ℕ)
  pub get_break : Bdb → String → ℕ → Bool
  pub bdb_set_continue : Bdb → Bdb
  pub set_step : Bdb → Bdb
  pub set_stopinfo : Bdb → Bdb
  pub set_botframe : Bdb → ℕ → Bdb
  pub is_user_file : String → Bool
  pub path_name : String → String
  pub memory : Memory
  pub thread_id : ℕ
  pub thread_name : String
  pub Info : Type 0

pub data Message : Type 0 where
  thread_started : ℕ → String → Message
  output : Setting → Message
  stopped : ℕ → StopReason → Option Codes → Message
  exception_stopped : ℕ → Codes → Message

-- `_is_event_loop_frame`: the text of a path, with each backslash as a slash.
unfoldable pub forward_slashes : Codes → Codes
forward_slashes [] = []
forward_slashes (c ∷ s) = (if c == 92 then 47 else c) ∷ forward_slashes s

unfoldable pub is_event_loop_file : String → Bool
unfolding forward_slashes has_infix
is_event_loop_file filename =
    has_infix (codes "/asyncio/") (forward_slashes (codes filename))
    || has_infix (codes "/concurrent/futures/") (forward_slashes (codes filename))

module _ (world : World) where
  open world use {
    evaluator, truth, show, int_of, access_type, Bdb, canonic, breaks, get_break, bdb_set_continue,
    set_step, set_stopinfo, set_botframe, is_user_file, path_name, memory, thread_id, thread_name,
    Info,
  }

  abbrev pub V : Type 0
  V = evaluator.python.V

  -- Data breakpoints know their metadata by an address.
  abbrev pub objects : Objects
  objects = record {
    M = ℕ;
    V = evaluator.python.V;
    access = access_type;
    same = evaluator.same;
    equal = evaluator.equal;
  }

  -- A frame that runs: its address, where it stands, its view for evaluations and its locals, if
  -- they are a mapping.
  pub record Frame : Type 0 where
    pub address : ℕ
    pub filename : String
    pub line : ℕ
    pub view : evaluator.python.Frame
    pub locals : Option (Dict String V)

  pub record Debugger : Type 0 where
    pub just_my_code : Bool
    pub bdb : Bdb
    pub bp_manager : Manager
    pub controller : Controller
    pub tracker : Tracker
    pub exceptions : Handler Info
    pub watches : State objects
    pub expressions : Watches evaluator
    pub expression_meta : Dict String (List ℕ)
    pub data_heap : ℕ → Meta
    pub sent : List Message

  -- A call that returns, or that an exception ends, with the state that it leaves.
  pub data Outcome (A : Type 0) : Type 0 where
    returned : A → Debugger → Outcome A
    raised : Debugger → Outcome A

  unfoldable pub send : Debugger → Message → Debugger
  send d m = record d { sent = d.sent ++ m ∷ [] }

  -- What the resolver makes of a dictionary, with the dictionary after it; `none` where it raises.
  unfoldable pub resolve_dict : Meta → Frame → Bool → Option (Resolution × Meta)
  unfolding meta_from_dict resolve put
  resolve_dict meta frame emits = elim (meta_from_dict int_of meta) [
    | none ↦ none
    | some m ↦ some (
      resolve evaluator.python truth show (some m) (some frame.view) emits true,
      put "hit" (num (m.hit_count + 1)) meta,
    )
  ]

  unfoldable pub send_outputs : Debugger → List Setting → Debugger
  unfolding send
  send_outputs d [] = d
  send_outputs d (s ∷ settings) = send_outputs (send d (output s)) settings

  unfoldable pub needs_tracing_active : Debugger → Bool
  unfolding has_function_breakpoints is_enabled
  needs_tracing_active d = has_function_breakpoints d.bp_manager || is_enabled d.exceptions.config

  unfoldable pub set_continue : Debugger → Debugger
  unfolding needs_tracing_active
  set_continue d =
      if needs_tracing_active d && is_empty (breaks d.bdb)
      then record d { bdb = set_stopinfo d.bdb }
      else record d { bdb = bdb_set_continue d.bdb }

  unfoldable pub ensure_thread_registered : Debugger → Debugger
  unfolding send is_thread_registered register_thread
  ensure_thread_registered d =
      if is_thread_registered d.tracker thread_id
      then d
      else send (record d { tracker = (register_thread d.tracker thread_id none thread_name).1 })
          (thread_started thread_id thread_name)

  -- The frames are kept without what `_get_stack_frames` adds to their sources and hints.
  unfoldable pub emit_stopped_event : Debugger → Frame → StopReason → Option Codes → Debugger
  unfolding send set_current_frame mark_stopped build_stack_frames store_stack_frames
  emit_stopped_event d frame reason description =
      let (frames, tracker) =
        build_stack_frames path_name memory (mark_stopped d.tracker thread_id) (some frame.address)
          max_stack_depth in
      send
        (record d {
          controller = set_current_frame d.controller frame.address;
          tracker = store_stack_frames tracker thread_id frames;
        })
        (stopped thread_id reason description)

  -- The stop of a breakpoint: the thread is known, and then the client hears of it.
  unfoldable pub stop_at : Debugger → Frame → StopReason → Option Codes → Debugger
  unfolding ensure_thread_registered emit_stopped_event
  stop_at d frame reason description =
      emit_stopped_event (ensure_thread_registered d) frame reason description

  -- The loop over the metadata of a data breakpoint: whether one of them stops.
  unfoldable pub any_stops : (ℕ → Bool) → Frame → List ℕ → Debugger → Outcome Bool
  unfolding resolve_dict should_stop_now store
  any_stops applies frame [] d = returned false d
  any_stops applies frame (m ∷ metas) d = elim (applies m) [
    | false ↦ any_stops applies frame metas d
    | true ↦ elim (resolve_dict (d.data_heap m) frame false) [
      | none ↦ raised d
      | some (resolution, meta) ↦
          let d' = record d { data_heap = store d.data_heap m meta } in
          elim (should_stop_now resolution.result) [
            | true ↦ returned true d'
            | false ↦ any_stops applies frame metas d'
          ]
    ]
  ]

  unfoldable pub should_stop_for_data_breakpoint : Debugger → String → Frame → Codes → Outcome Bool
  unfolding get_or any_stops meta_matches_access_type
  should_stop_for_data_breakpoint d name frame wanted =
      let metas = get_or name [] d.watches.watch_meta in
      if is_empty metas
      then returned true d
      else any_stops (λ m. meta_matches_access_type (access_type m) wanted) frame metas d

  unfoldable pub should_stop_for_expression_breakpoint : Debugger → String → Frame → Outcome Bool
  unfolding get_or any_stops
  should_stop_for_expression_breakpoint d expression frame =
      let metas = get_or expression [] d.expression_meta in
      if is_empty metas then returned true d else any_stops (λ m. true) frame metas d

  unfoldable pub handle_read_watch_access : Debugger → String → Frame → Outcome Bool
  unfolding is_read_watching should_stop_for_data_breakpoint stop_at
  handle_read_watch_access d name frame =
      if not (is_read_watching objects d.watches name)
      then returned false d
      else elim (should_stop_for_data_breakpoint d name frame (codes "read")) [
        | raised d' ↦ raised d'
        | returned false d' ↦ returned false d'
        | returned true d' ↦
            returned true (stop_at d' frame data_breakpoint (some (codes name ++ codes " read")))
      ]

  unfoldable pub check_data_watch_changes : Debugger → Frame → Option (List String)
  unfolding check_for_changes
  check_data_watch_changes d frame = elim (frame.locals) [
    | none ↦ some []
    | some values ↦ check_for_changes objects d.watches frame.address values
  ]

  unfoldable pub update_watch_snapshots : Debugger → Frame → Debugger
  unfolding update_snapshots update_expression_snapshots
  update_watch_snapshots d frame = elim (frame.locals) [
    | none ↦ d
    | some values ↦ record d {
      watches = update_snapshots objects d.watches frame.address values;
      expressions = update_expression_snapshots evaluator d.expressions frame.address frame.view;
    }
  ]
