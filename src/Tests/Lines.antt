-- ===== src/Tests/Lines.antt =====
-- A program of one thread whose only breakpoint of `bdb.Bdb` is at line 7 of a.py. The state of
-- `Bdb`
-- is a number: 1 after `set_continue`, 2 after `set_step`, 3 after `_set_stopinfo`.
use dapper.Base.{
  All, Option, ℕ, ◌≡◌, refl, String, Bool, true, false, ◌&&◌, ◌||◌, none, some, List, [], ◌∷◌, ◌++◌,
  map, nat_eq, string_eq, ◌==◌, if◌then◌else◌,
}
use dapper.Base.Text.{codes}
use dapper.Core.Breakpoints as Breakpoints
use dapper.Core.Breakpoints.{Meta, num, text, store}
use dapper.Core.Breakpoints.Index.{IsIndexed, init-IsIndexed}
use dapper.Core.Breakpoints.Table.{table as meta_table}
use dapper.Core.DataBreakpoints.{normalize_access_type, writes, reads}
use dapper.Core.Stepping as Stepping
use dapper.Core.Stepping.{breakpoint, step}
use dapper.Core.Threads as Threads
use dapper.Core.Threads.{FrameObject, top, is_stopped}
use dapper.Core.Debugger.{
  Message, World, Frame, Debugger, returned, stopped, set_continue, check_data_watch_changes,
  update_watch_snapshots,
}
use dapper.Core.Debugger.AccessTypes.{is_known, matches-normalize}
use dapper.Core.Debugger.Access.{access_mode, meta_matches_access_type}
use dapper.Core.Debugger.Lines.{user_line, arrive, has_line_breakpoint}
use dapper.Core.DataBreakpoints.Expressions.{check_expression_changes}
use dapper.Core.Debugger.Skips.{user_line_changed, user_line_quiet}
use dapper.Core.Debugger.Hidden.{state_of, is_of_watch, watch-hides-breakpoint}
use dapper.Shared.SteppingHandlers.{Steps, ThreadArgument, number}
use dapper.Shared.SteppingHandlers.Pause.{paused_thread, handle_pause, handle_pause_lem}
use dapper.Core.Threads.{is_stopped}
use dapper.Shared.BreakpointHandlers.{LineArgument, BreakTable, handle_set_breakpoints}
use dapper.Shared.BreakpointHandlers.Recorded.{lines_of, last_meta, handle_set_breakpoints_lem}
use dapper.Tests.Expressions.{evaluator}

abbrev world : World
world = record {
  evaluator = evaluator;
  truth = λ v. some false;
  show = λ v. some (v ∷ []);
  int_of = λ s. none;
  access_type = λ m. none;
  Bdb = ℕ;
  canonic = λ f. f;
  breaks = λ b. ("a.py", 7 ∷ []) ∷ [];
  get_break = λ b f l. f == "a.py" && l == 7;
  bdb_set_continue = λ b. 1;
  set_step = λ b. 2;
  set_stopinfo = λ b. 3;
  set_botframe = λ b f. b;
  is_user_file = λ f. true;
  path_name = λ f. f;
  memory = λ a. record {
    code_fails = false;
    co_filename = some "a.py";
    co_name = some "main";
    f_lineno = some 7;
    f_back = top;
  };
  thread_id = 5;
  thread_name = "MainThread";
  Info = ℕ;
}

abbrev waits : Debugger world → Debugger world
waits d = d

abbrev at_seven : Frame world
at_seven = record {
  address = 100;
  filename = "a.py";
  line = 7;
  view = 0;
  locals = some (("x", 2) ∷ []);
}

abbrev at_eight : Frame world
at_eight = record at_seven { line = 8 }

abbrev d : Debugger world
d = record {
  just_my_code = true;
  bdb = 0;
  bp_manager = Breakpoints.init;
  controller = Stepping.init;
  tracker = Threads.init;
  exceptions = record {
    config = record {
      break_on_raised = false;
      break_on_uncaught = false;
      raised_condition = none;
      uncaught_condition = none;
    };
    exception_info_by_thread = [];
  };
  watches = record {
    watch_names = [];
    read_watch_names = [];
    watch_meta = [];
    last_values_by_frame = [];
    global_values = [];
    frame_watches = [];
  };
  expressions = record {
    watch_expressions = [];
    last_expression_values_by_frame = [];
    global_expression_values = [];
    strict_expression_watch_policy = false;
    compiled_expression_cache = [];
  };
  expression_meta = [];
  data_heap = λ m. ("condition", text "y") ∷ [];
  sent = [];
}

-- The variable `x` is watched under a condition that is false, and it was 1.
abbrev watching : Debugger world
watching = record d {
  watches = record (d.watches) {
    watch_names = "x" ∷ [];
    watch_meta = ("x", 9 ∷ []) ∷ [];
    global_values = ("x", 1) ∷ [];
  };
}

abbrev stepping : Debugger world
stepping = record d { controller = Stepping.request_step Stepping.init }

watch-hides-breakpoint_example :
    (heard : List Message) × ((state_of world (user_line world waits watching at_seven)).bp_manager
      ≡ Breakpoints.init)
    × ((state_of world (user_line world waits watching at_seven)).bdb ≡ 0)
    × ((state_of world (user_line world waits watching at_seven)).sent ≡ [] ++ heard)
    × All (λ m. is_of_watch m ≡ true) heard
unfolding arrive check_data_watch_changes check_expression_changes
watch-hides-breakpoint_example = watch-hides-breakpoint world waits watching at_seven refl refl

-- Clients that let the program go on, and that end it.
abbrev leaves : Debugger world → Debugger world
leaves d = record d { bdb = 9 }

user_line_changed_example :
    user_line world waits watching at_seven ≡ user_line world leaves watching at_seven
unfolding arrive check_data_watch_changes check_expression_changes
user_line_changed_example = user_line_changed world waits leaves watching at_seven refl refl

user_line_quiet_example :
    (e : Debugger world) × (user_line world waits d at_eight ≡ returned _ (set_continue world e))
    × ((set_continue world e).sent ≡ [])
    × ((set_continue world e).tracker ≡ Threads.init)
    × ((set_continue world e).bp_manager ≡ Breakpoints.init)
    × ((set_continue world e).data_heap ≡ d.data_heap)
unfolding arrive check_data_watch_changes check_expression_changes has_line_breakpoint
    update_watch_snapshots
user_line_quiet_example = user_line_quiet world waits d at_eight refl refl refl refl refl

matches-normalize_example :
    (meta_matches_access_type (some (codes "rw")) (codes "read")
      ≡ reads (normalize_access_type (some (codes "rw"))))
    × (meta_matches_access_type (some (codes "rw")) (codes "write") ≡ (
        writes (normalize_access_type (some (codes "rw")))
        && is_known (access_mode (some (codes "rw")))))
    × ((if is_known (access_mode (some (codes "rw")))
          then true
          else writes (normalize_access_type (some (codes "rw"))))
        ≡ true)
matches-normalize_example = matches-normalize (some (codes "rw"))

abbrev steps : Steps world
steps = record {
  set_next = λ b f. 4;
  set_return = λ b f. 5;
  trace_opcodes = λ b f. b;
  is_coroutine = λ f. false;
}

abbrev two_stopped : Debugger world
two_stopped = record d { tracker = record (d.tracker) { stopped_thread_ids = 5 ∷ 6 ∷ [] } }

abbrev six : ThreadArgument
six = number 6

abbrev break_table : BreakTable world
break_table = record {
  set_break = λ b f l c. (true, b);
  clear_break = λ b f l. b;
  clear_all_file_breaks = λ b f. b;
}

abbrev file : String
file = "a.py"

abbrev two_lines : List LineArgument
two_lines =
    record { line = 7; condition = some "x"; hit_condition = none; log_message = none }
    ∷ record { line = 0; condition = none; hit_condition = none; log_message = none }
    ∷ record { line = 7; condition = none; hit_condition = none; log_message = none }
    ∷ []

handle_set_breakpoints_example :
    (answers : List (Bool × ℕ)) × (d' : Debugger world) × (handle_set_breakpoints world break_table
        (some d)
        (some file)
        two_lines
      ≡ (some answers, some d'))
    × IsIndexed d'.bp_manager
    × (map (λ a. a.1) answers ≡ lines_of two_lines)
    × (meta_table d'.bp_manager file 7
        ≡ (if file == file then last_meta 7 none two_lines else meta_table d.bp_manager file 7))
handle_set_breakpoints_example =
    handle_set_breakpoints_lem world break_table d file two_lines file 7 init-IsIndexed refl

abbrev frames : ℕ → Option ℕ
frames t = some 100

abbrev main_thread : ℕ
main_thread = 5

handle_pause_example :
    (d' : Debugger world) × (handle_pause world frames 1 six (some stepping) ≡ some d')
    × (d'.sent ≡ stepping.sent ++ stopped 6 Stepping.pause none ∷ [])
    × (is_stopped d'.tracker main_thread
        ≡ (main_thread == 6 || is_stopped stepping.tracker main_thread))
    × (d'.bdb ≡ stepping.bdb)
    × (record (d'.controller) { current_frame = stepping.controller.current_frame }
        ≡ stepping.controller)
unfolding paused_thread
handle_pause_example = handle_pause_lem world frames 1 six stepping 6 main_thread refl
