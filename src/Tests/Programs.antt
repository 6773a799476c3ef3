-- ===== src/Tests/Programs.antt =====
-- Stacks, exceptions and data breakpoints of small programs.
use dapper.Base.{
  ℕ, ◌+◌, ◌-◌, ◌≤◌, ◌≡◌, String, Bool, true, false, not, ◌&&◌, ◌||◌, Option, none, some, List, [],
  ◌∷◌, ◌==◌, nat_eq, string_eq, ltb, length, get_elem?, contains, if◌then◌else◌,
}
use dapper.Base.Dict.{Dict}
use dapper.Base.Text.{Codes, codes}
use dapper.Core.Threads.{
  Memory, caller, init, get_frame, build_stack_frames, build_frames_from_list,
}
use dapper.Core.Threads.Registry.{IsFresh, readable, describe_from, init-IsFresh, build_frames_lem}
use dapper.Core.Threads.Chain.{IsChain, build_stack_frames_lem}
use dapper.Core.Exceptions.{Config, set_from_filters, matches_condition, should_break}
use dapper.Core.Exceptions.Breaks.{should_break_lem}
use dapper.Core.DataBreakpoints.{
  Objects, State, reads, writes, register_watches, is_watching, is_read_watching, compared,
}
use dapper.Core.DataBreakpoints.Registration.{some_access, register_watches_lem}

-- A frame that calls itself: its caller is frame 5, and that of frame 5 is frame 4.
abbrev cyclic : Memory
cyclic f = record {
  code_fails = false;
  co_filename = some "a.py";
  co_name = some "f";
  f_lineno = some f;
  f_back = if f == 4 then caller 5 else caller 4;
}

abbrev same_name : String → String
same_name s = s

build_stack_frames_example :
    (fs : List ℕ) × IsChain cyclic 128 (some 4) [] fs
    × (length fs ≤ 128)
    × (readable same_name cyclic fs ≡ fs)
    × (build_stack_frames same_name cyclic init (some 4) 128
        ≡ build_frames_from_list same_name cyclic init fs)
build_stack_frames_example = build_stack_frames_lem same_name cyclic init (some 4) 128

abbrev two : List ℕ
two = 4 ∷ 5 ∷ []

build_frames_example :
    let built = build_frames_from_list same_name cyclic init two in
    (built.0 ≡ describe_from same_name cyclic 1 (readable same_name cyclic two))
    × (built.1.next_frame_id ≡ 1 + length (readable same_name cyclic two))
    × (get_frame built.1 2
        ≡ (if ltb 2 1 then get_frame init 2 else get_elem? (readable same_name cyclic two) (2 - 1)))
    × IsFresh built.1
build_frames_example = build_frames_lem same_name cyclic init two 2 init-IsFresh

abbrev config : Config
config = record {
  break_on_raised = false;
  break_on_uncaught = false;
  raised_condition = some (codes "ValueError");
  uncaught_condition = none;
}

abbrev filters : List String
filters = "raised" ∷ "uncaught" ∷ []

abbrev never : Codes → Bool
never e = false

abbrev classes : Option (List Codes)
classes = some (codes "ValueError" ∷ codes "Exception" ∷ [])

should_break_example : should_break (set_from_filters config filters) never classes (some true) ≡ (
    contains "raised" filters && matches_condition never classes config.raised_condition
    || (contains "uncaught" filters
        && not true
        && matches_condition never classes config.uncaught_condition))
should_break_example = should_break_lem config filters never classes (some true)

-- Values are numbers, and metadata is its access.
abbrev numbers : Objects
numbers = record {
  M = Option Codes;
  V = ℕ;
  access = λ m. m;
  same = λ a b. a == b;
  equal = λ a b. compared (some (a == b));
}

abbrev watching_x : State numbers
watching_x = record {
  watch_names = "x" ∷ [];
  read_watch_names = [];
  watch_meta = [];
  last_values_by_frame = [];
  global_values = [];
  frame_watches = [];
}

abbrev name : String
name = "x"

abbrev names : List String
names = "x" ∷ "y" ∷ []

abbrev metas : List (String × Option Codes)
metas = ("x", some (codes "readWrite")) ∷ ("z", none) ∷ []

register_watches_example :
    (is_watching numbers (register_watches numbers watching_x names metas) name ≡ (
      (not (name == "") && contains name names)
      && (some_access numbers writes name metas
          || not (some_access numbers (λ a. true) name metas))))
    × (is_read_watching numbers (register_watches numbers watching_x names metas) name
        ≡ ((not (name == "") && contains name names) && some_access numbers reads name metas))
register_watches_example = register_watches_lem numbers name watching_x names metas

abbrev before : Dict String ℕ
before = ("x", 1) ∷ []

abbrev later : Dict String ℕ
later = ("x", 2) ∷ []
