-- ===== src/Core/Breakpoints.antt =====
-- dapper/core/breakpoint_manager.py: `BreakpointManager`. The metadata of a line breakpoint is one
-- mutable dictionary that two maps hold, so it stands in a heap and the maps hold its address.
pub mod Index
pub mod Table
pub mod Refinement
pub mod Custom
use dapper.Base.{
  ℕ, ◌+◌, String, Bool, true, false, ◌||◌, not, Option, none, some, List, [], ◌∷◌, ◌==◌, nat_eq,
  string_eq, pair_eq, is_empty, select, if◌then◌else◌,
}
use dapper.Base.Dict.{Dict, get, put, remove, has, get_or, keys}

-- The values that a metadata dictionary holds.
pub data Value : Type 0 where
  null : Value
  num : ℕ → Value
  flag : Bool → Value
  text : String → Value

abbrev pub Meta : Type 0
Meta = Dict String Value

abbrev pub optional : Option String → Value
optional none = null
optional (some s) = text s

abbrev pub Key : Type 0
Key = String × ℕ

pub record Manager : Type 0 where
  pub heap : ℕ → Meta
  pub next_ref : ℕ
  pub line_meta : Dict Key ℕ
  pub line_meta_by_path : Dict String (Dict ℕ ℕ)
  pub function_names : List String
  pub function_meta : Dict String Meta
  pub custom : Dict String (Dict ℕ (Option String))

abbrev pub init : Manager
init = record {
  heap = λ r. [];
  next_ref = 0;
  line_meta = [];
  line_meta_by_path = [];
  function_names = [];
  function_meta = [];
  custom = [];
}

-- What a write through an address does.
unfoldable pub store : (ℕ → Meta) → ℕ → Meta → ℕ → Meta
store heap r meta q = if r == q then meta else heap q

-- `meta.setdefault(k, v)`
unfoldable pub setdefault : String → Value → Meta → Meta
unfolding has put
setdefault k v meta = if has k meta then meta else put k v meta

-- `meta.update(kwargs)`
unfoldable pub update : Meta → Meta → Meta
unfolding put
update meta [] = meta
update meta ((k, v) ∷ kwargs) = update (put k v meta) kwargs

-- What `record_line_breakpoint` writes into the dictionary of its breakpoint.
unfoldable pub refreshed : Option String → Option String → Option String → Meta → Meta → Meta
unfolding setdefault update
refreshed condition hit_condition log_message kwargs meta =
    update
      (put "logMessage" (optional log_message) (
        put "hitCondition" (optional hit_condition)
          (put "condition" (optional condition) (setdefault "hit" (num 0) meta))))
      kwargs

-- `d[path][line] = r`, after `d[path] = {}` where the path is new
unfoldable pub put_nested {ℓ} :
    {V : Type ℓ} → String → ℕ → V → Dict String (Dict ℕ V) → Dict String (Dict ℕ V)
unfolding put get_or
put_nested path line v d = put path (put line v (get_or path [] d)) d

-- `self.line_meta.get(key, {})`: the address of the dictionary, a new one where there is none
unfoldable pub address : Manager → Key → ℕ
unfolding get
address m key = elim (get key m.line_meta) [ none ↦ m.next_ref | some r ↦ r ]

unfoldable pub current : Manager → Key → Meta
unfolding get
current m key = elim (get key m.line_meta) [ none ↦ [] | some r ↦ m.heap r ]

unfoldable pub record_line_breakpoint :
    Manager → String → ℕ → Option String → Option String → Option String → Meta → Manager
unfolding store refreshed put_nested address current
record_line_breakpoint m path line condition hit_condition log_message kwargs =
    let r = address m (path, line) in
    record m {
      heap =
          store m.heap r
            (refreshed condition hit_condition log_message kwargs (current m (path, line)));
      next_ref = if has (path, line) m.line_meta then m.next_ref else m.next_ref + 1;
      line_meta = put (path, line) r m.line_meta;
      line_meta_by_path = put_nested path line r m.line_meta_by_path;
    }

-- `d.get(path)` and then `[line]`, where both are there
unfoldable pub get_nested {ℓ} : {V : Type ℓ} → String → ℕ → Dict String (Dict ℕ V) → Option V
unfolding get
get_nested path line d = elim (get path d) [ none ↦ none | some lines ↦ get line lines ]

-- The fallback of `get_line_meta`, which repairs the index by path.
unfoldable pub reindex : Manager → String → ℕ → Option ℕ → Option ℕ × Manager
unfolding put_nested
reindex m path line none = (none, m)
reindex m path line (some r) =
    (some r, record m { line_meta_by_path = put_nested path line r m.line_meta_by_path })

-- The address of the dictionary, and the manager after the call.
unfoldable pub get_line_meta : Manager → String → ℕ → Option ℕ × Manager
unfolding get_nested reindex
get_line_meta m path line = elim (get_nested path line m.line_meta_by_path) [
  | some r ↦ (some r, m)
  | none ↦ reindex m path line (get (path, line) m.line_meta)
]

-- `for line in path_meta: self.line_meta.pop((path, line), None)`
unfoldable pub remove_lines : String → List ℕ → Dict Key ℕ → Dict Key ℕ
unfolding remove
remove_lines path [] d = d
remove_lines path (line ∷ lines) d = remove_lines path lines (remove (path, line) d)

-- `[k for k in self.line_meta if k[0] == path]` and the loop that pops them
unfoldable pub remove_path : String → Dict Key ℕ → Dict Key ℕ
remove_path path [] = []
remove_path path ((k, r) ∷ d) =
    let rest = remove_path path d in if k.0 == path then rest else (k, r) ∷ rest

unfoldable pub clear_line_meta_for_file : Manager → String → Manager
unfolding get remove_lines remove_path
clear_line_meta_for_file m path = elim (get path m.line_meta_by_path) [
  | some path_meta ↦ record m {
    line_meta_by_path = remove path m.line_meta_by_path;
    line_meta = remove_lines path (keys path_meta) m.line_meta;
  }
  | none ↦ record m { line_meta = remove_path path m.line_meta }
]

pub data Hits : Type 0 where
  hits : ℕ → Hits
  type_error : Hits

-- `meta.get("hit", 0) + 1`; a truth value counts as a number.
unfoldable pub next_hit : Option Value → Hits
next_hit none = hits 1
next_hit (some (num n)) = hits (n + 1)
next_hit (some (flag b)) = hits (if b then 2 else 1)
next_hit (some null) = type_error
next_hit (some (text s)) = type_error

unfoldable pub count_hit : Manager → ℕ → Hits → Hits × Manager
unfolding store
count_hit m r (hits n) = (hits n, record m { heap = store m.heap r (put "hit" (num n) (m.heap r)) })
count_hit m r type_error = (type_error, m)

unfoldable pub hit_found : Option ℕ × Manager → Hits × Manager
unfolding next_hit count_hit
hit_found (none, m) = (hits 0, m)
hit_found (some r, m) = count_hit m r (next_hit (get "hit" (m.heap r)))

unfoldable pub increment_hit_count : Manager → String → ℕ → Hits × Manager
unfolding get_line_meta hit_found
increment_hit_count m path line = hit_found (get_line_meta m path line)

unfoldable pub set_function_breakpoints :
    Manager → List String → Option (Dict String Meta) → Manager
set_function_breakpoints m names metas = record m {
  function_names = names;
  function_meta = elim metas [ none ↦ [] | some d ↦ d ];
}

unfoldable pub get_function_meta : Manager → String → Meta
unfolding get_or
get_function_meta m name = get_or name [] m.function_meta

unfoldable pub clear_function_breakpoints : Manager → Manager
clear_function_breakpoints m = record m { function_names = []; function_meta = [] }

unfoldable pub has_function_breakpoints : Manager → Bool
has_function_breakpoints m = not (is_empty m.function_names) || not (is_empty m.function_meta)

unfoldable pub set_custom_breakpoint : Manager → String → ℕ → Option String → Manager
unfolding put_nested
set_custom_breakpoint m filename line condition = record m {
  custom = put_nested filename line condition m.custom;
}

unfoldable pub has_custom_breakpoint : Manager → String → ℕ → Bool
unfolding get has
has_custom_breakpoint m filename line = elim (get filename m.custom) [
  | none ↦ false
  | some lines ↦ has line lines
]

unfoldable pub clear_custom_breakpoint : Manager → String → ℕ → Manager × Bool
unfolding get has remove put
clear_custom_breakpoint m filename line = elim (get filename m.custom) [
  | none ↦ (m, false)
  | some lines ↦
      if has line lines
      then (record m { custom = put filename (remove line lines) m.custom }, true)
      else (m, false)
]

unfoldable pub clear_all_custom_breakpoints : Manager → Manager
clear_all_custom_breakpoints m = record m { custom = [] }

unfoldable pub clear_all : Manager → Manager
clear_all m = record m {
  line_meta = [];
  line_meta_by_path = [];
  function_names = [];
  function_meta = [];
  custom = [];
}

-- The calls that read or write the line breakpoints.
pub data Call : Type 0 where
  record_call : String → ℕ → Option String → Option String → Option String → Meta → Call
  get_call : String → ℕ → Call
  clear_call : String → Call
  hit_call : String → ℕ → Call
  reset_call : Call

unfoldable pub step : Manager → Call → Manager
unfolding record_line_breakpoint get_line_meta clear_line_meta_for_file increment_hit_count
    clear_all
step m (record_call path line condition hit_condition log_message kwargs) =
    record_line_breakpoint m path line condition hit_condition log_message kwargs
step m (get_call path line) = (get_line_meta m path line).1
step m (clear_call path) = clear_line_meta_for_file m path
step m (hit_call path line) = (increment_hit_count m path line).1
step m reset_call = clear_all m

unfoldable pub run : Manager → List Call → Manager
unfolding step
run m [] = m
run m (c ∷ calls) = run (step m c) calls
