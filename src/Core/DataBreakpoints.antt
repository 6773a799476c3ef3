-- ===== src/Core/DataBreakpoints.antt =====
-- dapper/core/data_breakpoint_state.py: the variables that `DataBreakpointState` watches. A set is
-- the list of its members, in the order in which they came.
pub mod Changes
pub mod Expressions
pub mod Registration
pub mod Watching
use dapper.Base.{
  ℕ, String, Bool, true, false, not, ◌&&◌, ◌||◌, Option, none, some, List, [], ◌∷◌, ◌++◌, ◌==◌,
  nat_eq, string_eq, contains, add, is_empty, select, if◌then◌else◌,
}
use dapper.Base.Dict.{Dict, get, put, has, get_or}
use dapper.Base.Text.{Codes, codes, strip, lower, same_text, has_infix}

pub data Access : Type 0 where
  read write readwrite : Access

-- `_normalize_access_type`, of what is no text and of a text
unfoldable pub normalize_access_type : Option Codes → Access
unfolding strip lower same_text
normalize_access_type none = write
normalize_access_type (some access_type) =
    let lowered = lower (strip access_type) in
    if same_text lowered (codes "read")
    then read
    else if same_text lowered (codes "readwrite")
        || same_text lowered (codes "read_write")
        || same_text lowered (codes "read-write")
    then readwrite
    else write

-- `mode in {"write", "readwrite"}` and `mode in {"read", "readwrite"}`
abbrev pub writes : Access → Bool
writes read = false
writes write = true
writes readwrite = true

abbrev pub reads : Access → Bool
reads read = true
reads write = false
reads readwrite = true

-- What `==` gives: the truth of its result, none where taking it raises; a `TypeError` or a
-- `ValueError`; or another exception.
pub data Comparison : Type 0 where
  compared : Option Bool → Comparison
  not_comparable fails : Comparison

-- `old is not new and not equal`, after the `try` around `==`; nothing when an exception leaves it.
unfoldable pub is_different : Bool → Comparison → Option Bool
is_different same fails = none
is_different same not_comparable = some (not same)
is_different true (compared truth) = some false
is_different false (compared none) = none
is_different false (compared (some equal)) = some (not equal)

-- The members for which a test says so, unless it raises for one.
unfoldable pub try_select {ℓ} : {A : Type ℓ} → (A → Option Bool) → List A → Option (List A)
try_select p [] = some []
try_select p (x ∷ xs) =
    let rest = try_select p xs in
    elim (p x) [
      | none ↦ none
      | some chosen ↦ elim rest [
        | none ↦ none
        | some found ↦ some (if chosen then x ∷ found else found)
      ]
    ]

-- `M` is the type of the metadata, `access` its "accessType" where that is a text. Values are
-- compared by identity and by `==`.
pub record Objects : Type 1 where
  pub M : Type 0
  pub V : Type 0
  pub access : M → Option Codes
  pub same : V → V → Bool
  pub equal : V → V → Comparison

module _ (objects : Objects) where
  open objects use {M, V, access, same, equal}

  pub record State : Type 0 where
    pub watch_names : List String
    pub read_watch_names : List String
    pub watch_meta : Dict String (List M)
    pub last_values_by_frame : Dict ℕ (Dict String V)
    pub global_values : Dict String V
    pub frame_watches : Dict ℕ (List String)

  -- `{n for n in names if isinstance(n, str) and n}`
  unfoldable pub name_set : List String → List String
  unfolding add
  name_set [] = []
  name_set (n ∷ names) = let rest = name_set names in if n == "" then rest else add n rest

  -- `{n: [] for n in names}`
  unfoldable pub no_meta : List String → Dict String (List M)
  unfolding put
  no_meta [] = []
  no_meta (n ∷ names) = put n [] (no_meta names)

  -- What the loop over the metadata collects.
  pub record Collected : Type 0 where
    pub watch_meta : Dict String (List M)
    pub names_with_meta : List String
    pub write_names : List String
    pub read_names : List String

  abbrev pub collected_none : List String → Collected
  collected_none watched = record {
    watch_meta = no_meta watched;
    names_with_meta = [];
    write_names = [];
    read_names = [];
  }

  unfoldable pub collect : Collected → String × M → Collected
  collect c (name, meta) =
      let mode = normalize_access_type (access meta) in
      if has name c.watch_meta
      then record {
        watch_meta = put name (get_or name [] c.watch_meta ++ meta ∷ []) c.watch_meta;
        names_with_meta = add name c.names_with_meta;
        write_names = if writes mode then add name c.write_names else c.write_names;
        read_names = if reads mode then add name c.read_names else c.read_names;
      }
      else c

  unfoldable pub collect_all : Collected → List (String × M) → Collected
  collect_all c [] = c
  collect_all c (m ∷ metas) = collect_all (collect c m) metas

  -- `names.update(others)`
  unfoldable pub add_all : List String → List String → List String
  unfolding add
  add_all [] names = names
  add_all (n ∷ others) names = add n (add_all others names)

  unfoldable pub register_watches : State → List String → List (String × M) → State
  register_watches s names metas =
      let watched = name_set names in
      let c = collect_all (collected_none watched) metas in
      if is_empty metas
      then record s { watch_names = watched; read_watch_names = []; watch_meta = no_meta watched }
      else record s {
        watch_names =
            add_all (select (λ n. not (contains n c.names_with_meta)) watched) c.write_names;
        read_watch_names = c.read_names;
        watch_meta = c.watch_meta;
      }

  unfoldable pub is_watching : State → String → Bool
  unfolding contains
  is_watching s name = contains name s.watch_names

  unfoldable pub is_read_watching : State → String → Bool
  unfolding contains
  is_read_watching s name = contains name s.read_watch_names

  unfoldable pub clear_value_snapshots : State → State
  clear_value_snapshots s = record s { last_values_by_frame = []; global_values = [] }

  -- The value of a name before: that of its frame, or else the global one.
  unfoldable pub old_value : State → ℕ → String → Option V
  unfolding get
  old_value s frame_id name = elim (get frame_id s.last_values_by_frame) [
    | none ↦ get name s.global_values
    | some prior ↦ elim (get name prior) [ some v ↦ some v | none ↦ get name s.global_values ]
  ]

  unfoldable pub is_changed : Option V → Option V → Option Bool
  unfolding is_different
  is_changed none old = some false
  is_changed (some new) none = some false
  is_changed (some new) (some old) = is_different (same old new) (equal new old)

  -- The loop over the watched names finds those that have changed; nothing when a comparison
  -- raises.
  unfoldable pub check_for_changes : State → ℕ → Dict String V → Option (List String)
  unfolding try_select is_changed old_value get
  check_for_changes s frame_id current_locals =
      try_select (λ name. is_changed (get name current_locals) (old_value s frame_id name))
        s.watch_names

  -- `{n: current_locals.get(n) for n in names if n in current_locals}`
  unfoldable pub snapshot : List String → Dict String V → Dict String V
  unfolding get put
  snapshot [] current_locals = []
  snapshot (n ∷ names) current_locals = elim (get n current_locals) [
    | none ↦ snapshot names current_locals
    | some v ↦ put n v (snapshot names current_locals)
  ]

  unfoldable pub update_globals : List String → Dict String V → Dict String V → Dict String V
  unfolding get put
  update_globals [] current_locals values = values
  update_globals (n ∷ names) current_locals values = elim (get n current_locals) [
    | none ↦ update_globals names current_locals values
    | some v ↦ update_globals names current_locals (put n v values)
  ]

  unfoldable pub update_snapshots : State → ℕ → Dict String V → State
  unfolding snapshot update_globals put
  update_snapshots s frame_id current_locals = if is_empty s.watch_names then s else record s {
    last_values_by_frame =
        put frame_id (snapshot s.watch_names current_locals) s.last_values_by_frame;
    global_values = update_globals s.watch_names current_locals s.global_values;
  }

  -- The loop over the identifiers of a frame's watches.
  unfoldable pub any_data_id : String → List String → Bool
  unfolding has_infix
  any_data_id name [] = false
  any_data_id name (did ∷ data_ids) =
      has_infix (codes ":var:" ++ codes name) (codes did)
      || has_infix (codes name) (codes did)
      || any_data_id name data_ids

  unfoldable pub has_data_breakpoint_for_name : State → String → Option ℕ → Bool
  unfolding contains has get_or any_data_id
  has_data_breakpoint_for_name s name frame_id =
      contains name s.watch_names
      || has name s.watch_meta
      || elim frame_id [ none ↦ false | some f ↦ any_data_id name (get_or f [] s.frame_watches) ]
