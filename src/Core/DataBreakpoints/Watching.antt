-- ===== src/Core/DataBreakpoints/Watching.antt =====
-- dapper/core/data_breakpoint_state.py: which expressions `DataBreakpointState` watches, with their
-- metadata, and what its reset leaves.
use dapper.Base.{
  String, Bool, not, ◌||◌, List, [], ◌∷◌, ◌++◌, string_eq, contains, add, is_empty, if◌then◌else◌,
}
use dapper.Base.Dict.{Dict, put, has, get_or}
use dapper.Base.Text.{codes, strip}
use dapper.Core.DataBreakpoints.{Objects, State}
use dapper.Core.DataBreakpoints.Expressions.{Evaluator, Watches}

-- `{e for e in expressions if e.strip()}`
unfoldable pub expression_set : List String → List String
unfolding strip add
expression_set [] = []
expression_set (e ∷ es) =
    let rest = expression_set es in if is_empty (strip (codes e)) then rest else add e rest

-- The entries of the cache whose expressions are still watched.
unfoldable pub keep_watched {ℓ} : {C : Type ℓ} → List String → Dict String C → Dict String C
unfolding contains
keep_watched watched [] = []
keep_watched watched ((e, code) ∷ cache) =
    let rest = keep_watched watched cache in if contains e watched then (e, code) ∷ rest else rest

module _ {ℓ} {M : Type ℓ} where
  -- `{e: [] for e in self.watch_expressions}`
  unfoldable pub no_expression_meta : List String → Dict String (List M)
  unfolding put
  no_expression_meta [] = []
  no_expression_meta (e ∷ es) = put e [] (no_expression_meta es)

  -- The loop that appends the metadata of watched expressions.
  unfoldable pub collect_expression_meta :
      Dict String (List M) → List (String × M) → Dict String (List M)
  unfolding has put get_or
  collect_expression_meta metas [] = metas
  collect_expression_meta metas ((e, meta) ∷ rest) =
      collect_expression_meta
        (if has e metas then put e (get_or e [] metas ++ meta ∷ []) metas else metas) rest

  unfoldable pub get_meta_for : Dict String (List M) → String → List M
  unfolding get_or
  get_meta_for metas name = get_or name [] metas

module _ (evaluator : Evaluator) {M : Type 0} where
  unfoldable pub register_expression_watches :
      Watches evaluator → List String → List (String × M) → Watches evaluator × Dict String (List M)
  unfolding expression_set keep_watched no_expression_meta collect_expression_meta
  register_expression_watches s expressions metas =
      let watched = expression_set expressions in
      (
        record s {
          watch_expressions = watched;
          compiled_expression_cache = keep_watched watched s.compiled_expression_cache;
        },
        collect_expression_meta (no_expression_meta watched) metas,
      )

-- The policy of evaluation stays.
unfoldable pub clear_expressions : (evaluator : Evaluator) → Watches evaluator → Watches evaluator
clear_expressions evaluator s = record s {
  watch_expressions = [];
  last_expression_values_by_frame = [];
  global_expression_values = [];
  compiled_expression_cache = [];
}

unfoldable pub clear_variables : (objects : Objects) → State objects → State objects
clear_variables objects s = record {
  watch_names = [];
  read_watch_names = [];
  watch_meta = [];
  last_values_by_frame = [];
  global_values = [];
  frame_watches = [];
}

unfoldable pub has_watches :
    (objects : Objects) (evaluator : Evaluator) → State objects → Watches evaluator → Bool
has_watches objects evaluator s w =
    not (is_empty s.watch_names) || not (is_empty w.watch_expressions)
