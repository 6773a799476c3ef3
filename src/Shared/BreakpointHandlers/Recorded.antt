-- ===== src/Shared/BreakpointHandlers/Recorded.antt =====
-- What the client's line breakpoints leave in the metadata.
use dapper.Base.{
  ℕ, ◌≡◌, refl, ap, ◌∙◌, String, Bool, true, false, not, ◌&&◌, Option, none, some, List, [], ◌∷◌,
  map, ◌==◌, nat_eq, string_eq, eq_iff, arith, if◌then◌else◌, Bool-cases, inl, inr, ◌⊎◌,
}
use dapper.Base.Dict.{put}
use dapper.Core.Breakpoints.{
  Manager, Meta, refreshed, num, optional, record_line_breakpoint, clear_line_meta_for_file,
}
use dapper.Core.Breakpoints.Index.{IsIndexed, record_line-IsIndexed, clear_line_meta-IsIndexed}
use dapper.Core.Breakpoints.Table.{
  table as meta_table, entry, table-record_line, table-clear_line_meta,
}
use dapper.Core.Debugger.{World, Debugger}
use dapper.Core.Debugger.Events.{record_breakpoint, clear_break_meta_for_file}
use dapper.Shared.BreakpointHandlers.{
  LineArgument, BreakTable, clear_breaks_for_file, clear_file_breakpoints, set_one, set_all,
  handle_set_breakpoints,
}

-- The dictionary of a breakpoint that has not been hit.
abbrev pub new_meta : LineArgument → Meta
new_meta bp =
    ("hit", num 0)
    ∷ ("condition", optional bp.condition)
    ∷ ("hitCondition", optional bp.hit_condition)
    ∷ ("logMessage", optional bp.log_message)
    ∷ []

-- The dictionary of the last descriptor of a line, if it has one.
abbrev pub last_meta : ℕ → Option Meta → List LineArgument → Option Meta
last_meta l prior [] = prior
last_meta l prior (bp ∷ bps) =
    last_meta l (if not (bp.line == 0) && bp.line == l then some (new_meta bp) else prior) bps

-- The lines that are answered.
abbrev pub lines_of : List LineArgument → List ℕ
lines_of [] = []
lines_of (bp ∷ bps) = if bp.line == 0 then lines_of bps else bp.line ∷ lines_of bps

refreshed_new :
    (bp : LineArgument) → refreshed bp.condition bp.hit_condition bp.log_message [] [] ≡ new_meta bp
unfolding refreshed put
refreshed_new bp = refl

refreshed_again :
    (bp prior : LineArgument)
    → refreshed bp.condition bp.hit_condition bp.log_message [] (new_meta prior) ≡ new_meta bp
unfolding refreshed put
refreshed_again bp prior = refl

-- The breakpoints of a file have not been hit since they were set.
IsNew : Manager → String → Type 0
IsNew m path =
    (l : ℕ)
    → (meta_table m path l ≡ none)
      ⊎ ((bp : LineArgument) × (meta_table m path l ≡ some (new_meta bp)))

refreshed-entry :
    (m : Manager) (path : String) (bp : LineArgument)
    → IsNew m path
    → refreshed bp.condition bp.hit_condition bp.log_message [] (entry (meta_table m path bp.line))
      ≡ new_meta bp
unfolding IsNew entry
refreshed-entry m path bp new = elim (new bp.line) [
  | inl e ↦ rw (e, entry) (refreshed_new bp)
  | inr (b, e) ↦ rw (e, entry) (refreshed_again bp b)
]

module _ (m : Manager) (valid : IsIndexed m) (path : String) (bp : LineArgument)
    (new : IsNew m path) where
  abbrev recorded : Manager
  recorded = record_line_breakpoint m path bp.line bp.condition bp.hit_condition bp.log_message []

  table-recorded :
      (p : String) (l : ℕ)
      → meta_table recorded p l
        ≡ (if path == p && bp.line == l then some (new_meta bp) else meta_table m p l)
  table-recorded p l =
      table-record_line m valid path bp.line bp.condition bp.hit_condition bp.log_message [] p l
      ∙ ap (λ meta. if path == p && bp.line == l then some meta else meta_table m p l)
          (refreshed-entry m path bp new)

  recorded-IsNew : IsNew recorded path
  unfolding IsNew
  recorded-IsNew l = elim (Bool-cases (path == path && bp.line == l)) [
    | inl y ↦ inr (bp, ground (arith, table-recorded path l))
    | inr n ↦ elim (new l) [
      | inl e ↦ inl (ground (arith, table-recorded path l))
      | inr (b, e) ↦ inr (b, ground (arith, table-recorded path l))
    ]
  ]

-- One descriptor more, seen from a path and a line.
one_more :
    (path p : String) (l : ℕ) (bp : LineArgument) (bps : List LineArgument) (prior : Option Meta)
    → bp.line == 0 ≡ false
    → (if path == p
        then last_meta l (if path == p && bp.line == l then some (new_meta bp) else prior) bps
        else (if path == p && bp.line == l then some (new_meta bp) else prior))
      ≡ (if path == p then last_meta l prior (bp ∷ bps) else prior)
one_more path p l bp bps prior n = elim (Bool-cases (path == p)) [
  | inl y ↦ rw (y, n) refl
  | inr m ↦ rw m refl
]

module _ (world : World) (table : BreakTable world) (path : String) where
  set_all-skip :
      (d : Debugger world) (bp : LineArgument) (bps : List LineArgument)
      → bp.line == 0 ≡ true
      → set_all world table d path (bp ∷ bps) ≡ set_all world table d path bps
  unfolding set_all
  set_all-skip d bp bps h = rw (h, set_all) refl

  set_all-one :
      (d : Debugger world) (bp : LineArgument) (bps : List LineArgument)
      → bp.line == 0 ≡ false
      → set_all world table d path (bp ∷ bps) ≡ (
        (((set_one world table d path bp).0, bp.line)
            ∷ (set_all world table (set_one world table d path bp).1 path bps).0),
        (set_all world table (set_one world table d path bp).1 path bps).1,
      )
  unfolding set_all
  set_all-one d bp bps h = rw (h, set_all) refl

  set_one_manager :
      (d : Debugger world) (bp : LineArgument)
      → (set_one world table d path bp).1.bp_manager
        ≡ record_line_breakpoint d.bp_manager path bp.line bp.condition bp.hit_condition
            bp.log_message []
  unfolding set_one record_breakpoint
  set_one_manager d bp = refl

  -- What the loop leaves: agreement of the maps, the answers and the dictionaries.
  record Set (d d' : Debugger world) (bps : List LineArgument) (answers : List (Bool × ℕ))
      (p : String) (l : ℕ) : Type 0 where
    indexed : IsIndexed d'.bp_manager
    answered : map (λ a. a.1) answers ≡ lines_of bps
    metas : meta_table d'.bp_manager p l ≡ (
        if path == p
        then last_meta l (meta_table d.bp_manager p l) bps
        else meta_table d.bp_manager p l)

  set_all_lem :
      (bps : List LineArgument) (d : Debugger world)
      → IsIndexed d.bp_manager
      → IsNew d.bp_manager path
      → (p : String) (l : ℕ)
      → Set d (set_all world table d path bps).1 bps (set_all world table d path bps).0 p l
  unfolding set_all
  set_all_lem [] d valid new p l = record { indexed = valid; answered = refl; metas = ground arith }
  set_all_lem (bp ∷ bps) d valid new p l = elim (Bool-cases (bp.line == 0)) [
    | inl y ↦
        let rest = set_all_lem bps d valid new p l in
        rw (set_all-skip d bp bps y) (record {
          indexed = rest.indexed;
          answered = rw y rest.answered;
          metas = rw y rest.metas;
        })
    | inr n ↦
        let one = (set_one world table d path bp).1 in
        let rest =
          set_all_lem bps one
            (record_line-IsIndexed d.bp_manager valid path bp.line bp.condition bp.hit_condition
              bp.log_message [])
            (recorded-IsNew d.bp_manager valid path bp new) p l in
        rw (set_all-one d bp bps n) (record {
          indexed = rest.indexed;
          answered = rw n (ap (λ ls. bp.line ∷ ls) rest.answered);
          metas =
              rest.metas
              ∙ ap (λ t. if path == p then last_meta l t bps else t)
                  (table-recorded d.bp_manager valid path bp new p l)
              ∙ one_more path p l bp bps (meta_table d.bp_manager p l) n;
        })
  ]

-- What clearing leaves: no dictionary for the path, whatever there was before.
cleared_lem :
    (world : World) (table : BreakTable world) (d : Debugger world) (path : String)
    → IsIndexed d.bp_manager
    → IsIndexed (clear_file_breakpoints world table d path).bp_manager
      × ((p : String) (l : ℕ)
          → meta_table (clear_file_breakpoints world table d path).bp_manager p l
            ≡ (if path == p then none else meta_table d.bp_manager p l))
unfolding clear_file_breakpoints clear_breaks_for_file clear_break_meta_for_file
cleared_lem world table d path valid =
    let once = clear_line_meta-IsIndexed d.bp_manager path valid in
    (
      clear_line_meta-IsIndexed (clear_line_meta_for_file d.bp_manager path) path once,
      λ p l.
          table-clear_line_meta (clear_line_meta_for_file d.bp_manager path) once path 0 p l
          ∙ ap (λ t. if path == p then none else t)
              (table-clear_line_meta d.bp_manager valid path 0 p l)
          ∙ ground arith,
    )

named_path :
    (world : World) (table : BreakTable world) (d : Debugger world) (path : String)
    (bps : List LineArgument)
    → path == "" ≡ false
    → handle_set_breakpoints world table (some d) (some path) bps ≡ (
      some (set_all world table (clear_file_breakpoints world table d path) path bps).0,
      some (set_all world table (clear_file_breakpoints world table d path) path bps).1,
    )
unfolding handle_set_breakpoints
named_path world table d path bps h = rw (h, handle_set_breakpoints) refl

cleared_first :
    (path p : String) (l : ℕ) (bps : List LineArgument) (prior : Option Meta)
    → (if path == p
        then last_meta l (if path == p then none else prior) bps
        else (if path == p then none else prior))
      ≡ (if path == p then last_meta l none bps else prior)
cleared_first path p l bps prior = elim (Bool-cases (path == p)) [
  | inl y ↦ rw y refl
  | inr m ↦ rw m refl
]

-- Whatever breakpoints there were, the command replaces those of its file and of no other:
-- afterwards a line of the file has metadata exactly where the client named it, of its last
-- descriptor and with no hit yet, and the answers are for the lines that the client named, in
-- order. The two maps of the manager agree as before.
pub handle_set_breakpoints_lem :
    (world : World) (table : BreakTable world) (d : Debugger world) (path : String)
    (bps : List LineArgument) (p : String) (l : ℕ)
    → IsIndexed d.bp_manager
    → path == "" ≡ false
    → (answers : List (Bool × ℕ)) × (d' : Debugger world) × (handle_set_breakpoints world table
          (some d)
          (some path)
          bps
        ≡ (some answers, some d'))
      × IsIndexed d'.bp_manager
      × (map (λ a. a.1) answers ≡ lines_of bps)
      × (meta_table d'.bp_manager p l
          ≡ (if path == p then last_meta l none bps else meta_table d.bp_manager p l))
unfolding IsNew
handle_set_breakpoints_lem world table d path bps p l valid named =
    let (indexed, cleared) = cleared_lem world table d path valid in
    let empty = clear_file_breakpoints world table d path in
    let set =
      set_all_lem world table path bps empty indexed
        (λ n. inl (ground (arith, cleared path n, eq_iff path path))) p l in
    (
      (set_all world table empty path bps).0,
      (set_all world table empty path bps).1,
      named_path world table d path bps named,
      set.indexed,
      set.answered,
      set.metas
          ∙ ap (λ t. if path == p then last_meta l t bps else t) (cleared p l)
          ∙ cleared_first path p l bps (meta_table d.bp_manager p l),
    )
