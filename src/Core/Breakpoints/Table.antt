-- ===== src/Core/Breakpoints/Table.antt =====
-- `BreakpointManager` implements a flat table from a path and a line to a metadata dictionary.
use dapper.Base.{
  ℕ, String, ◌≡◌, refl, ◌&&◌, Option, none, some, [], ◌==◌, nat_eq, string_eq, pair_eq, arith,
  if◌then◌else◌, eq_iff, Option-cases, inl, inr,
}
use dapper.Base.Dict.{get, put, get-put}
use dapper.Core.Breakpoints.{
  Manager, Meta, num, Hits, hits, type_error, store, refreshed, address, current,
  record_line_breakpoint, clear_line_meta_for_file, increment_hit_count, count_hit, hit_found,
  next_hit,
}
use dapper.Core.Breakpoints.Index.{IsIndexed, address_owner, get-clear_line_meta, get_line_meta-eq}

-- The table that a manager stands for.
unfoldable pub table : Manager → String → ℕ → Option Meta
table m path line = elim (get (path, line) m.line_meta) [ none ↦ none | some r ↦ some (m.heap r) ]

-- The table's entry, or the empty dictionary.
unfoldable pub entry : Option Meta → Meta
entry none = []
entry (some meta) = meta

-- The entry that a hit leaves, and the number that it returns.
bumped : Hits → Meta → Option Meta
bumped (hits n) meta = some (put "hit" (num n) meta)
bumped type_error meta = some meta

unfoldable pub after_hit : Option Meta → Option Meta
unfolding next_hit bumped
after_hit none = none
after_hit (some meta) = bumped (next_hit (get "hit" meta)) meta

unfoldable pub next_of : Option Meta → Hits
unfolding next_hit
next_of none = hits 0
next_of (some meta) = next_hit (get "hit" meta)

module _ (m : Manager) (valid : IsIndexed m) (path : String) (line : ℕ) where
  current-eq : current m (path, line) ≡ entry (table m path line)
  unfolding current entry table
  current-eq = ground arith

  pub table-record_line :
      (condition hit_condition log_message : Option String) (kwargs : Meta) (p : String) (l : ℕ)
      → table (record_line_breakpoint m path line condition hit_condition log_message kwargs) p l
        ≡ (if path == p && line == l
            then some
                (refreshed condition hit_condition log_message kwargs (entry (table m path line)))
            else table m p l)
  unfolding table record_line_breakpoint store current
  table-record_line condition hit_condition log_message kwargs p l = ground (
    arith,
    get-put (path, line) (address m (path, line)) (p, l) m.line_meta,
    address_owner m valid path line p l,
    current-eq,
    eq_iff path p,
  )

  pub table-clear_line_meta :
      (p : String) (l : ℕ)
      → table (clear_line_meta_for_file m path) p l ≡ (if path == p then none else table m p l)
  unfolding table
  table-clear_line_meta p l =
      unfold clear_line_meta_for_file in ground (arith, get-clear_line_meta m valid path p l)

  count_hit-table :
      (r : ℕ) (h : Hits) (p : String) (l : ℕ)
      → get (path, line) m.line_meta ≡ some r
      → table (count_hit m r h).1 p l
        ≡ (if path == p && line == l then bumped h (m.heap r) else table m p l)
  unfolding count_hit table store bumped
  count_hit-table r (hits n) p l found =
      ground (arith, valid.separate path p line l r, eq_iff path p)
  count_hit-table r type_error p l found = ground (arith, eq_iff path p)

  hit_found-table :
      (p : String) (l : ℕ)
      → table (hit_found (get (path, line) m.line_meta, m)).1 p l
        ≡ (if path == p && line == l then after_hit (table m path line) else table m p l)
  unfolding after_hit table
  hit_found-table p l = elim (Option-cases (get (path, line) m.line_meta)) [
    | inl e ↦ rw e (unfold hit_found table in ground (arith, eq_iff path p))
    | inr (r, e) ↦ rw e (
        unfold hit_found in
        rw (count_hit-table r (next_hit (get "hit" (m.heap r))) p l e, table, e) refl)
  ]

  pub table-increment :
      (p : String) (l : ℕ)
      → table (increment_hit_count m path line).1 p l
        ≡ (if path == p && line == l then after_hit (table m path line) else table m p l)
  unfolding increment_hit_count
  table-increment p l = rw (get_line_meta-eq m valid path line) (hit_found-table p l)

  -- The number that `increment_hit_count` returns is read off the table.
  pub result-increment : (increment_hit_count m path line).0 ≡ next_of (table m path line)
  unfolding increment_hit_count next_of hit_found table
  result-increment = rw (get_line_meta-eq m valid path line) (ground arith)
