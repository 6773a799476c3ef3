-- ===== src/Core/Breakpoints/Refinement.antt =====
-- Whatever the sequence of calls, the manager behaves as a flat table.
use dapper.Base.{
  ℕ, String, ◌≡◌, ◌∙◌, refl, ap, ◌&&◌, Option, none, some, List, [], ◌∷◌, ◌==◌, nat_eq, string_eq,
  pair_eq, arith, if◌then◌else◌,
}
use mathlib.Core.Path.{fun_ext}
use dapper.Base.Dict.{get}
use dapper.Core.Breakpoints.{
  Manager, Meta, init, refreshed, increment_hit_count, clear_all, Call, record_call, get_call,
  clear_call, hit_call, reset_call, step, run,
}
use dapper.Core.Breakpoints.Index.{
  IsIndexed, init-IsIndexed, record_line-IsIndexed, clear_line_meta-IsIndexed,
  increment_hit_count-IsIndexed, get_line_meta-eq,
}
use dapper.Core.Breakpoints.Table.{
  table, entry, after_hit, next_of, table-record_line, table-clear_line_meta, table-increment,
  result-increment,
}

abbrev pub Table : Type 0
Table = String → ℕ → Option Meta

-- The table after a call, with no addresses and no second map.
unfoldable pub table_step : Table → Call → Table
unfolding entry refreshed after_hit
table_step t (record_call path line condition hit_condition log_message kwargs) p l =
    if path == p && line == l
    then some (refreshed condition hit_condition log_message kwargs (entry (t path line)))
    else t p l
table_step t (get_call path line) p l = t p l
table_step t (clear_call path) p l = if path == p then none else t p l
table_step t (hit_call path line) p l =
    if path == p && line == l then after_hit (t path line) else t p l
table_step t reset_call p l = none

unfoldable pub table_run : Table → List Call → Table
unfolding table_step
table_run t [] = t
table_run t (c ∷ calls) = table_run (table_step t c) calls

abbrev pub empty_table : Table
empty_table p l = none

clear_all-IsIndexed : (m : Manager) → IsIndexed (clear_all m)
unfolding clear_all
clear_all-IsIndexed m = record {
  indexed = init-IsIndexed.indexed;
  allocated = λ p l r h. omega (arith, init-IsIndexed.allocated p l r h);
  separate = init-IsIndexed.separate;
}

-- Every call, the destructive ones included, keeps the two maps of the manager in agreement, with
-- a dictionary of its own for each breakpoint.
pub step-IsIndexed : (m : Manager) (c : Call) → IsIndexed m → IsIndexed (step m c)
unfolding step
step-IsIndexed m (record_call path line condition hit_condition log_message kwargs) valid =
    record_line-IsIndexed m valid path line condition hit_condition log_message kwargs
step-IsIndexed m (get_call path line) valid = rw (get_line_meta-eq m valid path line, step) valid
step-IsIndexed m (clear_call path) valid = clear_line_meta-IsIndexed m path valid
step-IsIndexed m (hit_call path line) valid = increment_hit_count-IsIndexed m path line valid
step-IsIndexed m reset_call valid = clear_all-IsIndexed m

table-clear_all : (m : Manager) (p : String) (l : ℕ) → table (clear_all m) p l ≡ none
unfolding table clear_all get
table-clear_all m p l = refl

-- One call on a manager whose maps agree changes the table as `table_step` says.
pub table-step :
    (m : Manager) (c : Call)
    → IsIndexed m
    → (p : String) (l : ℕ) → table (step m c) p l ≡ table_step (table m) c p l
unfolding step table_step
table-step m (record_call path line condition hit_condition log_message kwargs) valid p l =
    table-record_line m valid path line condition hit_condition log_message kwargs p l
table-step m (get_call path line) valid p l = rw (get_line_meta-eq m valid path line, step) refl
table-step m (clear_call path) valid p l = table-clear_line_meta m valid path 0 p l
table-step m (hit_call path line) valid p l = table-increment m valid path line p l
table-step m reset_call valid p l = table-clear_all m p l

table-run_from :
    (m : Manager) (calls : List Call)
    → IsIndexed m
    → (p : String) (l : ℕ) → table (run m calls) p l ≡ table_run (table m) calls p l
unfolding run table_run
table-run_from m [] valid p l = refl
table-run_from m (c ∷ calls) valid p l =
    table-run_from (step m c) calls (step-IsIndexed m c valid) p l
    ∙ ap (λ t. table_run t calls p l) (fun_ext λ q. fun_ext λ n. table-step m c valid q n)

run-IsIndexed : (m : Manager) (calls : List Call) → IsIndexed m → IsIndexed (run m calls)
unfolding run
run-IsIndexed m [] valid = valid
run-IsIndexed m (c ∷ calls) valid = run-IsIndexed (step m c) calls (step-IsIndexed m c valid)

table-init : table init ≡ empty_table
unfolding table get
table-init = refl

-- After any sequence of calls from a new manager, its maps agree; its line metadata is what the
-- same calls make of an empty flat table; and the number that a further hit returns is the one
-- that this table gives.
pub table-run :
    (calls : List Call) (p : String) (l : ℕ)
    → IsIndexed (run init calls)
      × (table (run init calls) p l ≡ table_run empty_table calls p l)
      × ((increment_hit_count (run init calls) p l).0 ≡ next_of (table_run empty_table calls p l))
table-run calls p l = (
  run-IsIndexed init calls init-IsIndexed,
  table-run_from init calls init-IsIndexed p l ∙ ap (λ t. table_run t calls p l) table-init,
  result-increment (run init calls) (run-IsIndexed init calls init-IsIndexed) p l
      ∙ ap next_of (
          table-run_from init calls init-IsIndexed p l
          ∙ ap (λ t. table_run t calls p l) table-init),
)
