-- ===== src/Tests/Breakpoints.antt =====
-- Sequences of calls on the breakpoint manager and on the stepping controller.
use dapper.Base.{◌≡◌, none, some, List, [], ◌∷◌, nat_eq, string_eq}
use dapper.Core.Breakpoints.{
  init, record_call, hit_call, clear_call, Call, run, increment_hit_count,
}
use dapper.Core.Breakpoints.Index.{IsIndexed}
use dapper.Core.Breakpoints.Table.{table, next_of}
use dapper.Core.Breakpoints.Refinement.{table_run, empty_table, table-run}

abbrev calls : List Call
calls =
    record_call "a.py" 3 (some "x > 1") none none []
    ∷ hit_call "a.py" 3
    ∷ record_call "b.py" 3 none none (some "{x}") []
    ∷ record_call "a.py" 3 none (some "%2") none []
    ∷ clear_call "b.py"
    ∷ []

table-run_example :
    IsIndexed (run init calls)
    × (table (run init calls) "a.py" 3 ≡ table_run empty_table calls "a.py" 3)
    × ((increment_hit_count (run init calls) "a.py" 3).0
        ≡ next_of (table_run empty_table calls "a.py" 3))
table-run_example = table-run calls "a.py" 3
