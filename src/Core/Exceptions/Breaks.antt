-- ===== src/Core/Exceptions/Breaks.antt =====
-- When an exception stops the program.
use dapper.Base.{
  ℕ, ◌≤◌, ◌<◌, String, ◌≡◌, ◌⊎◌, inl, inr, ◌↔◌, Bool, true, false, not, ◌&&◌, ◌||◌, Option, none,
  some, List, [], ◌∷◌, ◌==◌, nat_eq, string_eq, arith, contains, if◌then◌else◌,
}
use dapper.Base.Dict.{get-put, get-remove}
use dapper.Base.Text.{Codes}
use dapper.Core.Exceptions.{
  Config, set_from_filters, Code, first_offset, covered, has_table_handler, may_handle_exception,
  matches_condition, should_break, Handler, store_exception_info, get_exception_info,
  clear_exception_info,
}

-- The program stops on an exception exactly when the filter for raised exceptions is on and its
-- condition matches, or the filter for uncaught ones is on, the frame is known not to handle the
-- exception, and that filter's condition matches. After `set_from_filters` a filter is on exactly
-- when the client names it.
pub should_break_lem :
    (config : Config) (filters : List String) (run : Codes → Bool) (mro : Option (List Codes))
    (may_handle : Option Bool)
    → should_break (set_from_filters config filters) run mro may_handle ≡ (
        contains "raised" filters && matches_condition run mro config.raised_condition
        || (contains "uncaught" filters
            && elim may_handle [ none ↦ false | some handled ↦ not handled ]
            && matches_condition run mro config.uncaught_condition))
unfolding should_break set_from_filters
should_break_lem config filters run mro may_handle = ground arith

-- A range of the table around an offset.
abbrev pub Covers : ℕ → List (ℕ × ℕ) → Type 0
Covers offset [] = ⊥
Covers offset ((start, end) ∷ entries) = ((start ≤ offset) × (offset < end)) ⊎ Covers offset entries

covered_sound :
    (offset : ℕ) (entries : List (ℕ × ℕ)) → covered offset entries ≡ true → Covers offset entries
unfolding covered
covered_sound offset [] h = absurd (cc)
covered_sound offset ((start, end) ∷ entries) h = ground (arith, covered_sound offset entries)

covered_complete :
    (offset : ℕ) (entries : List (ℕ × ℕ)) → Covers offset entries → covered offset entries ≡ true
unfolding covered
covered_complete offset [] h = elim h [ ]
covered_complete offset ((start, end) ∷ entries) (inl h) = ground arith
covered_complete offset ((start, end) ∷ entries) (inr h) =
    ground (arith, covered_complete offset entries h)

-- Where the table can be read and the line starts at an offset, the frame handles the exception
-- exactly when a range of the table covers that offset, whatever the source says.
pub may_handle_iff :
    (code : Code) (lineno offset : ℕ) (entries : List (ℕ × ℕ)) (ast_handler : Option Bool)
    → code.exception_table ≡ some entries
    → first_offset lineno code.line_starts ≡ some offset
    → (may_handle_exception code (some lineno) ast_handler ≡ some true) ↔ Covers offset entries
unfolding may_handle_exception has_table_handler
may_handle_iff code lineno offset entries ast_handler table line = (
  (λ h. covered_sound offset entries (ground (arith, table, line))),
  (λ h. ground (arith, table, line, covered_complete offset entries h)),
)

-- The information of a thread is what was stored last and not cleared since; threads do not
-- disturb one another.
pub exception_info_lem :
    {Info : Type 0} (h : Handler Info) (thread other : ℕ) (info : Info)
    → (get_exception_info (store_exception_info h thread info) other
        ≡ (if thread == other then some info else get_exception_info h other))
      × (get_exception_info (clear_exception_info h thread) other
          ≡ (if thread == other then none else get_exception_info h other))
unfolding get_exception_info store_exception_info clear_exception_info
exception_info_lem h thread other info = (
  get-put thread info other h.exception_info_by_thread,
  get-remove thread other h.exception_info_by_thread,
)
