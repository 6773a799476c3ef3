-- ===== src/Core/Exceptions.antt =====
-- dapper/core/exception_handler.py: `ExceptionHandler`, and the search of the exception table in
-- dapper/core/debug_helpers.py.
pub mod Breaks
use dapper.Base.{
  ℕ, ◌+◌, String, Bool, true, false, not, ◌&&◌, ◌||◌, Option, none, some, List, [], ◌∷◌, ◌==◌,
  nat_eq, string_eq, leb, ltb, contains, is_empty, if◌then◌else◌,
}
use dapper.Base.Dict.{Dict, get, put, remove, has}
use dapper.Base.Text.{Codes, strip, same_text}

pub record Config : Type 0 where
  pub break_on_raised : Bool
  pub break_on_uncaught : Bool
  pub raised_condition : Option Codes
  pub uncaught_condition : Option Codes

unfoldable pub is_enabled : Config → Bool
is_enabled config = config.break_on_raised || config.break_on_uncaught

unfoldable pub set_from_filters : Config → List String → Config
unfolding contains
set_from_filters config filters = record config {
  break_on_raised = contains "raised" filters;
  break_on_uncaught = contains "uncaught" filters;
}

-- `line_to_offset.setdefault(ln, offset)` over `findlinestarts`: the first offset of a line.
unfoldable pub first_offset : ℕ → List (ℕ × ℕ) → Option ℕ
first_offset lineno [] = none
first_offset lineno ((offset, ln) ∷ starts) =
    if ln == lineno then some offset else first_offset lineno starts

-- `any(start <= offset < end)` over the entries of the table
unfoldable pub covered : ℕ → List (ℕ × ℕ) → Bool
covered offset [] = false
covered offset ((start, end) ∷ entries) =
    leb start offset && ltb offset end || covered offset entries

-- What `dis` tells of the code of a frame: the protected ranges, unless there is no table or it
-- cannot be unpacked, and the offsets at which lines start.
pub record Code : Type 0 where
  pub exception_table : Option (List (ℕ × ℕ))
  pub line_starts : List (ℕ × ℕ)

unfoldable pub has_table_handler : Code → Option ℕ → Option Bool
unfolding first_offset covered
has_table_handler code none = none
has_table_handler code (some lineno) = elim (code.exception_table) [
  | none ↦ none
  | some entries ↦ elim (first_offset lineno code.line_starts) [
    | none ↦ none
    | some offset ↦ some (covered offset entries)
  ]
]

-- `frame_may_handle_exception`; `ast_handler` is what the search of the source finds.
unfoldable pub may_handle_exception : Code → Option ℕ → Option Bool → Option Bool
unfolding has_table_handler
may_handle_exception code lineno ast_handler = elim (has_table_handler code lineno) [
  | none ↦ ast_handler
  | some b ↦ some b
]

-- `name in names`
unfoldable pub names_type : Codes → List Codes → Bool
unfolding same_text
names_type name [] = false
names_type name (n ∷ names) = same_text name n || names_type name names

-- `_matches_condition`: `mro` are the names of the exception's classes, if they can be read, and
-- `run` is the truth of the condition in the frame, false if it raises.
unfoldable pub matches_condition : (Codes → Bool) → Option (List Codes) → Option Codes → Bool
unfolding names_type strip
matches_condition run mro none = true
matches_condition run none (some condition) = if is_empty condition then true else run condition
matches_condition run (some names) (some condition) =
    if is_empty condition
    then true
    else if names_type (strip condition) names
    then true
    else run condition

unfoldable pub should_break : Config → (Codes → Bool) → Option (List Codes) → Option Bool → Bool
unfolding is_enabled
should_break config run mro may_handle =
    if not (is_enabled config)
    then false
    else if config.break_on_raised && matches_condition run mro config.raised_condition
    then true
    else if config.break_on_uncaught
    then elim may_handle [
      | none ↦ false
      | some handled ↦
          if handled then false else matches_condition run mro config.uncaught_condition
    ]
    else false

unfoldable pub get_break_mode : Config → String
get_break_mode config = if config.break_on_raised then "always" else "unhandled"

-- The information is kept as it is given, whatever its type.
pub record Handler (Info : Type 0) : Type 0 where
  pub config : Config
  pub exception_info_by_thread : Dict ℕ Info

module _ {Info : Type 0} where
  unfoldable pub store_exception_info : Handler Info → ℕ → Info → Handler Info
  unfolding put
  store_exception_info h thread_id info = record h {
    exception_info_by_thread = put thread_id info h.exception_info_by_thread;
  }

  unfoldable pub get_exception_info : Handler Info → ℕ → Option Info
  unfolding get
  get_exception_info h thread_id = get thread_id h.exception_info_by_thread

  unfoldable pub clear_exception_info : Handler Info → ℕ → Handler Info
  unfolding remove
  clear_exception_info h thread_id = record h {
    exception_info_by_thread = remove thread_id h.exception_info_by_thread;
  }

  unfoldable pub clear_all : Handler Info → Handler Info
  clear_all h = record h { exception_info_by_thread = [] }
