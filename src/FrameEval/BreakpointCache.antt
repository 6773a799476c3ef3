-- ===== src/FrameEval/BreakpointCache.antt =====
-- dapper/_frame_eval/cache_manager.py: `BreakpointCache`. What the file system says of a path, and
-- the time, are arguments; a set of lines is the list of its members.
use dapper.Base.{
  ℕ, String, Bool, true, false, not, ◌&&◌, ◌||◌, Option, none, some, List, [], ◌∷◌, ◌++◌, string_eq,
  ltb, leb, length, discard, is_empty, if◌then◌else◌,
}
use dapper.Base.Dict.{Dict, get, put, remove, has, get_or}
use dapper.Base.Text.{codes, has_infix}

-- `access_order` has the least recently used file first.
pub record Cache : Type 0 where
  pub max_entries : ℕ
  pub entries : Dict String (List ℕ)
  pub file_mtimes : Dict String ℕ
  pub access_order : List String

abbrev pub init : ℕ → Cache
init max_entries = record {
  max_entries = max_entries;
  entries = [];
  file_mtimes = [];
  access_order = [];
}

unfoldable pub remove_entry : Cache → String → Cache
unfolding remove discard
remove_entry c file = record c {
  entries = remove file c.entries;
  file_mtimes = remove file c.file_mtimes;
  access_order = discard file c.access_order;
}

unfoldable pub update_access : Cache → String → Cache
unfolding discard
update_access c file = record c { access_order = discard file c.access_order ++ file ∷ [] }

-- The time at which a file was changed, `none` where there is no such file.
module _ (mtime : String → Option ℕ) where
  unfoldable pub is_file_current : Cache → String → Bool
  unfolding get_or
  is_file_current c file = elim (mtime file) [
    | none ↦ false
    | some t ↦ leb t (get_or file 0 c.file_mtimes)
  ]

  -- Files of tests, and those that do not exist, are taken as they are.
  unfoldable pub is_test_file : String → Bool
  unfolding has_infix
  is_test_file file =
      has_infix (codes "test_") (codes file)
      || has_infix (codes "test/") (codes file)
      || has_infix (codes "test\\") (codes file)
      || elim (mtime file) [ none ↦ true | some _ ↦ false ]

  unfoldable pub get_breakpoints : Cache → String → Option (List ℕ) × Cache
  unfolding get is_test_file is_file_current update_access remove_entry
  get_breakpoints c file = elim (get file c.entries) [
    | none ↦ (none, c)
    | some lines ↦
        if is_test_file file || is_file_current c file
        then (some lines, update_access c file)
        else (none, remove_entry c file)
  ]

  -- Files leave the order until one of them is in the cache, which leaves it too.
  unfoldable pub drop_oldest : Cache → List String → Cache
  unfolding has remove_entry
  drop_oldest c [] = record c { access_order = [] }
  drop_oldest c (oldest ∷ order) = elim (has oldest c.entries) [
    | true ↦ remove_entry (record c { access_order = order }) oldest
    | false ↦ drop_oldest c order
  ]

  unfoldable pub make_room : Cache → Cache
  unfolding drop_oldest
  make_room c =
      if leb c.max_entries (length c.entries) && not (is_empty c.access_order)
      then drop_oldest c c.access_order
      else c

  unfoldable pub store_lines : Cache → ℕ → String → List ℕ → Cache
  unfolding put update_access
  store_lines c now file lines =
      update_access
        (record c {
          entries = put file lines c.entries;
          file_mtimes = put file (elim (mtime file) [ none ↦ now | some t ↦ t ]) c.file_mtimes;
        })
        file

  -- The last loop: the order is walked while there are too many entries.
  unfoldable pub trim : Cache → List String → Cache
  unfolding remove_entry
  trim c [] = record c { access_order = [] }
  trim c (oldest ∷ order) = elim (ltb c.max_entries (length c.entries)) [
    | true ↦ trim (remove_entry c oldest) order
    | false ↦ record c { access_order = oldest ∷ order }
  ]

  unfoldable pub set_breakpoints : Bool → Cache → ℕ → String → List ℕ → Cache
  unfolding has remove_entry make_room store_lines trim
  set_breakpoints enabled c now file lines =
      let without = if has file c.entries then remove_entry c file else c in
      let stored = store_lines (make_room without) now file lines in
      if not enabled then c else if is_empty lines then without else trim stored stored.access_order

unfoldable pub invalidate_file : Cache → String → Cache
unfolding remove_entry
invalidate_file c file = remove_entry c file

unfoldable pub clear_all : Cache → Cache
clear_all c = record c { entries = []; file_mtimes = []; access_order = [] }
