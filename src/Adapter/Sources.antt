-- ===== src/Adapter/Sources.antt =====
-- dapper/adapter/source_tracker.py: `LoadedSourceTracker`. What the file system and the interpreter
-- say is the parameter `Files`; times are in milliseconds.
pub mod Loaded
use dapper.Base.{
  ℕ, ◌-◌, String, string_eq, Bool, true, false, not, ◌&&◌, ◌||◌, Option, none, some, List, [], ◌∷◌,
  ◌++◌, if◌then◌else◌, ltb, nat_beq, length, contains, add, ◌==◌, is_empty,
}
use dapper.Base.Text.{Codes, codes, starts_with, has_infix, codes_eq}
use mathlib.Core.List.{reverse}

-- A module of `sys.modules` that is not `None`: its `__file__`, where it has one that is not empty,
-- its `__package__`, and its `id` as a text.
pub record Module : Type 0 where
  pub file : Option Codes
  pub package_name : Option Codes
  pub module_id : Codes

-- `resolve` is the absolute path of a file, `none` where that raises.
pub record Files : Type 0 where
  pub resolve : Codes → Option Codes
  pub path_name : Codes → Codes
  pub exists : Codes → Bool
  pub modules : List (Codes × Option Module)
  pub linecache : List Codes
  pub prefix : Codes
  pub base_prefix : Codes

pub record Source : Type 0 where
  pub name : Codes
  pub path : Codes
  pub origin : Codes

-- A Python module file: the module's name, the path and the origin.
pub record ModuleFile : Type 0 where
  pub module_name : Codes
  pub path : Codes
  pub origin : Codes

pub record Tracker : Type 0 where
  pub program_path : Option Codes
  pub module_file_cache : List ModuleFile
  pub module_file_cache_at : ℕ
  pub module_file_cache_count : Option ℕ

-- No count is equal to the -1 of a new tracker.
unfoldable pub init : Option Codes → Tracker
init program_path = record {
  program_path = program_path;
  module_file_cache = [];
  module_file_cache_at = 0;
  module_file_cache_count = none;
}

unfoldable pub ends_with : Codes → Codes → Bool
unfolding starts_with
ends_with s suffix = starts_with (reverse s) (reverse suffix)

unfoldable pub is_python_source_file : Codes → Bool
unfolding ends_with
is_python_source_file filename =
    ends_with filename (codes ".py") || ends_with filename (codes ".pyw")

-- `a <= b` on texts
abbrev pub text_leb : Codes → Codes → Bool
text_leb [] b = true
text_leb (c ∷ a) [] = false
text_leb (c ∷ a) (d ∷ b) = ltb c d || nat_beq c d && text_leb a b

unfoldable pub insert_source : Source → List Source → List Source
insert_source s [] = s ∷ []
insert_source s (x ∷ rest) =
    let later = insert_source s rest in if text_leb s.name x.name then s ∷ x ∷ rest else x ∷ later

-- `sources.sort(key=...)` by name, which keeps the order of equal names
unfoldable pub sort_sources : List Source → List Source
unfolding insert_source
sort_sources [] = []
sort_sources (s ∷ rest) = insert_source s (sort_sources rest)

abbrev pub or_codes : Codes → Option Codes → Codes
or_codes default none = default
or_codes default (some text) = if is_empty text then default else text

module _ (files : Files) where
  unfoldable pub make_source : Codes → Codes → Option Codes → Source
  make_source path origin name = record {
    name = or_codes (files.path_name path) name;
    path = path;
    origin = origin;
  }

  -- The sets and lists that a pass over the files fills.
  abbrev pub Seen : Type 0
  Seen = List Codes × List Source

  unfoldable pub add_resolved : Seen → Codes → Codes → Option Codes → Bool → Seen
  unfolding add contains make_source
  add_resolved (seen, loaded) path origin name check_exists =
      if contains path seen
      then (seen, loaded)
      else if check_exists && not (files.exists path)
      then (seen, loaded)
      else (add path seen, loaded ++ make_source path origin name ∷ [])

  unfoldable pub try_add_source : Seen → Codes → Codes → Option Codes → Bool → Seen
  unfolding is_python_source_file add_resolved
  try_add_source state filename origin name check_exists = elim (is_python_source_file filename) [
    | false ↦ state
    | true ↦ elim (files.resolve filename) [
      | none ↦ state
      | some path ↦ add_resolved state path origin name check_exists
    ]
  ]

  unfoldable pub module_origin : Codes → Option Codes → Codes
  module_origin module_name package_name = codes "module:" ++ or_codes module_name package_name

  -- One round of the loop over the modules.
  unfoldable pub module_file : Codes → Option Module → List ModuleFile
  unfolding module_origin is_python_source_file
  module_file module_name none = []
  module_file module_name (some m) = elim m.file [
    | none ↦ []
    | some file ↦ elim (files.resolve file) [
      | none ↦ []
      | some path ↦
          if is_python_source_file path
          then record {
            module_name = module_name;
            path = path;
            origin = module_origin module_name m.package_name;
          }
            ∷ []
          else []
    ]
  ]

  unfoldable pub module_files : List (Codes × Option Module) → List ModuleFile
  unfolding module_file
  module_files [] = []
  module_files ((module_name, m) ∷ rest) = module_file module_name m ++ module_files rest

  unfoldable pub is_fresh : Tracker → ℕ → Bool
  is_fresh t now =
      ltb (now - t.module_file_cache_at) 250
      && elim t.module_file_cache_count [ none ↦ false | some n ↦ nat_beq (length files.modules) n ]

  -- No module is imported while the loop runs.
  unfoldable pub iter_python_module_files : Tracker → ℕ → List ModuleFile × Tracker
  unfolding is_fresh module_files
  iter_python_module_files t now =
      let found = module_files files.modules in
      if is_fresh t now then (t.module_file_cache, t) else (
        found,
        record t {
          module_file_cache = found;
          module_file_cache_at = now;
          module_file_cache_count = some (length files.modules);
        },
      )

  unfoldable pub resolve_module_in : List (Codes × Option Module) → Codes → Option Codes
  resolve_module_in [] path = none
  resolve_module_in ((module_name, none) ∷ rest) path = resolve_module_in rest path
  resolve_module_in ((module_name, some m) ∷ rest) path =
      let later = resolve_module_in rest path in
      elim m.file [
        | none ↦ later
        | some file ↦ elim (files.resolve file) [
          | none ↦ later
          | some module_path ↦ if module_path == path then some module_name else later
        ]
      ]

  -- The name of the module; the module itself is the one of that name.
  unfoldable pub resolve_module_for_path : Codes → Option Codes
  unfolding resolve_module_in
  resolve_module_for_path filename = elim (files.resolve filename) [
    | none ↦ none
    | some path ↦ resolve_module_in files.modules path
  ]

  unfoldable pub add_module_files : Seen → List ModuleFile → Seen
  unfolding try_add_source
  add_module_files state [] = state
  add_module_files state (m ∷ rest) =
      add_module_files (try_add_source state m.path m.origin (some (files.path_name m.path)) false)
        rest

  unfoldable pub add_linecache : Seen → List Codes → Seen
  unfolding try_add_source
  add_linecache state [] = state
  add_linecache state (filename ∷ rest) =
      add_linecache (try_add_source state filename (codes "linecache") none true) rest

  unfoldable pub add_program : Seen → Option Codes → Seen
  unfolding try_add_source
  add_program state none = state
  add_program state (some program_path) =
      if is_empty program_path
      then state
      else try_add_source state program_path (codes "main") none true

  unfoldable pub get_loaded_sources : Tracker → ℕ → List Source × Tracker
  unfolding iter_python_module_files add_module_files add_linecache add_program sort_sources
  get_loaded_sources t now =
      let found = iter_python_module_files t now in
      let state =
        add_program (add_linecache (add_module_files ([], []) found.0) files.linecache)
          t.program_path in
      (sort_sources state.1, found.1)

  pub record ModuleInfo : Type 0 where
    pub id : Codes
    pub name : Codes
    pub is_user_code : Bool
    pub path : Option Codes

  unfoldable pub is_user_code : Option Codes → Bool
  unfolding starts_with has_infix
  is_user_code none = false
  is_user_code (some path) =
      not (starts_with path files.prefix)
      && not (starts_with path files.base_prefix)
      && not (has_infix (codes "site-packages") path)

  unfoldable pub module_infos : List (Codes × Option Module) → List ModuleInfo
  unfolding is_user_code
  module_infos [] = []
  module_infos ((name, none) ∷ rest) = module_infos rest
  module_infos ((name, some m) ∷ rest) =
      record { id = m.module_id; name = name; is_user_code = is_user_code m.file; path = m.file }
      ∷ module_infos rest

  unfoldable pub insert_info : ModuleInfo → List ModuleInfo → List ModuleInfo
  insert_info m [] = m ∷ []
  insert_info m (x ∷ rest) =
      let later = insert_info m rest in if text_leb m.name x.name then m ∷ x ∷ rest else x ∷ later

  unfoldable pub sort_infos : List ModuleInfo → List ModuleInfo
  unfolding insert_info
  sort_infos [] = []
  sort_infos (m ∷ rest) = insert_info m (sort_infos rest)

  unfoldable pub get_modules : List ModuleInfo
  unfolding module_infos sort_infos
  get_modules = sort_infos (module_infos files.modules)
