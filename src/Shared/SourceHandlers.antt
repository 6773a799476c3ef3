-- ===== src/Shared/SourceHandlers.antt =====
-- dapper/shared/source_handlers.py: the lists of sources and of modules, and the text of a source. The
-- files, the modules and `linecache` are the parameter `Files`; a handler returns what it sends.
pub mod UserCode
use dapper.Base.{
  ℕ, zero, suc, ◌+◌, Bool, true, false, not, ◌&&◌, ◌||◌, Option, none, some, List, [], ◌∷◌, ◌++◌,
  if◌then◌else◌, ltb, contains, add, take, drop, length, is_empty, select, ◌==◌,
}
use dapper.Base.Text.{Codes, codes, codes_eq, has_infix, lower}
use dapper.Adapter.Sources.{Files, Module, is_python_source_file, ends_with, text_leb}
use dapper.Shared.Catalog.{Catalog, get_ref_for_path, get_or_create_source_ref, get_source_meta}

pub record Source : Type 0 where
  pub name : Codes
  pub path : Codes
  pub origin : Codes
  pub source_reference : Option ℕ

-- What the collectors fill: the paths seen, and the sources.
abbrev pub Seen : Type 0
Seen = List Codes × List Source

abbrev or_codes : Codes → Option Codes → Codes
or_codes default none = default
or_codes default (some text) = text

unfoldable pub insert_source : Source → List Source → List Source
insert_source s [] = s ∷ []
insert_source s (x ∷ rest) =
    let later = insert_source s rest in if text_leb s.name x.name then s ∷ x ∷ rest else x ∷ later

unfoldable pub sort_sources : List Source → List Source
unfolding insert_source
sort_sources [] = []
sort_sources (s ∷ rest) = insert_source s (sort_sources rest)

module _ (files : Files) where
  unfoldable pub make_source : Codes → Codes → Source
  make_source path origin = record {
    name = files.path_name path;
    path = path;
    origin = origin;
    source_reference = none;
  }

  unfoldable pub add_source : Seen → Codes → Codes → Seen
  unfolding add make_source
  add_source (seen, sources) path origin = (add path seen, sources ++ make_source path origin ∷ [])

  -- A module without `__package__` has the origin of its name.
  unfoldable pub collect_module : Seen → Codes → Option Module → Seen
  unfolding contains is_python_source_file add_source
  collect_module state module_name none = state
  collect_module state module_name (some m) = elim m.file [
    | none ↦ state
    | some file ↦ elim (files.resolve file) [
      | none ↦ state
      | some path ↦
          if contains path state.0
          then state
          else if not (is_python_source_file path)
          then state
          else add_source state path (codes "module:" ++ or_codes module_name m.package_name)
    ]
  ]

  unfoldable pub collect_module_sources : Seen → List (Codes × Option Module) → Seen
  unfolding collect_module
  collect_module_sources state [] = state
  collect_module_sources state ((module_name, m) ∷ rest) =
      collect_module_sources (collect_module state module_name m) rest

  unfoldable pub collect_cached : Seen → Codes → Seen
  unfolding contains is_python_source_file add_source
  collect_cached state filename =
      if not (contains filename state.0) && is_python_source_file filename
      then (elim (files.resolve filename) [
        | none ↦ state
        | some path ↦
            if not (contains path state.0) && files.exists path
            then add_source state path (codes "linecache")
            else state
      ])
      else state

  unfoldable pub collect_linecache_sources : Seen → List Codes → Seen
  unfolding collect_cached
  collect_linecache_sources state [] = state
  collect_linecache_sources state (filename ∷ rest) =
      collect_linecache_sources (collect_cached state filename) rest

  -- The path is looked for among those seen before it is resolved.
  unfoldable pub collect_main_program_source : Seen → Option Codes → List Source
  unfolding contains make_source
  collect_main_program_source state none = []
  collect_main_program_source state (some program_path) =
      if is_empty program_path || contains program_path state.0
      then []
      else (elim (files.resolve program_path) [
        | none ↦ []
        | some path ↦ if files.exists path then make_source path (codes "main") ∷ [] else []
      ])

  unfoldable pub collect_sources : Option Codes → List Source
  unfolding collect_module_sources collect_linecache_sources collect_main_program_source
  collect_sources program_path =
      let state =
        collect_linecache_sources (collect_module_sources ([], []) files.modules) files.linecache in
      state.1 ++ collect_main_program_source state program_path

  -- A stored 0 counts as no reference.
  unfoldable pub reference_of : Catalog → Codes → Codes → ℕ × Catalog
  unfolding get_ref_for_path get_or_create_source_ref
  reference_of c path name = elim (get_ref_for_path c path) [
    | some (suc n) ↦ (suc n, c)
    | _ ↦ get_or_create_source_ref c path (some name)
  ]

  unfoldable pub refer : Catalog → List Source → List Source × Catalog
  unfolding reference_of
  refer c [] = ([], c)
  refer c (s ∷ rest) =
      let first = reference_of c s.path s.name in
      let others = refer first.1 rest in
      let skipped = refer c rest in
      if is_empty s.path
      then (s ∷ skipped.0, skipped.1)
      else (record s { source_reference = some first.0 } ∷ others.0, others.1)

  -- With the dynamic sources, which have their references.
  unfoldable pub handle_loaded_sources :
      Catalog → Option Codes → List Source → List Source × Catalog
  unfolding collect_sources sort_sources refer
  handle_loaded_sources c program_path dynamic =
      let referred = refer c (sort_sources (collect_sources program_path)) in
      (referred.0 ++ dynamic, referred.1)

  -- The parts of paths that are no user code.
  abbrev pub library_parts : List Codes
  library_parts =
      codes "site-packages" ∷ codes "lib/python" ∷ codes "lib\\python" ∷ codes "Lib" ∷ []

  unfoldable pub has_part : List Codes → Codes → Bool
  unfolding has_infix
  has_part [] path = false
  has_part (part ∷ rest) path = has_infix part path || has_part rest path

  unfoldable pub is_user_code : Codes → Bool
  unfolding has_part lower
  is_user_code path = not (has_part library_parts (lower path))

  pub record ModuleInfo : Type 0 where
    pub name : Codes
    pub path : Option Codes
    pub user_code : Bool

  -- A module whose file cannot be resolved is left out.
  unfoldable pub module_info : Codes → Option Module → List ModuleInfo
  unfolding is_user_code
  module_info name none = []
  module_info name (some m) = elim m.file [
    | none ↦ record { name = name; path = none; user_code = false } ∷ []
    | some file ↦ elim (files.resolve file) [
      | none ↦ []
      | some path ↦ record { name = name; path = some path; user_code = is_user_code path } ∷ []
    ]
  ]

  unfoldable pub module_infos : List (Codes × Option Module) → List ModuleInfo
  unfolding module_info
  module_infos [] = []
  module_infos ((name, m) ∷ rest) = module_info name m ++ module_infos rest

  unfoldable pub insert_info : ModuleInfo → List ModuleInfo → List ModuleInfo
  insert_info m [] = m ∷ []
  insert_info m (x ∷ rest) =
      let later = insert_info m rest in if text_leb m.name x.name then m ∷ x ∷ rest else x ∷ later

  unfoldable pub sort_infos : List ModuleInfo → List ModuleInfo
  unfolding insert_info
  sort_infos [] = []
  sort_infos (m ∷ rest) = insert_info m (sort_infos rest)

  -- The modules of the page, and their number in all; without arguments the page has all.
  unfoldable pub handle_modules : Option (ℕ × ℕ) → List ModuleInfo × ℕ
  unfolding module_infos sort_infos
  handle_modules arguments =
      let all_modules = sort_infos (module_infos files.modules) in
      (
        elim arguments [
          | none ↦ all_modules
          | some (start_module, module_count) ↦
              if ltb 0 module_count
              then take module_count (drop start_module all_modules)
              else drop start_module all_modules
        ],
        length all_modules,
      )

-- The arguments of a source request: a reference that is a number, and a path.
pub record SourceArguments : Type 0 where
  pub source_reference : Option ℕ
  pub path : Option Codes

pub data Reply : Type 0 where
  missing_arguments no_content : Reply
  content : Codes → Option Codes → Reply

abbrev full : Option Codes → Option Codes
full none = none
full (some text) = if is_empty text then none else some text

-- The texts by reference and by path are those of the catalog, and the guesses of `mimetypes` are an
-- argument.
module _ (by_ref : ℕ → Option Codes) (by_path guess_type : Codes → Option Codes) where
  -- The path and the text that a request leads to.
  unfoldable pub find_source : Catalog → SourceArguments → Option Codes × Option Codes
  unfolding get_source_meta
  find_source c a = elim a.source_reference [
    | some (suc n) ↦ (
      elim (get_source_meta c (suc n)) [
        | none ↦ a.path
        | some meta ↦ if is_empty meta.path then a.path else some meta.path
      ],
      by_ref (suc n),
    )
    | _ ↦ elim (full a.path) [ none ↦ (a.path, none) | some path ↦ (a.path, by_path path) ]
  ]

  unfoldable pub mime_type : Codes → Codes → Option Codes
  unfolding has_infix ends_with
  mime_type path text = if has_infix (0 ∷ []) text then none else (elim (full (guess_type path)) [
    | some guessed ↦ some guessed
    | none ↦
        if ends_with path (codes ".py")
          || ends_with path (codes ".pyw")
          || ends_with path (codes ".txt")
          || ends_with path (codes ".md")
        then some (codes "text/plain; charset=utf-8")
        else none
  ])

  unfoldable pub handle_source : Catalog → Option SourceArguments → Reply
  unfolding find_source mime_type
  handle_source c none = missing_arguments
  handle_source c (some a) =
      let found = find_source c a in
      elim found.1 [
        | none ↦ no_content
        | some text ↦
            content text (elim (full found.0) [ none ↦ none | some path ↦ mime_type path text ])
      ]

  -- The older shape of the command: a reference, where there is one, hides the path, and a text
  -- that is not found is empty. A reference that is no number is `some none`.
  unfoldable pub handle_legacy_source : Option (Option ℕ) → Option Codes → Codes
  handle_legacy_source none path = elim (full path) [
    | none ↦ []
    | some given ↦ or_codes [] (by_path given)
  ]
  handle_legacy_source (some (some (suc n))) path = or_codes [] (by_ref (suc n))
  handle_legacy_source (some reference) path = []
