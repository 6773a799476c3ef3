-- ===== src/Adapter/Sources/Loaded.antt =====
-- The loaded sources of dapper/adapter/source_tracker.py: each file once.
use dapper.Base.{
  ℕ, suc, ◌+◌, ◌≤◌, Bool, true, false, not, ◌&&◌, Option, none, some, List, [], ◌∷◌, ◌++◌, ◌≡◌,
  refl, ◌∙◌, inl, inr, arith, Bool-cases, if◌then◌else◌, contains, add, contains-add, ◌==◌,
  is_empty,
}
use mathlib.Core.Path.{subst, subst⁻¹}
use dapper.Base.Text.{Codes, codes, codes_eq}
use dapper.Adapter.Sources.{
  Files, Source, ModuleFile, Tracker, is_python_source_file, insert_source, sort_sources,
  make_source, add_resolved, try_add_source, add_module_files, add_linecache, add_program,
  get_loaded_sources, iter_python_module_files,
}

-- How often a path stands in a list of sources.
abbrev pub times : Codes → List Source → ℕ
times path [] = 0
times path (s ∷ rest) = if s.path == path then suc (times path rest) else times path rest

times-append :
    (path : Codes) (xs ys : List Source) → times path (xs ++ ys) ≡ times path xs + times path ys
times-append path [] ys = omega arith
times-append path (x ∷ xs) ys = ground (arith, times-append path xs ys)

times-insert_source :
    (path : Codes) (s : Source) (xs : List Source)
    → times path (insert_source s xs) ≡ times path (s ∷ xs)
unfolding insert_source
times-insert_source path s [] = refl
times-insert_source path s (x ∷ xs) = ground (arith, times-insert_source path s xs)

times-sort_sources :
    (path : Codes) (xs : List Source) → times path (sort_sources xs) ≡ times path xs
unfolding sort_sources
times-sort_sources path [] = refl
times-sort_sources path (x ∷ xs) =
    times-insert_source path x (sort_sources xs) ∙ ground (arith, times-sort_sources path xs)

module _ (files : Files) where
  -- The set holds exactly the paths of the list, each of which stands there once.
  abbrev IsOnce : List Codes × List Source → Type 0
  IsOnce state = (path : Codes) → times path state.1 ≡ (if contains path state.0 then 1 else 0)

  added-IsOnce :
      (seen : List Codes) (loaded : List Source) (s : Source)
      → IsOnce (seen, loaded)
      → contains s.path seen ≡ false
      → IsOnce (add s.path seen, loaded ++ s ∷ [])
  added-IsOnce seen loaded s v new path = elim (Bool-cases (s.path == path)) [
    | inl e ↦
        subst (λ q. times q (loaded ++ s ∷ []) ≡ (if contains q (add s.path seen) then 1 else 0))
          ((codes_eq.beq_iff s.path path).0 e)
          (times-append s.path loaded (s ∷ [])
            ∙ ground (
              arith,
              v s.path,
              new,
              contains-add s.path s.path seen,
              (codes_eq.beq_iff s.path s.path).1 refl,
            ))
    | inr e ↦
        times-append path loaded (s ∷ [])
        ∙ ground (
          arith,
          v path,
          contains-add s.path path seen,
          e,
          codes_eq.beq_iff s.path path,
          codes_eq.beq_iff path s.path,
        )
  ]

  add_resolved-IsOnce :
      (state : List Codes × List Source) (p origin : Codes) (name : Option Codes) (check : Bool)
      → IsOnce state
      → IsOnce (add_resolved files state p origin name check)
  unfolding add_resolved make_source
  add_resolved-IsOnce (seen, loaded) p origin name check v = elim (Bool-cases (contains p seen)) [
    | inl c ↦ simp c v
    | inr c ↦ elim (Bool-cases (check && not (files.exists p))) [
      | inl k ↦ simp (c, k) v
      | inr k ↦
          let made : add_resolved files (seen, loaded) p origin name check
              ≡ (add p seen, loaded ++ make_source files p origin name ∷ []) =
            simp (c, k) refl in
          subst⁻¹ IsOnce made (added-IsOnce seen loaded (make_source files p origin name) v c)
    ]
  ]

  try_add_source-IsOnce :
      (state : List Codes × List Source) (filename origin : Codes) (name : Option Codes)
      (check : Bool)
      → IsOnce state
      → IsOnce (try_add_source files state filename origin name check)
  unfolding try_add_source
  try_add_source-IsOnce state filename origin name check v =
      elim (is_python_source_file filename)
        as (λ b. IsOnce (elim b [
          | false ↦ state
          | true ↦ elim (files.resolve filename) [
            | none ↦ state
            | some path ↦ add_resolved files state path origin name check
          ]
        ])) [
          | false ↦ v
          | true ↦
              elim (files.resolve filename)
                as (λ o. IsOnce (elim o [
                  | none ↦ state
                  | some path ↦ add_resolved files state path origin name check
                ])) [ none ↦ v | some path ↦ add_resolved-IsOnce state path origin name check v ]
        ]

  add_module_files-IsOnce :
      (ms : List ModuleFile) (state : List Codes × List Source)
      → IsOnce state
      → IsOnce (add_module_files files state ms)
  unfolding add_module_files
  add_module_files-IsOnce [] state v = v
  add_module_files-IsOnce (m ∷ rest) state v =
      add_module_files-IsOnce rest _
        (try_add_source-IsOnce state m.path m.origin (some (files.path_name m.path)) false v)

  add_linecache-IsOnce :
      (names : List Codes) (state : List Codes × List Source)
      → IsOnce state
      → IsOnce (add_linecache files state names)
  unfolding add_linecache
  add_linecache-IsOnce [] state v = v
  add_linecache-IsOnce (n ∷ rest) state v =
      add_linecache-IsOnce rest _ (try_add_source-IsOnce state n (codes "linecache") none true v)

  add_program-IsOnce :
      (program : Option Codes) (state : List Codes × List Source)
      → IsOnce state
      → IsOnce (add_program files state program)
  unfolding add_program
  add_program-IsOnce none state v = v
  add_program-IsOnce (some p) state v = elim (Bool-cases (is_empty p)) [
    | inl e ↦ simp e v
    | inr e ↦ simp e (try_add_source-IsOnce state p (codes "main") none true v)
  ]

  start-IsOnce : IsOnce ([], [])
  unfolding contains
  start-IsOnce path = refl

  -- No path is listed twice among the loaded sources, whether it comes from a module, from
  -- linecache or as the main program, and whatever names lead to it.
  pub get_loaded_sources-once :
      (t : Tracker) (now : ℕ) (path : Codes) → times path (get_loaded_sources files t now).0 ≤ 1
  unfolding get_loaded_sources
  get_loaded_sources-once t now path =
      let state =
        add_program files
          (add_linecache files
            (add_module_files files ([], []) (iter_python_module_files files t now).0)
            files.linecache)
          t.program_path in
      let once =
        add_program-IsOnce t.program_path _
          (add_linecache-IsOnce files.linecache _ (
            add_module_files-IsOnce (iter_python_module_files files t now).0 ([], []) start-IsOnce))
          path in
      ground (arith, times-sort_sources path state.1, once)
