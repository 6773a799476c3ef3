-- ===== src/Core/DataBreakpoints/Registration.antt =====
-- Which names are watched after `register_watches`.
use dapper.Base.{
  String, ◌≡◌, refl, ◌∙◌, Bool, true, false, not, ◌&&◌, ◌||◌, List, [], ◌∷◌, ◌++◌, ◌==◌, nat_eq,
  string_eq, arith, eq_iff, contains, contains-add, select,
}
use dapper.Base.Dict.{has, get_or, has-put}
use dapper.Core.DataBreakpoints.{
  Access, normalize_access_type, writes, reads, Objects, State, Collected, collected_none, name_set,
  no_meta, collect, collect_all, add_all, register_watches, is_watching, is_read_watching,
}
use dapper.Core.DataBreakpoints.Changes.{contains-select}

contains-name_set :
    (objects : Objects) (n : String) (names : List String)
    → contains n (name_set objects names) ≡ (not (n == "") && contains n names)
unfolding name_set contains
contains-name_set objects n [] = ground arith
contains-name_set objects n (m ∷ names) = ground (
  arith,
  contains-name_set objects n names,
  contains-add m n (name_set objects names),
  eq_iff n m,
  eq_iff n "",
  eq_iff m "",
)

contains-add_all :
    (objects : Objects) (n : String) (others names : List String)
    → contains n (add_all objects others names) ≡ (contains n others || contains n names)
unfolding add_all contains
contains-add_all objects n [] names = refl
contains-add_all objects n (m ∷ others) names = ground (
  arith,
  contains-add_all objects n others names,
  contains-add m n (add_all objects others names),
)

has-no_meta :
    (objects : Objects) (n : String) (names : List String)
    → has n (no_meta objects names) ≡ contains n names
unfolding no_meta contains
has-no_meta objects n [] = unfold has in refl
has-no_meta objects n (m ∷ names) = ground (
  arith,
  has-no_meta objects n names,
  has-put m [] n (no_meta objects names),
  eq_iff n m,
  eq_iff m n,
)

module _ (objects : Objects) where
  open objects use {M, access}

  -- Some metadata of a name has an access that passes a test.
  unfoldable pub some_access : (Access → Bool) → String → List (String × M) → Bool
  some_access test n [] = false
  some_access test n ((name, meta) ∷ metas) =
      n == name && test (normalize_access_type (access meta)) || some_access test n metas

  module _ (n : String) where
    collect_lem :
        (c : Collected objects) (name : String) (meta : M)
        → let c' = collect objects c (name, meta) in
          let known = has n c.watch_meta && n == name in
          let mode = normalize_access_type (access meta) in
          (has n c'.watch_meta ≡ has n c.watch_meta)
          × (contains n c'.names_with_meta ≡ (known || contains n c.names_with_meta))
          × (contains n c'.write_names ≡ (known && writes mode || contains n c.write_names))
          × (contains n c'.read_names ≡ (known && reads mode || contains n c.read_names))
    unfolding collect
    collect_lem c name meta = (
      ground (
        arith,
        has-put name (get_or name [] c.watch_meta ++ meta ∷ []) n c.watch_meta,
        eq_iff name n,
      ),
      ground (arith, contains-add name n c.names_with_meta, eq_iff n name),
      ground (arith, contains-add name n c.write_names, eq_iff n name),
      ground (arith, contains-add name n c.read_names, eq_iff n name),
    )

    collect_all_lem :
        (c : Collected objects) (metas : List (String × M))
        → let c' = collect_all objects c metas in
          let known = has n c.watch_meta in
          (contains n c'.names_with_meta
            ≡ (known && some_access (λ a. true) n metas || contains n c.names_with_meta))
          × (contains n c'.write_names
              ≡ (known && some_access writes n metas || contains n c.write_names))
          × (contains n c'.read_names
              ≡ (known && some_access reads n metas || contains n c.read_names))
    unfolding some_access collect_all
    collect_all_lem c [] = (ground arith, ground arith, ground arith)
    collect_all_lem c ((name, meta) ∷ metas) =
        let (k, a, b, d) = collect_lem c name meta in
        let (a', b', d') = collect_all_lem (collect objects c (name, meta)) metas in
        (ground arith, ground arith, ground arith)

    -- A name that is not empty and among the names is watched for writes exactly when some of its
    -- metadata asks for writes, or it has none at all; and for reads exactly when some of its
    -- metadata asks for reads. No other name is watched, whatever the metadata say.
    pub register_watches_lem :
        (s : State objects) (names : List String) (metas : List (String × M))
        → let s' = register_watches objects s names metas in
          let named = not (n == "") && contains n names in
          (is_watching objects s' n
            ≡ (named && (some_access writes n metas || not (some_access (λ a. true) n metas))))
          × (is_read_watching objects s' n ≡ (named && some_access reads n metas))
    unfolding is_watching is_read_watching register_watches
    register_watches_lem s names [] =
        unfold some_access in
        (ground (arith, contains-name_set objects n names), unfold contains in ground arith)
    register_watches_lem s names (m ∷ metas) =
        let watched = name_set objects names in
        let c = collect_all objects (collected_none objects watched) (m ∷ metas) in
        let (a, b, d) = collect_all_lem (collected_none objects watched) (m ∷ metas) in
        let known = has-no_meta objects n watched in
        let in_set = contains-name_set objects n names in
        (
          contains-add_all objects n (select (λ k. not (contains k c.names_with_meta)) watched)
                c.write_names
              ∙ ground (
                arith,
                contains-select (λ k. not (contains k c.names_with_meta)) n watched,
                a,
                b,
                known,
                in_set,
              ),
          ground (arith, d, known, in_set),
        )
