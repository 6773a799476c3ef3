-- ===== src/Shared/Catalog/Collision.antt =====
-- The counter of the registry and that of the catalog give the same numbers.
use dapper.Base.{
  ℕ, ◌≡◌, refl, ◌∙◌, false, Option, none, some, List, nat_eq, ◌==◌, is_empty, Bool-cases, inl, inr,
}
use dapper.Base.Dict.{get, put, has}
use dapper.Base.Text.{Codes, codes, strip, codes_eq, same_text}
use dapper.Shared.Registry as Dynamic
use dapper.Shared.Catalog.{
  Catalog, ParsedUri, init, get_ref_for_path, create_source_ref, get_or_create_source_ref,
  get_source_meta, register_dynamic_source, get_or_register_dynamic_from_linecache,
  get_source_content_by_ref,
}
use dapper.Shared.Registry.Laws.{register_old, register_new}
use dapper.Shared.Catalog.Refs.{ref_created, register_dynamic_source_lem}

module _ (getlines : Codes → List Codes) (path other : Codes) (different : path == other ≡ false)
    (has_lines : is_empty (getlines (strip other)) ≡ false) where
  -- The catalog in which `path` has a reference.
  abbrev first : Catalog
  first = (get_or_create_source_ref init path none).1

  abbrev lines_entry : Dynamic.Entry
  lines_entry = record {
    ref = 1;
    virtual_path = strip (strip other);
    source_text = Dynamic.join (getlines (strip other));
    name = strip (strip other);
    origin = codes "linecache-dynamic";
  }

  abbrev registered : Dynamic.Registry
  registered = Dynamic.add_entry Dynamic.init lines_entry 2

  from_linecache :
      Dynamic.get_or_register_from_linecache getlines Dynamic.init other (codes "linecache-dynamic")
      ≡ some (some lines_entry, registered)
  unfolding Dynamic.get_or_register_from_linecache Dynamic.get_by_path Dynamic.register
      Dynamic.choose_ref Dynamic.counted_ref Dynamic.next_free Dynamic.add_entry Dynamic.assign
      Dynamic.name_or get has put
  from_linecache = rw has_lines refl

  -- The registration at the catalog finds the entry of the registry, or adds a second one under 2.
  registered_again :
      (a : ℕ) × (d : Dynamic.Registry) × (Dynamic.register registered other lines_entry.source_text
          (some lines_entry.name)
          lines_entry.origin
          (some 2)
        ≡ some (a, d))
      × (Dynamic.get_source_text d 1 ≡ some lines_entry.source_text)
  unfolding Dynamic.choose_ref Dynamic.add_entry Dynamic.assign Dynamic.get_source_text
      Dynamic.get_by_ref get has put
  registered_again = elim (Bool-cases (same_text (strip (strip other)) (strip other))) [
    | inl y ↦ (0, registered, register_old registered other _ _ _ (some 2) 0 (rw y refl), refl)
    | inr n ↦ (1, _, register_new registered other _ _ _ (some 2) 2 2 (rw n refl) refl, refl)
  ]

  abbrev second : Catalog
  second = (create_source_ref first other (some lines_entry.name)).1

  other_ref :
      (d : Dynamic.Registry)
      → get_or_create_source_ref (record first { dynamic = d }) other (some lines_entry.name)
        ≡ (2, record second { dynamic = d })
  unfolding get_or_create_source_ref get_ref_for_path create_source_ref get put
  other_ref d =
      ref_created (record first { dynamic = d }) other (some lines_entry.name) (rw different refl)

  catalog_after :
      (d : Dynamic.Registry) (a : ℕ)
      → Dynamic.register registered other lines_entry.source_text
          (some lines_entry.name)
          lines_entry.origin
          (some 2)
        ≡ some (a, d)
      → register_dynamic_source
          (record first { dynamic = registered })
          other
          lines_entry.source_text
          (some lines_entry.name)
          lines_entry.origin
        ≡ some (2, record second { dynamic = d })
  unfolding register_dynamic_source
  catalog_after d a e =
      register_dynamic_source_lem (record first { dynamic = registered })
        (record second { dynamic = registered }) 2 a d other lines_entry.source_text
        (some lines_entry.name) lines_entry.origin (other_ref registered) e

  from_catalog :
      get_or_register_dynamic_from_linecache getlines first other
      ≡ register_dynamic_source
          (record first { dynamic = registered })
          other
          lines_entry.source_text
          (some lines_entry.name)
          lines_entry.origin
  unfolding get_or_register_dynamic_from_linecache get_or_create_source_ref get_ref_for_path
      create_source_ref get
  from_catalog = rw (from_linecache, get_or_register_dynamic_from_linecache) refl

  -- In a new catalog a path gets the reference 1. When another path is then registered from
  -- `linecache`, which has lines for it, its own reference is 2, and 1 still names the first
  -- path, but its content is now the text of the other one.
  pub content-collision :
      (urlparse : Codes → ParsedUri) (url2pathname : Codes → Codes)
      (read_text : Codes → Option Codes)
      → (c : Catalog) × ((get_or_create_source_ref init path none).0 ≡ 1)
        × (get_or_register_dynamic_from_linecache getlines
              (get_or_create_source_ref init path none).1
              other
            ≡ some (2, c))
        × (get_source_meta c 1 ≡ some (record { path = path; name = none }))
        × (get_source_content_by_ref urlparse url2pathname read_text c 1
            ≡ some (Dynamic.join (getlines (strip other))))
  unfolding get_or_create_source_ref get_ref_for_path create_source_ref get put get_source_meta
      get_source_content_by_ref
  content-collision urlparse url2pathname read_text =
      let (a, d, e, text) = registered_again in
      (
        record second { dynamic = d },
        refl,
        from_catalog ∙ catalog_after d a e,
        refl,
        rw (text, get_source_content_by_ref) refl,
      )
