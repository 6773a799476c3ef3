-- ===== src/Shared/Catalog/Refs.antt =====
-- The references that the catalog gives, and where its numbers and the registry's meet.
use dapper.Base.{
  ℕ, zero, suc, ◌<◌, ◌≡◌, refl, ap, sym, ◌∙◌, Option, none, some, arith, nat_eq, nat_beq_iff, ◌==◌,
  if◌then◌else◌, Bool-cases, Option-cases, inl, inr,
}
use dapper.Base.Dict.{get, get-put}
use dapper.Base.Text.{Codes, codes_eq, same_text_iff}
use dapper.Shared.Registry as Dynamic
use dapper.Shared.Catalog.{
  Catalog, init, get_ref_for_path, create_source_ref, get_or_create_source_ref, with_dynamic,
  register_dynamic_source,
}

-- Every path that has a reference has one below the counter, at least 1, and the metadata that
-- stands there names the path.
pub record IsNumbered (c : Catalog) : Type 0 where
  pub counting : 0 < c.next_source_ref
  pub positive : (p : Codes) (ref : ℕ) → get p c.path_to_ref ≡ some ref → 0 < ref
  pub below : (p : Codes) (ref : ℕ) → get p c.path_to_ref ≡ some ref → ref < c.next_source_ref
  pub named :
      (p : Codes) (ref : ℕ)
      → get p c.path_to_ref ≡ some ref
      → (name : Option Codes) × (get ref c.source_references
          ≡ some (record { path = p; name = name }))

init-IsNumbered : IsNumbered init
unfolding get
init-IsNumbered = record {
  counting = omega arith;
  positive = λ p ref h. absurd (cc);
  below = λ p ref h. absurd (cc);
  named = λ p ref h. absurd (cc);
}

module _ (c : Catalog) (valid : IsNumbered c) (path : Codes) (name : Option Codes) where
  abbrev created : Catalog
  created = (create_source_ref c path name).1

  path-created :
      (p : Codes)
      → get p created.path_to_ref
        ≡ (if path == p then some c.next_source_ref else get p c.path_to_ref)
  unfolding create_source_ref
  path-created p = get-put path c.next_source_ref p c.path_to_ref

  meta-created :
      (ref : ℕ)
      → get ref created.source_references ≡ (
          if c.next_source_ref == ref
          then some (record { path = path; name = name })
          else get ref c.source_references)
  unfolding create_source_ref
  meta-created ref =
      get-put c.next_source_ref (record { path = path; name = name }) ref c.source_references

  create-IsNumbered : IsNumbered created
  unfolding create_source_ref
  create-IsNumbered = record {
    counting = omega arith;
    positive = λ p ref h. ground (arith, path-created p, valid.positive p ref, valid.counting);
    below = λ p ref h. ground (arith, path-created p, valid.below p ref);
    named = λ p ref h. elim (Bool-cases (path == p)) [
      | inl y ↦ (
        name,
        ground (
          arith,
          meta-created ref,
          path-created p,
          same_text_iff path p,
          nat_beq_iff c.next_source_ref ref,
        ),
      )
      | inr n ↦
          let (other, e) = valid.named p ref (ground (arith, path-created p)) in
          (
            other,
            ground (
              arith,
              meta-created ref,
              valid.below p ref,
              path-created p,
              nat_beq_iff c.next_source_ref ref,
              e,
            ),
          )
    ];
  }

create-again :
    (c : Catalog) (valid : IsNumbered c) (path : Codes) (name : Option Codes)
    → get path (created c valid path name).path_to_ref ≡ some c.next_source_ref
create-again c valid path name =
    ground (arith, path-created c valid path name path, same_text_iff path path)

module _ (c : Catalog) (path : Codes) (name : Option Codes) where
  ref_found :
      (n : ℕ)
      → get path c.path_to_ref ≡ some (suc n)
      → get_or_create_source_ref c path name ≡ (suc n, c)
  unfolding get_or_create_source_ref get_ref_for_path
  ref_found n h = rw (h, get_or_create_source_ref, get_ref_for_path) refl

  pub ref_created :
      get path c.path_to_ref ≡ none
      → get_or_create_source_ref c path name ≡ create_source_ref c path name
  unfolding get_or_create_source_ref get_ref_for_path
  ref_created h = rw (h, get_or_create_source_ref, get_ref_for_path) refl

-- What a call for a path leaves: valid numbers, a positive reference, metadata that names the path,
-- and every other path where it was.
pub record Referenced (c : Catalog) (path other : Codes) (result : ℕ × Catalog) : Type 0 where
  pub numbered : IsNumbered result.1
  pub some_ref : 0 < result.0
  pub found : get_ref_for_path result.1 path ≡ some result.0
  pub others :
      get_ref_for_path result.1 other
      ≡ (if path == other then some result.0 else get_ref_for_path c other)
  pub again : (name : Option Codes) → get_or_create_source_ref result.1 path name ≡ result

positive_suc : (n : ℕ) → 0 < n → (m : ℕ) × (n ≡ suc m)
positive_suc zero h = absurd (omega arith)
positive_suc (suc m) h = (m, refl)

-- In a numbered catalog, a reference for a path is positive and found again; the catalog stays
-- numbered, so that its metadata names the path; a second call, with any name, gives the same
-- reference and changes nothing; and no other path's reference changes.
get_or_create-IsNumbered :
    (c : Catalog) (valid : IsNumbered c) (path : Codes) (name : Option Codes) (other : Codes)
    → Referenced c path other (get_or_create_source_ref c path name)
unfolding get_ref_for_path create_source_ref
get_or_create-IsNumbered c valid path name other = elim (Option-cases (get path c.path_to_ref)) [
  | inr (ref, e) ↦
      let (n, f) = positive_suc ref (valid.positive path ref e) in
      let found = e ∙ ap some f in
      rw (ref_found c path name n found) (record {
        numbered = valid;
        some_ref = omega arith;
        found = found;
        others = ground (arith, found, same_text_iff path other);
        again = λ name'. ref_found c path name' n found;
      })
  | inl e ↦
      let (n, f) = positive_suc c.next_source_ref valid.counting in
      rw (ref_created c path name e) (record {
        numbered = create-IsNumbered c valid path name;
        some_ref = valid.counting;
        found = create-again c valid path name;
        others = path-created c valid path name other;
        again = λ name'.
            ref_found (create_source_ref c path name).1 path name' n
              (create-again c valid path name ∙ ap some f)
            ∙ ap (λ m. (m, (create_source_ref c path name).1)) (sym f);
      })
]

-- Two paths of a numbered catalog never share a reference.
distinct_refs :
    (c : Catalog) (valid : IsNumbered c) (p q : Codes) (ref : ℕ)
    → get_ref_for_path c p ≡ some ref
    → get_ref_for_path c q ≡ some ref
    → p ≡ q
unfolding get_ref_for_path
distinct_refs c valid p q ref h k =
    let (name, e) = valid.named p ref h in let (name', e') = valid.named q ref k in cc

-- A dynamic source is registered under the reference of its path.
pub register_dynamic_source_lem :
    (c c' : Catalog) (ref a : ℕ) (d : Dynamic.Registry) (path text : Codes) (name : Option Codes)
    (origin : Codes)
    → get_or_create_source_ref c path name ≡ (ref, c')
    → Dynamic.register c'.dynamic path text name origin (some ref) ≡ some (a, d)
    → register_dynamic_source c path text name origin ≡ some (ref, record c' { dynamic = d })
unfolding register_dynamic_source with_dynamic
register_dynamic_source_lem c c' ref a d path text name origin e f =
    ap (λ m. with_dynamic m.0 m.1 (Dynamic.register m.1.dynamic path text name origin (some m.0))) e
    ∙ ap (with_dynamic ref c') f
