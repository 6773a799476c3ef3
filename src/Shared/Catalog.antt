-- ===== src/Shared/Catalog.antt =====
-- dapper/shared/debug_shared.py: `SourceCatalog`. The source providers, the parsing of a URI, the
-- disk and `linecache` are arguments.
pub mod Refs
pub mod Collision
use dapper.Base.{
  ℕ, zero, suc, ◌+◌, ◌≡◌, Bool, true, false, ◌&&◌, ◌||◌, not, Option, none, some, List, [], ◌∷◌,
  ◌++◌, nat_eq, nat_beq, leb, ◌==◌, length, is_empty, if◌then◌else◌,
}
use dapper.Base.Dict.{Dict, get, put}
use dapper.Base.Text.{Codes, codes, lower, codes_eq}
use dapper.Shared.Registry as Dynamic

pub record Meta : Type 0 where
  pub path : Codes
  pub name : Option Codes

-- What a provider does with a path: it raises, gives something that is no text, or gives a text.
pub data Resolved : Type 0 where
  raised no_content : Resolved
  content : Codes → Resolved

abbrev pub Provider : Type 0
Provider = Codes → Resolved

pub record Catalog : Type 0 where
  pub source_references : Dict ℕ Meta
  pub path_to_ref : Dict Codes ℕ
  pub next_source_ref : ℕ
  pub source_providers : List (ℕ × Provider)
  pub next_source_provider_id : ℕ
  pub dynamic : Dynamic.Registry

abbrev pub init : Catalog
init = record {
  source_references = [];
  path_to_ref = [];
  next_source_ref = 1;
  source_providers = [];
  next_source_provider_id = 1;
  dynamic = Dynamic.init;
}

unfoldable pub get_ref_for_path : Catalog → Codes → Option ℕ
unfolding get
get_ref_for_path c path = get path c.path_to_ref

unfoldable pub set_path_to_ref_map : Catalog → Dict Codes ℕ → Catalog
set_path_to_ref_map c value = record c { path_to_ref = value }

-- The reference that the next call of the counter gives, stored for a path.
unfoldable pub create_source_ref : Catalog → Codes → Option Codes → ℕ × Catalog
unfolding put
create_source_ref c path name = (
  c.next_source_ref,
  record c {
    source_references =
        put c.next_source_ref (record { path = path; name = name }) c.source_references;
    path_to_ref = put path c.next_source_ref c.path_to_ref;
    next_source_ref = c.next_source_ref + 1;
  },
)

-- A stored 0 counts as no reference.
unfoldable pub get_or_create_source_ref : Catalog → Codes → Option Codes → ℕ × Catalog
unfolding get_ref_for_path create_source_ref
get_or_create_source_ref c path name = elim (get_ref_for_path c path) [
  | none ↦ create_source_ref c path name
  | some zero ↦ create_source_ref c path name
  | some (suc n) ↦ (suc n, c)
]

unfoldable pub get_source_meta : Catalog → ℕ → Option Meta
unfolding get
get_source_meta c ref = get ref c.source_references

-- `none` when the search for a free number has run out of fuel.
unfoldable pub with_dynamic : ℕ → Catalog → Option (ℕ × Dynamic.Registry) → Option (ℕ × Catalog)
with_dynamic ref c none = none
with_dynamic ref c (some (a, dynamic)) = some (ref, record c { dynamic = dynamic })

unfoldable pub register_dynamic_source :
    Catalog → Codes → Codes → Option Codes → Codes → Option (ℕ × Catalog)
unfolding get_or_create_source_ref Dynamic.register with_dynamic
register_dynamic_source c virtual_path source_text name origin =
    let (ref, c') = get_or_create_source_ref c virtual_path name in
    with_dynamic ref c'
      (Dynamic.register c'.dynamic virtual_path source_text name origin (some ref))

unfoldable pub placeholder : Codes → Codes
placeholder path = codes "# source not available for " ++ path ++ codes "\n"

unfoldable pub get_or_register_dynamic_from_linecache :
    (Codes → List Codes) → Catalog → Codes → Option (ℕ × Catalog)
unfolding Dynamic.get_or_register_from_linecache register_dynamic_source placeholder
get_or_register_dynamic_from_linecache getlines c path =
    elim (Dynamic.get_or_register_from_linecache getlines c.dynamic path
      (codes "linecache-dynamic")) [
        | none ↦ none
        | some (none, dynamic) ↦
            register_dynamic_source (record c { dynamic = dynamic }) path (placeholder path) none
              (codes "placeholder")
        | some (some entry, dynamic) ↦
            register_dynamic_source (record c { dynamic = dynamic }) path entry.source_text
              (some entry.name) entry.origin
      ]

unfoldable pub register_source_provider : Catalog → Provider → ℕ × Catalog
register_source_provider c provider = (
  c.next_source_provider_id,
  record c {
    source_providers = c.source_providers ++ (c.next_source_provider_id, provider) ∷ [];
    next_source_provider_id = c.next_source_provider_id + 1;
  },
)

unfoldable pub without_provider : ℕ → List (ℕ × Provider) → List (ℕ × Provider)
without_provider id [] = []
without_provider id ((pid, provider) ∷ providers) =
    let rest = without_provider id providers in if pid == id then rest else (pid, provider) ∷ rest

unfoldable pub unregister_source_provider : Catalog → ℕ → Bool × Catalog
unfolding without_provider
unregister_source_provider c id =
    let kept = without_provider id c.source_providers in
    (not (length kept == length c.source_providers), record c { source_providers = kept })

-- The first text that a provider gives.
unfoldable pub first_content : List (ℕ × Provider) → Codes → Option Codes
first_content [] path = none
first_content ((pid, provider) ∷ providers) path = elim (provider path) [
  | content text ↦ some text
  | no_content ↦ first_content providers path
  | raised ↦ first_content providers path
]

unfoldable pub is_letter : ℕ → Bool
is_letter c = (leb 65 c && leb c 90) || (leb 97 c && leb c 122)

-- `re.match(r"^[A-Za-z]:[\\/].*", s)`
unfoldable pub is_drive_path : Codes → Bool
unfolding is_letter
is_drive_path (letter ∷ colon ∷ slash ∷ rest) =
    is_letter letter && nat_beq colon 58 && (nat_beq slash 92 || nat_beq slash 47)
is_drive_path s = false

pub record ParsedUri : Type 0 where
  pub scheme : Codes
  pub netloc : Codes
  pub path : Codes

module _ (urlparse : Codes → ParsedUri) (url2pathname : Codes → Codes) where
  unfoldable pub normalize_path_or_uri : Codes → Codes × Bool
  unfolding is_drive_path lower
  normalize_path_or_uri path_or_uri =
      let parsed = urlparse path_or_uri in
      if is_drive_path path_or_uri
      then (path_or_uri, true)
      else if is_empty parsed.scheme
      then (path_or_uri, true)
      else if lower parsed.scheme == codes "file"
      then (if is_empty parsed.netloc
          then (url2pathname parsed.path, true)
          else if lower parsed.netloc == codes "localhost"
          then (url2pathname parsed.path, true)
          else (path_or_uri, false))
      else (path_or_uri, false)

  module _ (read_text : Codes → Option Codes) where
    unfoldable pub disk_content : Codes → Option Codes
    unfolding normalize_path_or_uri
    disk_content path_or_uri =
        let (normalized_path, should_try_disk) = normalize_path_or_uri path_or_uri in
        if should_try_disk then read_text normalized_path else none

    unfoldable pub get_source_content_by_path : Catalog → Codes → Option Codes
    unfolding Dynamic.get_source_text_by_path first_content disk_content
    get_source_content_by_path c path_or_uri =
        elim (Dynamic.get_source_text_by_path c.dynamic path_or_uri) [
          | some text ↦ some text
          | none ↦ elim (first_content c.source_providers path_or_uri) [
            | some text ↦ some text
            | none ↦ disk_content path_or_uri
          ]
        ]

    unfoldable pub get_source_content_by_ref : Catalog → ℕ → Option Codes
    unfolding Dynamic.get_source_text get_source_meta get_source_content_by_path
    get_source_content_by_ref c ref = elim (Dynamic.get_source_text c.dynamic ref) [
      | some text ↦ some text
      | none ↦ elim (get_source_meta c ref) [
        | none ↦ none
        | some meta ↦ if is_empty meta.path then none else get_source_content_by_path c meta.path
      ]
    ]
