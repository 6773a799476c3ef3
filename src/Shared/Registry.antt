-- ===== src/Shared/Registry.antt =====
-- dapper/shared/runtime_source_registry.py: `RuntimeSourceRegistry`. An entry is one mutable object
-- that two maps hold, so it stands in a heap and the maps hold its address.
pub mod Linked
pub mod Laws
use dapper.Base.{
  ℕ, zero, suc, ◌+◌, Bool, true, false, Option, none, some, List, [], ◌∷◌, ◌++◌, nat_eq, ◌==◌,
  length, is_empty, if◌then◌else◌,
}
use dapper.Base.Dict.{Dict, get, put, has}
use dapper.Base.Text.{Codes, codes, strip, codes_eq}

pub record Entry : Type 0 where
  pub ref : ℕ
  pub virtual_path : Codes
  pub source_text : Codes
  pub name : Codes
  pub origin : Codes

pub record Registry : Type 0 where
  pub heap : ℕ → Entry
  pub next_address : ℕ
  pub next_id : ℕ
  pub by_ref : Dict ℕ ℕ
  pub by_path : Dict Codes ℕ

abbrev pub no_entry : Entry
no_entry = record { ref = 0; virtual_path = []; source_text = []; name = []; origin = [] }

abbrev pub init : Registry
init = record { heap = λ a. no_entry; next_address = 0; next_id = 1; by_ref = []; by_path = [] }

-- `name or virtual_path`
unfoldable pub name_or : Option Codes → Codes → Codes
name_or none path = path
name_or (some name) path = if is_empty name then path else name

-- What a write to an object at an address does.
unfoldable pub assign : (ℕ → Entry) → ℕ → Entry → ℕ → Entry
assign heap a entry b = if a == b then entry else heap b

-- `next(self._next_id)` until the number is not taken; the first argument is the fuel.
unfoldable pub next_free : ℕ → ℕ → Dict ℕ ℕ → Option ℕ
unfolding has
next_free zero id by_ref = none
next_free (suc fuel) id by_ref = elim (has id by_ref) [
  | true ↦ next_free fuel (id + 1) by_ref
  | false ↦ some id
]

-- The counter has passed the number that it gave; each entry takes one round at most.
unfoldable pub counted_ref : Registry → Option (ℕ × ℕ)
unfolding next_free
counted_ref r = elim (next_free (length r.by_ref + 1) r.next_id r.by_ref) [
  | none ↦ none
  | some ref ↦ some (ref, ref + 1)
]

-- The reference of a new entry, and the counter after it.
unfoldable pub choose_ref : Registry → Option ℕ → Option (ℕ × ℕ)
unfolding counted_ref has
choose_ref r none = counted_ref r
choose_ref r (some hint) = if has hint r.by_ref then counted_ref r else some (hint, r.next_id)

unfoldable pub add_entry : Registry → Entry → ℕ → Registry
unfolding assign put
add_entry r entry next_id = record {
  heap = assign r.heap r.next_address entry;
  next_address = r.next_address + 1;
  next_id = next_id;
  by_ref = put entry.ref r.next_address r.by_ref;
  by_path = put entry.virtual_path r.next_address r.by_path;
}

-- The address of the entry, and the registry after the call; `none` when the fuel runs out.
unfoldable pub register :
    Registry → Codes → Codes → Option Codes → Codes → Option ℕ → Option (ℕ × Registry)
unfolding strip get choose_ref name_or add_entry
register r virtual_path source_text name origin ref_hint =
    let key = strip virtual_path in
    elim (get key r.by_path) [
      | some existing ↦ some (existing, r)
      | none ↦ elim (choose_ref r ref_hint) [
        | none ↦ none
        | some (ref, next_id) ↦ some (
          r.next_address,
          add_entry r
              (record {
                ref = ref;
                virtual_path = key;
                source_text = source_text;
                name = name_or name key;
                origin = origin;
              })
              next_id,
        )
      ]
    ]

unfoldable pub update : Registry → Codes → Codes → Bool × Registry
unfolding strip get assign
update r virtual_path source_text = elim (get (strip virtual_path) r.by_path) [
  | none ↦ (false, r)
  | some a ↦
      (true, record r { heap = assign r.heap a (record (r.heap a) { source_text = source_text }) })
]

unfoldable pub get_by_ref : Registry → ℕ → Option Entry
unfolding get
get_by_ref r ref = elim (get ref r.by_ref) [ none ↦ none | some a ↦ some (r.heap a) ]

unfoldable pub get_by_path : Registry → Codes → Option Entry
unfolding get strip
get_by_path r virtual_path = elim (get (strip virtual_path) r.by_path) [
  | none ↦ none
  | some a ↦ some (r.heap a)
]

abbrev pub text_of : Option Entry → Option Codes
text_of none = none
text_of (some entry) = some entry.source_text

unfoldable pub get_source_text : Registry → ℕ → Option Codes
unfolding get_by_ref
get_source_text r ref = text_of (get_by_ref r ref)

unfoldable pub get_source_text_by_path : Registry → Codes → Option Codes
unfolding get_by_path
get_source_text_by_path r virtual_path = text_of (get_by_path r virtual_path)

-- `"".join(lines)`
unfoldable pub join : List Codes → Codes
join [] = []
join (line ∷ lines) = line ++ join lines

-- `getlines` is that of `linecache`. The result is the entry, if there is one, and the registry.
unfoldable pub get_or_register_from_linecache :
    (Codes → List Codes) → Registry → Codes → Codes → Option (Option Entry × Registry)
unfolding strip get_by_path join register
get_or_register_from_linecache getlines r virtual_path origin =
    let key = strip virtual_path in
    elim (get_by_path r key) [
      | some entry ↦ some (some entry, r)
      | none ↦
          if is_empty (getlines key)
          then some (none, r)
          else elim (register r key (join (getlines key)) none origin none) [
            | none ↦ none
            | some (a, r') ↦ some (some (r'.heap a), r')
          ]
    ]

unfoldable pub clear : Registry → Registry
clear r = record r { by_ref = []; by_path = [] }
