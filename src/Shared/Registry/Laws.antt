-- ===== src/Shared/Registry/Laws.antt =====
-- What registration and update promise to the readers of the registry.
use dapper.Base.{
  nat_eq, ◌&&◌, not, ℕ, ◌≡◌, refl, ap, sym, ◌∙◌, true, false, Option, none, some, arith, ◌==◌,
  Bool-cases, Option-cases, inl, inr, if◌then◌else◌,
}
use dapper.Base.Dict.{get, has}
use dapper.Base.Text.{Codes, strip, codes_eq, same_text_iff}
use dapper.Shared.Registry.{
  Entry, Registry, assign, choose_ref, name_or, add_entry, register, update, get_by_ref,
  get_by_path, get_source_text, get_source_text_by_path,
}
use dapper.Shared.Registry.Linked.{
  IsLinked, choose_ref_lem, add_entry-IsLinked, heap_listed, path_added, get_path-added, heap_new,
}

module _ (r : Registry) (virtual_path text : Codes) (name : Option Codes) (origin : Codes)
    (hint : Option ℕ) where
  abbrev pub entry_of : ℕ → Entry
  entry_of ref = record {
    ref = ref;
    virtual_path = strip virtual_path;
    source_text = text;
    name = name_or name (strip virtual_path);
    origin = origin;
  }

  pub register_old :
      (a : ℕ)
      → get (strip virtual_path) r.by_path ≡ some a
      → register r virtual_path text name origin hint ≡ some (a, r)
  unfolding register
  register_old a h = rw (h, register) refl

  pub register_new :
      (ref next : ℕ)
      → get (strip virtual_path) r.by_path ≡ none
      → choose_ref r hint ≡ some (ref, next)
      → register r virtual_path text name origin hint
        ≡ some (r.next_address, add_entry r (entry_of ref) next)
  unfolding register
  register_new ref next h c = rw (h, c, register) refl

get-none : (i : ℕ) (r : Registry) → has i r.by_ref ≡ false → get i r.by_ref ≡ none
unfolding has
get-none i r h = ground arith

text_by_path :
    (r : Registry) (p : Codes) (a : ℕ)
    → get (strip p) r.by_path ≡ some a
    → get_source_text_by_path r p ≡ some (r.heap a).source_text
unfolding get_source_text_by_path get_by_path
text_by_path r p a h = rw (h, get_source_text_by_path, get_by_path) refl

text_by_ref :
    (r : Registry) (i a : ℕ)
    → get i r.by_ref ≡ some a
    → get_source_text r i ≡ some (r.heap a).source_text
unfolding get_source_text get_by_ref
text_by_ref r i a h = rw (h, get_source_text, get_by_ref) refl

no_text_by_path :
    (r : Registry) (p : Codes) → get (strip p) r.by_path ≡ none → get_source_text_by_path r p ≡ none
unfolding get_source_text_by_path get_by_path
no_text_by_path r p h = rw (h, get_source_text_by_path, get_by_path) refl

-- What is read at a path after an entry is added.
text-add_entry :
    (r : Registry) (valid : IsLinked r) (entry : Entry) (next : ℕ) (other : Codes)
    → get entry.ref r.by_ref ≡ none
    → get entry.virtual_path r.by_path ≡ none
    → get_source_text_by_path (add_entry r entry next) other ≡ (
        if entry.virtual_path == strip other
        then some entry.source_text
        else get_source_text_by_path r other)
text-add_entry r valid entry next other new_ref new_path =
    let fresh = get_path-added r valid entry next new_ref new_path (strip other) in
    elim (Bool-cases (entry.virtual_path == strip other)) [
      | inl y ↦ rw (y) (
          text_by_path (add_entry r entry next) other r.next_address (ground (arith, fresh, y))
          ∙ ap (λ e. some e.source_text) (heap_new r valid entry next new_ref new_path))
      | inr n ↦ rw (n) (elim (Option-cases (get (strip other) r.by_path)) [
        | inl e ↦
            no_text_by_path (add_entry r entry next) other (ground (arith, fresh, n, e))
            ∙ sym (no_text_by_path r other e)
        | inr (a, e) ↦
            text_by_path (add_entry r entry next) other a (ground (arith, fresh, n, e))
            ∙ ap (λ e. some e.source_text)
                (heap_listed r valid entry next new_ref new_path (strip other) a e)
            ∙ sym (text_by_path r other a e)
      ])
    ]

-- What a registration does, whichever way it goes.
pub record Registered (r : Registry) (virtual_path text other : Codes) (a : ℕ) (r' : Registry)
    : Type 0 where
  pub linked : IsLinked r'
  pub at_path : get (strip virtual_path) r'.by_path ≡ some a
  pub at_ref : get_source_text r' (r'.heap a).ref ≡ some (r'.heap a).source_text
  pub texts : get_source_text_by_path r' other ≡ (
      if strip virtual_path == strip other && not (has (strip virtual_path) r.by_path)
      then some text
      else get_source_text_by_path r other)

-- The linked registry stays so and a registration always ends. Its entry is the one at the path,
-- and the entry's number leads to the entry's text. Reading the text of any path afterwards gives
-- the new text where that path is the registered one and had no entry, and what it gave before in
-- every other case: a second registration keeps the first text.
pub register-IsLinked :
    (r : Registry) (valid : IsLinked r) (virtual_path text : Codes) (name : Option Codes)
    (origin : Codes) (hint : Option ℕ) (other : Codes)
    → (a : ℕ) × (r' : Registry) × (register r virtual_path text name origin hint ≡ some (a, r'))
      × Registered r virtual_path text other a r'
unfolding has
register-IsLinked r valid virtual_path text name origin hint other =
    elim (Option-cases (get (strip virtual_path) r.by_path)) [
      | inr (a, e) ↦ (
        a,
        r,
        register_old r virtual_path text name origin hint a e,
        record {
          linked = valid;
          at_path = e;
          at_ref = text_by_ref r _ a (valid.listed _ a e);
          texts = ground (arith, e);
        },
      )
      | inl e ↦
          let (ref, next, c, free) = choose_ref_lem r hint in
          let entry = entry_of r virtual_path text name origin hint ref in
          let new = get-none ref r free in
          (
            r.next_address,
            add_entry r entry next,
            register_new r virtual_path text name origin hint ref next e c,
            record {
              linked = add_entry-IsLinked r valid entry next new e;
              at_path = path_added r valid entry next new e;
              at_ref = text_by_ref (add_entry r entry next) _ r.next_address (
                  (add_entry-IsLinked r valid entry next new e).listed _ _
                    (path_added r valid entry next new e));
              texts = ground (arith, text-add_entry r valid entry next other new e, e);
            },
          )
    ]

module _ (r : Registry) (virtual_path text : Codes) (a : ℕ) where
  abbrev rewritten : Registry
  unfolding assign
  rewritten = record r { heap = assign r.heap a (record (r.heap a) { source_text = text }) }

  update_found :
      get (strip virtual_path) r.by_path ≡ some a → update r virtual_path text ≡ (true, rewritten)
  unfolding update
  update_found h = rw (h, update) refl

-- What is read at a path after the text of the entry at an address is replaced.
text-rewritten :
    (r : Registry) (valid : IsLinked r) (virtual_path text other : Codes) (a : ℕ)
    → get (strip virtual_path) r.by_path ≡ some a
    → get_source_text_by_path (rewritten r virtual_path text a) other
      ≡ (if strip virtual_path == strip other then some text else get_source_text_by_path r other)
unfolding assign
text-rewritten r valid virtual_path text other a h =
    elim (Option-cases (get (strip other) r.by_path)) [
      | inl e ↦ rw (no_text_by_path (rewritten r virtual_path text a) other e) (
          ground (
            arith,
            no_text_by_path r other e,
            e,
            h,
            same_text_iff (strip virtual_path) (strip other),
          ))
      | inr (b, e) ↦ rw (text_by_path (rewritten r virtual_path text a) other b e) (
          ground (
            arith,
            text_by_path r other b e,
            e,
            h,
            valid.path_of (strip other) b e,
            valid.path_of (strip virtual_path) a h,
            same_text_iff (strip virtual_path) (strip other),
          ))
    ]

-- One write to the shared entry is what every reader of its path gets next; the texts at all other
-- paths stay, and an unknown path changes nothing and gives `false`.
update_lem :
    (r : Registry) (valid : IsLinked r) (virtual_path text other : Codes)
    → (get_source_text_by_path (update r virtual_path text).1 other ≡ (
        if strip virtual_path == strip other && has (strip virtual_path) r.by_path
        then some text
        else get_source_text_by_path r other))
      × ((update r virtual_path text).0 ≡ has (strip virtual_path) r.by_path)
unfolding has update
update_lem r valid virtual_path text other =
    elim (Option-cases (get (strip virtual_path) r.by_path)) [
      | inr (a, e) ↦
          rw (e, update) (ground (arith, text-rewritten r valid virtual_path text other a e))
      | inl e ↦ rw (e, update) (ground arith)
    ]
