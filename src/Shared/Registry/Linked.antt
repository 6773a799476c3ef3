-- ===== src/Shared/Registry/Linked.antt =====
-- The two maps of the registry stay in agreement, and the search for a number ends.
use dapper.Base.{
  ℕ, zero, suc, ◌+◌, ◌≤◌, ◌<◌, ◌≡◌, refl, sym, true, false, Option, none, some, [], ◌∷◌, arith, leb,
  nat_eq, nat_beq_iff, ◌==◌, length, if◌then◌else◌, Bool-cases, inl, inr, ◌⊎◌,
}
use dapper.Base.Dict.{Dict, get, has, get-put}
use dapper.Base.Text.{Codes, codes_eq, same_text_iff}
use dapper.Shared.Registry.{
  Entry, Registry, init, assign, next_free, counted_ref, choose_ref, add_entry,
}

-- How many keys are a number or above.
keys_from : ℕ → Dict ℕ ℕ → ℕ
keys_from n [] = 0
keys_from n ((k, a) ∷ d) = if leb n k then keys_from n d + 1 else keys_from n d

keys_from-le : (n : ℕ) (d : Dict ℕ ℕ) → keys_from n d ≤ length d
unfolding keys_from
keys_from-le n [] = omega arith
keys_from-le n ((k, a) ∷ d) = ground (arith, keys_from-le n d)

keys_from_mono : (n : ℕ) (d : Dict ℕ ℕ) → keys_from (n + 1) d ≤ keys_from n d
unfolding keys_from
keys_from_mono n [] = omega arith
keys_from_mono n ((k, a) ∷ d) = ground (arith, keys_from_mono n d)

keys_from_taken : (n : ℕ) (d : Dict ℕ ℕ) → has n d ≡ true → keys_from (n + 1) d < keys_from n d
unfolding keys_from has get
keys_from_taken n [] h = absurd (cc)
keys_from_taken n ((k, a) ∷ d) h = ground (arith, keys_from_taken n d, keys_from_mono n d)

next_free_lem :
    (fuel id : ℕ) (d : Dict ℕ ℕ)
    → keys_from id d < fuel
    → (ref : ℕ) × (next_free fuel id d ≡ some ref) × (has ref d ≡ false) × (id ≤ ref)
unfolding next_free
next_free_lem zero id d h = absurd (omega arith)
next_free_lem (suc fuel) id d h = elim (Bool-cases (has id d)) [
  | inl y ↦
      let (ref, e, f, l) = next_free_lem fuel (id + 1) d (omega (arith, keys_from_taken id d y)) in
      (ref, rw (y, next_free) e, f, omega arith)
  | inr n ↦ (id, rw (n, next_free) refl, n, omega arith)
]

counted_from :
    (r : Registry) (ref : ℕ)
    → next_free (length r.by_ref + 1) r.next_id r.by_ref ≡ some ref
    → counted_ref r ≡ some (ref, ref + 1)
unfolding counted_ref
counted_from r ref e = rw (e, counted_ref) refl

counted_ref_lem :
    (r : Registry)
    → (ref next : ℕ) × (counted_ref r ≡ some (ref, next)) × (has ref r.by_ref ≡ false)
counted_ref_lem r =
    let (ref, e, f, l) =
      next_free_lem (length r.by_ref + 1) r.next_id r.by_ref
        (omega (arith, keys_from-le r.next_id r.by_ref)) in
    (ref, ref + 1, counted_from r ref e, f)

-- The reference of a new entry is always found, and no entry has it.
pub choose_ref_lem :
    (r : Registry) (hint : Option ℕ)
    → (ref next : ℕ) × (choose_ref r hint ≡ some (ref, next)) × (has ref r.by_ref ≡ false)
unfolding choose_ref
choose_ref_lem r none = counted_ref_lem r
choose_ref_lem r (some hint) = elim (Bool-cases (has hint r.by_ref)) [
  | inl y ↦ rw (y, choose_ref) (counted_ref_lem r)
  | inr n ↦ (hint, r.next_id, rw (n, choose_ref) refl, n)
]

-- The two maps hold the same entries, each under its own reference and its own path.
pub record IsLinked (r : Registry) : Type 0 where
  pub ref_of : (i a : ℕ) → get i r.by_ref ≡ some a → (r.heap a).ref ≡ i
  pub indexed :
      (i a : ℕ) → get i r.by_ref ≡ some a → get ((r.heap a).virtual_path) r.by_path ≡ some a
  pub path_of : (p : Codes) (a : ℕ) → get p r.by_path ≡ some a → (r.heap a).virtual_path ≡ p
  pub listed : (p : Codes) (a : ℕ) → get p r.by_path ≡ some a → get (r.heap a).ref r.by_ref ≡ some a
  pub allocated : (p : Codes) (a : ℕ) → get p r.by_path ≡ some a → a < r.next_address

pub init-IsLinked : IsLinked init
unfolding get
init-IsLinked = record {
  ref_of = λ i a h. absurd (cc);
  indexed = λ i a h. absurd (cc);
  path_of = λ p a h. absurd (cc);
  listed = λ p a h. absurd (cc);
  allocated = λ p a h. absurd (cc);
}

module _ (r : Registry) (valid : IsLinked r) (entry : Entry) (next_id : ℕ)
    (new_ref : get entry.ref r.by_ref ≡ none)
    (new_path : get entry.virtual_path r.by_path ≡ none) where
  abbrev pub added : Registry
  added = add_entry r entry next_id

  get_ref-added :
      (i : ℕ)
      → get i added.by_ref ≡ (if entry.ref == i then some r.next_address else get i r.by_ref)
  unfolding add_entry
  get_ref-added i = get-put entry.ref r.next_address i r.by_ref

  pub get_path-added :
      (p : Codes)
      → get p added.by_path
        ≡ (if entry.virtual_path == p then some r.next_address else get p r.by_path)
  unfolding add_entry
  get_path-added p = get-put entry.virtual_path r.next_address p r.by_path

  -- What was at an address before, where a path led to it.
  heap_old : (a : ℕ) → a < r.next_address → added.heap a ≡ r.heap a
  unfolding add_entry assign
  heap_old a h = ground arith

  pub heap_new : added.heap r.next_address ≡ entry
  unfolding add_entry assign
  heap_new = ground arith

  path_new : (p : Codes) (a : ℕ) → get p r.by_path ≡ some a → entry.virtual_path == p ≡ false
  path_new p a h = elim (Bool-cases (entry.virtual_path == p)) [
    | inl y ↦ absurd (cc ((same_text_iff entry.virtual_path p).0 y, new_path, h))
    | inr n ↦ n
  ]

  ref_new : (i a : ℕ) → get i r.by_ref ≡ some a → entry.ref == i ≡ false
  ref_new i a h = elim (Bool-cases (entry.ref == i)) [
    | inl y ↦ absurd (cc ((nat_beq_iff entry.ref i).0 y, new_ref, h))
    | inr n ↦ n
  ]

  pub heap_listed : (p : Codes) (a : ℕ) → get p r.by_path ≡ some a → added.heap a ≡ r.heap a
  heap_listed p a h = heap_old a (valid.allocated p a h)

  path_kept : (p : Codes) (a : ℕ) → get p r.by_path ≡ some a → get p added.by_path ≡ some a
  path_kept p a h = rw (get_path-added p, path_new p a h) h

  ref_kept : (i a : ℕ) → get i r.by_ref ≡ some a → get i added.by_ref ≡ some a
  ref_kept i a h = rw (get_ref-added i, ref_new i a h) h

  pub path_added : get entry.virtual_path added.by_path ≡ some r.next_address
  path_added = ground (
    arith,
    get_path-added entry.virtual_path,
    same_text_iff entry.virtual_path entry.virtual_path,
  )

  pub ref_added : get entry.ref added.by_ref ≡ some r.next_address
  ref_added = ground (arith, get_ref-added entry.ref, nat_beq_iff entry.ref entry.ref)

  -- Where a number or a path leads in the new maps: to the new entry, or where it led before.
  from_ref :
      (i a : ℕ)
      → get i added.by_ref ≡ some a
      → ((i ≡ entry.ref) × (a ≡ r.next_address)) ⊎ (get i r.by_ref ≡ some a)
  from_ref i a h = elim (Bool-cases (entry.ref == i)) [
    | inl y ↦ ground (arith, get_ref-added i, nat_beq_iff entry.ref i)
    | inr n ↦ ground (arith, get_ref-added i)
  ]

  from_path :
      (p : Codes) (a : ℕ)
      → get p added.by_path ≡ some a
      → ((p ≡ entry.virtual_path) × (a ≡ r.next_address)) ⊎ (get p r.by_path ≡ some a)
  from_path p a h = elim (Bool-cases (entry.virtual_path == p)) [
    | inl y ↦ ground (arith, get_path-added p, same_text_iff entry.virtual_path p)
    | inr n ↦ ground (arith, get_path-added p)
  ]

  pub add_entry-IsLinked : IsLinked added
  add_entry-IsLinked = record {
    ref_of = λ i a h. elim (from_ref i a h) [
      | inl (e, f) ↦ rw (f, heap_new) (sym e)
      | inr g ↦ rw (heap_listed _ a (valid.indexed i a g)) (valid.ref_of i a g)
    ];
    indexed = λ i a h. elim (from_ref i a h) [
      | inl (e, f) ↦ rw (f, heap_new) path_added
      | inr g ↦ rw (heap_listed _ a (valid.indexed i a g)) (path_kept _ a (valid.indexed i a g))
    ];
    path_of = λ p a h. elim (from_path p a h) [
      | inl (e, f) ↦ rw (f, heap_new) (sym e)
      | inr g ↦ rw (heap_listed p a g) (valid.path_of p a g)
    ];
    listed = λ p a h. elim (from_path p a h) [
      | inl (e, f) ↦ rw (f, heap_new) ref_added
      | inr g ↦ rw (heap_listed p a g) (ref_kept _ a (valid.listed p a g))
    ];
    allocated = λ p a h. elim (from_path p a h) [
      | inl (e, f) ↦ unfold add_entry in omega arith
      | inr g ↦ unfold add_entry in omega (arith, valid.allocated p a g)
    ];
  }
