-- ===== src/Core/Breakpoints/Index.antt =====
-- The two maps of `BreakpointManager` agree, and no two breakpoints share a dictionary.
use dapper.Base.{
  ℕ, ◌+◌, ◌<◌, String, ◌≡◌, refl, ◌&&◌, Option, none, some, List, [], ◌∷◌, ◌==◌, nat_eq, string_eq,
  pair_eq, arith, if◌then◌else◌, eq_iff, ◌≤◌, contains, Option-cases, inl, inr,
}
use dapper.Base.Dict.{Dict, get, put, remove, has, get_or, keys, get-put, get-remove, contains-keys}
use dapper.Core.Breakpoints.{
  Manager, Meta, Key, init, put_nested, get_nested, remove_lines, remove_path, address,
  record_line_breakpoint, get_line_meta, clear_line_meta_for_file, increment_hit_count, count_hit,
  hit_found, reindex, Hits, hits, type_error,
}

module _ {ℓ} {V : Type ℓ} where
  pub get_nested-put_nested :
      (path : String) (line : ℕ) (v : V) (p : String) (l : ℕ) (d : Dict String (Dict ℕ V))
      → get_nested p l (put_nested path line v d)
        ≡ (if path == p && line == l then some v else get_nested p l d)
  unfolding get_nested put_nested get_or
  get_nested-put_nested path line v p l d = ground (
    arith,
    get-put path (put line v (get_or path [] d)) p d,
    get-put line v l (get_or path [] d),
    eq_iff path p,
  )

  pub get_nested-remove :
      (path p : String) (l : ℕ) (d : Dict String (Dict ℕ V))
      → get_nested p l (remove path d) ≡ (if path == p then none else get_nested p l d)
  unfolding get_nested
  get_nested-remove path p l d = ground (arith, get-remove path p d)

get-remove_lines :
    (path : String) (lines : List ℕ) (p : String) (l : ℕ) (d : Dict Key ℕ)
    → get (p, l) (remove_lines path lines d)
      ≡ (if path == p && contains l lines then none else get (p, l) d)
unfolding remove_lines contains
get-remove_lines path [] p l d = ground arith
get-remove_lines path (line ∷ lines) p l d = ground (
  arith,
  get-remove_lines path lines p l (remove (path, line) d),
  get-remove (path, line) (p, l) d,
)

get-remove_path :
    (path p : String) (l : ℕ) (d : Dict Key ℕ)
    → get (p, l) (remove_path path d) ≡ (if path == p then none else get (p, l) d)
unfolding remove_path get
get-remove_path path p l [] = ground arith
get-remove_path path p l ((k, r) ∷ d) =
    ground (arith, get-remove_path path p l d, eq_iff k.0 path, eq_iff k.0 p, eq_iff path p)

pub record IsIndexed (m : Manager) : Type 0 where
  -- the index by path holds exactly the addresses of the main map
  pub indexed : (p : String) (l : ℕ) → get_nested p l m.line_meta_by_path ≡ get (p, l) m.line_meta
  -- addresses in use have been given out
  pub allocated : (p : String) (l r : ℕ) → get (p, l) m.line_meta ≡ some r → r < m.next_ref
  -- a dictionary belongs to one breakpoint
  pub separate :
      (p q : String) (l n r : ℕ)
      → get (p, l) m.line_meta ≡ some r
      → get (q, n) m.line_meta ≡ some r
      → (p ≡ q) × (l ≡ n)

pub init-IsIndexed : IsIndexed init
unfolding get get_nested
init-IsIndexed = record {
  indexed = λ p l. refl;
  allocated = λ p l r h. absurd (cc);
  separate = λ p q l n r h k. absurd (cc);
}

module _ (m : Manager) (valid : IsIndexed m) where
  -- Under the invariant the lookup changes nothing and finds what the main map holds.
  pub get_line_meta-eq : (p : String) (l : ℕ) → get_line_meta m p l ≡ (get (p, l) m.line_meta, m)
  unfolding get_line_meta reindex
  get_line_meta-eq p l = ground (arith, valid.indexed p l)

  pub get-clear_line_meta :
      (path p : String) (l : ℕ)
      → get (p, l) (clear_line_meta_for_file m path).line_meta
        ≡ (if path == p then none else get (p, l) m.line_meta)
  unfolding clear_line_meta_for_file get_nested has
  get-clear_line_meta path p l = elim (Option-cases (get path m.line_meta_by_path)) [
    | inl e ↦ rw (e, clear_line_meta_for_file) (get-remove_path path p l m.line_meta)
    | inr (lines, e) ↦
        rw (e, clear_line_meta_for_file)
          (ground (
            arith,
            get-remove_lines path (keys lines) p l m.line_meta,
            contains-keys l lines,
            valid.indexed p l,
            eq_iff path p,
          ))
  ]

  pub get_nested-clear_line_meta :
      (path p : String) (l : ℕ)
      → get_nested p l (clear_line_meta_for_file m path).line_meta_by_path
        ≡ (if path == p then none else get_nested p l m.line_meta_by_path)
  unfolding clear_line_meta_for_file
  get_nested-clear_line_meta path p l = elim (Option-cases (get path m.line_meta_by_path)) [
    | inl e ↦ rw (e, clear_line_meta_for_file) (unfold get_nested in ground (arith, eq_iff path p))
    | inr (lines, e) ↦
        rw (e, clear_line_meta_for_file) (get_nested-remove path p l m.line_meta_by_path)
  ]

-- The address that `record_line_breakpoint` uses is new, or the one of its breakpoint.
module _ (m : Manager) (valid : IsIndexed m) (path : String) (line : ℕ) where
  abbrev bound : ℕ
  bound = if has (path, line) m.line_meta then m.next_ref else m.next_ref + 1

  next_ref-le-bound : m.next_ref ≤ bound
  next_ref-le-bound = ground arith

  address-lt-bound : address m (path, line) < bound
  unfolding address has
  address-lt-bound = elim (Option-cases (get (path, line) m.line_meta)) [
    | inl e ↦ ground arith
    | inr (r, e) ↦ ground (arith, valid.allocated path line r e)
  ]

  pub address_owner :
      (q : String) (n : ℕ)
      → get (q, n) m.line_meta ≡ some (address m (path, line))
      → (path ≡ q) × (line ≡ n)
  unfolding address
  address_owner q n h = elim (Option-cases (get (path, line) m.line_meta)) [
    | inl e ↦ absurd (omega (arith, valid.allocated q n m.next_ref (ground arith)))
    | inr (r, e) ↦ valid.separate path q line n r e (ground arith)
  ]

  module _ (condition hit_condition log_message : Option String) (kwargs : Meta) where
    abbrev recorded : Manager
    recorded = record_line_breakpoint m path line condition hit_condition log_message kwargs

    pub get-record_line :
        (p : String) (l : ℕ)
        → get (p, l) recorded.line_meta ≡ (
            if path == p && line == l
            then some (address m (path, line))
            else get (p, l) m.line_meta)
    unfolding record_line_breakpoint
    get-record_line p l = get-put (path, line) (address m (path, line)) (p, l) m.line_meta

    record_line-allocated :
        (p : String) (l r : ℕ) → get (p, l) recorded.line_meta ≡ some r → r < recorded.next_ref
    unfolding record_line_breakpoint
    record_line-allocated p l r h =
        ground
          (arith, get-record_line p l, address-lt-bound, next_ref-le-bound, valid.allocated p l r)

    record_line-separate :
        (p q : String) (l n r : ℕ)
        → get (p, l) recorded.line_meta ≡ some r
        → get (q, n) recorded.line_meta ≡ some r
        → (p ≡ q) × (l ≡ n)
    record_line-separate p q l n r h k = ground (
      arith,
      get-record_line p l,
      get-record_line q n,
      address_owner p l,
      address_owner q n,
      valid.separate p q l n r,
      eq_iff path p,
      eq_iff path q,
    )

    pub record_line-IsIndexed : IsIndexed recorded
    record_line-IsIndexed = record {
      indexed = λ p l.
          rw get-record_line
            (unfold record_line_breakpoint in rw (get_nested-put_nested, valid.indexed p l));
      allocated = record_line-allocated;
      separate = record_line-separate;
    }

-- Every mutator keeps the invariant.
pub clear_line_meta-IsIndexed :
    (m : Manager) (path : String) → IsIndexed m → IsIndexed (clear_line_meta_for_file m path)
clear_line_meta-IsIndexed m path valid = record {
  indexed = λ p l. rw (
    get_nested-clear_line_meta m valid path p l,
    get-clear_line_meta m valid path p l,
    valid.indexed p l,
  );
  allocated = λ p l r h.
      unfold clear_line_meta_for_file in
      ground (arith, get-clear_line_meta m valid path p l, valid.allocated p l r);
  separate = λ p q l n r h k. ground (
    arith,
    get-clear_line_meta m valid path p l,
    get-clear_line_meta m valid path q n,
    valid.separate p q l n r,
  );
}

count_hit-IsIndexed : (m : Manager) (r : ℕ) (h : Hits) → IsIndexed m → IsIndexed (count_hit m r h).1
unfolding count_hit
count_hit-IsIndexed m r (hits n) valid = record {
  indexed = valid.indexed;
  allocated = valid.allocated;
  separate = valid.separate;
}
count_hit-IsIndexed m r type_error valid = valid

hit_found-IsIndexed :
    (m : Manager) (found : Option ℕ) → IsIndexed m → IsIndexed (hit_found (found, m)).1
unfolding hit_found
hit_found-IsIndexed m none valid = valid
hit_found-IsIndexed m (some r) valid = count_hit-IsIndexed m r _ valid

pub increment_hit_count-IsIndexed :
    (m : Manager) (path : String) (line : ℕ)
    → IsIndexed m
    → IsIndexed (increment_hit_count m path line).1
unfolding increment_hit_count
increment_hit_count-IsIndexed m path line valid =
    rw (get_line_meta-eq m valid path line)
      (hit_found-IsIndexed m (get (path, line) m.line_meta) valid)
