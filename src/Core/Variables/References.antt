-- ===== src/Core/Variables/References.antt =====
-- The references that `VariableManager` gives out.
use dapper.Base.{
  ℕ, ◌+◌, ◌≤◌, ◌<◌, ◌≡◌, refl, ◌∙◌, String, Bool, not, Option, none, some, List, [], ◌∷◌, ◌==◌,
  nat_eq, arith, if◌then◌else◌, Bool-cases, inl, inr,
}
use dapper.Base.Dict.{get-put}
use dapper.Core.DataBreakpoints as watches
use dapper.Core.Variables.{
  Inspector, V, Scope, Variable, VarRef, object_ref, scope_ref, list_ref, Manager, is_expandable,
  allocate, allocate_ref, allocate_scope_ref, allocate_variable_list_ref, get_ref, make_variable,
}

module _ (inspector : Inspector) (watched : watches.Objects) where
  -- References that have not been given out resolve to nothing, and 0 is none of them.
  pub record IsFresh (m : Manager inspector) : Type 0 where
    pub positive : 0 < m.next_var_ref
    pub unused : (i : ℕ) → m.next_var_ref ≤ i → get_ref inspector m i ≡ none

  -- The calls that give out references.
  pub data Call : Type 0 where
    object_call : V inspector → Call
    scope_call : ℕ → Scope → Call
    list_call : List Variable → Call
    variable_call :
        String → V inspector → ℕ → Option (watches.State watched) → Option ℕ → Bool → Call

  unfoldable pub after : Manager inspector → Call → Manager inspector
  unfolding allocate_ref allocate_scope_ref allocate_variable_list_ref make_variable
  after m (object_call v) = (allocate_ref inspector m v).1
  after m (scope_call frame_id scope) = (allocate_scope_ref inspector m frame_id scope).1
  after m (list_call variables) = (allocate_variable_list_ref inspector m variables).1
  after m (variable_call name v max_length state frame hex) =
      (make_variable inspector watched m name v max_length state frame hex).1

  unfoldable pub run : Manager inspector → List Call → Manager inspector
  unfolding after
  run m [] = m
  run m (c ∷ calls) = run (after m c) calls

  get_ref-allocate :
      (m : Manager inspector) (r : VarRef inspector) (i : ℕ)
      → get_ref inspector (allocate inspector m r).1 i
        ≡ (if m.next_var_ref == i then some r else get_ref inspector m i)
  unfolding get_ref allocate
  get_ref-allocate m r i = get-put m.next_var_ref r i m.var_refs

  -- What a call may do to a manager: nothing, or one allocation.
  data Allocates (m : Manager inspector) : Manager inspector → Type 0 where
    nothing : Allocates m m
    one : (r : VarRef inspector) → Allocates m (allocate inspector m r).1

  allocate_ref-Allocates :
      (m : Manager inspector) (v : V inspector) → Allocates m (allocate_ref inspector m v).1
  unfolding allocate_ref
  allocate_ref-Allocates m v = elim (Bool-cases (is_expandable inspector v)) [
    | inl e ↦ rw (e, allocate_ref) (one (object_ref v))
    | inr e ↦ rw (e, allocate_ref) nothing
  ]

  after-Allocates : (m : Manager inspector) (c : Call) → Allocates m (after m c)
  unfolding after
  after-Allocates m (object_call v) = allocate_ref-Allocates m v
  after-Allocates m (scope_call frame_id scope) =
      unfold allocate_scope_ref in one (scope_ref frame_id scope)
  after-Allocates m (list_call variables) =
      unfold allocate_variable_list_ref in one (list_ref variables)
  after-Allocates m (variable_call name v max_length state frame hex) =
      unfold make_variable in allocate_ref-Allocates m v

  Allocates-IsFresh :
      (m : Manager inspector) {m' : Manager inspector} → Allocates m m' → IsFresh m → IsFresh m'
  Allocates-IsFresh m nothing fresh = fresh
  Allocates-IsFresh m (one r) fresh = record {
    positive = unfold allocate in omega arith;
    unused = λ i h.
        let later : m.next_var_ref + 1 ≤ i = unfold allocate in h in
        ground (arith, get_ref-allocate m r i, fresh.unused i);
  }

  Allocates-keeps :
      (m : Manager inspector) {m' : Manager inspector} (i : ℕ)
      → Allocates m m'
      → i < m.next_var_ref
      → (get_ref inspector m' i ≡ get_ref inspector m i) × (i < m'.next_var_ref)
  Allocates-keeps m i nothing h = (refl, h)
  Allocates-keeps m i (one r) h =
      (ground (arith, get_ref-allocate m r i), unfold allocate in omega arith)

  run-IsFresh : (m : Manager inspector) (calls : List Call) → IsFresh m → IsFresh (run m calls)
  unfolding run
  run-IsFresh m [] fresh = fresh
  run-IsFresh m (c ∷ calls) fresh =
      run-IsFresh (after m c) calls (Allocates-IsFresh m (after-Allocates m c) fresh)

  run_keeps :
      (m : Manager inspector) (calls : List Call) (i : ℕ)
      → i < m.next_var_ref
      → get_ref inspector (run m calls) i ≡ get_ref inspector m i
  unfolding run
  run_keeps m [] i h = refl
  run_keeps m (c ∷ calls) i h =
      let (same, below) = Allocates-keeps m i (after-Allocates m c) h in
      run_keeps (after m c) calls i below ∙ same

  -- A value that can be expanded gets a reference that is not 0 and that resolved to nothing
  -- before, and it resolves to that value from then on, whatever references are given out later;
  -- any other value gets 0. References that were not given out resolve to nothing at all times;
  -- where
  -- they did so before, and the next one is not 0.
  pub allocate_ref_stays :
      (m : Manager inspector) (v : V inspector) (calls : List Call)
      → IsFresh m
      → let (ref, m') = allocate_ref inspector m v in
        IsFresh (run m' calls)
        × ((ref == 0) ≡ not (is_expandable inspector v))
        × (get_ref inspector m ref
            ≡ (if is_expandable inspector v then none else get_ref inspector m 0))
        × (get_ref inspector (run m' calls) ref
            ≡ (if is_expandable inspector v then some (object_ref v) else get_ref inspector m 0))
  unfolding allocate_ref
  allocate_ref_stays m v calls fresh = elim (Bool-cases (is_expandable inspector v)) [
    | inl e ↦
        let r = object_ref v in
        let m' = (allocate inspector m r).1 in
        rw (e, allocate_ref)
          (
            run-IsFresh m' calls (Allocates-IsFresh m (one r) fresh),
            unfold allocate in ground (arith, fresh.positive),
            unfold allocate in fresh.unused m.next_var_ref (omega arith),
            run_keeps m' calls (allocate inspector m r).0 (unfold allocate in omega arith)
                ∙ get_ref-allocate m r (allocate inspector m r).0
                ∙ unfold allocate in ground arith,
          )
    | inr e ↦
        rw (e, allocate_ref)
          (run-IsFresh m calls fresh, refl, refl, run_keeps m calls 0 fresh.positive)
  ]
