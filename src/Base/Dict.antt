-- ===== src/Base/Dict.antt =====
-- Python's `dict`: an association list in insertion order.
use mathlib.Core.Path.{◌≡◌, refl, ap, ◌∙◌}
use mathlib.Core.Bool.{Bool, true, false}
use mathlib.Core.List.{List, [], ◌∷◌, map}
use mathlib.Core.Option.{Option, none, some}
use native.Mathlib.Omega.{arith}
use dapper.Base.Tests.{Eq, ◌==◌, if◌then◌else◌}
use dapper.Base.Lists.{contains}

abbrev pub Dict {ℓ κ} : Type ℓ → Type κ → Type (ℓ ⊔ κ)
Dict K V = List (K × V)

abbrev pub keys {ℓ κ} : {K : Type ℓ} {V : Type κ} → Dict K V → List K
keys = map (λ e. e.0)

module _ {ℓ κ} {K : Type ℓ} {V : Type κ} ⦃e : Eq K⦄ where
  -- `d.get(k)`
  unfoldable pub get : K → Dict K V → Option V
  get k [] = none
  get k ((j, v) ∷ d) = if j == k then some v else get k d

  -- `d[k] = v`; the place of a key that is there already is kept.
  unfoldable pub put : K → V → Dict K V → Dict K V
  put k v [] = (k, v) ∷ []
  put k v ((j, w) ∷ d) = let rest = put k v d in if j == k then (k, v) ∷ d else (j, w) ∷ rest

  -- `d.pop(k, None)`, without the value
  unfoldable pub remove : K → Dict K V → Dict K V
  remove k [] = []
  remove k ((j, w) ∷ d) = let rest = remove k d in if j == k then rest else (j, w) ∷ rest

  -- `k in d`
  unfoldable pub has : K → Dict K V → Bool
  unfolding get
  has k d = elim (get k d) [ none ↦ false | some _ ↦ true ]

  -- `d.get(k, default)`
  unfoldable pub get_or : K → V → Dict K V → V
  unfolding get
  get_or k default d = elim (get k d) [ none ↦ default | some v ↦ v ]

  pub get-put :
      (k : K) (v : V) (j : K) (d : Dict K V)
      → get j (put k v d) ≡ (if k == j then some v else get j d)
  unfolding get put
  get-put k v j [] = refl
  get-put k v j ((i, w) ∷ d) =
      ground (arith, get-put k v j d, e.beq_iff i k, e.beq_iff i j, e.beq_iff k j)

  pub get-remove :
      (k j : K) (d : Dict K V) → get j (remove k d) ≡ (if k == j then none else get j d)
  unfolding get remove
  get-remove k j [] = ground arith
  get-remove k j ((i, w) ∷ d) =
      ground (arith, get-remove k j d, e.beq_iff i k, e.beq_iff i j, e.beq_iff k j)

module _ {ℓ κ} {K : Type ℓ} {V : Type κ} ⦃e : Eq K⦄ where
  pub get-put_same : (k : K) (v : V) (d : Dict K V) → get k (put k v d) ≡ some v
  get-put_same k v d =
      get-put k v k d ∙ ap (λ b. if b then some v else get k d) ((e.beq_iff k k).1 refl)

  pub get-remove_same : (k : K) (d : Dict K V) → get k (remove k d) ≡ none
  get-remove_same k d =
      get-remove k k d ∙ ap (λ b. if b then none else get k d) ((e.beq_iff k k).1 refl)

  pub contains-keys : (k : K) (d : Dict K V) → contains k (keys d) ≡ has k d
  unfolding contains has
  contains-keys k [] = refl
  contains-keys k ((j, v) ∷ d) = ground (arith, contains-keys k d, e.beq_iff k j, e.beq_iff j k)

  pub has-put :
      (k : K) (v : V) (j : K) (d : Dict K V)
      → has j (put k v d) ≡ (if k == j then true else has j d)
  unfolding has
  has-put k v j d = ground (arith, get-put k v j d)

  pub has-remove :
      (k j : K) (d : Dict K V) → has j (remove k d) ≡ (if k == j then false else has j d)
  unfolding has
  has-remove k j d = ground (arith, get-remove k j d)
