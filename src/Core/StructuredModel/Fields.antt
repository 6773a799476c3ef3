-- ===== src/Core/StructuredModel/Fields.antt =====
-- Which fields of a structured model are shown.
use dapper.Base.{
  ◌≡◌, refl, ◌⊎◌, inl, inr, String, false, Option, none, some, List, [], ◌∷◌, All, arith,
  Option-cases, Bool-cases,
}
use mathlib.Core.Path.{subst}
use dapper.Core.StructuredModel.{
  Attribute, found, missing, raises, Objects, dataclass_names, namedtuple_names, is_v1,
  is_dataclass_instance, is_namedtuple_instance, is_pydantic_instance, is_structured_model,
  present_fields, read_fields, v1_model_fields, pydantic_fields, get_model_fields,
}

Attribute-cases :
    {V : Type 0} (a : Attribute V) → (a ≡ missing) ⊎ ((a ≡ raises) ⊎ ((w : V) × (a ≡ found w)))
Attribute-cases missing = inl refl
Attribute-cases raises = inr (inl refl)
Attribute-cases (found w) = inr (inr (w, refl))

module _ (objects : Objects) (v : objects.V) where
  open objects use {V, type_of, is_class, getattr}

  -- Each pair is an attribute of the value.
  abbrev pub AreRead : List (String × V) → Type 0
  AreRead = All (λ p. getattr v p.0 ≡ found p.1)

  AreReadIf : Option (List (String × V)) → Type 0
  AreReadIf none = Unit
  AreReadIf (some fields) = AreRead fields

  add-AreReadIf :
      (n : String) (w : V) (rest : Option (List (String × V)))
      → getattr v n ≡ found w
      → AreReadIf rest
      → AreReadIf (elim rest [ none ↦ none | some fields ↦ some ((n, w) ∷ fields) ])
  unfolding AreReadIf
  add-AreReadIf n w none e h = tt
  add-AreReadIf n w (some fields) e h = (e, h)

  present-AreReadIf : (names : List String) → AreReadIf (present_fields objects v names)
  unfolding AreReadIf present_fields
  present-AreReadIf [] = tt
  present-AreReadIf (n ∷ names) = elim (Attribute-cases (getattr v n)) [
    | inl e ↦ rw (e, present_fields) (present-AreReadIf names)
    | inr (inl e) ↦ rw (e, present_fields) tt
    | inr (inr (w, e)) ↦
        rw (e, present_fields)
          (add-AreReadIf n w (present_fields objects v names) e (present-AreReadIf names))
  ]

  read-AreReadIf : (names : List String) → AreReadIf (read_fields objects v names)
  unfolding AreReadIf read_fields
  read-AreReadIf [] = tt
  read-AreReadIf (n ∷ names) = elim (Attribute-cases (getattr v n)) [
    | inl e ↦ rw (e, read_fields) tt
    | inr (inl e) ↦ rw (e, read_fields) tt
    | inr (inr (w, e)) ↦
        rw (e, read_fields)
          (add-AreReadIf n w (read_fields objects v names) e (read-AreReadIf names))
  ]

  caught-AreRead :
      (o : Option (List (String × V))) (other : List (String × V))
      → AreReadIf o
      → AreRead other
      → AreRead (elim o [ none ↦ other | some fields ↦ fields ])
  unfolding AreReadIf
  caught-AreRead none other h k = k
  caught-AreRead (some fields) other h k = h

  v1-AreRead : AreRead (v1_model_fields objects v)
  unfolding v1_model_fields
  v1-AreRead = elim (Option-cases ((type_of v).v1_fields)) [
    | inl e ↦ rw (e, v1_model_fields) tt
    | inr (none, e) ↦ rw (e, v1_model_fields) tt
    | inr (some names, e) ↦ elim (Bool-cases ((type_of v).has_validators)) [
      | inl k ↦
          rw (e, k, v1_model_fields)
            (caught-AreRead (read_fields objects v names) [] (read-AreReadIf names) tt)
      | inr k ↦ rw (e, k, v1_model_fields) tt
    ]
  ]

  pydantic-AreRead : AreRead (pydantic_fields objects v)
  unfolding pydantic_fields
  pydantic-AreRead = elim (Option-cases ((type_of v).model_fields)) [
    | inl e ↦ rw (e, pydantic_fields) v1-AreRead
    | inr (names, e) ↦
        rw (e, pydantic_fields)
          (caught-AreRead (read_fields objects v names) (v1_model_fields objects v)
            (read-AreReadIf names) v1-AreRead)
  ]

  fields-AreReadIf : AreReadIf (get_model_fields objects v)
  unfolding get_model_fields AreReadIf
  fields-AreReadIf = elim (Option-cases (dataclass_names objects v)) [
    | inr (names, e) ↦ rw (e, get_model_fields) (present-AreReadIf names)
    | inl e ↦ elim (Option-cases (namedtuple_names objects v)) [
      | inr (names, k) ↦ rw (e, k, get_model_fields) (read-AreReadIf names)
      | inl k ↦ rw (e, k, get_model_fields) pydantic-AreRead
    ]
  ]

  -- Every field that is shown, of whatever kind of model and through whatever fallback, is an
  -- attribute of the value, with the value that it has.
  pub get_model_fields-AreRead :
      (fields : List (String × V)) → get_model_fields objects v ≡ some fields → AreRead fields
  unfolding AreReadIf
  get_model_fields-AreRead fields h = subst AreReadIf h fields-AreReadIf

  -- What is neither a class nor a structured model has no fields, and reading them does not fail.
  pub get_model_fields_other :
      is_class v ≡ false
      → is_structured_model objects v ≡ false
      → get_model_fields objects v ≡ some []
  unfolding is_structured_model is_dataclass_instance is_namedtuple_instance is_pydantic_instance
      is_v1 get_model_fields pydantic_fields v1_model_fields
  get_model_fields_other h k = ground arith
