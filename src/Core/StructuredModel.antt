-- ===== src/Core/StructuredModel.antt =====
-- dapper/core/structured_model.py: dataclasses, namedtuples and Pydantic models.
pub mod Fields
use dapper.Base.{
  ℕ, ◌≡◌, refl, ap, ◌∙◌, String, ◌++◌, Bool, true, false, not, ◌&&◌, ◌||◌, Option, none, some, List,
  [], ◌∷◌, All, arith, if◌then◌else◌, Option-cases, inl, inr,
}
use dapper.Base.Text.{Codes, codes}

-- What `getattr` gives.
pub data Attribute (V : Type 0) : Type 0 where
  found : V → Attribute V
  missing : Attribute V
  raises : Attribute V

-- What the module reads of the type of a value: its name; whether it is a subclass of `tuple`; its
-- `_fields`, if that is a tuple, with the members that are texts; the keys of `model_fields`, if
-- that is a dictionary; `__fields__`, with its members if it can be iterated; and whether it has
-- `__validators__`.
pub record TypeInfo : Type 0 where
  pub name : String
  pub is_tuple : Bool
  pub fields : Option (List (Option String))
  pub model_fields : Option (List String)
  pub v1_fields : Option (Option (List String))
  pub has_validators : Bool

-- The objects of the interpreter, whose type and class can be asked for without an exception. `dataclass_fields` are the names of `dataclasses.fields`, for
-- what `dataclasses.is_dataclass` accepts.
pub record Objects : Type 1 where
  pub V : Type 0
  pub type_of : V → TypeInfo
  pub is_class : V → Bool
  pub dataclass_fields : V → Option (List String)
  pub getattr : V → String → Attribute V

-- `all(isinstance(f, str) for f in fields)`, with the texts
unfoldable pub all_texts : List (Option String) → Option (List String)
all_texts [] = some []
all_texts (none ∷ fields) = none
all_texts (some f ∷ fields) = elim (all_texts fields) [ none ↦ none | some fs ↦ some (f ∷ fs) ]

module _ (objects : Objects) where
  open objects use {V, type_of, is_class, dataclass_fields, getattr}

  -- The fields of a dataclass instance, a namedtuple instance or a Pydantic instance.
  unfoldable pub dataclass_names : V → Option (List String)
  dataclass_names v = if is_class v then none else dataclass_fields v

  unfoldable pub namedtuple_names : V → Option (List String)
  unfolding all_texts
  namedtuple_names v =
      if (type_of v).is_tuple
      then elim ((type_of v).fields) [ none ↦ none | some fields ↦ all_texts fields ]
      else none

  abbrev is_some : Option (List String) → Bool
  is_some none = false
  is_some (some names) = true

  unfoldable pub is_dataclass_instance : V → Bool
  unfolding dataclass_names
  is_dataclass_instance v = is_some (dataclass_names v)

  unfoldable pub is_namedtuple_instance : V → Bool
  unfolding namedtuple_names
  is_namedtuple_instance v = is_some (namedtuple_names v)

  -- The test for the first version of Pydantic.
  unfoldable pub is_v1 : V → Bool
  is_v1 v = elim ((type_of v).v1_fields) [ none ↦ false | some _ ↦ (type_of v).has_validators ]

  unfoldable pub is_pydantic_instance : V → Bool
  unfolding is_v1
  is_pydantic_instance v = is_some ((type_of v).model_fields) || is_v1 v

  unfoldable pub is_structured_model : V → Bool
  unfolding is_dataclass_instance is_namedtuple_instance is_pydantic_instance
  is_structured_model v =
      if is_class v
      then false
      else is_dataclass_instance v || is_namedtuple_instance v || is_pydantic_instance v

  -- The loop over the fields of a dataclass: a missing one is left out. `none` is an exception.
  unfoldable pub present_fields : V → List String → Option (List (String × V))
  present_fields v [] = some []
  present_fields v (n ∷ names) = elim (getattr v n) [
    | missing ↦ present_fields v names
    | raises ↦ none
    | found w ↦ elim (present_fields v names) [ none ↦ none | some rest ↦ some ((n, w) ∷ rest) ]
  ]

  -- `[(name, getattr(value, name)) for name in names]`
  unfoldable pub read_fields : V → List String → Option (List (String × V))
  read_fields v [] = some []
  read_fields v (n ∷ names) = elim (getattr v n) [
    | missing ↦ none
    | raises ↦ none
    | found w ↦ elim (read_fields v names) [ none ↦ none | some rest ↦ some ((n, w) ∷ rest) ]
  ]

  -- The part for the first version of Pydantic, in which an exception is caught.
  unfoldable pub v1_model_fields : V → List (String × V)
  unfolding is_v1 read_fields
  v1_model_fields v = elim ((type_of v).v1_fields) [
    | none ↦ []
    | some none ↦ []
    | some (some names) ↦
        if (type_of v).has_validators
        then elim (read_fields v names) [ none ↦ [] | some fields ↦ fields ]
        else []
  ]

  unfoldable pub pydantic_fields : V → List (String × V)
  unfolding read_fields v1_model_fields
  pydantic_fields v = elim ((type_of v).model_fields) [
    | none ↦ v1_model_fields v
    | some names ↦ elim (read_fields v names) [ none ↦ v1_model_fields v | some fields ↦ fields ]
  ]

  unfoldable pub get_model_fields : V → Option (List (String × V))
  unfolding dataclass_names namedtuple_names present_fields read_fields pydantic_fields
  get_model_fields v = elim (dataclass_names v) [
    | some names ↦ present_fields v names
    | none ↦ elim (namedtuple_names v) [
      | some names ↦ read_fields v names
      | none ↦ some (pydantic_fields v)
    ]
  ]

  unfoldable pub structured_model_label : V → Codes
  unfolding is_dataclass_instance is_namedtuple_instance is_pydantic_instance
  structured_model_label v =
      let name = codes (type_of v).name in
      if is_dataclass_instance v
      then codes "dataclass " ++ name
      else if is_namedtuple_instance v
      then codes "namedtuple " ++ name
      else if is_pydantic_instance v
      then codes "pydantic " ++ name
      else name
