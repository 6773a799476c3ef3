-- ===== src/Core/Variables.antt =====
-- dapper/core/variable_manager.py: `VariableManager`. Names of variables are texts.
pub mod References
pub mod Presentation
use dapper.Base.{
  ℕ, ◌+◌, String, ◌++◌, Bool, true, false, not, ◌&&◌, ◌||◌, Option, none, some, List, [], ◌∷◌,
  nat_eq, ◌==◌, ltb, length, take, contains, if◌then◌else◌,
}
use dapper.Base.Dict.{Dict, get, put, has}
use dapper.Base.Text.{Codes, codes, starts_with}
use dapper.Core.StructuredModel as models
use dapper.Core.StructuredModel.{is_structured_model, get_model_fields, structured_model_label}
use dapper.Core.DataBreakpoints as watches
use dapper.Core.DataBreakpoints.{has_data_breakpoint_for_name}

pub data Scope : Type 0 where
  locals globals : Scope

pub data Kind : Type 0 where
  class_kind method_kind data_kind : Kind

pub data Hint : Type 0 where
  has_side_effects raw_string has_data_breakpoint : Hint

pub data Visibility : Type 0 where
  public private : Visibility

pub record Variable : Type 0 where
  pub name : String
  pub value : Codes
  pub type_label : Codes
  pub variables_reference : ℕ
  pub kind : Kind
  pub attributes : List Hint
  pub visibility : Visibility
  pub named_variables : Option ℕ

-- A value as a text: none, a text, or bytes that do not decode.
pub data Decoded : Type 0 where
  no_text undecodable : Decoded
  decoded : Codes → Decoded

-- What the manager asks of a value, whose `isinstance`, `hasattr` and `callable` give an answer. `hex_of` is `hex(value)` of an integer that is no truth value,
-- and `repr_of` is `repr(value)`, which may raise.
pub record Inspector : Type 1 where
  pub objects : models.Objects
  pub is_container : objects.V → Bool
  pub is_function : objects.V → Bool
  pub has_dict : objects.V → Bool
  pub is_callable : objects.V → Bool
  pub is_sequence : objects.V → Bool
  pub decode : objects.V → Decoded
  pub hex_of : objects.V → Option Codes
  pub repr_of : objects.V → Option Codes

abbrev pub default_start_ref : ℕ
default_start_ref = 1000

module _ (inspector : Inspector) where
  open inspector use {
    objects, is_container, is_function, has_dict, is_callable, is_sequence, decode, hex_of, repr_of,
  }

  abbrev pub V : Type 0
  V = objects.V

  pub data VarRef : Type 0 where
    object_ref : V → VarRef
    scope_ref : ℕ → Scope → VarRef
    list_ref : List Variable → VarRef

  pub record Manager : Type 0 where
    pub next_var_ref : ℕ
    pub var_refs : Dict ℕ VarRef
    pub hex_format : Bool

  abbrev pub init : ℕ → Manager
  init start_ref = record { next_var_ref = start_ref; var_refs = []; hex_format = false }

  unfoldable pub is_expandable : V → Bool
  is_expandable v = if is_container v then true else if is_function v then false else has_dict v

  -- The two lines that `allocate_ref`, `allocate_scope_ref` and `allocate_variable_list_ref` share.
  unfoldable pub allocate : Manager → VarRef → ℕ × Manager
  unfolding put
  allocate m r = (
    m.next_var_ref,
    record m { next_var_ref = m.next_var_ref + 1; var_refs = put m.next_var_ref r m.var_refs },
  )

  unfoldable pub allocate_ref : Manager → V → ℕ × Manager
  unfolding is_expandable allocate
  allocate_ref m v = if is_expandable v then allocate m (object_ref v) else (0, m)

  unfoldable pub allocate_scope_ref : Manager → ℕ → Scope → ℕ × Manager
  unfolding allocate
  allocate_scope_ref m frame_id scope = allocate m (scope_ref frame_id scope)

  unfoldable pub allocate_variable_list_ref : Manager → List Variable → ℕ × Manager
  unfolding allocate
  allocate_variable_list_ref m variables = allocate m (list_ref variables)

  unfoldable pub get_ref : Manager → ℕ → Option VarRef
  unfolding get
  get_ref m ref_id = get ref_id m.var_refs

  unfoldable pub has_ref : Manager → ℕ → Bool
  unfolding has
  has_ref m ref_id = has ref_id m.var_refs

  unfoldable pub clear : Manager → Manager
  clear m = record m { var_refs = []; next_var_ref = default_start_ref }

  -- The text of a value; `none` is an exception.
  unfoldable pub raw_text : V → Bool → Option Codes
  raw_text v hex_format = elim (hex_of v) [
    | none ↦ repr_of v
    | some s ↦ if hex_format then some s else repr_of v
  ]

  unfoldable pub shortened : ℕ → Codes → Codes
  shortened max_length s = if ltb max_length (length s) then take max_length s ++ codes "..." else s

  unfoldable pub format_value : V → ℕ → Bool → Codes
  unfolding raw_text shortened
  format_value v max_length hex_format = elim (raw_text v hex_format) [
    | none ↦ codes "<Error getting value>"
    | some s ↦ shortened max_length s
  ]

  -- `none` is the exception of `bytes.decode`.
  unfoldable pub detect_kind_and_attrs : V → ℕ → Option (Kind × List Hint)
  unfolding contains
  detect_kind_and_attrs v max_string_length =
      if objects.is_class v
      then some (class_kind, [])
      else if is_callable v
      then some (method_kind, has_side_effects ∷ [])
      else if is_sequence v
      then some (data_kind, [])
      else elim (decode v) [
        | no_text ↦ some (data_kind, [])
        | undecodable ↦ none
        | decoded s ↦
            if contains 10 s || ltb max_string_length (length s)
            then some (data_kind, raw_string ∷ [])
            else some (data_kind, [])
      ]

  unfoldable pub get_visibility : String → Visibility
  unfolding starts_with
  get_visibility name = if starts_with (codes name) (codes "_") then private else public

  -- The label of the type and the number of fields; `none` is an exception.
  unfoldable pub type_and_fields : V → Option (Codes × Option ℕ)
  unfolding is_structured_model structured_model_label get_model_fields
  type_and_fields v =
      if is_structured_model objects v
      then elim (get_model_fields objects v) [
        | none ↦ none
        | some fields ↦ some (structured_model_label objects v, some (length fields))
      ]
      else some (codes (objects.type_of v).name, none)

  module _ (watched : watches.Objects) where
    -- `present` adds the hint of a data breakpoint, which none of the hints before it is.
    -- The data breakpoint is looked up by name, where a state is given.
    unfoldable pub is_watched : Option (watches.State watched) → String → Option ℕ → Bool
    unfolding has_data_breakpoint_for_name
    is_watched none name frame = false
    is_watched (some s) name frame = has_data_breakpoint_for_name watched s name frame

    unfoldable pub present :
        String
        → Codes
        → ℕ
        → Bool
        → Option (Kind × List Hint)
        → Option (Codes × Option ℕ)
        → Option Variable
    unfolding get_visibility
    present name text ref marked none described = none
    present name text ref marked (some hints) none = none
    present name text ref marked (some (kind, attrs)) (some (label, count)) = some (record {
      name = name;
      value = text;
      type_label = label;
      variables_reference = ref;
      kind = kind;
      attributes = if marked then attrs ++ has_data_breakpoint ∷ [] else attrs;
      visibility = get_visibility name;
      named_variables = count;
    })

    -- The variable, unless an exception ends the call, and the manager after it.
    unfoldable pub make_variable :
        Manager
        → String
        → V
        → ℕ
        → Option (watches.State watched)
        → Option ℕ
        → Bool
        → Option Variable × Manager
    unfolding format_value allocate_ref detect_kind_and_attrs type_and_fields is_watched present
    make_variable m name v max_string_length data_bp_state frame hex_format =
        let (ref, m') = allocate_ref m v in
        (
          present name (format_value v max_string_length (hex_format || m.hex_format)) ref
              (is_watched data_bp_state name frame) (detect_kind_and_attrs v max_string_length)
              (type_and_fields v),
          m',
        )
