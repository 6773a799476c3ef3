-- ===== src/Tests/Values.antt =====
-- Values of a small interpreter: 0 is a namedtuple of the numbers 1 and 2, and 3 is bytes that are
-- no text; every number has the attributes `x` and `y`.
use dapper.Base.{
  ℕ, zero, suc, ◌≡◌, refl, String, true, false, not, none, some, List, [], ◌∷◌, arith, nat_eq,
  string_eq, ◌==◌, if◌then◌else◌,
}
use dapper.Base.Text.{codes}
use dapper.Core.DataBreakpoints as watches
use dapper.Core.StructuredModel.{Objects, Attribute, found, missing, TypeInfo}
use dapper.Core.Variables.{
  Inspector, Manager, init, object_ref, locals, no_text, undecodable, is_expandable, allocate_ref,
  get_ref,
}
use dapper.Core.Variables.References.{
  IsFresh, Call, object_call, scope_call, run, allocate_ref_stays,
}

abbrev type_info : ℕ → TypeInfo
type_info zero = record {
  name = "Point";
  is_tuple = true;
  fields = some (some "x" ∷ some "y" ∷ []);
  model_fields = none;
  v1_fields = none;
  has_validators = false;
}
type_info (suc n) = record {
  name = "Plain";
  is_tuple = false;
  fields = none;
  model_fields = none;
  v1_fields = none;
  has_validators = false;
}

abbrev attribute : String → Attribute ℕ
attribute n = if n == "x" then found 1 else if n == "y" then found 2 else missing

abbrev objects : Objects
objects = record {
  V = ℕ;
  type_of = type_info;
  is_class = λ v. false;
  dataclass_fields = λ v. none;
  getattr = λ v n. attribute n;
}

abbrev inspector : Inspector
inspector = record {
  objects = objects;
  is_container = λ v. v == 0;
  is_function = λ v. false;
  has_dict = λ v. false;
  is_callable = λ v. false;
  is_sequence = λ v. v == 0;
  decode = λ v. if v == 3 then undecodable else no_text;
  hex_of = λ v. none;
  repr_of = λ v. some (codes "value");
}

abbrev numbers : watches.Objects
numbers = record {
  M = ℕ;
  V = ℕ;
  access = λ m. none;
  same = λ a b. a == b;
  equal = λ a b. watches.compared (some (a == b));
}

abbrev manager : Manager inspector
manager = init inspector 1000

manager-IsFresh : IsFresh inspector numbers manager
manager-IsFresh = record { positive = omega arith; unused = λ i h. unfold get_ref in refl }

abbrev calls : List (Call inspector numbers)
calls = scope_call 4 locals ∷ object_call 0 ∷ []

allocate_ref_example :
    let (ref, m') = allocate_ref inspector manager 0 in
    IsFresh inspector numbers (run inspector numbers m' calls)
    × ((ref == 0) ≡ not (is_expandable inspector 0))
    × (get_ref inspector manager ref
        ≡ (if is_expandable inspector 0 then none else get_ref inspector manager 0))
    × (get_ref inspector (run inspector numbers m' calls) ref
        ≡ (if is_expandable inspector 0 then some (object_ref 0) else get_ref inspector manager 0))
allocate_ref_example = allocate_ref_stays inspector numbers manager 0 calls manager-IsFresh
