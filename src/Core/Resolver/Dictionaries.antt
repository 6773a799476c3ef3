-- ===== src/Core/Resolver/Dictionaries.antt =====
-- The metadata dictionaries that the resolver takes in place of a `BreakpointMeta`.
use dapper.Base.{ℕ, zero, suc, String, true, false, Option, none, some, string_eq, if◌then◌else◌}
use dapper.Base.Dict.{get}
use dapper.Base.Text.{codes}
use dapper.Core.Breakpoints.{Meta, Value, null, num, flag, text as text_value}
use dapper.Core.Resolver.{Setting, absent, text, other, is_set, BreakpointMeta}

-- The fields of a metadata dictionary, as `_meta_from_dict` reads them.
unfoldable pub setting_of : Option Value → Setting
setting_of none = absent
setting_of (some null) = absent
setting_of (some (num zero)) = other false
setting_of (some (num (suc n))) = other true
setting_of (some (flag b)) = other b
setting_of (some (text_value s)) = text (codes s)

-- `d.get(k) or d.get(j)`
unfoldable pub setting_or : String → String → Meta → Setting
unfolding setting_of is_set get
setting_or k j meta =
    if is_set (setting_of (get k meta)) then setting_of (get k meta) else setting_of (get j meta)

-- `int(d.get("hit", 0) or d.get("hit_count", 0))`; `none` where `int` raises. The argument reads a
-- text as a number.
unfoldable pub number_of : (String → Option ℕ) → Option Value → Option ℕ
number_of int_of none = some 0
number_of int_of (some null) = none
number_of int_of (some (num n)) = some n
number_of int_of (some (flag b)) = some (if b then 1 else 0)
number_of int_of (some (text_value s)) = int_of s

unfoldable pub hit_of : (String → Option ℕ) → Meta → Option ℕ
unfolding setting_of is_set number_of get
hit_of int_of meta =
    number_of int_of
      (if is_set (setting_of (get "hit" meta)) then get "hit" meta else get "hit_count" meta)

unfoldable pub meta_from_dict : (String → Option ℕ) → Meta → Option BreakpointMeta
unfolding setting_or hit_of get
meta_from_dict int_of meta = elim (hit_of int_of meta) [
  | none ↦ none
  | some n ↦ some (record {
    condition = setting_of (get "condition" meta);
    hit_condition = setting_or "hitCondition" "hit_condition" meta;
    log_message = setting_or "logMessage" "log_message" meta;
    hit_count = n;
  })
]
