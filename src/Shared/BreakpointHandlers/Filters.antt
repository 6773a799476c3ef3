-- ===== src/Shared/BreakpointHandlers/Filters.antt =====
-- What the client's exception filters leave in the configuration.
use dapper.Base.{
  ◌≡◌, refl, ap, ◌∙◌, String, Bool, false, ◌||◌, Option, none, List, [], ◌∷◌, ◌++◌, ◌==◌, string_eq,
  eq_iff, arith, contains, if◌then◌else◌,
}
use dapper.Base.Dict.{Dict, get_or, get-put}
use dapper.Base.Text.{Codes}
use dapper.Core.Exceptions.{Config}
use dapper.Shared.BreakpointHandlers.{FilterOption, apply_options, configure}

-- Whether an option is about a filter.
abbrev pub has_option : String → List FilterOption → Bool
has_option f [] = false
has_option f (o ∷ options) = o.filter_id == f || has_option f options

-- The condition of the last option about a filter.
abbrev pub last_condition : String → Option Codes → List FilterOption → Option Codes
last_condition f prior [] = prior
last_condition f prior (o ∷ options) =
    last_condition f (if o.filter_id == f then o.condition else prior) options

contains-append :
    (f : String) (xs : List String) (g : String)
    → contains f (xs ++ g ∷ []) ≡ (contains f xs || f == g)
unfolding contains
contains-append f [] g = ground arith
contains-append f (x ∷ xs) g = ground (arith, contains-append f xs g)

filters_lem :
    (f : String) (options : List FilterOption) (filters : List String)
    (conditions : Dict String (Option Codes))
    → f == "" ≡ false
    → contains f (apply_options filters conditions options).0
      ≡ (contains f filters || has_option f options)
unfolding apply_options
filters_lem f [] filters conditions h = ground arith
filters_lem f (o ∷ options) filters conditions h =
    filters_lem f options _ _ h
    ∙ ground (
      arith,
      contains-append f filters o.filter_id,
      eq_iff o.filter_id f,
      eq_iff f o.filter_id,
      eq_iff f "",
      eq_iff o.filter_id "",
    )

conditions_lem :
    (f : String) (options : List FilterOption) (filters : List String)
    (conditions : Dict String (Option Codes))
    → get_or f none (apply_options filters conditions options).1
      ≡ last_condition f (get_or f none conditions) options
unfolding apply_options get_or
conditions_lem f [] filters conditions = refl
conditions_lem f (o ∷ options) filters conditions =
    conditions_lem f options _ _
    ∙ ap (λ c. last_condition f c options)
        (ground (arith, get-put o.filter_id o.condition f conditions))

-- After the command, whatever was configured before, a filter is on exactly where the client names
-- it among the filters or in an option, and its condition is that of the last option about it, if
-- there is one.
pub configure_lem :
    (filters : List String) (options : List FilterOption) (config : Config)
    → configure filters options config ≡ record {
      break_on_raised = contains "raised" filters || has_option "raised" options;
      break_on_uncaught = contains "uncaught" filters || has_option "uncaught" options;
      raised_condition = last_condition "raised" none options;
      uncaught_condition = last_condition "uncaught" none options;
    }
unfolding configure
configure_lem filters options config = λ i. record {
  break_on_raised = filters_lem "raised" options filters [] refl i;
  break_on_uncaught = filters_lem "uncaught" options filters [] refl i;
  raised_condition = conditions_lem "raised" options filters [] i;
  uncaught_condition = conditions_lem "uncaught" options filters [] i;
}
