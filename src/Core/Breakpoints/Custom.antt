-- ===== src/Core/Breakpoints/Custom.antt =====
-- Custom and function breakpoints of `BreakpointManager`, and what re-registration keeps.
use dapper.Base.{
  ℕ, String, ◌≡◌, refl, true, false, ◌&&◌, ◌||◌, Option, none, some, [], ◌∷◌, ◌==◌, nat_eq,
  string_eq, arith, eq_iff, if◌then◌else◌, Option-cases, inl, inr,
}
use dapper.Base.Dict.{get, put, remove, has, get_or, get-put, has-remove}
use dapper.Core.Breakpoints.{
  Manager, Meta, num, setdefault, update, refreshed, get_nested, set_custom_breakpoint,
  clear_custom_breakpoint, has_custom_breakpoint,
}
use dapper.Core.Breakpoints.Index.{get_nested-put_nested}

has_custom-eq :
    (m : Manager) (f : String) (l : ℕ)
    → has_custom_breakpoint m f l ≡ elim (get_nested f l m.custom) [ none ↦ false | some _ ↦ true ]
unfolding has_custom_breakpoint get_nested has
has_custom-eq m f l = ground arith

-- After a custom breakpoint is set it is there, and every other place is as it was.
pub has_custom-set_custom :
    (m : Manager) (file f : String) (line l : ℕ) (condition : Option String)
    → has_custom_breakpoint (set_custom_breakpoint m file line condition) f l
      ≡ (file == f && line == l || has_custom_breakpoint m f l)
unfolding set_custom_breakpoint
has_custom-set_custom m file f line l condition = ground (
  arith,
  has_custom-eq (set_custom_breakpoint m file line condition) f l,
  has_custom-eq m f l,
  get_nested-put_nested file line condition f l m.custom,
)

-- Clearing a custom breakpoint reports whether it was there, removes it, and touches no other.
pub clear_custom_breakpoint_lem :
    (m : Manager) (file f : String) (line l : ℕ)
    → ((clear_custom_breakpoint m file line).1 ≡ has_custom_breakpoint m file line)
      × (has_custom_breakpoint (clear_custom_breakpoint m file line).0 f l
          ≡ (if file == f && line == l then false else has_custom_breakpoint m f l))
unfolding clear_custom_breakpoint has_custom_breakpoint
clear_custom_breakpoint_lem m file f line l = elim (Option-cases (get file m.custom)) [
  | inl e ↦ (ground arith, ground (arith, eq_iff file f))
  | inr (lines, e) ↦ (
    ground arith,
    ground (
      arith,
      eq_iff file f,
      get-put file (remove line lines) f m.custom,
      has-remove line l lines,
    ),
  )
]

-- A lookup in a dictionary after `update`.
get-update :
    (k : String) (meta kwargs : Meta)
    → has k kwargs ≡ false
    → get k (update meta kwargs) ≡ get k meta
unfolding update get has
get-update k meta [] h = refl
get-update k meta ((j, v) ∷ kwargs) h =
    ground (arith, get-update k (put j v meta) kwargs, get-put j v k meta)

module _ (condition hit_condition log_message : Option String) (kwargs meta : Meta)
    (plain : has "hit" kwargs ≡ false) where
  -- Setting a breakpoint again keeps the number of its hits, and a new breakpoint starts at 0,
  -- where the keywords do not name the number.
  pub refreshed_keeps_hits :
      get "hit" (refreshed condition hit_condition log_message kwargs meta)
      ≡ some (get_or "hit" (num 0) meta)
  unfolding refreshed
  refreshed_keeps_hits =
      rw (get-update "hit" _ kwargs plain, get-put, get-put, get-put)
        (unfold setdefault get_or has in ground (arith, get-put "hit" (num 0) "hit" meta))
