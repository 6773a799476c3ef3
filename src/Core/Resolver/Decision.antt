-- ===== src/Core/Resolver/Decision.antt =====
-- When a breakpoint stops the program, and when it logs.
use dapper.Base.{
  ℕ, zero, suc, ◌+◌, ◌≤◌, ◌≡◌, refl, ap, ◌∙◌, Bool, true, false, not, ◌&&◌, ◌||◌, Option, none,
  some, [], ◌∷◌, ◌++◌, arith, length, is_empty, if◌then◌else◌,
}
use dapper.Base.Text.{Codes}
use dapper.Shared.Policy.{Interpreter}
use dapper.Core.HitCondition.{is_number, value_from, int_max_str_digits, evaluate_hit_condition}
use dapper.Core.HitCondition.Syntax.{
  Form, every, exactly, at_least, plain, IsBlank, written, meaning, evaluate_written,
}
use dapper.Core.Resolver.{
  absent, text, is_set, BreakpointMeta, increment_hit, should_stop_now, passes_hit,
  evaluate_condition, render_log_message, resolve_counted, resolve, should_stop,
}

-- The metadata of a breakpoint that has only a hit condition.
abbrev pub hit_only : Codes → BreakpointMeta
hit_only s = record {
  condition = absent;
  hit_condition = text s;
  log_message = absent;
  hit_count = 0;
}

not_empty :
    (form : Form) (w blank digits v : Codes)
    → is_number digits ≡ true
    → is_empty (w ++ (written form blank digits ++ v)) ≡ false
unfolding is_number
not_empty form (c ∷ w) blank digits v h = refl
not_empty every [] blank digits v h = refl
not_empty exactly [] blank digits v h = refl
not_empty at_least [] blank digits v h = refl
not_empty plain [] [] [] v h = cc
not_empty plain [] (b ∷ blank) [] v h = cc
not_empty plain [] blank (d ∷ digits) v h = refl

module _ (python : Interpreter) (truth : python.V → Option Bool)
    (show : python.V → Option Codes) where
  open python use {Frame}

  -- The metadata as it is judged: with the hit counted.
  abbrev pub admits : BreakpointMeta → Option Frame → Bool
  admits meta frame =
      (not (is_set meta.hit_condition) || passes_hit meta.hit_condition meta.hit_count)
      && (not (is_set meta.condition) || evaluate_condition python truth show meta.condition frame)

  counted_lem :
      (meta : BreakpointMeta) (frame : Option Frame) (emits : Bool)
      → let r = resolve_counted python truth show meta frame emits in
        (should_stop_now r.result ≡ (admits meta frame && not (is_set meta.log_message)))
        × (r.meta ≡ some meta)
        × (r.emitted ≡ (
            if admits meta frame && is_set meta.log_message && emits
            then render_log_message python truth show meta.log_message frame ∷ []
            else []))
  unfolding resolve_counted should_stop_now
  counted_lem meta frame emits = (ground arith, ground arith, ground arith)

  admits-hit_only :
      (s : Codes) (n : ℕ) (frame : Option Frame)
      → is_empty s ≡ false
      → let m : BreakpointMeta = record (hit_only s) { hit_count = n } in
        (admits m frame && not (is_set m.log_message)) ≡ evaluate_hit_condition s n
  admits-hit_only s n frame full =
      let set : is_set (text s) ≡ true = unfold is_set in ap not full in
      let unset : is_set absent ≡ false = unfold is_set in refl in
      let same : passes_hit (text s) n ≡ evaluate_hit_condition s n = unfold passes_hit in refl in
      ground (arith, set, unset, same)

  -- A breakpoint with metadata stops the program exactly when its hit condition passes the number
  -- of hits, this one counted, its condition holds, and it has no log message; it writes its
  -- message exactly when the first two are so and it has one, given a callback; and the hit is
  -- counted in every case.
  pub resolve_lem :
      (meta : BreakpointMeta) (frame : Option Frame) (emits : Bool)
      → let r = resolve python truth show (some meta) frame emits true in
        (should_stop python truth show (some meta) frame emits
          ≡ (admits (increment_hit meta) frame && not (is_set meta.log_message)))
        × (r.meta ≡ some (increment_hit meta))
        × (r.emitted ≡ (
            if admits (increment_hit meta) frame && is_set meta.log_message && emits
            then render_log_message python truth show meta.log_message frame ∷ []
            else []))
  unfolding should_stop resolve
  resolve_lem meta frame emits = counted_lem (increment_hit meta) frame emits

  -- The metadata after a number of resolutions.
  unfoldable pub hit_times : ℕ → BreakpointMeta → Option Frame → Bool → Option BreakpointMeta
  unfolding resolve
  hit_times zero meta frame emits = some meta
  hit_times (suc n) meta frame emits = elim (hit_times n meta frame emits) [
    | none ↦ none
    | some m ↦ (resolve python truth show (some m) frame emits true).meta
  ]

  resolve-meta :
      (m : BreakpointMeta) (frame : Option Frame) (emits : Bool)
      → (resolve python truth show (some m) frame emits true).meta ≡ some (increment_hit m)
  resolve-meta m frame emits = (resolve_lem m frame emits).1

  hit_times_lem :
      (n : ℕ) (meta : BreakpointMeta) (frame : Option Frame) (emits : Bool)
      → hit_times n meta frame emits ≡ some (record meta { hit_count = meta.hit_count + n })
  unfolding hit_times
  hit_times_lem zero meta frame emits =
      ap (λ (k : ℕ). some (record meta { hit_count = k })) (omega arith)
  hit_times_lem (suc n) meta frame emits =
      ap
        (λ (o : Option BreakpointMeta). elim o [
          | none ↦ none
          | some m ↦ (resolve python truth show (some m) frame emits true).meta
        ])
        (hit_times_lem n meta frame emits)
      ∙ resolve-meta (record meta { hit_count = meta.hit_count + n }) frame emits
      ∙ unfold increment_hit in ap (λ (k : ℕ). some (record meta { hit_count = k })) (omega arith)

  hit_only_stops :
      (s : Codes) (n : ℕ) (frame : Option Frame) (emits : Bool)
      → is_empty s ≡ false
      → should_stop python truth show (some (record (hit_only s) { hit_count = n })) frame emits
        ≡ evaluate_hit_condition s (n + 1)
  unfolding increment_hit
  hit_only_stops s n frame emits full =
      (resolve_lem (record (hit_only s) { hit_count = n }) frame emits).0
      ∙ admits-hit_only s (n + 1) frame full

  -- A new breakpoint with a hit condition alone, of one of the four forms, stops at its hit
  -- number n + 1 exactly when the form says so of n + 1, whatever it did before.
  pub nth_hit :
      (n : ℕ) (form : Form) (w blank digits v : Codes) (frame : Option Frame) (emits : Bool)
      → IsBlank w
      → IsBlank blank
      → IsBlank v
      → is_number digits ≡ true
      → length digits ≤ int_max_str_digits
      → should_stop python truth show
          (hit_times n (hit_only (w ++ (written form blank digits ++ v))) frame emits)
          frame
          emits
        ≡ meaning form (value_from 0 digits) (n + 1)
  nth_hit n form w blank digits v frame emits hw hb hv k l =
      ap (λ (o : Option BreakpointMeta). should_stop python truth show o frame emits)
        (hit_times_lem n (hit_only (w ++ (written form blank digits ++ v))) frame emits)
      ∙ hit_only_stops (w ++ (written form blank digits ++ v)) (0 + n) frame emits
          (not_empty form w blank digits v k)
      ∙ evaluate_written form w blank digits v (0 + n + 1) hw hb hv k l
      ∙ ap (meaning form (value_from 0 digits)) (omega arith)
