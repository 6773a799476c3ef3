-- ===== src/Shared/SteppingHandlers/Continue.antt =====
-- When continuing a thread lets the program go.
use dapper.Base.{
  ℕ, ◌≡◌, refl, ap, ◌∙◌, true, false, not, ◌&&◌, some, ◌==◌, nat_eq, nat_beq_iff, arith, contains,
  discard, is_empty, if◌then◌else◌, Bool-cases, inl, inr,
}
use dapper.Core.Threads.{is_stopped}
use dapper.Core.Debugger.{World, Debugger, set_continue}
use dapper.Shared.SteppingHandlers.{Steps, number, remove_stopped, handle_continue}
use dapper.Shared.SteppingHandlers.Resume.{stopped-remove, continue_tracker}

module _ (world : World) (steps : Steps world) (d : Debugger world) (n : ℕ) where
  continue_stopped :
      contains n d.tracker.stopped_thread_ids ≡ true
      → handle_continue world steps (some d) (number n)
        ≡ some (
            if is_empty (discard n d.tracker.stopped_thread_ids)
            then set_continue world (remove_stopped world steps d n)
            else remove_stopped world steps d n)
  unfolding handle_continue remove_stopped
  continue_stopped h = rw (h, handle_continue) (ground arith)

  continue_running :
      contains n d.tracker.stopped_thread_ids ≡ false
      → handle_continue world steps (some d) (number n) ≡ some d
  unfolding handle_continue
  continue_running h = rw (h, handle_continue) refl

  running :
      (other : ℕ)
      → is_stopped (remove_stopped world steps d n).tracker other
        ≡ (is_stopped d.tracker other && not (n == other))
  running other = stopped-remove world steps d n other ∙ ground arith

  continue-removed :
      (set_continue world (remove_stopped world steps d n)).bdb ≡ (set_continue world d).bdb
  unfolding set_continue remove_stopped
  continue-removed = ground arith

-- Continuing a thread takes exactly that thread from those that are stopped; and the program is let
-- go exactly where that thread was stopped and no other one still is.
handle_continue_lem :
    (world : World) (steps : Steps world) (d : Debugger world) (n other : ℕ)
    → (d' : Debugger world) × (handle_continue world steps (some d) (number n) ≡ some d')
      × (is_stopped d'.tracker other ≡ (is_stopped d.tracker other && not (n == other)))
      × (d'.bdb ≡ (
          if is_stopped d.tracker n && is_empty (discard n d.tracker.stopped_thread_ids)
          then (set_continue world d).bdb
          else d.bdb))
unfolding is_stopped remove_stopped
handle_continue_lem world steps d n other =
    elim (Bool-cases (contains n d.tracker.stopped_thread_ids)) [
      | inl y ↦ elim (Bool-cases (is_empty (discard n d.tracker.stopped_thread_ids))) [
        | inl e ↦ (
          set_continue world (remove_stopped world steps d n),
          continue_stopped world steps d n y ∙ rw e refl,
          ap (λ t. is_stopped t other)
                (continue_tracker world steps (remove_stopped world steps d n))
              ∙ running world steps d n other,
          rw (y, e) (continue-removed world steps d n),
        )
        | inr m ↦ (
          remove_stopped world steps d n,
          continue_stopped world steps d n y ∙ rw m refl,
          running world steps d n other,
          rw (y, m) refl,
        )
      ]
      | inr m ↦
          (d, continue_running world steps d n m, ground (arith, m, nat_beq_iff n other), rw m refl)
    ]
