-- ===== src/Shared/SteppingHandlers/Resume.antt =====
-- Which threads run again after a command, and what the debugger is told.
use dapper.Base.{
  ℕ, ◌≡◌, refl, String, Bool, false, not, ◌&&◌, ◌||◌, Option, none, some, ◌==◌, nat_eq, arith,
  contains-discard, if◌then◌else◌,
}
use dapper.Core.Stepping.{raw, set_granularity, request_step}
use dapper.Core.Threads.{is_stopped}
use dapper.Core.Debugger.{World, Debugger, set_continue}
use dapper.Shared.SteppingHandlers.{
  Steps, granularity_argument, remove_stopped, thread_is_stopped, is_current, resume,
}

-- The thread that a command names.
abbrev pub is_named : Option ℕ → ℕ → Bool
is_named none other = false
is_named (some n) other = n == other

module _ (world : World) (steps : Steps world) (d : Debugger world) where
  pub stopped-remove :
      (n other : ℕ)
      → is_stopped (remove_stopped world steps d n).tracker other
        ≡ (if n == other then false else is_stopped d.tracker other)
  unfolding is_stopped remove_stopped
  stopped-remove n other = contains-discard n other d.tracker.stopped_thread_ids

  pub continue_tracker : (set_continue world d).tracker ≡ d.tracker
  unfolding set_continue
  continue_tracker = ground arith

  -- Whether a step is done: the thread is the one that handles the command, or it is stopped.
  abbrev pub is_accepted : ℕ → Option ℕ → Bool
  is_accepted ident tid = is_current world steps ident tid || thread_is_stopped world steps d tid

  resume-controller : (tid : Option ℕ) → (resume world steps d tid).controller ≡ d.controller
  unfolding resume remove_stopped
  resume-controller none = refl
  resume-controller (some n) = ground arith

-- What a step leaves: which threads are stopped and whether a step is asked for.
pub record Stepped (world : World) (d d' : Debugger world) (tid : Option ℕ) (accepted : Bool)
    (other : ℕ) : Type 0 where
  pub stops : is_stopped d'.tracker other ≡ (is_stopped d.tracker other && not (is_named tid other))
  pub steps : d'.controller.stepping ≡ (accepted || d.controller.stepping)

module _ (world : World) (steps : Steps world) (d : Debugger world) where
  -- The state in which an accepted step goes on.
  abbrev begun : Option ℕ → Option String → Debugger world
  begun tid granularity =
      let resumed = resume world steps d tid in
      record resumed {
        controller =
            set_granularity (request_step resumed.controller)
              (raw (granularity_argument granularity));
      }

module _ (world : World) (steps : Steps world) (d : Debugger world) where
  -- What the debugger is told leaves the threads and the request of the step.
  Keeps : Debugger world → Type 0
  Keeps d' = (d'.tracker ≡ d.tracker) × (d'.controller.stepping ≡ d.controller.stepping)
