-- ===== src/Core/Debugger/Stops.antt =====
-- What a stop leaves for the client to ask about.
use dapper.Base.{
  ℕ, zero, suc, ◌≡◌, refl, ap, sym, ◌∙◌, String, true, ◌||◌, Option, none, some, List, [], ◌∷◌,
  ◌++◌, ◌==◌, nat_eq, arith, contains, contains-add, if◌then◌else◌, Bool-cases, inl, inr, ◌⊎◌,
}
use mathlib.Core.List.{append-nil}
use dapper.Base.Dict.{Dict, get-put, has, has-put, get_or, put}
use dapper.Base.Text.{Codes}
use dapper.Core.Stepping.{StopReason, set_current_frame}
use dapper.Core.Threads.{
  Memory, Tracker, max_stack_depth, walk, admit, allocate_frame_id, register_frame,
  build_stack_frames, store_stack_frames, mark_stopped, is_stopped, is_thread_registered,
  register_thread, get_stack_frames, Back, top, caller, fails,
}
use dapper.Core.Debugger.{
  World, Frame, Debugger, thread_started, stopped, send, ensure_thread_registered,
  emit_stopped_event, stop_at,
}

Back-cases : (b : Back) → (b ≡ top) ⊎ (((g : ℕ) × (b ≡ caller g)) ⊎ (b ≡ fails))
Back-cases top = inl refl
Back-cases (caller g) = inr (inl (g, refl))
Back-cases fails = inr (inr refl)

module _ (path_name : String → String) (memory : Memory) where
  -- The walk over the frames leaves the threads and those that are stopped.
  walk_keeps :
      (rounds : ℕ) (t : Tracker) (f : Option ℕ) (visited : List ℕ)
      → ((walk path_name memory rounds t f visited).1.threads ≡ t.threads)
        × ((walk path_name memory rounds t f visited).1.stopped_thread_ids ≡ t.stopped_thread_ids)
  unfolding walk admit allocate_frame_id register_frame
  walk_keeps zero t f visited = (refl, refl)
  walk_keeps (suc rounds) t none visited = (refl, refl)
  walk_keeps (suc rounds) t (some f) visited = elim (Bool-cases (contains f visited)) [
    | inl y ↦ rw (y, walk) (refl, refl)
    | inr n ↦ elim (Bool-cases ((memory f).code_fails)) [
      | inl y ↦ rw (n, y, walk) (refl, refl)
      | inr m ↦ elim (Back-cases ((memory f).f_back)) [
        | inl b ↦ rw (n, m, b, walk) (walk_keeps rounds _ none (f ∷ visited))
        | inr (inl (g, b)) ↦ rw (n, m, b, walk) (walk_keeps rounds _ (some g) (f ∷ visited))
        | inr (inr b) ↦ rw (n, m, b, walk) (refl, refl)
      ]
    ]
  ]

  pub build_keeps :
      (t : Tracker) (f : Option ℕ)
      → ((build_stack_frames path_name memory t f max_stack_depth).1.threads ≡ t.threads)
        × ((build_stack_frames path_name memory t f max_stack_depth).1.stopped_thread_ids
            ≡ t.stopped_thread_ids)
  unfolding build_stack_frames
  build_keeps t f = walk_keeps max_stack_depth t f []

get_or-put {ℓ} :
    {V : Type ℓ} (k : ℕ) (v default : V) (d : Dict ℕ V) → get_or k default (put k v d) ≡ v
unfolding get_or
get_or-put k v default d = ground (arith, get-put k v k d)

module _ (world : World) (d : Debugger world) (frame : Frame world) (reason : StopReason)
    (description : Option Codes) where
  open world use {thread_id, thread_name, path_name, memory}

  put_known : (threads : Dict ℕ String) → has thread_id (put thread_id thread_name threads) ≡ true
  put_known threads = ground (arith, has-put thread_id thread_name thread_id threads)

  -- The thread is known from here on.
  abbrev pub known : Debugger world
  known = ensure_thread_registered world d

  pub known_lem :
      (is_thread_registered known.tracker thread_id ≡ true)
      × (known.tracker.stopped_thread_ids ≡ d.tracker.stopped_thread_ids)
      × (known.sent
          ≡ d.sent
            ++ (if is_thread_registered d.tracker thread_id
                then []
                else thread_started thread_id thread_name ∷ []))
  unfolding ensure_thread_registered register_thread send
  known_lem = elim (Bool-cases (is_thread_registered d.tracker thread_id)) [
    | inl y ↦ rw (y, ensure_thread_registered) (y, refl, sym (append-nil d.sent))
    | inr n ↦ rw (n, ensure_thread_registered) (put_known d.tracker.threads, refl, refl)
  ]

  abbrev at_stop : Debugger world
  at_stop = stop_at world d frame reason description

  -- After a stop the thread is known and counts as stopped, and the other threads count as they
  -- did; the frames that the client gets are those of the walk from the frame of the stop, which
  -- is the current one; and the client hears of the thread, if it is new, before it hears of the
  -- stop.
  stop_at_lem :
      (other : ℕ)
      → (is_thread_registered at_stop.tracker thread_id ≡ true)
        × (is_stopped at_stop.tracker other ≡ (other == thread_id || is_stopped d.tracker other))
        × (at_stop.controller.current_frame ≡ some frame.address)
        × (get_stack_frames at_stop.tracker thread_id
            ≡ (build_stack_frames path_name memory
                (mark_stopped (ensure_thread_registered world d).tracker thread_id)
                (some frame.address)
                max_stack_depth).0)
        × (at_stop.sent
            ≡ (d.sent
                ++ (if is_thread_registered d.tracker thread_id
                    then []
                    else thread_started thread_id thread_name ∷ []))
              ++ stopped thread_id reason description ∷ [])
  unfolding stop_at emit_stopped_event set_current_frame mark_stopped store_stack_frames send
      is_stopped is_thread_registered get_stack_frames
  stop_at_lem other =
      let (registered, stopped_ids, sent) = known_lem in
      let (threads, ids) =
        build_keeps path_name memory (mark_stopped known.tracker thread_id) (some frame.address) in
      (
        ap (has thread_id) threads ∙ registered,
        ap (contains other) ids
            ∙ contains-add thread_id other known.tracker.stopped_thread_ids
            ∙ ap (λ xs. other == thread_id || contains other xs) stopped_ids,
        refl,
        get_or-put thread_id _ _ _,
        ap (λ m. m ++ stopped thread_id reason description ∷ []) sent,
      )
