-- ===== src/Core/Tasks/Routing.antt =====
-- The registry of dapper/core/asyncio_task_inspector.py after a snapshot: its frames lead back
-- to the thread they were made for.
use dapper.Base.{
  All-weaken, All-append, ℕ, ◌+◌, ◌≤◌, ◌<◌, true, none, some, List, [], ◌∷◌, ◌≡◌, refl, sym, ap,
  ◌∙◌, inl, inr, arith, Bool-cases, Option-cases, All, nat_eq, ◌==◌,
}
use mathlib.Core.Path.{subst⁻¹}
use mathlib.Core.Path.{subst}
use mathlib.Core.Option.{some-injective}
use dapper.Base.Dict.{Dict, get, put, has, get-put, has-put}
use dapper.Core.Tasks.{Runtime, task_thread_id_base, task_frame_id_base, get_all_asyncio_tasks}
use dapper.Core.Tasks.Registry.{
  DapFrame, Registry, clear, register_task, build_frames, is_task_thread_id, Thread, inspect_task,
  snapshot_task, snapshot_tasks, snapshot_threads,
}
use dapper.Core.Tasks.Frames.{IsFrameOf, IsFrameOf-Extends, Extends, build_frames-AreAdded}

module _ (py : Runtime) where
  pub record IsRouted (r : Registry py) : Type 0 where
    pub frame_base : task_frame_id_base ≤ r.next_frame_id
    pub thread_base : task_thread_id_base ≤ r.next_thread_id
    pub known : (key pid : ℕ) → get key r.task_to_pseudo_id ≡ some pid → has pid r.id_to_task ≡ true
    pub thread_range :
        (pid : ℕ)
        → has pid r.id_to_task ≡ true
        → (task_thread_id_base ≤ pid) × (pid < r.next_thread_id)
    pub frames :
        (pid : ℕ) (fs : List DapFrame)
        → get pid r.id_to_frames ≡ some fs
        → (has pid r.id_to_task ≡ true) × All (IsFrameOf py r pid) fs

  IsRouted-Extends : (r r' : Registry py) → Extends py r r' → IsRouted r → IsRouted r'
  IsRouted-Extends r r' x v = record {
    frame_base = omega (arith, x.grown, v.frame_base);
    thread_base = omega (arith, x.same_next, v.thread_base);
    known = λ key pid h.
        ap (has pid) x.same_tasks ∙ v.known key pid (sym (ap (get key) x.same_ids) ∙ h);
    thread_range = λ pid h.
        let b = v.thread_range pid (sym (ap (has pid) x.same_tasks) ∙ h) in
        (b.0, omega (arith, b.1, x.same_next));
    frames = λ pid fs h.
        let b = v.frames pid fs (sym (ap (get pid) x.same_frames) ∙ h) in
        (
          ap (has pid) x.same_tasks ∙ b.0,
          All-weaken fs (λ f. IsFrameOf-Extends py r r' pid f x) b.1,
        );
  }

  -- A thread that a registry knows stays known.
  abbrev Keeps : Registry py → Registry py → Type 0
  Keeps r r' = (pid : ℕ) → has pid r.id_to_task ≡ true → has pid r'.id_to_task ≡ true

  -- The registry after a task was looked up or entered, and the thread's number.
  record IsRegistered (r : Registry py) (out : ℕ × Registry py) : Type 0 where
    routed : IsRouted out.1
    known : has out.0 out.1.id_to_task ≡ true
    keeps : Keeps r out.1

  abbrev entered : Registry py → py.Task → Registry py
  entered r t = record r {
    next_thread_id = r.next_thread_id + 1;
    task_to_pseudo_id = put (py.task_id t) r.next_thread_id r.task_to_pseudo_id;
    id_to_task = put r.next_thread_id t r.id_to_task;
  }

  entered-Keeps : (r : Registry py) (t : py.Task) → Keeps r (entered r t)
  entered-Keeps r t pid h = ground (arith, has-put r.next_thread_id t pid r.id_to_task)

  entered-IsRouted : (r : Registry py) (t : py.Task) → IsRouted r → IsRouted (entered r t)
  entered-IsRouted r t v = record {
    frame_base = v.frame_base;
    thread_base = omega (arith, v.thread_base);
    known = λ key pid h. elim (Bool-cases (has pid r.id_to_task)) [
      | inl k ↦ entered-Keeps r t pid k
      | inr k ↦ ground (
        arith,
        get-put (py.task_id t) r.next_thread_id key r.task_to_pseudo_id,
        has-put r.next_thread_id t pid r.id_to_task,
        v.known key pid,
      )
    ];
    thread_range = λ pid h. elim (Bool-cases (has pid r.id_to_task)) [
      | inl k ↦ let b = v.thread_range pid k in (b.0, omega (arith, b.1))
      | inr k ↦ ground (arith, has-put r.next_thread_id t pid r.id_to_task, v.thread_base)
    ];
    frames = λ pid fs h.
        let b = v.frames pid fs h in
        (
          entered-Keeps r t pid b.0,
          All-weaken fs
              (λ f w. record { owner = w.owner; object = w.object; base = w.base; below = w.below })
              b.1,
        );
  }

  register_task-found :
      (r : Registry py) (t : py.Task) (pid : ℕ)
      → get (py.task_id t) r.task_to_pseudo_id ≡ some pid
      → register_task py r t ≡ (pid, r)
  unfolding register_task
  register_task-found r t pid h = rw (h, register_task) refl

  register_task-entered :
      (r : Registry py) (t : py.Task)
      → get (py.task_id t) r.task_to_pseudo_id ≡ none
      → register_task py r t ≡ (r.next_thread_id, entered r t)
  unfolding register_task
  register_task-entered r t h = rw (h, register_task) refl

  register_task-IsRegistered :
      (r : Registry py) (t : py.Task) → IsRouted r → IsRegistered r (register_task py r t)
  register_task-IsRegistered r t v = elim (Option-cases (get (py.task_id t) r.task_to_pseudo_id)) [
    | inl h ↦ subst⁻¹ (IsRegistered r) (register_task-entered r t h) record {
      routed = entered-IsRouted r t v;
      known = ground (arith, has-put r.next_thread_id t r.next_thread_id r.id_to_task);
      keeps = entered-Keeps r t;
    }
    | inr (pid, h) ↦
        subst⁻¹ (IsRegistered r) (register_task-found r t pid h)
          record { routed = v; known = v.known (py.task_id t) pid h; keeps = λ pid k. k }
  ]

  abbrev with_frames : Registry py → Dict ℕ (List DapFrame) → Registry py
  with_frames r d = record r { id_to_frames = d }

  put-frames :
      (r : Registry py) (pid : ℕ) (fs : List DapFrame)
      → IsRouted r
      → has pid r.id_to_task ≡ true
      → All (IsFrameOf py r pid) fs
      → (pid' : ℕ) (fs' : List DapFrame) → get pid' (put pid fs r.id_to_frames) ≡ some fs'
      → (has pid' r.id_to_task ≡ true) × All (IsFrameOf py r pid') fs'
  put-frames r pid fs v k a pid' fs' h = elim (Bool-cases (pid == pid')) [
    | inl e ↦
        let same : some fs ≡ some fs' = ground (arith, get-put pid fs pid' r.id_to_frames) in
        subst (λ p. (has p r.id_to_task ≡ true) × All (IsFrameOf py r p) fs')
          ((nat_eq.beq_iff pid pid').0 e)
          (k, subst (All (IsFrameOf py r pid)) (some-injective fs fs' same) a)
    | inr e ↦ v.frames pid' fs' (ground (arith, get-put pid fs pid' r.id_to_frames))
  ]

  enter_frames-IsRouted :
      (r : Registry py) (pid : ℕ) (fs : List DapFrame)
      → IsRouted r
      → has pid r.id_to_task ≡ true
      → All (IsFrameOf py r pid) fs
      → IsRouted (with_frames r (put pid fs r.id_to_frames))
  enter_frames-IsRouted r pid fs v k a = record {
    frame_base = v.frame_base;
    thread_base = v.thread_base;
    known = v.known;
    thread_range = v.thread_range;
    frames = λ pid' fs' h.
        let b = put-frames r pid fs v k a pid' fs' h in
        (
          b.0,
          All-weaken fs'
              (λ f w. record { owner = w.owner; object = w.object; base = w.base; below = w.below })
              b.1,
        );
  }

  inspect_task-IsRegistered :
      (r : Registry py) (t : py.Task) (pid : ℕ)
      → IsRouted r
      → has pid r.id_to_task ≡ true
      → IsRegistered r ((inspect_task py r t pid).0.id, (inspect_task py r t pid).1)
  unfolding inspect_task
  inspect_task-IsRegistered r t pid v known =
      let built = build_frames-AreAdded py r t pid v.frame_base in
      let r' : Registry py = (build_frames py r t pid).1 in
      let same : (p : ℕ) → has p r'.id_to_task ≡ has p r.id_to_task =
        λ p. ap (has p) built.extends.same_tasks in
      record {
        routed =
            enter_frames-IsRouted r' pid (build_frames py r t pid).0
              (IsRouted-Extends r r' built.extends v) (same pid ∙ known) built.frames;
        known = same pid ∙ known;
        keeps = λ p h. same p ∙ h;
      }

  -- What a round gives: the registry, and the threads that it lists.
  IsListed : Registry py → List Thread × Registry py → Type 0
  IsListed r out =
      IsRouted out.1
      × Keeps r out.1
      × All (λ thread. is_task_thread_id py out.1 thread.id ≡ true) out.0

  snapshot_task-IsListed :
      (r : Registry py) (t : py.Task) → IsRouted r → IsListed r (snapshot_task py r t)
  unfolding snapshot_task IsListed is_task_thread_id inspect_task
  snapshot_task-IsListed r t v =
      let registered = register_task-IsRegistered r t v in
      let r' : Registry py = (register_task py r t).1 in
      let pid : ℕ = (register_task py r t).0 in
      let inspected = inspect_task-IsRegistered r' t pid registered.routed registered.known in
      elim (Bool-cases (py.inspects t)) [
        | inl h ↦
            rw (h, snapshot_task)
              (
                inspected.routed,
                (λ p k. inspected.keeps p (registered.keeps p k)),
                (inspected.known, tt),
              )
        | inr h ↦ rw (h, snapshot_task) (registered.routed, registered.keeps, tt)
      ]

  snapshot_tasks-IsListed :
      (ts : List py.Task) (r : Registry py) → IsRouted r → IsListed r (snapshot_tasks py ts r)
  unfolding snapshot_tasks is_task_thread_id IsListed
  snapshot_tasks-IsListed [] r v = (v, (λ p h. h), tt)
  snapshot_tasks-IsListed (t ∷ ts) r v =
      let first = snapshot_task-IsListed r t v in
      let rest = snapshot_tasks-IsListed ts (snapshot_task py r t).1 first.0 in
      (
        rest.0,
        (λ p h. rest.1 p (first.1 p h)),
        All-append
            (λ thread.
              is_task_thread_id py (snapshot_tasks py ts (snapshot_task py r t).1).1 thread.id
              ≡ true)
            (snapshot_task py r t).0 _
            (All-weaken (snapshot_task py r t).0 (λ thread h. rest.1 thread.id h) first.2) rest.2,
      )

  clear-IsRouted : (r : Registry py) → IsRouted (clear py r)
  unfolding clear get has
  clear-IsRouted r = record {
    frame_base = omega arith;
    thread_base = omega arith;
    known = λ key pid h. absurd (ground arith);
    thread_range = λ pid h. absurd (ground arith);
    frames = λ pid fs h. absurd (ground arith);
  }

  -- Whatever a registry held before, after a snapshot each listed thread is known to it, the
  -- thread numbers are at least the base, and each stored frame has a number of its range that
  -- leads to a live frame and back to the one thread in whose list it stands.
  pub snapshot_threads-IsRouted :
      (r : Registry py)
      → IsRouted (snapshot_threads py r).1
        × All
            (λ thread. is_task_thread_id py (snapshot_threads py r).1 thread.id ≡ true)
            (snapshot_threads py r).0
  unfolding snapshot_threads IsListed
  snapshot_threads-IsRouted r =
      let all =
        snapshot_tasks-IsListed (get_all_asyncio_tasks py) (clear py r) (clear-IsRouted r) in
      (all.0, all.2)
