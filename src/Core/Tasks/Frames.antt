-- ===== src/Core/Tasks/Frames.antt =====
-- What making the frames of a task changes in the registry of
-- dapper/core/asyncio_task_inspector.py.
use dapper.Base.{
  ℕ, ◌≤◌, ◌<◌, true, none, some, List, [], ◌∷◌, ◌≡◌, refl, ◌∙◌, inl, inr, arith, Option-cases, All,
  nat_eq,
}
use mathlib.Core.Path.{subst⁻¹}
use dapper.Base.Dict.{Dict, get, put, has, get-put, has-put}
use dapper.Core.Tasks.{
  Runtime, CodeNames, Causality, task_frame_id_base, build_coroutine_frame_chain,
  build_task_causality_snapshot,
}
use dapper.Core.Tasks.Registry.{
  DapFrame, Registry, allocate_frame_id, make_frame, add_frame, add_frames, build_frames,
}

module _ (py : Runtime) where
  -- A frame of a task: its number is in the range of the registry and leads to the thread.
  pub record IsFrameOf (r : Registry py) (pid : ℕ) (f : DapFrame) : Type 0 where
    pub owner : get f.id r.frame_id_to_task_id ≡ some pid
    pub object : has f.id r.frame_id_to_frame ≡ true
    pub base : task_frame_id_base ≤ f.id
    pub below : f.id < r.next_frame_id

  -- What making frames changes: the two maps on frames grow at new numbers, and nothing else
  -- does.
  pub record Extends (r r' : Registry py) : Type 0 where
    pub grown : r.next_frame_id ≤ r'.next_frame_id
    pub owners :
        (id : ℕ)
        → id < r.next_frame_id
        → get id r'.frame_id_to_task_id ≡ get id r.frame_id_to_task_id
    pub objects :
        (id : ℕ) → id < r.next_frame_id → get id r'.frame_id_to_frame ≡ get id r.frame_id_to_frame
    pub same_ids : r'.task_to_pseudo_id ≡ r.task_to_pseudo_id
    pub same_tasks : r'.id_to_task ≡ r.id_to_task
    pub same_frames : r'.id_to_frames ≡ r.id_to_frames
    pub same_next : r'.next_thread_id ≡ r.next_thread_id

  has-ap :
      (id : ℕ) (d d' : Dict ℕ py.Frame) → get id d' ≡ get id d → has id d ≡ true → has id d' ≡ true
  unfolding has
  has-ap id d d' e h = ground arith

  pub IsFrameOf-Extends :
      (r r' : Registry py) (pid : ℕ) (f : DapFrame)
      → Extends r r'
      → IsFrameOf r pid f
      → IsFrameOf r' pid f
  IsFrameOf-Extends r r' pid f x v = record {
    owner = x.owners f.id v.below ∙ v.owner;
    object = has-ap f.id r.frame_id_to_frame r'.frame_id_to_frame (x.objects f.id v.below) v.object;
    base = v.base;
    below = omega (arith, x.grown, v.below);
  }

  Extends-trans : (r s t : Registry py) → Extends r s → Extends s t → Extends r t
  Extends-trans r s t x y = record {
    grown = omega (arith, x.grown, y.grown);
    owners = λ id h. y.owners id (omega (arith, x.grown)) ∙ x.owners id h;
    objects = λ id h. y.objects id (omega (arith, x.grown)) ∙ x.objects id h;
    same_ids = y.same_ids ∙ x.same_ids;
    same_tasks = y.same_tasks ∙ x.same_tasks;
    same_frames = y.same_frames ∙ x.same_frames;
    same_next = y.same_next ∙ x.same_next;
  }

  Extends-refl : (r : Registry py) → Extends r r
  Extends-refl r = record {
    grown = omega arith;
    owners = λ id h. refl;
    objects = λ id h. refl;
    same_ids = refl;
    same_tasks = refl;
    same_frames = refl;
    same_next = refl;
  }

  add_frame-Extends :
      (r : Registry py) (pid : ℕ) (frame : py.Frame) (code : CodeNames)
      → Extends r (add_frame py r pid frame code).1
  unfolding add_frame allocate_frame_id
  add_frame-Extends r pid frame code = record {
    grown = omega arith;
    owners = λ id h. ground (arith, get-put r.next_frame_id pid id r.frame_id_to_task_id);
    objects = λ id h. ground (arith, get-put r.next_frame_id frame id r.frame_id_to_frame);
    same_ids = refl;
    same_tasks = refl;
    same_frames = refl;
    same_next = refl;
  }

  add_frame-IsFrameOf :
      (r : Registry py) (pid : ℕ) (frame : py.Frame) (code : CodeNames)
      → task_frame_id_base ≤ r.next_frame_id
      → IsFrameOf (add_frame py r pid frame code).1 pid (add_frame py r pid frame code).0
  unfolding add_frame allocate_frame_id make_frame
  add_frame-IsFrameOf r pid frame code h = record {
    owner = ground (arith, get-put r.next_frame_id pid r.next_frame_id r.frame_id_to_task_id);
    object = ground (arith, has-put r.next_frame_id frame r.next_frame_id r.frame_id_to_frame);
    base = h;
    below = omega arith;
  }

  -- The frames that one call adds, and the registry after it.
  pub record AreAdded (r : Registry py) (pid : ℕ) (out : List DapFrame × Registry py) : Type 0 where
    pub extends : Extends r out.1
    pub frames : All (IsFrameOf out.1 pid) out.0

  add_frames-skip :
      (frame : py.Frame) (fs : List py.Frame) (r : Registry py) (pid : ℕ)
      → py.f_code frame ≡ none
      → add_frames py (frame ∷ fs) r pid ≡ add_frames py fs r pid
  unfolding add_frames
  add_frames-skip frame fs r pid h = rw (h, add_frames) refl

  add_frames-add :
      (frame : py.Frame) (fs : List py.Frame) (r : Registry py) (pid : ℕ) (code : CodeNames)
      → py.f_code frame ≡ some code
      → add_frames py (frame ∷ fs) r pid ≡ (
        (add_frame py r pid frame code).0
            ∷ (add_frames py fs (add_frame py r pid frame code).1 pid).0,
        (add_frames py fs (add_frame py r pid frame code).1 pid).1,
      )
  unfolding add_frames
  add_frames-add frame fs r pid code h = rw (h, add_frames) refl

  add_frames-AreAdded :
      (fs : List py.Frame) (r : Registry py) (pid : ℕ)
      → task_frame_id_base ≤ r.next_frame_id
      → AreAdded r pid (add_frames py fs r pid)
  unfolding add_frames
  add_frames-AreAdded [] r pid h = record { extends = Extends-refl r; frames = tt }
  add_frames-AreAdded (frame ∷ fs) r pid h = elim (Option-cases (py.f_code frame)) [
    | inl c ↦
        subst⁻¹ (AreAdded r pid) (add_frames-skip frame fs r pid c) (add_frames-AreAdded fs r pid h)
    | inr (code, c) ↦
        let x = add_frame-Extends r pid frame code in
        let r' : Registry py = (add_frame py r pid frame code).1 in
        let rest = add_frames-AreAdded fs r' pid (omega (arith, x.grown)) in
        subst⁻¹ (AreAdded r pid) (add_frames-add frame fs r pid code c) record {
          extends = Extends-trans r r' (add_frames py fs r' pid).1 x rest.extends;
          frames = (
            IsFrameOf-Extends r' (add_frames py fs r' pid).1 pid (add_frame py r pid frame code).0
                rest.extends (add_frame-IsFrameOf r pid frame code h),
            rest.frames,
          );
        }
  ]

  AreAdded-causality :
      (r : Registry py) (d : Dict ℕ (Causality py)) (pid : ℕ) (out : List DapFrame × Registry py)
      → AreAdded (record r { id_to_causality = d }) pid out
      → AreAdded r pid out
  AreAdded-causality r d pid out a =
      let x = a.extends in
      record {
        extends = record {
          grown = x.grown;
          owners = x.owners;
          objects = x.objects;
          same_ids = x.same_ids;
          same_tasks = x.same_tasks;
          same_frames = x.same_frames;
          same_next = x.same_next;
        };
        frames = a.frames;
      }

  pub build_frames-AreAdded :
      (r : Registry py) (t : py.Task) (pid : ℕ)
      → task_frame_id_base ≤ r.next_frame_id
      → AreAdded r pid (build_frames py r t pid)
  unfolding build_frames
  build_frames-AreAdded r t pid h =
      elim (py.get_coro t)
        as (λ coro. AreAdded r pid (elim coro [
          | none ↦ ([], r)
          | some coro ↦
              add_frames py (build_coroutine_frame_chain py coro)
                (record r {
                  id_to_causality =
                      put pid
                        (build_task_causality_snapshot py t (build_coroutine_frame_chain py coro))
                        r.id_to_causality;
                })
                pid
        ])) [
          | none ↦ record { extends = Extends-refl r; frames = tt }
          | some coro ↦
              AreAdded-causality r
                (put pid (build_task_causality_snapshot py t (build_coroutine_frame_chain py coro))
                  r.id_to_causality)
                pid _ (add_frames-AreAdded (build_coroutine_frame_chain py coro) _ pid h)
        ]
