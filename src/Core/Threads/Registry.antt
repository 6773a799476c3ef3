-- ===== src/Core/Threads/Registry.antt =====
-- The identifiers that `ThreadTracker` gives to frames.
use dapper.Base.{
  ℕ, zero, suc, ◌+◌, ◌-◌, ◌≤◌, ◌<◌, String, ◌≡◌, refl, ap, ◌∙◌, not, none, some, List, [], ◌∷◌,
  ◌==◌, ltb, nat_eq, arith, select, length, get_elem?, get_elem?_out, if◌then◌else◌,
}
use dapper.Base.Dict.{get, get-put}
use dapper.Core.Threads.{
  Memory, StackFrame, Tracker, init, get_frame, clear_frames, describe, admit,
  build_frames_from_list,
}

-- Identifiers that have not been given out resolve to nothing.
abbrev pub IsFresh : Tracker → Type 0
IsFresh t = (i : ℕ) → t.next_frame_id ≤ i → get_frame t i ≡ none

module _ (path_name : String → String) (memory : Memory) where
  -- The frames of a list that can be read.
  abbrev pub readable : List ℕ → List ℕ
  readable = select (λ f. not ((memory f).code_fails))

  -- The descriptions of frames, numbered from a number on.
  abbrev pub describe_from : ℕ → List ℕ → List StackFrame
  describe_from n [] = []
  describe_from n (f ∷ fs) = describe path_name memory n (memory f) ∷ describe_from (n + 1) fs

  abbrev built : Tracker → List ℕ → List StackFrame × Tracker
  built = build_frames_from_list path_name memory

  -- The loop over frames that can all be read.
  admit_all : Tracker → List ℕ → List StackFrame × Tracker
  unfolding admit
  admit_all t [] = ([], t)
  admit_all t (f ∷ fs) =
      let (frame, t') = admit path_name memory t f in
      let (frames, t'') = admit_all t' fs in (frame ∷ frames, t'')

  built-eq-admit_all : (t : Tracker) (fs : List ℕ) → built t fs ≡ admit_all t (readable fs)
  unfolding build_frames_from_list admit_all select
  built-eq-admit_all t [] = refl
  built-eq-admit_all t (f ∷ fs) =
      ground (arith, built-eq-admit_all t fs, built-eq-admit_all (admit path_name memory t f).1 fs)

  frames-admit_all :
      (t : Tracker) (fs : List ℕ) → (admit_all t fs).0 ≡ describe_from t.next_frame_id fs
  unfolding admit_all
  frames-admit_all t [] = refl
  frames-admit_all t (f ∷ fs) =
      ap (◌∷◌ (admit path_name memory t f).0) (frames-admit_all (admit path_name memory t f).1 fs)

  next-admit_all :
      (t : Tracker) (fs : List ℕ) → (admit_all t fs).1.next_frame_id ≡ t.next_frame_id + length fs
  unfolding admit_all
  next-admit_all t [] = omega arith
  next-admit_all t (f ∷ fs) = omega (arith, next-admit_all (admit path_name memory t f).1 fs)

  get_frame-admit :
      (t : Tracker) (f i : ℕ)
      → get_frame (admit path_name memory t f).1 i
        ≡ (if t.next_frame_id == i then some f else get_frame t i)
  unfolding get_frame admit
  get_frame-admit t f i = get-put t.next_frame_id f i t.frame_id_to_frame

  get_frame-admit_all_old :
      (t : Tracker) (fs : List ℕ) (i : ℕ)
      → i < t.next_frame_id
      → get_frame (admit_all t fs).1 i ≡ get_frame t i
  unfolding admit_all
  get_frame-admit_all_old t [] i h = refl
  get_frame-admit_all_old t (f ∷ fs) i h =
      get_frame-admit_all_old (admit path_name memory t f).1 fs i (unfold admit in omega arith)
      ∙ (rw get_frame-admit (ground arith))

  get_frame-admit_all_new :
      (t : Tracker) (fs : List ℕ) (i j : ℕ)
      → i ≡ t.next_frame_id + j
      → get_frame (admit_all t fs).1 i
        ≡ elim (get_elem? fs j) [ none ↦ get_frame t i | some f ↦ some f ]
  unfolding admit_all
  get_frame-admit_all_new t [] i j h = refl
  get_frame-admit_all_new t (f ∷ fs) i zero h =
      get_frame-admit_all_old (admit path_name memory t f).1 fs i (unfold admit in omega arith)
      ∙ (rw get_frame-admit (ground arith))
  get_frame-admit_all_new t (f ∷ fs) i (suc j) h =
      get_frame-admit_all_new (admit path_name memory t f).1 fs i j (unfold admit in omega arith)
      ∙ ground (arith, get_frame-admit t f i)

  admit_all-IsFresh : (t : Tracker) (fs : List ℕ) → IsFresh t → IsFresh (admit_all t fs).1
  admit_all-IsFresh t fs fresh i h =
      let within : t.next_frame_id + length fs ≤ i = omega (arith, next-admit_all t fs) in
      let e : i ≡ t.next_frame_id + (i - t.next_frame_id) = omega arith in
      get_frame-admit_all_new t fs i (i - t.next_frame_id) e
      ∙ ground (arith, fresh i, get_elem?_out fs (i - t.next_frame_id) (omega arith))

  -- A list of frames is described in order, the unreadable ones left out, under consecutive new
  -- identifiers; each of these resolves to its frame afterwards, the identifiers given out before
  -- resolve to what they did, and those not given out yet resolve to nothing still; where they did
  -- so before.
  pub build_frames_lem :
      (t : Tracker) (fs : List ℕ) (i : ℕ)
      → IsFresh t
      → ((built t fs).0 ≡ describe_from t.next_frame_id (readable fs))
        × ((built t fs).1.next_frame_id ≡ t.next_frame_id + length (readable fs))
        × (get_frame (built t fs).1 i ≡ (
            if ltb i t.next_frame_id
            then get_frame t i
            else get_elem? (readable fs) (i - t.next_frame_id)))
        × IsFresh (built t fs).1
  build_frames_lem t fs i fresh = rw built-eq-admit_all (
    frames-admit_all t (readable fs),
    next-admit_all t (readable fs),
    ground (
      arith,
      fresh i,
      get_frame-admit_all_old t (readable fs) i,
      get_frame-admit_all_new t (readable fs) i (i - t.next_frame_id),
    ),
    admit_all-IsFresh t (readable fs) fresh,
  )

-- The operations that drop frames keep the counter, so that no identifier is given out twice.
pub clear_frames-IsFresh :
    (t : Tracker)
    → IsFresh (clear_frames t)
      × ((clear_frames t).next_frame_id ≡ t.next_frame_id)
      × ((i : ℕ) → get_frame (clear_frames t) i ≡ none)
unfolding clear_frames get_frame get
clear_frames-IsFresh t = ((λ i h. refl), refl, (λ i. refl))

pub init-IsFresh : IsFresh init
unfolding get_frame get
init-IsFresh i h = refl
