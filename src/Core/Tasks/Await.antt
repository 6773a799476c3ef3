-- ===== src/Core/Tasks/Await.antt =====
-- `build_coroutine_frame_chain` of dapper/core/asyncio_task_inspector.py against the chain of
-- the awaitables that wait for each other.
use dapper.Base.{
  ℕ, zero, suc, ◌+◌, ◌≤◌, true, false, Option, none, some, List, [], ◌∷◌, ◌++◌, ◌≡◌, refl, sym, ap,
  ◌∙◌, inl, inr, arith, Bool-cases, Option-cases, length, length-append, contains, nat_eq,
}
use mathlib.Core.List.{reverse, append_assoc, append-nil}
use dapper.Core.Tasks.{Runtime, suspension, walk_awaits, build_coroutine_frame_chain, append_frame}

module _ (py : Runtime) where
  -- From an object, the objects that wait for each other until one waits for nothing.
  pub data IsAwaitChain : Option py.Object → List py.Object → Type 0 where
    ended : IsAwaitChain none []
    awaits :
        (obj : py.Object) (frame : Option py.Frame) (next : Option py.Object)
        (rest : List py.Object)
        → suspension py obj ≡ some (frame, next)
        → IsAwaitChain next rest
        → IsAwaitChain (some obj) (obj ∷ rest)

  -- No object of the list is in `seen` or stands in the list twice.
  abbrev pub AreFresh : List ℕ → List py.Object → Type 0
  AreFresh seen [] = Unit
  AreFresh seen (obj ∷ rest) =
      (contains (py.object_id obj) seen ≡ false) × AreFresh (py.object_id obj ∷ seen) rest

  -- The frames of some awaitables, the outermost first.
  unfoldable pub frames_of : List py.Object → List py.Frame
  frames_of [] = []
  frames_of (obj ∷ rest) = elim (suspension py obj) [
    | none ↦ frames_of rest
    | some found ↦ append_frame py [] found.0 ++ frames_of rest
  ]

  append_frame-append :
      (acc : List py.Frame) (frame : Option py.Frame) (rest : List py.Frame)
      → append_frame py acc frame ++ rest ≡ acc ++ (append_frame py [] frame ++ rest)
  append_frame-append acc none rest = refl
  append_frame-append acc (some frame) rest = append_assoc acc (frame ∷ []) rest

  walk_awaits-again :
      (n : ℕ) (obj : py.Object) (seen : List ℕ) (acc : List py.Frame)
      → contains (py.object_id obj) seen ≡ true
      → walk_awaits py (suc n) (some obj) seen acc ≡ acc
  unfolding walk_awaits
  walk_awaits-again n obj seen acc c = rw (c, walk_awaits) refl

  walk_awaits-opaque :
      (n : ℕ) (obj : py.Object) (seen : List ℕ) (acc : List py.Frame)
      → contains (py.object_id obj) seen ≡ false
      → suspension py obj ≡ none
      → walk_awaits py (suc n) (some obj) seen acc ≡ acc
  unfolding walk_awaits
  walk_awaits-opaque n obj seen acc c s = rw (c, s, walk_awaits) refl

  walk_awaits-next :
      (n : ℕ) (obj : py.Object) (seen : List ℕ) (acc : List py.Frame) (frame : Option py.Frame)
      (next : Option py.Object)
      → contains (py.object_id obj) seen ≡ false
      → suspension py obj ≡ some (frame, next)
      → walk_awaits py (suc n) (some obj) seen acc
        ≡ walk_awaits py n next (py.object_id obj ∷ seen) (append_frame py acc frame)
  unfolding walk_awaits
  walk_awaits-next n obj seen acc frame next c s = rw (c, s, walk_awaits) refl

  frames_of-awaits :
      (obj : py.Object) (frame : Option py.Frame) (next : Option py.Object) (rest : List py.Object)
      → suspension py obj ≡ some (frame, next)
      → frames_of (obj ∷ rest) ≡ append_frame py [] frame ++ frames_of rest
  unfolding frames_of
  frames_of-awaits obj frame next rest s = rw (s, frames_of) refl

  walk_awaits-frames_of :
      (os : List py.Object) (n : ℕ) (obj : Option py.Object) (seen : List ℕ) (acc : List py.Frame)
      → IsAwaitChain obj os
      → length os ≤ n
      → AreFresh seen os
      → walk_awaits py n obj seen acc ≡ acc ++ frames_of os
  unfolding walk_awaits frames_of
  walk_awaits-frames_of [] zero none seen acc ended le fresh = sym (append-nil acc)
  walk_awaits-frames_of [] (suc n) none seen acc ended le fresh = sym (append-nil acc)
  walk_awaits-frames_of [] zero (some _) seen acc chain le fresh = elim chain [ ]
  walk_awaits-frames_of [] (suc n) (some _) seen acc chain le fresh = elim chain [ ]
  walk_awaits-frames_of (o ∷ rest) (suc n) none seen acc chain le fresh = elim chain [ ]
  walk_awaits-frames_of (o ∷ rest) zero obj seen acc chain le fresh = absurd (omega arith)
  walk_awaits-frames_of (o ∷ rest) (suc n) (some _) seen acc (awaits _ frame next _ s chain) le
        fresh =
      walk_awaits-next n o seen acc frame next fresh.0 s
      ∙ walk_awaits-frames_of rest n next (py.object_id o ∷ seen) (append_frame py acc frame) chain
          (omega arith) fresh.1
      ∙ append_frame-append acc frame (frames_of rest)
      ∙ ap (λ fs. acc ++ fs) (sym (frames_of-awaits o frame next rest s))

  -- A chain of at most 64 awaitables without repetition that ends is followed to its end: the
  -- result holds the frame of each that has one, the innermost first.
  pub build_coroutine_frame_chain_complete :
      (coro : Option py.Object) (os : List py.Object)
      → IsAwaitChain coro os
      → length os ≤ 64
      → AreFresh [] os
      → build_coroutine_frame_chain py coro ≡ reverse (frames_of os)
  unfolding build_coroutine_frame_chain
  build_coroutine_frame_chain_complete coro os chain le fresh =
      ap reverse (walk_awaits-frames_of os 64 coro [] [] chain le fresh)

  length-append_frame :
      (acc : List py.Frame) (frame : Option py.Frame)
      → length (append_frame py acc frame) ≤ length acc + 1
  length-append_frame acc none = omega arith
  length-append_frame acc (some frame) = omega (arith, length-append acc (frame ∷ []))

  -- Whatever waits for what, also in a circle, at most one frame is collected in each round.
  pub length-walk_awaits :
      (n : ℕ) (obj : Option py.Object) (seen : List ℕ) (acc : List py.Frame)
      → length (walk_awaits py n obj seen acc) ≤ length acc + n
  unfolding walk_awaits
  length-walk_awaits zero obj seen acc = omega arith
  length-walk_awaits (suc n) none seen acc = omega arith
  length-walk_awaits (suc n) (some obj) seen acc =
      elim (Bool-cases (contains (py.object_id obj) seen)) [
        | inl c ↦ omega (arith, ap length (walk_awaits-again n obj seen acc c))
        | inr c ↦ elim (Option-cases (suspension py obj)) [
          | inl s ↦ omega (arith, ap length (walk_awaits-opaque n obj seen acc c s))
          | inr (found, s) ↦ omega (
            arith,
            ap length (walk_awaits-next n obj seen acc found.0 found.1 c s),
            length-walk_awaits n found.1 (py.object_id obj ∷ seen) (append_frame py acc found.0),
            length-append_frame acc found.0,
          )
        ]
      ]
