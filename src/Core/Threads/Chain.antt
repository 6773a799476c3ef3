-- ===== src/Core/Threads/Chain.antt =====
-- The walk of `build_stack_frames` up the callers of a frame, which may be cyclic, broken or long.
use dapper.Base.{
  ℕ, zero, suc, ◌≤◌, String, ◌≡◌, refl, ◌∙◌, true, false, not, Option, none, some, List, [], ◌∷◌,
  nat_eq, arith, select, length, contains, Bool-cases, inl, inr,
}
use dapper.Core.Threads.{
  Back, top, caller, fails, Memory, Tracker, admit, walk, build_stack_frames,
  build_frames_from_list,
}
use dapper.Core.Threads.Registry.{readable}

-- The next frame of the walk.
abbrev pub next : Back → Option ℕ
next top = none
next (caller g) = some g
next fails = none

-- The frames that a walk visits: each the caller of the one before, none twice and none of
-- `visited`, all of them readable, until the top, an unreadable frame, or the end of the rounds.
pub data IsChain (memory : Memory) : ℕ → Option ℕ → List ℕ → List ℕ → Type 0 where
  out_of_rounds : {current : Option ℕ} {visited : List ℕ} → IsChain memory zero current visited []
  at_top : {n : ℕ} {visited : List ℕ} → IsChain memory (suc n) none visited []
  cycle :
      {n f : ℕ} {visited : List ℕ}
      → contains f visited ≡ true
      → IsChain memory (suc n) (some f) visited []
  unreadable :
      {n f : ℕ} {visited : List ℕ}
      → (memory f).code_fails ≡ true
      → IsChain memory (suc n) (some f) visited []
  visit :
      {n f : ℕ} {visited fs : List ℕ}
      → contains f visited ≡ false
      → (memory f).code_fails ≡ false
      → IsChain memory n (next (memory f).f_back) (f ∷ visited) fs
      → IsChain memory (suc n) (some f) visited (f ∷ fs)

module _ {memory : Memory} where
  pub chain-bounded :
      {n : ℕ} {current : Option ℕ} {visited fs : List ℕ}
      → IsChain memory n current visited fs
      → length fs ≤ n
  chain-bounded out_of_rounds = omega arith
  chain-bounded at_top = omega arith
  chain-bounded (cycle h) = omega arith
  chain-bounded (unreadable h) = omega arith
  chain-bounded (visit h k c) = omega (arith, chain-bounded c)

  chain-readable :
      {n : ℕ} {current : Option ℕ} {visited fs : List ℕ}
      → IsChain memory n current visited fs
      → select (λ f. not ((memory f).code_fails)) fs ≡ fs
  unfolding select
  chain-readable out_of_rounds = refl
  chain-readable at_top = refl
  chain-readable (cycle h) = refl
  chain-readable (unreadable h) = refl
  chain-readable (visit h k c) = ground (arith, chain-readable c)

module _ (path_name : String → String) (memory : Memory) where
  walk-none :
      (n : ℕ) (t : Tracker) (visited : List ℕ) → walk path_name memory n t none visited ≡ ([], t)
  unfolding walk
  walk-none zero t visited = refl
  walk-none (suc n) t visited = refl

  IsChain-none : (n : ℕ) (visited : List ℕ) → IsChain memory n none visited []
  IsChain-none zero visited = out_of_rounds
  IsChain-none (suc n) visited = at_top

  walk_visit :
      (n : ℕ) (t : Tracker) (f : ℕ) (visited : List ℕ)
      → contains f visited ≡ false
      → (memory f).code_fails ≡ false
      → walk path_name memory (suc n) t (some f) visited ≡ (
          let t' = (admit path_name memory t f).1 in
          let rest = walk path_name memory n t' (next (memory f).f_back) (f ∷ visited) in
          ((admit path_name memory t f).0 ∷ rest.0, rest.1))
  unfolding walk
  walk_visit n t f visited fresh good =
      ground (arith, walk-none n (admit path_name memory t f).1 (f ∷ visited))

  Walked : ℕ → Tracker → Option ℕ → List ℕ → Type 0
  Walked n t current visited =
      (fs : List ℕ) × IsChain memory n current visited fs
      × (walk path_name memory n t current visited ≡ build_frames_from_list path_name memory t fs)

  walk_lem :
      (n : ℕ) (t : Tracker) (current : Option ℕ) (visited : List ℕ) → Walked n t current visited
  unfolding walk build_frames_from_list Walked
  walk_lem zero t current visited = ([], out_of_rounds, refl)
  walk_lem (suc n) t none visited = ([], at_top, refl)
  walk_lem (suc n) t (some f) visited = elim (Bool-cases (contains f visited)) [
    | inl seen ↦ ([], cycle seen, rw (seen, walk) refl)
    | inr fresh ↦ elim (Bool-cases ((memory f).code_fails)) [
      | inl bad ↦ ([], unreadable bad, rw (fresh, bad, walk) refl)
      | inr good ↦
          let (fs, c, e) =
            walk_lem n (admit path_name memory t f).1 (next (memory f).f_back) (f ∷ visited) in
          (f ∷ fs, visit fresh good c, walk_visit n t f visited fresh good ∙ ground (arith, e))
    ]
  ]

  -- Whatever the memory, the walk up the callers ends, and it describes a chain of callers with no
  -- frame twice: the tracker and the stack frames are those that `build_frames_from_list` makes of
  -- the chain, which has at most `max_depth` frames.
  pub build_stack_frames_lem :
      (t : Tracker) (frame : Option ℕ) (max_depth : ℕ)
      → (fs : List ℕ) × IsChain memory max_depth frame [] fs
        × (length fs ≤ max_depth)
        × (readable path_name memory fs ≡ fs)
        × (build_stack_frames path_name memory t frame max_depth
            ≡ build_frames_from_list path_name memory t fs)
  unfolding build_stack_frames Walked
  build_stack_frames_lem t frame max_depth =
      let (fs, c, e) = walk_lem max_depth t frame [] in
      (fs, c, chain-bounded c, chain-readable c, e)
