-- ===== src/Core/Tasks/Paging.antt =====
-- `get_task_frames` of dapper/core/asyncio_task_inspector.py: pages of frames fit together.
use dapper.Base.{
  ℕ, zero, suc, nat_eq, ◌+◌, ◌<◌, min, List, [], ◌∷◌, ◌++◌, ◌≡◌, refl, sym, ap, ◌∙◌, arith, length,
  take, drop, take-drop-append, drop-drop, length-drop,
}
use native.Mathlib.Numerals.{unary_clauses}
use dapper.Base.Dict.{get_or}
use dapper.Core.Tasks.{Runtime}
use dapper.Core.Tasks.Registry.{DapFrame, Registry, page, get_task_frames}

take-min : (xs : List DapFrame) (l : ℕ) → take (min l (length xs)) xs ≡ take l xs
take-min xs zero = simp unary_clauses refl
take-min [] (suc l) = simp unary_clauses refl
take-min (x ∷ xs) (suc l) = simp unary_clauses (ap (◌∷◌ x) (take-min xs l))

-- A page is what Python's `frames[start:][:levels]` is.
page-take :
    (py : Runtime) (xs : List DapFrame) (s l : ℕ) → 0 < l → page py xs s l ≡ take l (drop s xs)
unfolding page
page-take py xs s l h =
    ap (λ n. take n (drop s xs)) (ground (arith, length-drop xs s)) ∙ take-min (drop s xs) l

-- Two pages that follow each other hold the frames of the one page that spans both.
pub get_task_frames-pages :
    (py : Runtime) (r : Registry py) (pid s l m : ℕ)
    → 0 < l
    → 0 < m
    → get_task_frames py r pid s l ++ get_task_frames py r pid (s + l) m
      ≡ get_task_frames py r pid s (l + m)
unfolding get_task_frames
get_task_frames-pages py r pid s l m hl hm =
    let xs = get_or pid [] r.id_to_frames in
    ap (λ p. p ++ page py xs (s + l) m) (page-take py xs s l hl)
    ∙ ap (λ p. take l (drop s xs) ++ p)
        (page-take py xs (s + l) m hm ∙ ap (take m) (sym (drop-drop xs s l)))
    ∙ take-drop-append (drop s xs) l m
    ∙ sym (page-take py xs s (l + m) (omega arith))
