-- ===== src/Shared/StackHandlers/Pages.antt =====
-- The pages of a stack that dapper/shared/stack_handlers.py sends.
use dapper.Base.{
  ℕ, zero, suc, ◌+◌, true, some, List, [], ◌∷◌, ◌++◌, ◌≡◌, refl, sym, ap, ◌∙◌, arith, take, drop,
  drop-drop,
}
use dapper.Base.Text.{Codes}
use dapper.Shared.StackHandlers.{Entry, entry_frame, entry_frames, stack_page, untracked_frames}

plus_zero : (n : ℕ) → n + 0 ≡ n
plus_zero n = omega arith

zero_plus : (n : ℕ) → n ≡ 0 + n
zero_plus n = omega arith

shift : (n l : ℕ) → n + suc l ≡ (n + 1) + l
shift n l = omega arith

suc_plus : (l m : ℕ) → suc (l + m) ≡ suc l + m
suc_plus l m = omega arith

module _ (path_name : Codes → Codes) where
  entry_frames-none : (id m : ℕ) → entry_frames path_name id (take m []) ≡ []
  unfolding entry_frames
  entry_frames-none id zero = refl
  entry_frames-none id (suc m) = refl

  entry_frames-pages :
      (ys : List Entry) (id l m : ℕ)
      → entry_frames path_name id (take l ys)
          ++ entry_frames path_name (id + l) (take m (drop l ys))
        ≡ entry_frames path_name id (take (l + m) ys)
  unfolding entry_frames
  entry_frames-pages ys id zero m =
      ap (λ i. entry_frames path_name i (take m ys)) (plus_zero id)
      ∙ ap (λ k. entry_frames path_name id (take k ys)) (zero_plus m)
  entry_frames-pages [] id (suc l) m =
      entry_frames-none (id + suc l) m ∙ sym (entry_frames-none id (suc l + m))
  entry_frames-pages (y ∷ ys) id (suc l) m =
      ap (λ fs. entry_frame path_name id y ∷ fs)
        (ap
            (λ i.
              entry_frames path_name (id + 1) (take l ys)
              ++ entry_frames path_name i (take m (drop l ys)))
            (shift id l)
          ∙ entry_frames-pages ys (id + 1) l m)
      ∙ ap (λ k. entry_frames path_name id (take k (y ∷ ys))) (suc_plus l m)

  -- The frames of two requests that follow each other, under the numbers that they get, are those
  -- of the one request that spans both, whatever the stack, where the tracker has none for the
  -- thread of the command.
  pub untracked_frames-pages :
      (stack : List Entry) (s l m : ℕ)
      → untracked_frames path_name (some stack) true s (some l)
          ++ untracked_frames path_name (some stack) true (s + l) (some m)
        ≡ untracked_frames path_name (some stack) true s (some (l + m))
  unfolding untracked_frames stack_page
  untracked_frames-pages stack s l m =
      ap
        (λ ys.
          entry_frames path_name s (take l (drop s stack))
          ++ entry_frames path_name (s + l) (take m ys))
        (sym (drop-drop stack s l))
      ∙ entry_frames-pages (drop s stack) s l m
