-- ===== src/Ipc/Stream.antt =====
-- dapper/ipc/ipc_binary.py: `read_exact`, over a stream that gives its bytes in pieces of its
-- choice.
use dapper.Base.{
  ℕ, zero, suc, ◌+◌, ◌-◌, ◌≤◌, ◌<◌, ◌≡◌, ◌≢◌, refl, ap, sym, ◌∙◌, true, false, [], ◌∷◌, ◌++◌, arith,
  ltb, length, take, drop, length-append, Bool-cases, inl, inr,
}
use mathlib.Core.Path.{subst}
use mathlib.Core.List.{append-nil, append_assoc}
use native.Mathlib.Nat.{zero-add, suc-add}
use dapper.Ipc.Frame.{Bytes}

-- What a read of a stream gives: some bytes, or an error of the operating system.
pub data Chunk (S : Type 0) : Type 0 where
  got : Bytes → S → Chunk S
  os_error : Chunk S

-- A buffered stream, which the program does not implement: `read(n)` gives at most `n` of the bytes
-- that are left, and none only where none is left.
pub record Stream : Type 1 where
  pub State : Type 0
  pub read : State → ℕ → Chunk State
  pub content : State → Bytes
  pub splits :
      (s s' : State) (n : ℕ) (chunk : Bytes)
      → read s n ≡ got chunk s'
      → content s ≡ chunk ++ content s'
  pub bounded : (s s' : State) (n : ℕ) (chunk : Bytes) → read s n ≡ got chunk s' → length chunk ≤ n
  pub at_end : (s s' : State) (n : ℕ) → 0 < n → read s n ≡ got [] s' → content s ≡ []

pub data Outcome (S : Type 0) : Type 0 where
  done : Bytes → S → Outcome S
  failed : Outcome S
  out_of_fuel : Outcome S

take-chunk : (xs ys : Bytes) (m : ℕ) → take (length xs + m) (xs ++ ys) ≡ xs ++ take m ys
take-chunk [] ys m = rw zero-add
take-chunk (x ∷ xs) ys m = rw suc-add (ap (◌∷◌ x) (take-chunk xs ys m))

drop-chunk : (xs ys : Bytes) (m : ℕ) → drop (length xs + m) (xs ++ ys) ≡ drop m ys
drop-chunk [] ys m = rw zero-add
drop-chunk (x ∷ xs) ys m = rw suc-add (drop-chunk xs ys m)

take-nil : (n : ℕ) → take {A = ℕ} n [] ≡ []
take-nil zero = refl
take-nil (suc n) = refl

drop-nil : (n : ℕ) → drop {A = ℕ} n [] ≡ []
drop-nil zero = refl
drop-nil (suc n) = refl

module _ (stream : Stream) where
  open stream use {State, read, content, splits, bounded, at_end}

  -- A round, by what the read gave: the end, an error, or one more round.
  unfoldable pub continue_with :
      (State → Bytes → Outcome State) → Bytes → Chunk State → Outcome State
  continue_with again chunks os_error = failed
  continue_with again chunks (got [] s') = done chunks s'
  continue_with again chunks (got (b ∷ bs) s') = again s' (chunks ++ (b ∷ bs))

  -- The loop; `chunks` is what has been read.
  unfoldable pub read_loop : ℕ → State → ℕ → Bytes → Outcome State
  unfolding continue_with
  read_loop zero s n chunks = out_of_fuel
  read_loop (suc fuel) s n chunks = elim (ltb (length chunks) n) [
    | false ↦ done chunks s
    | true ↦
        continue_with (λ s' chunks'. read_loop fuel s' n chunks') chunks
          (read s (n - length chunks))
  ]

  -- Each round but the last reads a byte at least.
  unfoldable pub read_exact : State → ℕ → Outcome State
  unfolding read_loop
  read_exact s n = read_loop (n + 1) s n []

  -- What is promised of an outcome: the bytes before and the next `n`, or all if there are fewer,
  -- with the stream behind them; or the error of the stream.
  pub data Reads (s : State) (n : ℕ) (before : Bytes) : Outcome State → Type 0 where
    complete :
        {s' : State} {bytes : Bytes}
        → bytes ≡ before ++ take n (content s)
        → content s' ≡ drop n (content s)
        → Reads s n before (done bytes s')
    broken : (t : State) (k : ℕ) → read t k ≡ os_error → Reads s n before failed

  Reads-extend :
      (s s' : State) (n m : ℕ) (before chunk : Bytes) (o : Outcome State)
      → content s ≡ chunk ++ content s'
      → n ≡ length chunk + m
      → Reads s' m (before ++ chunk) o
      → Reads s n before o
  Reads-extend s s' n m before chunk _ e k (broken t j failure) = broken t j failure
  Reads-extend s s' n m before chunk _ e k (complete b c) = rw k (
      complete
        (b
          ∙ append_assoc before chunk _
          ∙ ap (◌++◌ before) (sym (ap (take _) e ∙ take-chunk chunk (content s') m)))
        (c ∙ sym (ap (drop _) e ∙ drop-chunk chunk (content s') m)))

  continue_with_lem :
      (s : State) (n : ℕ) (chunks : Bytes) (again : State → Bytes → Outcome State) (c : Chunk State)
      → 0 < n
      → read s n ≡ c
      → ((s' : State) (chunk : Bytes)
          → 0 < length chunk
          → length chunk ≤ n
          → Reads s' (n - length chunk) (chunks ++ chunk) (again s' (chunks ++ chunk)))
      → Reads s n chunks (continue_with again chunks c)
  unfolding continue_with
  continue_with_lem s n chunks again os_error pos e ih = broken s n e
  continue_with_lem s n chunks again (got [] s') pos e ih =
      let empty = at_end s s' n pos e in
      complete (sym (append-nil chunks) ∙ ap (◌++◌ chunks) (sym (ap (take n) empty ∙ take-nil n)))
        (sym (splits s s' n [] e) ∙ empty ∙ sym (ap (drop n) empty ∙ drop-nil n))
  continue_with_lem s n chunks again (got (b ∷ bs) s') pos e ih =
      let fits = bounded s s' n (b ∷ bs) e in
      Reads-extend s s' n (n - length (b ∷ bs)) chunks (b ∷ bs) _ (splits s s' n (b ∷ bs) e)
        (omega arith) (ih s' (b ∷ bs) (omega arith) fits)

  read_loop_lem :
      (fuel : ℕ) (s : State) (n : ℕ) (chunks : Bytes)
      → n - length chunks < fuel
      → Reads s (n - length chunks) chunks (read_loop fuel s n chunks)
  unfolding read_loop
  read_loop_lem zero s n chunks h = absurd (omega arith)
  read_loop_lem (suc fuel) s n chunks h = elim (Bool-cases (ltb (length chunks) n)) [
    | inr enough ↦
        let e : n - length chunks ≡ 0 = ground arith in
        rw (enough, e, read_loop) (complete (sym (append-nil chunks)) refl)
    | inl more ↦
        rw (more, read_loop)
          (continue_with_lem s (n - length chunks) chunks
            (λ s' chunks'. read_loop fuel s' n chunks') (read s (n - length chunks)) (ground arith)
            refl
            (λ s' chunk pos fits.
              let e : n - length chunks - length chunk ≡ n - length (chunks ++ chunk) =
                omega (arith, length-append chunks chunk) in
              rw e (
                read_loop_lem fuel s' n (chunks ++ chunk)
                  (omega (arith, length-append chunks chunk)))))
  ]

  -- Whatever the pieces in which a stream gives its bytes, `read_exact` ends, and it returns the
  -- first `n` bytes of the stream, or all of them if there are fewer, and leaves the stream behind
  -- them; only an error of the stream itself keeps it from that.
  pub read_exact_lem : (s : State) (n : ℕ) → Reads s n [] (read_exact s n)
  unfolding read_exact
  read_exact_lem s n =
      let e : n - 0 ≡ n = omega arith in
      subst (λ k. Reads s k [] (read_loop (n + 1) s n [])) e
        (read_loop_lem (n + 1) s n [] (omega arith))

  -- A stream whose reads do not fail.
  abbrev pub IsReliable : Type 0
  IsReliable = (s : State) (n : ℕ) → read s n ≢ os_error

  pub Reads-done :
      {s : State} {n : ℕ} {o : Outcome State}
      → IsReliable
      → Reads s n [] o
      → (s' : State) × (o ≡ done (take n (content s)) s') × (content s' ≡ drop n (content s))
  Reads-done reliable (complete {s' = s'} e c) = (s', rw e refl, c)
  Reads-done reliable (broken t k failure) = absurd (reliable t k failure)
