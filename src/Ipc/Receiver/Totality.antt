-- ===== src/Ipc/Receiver/Totality.antt =====
-- The receive loop ends on every stream.
use dapper.Base.{
  ℕ, zero, suc, ◌+◌, ◌≤◌, ◌<◌, ◌≡◌, ◌≢◌, ap, none, [], ◌∷◌, arith, nat_eq, ◌==◌, length, take, drop,
  Bool-cases, inl, inr,
}
use dapper.Ipc.Frame.{Bytes, Result, ok, err, header_size, unpack_header}
use dapper.Ipc.Stream.{
  Stream, Outcome, done, failed, out_of_fuel, read_exact, Reads, read_exact_lem,
}
use dapper.Ipc.Receiver.{
  Host, Live, Next, go_on, stop, kind_command, receive_command, Again, after_command, on_payload,
  on_frame, on_header, receive,
}

length-drop-le : (n : ℕ) (xs : Bytes) → length (drop n xs) ≤ length xs
length-drop-le zero xs = omega arith
length-drop-le (suc n) [] = omega arith
length-drop-le (suc n) (x ∷ xs) = omega (arith, length-drop-le n xs)

drop_shorter :
    (n b : ℕ) (bs xs : Bytes) → (b ∷ bs) ≡ take (suc n) xs → length (drop (suc n) xs) < length xs
drop_shorter n b bs [] e = absurd (cc)
drop_shorter n b bs (x ∷ xs) e = omega (arith, length-drop-le n xs)

module _ (host : Host) (stream : Stream) where
  open stream use {content}

  -- The loop returns from every stream with at most `k` bytes left.
  Returns : Again host stream → ℕ → Type 0
  Returns again k =
      (s : stream.State) (session : Live host) → length (content s) ≤ k → again s session ≢ none

  after_command-Returns :
      (again : Again host stream) (s : stream.State) (next : Next host)
      → Returns again (length (content s))
      → after_command host stream again s next ≢ none
  unfolding after_command Returns
  after_command-Returns again s (go_on session) h = h s session (omega arith)
  after_command-Returns again s (stop session) h = λ e. cc

  on_payload-Returns :
      (again : Again host stream) (session : Live host) (kind : ℕ) (s : stream.State) (n : ℕ)
      (o : Outcome stream.State)
      → Reads stream s n [] o
      → Returns again (length (content s))
      → on_payload host stream again session kind o ≢ none
  unfolding on_payload Returns
  on_payload-Returns again session kind s n (done [] s') r h = λ e. cc
  on_payload-Returns again session kind s n (done (b ∷ bs) s') (Reads.complete e c) h =
      let fits : length (content s') ≤ length (content s) = rw c (length-drop-le n (content s)) in
      elim (Bool-cases (kind == kind_command)) [
        | inl y ↦
            rw (y, on_payload)
              (after_command-Returns again s' (receive_command host session (b ∷ bs))
                (λ t session' le. h t session' (omega arith)))
        | inr y ↦ rw (y, on_payload) (h s' session fits)
      ]
  on_payload-Returns again session kind s n out_of_fuel r h = elim r [ ]
  on_payload-Returns again session kind s n failed r h = λ e. cc

  on_frame-Returns :
      (again : Again host stream) (session : Live host) (s : stream.State) (r : Result (ℕ × ℕ))
      → Returns again (length (content s))
      → on_frame host stream again session s r ≢ none
  unfolding on_frame Returns
  on_frame-Returns again session s (err e) h = h s _ (omega arith)
  on_frame-Returns again session s (ok (kind, size)) h =
      on_payload-Returns again session kind s size (read_exact stream s size)
        (read_exact_lem stream s size) h

  on_header_returns :
      (again : Again host stream) (session : Live host) (s : stream.State)
      (o : Outcome stream.State)
      → Reads stream s header_size [] o
      → ((t : stream.State) (session' : Live host)
          → length (content t) < length (content s)
          → again t session' ≢ none)
      → on_header host stream again session o ≢ none
  unfolding on_header on_frame Returns
  on_header_returns again session s (done [] s') r h = λ e. cc
  on_header_returns again session s (done (b ∷ bs) s') (Reads.complete e c) h =
      on_frame-Returns again session s' (unpack_header (b ∷ bs)) (λ t session' le.
        h t session' (omega (arith, drop_shorter 7 b bs (content s) e, ap length c)))
  on_header_returns again session s out_of_fuel r h = elim r [ ]
  on_header_returns again session s failed r h = λ e. cc

  receive_returns :
      (fuel : ℕ) (s : stream.State) (session : Live host)
      → length (content s) < fuel
      → receive host stream fuel s session ≢ none
  unfolding receive
  receive_returns zero s session h = absurd (omega arith)
  receive_returns (suc fuel) s session h = elim (Bool-cases (host.is_terminated session.state)) [
    | inl y ↦ rw (y, receive) (λ e. cc)
    | inr y ↦
        rw (y, receive)
          (on_header_returns (receive host stream fuel) session s (read_exact stream s header_size)
            (read_exact_lem stream s header_size)
            (λ t session' k. receive_returns fuel t session' (omega arith)))
  ]

  -- The loop returns on every stream: one round more than the bytes of the stream is enough, as
  -- each round but the last takes a byte at least.
  pub receive_total :
      (s : stream.State) (session : Live host)
      → receive host stream (length (content s) + 1) s session ≢ none
  receive_total s session = receive_returns (length (content s) + 1) s session (omega arith)
