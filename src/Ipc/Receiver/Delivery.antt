-- ===== src/Ipc/Receiver/Delivery.antt =====
-- What the receive loop does with a stream that holds frames.
use dapper.Base.{
  ℕ, zero, suc, ◌+◌, ◌<◌, ◌≡◌, refl, ap, ◌∙◌, true, false, some, List, [], ◌∷◌, ◌++◌, arith, nat_eq,
  ◌==◌, length, take, Bool-cases, inl, inr,
}
use mathlib.Core.List.{append_assoc}
use dapper.Ipc.Frame.{Bytes, ok, header_size, pack_frame, frame_header, take-append, drop-append}
use dapper.Ipc.Stream.{Stream, done, read_exact, read_exact_lem, IsReliable, Reads-done}
use dapper.Ipc.Receiver.{
  Host, Live, Next, go_on, stop, kind_command, exit_if_alive, receive_command, Again, after_command,
  on_payload, on_frame, on_header, receive,
}

-- The bytes of a sequence of frames, each a kind and a payload.
pub data Encodes : List (ℕ × Bytes) → Bytes → Type 0 where
  no_frames : Encodes [] []
  one_more :
      {kind : ℕ} {payload frame rest bytes : Bytes} {frames : List (ℕ × Bytes)}
      → pack_frame kind payload ≡ ok frame
      → bytes ≡ frame ++ rest
      → Encodes frames rest
      → Encodes ((kind, payload) ∷ frames) bytes

module _ (host : Host) where
  -- What is promised for a sequence of frames: until the session is terminated or a handler exits,
  -- the commands are handled in order and the frames of other kinds are passed over; at the end of
  -- the frames, or at one with an empty payload, the process exits.
  unfoldable pub deliver : List (ℕ × Bytes) → Live host → Live host
  deliver [] session = exit_if_alive host session 0
  deliver ((kind, payload) ∷ frames) session = elim (host.is_terminated session.state) [
    | true ↦ session
    | false ↦ elim payload [
      | [] ↦ exit_if_alive host session 0
      | b ∷ bs ↦ elim (kind == kind_command) [
        | false ↦ deliver frames session
        | true ↦ elim (receive_command host session (b ∷ bs)) [
          | go_on session' ↦ deliver frames session'
          | stop session' ↦ session'
        ]
      ]
    ]
  ]

module _ (host : Host) (stream : Stream) (reliable : IsReliable stream) where
  open stream use {content}

  Delivers : Again host stream → List (ℕ × Bytes) → Bytes → Type 0
  Delivers again frames bytes =
      (s : stream.State) (session : Live host)
      → content s ≡ bytes
      → again s session ≡ some (deliver host frames session)

  read_prefix :
      (s : stream.State) (n : ℕ) (xs ys : Bytes)
      → content s ≡ xs ++ ys
      → length xs ≡ n
      → (s' : stream.State) × (read_exact stream s n ≡ done xs s') × (content s' ≡ ys)
  read_prefix s n xs ys e k =
      let (s', o, c) = Reads-done stream reliable (read_exact_lem stream s n) in
      (
        s',
        o ∙ ap (λ (bs : Bytes). done bs s') (rw (e, ← k) (take-append xs ys)),
        c ∙ rw (e, ← k) (drop-append xs ys),
      )

  after_command-Delivers :
      (again : Again host stream) (rest : Bytes) (frames : List (ℕ × Bytes)) (s : stream.State)
      (next : Next host)
      → content s ≡ rest
      → Delivers again frames rest
      → after_command host stream again s next
        ≡ some (elim next [ go_on session ↦ deliver host frames session | stop session ↦ session ])
  unfolding after_command Delivers
  after_command-Delivers again rest frames s (go_on session) e h = h s session e
  after_command-Delivers again rest frames s (stop session) e h = refl

  on_payload-Delivers :
      (again : Again host stream) (session : Live host) (kind : ℕ) (payload rest : Bytes)
      (frames : List (ℕ × Bytes)) (s : stream.State)
      → host.is_terminated session.state ≡ false
      → content s ≡ rest
      → Delivers again frames rest
      → on_payload host stream again session kind (done payload s)
        ≡ some (deliver host ((kind, payload) ∷ frames) session)
  unfolding on_payload deliver Delivers
  on_payload-Delivers again session kind [] rest frames s live e h = ground arith
  on_payload-Delivers again session kind (b ∷ bs) rest frames s live e h = ground (
    arith,
    h s session e,
    after_command-Delivers again rest frames s (receive_command host session (b ∷ bs)) e h,
  )

  on_header-Delivers :
      (again : Again host stream) (session : Live host) (kind : ℕ) (payload frame rest : Bytes)
      (frames : List (ℕ × Bytes)) (s : stream.State)
      → host.is_terminated session.state ≡ false
      → pack_frame kind payload ≡ ok frame
      → content s ≡ frame ++ rest
      → Delivers again frames rest
      → on_header host stream again session (read_exact stream s header_size)
        ≡ some (deliver host ((kind, payload) ∷ frames) session)
  unfolding on_header on_frame
  on_header-Delivers again session kind payload frame rest frames s live packed e h =
      let (b, bs, shape, size, unpacked) = frame_header kind payload frame packed in
      let (s', first, after) =
        read_prefix s header_size (b ∷ bs) (payload ++ rest)
          (e ∙ ap (λ xs. xs ++ rest) shape ∙ append_assoc (b ∷ bs) payload rest) size in
      let (s'', second, behind) = read_prefix s' (length payload) payload rest after refl in
      rw (first, unpacked, on_frame, second)
        (on_payload-Delivers again session kind payload rest frames s'' live behind h)

  receive-Delivers :
      (fuel : ℕ) {frames : List (ℕ × Bytes)} {bytes : Bytes}
      → Encodes frames bytes
      → length frames < fuel
      → Delivers (receive host stream fuel) frames bytes
  unfolding receive Delivers deliver
  receive-Delivers zero c h s session e = absurd (omega arith)
  receive-Delivers (suc fuel) no_frames h s session e =
      let (s', first, after) = Reads-done stream reliable (read_exact_lem stream s header_size) in
      let nothing : read_exact stream s header_size ≡ done [] s' =
        first ∙ ap (λ (xs : Bytes). done (take header_size xs) s') e in
      ground (arith, nothing)
  receive-Delivers (suc fuel) (one_more packed shape c) h s session e =
      elim (Bool-cases (host.is_terminated session.state)) [
        | inl y ↦ ground arith
        | inr y ↦
            rw (y, receive)
              (on_header-Delivers (receive host stream fuel) session _ _ _ _ _ s y packed
                (e ∙ shape) (λ t session' k. receive-Delivers fuel c (omega arith) t session' k))
      ]

  -- From a stream that does not fail and that holds exactly some frames, the loop handles the
  -- commands among them in order, as `deliver` says, and one round for each frame and one more is
  -- enough.
  pub receive-deliver :
      (frames : List (ℕ × Bytes)) (bytes : Bytes) (s : stream.State) (session : Live host)
      → Encodes frames bytes
      → content s ≡ bytes
      → receive host stream (length frames + 1) s session ≡ some (deliver host frames session)
  unfolding Delivers
  receive-deliver frames bytes s session c e =
      receive-Delivers (length frames + 1) c (omega arith) s session e

  deliver_empty_payload :
      (kind : ℕ) (frames : List (ℕ × Bytes)) (session : Live host)
      → host.is_terminated session.state ≡ false
      → deliver host ((kind, []) ∷ frames) session
        ≡ record session { exits = session.exits ++ 0 ∷ [] }
  unfolding deliver exit_if_alive
  deliver_empty_payload kind frames session live = ground arith

  -- A frame of any kind with an empty payload ends a live session as the end of the stream does:
  -- the process exits with status 0, and what follows the frame is never looked at.
  pub receive_empty_payload :
      (kind : ℕ) (frames : List (ℕ × Bytes)) (bytes : Bytes) (s : stream.State)
      (session : Live host)
      → Encodes ((kind, []) ∷ frames) bytes
      → content s ≡ bytes
      → host.is_terminated session.state ≡ false
      → receive host stream (length frames + 2) s session
        ≡ some (record session { exits = session.exits ++ 0 ∷ [] })
  unfolding Delivers
  receive_empty_payload kind frames bytes s session c e live =
      receive-Delivers (length frames + 2) c (omega arith) s session e
      ∙ ap some (deliver_empty_payload kind frames session live)
