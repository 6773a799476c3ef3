-- ===== src/Tests/Ipc.antt =====
-- A stream that gives three bytes at a time, and a host that counts the commands.
use dapper.Base.{
  ℕ, zero, suc, ◌+◌, ◌≤◌, ◌<◌, ◌≡◌, ◌≢◌, refl, ap, ◌∙◌, false, none, some, List, [], ◌∷◌, ◌++◌,
  arith, length, take, drop, min,
}
use dapper.Ipc.Frame.{Bytes, ok, header_size, pack_length, pack_frame, unpack_header, unpack-pack}
use dapper.Ipc.Stream.{Stream, Chunk, got, Reads, read_exact, read_exact_lem, IsReliable}
use dapper.Ipc.Receiver.{Host, handled, Live, receive}
use dapper.Ipc.Receiver.Totality.{receive_total}
use dapper.Ipc.Receiver.Delivery.{
  Encodes, no_frames, one_more, deliver, receive-deliver, receive_empty_payload,
}

abbrev payload : Bytes
payload = 104 ∷ 105 ∷ []

unpack-pack_example :
    (frame : Bytes) × (pack_frame 2 payload ≡ ok frame)
    × (unpack_header (take header_size frame) ≡ ok (2, length payload))
    × (drop header_size frame ≡ payload)
unpack-pack_example = unpack-pack 2 payload (omega arith) (omega arith)

abbrev header : Bytes
header = 68 ∷ 80 ∷ 1 ∷ 2 ∷ 0 ∷ 0 ∷ 1 ∷ 4 ∷ []

take-drop : (n : ℕ) (s : Bytes) → s ≡ take n s ++ drop n s
take-drop zero s = refl
take-drop (suc n) [] = refl
take-drop (suc n) (b ∷ s) = ap (◌∷◌ b) (take-drop n s)

length-take : (n : ℕ) (s : Bytes) → length (take n s) ≤ n
length-take zero s = omega arith
length-take (suc n) [] = omega arith
length-take (suc n) (b ∷ s) = omega (arith, length-take n s)

take_empty : (n : ℕ) (s : Bytes) → 0 < n → take n s ≡ [] → s ≡ []
take_empty zero s pos h = absurd (omega arith)
take_empty (suc n) [] pos h = refl
take_empty (suc n) (b ∷ s) pos h = absurd (cc)

got_inv : {xs ys : Bytes} {s t : Bytes} → got xs s ≡ got ys t → (xs ≡ ys) × (s ≡ t)
got_inv h = (cc, cc)

abbrev read_three : Bytes → ℕ → Chunk Bytes
read_three s n = got (take (min n 3) s) (drop (min n 3) s)

abbrev three_at_a_time : Stream
three_at_a_time = record {
  State = Bytes;
  read = read_three;
  content = λ s. s;
  splits = λ s s' n chunk h.
      let (a, b) = got_inv h in
      take-drop (min n 3) s ∙ ap (λ xs. xs ++ drop (min n 3) s) a ∙ ap (◌++◌ chunk) b;
  bounded = λ s s' n chunk h.
      let (a, b) = got_inv h in omega (arith, length-take (min n 3) s, ap length a);
  at_end = λ s s' n pos h. let (a, b) = got_inv h in take_empty (min n 3) s (omega arith) a;
}

reliable : IsReliable three_at_a_time
reliable s n h = cc

abbrev counter : Host
counter = record {
  State = ℕ;
  Command = ℕ;
  parse = λ bytes. some (length bytes);
  is_terminated = λ n. false;
  dispatch = λ n command. (handled, n + command);
}

abbrev start : Live counter
start = record { state = 0; command_queue = []; messages = []; exits = [] }

abbrev frame_of : ℕ → Bytes → Bytes
unfolding pack_length
frame_of kind bytes = 68 ∷ 80 ∷ 1 ∷ kind ∷ pack_length (length bytes) ++ bytes

abbrev two_frames : List (ℕ × Bytes)
two_frames = (2, 123 ∷ 125 ∷ []) ∷ (1, 120 ∷ []) ∷ []

abbrev two_frames_bytes : Bytes
two_frames_bytes = frame_of 2 (123 ∷ 125 ∷ []) ++ frame_of 1 (120 ∷ []) ++ []

two_frames-Encodes : Encodes two_frames two_frames_bytes
unfolding pack_frame
two_frames-Encodes = one_more refl refl (one_more refl refl no_frames)

read_exact_example : Reads three_at_a_time header 8 [] (read_exact three_at_a_time header 8)
read_exact_example = read_exact_lem three_at_a_time header 8

receive_total_example :
    receive counter three_at_a_time (length two_frames_bytes + 1) two_frames_bytes start ≢ none
receive_total_example = receive_total counter three_at_a_time two_frames_bytes start

receive-deliver_example :
    receive counter three_at_a_time (length two_frames + 1) two_frames_bytes start
    ≡ some (deliver counter two_frames start)
receive-deliver_example =
    receive-deliver counter three_at_a_time reliable two_frames two_frames_bytes two_frames_bytes
      start two_frames-Encodes refl

abbrev empty_first : List (ℕ × Bytes)
empty_first = (2, []) ∷ two_frames

abbrev empty_first_bytes : Bytes
empty_first_bytes = frame_of 2 [] ++ two_frames_bytes

empty_first-Encodes : Encodes empty_first empty_first_bytes
unfolding pack_frame
empty_first-Encodes = one_more refl refl two_frames-Encodes

receive_empty_payload_example :
    receive counter three_at_a_time (length two_frames + 2) empty_first_bytes start
    ≡ some (record start { exits = [] ++ 0 ∷ [] })
receive_empty_payload_example =
    receive_empty_payload counter three_at_a_time reliable 2 two_frames empty_first_bytes
      empty_first_bytes start empty_first-Encodes refl refl
