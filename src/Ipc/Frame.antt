-- ===== src/Ipc/Frame.antt =====
-- dapper/ipc/ipc_binary.py: `pack_frame` and `unpack_header`. A byte is a number below 256.
use dapper.Base.{
  ℕ, ◌+◌, ◌*◌, ◌/◌, ◌%◌, ◌^◌, ◌<◌, ◌≡◌, refl, ap, not, ◌&&◌, List, [], ◌∷◌, ◌++◌, arith, ltb,
  nat_eq, ◌==◌, length, take, drop, All, if◌then◌else◌,
}

abbrev pub Bytes : Type 0
Bytes = List ℕ

abbrev pub IsBytes : Bytes → Type 0
IsBytes = All (λ b. b < 256)

pub data FrameError : Type 0 where
  byte_range length_range header_size_error bad_magic unsupported_version : FrameError

pub data Result {ℓ} (A : Type ℓ) : Type ℓ where
  ok : A → Result A
  err : FrameError → Result A

abbrev pub version : ℕ
version = 1

abbrev pub header_size : ℕ
header_size = 8

-- `struct.pack(">I", n)`, where n is in range
unfoldable pub pack_length : ℕ → Bytes
pack_length n = n / 2 ^ 24 ∷ (n / 2 ^ 16 % 256) ∷ (n / 2 ^ 8 % 256) ∷ (n % 256) ∷ []

-- The header of a frame; `bytes([VERSION, kind])` and `struct.pack` raise out of range.
unfoldable pub pack_header : ℕ → ℕ → Result Bytes
unfolding pack_length
pack_header kind size =
    if ltb kind 256
    then (if ltb size (2 ^ 32)
        then ok (b'D' ∷ b'P' ∷ version ∷ kind ∷ pack_length size)
        else err length_range)
    else err byte_range

abbrev with_payload : Result Bytes → Bytes → Result Bytes
with_payload (ok header) payload = ok (header ++ payload)
with_payload (err e) payload = err e

unfoldable pub pack_frame : ℕ → Bytes → Result Bytes
unfolding pack_header
pack_frame kind payload = with_payload (pack_header kind (length payload)) payload

-- The kind of a frame, and the length of its payload.
unfoldable pub unpack_header : Bytes → Result (ℕ × ℕ)
unpack_header (a ∷ b ∷ ver ∷ kind ∷ w ∷ x ∷ y ∷ z ∷ []) =
    if not (a == b'D' && b == b'P')
    then err bad_magic
    else if not (ver == version)
    then err unsupported_version
    else ok (kind, w * 2 ^ 24 + x * 2 ^ 16 + y * 2 ^ 8 + z)
unpack_header buf = err header_size_error

length_parts :
    (n : ℕ) → n / 16777216 * 16777216 + n / 65536 % 256 * 65536 + n / 256 % 256 * 256 + n % 256 ≡ n
length_parts n = omega arith

pub take-append : (xs ys : Bytes) → take (length xs) (xs ++ ys) ≡ xs
take-append [] ys = refl
take-append (x ∷ xs) ys = ap (◌∷◌ x) (take-append xs ys)

pub drop-append : (xs ys : Bytes) → drop (length xs) (xs ++ ys) ≡ ys
drop-append [] ys = refl
drop-append (x ∷ xs) ys = drop-append xs ys

-- The header of a packed frame.
pub frame_header :
    (kind : ℕ) (payload frame : Bytes)
    → pack_frame kind payload ≡ ok frame
    → (b : ℕ) × (bs : Bytes) × (frame ≡ (b ∷ bs) ++ payload)
      × (length (b ∷ bs) ≡ header_size)
      × (unpack_header (b ∷ bs) ≡ ok (kind, length payload))
unfolding pack_frame unpack_header
frame_header kind payload frame h = (
  b'D',
  b'P' ∷ version ∷ kind ∷ pack_length (length payload),
  ground arith,
  refl,
  ap (λ (n : ℕ). ok (kind, n)) (length_parts (length payload)),
)

-- A frame whose kind is a byte and whose payload is shorter than 2^32 is packed; its first eight
-- bytes give the kind and the length back, and the payload follows them.
pub unpack-pack :
    (kind : ℕ) (payload : Bytes)
    → kind < 256
    → length payload < 2 ^ 32
    → (frame : Bytes) × (pack_frame kind payload ≡ ok frame)
      × (unpack_header (take header_size frame) ≡ ok (kind, length payload))
      × (drop header_size frame ≡ payload)
unfolding pack_frame unpack_header
unpack-pack kind payload h k = (
  b'D' ∷ b'P' ∷ version ∷ kind ∷ pack_length (length payload) ++ payload,
  ground arith,
  ap (λ (n : ℕ). ok (kind, n)) (length_parts (length payload)),
  refl,
)

parts_of :
    (w x y z : ℕ)
    → w < 256
    → x < 256
    → y < 256
    → z < 256
    → let n = w * 16777216 + x * 65536 + y * 256 + z in
      (n / 16777216 ≡ w)
      × (n / 65536 % 256 ≡ x)
      × (n / 256 % 256 ≡ y)
      × (n % 256 ≡ z)
      × (n < 4294967296)
parts_of w x y z hw hx hy hz = omega arith

-- A header that is accepted is the one that `pack_frame` writes for its kind and its length.
pub pack-unpack :
    (buf : Bytes) (kind size : ℕ)
    → IsBytes buf
    → unpack_header buf ≡ ok (kind, size)
    → pack_header kind size ≡ ok buf
unfolding unpack_header pack_header
pack-unpack (a ∷ b ∷ ver ∷ k ∷ w ∷ x ∷ y ∷ z ∷ []) kind size bytes h =
    ground (arith, parts_of w x y z)
pack-unpack _ kind size bytes h = absurd (cc)
