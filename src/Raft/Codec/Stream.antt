-- ===== src/Raft/Codec/Stream.antt =====
-- What the decoder of frames makes of a byte stream, however it is cut into pieces.
use hands_on_sqldb_in_cpp.Prelude.{
  ℕ, zero, suc, ◌+◌, ◌-◌, ◌<◌, ◌≤◌, ◌≡◌, refl, ap, sym, ◌∙◌, none, some, [], ◌∷◌, ◌++◌, arith, ltb,
  inl, inr, subst, Bool-cases, ltb→lt, length, drop, length-append, length-drop,
}
use hands_on_sqldb_in_cpp.Prelude.Order.{Bytes}
use hands_on_sqldb_in_cpp.Raft.Types.{ok}
use hands_on_sqldb_in_cpp.Raft.Wire.{put_u32, read_u32, put_be, be_value, read_be}
use hands_on_sqldb_in_cpp.Raft.Wire.Numbers.{read_u32-put_u32, take-prefix, drop-prefix}
use hands_on_sqldb_in_cpp.Raft.Codec.{
  frame_payload, max_frame_bytes, FrameDecoder, append, consume, take_frame, pending, next,
}
use mathlib.Core.List.{append_assoc}

-- The mark stays inside of the buffer.
abbrev pub IsValid : FrameDecoder → Type 0
IsValid d = d.consumed ≤ length d.buffer

drop-append : (n : ℕ) (xs ys : Bytes) → n ≤ length xs → drop n (xs ++ ys) ≡ drop n xs ++ ys
drop-append zero xs ys h = refl
drop-append (suc n) [] ys h = ground (arith, h)
drop-append (suc n) (x ∷ xs) ys h = drop-append n xs ys (omega (arith, h))

drop-nil : (n : ℕ) → drop {A = ℕ} n [] ≡ []
drop-nil zero = refl
drop-nil (suc n) = refl

drop-drop : (n k : ℕ) (xs : Bytes) → drop (n + k) xs ≡ drop k (drop n xs)
drop-drop zero k xs = ground arith
drop-drop (suc n) k [] = ground (arith, drop-nil k, drop-nil (suc n + k))
drop-drop (suc n) k (x ∷ xs) =
    let shift : suc n + k ≡ suc (n + k) = omega arith in rw shift (drop-drop n k xs)

-- A piece of the stream is added behind the bytes that wait.
pending-append :
    (bytes : Bytes) (d : FrameDecoder) → IsValid d → pending (append bytes d) ≡ pending d ++ bytes
unfolding pending append
pending-append bytes d h = drop-append d.consumed d.buffer bytes h

append-IsValid : (bytes : Bytes) (d : FrameDecoder) → IsValid d → IsValid (append bytes d)
unfolding append
append-IsValid bytes d h = omega (arith, h, length-append d.buffer bytes)

drop-all : (n : ℕ) (xs : Bytes) → length xs ≤ n → drop n xs ≡ []
drop-all zero [] h = refl
drop-all zero (x ∷ xs) h = ground (arith, h)
drop-all (suc n) [] h = refl
drop-all (suc n) (x ∷ xs) h = drop-all n xs (omega (arith, h))

consume-IsValid :
    (n : ℕ) (d : FrameDecoder) → d.consumed + n ≤ length d.buffer → IsValid (consume n d)
unfolding consume
consume-IsValid n d h = ground (arith, h)

pending-consume : (n : ℕ) (d : FrameDecoder) → pending (consume n d) ≡ drop n (pending d)
unfolding consume pending
pending-consume n d =
    ground (arith, drop-drop d.consumed n d.buffer, drop-all (d.consumed + n) d.buffer)

-- Four bytes are a number, whatever follows them.
read_u32-append :
    (bytes more : Bytes) (size : ℕ) (rest : Bytes)
    → 4 ≤ length bytes
    → read_u32 (bytes ++ more) ≡ ok (size, rest)
    → read_u32 bytes ≡ ok (size, drop 4 bytes)
unfolding read_u32 read_be be_value
read_u32-append (a ∷ b ∷ c ∷ e ∷ bytes) more size rest h k = ground arith
read_u32-append [] more size rest h k = ground (arith, h)
read_u32-append (a ∷ []) more size rest h k = ground (arith, h)
read_u32-append (a ∷ b ∷ []) more size rest h k = ground (arith, h)
read_u32-append (a ∷ b ∷ c ∷ []) more size rest h k = ground (arith, h)

length-pending : (d : FrameDecoder) → length (pending d) ≡ length d.buffer - d.consumed
unfolding pending
length-pending d = length-drop d.consumed d.buffer

length-frame_payload : (payload : Bytes) → length (frame_payload payload) ≡ 4 + length payload
unfolding frame_payload put_u32 put_be
length-frame_payload payload = ground arith

take_frame-append :
    (d : FrameDecoder) (payload rest : Bytes)
    → length payload ≤ max_frame_bytes
    → take_frame (length payload, payload ++ rest) d
      ≡ (ok (some payload), consume (4 + length payload) d)
unfolding take_frame
take_frame-append d payload rest h =
    ground (arith, h, length-append payload rest, take-prefix payload rest)

next-of :
    (d : FrameDecoder) (size : ℕ) (rest : Bytes)
    → 4 ≤ length (pending d)
    → read_u32 (pending d) ≡ ok (size, rest)
    → next d ≡ take_frame (size, rest) d
unfolding next
next-of d size rest h e = ground (arith, h, e)

read_u32-frame_payload :
    (payload rest : Bytes)
    → length payload ≤ max_frame_bytes
    → read_u32 (frame_payload payload ++ rest) ≡ ok (length payload, payload ++ rest)
unfolding frame_payload
read_u32-frame_payload payload rest h =
    rw (append_assoc (put_u32 (length payload)) payload rest)
      (read_u32-put_u32 (length payload) (payload ++ rest) (omega (arith, h)))

take_frame-short :
    (d : FrameDecoder) (size : ℕ) (rest : Bytes)
    → size ≤ max_frame_bytes
    → length rest < size
    → take_frame (size, rest) d ≡ (ok none, d)
unfolding take_frame
take_frame-short d size rest h k = ground (arith, h, k)

next-short : (d : FrameDecoder) → length (pending d) < 4 → next d ≡ (ok none, d)
unfolding next
next-short d h = ground (arith, h)

-- A decoder in front of whose bytes stands a whole frame, of a payload within the limit, gives
-- that payload and leaves what follows the frame, and its mark stays inside of the buffer.
pub next-frame_payload :
    (d : FrameDecoder) (payload rest : Bytes)
    → IsValid d
    → length payload ≤ max_frame_bytes
    → pending d ≡ frame_payload payload ++ rest
    → ((next d).0 ≡ ok (some payload)) × (pending (next d).1 ≡ rest) × IsValid (next d).1
next-frame_payload d payload rest v h e =
    let size = length payload in
    let long : length (pending d) ≡ 4 + size + length rest =
      ap length e
      ∙ (length-append (frame_payload payload) rest
          ∙ ap (λ (k : ℕ). k + length rest) (length-frame_payload payload)) in
    let room : d.consumed + (4 + size) ≤ length d.buffer =
      omega (arith, v, long, length-pending d) in
    let taken : next d ≡ (ok (some payload), consume (4 + size) d) =
      next-of d size (payload ++ rest) (omega (arith, long))
        (ap read_u32 e ∙ read_u32-frame_payload payload rest h)
      ∙ take_frame-append d payload rest h in
    rw taken (
      refl,
      pending-consume (4 + size) d
          ∙ (ap (drop (4 + size)) e
              ∙ (ap (λ (k : ℕ). drop k (frame_payload payload ++ rest))
                    (sym (length-frame_payload payload))
                  ∙ drop-prefix (frame_payload payload) rest)),
      consume-IsValid (4 + size) d room,
    )

next-long :
    (d : FrameDecoder) (payload more : Bytes)
    → 0 < length more
    → length payload ≤ max_frame_bytes
    → frame_payload payload ≡ pending d ++ more
    → 4 ≤ length (pending d)
    → next d ≡ (ok none, d)
unfolding frame_payload
next-long d payload more v h e long =
    let whole : read_u32 (pending d ++ more) ≡ ok (length payload, payload) =
      subst (λ (b : Bytes). read_u32 b ≡ ok (length payload, payload)) e
        (read_u32-put_u32 (length payload) payload (omega (arith, h))) in
    let sizes : 4 + length payload ≡ length (pending d) + length more =
      sym (length-frame_payload payload) ∙ (ap length e ∙ length-append (pending d) more) in
    next-of d (length payload) (drop 4 (pending d)) long
      (read_u32-append (pending d) more (length payload) payload long whole)
    ∙ take_frame-short d (length payload) (drop 4 (pending d)) h
        (omega (arith, v, sizes, long, length-drop 4 (pending d)))

-- A decoder whose bytes are a part of a frame, of a payload within the limit, waits: it reports no
-- frame and no error, and stays as it is.
next-incomplete :
    (d : FrameDecoder) (payload more : Bytes)
    → 0 < length more
    → length payload ≤ max_frame_bytes
    → frame_payload payload ≡ pending d ++ more
    → next d ≡ (ok none, d)
next-incomplete d payload more v h e = elim (Bool-cases (ltb (length (pending d)) 4)) [
  | inl short ↦ next-short d (omega (arith, ltb→lt (length (pending d)) 4 short))
  | inr long ↦ next-long d payload more v h e (ground arith)
]
