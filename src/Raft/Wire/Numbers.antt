-- ===== src/Raft/Wire/Numbers.antt =====
-- What the writers write, the readers read back, whatever follows.
use mathlib.Core.List.{append_assoc}
use hands_on_sqldb_in_cpp.Prelude.{
  ℕ, ◌<◌, ◌≡◌, ◌^◌, refl, ap, Bool, true, false, [], ◌∷◌, ◌++◌, arith, length, take, drop,
  length-append, u64_mod,
}
use hands_on_sqldb_in_cpp.Prelude.Order.{Bytes}
use hands_on_sqldb_in_cpp.Raft.Types.{Error, ok}
use hands_on_sqldb_in_cpp.Raft.Wire.{
  put_be, be_value, read_be, put_u32, put_u64, put_bytes, read_u8, read_u32, read_u64, take_bytes,
  read_bytes, read_bool, bool_byte,
}

pub read_u8-put_u8 : (v : ℕ) (rest : Bytes) → read_u8 (v ∷ rest) ≡ ok (v, rest)
unfolding read_u8 be_value
read_u8-put_u8 v rest = ground arith

pub read_be-four :
    (v : ℕ) (e : Error) (rest : Bytes)
    → v < 2 ^ 32
    → read_be 4 e (put_be 4 v ++ rest) ≡ ok (v, rest)
unfolding read_be be_value put_be
read_be-four v e rest h = ground arith

pub read_be-eight :
    (v : ℕ) (e : Error) (rest : Bytes)
    → v < u64_mod
    → read_be 8 e (put_be 8 v ++ rest) ≡ ok (v, rest)
unfolding read_be be_value put_be
read_be-eight v e rest h = ground arith

pub read_u32-put_u32 :
    (v : ℕ) (rest : Bytes) → v < 2 ^ 32 → read_u32 (put_u32 v ++ rest) ≡ ok (v, rest)
unfolding read_u32 put_u32
read_u32-put_u32 v rest = read_be-four v _ rest

pub read_u64-put_u64 :
    (v : ℕ) (rest : Bytes) → v < u64_mod → read_u64 (put_u64 v ++ rest) ≡ ok (v, rest)
unfolding read_u64 put_u64
read_u64-put_u64 v rest = read_be-eight v _ rest

pub take-prefix : (xs ys : Bytes) → take (length xs) (xs ++ ys) ≡ xs
take-prefix [] ys = refl
take-prefix (x ∷ xs) ys = ap (λ (l : Bytes). x ∷ l) (take-prefix xs ys)

pub drop-prefix : (xs ys : Bytes) → drop (length xs) (xs ++ ys) ≡ ys
drop-prefix [] ys = refl
drop-prefix (x ∷ xs) ys = drop-prefix xs ys

pub take_bytes-append :
    (value : Bytes) (e : Error) (rest : Bytes)
    → take_bytes (length value) e (value ++ rest) ≡ ok (value, rest)
unfolding take_bytes
take_bytes-append value e rest =
    ground (arith, take-prefix value rest, drop-prefix value rest, length-append value rest)

pub read_bytes-put_bytes :
    (value rest : Bytes)
    → length value < u64_mod
    → read_bytes (put_bytes value ++ rest) ≡ ok (value, rest)
unfolding read_bytes put_bytes
read_bytes-put_bytes value rest h =
    rw
      (
        append_assoc (put_u64 (length value)) value rest,
        read_u64-put_u64 (length value) (value ++ rest) h,
      )
      (take_bytes-append value _ rest)

pub read_bool-bool_byte : (b : Bool) (rest : Bytes) → read_bool (bool_byte b ∷ rest) ≡ ok (b, rest)
unfolding read_bool
read_bool-bool_byte true rest = rw (read_u8-put_u8 1 rest) refl
read_bool-bool_byte false rest = rw (read_u8-put_u8 0 rest) refl

pub length-put_u64 : (v : ℕ) → length (put_u64 v) ≡ 8
unfolding put_u64 put_be
length-put_u64 v = refl
