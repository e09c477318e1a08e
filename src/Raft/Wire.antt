-- ===== src/Raft/Wire.antt =====
-- raft/message_codec.cpp: the readers and writers of big-endian numbers and byte strings. A reader
-- takes the bytes that are left, in place of the source's text and offset.
pub mod Numbers
use hands_on_sqldb_in_cpp.Prelude.{
  ℕ, zero, suc, ◌+◌, ◌*◌, ◌/◌, ◌%◌, ◌^◌, ◌==◌, String, Bool, true, false, List, [], ◌∷◌, ◌++◌, ltb,
  length, take, drop, if◌then◌else◌,
}
use hands_on_sqldb_in_cpp.Prelude.Order.{Bytes}
use hands_on_sqldb_in_cpp.Raft.Types.{Error, invalid_argument, Result, ok, err}

abbrev pub Reader : Type 0 → Type 0
Reader A = Bytes → Result (A × Bytes)

infixl 5 ◌>>=◌
abbrev pub bind {ℓ κ} : {A : Type ℓ} {B : Type κ} → Result A → (A → Result B) → Result B
bind (ok a) f = f a
bind (err e) f = err e

abbrev pub ◌>>=◌ : {A B : Type 0} → Reader A → (A → Reader B) → Reader B
◌>>=◌ r f bytes = bind (r bytes) (λ p. f p.0 p.1)

abbrev pub pure : {A : Type 0} → A → Reader A
pure a bytes = ok (a, bytes)

abbrev pub reject : {A : Type 0} → Error → Reader A
reject e bytes = err e

abbrev pub invalid : String → Error
invalid message = record { code = invalid_argument; message = message }

-- The loop over the shifts, from the highest byte to the lowest.
unfoldable pub put_be : ℕ → ℕ → Bytes
put_be zero v = []
put_be (suc k) v = v / 2 ^ (8 * k) % 256 ∷ put_be k v

-- The loop `result = (result << 8) | byte` over the next bytes.
unfoldable pub be_value : ℕ → ℕ → Bytes → ℕ
be_value zero result bytes = result
be_value (suc k) result [] = result
be_value (suc k) result (b ∷ bytes) = be_value k (result * 256 + b) bytes

unfoldable pub read_be : ℕ → Error → Reader ℕ
unfolding be_value
read_be width truncated bytes =
    if ltb (length bytes) width
    then err truncated
    else ok (be_value width 0 bytes, drop width bytes)

abbrev pub put_u8 : ℕ → Bytes
put_u8 v = v ∷ []

unfoldable pub put_u32 : ℕ → Bytes
unfolding put_be
put_u32 = put_be 4

unfoldable pub put_u64 : ℕ → Bytes
unfolding put_be
put_u64 = put_be 8

unfoldable pub put_bytes : Bytes → Bytes
put_bytes value = put_u64 (length value) ++ value

unfoldable pub read_u8 : Reader ℕ
unfolding read_be
read_u8 = read_be 1 (invalid "truncated raft message while reading u8")

unfoldable pub read_u32 : Reader ℕ
unfolding read_be
read_u32 = read_be 4 (invalid "truncated raft message while reading u32")

unfoldable pub read_u64 : Reader ℕ
unfolding read_be
read_u64 = read_be 8 (invalid "truncated raft message while reading u64")

-- A byte string of a known size.
unfoldable pub take_bytes : ℕ → Error → Reader Bytes
take_bytes size truncated bytes =
    if ltb (length bytes) size then err truncated else ok (take size bytes, drop size bytes)

unfoldable pub read_bytes : Reader Bytes
read_bytes = read_u64 >>= λ size.
    take_bytes size (invalid "truncated raft message while reading byte string")

unfoldable pub read_bool : Reader Bool
read_bool = read_u8 >>= λ value.
    if ltb 1 value
    then reject (invalid "malformed raft message: boolean must be 0 or 1")
    else pure (value == 1)

abbrev pub bool_byte : Bool → ℕ
bool_byte b = if b then 1 else 0
