-- ===== src/Raft/Payload.antt =====
-- raft/proposal_payload.h and proposal_payload.cpp: how a write batch becomes the payload of a log
-- entry, and back.
pub mod RoundTrip
use hands_on_sqldb_in_cpp.Prelude.{
  ℕ, zero, suc, ◌==◌, not, Bool, true, false, ◌||◌, ◌&&◌, Option, none, some, List, [], ◌∷◌, ◌++◌,
  ltb, length, take, drop, if◌then◌else◌,
}
use hands_on_sqldb_in_cpp.Prelude.Order.{Bytes, bytes_lt, bytes_order, eqb}
use hands_on_sqldb_in_cpp.Raft.Types.{Error, Result, ok, err}
use hands_on_sqldb_in_cpp.Raft.Wire.{
  Reader, bind, ◌>>=◌, pure, reject, invalid, put_u8, put_u32, put_u64, put_bytes, read_be,
  take_bytes,
}
use hands_on_sqldb_in_cpp.Kv.Batch.{
  Key, ByteValue, OpType, put_op, remove_op, remove_range_op, Op, WriteBatch, empty_batch,
  batch_put, batch_remove, batch_remove_range,
}

pub record ProposalPayload : Type 0 where
  pub client_id : ℕ
  pub request_id : ℕ
  pub batch : WriteBatch

-- "SQRA"
abbrev pub magic : Bytes
magic = 83 ∷ 81 ∷ 82 ∷ 65 ∷ []

abbrev pub payload_version : ℕ
payload_version = 1

abbrev pub fixed_header_size : ℕ
fixed_header_size = 32

abbrev pub op_byte : OpType → ℕ
op_byte put_op = 1
op_byte remove_op = 2
op_byte remove_range_op = 3

abbrev pub put_value : Option ByteValue → Bytes
put_value (some value) = 1 ∷ put_bytes value
put_value none = 0 ∷ []

unfoldable pub put_op_bytes : Op → Bytes
put_op_bytes op =
    put_u8 (op_byte op.op_type)
    ++ (put_bytes op.pair.key ++ (put_value op.pair.value ++ put_bytes op.range_end))

unfoldable pub put_ops : List Op → Bytes
put_ops [] = []
put_ops (op ∷ ops) = put_op_bytes op ++ put_ops ops

unfoldable pub encode_proposal_payload : ProposalPayload → Bytes
encode_proposal_payload p =
    magic
    ++ (put_u32 payload_version
        ++ (put_u64 p.client_id
            ++ (put_u64 p.request_id ++ (put_u64 (length p.batch.ops) ++ put_ops p.batch.ops))))

-- The methods of the source's `Decoder`, with its one error.
abbrev truncated : Error
truncated = invalid "truncated proposal payload"

unfoldable pub decoder_u32 : Reader ℕ
decoder_u32 = read_be 4 truncated

unfoldable pub decoder_u64 : Reader ℕ
decoder_u64 = read_be 8 truncated

unfoldable pub decoder_u8 : Reader ℕ
decoder_u8 = read_be 1 truncated

unfoldable pub decoder_bytes : Reader Bytes
decoder_bytes = decoder_u64 >>= λ size. take_bytes size truncated

-- The value behind its presence flag.
unfoldable pub read_value : ℕ → Reader (Option ByteValue)
read_value has_value =
    if not (has_value == 0) && not (has_value == 1)
    then reject (invalid "invalid value presence flag")
    else if has_value == 1
    then (decoder_bytes >>= λ value. pure (some value))
    else pure none

-- The `switch` over the type, which adds the operation to the batch.
unfoldable pub apply_op : ℕ → Key → Option ByteValue → Key → WriteBatch → Reader WriteBatch
apply_op type key value range_end batch =
    if type == 1
    then elim value [
      | none ↦ reject (invalid "put operation has no value")
      | some v ↦ pure (batch_put key v batch)
    ]
    else if type == 2
    then pure (batch_remove key batch)
    else if type == 3
    then if not (bytes_lt key range_end)
      then reject (invalid "invalid remove_range bounds")
      else pure (batch_remove_range key range_end batch)
    else reject (invalid "unknown proposal operation type")

unfoldable pub read_op : WriteBatch → Reader WriteBatch
read_op batch = do
  type ← decoder_u8
  key ← decoder_bytes
  has_value ← decoder_u8
  value ← read_value has_value
  range_end ← decoder_bytes
  apply_op type key value range_end batch

unfoldable pub read_ops : ℕ → WriteBatch → Reader WriteBatch
read_ops zero batch = pure batch
read_ops (suc count) batch = read_op batch >>= read_ops count

abbrev check_version : ℕ → Reader (Unit {0})
check_version version =
    if version == payload_version
    then pure tt
    else reject (invalid "unsupported proposal payload version")

abbrev check_op_count : ℕ → ℕ → Reader (Unit {0})
check_op_count size op_count =
    if ltb size op_count then reject (invalid "invalid proposal payload op count") else pure tt

unfoldable pub read_proposal : ℕ → Reader ProposalPayload
read_proposal size = do
  version ← decoder_u32
  checked ← check_version version
  client_id ← decoder_u64
  request_id ← decoder_u64
  op_count ← decoder_u64
  checked ← check_op_count size op_count
  batch ← read_ops op_count empty_batch
  pure (record { client_id = client_id; request_id = request_id; batch = batch })

abbrev at_end : ProposalPayload × Bytes → Result ProposalPayload
at_end (p, []) = ok p
at_end (p, b ∷ bytes) = err (invalid "trailing bytes in proposal payload")

unfoldable pub decode_proposal_payload : Bytes → Result ProposalPayload
decode_proposal_payload bytes =
    if ltb (length bytes) fixed_header_size || not (eqb (take (length magic) bytes) magic)
    then err (invalid "invalid proposal payload magic")
    else bind (read_proposal (length bytes) (drop (length magic) bytes)) at_end
