-- ===== src/Raft/Payload/RoundTrip.antt =====
-- A proposal that is encoded and decoded again is the same proposal.
use mathlib.Core.List.{append_assoc, append-nil}
use hands_on_sqldb_in_cpp.Prelude.{
  ℕ, ◌+◌, ◌<◌, ◌≤◌, ◌≡◌, refl, true, false, List, [], ◌∷◌, ◌++◌, arith, ltb, length, length-append,
  u64_mod, ◌^◌,
}
use hands_on_sqldb_in_cpp.Prelude.Order.{Bytes, bytes_lt, eqb}
use hands_on_sqldb_in_cpp.Raft.Types.{ok}
use hands_on_sqldb_in_cpp.Raft.Wire.{put_u32, put_u64, put_bytes, read_be, be_value, put_be}
use hands_on_sqldb_in_cpp.Raft.Wire.Numbers.{
  read_be-four, read_be-eight, take_bytes-append, length-put_u64,
}
use hands_on_sqldb_in_cpp.Kv.Batch.{
  Op, WriteBatch, empty_batch, make_put, make_remove, make_remove_range, batch_put, batch_remove,
  batch_remove_range,
}
use hands_on_sqldb_in_cpp.Raft.Payload.{
  ProposalPayload, magic, put_value, payload_version, put_op_bytes, put_ops,
  encode_proposal_payload, decoder_u8, decoder_u32, decoder_u64, decoder_bytes, read_value,
  apply_op, read_op, read_ops, read_proposal, decode_proposal_payload,
}

-- The operations that the methods of a batch make, of byte strings whose lengths are 64 bits wide,
-- and for a range with its begin before its end.
pub data IsSent : Op → Type 0 where
  sent_put :
      (key value : Bytes)
      → length key < u64_mod
      → length value < u64_mod
      → IsSent (make_put key value)
  sent_remove : (key : Bytes) → length key < u64_mod → IsSent (make_remove key)
  sent_remove_range :
      (begin end : Bytes)
      → length begin < u64_mod
      → length end < u64_mod
      → bytes_lt begin end ≡ true
      → IsSent (make_remove_range begin end)

abbrev pub AllSent : List Op → Type 0
AllSent [] = Unit {0}
AllSent (op ∷ ops) = IsSent op × AllSent ops

decoder_u8-byte : (v : ℕ) (rest : Bytes) → decoder_u8 (v ∷ rest) ≡ ok (v, rest)
unfolding decoder_u8 read_be be_value
decoder_u8-byte v rest = ground arith

decoder_u32-put_u32 :
    (v : ℕ) (rest : Bytes) → v < 2 ^ 32 → decoder_u32 (put_u32 v ++ rest) ≡ ok (v, rest)
unfolding decoder_u32 put_u32
decoder_u32-put_u32 v rest = read_be-four v _ rest

decoder_u64-put_u64 :
    (v : ℕ) (rest : Bytes) → v < u64_mod → decoder_u64 (put_u64 v ++ rest) ≡ ok (v, rest)
unfolding decoder_u64 put_u64
decoder_u64-put_u64 v rest = read_be-eight v _ rest

decoder_bytes-put_bytes :
    (value rest : Bytes)
    → length value < u64_mod
    → decoder_bytes (put_bytes value ++ rest) ≡ ok (value, rest)
unfolding decoder_bytes put_bytes
decoder_bytes-put_bytes value rest h =
    rw
      (
        append_assoc (put_u64 (length value)) value rest,
        decoder_u64-put_u64 (length value) (value ++ rest) h,
      )
      (take_bytes-append value _ rest)

-- One operation is read back, and added to the batch.
read_op-put_op_bytes :
    (op : Op) (batch : WriteBatch) (rest : Bytes)
    → IsSent op
    → read_op batch (put_op_bytes op ++ rest)
      ≡ ok (record batch { ops = batch.ops ++ op ∷ [] }, rest)
unfolding read_op put_op_bytes read_value apply_op batch_put batch_remove batch_remove_range
read_op-put_op_bytes op batch rest (sent_put key value h k) =
    rw
      (
        decoder_u8-byte 1,
        append_assoc (put_bytes key) (1 ∷ (put_bytes value ++ put_bytes [])) rest,
        decoder_bytes-put_bytes key _ h,
        decoder_u8-byte 1,
        append_assoc (put_bytes value) (put_bytes []) rest,
        decoder_bytes-put_bytes value _ k,
        decoder_bytes-put_bytes [] rest (omega arith),
      )
      refl
read_op-put_op_bytes op batch rest (sent_remove key h) =
    rw
      (
        decoder_u8-byte 2,
        append_assoc (put_bytes key) (0 ∷ put_bytes []) rest,
        decoder_bytes-put_bytes key _ h,
        decoder_u8-byte 0,
        decoder_bytes-put_bytes [] rest (omega arith),
      )
      refl
read_op-put_op_bytes op batch rest (sent_remove_range begin end h k l) =
    rw
      (
        decoder_u8-byte 3,
        append_assoc (put_bytes begin) (0 ∷ put_bytes end) rest,
        decoder_bytes-put_bytes begin _ h,
        decoder_u8-byte 0,
        decoder_bytes-put_bytes end rest k,
        l,
      )
      refl

read_ops-put_ops :
    (ops : List Op) (batch : WriteBatch)
    → AllSent ops
    → read_ops (length ops) batch (put_ops ops) ≡ ok (record batch { ops = batch.ops ++ ops }, [])
unfolding read_ops put_ops
read_ops-put_ops [] batch s = rw (append-nil batch.ops) refl
read_ops-put_ops (op ∷ ops) batch (s, t) =
    let next_batch : WriteBatch = record batch { ops = batch.ops ++ op ∷ [] } in
    rw
      (
        read_op-put_op_bytes op batch (put_ops ops) s,
        read_ops-put_ops ops next_batch t,
        append_assoc batch.ops (op ∷ []) ops,
      )
      refl

length-put_ops : (ops : List Op) → length ops ≤ length (put_ops ops)
unfolding put_ops put_op_bytes
length-put_ops [] = omega arith
length-put_ops (op ∷ ops) =
    let fields = put_bytes op.pair.key ++ (put_value op.pair.value ++ put_bytes op.range_end) in
    omega (arith, length-append fields (put_ops ops), length-put_ops ops)

length-header :
    (client_id request_id : ℕ) (ops : List Op)
    → 28 + length ops
      ≤ length (
          put_u32 payload_version
          ++ (put_u64 client_id ++ (put_u64 request_id ++ (put_u64 (length ops) ++ put_ops ops))))
unfolding put_u32 put_be
length-header client_id request_id ops =
    let a = put_u64 (length ops) ++ put_ops ops in
    let b = put_u64 request_id ++ a in
    omega (
      arith,
      length-append (put_u64 client_id) b,
      length-append (put_u64 request_id) a,
      length-append (put_u64 (length ops)) (put_ops ops),
      length-put_u64 client_id,
      length-put_u64 request_id,
      length-put_u64 (length ops),
      length-put_ops ops,
    )

-- Behind the magic, the bytes are read as a proposal.
decode-magic :
    (p : ProposalPayload) (rest : Bytes)
    → 28 ≤ length rest
    → read_proposal (4 + length rest) rest ≡ ok (p, [])
    → decode_proposal_payload (magic ++ rest) ≡ ok p
unfolding decode_proposal_payload eqb bytes_lt
decode-magic p rest h k = ground (arith, h, k)

read_proposal-fields :
    (p : ProposalPayload) (size : ℕ)
    → p.client_id < u64_mod
    → p.request_id < u64_mod
    → length p.batch.ops < u64_mod
    → AllSent p.batch.ops
    → length p.batch.ops ≤ size
    → read_proposal size (
        put_u32 payload_version
        ++ (put_u64 p.client_id
            ++ (put_u64 p.request_id ++ (put_u64 (length p.batch.ops) ++ put_ops p.batch.ops))))
      ≡ ok (record p { batch = record { ops = p.batch.ops; sync = false } }, [])
unfolding read_proposal
read_proposal-fields p size h k l s m =
    let small : ltb size (length p.batch.ops) ≡ false = ground (arith, m) in
    rw
      (
        decoder_u32-put_u32 payload_version _ (omega arith),
        decoder_u64-put_u64 p.client_id _ h,
        decoder_u64-put_u64 p.request_id _ k,
        decoder_u64-put_u64 (length p.batch.ops) (put_ops p.batch.ops) l,
        small,
        read_ops-put_ops p.batch.ops empty_batch s,
      )
      refl

-- A follower that decodes an encoded proposal gets the ids and the operations back, in their order,
-- if the ids and the lengths are 64 bits wide and the operations were made by the methods of a
-- batch, with the begin of a removed range before its end. The sync flag is not sent.
pub decode_proposal_payload-encode_proposal_payload :
    (p : ProposalPayload)
    → p.client_id < u64_mod
    → p.request_id < u64_mod
    → length p.batch.ops < u64_mod
    → AllSent p.batch.ops
    → decode_proposal_payload (encode_proposal_payload p)
      ≡ ok (record p { batch = record { ops = p.batch.ops; sync = false } })
unfolding encode_proposal_payload
decode_proposal_payload-encode_proposal_payload p h k l s =
    let rest =
      put_u32 payload_version
      ++ (put_u64 p.client_id
          ++ (put_u64 p.request_id ++ (put_u64 (length p.batch.ops) ++ put_ops p.batch.ops))) in
    let sizes = length-header p.client_id p.request_id p.batch.ops in
    decode-magic (record p { batch = record { ops = p.batch.ops; sync = false } }) rest
      (omega (arith, sizes))
      (read_proposal-fields p (4 + length rest) h k l s (omega (arith, sizes)))
