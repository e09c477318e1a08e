-- ===== src/Kv/TxBuffer.antt =====
-- storage/kv_engine/tx_buffer.h and tx_buffer.cpp: the buffer of one write transaction. Sizes and
-- sequence numbers are plain numbers: they count what fits in memory.
pub mod Refines
use hands_on_sqldb_in_cpp.Prelude.{
  ℕ, suc, ◌+◌, ◌≡◌, refl, Bool, true, false, not, ◌&&◌, Option, none, some, List, [], ◌∷◌, ◌++◌,
  foldl, ltb, length, if◌then◌else◌,
}
use hands_on_sqldb_in_cpp.Prelude.Order.{bytes_order}
use hands_on_sqldb_in_cpp.Prelude.Maps.{Map, find, assign}
use hands_on_sqldb_in_cpp.Kv.Batch.{
  Key, ByteValue, Op, WriteBatch, put_op, remove_op, remove_range_op, make_put, make_remove,
  make_remove_range, empty_batch, batch_put, batch_remove, batch_remove_range, in_range,
}

-- The three answers of the buffer about a key: it has no opinion, a new value, or a deletion.
pub data OverlayOp : Type 0 where
  uncovered : OverlayOp
  value : ByteValue → OverlayOp
  tombstone : OverlayOp

pub record TxEntry : Type 0 where
  pub op : OverlayOp
  pub seq : ℕ

pub record TxRangeDelete : Type 0 where
  pub begin : Key
  pub end : Key
  pub seq : ℕ

pub record TxBuffer : Type 0 where
  pub view : Map Key TxEntry
  pub range_deletes : List TxRangeDelete
  pub log : List Op
  pub bytes : ℕ
  pub next_seq : ℕ

abbrev pub fresh : TxBuffer
fresh = record { view = []; range_deletes = []; log = []; bytes = 0; next_seq = 1 }

abbrev pub entry_cost : ℕ → ℕ → ℕ
entry_cost key_size value_size = key_size + value_size + 64

unfoldable pub put : Key → ByteValue → TxBuffer → TxBuffer
put key v b = record b {
  view = assign key (record { op = value v; seq = b.next_seq }) b.view;
  log = b.log ++ make_put key v ∷ [];
  bytes = b.bytes + entry_cost (length key) (length v);
  next_seq = suc b.next_seq;
}

unfoldable pub remove : Key → TxBuffer → TxBuffer
remove key b = record b {
  view = assign key (record { op = tombstone; seq = b.next_seq }) b.view;
  log = b.log ++ make_remove key ∷ [];
  bytes = b.bytes + entry_cost (length key) 0;
  next_seq = suc b.next_seq;
}

unfoldable pub remove_range : Key → Key → TxBuffer → TxBuffer
remove_range begin end b = record b {
  range_deletes = b.range_deletes ++ record { begin = begin; end = end; seq = b.next_seq } ∷ [];
  log = b.log ++ make_remove_range begin end ∷ [];
  bytes = b.bytes + entry_cost (length begin) (length end);
  next_seq = suc b.next_seq;
}

-- One round of the loop of `lookup`.
unfoldable pub later_range : Key → ℕ → TxRangeDelete → ℕ
later_range key range_seq r =
    if in_range r.begin r.end key && ltb range_seq r.seq then r.seq else range_seq

abbrev pub key_seq : Option TxEntry → ℕ
key_seq none = 0
key_seq (some e) = e.seq

abbrev pub key_op : Option TxEntry → OverlayOp
key_op none = uncovered
key_op (some e) = e.op

-- The last operation that covers the key: its own write, or a range deletion after it.
unfoldable pub lookup : TxBuffer → Key → OverlayOp
lookup b key =
    let entry = find key b.view in
    let range_seq = foldl (later_range key) 0 b.range_deletes in
    if ltb (key_seq entry) range_seq then tombstone else key_op entry

-- One round of the loop of `to_batch`.
unfoldable pub add_op : WriteBatch → Op → WriteBatch
unfolding batch_put batch_remove batch_remove_range
add_op batch op = elim op.op_type [
  | put_op ↦ batch_put op.pair.key (elim op.pair.value [ some v ↦ v | none ↦ [] ]) batch
  | remove_op ↦ batch_remove op.pair.key batch
  | remove_range_op ↦ batch_remove_range op.pair.key op.range_end batch
]

unfoldable pub to_batch : TxBuffer → WriteBatch
unfolding add_op
to_batch b = foldl add_op empty_batch b.log

unfoldable pub clear : TxBuffer → TxBuffer
clear b = fresh

abbrev pub default_limit : ℕ
default_limit = 67108864

unfoldable pub exceeds : TxBuffer → Bool
exceeds b = ltb default_limit b.bytes
