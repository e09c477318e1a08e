-- ===== src/Kv/Batch.antt =====
-- storage/kv_engine/kv_engine.h: keys, values, status codes and write batches.
use hands_on_sqldb_in_cpp.Prelude.{
  ℕ, Bool, false, not, ◌&&◌, Option, none, some, List, [], ◌∷◌, ◌++◌, foldl, if◌then◌else◌,
}
use hands_on_sqldb_in_cpp.Prelude.Order.{Bytes, bytes_lt, bytes_order, eqb}

abbrev pub Key : Type 0
Key = Bytes

abbrev pub ByteValue : Type 0
ByteValue = Bytes

pub data Status : Type 0 where
  success not_found already_exists invalid_argument not_supported : Status
  io_error internal_error transaction_conflict busy timeout not_leader : Status
  cross_group_transaction : Status

pub record KvPair : Type 0 where
  pub key : Key
  pub value : Option ByteValue

pub data OpType : Type 0 where
  put_op remove_op remove_range_op : OpType

pub record Op : Type 0 where
  pub op_type : OpType
  pub pair : KvPair
  pub range_end : Key

pub record WriteBatch : Type 0 where
  pub ops : List Op
  pub sync : Bool

abbrev pub make_put : Key → ByteValue → Op
make_put key value = record {
  op_type = put_op;
  pair = record { key = key; value = some value };
  range_end = [];
}

abbrev pub make_remove : Key → Op
make_remove key = record {
  op_type = remove_op;
  pair = record { key = key; value = none };
  range_end = [];
}

abbrev pub make_remove_range : Key → Key → Op
make_remove_range begin end = record {
  op_type = remove_range_op;
  pair = record { key = begin; value = none };
  range_end = end;
}

abbrev pub empty_batch : WriteBatch
empty_batch = record { ops = []; sync = false }

unfoldable pub batch_put : Key → ByteValue → WriteBatch → WriteBatch
batch_put key value b = record b { ops = b.ops ++ make_put key value ∷ [] }

unfoldable pub batch_remove : Key → WriteBatch → WriteBatch
batch_remove key b = record b { ops = b.ops ++ make_remove key ∷ [] }

unfoldable pub batch_remove_range : Key → Key → WriteBatch → WriteBatch
batch_remove_range begin end b = record b { ops = b.ops ++ make_remove_range begin end ∷ [] }

-- Whether a key lies in [begin, end).
abbrev pub in_range : Key → Key → Key → Bool
in_range begin end key = not (bytes_lt key begin) && bytes_lt key end

-- What one operation makes of the value at a key: the specification of a batch, key by key.
unfoldable pub effect : Key → Option ByteValue → Op → Option ByteValue
effect k d op = elim op.op_type [
  | put_op ↦ if eqb op.pair.key k then op.pair.value else d
  | remove_op ↦ if eqb op.pair.key k then none else d
  | remove_range_op ↦ if in_range op.pair.key op.range_end k then none else d
]

unfoldable pub effects : Key → Option ByteValue → List Op → Option ByteValue
unfolding effect
effects k = foldl (effect k)

pub data ScanDirection : Type 0 where
  forward reverse : ScanDirection

pub record KeyRange : Type 0 where
  pub start : Option Key
  pub end : Option Key
  pub limit : ℕ
  pub direction : ScanDirection
