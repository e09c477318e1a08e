-- ===== src/Kv/Merging/Front.antt =====
-- The forward scan of a merging iterator as a merge of two lists: the rows below that are left, and
-- the entries of the buffer that are left.
use hands_on_sqldb_in_cpp.Prelude.{Bool, not, [], ◌∷◌, if◌then◌else◌}
use hands_on_sqldb_in_cpp.Prelude.Order.{bytes_lt, bytes_order}
use hands_on_sqldb_in_cpp.Prelude.Maps.{Map}
use hands_on_sqldb_in_cpp.Kv.Batch.{Key, ByteValue, KeyRange}
use hands_on_sqldb_in_cpp.Kv.TxBuffer.{TxBuffer, TxEntry}
use hands_on_sqldb_in_cpp.Kv.TxBuffer
use hands_on_sqldb_in_cpp.Kv.Store.{Rows}
use hands_on_sqldb_in_cpp.Kv.Iterator.{contains}
use hands_on_sqldb_in_cpp.Kv.Merging.{is_tombstone, op_value}

abbrev pub Entries : Type 0
Entries = Map Key TxEntry

-- The next row of the scan, with what is left behind it.
pub data Front : Type 0 where
  exhausted : Front
  item : Key → ByteValue → Rows → Entries → Front

abbrev pub db_front : Rows → Entries → Front
db_front [] os = exhausted
db_front ((k, v) ∷ rs) os = item k v rs os

module _ (b : TxBuffer) (range : KeyRange) where
  abbrev pub deleted_key : Key → Bool
  deleted_key k = is_tombstone (TxBuffer.lookup b k)

  abbrev pub written_value : Key → ByteValue
  written_value k = op_value (TxBuffer.lookup b k)

  unfoldable pub front : Rows → Entries → Front
  unfolding contains
  front rs [] = db_front rs []
  front [] ((k, e) ∷ os) =
      let rest = front [] os in
      if not (contains range k)
      then exhausted
      else if deleted_key k
      then rest
      else item k (written_value k) [] os
  front ((j, w) ∷ rs) ((k, e) ∷ os) =
      let past = front ((j, w) ∷ rs) os in
      let past_both = front rs os in
      if not (contains range k)
      then item j w rs ((k, e) ∷ os)
      else if bytes_lt k j
      then if deleted_key k then past else item k (written_value k) ((j, w) ∷ rs) os
      else if not (bytes_lt j k)
      then if deleted_key k then past_both else item j (written_value k) rs os
      else item j w rs ((k, e) ∷ os)
