-- ===== src/Kv/GetBatch.antt =====
-- storage/mock_engine/mock_engine.cpp: `get_batch` of the store and of a connection. The values
-- that were pushed before an early return are the second part of the reply. The output vector is
-- always given, so the check for a missing one is left out.
pub mod Reads
use hands_on_sqldb_in_cpp.Prelude.{Bool, not, Option, none, some, List, [], ◌∷◌, if◌then◌else◌}
use hands_on_sqldb_in_cpp.Prelude.Order.{bytes_order}
use hands_on_sqldb_in_cpp.Prelude.Maps.{find}
use hands_on_sqldb_in_cpp.Kv.Batch.{Key, ByteValue, Status, success, not_found, internal_error}
use hands_on_sqldb_in_cpp.Kv.Store.{MockStore, found}
use hands_on_sqldb_in_cpp.Kv.Engine
use hands_on_sqldb_in_cpp.Kv.Engine.{Conn}

pub data MissingKeyPolicy : Type 0 where
  return_empty return_error : MissingKeyPolicy

abbrev pub Replies : Type 0
Replies = Status × List (Option ByteValue)

abbrev push : Option ByteValue → Replies → Replies
push v (status, values) = (status, v ∷ values)

-- One round of the loops: what a read of the key gives, and the reply of the rounds after it.
abbrev pub take_reply : MissingKeyPolicy → Status × Option ByteValue → Replies → Replies
take_reply policy (success, v) rest = push v rest
take_reply return_empty (not_found, v) rest = push none rest
take_reply return_error (not_found, v) rest = (not_found, [])
take_reply policy (status, v) rest = (status, [])

unfoldable pub read_each : (Key → Status × Option ByteValue) → MissingKeyPolicy → List Key → Replies
read_each read policy [] = (success, [])
read_each read policy (key ∷ keys) = take_reply policy (read key) (read_each read policy keys)

unfoldable pub store_get_batch : List Key → MissingKeyPolicy → MockStore → Replies
unfolding read_each
store_get_batch keys policy s =
    if not s.is_open
    then (internal_error, [])
    else read_each (λ key. found (find key s.rows)) policy keys

unfoldable pub get_batch : List Key → MissingKeyPolicy → Conn → Replies
unfolding read_each store_get_batch
get_batch keys policy c = if not c.store.is_open then (internal_error, []) else elim c.tx [
  | none ↦ store_get_batch keys policy c.store
  | some t ↦ read_each (λ key. Engine.get key c) policy keys
]
