-- ===== src/Kv/GetBatch/Reads.antt =====
-- A batch of reads gives what the single reads give.
use hands_on_sqldb_in_cpp.Prelude.{
  ◌≡◌, refl, ap, sym, true, Option, none, some, List, [], ◌∷◌, map, arith,
}
use hands_on_sqldb_in_cpp.Prelude.Order.{bytes_order}
use hands_on_sqldb_in_cpp.Prelude.Maps.{find}
use hands_on_sqldb_in_cpp.Kv.Batch.{Key, ByteValue, Status, success}
use hands_on_sqldb_in_cpp.Kv.TxBuffer.{TxBuffer}
use hands_on_sqldb_in_cpp.Kv.Store.{found}
use hands_on_sqldb_in_cpp.Kv.Engine.{Conn, get}
use hands_on_sqldb_in_cpp.Kv.Engine.Transaction.{visible, get-found, visible-plain}
use hands_on_sqldb_in_cpp.Kv.GetBatch.{
  return_empty, take_reply, read_each, store_get_batch, get_batch,
}

take_reply-found :
    (o : Option ByteValue) (values : List (Option ByteValue))
    → take_reply return_empty (found o) (success, values) ≡ (success, o ∷ values)
take_reply-found none values = refl
take_reply-found (some v) values = refl

read_each-found :
    (read : Key → Status × Option ByteValue) (value_of : Key → Option ByteValue) (keys : List Key)
    → ((key : Key) → read key ≡ found (value_of key))
    → read_each read return_empty keys ≡ (success, map value_of keys)
unfolding read_each
read_each-found read value_of [] h = refl
read_each-found read value_of (key ∷ keys) h =
    rw (h key, read_each-found read value_of keys h) (take_reply-found (value_of key) _)

-- A batch of reads on an open store that takes missing keys as absent values succeeds, and gives for
-- each key, in the order of the keys, what the connection reads at it, in a transaction or outside;
-- a snapshot is held in a transaction only.
get_batch-visible :
    (c : Conn) (keys : List Key)
    → c.store.is_open ≡ true
    → (c.tx ≡ none → c.snapshot ≡ none)
    → get_batch keys return_empty c ≡ (success, map (visible c) keys)
get_batch-visible c keys o outside = by_tx c.tx refl
  where
    by_tx :
        (t : Option TxBuffer)
        → c.tx ≡ t
        → get_batch keys return_empty c ≡ (success, map (visible c) keys)
    by_tx none e =
        unfold get_batch store_get_batch in
        ground (
          arith,
          read_each-found (λ key. found (find key c.store.rows)) (visible c) keys
              (λ key. ap found (sym (visible-plain c key o e (outside e)))),
        )
    by_tx (some t) e =
        unfold get_batch in
        ground
          (arith, read_each-found (λ key. get key c) (visible c) keys (λ key. get-found c key o))
