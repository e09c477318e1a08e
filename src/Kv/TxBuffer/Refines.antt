-- ===== src/Kv/TxBuffer/Refines.antt =====
-- The overlay view of a transaction buffer agrees with its operation log.
use mathlib.Core.List.{foldl-append}
use hands_on_sqldb_in_cpp.Prelude.{
  ℕ, ◌<◌, ◌≡◌, refl, if◌then◌else◌, Option, none, some, List, [], ◌∷◌, ◌++◌, foldl, arith,
}
use hands_on_sqldb_in_cpp.Prelude.Order.{bytes_order, eqb}
use hands_on_sqldb_in_cpp.Prelude.Maps.{find, find-assign}
use hands_on_sqldb_in_cpp.Kv.Batch.{
  Key, ByteValue, Op, make_put, make_remove, make_remove_range, effect, effects, empty_batch,
}
use hands_on_sqldb_in_cpp.Kv.TxBuffer.{
  OverlayOp, uncovered, value, tombstone, TxRangeDelete, TxBuffer, fresh, put, remove, remove_range,
  later_range, key_seq, lookup, to_batch, add_op,
}

-- A read through the overlay: the buffer first, the database below it.
abbrev pub read_over : OverlayOp → Option ByteValue → Option ByteValue
read_over uncovered d = d
read_over (value v) d = some v
read_over tombstone d = none

abbrev range_seq : Key → TxBuffer → ℕ
range_seq k b = foldl (later_range k) 0 b.range_deletes

-- Sequence numbers lie below `next_seq`, a read through the overlay gives what the logged
-- operations, replayed in their order, make of the value below, and the batch holds the log.
pub record IsTracked (b : TxBuffer) : Type 0 where
  pub entries : (k : Key) → key_seq (find k b.view) < b.next_seq
  pub ranges : (k : Key) → foldl (later_range k) 0 b.range_deletes < b.next_seq
  pub agrees : (k : Key) (d : Option ByteValue) → read_over (lookup b k) d ≡ effects k d b.log
  pub batched : (to_batch b).ops ≡ b.log

pub fresh-IsTracked : IsTracked fresh
unfolding lookup effects find to_batch
fresh-IsTracked = record {
  entries = λ k. omega arith;
  ranges = λ k. omega arith;
  agrees = λ k d. refl;
  batched = refl;
}

effects-snoc :
    (k : Key) (d : Option ByteValue) (log : List Op) (op : Op)
    → effects k d (log ++ op ∷ []) ≡ effect k (effects k d log) op
unfolding effects
effects-snoc k d log op = rw foldl-append

to_batch-snoc :
    (log : List Op) (op : Op)
    → foldl add_op empty_batch (log ++ op ∷ []) ≡ add_op (foldl add_op empty_batch log) op
to_batch-snoc log op = rw foldl-append

module _ (b : TxBuffer) (t : IsTracked b) where
  pub put-IsTracked : (key : Key) (v : ByteValue) → IsTracked (put key v b)
  unfolding put
  put-IsTracked key v = record {
    entries = λ k.
        ground (
          arith,
          find-assign key k (record { op = value v; seq = b.next_seq }) b.view,
          t.entries k,
        );
    ranges = λ k. ground (arith, t.ranges k);
    agrees = λ k d.
        unfold lookup effect in
        ground (
          arith,
          find-assign key k (record { op = value v; seq = b.next_seq }) b.view,
          t.ranges k,
          t.agrees k d,
          effects-snoc k d b.log (make_put key v),
        );
    batched = unfold to_batch in ground (arith, to_batch-snoc b.log (make_put key v), t.batched);
  }

  pub remove-IsTracked : (key : Key) → IsTracked (remove key b)
  unfolding remove
  remove-IsTracked key = record {
    entries = λ k. ground (
      arith,
      find-assign key k (record { op = tombstone; seq = b.next_seq }) b.view,
      t.entries k,
    );
    ranges = λ k. ground (arith, t.ranges k);
    agrees = λ k d.
        unfold lookup effect in
        ground (
          arith,
          find-assign key k (record { op = tombstone; seq = b.next_seq }) b.view,
          t.ranges k,
          t.agrees k d,
          effects-snoc k d b.log (make_remove key),
        );
    batched = unfold to_batch in ground (arith, to_batch-snoc b.log (make_remove key), t.batched);
  }

  later_range-snoc :
      (k : Key) (n : ℕ) (rs : List TxRangeDelete) (r : TxRangeDelete)
      → foldl (later_range k) n (rs ++ r ∷ []) ≡ later_range k (foldl (later_range k) n rs) r
  later_range-snoc k n rs r = rw foldl-append

  pub remove_range-IsTracked : (begin end : Key) → IsTracked (remove_range begin end b)
  unfolding remove_range
  remove_range-IsTracked begin end =
      let r : TxRangeDelete = record { begin = begin; end = end; seq = b.next_seq } in
      record {
        entries = λ k. ground (arith, t.entries k);
        ranges = λ k.
            unfold later_range in
            ground (arith, later_range-snoc k 0 b.range_deletes r, t.ranges k);
        agrees = λ k d.
            unfold lookup effect later_range in
            ground (
              arith,
              later_range-snoc k 0 b.range_deletes r,
              t.ranges k,
              t.entries k,
              t.agrees k d,
              effects-snoc k d b.log (make_remove_range begin end),
            );
        batched =
            unfold to_batch in
            ground (arith, to_batch-snoc b.log (make_remove_range begin end), t.batched);
      }

  -- A buffered put is read back at its key, and is not seen at any other.
  pub read_over-put :
      (key : Key) (v : ByteValue) (k : Key) (d : Option ByteValue)
      → read_over (lookup (put key v b) k) d
        ≡ (if eqb key k then some v else read_over (lookup b k) d)
  unfolding put lookup
  read_over-put key v k d =
      ground
        (arith, find-assign key k (record { op = value v; seq = b.next_seq }) b.view, t.ranges k)
