-- ===== src/Kv/ScanTests.antt =====
-- Concrete transactions that are scanned.
use hands_on_sqldb_in_cpp.Prelude.{
  ℕ, List, ◌≡◌, refl, true, false, foldl, none, some, [], ◌∷◌, arith, if◌then◌else◌,
}
use hands_on_sqldb_in_cpp.Prelude.Order.{bytes_lt, bytes_order}
use hands_on_sqldb_in_cpp.Prelude.Maps.{find, assign}
use hands_on_sqldb_in_cpp.Kv.Batch.{KeyRange, forward, make_put, make_remove}
use hands_on_sqldb_in_cpp.Kv.TxBuffer
use hands_on_sqldb_in_cpp.Kv.TxBuffer.{fresh}
use hands_on_sqldb_in_cpp.Kv.Store.Rows.{IsSorted}
use hands_on_sqldb_in_cpp.Kv.Iterator.{contains}
use hands_on_sqldb_in_cpp.Kv.Engine.{Conn, buffer_op}
use hands_on_sqldb_in_cpp.Kv.Engine.Transaction.{visible}
use hands_on_sqldb_in_cpp.Kv.Merging.{MergingIterator, merging, new_iterator, collect}
use hands_on_sqldb_in_cpp.Kv.Merging.Start.{rows_below}
use hands_on_sqldb_in_cpp.Kv.Merging.Transaction.{scan-visible, removed_range_scanned}

abbrev one_to_four : KeyRange
one_to_four = record { start = some (1 ∷ []); end = some (4 ∷ []); limit = 0; direction = forward }

-- The rows 1, 3 and 5; the transaction has written 2 and removed 3.
abbrev scanner : Conn
scanner = record {
  engine = record {
    owner = 1;
    tx = some (foldl buffer_op fresh (make_put (2 ∷ []) (8 ∷ []) ∷ make_remove (3 ∷ []) ∷ []));
    snapshot = none;
    write_slot = true;
  };
  store = record {
    rows = (1 ∷ [], 7 ∷ []) ∷ (3 ∷ [], 9 ∷ []) ∷ (5 ∷ [], 6 ∷ []) ∷ [];
    fail_writes = false;
    is_open = true;
    write_owner = some 1;
  };
}

scan-visible_example :
    (m : MergingIterator) × (new_iterator one_to_four scanner ≡ some (merging m))
    × IsSorted (collect 6 m)
    × ((k : List ℕ)
        → find k (collect 6 m) ≡ (if contains one_to_four k then visible scanner k else none))
unfolding bytes_lt buffer_op TxBuffer.put TxBuffer.remove assign
scan-visible_example =
    scan-visible scanner (make_put (2 ∷ []) (8 ∷ []) ∷ make_remove (3 ∷ []) ∷ []) one_to_four 6 refl
      refl (refl, (refl, tt)) ((refl, (refl, tt)), ((refl, tt), (tt, tt))) refl (omega arith)

-- The same rows, in a transaction that has removed the keys from 2 up to 4.
abbrev remover : Conn
remover = record scanner {
  engine = record scanner.engine { tx = some (TxBuffer.remove_range (2 ∷ []) (4 ∷ []) fresh) };
}

removed_range_scanned_example :
    (visible remover (3 ∷ []) ≡ none)
    × ((m : MergingIterator) × (new_iterator one_to_four remover ≡ some (merging m))
        × (find (3 ∷ []) (collect 4 m) ≡ find (3 ∷ []) (rows_below remover)))
unfolding bytes_lt contains
removed_range_scanned_example =
    removed_range_scanned remover (2 ∷ []) (4 ∷ []) one_to_four 4 (3 ∷ []) refl refl
      ((refl, (refl, tt)), ((refl, tt), (tt, tt))) refl (omega arith) refl refl
