-- ===== src/Raft/TransferTests.antt =====
-- A concrete snapshot of a state machine, restored into another.
use hands_on_sqldb_in_cpp.Prelude.{
  ◌≡◌, refl, false, true, arith, some, [], ◌∷◌, none, if◌then◌else◌,
}
use hands_on_sqldb_in_cpp.Prelude.Order.{Bytes, bytes_lt, bytes_order}
use hands_on_sqldb_in_cpp.Prelude.Maps.{find}
use hands_on_sqldb_in_cpp.Kv.Batch.{KeyRange, forward}
use hands_on_sqldb_in_cpp.Kv.Iterator.{contains}
use hands_on_sqldb_in_cpp.Kv.Iterator.Scan.{rows_in}
use hands_on_sqldb_in_cpp.Raft.Types.{ok}
use hands_on_sqldb_in_cpp.Raft.StateMachine.{KvStateMachine}
use hands_on_sqldb_in_cpp.Raft.KvSnapshot.{snapshot, restore}
use hands_on_sqldb_in_cpp.Raft.KvSnapshot.Transfer.{restore-snapshot}

-- ["b", "d")
abbrev b_to_d : KeyRange
b_to_d = record { start = some (98 ∷ []); end = some (100 ∷ []); limit = 0; direction = forward }

abbrev sender : KvStateMachine
sender = record {
  local = record {
    rows = (97 ∷ [], 1 ∷ []) ∷ (98 ∷ [], 2 ∷ []) ∷ (101 ∷ [], 3 ∷ []) ∷ [];
    fail_writes = false;
    is_open = true;
    write_owner = none;
  };
  request_results = [];
}

abbrev receiver : KvStateMachine
receiver = record {
  local = record {
    rows = (99 ∷ [], 7 ∷ []) ∷ (101 ∷ [], 8 ∷ []) ∷ [];
    fail_writes = false;
    is_open = true;
    write_owner = none;
  };
  request_results = [];
}

restore-snapshot_example :
    (bytes : Bytes) × (snapshot b_to_d sender ≡ ok bytes)
    × ((restore b_to_d bytes receiver).0 ≡ ok tt)
    × (find (99 ∷ []) (restore b_to_d bytes receiver).1.local.rows ≡ (
        if contains b_to_d (99 ∷ [])
        then find (99 ∷ []) sender.local.rows
        else find (99 ∷ []) receiver.local.rows))
unfolding bytes_lt rows_in contains
restore-snapshot_example =
    restore-snapshot b_to_d (98 ∷ []) (100 ∷ []) sender receiver (99 ∷ []) refl refl refl refl refl
      ((refl, (refl, tt)), ((refl, tt), (tt, tt))) (omega arith) (omega arith, omega arith, tt) refl
      refl ((refl, tt), (tt, tt))
