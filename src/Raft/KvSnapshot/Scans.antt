-- ===== src/Raft/KvSnapshot/Scans.antt =====
-- The rows that the scan of a snapshot reads.
use hands_on_sqldb_in_cpp.Prelude.{
  ℕ, zero, suc, ◌+◌, ◌≡◌, refl, ap, ◌∙◌, true, false, some, [], ◌∷◌, map, arith, length,
}
use hands_on_sqldb_in_cpp.Kv.Batch.{KeyRange, forward}
use hands_on_sqldb_in_cpp.Kv.Store.{Rows, MockStore}
use hands_on_sqldb_in_cpp.Kv.Iterator.{
  MockIterator, valid, next, kvpair, collect, move_to, update_status, make, seek_to_first,
  step_back, is_forward, new_iterator, materialize,
}
use hands_on_sqldb_in_cpp.Kv.Iterator
use hands_on_sqldb_in_cpp.Kv.Iterator.Scan.{rows_in, collect-make, make-rows}
use hands_on_sqldb_in_cpp.Kv.Store.Rows.{IsSorted}
use hands_on_sqldb_in_cpp.Raft.Types.{ok}
use hands_on_sqldb_in_cpp.Raft.StateMachine.{KvStateMachine}
use hands_on_sqldb_in_cpp.Raft.KvSnapshot.{
  row_at, drain, snapshot_bytes, scan_failed, bad_bounds, snapshot, scan, after_scan,
}

drain-rows : (fuel : ℕ) (it : MockIterator) → (drain fuel it).0 ≡ map row_at (collect fuel it)
unfolding drain collect
drain-rows zero it = refl
drain-rows (suc fuel) it = ground (arith, drain-rows fuel (next it))

move_to-status : (i : ℕ) (it : MockIterator) → scan_failed (move_to i it).status ≡ false
unfolding move_to update_status Iterator.in_range
move_to-status i it = ground arith

next-status :
    (it : MockIterator) → scan_failed it.status ≡ false → scan_failed (next it).status ≡ false
unfolding next
next-status it h =
    ground (arith, h, move_to-status (it.index + 1) it, move_to-status (step_back it) it)

drain-status :
    (fuel : ℕ) (it : MockIterator)
    → scan_failed it.status ≡ false
    → scan_failed (drain fuel it).1.status ≡ false
unfolding drain
drain-status zero it h = h
drain-status (suc fuel) it h = ground (arith, drain-status fuel (next it) (next-status it h))

map-row_at : (rows : Rows) → map row_at (map some rows) ≡ rows
map-row_at [] = refl
map-row_at (row ∷ rows) = ap (λ (l : Rows). row ∷ l) (map-row_at rows)

make-status : (rows : Rows) (range : KeyRange) → scan_failed (make rows range).status ≡ false
unfolding make seek_to_first move_to update_status Iterator.in_range
make-status rows range = ground arith

seek_to_first-make :
    (rows : Rows) (range : KeyRange) → seek_to_first (make rows range) ≡ make rows range
unfolding make seek_to_first move_to update_status Iterator.in_range
seek_to_first-make rows range = refl

drain-make :
    (rows : Rows) (range : KeyRange)
    → IsSorted rows
    → range.direction ≡ forward
    → (drain (suc (length (materialize rows range))) (make (materialize rows range) range)).0
      ≡ rows_in range rows
drain-make rows range s d =
    drain-rows (suc (length (materialize rows range))) (make (materialize rows range) range)
    ∙ (ap (map row_at) (collect-make rows range s d) ∙ map-row_at (rows_in range rows))

after_scan-rows :
    (rows : Rows) (it : MockIterator) (fuel : ℕ)
    → scan_failed it.status ≡ false
    → (drain fuel it).0 ≡ rows
    → after_scan (drain fuel it) ≡ ok (snapshot_bytes rows)
after_scan-rows rows it fuel h e = rw (drain-status fuel it h, e) refl

new_iterator-open :
    (range : KeyRange) (s : MockStore)
    → s.is_open ≡ true
    → new_iterator range s ≡ some (make (materialize s.rows range) range)
unfolding new_iterator
new_iterator-open range s o = rw o refl

scan-make :
    (rows : Rows) (range : KeyRange)
    → IsSorted rows
    → range.direction ≡ forward
    → scan (some (make (materialize rows range) range)) ≡ ok (snapshot_bytes (rows_in range rows))
scan-make rows range s d =
    let found = materialize rows range in
    let it = make found range in
    ap (λ (i : MockIterator). after_scan (drain (suc (length it.rows)) i))
      (seek_to_first-make found range)
    ∙ (ap (λ (r : Rows). after_scan (drain (suc (length r)) it)) (make-rows found range)
        ∙ after_scan-rows (rows_in range rows) it (suc (length found)) (make-status found range)
            (drain-make rows range s d))

-- A snapshot holds the rows of its range.
pub snapshot_lem :
    (range : KeyRange) (m : KvStateMachine)
    → m.local.is_open ≡ true
    → IsSorted m.local.rows
    → bad_bounds range ≡ false
    → range.direction ≡ forward
    → snapshot range m ≡ ok (snapshot_bytes (rows_in range m.local.rows))
unfolding snapshot
snapshot_lem range m o s b d =
    let f : is_forward range.direction ≡ true = rw d refl in
    rw (b, f, new_iterator-open range m.local o) (scan-make m.local.rows range s d)
