-- ===== src/Kv/Merging/Transaction.antt =====
-- A scan of a transaction beside its reads: they agree after writes of single keys, and after the
-- removal of a range they do not.
use hands_on_sqldb_in_cpp.Prelude.{
  ℕ, ◌+◌, ◌<◌, ◌≡◌, refl, ap, sym, ◌∙◌, Bool, true, false, Option, none, some, List, [], ◌∷◌, foldl,
  arith, length, Bool-cases, inl, inr, if◌then◌else◌,
}
use hands_on_sqldb_in_cpp.Prelude.Order.{bytes_order, eqb}
use hands_on_sqldb_in_cpp.Prelude.Maps.{find, assign}
use hands_on_sqldb_in_cpp.Kv.Batch.{
  Key, ByteValue, KeyRange, forward, Status, Op, put_op, remove_op, remove_range_op, in_range,
}
use hands_on_sqldb_in_cpp.Kv.TxBuffer.{
  TxBuffer, TxEntry, OverlayOp, uncovered, value, tombstone, fresh, lookup, key_op, key_seq,
  later_range,
}
use hands_on_sqldb_in_cpp.Kv.TxBuffer
use hands_on_sqldb_in_cpp.Kv.TxBuffer.Refines.{read_over}
use hands_on_sqldb_in_cpp.Kv.Store.{Rows, found}
use hands_on_sqldb_in_cpp.Kv.Store
use hands_on_sqldb_in_cpp.Kv.Store.Rows.{IsSorted, assign-IsSorted}
use hands_on_sqldb_in_cpp.Kv.Iterator.{contains}
use hands_on_sqldb_in_cpp.Kv.Engine.{Conn, get, get_below, buffer_op}
use hands_on_sqldb_in_cpp.Kv.Engine.Transaction.{visible, reply_over-found, found-snd}
use hands_on_sqldb_in_cpp.Kv.Merging.{MergingIterator, merging, collect, new_iterator}
use hands_on_sqldb_in_cpp.Kv.Merging.Front.{Entries}
use hands_on_sqldb_in_cpp.Kv.Merging.Shown.{shown_over}
use hands_on_sqldb_in_cpp.Kv.Merging.Start.{rows_below, scan_lem}

abbrev is_uncovered : OverlayOp → Bool
is_uncovered uncovered = true
is_uncovered (value v) = false
is_uncovered tombstone = false

abbrev AllWritten : Entries → Type 0
AllWritten [] = Unit {0}
AllWritten ((k, e) ∷ view) = (is_uncovered e.op ≡ false) × AllWritten view

-- Only single keys were written: no range was removed.
abbrev IsPointwise : TxBuffer → Type 0
IsPointwise t = IsSorted t.view × AllWritten t.view × (t.range_deletes ≡ [])

-- Puts and removals of single keys.
abbrev pub AllPoint : List Op → Type 0
AllPoint [] = Unit {0}
AllPoint (op ∷ ops) =
    (elim op.op_type [ put_op ↦ true | remove_op ↦ true | remove_range_op ↦ false ] ≡ true)
    × AllPoint ops

assign-AllWritten :
    (k : Key) (e : TxEntry) (view : Entries)
    → is_uncovered e.op ≡ false
    → AllWritten view
    → AllWritten (assign k e view)
unfolding assign
assign-AllWritten k e [] h a = (h, tt)
assign-AllWritten k e ((j, f) ∷ view) h a = ground (arith, h, assign-AllWritten k e view h a.1)

put-IsPointwise :
    (k : Key) (v : ByteValue) (t : TxBuffer) → IsPointwise t → IsPointwise (TxBuffer.put k v t)
unfolding TxBuffer.put
put-IsPointwise k v t (s, a, r) =
    let e : TxEntry = record { op = value v; seq = t.next_seq } in
    (assign-IsSorted k e t.view s, assign-AllWritten k e t.view refl a, r)

remove-IsPointwise : (k : Key) (t : TxBuffer) → IsPointwise t → IsPointwise (TxBuffer.remove k t)
unfolding TxBuffer.remove
remove-IsPointwise k t (s, a, r) =
    let e : TxEntry = record { op = tombstone; seq = t.next_seq } in
    (assign-IsSorted k e t.view s, assign-AllWritten k e t.view refl a, r)

buffer_op-IsPointwise :
    (t : TxBuffer) (op : Op) (ops : List Op)
    → AllPoint (op ∷ ops)
    → IsPointwise t
    → IsPointwise (buffer_op t op)
unfolding buffer_op
buffer_op-IsPointwise t op ops a p = by_value op.pair.value refl
  where
    by_value : (o : Option ByteValue) → op.pair.value ≡ o → IsPointwise (buffer_op t op)
    by_value none e = ground (arith, a.0, e, p, remove-IsPointwise op.pair.key t p)
    by_value (some v) e =
        ground
          (arith, a.0, e, p, put-IsPointwise op.pair.key v t p, remove-IsPointwise op.pair.key t p)

buffer_ops-IsPointwise :
    (t : TxBuffer) (ops : List Op)
    → AllPoint ops
    → IsPointwise t
    → IsPointwise (foldl buffer_op t ops)
buffer_ops-IsPointwise t [] a p = p
buffer_ops-IsPointwise t (op ∷ ops) a p =
    buffer_ops-IsPointwise (buffer_op t op) ops a.1 (buffer_op-IsPointwise t op ops a p)

find-AllWritten :
    (k : Key) (e : TxEntry) (view : Entries)
    → AllWritten view
    → find k view ≡ some e
    → is_uncovered e.op ≡ false
unfolding find
find-AllWritten k e [] a h = absurd (ground (arith, h))
find-AllWritten k e ((j, f) ∷ view) a h = elim (Bool-cases (eqb j k)) [
  | inl s ↦ ground (arith, h, s, a.0)
  | inr s ↦ find-AllWritten k e view a.1 (ground (arith, h, s))
]

lookup-IsPointwise :
    (t : TxBuffer) (k : Key) → t.range_deletes ≡ [] → lookup t k ≡ key_op (find k t.view)
unfolding lookup
lookup-IsPointwise t k r = ground (arith, r)

shown-read_over :
    (t : TxBuffer) (range : KeyRange) (k : Key) (d : Option ByteValue)
    → IsPointwise t
    → contains range k ≡ true
    → shown_over t range k (find k t.view) d ≡ read_over (lookup t k) d
shown-read_over t range k d (s, a, r) c = by_entry (find k t.view) refl
  where
    by_op :
        (e : TxEntry) (o : OverlayOp)
        → lookup t k ≡ o
        → is_uncovered o ≡ false
        → shown_over t range k (some e) d ≡ read_over (lookup t k) d
    by_op e uncovered h u = absurd (ground (arith, u))
    by_op e (value v) h u = rw (c, h) refl
    by_op e tombstone h u = rw (c, h) refl

    by_entry :
        (o : Option TxEntry)
        → find k t.view ≡ o
        → shown_over t range k o d ≡ read_over (lookup t k) d
    by_entry none h = rw (lookup-IsPointwise t k r, h) refl
    by_entry (some e) h =
        by_op e e.op (lookup-IsPointwise t k r ∙ rw h refl) (find-AllWritten k e t.view a h)

-- A read of a transaction, in either kind of view below its buffer.
visible-below :
    (c : Conn) (t : TxBuffer) (k : Key)
    → c.store.is_open ≡ true
    → c.tx ≡ some t
    → visible c k ≡ read_over (lookup t k) (find k (rows_below c))
unfolding get get_below Store.get
visible-below c t k o e = by_snapshot c.snapshot refl
  where
    by_snapshot :
        (rows : Option Rows)
        → c.snapshot ≡ rows
        → visible c k ≡ read_over (lookup t k) (find k (rows_below c))
    by_snapshot none s =
        rw (o, e, s)
          (ap (λ (r : Status × Option ByteValue). r.1)
              (reply_over-found (lookup t k) (find k c.store.rows))
            ∙ found-snd (read_over (lookup t k) (find k c.store.rows)))
    by_snapshot (some rows) s =
        rw (o, e, s)
          (ap (λ (r : Status × Option ByteValue). r.1) (reply_over-found (lookup t k) (find k rows))
            ∙ found-snd (read_over (lookup t k) (find k rows)))

-- In a transaction that has put and removed single keys, in any number and order, on an open store
-- with sorted rows below, a forward iterator of a range read to its end gives its keys in strictly
-- rising order, and it gives at every key of the range just what the connection reads there, and
-- nothing outside the range. Fuel above the rows below and the written keys together is enough.
pub scan-visible :
    (c : Conn) (ops : List Op) (range : KeyRange) (fuel : ℕ)
    → c.store.is_open ≡ true
    → c.tx ≡ some (foldl buffer_op fresh ops)
    → AllPoint ops
    → IsSorted (rows_below c)
    → range.direction ≡ forward
    → length (rows_below c) + length (foldl buffer_op fresh ops).view < fuel
    → (m : MergingIterator) × (new_iterator range c ≡ some (merging m))
      × IsSorted (collect fuel m)
      × ((k : Key) → find k (collect fuel m) ≡ (if contains range k then visible c k else none))
scan-visible c ops range fuel o e a s d l =
    let t = foldl buffer_op fresh ops in
    let point = buffer_ops-IsPointwise fresh ops a (tt, tt, refl) in
    let (m, made, sorted, shows) = scan_lem c t range fuel o e s point.0 d l in
    let agree : (k : Key)
        → contains range k ≡ true
        → shown_over t range k (find k t.view) (find k (rows_below c)) ≡ visible c k =
      λ k h.
        shown-read_over t range k (find k (rows_below c)) point h ∙ sym (visible-below c t k o e) in
    (m, made, sorted, λ k. ground (arith, shows k, agree k))

-- A transaction that has only removed a range, on an open store with sorted rows below: a forward
-- iterator of a range still gives every removed row that lies in it, though a read of the connection
-- finds nothing there.
pub removed_range_scanned :
    (c : Conn) (begin end : Key) (range : KeyRange) (fuel : ℕ) (k : Key)
    → c.store.is_open ≡ true
    → c.tx ≡ some (TxBuffer.remove_range begin end fresh)
    → IsSorted (rows_below c)
    → range.direction ≡ forward
    → length (rows_below c) < fuel
    → in_range begin end k ≡ true
    → contains range k ≡ true
    → (visible c k ≡ none)
      × ((m : MergingIterator) × (new_iterator range c ≡ some (merging m))
          × (find k (collect fuel m) ≡ find k (rows_below c)))
removed_range_scanned c begin end range fuel k o e s d l i h =
    let t = TxBuffer.remove_range begin end fresh in
    let nothing : lookup t k ≡ tombstone =
      unfold lookup TxBuffer.remove_range later_range find in ground (arith, i) in
    let empty : t.view ≡ [] = unfold TxBuffer.remove_range in refl in
    let (m, made, sorted, shows) =
      scan_lem c t range fuel o e s (rw empty tt) d (rw empty (omega (arith, l))) in
    (
      visible-below c t k o e ∙ rw nothing refl,
      (m, made, shows k ∙ rw (h, empty) (unfold find in refl)),
    )
