-- ===== src/Kv/Merging/Settles.antt =====
-- `settle` finds the front of the two lists that are left, and `next` moves past it.
use hands_on_sqldb_in_cpp.Prelude.{
  ◌⊎◌, inl, inr, ℕ, suc, ◌+◌, ◌≡◌, refl, ap, ◌∙◌, ◌==◌, Bool, true, false, ◌&&◌, Option, some, [],
  ◌∷◌, arith, length, drop, drop-cons, drop-nil,
}
use hands_on_sqldb_in_cpp.Prelude.Order.{bytes_lt, bytes_order, eqb, eqb_refl, lt→le}
use hands_on_sqldb_in_cpp.Kv.Batch.{Key, ByteValue, KeyRange}
use hands_on_sqldb_in_cpp.Kv.TxBuffer.{TxBuffer, TxEntry}
use hands_on_sqldb_in_cpp.Kv.TxBuffer
use hands_on_sqldb_in_cpp.Kv.Store.{Rows}
use hands_on_sqldb_in_cpp.Kv.Iterator.{MockIterator, is_forward, contains, move_to, kvpair}
use hands_on_sqldb_in_cpp.Kv.Iterator
use hands_on_sqldb_in_cpp.Kv.Iterator.Scan.{place_here, place_over}
use hands_on_sqldb_in_cpp.Kv.Overlay.{OverlayCursor}
use hands_on_sqldb_in_cpp.Kv.Overlay
use hands_on_sqldb_in_cpp.Kv.Merging.{
  MergingIterator, stand_on, round, advance_sources, db_valid, db_row, overlay_first, finished,
  again, invalidate,
}
use hands_on_sqldb_in_cpp.Kv.Merging.Front.{
  Entries, Front, exhausted, item, deleted_key, written_value,
}

module _ (it0 : MockIterator) (b : TxBuffer) (range : KeyRange)
    (is_forward-range : is_forward range.direction ≡ true) (same_range : it0.range ≡ range) where
  abbrev pub cursor : ℕ → OverlayCursor
  cursor j = record { buffer = some b; range = range; it = j }

  abbrev pub db_at : ℕ → Option MockIterator
  db_at i = some (move_to i it0)

  -- The two sources at the places i and j.
  abbrev pub at : ℕ → ℕ → MergingIterator → MergingIterator
  at i j m = record m {
    db = db_at i;
    buffer = some b;
    overlay = cursor j;
    direction = range.direction;
  }

  pub db_end : (i : ℕ) → drop i it0.rows ≡ [] → db_valid (db_at i) ≡ false
  db_end i h = place_over it0 i (drop-nil i it0.rows h)

  pub db_here :
      (i : ℕ) (k : Key) (v : ByteValue) (rs : Rows)
      → drop i it0.rows ≡ (k, v) ∷ rs
      → contains range k ≡ true
      → (db_valid (db_at i) ≡ true)
        × (db_row (db_at i) ≡ (k, v))
        × (Iterator.next (move_to i it0) ≡ move_to (suc i) it0)
  db_here i k v rs h c =
      let (valid', pair, moved) =
        place_here it0 i (k, v) (drop-cons i it0.rows (k, v) rs h).0
          (ap (λ (r : KeyRange). contains r k) same_range ∙ c)
          (ap (λ (r : KeyRange). is_forward r.direction) same_range ∙ is_forward-range) in
      let one : i + 1 ≡ suc i = omega arith in
      (valid', rw pair refl, moved ∙ ap (λ n. move_to n it0) one)

  pub overlay_end : (j : ℕ) → drop j b.view ≡ [] → Overlay.valid (cursor j) ≡ false
  unfolding Overlay.valid
  overlay_end j h = rw (drop-nil j b.view h) refl

  pub overlay_here :
      (j : ℕ) (k : Key) (e : TxEntry) (os : Entries)
      → drop j b.view ≡ (k, e) ∷ os
      → (Overlay.valid (cursor j) ≡ contains range k)
        × (Overlay.key (cursor j) ≡ k)
        × (Overlay.op (cursor j) ≡ TxBuffer.lookup b k)
        × (Overlay.next (cursor j) ≡ cursor (suc j))
  unfolding Overlay.valid Overlay.op Overlay.next
  overlay_here j k e os h =
      let (here, rest, inside) = drop-cons j b.view (k, e) os h in
      let one : j + 1 ≡ suc j = omega arith in
      let not_end : (j == length b.view) ≡ false = ground (arith, inside) in
      (rw here refl, rw here refl, rw here refl, rw (not_end, is_forward-range, one) refl)

  abbrev standing : Key → ByteValue → Bool → Bool → ℕ → ℕ → MergingIterator → MergingIterator
  standing k v from_db from_overlay i j m = record (at i j m) {
    is_valid = true;
    current_key = k;
    current_value = v;
    from_db = from_db;
    from_overlay = from_overlay;
  }

  -- The iterator stands on the front, with what is left behind it, or at the end.
  abbrev pub IsAt : MergingIterator → Front → Type 0
  IsAt n exhausted = n.is_valid ≡ false
  IsAt n (item k v rs os) =
      (n.is_valid ≡ true)
      × (n.current_key ≡ k)
      × (n.current_value ≡ v)
      × ((i : ℕ) × (j : ℕ) × (drop i it0.rows ≡ rs)
          × (drop j b.view ≡ os)
          × (advance_sources n ≡ at i j n))

  module _ (i j : ℕ) (m : MergingIterator) where
    pub none_left :
        db_valid (db_at i) ≡ false
        → Overlay.valid (cursor j) ≡ false
        → round (at i j m) ≡ finished (invalidate (at i j m))
    unfolding round
    none_left d o = rw (d, o) refl

    -- The row below, which the buffer does not come before or stand at.
    pub from_below :
        (k : Key) (v : ByteValue) (rs : Rows) (os : Entries)
        → drop i it0.rows ≡ (k, v) ∷ rs
        → contains range k ≡ true
        → drop j b.view ≡ os
        → (Overlay.valid (cursor j) ≡ false)
          ⊎ ((Overlay.valid (cursor j) ≡ true) × (bytes_lt k (Overlay.key (cursor j)) ≡ true))
        → (n : MergingIterator) × (round (at i j m) ≡ finished n) × IsAt n (item k v rs os)
    unfolding round overlay_first stand_on advance_sources
    from_below k v rs os h c g (inl o) =
        let (d, row, moved) = db_here i k v rs h c in
        (
          standing k v true false i j m,
          rw (d, o, row, eqb_refl k) refl,
          (refl, refl, refl, (suc i, j, (drop-cons i it0.rows (k, v) rs h).1, g, rw moved refl)),
        )
    from_below k v rs os h c g (inr (o, l)) =
        let (d, row, moved) = db_here i k v rs h c in
        let later = lt→le k (Overlay.key (cursor j)) l in
        let differ : eqb (Overlay.key (cursor j)) k ≡ false = unfold eqb in ground (arith, l) in
        (
          standing k v true false i j m,
          rw (d, o, row, is_forward-range, later, l, eqb_refl k, differ) refl,
          (refl, refl, refl, (suc i, j, (drop-cons i it0.rows (k, v) rs h).1, g, rw moved refl)),
        )

    -- An entry of the buffer that comes before the rows below.
    abbrev pub IsFirst : Key → Type 0
    IsFirst k =
        (db_valid (db_at i) ≡ false)
        ⊎ ((db_valid (db_at i) ≡ true) × (bytes_lt k (db_row (db_at i)).0 ≡ true))

    overlay_first-IsFirst :
        (k : Key) (e : TxEntry) (os : Entries)
        → drop j b.view ≡ (k, e) ∷ os
        → contains range k ≡ true
        → IsFirst k
        → (overlay_first (at i j m) ≡ true)
          × ((db_valid (db_at i) && eqb (db_row (db_at i)).0 k) ≡ false)
    unfolding overlay_first eqb
    overlay_first-IsFirst k e os g c (inl d) =
        let (o, key, op, moved) = overlay_here j k e os g in (rw (o, c, d) refl, rw d refl)
    overlay_first-IsFirst k e os g c (inr (d, l)) =
        let (o, key, op, moved) = overlay_here j k e os g in
        (rw (o, c, d, key, is_forward-range) l, rw (d, l) (ground arith))

    pub skipped :
        (k : Key) (e : TxEntry) (os : Entries)
        → drop j b.view ≡ (k, e) ∷ os
        → contains range k ≡ true
        → IsFirst k
        → deleted_key b range k ≡ true
        → round (at i j m) ≡ again (at i (suc j) m)
    unfolding round
    skipped k e os g c first t =
        let (o, key, op, moved) = overlay_here j k e os g in
        let facts = overlay_first-IsFirst k e os g c first in
        rw (facts.0, o, c, op, t, moved) (ground arith)

    pub from_buffer :
        (k : Key) (e : TxEntry) (rs : Rows) (os : Entries)
        → drop i it0.rows ≡ rs
        → drop j b.view ≡ (k, e) ∷ os
        → contains range k ≡ true
        → IsFirst k
        → deleted_key b range k ≡ false
        → (n : MergingIterator) × (round (at i j m) ≡ finished n)
          × IsAt n (item k (written_value b range k) rs os)
    unfolding round stand_on advance_sources
    from_buffer k e rs os h g c first t =
        let (o, key, op, moved) = overlay_here j k e os g in
        let facts = overlay_first-IsFirst k e os g c first in
        (
          standing k (written_value b range k) false true i j m,
          rw (facts.0, o, c, op, t, key, facts.1, eqb_refl k) (ground arith),
          (refl, refl, refl, (i, suc j, h, (drop-cons j b.view (k, e) os g).1, rw moved refl)),
        )

    -- The buffer's entry for the key of the row below.
    pub both_deleted :
        (l k : Key) (v : ByteValue) (e : TxEntry) (rs : Rows) (os : Entries)
        → drop i it0.rows ≡ (l, v) ∷ rs
        → contains range l ≡ true
        → drop j b.view ≡ (k, e) ∷ os
        → contains range k ≡ true
        → bytes_lt k l ≡ false
        → bytes_lt l k ≡ false
        → deleted_key b range k ≡ true
        → round (at i j m) ≡ again (at (suc i) (suc j) m)
    unfolding round overlay_first
    both_deleted l k v e rs os h c g c' p q t =
        let (o, key, op, moved) = overlay_here j k e os g in
        let (d, row, moved_db) = db_here i l v rs h c in
        rw (o, c', d, key, row, is_forward-range, p, q, op, t, moved, moved_db) refl

    pub both_written :
        (l k : Key) (v : ByteValue) (e : TxEntry) (rs : Rows) (os : Entries)
        → drop i it0.rows ≡ (l, v) ∷ rs
        → contains range l ≡ true
        → drop j b.view ≡ (k, e) ∷ os
        → contains range k ≡ true
        → bytes_lt k l ≡ false
        → bytes_lt l k ≡ false
        → deleted_key b range k ≡ false
        → (n : MergingIterator) × (round (at i j m) ≡ finished n)
          × IsAt n (item l (written_value b range k) rs os)
    unfolding round overlay_first stand_on advance_sources
    both_written l k v e rs os h c g c' p q t =
        let (o, key, op, moved) = overlay_here j k e os g in
        let (d, row, moved_db) = db_here i l v rs h c in
        let same : eqb k l ≡ true = unfold eqb in ground (arith, p, q) in
        (
          standing l (written_value b range k) true true i j m,
          rw (o, c', d, key, row, is_forward-range, p, q, op, t, eqb_refl l, same) refl,
          (
            refl,
            refl,
            refl,
            (
              suc i,
              suc j,
              (drop-cons i it0.rows (l, v) rs h).1,
              (drop-cons j b.view (k, e) os g).1,
              rw (moved, moved_db) refl,
            ),
          ),
        )
