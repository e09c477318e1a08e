-- ===== src/Kv/Merging/Start.antt =====
-- Where the scan of a connection starts, and what it then gives, whatever the transaction wrote.
use hands_on_sqldb_in_cpp.Prelude.{
  ℕ, zero, suc, ◌+◌, ◌<◌, ◌≤◌, ◌≡◌, refl, sym, subst, ◌∙◌, true, false, Option, none, some, List,
  [], ◌∷◌, arith, length, drop, length-drop, if◌then◌else◌, Bool-cases, inl, inr,
}
use hands_on_sqldb_in_cpp.Prelude.Order.{bytes_lt, bytes_order, eqb, eqb→eq}
use hands_on_sqldb_in_cpp.Prelude.Maps.{find}
use hands_on_sqldb_in_cpp.Kv.Batch.{Key, ByteValue, KeyRange, success, forward}
use hands_on_sqldb_in_cpp.Kv.TxBuffer.{TxBuffer, TxEntry}
use hands_on_sqldb_in_cpp.Kv.Store.{Rows}
use hands_on_sqldb_in_cpp.Kv.Store.Rows.{IsSorted}
use hands_on_sqldb_in_cpp.Kv.Iterator.{
  MockIterator, is_forward, contains, before_start, materialize, make, seek_to_first, move_to,
}
use hands_on_sqldb_in_cpp.Kv.Iterator
use hands_on_sqldb_in_cpp.Kv.Iterator.Scan.{
  rows_in-IsSorted, rows_in, rows_in-AllIn, materialize-rows_in, before_start_mono, find-rows_in,
}
use hands_on_sqldb_in_cpp.Kv.Overlay.{lower_bound, low_place, overlay_scan, seek_start}
use hands_on_sqldb_in_cpp.Kv.Engine.{Conn}
use hands_on_sqldb_in_cpp.Kv.Merging.{
  MergingIterator, merging, merge, settle, collect, new_iterator,
}
use hands_on_sqldb_in_cpp.Kv.Merging.Front.{Entries, front}
use hands_on_sqldb_in_cpp.Kv.Merging.Shown.{shown, shown_over, AllFrom}
use hands_on_sqldb_in_cpp.Kv.Merging.Merged.{front-Splits}
use hands_on_sqldb_in_cpp.Kv.Merging.Settles
use hands_on_sqldb_in_cpp.Kv.Merging.Scan.{settle-front, collect-Shows}

-- The rows below the buffer of a connection: its snapshot, or the rows of the store.
abbrev pub rows_below : Conn → Rows
rows_below c = elim c.snapshot [ some rows ↦ rows | none ↦ c.store.rows ]

IsSorted-drop : {V : Type 0} → (i : ℕ) (m : List (Key × V)) → IsSorted m → IsSorted (drop i m)
IsSorted-drop zero m s = s
IsSorted-drop (suc i) [] s = tt
IsSorted-drop (suc i) (row ∷ m) s = IsSorted-drop i m s.1

AllFrom-sorted :
    (b : TxBuffer) (range : KeyRange) (k : Key) (e : TxEntry) (os : Entries)
    → IsSorted ((k, e) ∷ os)
    → before_start range k ≡ false
    → AllFrom b range ((k, e) ∷ os)
AllFrom-sorted b range k e [] s h = (h, tt)
AllFrom-sorted b range k e ((l, f) ∷ os) s h =
    (h, AllFrom-sorted b range l f os s.1 (before_start_mono range k l s.0.0 h))

AllFrom-lower_bound :
    (b : TxBuffer) (range : KeyRange) (begin : Key) (view : Entries)
    → range.start ≡ some begin
    → IsSorted view
    → AllFrom b range (drop (lower_bound view begin) view)
unfolding lower_bound
AllFrom-lower_bound b range begin [] h s = tt
AllFrom-lower_bound b range begin ((k, e) ∷ os) h s = elim (Bool-cases (bytes_lt k begin)) [
  | inl p ↦ rw p (AllFrom-lower_bound b range begin os h s.1)
  | inr p ↦ rw p (AllFrom-sorted b range k e os s (rw h p))
]

find-lower_bound :
    (begin k : Key) (view : Entries)
    → bytes_lt k begin ≡ false
    → find k (drop (lower_bound view begin) view) ≡ find k view
unfolding lower_bound find
find-lower_bound begin k [] h = refl
find-lower_bound begin k ((j, e) ∷ os) h = elim (Bool-cases (bytes_lt j begin)) [
  | inl p ↦
      let differ : eqb j k ≡ true → bytes_lt k begin ≡ true =
        λ s. subst (λ (i : Key). bytes_lt i begin ≡ true) (eqb→eq j k s) p in
      rw p (ground (arith, find-lower_bound begin k os h, differ, h))
  | inr p ↦ rw p refl
]

-- The places of the two sources before the first `settle`.
abbrev scanned : Rows → KeyRange → MockIterator
scanned rows range = record {
  rows = rows_in range rows;
  range = range;
  index = 0;
  status = success;
}

abbrev start_place : TxBuffer → KeyRange → ℕ
start_place t range = low_place (record { buffer = some t; range = range; it = 0 })

make-scanned :
    (rows : Rows) (range : KeyRange)
    → IsSorted rows
    → is_forward range.direction ≡ true
    → make (materialize rows range) range ≡ move_to 0 (scanned rows range)
unfolding make seek_to_first
make-scanned rows range s f = rw (materialize-rows_in rows range s, f) refl

abbrev entries_from : TxBuffer → KeyRange → Entries
entries_from t range = drop (start_place t range) t.view

entries_from-AllFrom :
    (t : TxBuffer) (range : KeyRange) → IsSorted t.view → AllFrom t range (entries_from t range)
entries_from-AllFrom t range s = by_start range.start refl
  where
    place_of : Option Key → Type 0
    place_of o =
        AllFrom t range (drop (elim o [ some begin ↦ lower_bound t.view begin | none ↦ 0 ]) t.view)

    all_from : (view : Entries) → range.start ≡ none → AllFrom t range view
    all_from [] e = tt
    all_from ((k, o) ∷ view) e = (rw e refl, all_from view e)

    by_start :
        (o : Option Key) → range.start ≡ o → AllFrom t range (drop (start_place t range) t.view)
    by_start none e = subst place_of (sym e) (all_from t.view e)
    by_start (some begin) e = subst place_of (sym e) (AllFrom-lower_bound t range begin t.view e s)

find-entries_from :
    (t : TxBuffer) (range : KeyRange) (k : Key)
    → contains range k ≡ true
    → find k (entries_from t range) ≡ find k t.view
unfolding contains
find-entries_from t range k c = by_start range.start refl
  where
    by_start :
        (o : Option Key)
        → range.start ≡ o
        → find k (drop (start_place t range) t.view) ≡ find k t.view
    by_start none e = rw e refl
    by_start (some begin) e =
        let after : bytes_lt k begin ≡ false = ground (arith, c, e) in
        rw e (find-lower_bound begin k t.view after)

-- Which row a scan shows at a key.
abbrev pub scan_shows : TxBuffer → KeyRange → Rows → Key → Option ByteValue
scan_shows t range rows k =
    if contains range k then shown_over t range k (find k t.view) (find k rows) else none

shown-scan_shows :
    (t : TxBuffer) (range : KeyRange) (rows : Rows) (k : Key)
    → shown t range (rows_in range rows) (entries_from t range) k ≡ scan_shows t range rows k
shown-scan_shows t range rows k = elim (Bool-cases (contains range k)) [
  | inl c ↦ rw (find-rows_in range k rows, find-entries_from t range k c, c) refl
  | inr c ↦ rw (find-rows_in range k rows, c) (by_entry (find k (entries_from t range)) c)
]
  where
    by_entry : (o : Option TxEntry) → contains range k ≡ false → shown_over t range k o none ≡ none
    by_entry none c = refl
    by_entry (some e) c = rw c refl

length-rows_in : (range : KeyRange) (rows : Rows) → length (rows_in range rows) ≤ length rows
unfolding rows_in
length-rows_in range [] = omega arith
length-rows_in range ((k, v) ∷ rows) = ground (arith, length-rows_in range rows)

merge-scanned :
    (t : TxBuffer) (range : KeyRange) (rows : Rows)
    → IsSorted rows
    → (f : is_forward range.direction ≡ true)
    → (m : MergingIterator) × (merge (some (make (materialize rows range) range)) (some t) range
        ≡ settle (Settles.at (scanned rows range) t range f refl 0 (start_place t range) m))
unfolding merge overlay_scan seek_start
merge-scanned t range rows s f = (
  record {
    db = none;
    buffer = none;
    overlay = record { buffer = none; range = range; it = 0 };
    direction = range.direction;
    is_valid = false;
    current_key = [];
    current_value = [];
    from_db = false;
    from_overlay = false;
  },
  rw (make-scanned rows range s f, f) refl,
)

new_iterator-merging :
    (c : Conn) (t : TxBuffer) (range : KeyRange)
    → c.store.is_open ≡ true
    → c.tx ≡ some t
    → new_iterator range c
      ≡ some (merging (merge (some (make (materialize (rows_below c) range) range)) (some t) range))
unfolding new_iterator Iterator.new_iterator
new_iterator-merging c t range o e = by_snapshot c.snapshot refl
  where
    by_snapshot :
        (rows : Option Rows)
        → c.snapshot ≡ rows
        → new_iterator range c
          ≡ some (
              merging (merge (some (make (materialize (rows_below c) range) range)) (some t) range))
    by_snapshot none s = rw (o, e, s) refl
    by_snapshot (some rows) s = rw (o, e, s) refl

-- A scan of a transaction gives, in order, each key of the range with what the merge shows there.
pub scan_lem :
    (c : Conn) (t : TxBuffer) (range : KeyRange) (fuel : ℕ)
    → c.store.is_open ≡ true
    → c.tx ≡ some t
    → IsSorted (rows_below c)
    → IsSorted t.view
    → range.direction ≡ forward
    → length (rows_below c) + length t.view < fuel
    → (m : MergingIterator) × (new_iterator range c ≡ some (merging m))
      × IsSorted (collect fuel m)
      × ((k : Key) → find k (collect fuel m) ≡ scan_shows t range (rows_below c) k)
scan_lem c t range fuel o e s sv d l =
    let rows = rows_below c in
    let f : is_forward range.direction ≡ true = rw d refl in
    let (m, start) = merge-scanned t range rows s f in
    let inside = rows_in-AllIn range rows in
    let place =
      settle-front (scanned rows range) t range f refl inside 0 (start_place t range) m
        (rows_in range rows) (entries_from t range) refl refl in
    let (sorted, above, shows) =
      collect-Shows (scanned rows range) t range f refl inside fuel
        (settle (Settles.at (scanned rows range) t range f refl 0 (start_place t range) m))
        (front t range (rows_in range rows) (entries_from t range)) (rows_in range rows)
        (entries_from t range) place
        (front-Splits t range (rows_in range rows) (entries_from t range)
          (rows_in-IsSorted range rows s) (IsSorted-drop (start_place t range) t.view sv)
          (entries_from-AllFrom t range sv) inside)
        (omega (arith, l, length-drop (start_place t range) t.view, length-rows_in range rows)) in
    (
      merge (some (make (materialize rows range) range)) (some t) range,
      new_iterator-merging c t range o e,
      rw start sorted,
      λ k. rw start (shows k ∙ shown-scan_shows t range rows k),
    )
