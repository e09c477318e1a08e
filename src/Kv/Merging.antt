-- ===== src/Kv/Merging.antt =====
-- storage/kv_engine/merging_iterator.h and merging_iterator.cpp: the scan of a transaction, the rows
-- below it and the keys that it has written merged into one sequence. The iterator below is the mock
-- engine's. The loops take fuel: each round moves a source by one.
pub mod Front
pub mod Settles
pub mod Start
pub mod Transaction
pub mod Scan
pub mod Merged
pub mod Shown
pub mod Walk
use hands_on_sqldb_in_cpp.Prelude.{
  ℕ, zero, suc, ◌+◌, Bool, true, false, not, ◌||◌, ◌&&◌, Option, none, some, List, [], ◌∷◌, length,
  if◌then◌else◌,
}
use hands_on_sqldb_in_cpp.Prelude.Order.{bytes_lt, bytes_order, eqb}
use hands_on_sqldb_in_cpp.Kv.Batch.{Key, ByteValue, KeyRange, ScanDirection, Status, internal_error}
use hands_on_sqldb_in_cpp.Kv.TxBuffer.{TxBuffer, OverlayOp, value, tombstone, uncovered}
use hands_on_sqldb_in_cpp.Kv.TxBuffer
use hands_on_sqldb_in_cpp.Kv.Iterator.{MockIterator, is_forward, kvpair}
use hands_on_sqldb_in_cpp.Kv.Iterator
use hands_on_sqldb_in_cpp.Kv.Overlay.{OverlayCursor, overlay_scan, view_of}
use hands_on_sqldb_in_cpp.Kv.Overlay
use hands_on_sqldb_in_cpp.Kv.Engine.{Conn}
use hands_on_sqldb_in_cpp.Kv.Store

pub record MergingIterator : Type 0 where
  pub db : Option MockIterator
  pub buffer : Option TxBuffer
  pub overlay : OverlayCursor
  pub direction : ScanDirection
  pub is_valid : Bool
  pub current_key : Key
  pub current_value : ByteValue
  pub from_db : Bool
  pub from_overlay : Bool

abbrev pub db_valid : Option MockIterator → Bool
db_valid none = false
db_valid (some it) = Iterator.valid it

-- `key()` and `value()` of the iterator below, which are empty where it stands on no row.
abbrev pub row_of : Option (Key × ByteValue) → Key × ByteValue
row_of none = ([], [])
row_of (some row) = row

abbrev pub db_row : Option MockIterator → Key × ByteValue
db_row none = ([], [])
db_row (some it) = row_of (kvpair it)

abbrev pub move_db : (MockIterator → MockIterator) → MergingIterator → MergingIterator
move_db f m = record m { db = elim m.db [ none ↦ none | some it ↦ some (f it) ] }

abbrev pub move_overlay : (OverlayCursor → OverlayCursor) → MergingIterator → MergingIterator
move_overlay f m = record m { overlay = f m.overlay }

abbrev pub is_tombstone : OverlayOp → Bool
is_tombstone (value v) = false
is_tombstone tombstone = true
is_tombstone uncovered = false

-- The field `value` of an operation, which only a write fills.
abbrev pub op_value : OverlayOp → ByteValue
op_value (value v) = v
op_value tombstone = []
op_value uncovered = []

-- Whether the first key comes before the second in the direction of the scan.
abbrev pub earlier : ScanDirection → Key → Key → Bool
earlier direction a b = if is_forward direction then bytes_lt a b else bytes_lt b a

abbrev pub later_in_scan : ScanDirection → Key → Key → Bool
later_in_scan direction a b = if is_forward direction then bytes_lt b a else bytes_lt a b

unfoldable pub overlay_first : MergingIterator → Bool
overlay_first m =
    if not (Overlay.valid m.overlay)
    then false
    else if not (db_valid m.db)
    then true
    else earlier m.direction (Overlay.key m.overlay) (db_row m.db).0

abbrev pub invalidate : MergingIterator → MergingIterator
invalidate m = record m { is_valid = false }

-- The end of `settle`, on the current row.
unfoldable pub stand_on : Key → ByteValue → MergingIterator → MergingIterator
stand_on k v m = record m {
  is_valid = true;
  current_key = k;
  current_value = v;
  from_db = db_valid m.db && eqb (db_row m.db).0 k;
  from_overlay = Overlay.valid m.overlay && eqb (Overlay.key m.overlay) k;
}

-- One round of the loop of `settle` ends the loop, or goes on.
pub data Round : Type 0 where
  finished : MergingIterator → Round
  again : MergingIterator → Round

abbrev pub same_key : MergingIterator → Bool
same_key m =
    Overlay.valid m.overlay && not (earlier m.direction (db_row m.db).0 (Overlay.key m.overlay))

unfoldable pub round : MergingIterator → Round
unfolding overlay_first stand_on
round m =
    if not (db_valid m.db) && not (Overlay.valid m.overlay)
    then finished (invalidate m)
    else if overlay_first m
    then if is_tombstone (Overlay.op m.overlay)
      then again (move_overlay Overlay.next m)
      else finished (stand_on (Overlay.key m.overlay) (op_value (Overlay.op m.overlay)) m)
    else if not (db_valid m.db)
    then finished (invalidate m)
    else if same_key m
    then if is_tombstone (Overlay.op m.overlay)
      then again (move_overlay Overlay.next (move_db Iterator.next m))
      else finished (stand_on (db_row m.db).0 (op_value (Overlay.op m.overlay)) m)
    else finished (stand_on (db_row m.db).0 (db_row m.db).1 m)

unfoldable pub settle_loop : ℕ → MergingIterator → MergingIterator
unfolding round
settle_loop zero m = m
settle_loop (suc fuel) m = elim (round m) [ finished n ↦ n | again n ↦ settle_loop fuel n ]

-- A round that goes on moves the overlay's cursor, so its keys and one round more are enough.
unfoldable pub settle : MergingIterator → MergingIterator
unfolding settle_loop
settle m = settle_loop (suc (length (view_of m.overlay))) m

unfoldable pub advance_sources : MergingIterator → MergingIterator
advance_sources m =
    let n = if m.from_db then move_db Iterator.next m else m in
    if m.from_overlay then move_overlay Overlay.next n else n

unfoldable pub next : MergingIterator → MergingIterator
unfolding advance_sources settle
next m = if not m.is_valid then m else settle (advance_sources m)

unfoldable pub seek : Key → MergingIterator → MergingIterator
unfolding settle
seek k m = settle (move_overlay (Overlay.seek k) (move_db (Iterator.seek k) m))

unfoldable pub seek_to_first : MergingIterator → MergingIterator
unfolding settle
seek_to_first m = settle (move_overlay Overlay.seek_start (move_db Iterator.seek_to_first m))

unfoldable pub reposition_to : Key → MergingIterator → MergingIterator
unfolding settle
reposition_to k m = settle (move_overlay (Overlay.seek k) (move_db (Iterator.seek k) m))

-- `buffer_ != nullptr && buffer_->lookup(db_->key()).is_tombstone()`
abbrev pub deleted : Option TxBuffer → Key → Bool
deleted none k = false
deleted (some b) k = is_tombstone (TxBuffer.lookup b k)

-- The loops that step back over deleted keys, in each of the sources.
unfoldable pub skip_db : ℕ → Option TxBuffer → MockIterator → MockIterator
skip_db zero buffer it = it
skip_db (suc fuel) buffer it = elim (Iterator.valid it && deleted buffer (row_of (kvpair it)).0) [
  | true ↦ skip_db fuel buffer (Iterator.prev it)
  | false ↦ it
]

unfoldable pub skip_overlay : ℕ → OverlayCursor → OverlayCursor
skip_overlay zero c = c
skip_overlay (suc fuel) c = elim (Overlay.valid c && is_tombstone (Overlay.op c)) [
  | true ↦ skip_overlay fuel (Overlay.prev c)
  | false ↦ c
]

unfoldable pub skip_back : MergingIterator → MergingIterator
unfolding skip_db skip_overlay
skip_back m =
    move_overlay (λ c. skip_overlay (suc (length (view_of c))) c)
      (move_db (λ it. skip_db (suc (length it.rows)) m.buffer it) m)

-- Of two candidates the one that is later in the scan, if there is one.
unfoldable pub later_candidate : MergingIterator → Option (Key × ByteValue)
later_candidate m =
    let has_db = db_valid m.db in
    let has_ov = Overlay.valid m.overlay in
    if not has_db && not has_ov
    then none
    else if has_ov
        && (not has_db || later_in_scan m.direction (Overlay.key m.overlay) (db_row m.db).0)
    then some (Overlay.key m.overlay, op_value (Overlay.op m.overlay))
    else some (db_row m.db)

abbrev pub back_from : Key → MockIterator → MockIterator
back_from k it =
    let found = Iterator.seek k it in
    if not (Iterator.valid found) then Iterator.seek_to_last found else Iterator.prev found

abbrev pub overlay_back_from : Key → OverlayCursor → OverlayCursor
overlay_back_from k c =
    let found = Overlay.seek k c in
    if not (Overlay.valid found) then Overlay.seek_finish found else Overlay.prev found

-- The second part is what both sources have become.
unfoldable pub predecessor_of : Key → MergingIterator → Option (Key × ByteValue) × MergingIterator
unfolding later_candidate skip_back
predecessor_of k m =
    let n = skip_back (move_overlay (overlay_back_from k) (move_db (back_from k) m)) in
    (later_candidate n, n)

unfoldable pub last_item : MergingIterator → Option (Key × ByteValue) × MergingIterator
unfolding later_candidate skip_back
last_item m =
    let n = skip_back (move_overlay Overlay.seek_finish (move_db Iterator.seek_to_last m)) in
    (later_candidate n, n)

abbrev pub stand_on_found : Option (Key × ByteValue) × MergingIterator → MergingIterator
stand_on_found (none, m) = invalidate m
stand_on_found (some row, m) = reposition_to row.0 m

unfoldable pub prev : MergingIterator → MergingIterator
unfolding predecessor_of reposition_to
prev m = if not m.is_valid then m else stand_on_found (predecessor_of m.current_key m)

unfoldable pub seek_to_last : MergingIterator → MergingIterator
unfolding last_item reposition_to
seek_to_last m = stand_on_found (last_item m)

unfoldable pub status : MergingIterator → Status
status m = elim m.db [ none ↦ internal_error | some it ↦ it.status ]

abbrev pub current : MergingIterator → Key × ByteValue
current m = if m.is_valid then (m.current_key, m.current_value) else ([], [])

-- The constructor.
unfoldable pub merge : Option MockIterator → Option TxBuffer → KeyRange → MergingIterator
unfolding overlay_scan settle
merge db buffer range = settle (record {
  db = db;
  buffer = buffer;
  overlay = overlay_scan buffer range;
  direction = range.direction;
  is_valid = false;
  current_key = [];
  current_value = [];
  from_db = false;
  from_overlay = false;
})

-- `MockEngine::new_iterator`: a connection in a transaction merges its buffer.
pub data EngineIterator : Type 0 where
  plain : MockIterator → EngineIterator
  merging : MergingIterator → EngineIterator

abbrev inner_iterator : KeyRange → Conn → Option MockIterator
inner_iterator range c = elim c.snapshot [
  | some rows ↦ some (Iterator.make (Iterator.materialize rows range) range)
  | none ↦ Iterator.new_iterator range c.store
]

abbrev over_buffer : KeyRange → Option TxBuffer → Option MockIterator → Option EngineIterator
over_buffer range tx none = none
over_buffer range none (some it) = some (plain it)
over_buffer range (some t) (some it) = some (merging (merge (some it) (some t) range))

unfoldable pub new_iterator : KeyRange → Conn → Option EngineIterator
unfolding merge
new_iterator range c =
    if not c.store.is_open then none else over_buffer range c.tx (inner_iterator range c)

-- `Iterator::collect(0)`: the loop, on fuel.
unfoldable pub collect : ℕ → MergingIterator → List (Key × ByteValue)
unfolding next
collect zero m = []
collect (suc fuel) m = elim m.is_valid [ true ↦ current m ∷ collect fuel (next m) | false ↦ [] ]
