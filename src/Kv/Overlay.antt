-- ===== src/Kv/Overlay.antt =====
-- storage/kv_engine/tx_buffer.h and tx_buffer.cpp, `OverlayCursor`: the keys that a transaction has
-- written, in their order, with what the buffer says of each. A place in the map is an index, and its
-- size the end. The buffer is not written to while a cursor stands on it.
use hands_on_sqldb_in_cpp.Prelude.{
  ℕ, suc, ◌+◌, ◌-◌, ◌==◌, Bool, true, false, ◌||◌, Option, none, some, [], ◌∷◌, length, get_elem?,
  if◌then◌else◌,
}
use hands_on_sqldb_in_cpp.Prelude.Order.{bytes_lt}
use hands_on_sqldb_in_cpp.Prelude.Maps.{Map}
use hands_on_sqldb_in_cpp.Kv.Batch.{Key, KeyRange}
use hands_on_sqldb_in_cpp.Kv.TxBuffer.{TxBuffer, TxEntry, OverlayOp, uncovered}
use hands_on_sqldb_in_cpp.Kv.TxBuffer
use hands_on_sqldb_in_cpp.Kv.Iterator.{is_forward, contains}

pub record OverlayCursor : Type 0 where
  pub buffer : Option TxBuffer
  pub range : KeyRange
  pub it : ℕ

abbrev pub view_of : OverlayCursor → Map Key TxEntry
view_of c = elim c.buffer [ none ↦ [] | some b ↦ b.view ]

abbrev pub no_buffer : OverlayCursor → Bool
no_buffer c = elim c.buffer [ none ↦ true | some b ↦ false ]

-- `view_.lower_bound(key)` and `view_.upper_bound(key)`.
unfoldable pub lower_bound : Map Key TxEntry → Key → ℕ
lower_bound [] key = 0
lower_bound ((k, e) ∷ view) key =
    let rest = lower_bound view key in if bytes_lt k key then suc rest else 0

unfoldable pub upper_bound : Map Key TxEntry → Key → ℕ
upper_bound [] key = 0
upper_bound ((k, e) ∷ view) key =
    let rest = upper_bound view key in if bytes_lt key k then 0 else suc rest

-- `it == begin() ? map_end_ : prev(it)`
abbrev pub before : OverlayCursor → ℕ → ℕ
before c i = if i == 0 then length (view_of c) else i - 1

-- `view_.empty() ? map_end_ : prev(map_end_)`
abbrev pub last_place : OverlayCursor → ℕ
last_place c = length (view_of c) - 1

abbrev pub entry_at : OverlayCursor → Option (Key × TxEntry)
entry_at c = get_elem? (view_of c) c.it

abbrev pub entry_in_bounds : KeyRange → Option (Key × TxEntry) → Bool
entry_in_bounds range none = false
entry_in_bounds range (some entry) = contains range entry.0

unfoldable pub valid : OverlayCursor → Bool
unfolding contains
valid c = entry_in_bounds c.range (entry_at c)

-- `it_->first`; at the end of the map the source may not be asked.
abbrev pub key : OverlayCursor → Key
key c = elim (entry_at c) [ none ↦ [] | some entry ↦ entry.0 ]

unfoldable pub op : OverlayCursor → OverlayOp
op c = elim c.buffer [ none ↦ uncovered | some b ↦ TxBuffer.lookup b (key c) ]

unfoldable pub next : OverlayCursor → OverlayCursor
next c =
    if no_buffer c || (c.it == length (view_of c))
    then c
    else record c { it = if is_forward c.range.direction then c.it + 1 else before c c.it }

unfoldable pub prev : OverlayCursor → OverlayCursor
prev c =
    if no_buffer c
    then c
    else if c.it == length (view_of c)
    then record c { it = last_place c }
    else record c { it = if is_forward c.range.direction then before c c.it else c.it + 1 }

unfoldable pub seek : Key → OverlayCursor → OverlayCursor
unfolding lower_bound upper_bound
seek k c = if no_buffer c then c else record c {
  it =
      if is_forward c.range.direction
      then lower_bound (view_of c) k
      else before c (upper_bound (view_of c) k);
}

-- The smallest place of the range, and the largest.
abbrev pub low_place : OverlayCursor → ℕ
low_place c = elim c.range.start [ some begin ↦ lower_bound (view_of c) begin | none ↦ 0 ]

abbrev pub high_place : OverlayCursor → ℕ
high_place c = elim c.range.end [
  | some end ↦ before c (lower_bound (view_of c) end)
  | none ↦ last_place c
]

unfoldable pub seek_start : OverlayCursor → OverlayCursor
unfolding lower_bound
seek_start c =
    if no_buffer c
    then c
    else record c { it = if is_forward c.range.direction then low_place c else high_place c }

unfoldable pub seek_finish : OverlayCursor → OverlayCursor
unfolding lower_bound
seek_finish c =
    if no_buffer c
    then c
    else record c { it = if is_forward c.range.direction then high_place c else low_place c }

-- `TxBuffer::overlay_scan`, the constructor.
unfoldable pub overlay_scan : Option TxBuffer → KeyRange → OverlayCursor
unfolding seek_start
overlay_scan buffer range = seek_start (record { buffer = buffer; range = range; it = 0 })
