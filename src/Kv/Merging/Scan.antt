-- ===== src/Kv/Merging/Scan.antt =====
-- The rows that a forward scan through a merging iterator gives.
use hands_on_sqldb_in_cpp.Prelude.{
  ℕ, zero, suc, ◌+◌, ◌<◌, ◌≡◌, refl, ap, sym, subst, ◌∙◌, true, false, [], ◌∷◌, arith, length, drop,
  length-drop,
}
use hands_on_sqldb_in_cpp.Prelude.Order.{bytes_order}
use hands_on_sqldb_in_cpp.Prelude.Maps.{find}
use hands_on_sqldb_in_cpp.Kv.Batch.{Key, ByteValue, KeyRange}
use hands_on_sqldb_in_cpp.Kv.TxBuffer.{TxBuffer}
use hands_on_sqldb_in_cpp.Kv.Store.{Rows}
use hands_on_sqldb_in_cpp.Kv.Store.Rows.{Above, IsSorted, Above-mono}
use hands_on_sqldb_in_cpp.Kv.Iterator.{MockIterator, is_forward}
use hands_on_sqldb_in_cpp.Kv.Iterator.Scan.{AllIn}
use hands_on_sqldb_in_cpp.Kv.Merging.{MergingIterator, next, settle, advance_sources, collect}
use hands_on_sqldb_in_cpp.Kv.Merging.Front.{Entries, Front, exhausted, item, front}
use hands_on_sqldb_in_cpp.Kv.Merging.Shown.{shown, Splits}
use hands_on_sqldb_in_cpp.Kv.Merging.Merged.{front-Splits}
use hands_on_sqldb_in_cpp.Kv.Merging.Settles
use hands_on_sqldb_in_cpp.Kv.Merging.Walk.{IsAt, settle_loop-front}

AllIn-drop : (range : KeyRange) (i : ℕ) (rows : Rows) → AllIn range rows → AllIn range (drop i rows)
AllIn-drop range zero rows a = a
AllIn-drop range (suc i) [] a = tt
AllIn-drop range (suc i) (row ∷ rows) a = AllIn-drop range i rows a.1

collect-over : (fuel : ℕ) (m : MergingIterator) → m.is_valid ≡ false → collect fuel m ≡ []
unfolding collect
collect-over zero m h = refl
collect-over (suc fuel) m h = ground (arith, h)

collect-here :
    (fuel : ℕ) (m : MergingIterator) (k : Key) (v : ByteValue)
    → m.is_valid ≡ true
    → m.current_key ≡ k
    → m.current_value ≡ v
    → collect (suc fuel) m ≡ (k, v) ∷ collect fuel (next m)
unfolding collect
collect-here fuel m k v h p q = ground (arith, h, p, q)

next-valid : (m : MergingIterator) → m.is_valid ≡ true → next m ≡ settle (advance_sources m)
unfolding next
next-valid m h = ground (arith, h)

module _ (it0 : MockIterator) (b : TxBuffer) (range : KeyRange)
    (is_forward-range : is_forward range.direction ≡ true) (same_range : it0.range ≡ range)
    (inside : AllIn range it0.rows) where
  -- The rows are those that the two lists show, in order.
  abbrev pub Shows : Rows → Rows → Entries → Type 0
  Shows found rs os =
      IsSorted found
      × ((j : Key) → Above j rs → Above j os → Above j found)
      × ((j : Key) → find j found ≡ shown b range rs os j)

  pub settle-front :
      (i j : ℕ) (m : MergingIterator) (rs : Rows) (os : Entries)
      → drop i it0.rows ≡ rs
      → drop j b.view ≡ os
      → IsAt it0 b range is_forward-range same_range
          (settle (Settles.at it0 b range is_forward-range same_range i j m))
          (front b range rs os)
  unfolding settle
  settle-front i j m rs os h g =
      let in_range : AllIn range rs = subst (AllIn range) h (AllIn-drop range i it0.rows inside) in
      let shorter : length (drop j b.view) ≡ length os = ap length g in
      settle_loop-front it0 b range is_forward-range same_range (suc (length b.view)) i j m rs os h
        g in_range (omega (arith, length-drop j b.view, shorter))

  pub collect-Shows :
      (fuel : ℕ) (n : MergingIterator) (f : Front) (rs : Rows) (os : Entries)
      → IsAt it0 b range is_forward-range same_range n f
      → Splits b range rs os f
      → length rs + length os < fuel
      → Shows (collect fuel n) rs os
  unfolding find
  collect-Shows zero n f rs os p s l = absurd (omega arith)
  collect-Shows (suc fuel) n exhausted rs os p s l =
      rw (collect-over (suc fuel) n p) (tt, λ j x y. tt, λ j. sym (s j))
  collect-Shows (suc fuel) n (item k v rs' os') rs os (p1, p2, p3, (i, j, h, g, moved))
        (s1, s2, s3, s4, s5, s6, s7, s8) l =
      let in_range : AllIn range rs' = subst (AllIn range) h (AllIn-drop range i it0.rows inside) in
      let at_next =
        subst (λ m. IsAt it0 b range is_forward-range same_range m (front b range rs' os'))
          (sym (next-valid n p1 ∙ ap settle moved)) (settle-front i j n rs' os' h g) in
      let (t1, t2, t3) =
        collect-Shows fuel (next n) (front b range rs' os') rs' os' at_next
          (front-Splits b range rs' os' s1 s2 s3 in_range) (omega (arith, l, s6)) in
      let above = t2 k s4 s5 in
      rw (collect-here fuel n k v p1 p2 p3) (
        (above, t1),
        λ i x y. (s7 i x y, Above-mono i k (collect fuel (next n)) (s7 i x y) above),
        λ i. ground (arith, t3 i, s8 i),
      )
