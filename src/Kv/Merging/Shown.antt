-- ===== src/Kv/Merging/Shown.antt =====
-- What the merge of two sorted lists shows at each key.
use hands_on_sqldb_in_cpp.Prelude.{
  ◌+◌, ◌<◌, ◌≡◌, refl, true, false, Option, none, some, [], ◌∷◌, arith, length, if◌then◌else◌,
  Bool-cases, inl, inr, subst,
}
use hands_on_sqldb_in_cpp.Prelude.Order.{bytes_lt, bytes_order, eqb, eqb→eq, eqb_refl}
use hands_on_sqldb_in_cpp.Prelude.Maps.{find}
use hands_on_sqldb_in_cpp.Kv.Batch.{Key, ByteValue, KeyRange}
use hands_on_sqldb_in_cpp.Kv.TxBuffer.{TxBuffer, TxEntry}
use hands_on_sqldb_in_cpp.Kv.Store.{Rows}
use hands_on_sqldb_in_cpp.Kv.Store.Rows.{Above, IsSorted, find-Above}
use hands_on_sqldb_in_cpp.Kv.Iterator.{before_start, past_end, contains}
use hands_on_sqldb_in_cpp.Kv.Iterator.Scan.{past_end_mono}
use hands_on_sqldb_in_cpp.Kv.Merging.Front.{
  Entries, Front, exhausted, item, deleted_key, written_value,
}

not_less : (j k : Key) → eqb j k ≡ true → bytes_lt j k ≡ false
unfolding eqb
not_less j k h = ground (arith, h)

module _ (b : TxBuffer) (range : KeyRange) where
  -- A written key in the range shows what the buffer says, any other key the row below.
  abbrev pub shown_over : Key → Option TxEntry → Option ByteValue → Option ByteValue
  shown_over k none below = below
  shown_over k (some e) below =
      if contains range k
      then if deleted_key b range k then none else some (written_value b range k)
      else below

  abbrev pub shown : Rows → Entries → Key → Option ByteValue
  shown rs os k = shown_over k (find k os) (find k rs)

  -- No entry lies before the start of the range.
  abbrev pub AllFrom : Entries → Type 0
  AllFrom [] = Unit {0}
  AllFrom ((k, e) ∷ os) = (before_start range k ≡ false) × AllFrom os

  -- The front is what is shown at the smallest key, and the rest shows every other key.
  abbrev pub Splits : Rows → Entries → Front → Type 0
  Splits rs os exhausted = (k : Key) → shown rs os k ≡ none
  Splits rs os (item k v rs' os') =
      IsSorted rs'
      × IsSorted os'
      × AllFrom os'
      × Above k rs'
      × Above k os'
      × (length rs' + length os' < length rs + length os)
      × ((j : Key) → Above j rs → Above j os → bytes_lt j k ≡ true)
      × ((j : Key) → shown rs os j ≡ (if eqb k j then some v else shown rs' os' j))

  -- Past the end of the range the buffer shows nothing.
  pub shown-past :
      (rs : Rows) (k : Key) (e : TxEntry) (os : Entries)
      → IsSorted ((k, e) ∷ os)
      → past_end range k ≡ true
      → (j : Key) → shown rs ((k, e) ∷ os) j ≡ find j rs
  unfolding find contains
  shown-past rs k e [] s p j = ground (arith, eqb→eq k j, p)
  shown-past rs k e ((l, f) ∷ os) s p j =
      ground (arith, shown-past rs l f os s.1 (past_end_mono range k l s.0.0 p) j, eqb→eq k j, p)

  module _ (k : Key) (e : TxEntry) (rs : Rows) (os : Entries) where
    shown-buffer :
        (j : Key)
        → contains range k ≡ true
        → shown rs ((k, e) ∷ os) j ≡ (
            if eqb k j
            then (if deleted_key b range k then none else some (written_value b range k))
            else shown rs os j)
    unfolding find
    shown-buffer j c = elim (Bool-cases (eqb k j)) [
      | inl s ↦
          subst
            (λ i. shown rs ((k, e) ∷ os) i ≡ (
              if eqb k i
              then (if deleted_key b range k then none else some (written_value b range k))
              else shown rs os i))
            (eqb→eq k j s) (rw (eqb_refl k, c) refl)
      | inr s ↦ rw s refl
    ]

    nothing-here : (j : Key) → Above k rs → Above k os → eqb k j ≡ true → shown rs os j ≡ none
    nothing-here j r o s =
        let none_os = find-Above j k os o in
        let none_rs = find-Above j k rs r in
        let same = not_less k j s in rw (none_os same, none_rs same) refl

    pub deleted-front :
        (f : Front)
        → contains range k ≡ true
        → deleted_key b range k ≡ true
        → Above k rs
        → Above k os
        → Splits rs os f
        → Splits rs ((k, e) ∷ os) f
    deleted-front exhausted c t r o s = λ j. ground (arith, shown-buffer j c, t, s j)
    deleted-front (item i v rs' os') c t r o (s1, s2, s3, s4, s5, s6, s7, s8) = (
      s1,
      s2,
      s3,
      s4,
      s5,
      omega (arith, s6),
      λ j x y. s7 j x y.1,
      λ j. ground (arith, shown-buffer j c, t, s8 j, nothing-here j r o),
    )

    pub buffer-front :
        contains range k ≡ true
        → deleted_key b range k ≡ false
        → Above k rs
        → IsSorted rs
        → IsSorted ((k, e) ∷ os)
        → AllFrom ((k, e) ∷ os)
        → Splits rs ((k, e) ∷ os) (item k (written_value b range k) rs os)
    buffer-front c t r sr so a = (
      sr,
      so.1,
      a.1,
      r,
      so.0,
      omega arith,
      λ j x y. y.0,
      λ j. ground (arith, shown-buffer j c, t),
    )

  pub row-front :
      (r : Key) (v : ByteValue) (rs : Rows) (os : Entries)
      → IsSorted ((r, v) ∷ rs)
      → IsSorted os
      → AllFrom os
      → Above r os
      → Splits ((r, v) ∷ rs) os (item r v rs os)
  unfolding find
  row-front r v rs os sr so a above =
      let nothing : (j : Key) → eqb r j ≡ true → find j os ≡ none =
        λ j s. let same = not_less r j s in find-Above j r os above same in
      (sr.1, so, a, sr.0, above, omega arith, λ j x y. x.0, λ j. ground (arith, nothing j))

  -- The row below and the entry of the buffer have one key.
  module _ (k : Key) (v : ByteValue) (e : TxEntry) (rs : Rows) (os : Entries)
      (c : contains range k ≡ true) where
    shown-both :
        (j : Key)
        → shown ((k, v) ∷ rs) ((k, e) ∷ os) j ≡ (
            if eqb k j
            then (if deleted_key b range k then none else some (written_value b range k))
            else shown rs os j)
    unfolding find
    shown-both j = ground (arith, shown-buffer k e ((k, v) ∷ rs) os j c)

    pub both-deleted-front :
        (f : Front)
        → deleted_key b range k ≡ true
        → Above k rs
        → Above k os
        → Splits rs os f
        → Splits ((k, v) ∷ rs) ((k, e) ∷ os) f
    both-deleted-front exhausted t r o s = λ j. ground (arith, shown-both j, t, s j)
    both-deleted-front (item i w rs' os') t r o (s1, s2, s3, s4, s5, s6, s7, s8) = (
      s1,
      s2,
      s3,
      s4,
      s5,
      omega (arith, s6),
      λ j x y. s7 j x.1 y.1,
      λ j. ground (arith, shown-both j, t, s8 j, nothing-here k e rs os j r o),
    )

    pub both-written-front :
        deleted_key b range k ≡ false
        → IsSorted ((k, v) ∷ rs)
        → IsSorted ((k, e) ∷ os)
        → AllFrom ((k, e) ∷ os)
        → Splits ((k, v) ∷ rs) ((k, e) ∷ os) (item k (written_value b range k) rs os)
    both-written-front t sr so a = (
      sr.1,
      so.1,
      a.1,
      sr.0,
      so.0,
      omega arith,
      λ j x y. x.0,
      λ j. ground (arith, shown-both j, t),
    )
