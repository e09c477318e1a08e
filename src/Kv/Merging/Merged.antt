-- ===== src/Kv/Merging/Merged.antt =====
-- The whole merge: every shown key once, in order.
use hands_on_sqldb_in_cpp.Prelude.{
  ◌≡◌, refl, sym, subst, true, false, [], ◌∷◌, arith, Bool-cases, inl, inr,
}
use hands_on_sqldb_in_cpp.Prelude.Order.{bytes_lt, bytes_order, bytes_lt_connex}
use hands_on_sqldb_in_cpp.Prelude.Maps.{find}
use hands_on_sqldb_in_cpp.Kv.Batch.{Key, ByteValue, KeyRange}
use hands_on_sqldb_in_cpp.Kv.TxBuffer.{TxBuffer, TxEntry}
use hands_on_sqldb_in_cpp.Kv.Store.{Rows}
use hands_on_sqldb_in_cpp.Kv.Store.Rows.{Above, IsSorted, Above-mono}
use hands_on_sqldb_in_cpp.Kv.Iterator.{before_start, past_end, contains}
use hands_on_sqldb_in_cpp.Kv.Iterator.Scan.{AllIn, past_end_mono}
use hands_on_sqldb_in_cpp.Kv.Merging.Front.{Entries, Front, item, front, deleted_key, written_value}
use hands_on_sqldb_in_cpp.Kv.Merging.Shown.{
  AllFrom, Splits, shown-past, deleted-front, buffer-front, row-front, both-deleted-front,
  both-written-front,
}

module _ (b : TxBuffer) (range : KeyRange) where
  past_head :
      (k : Key) → before_start range k ≡ false → contains range k ≡ false → past_end range k ≡ true
  unfolding contains
  past_head k s c = ground (arith, s, c)

  -- A row in the range comes before a key past its end.
  row_before : (r k : Key) → contains range r ≡ true → past_end range k ≡ true → bytes_lt r k ≡ true
  unfolding contains
  row_before r k c p = ground (arith, c, p, past_end_mono range k r, bytes_lt_connex r k)

  by_entry :
      (k : Key) (e : TxEntry) (rs : Rows) (os : Entries) (rest : Front)
      → IsSorted rs
      → IsSorted ((k, e) ∷ os)
      → AllFrom b range ((k, e) ∷ os)
      → contains range k ≡ true
      → Above k rs
      → Splits b range rs os rest
      → (deleted_key b range k ≡ true → front b range rs ((k, e) ∷ os) ≡ rest)
      → (deleted_key b range k ≡ false
          → front b range rs ((k, e) ∷ os) ≡ item k (written_value b range k) rs os)
      → Splits b range rs ((k, e) ∷ os) (front b range rs ((k, e) ∷ os))
  by_entry k e rs os rest sr so f c above s deeper here =
      elim (Bool-cases (deleted_key b range k)) [
        | inl t ↦ rw (deeper t) (deleted-front b range k e rs os rest c t above so.0 s)
        | inr t ↦ rw (here t) (buffer-front b range k e rs os c t above sr so f)
      ]

  by_both :
      (r k : Key) (v : ByteValue) (e : TxEntry) (rs : Rows) (os : Entries)
      → IsSorted ((r, v) ∷ rs)
      → IsSorted ((k, e) ∷ os)
      → AllFrom b range ((k, e) ∷ os)
      → contains range k ≡ true
      → bytes_lt k r ≡ false
      → bytes_lt r k ≡ false
      → Splits b range rs os (front b range rs os)
      → Splits b range ((r, v) ∷ rs) ((k, e) ∷ os) (front b range ((r, v) ∷ rs) ((k, e) ∷ os))
  unfolding front
  by_both r k v e rs os sr so f c p q s =
      let same : r ≡ k = bytes_lt_connex r k q p in
      let above : Above k rs = subst (λ (i : Key). Above i rs) same sr.0 in
      elim (Bool-cases (deleted_key b range k)) [
        | inl t ↦
            rw (c, p, q, t)
              (subst (λ (i : Key). Splits b range ((i, v) ∷ rs) ((k, e) ∷ os) (front b range rs os))
                (sym same)
                (both-deleted-front b range k v e rs os c (front b range rs os) t above so.0 s))
        | inr t ↦
            rw (c, p, q, t)
              (subst
                (λ (i : Key).
                  Splits b range ((i, v) ∷ rs) ((k, e) ∷ os)
                    (item i (written_value b range k) rs os))
                (sym same) (both-written-front b range k v e rs os c t (above, sr.1) so f))
      ]

  pub front-Splits :
      (rs : Rows) (os : Entries)
      → IsSorted rs
      → IsSorted os
      → AllFrom b range os
      → AllIn range rs
      → Splits b range rs os (front b range rs os)
  unfolding front find
  front-Splits [] [] sr so f a = λ k. refl
  front-Splits ((r, v) ∷ rs) [] sr so f a = row-front b range r v rs [] sr so f tt
  front-Splits [] ((k, e) ∷ os) sr so f a = elim (Bool-cases (contains range k)) [
    | inr c ↦ rw c (λ j. shown-past b range [] k e os so (past_head k f.0 c) j)
    | inl c ↦
        by_entry k e [] os (front b range [] os) sr so f c tt (front-Splits [] os sr so.1 f.1 a)
          (λ t. rw (c, t) refl) (λ t. rw (c, t) refl)
  ]
  front-Splits ((r, v) ∷ rs) ((k, e) ∷ os) sr so f a =
      let rest = front-Splits ((r, v) ∷ rs) os sr so.1 f.1 a in
      let both = front-Splits rs os sr.1 so.1 f.1 a.1 in
      let row : bytes_lt r k ≡ true
          → Splits b range ((r, v) ∷ rs) ((k, e) ∷ os) (item r v rs ((k, e) ∷ os)) =
        λ l. row-front b range r v rs ((k, e) ∷ os) sr so f (l, Above-mono r k os l so.0) in
      elim (Bool-cases (contains range k)) [
        | inr c ↦ rw c (row (row_before r k a.0 (past_head k f.0 c)))
        | inl c ↦ elim (Bool-cases (bytes_lt k r)) [
          | inl p ↦
              by_entry k e ((r, v) ∷ rs) os (front b range ((r, v) ∷ rs) os) sr so f c
                (p, Above-mono k r rs p sr.0) rest (λ t. rw (c, p, t) refl) (λ t. rw (c, p, t) refl)
          | inr p ↦ elim (Bool-cases (bytes_lt r k)) [
            | inl q ↦ rw (c, p, q) (row q)
            | inr q ↦ by_both r k v e rs os sr so f c p q both
          ]
        ]
      ]
