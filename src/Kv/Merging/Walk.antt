-- ===== src/Kv/Merging/Walk.antt =====
-- The loop of `settle`, and the forward scan that calls it again and again.
use hands_on_sqldb_in_cpp.Prelude.{
  ℕ, zero, suc, ◌<◌, ◌≡◌, refl, subst, ◌∙◌, true, false, inl, inr, [], ◌∷◌, arith, length, drop,
  drop-cons, Bool-cases,
}
use hands_on_sqldb_in_cpp.Prelude.Order.{bytes_lt, bytes_order}
use hands_on_sqldb_in_cpp.Kv.Batch.{Key, KeyRange}
use hands_on_sqldb_in_cpp.Kv.TxBuffer.{TxBuffer, TxEntry}
use hands_on_sqldb_in_cpp.Kv.Store.{Rows}
use hands_on_sqldb_in_cpp.Kv.Iterator.{MockIterator, is_forward, contains}
use hands_on_sqldb_in_cpp.Kv.Iterator.Scan.{AllIn}
use hands_on_sqldb_in_cpp.Kv.Overlay
use hands_on_sqldb_in_cpp.Kv.Merging.{
  MergingIterator, round, settle_loop, finished, again, invalidate, db_valid,
}
use hands_on_sqldb_in_cpp.Kv.Merging.Front.{
  Entries, Front, exhausted, item, front, deleted_key, written_value,
}
use hands_on_sqldb_in_cpp.Kv.Merging.Settles

settle_loop-finished :
    (fuel : ℕ) (m n : MergingIterator) → round m ≡ finished n → settle_loop (suc fuel) m ≡ n
unfolding settle_loop
settle_loop-finished fuel m n h = ground (arith, h)

settle_loop-again :
    (fuel : ℕ) (m n : MergingIterator)
    → round m ≡ again n
    → settle_loop (suc fuel) m ≡ settle_loop fuel n
unfolding settle_loop
settle_loop-again fuel m n h = ground (arith, h)

module _ (it0 : MockIterator) (b : TxBuffer) (range : KeyRange)
    (is_forward-range : is_forward range.direction ≡ true) (same_range : it0.range ≡ range) where
  abbrev at : ℕ → ℕ → MergingIterator → MergingIterator
  at = Settles.at it0 b range is_forward-range same_range

  abbrev pub IsAt : MergingIterator → Front → Type 0
  IsAt = Settles.IsAt it0 b range is_forward-range same_range

  finish :
      (fuel i j : ℕ) (m : MergingIterator) (f : Front)
      → (n : MergingIterator) × (round (at i j m) ≡ finished n) × IsAt n f
      → IsAt (settle_loop (suc fuel) (at i j m)) f
  finish fuel i j m f (n, h, s) = rw (settle_loop-finished fuel (at i j m) n h) s

  stop :
      (fuel i j : ℕ) (m : MergingIterator)
      → db_valid (Settles.db_at it0 b range is_forward-range same_range i) ≡ false
      → Overlay.valid (Settles.cursor it0 b range is_forward-range same_range j) ≡ false
      → IsAt (settle_loop (suc fuel) (at i j m)) exhausted
  stop fuel i j m d o =
      rw
        (settle_loop-finished fuel (at i j m) (invalidate (at i j m))
          (Settles.none_left it0 b range is_forward-range same_range i j m d o))
        refl

  -- An entry that comes before the rows below is skipped or is the front.
  before :
      (fuel i j : ℕ) (m : MergingIterator) (k : Key) (e : TxEntry) (rs : Rows) (os : Entries)
      (f : Front)
      → drop i it0.rows ≡ rs
      → drop j b.view ≡ (k, e) ∷ os
      → contains range k ≡ true
      → Settles.IsFirst it0 b range is_forward-range same_range i j m k
      → (deleted_key b range k ≡ true → IsAt (settle_loop fuel (at i (suc j) m)) f)
      → (deleted_key b range k ≡ false → item k (written_value b range k) rs os ≡ f)
      → IsAt (settle_loop (suc fuel) (at i j m)) f
  before fuel i j m k e rs os f h g c first deeper here =
      elim (Bool-cases (deleted_key b range k)) [
        | inl t ↦
            rw
              (settle_loop-again fuel (at i j m) (at i (suc j) m)
                (Settles.skipped it0 b range is_forward-range same_range i j m k e os g c first t))
              (deeper t)
        | inr t ↦ subst (IsAt (settle_loop (suc fuel) (at i j m))) (here t) (
            finish fuel i j m (item k (written_value b range k) rs os) (
              Settles.from_buffer it0 b range is_forward-range same_range i j m k e rs os h g c
                first t))
      ]

  -- With a round for every entry that is left and one more, the loop stands on the front.
  pub settle_loop-front :
      (fuel i j : ℕ) (m : MergingIterator) (rs : Rows) (os : Entries)
      → drop i it0.rows ≡ rs
      → drop j b.view ≡ os
      → AllIn range rs
      → length os < fuel
      → IsAt (settle_loop fuel (at i j m)) (front b range rs os)
  unfolding front
  settle_loop-front zero i j m rs os h g a l = absurd (omega arith)
  settle_loop-front (suc fuel) i j m [] [] h g a l =
      let d = Settles.db_end it0 b range is_forward-range same_range i h in
      let o = Settles.overlay_end it0 b range is_forward-range same_range j g in stop fuel i j m d o
  settle_loop-front (suc fuel) i j m ((k, v) ∷ rs) [] h g a l =
      let o = Settles.overlay_end it0 b range is_forward-range same_range j g in
      finish fuel i j m (item k v rs [])
        (Settles.from_below it0 b range is_forward-range same_range i j m k v rs [] h a.0 g (inl o))
  settle_loop-front (suc fuel) i j m [] ((k, e) ∷ os) h g a l =
      elim (Bool-cases (contains range k)) [
        | inl c ↦
            let d = Settles.db_end it0 b range is_forward-range same_range i h in
            let ih =
              settle_loop-front fuel i (suc j) m [] os h (drop-cons j b.view (k, e) os g).1 a
                (omega arith) in
            before fuel i j m k e [] os (front b range [] ((k, e) ∷ os)) h g c (inl d)
              (λ t. rw (c, t) ih) (λ t. rw (c, t) refl)
        | inr c ↦
            let d = Settles.db_end it0 b range is_forward-range same_range i h in
            let o = Settles.overlay_here it0 b range is_forward-range same_range j k e os g in
            rw c (stop fuel i j m d (o.0 ∙ c))
      ]
  settle_loop-front (suc fuel) i j m ((r, v) ∷ rs) ((k, e) ∷ os) h g a l =
      let (d, row, moved) =
        Settles.db_here it0 b range is_forward-range same_range i r v rs h a.0 in
      let (o, key, op, moved_overlay) =
        Settles.overlay_here it0 b range is_forward-range same_range j k e os g in
      let rest = (drop-cons i it0.rows (r, v) rs h).1 in
      let rest' = (drop-cons j b.view (k, e) os g).1 in
      let ih = settle_loop-front fuel i (suc j) m ((r, v) ∷ rs) os h rest' a (omega arith) in
      let ih_both = settle_loop-front fuel (suc i) (suc j) m rs os rest rest' a.1 (omega arith) in
      elim (Bool-cases (contains range k)) [
        | inr c ↦ rw c (
            finish fuel i j m (item r v rs ((k, e) ∷ os)) (
              Settles.from_below it0 b range is_forward-range same_range i j m r v rs ((k, e) ∷ os)
                h a.0 g (inl (o ∙ c))))
        | inl c ↦ elim (Bool-cases (bytes_lt k r)) [
          | inl p ↦
              before fuel i j m k e ((r, v) ∷ rs) os (front b range ((r, v) ∷ rs) ((k, e) ∷ os)) h g
                c (inr (d, rw row p)) (λ t. rw (c, p, t) ih) (λ t. rw (c, p, t) refl)
          | inr p ↦ elim (Bool-cases (bytes_lt r k)) [
            | inl q ↦
                rw (c, p, q)
                  (finish fuel i j m (item r v rs ((k, e) ∷ os)) (
                    Settles.from_below it0 b range is_forward-range same_range i j m r v rs
                      ((k, e) ∷ os) h a.0 g (inr (o ∙ c, rw key q))))
            | inr q ↦ elim (Bool-cases (deleted_key b range k)) [
              | inl t ↦
                  rw
                    (
                      settle_loop-again fuel (at i j m) (at (suc i) (suc j) m) (
                          Settles.both_deleted it0 b range is_forward-range same_range i j m r k v e
                            rs os h a.0 g c p q t),
                      c,
                      p,
                      q,
                      t,
                    )
                    ih_both
              | inr t ↦
                  rw (c, p, q, t)
                    (finish fuel i j m (item r (written_value b range k) rs os) (
                      Settles.both_written it0 b range is_forward-range same_range i j m r k v e rs
                        os h a.0 g c p q t))
            ]
          ]
        ]
      ]
