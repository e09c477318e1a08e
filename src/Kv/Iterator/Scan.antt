-- ===== src/Kv/Iterator/Scan.antt =====
-- What a whole scan of the mock engine's iterator gives.
use mathlib.Core.List.{append-nil, append_assoc}
use hands_on_sqldb_in_cpp.Prelude.{
  ℕ, zero, suc, ◌+◌, ◌<◌, ◌≡◌, refl, sym, ap, ◌∙◌, true, false, Option, none, some, [], ◌∷◌, ◌++◌,
  map, arith, length, get_elem?, length-append, if◌then◌else◌,
}
use hands_on_sqldb_in_cpp.Prelude.Order.{bytes_lt, bytes_order, eqb, eqb→eq, bytes_lt_trans}
use hands_on_sqldb_in_cpp.Prelude.Maps.{find}
use hands_on_sqldb_in_cpp.Kv.Batch.{success, Key, ByteValue, KeyRange, forward}
use hands_on_sqldb_in_cpp.Kv.Store.{Rows, MockStore}
use hands_on_sqldb_in_cpp.Kv.Store.Rows.{Above, IsSorted}
use hands_on_sqldb_in_cpp.Kv.Iterator.{
  MockIterator, before_start, past_end, until_end, materialize, contains, in_range, update_status,
  move_to, seek_to_first, valid, next, kvpair, make, new_iterator, collect, is_forward,
}

-- The rows whose keys lie in a range, in their order.
unfoldable pub rows_in : KeyRange → Rows → Rows
unfolding contains
rows_in range [] = []
rows_in range ((k, v) ∷ rows) =
    let rest = rows_in range rows in if contains range k then (k, v) ∷ rest else rest

pub past_end_mono :
    (range : KeyRange) (k j : Key)
    → bytes_lt k j ≡ true
    → past_end range k ≡ true
    → past_end range j ≡ true
past_end_mono range k j h p = by_end range.end refl
  where
    by_end : (o : Option Key) → range.end ≡ o → past_end range j ≡ true
    by_end none e = ground arith
    by_end (some end) e = ground (arith, bytes_lt_trans k j end h)

pub before_start_mono :
    (range : KeyRange) (k j : Key)
    → bytes_lt k j ≡ true
    → before_start range k ≡ false
    → before_start range j ≡ false
before_start_mono range k j h p = by_start range.start refl
  where
    by_start : (o : Option Key) → range.start ≡ o → before_start range j ≡ false
    by_start none e = ground arith
    by_start (some start) e = ground (arith, bytes_lt_trans k j start h)

rows_in-past :
    (range : KeyRange) (k : Key) (rows : Rows)
    → Above k rows
    → past_end range k ≡ true
    → rows_in range rows ≡ []
unfolding rows_in
rows_in-past range k [] a p = refl
rows_in-past range k ((j, w) ∷ rows) a p =
    ground (arith, past_end_mono range k j a.0 p, rows_in-past range k rows a.1 p)

until_end-rows_in :
    (range : KeyRange) (k : Key) (v : ByteValue) (rows : Rows)
    → IsSorted ((k, v) ∷ rows)
    → before_start range k ≡ false
    → until_end range ((k, v) ∷ rows) ≡ rows_in range ((k, v) ∷ rows)
unfolding until_end rows_in
until_end-rows_in range k v [] s b = ground arith
until_end-rows_in range k v ((j, w) ∷ rows) s b =
    let later = before_start_mono range k j s.0.0 b in
    let past = rows_in-past range k ((j, w) ∷ rows) s.0 in
    let rest = until_end-rows_in range j w rows s.1 later in ground (arith, past, rest)

pub materialize-rows_in :
    (data_ : Rows) (range : KeyRange)
    → IsSorted data_
    → materialize data_ range ≡ rows_in range data_
unfolding materialize rows_in
materialize-rows_in [] range s = refl
materialize-rows_in ((k, v) ∷ rows) range s =
    ground (arith, until_end-rows_in range k v rows s, materialize-rows_in rows range s.1)

rows_in-Above :
    (range : KeyRange) (j : Key) (rows : Rows) → Above j rows → Above j (rows_in range rows)
unfolding rows_in
rows_in-Above range j [] a = tt
rows_in-Above range j ((k, v) ∷ rows) a = ground (arith, a.0, rows_in-Above range j rows a.1)

pub rows_in-IsSorted :
    (range : KeyRange) (rows : Rows) → IsSorted rows → IsSorted (rows_in range rows)
unfolding rows_in
rows_in-IsSorted range [] s = tt
rows_in-IsSorted range ((k, v) ∷ rows) s =
    ground (arith, rows_in-Above range k rows s.0, rows_in-IsSorted range rows s.1)

pub find-rows_in :
    (range : KeyRange) (k : Key) (rows : Rows)
    → find k (rows_in range rows) ≡ (if contains range k then find k rows else none)
unfolding rows_in find
find-rows_in range k [] = ground arith
find-rows_in range k ((j, v) ∷ rows) =
    let same : eqb j k ≡ true → contains range j ≡ contains range k =
      λ e. ap (contains range) (eqb→eq j k e) in
    ground (arith, find-rows_in range k rows, same)

abbrev pub AllIn : KeyRange → Rows → Type 0
AllIn range [] = Unit {0}
AllIn range (row ∷ rows) = (contains range row.0 ≡ true) × AllIn range rows

pub rows_in-AllIn : (range : KeyRange) (rows : Rows) → AllIn range (rows_in range rows)
unfolding rows_in
rows_in-AllIn range [] = tt
rows_in-AllIn range ((k, v) ∷ rows) = ground (arith, rows_in-AllIn range rows)

get_elem?-end : (rows : Rows) → get_elem? rows (length rows) ≡ none
get_elem?-end [] = refl
get_elem?-end (x ∷ rows) = get_elem?-end rows

get_elem?-here :
    (pre : Rows) (row : Key × ByteValue) (rows : Rows)
    → get_elem? (pre ++ row ∷ rows) (length pre) ≡ some row
get_elem?-here [] row rows = refl
get_elem?-here (x ∷ pre) row rows = get_elem?-here pre row rows

pub place_over :
    (it : MockIterator) (i : ℕ) → get_elem? it.rows i ≡ none → valid (move_to i it) ≡ false
unfolding valid move_to update_status in_range
place_over it i h = ground arith

pub place_here :
    (it : MockIterator) (i : ℕ) (row : Key × ByteValue)
    → get_elem? it.rows i ≡ some row
    → contains it.range row.0 ≡ true
    → is_forward it.range.direction ≡ true
    → (valid (move_to i it) ≡ true)
      × (kvpair (move_to i it) ≡ some row)
      × (next (move_to i it) ≡ move_to (i + 1) it)
unfolding valid kvpair next move_to update_status in_range
place_here it i row h c f = ground arith

collect-over : (fuel : ℕ) (it : MockIterator) → valid it ≡ false → collect (suc fuel) it ≡ []
unfolding collect
collect-over fuel it h = ground arith

collect-here :
    (fuel : ℕ) (it : MockIterator)
    → valid it ≡ true
    → collect (suc fuel) it ≡ kvpair it ∷ collect fuel (next it)
unfolding collect
collect-here fuel it h = ground arith

-- From the place after `pre` on, the loop collects the rows that are left.
collect-forward :
    (fuel : ℕ) (pre rows : Rows) (it : MockIterator)
    → is_forward it.range.direction ≡ true
    → AllIn it.range rows
    → length rows < fuel
    → it.rows ≡ pre ++ rows
    → collect fuel (move_to (length pre) it) ≡ map some rows
collect-forward zero pre rows it f a h e = absurd (omega arith)
collect-forward (suc fuel) pre [] it f a h e = collect-over fuel (move_to (length pre) it) (
    place_over it (length pre)
      (ap (λ (m : Rows). get_elem? m (length pre)) (e ∙ append-nil pre) ∙ get_elem?-end pre))
collect-forward (suc fuel) pre (row ∷ rows) it f a h e =
    let (valid', pair, moved) =
      place_here it (length pre) row
        (ap (λ (m : Rows). get_elem? m (length pre)) e ∙ get_elem?-here pre row rows) a.0 f in
    let longer : length (pre ++ row ∷ []) ≡ length pre + 1 = length-append pre (row ∷ []) in
    let ih =
      collect-forward fuel (pre ++ row ∷ []) rows it f a.1 (omega (arith, h))
        (e ∙ sym (append_assoc pre (row ∷ []) rows)) in
    collect-here fuel (move_to (length pre) it) valid'
    ∙ rw (pair, moved, ← longer) (ap (λ l. some row ∷ l) ih)

pub make-rows : (rows : Rows) (range : KeyRange) → (make rows range).rows ≡ rows
unfolding make seek_to_first move_to update_status
make-rows rows range = refl

pub collect-make :
    (rows : Rows) (range : KeyRange)
    → IsSorted rows
    → range.direction ≡ forward
    → collect (suc (length (materialize rows range))) (make (materialize rows range) range)
      ≡ map some (rows_in range rows)
unfolding make seek_to_first
collect-make rows range s d =
    let f : is_forward range.direction ≡ true = rw d refl in
    let m = rows_in range rows in
    let it : MockIterator = record { rows = m; range = range; index = 0; status = success } in
    rw (materialize-rows_in rows range s, f)
      (collect-forward (suc (length m)) [] m it f (rows_in-AllIn range rows) (omega arith) refl)

-- A forward iterator of a range on an open store with sorted rows, read from its start to its end,
-- gives exactly the rows of the range, each once and in their order; fuel of one more than the
-- iterator has rows is enough.
pub collect-new_iterator :
    (s : MockStore) (range : KeyRange)
    → s.is_open ≡ true
    → IsSorted s.rows
    → range.direction ≡ forward
    → (it : MockIterator) × (new_iterator range s ≡ some it)
      × (collect (suc (length it.rows)) it ≡ map some (rows_in range s.rows))
unfolding make
collect-new_iterator s range o sorted d =
    let it = make (materialize s.rows range) range in
    (
      it,
      unfold new_iterator in rw o refl,
      rw (make-rows (materialize s.rows range) range) (collect-make s.rows range sorted d),
    )
