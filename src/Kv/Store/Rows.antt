-- ===== src/Kv/Store/Rows.antt =====
-- The rows of a store stay sorted by key, and a batch has its effect key by key.
use hands_on_sqldb_in_cpp.Prelude.{
  ◌≡◌, refl, ap, ◌∙◌, true, false, Option, none, some, List, [], ◌∷◌, foldl, arith, if◌then◌else◌,
}
use hands_on_sqldb_in_cpp.Prelude.Order.{
  bytes_lt, bytes_order, eqb, eqb→eq, bytes_lt_trans, bytes_lt_irrefl, bytes_lt_connex,
}
use hands_on_sqldb_in_cpp.Prelude.Maps.{Map, find, assign, find-assign}
use hands_on_sqldb_in_cpp.Kv.Batch.{Key, ByteValue, Op, effect, effects, in_range}
use hands_on_sqldb_in_cpp.Kv.Store.{
  Rows, erase, erase_below, erase_range, valid_op, valid_ops, apply_op,
}

-- Every key of the rows lies above `k`.
abbrev pub Above : {V : Type 0} → Key → Map Key V → Type 0
Above k [] = Unit {0}
Above k ((j, w) ∷ m) = (bytes_lt k j ≡ true) × Above k m

abbrev pub IsSorted : {V : Type 0} → Map Key V → Type 0
IsSorted [] = Unit {0}
IsSorted ((j, w) ∷ m) = Above j m × IsSorted m

pub Above-mono :
    {V : Type 0} → (i j : Key) (m : Map Key V) → bytes_lt i j ≡ true → Above j m → Above i m
Above-mono i j [] h a = tt
Above-mono i j ((k, w) ∷ m) h a = (bytes_lt_trans i j k h a.0, Above-mono i j m h a.1)

pub find-Above :
    {V : Type 0} → (k j : Key) (m : Map Key V) → Above j m → bytes_lt j k ≡ false → find k m ≡ none
unfolding find
find-Above k j [] a h = refl
find-Above k j ((i, w) ∷ m) a h = ground (arith, find-Above k j m a.1, eqb→eq i k)

assign-Above :
    {V : Type 0}
    → (i k : Key) (v : V) (m : Map Key V) → bytes_lt i k ≡ true
    → Above i m
    → Above i (assign k v m)
unfolding assign
assign-Above i k v [] h a = (h, tt)
assign-Above i k v ((j, w) ∷ m) h a = ground (arith, assign-Above i k v m h a.1)

pub assign-IsSorted :
    {V : Type 0} → (k : Key) (v : V) (m : Map Key V) → IsSorted m → IsSorted (assign k v m)
unfolding assign
assign-IsSorted k v [] s = (tt, tt)
assign-IsSorted k v ((j, w) ∷ m) s =
    ground (
      arith,
      assign-IsSorted k v m s.1,
      assign-Above j k v m,
      Above-mono k j m,
      bytes_lt_connex k j,
    )

erase-Above : (i k : Key) (m : Rows) → Above i m → Above i (erase k m)
unfolding erase
erase-Above i k [] a = tt
erase-Above i k ((j, w) ∷ m) a = ground (arith, erase-Above i k m a.1)

pub erase-IsSorted : (k : Key) (m : Rows) → IsSorted m → IsSorted (erase k m)
unfolding erase
erase-IsSorted k [] s = tt
erase-IsSorted k ((j, w) ∷ m) s = ground (arith, erase-IsSorted k m s.1, erase-Above j k m s.0)

find-erase :
    (k i : Key) (m : Rows) → IsSorted m → find i (erase k m) ≡ (if eqb k i then none else find i m)
unfolding find erase
find-erase k i [] s = ground arith
find-erase k i ((j, w) ∷ m) s = ground (
  arith,
  find-erase k i m s.1,
  find-Above i j m s.0,
  bytes_lt_irrefl i,
  eqb→eq j k,
  eqb→eq k i,
  eqb→eq j i,
)

erase_below-Above : (i e : Key) (m : Rows) → Above i m → Above i (erase_below e m)
unfolding erase_below
erase_below-Above i e [] a = tt
erase_below-Above i e ((j, w) ∷ m) a = ground (arith, erase_below-Above i e m a.1)

erase_below-IsSorted : (e : Key) (m : Rows) → IsSorted m → IsSorted (erase_below e m)
unfolding erase_below
erase_below-IsSorted e [] s = tt
erase_below-IsSorted e ((j, w) ∷ m) s = ground (arith, erase_below-IsSorted e m s.1)

find-erase_below :
    (e i : Key) (m : Rows)
    → IsSorted m
    → find i (erase_below e m) ≡ (if bytes_lt i e then none else find i m)
unfolding find erase_below
find-erase_below e i [] s = ground arith
find-erase_below e i ((j, w) ∷ m) s =
    ground
      (arith, find-erase_below e i m s.1, find-Above i j m s.0, bytes_lt_trans j i e, eqb→eq j i)

erase_range-Above : (i b e : Key) (m : Rows) → Above i m → Above i (erase_range b e m)
unfolding erase_range
erase_range-Above i b e [] a = tt
erase_range-Above i b e ((j, w) ∷ m) a =
    ground (arith, erase_range-Above i b e m a.1, erase_below-Above i e m a.1)

erase_range-IsSorted : (b e : Key) (m : Rows) → IsSorted m → IsSorted (erase_range b e m)
unfolding erase_range
erase_range-IsSorted b e [] s = tt
erase_range-IsSorted b e ((j, w) ∷ m) s = ground (
  arith,
  erase_range-IsSorted b e m s.1,
  erase_range-Above j b e m s.0,
  erase_below-IsSorted e m s.1,
)

find-erase_range :
    (b e i : Key) (m : Rows)
    → IsSorted m
    → find i (erase_range b e m) ≡ (if in_range b e i then none else find i m)
unfolding find erase_range
find-erase_range b e i [] s = ground arith
find-erase_range b e i ((j, w) ∷ m) s = ground (
  arith,
  find-erase_range b e i m s.1,
  find-erase_below e i m s.1,
  find-Above i j m s.0,
  bytes_lt_trans j i e,
  bytes_lt_trans j i b,
  bytes_lt_trans i b j,
  bytes_lt_connex b j,
  eqb→eq j i,
)

apply_op-IsSorted : (m : Rows) (op : Op) → IsSorted m → IsSorted (apply_op m op)
unfolding apply_op
apply_op-IsSorted m op s = by_value op.pair.value refl
  where
    by_value : (o : Option ByteValue) → op.pair.value ≡ o → IsSorted (apply_op m op)
    by_value none e =
        ground
          (arith, erase-IsSorted op.pair.key m s, erase_range-IsSorted op.pair.key op.range_end m s)
    by_value (some v) e = ground (
      arith,
      assign-IsSorted op.pair.key v m s,
      erase-IsSorted op.pair.key m s,
      erase_range-IsSorted op.pair.key op.range_end m s,
    )

find-apply_op :
    (k : Key) (m : Rows) (op : Op)
    → IsSorted m
    → valid_op op ≡ true
    → find k (apply_op m op) ≡ effect k (find k m) op
unfolding apply_op effect valid_op
find-apply_op k m op s valid = by_value op.pair.value refl
  where
    by_value :
        (o : Option ByteValue) → op.pair.value ≡ o → find k (apply_op m op) ≡ effect k (find k m) op
    by_value none e =
        ground
          (arith, find-erase op.pair.key k m s, find-erase_range op.pair.key op.range_end k m s)
    by_value (some v) e = ground (
      arith,
      find-assign op.pair.key k v m,
      find-erase op.pair.key k m s,
      find-erase_range op.pair.key op.range_end k m s,
    )

pub foldl-apply_op-IsSorted :
    (m : Rows) (ops : List Op) → IsSorted m → IsSorted (foldl apply_op m ops)
foldl-apply_op-IsSorted m [] s = s
foldl-apply_op-IsSorted m (op ∷ ops) s =
    foldl-apply_op-IsSorted (apply_op m op) ops (apply_op-IsSorted m op s)

pub find-foldl-apply_op :
    (k : Key) (m : Rows) (ops : List Op)
    → IsSorted m
    → valid_ops ops ≡ true
    → find k (foldl apply_op m ops) ≡ effects k (find k m) ops
unfolding effects valid_ops
find-foldl-apply_op k m [] s v = refl
find-foldl-apply_op k m (op ∷ ops) s v =
    find-foldl-apply_op k (apply_op m op) ops (apply_op-IsSorted m op s) (ground arith)
    ∙ ap (λ (d : Option ByteValue). foldl (effect k) d ops) (find-apply_op k m op s (ground arith))
