-- ===== src/Raft/Router/Batches.antt =====
-- What a batch that goes to one group changes, the groups' count, and the range of a group.
use mathlib.Core.List.{Memᴰ}
use hands_on_sqldb_in_cpp.Prelude.{
  ℕ, ◌+◌, u64_mod, ◌<◌, ◌≤◌, ◌≡◌, ◌≢◌, inl, inr, refl, sym, ap, ◌∙◌, true, false, Option, none,
  some, List, [], ◌∷◌, arith, ltb, if◌then◌else◌, ◌==◌, Bool-cases, ==_iff, subst, Option-cases,
}
use hands_on_sqldb_in_cpp.Prelude.Order.{bytes_lt, bytes_order, eqb→eq, eqb}
use hands_on_sqldb_in_cpp.Kv.Batch.{
  Key, ByteValue, KeyRange, forward, Op, WriteBatch, effect, effects,
}
use hands_on_sqldb_in_cpp.Raft.Router.{
  Range, GroupRouter, validate, lookup, group_for, op_group, differs, ops_group, batch_group,
  max_group, group_count, find_group, group_range,
}
use hands_on_sqldb_in_cpp.Raft.Router.Table.{
  IsTable, Holds, validate-IsTable, Memᴰ-IsGood, lookup-Holds, lookup-cases, Memᴰ-unique,
}
use hands_on_sqldb_in_cpp.Kv.Iterator.{contains}
use hands_on_sqldb_in_cpp.Raft.Router.Ranges.{group_for-lookup, range_group_sound}

group_for-eqb :
    (router : GroupRouter) (a k : Key) → eqb a k ≡ true → group_for router a ≡ group_for router k
group_for-eqb router a k h = ap (group_for router) (eqb→eq a k h)

-- An operation that goes to a group leaves the keys of the others alone.
effect-other :
    (router : GroupRouter) (g : ℕ) (k : Key) (d : Option ByteValue) (op : Op)
    → validate router ≡ none
    → op_group router op ≡ some g
    → (group_for router k == g) ≡ false
    → effect k d op ≡ d
unfolding op_group effect
effect-other router g k d op v h other = ground (
  arith,
  h,
  other,
  group_for-eqb router op.pair.key k,
  range_group_sound router op.pair.key (some op.range_end) g k v,
)

ops_group-cons :
    (router : GroupRouter) (group : Option ℕ) (op : Op) (ops : List Op) (g h : ℕ)
    → op_group router op ≡ some h
    → ops_group router group (op ∷ ops) ≡ some g
    → (ops_group router (some h) ops ≡ some g) × (differs group h ≡ false)
unfolding ops_group
ops_group-cons router group op ops g h e k = (ground (arith, e, k), ground (arith, e, k))

ops_group-none :
    (router : GroupRouter) (group : Option ℕ) (op : Op) (ops : List Op) (g : ℕ)
    → op_group router op ≡ none
    → ops_group router group (op ∷ ops) ≢ some g
unfolding ops_group
ops_group-none router group op ops g e k = ground (arith, e, k)

ops_group-some :
    (router : GroupRouter) (h g : ℕ) (ops : List Op)
    → ops_group router (some h) ops ≡ some g
    → h ≡ g
unfolding ops_group
ops_group-some router h g [] e = ground (arith, e)
ops_group-some router h g (op ∷ ops) e = elim (Option-cases (op_group router op)) [
  | inl n ↦ absurd (ops_group-none router (some h) op ops g n e)
  | inr (i, s) ↦
      let (rest, same) = ops_group-cons router (some h) op ops g i s e in
      ground (arith, same, ops_group-some router i g ops rest)
]

effects-other :
    (router : GroupRouter) (g : ℕ) (k : Key) (d : Option ByteValue) (group : Option ℕ)
    (ops : List Op)
    → validate router ≡ none
    → ops_group router group ops ≡ some g
    → (group_for router k == g) ≡ false
    → effects k d ops ≡ d
unfolding effects
effects-other router g k d group [] v h other = refl
effects-other router g k d group (op ∷ ops) v h other = elim (Option-cases (op_group router op)) [
  | inl n ↦ absurd (ops_group-none router group op ops g n h)
  | inr (i, s) ↦
      let rest = (ops_group-cons router group op ops g i s h).0 in
      let same : op_group router op ≡ some g = s ∙ ap some (ops_group-some router i g ops rest) in
      ap (λ (x : Option ByteValue). effects k x ops) (effect-other router g k d op v same other)
      ∙ effects-other router g k d (some i) ops v rest other
]

-- A batch that goes to one group, on a router whose table `validate` accepts, changes the value of
-- no key that another group owns.
pub batch_group_sound :
    (router : GroupRouter) (batch : WriteBatch) (g : ℕ) (k : Key) (d : Option ByteValue)
    → validate router ≡ none
    → batch_group router batch ≡ some g
    → group_for router k ≢ g
    → effects k d batch.ops ≡ d
unfolding batch_group
batch_group_sound router batch g k d v h other =
    effects-other router g k d none batch.ops v h (ground (arith, other))

max_group-le : (g : ℕ) (rs : List Range) → g ≤ max_group g rs
unfolding max_group
max_group-le g [] = omega arith
max_group-le g (r ∷ rs) =
    ground (arith, max_group-le (if ltb g r.group_id then r.group_id else g) rs)

lookup-le-max_group : (rs : List Range) (key : Key) (g : ℕ) → lookup rs key ≤ max_group g rs
unfolding lookup max_group
lookup-le-max_group [] key g = omega arith
lookup-le-max_group (r ∷ rs) key g =
    let next_group = if ltb g r.group_id then r.group_id else g in
    ground (arith, max_group-le next_group rs, lookup-le-max_group rs key next_group)

-- Group ids whose successor is a 64-bit number.
abbrev pub IdsFit : List Range → Type 0
IdsFit [] = Unit {0}
IdsFit (r ∷ rs) = (r.group_id + 1 < u64_mod) × IdsFit rs

max_group-fits :
    (g : ℕ) (rs : List Range) → g + 1 < u64_mod → IdsFit rs → max_group g rs + 1 < u64_mod
unfolding max_group
max_group-fits g [] h f = h
max_group-fits g (r ∷ rs) h f =
    max_group-fits (if ltb g r.group_id then r.group_id else g) rs (ground (arith, h, f.0)) f.1

-- The group of a key is one of the groups that are counted, in a table whose group ids are all below
-- the largest 64-bit number, and otherwise arbitrary.
pub group_for-lt-group_count :
    (router : GroupRouter) (key : Key)
    → IdsFit router.ranges
    → group_for router key < group_count router
unfolding group_for group_count
group_for-lt-group_count router key f =
    let fits = max_group-fits 0 router.ranges (omega arith) f in
    ground (arith, lookup-le-max_group router.ranges key 0, fits)

-- The range that a search for a group finds.
find_group-Memᴰ :
    (g : ℕ) (rs : List Range) (kr : KeyRange)
    → find_group g rs ≡ some kr
    → (r : Range) × Memᴰ r rs
      × (r.group_id ≡ g)
      × (kr ≡ record { start = some r.start; end = some r.end; limit = 0; direction = forward })
unfolding find_group
find_group-Memᴰ g [] kr h = ground (arith, h)
find_group-Memᴰ g (r ∷ rs) kr h = elim (Bool-cases (r.group_id == g)) [
  | inl same ↦ (r, Memᴰ.head refl, (==_iff r.group_id g).0 same, ground (arith, h, same))
  | inr other ↦
      let (q, m, e, k) = find_group-Memᴰ g rs kr (ground (arith, h, other)) in
      (q, Memᴰ.tail m, e, k)
]

Holds-lookup :
    (r : Range) (rs : List Range) (key : Key)
    → IsTable rs
    → Memᴰ r rs
    → lookup rs key ≡ r.group_id
    → Holds r key
Holds-lookup r rs key t m e = elim (lookup-cases rs key) [
  | inl free ↦ ground (arith, free, e, (Memᴰ-IsGood r rs t m).data_group)
  | inr (q, n, h, f) ↦ subst (λ (x : Range). Holds x key) (Memᴰ-unique q r rs t n m (sym f ∙ e)) h
]

contains-lookup :
    (r : Range) (rs : List Range) (key : Key)
    → IsTable rs
    → Memᴰ r rs
    → contains
        (record { start = some r.start; end = some r.end; limit = 0; direction = forward })
        key
      ≡ (lookup rs key == r.group_id)
unfolding contains
contains-lookup r rs key t m =
    let into : bytes_lt key r.start ≡ false
        → bytes_lt key r.end ≡ true
        → lookup rs key ≡ r.group_id =
      λ from below. lookup-Holds r rs key t m (record { from = from; below = below }) in
    let from : lookup rs key ≡ r.group_id → bytes_lt key r.start ≡ false =
      λ e. (Holds-lookup r rs key t m e).from in
    let below : lookup rs key ≡ r.group_id → bytes_lt key r.end ≡ true =
      λ e. (Holds-lookup r rs key t m e).below in
    ground (arith, into, from, below)

-- The key range of a data group holds precisely the keys that the group owns, if `validate` accepts
-- the table.
pub group_range-exact :
    (router : GroupRouter) (g : ℕ) (kr : KeyRange) (key : Key)
    → validate router ≡ none
    → group_range router g ≡ some kr
    → contains kr key ≡ (group_for router key == g)
unfolding group_range
group_range-exact router g kr key v h =
    let t = validate-IsTable router v in
    let (r, m, same, e) = find_group-Memᴰ g router.ranges kr h in
    ap (λ (x : KeyRange). contains x key) e
    ∙ (contains-lookup r router.ranges key t m
        ∙ (ap (λ (x : ℕ). lookup router.ranges key == x) same
            ∙ ap (λ (x : ℕ). x == g) (sym (group_for-lookup router key t))))
