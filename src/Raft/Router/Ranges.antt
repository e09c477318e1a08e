-- ===== src/Raft/Router/Ranges.antt =====
-- A range of keys that goes to one group stays inside of it.
use mathlib.Core.List.{Memᴰ}
use hands_on_sqldb_in_cpp.Prelude.{
  ℕ, ◌≡◌, inl, inr, refl, sym, ◌∙◌, true, false, Option, none, some, List, [], ◌∷◌, arith,
  Bool-cases, ==_iff, subst,
}
use hands_on_sqldb_in_cpp.Prelude.Order.{
  Bytes, bytes_lt, bytes_order, le_lt_trans, le_trans, bytes_lt_irrefl,
}
use hands_on_sqldb_in_cpp.Kv.Batch.{Key}
use hands_on_sqldb_in_cpp.Raft.Router.{
  Range, GroupRouter, system_prefix, starts_with, is_system_key, validate, lookup, group_for,
  before_end, crosses, any_crosses, range_group,
}
use hands_on_sqldb_in_cpp.Raft.Router.Table.{
  IsTable, Holds, validate-IsTable, Memᴰ-IsGood, lookup-Holds, lookup-cases, Memᴰ-unique,
}

starts_with-le : (p key : Bytes) → starts_with p key ≡ true → bytes_lt key p ≡ false
unfolding starts_with bytes_lt
starts_with-le [] key h = ground arith
starts_with-le (a ∷ p) [] h = ground (arith, h)
starts_with-le (a ∷ p) (b ∷ key) h = ground (arith, h, starts_with-le p key)

-- What lies between a prefix and a key with the prefix has the prefix.
starts_with-between :
    (p s key : Bytes)
    → starts_with p key ≡ true
    → bytes_lt s p ≡ false
    → bytes_lt key s ≡ false
    → starts_with p s ≡ true
unfolding starts_with bytes_lt
starts_with-between [] s key h k l = refl
starts_with-between (a ∷ p) s [] h k l = ground (arith, h)
starts_with-between (a ∷ p) [] (c ∷ key) h k l = ground (arith, k)
starts_with-between (a ∷ p) (b ∷ s) (c ∷ key) h k l =
    ground (arith, h, k, l, starts_with-between p s key)

lookup-system :
    (rs : List Range) (key : Key) → IsTable rs → is_system_key key ≡ true → lookup rs key ≡ 0
unfolding is_system_key
lookup-system rs key t h = elim (lookup-cases rs key) [
  | inl e ↦ e
  | inr (r, m, holds, e) ↦
      let good = Memᴰ-IsGood r rs t m in
      let below =
        le_lt_trans system_prefix key r.end (starts_with-le system_prefix key h) holds.below in
      ground (
        arith,
        good.not_inside,
        good.not_around,
        below,
        starts_with-between system_prefix r.start key h,
        holds.from,
      )
]

-- On a table, the system prefix needs no test of its own.
pub group_for-lookup :
    (router : GroupRouter) (key : Key)
    → IsTable router.ranges
    → group_for router key ≡ lookup router.ranges key
unfolding group_for
group_for-lookup router key t = ground (arith, lookup-system router.ranges key t)

crosses-false :
    (router : GroupRouter) (start : Key) (end : Option Key) (b : Key)
    → crosses router start end b ≡ false
    → bytes_lt start b ≡ true
    → before_end b end ≡ true
    → group_for router b ≡ group_for router start
unfolding crosses
crosses-false router start end b h k l =
    ground (arith, h, k, l, (==_iff (group_for router b) (group_for router start)).0)

any_crosses-false :
    (router : GroupRouter) (start : Key) (end : Option Key) (rs : List Range) (r : Range)
    → any_crosses router start end rs ≡ false
    → Memᴰ r rs
    → (crosses router start end r.start ≡ false) × (crosses router start end r.end ≡ false)
unfolding any_crosses
any_crosses-false router start end [] r h m = elim m [ ]
any_crosses-false router start end (q ∷ rs) r h (Memᴰ.head e) =
    rw e (ground (arith, h), ground (arith, h))
any_crosses-false router start end (q ∷ rs) r h (Memᴰ.tail m) =
    any_crosses-false router start end rs r (ground (arith, h)) m

before_end_trans :
    (b key : Key) (end : Option Key)
    → bytes_lt key b ≡ false
    → before_end key end ≡ true
    → before_end b end ≡ true
before_end_trans b key none h k = refl
before_end_trans b key (some end) h k = le_lt_trans b key end h k

-- A key of a range with no boundary at which the group changes.
module _ (router : GroupRouter) (start : Key) (end : Option Key) (key : Key)
    (t : IsTable router.ranges) (from : bytes_lt key start ≡ false)
    (below : before_end key end ≡ true)
    (quiet : any_crosses router start end router.ranges ≡ false) where
  boundary :
      (b : Key)
      → crosses router start end b ≡ false
      → bytes_lt start b ≡ true
      → bytes_lt key b ≡ false
      → lookup router.ranges b ≡ lookup router.ranges start
  boundary b h k l =
      sym (group_for-lookup router b t)
      ∙ (crosses-false router start end b h k (before_end_trans b key end l below)
          ∙ group_for-lookup router start t)

  start-of-held :
      (r : Range) → Memᴰ r router.ranges → Holds r key → lookup router.ranges start ≡ r.group_id
  start-of-held r m h = elim (Bool-cases (bytes_lt start r.start)) [
    | inl later ↦
        let inside : Holds r r.start = record {
          from = bytes_lt_irrefl r.start;
          below = (Memᴰ-IsGood r router.ranges t m).nonempty;
        } in
        sym (
          boundary r.start (any_crosses-false router start end router.ranges r quiet m).0 later
            h.from)
        ∙ lookup-Holds r router.ranges r.start t m inside
    | inr not_later ↦
        lookup-Holds r router.ranges start t m
          (record { from = not_later; below = le_lt_trans start key r.end from h.below })
  ]

  -- Two keys in different ranges: the end of the first range is a boundary.
  end-crosses : (r : Range) → Memᴰ r router.ranges → Holds r start → bytes_lt key r.end ≡ false → ⊥
  end-crosses r m h past =
      let same =
        boundary r.end (any_crosses-false router start end router.ranges r quiet m).1 h.below past
        ∙ lookup-Holds r router.ranges start t m h in
      elim (lookup-cases router.ranges r.end) [
        | inl e ↦ ground (arith, e, same, (Memᴰ-IsGood r router.ranges t m).data_group)
        | inr (q, n, holds, e) ↦
            let one : q ≡ r = Memᴰ-unique q r router.ranges t n m (sym e ∙ same) in
            let again : Holds r r.end = subst (λ (x : Range). Holds x r.end) one holds in
            ground (arith, again.below, bytes_lt_irrefl r.end)
      ]

  start-of-free : lookup router.ranges key ≡ 0 → lookup router.ranges start ≡ 0
  start-of-free free = elim (lookup-cases router.ranges start) [
    | inl e ↦ e
    | inr (r, m, h, e) ↦ elim (Bool-cases (bytes_lt key r.end)) [
      | inl inside ↦
          let holds : Holds r key = record {
            from = le_trans r.start start key h.from from;
            below = inside;
          } in
          e ∙ (sym (lookup-Holds r router.ranges key t m holds) ∙ free)
      | inr past ↦ absurd (end-crosses r m h past)
    ]
  ]

  lookup-quiet : lookup router.ranges key ≡ lookup router.ranges start
  lookup-quiet = elim (lookup-cases router.ranges key) [
    | inl free ↦ free ∙ sym (start-of-free free)
    | inr (r, m, h, e) ↦ e ∙ sym (start-of-held r m h)
  ]

range_group-quiet :
    (router : GroupRouter) (start : Key) (end : Option Key) (g : ℕ)
    → before_end start end ≡ true
    → range_group router start end ≡ some g
    → (any_crosses router start end router.ranges ≡ false) × (group_for router start ≡ g)
unfolding range_group
range_group-quiet router start end g h k = (ground (arith, h, k), ground (arith, h, k))

-- Every key of a range that goes to one group, on a router whose table `validate` accepts, is owned
-- by that group.
pub range_group_sound :
    (router : GroupRouter) (start : Key) (end : Option Key) (g : ℕ) (key : Key)
    → validate router ≡ none
    → range_group router start end ≡ some g
    → bytes_lt key start ≡ false
    → before_end key end ≡ true
    → group_for router key ≡ g
range_group_sound router start end g key v h from below =
    let t = validate-IsTable router v in
    let (quiet, e) =
      range_group-quiet router start end g (before_end_trans start key end from below) h in
    group_for-lookup router key t
    ∙ (lookup-quiet router start end key t from below quiet
        ∙ (sym (group_for-lookup router start t) ∙ e))
