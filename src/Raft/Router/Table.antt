-- ===== src/Raft/Router/Table.antt =====
-- What a routing table that `validate` accepts is like, and its lookups.
use hands_on_sqldb_in_cpp.Prelude.{
  ℕ, ◌≡◌, ◌⊎◌, inl, inr, refl, sym, ap, ◌∙◌, true, false, ◌&&◌, Option, none, some, List, [], ◌∷◌,
  arith, length, ◌==◌, Bool-cases, subst, ==_iff,
}
use hands_on_sqldb_in_cpp.Prelude.Order.{bytes_lt, bytes_order, le_trans, lt→le}
use mathlib.Core.List.{Memᴰ}
use hands_on_sqldb_in_cpp.Kv.Batch.{Key}
use hands_on_sqldb_in_cpp.Raft.Router.{
  Range, GroupRouter, system_prefix, is_system_key, contains, overlaps, check_range, check_ranges,
  validate, lookup,
}

-- A range that no check refuses by itself.
pub record IsGood (r : Range) : Type 0 where
  pub data_group : (r.group_id == 0) ≡ false
  pub nonempty : bytes_lt r.start r.end ≡ true
  pub not_inside : is_system_key r.start ≡ false
  pub not_around : (bytes_lt r.start system_prefix && bytes_lt system_prefix r.end) ≡ false

-- Each range is good, ends before the later ones start, and has a group of its own.
abbrev pub Behind : Key → List Range → Type 0
Behind key [] = Unit {0}
Behind key (r ∷ rs) = (bytes_lt r.start key ≡ false) × Behind key rs

abbrev pub Fresh : ℕ → List Range → Type 0
Fresh g [] = Unit {0}
Fresh g (r ∷ rs) = ((r.group_id == g) ≡ false) × Fresh g rs

abbrev pub IsTable : List Range → Type 0
IsTable [] = Unit {0}
IsTable (r ∷ rs) = IsGood r × Behind r.end rs × Fresh r.group_id rs × IsTable rs

check_range-IsGood :
    (previous : Option Range) (groups : List ℕ) (r : Range)
    → check_range previous groups r ≡ none
    → IsGood r
unfolding check_range
check_range-IsGood previous groups r h = record {
  data_group = ground arith;
  nonempty = ground arith;
  not_inside = ground arith;
  not_around = ground arith;
}

check_range-apart :
    (previous : Option Range) (groups : List ℕ) (r : Range)
    → check_range previous groups r ≡ none
    → (overlaps previous r ≡ false) × (contains r.group_id groups ≡ false)
unfolding check_range
check_range-apart previous groups r h = (ground arith, ground arith)

check_ranges-cons :
    (size : ℕ) (previous : Option Range) (groups : List ℕ) (r : Range) (rs : List Range)
    → check_ranges size previous groups (r ∷ rs) ≡ none
    → (check_range previous groups r ≡ none)
      × (check_ranges size (some r) (r.group_id ∷ groups) rs ≡ none)
unfolding check_ranges
check_ranges-cons size previous groups r rs h = ground arith

contains-not :
    (a b : ℕ) (groups : List ℕ)
    → contains a groups ≡ true
    → contains b groups ≡ false
    → (b == a) ≡ false
contains-not a b groups h k = elim (Bool-cases (b == a)) [
  | inl same ↦ ground (arith, h, k, ap (λ (x : ℕ). contains x groups) ((==_iff b a).0 same))
  | inr other ↦ other
]

contains-Fresh :
    (size : ℕ) (previous : Option Range) (g : ℕ) (groups : List ℕ) (rs : List Range)
    → contains g groups ≡ true
    → check_ranges size previous groups rs ≡ none
    → Fresh g rs
unfolding contains
contains-Fresh size previous g groups [] m h = tt
contains-Fresh size previous g groups (r ∷ rs) m h =
    let (k, rest) = check_ranges-cons size previous groups r rs h in
    (
      contains-not g r.group_id groups m (check_range-apart previous groups r k).1,
      contains-Fresh size (some r) g (r.group_id ∷ groups) rs (ground (arith, m)) rest,
    )

Behind-mono : (a b : Key) (rs : List Range) → bytes_lt b a ≡ false → Behind b rs → Behind a rs
Behind-mono a b [] h k = tt
Behind-mono a b (r ∷ rs) h (k, l) = (le_trans a b r.start h k, Behind-mono a b rs h l)

check_ranges-Behind :
    (size : ℕ) (r : Range) (groups : List ℕ) (rs : List Range)
    → check_ranges size (some r) groups rs ≡ none
    → Behind r.end rs
check_ranges-Behind size r groups [] h = tt
check_ranges-Behind size r groups (q ∷ rs) h =
    let (k, rest) = check_ranges-cons size (some r) groups q rs h in
    let apart = (check_range-apart (some r) groups q k).0 in
    let below =
      le_trans r.end q.start q.end apart
        (lt→le q.start q.end (check_range-IsGood (some r) groups q k).nonempty) in
    (
      apart,
      Behind-mono r.end q.end rs below (check_ranges-Behind size q (q.group_id ∷ groups) rs rest),
    )

check_ranges-IsTable :
    (size : ℕ) (previous : Option Range) (groups : List ℕ) (rs : List Range)
    → check_ranges size previous groups rs ≡ none
    → IsTable rs
unfolding contains
check_ranges-IsTable size previous groups [] h = tt
check_ranges-IsTable size previous groups (r ∷ rs) h =
    let (k, rest) = check_ranges-cons size previous groups r rs h in
    (
      check_range-IsGood previous groups r k,
      check_ranges-Behind size r (r.group_id ∷ groups) rs rest,
      contains-Fresh size (some r) r.group_id (r.group_id ∷ groups) rs (ground arith) rest,
      check_ranges-IsTable size (some r) (r.group_id ∷ groups) rs rest,
    )

pub validate-IsTable : (router : GroupRouter) → validate router ≡ none → IsTable router.ranges
unfolding validate
validate-IsTable router h = check_ranges-IsTable (length router.ranges) none [] router.ranges h

-- `key` lies in the range.
pub record Holds (r : Range) (key : Key) : Type 0 where
  pub from : bytes_lt key r.start ≡ false
  pub below : bytes_lt key r.end ≡ true

pub Memᴰ-IsGood : (r : Range) (rs : List Range) → IsTable rs → Memᴰ r rs → IsGood r
Memᴰ-IsGood r [] t m = elim m [ ]
Memᴰ-IsGood r (q ∷ rs) (g, b, f, t) (Memᴰ.head e) = subst (λ (x : Range). IsGood x) (sym e) g
Memᴰ-IsGood r (q ∷ rs) (g, b, f, t) (Memᴰ.tail m) = Memᴰ-IsGood r rs t m

Memᴰ-Behind :
    (r : Range) (rs : List Range) (key : Key)
    → Behind key rs
    → Memᴰ r rs
    → bytes_lt r.start key ≡ false
Memᴰ-Behind r [] key b m = elim m [ ]
Memᴰ-Behind r (q ∷ rs) key (h, b) (Memᴰ.head e) = rw e h
Memᴰ-Behind r (q ∷ rs) key (h, b) (Memᴰ.tail m) = Memᴰ-Behind r rs key b m

Memᴰ-Fresh :
    (r : Range) (rs : List Range) (g : ℕ) → Fresh g rs → Memᴰ r rs → (r.group_id == g) ≡ false
Memᴰ-Fresh r [] g f m = elim m [ ]
Memᴰ-Fresh r (q ∷ rs) g (h, f) (Memᴰ.head e) = rw e h
Memᴰ-Fresh r (q ∷ rs) g (h, f) (Memᴰ.tail m) = Memᴰ-Fresh r rs g f m

lookup-head :
    (r : Range) (rs : List Range) (key : Key) → Holds r key → lookup (r ∷ rs) key ≡ r.group_id
unfolding lookup
lookup-head r rs key h = ground (arith, h.from, h.below)

lookup-tail :
    (r : Range) (rs : List Range) (key : Key)
    → bytes_lt key r.start ≡ false
    → bytes_lt key r.end ≡ false
    → lookup (r ∷ rs) key ≡ lookup rs key
unfolding lookup
lookup-tail r rs key h k = ground (arith, h, k)

-- A key in a range of a table belongs to the range's group.
pub lookup-Holds :
    (r : Range) (rs : List Range) (key : Key)
    → IsTable rs
    → Memᴰ r rs
    → Holds r key
    → lookup rs key ≡ r.group_id
lookup-Holds r [] key t m h = elim m [ ]
lookup-Holds r (q ∷ rs) key (g, b, f, t) (Memᴰ.head e) h =
    rw e (lookup-head q rs key (subst (λ (x : Range). Holds x key) e h))
lookup-Holds r (q ∷ rs) key (g, b, f, t) (Memᴰ.tail m) h =
    let past = le_trans q.end r.start key (Memᴰ-Behind r rs q.end b m) h.from in
    let start = le_trans q.start q.end key (lt→le q.start q.end g.nonempty) past in
    lookup-tail q rs key start past ∙ lookup-Holds r rs key t m h

-- A key belongs to no range, or to one that holds it.
pub lookup-cases :
    (rs : List Range) (key : Key)
    → (lookup rs key ≡ 0) ⊎ ((r : Range) × Memᴰ r rs × Holds r key × (lookup rs key ≡ r.group_id))
unfolding lookup
lookup-cases [] key = inl refl
lookup-cases (r ∷ rs) key = elim (Bool-cases (bytes_lt key r.start)) [
  | inl before ↦ inl (ground (arith, before))
  | inr from ↦ elim (Bool-cases (bytes_lt key r.end)) [
    | inl below ↦
        let h : Holds r key = record { from = from; below = below } in
        inr (r, Memᴰ.head refl, h, lookup-head r rs key h)
    | inr past ↦
        let skip : lookup (r ∷ rs) key ≡ lookup rs key = lookup-tail r rs key from past in
        elim (lookup-cases rs key) [
          | inl none_holds ↦ inl (skip ∙ none_holds)
          | inr (q, m, h, e) ↦ inr (q, Memᴰ.tail m, h, skip ∙ e)
        ]
  ]
]

pub Memᴰ-unique :
    (p r : Range) (rs : List Range)
    → IsTable rs
    → Memᴰ p rs
    → Memᴰ r rs
    → p.group_id ≡ r.group_id
    → p ≡ r
Memᴰ-unique p r [] t m n h = elim m [ ]
Memᴰ-unique p r (q ∷ rs) (g, b, f, t) (Memᴰ.head d) (Memᴰ.head e) h = d ∙ sym e
Memᴰ-unique p r (q ∷ rs) (g, b, f, t) (Memᴰ.head d) (Memᴰ.tail n) h =
    ground (arith, ap (λ (x : Range). x.group_id) d, h, Memᴰ-Fresh r rs q.group_id f n)
Memᴰ-unique p r (q ∷ rs) (g, b, f, t) (Memᴰ.tail m) (Memᴰ.head e) h =
    ground (arith, ap (λ (x : Range). x.group_id) e, h, Memᴰ-Fresh p rs q.group_id f m)
Memᴰ-unique p r (q ∷ rs) (g, b, f, t) (Memᴰ.tail m) (Memᴰ.tail n) h = Memᴰ-unique p r rs t m n h
