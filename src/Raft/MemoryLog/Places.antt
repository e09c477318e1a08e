-- ===== src/Raft/MemoryLog/Places.antt =====
-- Where the entries of the log store in memory stand.
use hands_on_sqldb_in_cpp.Prelude.{
  ℕ, zero, suc, ◌+◌, ◌-◌, ◌≤◌, ◌<◌, ◌≡◌, refl, Bool-cases, inl, inr, List, [], ◌∷◌, ◌++◌, arith,
  ltb, leb, take, some, ◌==◌, get_elem?, length, length-append, length-take, if◌then◌else◌, inc_lem,
  inc_le, u64_mod,
}
use hands_on_sqldb_in_cpp.Raft.Types.{ok, LogEntry, SnapshotMetadata}
use hands_on_sqldb_in_cpp.Raft.MemoryLog.{
  MemoryLogStore, append, at, truncate_suffix, install_snapshot, drop_covered,
}

-- The entries are numbered one after the other from `i` on.
abbrev Numbered : ℕ → List LogEntry → Type 0
Numbered i [] = Unit {0}
Numbered i (e ∷ es) = (e.index ≡ i) × Numbered (suc i) es

-- The entries are those after the snapshot up to the last index.
pub record IsContiguous (s : MemoryLogStore) : Type 0 where
  pub numbered : Numbered (suc s.snapshot_meta.last_included_index) s.entries
  pub last : s.last_index ≡ s.snapshot_meta.last_included_index + length s.entries

Numbered-snoc :
    (i : ℕ) (es : List LogEntry) (e : LogEntry)
    → Numbered i es
    → e.index ≡ i + length es
    → Numbered i (es ++ e ∷ [])
Numbered-snoc i [] e n h = (omega arith, tt)
Numbered-snoc i (x ∷ xs) e n h = (n.0, Numbered-snoc (suc i) xs e n.1 (omega arith))

Numbered-take : (i k : ℕ) (es : List LogEntry) → Numbered i es → Numbered i (take k es)
Numbered-take i zero es n = tt
Numbered-take i (suc k) [] n = tt
Numbered-take i (suc k) (e ∷ es) n = (n.0, Numbered-take (suc i) k es n.1)

-- An append that succeeds or fails keeps the entries numbered one after the other from the one
-- after the snapshot up to the last index, as long as the last index does not wrap around.
pub append-IsContiguous :
    (entry : LogEntry) (s : MemoryLogStore)
    → s.last_index + 1 < u64_mod
    → IsContiguous s
    → IsContiguous (append entry s).1
unfolding append
append-IsContiguous entry s small c = ground (
  arith,
  inc_lem s.last_index small,
  Numbered-snoc (suc s.snapshot_meta.last_included_index) s.entries entry c.numbered,
  length-append s.entries (entry ∷ []),
)

-- The removal of a suffix, whatever index it is asked to start from and whether it succeeds or
-- fails, keeps the entries numbered up to the last index.
truncate_suffix-IsContiguous :
    (from : ℕ) (s : MemoryLogStore) → IsContiguous s → IsContiguous (truncate_suffix from s).1
unfolding truncate_suffix
truncate_suffix-IsContiguous from s c =
    let k = from - 1 - s.snapshot_meta.last_included_index in
    ground (
      arith,
      inc_le s.last_index,
      Numbered-take (suc s.snapshot_meta.last_included_index) k s.entries c.numbered,
      length-take k s.entries,
    )

-- What lies above a boundary is not dropped.
drop_covered-above :
    (b i : ℕ) (es : List LogEntry) → Numbered (suc i) es → b ≤ i → drop_covered b es ≡ es
unfolding drop_covered
drop_covered-above b i [] n h = refl
drop_covered-above b i (e ∷ es) n h = ground (arith, n.0)

-- Dropping what a boundary covers leaves the entries above it.
drop_covered-Numbered :
    (b i : ℕ) (es : List LogEntry)
    → Numbered (suc i) es
    → i ≤ b
    → Numbered (suc b) (drop_covered b es)
unfolding drop_covered
drop_covered-Numbered b i [] n h = tt
drop_covered-Numbered b i (e ∷ es) n h = elim (Bool-cases (leb e.index b)) [
  | inl covered ↦ rw covered (drop_covered-Numbered b (suc i) es n.1 (ground (arith, n.0)))
  | inr above ↦ let same : i ≡ b = ground (arith, n.0) in rw (above, ← same) n
]

length-drop_covered :
    (b i : ℕ) (es : List LogEntry)
    → Numbered (suc i) es
    → i ≤ b
    → b + length (drop_covered b es) ≡ (if ltb (i + length es) b then b else i + length es)
unfolding drop_covered
length-drop_covered b i [] n h = ground arith
length-drop_covered b i (e ∷ es) n h = elim (Bool-cases (leb e.index b)) [
  | inl covered ↦ ground (arith, length-drop_covered b (suc i) es n.1 (ground (arith, n.0)))
  | inr above ↦ let same : i ≡ b = ground (arith, n.0) in ground (arith, n.0)
]

-- Installing a snapshot that is not older than the present one keeps the entries numbered: those
-- it covers are gone, the others stay, and the last index is the snapshot's where nothing is left.
pub install_snapshot-IsContiguous :
    (meta : SnapshotMetadata) (s : MemoryLogStore)
    → s.snapshot_meta.last_included_index ≤ meta.last_included_index
    → IsContiguous s
    → IsContiguous (install_snapshot meta s).1
unfolding install_snapshot
install_snapshot-IsContiguous meta s newer c = ground (
  arith,
  drop_covered-Numbered meta.last_included_index s.snapshot_meta.last_included_index s.entries
      c.numbered newer,
  length-drop_covered meta.last_included_index s.snapshot_meta.last_included_index s.entries
      c.numbered newer,
)

get-Numbered :
    (i k : ℕ) (es : List LogEntry)
    → Numbered i es
    → k < length es
    → (e : LogEntry) × (get_elem? es k ≡ some e) × (e.index ≡ i + k)
get-Numbered i k [] n h = elim h [ ]
get-Numbered i zero (e ∷ es) n h = (e, refl, omega (arith, n.0))
get-Numbered i (suc k) (e ∷ es) n h =
    let (x, found, place) = get-Numbered (suc i) k es n.1 (omega arith) in
    (x, found, omega (arith, place))

-- On a store whose entries are numbered, a read of a positive index, from the snapshot's on up to
-- the last index, gives an entry of that index.
pub at_succeeds :
    (index : ℕ) (s : MemoryLogStore)
    → IsContiguous s
    → 0 < index
    → s.snapshot_meta.last_included_index ≤ index
    → index ≤ s.last_index
    → (e : LogEntry) × (at index s ≡ ok e) × (e.index ≡ index)
unfolding at
at_succeeds index s c pos low high =
    elim (Bool-cases (index == s.snapshot_meta.last_included_index)) [
      | inl boundary ↦ (
        record { index = index; term = s.snapshot_meta.last_included_term; payload = [] },
        ground arith,
        refl,
      )
      | inr inside ↦
          let k = index - 1 - s.snapshot_meta.last_included_index in
          let apart : s.snapshot_meta.last_included_index < index = ground arith in
          let (e, found, place) =
            get-Numbered (suc s.snapshot_meta.last_included_index) k s.entries c.numbered
              (omega (arith, c.last)) in
          (e, ground arith, omega (arith, place))
    ]
