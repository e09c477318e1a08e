-- ===== src/Raft/MemoryLog.antt =====
-- raft/memory_log_store.h: the log store in memory, with the compacted prefix of the log.
pub mod Places
use hands_on_sqldb_in_cpp.Prelude.{
  ℕ, String, suc, ◌+◌, ◌-◌, ◌≡◌, refl, Bool, ◌||◌, ◌==◌, not, Option, none, some, List, [], ◌∷◌,
  ◌++◌, ltb, leb, take, get_elem?, if◌then◌else◌, inc,
}
use hands_on_sqldb_in_cpp.Raft.Types.{
  LogEntry, HardState, SnapshotMetadata, Error, invalid_argument, Result, ok, err, invalid_index,
}

pub record MemoryLogStore : Type 0 where
  pub entries : List LogEntry
  pub last_index : ℕ
  pub snapshot_meta : SnapshotMetadata
  pub hard_state : HardState
  pub hard_state_writes : ℕ

abbrev pub empty : MemoryLogStore
empty = record {
  entries = [];
  last_index = invalid_index;
  snapshot_meta = record { last_included_index = invalid_index; last_included_term = 0 };
  hard_state = record { term = 0; voted_for = none };
  hard_state_writes = 0;
}

abbrev invalid : String → Error
invalid message = record { code = invalid_argument; message = message }

unfoldable pub append : LogEntry → MemoryLogStore → Result (Unit {0}) × MemoryLogStore
append entry s =
    if entry.index == invalid_index || entry.term == 0
    then (err (invalid "invalid log entry"), s)
    else if not (entry.index == inc s.last_index)
    then (err (invalid "append must extend the log by exactly one entry"), s)
    else (ok tt, record s { entries = s.entries ++ entry ∷ []; last_index = entry.index })

-- `entries_[i]`; past the end, which the checks before it rule out, an error.
abbrev at_place : Option LogEntry → Result LogEntry
at_place none = err (invalid "entries_ out of bounds")
at_place (some e) = ok e

unfoldable pub at : ℕ → MemoryLogStore → Result LogEntry
at index s =
    if index == invalid_index || ltb s.last_index index
    then err (invalid "log index out of range")
    else if ltb index s.snapshot_meta.last_included_index
    then err (invalid "log index is inside the compacted snapshot prefix")
    else if index == s.snapshot_meta.last_included_index
    then ok (record { index = index; term = s.snapshot_meta.last_included_term; payload = [] })
    else at_place (get_elem? s.entries (index - 1 - s.snapshot_meta.last_included_index))

unfoldable pub truncate_suffix : ℕ → MemoryLogStore → Result (Unit {0}) × MemoryLogStore
truncate_suffix from s =
    if from == invalid_index
      || leb from s.snapshot_meta.last_included_index
      || ltb (inc s.last_index) from
    then (err (invalid "truncate suffix out of range"), s)
    else (
      ok tt,
      record s {
        entries = take (from - 1 - s.snapshot_meta.last_included_index) s.entries;
        last_index = from - 1;
      },
    )

unfoldable pub save_hard_state : HardState → MemoryLogStore → Result (Unit {0}) × MemoryLogStore
save_hard_state hard s =
    (ok tt, record s { hard_state = hard; hard_state_writes = inc s.hard_state_writes })

-- The loop that erases the first entry as long as the snapshot covers it.
unfoldable pub drop_covered : ℕ → List LogEntry → List LogEntry
drop_covered boundary [] = []
drop_covered boundary (e ∷ es) =
    let rest = drop_covered boundary es in if leb e.index boundary then rest else e ∷ es

unfoldable pub install_snapshot :
    SnapshotMetadata → MemoryLogStore → Result (Unit {0}) × MemoryLogStore
unfolding drop_covered
install_snapshot meta s =
    if meta.last_included_index == invalid_index || meta.last_included_term == 0
    then (err (invalid "invalid snapshot metadata"), s)
    else (
      ok tt,
      record s {
        entries = drop_covered meta.last_included_index s.entries;
        snapshot_meta = meta;
        last_index =
            if ltb s.last_index meta.last_included_index
            then meta.last_included_index
            else s.last_index;
      },
    )
