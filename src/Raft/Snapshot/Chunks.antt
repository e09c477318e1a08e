-- ===== src/Raft/Snapshot/Chunks.antt =====
-- The chunks that a snapshot is cut into: `send_snapshot` of raft/raft_node.cpp.
use hands_on_sqldb_in_cpp.Prelude.{
  ℕ, zero, suc, ◌+◌, ◌-◌, ◌≤◌, ◌<◌, ◌≡◌, refl, sym, ap, ◌∙◌, Bool, ◌==◌, [], ◌∷◌, arith, length,
  take, drop, min,
}
use hands_on_sqldb_in_cpp.Prelude.Order.{Bytes}
use hands_on_sqldb_in_cpp.Raft.Types.{InstallSnapshotRequest}
use hands_on_sqldb_in_cpp.Raft.Commit.{chunks, snapshot_frames, snapshot_chunk_bytes}

drop-nil : (n : ℕ) → drop {A = ℕ} n [] ≡ []
drop-nil zero = refl
drop-nil (suc n) = refl

pub drop-add : (a b : ℕ) (xs : Bytes) → drop (a + b) xs ≡ drop b (drop a xs)
drop-add zero b xs = let e : 0 + b ≡ b = omega arith in rw e
drop-add (suc a) b [] = drop-nil (suc a + b) ∙ sym (drop-nil b)
drop-add (suc a) b (x ∷ xs) =
    let e : suc a + b ≡ suc (a + b) = omega arith in rw e (drop-add a b xs)

pub take-all : (n : ℕ) (xs : Bytes) → length xs ≤ n → take n xs ≡ xs
take-all zero [] h = refl
take-all (suc n) [] h = refl
take-all zero (x ∷ xs) h = elim h [ ]
take-all (suc n) (x ∷ xs) h = ap (λ (l : Bytes). x ∷ l) (take-all n xs (omega arith))

chunk_pos : 0 < snapshot_chunk_bytes
unfolding snapshot_chunk_bytes
chunk_pos = omega arith

abbrev pub size_at : Bytes → ℕ → ℕ
size_at blob n = min snapshot_chunk_bytes (length blob - n)

pub size_at-le :
    (blob : Bytes) (n : ℕ)
    → n < length blob
    → (0 < size_at blob n) × (n + size_at blob n ≤ length blob)
size_at-le blob n h = omega (arith, chunk_pos)

-- The frame of a chunk.
abbrev pub frame : InstallSnapshotRequest → ℕ → Bool → Bytes → InstallSnapshotRequest
frame request n done part = record request { offset = n; is_done = done; payload = part }

module _ (blob : Bytes) (request : InstallSnapshotRequest) where
  pub chunks-step :
      (fuel n : ℕ)
      → n < length blob
      → chunks (suc fuel) n blob request
        ≡ frame request n (n + size_at blob n == length blob) (take (size_at blob n) (drop n blob))
          ∷ chunks fuel (n + size_at blob n) blob request
  unfolding chunks
  chunks-step fuel n h = ground (arith, h)

  pub chunks-over : (fuel n : ℕ) → length blob ≤ n → chunks fuel n blob request ≡ []
  unfolding chunks
  chunks-over zero n h = refl
  chunks-over (suc fuel) n h = ground (arith, h)

pub snapshot_frames-chunks :
    (blob : Bytes) (request : InstallSnapshotRequest)
    → 0 < length blob
    → snapshot_frames blob request ≡ chunks (length blob) 0 blob request
unfolding snapshot_frames
snapshot_frames-chunks [] request h = absurd (omega arith)
snapshot_frames-chunks (x ∷ xs) request h = refl
