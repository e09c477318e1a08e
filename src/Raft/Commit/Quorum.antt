-- ===== src/Raft/Commit/Quorum.antt =====
-- The commit index that a leader derives from the match indices: `quorum_match_index` and
-- `has_quorum` of raft/raft_node.cpp.
use hands_on_sqldb_in_cpp.Prelude.{
  ℕ, zero, suc, ◌+◌, ◌-◌, ◌*◌, ◌/◌, ◌≤◌, ◌<◌, ◌≡◌, ◌↔◌, refl, ap, true, false, List, [], ◌∷◌, arith,
  leb, length, count, get_or,
}
use hands_on_sqldb_in_cpp.Raft.Types.{NodeId}
use hands_on_sqldb_in_cpp.Prelude.Maps.{Map}
use hands_on_sqldb_in_cpp.Raft.Env.{Env}
use hands_on_sqldb_in_cpp.Raft.Node.{Node, has_quorum}
use hands_on_sqldb_in_cpp.Raft.Commit.{
  insert_desc, sort_desc, matches, quorum_index, quorum_match_index,
}

-- Every element is at most `x`.
abbrev Below : ℕ → List ℕ → Type 0
Below x [] = Unit {0}
Below x (y ∷ ys) = (y ≤ x) × Below x ys

abbrev IsDesc : List ℕ → Type 0
IsDesc [] = Unit {0}
IsDesc (x ∷ xs) = Below x xs × IsDesc xs

Below-mono : (x y : ℕ) (xs : List ℕ) → x ≤ y → Below x xs → Below y xs
Below-mono x y [] h b = tt
Below-mono x y (z ∷ zs) h b = (omega arith, Below-mono x y zs h b.1)

insert_desc-Below : (x y : ℕ) (ys : List ℕ) → y ≤ x → Below x ys → Below x (insert_desc y ys)
unfolding insert_desc
insert_desc-Below x y [] h b = (h, tt)
insert_desc-Below x y (z ∷ zs) h b = ground (arith, insert_desc-Below x y zs h b.1)

insert_desc-IsDesc : (x : ℕ) (xs : List ℕ) → IsDesc xs → IsDesc (insert_desc x xs)
unfolding insert_desc
insert_desc-IsDesc x [] d = (tt, tt)
insert_desc-IsDesc x (y ∷ ys) d =
    ground (arith, insert_desc-IsDesc x ys d.1, insert_desc-Below y x ys, Below-mono y x ys)

sort_desc-IsDesc : (xs : List ℕ) → IsDesc (sort_desc xs)
unfolding sort_desc
sort_desc-IsDesc [] = tt
sort_desc-IsDesc (x ∷ xs) = insert_desc-IsDesc x (sort_desc xs) (sort_desc-IsDesc xs)

count-insert_desc :
    (v x : ℕ) (xs : List ℕ) → count (leb v) (insert_desc x xs) ≡ count (leb v) (x ∷ xs)
unfolding insert_desc
count-insert_desc v x [] = refl
count-insert_desc v x (y ∷ ys) = ground (arith, count-insert_desc v x ys)

count-sort_desc : (v : ℕ) (xs : List ℕ) → count (leb v) (sort_desc xs) ≡ count (leb v) xs
unfolding sort_desc
count-sort_desc v [] = refl
count-sort_desc v (x ∷ xs) =
    ground (arith, count-insert_desc v x (sort_desc xs), count-sort_desc v xs)

length-insert_desc : (x : ℕ) (xs : List ℕ) → length (insert_desc x xs) ≡ suc (length xs)
unfolding insert_desc
length-insert_desc x [] = refl
length-insert_desc x (y ∷ ys) = ground (arith, length-insert_desc x ys)

length-sort_desc : (xs : List ℕ) → length (sort_desc xs) ≡ length xs
unfolding sort_desc
length-sort_desc [] = refl
length-sort_desc (x ∷ xs) = omega (arith, length-insert_desc x (sort_desc xs), length-sort_desc xs)

Below-count : (v x : ℕ) (xs : List ℕ) → x < v → Below x xs → count (leb v) xs ≡ 0
Below-count v x [] h b = refl
Below-count v x (y ∷ ys) h b = ground (arith, Below-count v x ys h b.1)

-- In a falling list the element at `i` reaches `v` exactly when more than `i` elements do.
get_or-reaches :
    (v i d : ℕ) (xs : List ℕ)
    → IsDesc xs
    → i < length xs
    → (v ≤ get_or xs i d) ↔ (i < count (leb v) xs)
get_or-reaches v i d [] s h = elim h [ ]
get_or-reaches v zero d (x ∷ xs) s h = ground (arith, Below-count v x xs)
get_or-reaches v (suc i) d (x ∷ xs) s h =
    let ih = get_or-reaches v i d xs s.1 (omega arith) in ground (arith, ih, Below-count v x xs)

quorum_index-reaches :
    (v : ℕ) (ms : List ℕ)
    → 0 < length ms
    → (v ≤ quorum_index ms) ↔ ((length ms - 1) / 2 < count (leb v) ms)
unfolding quorum_index
quorum_index-reaches v [] h = elim h [ ]
quorum_index-reaches v (x ∷ xs) h = rw (← count-sort_desc v (x ∷ xs)) (
    get_or-reaches v _ 0 (sort_desc (x ∷ xs)) (sort_desc-IsDesc (x ∷ xs))
      (omega (arith, length-sort_desc (x ∷ xs))))

length-matches : (peers : List NodeId) (m : Map NodeId ℕ) → length (matches peers m) ≡ length peers
unfolding matches
length-matches [] m = refl
length-matches (p ∷ ps) m = ap suc (length-matches ps m)

-- How many of the peers are known to hold the log up to `v`.
abbrev pub holders : {E : Env} → ℕ → Node E → ℕ
holders v s = count (leb v) (matches s.config.peers s.match_index)

module _ {E : Env} (s : Node E) where
  -- In a group with an odd number of peers, the index that the leader may commit is the largest one
  -- that a quorum of the peers holds: an index is at or below it exactly when a quorum holds it.
  pub quorum_match_index-odd :
      (k v : ℕ)
      → length s.config.peers ≡ 2 * k + 1
      → (v ≤ quorum_match_index s) ↔ (has_quorum (holders v s) s ≡ true)
  unfolding quorum_match_index has_quorum
  quorum_match_index-odd k v odd = ground (
    arith,
    quorum_index-reaches v (matches s.config.peers s.match_index),
    length-matches s.config.peers s.match_index,
  )

  -- In a group with an even number of peers, half of them are enough: an index that exactly half of
  -- the peers hold, which is no quorum, is still at or below the index that the leader may commit.
  pub quorum_match_index-even :
      (k v : ℕ)
      → length s.config.peers ≡ 2 * k
      → 0 < k
      → holders v s ≡ k
      → (v ≤ quorum_match_index s) × (has_quorum (holders v s) s ≡ false)
  unfolding quorum_match_index has_quorum
  quorum_match_index-even k v even h held = ground (
    arith,
    quorum_index-reaches v (matches s.config.peers s.match_index),
    length-matches s.config.peers s.match_index,
  )
