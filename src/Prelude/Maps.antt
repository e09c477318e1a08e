-- ===== src/Prelude/Maps.antt =====
-- `std::map`: an association list in key order, with the laws that clients use.
use hands_on_sqldb_in_cpp.Prelude.Tests.{if◌then◌else◌}
use hands_on_sqldb_in_cpp.Prelude.Order.{Order, eqb, eqb→eq}
use mathlib.Core.Path.{◌≡◌, refl}
use mathlib.Core.Bool.{Bool}
use mathlib.Core.Option.{Option, none, some}
use mathlib.Core.List.{List, [], ◌∷◌}
use native.Mathlib.Omega.{arith}

abbrev pub Map {ℓ κ} : Type ℓ → Type κ → Type (ℓ ⊔ κ)
Map K V = List (K × V)

module _ {ℓ κ} {K : Type ℓ} {V : Type κ} ⦃o : Order K⦄ where
  unfoldable pub find : K → Map K V → Option V
  find k [] = none
  find k ((j, v) ∷ m) = if eqb j k then some v else find k m

  -- m[k] = v
  unfoldable pub assign : K → V → Map K V → Map K V
  assign k v [] = (k, v) ∷ []
  assign k v ((j, w) ∷ m) =
      let rest = assign k v m in
      if o.lt k j then (k, v) ∷ (j, w) ∷ m else if o.lt j k then (j, w) ∷ rest else (k, v) ∷ m

  -- Keeps the entries whose key passes a test: `erase` in a loop.
  unfoldable pub keep_keys : (K → Bool) → Map K V → Map K V
  keep_keys p [] = []
  keep_keys p ((j, w) ∷ m) = let rest = keep_keys p m in if p j then (j, w) ∷ rest else rest

  pub find-assign :
      (k j : K) (v : V) (m : Map K V)
      → find j (assign k v m) ≡ (if eqb k j then some v else find j m)
  unfolding find assign
  find-assign k j v [] = refl
  find-assign k j v ((i, w) ∷ m) =
      ground (arith, find-assign k j v m, o.lt_connex k i, eqb→eq k j, eqb→eq i j, o.lt_irrefl i)

  find-keep_keys :
      (p : K → Bool) (j : K) (m : Map K V)
      → find j (keep_keys p m) ≡ (if p j then find j m else none)
  unfolding find keep_keys
  find-keep_keys p j [] = ground arith
  find-keep_keys p j ((i, w) ∷ m) = ground (arith, find-keep_keys p j m, eqb→eq i j)
