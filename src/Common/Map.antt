-- ===== src/Common/Map.antt =====
-- A BTreeMap with number keys: an association list in the order of the keys.
use Prim.Native.Nat.{ℕ, compare, Ordering}
use mathlib.Core.Path.{◌≡◌, refl}
use mathlib.Core.Bool.{Bool, true, false}
use mathlib.Core.Logic.{◌≢◌}
use mathlib.Core.List.{List, [], ◌∷◌}
use mathlib.Core.Option.{Option, none, some}
use native.Mathlib.Omega.{arith}
use moonlight_common_rust.Common.Tests.{◌==◌, if◌then◌else◌}

abbrev pub Map : Type 0 → Type 0
Map V = List (ℕ × V)

module _ {V : Type 0} where
  unfoldable pub get : ℕ → Map V → Option V
  get k [] = none
  get k ((j, v) ∷ m) = if j == k then some v else get k m

  -- A key that is there keeps its place.
  unfoldable pub insert : ℕ → V → Map V → Map V
  insert k v [] = (k, v) ∷ []
  insert k v ((j, w) ∷ m) = elim (compare k j) [
    | Ordering.lt ↦ (k, v) ∷ (j, w) ∷ m
    | Ordering.eq ↦ (k, v) ∷ m
    | Ordering.gt ↦ (j, w) ∷ insert k v m
  ]

  unfoldable pub remove : ℕ → Map V → Map V
  remove k [] = []
  remove k ((j, w) ∷ m) = if j == k then remove k m else (j, w) ∷ remove k m

  -- Replace the value of a key that is there.
  unfoldable pub update : ℕ → V → Map V → Map V
  update k v [] = []
  update k v ((j, w) ∷ m) = (if j == k then (j, v) else (j, w)) ∷ update k v m

  unfoldable pub contains_key : ℕ → Map V → Bool
  contains_key k m = elim (get k m) [ none ↦ false | some v ↦ true ]

  pub get-insert :
      (k j : ℕ) (v : V) (m : Map V) → get j (insert k v m) ≡ (if k == j then some v else get j m)
  unfolding get insert
  get-insert k j v [] = refl
  get-insert k j v ((i, w) ∷ m) = ground (arith, get-insert k j v m)

  pub get-remove : (k j : ℕ) (m : Map V) → get j (remove k m) ≡ (if k == j then none else get j m)
  unfolding get remove
  get-remove k j [] = ground arith
  get-remove k j ((i, w) ∷ m) = ground (arith, get-remove k j m)

  pub get-update_ne : (k j : ℕ) (v : V) (m : Map V) → k ≢ j → get j (update k v m) ≡ get j m
  unfolding get update
  get-update_ne k j v [] h = refl
  get-update_ne k j v ((i, w) ∷ m) h = ground (arith, get-update_ne k j v m h)

  pub get-update_self :
      (k : ℕ) (v w : V) (m : Map V) → get k m ≡ some w → get k (update k v m) ≡ some v
  unfolding get update
  get-update_self k v w [] h = cc
  get-update_self k v w ((i, u) ∷ m) h = ground (arith, get-update_self k v w m)
