-- ===== src/Prelude/OrderedMap.antt =====
-- The uses of `std::map<K, V>` in the program: the entries in iteration order, keys compared by
-- the equivalence of a comparison `lt`.
use mathlib.Core.Path.{◌≡◌, refl}
use mathlib.Core.Bool.{Bool}
use mathlib.Core.Option.{Option, none, some}
use mathlib.Core.List.{List, [], ◌∷◌}
use native.Mathlib.Omega.{arith}
use cppkafka.Prelude.Tests.{if◌then◌else◌}
use cppkafka.Prelude.Order.{equiv, StrictWeakOrder}

abbrev pub OrderedMap {ℓ} : Type ℓ → Type ℓ → Type ℓ
OrderedMap K V = List (K × V)

module _ {ℓ} {K V : Type ℓ} (lt : K → K → Bool) where
  -- `map.find(k)`: the value, if there is one.
  unfoldable pub find : K → OrderedMap K V → Option V
  find k [] = none
  find k ((j, w) ∷ m) = if equiv lt j k then some w else find k m

  -- `map.emplace(k, v)`: an entry that is there stays.
  unfoldable pub emplace : K → V → OrderedMap K V → OrderedMap K V
  emplace k v [] = (k, v) ∷ []
  emplace k v ((j, w) ∷ m) =
      if lt k j then (k, v) ∷ (j, w) ∷ m else if lt j k then (j, w) ∷ emplace k v m else (j, w) ∷ m

  -- `map[k] = v`: an entry that is there keeps its key and gets the value.
  unfoldable pub assign : K → V → OrderedMap K V → OrderedMap K V
  assign k v [] = (k, v) ∷ []
  assign k v ((j, w) ∷ m) =
      if lt k j then (k, v) ∷ (j, w) ∷ m else if lt j k then (j, w) ∷ assign k v m else (j, v) ∷ m

  -- `map.erase(k)`.
  unfoldable pub erase : K → OrderedMap K V → OrderedMap K V
  erase k [] = []
  erase k ((j, w) ∷ m) = if equiv lt j k then erase k m else (j, w) ∷ erase k m

module _ {ℓ} {K V : Type ℓ} {lt : K → K → Bool} (o : StrictWeakOrder lt) where
  pub find-emplace :
      (k x : K) (v w : V) (m : OrderedMap K V)
      → find lt k m ≡ none
      → find lt x (emplace lt k v m) ≡ (if equiv lt k x then some v else find lt x m)
  unfolding find emplace
  find-emplace k x v w [] h = refl
  find-emplace k x v w ((j, u) ∷ m) h =
      ground (
        arith,
        find-emplace k x v w m,
        o.equiv_trans j k x,
        o.equiv_trans k j x,
        o.equiv_trans j x k,
      )

  pub find-assign :
      (k x : K) (v : V) (m : OrderedMap K V)
      → find lt x (assign lt k v m) ≡ (if equiv lt k x then some v else find lt x m)
  unfolding find assign
  find-assign k x v [] = refl
  find-assign k x v ((j, u) ∷ m) =
      ground
        (arith, find-assign k x v m, o.equiv_trans j k x, o.equiv_trans k j x, o.equiv_trans j x k)

  pub find-erase :
      (k x : K) (m : OrderedMap K V)
      → find lt x (erase lt k m) ≡ (if equiv lt k x then none else find lt x m)
  unfolding find erase
  find-erase k x [] = ground arith
  find-erase k x ((j, u) ∷ m) =
      ground
        (arith, find-erase k x m, o.equiv_trans j k x, o.equiv_trans k j x, o.equiv_trans j x k)
