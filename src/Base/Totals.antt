-- ===== src/Base/Totals.antt =====
-- Sums over the values of a `std::map`, and what one change does to them.
use Prim.Native.Nat.{ℕ, ◌+◌}
use mathlib.Core.Path.{◌≡◌, refl, ap}
use mathlib.Core.Logic.{inl, inr}
use mathlib.Core.Bool.{true}
use mathlib.Core.Option.{Option, none, some}
use mathlib.Core.List.{List, [], ◌∷◌}
use native.Mathlib.Omega.{arith}
use libnavajo.Base.Tests.{Bool-cases}
use libnavajo.Base.Dict.{
  KeyOrder, equiv, lookup, insert, erase, RisesFrom, IsSorted, RisesFrom-mono, lt_of_equiv,
  equiv_of_false,
}

abbrev pub total {ℓ κ} : {K : Type ℓ} {V : Type κ} → (V → ℕ) → List (K × V) → ℕ
total f [] = 0
total f ((k, v) ∷ m) = f v + total f m

abbrev pub weight {κ} : {V : Type κ} → (V → ℕ) → Option V → ℕ
weight f none = 0
weight f (some v) = f v

module _ {ℓ} {K : Type ℓ} ⦃o : KeyOrder K⦄ where
  lt_of_equiv_lt : (k i j : K) → equiv k i ≡ true → o.lt i j ≡ true → o.lt k j ≡ true
  lt_of_equiv_lt k i j e h = elim (Bool-cases (o.lt k j)) [
    | inl less ↦ less
    | inr not_less ↦ elim (Bool-cases (o.lt j k)) [
      | inl greater ↦ ground (arith, o.lt_trans i j k h greater, lt_of_equiv k i e)
      | inr neither ↦ ground (
        arith,
        o.incomparable_trans i k j (lt_of_equiv k i e).1 (lt_of_equiv k i e).0 not_less neither,
      )
    ]
  ]

module _ {ℓ κ} {K : Type ℓ} {V : Type κ} ⦃o : KeyOrder K⦄ where
  pub RisesFrom-lookup : (k : K) (m : List (K × V)) → RisesFrom k m → lookup k m ≡ none
  unfolding lookup
  RisesFrom-lookup k [] s = refl
  RisesFrom-lookup k ((j, w) ∷ m) s =
      ground (arith, lt_of_equiv k j, RisesFrom-lookup k m (RisesFrom-mono k j m s.0 s.1))

  pub RisesFrom-equiv :
      (k i : K) (m : List (K × V)) → equiv k i ≡ true → RisesFrom i m → RisesFrom k m
  RisesFrom-equiv k i [] e s = tt
  RisesFrom-equiv k i ((j, w) ∷ m) e s = (lt_of_equiv_lt k i j e s.0, s.1)

  RisesFrom-erase : (k : K) (m : List (K × V)) → RisesFrom k m → erase k m ≡ m
  unfolding erase
  RisesFrom-erase k [] s = refl
  RisesFrom-erase k ((j, w) ∷ m) s =
      ground (arith, lt_of_equiv k j, RisesFrom-erase k m (RisesFrom-mono k j m s.0 s.1))

  pub RisesFrom-IsSorted : (i : K) (m : List (K × V)) → RisesFrom i m → IsSorted m
  RisesFrom-IsSorted i [] s = tt
  RisesFrom-IsSorted i ((j, w) ∷ m) s = s.1

  module _ (f : V → ℕ) where
    pub total-insert :
        (k : K) (v : V) (m : List (K × V))
        → IsSorted m
        → total f (insert k v m) + weight f (lookup k m) ≡ total f m + f v
    unfolding insert lookup
    total-insert k v [] s = omega arith
    total-insert k v ((j, w) ∷ m) s = elim (Bool-cases (o.lt k j)) [
      | inl below ↦
          ground (arith, lt_of_equiv k j, RisesFrom-lookup k m (RisesFrom-mono k j m below s))
      | inr not_below ↦ ground (
        arith,
        lt_of_equiv k j,
        equiv_of_false k j,
        total-insert k v m (RisesFrom-IsSorted j m s),
      )
    ]

    pub total-erase :
        (k : K) (m : List (K × V))
        → IsSorted m
        → total f (erase k m) + weight f (lookup k m) ≡ total f m
    unfolding erase lookup
    total-erase k [] s = omega arith
    total-erase k ((j, w) ∷ m) s = elim (Bool-cases (equiv k j)) [
      | inl same ↦ ground (arith, ap (total f) (RisesFrom-erase k m (RisesFrom-equiv k j m same s)))
      | inr other ↦ ground (arith, total-erase k m (RisesFrom-IsSorted j m s))
    ]
