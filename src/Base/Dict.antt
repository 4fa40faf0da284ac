-- ===== src/Base/Dict.antt =====
-- `std::map`: an association list in the order of its keys, over a strict weak order.
use mathlib.Core.Path.{◌≡◌, refl}
use mathlib.Core.Bool.{Bool, true, false, not, ◌&&◌}
use mathlib.Core.Option.{Option, none, some}
use mathlib.Core.List.{List, [], ◌∷◌, map}
use native.Mathlib.Omega.{arith}
use libnavajo.Base.Tests.{if◌then◌else◌}

-- What the container asks of `operator<`.
pub record KeyOrder {ℓ} (K : Type ℓ) : Type ℓ where
  pub lt : K → K → Bool
  pub lt_irrefl : (a : K) → lt a a ≡ false
  pub lt_trans : (a b c : K) → lt a b ≡ true → lt b c ≡ true → lt a c ≡ true
  pub incomparable_trans :
      (a b c : K)
      → lt a b ≡ false
      → lt b a ≡ false
      → lt b c ≡ false
      → lt c b ≡ false
      → (lt a c ≡ false) × (lt c a ≡ false)

module _ {ℓ} {K : Type ℓ} ⦃o : KeyOrder K⦄ where
  -- Keys that the container takes for one another.
  unfoldable pub equiv : K → K → Bool
  equiv a b = not (o.lt a b) && not (o.lt b a)

  pub equiv_refl : (a : K) → equiv a a ≡ true
  unfolding equiv
  equiv_refl a = ground (arith, o.lt_irrefl a)

  pub equiv_sym : (a b : K) → equiv a b ≡ equiv b a
  unfolding equiv
  equiv_sym a b = ground arith

  pub equiv_trans : (a b c : K) → equiv a b ≡ true → equiv b c ≡ true → equiv a c ≡ true
  unfolding equiv
  equiv_trans a b c p q = ground (arith, o.incomparable_trans a b c)

  -- Equivalent keys are found alike.
  pub equiv_cong : (a b c : K) → equiv a b ≡ true → equiv a c ≡ equiv b c
  equiv_cong a b c p = ground (arith, equiv_trans a b c, equiv_trans b a c, equiv_sym a b)

  pub equiv_cong_right : (c a b : K) → equiv a b ≡ true → equiv c a ≡ equiv c b
  equiv_cong_right c a b p = ground (arith, equiv_cong a b c p, equiv_sym c a, equiv_sym c b)

  pub equiv_of_false : (a b : K) → o.lt a b ≡ false → o.lt b a ≡ false → equiv a b ≡ true
  unfolding equiv
  equiv_of_false a b p q = ground arith

  pub lt_of_equiv : (a b : K) → equiv a b ≡ true → (o.lt a b ≡ false) × (o.lt b a ≡ false)
  unfolding equiv
  lt_of_equiv a b p = ground arith

module _ {ℓ κ} {K : Type ℓ} {V : Type κ} ⦃o : KeyOrder K⦄ where
  -- `find`
  unfoldable pub lookup : K → List (K × V) → Option V
  lookup wanted [] = none
  lookup wanted ((key, value) ∷ others) =
      if equiv wanted key then some value else lookup wanted others

  -- `m[k] = v`
  unfoldable pub insert : K → V → List (K × V) → List (K × V)
  insert key value [] = (key, value) ∷ []
  insert key value ((i, w) ∷ others) =
      if o.lt key i
      then (key, value) ∷ (i, w) ∷ others
      else if o.lt i key
      then (i, w) ∷ insert key value others
      else (i, value) ∷ others

  -- `erase(k)`
  unfoldable pub erase : K → List (K × V) → List (K × V)
  erase k [] = []
  erase k ((j, w) ∷ m) = if equiv k j then erase k m else (j, w) ∷ erase k m

  pub lookup-insert :
      (k j : K) (v : V) (m : List (K × V))
      → lookup j (insert k v m) ≡ (if equiv j k then some v else lookup j m)
  unfolding lookup insert
  lookup-insert new asked v [] = refl
  lookup-insert new asked v ((i, w) ∷ rest) = ground (
    arith,
    lookup-insert new asked v rest,
    equiv_cong_right asked new i,
    equiv_cong asked new i,
    equiv_of_false new i,
    lt_of_equiv new i,
  )

  pub lookup-erase :
      (k j : K) (m : List (K × V)) → lookup j (erase k m) ≡ (if equiv j k then none else lookup j m)
  unfolding lookup erase
  lookup-erase k j [] = ground arith
  lookup-erase k j ((i, w) ∷ m) =
      ground (arith, lookup-erase k j m, equiv_cong_right j k i, equiv_cong j k i)

-- The keys of a map, in the order in which an iteration meets them.
abbrev pub keys {ℓ κ} : {K : Type ℓ} {V : Type κ} → List (K × V) → List K
keys = map (λ e. e.0)

module _ {ℓ κ} {K : Type ℓ} {V : Type κ} ⦃o : KeyOrder K⦄ where
  -- Keys rise from `k` on.
  abbrev pub RisesFrom : K → List (K × V) → Type 0
  RisesFrom k [] = Unit
  RisesFrom k ((j, w) ∷ m) = (o.lt k j ≡ true) × RisesFrom j m

  abbrev pub IsSorted : List (K × V) → Type 0
  IsSorted [] = Unit
  IsSorted ((j, w) ∷ m) = RisesFrom j m

  insert-RisesFrom :
      (i k : K) (v : V) (m : List (K × V))
      → o.lt i k ≡ true
      → RisesFrom i m
      → RisesFrom i (insert k v m)
  unfolding insert
  insert-RisesFrom i k v [] h s = (h, tt)
  insert-RisesFrom i k v ((j, w) ∷ m) h s = ground (arith, insert-RisesFrom j k v m)

  pub insert-IsSorted : (k : K) (v : V) (m : List (K × V)) → IsSorted m → IsSorted (insert k v m)
  unfolding insert
  insert-IsSorted k v [] s = tt
  insert-IsSorted k v ((j, w) ∷ m) s = ground (arith, insert-RisesFrom j k v m)

  pub RisesFrom-mono :
      (i j : K) (m : List (K × V)) → o.lt i j ≡ true → RisesFrom j m → RisesFrom i m
  RisesFrom-mono i j [] h s = tt
  RisesFrom-mono i j ((l, w) ∷ m) h s = (o.lt_trans i j l h s.0, s.1)

  erase-RisesFrom : (i k : K) (m : List (K × V)) → RisesFrom i m → RisesFrom i (erase k m)
  unfolding erase
  erase-RisesFrom i k [] s = tt
  erase-RisesFrom i k ((j, w) ∷ m) s =
      ground (arith, erase-RisesFrom j k m s.1, RisesFrom-mono i j (erase k m) s.0)

  pub erase-IsSorted : (k : K) (m : List (K × V)) → IsSorted m → IsSorted (erase k m)
  unfolding erase
  erase-IsSorted k [] s = tt
  erase-IsSorted k ((j, w) ∷ m) s = ground (arith, erase-RisesFrom j k m s)

  pub lookup-erase_self : (k : K) (m : List (K × V)) → lookup k (erase k m) ≡ none
  lookup-erase_self k m = ground (arith, lookup-erase k k m, equiv_refl k)

  pub lookup-insert_self : (k : K) (v : V) (m : List (K × V)) → lookup k (insert k v m) ≡ some v
  lookup-insert_self k v m = ground (arith, lookup-insert k k v m, equiv_refl k)
