-- ===== src/Base/Keys.antt =====
-- Byte strings as keys of a `std::map`: `operator<` of strings is a strict total order.
use mathlib.Core.Path.{◌≡◌, refl}
use mathlib.Core.Logic.{◌↔◌}
use mathlib.Core.Bool.{true, false}
use mathlib.Core.List.{[], ◌∷◌}
use native.Mathlib.Omega.{arith}
use libnavajo.Base.ByteStrings.{Bytes, bytes_lt}
use libnavajo.Base.Dict.{KeyOrder, equiv}

pub bytes_lt_irrefl : (a : Bytes) → bytes_lt a a ≡ false
unfolding bytes_lt
bytes_lt_irrefl [] = refl
bytes_lt_irrefl (x ∷ xs) = ground (arith, bytes_lt_irrefl xs)

pub bytes_lt_trans :
    (a b c : Bytes) → bytes_lt a b ≡ true → bytes_lt b c ≡ true → bytes_lt a c ≡ true
unfolding bytes_lt
bytes_lt_trans [] [] c p q = cc
bytes_lt_trans [] (y ∷ ys) [] p q = cc
bytes_lt_trans [] (y ∷ ys) (z ∷ zs) p q = refl
bytes_lt_trans (x ∷ xs) [] c p q = cc
bytes_lt_trans (x ∷ xs) (y ∷ ys) [] p q = cc
bytes_lt_trans (x ∷ xs) (y ∷ ys) (z ∷ zs) p q = ground (arith, bytes_lt_trans xs ys zs)

bytes_lt_total : (a b : Bytes) → bytes_lt a b ≡ false → bytes_lt b a ≡ false → a ≡ b
unfolding bytes_lt
bytes_lt_total [] [] p q = refl
bytes_lt_total [] (y ∷ ys) p q = cc
bytes_lt_total (x ∷ xs) [] p q = cc
bytes_lt_total (x ∷ xs) (y ∷ ys) p q = ground (arith, bytes_lt_total xs ys)

pub bytes_incomparable_trans :
    (a b c : Bytes)
    → bytes_lt a b ≡ false
    → bytes_lt b a ≡ false
    → bytes_lt b c ≡ false
    → bytes_lt c b ≡ false
    → (bytes_lt a c ≡ false) × (bytes_lt c a ≡ false)
bytes_incomparable_trans a b c p q r s =
    ground (arith, bytes_lt_total a b p q, bytes_lt_total b c r s)

instance abbrev pub bytes_order : KeyOrder Bytes
bytes_order = record {
  lt = bytes_lt;
  lt_irrefl = bytes_lt_irrefl;
  lt_trans = bytes_lt_trans;
  incomparable_trans = bytes_incomparable_trans;
}

-- Keys are equivalent exactly if they are the same text.
pub equiv_iff : (a b : Bytes) → (equiv a b ≡ true) ↔ (a ≡ b)
unfolding equiv
equiv_iff a b =
    (λ h. bytes_lt_total a b (ground arith) (ground arith), λ e. ground (arith, bytes_lt_irrefl a))
