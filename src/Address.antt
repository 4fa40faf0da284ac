-- ===== src/Address.antt =====
-- IP addresses (`IpAddress`, include/libnavajo/IpAddress.hh): their equality and their order, which the
-- history of peers is kept by.
pub mod Order
pub mod ByteOrder
pub mod Networks
pub mod Texts
mod Tests
use libnavajo.Base.{
  ℕ, zero, suc, Bool, true, false, not, Option, none, some, ltb, ◌==◌, if◌then◌else◌, Bytes, get_or,
}

-- Of the union only the part that `ipversion` names is read; `v6` has sixteen bytes.
pub record IpAddress : Type 0 where
  pub v4 : ℕ
  pub v6 : Bytes
  pub ipversion : ℕ

abbrev pub is_null : IpAddress → Bool
is_null a = a.ipversion == 0

abbrev pub inet6_addrlen : ℕ
inet6_addrlen = 16

-- The loop from the last byte down: the bytes where the two differ first, below `i`.
unfoldable pub difference : ℕ → Bytes → Bytes → Option (ℕ × ℕ)
difference zero a b = none
difference (suc i) a b =
    let before = difference i a b in
    if get_or a i 0 == get_or b i 0 then before else some (get_or a i 0, get_or b i 0)

abbrev pub is_same : Option (ℕ × ℕ) → Bool
is_same none = true
is_same (some (x, y)) = false

abbrev pub is_less : Option (ℕ × ℕ) → Bool
is_less none = false
is_less (some (x, y)) = ltb x y

-- `operator==`
unfoldable pub address_eq : IpAddress → IpAddress → Bool
unfolding difference
address_eq this a =
    if not (a.ipversion == this.ipversion)
    then false
    else (if this.ipversion == 4
        then this.v4 == a.v4
        else (if not (this.ipversion == 6)
            then false
            else is_same (difference inet6_addrlen a.v6 this.v6)))

-- `operator<`
unfoldable pub address_lt : IpAddress → IpAddress → Bool
unfolding difference
address_lt this a =
    if not (a.ipversion == this.ipversion)
    then ltb this.ipversion a.ipversion
    else (if this.ipversion == 4
        then ltb this.v4 a.v4
        else (if not (this.ipversion == 6)
            then false
            else is_less (difference inet6_addrlen this.v6 a.v6)))
