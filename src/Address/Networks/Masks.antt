-- ===== src/Address/Networks/Masks.antt =====
-- Which bits a mask of version 6 compares (include/libnavajo/IpAddress.hh: `IpNetwork::isInside`).
use libnavajo.Base.{
  ℕ, zero, suc, ◌+◌, ◌-◌, ◌*◌, ◌/◌, ◌%◌, ◌≡◌, refl, ap, inl, inr, ltb, Bool-cases, Bytes, get_or,
  arith,
}
use libnavajo.Address.{inet6_addrlen}
use libnavajo.Address.Networks.{
  IpNetwork, bits_and, bits_or, one_shifted, netmask_rounds, netmask_byte, inside6, is_inside,
}

bits_or-even : (w a b : ℕ) → a % 2 ≡ 0 → b % 2 ≡ 0 → bits_or w a b % 2 ≡ 0
unfolding bits_or
bits_or-even zero a b h k = omega arith
bits_or-even (suc w) a b h k = omega arith

netmask_rounds-even :
    (rounds mask byte netmask : ℕ)
    → netmask % 2 ≡ 0
    → netmask_rounds rounds mask byte netmask % 2 ≡ 0
unfolding netmask_rounds one_shifted
netmask_rounds-even zero mask byte netmask h = h
netmask_rounds-even (suc rounds) mask byte netmask h =
    elim (Bool-cases (ltb (byte * 8 + (8 - suc rounds)) mask)) [
      | inl more ↦ rw more (
          netmask_rounds-even rounds mask byte (bits_or 8 netmask (one_shifted (suc rounds) % 256))
            (bits_or-even 8 netmask (one_shifted (suc rounds) % 256) h (omega arith)))
      | inr no_more ↦ rw no_more (netmask_rounds-even rounds mask byte netmask h)
    ]

-- Under an even mask the lowest bit does not count.
bits_and-half :
    (w a b m : ℕ) → m % 2 ≡ 0 → a / 2 ≡ b / 2 → bits_and (suc w) a m ≡ bits_and (suc w) b m
unfolding bits_and
bits_and-half w a b m even half = omega (arith, ap (λ x. bits_and w x (m / 2)) half)

-- The two agree but for the lowest bit of each byte.
abbrev pub AgreeByHalves : Bytes → Bytes → Type 0
AgreeByHalves a b = (i : ℕ) → get_or a i 0 / 2 ≡ get_or b i 0 / 2

inside6-halves :
    (rounds i mask : ℕ) (net a b : Bytes)
    → AgreeByHalves a b
    → inside6 rounds i mask net a ≡ inside6 rounds i mask net b
unfolding inside6
inside6-halves zero i mask net a b h = refl
inside6-halves (suc rounds) i mask net a b h =
    rw
      (
        inside6-halves rounds (suc i) mask net a b h,
        bits_and-half 7 (get_or a i 0) (get_or b i 0) (netmask_byte mask i)
            (netmask_rounds-even 8 mask i 0 (omega arith)) (h i),
      )
      refl

-- Two addresses of version 6 that agree but for the lowest bit of each of their bytes are in the same
-- networks, whatever the mask is, 128 included.
pub is_inside-halves :
    (net : IpNetwork) (a b : Bytes) (v : ℕ)
    → AgreeByHalves a b
    → is_inside net (record { v4 = v; v6 = a; ipversion = 6 })
      ≡ is_inside net (record { v4 = v; v6 = b; ipversion = 6 })
unfolding is_inside
is_inside-halves net a b v h = rw (inside6-halves inet6_addrlen 0 net.mask net.addr.v6 a b h) refl
