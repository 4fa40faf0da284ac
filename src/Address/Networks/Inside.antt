-- ===== src/Address/Networks/Inside.antt =====
-- Which addresses of version 4 a network holds (include/libnavajo/IpAddress.hh:
-- `IpNetwork::isInside`).
use libnavajo.Base.{
  ℕ, ◌-◌, ◌+◌, ◌^◌, ◌<◌, ◌≤◌, ◌≡◌, refl, sym, ap, ◌∙◌, Bool, ◌&&◌, ◌==◌, ==_iff, holds_below, arith,
}
use libnavajo.Address.{IpAddress}
use libnavajo.Address.Networks.{IpNetwork, bits_and, netmask4, htonl, is_inside}
use libnavajo.Address.Networks.Octets.{
  shift_left, shift_right, ones, shift_left_injective, shift_right_bound, bits_and-shift_left,
  bits_and-ones, bits_and-bound,
}
use libnavajo.Address.Networks.Swapping.{bits_and-htonl, htonl-htonl, htonl-bound}

-- The leading bits of an address, which is kept with its first octet lowest, as a number.
abbrev pub leading_bits : ℕ → ℕ → ℕ
leading_bits n v4 = shift_right (32 - n) (htonl v4)

abbrev is_ones : ℕ → Bool
is_ones mask = netmask4 mask == shift_left (32 - mask) (ones mask)

netmask4-ones : (mask : ℕ) → mask ≤ 32 → netmask4 mask ≡ shift_left (32 - mask) (ones mask)
unfolding netmask4 shift_left ones libnavajo.Base.holds_from
netmask4-ones mask h =
    (==_iff (netmask4 mask) (shift_left (32 - mask) (ones mask))).0
      (holds_below 33 is_ones mask refl (omega (arith, h)))

-- What the mask leaves of a word in the order of the host.
bits_and-netmask4 :
    (mask x : ℕ)
    → mask ≤ 32
    → x < 2 ^ 32
    → bits_and 32 x (netmask4 mask) ≡ shift_left (32 - mask) (shift_right (32 - mask) x)
unfolding shift_left
bits_and-netmask4 mask x h small =
    let all : 32 - mask + mask ≡ 32 = omega (arith, h) in
    ap (bits_and 32 x) (netmask4-ones mask h)
    ∙ ap (λ w. bits_and w x (shift_left (32 - mask) (ones mask))) (sym all)
    ∙ bits_and-shift_left (32 - mask) mask x (ones mask)
    ∙ ap (shift_left (32 - mask)) (
        bits_and-ones mask (shift_right (32 - mask) x)
          (shift_right_bound (32 - mask) mask x (rw all small)))

-- What the network compares.
abbrev masked : ℕ → ℕ → ℕ
masked mask v4 = bits_and 32 v4 (htonl (netmask4 mask))

masked-leading_bits :
    (mask v4 : ℕ)
    → mask ≤ 32
    → masked mask v4 ≡ htonl (shift_left (32 - mask) (leading_bits mask v4))
masked-leading_bits mask v4 h =
    bits_and-htonl v4 (netmask4 mask)
    ∙ ap htonl (bits_and-netmask4 mask (htonl v4) h (htonl-bound v4))

shifted_bound : (mask x : ℕ) → mask ≤ 32 → shift_left (32 - mask) (leading_bits mask x) < 2 ^ 32
unfolding shift_left
shifted_bound mask x h = omega (
  arith,
  bits_and-bound 32 (htonl x) (netmask4 mask),
  bits_and-netmask4 mask (htonl x) h (htonl-bound x),
)

shifted :
    (mask x : ℕ) → mask ≤ 32 → htonl (masked mask x) ≡ shift_left (32 - mask) (leading_bits mask x)
shifted mask x h =
    ap htonl (masked-leading_bits mask x h)
    ∙ htonl-htonl (shift_left (32 - mask) (leading_bits mask x)) (shifted_bound mask x h)

masked_injective :
    (mask a b : ℕ)
    → mask ≤ 32
    → masked mask a ≡ masked mask b
    → leading_bits mask a ≡ leading_bits mask b
masked_injective mask a b h same =
    shift_left_injective (32 - mask) (leading_bits mask a) (leading_bits mask b)
      (sym (shifted mask a h) ∙ ap htonl same ∙ shifted mask b h)

equal_tests : (a b c d : ℕ) → (a ≡ b → c ≡ d) → (c ≡ d → a ≡ b) → (a == b) ≡ (c == d)
equal_tests a b c d there back = ground (arith, there, back)

-- Of a network with a mask of 32 bits at most: an address of version 4 is inside exactly if the network
-- is of version 4 and the two agree in as many leading bits as the mask has, counted from the first bit
-- of the first octet.
pub is_inside-leading_bits :
    (net : IpNetwork) (ip : IpAddress)
    → net.mask ≤ 32
    → ip.ipversion ≡ 4
    → is_inside net ip ≡ (
        net.addr.ipversion == 4 && leading_bits net.mask net.addr.v4 == leading_bits net.mask ip.v4)
unfolding is_inside
is_inside-leading_bits net ip h version = rw version (
    ap (λ b. net.addr.ipversion == 4 && b)
      (equal_tests (masked net.mask net.addr.v4) (masked net.mask ip.v4)
        (leading_bits net.mask net.addr.v4) (leading_bits net.mask ip.v4)
        (masked_injective net.mask net.addr.v4 ip.v4 h)
        (λ same.
          masked-leading_bits net.mask net.addr.v4 h
          ∙ ap (λ x. htonl (shift_left (32 - net.mask) x)) same
          ∙ sym (masked-leading_bits net.mask ip.v4 h))))
