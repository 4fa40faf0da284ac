-- ===== src/Address/Tests.antt =====
-- Runs of the order of addresses and of networks (include/libnavajo/IpAddress.hh).
use libnavajo.Base.{
  arith, ◌==◌, ◌&&◌, ◌≡◌, ◌↔◌, refl, inl, true, false, some, none, codes, ◌*◌, ◌+◌, [], ◌∷◌, equiv,
}
use libnavajo.Address.{IpAddress, address_lt}
use libnavajo.Address.Texts.{NameService, inet, address_of_ip}
use libnavajo.Address.Networks.Inside.{leading_bits, is_inside-leading_bits}
use libnavajo.Address.Networks.{IpNetwork, network, is_inside, from_string, network_lt}
use libnavajo.Address.Order.{address_order}

abbrev one : IpAddress
one = record { v4 = 1; v6 = []; ipversion = 4 }

abbrev two : IpAddress
two = record { v4 = 2; v6 = []; ipversion = 4 }

abbrev long : IpAddress
long = record { v4 = 0; v6 = 1 ∷ 2 ∷ []; ipversion = 6 }

one_before_two : address_lt one two ≡ true
unfolding address_lt
one_before_two = refl

two_before_long : address_lt two long ≡ true
unfolding address_lt
two_before_long = refl

-- The network 10.0.0.0/8.
abbrev ten : IpNetwork
ten = network (record { v4 = 10; v6 = []; ipversion = 4 }) 8

inside_ten : is_inside ten (record { v4 = 10 + 256 * 7; v6 = []; ipversion = 4 }) ≡ true
unfolding is_inside
inside_ten = refl

outside_ten : is_inside ten (record { v4 = 11; v6 = []; ipversion = 4 }) ≡ false
unfolding is_inside
outside_ten = refl

abbrev loopback : IpNetwork
loopback =
    network
      (record {
        v4 = 0;
        v6 = 0 ∷ 0 ∷ 0 ∷ 0 ∷ 0 ∷ 0 ∷ 0 ∷ 0 ∷ 0 ∷ 0 ∷ 0 ∷ 0 ∷ 0 ∷ 0 ∷ 0 ∷ 1 ∷ [];
        ipversion = 6;
      })
      128

-- The address :: is in the network ::1/128, and that network comes before itself.
other_inside_loopback : is_inside loopback (record loopback.addr { v6 = [] }) ≡ true
unfolding is_inside
other_inside_loopback = refl

loopback_before_itself : network_lt loopback loopback ≡ true
unfolding network_lt
loopback_before_itself = refl

-- Every text of version 4 is read as 10.0.0.0.
abbrev service : NameService
service = record {
  inet_pton_v4 = λ _. some 10;
  inet_pton_v6 = λ _. none;
  inet_ntoa = λ _. codes "10.0.0.0";
  inet_ntop_v6 = λ _. none;
  getaddrinfo = λ _. none;
  getnameinfo = λ _ _. none;
}

-- The mask is taken as a byte before it is compared with 32.
long_mask :
    from_string service (codes "10.0.0.0/264")
    ≡ some (record { addr = address_of_ip (inet 10); mask = 8 })
unfolding from_string libnavajo.Base.find_byte libnavajo.Server.Text.c_str
long_mask = refl

-- 10.0.7.0 in 10.0.0.0/8.
is_inside-leading_bits_example :
    is_inside ten (record { v4 = 10 + 256 * 256 * 7; v6 = []; ipversion = 4 })
    ≡ (4 == 4 && leading_bits 8 10 == leading_bits 8 (10 + 256 * 256 * 7))
is_inside-leading_bits_example =
    is_inside-leading_bits ten (record { v4 = 10 + 256 * 256 * 7; v6 = []; ipversion = 4 })
      (omega arith) refl
