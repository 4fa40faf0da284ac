-- ===== src/Address/Texts.antt =====
-- How an `IpAddress` (include/libnavajo/IpAddress.hh) is made, assigned, written as a text and looked
-- up. `inet_pton`, `inet_ntop`, `inet_ntoa`, `getaddrinfo` and `getnameinfo` are parameters.
mod Tests
use libnavajo.Base.{
  ℕ, zero, suc, Bool, true, false, not, ◌&&◌, List, [], ◌∷◌, Option, none, some, ◌==◌,
  if◌then◌else◌, Bytes, codes, find_byte,
}
use mathlib.Core.Option
use libnavajo.Server.Text.{c_str}
use libnavajo.Address.{IpAddress, is_null, inet6_addrlen}

-- The union `IP`: of `AF_INET`, or of `AF_INET6` with its sixteen bytes.
pub data Ip : Type 0 where
  inet : ℕ → Ip
  inet6 : Bytes → Ip

-- `memset` with 0.
unfoldable pub zeros : ℕ → Bytes
zeros zero = []
zeros (suc n) = 0 ∷ zeros n

-- `init`
abbrev pub null_address : IpAddress
null_address = record { v4 = 0; v6 = zeros inet6_addrlen; ipversion = 0 }

-- `operator=` of an `in_addr_t` and of an `in6_addr`.
abbrev pub assign_ip : Ip → IpAddress → IpAddress
assign_ip (inet v4) this = record this { v4 = v4; ipversion = 4 }
assign_ip (inet6 v6) this = record this { v6 = v6; ipversion = 6 }

-- The part of the union that an address is read by: all but those of version 4 count as version 6.
abbrev pub ip_of_address : IpAddress → Ip
ip_of_address a = if a.ipversion == 4 then inet a.v4 else inet6 a.v6

-- `operator=` of an address.
abbrev pub assign_address : IpAddress → IpAddress → IpAddress
assign_address a this = assign_ip (ip_of_address a) this

-- The constructors from the two parts of the union.
abbrev pub address_of_ip : Ip → IpAddress
address_of_ip ip = assign_ip ip null_address

abbrev pub assign_if_read : Option Ip → IpAddress → IpAddress
assign_if_read none this = this
assign_if_read (some ip) this = assign_ip ip this

-- What the system and its resolver answer: `none` where `inet_pton` cannot read a text, where `inet_ntop`
-- or `getnameinfo` fail, or where `getaddrinfo` finds no list.
pub record NameService : Type 0 where
  pub inet_pton_v4 : Bytes → Option ℕ
  pub inet_pton_v6 : Bytes → Option Bytes
  pub inet_ntoa : ℕ → Bytes
  pub inet_ntop_v6 : Bytes → Option Bytes
  pub getaddrinfo : Bytes → Option (List Ip)
  pub getnameinfo : Ip → ℕ → Option Bytes

-- The constructor from a text: one with a colon is read as version 6.
unfoldable pub address_of_text : NameService → Bytes → IpAddress
unfolding find_byte c_str
address_of_text system value = elim (find_byte 58 (c_str value)) [
  | none ↦ assign_if_read (Option.map inet (system.inet_pton_v4 (c_str value))) null_address
  | some at ↦ assign_if_read (Option.map inet6 (system.inet_pton_v6 (c_str value))) null_address
]

-- `fromString`; `none` is the null pointer.
unfoldable pub from_string : NameService → Bytes → Option IpAddress
unfolding address_of_text
from_string system value =
    let new_ip = address_of_text system value in if not (is_null new_ip) then some new_ip else none

abbrev pub or_error : Option Bytes → Bytes
or_error none = codes "ERROR !"
or_error (some text) = text

abbrev pub ip_text : NameService → Ip → Bytes
ip_text system (inet v4) = system.inet_ntoa v4
ip_text system (inet6 v6) = or_error (system.inet_ntop_v6 v6)

-- `str`
abbrev pub str : NameService → IpAddress → Bytes
str system a = ip_text system (ip_of_address a)

-- `snresolve`: the name, which goes to `hname`, where the call returns true.
abbrev pub snresolve : NameService → ℕ → IpAddress → Option Bytes
snresolve system maxlength a = system.getnameinfo (ip_of_address a) maxlength

-- The first address of each version in a list.
unfoldable pub first_ip4 : List Ip → Option IpAddress
first_ip4 [] = none
first_ip4 (inet v4 ∷ found) = some (address_of_ip (inet v4))
first_ip4 (inet6 v6 ∷ found) = first_ip4 found

unfoldable pub first_ip6 : List Ip → Option IpAddress
first_ip6 [] = none
first_ip6 (inet v4 ∷ found) = first_ip6 found
first_ip6 (inet6 v6 ∷ found) = some (address_of_ip (inet6 v6))

abbrev pub unless_null : Option IpAddress → Option IpAddress
unless_null none = none
unless_null (some a) = if not (is_null a) then some a else none

-- Which of the two is returned.
abbrev pub preferred : Bool → Option IpAddress → Option IpAddress → Option IpAddress
preferred prefer_ipv4 none new_ip6 = unless_null new_ip6
preferred prefer_ipv4 (some new_ip4) new_ip6 =
    if not (is_null new_ip4) && prefer_ipv4 then some new_ip4 else unless_null new_ip6

-- `fromHostname`
unfoldable pub from_hostname : NameService → Bytes → Bool → Option IpAddress
unfolding first_ip4 first_ip6
from_hostname system hostname prefer_ipv4 = elim (system.getaddrinfo (c_str hostname)) [
  | none ↦ none
  | some found ↦ preferred prefer_ipv4 (first_ip4 found) (first_ip6 found)
]
