-- ===== src/Address/Networks.antt =====
-- Networks of IP addresses: `IpNetwork` (include/libnavajo/IpAddress.hh), on a machine that stores
-- numbers with their lowest byte first.
pub mod Masks
pub mod Octets
pub mod Swapping
pub mod Inside
use libnavajo.Base.{
  ℕ, zero, suc, ◌+◌, ◌-◌, ◌*◌, ◌/◌, ◌%◌, ◌^◌, min, Bool, true, false, not, ◌&&◌, ◌||◌, List, [],
  ◌∷◌, ◌++◌, Option, none, some, ltb, leb, ◌==◌, if◌then◌else◌, Bytes, codes, length, take, drop,
  get_or, find_byte,
}
use libnavajo.Server.Text.Numbers.{atoi, is_digit, size_text}
use libnavajo.Address.{IpAddress, inet6_addrlen}
use libnavajo.Address.Texts
use libnavajo.Address.Texts.{NameService, str}
use libnavajo.Server.Text.{c_str}

pub record IpNetwork : Type 0 where
  pub addr : IpAddress
  pub mask : ℕ

-- `IpAddress::operator=`, which takes an address that is not of version 4 for one of version 6.
abbrev pub assign : IpAddress → IpAddress
assign a = if a.ipversion == 4 then a else record a { ipversion = 6 }

-- The constructors.
abbrev pub single : IpAddress → IpNetwork
single a = record { addr = assign a; mask = if a.ipversion == 4 then 32 else 128 }

abbrev pub network : IpAddress → ℕ → IpNetwork
network a m = record { addr = assign a; mask = m }

-- The lowest `w` bits of `a & b`, of `a | b`, and `1 << n`.
unfoldable pub bits_and : ℕ → ℕ → ℕ → ℕ
bits_and zero a b = 0
bits_and (suc w) a b = min (a % 2) (b % 2) + 2 * bits_and w (a / 2) (b / 2)

unfoldable pub bits_or : ℕ → ℕ → ℕ → ℕ
bits_or zero a b = 0
bits_or (suc w) a b = min 1 (a % 2 + b % 2) + 2 * bits_or w (a / 2) (b / 2)

unfoldable pub one_shifted : ℕ → ℕ
one_shifted zero = 1
one_shifted (suc n) = 2 * one_shifted n

-- The mask of version 4 after so many rounds of its loop: 32 at most.
unfoldable pub netmask4 : ℕ → ℕ
unfolding bits_or one_shifted
netmask4 zero = 0
netmask4 (suc i) = bits_or 32 (netmask4 i) (one_shifted (31 - i))

abbrev pub htonl : ℕ → ℕ
htonl n =
    ((n % 256 * 256 + n / 256 % 256) * 256 + n / (256 * 256) % 256) * 256
    + n / (256 * 256 * 256) % 256

-- The loop over the bits of a byte, with so many of them to come: the next one is that of number
-- `8 - rounds` of the byte and is shifted by `rounds`, where a byte keeps the result.
unfoldable pub netmask_rounds : ℕ → ℕ → ℕ → ℕ → ℕ
unfolding bits_or one_shifted
netmask_rounds zero mask byte netmask = netmask
netmask_rounds (suc rounds) mask byte netmask = netmask_rounds rounds mask byte (
    if ltb (byte * 8 + (8 - suc rounds)) mask
    then bits_or 8 netmask (one_shifted (suc rounds) % 256)
    else netmask)

abbrev pub netmask_byte : ℕ → ℕ → ℕ
netmask_byte mask byte = netmask_rounds 8 mask byte 0

abbrev pub same_byte : ℕ → Bytes → Bytes → ℕ → Bool
same_byte netmask a b i = bits_and 8 (get_or a i 0) netmask == bits_and 8 (get_or b i 0) netmask

-- The loop over the bytes of version 6, with so many to come.
unfoldable pub inside6 : ℕ → ℕ → ℕ → Bytes → Bytes → Bool
unfolding bits_and netmask_rounds
inside6 zero i mask a b = true
inside6 (suc rounds) i mask a b =
    same_byte (netmask_byte mask i) a b i && inside6 rounds (suc i) mask a b

unfoldable pub is_inside : IpNetwork → IpAddress → Bool
unfolding inside6 netmask4
is_inside net ip =
    if ip.ipversion == 4
    then net.addr.ipversion == 4
      && bits_and 32 net.addr.v4 (htonl (netmask4 net.mask))
        == bits_and 32 ip.v4 (htonl (netmask4 net.mask))
    else ip.ipversion == 6
      && (net.addr.ipversion == 6 && inside6 inet6_addrlen 0 net.mask net.addr.v6 ip.v6)

-- `isIpBelongToIpNetwork`
unfoldable pub is_ip_belong_to_ip_network : IpAddress → List IpNetwork → Bool
unfolding is_inside
is_ip_belong_to_ip_network ip [] = false
is_ip_belong_to_ip_network ip (net ∷ nets) = is_inside net ip || is_ip_belong_to_ip_network ip nets

-- The text of the mask: blanks, digits, and blanks up to its end.
unfoldable pub skip_blanks : Bytes → Bytes
skip_blanks [] = []
skip_blanks (c ∷ s) = if c == b' ' || c == b'\t' then skip_blanks s else c ∷ s

unfoldable pub skip_digits : Bytes → Bytes
skip_digits [] = []
skip_digits (c ∷ s) = if is_digit c then skip_digits s else c ∷ s

unfoldable pub all_blank : Bytes → Bool
all_blank [] = true
all_blank (c ∷ s) = (c == b' ' || (c == b'\t' || (c == b'\n' || c == b'\r'))) && all_blank s

-- The number goes into a byte.
unfoldable pub read_mask : Bytes → Option ℕ
unfolding skip_blanks skip_digits all_blank atoi
read_mask mask_str =
    let digits = skip_blanks mask_str in
    let behind = skip_digits digits in
    if length behind == length digits || not (all_blank behind)
    then none
    else some (atoi digits % 256)

-- A mask that is written as an address: ones before zeros, as a number of the machine, with so many
-- bits to come.
unfoldable pub count_ones : ℕ → ℕ → Bool → ℕ → Option ℕ
count_ones zero netmask at_end counted = some counted
count_ones (suc j) netmask at_end counted =
    if netmask / 2 ^ j % 2 == 0
    then count_ones j netmask true counted
    else if at_end
    then none
    else count_ones j netmask at_end (counted + 1)

abbrev pub dotted_mask : Option ℕ → Option ℕ
dotted_mask none = none
dotted_mask (some s_addr) = count_ones 32 (htonl s_addr) false 0

abbrev pub mask_of : NameService → IpAddress → Bytes → Option ℕ
mask_of system addr mask_str = elim (find_byte b'.' mask_str) [
  | none ↦ read_mask mask_str
  | some at ↦
      if addr.ipversion == 6 then none else dotted_mask (system.inet_pton_v4 (c_str mask_str))
]

abbrev pub is_too_long : IpAddress → ℕ → Bool
is_too_long addr mask =
    (ltb 32 mask && addr.ipversion == 4) || (ltb 128 mask && addr.ipversion == 6)

abbrev pub with_mask : IpAddress → Option ℕ → Option IpNetwork
with_mask addr none = none
with_mask addr (some mask) = if is_too_long addr mask then none else some (network addr mask)

abbrev pub with_address : NameService → Option IpAddress → Bytes → Option IpNetwork
with_address system none mask_str = none
with_address system (some addr) mask_str = with_mask addr (mask_of system addr mask_str)

abbrev pub without_mask : Option IpAddress → Option IpNetwork
without_mask none = none
without_mask (some addr) = some (single addr)

-- `fromString`
unfoldable pub from_string : NameService → Bytes → Option IpNetwork
unfolding read_mask count_ones Texts.from_string
from_string system value = elim (find_byte b'/' value) [
  | none ↦ without_mask (Texts.from_string system value)
  | some found ↦
      with_address system (Texts.from_string system (take found value)) (drop (found + 1) value)
]

-- The loop of `operator<` over the bytes, with so many to come, which stops where the two differ. The
-- masks are not reset between the bytes.
unfoldable pub all_same : ℕ → ℕ → IpNetwork → IpNetwork → ℕ → ℕ → Bool
unfolding netmask_rounds bits_and
all_same zero i this a netmask a_netmask = true
all_same (suc rounds) i this a netmask a_netmask =
    let netmask' = netmask_rounds 8 this.mask i netmask in
    let a_netmask' = netmask_rounds 8 a.mask i a_netmask in
    bits_and 8 (get_or this.addr.v6 i 0) netmask' == bits_and 8 (get_or a.addr.v6 i 0) a_netmask'
    && all_same rounds (suc i) this a netmask' a_netmask'

-- `operator<`
unfoldable pub network_lt : IpNetwork → IpNetwork → Bool
unfolding all_same netmask4
network_lt this a =
    if not (a.addr.ipversion == this.addr.ipversion)
    then ltb this.addr.ipversion a.addr.ipversion
    else if a.addr.ipversion == 4
    then ltb (bits_and 32 this.addr.v4 (htonl (netmask4 this.mask)))
        (bits_and 32 a.addr.v4 (htonl (netmask4 a.mask)))
    else a.addr.ipversion == 6 && all_same (inet6_addrlen - 1) 0 this a 0 0

-- `strCIDR`
unfoldable pub str_cidr : NameService → IpNetwork → Bytes
unfolding size_text
str_cidr system net = (str system net.addr ++ codes "/") ++ size_text net.mask
