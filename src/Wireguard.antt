-- ===== src/Wireguard.antt =====
-- src/memory/connection/wireguard.rs: networks and host addresses of the WireGuard peers.
-- An address is its u32 or u128 value; `cidr` is a u8. Shifts and the u8 subtraction wrap as they
-- do in a release build. The text form of an address (`Ipv4Addr`, `Ipv6Addr` and `u8` of the
-- standard library) is the parameter `AddrText`.
pub mod Network
pub mod Parsing
use Prim.Native.Nat.{bit_and, bit_or}
use pony.Prelude.{
  ℕ, ◌+◌, ◌-◌, ◌*◌, ◌/◌, ◌%◌, ◌^◌, Bool, true, false, List, [], ◌∷◌, ◌++◌, Option, none, some, ltb,
  leb, nat_eqb, if◌then◌else◌,
}
use pony.Prelude.Text.{Text}

pub data IpAddr : Type 0 where
  v4 : ℕ → IpAddr
  v6 : ℕ → IpAddr

pub data IpVersion : Type 0 where
  ipv4 ipv6 : IpVersion

pub record IpAddrMask : Type 0 where
  pub address : IpAddr
  pub cidr : ℕ

-- u8 subtraction, u32 and u128 shifts.
abbrev pub sub_u8 : ℕ → ℕ → ℕ
sub_u8 a b = (a + 256 - b) % 256

abbrev pub shl_u32 : ℕ → ℕ → ℕ
shl_u32 x k = x * 2 ^ (k % 32) % 2 ^ 32

abbrev pub shr_u32 : ℕ → ℕ → ℕ
shr_u32 x k = x / 2 ^ (k % 32)

abbrev pub shl_u128 : ℕ → ℕ → ℕ
shl_u128 x k = x * 2 ^ (k % 128) % 2 ^ 128

abbrev pub shr_u128 : ℕ → ℕ → ℕ
shr_u128 x k = x / 2 ^ (k % 128)

abbrev pub u32_max : ℕ
u32_max = 2 ^ 32 - 1

abbrev pub u128_max : ℕ
u128_max = 2 ^ 128 - 1

pub host : IpAddr → IpAddrMask
host (v4 ip) = record { address = v4 ip; cidr = 32 }
host (v6 ip) = record { address = v6 ip; cidr = 128 }

abbrev pub addr_as_ipv4 : IpAddr → Option ℕ
addr_as_ipv4 (v4 ip) = some ip
addr_as_ipv4 (v6 ip) = none

unfoldable pub as_ipv4 : IpAddrMask → Option ℕ
as_ipv4 m = addr_as_ipv4 m.address

-- `checked_add(1)`
unfoldable pub increment_ipv4 : ℕ → Option ℕ
increment_ipv4 ip = if ltb ip u32_max then some (ip + 1) else none

unfoldable pub first_ipv4 : IpAddrMask → Option ℕ
unfolding as_ipv4 increment_ipv4
first_ipv4 m = elim (as_ipv4 m) [ none ↦ none | some base ↦ increment_ipv4 base ]

abbrev pub mask_v4 : ℕ → ℕ
mask_v4 cidr = if nat_eqb cidr 0 then 0 else shl_u32 u32_max (sub_u8 32 cidr)

abbrev pub mask_v6 : ℕ → ℕ
mask_v6 cidr = if nat_eqb cidr 0 then 0 else shl_u128 u128_max (sub_u8 128 cidr)

contains_addr : IpAddr → ℕ → ℕ → Bool
contains_addr (v4 base) cidr ip =
    let mask = mask_v4 cidr in nat_eqb (bit_and base mask) (bit_and ip mask)
contains_addr (v6 base) cidr ip = false

unfoldable pub contains_ipv4 : IpAddrMask → ℕ → Bool
unfolding contains_addr
contains_ipv4 m ip = contains_addr m.address m.cidr ip

unfoldable pub first_peer_ip : IpAddrMask → Option ℕ
unfolding first_ipv4 increment_ipv4
first_peer_ip m = elim (first_ipv4 m) [
  | none ↦ none
  | some base ↦ elim (increment_ipv4 base) [
    | none ↦ none
    | some ip ↦ if contains_ipv4 m ip then some ip else none
  ]
]

broadcast_addr : IpAddr → ℕ → IpAddr
broadcast_addr (v4 ip) cidr = v4 (bit_or ip (if leb 32 cidr then 0 else shr_u32 u32_max cidr))
broadcast_addr (v6 ip) cidr = v6 (bit_or ip (if leb 128 cidr then 0 else shr_u128 u128_max cidr))

pub broadcast : IpAddrMask → IpAddr
unfolding broadcast_addr
broadcast m = broadcast_addr m.address m.cidr

mask_addr : IpAddr → ℕ → IpAddr
mask_addr (v4 ip) cidr = v4 (mask_v4 cidr)
mask_addr (v6 ip) cidr = v6 (mask_v6 cidr)

pub mask : IpAddrMask → IpAddr
unfolding mask_addr
mask m = mask_addr m.address m.cidr

is_ipv4 : IpAddr → Bool
is_ipv4 (v4 ip) = true
is_ipv4 (v6 ip) = false

pub is_host : IpAddrMask → Bool
unfolding is_ipv4
is_host m = if is_ipv4 m.address then nat_eqb m.cidr 32 else nat_eqb m.cidr 128

pub ip_version : IpAddrMask → IpVersion
unfolding is_ipv4
ip_version m = if is_ipv4 m.address then ipv4 else ipv6

-- Printing and parsing by the standard library.
pub record AddrText : Type 0 where
  pub print_ip : IpAddr → Text
  pub parse_ip : Text → Option IpAddr
  pub print_u8 : ℕ → Text
  pub parse_u8 : Text → Option ℕ

pub split_once : ℕ → Text → Option (Text × Text)
split_once c [] = none
split_once c (d ∷ s) =
    if nat_eqb d c
    then some ([], s)
    else elim (split_once c s) [ none ↦ none | some (l, r) ↦ some (d ∷ l, r) ]

abbrev pub max_cidr : IpAddr → ℕ
max_cidr (v4 ip) = 32
max_cidr (v6 ip) = 128

-- `Display`
pub display : AddrText → IpAddrMask → Text
display t m = t.print_ip m.address ++ b'/' ∷ t.print_u8 m.cidr

-- `FromStr`
pub from_str : AddrText → Text → Option IpAddrMask
unfolding split_once
from_str t s = elim (split_once b'/' s) [
  | some (left, right) ↦ elim (t.parse_ip left) [
    | none ↦ none
    | some ip ↦ elim (t.parse_u8 right) [
      | none ↦ none
      | some cidr ↦
          if ltb (max_cidr ip) cidr then none else some (record { address = ip; cidr = cidr })
    ]
  ]
  | none ↦ elim (t.parse_ip s) [
    | none ↦ none
    | some ip ↦ some (record { address = ip; cidr = if is_ipv4 ip then 32 else 128 })
  ]
]
