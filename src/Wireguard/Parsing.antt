-- ===== src/Wireguard/Parsing.antt =====
-- Reading a network from text, and printing it.
use pony.Prelude.{ℕ, ◌≤◌, ◌<◌, ◌≡◌, ◌≢◌, some, [], ◌∷◌, ◌++◌, arith, if◌then◌else◌, All}
use pony.Prelude.Text.{Text}
use pony.Wireguard.{
  IpAddr, v4, v6, IpAddrMask, AddrText, split_once, max_cidr, display, from_str, is_ipv4,
}

-- The standard library reads back what it prints, and no printed address holds a slash.
pub record RoundTrips (t : AddrText) : Type 0 where
  pub parse_ip-print_ip : (a : IpAddr) → t.parse_ip (t.print_ip a) ≡ some a
  pub parse_u8-print_u8 : (n : ℕ) → n < 256 → t.parse_u8 (t.print_u8 n) ≡ some n
  pub print_ip-slash : (a : IpAddr) → All (λ c. c ≢ b'/') (t.print_ip a)

max_cidr-le : (a : IpAddr) → max_cidr a ≤ 128
max_cidr-le (v4 ip) = omega arith
max_cidr-le (v6 ip) = omega arith

split_once-append :
    (c : ℕ) (l r : Text) → All (λ d. d ≢ c) l → split_once c (l ++ c ∷ r) ≡ some (l, r)
unfolding split_once
split_once-append c [] r h = ground arith
split_once-append c (d ∷ l) r h = ground (arith, split_once-append c l r h.1)

default_cidr : (a : IpAddr) → (if is_ipv4 a then 32 else 128) ≤ max_cidr a
unfolding is_ipv4
default_cidr (v4 ip) = omega arith
default_cidr (v6 ip) = omega arith

-- Every network that is read from text has a prefix length of its address family, at most 32 for
-- IPv4 and 128 for IPv6.
pub from_str-le :
    (t : AddrText) (s : Text) (m : IpAddrMask) → from_str t s ≡ some m → m.cidr ≤ max_cidr m.address
unfolding from_str is_ipv4
from_str-le t s m h = grind (arith, default_cidr)

-- A network with a prefix length of its address family is read back from its printed form, when
-- the standard library's text forms of addresses and of u8 do so.
pub from_str-display :
    (t : AddrText)
    → RoundTrips t
    → (m : IpAddrMask) → m.cidr ≤ max_cidr m.address
    → from_str t (display t m) ≡ some m
unfolding from_str display
from_str-display t r m h = ground (
  arith,
  split_once-append b'/' (t.print_ip m.address) (t.print_u8 m.cidr) (r.print_ip-slash m.address),
  r.parse_ip-print_ip m.address,
  r.parse_u8-print_u8 m.cidr (omega (arith, max_cidr-le m.address)),
)
