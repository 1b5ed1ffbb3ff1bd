-- ===== src/Tests/Networks.antt =====
-- The network 10.0.0.0/24.
use pony.Prelude.{◌+◌, ◌/◌, ◌^◌, ◌-◌, ◌≡◌, ◌↔◌, refl, arith, true, [], ◌∷◌, some}
use pony.Wireguard.{contains_ipv4, as_ipv4, increment_ipv4, display, from_str}
use pony.Wireguard.Network.{contains_ipv4_iff}
use pony.Wireguard.Parsing.{from_str-display}
use pony.Connection.{proto_tag, proto_wireguard}
use pony.Connections.{allocate, allocated, get_last_wg_addr, max_by_key}
use pony.Connections.Addresses.{PeersBelow, allocate-PeersBelow}
use pony.Tests.Crates.{addr_text, addr_text-RoundTrips}
use pony.Tests.Data.{ten, network, peer}

contains_ipv4_iff_example :
    (contains_ipv4 network (ten + 300) ≡ true) ↔ (ten / 2 ^ (32 - 24) ≡ (ten + 300) / 2 ^ (32 - 24))
contains_ipv4_iff_example =
    contains_ipv4_iff ten 24 (omega arith) (omega arith) (ten + 300) (omega arith)

inside : contains_ipv4 network (ten + 9) ≡ true
unfolding contains_ipv4
inside = refl

read : from_str addr_text (display addr_text network) ≡ some network
read = from_str-display addr_text addr_text-RoundTrips network (omega arith)

next : allocate network ((1, peer) ∷ []) ≡ allocated (ten + 6)
unfolding allocate get_last_wg_addr max_by_key proto_tag proto_wireguard as_ipv4 increment_ipv4
    contains_ipv4
next = refl

allocate-PeersBelow_example :
    (contains_ipv4 network (ten + 6) ≡ true) × PeersBelow (ten + 6) ((1, peer) ∷ [])
allocate-PeersBelow_example = allocate-PeersBelow network ((1, peer) ∷ []) (ten + 6) next
