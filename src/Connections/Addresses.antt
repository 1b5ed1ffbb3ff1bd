-- ===== src/Connections/Addresses.antt =====
-- The addresses of WireGuard peers.
use pony.Prelude.{
  ℕ, ◌≤◌, ◌<◌, ◌≡◌, refl, Bool, true, List, [], ◌∷◌, Option, none, some, arith, leb, nat_eq, keep,
  All, All-imp, leb→le, Bool-cases, Option-cases, inl, inr,
}
use mathlib.Core.Path.{subst}
use pony.Prelude.Map.{Map}
use pony.Tag.{wireguard, tag_eq, tag_eqb}
use pony.Wireguard.{
  IpAddrMask, as_ipv4, addr_as_ipv4, increment_ipv4, first_ipv4, first_peer_ip, contains_ipv4,
}
use pony.Subscription.{Uuid}
use pony.Connection.{Proto, wg, ss, xray, h2, mt, proto_tag, proto_wireguard, Conn, conn_ops}
use pony.Connections.{proto_key, max_by_key, get_last_wg_addr, allocated, after_last, allocate}

-- The peer's IPv4 address, if it is a WireGuard peer with one.
abbrev pub peer_ipv4 : Proto → Option ℕ
peer_ipv4 (wg param) = addr_as_ipv4 param.address.address
peer_ipv4 (ss _) = none
peer_ipv4 (xray _) = none
peer_ipv4 (h2 _) = none
peer_ipv4 (mt _) = none

-- Every IPv4 peer in the store has an address below the bound.
abbrev pub PeersBelow : ℕ → Map Uuid Conn → Type 0
PeersBelow bound m = All (λ e. (ip : ℕ) → peer_ipv4 e.1.proto ≡ some ip → ip < bound) m

of_some : {A : Type 0} {a b : A} → some a ≡ some b → a ≡ b
of_some h = cc

bound_of : Option ℕ → ℕ
bound_of none = 0
bound_of (some ip) = ip

module _ (key : Uuid × Conn → ℕ) where
  best_key : Option (Uuid × Conn) → ℕ
  best_key none = 0
  best_key (some e) = key e

  max_by_key-ge :
      (es : List (Uuid × Conn)) (bound : ℕ)
      → best_key (max_by_key key es) ≤ bound
      → All (λ e. key e ≤ bound) es
  unfolding max_by_key best_key
  max_by_key-ge [] bound h = tt
  max_by_key-ge (e ∷ es) bound h = elim (Option-cases (max_by_key key es)) [
    | inl last ↦ (rw (last, max_by_key) at h, max_by_key-ge es bound (rw last (omega arith)))
    | inr (best, found) ↦ elim (Bool-cases (leb (key e) (key best))) [
      | inl less ↦
          let le : key best ≤ bound = rw (found, less, max_by_key) at h in
          (omega (arith, leb→le (key e) (key best) less), max_by_key-ge es bound (rw found le))
      | inr more ↦
          let le : key e ≤ bound = rw (found, more, max_by_key) at h in
          (le, max_by_key-ge es bound (rw found (ground arith)))
    ]
  ]

  max_by_key-All :
      (P : Uuid × Conn → Type 0) (es : List (Uuid × Conn)) (e : Uuid × Conn)
      → max_by_key key es ≡ some e
      → All P es
      → P e
  unfolding max_by_key
  max_by_key-All P [] e h a = cc
  max_by_key-All P (d ∷ es) e h a = elim (Option-cases (max_by_key key es)) [
    | inl last ↦ subst P (of_some (rw (last, max_by_key) at h)) a.0
    | inr (best, found) ↦ elim (Bool-cases (leb (key d) (key best))) [
      | inl less ↦
          subst P (of_some (rw (found, less, max_by_key) at h)) (max_by_key-All P es best found a.1)
      | inr more ↦ subst P (of_some (rw (found, more, max_by_key) at h)) a.0
    ]
  ]

All-keep :
    (P : Uuid × Conn → Type 0) (p : Uuid × Conn → Bool) (m : Map Uuid Conn)
    → All P (keep p m)
    → All (λ e. p e ≡ true → P e) m
All-keep P p [] h = tt
All-keep P p (e ∷ m) h = elim (Bool-cases (p e)) [
  | inl t ↦ let (a, b) = rw t at h in (λ _. a, All-keep P p m b)
  | inr f ↦ (λ t. cc, All-keep P p m (rw f at h))
]

last_ip : Map Uuid Conn → Option ℕ
last_ip m = elim (get_last_wg_addr m) [ none ↦ none | some mask ↦ as_ipv4 mask ]

is_wireguard : Uuid × Conn → Bool
is_wireguard e = tag_eqb (proto_tag e.1.proto) wireguard

conn_key : Uuid × Conn → ℕ
conn_key e = proto_key e.1.proto

best_wg : Map Uuid Conn → Option (Uuid × Conn)
best_wg m = max_by_key conn_key (keep is_wireguard m)

addr_of_proto : Proto → Option ℕ
addr_of_proto p =
    let mask : Option IpAddrMask = elim (proto_wireguard p) [
      | none ↦ none
      | some param ↦ some param.address
    ] in
    elim mask [ none ↦ none | some mask ↦ as_ipv4 mask ]

proto_bounded : (p : Proto) → proto_key p ≤ bound_of (addr_of_proto p)
unfolding addr_of_proto proto_wireguard as_ipv4 bound_of
proto_bounded p = ground arith

addr_of_best : Option (Uuid × Conn) → Option ℕ
addr_of_best none = none
addr_of_best (some e) = addr_of_proto e.1.proto

best_bounded : (best : Option (Uuid × Conn)) → best_key conn_key best ≤ bound_of (addr_of_best best)
unfolding best_key addr_of_best conn_key
best_bounded none = omega arith
best_bounded (some e) = proto_bounded e.1.proto

addr_of_wg : Option (Uuid × Conn) → Option ℕ
addr_of_wg o =
    let mask : Option IpAddrMask = elim o [
      | none ↦ none
      | some e ↦ elim (proto_wireguard (conn_ops.get_proto e.1)) [
        | none ↦ none
        | some param ↦ some param.address
      ]
    ] in
    elim mask [ none ↦ none | some mask ↦ as_ipv4 mask ]

addr_of_wg-eq : (o : Option (Uuid × Conn)) → addr_of_wg o ≡ addr_of_best o
unfolding addr_of_wg addr_of_best addr_of_proto
addr_of_wg-eq none = refl
addr_of_wg-eq (some e) = refl

last_ip-eq : (m : Map Uuid Conn) → last_ip m ≡ addr_of_best (best_wg m)
unfolding last_ip get_last_wg_addr best_wg is_wireguard conn_key addr_of_wg
last_ip-eq m = addr_of_wg-eq (best_wg m)

-- The address that the best entry yields bounds its key.
best_bounds : (m : Map Uuid Conn) → best_key conn_key (best_wg m) ≤ bound_of (last_ip m)
best_bounds m = rw (last_ip-eq m) (best_bounded (best_wg m))

peer_key :
    (p : Proto) (ip : ℕ)
    → peer_ipv4 p ≡ some ip
    → (proto_key p ≡ ip) × (tag_eqb (proto_tag p) wireguard ≡ true)
unfolding proto_tag
peer_key p ip h = ground arith

key_bounds :
    (e : Uuid × Conn) {bound : ℕ}
    → (is_wireguard e ≡ true → conn_key e ≤ bound)
    → (ip : ℕ) → peer_ipv4 e.1.proto ≡ some ip
    → ip ≤ bound
unfolding is_wireguard conn_key
key_bounds e h ip is = let (key, tag) = peer_key e.1.proto ip is in omega (arith, h tag, key)

last_ip-ge :
    (m : Map Uuid Conn)
    → All (λ e. (ip : ℕ) → peer_ipv4 e.1.proto ≡ some ip → ip ≤ bound_of (last_ip m)) m
unfolding best_wg
last_ip-ge m =
    All-imp _ _ (λ e h ip is. key_bounds e h ip is) m
      (All-keep (λ e. conn_key e ≤ bound_of (last_ip m)) is_wireguard m
        (max_by_key-ge conn_key (keep is_wireguard m) (bound_of (last_ip m)) (best_bounds m)))

first_peer_ip-pos : (network : IpAddrMask) (ip : ℕ) → first_peer_ip network ≡ some ip → 0 < ip
unfolding first_peer_ip first_ipv4 increment_ipv4
first_peer_ip-pos network ip h = ground arith

after_last-gt :
    (network : IpAddrMask) (last : Option ℕ) (next : ℕ)
    → after_last network last ≡ some next
    → bound_of last < next
unfolding bound_of increment_ipv4
after_last-gt network none next h = first_peer_ip-pos network next h
after_last-gt network (some ip) next h = ground arith

of_allocated : {a b : ℕ} → allocated a ≡ allocated b → a ≡ b
of_allocated h = cc

-- An address that is handed to a new peer lies in the network and above the address of every IPv4
-- peer in the store, deleted ones included; so no two of them have the same.
pub allocate-PeersBelow :
    (network : IpAddrMask) (m : Map Uuid Conn) (ip : ℕ)
    → allocate network m ≡ allocated ip
    → (contains_ipv4 network ip ≡ true) × PeersBelow ip m
unfolding allocate last_ip
allocate-PeersBelow network m ip e = elim (Option-cases (after_last network (last_ip m))) [
  | inl stuck ↦ cc (rw (stuck, allocate) at e)
  | inr (next, found) ↦ elim (Bool-cases (contains_ipv4 network next)) [
    | inl inside ↦
        let same : next ≡ ip = of_allocated (rw (found, inside, allocate) at e) in
        rw (← same) (
          inside,
          All-imp _ _
              (λ p h a is. omega (arith, h a is, after_last-gt network (last_ip m) next found)) m
              (last_ip-ge m),
        )
    | inr outside ↦ cc (rw (found, outside, allocate) at e)
  ]
]
