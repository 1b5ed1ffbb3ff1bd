-- ===== src/Handlers/Creating.antt =====
-- Creating a connection.
use pony.Prelude.{
  ℕ, ◌<◌, ◌≡◌, ◌≢◌, ◌⊎◌, refl, ap, true, false, [], ◌∷◌, ◌++◌, Option, none, some, arith, nat_eq,
  Option-cases, Bool-cases, inl, inr, ==_refl,
}
use pony.Prelude.Map.{Map, lookup, insert, lookup-insert}
use pony.Prelude.Text.{Text}
use pony.Tag.{
  ProtoTag, vless_tcp_reality, vless_grpc_reality, vless_xhttp_reality, vmess, shadowsocks,
  wireguard, hysteria2, mtproto,
}
use pony.Wireguard.{IpAddrMask, v4, contains_ipv4}
use pony.Subscription.{Uuid, DateTime, Chrono, Subscription, later, is_active}
use pony.Connection.{Proto, wg, ss, xray, h2, mt, WgParam, proto_tag, Conn, new_conn}
use pony.Connections
use pony.Connections.{Allocation, allocated, failed, out_of_range, allocate, ok}
use pony.Sync.World.{World, Outside, conn_inserted, done, error, database}
use pony.Sync.Operations.{add_conn}
use pony.Handlers.{
  bad, internal, connection, ConnCreateRequest, Fresh, is_allowed, expired_at, of_allocation,
  new_proto, announce, added, create_conn, create_connection_handler,
}

internal_ne : (id : Uuid) (c : Conn) → internal ≢ connection id c
internal_ne id c = ground arith

abbrev peer : Text → ℕ → WgParam
peer keys ip = record { privkey = keys; address = record { address = v4 ip; cidr = 32 } }

-- The request names no subscription, or a stored one that is active: it is not marked as deleted,
-- and its expiry is after the time.
abbrev pub MayCreate : Option Uuid → DateTime → World → Type 0
MayCreate sub_id now w =
    (sub_id ≡ none)
    ⊎ ((id : Uuid) × (sub : Subscription) × (sub_id ≡ some id)
        × (lookup id w.cache.subscriptions ≡ some sub)
        × (sub.is_deleted ≡ false)
        × ((t : DateTime) × (sub.expires_at ≡ some t) × (now < t)))

-- The address of a WireGuard peer is a single host of the network.
abbrev pub IsInside : IpAddrMask → Proto → Type 0
IsInside network (wg param) =
    (ip : ℕ) × (param.address ≡ record { address = v4 ip; cidr = 32 })
    × (contains_ipv4 network ip ≡ true)
IsInside network (ss _) = Unit
IsInside network (xray _) = Unit
IsInside network (h2 _) = Unit
IsInside network (mt _) = Unit

module _ (o : Outside) (now : DateTime) (chrono : Chrono) (network : IpAddrMask) where
  of_allocation_cases :
      (keys : Text) (a : Allocation) (p : Proto)
      → of_allocation o now keys a ≡ some p
      → (ip : ℕ) × (a ≡ allocated ip) × (p ≡ wg (peer keys ip))
  unfolding of_allocation
  of_allocation_cases keys (allocated ip) p e = (ip, refl, ground arith)
  of_allocation_cases keys failed p e = ground arith
  of_allocation_cases keys out_of_range p e = ground arith

  allocate-contains :
      (m : Map Uuid Conn) (ip : ℕ)
      → allocate network m ≡ allocated ip
      → contains_ipv4 network ip ≡ true
  unfolding allocate
  allocate-contains m ip e = ground arith

  of_allocation_lem :
      (keys : Text) (m : Map Uuid Conn) (p : Proto)
      → of_allocation o now keys (allocate network m) ≡ some p
      → (proto_tag p ≡ wireguard) × IsInside network p
  unfolding proto_tag
  of_allocation_lem keys m p e =
      let (ip, found, drawn) = of_allocation_cases keys (allocate network m) p e in
      (rw drawn refl, rw drawn (ip, refl, allocate-contains m ip found))

  -- The protocol that is drawn is of the requested kind, and a WireGuard peer's address lies in
  -- the network.
  new_proto_lem :
      (fresh : Fresh) (tag : ProtoTag) (m : Map Uuid Conn) (p : Proto)
      → new_proto o now network fresh tag m ≡ some p
      → (proto_tag p ≡ tag) × IsInside network p
  unfolding new_proto proto_tag
  new_proto_lem fresh wireguard m p e = of_allocation_lem fresh.keys m p e
  new_proto_lem fresh shadowsocks m p e = ground arith
  new_proto_lem fresh vless_tcp_reality m p e = ground arith
  new_proto_lem fresh vless_grpc_reality m p e = ground arith
  new_proto_lem fresh vless_xhttp_reality m p e = ground arith
  new_proto_lem fresh vmess m p e = ground arith
  new_proto_lem fresh hysteria2 m p e = ground arith
  new_proto_lem fresh mtproto m p e = ground arith

  add_conn_lem :
      (id : Uuid) (conn : Conn) (w : World)
      → lookup id w.cache.connections ≡ none
      → (add_conn o now id conn w ≡ (w, error database))
        ⊎ ((w' : World) × (add_conn o now id conn w ≡ (w', done (ok id)))
            × (lookup id w'.cache.connections ≡ some conn))
  unfolding add_conn Connections.add
  add_conn_lem id conn w free = elim (Bool-cases (o.conn_insert id conn)) [
    | inl taken ↦ inr (
      record w {
        events = w.events ++ conn_inserted id conn ∷ [];
        cache = record w.cache { connections = insert id conn w.cache.connections };
      },
      rw (add_conn, taken, Connections.add, free) refl,
      rw (lookup-insert, ==_refl) refl,
    )
    | inr down ↦ inl (rw (add_conn, down) refl)
  ]

  announce_lem :
      (id : Uuid) (conn : Conn) (w : World) (j : Uuid) (c : Conn)
      → (announce o now id conn w).1 ≡ connection j c
      → (j ≡ id) × (c ≡ conn) × ((announce o now id conn w).0.cache ≡ w.cache)
  unfolding announce
  announce_lem id conn w j c h = ground arith

  create_conn_lem :
      (fresh : Fresh) (req : ConnCreateRequest) (e : Option DateTime) (p : Proto) (w : World)
      (id : Uuid) (c : Conn)
      → lookup fresh.id w.cache.connections ≡ none
      → (create_conn o now req fresh e (some p) w).1 ≡ connection id c
      → (id ≡ fresh.id)
        × (c ≡ new_conn now req.env req.subscription_id p e)
        × (lookup fresh.id (create_conn o now req fresh e (some p) w).0.cache.connections ≡ some c)
  unfolding create_conn added
  create_conn_lem fresh req e p w id c free h =
      let conn : Conn = new_conn now req.env req.subscription_id p e in
      elim (add_conn_lem fresh.id conn w free) [
        | inl refused ↦ ground arith
        | inr (w', stored, held) ↦
            let run : create_conn o now req fresh e (some p) w ≡ announce o now fresh.id conn w' =
              ap (λ q. added o now fresh.id conn q.0 q.1) stored in
            let (same, k, kept) = announce_lem fresh.id conn w' id c (rw run at h) in
            (same, k, rw (run, kept, k) held)
      ]

  later_lem : (e : Option DateTime) → later e now ≡ true → (t : DateTime) × (e ≡ some t) × (now < t)
  later_lem none h = absurd (ground (arith, h))
  later_lem (some t) h = (t, refl, ground (arith, h))

  is_active_lem :
      (sub : Subscription)
      → is_active now sub ≡ true
      → (sub.is_deleted ≡ false) × ((t : DateTime) × (sub.expires_at ≡ some t) × (now < t))
  unfolding is_active
  is_active_lem sub h = (ground (arith, h), later_lem sub.expires_at (ground (arith, h)))

  is_allowed_lem :
      (sub_id : Option Uuid) (w : World) → is_allowed o now sub_id w ≡ true → MayCreate sub_id now w
  unfolding is_allowed
  is_allowed_lem none w h = inl refl
  is_allowed_lem (some id) w h = elim (Option-cases (lookup id w.cache.subscriptions)) [
    | inl unknown ↦
        let bad : false ≡ true = rw (is_allowed, unknown) at h in absurd (ground (arith, bad))
    | inr (sub, stored) ↦
        let (live, lasts) = is_active_lem sub (rw (is_allowed, stored) at h) in
        inr (id, sub, refl, stored, live, lasts)
  ]

  -- A reply with a connection comes only to a request that names no subscription or a stored one
  -- that is active; the connection then is stored in the memory under the fresh uuid, if that was
  -- free, it is of the requested subscription, environment and protocol, is not deleted, and its
  -- address, if it is a WireGuard peer, is a single host of the network.
  pub create_connection_handler_lem :
      (fresh : Fresh) (req : ConnCreateRequest) (w : World) (id : Uuid) (c : Conn)
      → lookup fresh.id w.cache.connections ≡ none
      → (create_connection_handler o now chrono network fresh req w).1 ≡ connection id c
      → MayCreate req.subscription_id now w
        × (id ≡ fresh.id)
        × (lookup fresh.id
              (create_connection_handler o now chrono network fresh req w).0.cache.connections
            ≡ some c)
        × (c.subscription_id ≡ req.subscription_id)
        × (c.env ≡ req.env)
        × (proto_tag c.proto ≡ req.proto)
        × (c.is_deleted ≡ false)
        × IsInside network c.proto
  unfolding create_connection_handler create_conn new_conn
  create_connection_handler_lem fresh req w id c free h =
      elim (Bool-cases (is_allowed o now req.subscription_id w)) [
        | inr refused ↦ ground arith
        | inl allowed ↦
            elim (Option-cases (new_proto o now network fresh req.proto w.cache.connections)) [
              | inl none_drawn ↦
                  let run : create_connection_handler o now chrono network fresh req w
                      ≡ (w, internal) =
                    rw (create_connection_handler, allowed, none_drawn) refl in
                  absurd (internal_ne id c (rw run at h))
              | inr (p, drawn) ↦
                  let e : Option DateTime = expired_at o now chrono req.days in
                  let run : create_connection_handler o now chrono network fresh req w
                      ≡ create_conn o now req fresh e (some p) w =
                    rw (create_connection_handler, allowed, drawn) refl in
                  let (drawn_id, made, held) =
                    create_conn_lem fresh req e p w id c free (rw run at h) in
                  let (kind, inside) = new_proto_lem fresh req.proto w.cache.connections p drawn in
                  (
                    is_allowed_lem req.subscription_id w allowed,
                    drawn_id,
                    rw run held,
                    rw made refl,
                    rw made refl,
                    rw made kind,
                    rw made refl,
                    rw made inside,
                  )
            ]
      ]

  -- A request that is refused because of its subscription changes nothing.
  pub create_refused :
      (fresh : Fresh) (req : ConnCreateRequest) (w : World)
      → is_allowed o now req.subscription_id w ≡ false
      → create_connection_handler o now chrono network fresh req w ≡ (w, bad)
  unfolding create_connection_handler
  create_refused fresh req w h = ground arith
