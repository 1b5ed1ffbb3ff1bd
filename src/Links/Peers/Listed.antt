-- ===== src/Links/Peers/Listed.antt =====
-- What the WireGuard list of a subscription holds, and who gets it.
use pony.Prelude.{
  Option, ◌≡◌, refl, true, false, List, [], ◌∷◌, none, some, arith, nat_eq, All, All-append,
  All-imp, IsIn, All-IsIn, Bool-cases, Option-cases, inl, inr,
}
use pony.Prelude.Text.{Text}
use pony.Prelude.Map.{lookup}
use pony.Env.{env_eqb_iff}
use pony.Tag.{wireguard, tag_eqb_iff, tag_eq}
use pony.Subscription.{Uuid, DateTime, Subscription, is_active}
use pony.Connection.{proto_tag, Conn}
use pony.Connections.{get_by_subscription_id}
use pony.Inbound.{Inbound}
use pony.Inbound.Link.{LinkText, create_link}
use pony.Node.{Node}
use pony.Nodes.{get_by_env}
use pony.Links.{SubscriptionInfoRequest, validate, missing, subscription_link_handler}
use pony.Links.Selection.{get_by_subscription_id-All}
use pony.Sync.World.{World}
use pony.Links.Peers.{
  ConnectionInfoRequest, PeerConfig, expired, no_connections, listed, is_listed, nodes_or_none,
  each_conn, is_served, list_conns, configs_at, wireguard_connections_handler,
}

-- A live connection of the subscription and the environment, with the protocol.
abbrev pub IsPeer : ConnectionInfoRequest → Conn → Type 0
IsPeer req conn =
    (conn.subscription_id ≡ some req.id)
    × (conn.is_deleted ≡ false)
    × (conn.env ≡ req.env)
    × (proto_tag conn.proto ≡ wireguard)

-- The configuration is that of such a connection of the memory, at a node of its environment with
-- an inbound for WireGuard.
abbrev pub IsConfig : LinkText → ConnectionInfoRequest → World → PeerConfig → Type 0
IsConfig t req w c =
    (conn : Conn) × (node : Node) × (inbound : Inbound) × IsIn (c.conn_id, conn) w.cache.connections
    × IsPeer req conn
    × ((ns : List Node) × (get_by_env conn.env w.cache.nodes ≡ some ns) × IsIn node ns)
    × (lookup wireguard node.inbounds ≡ some inbound)
    × (c.label ≡ node.label)
    × (create_link t inbound c.conn_id conn node.address node.label ≡ some c.config)

is_listed_lem :
    (req : ConnectionInfoRequest) (conn : Conn)
    → conn.subscription_id ≡ some req.id
    → is_listed wireguard req conn ≡ true
    → IsPeer req conn
unfolding is_listed
is_listed_lem req conn s h = (
  s,
  ground (arith, h),
  (env_eqb_iff conn.env req.env).0 (ground (arith, h)),
  (tag_eqb_iff (proto_tag conn.proto) wireguard).0 (ground (arith, h)),
)

module _ (t : LinkText) where
  configs_at-All :
      (P : PeerConfig → Type 0) (conn_id : Uuid) (conn : Conn) (nodes : List Node)
      → All
          (λ n.
            (i : Inbound) (link : List Text)
            → lookup wireguard n.inbounds ≡ some i
            → create_link t i conn_id conn n.address n.label ≡ some link
            → P (record { conn_id = conn_id; label = n.label; env = n.env; config = link }))
          nodes
      → All P (configs_at t conn_id conn nodes)
  unfolding configs_at
  configs_at-All P conn_id conn [] p = tt
  configs_at-All P conn_id conn (node ∷ nodes) p =
      let rest = configs_at-All P conn_id conn nodes p.1 in
      elim (Option-cases (lookup wireguard node.inbounds)) [
        | inl absent ↦ rw (configs_at, absent) rest
        | inr (i, there) ↦
            elim (Option-cases (create_link t i conn_id conn node.address node.label)) [
              | inl broken ↦ rw (configs_at, there, broken) rest
              | inr (link, made) ↦ rw (configs_at, there, made) (p.0 i link there made, rest)
            ]
      ]

  -- The configurations of one wanted connection.
  configs_at-IsConfig :
      (req : ConnectionInfoRequest) (w : World) (conn_id : Uuid) (conn : Conn)
      → IsIn (conn_id, conn) w.cache.connections
      → IsPeer req conn
      → (found : Option (List Node)) → get_by_env conn.env w.cache.nodes ≡ found
      → All (IsConfig t req w) (configs_at t conn_id conn (nodes_or_none found))
  unfolding configs_at
  configs_at-IsConfig req w conn_id conn stored own none nowhere = tt
  configs_at-IsConfig req w conn_id conn stored own (some ns) there =
      configs_at-All (IsConfig t req w) conn_id conn ns (
        All-imp (λ n. IsIn n ns)
          (λ n.
            (i : Inbound) (link : List Text)
            → lookup wireguard n.inbounds ≡ some i
            → create_link t i conn_id conn n.address n.label ≡ some link
            → IsConfig t req w
                (record { conn_id = conn_id; label = n.label; env = n.env; config = link }))
          (λ n here i link found made.
            (conn, n, i, stored, own, (ns, there, here), found, refl, made))
          ns (All-IsIn ns))

  each_conn-All :
      (req : ConnectionInfoRequest) (w : World) (conns : List (Uuid × Conn))
      → All (λ e. (e.1.subscription_id ≡ some req.id) × IsIn e w.cache.connections) conns
      → All (IsConfig t req w) (each_conn wireguard req w.cache.nodes (configs_at t) conns)
  unfolding each_conn
  each_conn-All req w [] a = tt
  each_conn-All req w ((conn_id, conn) ∷ conns) a =
      let rest = each_conn-All req w conns a.1 in
      elim (Bool-cases (is_listed wireguard req conn)) [
        | inr other ↦ rw (each_conn, other) rest
        | inl wanted ↦
            rw (each_conn, wanted)
              (All-append (IsConfig t req w)
                (configs_at t conn_id conn (nodes_or_none (get_by_env conn.env w.cache.nodes)))
                (each_conn wireguard req w.cache.nodes (configs_at t) conns)
                (configs_at-IsConfig req w conn_id conn a.0.1 (is_listed_lem req conn a.0.0 wanted)
                  (get_by_env conn.env w.cache.nodes) refl)
                rest)
      ]

  -- A list of configurations comes only for a subscription that is active or not stored. Each of
  -- them is that of a connection of the memory under its uuid, which is live, of WireGuard, of the
  -- subscription and of the environment, at a node of the environment with an inbound for
  -- WireGuard.
  pub wireguard_connections_handler_lem :
      (now : DateTime) (req : ConnectionInfoRequest) (w : World) (cs : List PeerConfig)
      → wireguard_connections_handler t now req w ≡ listed cs
      → ((sub : Subscription)
          → lookup req.id w.cache.subscriptions ≡ some sub
          → is_active now sub ≡ true)
        × All (IsConfig t req w) cs
  unfolding wireguard_connections_handler list_conns is_served
  wireguard_connections_handler_lem now req w cs h =
      elim (Bool-cases (is_served now (lookup req.id w.cache.subscriptions))) [
        | inr refused ↦
            let r : expired ≡ listed cs =
              rw (wireguard_connections_handler, list_conns, refused) at h in
            absurd (ground (arith, r))
        | inl kept ↦ elim (Option-cases (get_by_subscription_id req.id w.cache.connections)) [
          | inl nothing ↦
              let r : no_connections ≡ listed cs =
                rw (wireguard_connections_handler, list_conns, kept, nothing) at h in
              absurd (ground (arith, r))
          | inr (conns, found) ↦
              let r : listed (each_conn wireguard req w.cache.nodes (configs_at t) conns)
                  ≡ listed cs =
                rw (wireguard_connections_handler, list_conns, kept, found) at h in
              let same : each_conn wireguard req w.cache.nodes (configs_at t) conns ≡ cs =
                ground (arith, r) in
              (
                (λ sub stored. rw (stored, is_served) at kept),
                rw (← same) (
                    each_conn-All req w conns
                      (get_by_subscription_id-All req.id w.cache.connections conns found)),
              )
        ]
      ]

  -- A subscription that is not stored gets no links, but the list of its configurations.
  pub unstored_served :
      (now : DateTime) (req : SubscriptionInfoRequest) (w : World) (conns : List (Uuid × Conn))
      → validate req ≡ true
      → lookup req.id w.cache.subscriptions ≡ none
      → get_by_subscription_id req.id w.cache.connections ≡ some conns
      → (subscription_link_handler t now req w ≡ missing)
        × (wireguard_connections_handler t now (record { id = req.id; env = req.env }) w
            ≡ listed (
                each_conn wireguard
                  (record { id = req.id; env = req.env })
                  w.cache.nodes
                  (configs_at t)
                  conns))
  unfolding wireguard_connections_handler list_conns is_served subscription_link_handler
  unstored_served now req w conns valid unknown found = (
    rw (subscription_link_handler, valid, unknown) refl,
    rw (wireguard_connections_handler, list_conns, unknown, found) refl,
  )
