-- ===== src/Links/Peers.antt =====
-- src/bin/api/http/handlers/connection.rs: one connection, and the WireGuard configurations and
-- MTProto links of a subscription. `ConnectionInfoRequest::validate` accepts every request.
pub mod Listed
use pony.Prelude.{
  ℕ, Bool, true, false, not, ◌&&◌, List, [], ◌∷◌, ◌++◌, Option, none, some, nat_eq, if◌then◌else◌,
  ◌==◌,
}
use pony.Prelude.Map.{Map, lookup}
use pony.Prelude.Text.{Text}
use pony.Env.{Env, env_eq}
use pony.Tag.{ProtoTag, wireguard, mtproto, tag_eqb, tag_eq}
use pony.Subscription.{Uuid, DateTime, Subscription, is_active}
use pony.Connection.{proto_tag, Conn}
use pony.Connections.{get_by_subscription_id}
use pony.Inbound.Link.{LinkText, create_link, mtproto_link}
use pony.Node.{Node}
use pony.Nodes.{Nodes, get_by_env}
use pony.Sync.World.{World}

pub record ConnectionInfoRequest : Type 0 where
  pub id : Uuid
  pub env : Env

-- The objects of the reply.
pub record PeerConfig : Type 0 where
  pub conn_id : Uuid
  pub label : Text
  pub env : Env
  pub config : List Text

pub record ProxyUrl : Type 0 where
  pub label : Text
  pub url : Text

pub data PeerReply (A : Type 0) : Type 0 where
  expired no_connections : PeerReply A
  listed : List A → PeerReply A

-- `get_connection_handler`: the connection, or not found.
unfoldable pub get_connection_handler : Uuid → World → Option Conn
get_connection_handler conn_id w = lookup conn_id w.cache.connections

-- The three `continue` of the loops.
unfoldable pub is_listed : ProtoTag → ConnectionInfoRequest → Conn → Bool
is_listed tag req conn =
    not conn.is_deleted && conn.env == req.env && tag_eqb (proto_tag conn.proto) tag

abbrev pub nodes_or_none : Option (List Node) → List Node
nodes_or_none none = []
nodes_or_none (some ns) = ns

-- The loop over the connections; `f` is that over the nodes.
unfoldable pub each_conn :
    {A : Type 0}
    → ProtoTag
    → ConnectionInfoRequest
    → Nodes
    → (Uuid → Conn → List Node → List A)
    → List (Uuid × Conn)
    → List A
each_conn tag req nodes f [] = []
each_conn tag req nodes f ((conn_id, conn) ∷ conns) =
    let rest = each_conn tag req nodes f conns in
    if is_listed tag req conn
    then f conn_id conn (nodes_or_none (get_by_env conn.env nodes)) ++ rest
    else rest

-- The subscription is not refused: it is active, or it is not stored.
unfoldable pub is_served : DateTime → Option Subscription → Bool
is_served now none = true
is_served now (some sub) = is_active now sub

unfoldable pub list_conns :
    {A : Type 0}
    → ProtoTag
    → (Uuid → Conn → List Node → List A)
    → DateTime
    → ConnectionInfoRequest
    → World
    → PeerReply A
list_conns tag f now req w =
    if is_served now (lookup req.id w.cache.subscriptions)
    then elim (get_by_subscription_id req.id w.cache.connections) [
      | none ↦ no_connections
      | some conns ↦ listed (each_conn tag req w.cache.nodes f conns)
    ]
    else expired

module _ (t : LinkText) where
  unfoldable pub configs_at : Uuid → Conn → List Node → List PeerConfig
  configs_at conn_id conn [] = []
  configs_at conn_id conn (node ∷ nodes) =
      let rest = configs_at conn_id conn nodes in
      elim (lookup wireguard node.inbounds) [
        | none ↦ rest
        | some inbound ↦ elim (create_link t inbound conn_id conn node.address node.label) [
          | none ↦ rest
          | some link ↦
              record { conn_id = conn_id; label = node.label; env = node.env; config = link } ∷ rest
        ]
      ]

  unfoldable pub urls_at : Uuid → Conn → List Node → List ProxyUrl
  urls_at conn_id conn [] = []
  urls_at conn_id conn (node ∷ nodes) =
      let rest = urls_at conn_id conn nodes in
      elim (lookup mtproto node.inbounds) [
        | none ↦ rest
        | some inbound ↦ elim (mtproto_link t inbound node.address node.label) [
          | none ↦ rest
          | some url ↦ record { label = node.label; url = url } ∷ rest
        ]
      ]

  unfoldable pub wireguard_connections_handler :
      DateTime → ConnectionInfoRequest → World → PeerReply PeerConfig
  unfolding list_conns
  wireguard_connections_handler now req w = list_conns wireguard configs_at now req w

  unfoldable pub mtproto_connections_handler :
      DateTime → ConnectionInfoRequest → World → PeerReply ProxyUrl
  unfolding list_conns
  mtproto_connections_handler now req w = list_conns mtproto urls_at now req w
