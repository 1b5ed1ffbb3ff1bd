-- ===== src/Tests/Fleet.antt =====
-- Nodes, and what they do with messages.
use pony.Prelude.{
  ◌≡◌, refl, true, false, ◌&&◌, [], ◌∷◌, none, some, nat_eq, nat_eqb, if◌then◌else◌, ◌==◌,
}
use pony.Prelude.Int.{pos}
use pony.Prelude.Map.{lookup}
use pony.Prelude.Text.{codes}
use pony.Env.{dev, env_eq}
use pony.Tag.{wireguard, tag_eqb}
use pony.Connection.{ss, Conn, as_create_message, proto_tag, proto_password}
use pony.Node.{Node, online, common}
use pony.Nodes.{Nodes, add, get}
use pony.Nodes.Registry.{row, get-add}
use pony.NodeService.{
  Clients, NodeState, handled, failed, xray_failed, on_action, on_create, create_ss, create_user,
  handle_message,
}
use pony.NodeService.Delivery.{handle_message-as_create_message}
use pony.Handlers.Nodes.{
  NodeRequest, as_node, registered, internal, with_node, post_node_handler, post_node_handler_lem,
}
use pony.Tests.Data.{up, now, peer, conn_of, world}

abbrev berlin : NodeRequest
berlin = record {
  env = dev;
  hostname = codes "berlin";
  address = 1;
  inbounds = [];
  uuid = 31;
  label = codes "Berlin";
  interface = codes "eth0";
  cores = 4;
  max_bandwidth_bps = pos 1000;
  country = codes "DE";
  type = none;
}

abbrev pub berlin_node : Node
berlin_node = record {
  uuid = 31;
  env = dev;
  hostname = codes "berlin";
  address = 1;
  status = online;
  label = codes "Berlin";
  interface = codes "eth0";
  created_at = 1;
  modified_at = 1;
  inbounds = [];
  cores = 4;
  max_bandwidth_bps = pos 1000;
  country = codes "DE";
  type = common;
}

abbrev moved : Node
moved = record berlin_node { hostname = codes "munich" }

abbrev nodes : Nodes
nodes = (dev, berlin_node ∷ []) ∷ []

get-add_example :
    (get dev 31 (add moved nodes).0 ≡ (
      if dev == dev && nat_eqb 31 31
      then some (row moved (get dev 31 nodes)).0
      else get dev 31 nodes))
    × ((add moved nodes).1 ≡ (row moved (get dev 31 nodes)).1)
get-add_example = get-add moved nodes dev 31

post_node_handler_lem_example :
    post_node_handler up now berlin world
    ≡ (if true then (with_node (as_node now berlin) world, registered 31) else (world, internal))
post_node_handler_lem_example = post_node_handler_lem up now berlin world

-- WireGuard is there and knows no peer; Xray takes no user.
abbrev clients : Clients
clients = record {
  has_wg = true;
  has_xray = true;
  pubkey = λ key. some key;
  is_exist = λ key. false;
  wg_create = λ key address. true;
  wg_delete = λ key. true;
  xray_create = λ id tag password. false;
  xray_remove = λ id tag password. true;
}

abbrev fresh_node : NodeState
fresh_node = record { memory = []; calls = [] }

abbrev shadow : Conn
shadow = conn_of (ss (codes "secret")) none

refused :
    (handle_message clients now (as_create_message 4 shadow) fresh_node).1 ≡ failed xray_failed
unfolding handle_message on_action on_create create_ss create_user as_create_message proto_tag
    proto_password
refused = refl

not_wireguard : tag_eqb (as_create_message 4 shadow).tag wireguard ≡ false
unfolding as_create_message proto_tag
not_wireguard = refl

free : lookup 1 fresh_node.memory ≡ none
unfolding lookup
free = refl

handle_message-as_create_message_example :
    ((handle_message clients now (as_create_message 1 peer) fresh_node).1 ≡ handled)
    × (lookup 1 (handle_message clients now (as_create_message 1 peer) fresh_node).0.memory
        ≡ some (record {
          created_at = now;
          modified_at = now;
          expires_at = peer.expires_at;
          proto = peer.proto;
          subscription_id = peer.subscription_id;
          is_deleted = false;
        }))
handle_message-as_create_message_example =
    handle_message-as_create_message clients now 1 peer fresh_node refl free
