-- ===== src/NodeService/Delivery.antt =====
-- What the messages about a connection of the API make of the memory of a node.
use pony.Prelude.{◌≡◌, refl, Bool, true, false, not, ◌&&◌, none, some, arith, nat_eq}
use pony.Prelude.Map.{Map, lookup, HasUniqueKeys, lookup-insert, lookup-remove_self}
use pony.Tag.{
  ProtoTag, vless_tcp_reality, vless_grpc_reality, vless_xhttp_reality, vmess, shadowsocks,
  wireguard, hysteria2, mtproto,
}
use pony.Subscription.{Uuid, DateTime}
use pony.Connection.{
  Proto, wg, ss, xray, h2, mt, Conn, Base, new_base, base_ops, as_create_message, as_delete_message,
  proto_tag, proto_wireguard, proto_password,
}
use pony.Connections.{add, remove_conn}
use pony.NodeService.{
  Clients, NodeState, handled, create_peer, create_wg, create_user, create_ss, on_create,
  delete_peer, delete_wg, delete_user, on_delete, on_action, handle_message,
}

-- The protocols of `Proto::Xray`.
abbrev pub is_xray_tag : ProtoTag → Bool
is_xray_tag vless_tcp_reality = true
is_xray_tag vless_grpc_reality = true
is_xray_tag vless_xhttp_reality = true
is_xray_tag vmess = true
is_xray_tag shadowsocks = false
is_xray_tag wireguard = false
is_xray_tag hysteria2 = false
is_xray_tag mtproto = false

-- The clients of the node take the connection.
abbrev pub takes_proto : Clients → Uuid → Proto → Bool
takes_proto c id (wg param) = c.has_wg && elim (c.pubkey param.privkey) [
  | none ↦ true
  | some key ↦ not (c.is_exist key) && c.wg_create key param.address
]
takes_proto c id (xray tag) = is_xray_tag tag && c.has_xray && c.xray_create id tag none
takes_proto c id (ss password) = c.has_xray && c.xray_create id shadowsocks (some password)
takes_proto c id (h2 token) = false
takes_proto c id (mt secret) = false

-- The clients of the node let go of the connection.
abbrev pub drops_proto : Clients → Uuid → Proto → Bool
drops_proto c id (wg param) =
    c.has_wg && elim (c.pubkey param.privkey) [ none ↦ false | some key ↦ c.wg_delete key ]
drops_proto c id (xray tag) = is_xray_tag tag && c.has_xray && c.xray_remove id tag none
drops_proto c id (ss password) = c.has_xray && c.xray_remove id shadowsocks (some password)
drops_proto c id (h2 token) = false
drops_proto c id (mt secret) = false

module _ (c : Clients) (now : DateTime) where
  lookup-add :
      (id : Uuid) (b : Base) (m : Map Uuid Base)
      → lookup id m ≡ none
      → lookup id (add id b m).0 ≡ some b
  unfolding add
  lookup-add id b m free = ground (arith, lookup-insert id id b m)

  create_lem :
      (id : Uuid) (proto : Proto) (conn : Conn) (st : NodeState)
      → conn.proto ≡ proto
      → takes_proto c id proto ≡ true
      → lookup id st.memory ≡ none
      → ((handle_message c now (as_create_message id conn) st).1 ≡ handled)
        × (lookup id (handle_message c now (as_create_message id conn) st).0.memory
            ≡ some (new_base now proto conn.expires_at conn.subscription_id))
  unfolding handle_message on_action on_create create_wg create_peer create_user create_ss
      as_create_message proto_tag proto_wireguard proto_password
  create_lem id (wg param) conn st p t free = rw p (
      ground (
        arith,
        t,
        lookup-add id (new_base now (wg param) conn.expires_at conn.subscription_id) st.memory free,
      ))
  create_lem id (ss password) conn st p t free = rw p (
      ground (
        arith,
        t,
        lookup-add id (new_base now (ss password) conn.expires_at conn.subscription_id) st.memory
            free,
      ))
  create_lem id (xray _) conn st p t free =
      let base : Base = new_base now conn.proto conn.expires_at conn.subscription_id in
      let added : lookup id (add id base st.memory).0 ≡ some base =
        lookup-add id base st.memory free in
      rw p (ground (arith, t, added, p))
  create_lem id (h2 token) conn st p t free = ground (arith, t)
  create_lem id (mt secret) conn st p t free = ground (arith, t)

  -- The create message of a connection of the API, when the node does not know its uuid and its
  -- clients take it, gives the node a connection of the same protocol, with the keys or the
  -- password of the API's, its expiry and its subscription, live and dated now.
  pub handle_message-as_create_message :
      (id : Uuid) (conn : Conn) (st : NodeState)
      → takes_proto c id conn.proto ≡ true
      → lookup id st.memory ≡ none
      → ((handle_message c now (as_create_message id conn) st).1 ≡ handled)
        × (lookup id (handle_message c now (as_create_message id conn) st).0.memory
            ≡ some (record {
              created_at = now;
              modified_at = now;
              expires_at = conn.expires_at;
              proto = conn.proto;
              subscription_id = conn.subscription_id;
              is_deleted = false;
            }))
  unfolding new_base
  handle_message-as_create_message id conn st t free = create_lem id conn.proto conn st refl t free

  lookup-remove_conn :
      (id : Uuid) (m : Map Uuid Base) → HasUniqueKeys m → lookup id (remove_conn id m).0 ≡ none
  unfolding remove_conn
  lookup-remove_conn id m u = ground (arith, lookup-remove_self id m u)

  delete_lem :
      (id : Uuid) (proto : Proto) (conn : Conn) (st : NodeState)
      → conn.proto ≡ proto
      → drops_proto c id proto ≡ true
      → HasUniqueKeys st.memory
      → ((handle_message c now (as_delete_message id conn) st).1 ≡ handled)
        × (lookup id (handle_message c now (as_delete_message id conn) st).0.memory ≡ none)
  unfolding handle_message on_action on_delete delete_wg delete_peer delete_user as_delete_message
      proto_tag proto_wireguard proto_password
  delete_lem id (wg param) conn st p t u =
      rw p (ground (arith, t, lookup-remove_conn id st.memory u))
  delete_lem id (ss password) conn st p t u =
      rw p (ground (arith, t, lookup-remove_conn id st.memory u))
  delete_lem id (xray _) conn st p t u = rw p (ground (arith, t, lookup-remove_conn id st.memory u))
  delete_lem id (h2 token) conn st p t u = ground (arith, t)
  delete_lem id (mt secret) conn st p t u = ground (arith, t)

  -- The delete message of a connection of the API, when the clients of the node let go of it, takes
  -- the connection out of the memory of the node.
  pub handle_message-as_delete_message :
      (id : Uuid) (conn : Conn) (st : NodeState)
      → drops_proto c id conn.proto ≡ true
      → HasUniqueKeys st.memory
      → ((handle_message c now (as_delete_message id conn) st).1 ≡ handled)
        × (lookup id (handle_message c now (as_delete_message id conn) st).0.memory ≡ none)
  handle_message-as_delete_message id conn st t u = delete_lem id conn.proto conn st refl t u
