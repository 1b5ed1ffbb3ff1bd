-- ===== src/NodeService/Messages.antt =====
-- What a message does to the memory of a node.
use pony.Prelude.{◌≡◌, refl, false, Option, none, some, arith, nat_eq, nat_eqb}
use pony.Prelude.Map.{lookup, lookup-insert, lookup-remove_ne}
use pony.Prelude.Text.{Text}
use pony.Tag.{
  ProtoTag, vless_tcp_reality, vless_grpc_reality, vless_xhttp_reality, vmess, shadowsocks,
  wireguard, hysteria2, mtproto,
}
use pony.Subscription.{Uuid, DateTime}
use pony.Connection.{
  WgParam, Proto, wg, ss, xray, new_base, base_ops, Action, create, update, delete, reset_stat,
  Message,
}
use pony.Connections.{add, remove_conn}
use pony.NodeService.{
  Clients, NodeState, stored, forgotten, create_peer, create_wg, create_user, create_ss, on_create,
  delete_peer, delete_wg, delete_user, on_delete, on_action, handle_message,
}

module _ (c : Clients) (now : DateTime) where
  lookup-stored :
      (msg : Message) (proto : Proto) (j : Uuid) (st : NodeState)
      → nat_eqb msg.conn_id j ≡ false
      → lookup j (stored now msg proto st).memory ≡ lookup j st.memory
  unfolding add
  lookup-stored msg proto j st ne = ground (
    arith,
    lookup-insert msg.conn_id j (new_base now proto msg.expires_at msg.subscription_id) st.memory,
  )

  lookup-forgotten :
      (conn_id j : Uuid) (st : NodeState)
      → nat_eqb conn_id j ≡ false
      → lookup j (forgotten conn_id st).memory ≡ lookup j st.memory
  unfolding remove_conn
  lookup-forgotten conn_id j st ne = ground (arith, lookup-remove_ne conn_id j st.memory ne)

  create_user-other :
      (msg : Message) (proto : Proto) (password : Option Text) (j : Uuid) (st : NodeState)
      → nat_eqb msg.conn_id j ≡ false
      → lookup j (create_user c now msg proto password st).0.memory ≡ lookup j st.memory
  unfolding create_user
  create_user-other msg proto password j st ne = ground (arith, lookup-stored msg proto j st ne)

  create_wg-other :
      (msg : Message) (param : Option WgParam) (j : Uuid) (st : NodeState)
      → nat_eqb msg.conn_id j ≡ false
      → lookup j (create_wg c now msg param st).0.memory ≡ lookup j st.memory
  unfolding create_wg create_peer
  create_wg-other msg none j st ne = refl
  create_wg-other msg (some param) j st ne = ground (arith, lookup-stored msg (wg param) j st ne)

  create_ss-other :
      (msg : Message) (password : Option Text) (j : Uuid) (st : NodeState)
      → nat_eqb msg.conn_id j ≡ false
      → lookup j (create_ss c now msg password st).0.memory ≡ lookup j st.memory
  unfolding create_ss
  create_ss-other msg none j st ne = refl
  create_ss-other msg (some password) j st ne =
      create_user-other msg (ss password) (some password) j st ne

  on_create-other :
      (msg : Message) (tag : ProtoTag) (j : Uuid) (st : NodeState)
      → nat_eqb msg.conn_id j ≡ false
      → lookup j (on_create c now msg tag st).0.memory ≡ lookup j st.memory
  unfolding on_create
  on_create-other msg wireguard j st ne = create_wg-other msg msg.wg j st ne
  on_create-other msg vless_tcp_reality j st ne = create_user-other msg (xray msg.tag) none j st ne
  on_create-other msg vless_grpc_reality j st ne = create_user-other msg (xray msg.tag) none j st ne
  on_create-other msg vless_xhttp_reality j st ne =
      create_user-other msg (xray msg.tag) none j st ne
  on_create-other msg vmess j st ne = create_user-other msg (xray msg.tag) none j st ne
  on_create-other msg shadowsocks j st ne = create_ss-other msg msg.password j st ne
  on_create-other msg hysteria2 j st ne = refl
  on_create-other msg mtproto j st ne = refl

  delete_user-other :
      (msg : Message) (j : Uuid) (st : NodeState)
      → nat_eqb msg.conn_id j ≡ false
      → lookup j (delete_user c now msg st).0.memory ≡ lookup j st.memory
  unfolding delete_user
  delete_user-other msg j st ne = ground (arith, lookup-forgotten msg.conn_id j st ne)

  delete_wg-other :
      (msg : Message) (param : Option WgParam) (j : Uuid) (st : NodeState)
      → nat_eqb msg.conn_id j ≡ false
      → lookup j (delete_wg c now msg param st).0.memory ≡ lookup j st.memory
  unfolding delete_wg delete_peer
  delete_wg-other msg none j st ne = ground arith
  delete_wg-other msg (some param) j st ne = ground (arith, lookup-forgotten msg.conn_id j st ne)

  on_delete-other :
      (msg : Message) (tag : ProtoTag) (j : Uuid) (st : NodeState)
      → nat_eqb msg.conn_id j ≡ false
      → lookup j (on_delete c now msg tag st).0.memory ≡ lookup j st.memory
  unfolding on_delete
  on_delete-other msg wireguard j st ne = delete_wg-other msg msg.wg j st ne
  on_delete-other msg hysteria2 j st ne = refl
  on_delete-other msg mtproto j st ne = refl
  on_delete-other msg vless_tcp_reality j st ne = delete_user-other msg j st ne
  on_delete-other msg vless_grpc_reality j st ne = delete_user-other msg j st ne
  on_delete-other msg vless_xhttp_reality j st ne = delete_user-other msg j st ne
  on_delete-other msg vmess j st ne = delete_user-other msg j st ne
  on_delete-other msg shadowsocks j st ne = delete_user-other msg j st ne

  -- A message, whether it fails or not, leaves every connection but its own as it was.
  pub handle_message-other :
      (msg : Message) (j : Uuid) (st : NodeState)
      → nat_eqb msg.conn_id j ≡ false
      → lookup j (handle_message c now msg st).0.memory ≡ lookup j st.memory
  unfolding handle_message on_action
  handle_message-other msg j st ne = other msg.action
    where
      other :
          (action : Action) → lookup j (on_action c now msg action st).0.memory ≡ lookup j st.memory
      other create = on_create-other msg msg.tag j st ne
      other update = on_create-other msg msg.tag j st ne
      other delete = on_delete-other msg msg.tag j st ne
      other reset_stat = refl
