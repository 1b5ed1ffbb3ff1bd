-- ===== src/NodeService/Failures.antt =====
-- What a message that fails leaves behind on a node.
use pony.Prelude.{◌≡◌, refl, false, Option, none, some, arith, nat_eq}
use pony.Prelude.Map.{lookup, lookup-insert}
use pony.Prelude.Text.{Text}
use pony.Tag.{
  ProtoTag, vless_tcp_reality, vless_grpc_reality, vless_xhttp_reality, vmess, shadowsocks,
  wireguard, hysteria2, mtproto, tag_eqb,
}
use pony.Subscription.{DateTime}
use pony.Connection.{
  WgParam, Proto, wg, ss, xray, new_base, base_ops, Action, create, update, delete, reset_stat,
  Message,
}
use pony.Connections.{add}
use pony.NodeService.{
  Clients, NodeState, NodeError, failed, stored, create_peer, create_wg, create_user, create_ss,
  on_create, delete_peer, delete_wg, delete_user, on_delete, on_action, handle_message,
}

module _ (c : Clients) (now : DateTime) where
  create_user-failed :
      (msg : Message) (proto : Proto) (password : Option Text) (st : NodeState) (e : NodeError)
      → (create_user c now msg proto password st).1 ≡ failed e
      → (create_user c now msg proto password st).0 ≡ st
  unfolding create_user
  create_user-failed msg proto password st e h = ground (arith, h)

  delete_user-failed :
      (msg : Message) (st : NodeState) (e : NodeError)
      → (delete_user c now msg st).1 ≡ failed e
      → (delete_user c now msg st).0 ≡ st
  unfolding delete_user
  delete_user-failed msg st e h = ground (arith, h)

  delete_wg-failed :
      (msg : Message) (param : Option WgParam) (st : NodeState) (e : NodeError)
      → (delete_wg c now msg param st).1 ≡ failed e
      → (delete_wg c now msg param st).0 ≡ st
  unfolding delete_wg delete_peer
  delete_wg-failed msg none st e h = ground (arith, h)
  delete_wg-failed msg (some param) st e h = ground (arith, h)

  create_ss-failed :
      (msg : Message) (password : Option Text) (st : NodeState) (e : NodeError)
      → (create_ss c now msg password st).1 ≡ failed e
      → (create_ss c now msg password st).0 ≡ st
  unfolding create_ss
  create_ss-failed msg none st e h = refl
  create_ss-failed msg (some password) st e h =
      create_user-failed msg (ss password) (some password) st e h

  on_create-failed :
      (msg : Message) (tag : ProtoTag) (st : NodeState) (e : NodeError)
      → tag_eqb tag wireguard ≡ false
      → (on_create c now msg tag st).1 ≡ failed e
      → (on_create c now msg tag st).0 ≡ st
  unfolding on_create
  on_create-failed msg wireguard st e ne h = ground (arith, ne)
  on_create-failed msg vless_tcp_reality st e ne h =
      create_user-failed msg (xray msg.tag) none st e h
  on_create-failed msg vless_grpc_reality st e ne h =
      create_user-failed msg (xray msg.tag) none st e h
  on_create-failed msg vless_xhttp_reality st e ne h =
      create_user-failed msg (xray msg.tag) none st e h
  on_create-failed msg vmess st e ne h = create_user-failed msg (xray msg.tag) none st e h
  on_create-failed msg shadowsocks st e ne h = create_ss-failed msg msg.password st e h
  on_create-failed msg hysteria2 st e ne h = refl
  on_create-failed msg mtproto st e ne h = refl

  on_delete-failed :
      (msg : Message) (tag : ProtoTag) (st : NodeState) (e : NodeError)
      → (on_delete c now msg tag st).1 ≡ failed e
      → (on_delete c now msg tag st).0 ≡ st
  unfolding on_delete
  on_delete-failed msg wireguard st e h = delete_wg-failed msg msg.wg st e h
  on_delete-failed msg hysteria2 st e h = refl
  on_delete-failed msg mtproto st e h = refl
  on_delete-failed msg vless_tcp_reality st e h = delete_user-failed msg st e h
  on_delete-failed msg vless_grpc_reality st e h = delete_user-failed msg st e h
  on_delete-failed msg vless_xhttp_reality st e h = delete_user-failed msg st e h
  on_delete-failed msg vmess st e h = delete_user-failed msg st e h
  on_delete-failed msg shadowsocks st e h = delete_user-failed msg st e h

  on_action-failed :
      (msg : Message) (action : Action) (st : NodeState) (e : NodeError)
      → tag_eqb msg.tag wireguard ≡ false
      → (on_action c now msg action st).1 ≡ failed e
      → (on_action c now msg action st).0 ≡ st
  unfolding on_action
  on_action-failed msg create st e ne h = on_create-failed msg msg.tag st e ne h
  on_action-failed msg update st e ne h = on_create-failed msg msg.tag st e ne h
  on_action-failed msg delete st e ne h = on_delete-failed msg msg.tag st e h
  on_action-failed msg reset_stat st e ne h = ground (arith, h)

  -- A message about a protocol other than WireGuard that fails changes nothing: neither the memory
  -- of the node nor its clients.
  pub handle_message-failed :
      (msg : Message) (st : NodeState) (e : NodeError)
      → tag_eqb msg.tag wireguard ≡ false
      → (handle_message c now msg st).1 ≡ failed e
      → (handle_message c now msg st).0 ≡ st
  unfolding handle_message
  handle_message-failed msg st e ne h = on_action-failed msg msg.action st e ne h

  -- With WireGuard the connection is stored even if its peer cannot be created: after a create
  -- message with keys, about a uuid that is not in the memory, the memory has the connection,
  -- whatever the clients reply.
  pub handle_message-wg_stored :
      (msg : Message) (param : WgParam) (st : NodeState)
      → msg.action ≡ create
      → msg.tag ≡ wireguard
      → msg.wg ≡ some param
      → lookup msg.conn_id st.memory ≡ none
      → lookup msg.conn_id (handle_message c now msg st).0.memory
        ≡ some (new_base now (wg param) msg.expires_at msg.subscription_id)
  unfolding handle_message on_action on_create create_wg create_peer add
  handle_message-wg_stored msg param st a t k free =
      let fresh : lookup msg.conn_id (stored now msg (wg param) st).memory
          ≡ some (new_base now (wg param) msg.expires_at msg.subscription_id) =
        ground (
          arith,
          lookup-insert msg.conn_id msg.conn_id
              (new_base now (wg param) msg.expires_at msg.subscription_id) st.memory,
        ) in
      rw (handle_message, on_action, a, on_create, t, create_wg, k) (ground (arith, fresh))
