-- ===== src/NodeService.antt =====
-- src/bin/node/tasks.rs: what a node does with the messages of the API, built with Xray and
-- WireGuard. Its state is the memory of its connections, and the calls of Xray and WireGuard that
-- went through, in order; `Clients` says which calls do. The texts of the errors are left out.
pub mod Messages
pub mod Failures
pub mod Delivery
use pony.Prelude.{
  ℕ, Bool, true, false, List, [], ◌∷◌, ◌++◌, Option, none, some, nat_eq, if◌then◌else◌,
}
use pony.Prelude.Map.{Map}
use pony.Prelude.Text.{Text}
use pony.Tag.{
  ProtoTag, vless_tcp_reality, vless_grpc_reality, vless_xhttp_reality, vmess, shadowsocks,
  wireguard, hysteria2, mtproto,
}
use pony.Wireguard.{IpAddrMask}
use pony.Env.{Env, env_eq}
use pony.Subscription.{Uuid, DateTime}
use pony.Connection.{
  WgParam, Proto, wg, ss, xray, Base, new_base, base_ops, Action, create, update, delete,
  reset_stat, Message,
}
use pony.Connections.{add, remove_conn}

pub data Call : Type 0 where
  user_created : Uuid → ProtoTag → Option Text → Call
  user_removed : Uuid → ProtoTag → Option Text → Call
  peer_created : Text → IpAddrMask → Call
  peer_deleted : Text → Call
  stat_reset : Uuid → Call

-- `wg_client` and `handler_client`, if the node has them, and what they reply. `pubkey` derives
-- the public key of a private one (x25519).
pub record Clients : Type 0 where
  pub has_wg : Bool
  pub has_xray : Bool
  pub pubkey : Text → Option Text
  pub is_exist : Text → Bool
  pub wg_create : Text → IpAddrMask → Bool
  pub wg_delete : Text → Bool
  pub xray_create : Uuid → ProtoTag → Option Text → Bool
  pub xray_remove : Uuid → ProtoTag → Option Text → Bool

pub record NodeState : Type 0 where
  pub memory : Map Uuid Base
  pub calls : List Call

pub data NodeError : Type 0 where
  missing_keys wg_unavailable wg_exists wg_failed bad_key xray_unavailable xray_failed : NodeError
  no_password unsupported : NodeError

pub data NodeResult : Type 0 where
  handled : NodeResult
  failed : NodeError → NodeResult

abbrev called : Call → NodeState → NodeState
called c st = record st { calls = st.calls ++ c ∷ [] }

abbrev stored : DateTime → Message → Proto → NodeState → NodeState
stored now msg proto st = record st {
  memory = (add msg.conn_id (new_base now proto msg.expires_at msg.subscription_id) st.memory).0;
}

abbrev forgotten : Uuid → NodeState → NodeState
forgotten conn_id st = record st { memory = (remove_conn conn_id st.memory).0 }

module _ (c : Clients) (now : DateTime) where
  -- The connection is stored first, the peer is created afterwards.
  unfoldable pub create_peer : WgParam → Option Text → NodeState → NodeState × NodeResult
  create_peer param none st = (st, handled)
  create_peer param (some pubkey) st =
      if c.is_exist pubkey
      then (st, failed wg_exists)
      else if c.wg_create pubkey param.address
      then (called (peer_created pubkey param.address) st, handled)
      else (st, failed wg_failed)

  unfoldable pub create_wg : Message → Option WgParam → NodeState → NodeState × NodeResult
  create_wg msg none st = (st, failed missing_keys)
  create_wg msg (some param) st =
      let st' = stored now msg (wg param) st in
      if c.has_wg
      then create_peer param (c.pubkey param.privkey) st'
      else (st', failed wg_unavailable)

  -- The user is created first, the connection is stored afterwards.
  unfoldable pub create_user : Message → Proto → Option Text → NodeState → NodeState × NodeResult
  create_user msg proto password st =
      if c.has_xray
      then (if c.xray_create msg.conn_id msg.tag password
          then (
            stored now msg proto (called (user_created msg.conn_id msg.tag password) st),
            handled,
          )
          else (st, failed xray_failed))
      else (st, failed xray_unavailable)

  unfoldable pub create_ss : Message → Option Text → NodeState → NodeState × NodeResult
  create_ss msg none st = (st, failed no_password)
  create_ss msg (some password) st = create_user msg (ss password) (some password) st

  unfoldable pub on_create : Message → ProtoTag → NodeState → NodeState × NodeResult
  on_create msg wireguard st = create_wg msg msg.wg st
  on_create msg vless_tcp_reality st = create_user msg (xray msg.tag) none st
  on_create msg vless_grpc_reality st = create_user msg (xray msg.tag) none st
  on_create msg vless_xhttp_reality st = create_user msg (xray msg.tag) none st
  on_create msg vmess st = create_user msg (xray msg.tag) none st
  on_create msg shadowsocks st = create_ss msg msg.password st
  on_create msg hysteria2 st = (st, failed unsupported)
  on_create msg mtproto st = (st, failed unsupported)

  unfoldable pub delete_peer : Message → Option Text → NodeState → NodeState × NodeResult
  delete_peer msg none st = (st, failed bad_key)
  delete_peer msg (some pubkey) st =
      if c.wg_delete pubkey
      then (forgotten msg.conn_id (called (peer_deleted pubkey) st), handled)
      else (st, failed wg_failed)

  unfoldable pub delete_wg : Message → Option WgParam → NodeState → NodeState × NodeResult
  delete_wg msg param st =
      if c.has_wg
      then elim param [
        | none ↦ (st, failed missing_keys)
        | some p ↦ delete_peer msg (c.pubkey p.privkey) st
      ]
      else (st, failed wg_unavailable)

  unfoldable pub delete_user : Message → NodeState → NodeState × NodeResult
  delete_user msg st =
      if c.has_xray
      then (if c.xray_remove msg.conn_id msg.tag msg.password
          then (
            forgotten msg.conn_id (called (user_removed msg.conn_id msg.tag msg.password) st),
            handled,
          )
          else (st, failed xray_failed))
      else (st, failed xray_unavailable)

  unfoldable pub on_delete : Message → ProtoTag → NodeState → NodeState × NodeResult
  on_delete msg wireguard st = delete_wg msg msg.wg st
  on_delete msg vless_tcp_reality st = delete_user msg st
  on_delete msg vless_grpc_reality st = delete_user msg st
  on_delete msg vless_xhttp_reality st = delete_user msg st
  on_delete msg vmess st = delete_user msg st
  on_delete msg shadowsocks st = delete_user msg st
  on_delete msg hysteria2 st = (st, failed unsupported)
  on_delete msg mtproto st = (st, failed unsupported)

  -- `reset` replies `Ok` whatever Xray does.
  unfoldable pub on_action : Message → Action → NodeState → NodeState × NodeResult
  on_action msg create st = on_create msg msg.tag st
  on_action msg update st = on_create msg msg.tag st
  on_action msg delete st = on_delete msg msg.tag st
  on_action msg reset_stat st = (called (stat_reset msg.conn_id) st, handled)

  unfoldable pub handle_message : Message → NodeState → NodeState × NodeResult
  handle_message msg st = on_action msg msg.action st
