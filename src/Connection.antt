-- ===== src/Connection.antt =====
-- src/memory/connection/: the protocols, the connections of the API (`Conn`) and of the nodes and
-- the authentication service (`Base`), and the messages that announce them (src/zmq/message.rs).
pub mod Update
use pony.Prelude.{
  ℕ, ◌≡◌, ◌↔◌, refl, Bool, true, false, not, ◌&&◌, ◌||◌, Option, none, some, arith, nat_eqb,
  nat_eqb_iff, option_eqb, list_eqb, list_eqb_iff, list_eq, nat_eq, if◌then◌else◌, PartialEq, ◌==◌,
}
use pony.Prelude.Text.{Text}
use pony.Env.{Env, env_eq}
use pony.Tag.{
  ProtoTag, vless_tcp_reality, vless_grpc_reality, vless_xhttp_reality, vmess, shadowsocks,
  wireguard, hysteria2, mtproto, tag_eqb, tag_eqb_iff, tag_eq,
}
use pony.Wireguard.{IpAddr, v4, v6, IpAddrMask}
use pony.Subscription.{Uuid, DateTime, bool_eqb}

pub record WgParam : Type 0 where
  pub privkey : Text
  pub address : IpAddrMask

pub data Proto : Type 0 where
  wg : WgParam → Proto
  ss : Text → Proto
  xray : ProtoTag → Proto
  h2 : Uuid → Proto
  mt : Text → Proto

-- `Proto::proto`
unfoldable pub proto_tag : Proto → ProtoTag
proto_tag (wg param) = wireguard
proto_tag (ss password) = shadowsocks
proto_tag (h2 token) = hysteria2
proto_tag (xray tag) = tag
proto_tag (mt secret) = mtproto

unfoldable pub is_mtproto : Proto → Bool
is_mtproto (mt secret) = true
is_mtproto _ = false

unfoldable pub proto_password : Proto → Option Text
proto_password (ss password) = some password
proto_password _ = none

unfoldable pub proto_token : Proto → Option Uuid
proto_token (h2 token) = some token
proto_token _ = none

unfoldable pub proto_wireguard : Proto → Option WgParam
proto_wireguard (wg param) = some param
proto_wireguard _ = none

-- The derived `PartialEq` of addresses, keys and protocols.
abbrev pub addr_eqb : IpAddr → IpAddr → Bool
addr_eqb (v4 a) (v4 b) = nat_eqb a b
addr_eqb (v6 a) (v6 b) = nat_eqb a b
addr_eqb _ _ = false

abbrev pub param_eqb : WgParam → WgParam → Bool
param_eqb a b =
    list_eqb a.privkey b.privkey
    && addr_eqb a.address.address b.address.address
    && nat_eqb a.address.cidr b.address.cidr

abbrev pub proto_eqb : Proto → Proto → Bool
proto_eqb (wg a) (wg b) = param_eqb a b
proto_eqb (ss a) (ss b) = list_eqb a b
proto_eqb (xray a) (xray b) = tag_eqb a b
proto_eqb (h2 a) (h2 b) = nat_eqb a b
proto_eqb (mt a) (mt b) = list_eqb a b
proto_eqb _ _ = false

addr_eqb_iff : (a b : IpAddr) → (addr_eqb a b ≡ true) ↔ (a ≡ b)
addr_eqb_iff a b = ground arith

param_eqb_iff : (a b : WgParam) → (param_eqb a b ≡ true) ↔ (a ≡ b)
param_eqb_iff a b =
    ground
      (arith, list_eqb_iff a.privkey b.privkey, addr_eqb_iff a.address.address b.address.address)

pub proto_eqb_iff : (a b : Proto) → (proto_eqb a b ≡ true) ↔ (a ≡ b)
proto_eqb_iff (wg a) (wg b) = ground (arith, param_eqb_iff a b)
proto_eqb_iff (ss a) (ss b) = ground (arith, list_eqb_iff a b)
proto_eqb_iff (xray a) (xray b) = ground (arith, tag_eqb_iff a b)
proto_eqb_iff (mt a) (mt b) = ground (arith, list_eqb_iff a b)
proto_eqb_iff a b = ground arith

instance abbrev pub proto_eq : PartialEq Proto
proto_eq = record { eqb = proto_eqb; eqb_iff = proto_eqb_iff }

pub record Conn : Type 0 where
  pub env : Env
  pub proto : Proto
  pub subscription_id : Option Uuid
  pub created_at : DateTime
  pub modified_at : DateTime
  pub expires_at : Option DateTime
  pub is_deleted : Bool

-- `Conn::new`
unfoldable pub new_conn : DateTime → Env → Option Uuid → Proto → Option DateTime → Conn
new_conn now env subscription_id proto expires_at = record {
  env = env;
  proto = proto;
  subscription_id = subscription_id;
  created_at = now;
  modified_at = now;
  expires_at = expires_at;
  is_deleted = false;
}

-- `PartialEq for Conn`, which leaves the times out.
unfoldable pub conn_eqb : Conn → Conn → Bool
conn_eqb a b =
    option_eqb a.subscription_id b.subscription_id
    && proto_eqb a.proto b.proto
    && bool_eqb a.is_deleted b.is_deleted
    && a.env == b.env
    && bool_eqb a.is_deleted b.is_deleted

pub record Base : Type 0 where
  pub created_at : DateTime
  pub modified_at : DateTime
  pub expires_at : Option DateTime
  pub proto : Proto
  pub subscription_id : Option Uuid
  pub is_deleted : Bool

-- `Base::new`
unfoldable pub new_base : DateTime → Proto → Option DateTime → Option Uuid → Base
new_base now proto expires_at sub_id = record {
  created_at = now;
  modified_at = now;
  expires_at = expires_at;
  proto = proto;
  subscription_id = sub_id;
  is_deleted = false;
}

-- `From<Conn> for Base`
pub base_of_conn : Conn → Base
base_of_conn conn = record {
  created_at = conn.created_at;
  modified_at = conn.modified_at;
  expires_at = conn.expires_at;
  proto = conn.proto;
  subscription_id = conn.subscription_id;
  is_deleted = conn.is_deleted;
}

-- The trait of `operation/base.rs`, as far as the stores use it.
pub record BaseOps (C : Type 0) : Type 0 where
  pub get_proto : C → Proto

instance abbrev pub conn_ops : BaseOps Conn
conn_ops = record { get_proto = λ c. c.proto }

instance abbrev pub base_ops : BaseOps Base
base_ops = record { get_proto = λ c. c.proto }

-- `set_password`: `none` is the error, which leaves the connection alone.
set_proto_password : Proto → Option Text → Option Proto
set_proto_password (ss old) (some new) = some (ss new)
set_proto_password _ _ = none

pub set_password : Option Text → Conn → Option Conn
unfolding set_proto_password
set_password password c = elim (set_proto_password c.proto password) [
  | none ↦ none
  | some p ↦ some (record c { proto = p })
]

-- `set_deleted` followed by `set_modified_at`
unfoldable pub mark : DateTime → Bool → Conn → Conn
mark now deleted c = record c { is_deleted = deleted; modified_at = now }

pub data Action : Type 0 where
  create update delete reset_stat : Action

pub record Message : Type 0 where
  pub conn_id : Uuid
  pub action : Action
  pub tag : ProtoTag
  pub wg : Option WgParam
  pub password : Option Text
  pub token : Option Uuid
  pub expires_at : Option DateTime
  pub subscription_id : Option Uuid

as_message : Action → Uuid → Conn → Message
as_message action conn_id c = record {
  conn_id = conn_id;
  action = action;
  tag = proto_tag c.proto;
  wg = proto_wireguard c.proto;
  password = proto_password c.proto;
  token = proto_token c.proto;
  expires_at = c.expires_at;
  subscription_id = c.subscription_id;
}

unfoldable pub as_create_message : Uuid → Conn → Message
unfolding as_message
as_create_message conn_id c = as_message create conn_id c

unfoldable pub as_update_message : Uuid → Conn → Message
unfolding as_message
as_update_message conn_id c = as_message update conn_id c

unfoldable pub as_delete_message : Uuid → Conn → Message
unfolding as_message
as_delete_message conn_id c = as_message delete conn_id c

pub record ConnPatch : Type 0 where
  pub env : Option Env
  pub proto : Option Proto
  pub subscription_id : Option Uuid
  pub created_at : Option DateTime
  pub modified_at : Option DateTime
  pub expires_at : Option DateTime
  pub is_deleted : Option Bool
