-- ===== src/Node.antt =====
-- src/memory/node.rs: a node, with its status, its type and its inbounds. `Node::new` is in
-- Node/Start.
pub mod Start
use pony.Prelude.{
  ℕ, Bool, true, false, ◌&&◌, List, [], ◌∷◌, Option, none, some, nat_eqb, nat_eq, list_eq,
  if◌then◌else◌, find, ◌==◌,
}
use pony.Prelude.Int.{ℤ, int_eqb}
use pony.Prelude.Map.{Map, lookup, adjust}
use pony.Prelude.Text.{Text, codes}
use pony.Subscription.{Uuid, DateTime}
use pony.Env.{Env, as_str, env_eqb}
use pony.Tag.{ProtoTag, tag_eqb, tag_eq}
use pony.Inbound.{Inbound, map_eqb, inbound_eqb}

pub data NodeStatus : Type 0 where
  online offline : NodeStatus

abbrev pub status_eqb : NodeStatus → NodeStatus → Bool
status_eqb online online = true
status_eqb offline offline = true
status_eqb _ _ = false

unfoldable pub display_status : NodeStatus → Text
display_status online = codes "Online"
display_status offline = codes "Offline"

unfoldable pub status_from_str : Text → NodeStatus
status_from_str input =
    if input == codes "Online"
    then online
    else if input == codes "Offline"
    then offline
    else offline

pub data NodeType : Type 0 where
  common premium service agent : NodeType

abbrev type_eqb : NodeType → NodeType → Bool
type_eqb common common = true
type_eqb premium premium = true
type_eqb service service = true
type_eqb agent agent = true
type_eqb _ _ = false

unfoldable pub display_type : NodeType → Text
display_type common = codes "Common"
display_type premium = codes "Premium"
display_type service = codes "Service"
display_type agent = codes "Agent"

unfoldable pub type_from_str : Text → NodeType
type_from_str input =
    if input == codes "Common"
    then common
    else if input == codes "Premium"
    then premium
    else if input == codes "Service"
    then service
    else if input == codes "Agent"
    then agent
    else common

pub record Node : Type 0 where
  pub uuid : Uuid
  pub env : Env
  pub hostname : Text
  pub address : ℕ
  pub status : NodeStatus
  pub label : Text
  pub interface : Text
  pub created_at : DateTime
  pub modified_at : DateTime
  pub inbounds : Map ProtoTag Inbound
  pub cores : ℕ
  pub max_bandwidth_bps : ℤ
  pub country : Text
  pub type : NodeType

-- The derived `PartialEq`.
unfoldable pub node_eqb : Node → Node → Bool
unfolding inbound_eqb
node_eqb a b =
    nat_eqb a.uuid b.uuid
    && env_eqb a.env b.env
    && a.hostname == b.hostname
    && nat_eqb a.address b.address
    && status_eqb a.status b.status
    && a.label == b.label
    && a.interface == b.interface
    && nat_eqb a.created_at b.created_at
    && nat_eqb a.modified_at b.modified_at
    && map_eqb inbound_eqb a.inbounds b.inbounds
    && nat_eqb a.cores b.cores
    && int_eqb a.max_bandwidth_bps b.max_bandwidth_bps
    && a.country == b.country
    && type_eqb a.type b.type

pub record NodeMetricInfo : Type 0 where
  pub key : Text
  pub name : Text
  pub tags : List (Text × Text)

pub record NodeResponse : Type 0 where
  pub uuid : Uuid
  pub env : Text
  pub hostname : Text
  pub interface : Text
  pub address : ℕ
  pub inbounds : List ProtoTag
  pub status : NodeStatus
  pub label : Text
  pub cores : ℕ
  pub max_bandwidth_bps : ℤ
  pub metrics : List NodeMetricInfo
  pub country : Text
  pub type : NodeType

-- `inbounds.keys()`
abbrev pub keys : {K V : Type 0} → Map K V → List K
keys [] = []
keys ((k, v) ∷ m) = k ∷ keys m

pub as_node_response : Node → NodeResponse
unfolding as_str
as_node_response n = record {
  env = as_str n.env;
  hostname = n.hostname;
  interface = n.interface;
  address = n.address;
  uuid = n.uuid;
  inbounds = keys n.inbounds;
  status = n.status;
  label = n.label;
  cores = n.cores;
  max_bandwidth_bps = n.max_bandwidth_bps;
  metrics = [];
  country = n.country;
  type = n.type;
}

unfoldable pub update_status : NodeStatus → Node → Node
update_status new_status n = record n { status = new_status }

-- `if let Some(inbound) = self.inbounds.get_mut(tag)`: the node afterwards, or none for the error
-- "Inbound not found". `f` is one of the updates of the inbound.
unfoldable pub update_inbound : ProtoTag → (Inbound → Inbound) → Node → Option Node
update_inbound tag f n = elim (lookup tag n.inbounds) [
  | some _ ↦ some (record n { inbounds = adjust tag f n.inbounds })
  | none ↦ none
]

abbrev pub values : {K V : Type 0} → Map K V → List V
values [] = []
values ((k, v) ∷ m) = v ∷ values m

unfoldable pub inbound : ProtoTag → Node → Option Inbound
inbound tag n = find (λ i. tag_eqb i.tag tag) (values n.inbounds)
