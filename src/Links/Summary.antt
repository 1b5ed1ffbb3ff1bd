-- ===== src/Links/Summary.antt =====
-- src/bin/api/http/handlers/subscription.rs: the summary of a subscription. The set of the
-- environments is a list without repetition, in an arbitrary order in the program.
pub mod Flags
use pony.Prelude.{
  ℕ, Bool, true, false, not, ◌&&◌, ◌||◌, List, [], ◌∷◌, Option, none, some, nat_eq, if◌then◌else◌,
  any, ◌==◌,
}
use pony.Prelude.Int.{ℤ, pos}
use pony.Prelude.Map.{Map, lookup}
use pony.Prelude.Text.{Text}
use pony.Env.{Env, env_eq}
use pony.Tag.{
  ProtoTag, vless_tcp_reality, vless_grpc_reality, vless_xhttp_reality, vmess, wireguard, hysteria2,
  mtproto, tag_eqb,
}
use pony.Subscription.{Uuid, DateTime, Chrono, Subscription, days_remaining, refer_code_of}
use pony.Subscriptions.{count_invited_by}
use pony.Connection.{proto_tag, Conn}
use pony.Connections.{get_by_subscription_id}
use pony.Node.{Node, values}
use pony.Nodes.{Nodes, get_by_env}
use pony.Sync.World.{World}

-- src/http/response.rs
pub record EnvInfo : Type 0 where
  pub env : Env
  pub has_xray : Bool
  pub has_h2 : Bool
  pub has_mtproto : Bool
  pub has_wg : Bool

pub record SubscriptionResponse : Type 0 where
  pub id : Uuid
  pub expires : DateTime
  pub days : ℤ
  pub ref_code : Text
  pub invited_count : ℕ
  pub locations : List EnvInfo
  pub downlink : ℤ
  pub limit_bytes : ℤ

abbrev pub xray_tags : List ProtoTag
xray_tags = vless_grpc_reality ∷ vless_tcp_reality ∷ vless_xhttp_reality ∷ vmess ∷ []

-- `tags.contains(&tag)`
abbrev pub contains : List ProtoTag → ProtoTag → Bool
contains tags tag = any (λ g. tag_eqb g tag) tags

-- `collect` into a set
unfoldable pub active_envs : List (Uuid × Conn) → List Env
active_envs [] = []
active_envs ((id, conn) ∷ conns) =
    let rest = active_envs conns in
    if conn.is_deleted || any (λ e. e == conn.env) rest then rest else conn.env ∷ rest

-- A node of the environment has an inbound with one of the tags.
unfoldable pub node_exists : List ProtoTag → Option (List Node) → Bool
node_exists tags none = false
node_exists tags (some ns) = any (λ n. any (λ i. contains tags i.tag) (values n.inbounds)) ns

-- A live connection of the environment has one of the tags.
unfoldable pub conn_exists : List ProtoTag → Env → List (Uuid × Conn) → Bool
conn_exists tags env conns =
    any (λ e. not e.1.is_deleted && e.1.env == env && contains tags (proto_tag e.1.proto)) conns

unfoldable pub has_tag : List ProtoTag → Nodes → List (Uuid × Conn) → Env → Bool
has_tag tags nodes conns env = node_exists tags (get_by_env env nodes) && conn_exists tags env conns

unfoldable pub env_info : Nodes → List (Uuid × Conn) → Env → EnvInfo
env_info nodes conns env = record {
  env = env;
  has_xray = has_tag xray_tags nodes conns env;
  has_h2 = has_tag (hysteria2 ∷ []) nodes conns env;
  has_mtproto = has_tag (mtproto ∷ []) nodes conns env;
  has_wg = has_tag (wireguard ∷ []) nodes conns env;
}

unfoldable pub env_infos : Nodes → List (Uuid × Conn) → List Env → List EnvInfo
env_infos nodes conns [] = []
env_infos nodes conns (env ∷ envs) = env_info nodes conns env ∷ env_infos nodes conns envs

unfoldable pub locations_of : Nodes → Option (List (Uuid × Conn)) → List EnvInfo
locations_of nodes none = []
locations_of nodes (some conns) = env_infos nodes conns (active_envs conns)

abbrev pub or_default : {A : Type 0} → A → Option A → A
or_default d none = d
or_default d (some a) = a

-- `none` is the reply that the subscription is not found; `epoch` is `DateTime::default()`.
unfoldable pub get_subscription_info_json :
    Chrono → DateTime → DateTime → Uuid → World → Option SubscriptionResponse
get_subscription_info_json chrono epoch now id w = elim (lookup id w.cache.subscriptions) [
  | none ↦ none
  | some sub ↦ some (record {
    id = sub.id;
    expires = or_default epoch sub.expires_at;
    days = or_default (pos 0) (days_remaining chrono now sub);
    ref_code = refer_code_of sub;
    invited_count = count_invited_by (refer_code_of sub) w.cache.subscriptions;
    locations = locations_of w.cache.nodes (get_by_subscription_id id w.cache.connections);
    downlink = pos 0;
    limit_bytes = or_default (pos 0) sub.limit_bytes;
  })
]
