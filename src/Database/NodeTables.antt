-- ===== src/Database/NodeTables.antt =====
-- src/bin/api/postgres/node.rs: the tables of the nodes and of their inbounds. JSON (serde_json) is
-- the parameter `Json`, over the values `J` of a JSONB column; writing these values to JSON does not fail. The inbounds of a node are
-- those with its id, by their tags, since both together are unique in the table.
pub mod Inbounds
pub mod Stored
use pony.Prelude.{
  ℕ, ◌-◌, ◌*◌, ◌%◌, ◌^◌, Bool, true, false, not, ◌&&◌, List, [], ◌∷◌, Option, none, some, ltb,
  nat_eqb, nat_eq, list_eq, if◌then◌else◌, any, ◌==◌,
}
use pony.Prelude.Int.{ℤ, pos, negsuc}
use pony.Prelude.Map.{Map, lookup, insert, get_or_default}
use pony.Prelude.Text.{Text, Unicode}
use pony.Env.{as_str, from_text}
use pony.Tag.{ProtoTag, tag_eq}
use pony.Wireguard
use pony.Wireguard.{IpAddr, v4, v6, IpAddrMask, AddrText}
use pony.Subscription.{Uuid, DateTime}
use pony.Inbound.{StreamSettings, WireguardSettings, H2Settings, Inbound}
use pony.Node.{Node, NodeStatus, NodeType, values}
use pony.Database.Times.{Columns}

pub record Json (J : Type 0) : Type 0 where
  pub write_stream : Option StreamSettings → J
  pub read_stream : J → Option StreamSettings
  pub write_h2 : Option H2Settings → J
  pub read_h2 : J → Option H2Settings

-- A row of the inbounds, without the node's id and the tag.
pub record InboundColumns (J : Type 0) : Type 0 where
  pub port : ℕ
  pub stream_settings : Option J
  pub uplink : Option ℤ
  pub downlink : Option ℤ
  pub conn_count : Option ℤ
  pub wg_privkey : Option Text
  pub wg_interface : Option Text
  pub wg_address : Option Text
  pub dns : Option (List IpAddr)
  pub h2 : Option J
  pub mtproto_secret : Option Text

-- A row of the nodes, without its primary key.
pub record NodeColumns : Type 0 where
  pub uuid : Uuid
  pub env : Text
  pub hostname : Text
  pub address : IpAddr
  pub status : NodeStatus
  pub created_at : DateTime
  pub modified_at : DateTime
  pub label : Text
  pub interface : Text
  pub cores : ℤ
  pub max_bandwidth_bps : ℤ
  pub country : Text
  pub node_type : NodeType

pub record NodeTables (J : Type 0) : Type 0 where
  pub nodes : Map Uuid NodeColumns
  pub inbounds : Map Uuid (Map ProtoTag (InboundColumns J))

-- `as i32` of a usize, and `as usize` of an i32.
abbrev pub as_i32 : ℕ → ℤ
as_i32 n =
    if ltb (n % 4294967296) 2147483648
    then pos (n % 4294967296)
    else negsuc (4294967295 - n % 4294967296)

abbrev pub as_usize : ℤ → ℕ
as_usize (pos n) = n
as_usize (negsuc n) = 18446744073709551615 - n

abbrev pub option_map : {A B : Type 0} → (A → B) → Option A → Option B
option_map f none = none
option_map f (some a) = some (f a)

abbrev pub all_v4 : List ℕ → List IpAddr
all_v4 [] = []
all_v4 (ip ∷ ips) = v4 ip ∷ all_v4 ips

-- `filter_map`
abbrev pub only_v4 : List IpAddr → List ℕ
only_v4 [] = []
only_v4 (v4 ip ∷ ips) = ip ∷ only_v4 ips
only_v4 (v6 ip ∷ ips) = only_v4 ips

module _ {J : Type 0} (cs : Columns) (t : AddrText) (json : Json J) where
  unfoldable pub columns_of_inbound : Inbound → (InboundColumns J)
  columns_of_inbound inbound = record {
    port = inbound.port;
    stream_settings = some (json.write_stream inbound.stream_settings);
    uplink = inbound.uplink;
    downlink = inbound.downlink;
    conn_count = inbound.conn_count;
    wg_privkey = option_map (λ w. w.privkey) inbound.wg;
    wg_interface = option_map (λ w. w.interface) inbound.wg;
    wg_address = option_map (λ w. Wireguard.display t w.address) inbound.wg;
    dns = option_map (λ w. all_v4 w.dns) inbound.wg;
    h2 = some (json.write_h2 inbound.h2);
    mtproto_secret = inbound.mtproto_secret;
  }

  -- The loop over the inbounds, each an INSERT ON CONFLICT (node_id, tag) DO UPDATE.
  unfoldable pub upsert_inbounds :
      List Inbound → Map ProtoTag (InboundColumns J) → Map ProtoTag (InboundColumns J)
  upsert_inbounds [] rows = rows
  upsert_inbounds (i ∷ inbounds) rows =
      upsert_inbounds inbounds (insert i.tag (columns_of_inbound i) rows)

  -- The values of the INSERT; the type is not among them.
  unfoldable pub columns_of_node : NodeType → Node → NodeColumns
  columns_of_node default_type node = record {
    uuid = node.uuid;
    env = as_str node.env;
    hostname = node.hostname;
    address = v4 node.address;
    status = node.status;
    created_at = cs.timestamp node.created_at;
    modified_at = cs.timestamp node.modified_at;
    label = node.label;
    interface = node.interface;
    cores = as_i32 node.cores;
    max_bandwidth_bps = node.max_bandwidth_bps;
    country = node.country;
    node_type = default_type;
  }

  -- ON CONFLICT (id) DO UPDATE, which leaves the creation time and the type.
  unfoldable pub upsert_columns : NodeType → Node → Option NodeColumns → NodeColumns
  unfolding columns_of_node
  upsert_columns default_type node none = columns_of_node default_type node
  upsert_columns default_type node (some old) = record (columns_of_node default_type node) {
    created_at = old.created_at;
    node_type = old.node_type;
  }

  -- UNIQUE (uuid, env): another row has them.
  abbrev pub is_same_node : Uuid → Node → Uuid × NodeColumns → Bool
  is_same_node node_id node e =
      not (nat_eqb e.0 node_id) && nat_eqb e.1.uuid node.uuid && e.1.env == as_str node.env

  -- The transaction; `none` is the violation of UNIQUE, which leaves the tables alone.
  unfoldable pub upsert_node : NodeType → Uuid → Node → (NodeTables J) → Option (NodeTables J)
  upsert_node default_type node_id node tables =
      if any (is_same_node node_id node) tables.nodes
      then none
      else some (record {
        nodes =
            insert node_id (upsert_columns default_type node (lookup node_id tables.nodes))
              tables.nodes;
        inbounds =
            insert node_id
              (upsert_inbounds (values node.inbounds) (get_or_default node_id [] tables.inbounds))
              tables.inbounds;
      })

  -- `match (wg_privkey, wg_interface, wg_address, dns)`
  unfoldable pub wg_settings :
      ℕ → Option Text → Option Text → Option IpAddrMask → Option (List ℕ) → Option WireguardSettings
  wg_settings port (some privkey) (some interface) (some address) (some dns) = some (record {
    privkey = privkey;
    interface = interface;
    address = address;
    port = port % 65536;
    dns = dns;
  })
  wg_settings port none _ _ _ = none
  wg_settings port (some privkey) none _ _ = none
  wg_settings port (some privkey) (some interface) none _ = none
  wg_settings port (some privkey) (some interface) (some address) none = none

  -- `row.get(…).and_then(…)`
  abbrev pub and_then : {A B : Type 0} → Option A → (A → Option B) → Option B
  and_then none f = none
  and_then (some a) f = f a

  unfoldable pub inbound_of_row : ProtoTag → (InboundColumns J) → Inbound
  inbound_of_row tag row = record {
    tag = tag;
    port = row.port % 65536;
    stream_settings = and_then row.stream_settings json.read_stream;
    uplink = row.uplink;
    downlink = row.downlink;
    conn_count = row.conn_count;
    wg =
        wg_settings row.port row.wg_privkey row.wg_interface
          (and_then row.wg_address (Wireguard.from_str t)) (option_map only_v4 row.dns);
    h2 = and_then row.h2 json.read_h2;
    mtproto_secret = row.mtproto_secret;
  }

  -- The rows of the LEFT JOIN for one node.
  unfoldable pub read_inbounds :
      Map ProtoTag (InboundColumns J) → Map ProtoTag Inbound → Map ProtoTag Inbound
  read_inbounds [] inbounds = inbounds
  read_inbounds ((tag, row) ∷ rows) inbounds =
      read_inbounds rows (insert tag (inbound_of_row tag row) inbounds)

  -- `if let IpAddr::V4(ipv4) = address`
  ipv4_of : IpAddr → Option ℕ
  ipv4_of (v4 ip) = some ip
  ipv4_of (v6 ip) = none

  unfoldable pub node_of_rows :
      Unicode → NodeColumns → Map ProtoTag (InboundColumns J) → Option Node
  unfolding ipv4_of
  node_of_rows u row inbounds = elim (ipv4_of row.address) [
    | none ↦ none
    | some ipv4 ↦ some (record {
      uuid = row.uuid;
      env = from_text u row.env;
      hostname = row.hostname;
      address = ipv4;
      interface = row.interface;
      status = row.status;
      created_at = row.created_at;
      modified_at = row.modified_at;
      label = row.label;
      inbounds = read_inbounds inbounds [];
      cores = as_usize row.cores;
      max_bandwidth_bps = row.max_bandwidth_bps;
      country = row.country;
      type = row.node_type;
    })
  ]

  unfoldable pub nodes_of_rows :
      Unicode → Map Uuid (Map ProtoTag (InboundColumns J)) → Map Uuid NodeColumns → List Node
  nodes_of_rows u inbounds [] = []
  nodes_of_rows u inbounds ((node_id, row) ∷ rows) =
      let rest = nodes_of_rows u inbounds rows in
      elim (node_of_rows u row (get_or_default node_id [] inbounds)) [
        | none ↦ rest
        | some node ↦ node ∷ rest
      ]

  unfoldable pub all_nodes : Unicode → (NodeTables J) → List Node
  all_nodes u tables = nodes_of_rows u tables.inbounds tables.nodes

  -- What is read for one id.
  unfoldable pub stored_node : Unicode → Uuid → (NodeTables J) → Option Node
  stored_node u node_id tables = elim (lookup node_id tables.nodes) [
    | none ↦ none
    | some row ↦ node_of_rows u row (get_or_default node_id [] tables.inbounds)
  ]

  -- `update_status`: of every row with the uuid and the environment.
  unfoldable pub update_status_rows :
      DateTime → Uuid → Text → NodeStatus → Map Uuid NodeColumns → Map Uuid NodeColumns
  update_status_rows now uuid env new_status [] = []
  update_status_rows now uuid env new_status ((id, row) ∷ rows) =
      let rest = update_status_rows now uuid env new_status rows in
      if nat_eqb row.uuid uuid && row.env == env
      then (id, record row { status = new_status; modified_at = cs.timestamp now }) ∷ rest
      else (id, row) ∷ rest
