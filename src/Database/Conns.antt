-- ===== src/Database/Conns.antt =====
-- src/bin/api/postgres/connection.rs: the table of the connections.
use pony.Prelude.{Bool, true, false, Option, none, some, List, [], ◌∷◌, nat_eq}
use pony.Prelude.Map.{Map, lookup, insert, adjust}
use pony.Prelude.Text.{Text, Unicode}
use pony.Env.{as_str, from_text}
use pony.Tag.{
  ProtoTag, vless_tcp_reality, vless_grpc_reality, vless_xhttp_reality, vmess, shadowsocks,
  wireguard, hysteria2, mtproto,
}
use pony.Wireguard
use pony.Wireguard.{AddrText}
use pony.Subscription.{Uuid, DateTime}
use pony.Connection.{
  WgParam, Proto, wg, ss, xray, h2, proto_tag, proto_password, proto_token, proto_wireguard, Conn,
}
use pony.Database.Times.{Columns, timestamps}

pub record ConnRow : Type 0 where
  pub conn_id : Uuid
  pub password : Option Text
  pub env : Text
  pub created_at : DateTime
  pub modified_at : DateTime
  pub expires_at : Option DateTime
  pub subscription_id : Option Uuid
  pub wg : Option WgParam
  pub proto : ProtoTag
  pub token : Option Uuid
  pub is_deleted : Bool

-- `From<(Uuid, Connection)> for ConnRow`
unfoldable pub row_of_conn : Uuid → Conn → ConnRow
row_of_conn conn_id conn = record {
  conn_id = conn_id;
  password = proto_password conn.proto;
  env = as_str conn.env;
  created_at = conn.created_at;
  modified_at = conn.modified_at;
  expires_at = conn.expires_at;
  subscription_id = conn.subscription_id;
  wg = proto_wireguard conn.proto;
  proto = proto_tag conn.proto;
  token = proto_token conn.proto;
  is_deleted = conn.is_deleted;
}

pub data RowError : Type 0 where
  missing_wireguard missing_password missing_token : RowError

pub data Read (A : Type 0) : Type 0 where
  read : A → Read A
  invalid : RowError → Read A

or_invalid : {A : Type 0} → RowError → (A → Proto) → Option A → Read Proto
or_invalid e f none = invalid e
or_invalid e f (some a) = read (f a)

-- `match row.proto`
unfoldable pub row_proto : ConnRow → ProtoTag → Read Proto
unfolding or_invalid
row_proto row wireguard = or_invalid missing_wireguard wg row.wg
row_proto row shadowsocks = or_invalid missing_password ss row.password
row_proto row hysteria2 = or_invalid missing_token h2 row.token
row_proto row vless_tcp_reality = read (xray vless_tcp_reality)
row_proto row vless_grpc_reality = read (xray vless_grpc_reality)
row_proto row vless_xhttp_reality = read (xray vless_xhttp_reality)
row_proto row vmess = read (xray vmess)
row_proto row mtproto = read (xray mtproto)

-- `TryFrom<ConnRow> for Connection`
unfoldable pub conn_of_row : Unicode → ConnRow → Read Conn
conn_of_row u row = elim (row_proto row row.proto) [
  | invalid e ↦ invalid e
  | read proto ↦ read (record {
    env = from_text u row.env;
    proto = proto;
    subscription_id = row.subscription_id;
    created_at = row.created_at;
    modified_at = row.modified_at;
    expires_at = row.expires_at;
    is_deleted = row.is_deleted;
  })
]

-- A row of the table, without its primary key.
pub record ConnColumns : Type 0 where
  pub password : Option Text
  pub token : Option Uuid
  pub env : Text
  pub created_at : DateTime
  pub modified_at : DateTime
  pub expires_at : Option DateTime
  pub subscription_id : Option Uuid
  pub proto : ProtoTag
  pub wg_privkey : Option Text
  pub wg_address : Option Text
  pub is_deleted : Bool

abbrev pub ConnTable : Type 0
ConnTable = Map Uuid ConnColumns

-- `match (wg_privkey, wg_address)`
unfoldable pub wg_of_columns : AddrText → Option Text → Option Text → Option WgParam
wg_of_columns t (some privkey) (some address) = elim (Wireguard.from_str t address) [
  | some ip_mask ↦ some (record { privkey = privkey; address = ip_mask })
  | none ↦ none
]
wg_of_columns t (some privkey) none = none
wg_of_columns t none address = none

-- The closure of `map_rows_to_conns`
unfoldable pub map_row : AddrText → Uuid → ConnColumns → ConnRow
map_row t conn_id row = record {
  conn_id = conn_id;
  password = row.password;
  token = row.token;
  env = row.env;
  created_at = row.created_at;
  modified_at = row.modified_at;
  expires_at = row.expires_at;
  subscription_id = row.subscription_id;
  proto = row.proto;
  wg = wg_of_columns t row.wg_privkey row.wg_address;
  is_deleted = row.is_deleted;
}

unfoldable pub map_rows_to_conns : AddrText → ConnTable → List ConnRow
map_rows_to_conns t [] = []
map_rows_to_conns t ((conn_id, row) ∷ rows) = map_row t conn_id row ∷ map_rows_to_conns t rows

privkey_of : Option WgParam → Option Text
privkey_of none = none
privkey_of (some w) = some w.privkey

address_of : AddrText → Option WgParam → Option Text
address_of t none = none
address_of t (some w) = some (Wireguard.display t w.address)

-- The values of the INSERT statement, as the columns keep them.
unfoldable pub columns_of_row : Columns → AddrText → ConnRow → ConnColumns
unfolding privkey_of address_of
columns_of_row cs t conn = record {
  password = conn.password;
  token = conn.token;
  env = conn.env;
  created_at = cs.timestamp conn.created_at;
  modified_at = cs.timestamp conn.modified_at;
  expires_at = timestamps cs conn.expires_at;
  subscription_id = conn.subscription_id;
  proto = conn.proto;
  wg_privkey = privkey_of conn.wg;
  wg_address = address_of t conn.wg;
  is_deleted = conn.is_deleted;
}

-- `insert`: `false` is the violation of the primary key.
unfoldable pub insert_conn : Columns → AddrText → ConnRow → ConnTable → ConnTable × Bool
insert_conn cs t conn rows = elim (lookup conn.conn_id rows) [
  | some _ ↦ (rows, false)
  | none ↦ (insert conn.conn_id (columns_of_row cs t conn) rows, true)
]

unfoldable pub set_is_deleted : Bool → ConnColumns → ConnColumns
set_is_deleted deleted row = record row { is_deleted = deleted }

unfoldable pub delete_conn_row : Uuid → ConnTable → ConnTable
unfolding set_is_deleted
delete_conn_row conn_id = adjust conn_id (set_is_deleted true)

unfoldable pub restore_conn_row : Uuid → ConnTable → ConnTable
unfolding set_is_deleted
restore_conn_row conn_id = adjust conn_id (set_is_deleted false)
