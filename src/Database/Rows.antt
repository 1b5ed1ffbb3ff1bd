-- ===== src/Database/Rows.antt =====
-- Which connections are read back from their rows as they were written.
use pony.Prelude.{◌≡◌, ◌≤◌, refl, arith}
use pony.Prelude.Text.{Text, Unicode}
use pony.Env.{Env, as_str, from_text}
use pony.Env.Reading.{IsLower, from_str-as_str_iff}
use pony.Tag.{
  ProtoTag, vless_tcp_reality, vless_grpc_reality, vless_xhttp_reality, vmess, shadowsocks,
  wireguard, hysteria2, mtproto,
}
use pony.Wireguard.{AddrText, max_cidr}
use pony.Wireguard.Parsing.{RoundTrips, from_str-display}
use pony.Subscription.{Uuid, DateTime}
use pony.Connection.{
  Proto, wg, ss, xray, h2, mt, proto_tag, proto_password, proto_token, proto_wireguard, Conn,
}
use pony.Database.Times.{Columns, timestamps}
use pony.Database.Conns.{
  ConnColumns, read, row_of_conn, row_proto, conn_of_row, wg_of_columns, map_row, columns_of_row,
}

-- A tag that Xray serves.
abbrev pub IsXray : ProtoTag → Type 0
IsXray vless_tcp_reality = Unit
IsXray vless_grpc_reality = Unit
IsXray vless_xhttp_reality = Unit
IsXray vmess = Unit
IsXray mtproto = Unit
IsXray shadowsocks = ⊥
IsXray wireguard = ⊥
IsXray hysteria2 = ⊥

-- A protocol of which the columns hold everything: any but MTProto.
abbrev pub IsKept : Proto → Type 0
IsKept (wg param) = param.address.cidr ≤ max_cidr param.address.address
IsKept (xray tag) = IsXray tag
IsKept (ss password) = Unit
IsKept (h2 token) = Unit
IsKept (mt secret) = ⊥

-- A connection with its times as the columns keep them.
unfoldable pub rounded : Columns → Conn → Conn
rounded cs c = record c {
  created_at = cs.timestamp c.created_at;
  modified_at = cs.timestamp c.modified_at;
  expires_at = timestamps cs c.expires_at;
}

-- The row of a connection, whose modification time may have been set by another statement.
abbrev pub row_at : DateTime → Columns → AddrText → Uuid → Conn → ConnColumns
row_at modified cs t id c = record (columns_of_row cs t (row_of_conn id c)) {
  modified_at = modified;
}

pub from_text-as_str : (u : Unicode) (e : Env) → IsLower u e → from_text u (as_str e) ≡ e
unfolding from_text
from_text-as_str u e lower = rw (from_text, (from_str-as_str_iff u e).1 lower) refl

row_proto_lem :
    (cs : Columns) (t : AddrText) (u : Unicode) (id : Uuid) (c : Conn) (modified : DateTime)
    (p : Proto)
    → RoundTrips t
    → IsKept p
    → (let row = map_row t id (row_at modified cs t id (record c { proto = p })) in
        row_proto row row.proto)
      ≡ read p
unfolding row_proto map_row columns_of_row row_of_conn wg_of_columns proto_tag proto_password
    proto_token proto_wireguard
row_proto_lem cs t u id c modified (wg param) r k =
    ground (arith, from_str-display t r param.address k)
row_proto_lem cs t u id c modified (ss password) r k = refl
row_proto_lem cs t u id c modified (h2 token) r k = refl
row_proto_lem cs t u id c modified (xray vless_tcp_reality) r k = refl
row_proto_lem cs t u id c modified (xray vless_grpc_reality) r k = refl
row_proto_lem cs t u id c modified (xray vless_xhttp_reality) r k = refl
row_proto_lem cs t u id c modified (xray vmess) r k = refl
row_proto_lem cs t u id c modified (xray mtproto) r k = refl
row_proto_lem cs t u id c modified (xray shadowsocks) r k = absurd k
row_proto_lem cs t u id c modified (xray wireguard) r k = absurd k
row_proto_lem cs t u id c modified (xray hysteria2) r k = absurd k
row_proto_lem cs t u id c modified (mt secret) r k = absurd k

-- A connection is read back from its row, its times as the columns keep them, if its environment is
-- in lower case and its protocol is none that the columns cannot hold: not MTProto, a WireGuard
-- address with a prefix length of its family, and a tag of Xray for Xray.
pub conn_of_row-row_at :
    (cs : Columns) (t : AddrText) (u : Unicode)
    → RoundTrips t
    → (id : Uuid) (c : Conn) (modified : DateTime) → IsLower u c.env
    → IsKept c.proto
    → conn_of_row u (map_row t id (row_at modified cs t id c))
      ≡ read (record (rounded cs c) { modified_at = modified })
unfolding conn_of_row map_row columns_of_row row_of_conn rounded
conn_of_row-row_at cs t u r id c modified lower kept =
    let p = row_proto_lem cs t u id c modified c.proto r kept in
    rw (conn_of_row, p, from_text-as_str u c.env lower) refl

-- A connection of MTProto loses its secret: it is read back as one of Xray.
pub mtproto_lost :
    (cs : Columns) (t : AddrText) (u : Unicode) (id : Uuid) (c : Conn) (secret : Text)
    → IsLower u c.env
    → conn_of_row u
        (map_row t id (columns_of_row cs t (row_of_conn id (record c { proto = mt secret }))))
      ≡ read (rounded cs (record c { proto = xray mtproto }))
unfolding conn_of_row map_row columns_of_row row_of_conn rounded row_proto proto_tag
mtproto_lost cs t u id c secret lower = rw (from_text-as_str u c.env lower) refl
