-- ===== src/Tests/Tables.antt =====
-- A node, a key and a subscription in the tables of the database.
use pony.Prelude.{
  ◌≡◌, refl, arith, true, false, [], ◌∷◌, Option, none, some, nat_eq, nat_eqb, ◌==◌, list_eq,
}
use pony.Prelude.Int.{pos, negsuc}
use pony.Prelude.Map.{insert, lookup, get_or_default, HasUniqueKeys}
use pony.Prelude.Text.{Text, codes}
use pony.Tag.{ProtoTag, wireguard, tag_eq}
use pony.Wireguard.{v4}
use pony.Subscription.{Uuid}
use pony.Inbound.{StreamSettings, H2Settings, Inbound}
use pony.Node.{Node, common, premium}
use pony.Key.{distributor, activate}
use pony.Sync.Operations.{prolong}
use pony.Database.Subs.{SubColumns, SubTable, add_days_row}
use pony.Database.Subs.Days.{returned_expiry, add_days_row-prolong, add_days_row-past}
use pony.Database.Times.{Columns}
use pony.Database.NodeTables.{
  Json, NodeTables, option_map, upsert_columns, upsert_inbounds, upsert_node, stored_node,
  inbound_of_row,
}
use pony.Database.NodeTables.Inbounds.{IsLawful, or_else}
use pony.Database.NodeTables.Stored.{
  IsStorableNode, created_at_of, type_of, stored_node-upsert_node,
}
use pony.Database.Keys.{insert_key_row, activate_key_row, get_key, get_key-activate}
use pony.Tests.Crates.{unicode, addr_text, addr_text-RoundTrips, chrono}
use pony.Tests.Data.{thirty_days, paid, up}
use pony.Tests.Fleet.{berlin_node}

abbrev columns : Columns
columns = record { timestamp = λ t. t; refer_code = λ s. s }

-- A value of JSON is what was written.
data Value : Type 0 where
  stream : Option StreamSettings → Value
  hysteria : Option H2Settings → Value

abbrev read_stream : Value → Option StreamSettings
read_stream (stream s) = s
read_stream (hysteria h) = none

abbrev read_h2 : Value → Option H2Settings
read_h2 (stream s) = none
read_h2 (hysteria h) = h

abbrev json : Json Value
json = record {
  write_stream = stream;
  read_stream = read_stream;
  write_h2 = hysteria;
  read_h2 = read_h2;
}

json-IsLawful : IsLawful json
json-IsLawful = record { read_stream-write_stream = λ s. refl; read_h2-write_h2 = λ h. refl }

abbrev tunnel : Inbound
tunnel = record {
  tag = wireguard;
  port = 51820;
  stream_settings = none;
  uplink = some (pos 1);
  downlink = none;
  conn_count = none;
  wg = some (record {
    interface = codes "wg0";
    address = record { address = v4 100; cidr = 24 };
    port = 51820;
    privkey = codes "key";
    dns = 8 ∷ [];
  });
  h2 = none;
  mtproto_secret = none;
}

abbrev gate : Node
gate = record berlin_node { inbounds = (wireguard, tunnel) ∷ []; type = premium }

gate-IsStorableNode : IsStorableNode unicode gate
unfolding lookup
gate-IsStorableNode = record {
  cores = omega arith;
  env = tt;
  unique = (refl, tt);
  filed = (refl, tt);
  storable = ((omega arith, (refl, omega arith)), tt);
}

abbrev no_tables : NodeTables Value
no_tables = record { nodes = []; inbounds = [] }

abbrev one_table : NodeTables Value
one_table = record {
  nodes = (31, upsert_columns columns addr_text json common gate none) ∷ [];
  inbounds = (31, upsert_inbounds columns addr_text json (tunnel ∷ []) []) ∷ [];
}

written : upsert_node columns addr_text json common 31 gate no_tables ≡ some one_table
unfolding upsert_node lookup insert
written = refl

unique : HasUniqueKeys (get_or_default 31 [] no_tables.inbounds)
unfolding lookup
unique = tt

stored_node-upsert_node_example :
    ((n : Node) × (stored_node columns addr_text json unicode 31 one_table ≡ some n)
      × (n ≡ record gate {
        created_at = created_at_of columns gate (lookup 31 no_tables.nodes);
        modified_at = 1;
        type = type_of common (lookup 31 no_tables.nodes);
        inbounds = n.inbounds;
      })
      × ((tag : ProtoTag)
          → lookup tag n.inbounds
            ≡ or_else (lookup tag gate.inbounds) (
                option_map
                  (inbound_of_row columns addr_text json tag)
                  (lookup tag (get_or_default 31 [] no_tables.inbounds)))))
    × ((j : Uuid)
        → nat_eqb 31 j ≡ false
        → stored_node columns addr_text json unicode j one_table
          ≡ stored_node columns addr_text json unicode j no_tables)
stored_node-upsert_node_example =
    stored_node-upsert_node columns addr_text json unicode json-IsLawful addr_text-RoundTrips common
      31 gate no_tables one_table gate-IsStorableNode unique written

taken : (insert_key_row columns thirty_days []).1 ≡ true
unfolding insert_key_row
taken = refl

valid : distributor thirty_days.distributor_bytes ≡ some thirty_days.distributor_bytes
unfolding distributor
valid = refl

get_key-activate_example :
    (get_key (codes "CODE") (
        activate_key_row columns 6
          (activate 5 7 thirty_days)
          (insert_key_row columns thirty_days []).0)
      ≡ some (record thirty_days {
        activated = true;
        subscription_id = some 7;
        created_at = 1;
        modified_at = 6;
      }))
    × ((code : Text)
        → (codes "CODE" == code) ≡ false
        → get_key code (
            activate_key_row columns 6
              (activate 5 7 thirty_days)
              (insert_key_row columns thirty_days []).0)
          ≡ get_key code [])
get_key-activate_example = get_key-activate columns 5 6 7 thirty_days [] taken valid

abbrev paid_row : SubColumns
paid_row = record {
  expires_at = some 5000;
  referred_by = none;
  refer_code = codes "abc";
  created_at = 1;
  updated_at = 1;
  is_deleted = false;
  limit_bytes = none;
  downlink_bytes = none;
}

abbrev paid_table : SubTable
paid_table = (7, paid_row) ∷ []

stored : lookup 7 paid_table ≡ some paid_row
unfolding lookup
stored = refl

add_days_row-prolong_example :
    ((prolong up 1000 chrono (pos 2) paid).expires_at ≡ some (chrono.plus_days 5000 (pos 2)))
    × (returned_expiry (add_days_row columns 1001 chrono 7 (pos 2) paid_table).1
        ≡ some (chrono.plus_days 5000 (pos 2)))
add_days_row-prolong_example =
    add_days_row-prolong up columns 1000 1001 chrono (pos 2) paid_table paid paid_row 5000
      (omega arith) refl refl stored (omega arith) (omega arith)

add_days_row-past_example :
    ((prolong up 1000 chrono (negsuc 9) paid).expires_at ≡ some 5000)
    × (returned_expiry (add_days_row columns 1001 chrono 7 (negsuc 9) paid_table).1
        ≡ some (chrono.plus_days 5000 (negsuc 9)))
add_days_row-past_example =
    add_days_row-past up columns 1000 1001 chrono (negsuc 9) paid_table paid paid_row 5000
      (omega arith) refl refl stored (omega arith) (omega arith)
