-- ===== src/Tests/Database.antt =====
-- The database after one connection with a token is made.
use pony.Prelude.{◌≡◌, refl, arith, [], ◌∷◌, some, nat_eq}
use pony.Prelude.Int.{pos}
use pony.Prelude.Map.{lookup, insert}
use pony.Prelude.Text.{codes}
use pony.Env.{dev}
use pony.Env.Reading.{IsLower}
use pony.Subscription.{Uuid}
use pony.Connection.{h2, mt, xray, Conn, new_conn, proto_token}
use pony.Connections.{add}
use pony.Sync.Operations.{add_conn}
use pony.Subscription.{is_active}
use pony.Handlers.{
  create_connection_handler, is_allowed, create_conn, new_proto, expired_at, added, announce,
  create_topic,
}
use pony.Database.Times.{Columns}
use pony.Database.Conns.{read, row_of_conn, columns_of_row, map_row, conn_of_row, map_rows_to_conns}
use pony.Database.Rows.{IsKept, rounded, mtproto_lost}
use pony.Tag.{mtproto}
use pony.Database.Reload.{reloaded, get_state_from_db}
use pony.Database.Agreement.{conn_table, HasRow, replay_rows, Reach-HasRow}
use pony.Database.Refresh.{undated, kept, get_state_from_db-Reach}
use pony.Tests.Crates.{chrono, unicode, addr_text, addr_text-RoundTrips}
use pony.Tests.Data.{up, now}
use pony.Tests.Services.{empty, grown, grown-Reach}

abbrev columns : Columns
columns = record { timestamp = λ t. t; refer_code = λ s. s }

empty-HasRow : (id : Uuid) → HasRow columns addr_text empty id
unfolding replay_rows lookup
empty-HasRow id = refl

Reach-HasRow_example : HasRow columns addr_text grown 9
Reach-HasRow_example =
    Reach-HasRow columns addr_text up (λ ms. refl) (λ topic ms. refl) (λ id. refl) empty grown 9
      empty-HasRow grown-Reach

only : (c d : Conn) (id : Uuid) → lookup id ((9, c) ∷ []) ≡ some d → c ≡ d
unfolding lookup
only c d id h = ground (arith, h)

abbrev holder : Conn
holder = new_conn now dev (some 7) (h2 99) (some (chrono.plus_days now (pos 3)))

grown_connections : grown.cache.connections ≡ (9, holder) ∷ []
unfolding create_connection_handler is_allowed lookup is_active create_conn new_proto add_conn add
    insert expired_at added announce new_conn create_topic proto_token
grown_connections = refl

grown_storable :
    (id : Uuid) (c : Conn)
    → lookup id grown.cache.connections ≡ some c
    → IsLower unicode c.env × IsKept c.proto
unfolding new_conn
grown_storable id c known =
    let same : holder ≡ c = only holder c id (rw grown_connections at known) in rw (← same) (tt, tt)

get_state_from_db-Reach_example :
    ((get_state_from_db unicode
        (some (record {
          nodes = [];
          conns = map_rows_to_conns addr_text (conn_table columns addr_text grown);
          subscriptions = [];
        }))
        grown.cache).1
      ≡ reloaded)
    × ((id : Uuid)
        → undated (
            lookup id
              (get_state_from_db unicode
                (some (record {
                  nodes = [];
                  conns = map_rows_to_conns addr_text (conn_table columns addr_text grown);
                  subscriptions = [];
                }))
                grown.cache).0.connections)
          ≡ kept columns (lookup id grown.cache.connections))
get_state_from_db-Reach_example =
    get_state_from_db-Reach columns addr_text unicode addr_text-RoundTrips up (λ ms. refl)
      (λ topic ms. refl) (λ id. refl) empty grown empty-HasRow grown-Reach grown_storable [] []

mtproto_lost_example :
    conn_of_row unicode (
      map_row addr_text 9 (
        columns_of_row columns addr_text
          (row_of_conn 9 (record holder { proto = mt (codes "secret") }))))
    ≡ read (rounded columns (record holder { proto = xray mtproto }))
unfolding new_conn
mtproto_lost_example = mtproto_lost columns addr_text unicode 9 holder (codes "secret") tt
