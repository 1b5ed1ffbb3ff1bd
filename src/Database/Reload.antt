-- ===== src/Database/Reload.antt =====
-- The memory that is made of the database: `get_state_from_db` of src/bin/api/tasks.rs, with the
-- `Tasks` of src/bin/api/postgres/pg.rs. The three queries give their rows, or one of them fails.
pub mod Lookup
use pony.Prelude.{List, [], ◌∷◌, Option, none, some}
use pony.Prelude.Map.{Map}
use pony.Prelude.Text.{Unicode}
use pony.Subscription.{Uuid, Subscription}
use pony.Connection.{Conn, conn_ops}
use pony.Connections
use pony.Subscriptions
use pony.Node.{Node}
use pony.Nodes
use pony.Sync.World.{Cache, on_connections, on_subscriptions, on_nodes}
use pony.Database.Conns.{ConnRow, RowError, Read, read, invalid, conn_of_row}

-- What the queries return.
pub record Queried : Type 0 where
  pub nodes : List Node
  pub conns : List ConnRow
  pub subscriptions : List Subscription

-- `Cache::new`
abbrev pub empty_cache : Cache
empty_cache = record { connections = []; subscriptions = []; nodes = [] }

unfoldable pub add_node_to_cache : Node → Cache → Cache
add_node_to_cache db_node = on_nodes (λ m. (Nodes.add db_node m).0)

-- `Connections::add` has no error.
unfoldable pub add_conn_to_cache : Unicode → ConnRow → Cache → Read Cache
add_conn_to_cache u db_conn cache = elim (conn_of_row u db_conn) [
  | invalid e ↦ invalid e
  | read conn ↦ read (on_connections (λ m. (Connections.add db_conn.conn_id conn m).0) cache)
]

unfoldable pub add_subscription_to_cache : Subscription → Cache → Cache
add_subscription_to_cache db_sub = on_subscriptions (λ m. (Subscriptions.add db_sub m).0)

unfoldable pub add_nodes : List Node → Cache → Cache
add_nodes [] cache = cache
add_nodes (n ∷ nodes) cache = add_nodes nodes (add_node_to_cache n cache)

unfoldable pub add_conns : Unicode → List ConnRow → Cache → Read Cache
add_conns u [] cache = read cache
add_conns u (c ∷ conns) cache = elim (add_conn_to_cache u c cache) [
  | invalid e ↦ invalid e
  | read cache' ↦ add_conns u conns cache'
]

unfoldable pub add_subscriptions : List Subscription → Cache → Cache
add_subscriptions [] cache = cache
add_subscriptions (s ∷ subs) cache = add_subscriptions subs (add_subscription_to_cache s cache)

pub data Reloaded : Type 0 where
  reloaded query_failed : Reloaded
  bad_row : RowError → Reloaded

-- The memory afterwards: an error leaves it alone.
unfoldable pub get_state_from_db : Unicode → Option Queried → Cache → Cache × Reloaded
get_state_from_db u none mem = (mem, query_failed)
get_state_from_db u (some q) mem = elim (add_conns u q.conns (add_nodes q.nodes empty_cache)) [
  | invalid e ↦ (mem, bad_row e)
  | read tmp_mem ↦ (add_subscriptions q.subscriptions tmp_mem, reloaded)
]
