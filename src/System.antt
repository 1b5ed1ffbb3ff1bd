-- ===== src/System.antt =====
-- The API service and the authentication service together: the requests for connections, the
-- deletions and the restorations of the API are steps, and the authentication service handles, in
-- their order, the batches that the API has published for it (src/bin/api/, src/bin/auth/tasks.rs).
-- Trials and reloads of the memory are not steps.
pub mod Replay
pub mod Agreement
pub mod Removal
pub mod Restoration
pub mod Invariant
use pony.Prelude.{ℕ, ◌≡◌, true, List, [], ◌∷◌, Option, none, some, nat_eq}
use pony.Prelude.Map.{Map, lookup}
use pony.Wireguard.{IpAddrMask}
use pony.Topic.{Topic, auth}
use pony.Subscription.{Uuid, DateTime, Chrono}
use pony.Connection.{Conn, Base, Message}
use pony.Auth.{handle_messages_batch}
use pony.Sync.World.{
  Event, conn_inserted, conn_deleted, conn_restored, sub_created, sub_updated, sub_days_added,
  published, node_upserted, node_status_updated, World, Outside,
}
use pony.Sync.Operations.{delete_connection, restore_one}
use pony.Handlers.{ConnCreateRequest, Fresh, create_connection_handler}

-- A step of the API: a request for a connection, whose uuid is drawn fresh, the deletion of a
-- connection of the memory, by a request or by a task, or the restoration of a deleted one.
pub data Step (o : Outside) : World → World → Type 0 where
  created :
      {w : World} (now : DateTime) (chrono : Chrono) (network : IpAddrMask) (fresh : Fresh)
      (req : ConnCreateRequest)
      → lookup fresh.id w.cache.connections ≡ none
      → Step o w (create_connection_handler o now chrono network fresh req w).0
  deleted :
      {w : World} (now : DateTime) (id : Uuid) (conn : Conn)
      → lookup id w.cache.connections ≡ some conn
      → Step o w (delete_connection o now id conn w).0
  restored :
      {w : World} (now : DateTime) (id : Uuid) (conn : Conn)
      → lookup id w.cache.connections ≡ some conn
      → conn.is_deleted ≡ true
      → Step o w (restore_one o now id conn w).0

pub data Reach (o : Outside) (start : World) : World → Type 0 where
  started : Reach o start start
  stepped : {w w' : World} → Reach o start w → Step o w w' → Reach o start w'

-- What the authentication service does with an event.
unfoldable pub on_topic : DateTime → Topic → List Message → Map Uuid Base → Map Uuid Base
on_topic now auth msgs mem = handle_messages_batch now msgs mem
on_topic now _ msgs mem = mem

unfoldable pub on_event : DateTime → Event → Map Uuid Base → Map Uuid Base
on_event now (published topic msgs) mem = on_topic now topic msgs mem
on_event now (conn_inserted _ _) mem = mem
on_event now (conn_deleted _) mem = mem
on_event now (conn_restored _) mem = mem
on_event now (sub_created _) mem = mem
on_event now (sub_updated _ _ _ _) mem = mem
on_event now (sub_days_added _ _) mem = mem
on_event now (node_upserted _ _) mem = mem
on_event now (node_status_updated _ _ _) mem = mem

-- The store of the authentication service, when it has handled everything that was published.
unfoldable pub replay : DateTime → List Event → Map Uuid Base → Map Uuid Base
replay now [] mem = mem
replay now (e ∷ events) mem = replay now events (on_event now e mem)
