-- ===== src/Sync/World.antt =====
-- The state of the API service: its memory (`Cache` of src/bin/api/service.rs),
-- and what it has done to the database and to the message bus, in order.
-- PostgreSQL, ZeroMQ and rkyv are outside of the program: `Outside` says which calls succeed.
use pony.Prelude.{Bool, List, [], ◌∷◌, ◌++◌, Option, if◌then◌else◌}
use pony.Prelude.Int.{ℤ}
use pony.Prelude.Map.{Map}
use pony.Prelude.Text.{Text}
use pony.Topic.{Topic}
use pony.Subscription.{Uuid, DateTime, Subscription}
use pony.Connection.{Conn, Message}
use pony.Node.{Node, NodeStatus}
use pony.Nodes.{Nodes}

pub record Cache : Type 0 where
  pub connections : Map Uuid Conn
  pub subscriptions : Map Uuid Subscription
  pub nodes : Nodes

-- A call that went through.
pub data Event : Type 0 where
  conn_inserted : Uuid → Conn → Event
  conn_deleted conn_restored : Uuid → Event
  sub_created : Subscription → Event
  sub_updated : Uuid → DateTime → Option Text → Text → Event
  sub_days_added : Uuid → ℤ → Event
  published : Topic → List Message → Event
  node_upserted : Uuid → Node → Event
  node_status_updated : Uuid → Text → NodeStatus → Event

pub record World : Type 0 where
  pub cache : Cache
  pub events : List Event

pub record Outside : Type 0 where
  pub conn_insert : Uuid → Conn → Bool
  pub conn_delete : Uuid → Bool
  pub conn_restore : Uuid → Bool
  pub sub_create : Subscription → Bool
  pub sub_update : Uuid → Bool
  pub sub_add_days : Uuid → ℤ → Bool
  pub to_bytes : List Message → Bool
  pub send_binary : Topic → List Message → Bool
  pub node_upsert : Uuid → Node → Bool
  pub node_update_status : Uuid → Text → NodeStatus → Bool

pub data SyncError : Type 0 where
  database memory zmq rkyv_serialize inconsistent_state : SyncError

pub data SyncResult (A : Type 0) : Type 0 where
  done : A → SyncResult A
  error : SyncError → SyncResult A

-- What was done before an error stays done.
abbrev pub M : Type 0 → Type 0
M A = World → World × SyncResult A

infixl 5 ◌>>=◌ ◌>>◌
abbrev pub ◌>>=◌ : {A B : Type 0} → M A → (A → M B) → M B
◌>>=◌ m f w = let (w', r) = m w in elim r [ done a ↦ f a w' | error e ↦ (w', error e) ]

abbrev pub ◌>>◌ : {A B : Type 0} → M A → M B → M B
m >> k = m >>= λ _. k

abbrev pub pure : {A : Type 0} → A → M A
pure a w = (w, done a)

abbrev pub fail : {A : Type 0} → SyncError → M A
fail e w = (w, error e)

abbrev pub gets : {A : Type 0} → (Cache → A) → M A
gets f w = (w, done (f w.cache))

abbrev pub modify : (Cache → Cache) → M (Unit {0})
modify f w = (record w { cache = f w.cache }, done tt)

-- A call that goes through, or fails with the error.
abbrev pub call : Bool → SyncError → Event → M (Unit {0})
call succeeds e event w =
    if succeeds then (record w { events = w.events ++ event ∷ [] }, done tt) else (w, error e)

abbrev pub on_connections : (Map Uuid Conn → Map Uuid Conn) → Cache → Cache
on_connections f c = record c { connections = f c.connections }

abbrev pub on_subscriptions : (Map Uuid Subscription → Map Uuid Subscription) → Cache → Cache
on_subscriptions f c = record c { subscriptions = f c.subscriptions }

abbrev pub on_nodes : (Nodes → Nodes) → Cache → Cache
on_nodes f c = record c { nodes = f c.nodes }
