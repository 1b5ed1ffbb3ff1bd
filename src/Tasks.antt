-- ===== src/Tasks.antt =====
-- src/bin/api/tasks.rs: one pass of each of the periodic tasks of the API service.
pub mod Cleanup
pub mod Inactive
use pony.Prelude.{
  ℕ, Bool, true, false, not, ◌&&◌, List, [], ◌∷◌, ◌++◌, Option, none, some, leb, nat_eq,
  if◌then◌else◌, keep,
}
use pony.Prelude.Map.{Map}
use pony.Subscription.{Uuid, DateTime, Subscription, is_active}
use pony.Connection.{Conn, conn_ops}
use pony.Connections.{get_by_subscription_id}
use pony.Sync.World.{Cache, World, Outside}
use pony.Sync.Operations.{delete_connection, restore_connections_by_subscription}

-- `if let Some(expires_at) = … { expires_at <= now && !conn.get_deleted() }`
abbrev pub expired_at : DateTime → Option DateTime → Bool
expired_at now none = false
expired_at now (some expires_at) = leb expires_at now

abbrev pub is_expired_conn : DateTime → Uuid × Conn → Bool
is_expired_conn now e = expired_at now e.1.expires_at && not e.1.is_deleted

unfoldable pub ids_of : List (Uuid × Subscription) → List Uuid
ids_of [] = []
ids_of ((id, s) ∷ es) = id ∷ ids_of es

module _ (o : Outside) (now : DateTime) where
  -- The outcome of a deletion is only logged.
  unfoldable pub delete_all : List (Uuid × Conn) → World → World
  delete_all [] w = w
  delete_all ((id, c) ∷ es) w = delete_all es (delete_connection o now id c w).0

  unfoldable pub cleanup_expired_connections : World → World
  unfolding delete_all
  cleanup_expired_connections w = delete_all (keep (is_expired_conn now) w.cache.connections) w

  unfoldable pub conns_to_delete : Uuid → Map Uuid Conn → List (Uuid × Conn)
  conns_to_delete sub_id m = elim (get_by_subscription_id sub_id m) [
    | some conns ↦ keep (λ e. not e.1.is_deleted) conns
    | none ↦ []
  ]

  unfoldable pub cleanup_subs : List Uuid → World → World
  unfolding delete_all
  cleanup_subs [] w = w
  cleanup_subs (sub_id ∷ ids) w =
      cleanup_subs ids (delete_all (conns_to_delete sub_id w.cache.connections) w)

  unfoldable pub cleanup_expired_subscriptions : World → World
  unfolding cleanup_subs
  cleanup_expired_subscriptions w =
      cleanup_subs (ids_of (keep (λ e. not (is_active now e.1)) w.cache.subscriptions)) w

  restore_subs : List Uuid → World → World
  restore_subs [] w = w
  restore_subs (sub_id ∷ ids) w =
      restore_subs ids (restore_connections_by_subscription o now sub_id w).0

  unfoldable pub restore_subscriptions : World → World
  unfolding restore_subs
  restore_subscriptions w =
      restore_subs (ids_of (keep (λ e. is_active now e.1) w.cache.subscriptions)) w
