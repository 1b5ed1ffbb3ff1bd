-- ===== src/Tests/Service.antt =====
-- The operations and the tasks of the API service.
use pony.Prelude.{◌≡◌, ◌≢◌, ◌⊎◌, refl, arith, true, false, [], ◌∷◌, ◌++◌, some, nat_eq}
use pony.Prelude.Int.{pos}
use pony.Prelude.Map.{lookup, adjust}
use pony.Subscription.{Subscription, is_active}
use pony.Connection.{Conn, conn_ops, mark, as_delete_message}
use pony.Connections.{ok, get_by_subscription_id, some_if_any}
use pony.Sync.World.{World, conn_deleted, published, done}
use pony.Sync.Operations.{
  topic_of, delete_connection, restore_connection, restore_one, restore_all, to_restore,
  restore_connections_by_subscription, new_expires, add_days,
}
use pony.Sync.Deletion.{marked, IsTopicOf, delete_connection_atomic}
use pony.Sync.Prolonging.{add_days-is_active}
use pony.Sync.Restoring.{restore_connections_by_subscription_lem}
use pony.Tasks.Inactive.{cleanup_expired_subscriptions_lem}
use pony.Tasks.{
  ids_of, cleanup_subs, conns_to_delete, cleanup_expired_subscriptions, delete_all,
  cleanup_expired_connections,
}
use pony.Tasks.Cleanup.{cleanup_expired_connections_lem}
use pony.Tests.Crates.{chrono, chrono-IsLawful}
use pony.Env.{dev}
use pony.Tests.Data.{up, now, peer, paid, world, dead_world}

delete_connection_atomic_example :
    ((delete_connection up now 1 peer world ≡ (
      record {
        cache = marked now true 1 world.cache;
        events =
            ([] ++ conn_deleted 1 ∷ [])
            ++ published (topic_of peer) (as_delete_message 1 peer ∷ []) ∷ [];
      },
      done (ok 1),
    ))
      ⊎ (((delete_connection up now 1 peer world).1 ≢ done (ok 1))
          × ((delete_connection up now 1 peer world).0.cache ≡ world.cache)
          × (((delete_connection up now 1 peer world).0.events ≡ [])
              ⊎ ((delete_connection up now 1 peer world).0.events ≡ [] ++ conn_deleted 1 ∷ []))))
    × IsTopicOf peer.proto dev (topic_of peer)
delete_connection_atomic_example = delete_connection_atomic up now 1 peer world

peer_deleted : (delete_connection up now 1 peer world).1 ≡ done (ok 1)
unfolding delete_connection lookup
peer_deleted = refl

peer_held : lookup 1 world.cache.connections ≡ some peer
unfolding lookup
peer_held = refl

paid_held : lookup 7 world.cache.subscriptions ≡ some paid
unfolding lookup
paid_held = refl

add_days-is_active_example :
    (s' : Subscription) × (lookup 7 (add_days up now chrono 7 (pos 30) world).0.cache.subscriptions
      ≡ some s')
    × (s'.expires_at ≡ some (new_expires up now chrono (pos 30) paid.expires_at))
    × (is_active now s' ≡ true)
add_days-is_active_example =
    add_days-is_active up now chrono chrono-IsLawful 7 (pos 30) world paid (omega arith) paid_held

abbrev restored_peer : Conn
restored_peer = record peer { modified_at = now }

restored :
    lookup 1 (restore_connections_by_subscription up now 7 dead_world).0.cache.connections
    ≡ some restored_peer
unfolding restore_connections_by_subscription to_restore get_by_subscription_id some_if_any
    restore_all restore_one restore_connection lookup adjust mark
restored = refl

restore_connections_by_subscription_lem_example : restored_peer.is_deleted ≡ false
restore_connections_by_subscription_lem_example =
    restore_connections_by_subscription_lem up now (λ id. refl) (λ ms. refl) (λ t ms. refl) 7
      dead_world 1 restored_peer restored refl

abbrev expired_peer : Conn
expired_peer = record peer { is_deleted = true; modified_at = now }

cleaned : lookup 1 (cleanup_expired_connections up now world).cache.connections ≡ some expired_peer
unfolding cleanup_expired_connections delete_all delete_connection lookup adjust mark
cleaned = refl

cleanup_expired_connections_lem_example : expired_peer.is_deleted ≡ true
cleanup_expired_connections_lem_example =
    cleanup_expired_connections_lem up now (λ id. refl) (λ ms. refl) (λ t ms. refl) world 1
      expired_peer 900 cleaned refl (omega arith)

abbrev lapsed : Subscription
lapsed = record paid { expires_at = some 500 }

abbrev lapsed_world : World
lapsed_world = record {
  cache = record { connections = (1, peer) ∷ []; subscriptions = (7, lapsed) ∷ []; nodes = [] };
  events = [];
}

lapsed_held : lookup 7 lapsed_world.cache.subscriptions ≡ some lapsed
unfolding lookup
lapsed_held = refl

inactive : is_active now lapsed ≡ false
unfolding is_active
inactive = refl

swept :
    lookup 1 (cleanup_expired_subscriptions up now lapsed_world).cache.connections
    ≡ some expired_peer
unfolding cleanup_expired_subscriptions ids_of cleanup_subs conns_to_delete get_by_subscription_id
    some_if_any is_active delete_all delete_connection lookup adjust mark
swept = refl

cleanup_expired_subscriptions_lem_example : expired_peer.is_deleted ≡ true
cleanup_expired_subscriptions_lem_example =
    cleanup_expired_subscriptions_lem up now (λ id. refl) (λ ms. refl) (λ t ms. refl) lapsed_world 7
      lapsed 1 expired_peer lapsed_held inactive swept refl
