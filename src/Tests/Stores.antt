-- ===== src/Tests/Stores.antt =====
-- The stores, and the authentication service.
use pony.Prelude.{◌++◌, ◌≡◌, ◌≢◌, refl, arith, true, [], ◌∷◌, none, some, nat_eq}
use pony.Prelude.Map.{Map, lookup, remove, HasUniqueKeys}
use pony.Subscription.{Uuid, Subscription, stats}
use pony.Connection.{ConnPatch, base_ops, as_delete_message}
use pony.Connection.Update.{apply_update, Updates, apply_update-Updates}
use pony.Connections.{ok, validate_token, remove_conn}
use pony.Topic.{auth}
use pony.Sync.World.{conn_deleted, published, done}
use pony.Sync.Operations.{delete_connection}
use pony.Auth.Revocation.{deletion_revokes}
use pony.Auth.{on_action, handle_messages_batch, auth_handler}
use pony.Tests.Crates.{chrono}
use pony.Tests.Data.{up, world, now, peer, hysteria, paid, base_of, store}

store-HasUniqueKeys : HasUniqueKeys store
unfolding lookup
store-HasUniqueKeys = (refl, (refl, tt))

second : validate_token 88 store ≡ some 3
unfolding validate_token
second = refl

unknown : validate_token 99 store ≡ none
unfolding validate_token
unknown = refl

third : lookup 3 store ≡ some (base_of 88)
unfolding lookup
third = refl

still :
    (auth_handler 88 (handle_messages_batch now (as_delete_message 2 hysteria ∷ []) store)).id
    ≡ some 3
unfolding auth_handler handle_messages_batch on_action as_delete_message remove_conn remove lookup
    validate_token
still = refl

free : lookup 5 store ≡ none
unfolding lookup
free = refl

abbrev extend_peer : ConnPatch
extend_peer = record {
  env = none;
  proto = none;
  subscription_id = none;
  created_at = none;
  modified_at = none;
  expires_at = some 9000;
  is_deleted = none;
}

apply_update-Updates_example : Updates now peer (apply_update now peer extend_peer)
apply_update-Updates_example = apply_update-Updates now peer extend_peer

abbrev one : Map Uuid Subscription
one = (7, paid) ∷ []

abbrev yearly : Subscription
yearly = record paid { expires_at = some 31536000 }

yearly-stats : (stats chrono now yearly).is_active ≡ true
unfolding stats
yearly-stats = refl

dated : yearly.expires_at ≢ none
dated = ground arith

hysteria_deleted : (delete_connection up now 2 hysteria world).1 ≡ done (ok 2)
unfolding delete_connection lookup
hysteria_deleted = refl

deletion_revokes_example :
    ((delete_connection up now 2 hysteria world).0.events
      ≡ ([] ++ conn_deleted 2 ∷ []) ++ published auth (as_delete_message 2 hysteria ∷ []) ∷ [])
    × ((auth_handler 77 (handle_messages_batch now (as_delete_message 2 hysteria ∷ []) store)).id
        ≢ some 2)
deletion_revokes_example =
    deletion_revokes up now now 2 77 hysteria world store refl store-HasUniqueKeys hysteria_deleted
