-- ===== src/Tests/Requests.antt =====
-- Requests about connections and keys.
use pony.Prelude.{◌≡◌, refl, Bool, true, false, none, some, nat_eq}
use pony.Prelude.Int.{pos}
use pony.Prelude.Map.{lookup, insert}
use pony.Tag.{wireguard}
use pony.Env.{dev}
use pony.Wireguard.{v4, as_ipv4, increment_ipv4, contains_ipv4}
use pony.Subscription.{Uuid, DateTime, is_active}
use pony.Connection.{
  wg, proto_tag, proto_token, proto_wireguard, is_mtproto, Conn, conn_ops, new_conn,
}
use pony.Connections
use pony.Connections.{allocate, get_last_wg_addr, max_by_key}
use pony.Key.{Key, activate}
use pony.Sync.World.{World, Outside}
use pony.Sync.Operations.{add_conn, add_days}
use pony.Handlers.{
  bad, key, connection, ConnCreateRequest, is_allowed, of_allocation, new_proto, expired_at,
  create_topic, announce, added, create_conn, create_connection_handler, save_key,
  post_activate_key_handler,
}
use pony.Handlers.Creating.{MayCreate, IsInside, create_connection_handler_lem}
use pony.Handlers.Activating.{activate_once}
use pony.Tests.Crates.{chrono}
use pony.Tests.Data.{network, up, now, paid, world, thirty_days, fresh, peer_request}

abbrev new_peer : Conn
new_peer = record {
  env = dev;
  proto =
      wg (record { privkey = fresh.keys; address = record { address = v4 167772166; cidr = 32 } });
  subscription_id = some 7;
  created_at = now;
  modified_at = now;
  expires_at = some (chrono.plus_days now (pos 3));
  is_deleted = false;
}

free : lookup fresh.id world.cache.connections ≡ none
unfolding lookup
free = refl

created :
    (create_connection_handler up now chrono network fresh peer_request world).1
    ≡ connection 9 new_peer
unfolding create_connection_handler is_allowed is_active new_proto of_allocation allocate
    get_last_wg_addr max_by_key proto_tag proto_wireguard as_ipv4 increment_ipv4 contains_ipv4
    create_conn add_conn Connections.add lookup insert new_conn added announce create_topic
    proto_token is_mtproto expired_at
created = refl

create_connection_handler_lem_example :
    MayCreate (some 7) now world
    × (9 ≡ fresh.id)
    × (lookup 9
          (create_connection_handler up now chrono network fresh peer_request
            world).0.cache.connections
        ≡ some new_peer)
    × (new_peer.subscription_id ≡ some 7)
    × (dev ≡ dev)
    × (proto_tag new_peer.proto ≡ wireguard)
    × (new_peer.is_deleted ≡ false)
    × IsInside network new_peer.proto
create_connection_handler_lem_example =
    create_connection_handler_lem up now chrono network fresh peer_request world 9 new_peer free
      created

abbrev stranger : ConnCreateRequest
stranger = record peer_request { subscription_id = some 8 }

not_allowed : is_allowed up now (some 8) world ≡ false
unfolding is_allowed lookup
not_allowed = refl

abbrev used : Key
used = record thirty_days { activated = true; subscription_id = some 7; modified_at = now }

activated : (post_activate_key_handler up now chrono true 7 (some thirty_days) world).2 ≡ key used
unfolding post_activate_key_handler add_days save_key activate lookup is_active
activated = refl

activate_once_example :
    ((post_activate_key_handler up now chrono true 7 (some thirty_days) world).1 ≡ some used)
    × ((o' : Outside) (later : DateTime) (saved' : Bool) (other : Uuid) (w' : World)
        → post_activate_key_handler o' later chrono saved' other
            (post_activate_key_handler up now chrono true 7 (some thirty_days) world).1
            w'
          ≡ (w', some used, bad))
activate_once_example = activate_once up now chrono true 7 (some thirty_days) world used activated

paid_held : lookup 7 world.cache.subscriptions ≡ some paid
unfolding lookup
paid_held = refl
