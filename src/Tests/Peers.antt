-- ===== src/Tests/Peers.antt =====
-- Profiles, lists of configurations, summaries and updates of a subscription.
use pony.Prelude.{◌≡◌, ◌⊎◌, ◌+◌, refl, true, [], ◌∷◌, none, some, nat_eq, All}
use pony.Prelude.Int.{pos}
use pony.Prelude.Map.{lookup}
use pony.Prelude.Text.{codes}
use pony.Tag.{vmess, wireguard, tag_eq}
use pony.Env.{dev, env_eq}
use pony.Subscription.{Subscription, is_active}
use pony.Connection.{xray, proto_tag, proto_wireguard}
use pony.Connections.{get_by_subscription_id}
use pony.Wireguard.{v4}
use pony.Inbound.{Inbound, StreamSettings, tcp}
use pony.Inbound.Link.{create_link, link_of, wireguard_config}
use pony.Inbound.Clash.{ClashConfig, clash_config}
use pony.Node.{Node}
use pony.Nodes.{get_by_env}
use pony.Sync.World.{World}
use pony.Sync.Operations.{SubReq, apply_req}
use pony.Handlers.Subscriptions.{
  IsApplied, Written, Refused, put_subscription_handler, put_subscription_handler_lem,
}
use pony.Links.{
  SubscriptionInfoRequest, all_xray, clash, profile, tags, validate, at_nodes, is_wanted,
  inbounds_list, served, proxies, formatted, reply_with, subscription_link_handler,
}
use pony.Links.Profile.{HasProxy, subscription_link_handler_profile}
use pony.Links.Peers.{
  ConnectionInfoRequest, PeerConfig, listed, is_listed, each_conn, is_served, list_conns,
  configs_at, wireguard_connections_handler,
}
use pony.Links.Peers.Listed.{IsConfig, wireguard_connections_handler_lem}
use pony.Links.Summary.{SubscriptionResponse, get_subscription_info_json}
use pony.Links.Summary.Flags.{AreRight, get_subscription_info_json_lem}
use pony.Tests.Crates.{chrono}
use pony.Tests.Data.{ten, up, now, peer, conn_of, paid, unlimited}
use pony.Tests.Fleet.{berlin_node}
use pony.Tests.Links.{plain, h2_inbound}

abbrev stream : StreamSettings
stream = record {
  network = tcp;
  tcp_settings = some (record {
    header = some (record {
      type = codes "http";
      request = some (record {
        method = codes "GET";
        path = [];
        headers = some ((codes "Host", codes "a.b" ∷ []) ∷ []);
      });
    });
  });
  reality_settings = none;
  grpc_settings = none;
  xhttp_settings = none;
}

abbrev vmess_inbound : Inbound
vmess_inbound = record h2_inbound { tag = vmess; stream_settings = some stream }

abbrev wg_inbound : Inbound
wg_inbound = record h2_inbound {
  tag = wireguard;
  wg = some (record {
    interface = codes "wg0";
    address = record { address = v4 (ten + 1); cidr = 24 };
    port = 51820;
    privkey = codes "server";
    dns = [];
  });
}

abbrev serving : Node
serving = record berlin_node { inbounds = (vmess, vmess_inbound) ∷ (wireguard, wg_inbound) ∷ [] }

abbrev world : World
world = record {
  cache = record {
    connections = (1, peer) ∷ (4, conn_of (xray vmess) none) ∷ [];
    subscriptions = (7, paid) ∷ [];
    nodes = (dev, serving ∷ []) ∷ [];
  };
  events = [];
}

abbrev request : SubscriptionInfoRequest
request = record { id = 7; format = clash; env = dev; proto = all_xray }

abbrev expected : ClashConfig
expected = clash_config (proxies plain (served request world))

answered : subscription_link_handler plain now request world ≡ profile expected
unfolding subscription_link_handler validate lookup is_active served get_by_subscription_id
    inbounds_list is_wanted tags proto_tag get_by_env at_nodes reply_with formatted
answered = refl

subscription_link_handler_profile_example :
    ((sub : Subscription) × (lookup 7 world.cache.subscriptions ≡ some sub)
      × (is_active now sub ≡ true))
    × (expected ≡ clash_config (proxies plain (served request world)))
    × All (HasProxy plain expected.proxies) (served request world)
subscription_link_handler_profile_example =
    subscription_link_handler_profile plain now request world expected answered

abbrev peers : ConnectionInfoRequest
peers = record { id = 7; env = dev }

abbrev config : PeerConfig
config = record {
  conn_id = 1;
  label = codes "Berlin";
  env = dev;
  config =
      codes "key"
      ∷ []
      ∷ []
      ∷ codes "server"
      ∷ (1 ∷ [])
      ∷ (51820 ∷ [])
      ∷ codes "Berlin"
      ∷ (1 ∷ [])
      ∷ [];
}

handed_out : wireguard_connections_handler plain now peers world ≡ listed (config ∷ [])
unfolding wireguard_connections_handler list_conns is_served lookup is_active get_by_subscription_id
    each_conn is_listed proto_tag get_by_env configs_at create_link link_of wireguard_config
    proto_wireguard
handed_out = refl

wireguard_connections_handler_lem_example :
    ((sub : Subscription)
      → lookup 7 world.cache.subscriptions ≡ some sub
      → is_active now sub ≡ true)
    × All (IsConfig plain peers world) (config ∷ [])
wireguard_connections_handler_lem_example =
    wireguard_connections_handler_lem plain now peers world (config ∷ []) handed_out

-- The subscription is gone, its connections are not.
abbrev orphaned : World
orphaned = record world { cache = record world.cache { subscriptions = [] } }

valid : validate request ≡ true
unfolding validate
valid = refl

gone : lookup 7 orphaned.cache.subscriptions ≡ none
unfolding lookup
gone = refl

has_connections : get_by_subscription_id 7 orphaned.cache.connections ≡ some world.cache.connections
unfolding get_by_subscription_id
has_connections = refl

get_subscription_info_json_lem_example :
    ((lookup 7 world.cache.subscriptions ≡ none)
      × (get_subscription_info_json chrono 0 now 7 world ≡ none))
    ⊎ ((sub : Subscription) × (r : SubscriptionResponse) × (lookup 7 world.cache.subscriptions
          ≡ some sub)
        × (get_subscription_info_json chrono 0 now 7 world ≡ some r)
        × (r.id ≡ sub.id)
        × AreRight world 7 r.locations)
get_subscription_info_json_lem_example = get_subscription_info_json_lem chrono 0 now 7 world

abbrev bound : SubReq
bound = record { referred_by = none; refer_code = none; days = none; limit_bytes = some (pos 10) }

abbrev unlimited_world : World
unlimited_world = record world {
  cache = record world.cache { subscriptions = (7, unlimited) ∷ [] };
}

unlimited_there : lookup 7 unlimited_world.cache.subscriptions ≡ some unlimited
unfolding lookup
unlimited_there = refl

put_subscription_handler_lem_example :
    (lookup 7 (put_subscription_handler up now chrono 7 bound unlimited_world).0.cache.subscriptions
      ≡ some (apply_req up now chrono bound unlimited))
    × IsApplied up now chrono bound unlimited (apply_req up now chrono bound unlimited)
    × (Written up now chrono 7 bound unlimited unlimited_world
          (put_subscription_handler up now chrono 7 bound unlimited_world)
        ⊎ Refused up now chrono 7 unlimited unlimited_world
            (put_subscription_handler up now chrono 7 bound unlimited_world))
put_subscription_handler_lem_example =
    put_subscription_handler_lem up now chrono 7 bound unlimited_world unlimited unlimited_there
