-- ===== src/Tests/Links.antt =====
-- Links of a subscription.
use pony.Prelude.{
  inl, List, IsIn, ◌≡◌, ◌≢◌, refl, arith, true, false, [], ◌∷◌, ◌++◌, none, some, nat_eq, any, All,
}
use pony.Prelude.Map.{lookup}
use pony.Prelude.Text.{Text, codes}
use pony.Tag.{hysteria2, shadowsocks}
use pony.Env.{dev, env_eq}
use pony.Subscription.{Subscription, is_active}
use pony.Connection.{proto_tag, proto_token, ss}
use pony.Connections.{get_by_subscription_id}
use pony.Inbound.{Inbound, H2Settings}
use pony.Inbound.Link.{LinkText, h2_link, link_of, create_link}
use pony.Node.{Node}
use pony.Nodes.{get_by_env}
use pony.Sync.World.{World}
use pony.Links.{
  SubscriptionInfoRequest, only_hysteria2, all_xray, txt, clash, tags, validate, at_nodes,
  is_wanted, inbounds_list, served, links, text, formatted, reply_with, subscription_link_handler,
}
use pony.Links.Selection.{
  IsOffered, WasOffered, AreLinks, subscription_link_handler_lem, is_shadowsocks,
}
use pony.Links.Completeness.{subscription_link_handler_complete}
use pony.Tests.Data.{now, hysteria, conn_of, paid}
use pony.Tests.Fleet.{berlin_node}

abbrev pub plain : LinkText
plain = record {
  uuid = λ id. id ∷ [];
  address = λ ip. ip ∷ [];
  mask = λ m. [];
  decimal = λ n. n ∷ [];
  pubkey = λ key. some key;
  url = λ base pairs fragment. some base;
  json_base64 = λ fields. some [];
  last_octet = λ id. id ∷ [];
}

abbrev h2_settings : H2Settings
h2_settings = record {
  host = codes "h";
  port = 443;
  sni = none;
  insecure = false;
  obfs = none;
  alpn = none;
  up_mbps = none;
  down_mbps = none;
  auth_info = none;
}

abbrev pub h2_inbound : Inbound
h2_inbound = record {
  tag = hysteria2;
  port = 443;
  stream_settings = none;
  uplink = none;
  downlink = none;
  conn_count = none;
  wg = none;
  h2 = some h2_settings;
  mtproto_secret = none;
}

abbrev ss_inbound : Inbound
ss_inbound = record h2_inbound { tag = shadowsocks }

abbrev serving : Node
serving = record berlin_node { inbounds = (hysteria2, h2_inbound) ∷ (shadowsocks, ss_inbound) ∷ [] }

abbrev world : World
world = record {
  cache = record {
    connections = (2, hysteria) ∷ (4, conn_of (ss (codes "secret")) none) ∷ [];
    subscriptions = (7, paid) ∷ [];
    nodes = (dev, serving ∷ []) ∷ [];
  };
  events = [];
}

abbrev request : SubscriptionInfoRequest
request = record { id = 7; format = txt; env = dev; proto = only_hysteria2 }

abbrev link : Text
link = codes "hysteria2://" ++ (77 ∷ []) ++ codes "@" ++ codes "h" ++ codes ":" ++ 443 ∷ []

answered : subscription_link_handler plain now request world ≡ text (some 5000) ((link ∷ []) ∷ [])
unfolding subscription_link_handler validate lookup is_active served get_by_subscription_id
    inbounds_list is_wanted tags proto_tag get_by_env at_nodes reply_with formatted links
    create_link link_of h2_link proto_token
answered = refl

subscription_link_handler_lem_example :
    ((sub : Subscription) × (lookup 7 world.cache.subscriptions ≡ some sub)
      × (is_active now sub ≡ true)
      × (some 5000 ≡ sub.expires_at))
    × AreLinks plain (served request world) ((link ∷ []) ∷ [])
    × All (WasOffered request world.cache.nodes world.cache.connections) (served request world)
subscription_link_handler_lem_example =
    subscription_link_handler_lem plain now request world (some 5000) ((link ∷ []) ∷ []) answered

abbrev xray_request : SubscriptionInfoRequest
xray_request = record request { proto = all_xray }

valid : validate xray_request ≡ true
unfolding validate
valid = refl

stored : lookup 7 world.cache.subscriptions ≡ some paid
unfolding lookup
stored = refl

active : is_active now paid ≡ true
unfolding is_active
active = refl

not_clash : txt ≢ clash
not_clash = ground arith

has_shadowsocks : any is_shadowsocks (served xray_request world) ≡ true
unfolding served get_by_subscription_id inbounds_list is_wanted tags proto_tag get_by_env lookup
    at_nodes
has_shadowsocks = refl

offered : IsOffered request world.cache.nodes world.cache.connections 2 hysteria serving h2_inbound
unfolding tags proto_tag get_by_env lookup
offered = (inl refl, (refl, refl, refl, refl), ((serving ∷ [], refl, inl refl), refl))

subscription_link_handler_complete_example :
    (l : List Text) × (create_link plain h2_inbound 2 hysteria serving.address serving.label
      ≡ some l)
    × IsIn l ((link ∷ []) ∷ [])
subscription_link_handler_complete_example =
    subscription_link_handler_complete plain now request world (some 5000) ((link ∷ []) ∷ []) 2
      hysteria serving h2_inbound answered offered
