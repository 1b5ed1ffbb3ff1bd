-- ===== src/Links.antt =====
-- src/bin/api/http/handlers/subscription.rs: the links of a subscription, with the request of
-- src/bin/api/http/request.rs. The head of a text and its base64 form are left out: a reply
-- has the expiry and the links, or the profile for Clash.
pub mod Selection
pub mod Completeness
pub mod Profile
pub mod Peers
pub mod Summary
use pony.Prelude.{
  ℕ, Bool, true, false, not, ◌&&◌, List, [], ◌∷◌, ◌++◌, Option, none, some, nat_eq, if◌then◌else◌,
  any, ◌==◌,
}
use pony.Prelude.Map.{Map, lookup}
use pony.Prelude.Text.{Text}
use pony.Env.{Env, env_eq}
use pony.Tag.{
  ProtoTag, vless_tcp_reality, vless_grpc_reality, vless_xhttp_reality, vmess, shadowsocks,
  wireguard, hysteria2, mtproto, tag_eqb, tag_eq,
}
use pony.Subscription.{Uuid, DateTime, Subscription, is_active}
use pony.Connection.{proto_tag, Conn}
use pony.Connections.{get_by_subscription_id}
use pony.Inbound.{Inbound}
use pony.Inbound.Link.{LinkText, create_link}
use pony.Inbound.Clash.{ClashProxy, ClashConfig, clash_config, proxy}
use pony.Node.{Node}
use pony.Nodes.{Nodes, get_by_env}
use pony.Sync.World.{World}

pub data TagReq : Type 0 where
  all_xray only_wireguard only_hysteria2 only_mtproto : TagReq

pub data FormatReq : Type 0 where
  base64 txt clash : FormatReq

-- `TagReq::tags`
unfoldable pub tags : TagReq → List ProtoTag
tags all_xray =
    vless_tcp_reality ∷ vless_grpc_reality ∷ vless_xhttp_reality ∷ vmess ∷ shadowsocks ∷ []
tags only_wireguard = wireguard ∷ []
tags only_hysteria2 = hysteria2 ∷ []
tags only_mtproto = mtproto ∷ []

unfoldable pub allowed_formats : TagReq → List FormatReq
allowed_formats all_xray = txt ∷ base64 ∷ clash ∷ []
allowed_formats only_wireguard = []
allowed_formats only_hysteria2 = txt ∷ base64 ∷ []
allowed_formats only_mtproto = []

pub record SubscriptionInfoRequest : Type 0 where
  pub id : Uuid
  pub format : FormatReq
  pub env : Env
  pub proto : TagReq

abbrev pub format_eqb : FormatReq → FormatReq → Bool
format_eqb base64 base64 = true
format_eqb txt txt = true
format_eqb clash clash = true
format_eqb _ _ = false

unfoldable pub validate : SubscriptionInfoRequest → Bool
unfolding allowed_formats
validate req = any (λ f. format_eqb f req.format) (allowed_formats req.proto)

-- An element of `inbounds_list`.
pub record Served : Type 0 where
  pub inbound : Inbound
  pub conn_id : Uuid
  pub conn : Conn
  pub hostname : Text
  pub address : ℕ
  pub label : Text

unfoldable pub at_nodes : Uuid → Conn → List Node → List Served
at_nodes conn_id conn [] = []
at_nodes conn_id conn (node ∷ nodes) =
    let rest = at_nodes conn_id conn nodes in
    elim (lookup (proto_tag conn.proto) node.inbounds) [
      | none ↦ rest
      | some inbound ↦
          record {
            inbound = inbound;
            conn_id = conn_id;
            conn = conn;
            hostname = node.hostname;
            address = node.address;
            label = node.label;
          }
          ∷ rest
    ]

-- The two `continue` of the loop.
unfoldable pub is_wanted : SubscriptionInfoRequest → Conn → Bool
is_wanted req conn =
    not conn.is_deleted
    && conn.env == req.env
    && any (λ tag. tag_eqb tag (proto_tag conn.proto)) (tags req.proto)

unfoldable pub inbounds_list : SubscriptionInfoRequest → Nodes → List (Uuid × Conn) → List Served
inbounds_list req nodes [] = []
inbounds_list req nodes ((conn_id, conn) ∷ conns) =
    let rest = inbounds_list req nodes conns in
    if is_wanted req conn
    then elim (get_by_env conn.env nodes) [
      | some ns ↦ at_nodes conn_id conn ns ++ rest
      | none ↦ rest
    ]
    else rest

-- The inbounds of the request in a world.
unfoldable pub served : SubscriptionInfoRequest → World → List Served
served req w = elim (get_by_subscription_id req.id w.cache.connections) [
  | some conns ↦ inbounds_list req w.cache.nodes conns
  | none ↦ []
]

pub data LinkReply : Type 0 where
  bad expired missing no_nodes failed : LinkReply
  text : Option DateTime → List (List Text) → LinkReply
  profile : ClashConfig → LinkReply

abbrev pub as_text : Option DateTime → Option (List (List Text)) → LinkReply
as_text expires_at none = failed
as_text expires_at (some ls) = text expires_at ls

module _ (t : LinkText) where
  -- `collect` into a `Result`: one error is an error of the whole.
  unfoldable pub links : List Served → Option (List (List Text))
  links [] = some []
  links (s ∷ rest) =
      let more = links rest in
      elim (create_link t s.inbound s.conn_id s.conn s.address s.label) [
        | none ↦ none
        | some link ↦ elim more [ none ↦ none | some ls ↦ some (link ∷ ls) ]
      ]

  -- `filter_map`
  unfoldable pub proxies : List Served → List ClashProxy
  proxies [] = []
  proxies (s ∷ rest) =
      let more = proxies rest in
      elim (proxy t s.inbound s.conn_id s.address s.label) [ none ↦ more | some p ↦ p ∷ more ]

  unfoldable pub formatted : FormatReq → Option DateTime → List Served → LinkReply
  formatted txt expires_at list = as_text expires_at (links list)
  formatted base64 expires_at list = as_text expires_at (links list)
  formatted clash expires_at list = profile (clash_config (proxies list))

  unfoldable pub reply_with : FormatReq → Option DateTime → List Served → LinkReply
  reply_with format expires_at [] = no_nodes
  reply_with format expires_at (s ∷ list) = formatted format expires_at (s ∷ list)

  unfoldable pub subscription_link_handler : DateTime → SubscriptionInfoRequest → World → LinkReply
  subscription_link_handler now req w =
      if validate req
      then elim (lookup req.id w.cache.subscriptions) [
        | none ↦ missing
        | some sub ↦
            if is_active now sub
            then reply_with req.format sub.expires_at (served req w)
            else expired
      ]
      else bad
