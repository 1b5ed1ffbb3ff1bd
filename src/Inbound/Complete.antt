-- ===== src/Inbound/Complete.antt =====
-- When there is a link.
use pony.Prelude.{
  ℕ, ◌≡◌, Bool, true, false, ◌&&◌, List, [], ◌∷◌, Option, none, some, arith, nat_eq, list_eq,
}
use pony.Prelude.Map.{lookup}
use pony.Prelude.Text.{Text, codes}
use pony.Tag.{
  ProtoTag, vless_tcp_reality, vless_grpc_reality, vless_xhttp_reality, vmess, shadowsocks,
  wireguard, hysteria2, mtproto,
}
use pony.Subscription.{Uuid}
use pony.Connection.{Conn, proto_wireguard, proto_token}
use pony.Inbound.{Inbound}
use pony.Inbound.Link.{
  LinkText, vless_xtls, vless_grpc, vless_xhttp, vmess_link, h2_link, mtproto_link,
  wireguard_config, link_of, create_link,
}

abbrev holds : {A : Type 0} → Option A → (A → Bool) → Bool
holds none f = false
holds (some a) f = f a

abbrev any_of : {A : Type 0} → List A → Bool
any_of [] = false
any_of (x ∷ xs) = true

abbrev always : {A : Type 0} → A → Bool
always a = true

-- The settings that a link of the protocol needs are there.
abbrev pub is_complete : LinkText → Inbound → Conn → ProtoTag → Bool
is_complete t i conn vless_tcp_reality =
    holds i.stream_settings
      λ s. holds s.reality_settings λ r. any_of r.short_ids && any_of r.server_names
is_complete t i conn vless_grpc_reality =
    holds i.stream_settings λ s. holds s.reality_settings always && holds s.grpc_settings always
is_complete t i conn vless_xhttp_reality =
    holds i.stream_settings λ s. holds s.reality_settings always && holds s.xhttp_settings always
is_complete t i conn vmess = holds i.stream_settings λ s. holds s.tcp_settings λ tcp.
    holds tcp.header λ header. holds header.request λ req.
      holds req.headers (λ headers. holds (lookup (codes "Host") headers) any_of) && any_of req.path
is_complete t i conn hysteria2 = holds i.h2 always && holds (proto_token conn.proto) always
is_complete t i conn mtproto = holds i.mtproto_secret always
is_complete t i conn wireguard =
    holds (proto_wireguard conn.proto) always && holds i.wg λ wg. holds (t.pubkey wg.privkey) always
is_complete t i conn shadowsocks = false

link_of_lem :
    (t : LinkText) (i : Inbound) (conn_id : Uuid) (conn : Conn) (address : ℕ) (label : Text)
    (tag : ProtoTag)
    → is_complete t i conn tag ≡ false
    → link_of t i conn_id conn address label tag ≡ none
unfolding link_of vless_xtls vless_grpc vless_xhttp vmess_link h2_link mtproto_link wireguard_config
link_of_lem t i conn_id conn address label _ h = ground (arith, h)

-- Without the settings that its protocol needs, an inbound gives an error and no link: no link holds
-- a part missing. For Shadowsocks there is none at all.
pub create_link_incomplete :
    (t : LinkText) (i : Inbound) (conn_id : Uuid) (conn : Conn) (address : ℕ) (label : Text)
    → is_complete t i conn i.tag ≡ false
    → create_link t i conn_id conn address label ≡ none
unfolding create_link
create_link_incomplete t i conn_id conn address label h =
    link_of_lem t i conn_id conn address label i.tag h
