-- ===== src/Inbound.antt =====
-- src/config/inbound.rs: the inbounds of a node, with their settings and counters. A HashMap is an
-- association list, and its equality is that of `HashMap`, whatever the order of the entries.
pub mod Link
pub mod Clash
pub mod Complete
use pony.Prelude.{
  ℕ, Bool, true, false, ◌&&◌, List, [], ◌∷◌, Option, none, some, nat_eqb, nat_eq, list_eqb, list_eq,
  option_eqb, option_eq, if◌then◌else◌, length, PartialEq, ◌==◌,
}
use pony.Prelude.Int.{ℤ, pos, int_eqb, int_eq}
use pony.Prelude.Map.{Map, lookup}
use pony.Prelude.Text.{Text}
use pony.Tag.{ProtoTag, tag_eqb}
use pony.Wireguard.{IpAddrMask}
use pony.Connection.{addr_eqb}
use pony.Subscription.{bool_eqb}

pub data Network : Type 0 where
  xhttp grpc tcp ws : Network

pub record GrpcSettings : Type 0 where
  pub service_name : Text

pub record RealitySettings : Type 0 where
  pub server_names : List Text
  pub private_key : Text
  pub public_key : Text
  pub short_ids : List Text
  pub target : Text

pub record XhttpSettings : Type 0 where
  pub path : Text

pub record TcpRequest : Type 0 where
  pub method : Text
  pub path : List Text
  pub headers : Option (Map Text (List Text))

pub record TcpHeader : Type 0 where
  pub type : Text
  pub request : Option TcpRequest

pub record TcpSettings : Type 0 where
  pub header : Option TcpHeader

pub record StreamSettings : Type 0 where
  pub network : Network
  pub tcp_settings : Option TcpSettings
  pub reality_settings : Option RealitySettings
  pub grpc_settings : Option GrpcSettings
  pub xhttp_settings : Option XhttpSettings

-- src/config/wireguard.rs; the keys are the one text of `WgKeys`.
pub record WireguardSettings : Type 0 where
  pub interface : Text
  pub address : IpAddrMask
  pub port : ℕ
  pub privkey : Text
  pub dns : List ℕ

-- src/config/h2.rs
pub record H2Obfs : Type 0 where
  pub type : Text
  pub password : Text

pub record H2AuthInfo : Type 0 where
  pub auth_type : Text
  pub has_password : Bool
  pub has_url : Bool

pub record H2Settings : Type 0 where
  pub host : Text
  pub port : ℕ
  pub sni : Option Text
  pub insecure : Bool
  pub obfs : Option H2Obfs
  pub alpn : Option (List Text)
  pub up_mbps : Option ℕ
  pub down_mbps : Option ℕ
  pub auth_info : Option H2AuthInfo

pub record Inbound : Type 0 where
  pub tag : ProtoTag
  pub port : ℕ
  pub stream_settings : Option StreamSettings
  pub uplink : Option ℤ
  pub downlink : Option ℤ
  pub conn_count : Option ℤ
  pub wg : Option WireguardSettings
  pub h2 : Option H2Settings
  pub mtproto_secret : Option Text

pub record InboundResponse : Type 0 where
  pub tag : ProtoTag
  pub port : ℕ
  pub stream_settings : Option StreamSettings
  pub wg : Option WireguardSettings
  pub h2 : Option H2Settings
  pub mtproto_secret : Option Text

pub as_inbound_response : Inbound → InboundResponse
as_inbound_response i = record {
  port = i.port;
  stream_settings = i.stream_settings;
  tag = i.tag;
  wg = i.wg;
  h2 = i.h2;
  mtproto_secret = i.mtproto_secret;
}

-- `Stat` of src/memory/node.rs
pub record InboundStat : Type 0 where
  pub downlink : ℤ
  pub uplink : ℤ
  pub conn_count : ℤ

abbrev or_zero : Option ℤ → ℤ
or_zero none = pos 0
or_zero (some n) = n

unfoldable pub as_inbound_stat : Inbound → InboundStat
as_inbound_stat i = record {
  uplink = or_zero i.uplink;
  downlink = or_zero i.downlink;
  conn_count = or_zero i.conn_count;
}

unfoldable pub update_uplink : ℤ → Inbound → Inbound
update_uplink new_uplink i = record i { uplink = some new_uplink }

unfoldable pub update_downlink : ℤ → Inbound → Inbound
update_downlink new_downlink i = record i { downlink = some new_downlink }

unfoldable pub update_conn_count : ℤ → Inbound → Inbound
update_conn_count new_conn_count i = record i { conn_count = some new_conn_count }

-- The derived `PartialEq`.
abbrev pub option_eqb_by : {A : Type 0} → (A → A → Bool) → Option A → Option A → Bool
option_eqb_by eqb none none = true
option_eqb_by eqb (some a) (some b) = eqb a b
option_eqb_by eqb _ _ = false

-- Every entry of one map is in the other, with an equal value.
abbrev covered_by : {K V : Type 0} ⦃e : PartialEq K⦄ → (V → V → Bool) → Map K V → Map K V → Bool
covered_by eqb [] b = true
covered_by eqb ((k, v) ∷ a) b =
    elim (lookup k b) [ some w ↦ eqb v w | none ↦ false ] && covered_by eqb a b

abbrev pub map_eqb : {K V : Type 0} ⦃e : PartialEq K⦄ → (V → V → Bool) → Map K V → Map K V → Bool
map_eqb eqb a b = nat_eqb (length a) (length b) && covered_by eqb a b

abbrev network_eqb : Network → Network → Bool
network_eqb xhttp xhttp = true
network_eqb grpc grpc = true
network_eqb tcp tcp = true
network_eqb ws ws = true
network_eqb _ _ = false

abbrev request_eqb : TcpRequest → TcpRequest → Bool
request_eqb a b =
    a.method == b.method && a.path == b.path && option_eqb_by (map_eqb list_eqb) a.headers b.headers

abbrev header_eqb : TcpHeader → TcpHeader → Bool
header_eqb a b = a.type == b.type && option_eqb_by request_eqb a.request b.request

abbrev reality_eqb : RealitySettings → RealitySettings → Bool
reality_eqb a b =
    a.server_names == b.server_names
    && a.private_key == b.private_key
    && a.public_key == b.public_key
    && a.short_ids == b.short_ids
    && a.target == b.target

abbrev stream_eqb : StreamSettings → StreamSettings → Bool
stream_eqb a b =
    network_eqb a.network b.network
    && option_eqb_by (λ s t. option_eqb_by header_eqb s.header t.header) a.tcp_settings
        b.tcp_settings
    && option_eqb_by reality_eqb a.reality_settings b.reality_settings
    && option_eqb_by (λ s t. s.service_name == t.service_name) a.grpc_settings b.grpc_settings
    && option_eqb_by (λ s t. s.path == t.path) a.xhttp_settings b.xhttp_settings

abbrev wireguard_eqb : WireguardSettings → WireguardSettings → Bool
wireguard_eqb a b =
    a.interface == b.interface
    && addr_eqb a.address.address b.address.address
    && nat_eqb a.address.cidr b.address.cidr
    && nat_eqb a.port b.port
    && a.privkey == b.privkey
    && a.dns == b.dns

abbrev h2_eqb : H2Settings → H2Settings → Bool
h2_eqb a b =
    a.host == b.host
    && nat_eqb a.port b.port
    && a.sni == b.sni
    && bool_eqb a.insecure b.insecure
    && option_eqb_by (λ s t. s.type == t.type && s.password == t.password) a.obfs b.obfs
    && a.alpn == b.alpn
    && a.up_mbps == b.up_mbps
    && a.down_mbps == b.down_mbps
    && option_eqb_by
        (λ s t.
          s.auth_type == t.auth_type
          && bool_eqb s.has_password t.has_password
          && bool_eqb s.has_url t.has_url)
        a.auth_info b.auth_info

unfoldable pub inbound_eqb : Inbound → Inbound → Bool
inbound_eqb a b =
    tag_eqb a.tag b.tag
    && nat_eqb a.port b.port
    && option_eqb_by stream_eqb a.stream_settings b.stream_settings
    && a.uplink == b.uplink
    && a.downlink == b.downlink
    && a.conn_count == b.conn_count
    && option_eqb_by wireguard_eqb a.wg b.wg
    && option_eqb_by h2_eqb a.h2 b.h2
    && a.mtproto_secret == b.mtproto_secret
