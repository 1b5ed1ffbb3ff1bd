-- ===== src/Node/Start.antt =====
-- The start of a node: src/config/settings.rs (`NodeConfig`), the settings of Hysteria2, WireGuard
-- and MTProto in src/config/h2.rs, src/config/wireguard.rs and src/config/mtproto.rs, and
-- `Node::new` of src/memory/node.rs. The files are read by serde.
pub mod Inbounds
pub mod Run
use pony.Prelude.{
  ℕ, Bool, true, false, not, List, [], ◌∷◌, ◌++◌, Option, none, some, nat_eqb, if◌then◌else◌,
}
use pony.Prelude.Int.{ℤ}
use pony.Prelude.Map.{Map, insert}
use pony.Prelude.Text.{Text, codes}
use pony.Subscription.{Uuid, DateTime}
use pony.Env.{Env}
use pony.Tag.{ProtoTag, wireguard, mtproto, hysteria2, tag_eq}
use pony.Wireguard.{AddrText, IpAddr, v4, v6, from_str}
use pony.Inbound.Link.{◌>>=◌}
use pony.Inbound.{Inbound, WireguardSettings, H2Obfs, H2AuthInfo, H2Settings}
use pony.Node.{Node, NodeType, online, type_from_str}

pub record NodeConfigRaw : Type 0 where
  pub env : Env
  pub hostname : Option Text
  pub default_interface : Text
  pub address : ℕ
  pub uuid : Uuid
  pub label : Text
  pub max_bandwidth_bps : ℤ
  pub country : Text
  pub type : Text

pub record NodeConfig : Type 0 where
  pub env : Env
  pub hostname : Text
  pub default_interface : Text
  pub address : ℕ
  pub uuid : Uuid
  pub label : Text
  pub max_bandwidth_bps : ℤ
  pub cores : ℕ
  pub country : Text
  pub type : NodeType

abbrev pub hostname_or : {A : Type 0} → Option A → Option A → Option A
hostname_or (some a) b = some a
hostname_or none b = b

abbrev pub unwrap_or : {A : Type 0} → A → Option A → A
unwrap_or d none = d
unwrap_or d (some a) = a

-- `available_parallelism` and `$HOSTNAME` are arguments.
unfoldable pub from_raw : Option ℕ → Option Text → NodeConfigRaw → Option NodeConfig
from_raw parallelism host_var raw = parallelism >>= λ num_cpus.
    hostname_or raw.hostname host_var >>= λ hostname. some (record {
      env = raw.env;
      hostname = hostname;
      default_interface = raw.default_interface;
      address = raw.address;
      uuid = raw.uuid;
      label = raw.label;
      max_bandwidth_bps = raw.max_bandwidth_bps;
      cores = num_cpus;
      country = raw.country;
      type = type_from_str raw.type;
    })

-- src/config/h2.rs
pub record AcmeConfig : Type 0 where
  pub domains : Option (List Text)
  pub email : Option Text
  pub type : Option Text
  pub dir : Option Text

pub record AuthConfig : Type 0 where
  pub type : Option Text
  pub password : Option Text
  pub url : Option Text

pub record HysteriaObfs : Type 0 where
  pub type : Option Text
  pub password : Option Text

pub record Masquerade : Type 0 where
  pub type : Text

pub record Hysteria2Settings : Type 0 where
  pub listen : Option Text
  pub acme : Option AcmeConfig
  pub auth : Option AuthConfig
  pub obfs : Option HysteriaObfs
  pub masquerade : Option Masquerade

abbrev pub is_present : {A : Type 0} → Option A → Bool
is_present none = false
is_present (some a) = true

unfoldable pub validate_h2 : Hysteria2Settings → Bool
validate_h2 s = if is_present s.listen then is_present s.auth else false

-- `listen.split(':').next_back()`
abbrev pub after_last_colon : Text → Text → Text
after_last_colon part [] = part
after_last_colon part (c ∷ s) =
    if nat_eqb c b':' then after_last_colon [] s else after_last_colon (part ++ c ∷ []) s

abbrev pub first_domain : Option AcmeConfig → Option Text
first_domain none = none
first_domain (some a) = elim a.domains [
  | none ↦ none
  | some ds ↦ elim ds [ [] ↦ none | d ∷ _ ↦ some d ]
]

abbrev pub auth_info_of : AuthConfig → H2AuthInfo
auth_info_of a = record {
  auth_type = unwrap_or (codes "unknown") a.type;
  has_password = is_present a.password;
  has_url = is_present a.url;
}

abbrev pub obfs_of : HysteriaObfs → H2Obfs
obfs_of o = record { type = unwrap_or [] o.type; password = unwrap_or [] o.password }

abbrev pub map_option : {A B : Type 0} → (A → B) → Option A → Option B
map_option f none = none
map_option f (some a) = some (f a)

-- `TryFrom<Hysteria2Settings>`; `parse_u16` is that of the standard library.
unfoldable pub h2_try_from : (Text → Option ℕ) → Hysteria2Settings → Option H2Settings
h2_try_from parse_u16 server = server.listen >>= λ listen.
    parse_u16 (after_last_colon [] listen) >>= λ port. first_domain server.acme >>= λ host.
    some (record {
      host = host;
      port = port;
      sni = some host;
      insecure = false;
      obfs = map_option obfs_of server.obfs;
      alpn = some (codes "h2" ∷ codes "http/1.1" ∷ []);
      up_mbps = none;
      down_mbps = none;
      auth_info = map_option auth_info_of server.auth;
    })

-- src/config/wireguard.rs
pub record WireguardServerConfig : Type 0 where
  pub interface : Text
  pub address : Text
  pub port : ℕ
  pub private_key : Text
  pub dns : Option (List Text)

abbrev ipv4_only : IpAddr → Option ℕ
ipv4_only (v4 ip) = some ip
ipv4_only (v6 ip) = none

-- `collect` into a result
abbrev pub parse_all : AddrText → List Text → Option (List ℕ)
parse_all t [] = some []
parse_all t (d ∷ ds) =
    let rest = parse_all t ds in
    t.parse_ip d >>= ipv4_only >>= λ ip. rest >>= λ ips. some (ip ∷ ips)

unfoldable pub wireguard_try_from : AddrText → WireguardServerConfig → Option WireguardSettings
wireguard_try_from t cfg = from_str t cfg.address >>= λ address.
    parse_all t (unwrap_or [] cfg.dns) >>= λ dns. some (record {
      interface = cfg.interface;
      address = address;
      port = cfg.port;
      privkey = cfg.private_key;
      dns = dns;
    })

-- src/config/mtproto.rs
pub record SecretEntry : Type 0 where
  pub key : Text
  pub label : Text

pub record MtprotoSettings : Type 0 where
  pub port : ℕ
  pub secret : List SecretEntry

-- The inbounds of `Node::new`.
abbrev pub plain_inbound : ProtoTag → ℕ → Inbound
plain_inbound tag port = record {
  tag = tag;
  port = port;
  stream_settings = none;
  uplink = none;
  downlink = none;
  conn_count = none;
  wg = none;
  h2 = none;
  mtproto_secret = none;
}

unfoldable pub insert_xray : List Inbound → Map ProtoTag Inbound → Map ProtoTag Inbound
insert_xray [] m = m
insert_xray (i ∷ inbounds) m = insert_xray inbounds (insert i.tag i m)

unfoldable pub insert_wg : Option WireguardSettings → Map ProtoTag Inbound → Map ProtoTag Inbound
insert_wg none m = m
insert_wg (some c) m = insert wireguard (record (plain_inbound wireguard c.port) { wg = some c }) m

-- `none` is the panic of `secret[0]`.
unfoldable pub insert_mtproto :
    Option MtprotoSettings → Map ProtoTag Inbound → Option (Map ProtoTag Inbound)
insert_mtproto none m = some m
insert_mtproto (some c) m = elim c.secret [
  | [] ↦ none
  | entry ∷ _ ↦
      some (
        insert mtproto (record (plain_inbound mtproto c.port) { mtproto_secret = some entry.key })
          m)
]

unfoldable pub insert_h2 : Option H2Settings → Map ProtoTag Inbound → Map ProtoTag Inbound
insert_h2 none m = m
insert_h2 (some c) m = insert hysteria2 (record (plain_inbound hysteria2 c.port) { h2 = some c }) m

-- `Node::new`; the settings of Xray are their inbounds.
unfoldable pub new_node :
    DateTime
    → NodeConfig
    → Option (List Inbound)
    → Option WireguardSettings
    → Option H2Settings
    → Option MtprotoSettings
    → Option Node
new_node now settings xray_config wg_config h2_config mtproto_config =
    insert_mtproto mtproto_config (insert_wg wg_config (insert_xray (unwrap_or [] xray_config) []))
    >>= λ inbounds. some (record {
      uuid = settings.uuid;
      env = settings.env;
      hostname = settings.hostname;
      address = settings.address;
      status = online;
      label = settings.label;
      interface = settings.default_interface;
      created_at = now;
      modified_at = now;
      inbounds = insert_h2 h2_config inbounds;
      cores = settings.cores;
      max_bandwidth_bps = settings.max_bandwidth_bps;
      country = settings.country;
      type = settings.type;
    })
