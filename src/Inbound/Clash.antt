-- ===== src/Inbound/Clash.antt =====
-- src/config/clash.rs: the profile for Clash. A proxy is made of an inbound; `none` is an inbound
-- without one. Fields that are the same in every profile are written out as in the source.
use pony.Prelude.{ℕ, Bool, true, List, [], ◌∷◌, ◌++◌, Option, none, some, nat_eq, list_eq}
use pony.Prelude.Map.{lookup}
use pony.Prelude.Text.{Text, codes}
use pony.Tag.{
  ProtoTag, vless_tcp_reality, vless_grpc_reality, vless_xhttp_reality, vmess, shadowsocks,
  wireguard, hysteria2, mtproto,
}
use pony.Tag
use pony.Subscription.{Uuid}
use pony.Inbound.{
  Inbound, Network, xhttp, grpc, tcp, ws, StreamSettings, RealitySettings, GrpcSettings,
  XhttpSettings,
}
use pony.Inbound.Link.{LinkText, ◌>>=◌, first, first_or_empty}

pub record HttpHeaders : Type 0 where
  pub connection : List Text

pub record HttpOpts : Type 0 where
  pub method : Text
  pub path : List Text
  pub headers : HttpHeaders
  pub ip_version : Text
  pub host : Text

pub record XhttpOpts : Type 0 where
  pub path : List Text

pub record RealityOpts : Type 0 where
  pub public_key : Text
  pub short_id : Text

pub record GrpcOpts : Type 0 where
  pub grpc_service_name : Text
  pub ip_version : Text

pub record VmessProxy : Type 0 where
  pub name : Text
  pub server : Text
  pub port : ℕ
  pub uuid : Text
  pub cipher : Text
  pub udp : Bool
  pub alter_id : ℕ
  pub network : Text
  pub http_opts : HttpOpts

pub record VlessProxy : Type 0 where
  pub name : Text
  pub server : Text
  pub port : ℕ
  pub uuid : Text
  pub udp : Bool
  pub tls : Bool
  pub network : Text
  pub servername : Text
  pub reality_opts : RealityOpts
  pub grpc_opts : Option GrpcOpts
  pub http_opts : Option XhttpOpts
  pub client_fingerprint : Text
  pub flow : Option Text

pub data ClashProxy : Type 0 where
  vmess_proxy : VmessProxy → ClashProxy
  vless_proxy : VlessProxy → ClashProxy

pub record ClashProxyGroup : Type 0 where
  pub name : Text
  pub group_type : Text
  pub url : Text
  pub interval : ℕ
  pub proxies : List Text

pub record ClashConfig : Type 0 where
  pub port : ℕ
  pub mode : Text
  pub proxies : List ClashProxy
  pub proxy_groups : List ClashProxyGroup
  pub rules : List Text

abbrev pub proxy_name : ClashProxy → Text
proxy_name (vmess_proxy p) = p.name
proxy_name (vless_proxy p) = p.name

abbrev pub proxy_names : List ClashProxy → List Text
proxy_names [] = []
proxy_names (p ∷ proxies) = proxy_name p ∷ proxy_names proxies

-- `Inbound::clash`; the sign before the name of the group is U+267B U+FE0F.
unfoldable pub clash_config : List ClashProxy → ClashConfig
clash_config proxies = record {
  port = 7890;
  mode = codes "global";
  proxies = proxies;
  proxy_groups =
      record {
        name = 9851 ∷ 65039 ∷ codes " Automatic";
        group_type = codes "url-test";
        url = codes "http://www.gstatic.com/generate_204";
        interval = 300;
        proxies = proxy_names proxies;
      }
      ∷ [];
  rules = [];
}

-- `(network, grpc_opts, flow, http_opts)`
pub record Transport : Type 0 where
  pub network : Text
  pub grpc_opts : Option GrpcOpts
  pub flow : Option Text
  pub http_opts : Option XhttpOpts

abbrev pub plain_transport : Network → Option Transport
plain_transport tcp = some (record {
  network = codes "tcp";
  grpc_opts = none;
  flow = some (codes "xtls-rprx-vision");
  http_opts = none;
})
plain_transport grpc = none
plain_transport xhttp = none
plain_transport ws = none

abbrev pub xhttp_transport :
    Network → Option XhttpSettings → Option RealitySettings → Option Transport
xhttp_transport network (some x) (some reality) = some (record {
  network = codes "xhttp";
  grpc_opts = none;
  flow = none;
  http_opts = some (record { path = x.path ∷ [] });
})
xhttp_transport network none reality = plain_transport network
xhttp_transport network (some x) none = plain_transport network

abbrev pub grpc_transport : Option GrpcSettings → Option Transport → Option Transport
grpc_transport (some g) other = some (record {
  network = codes "grpc";
  grpc_opts = some (record { grpc_service_name = g.service_name; ip_version = codes "dual" });
  flow = none;
  http_opts = none;
})
grpc_transport none other = other

-- `match stream`, arm by arm
abbrev pub transport : StreamSettings → Option Transport
transport stream =
    grpc_transport stream.grpc_settings
      (xhttp_transport stream.network stream.xhttp_settings stream.reality_settings)

-- `first().cloned().unwrap_or_else(|| "/")`
abbrev pub path_or_root : List Text → Text
path_or_root [] = codes "/"
path_or_root (p ∷ ps) = p

module _ (t : LinkText) (self : Inbound) where
  abbrev pub name_of : Text → Uuid → Text
  name_of label conn_id =
      label ++ codes " [" ++ Tag.display self.tag ++ codes "] " ++ t.last_octet conn_id

  unfoldable pub vmess_clash : StreamSettings → Uuid → ℕ → Text → Option ClashProxy
  vmess_clash stream conn_id address label = stream.tcp_settings >>= λ tcp_settings.
      tcp_settings.header >>= λ header. header.request >>= λ req. req.headers >>= λ headers.
      lookup (codes "Host") headers >>= λ hosts. first hosts >>= λ host. some (
        vmess_proxy (record {
          name = name_of label conn_id;
          server = t.address address;
          port = self.port;
          uuid = t.uuid conn_id;
          cipher = codes "auto";
          udp = true;
          alter_id = 0;
          network = codes "http";
          http_opts = record {
            method = codes "GET";
            path = path_or_root req.path ∷ [];
            headers = record { connection = codes "keep-alive" ∷ [] };
            ip_version = codes "dual";
            host = host;
          };
        }))

  unfoldable pub vless_clash : StreamSettings → Uuid → ℕ → Text → Option ClashProxy
  vless_clash stream conn_id address label = stream.reality_settings >>= λ reality.
      transport stream >>= λ tr. some (
        vless_proxy (record {
          name = name_of label conn_id;
          server = t.address address;
          port = self.port;
          uuid = t.uuid conn_id;
          udp = true;
          tls = true;
          network = tr.network;
          servername = first_or_empty reality.server_names;
          client_fingerprint = codes "chrome";
          reality_opts = record {
            public_key = reality.public_key;
            short_id = first_or_empty reality.short_ids;
          };
          grpc_opts = tr.grpc_opts;
          http_opts = tr.http_opts;
          flow = tr.flow;
        }))

  -- `match self.tag`
  unfoldable pub clash_of_tag : ProtoTag → StreamSettings → Uuid → ℕ → Text → Option ClashProxy
  clash_of_tag vmess stream = vmess_clash stream
  clash_of_tag vless_grpc_reality stream = vless_clash stream
  clash_of_tag vless_tcp_reality stream = vless_clash stream
  clash_of_tag vless_xhttp_reality stream = vless_clash stream
  clash_of_tag shadowsocks stream = λ conn_id address label. none
  clash_of_tag wireguard stream = λ conn_id address label. none
  clash_of_tag hysteria2 stream = λ conn_id address label. none
  clash_of_tag mtproto stream = λ conn_id address label. none

  unfoldable pub proxy : Uuid → ℕ → Text → Option ClashProxy
  proxy conn_id address label =
      self.stream_settings >>= λ stream. clash_of_tag self.tag stream conn_id address label
