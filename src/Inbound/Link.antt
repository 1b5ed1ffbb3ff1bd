-- ===== src/Inbound/Link.antt =====
-- src/config/inbound.rs: the links of `InboundConnLink`. Building a URL (`url`), base64 and JSON
-- (`serde_json`), and the texts of addresses, uuids and numbers are the parameter `LinkText`; `none`
-- is an error, whose text is left out.
use pony.Prelude.{ℕ, Bool, true, false, List, [], ◌∷◌, ◌++◌, Option, none, some, nat_eq, list_eq}
use pony.Prelude.Map.{lookup}
use pony.Prelude.Text.{Text, codes}
use pony.Tag.{
  ProtoTag, vless_tcp_reality, vless_grpc_reality, vless_xhttp_reality, vmess, shadowsocks,
  wireguard, hysteria2, mtproto,
}
use pony.Wireguard.{IpAddrMask}
use pony.Subscription.{Uuid}
use pony.Connection.{Conn, proto_wireguard, proto_token}
use pony.Inbound.{Inbound, RealitySettings}

pub record LinkText : Type 0 where
  pub uuid : Uuid → Text
  pub address : ℕ → Text
  pub mask : IpAddrMask → Text
  pub decimal : ℕ → Text
  pub pubkey : Text → Option Text
  -- `Url::parse`, `append_pair` for each pair, `set_fragment` and `to_string`.
  pub url : Text → List (Text × Text) → Text → Option Text
  -- The JSON object of the fields, in base64.
  pub json_base64 : List (Text × Text) → Option Text
  -- `get_uuid_last_octet_simple`
  pub last_octet : Uuid → Text

infixl 5 ◌>>=◌
abbrev pub ◌>>=◌ : {A B : Type 0} → Option A → (A → Option B) → Option B
none >>= f = none
some a >>= f = f a

abbrev pub first : {A : Type 0} → List A → Option A
first [] = none
first (x ∷ xs) = some x

-- `unwrap_or(&"".to_string())`
abbrev pub first_or_empty : List Text → Text
first_or_empty [] = []
first_or_empty (x ∷ xs) = x

abbrev pub join : Text → List Text → Text
join sep [] = []
join sep (x ∷ []) = x
join sep (x ∷ y ∷ xs) = x ++ sep ++ join sep (y ∷ xs)

abbrev pub texts : (ℕ → Text) → List ℕ → List Text
texts f [] = []
texts f (a ∷ rest) = f a ∷ texts f rest

abbrev pub show_bool : Bool → Text
show_bool true = codes "true"
show_bool false = codes "false"

module _ (t : LinkText) (self : Inbound) where
  abbrev pub reality : Option RealitySettings
  reality = self.stream_settings >>= λ s. s.reality_settings

  abbrev pub vless_base : Uuid → ℕ → Text
  vless_base conn_id address =
      codes "vless://"
      ++ t.uuid conn_id
      ++ codes "@"
      ++ t.address address
      ++ codes ":"
      ++ t.decimal self.port

  abbrev pub fragment : Text → Uuid → Text → Text
  fragment label conn_id kind = label ++ codes " | " ++ t.last_octet conn_id ++ codes " " ++ kind

  unfoldable pub vless_xtls : Uuid → ℕ → Text → Option Text
  vless_xtls conn_id address label = reality >>= λ r. first r.short_ids >>= λ sid.
      first r.server_names >>= λ sni.
      t.url (vless_base conn_id address)
        ((codes "security", codes "reality")
          ∷ (codes "flow", codes "xtls-rprx-vision")
          ∷ (codes "type", codes "tcp")
          ∷ (codes "sni", sni)
          ∷ (codes "fp", codes "chrome")
          ∷ (codes "pbk", r.public_key)
          ∷ (codes "sid", sid)
          ∷ [])
        (fragment label conn_id (codes "XTLS"))

  unfoldable pub vless_grpc : Uuid → ℕ → Text → Option Text
  vless_grpc conn_id address label = self.stream_settings >>= λ s. s.reality_settings >>= λ r.
      s.grpc_settings >>= λ g.
      t.url (vless_base conn_id address)
        ((codes "security", codes "reality")
          ∷ (codes "type", codes "grpc")
          ∷ (codes "serviceName", g.service_name)
          ∷ (codes "sni", first_or_empty r.server_names)
          ∷ (codes "pbk", r.public_key)
          ∷ (codes "sid", first_or_empty r.short_ids)
          ∷ [])
        (fragment label conn_id (codes "GRPC"))

  unfoldable pub vless_xhttp : Uuid → ℕ → Text → Option Text
  vless_xhttp conn_id address label = self.stream_settings >>= λ s. s.reality_settings >>= λ r.
      s.xhttp_settings >>= λ x.
      t.url (vless_base conn_id address)
        ((codes "security", codes "reality")
          ∷ (codes "type", codes "xhttp")
          ∷ (codes "path", x.path)
          ∷ (codes "pbk", r.public_key)
          ∷ [])
        (fragment label conn_id (codes "XHTTP"))

  abbrev pub vmess_fields : Uuid → ℕ → Text → Text → Text → List (Text × Text)
  vmess_fields conn_id address label host path =
      (codes "v", codes "2")
      ∷ (codes "ps", codes "Vmess " ++ label)
      ∷ (codes "add", t.address address)
      ∷ (codes "port", t.decimal self.port)
      ∷ (codes "id", t.uuid conn_id)
      ∷ (codes "aid", codes "0")
      ∷ (codes "scy", codes "auto")
      ∷ (codes "net", codes "tcp")
      ∷ (codes "type", codes "http")
      ∷ (codes "host", host)
      ∷ (codes "path", path)
      ∷ (codes "tls", codes "none")
      ∷ []

  unfoldable pub vmess_link : Uuid → ℕ → Text → Option Text
  vmess_link conn_id address label = self.stream_settings >>= λ s. s.tcp_settings >>= λ tcp.
      tcp.header >>= λ header. header.request >>= λ req. req.headers >>= λ headers.
      lookup (codes "Host") headers >>= λ hosts. first hosts >>= λ host. first req.path >>= λ path.
      t.json_base64 (vmess_fields conn_id address label host path) >>= λ base64_str.
      some (codes "vmess://" ++ base64_str ++ codes "#" ++ label)

  unfoldable pub h2_link : Text → Conn → Option Text
  h2_link label conn = self.h2 >>= λ h2. proto_token conn.proto >>= λ token.
      t.url
        (codes "hysteria2://"
          ++ t.uuid token
          ++ codes "@"
          ++ h2.host
          ++ codes ":"
          ++ t.decimal self.port)
        ((codes "insecure", show_bool h2.insecure)
          ∷ (codes "up-mbps", t.decimal (elim h2.up_mbps [ some n ↦ n | none ↦ 0 ]))
          ∷ [])
        (fragment label token (codes "H2"))

  unfoldable pub mtproto_link : ℕ → Text → Option Text
  mtproto_link address label = self.mtproto_secret >>= λ secret.
      t.url
        (codes "https://t.me/proxy?server="
          ++ t.address address
          ++ codes "&port="
          ++ t.decimal self.port
          ++ codes "&secret="
          ++ secret)
        [] label

  -- The text of the configuration, from its parts; its spaces and headings are left out.
  unfoldable pub wireguard_config : Uuid → Conn → ℕ → Text → Option (List Text)
  wireguard_config conn_id conn address label = proto_wireguard conn.proto >>= λ wg_conn.
      self.wg >>= λ wg. t.pubkey wg.privkey >>= λ server_pubkey. some (
        wg_conn.privkey
        ∷ t.mask wg_conn.address
        ∷ join (codes ",") (texts t.address wg.dns)
        ∷ server_pubkey
        ∷ t.address address
        ∷ t.decimal wg.port
        ∷ label
        ∷ t.uuid conn_id
        ∷ [])

  -- A link, or the parts of a WireGuard configuration.
  unfoldable pub link_of : Uuid → Conn → ℕ → Text → ProtoTag → Option (List Text)
  link_of conn_id conn address label vless_tcp_reality =
      vless_xtls conn_id address label >>= λ link. some (link ∷ [])
  link_of conn_id conn address label vless_grpc_reality =
      vless_grpc conn_id address label >>= λ link. some (link ∷ [])
  link_of conn_id conn address label vless_xhttp_reality =
      vless_xhttp conn_id address label >>= λ link. some (link ∷ [])
  link_of conn_id conn address label hysteria2 = h2_link label conn >>= λ link. some (link ∷ [])
  link_of conn_id conn address label wireguard = wireguard_config conn_id conn address label
  link_of conn_id conn address label mtproto =
      mtproto_link address label >>= λ link. some (link ∷ [])
  link_of conn_id conn address label vmess =
      vmess_link conn_id address label >>= λ link. some (link ∷ [])
  link_of conn_id conn address label shadowsocks = none

  unfoldable pub create_link : Uuid → Conn → ℕ → Text → Option (List Text)
  create_link conn_id conn address label = link_of conn_id conn address label self.tag
