-- ===== src/Tests/Starts.antt =====
-- The start of a node.
use pony.Prelude.{
  ℕ, ◌≡◌, refl, true, List, [], ◌∷◌, Option, none, some, nat_eq, list_eq, if◌then◌else◌, ◌==◌,
}
use pony.Prelude.Int.{pos}
use pony.Prelude.Map.{lookup, insert}
use pony.Prelude.Text.{Text, codes}
use pony.Env.{dev}
use pony.Tag.{wireguard, mtproto, hysteria2, vmess, tag_eq}
use pony.Inbound.{Inbound, WireguardSettings, H2Settings}
use pony.Node.{Node, type_from_str}
use pony.Node.Start.{
  NodeConfigRaw, Hysteria2Settings, WireguardServerConfig, MtprotoSettings, plain_inbound, from_raw,
  validate_h2, h2_try_from, wireguard_try_from, insert_xray, insert_wg, insert_mtproto, insert_h2,
  new_node,
}
use pony.Node.Start.Inbounds.{IsTagged, FirstSecret}
use pony.Node.Start.Run.{NodeFiles, start_node, start_node-inbounds}
use pony.Tests.Crates.{addr_text}
use pony.Tests.Data.{now}

abbrev parse_u16 : Text → Option ℕ
parse_u16 s = if s == codes "443" then some 443 else none

abbrev raw : NodeConfigRaw
raw = record {
  env = dev;
  hostname = none;
  default_interface = codes "eth0";
  address = 1;
  uuid = 31;
  label = codes "Berlin";
  max_bandwidth_bps = pos 1000;
  country = codes "DE";
  type = codes "common";
}

abbrev hysteria_file : Hysteria2Settings
hysteria_file = record {
  listen = some (codes "0.0.0.0:443");
  acme = some (record { domains = some (codes "a.b" ∷ []); email = none; type = none; dir = none });
  auth = some (record { type = none; password = some (codes "p"); url = none });
  obfs = none;
  masquerade = none;
}

abbrev mtproto_file : MtprotoSettings
mtproto_file = record { port = 8443; secret = record { key = codes "ee"; label = [] } ∷ [] }

abbrev files : NodeFiles
files = record {
  xray = some (some (plain_inbound vmess 80 ∷ []));
  wg = none;
  h2 = some (some hysteria_file);
  mtproto = some (some mtproto_file);
  clients = true;
}

started :
    (n : Node) × (start_node addr_text parse_u16 (some 4) (some (codes "berlin")) now files raw
      ≡ some n)
unfolding start_node validate_h2 h2_try_from from_raw type_from_str new_node insert_xray insert_wg
    insert_mtproto insert_h2 insert
started = (_, refl)

start_node-inbounds_example :
    (started.0.env ≡ dev)
    × IsTagged started.0.inbounds
    × ((file : Option Hysteria2Settings)
        → files.h2 ≡ some file
        → (s : Hysteria2Settings) × (c : H2Settings) × (file ≡ some s)
          × (validate_h2 s ≡ true)
          × (h2_try_from parse_u16 s ≡ some c)
          × (lookup hysteria2 started.0.inbounds
              ≡ some (record (plain_inbound hysteria2 c.port) { h2 = some c })))
    × ((file : Option WireguardServerConfig)
        → files.wg ≡ some file
        → (s : WireguardServerConfig) × (c : WireguardSettings) × (file ≡ some s)
          × (wireguard_try_from addr_text s ≡ some c)
          × (lookup wireguard started.0.inbounds
              ≡ some (record (plain_inbound wireguard c.port) { wg = some c })))
    × ((file : Option MtprotoSettings)
        → files.mtproto ≡ some file
        → (c : MtprotoSettings) × (i : Inbound) × (file ≡ some c)
          × (lookup mtproto started.0.inbounds ≡ some i)
          × FirstSecret c i)
    × ((file : Option (List Inbound))
        → files.xray ≡ some file
        → (inbounds : List Inbound) × (file ≡ some inbounds))
start_node-inbounds_example =
    start_node-inbounds addr_text parse_u16 (some 4) (some (codes "berlin")) now files raw started.0
      started.1
