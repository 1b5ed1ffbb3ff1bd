-- ===== src/Node/Start/Run.antt =====
-- src/bin/node/node.rs: how `run` makes the node from the files of its settings. A setting that is
-- enabled is the content of its file, if it can be read; `clients` says whether the clients of
-- Xray and WireGuard can be made.
use pony.Prelude.{
  ℕ, ◌≡◌, refl, sym, ◌∙◌, Bool, true, List, [], Option, none, some, arith, if◌then◌else◌,
  Bool-cases, inl, inr,
}
use pony.Prelude.Map.{lookup}
use pony.Prelude.Text.{Text}
use pony.Subscription.{DateTime}
use pony.Tag.{wireguard, mtproto, hysteria2, tag_eq}
use pony.Wireguard.{AddrText}
use pony.Inbound.Link.{◌>>=◌}
use pony.Inbound.{Inbound, WireguardSettings, H2Settings}
use pony.Node.{Node}
use pony.Node.Start.{
  NodeConfigRaw, NodeConfig, Hysteria2Settings, WireguardServerConfig, MtprotoSettings,
  plain_inbound, from_raw, validate_h2, h2_try_from, wireguard_try_from, new_node, map_option,
  hostname_or, unwrap_or, insert_xray, insert_wg, insert_mtproto,
}
use pony.Node.Start.Inbounds.{IsTagged, FirstSecret, new_node-inbounds}

pub record NodeFiles : Type 0 where
  pub xray : Option (Option (List Inbound))
  pub wg : Option (Option WireguardServerConfig)
  pub h2 : Option (Option Hysteria2Settings)
  pub mtproto : Option (Option MtprotoSettings)
  pub clients : Bool

-- An error or a panic, if a file that is enabled cannot be read or is refused.
abbrev pub configured : {A B : Type 0} → (A → Option B) → Option (Option A) → Option (Option B)
configured f none = some none
configured f (some none) = none
configured f (some (some a)) = map_option some (f a)

abbrev pub h2_config : (Text → Option ℕ) → Hysteria2Settings → Option H2Settings
h2_config parse_u16 s = if validate_h2 s then h2_try_from parse_u16 s else none

module _ (t : AddrText) (parse_u16 : Text → Option ℕ) (parallelism : Option ℕ)
    (host_var : Option Text) (now : DateTime) where
  unfoldable pub start_node : NodeFiles → NodeConfigRaw → Option Node
  start_node files raw = (if files.clients then some tt else none) >>= λ ready.
      configured some files.xray >>= λ xray. configured (wireguard_try_from t) files.wg >>= λ wg.
      configured (h2_config parse_u16) files.h2 >>= λ h2. configured some files.mtproto >>= λ mt.
      from_raw parallelism host_var raw >>= λ settings. new_node now settings xray wg h2 mt

>>=-some :
    {A B : Type 0} (m : Option A) (f : A → Option B) (b : B)
    → (m >>= f) ≡ some b
    → (a : A) × (m ≡ some a) × (f a ≡ some b)
>>=-some none f b h = absurd (ground (arith, h))
>>=-some (some a) f b h = (a, refl, h)

made_of :
    {B : Type 0} (made : Option B) (r : Option B)
    → map_option some made ≡ some r
    → (b : B) × (made ≡ some b) × (r ≡ some b)
made_of none r h = absurd (ground (arith, h))
made_of (some b) r h = (b, refl, ground (arith, h))

configured-some :
    {A B : Type 0} (f : A → Option B) (setting : Option (Option A)) (file : Option A) (r : Option B)
    → setting ≡ some file
    → configured f setting ≡ some r
    → (a : A) × (b : B) × (file ≡ some a) × (f a ≡ some b) × (r ≡ some b)
configured-some f setting none r on h =
    let bad : none ≡ some r = rw on at h in absurd (ground (arith, bad))
configured-some f setting (some a) r on h =
    let (b, made, is) = made_of (f a) r (rw on at h) in (a, b, refl, made, is)

h2_config-some :
    (parse_u16 : Text → Option ℕ) (s : Hysteria2Settings) (c : H2Settings)
    → h2_config parse_u16 s ≡ some c
    → (validate_h2 s ≡ true) × (h2_try_from parse_u16 s ≡ some c)
h2_config-some parse_u16 s c h = elim (Bool-cases (validate_h2 s)) [
  | inl valid ↦ (valid, rw valid at h)
  | inr invalid ↦ let bad : none ≡ some c = rw invalid at h in absurd (ground (arith, bad))
]

from_raw-some :
    (parallelism : Option ℕ) (host_var : Option Text) (raw : NodeConfigRaw) (settings : NodeConfig)
    → from_raw parallelism host_var raw ≡ some settings
    → settings.env ≡ raw.env
unfolding from_raw
from_raw-some none host_var raw settings h = absurd (ground (arith, h))
from_raw-some (some cpus) host_var raw settings h =
    let (hostname, found, rest) = >>=-some (hostname_or raw.hostname host_var) _ settings h in
    ground (arith, rest)

new_node-some :
    (now : DateTime) (settings : NodeConfig) (xray : Option (List Inbound))
    (wg : Option WireguardSettings) (h2 : Option H2Settings) (mt : Option MtprotoSettings)
    (n : Node)
    → new_node now settings xray wg h2 mt ≡ some n
    → n.env ≡ settings.env
unfolding new_node
new_node-some now settings xray wg h2 mt n h =
    let (m, made, rest) =
      >>=-some (insert_mtproto mt (insert_wg wg (insert_xray (unwrap_or [] xray) []))) _ n h in
    ground (arith, rest)

module _ (t : AddrText) (parse_u16 : Text → Option ℕ) (parallelism : Option ℕ)
    (host_var : Option Text) (now : DateTime) where
  -- A node that starts is in the environment of the settings, and every inbound stands under its
  -- own tag. If Hysteria2, WireGuard or MTProto is enabled, its file could be read, it was accepted,
  -- and the inbound of its tag is made of it, for MTProto with the first secret; if Xray is enabled,
  -- its file could be read.
  pub start_node-inbounds :
      (files : NodeFiles) (raw : NodeConfigRaw) (n : Node)
      → start_node t parse_u16 parallelism host_var now files raw ≡ some n
      → (n.env ≡ raw.env)
        × IsTagged n.inbounds
        × ((file : Option Hysteria2Settings)
            → files.h2 ≡ some file
            → (s : Hysteria2Settings) × (c : H2Settings) × (file ≡ some s)
              × (validate_h2 s ≡ true)
              × (h2_try_from parse_u16 s ≡ some c)
              × (lookup hysteria2 n.inbounds
                  ≡ some (record (plain_inbound hysteria2 c.port) { h2 = some c })))
        × ((file : Option WireguardServerConfig)
            → files.wg ≡ some file
            → (s : WireguardServerConfig) × (c : WireguardSettings) × (file ≡ some s)
              × (wireguard_try_from t s ≡ some c)
              × (lookup wireguard n.inbounds
                  ≡ some (record (plain_inbound wireguard c.port) { wg = some c })))
        × ((file : Option MtprotoSettings)
            → files.mtproto ≡ some file
            → (c : MtprotoSettings) × (i : Inbound) × (file ≡ some c)
              × (lookup mtproto n.inbounds ≡ some i)
              × FirstSecret c i)
        × ((file : Option (List Inbound))
            → files.xray ≡ some file
            → (inbounds : List Inbound) × (file ≡ some inbounds))
  unfolding start_node
  start_node-inbounds files raw n h0 =
      let (ready, _, h1) = >>=-some (if files.clients then some tt else none) _ n h0 in
      let (xray, read_xray, h2) = >>=-some (configured some files.xray) _ n h1 in
      let (wg, read_wg, h3) = >>=-some (configured (wireguard_try_from t) files.wg) _ n h2 in
      let (hy, read_h2, h4) = >>=-some (configured (h2_config parse_u16) files.h2) _ n h3 in
      let (mt, read_mt, h5) = >>=-some (configured some files.mtproto) _ n h4 in
      let (settings, read_raw, h6) = >>=-some (from_raw parallelism host_var raw) _ n h5 in
      let (tagged, on_h2, on_wg, on_mt) = new_node-inbounds now settings xray wg hy mt n h6 in
      (
        new_node-some now settings xray wg hy mt n h6
            ∙ from_raw-some parallelism host_var raw settings read_raw,
        tagged,
        (λ file on.
            let (s, c, opened, made, is) =
              configured-some (h2_config parse_u16) files.h2 file hy on read_h2 in
            let (valid, tried) = h2_config-some parse_u16 s c made in
            (s, c, opened, valid, tried, on_h2 c is)),
        (λ file on.
            let (s, c, opened, made, is) =
              configured-some (wireguard_try_from t) files.wg file wg on read_wg in
            (s, c, opened, made, on_wg c is)),
        (λ file on.
            let (c, d, opened, made, is) = configured-some some files.mtproto file mt on read_mt in
            let (i, found, first) = on_mt c (is ∙ sym made) in (c, i, opened, found, first)),
        (λ file on.
            let (inbounds, d, opened, made, is) =
              configured-some some files.xray file xray on read_xray in
            (inbounds, opened)),
      )
