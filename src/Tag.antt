-- ===== src/Tag.antt =====
-- src/memory/tag.rs: the kinds of protocol.
use pony.Prelude.{
  ◌≡◌, ◌↔◌, Bool, true, false, Option, none, some, arith, if◌then◌else◌, PartialEq, ◌==◌, list_eq,
  nat_eq,
}
use pony.Prelude.Text.{Text, codes}

pub data ProtoTag : Type 0 where
  vless_tcp_reality vless_grpc_reality vless_xhttp_reality vmess shadowsocks wireguard : ProtoTag
  hysteria2 mtproto : ProtoTag

-- `Display`
unfoldable pub display : ProtoTag → Text
display vless_tcp_reality = codes "VlessTcpReality"
display vless_grpc_reality = codes "VlessGrpcReality"
display vless_xhttp_reality = codes "VlessXhttpReality"
display vmess = codes "Vmess"
display shadowsocks = codes "Shadowsocks"
display wireguard = codes "Wireguard"
display hysteria2 = codes "Hysteria2"
display mtproto = codes "Mtproto"

-- `FromStr`
unfoldable pub from_str : Text → Option ProtoTag
from_str s =
    if s == codes "VlessTcpReality"
    then some vless_tcp_reality
    else if s == codes "VlessGrpcReality"
    then some vless_grpc_reality
    else if s == codes "VlessXhttpReality"
    then some vless_xhttp_reality
    else if s == codes "Vmess"
    then some vmess
    else if s == codes "Shadowsocks"
    then some shadowsocks
    else if s == codes "Wireguard"
    then some wireguard
    else if s == codes "Hysteria2"
    then some hysteria2
    else if s == codes "Mtproto"
    then some mtproto
    else none

-- `PartialEq`
abbrev pub tag_eqb : ProtoTag → ProtoTag → Bool
tag_eqb vless_tcp_reality vless_tcp_reality = true
tag_eqb vless_grpc_reality vless_grpc_reality = true
tag_eqb vless_xhttp_reality vless_xhttp_reality = true
tag_eqb vmess vmess = true
tag_eqb shadowsocks shadowsocks = true
tag_eqb wireguard wireguard = true
tag_eqb hysteria2 hysteria2 = true
tag_eqb mtproto mtproto = true
tag_eqb _ _ = false

pub tag_eqb_iff : (a b : ProtoTag) → (tag_eqb a b ≡ true) ↔ (a ≡ b)
tag_eqb_iff a b = ground arith

instance abbrev pub tag_eq : PartialEq ProtoTag
tag_eq = record { eqb = tag_eqb; eqb_iff = tag_eqb_iff }
