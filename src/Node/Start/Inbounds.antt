-- ===== src/Node/Start/Inbounds.antt =====
-- The inbounds with which a node starts.
use pony.Prelude.{
  ◌≡◌, refl, ◌∙◌, true, false, List, [], ◌∷◌, Option, none, some, arith, All, Option-cases, inl,
  inr,
}
use pony.Prelude.Map.{Map, lookup, insert, lookup-insert, insert-All_entries}
use pony.Subscription.{DateTime}
use pony.Tag.{ProtoTag, wireguard, mtproto, hysteria2, tag_eq, tag_eqb}
use pony.Inbound.{Inbound, WireguardSettings, H2Settings}
use pony.Node.{Node}
use pony.Node.Start.{
  NodeConfig, MtprotoSettings, SecretEntry, plain_inbound, unwrap_or, insert_xray, insert_wg,
  insert_mtproto, insert_h2, new_node,
}

-- Every inbound stands under its own tag.
abbrev pub IsTagged : Map ProtoTag Inbound → Type 0
IsTagged m = All (λ e. e.1.tag ≡ e.0) m

insert-IsTagged :
    (i : Inbound) (m : Map ProtoTag Inbound) → IsTagged m → IsTagged (insert i.tag i m)
insert-IsTagged i m h = insert-All_entries (λ e. e.1.tag ≡ e.0) i.tag i m refl h

insert_xray-IsTagged :
    (inbounds : List Inbound) (m : Map ProtoTag Inbound)
    → IsTagged m
    → IsTagged (insert_xray inbounds m)
unfolding insert_xray
insert_xray-IsTagged [] m h = h
insert_xray-IsTagged (i ∷ inbounds) m h =
    insert_xray-IsTagged inbounds (insert i.tag i m) (insert-IsTagged i m h)

insert_wg-IsTagged :
    (wg : Option WireguardSettings) (m : Map ProtoTag Inbound)
    → IsTagged m
    → IsTagged (insert_wg wg m)
unfolding insert_wg
insert_wg-IsTagged none m h = h
insert_wg-IsTagged (some c) m h =
    insert-IsTagged (record (plain_inbound wireguard c.port) { wg = some c }) m h

insert_h2-IsTagged :
    (h2 : Option H2Settings) (m : Map ProtoTag Inbound) → IsTagged m → IsTagged (insert_h2 h2 m)
unfolding insert_h2
insert_h2-IsTagged none m h = h
insert_h2-IsTagged (some c) m h =
    insert-IsTagged (record (plain_inbound hysteria2 c.port) { h2 = some c }) m h

-- The secret of MTProto is that of the first entry.
abbrev pub FirstSecret : MtprotoSettings → Inbound → Type 0
FirstSecret c i =
    (entry : SecretEntry) × (rest : List SecretEntry) × (c.secret ≡ entry ∷ rest)
    × (i ≡ record (plain_inbound mtproto c.port) { mtproto_secret = some entry.key })

lookup-insert_self :
    (tag : ProtoTag) (i : Inbound) (m : Map ProtoTag Inbound)
    → tag_eqb tag tag ≡ true
    → lookup tag (insert tag i m) ≡ some i
lookup-insert_self tag i m same = rw (lookup-insert tag tag i m, same) refl

-- What an insertion of the settings of MTProto gives.
abbrev IsInserted : Option MtprotoSettings → Map ProtoTag Inbound → Map ProtoTag Inbound → Type 0
IsInserted mt m after =
    IsTagged after
    × ((tag : ProtoTag) → tag_eqb mtproto tag ≡ false → lookup tag after ≡ lookup tag m)
    × ((c : MtprotoSettings)
        → mt ≡ some c
        → (i : Inbound) × (lookup mtproto after ≡ some i) × FirstSecret c i)

insert_mtproto_secret :
    (c : MtprotoSettings) (entries : List SecretEntry) (m after : Map ProtoTag Inbound)
    → c.secret ≡ entries
    → insert_mtproto (some c) m ≡ some after
    → IsTagged m
    → IsInserted (some c) m after
unfolding insert_mtproto
insert_mtproto_secret c [] m after listed h tagged =
    let bad : none ≡ some after = rw (insert_mtproto, listed) at h in absurd (ground (arith, bad))
insert_mtproto_secret c (entry ∷ rest) m after listed h tagged =
    let i : Inbound = record (plain_inbound mtproto c.port) { mtproto_secret = some entry.key } in
    let r = rw (insert_mtproto, listed) at h in
    let e : insert mtproto i m ≡ after = ground (arith, r) in
    rw (← e) (
      insert-IsTagged i m tagged,
      (λ tag ne. rw (lookup-insert mtproto tag i m, ne) refl),
      (λ d same.
          let own : c ≡ d = ground (arith, same) in
          (i, lookup-insert_self mtproto i m refl, rw (← own) (entry, rest, listed, refl))),
    )

insert_mtproto-some :
    (mt : Option MtprotoSettings) (m after : Map ProtoTag Inbound)
    → insert_mtproto mt m ≡ some after
    → IsTagged m
    → IsInserted mt m after
unfolding insert_mtproto
insert_mtproto-some none m after h tagged =
    let e : m ≡ after = ground (arith, h) in
    rw (← e) (tagged, (λ tag ne. refl), (λ c bad. absurd (ground (arith, bad))))
insert_mtproto-some (some c) m after h tagged =
    insert_mtproto_secret c c.secret m after refl h tagged

insert_h2-other :
    (h2 : Option H2Settings) (tag : ProtoTag) (m : Map ProtoTag Inbound)
    → tag_eqb hysteria2 tag ≡ false
    → lookup tag (insert_h2 h2 m) ≡ lookup tag m
unfolding insert_h2
insert_h2-other none tag m ne = refl
insert_h2-other (some c) tag m ne =
    rw (lookup-insert hysteria2 tag (record (plain_inbound hysteria2 c.port) { h2 = some c }) m, ne)
      refl

-- A node starts with every inbound under its own tag; the inbound of Hysteria2, WireGuard and
-- MTProto is that of the settings, if there are any, with the first secret for MTProto.
pub new_node-inbounds :
    (now : DateTime) (settings : NodeConfig) (xray : Option (List Inbound))
    (wg : Option WireguardSettings) (h2 : Option H2Settings) (mt : Option MtprotoSettings)
    (n : Node)
    → new_node now settings xray wg h2 mt ≡ some n
    → IsTagged n.inbounds
      × ((c : H2Settings)
          → h2 ≡ some c
          → lookup hysteria2 n.inbounds
            ≡ some (record (plain_inbound hysteria2 c.port) { h2 = some c }))
      × ((c : WireguardSettings)
          → wg ≡ some c
          → lookup wireguard n.inbounds
            ≡ some (record (plain_inbound wireguard c.port) { wg = some c }))
      × ((c : MtprotoSettings)
          → mt ≡ some c
          → (i : Inbound) × (lookup mtproto n.inbounds ≡ some i) × FirstSecret c i)
unfolding new_node insert_wg insert_h2
new_node-inbounds now settings xray wg h2 mt n h =
    let base : Map ProtoTag Inbound = insert_xray (unwrap_or [] xray) [] in
    elim (Option-cases (insert_mtproto mt (insert_wg wg base))) [
      | inl panic ↦
          let bad : none ≡ some n = rw (new_node, panic) at h in absurd (ground (arith, bad))
      | inr (m, made) ↦
          let (tagged, others, secret) =
            insert_mtproto-some mt (insert_wg wg base) m made
              (insert_wg-IsTagged wg base (insert_xray-IsTagged (unwrap_or [] xray) [] tt)) in
          let e = rw (new_node, made) at h in
          let same : insert_h2 h2 m ≡ n.inbounds = ground (arith, e) in
          rw (← same) (
            insert_h2-IsTagged h2 m tagged,
            (λ c on. rw on (
                lookup-insert_self hysteria2
                  (record (plain_inbound hysteria2 c.port) { h2 = some c }) m refl)),
            (λ c on.
                insert_h2-other h2 wireguard m refl
                ∙ others wireguard refl
                ∙ rw on (
                    lookup-insert_self wireguard
                      (record (plain_inbound wireguard c.port) { wg = some c }) base refl)),
            (λ c on.
                let (i, found, first) = secret c on in
                (i, rw (insert_h2-other h2 mtproto m refl) found, first)),
          )
    ]
