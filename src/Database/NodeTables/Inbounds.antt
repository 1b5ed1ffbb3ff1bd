-- ===== src/Database/NodeTables/Inbounds.antt =====
-- Which inbounds are read back from their rows, and what an upsert does with the rows of a node.
use pony.Prelude.{
  ◌%◌, ℕ, ◌<◌, ◌≤◌, ◌≡◌, refl, ap, sym, ◌∙◌, true, false, List, [], ◌∷◌, Option, none, some, arith,
  All, Bool-cases, inl, inr, ◌==◌,
}
use pony.Prelude.Map.{Map, lookup, insert, lookup-insert, HasUniqueKeys, insert-HasUniqueKeys}
use pony.Wireguard
use pony.Wireguard.{v4, AddrText, max_cidr}
use pony.Wireguard.Parsing.{RoundTrips, from_str-display}
use pony.Tag.{ProtoTag, tag_eq, tag_eqb_iff}
use pony.Inbound.{StreamSettings, WireguardSettings, H2Settings, Inbound}
use pony.Node.{values}
use pony.Database.Times.{Columns}
use pony.Database.NodeTables.{
  Json, InboundColumns, option_map, all_v4, only_v4, columns_of_inbound, upsert_inbounds,
  wg_settings, inbound_of_row, read_inbounds, and_then,
}

-- serde_json reads back what it writes.
pub record IsLawful {J : Type 0} (json : Json J) : Type 0 where
  pub read_stream-write_stream :
      (s : Option StreamSettings) → json.read_stream (json.write_stream s) ≡ s
  pub read_h2-write_h2 : (h : Option H2Settings) → json.read_h2 (json.write_h2 h) ≡ h

-- The settings of WireGuard name the port of the inbound, and an address of its family.
abbrev pub IsKept : ℕ → Option WireguardSettings → Type 0
IsKept port none = Unit
IsKept port (some w) = (w.port ≡ port) × (w.address.cidr ≤ max_cidr w.address.address)

abbrev pub IsStorable : Inbound → Type 0
IsStorable i = (i.port < 65536) × IsKept i.port i.wg

only_v4-all_v4 : (ips : List ℕ) → only_v4 (all_v4 ips) ≡ ips
only_v4-all_v4 [] = refl
only_v4-all_v4 (ip ∷ ips) = ap (◌∷◌ ip) (only_v4-all_v4 ips)

abbrev pub or_else : {A : Type 0} → Option A → Option A → Option A
or_else (some a) other = some a
or_else none other = other

module _ {J : Type 0} (cs : Columns) (t : AddrText) (json : Json J) where
  wg_lem :
      (port : ℕ) (wg : Option WireguardSettings)
      → RoundTrips t
      → port < 65536
      → IsKept port wg
      → wg_settings cs t json port
          (option_map (λ w. w.privkey) wg)
          (option_map (λ w. w.interface) wg)
          (and_then cs t json
            (option_map (λ w. Wireguard.display t w.address) wg)
            (Wireguard.from_str t))
          (option_map only_v4 (option_map (λ w. all_v4 w.dns) wg))
        ≡ wg
  unfolding wg_settings
  wg_lem port none r h k = refl
  wg_lem port (some w) r h k =
      rw (from_str-display t r w.address k.1, only_v4-all_v4 w.dns) (ground arith)

  -- An inbound is read back from its row, if its port is one and its settings of WireGuard name it.
  pub inbound_of_row-columns_of_inbound :
      IsLawful json
      → RoundTrips t
      → (i : Inbound) → IsStorable i
      → inbound_of_row cs t json i.tag (columns_of_inbound cs t json i) ≡ i
  unfolding inbound_of_row columns_of_inbound
  inbound_of_row-columns_of_inbound l r i k =
      let port : i.port % 65536 ≡ i.port = omega arith in
      rw
        (
          inbound_of_row,
          wg_lem i.port i.wg r k.0 k.1,
          l.read_stream-write_stream i.stream_settings,
          l.read_h2-write_h2 i.h2,
          port,
        )
        refl

  pub option_map-or_else :
      {A B : Type 0} (f : A → B) (a b : Option A)
      → option_map f (or_else a b) ≡ or_else (option_map f a) (option_map f b)
  option_map-or_else f none b = refl
  option_map-or_else f (some a) b = refl

  -- The row of every tag after an upsert: that of the node's inbound, or the one that was there.
  pub upsert_inbounds_lem :
      (tag : ProtoTag) (inbounds : Map ProtoTag Inbound) (rows : Map ProtoTag (InboundColumns J))
      → HasUniqueKeys inbounds
      → All (λ e. e.0 ≡ e.1.tag) inbounds
      → lookup tag (upsert_inbounds cs t json (values inbounds) rows)
        ≡ or_else
            (option_map (columns_of_inbound cs t json) (lookup tag inbounds))
            (lookup tag rows)
  unfolding upsert_inbounds lookup
  upsert_inbounds_lem tag [] rows u k = refl
  upsert_inbounds_lem tag ((key, i) ∷ inbounds) rows u k =
      let row : (InboundColumns J) = columns_of_inbound cs t json i in
      upsert_inbounds_lem tag inbounds (insert i.tag row rows) u.1 k.1
      ∙ elim (Bool-cases (key == tag)) [
        | inl same ↦
            let e : tag ≡ key = sym ((tag_eqb_iff key tag).0 same) in
            let free : lookup tag inbounds ≡ none = rw e u.0 in
            let here : (i.tag == tag) ≡ true = rw (← k.0) same in
            rw (lookup-insert i.tag tag row rows, free, same, here) refl
        | inr other ↦
            let there : (i.tag == tag) ≡ false = rw (← k.0) other in
            rw (lookup-insert i.tag tag row rows, other, there) refl
      ]

  pub upsert_inbounds-HasUniqueKeys :
      (inbounds : List Inbound) (rows : Map ProtoTag (InboundColumns J))
      → HasUniqueKeys rows
      → HasUniqueKeys (upsert_inbounds cs t json inbounds rows)
  unfolding upsert_inbounds
  upsert_inbounds-HasUniqueKeys [] rows u = u
  upsert_inbounds-HasUniqueKeys (i ∷ inbounds) rows u =
      upsert_inbounds-HasUniqueKeys inbounds (insert i.tag (columns_of_inbound cs t json i) rows)
        (insert-HasUniqueKeys i.tag (columns_of_inbound cs t json i) rows u)

  -- What is read for every tag.
  pub read_inbounds_lem :
      (tag : ProtoTag) (rows : Map ProtoTag (InboundColumns J)) (inbounds : Map ProtoTag Inbound)
      → HasUniqueKeys rows
      → lookup tag (read_inbounds cs t json rows inbounds)
        ≡ or_else
            (option_map (inbound_of_row cs t json tag) (lookup tag rows))
            (lookup tag inbounds)
  unfolding read_inbounds lookup
  read_inbounds_lem tag [] inbounds u = refl
  read_inbounds_lem tag ((key, row) ∷ rows) inbounds u =
      let i : Inbound = inbound_of_row cs t json key row in
      let rest = read_inbounds_lem tag rows (insert key i inbounds) u.1 in
      elim (Bool-cases (key == tag)) [
        | inl same ↦
            let e : tag ≡ key = sym ((tag_eqb_iff key tag).0 same) in
            let free : lookup tag rows ≡ none = rw e u.0 in
            rest ∙ rw (lookup-insert key tag i inbounds, free, same, e) refl
        | inr other ↦ rest ∙ rw (lookup-insert key tag i inbounds, other) refl
      ]
