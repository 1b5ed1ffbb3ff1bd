-- ===== src/Connections.antt =====
-- src/memory/storage/connection.rs: the store of the connections, a HashMap by uuid.
pub mod Tokens
pub mod Addresses
use pony.Prelude.{
  ℕ, ◌≡◌, Bool, true, false, not, List, [], ◌∷◌, Option, none, some, leb, nat_eqb, nat_eq,
  if◌then◌else◌, find, keep, length, option_eqb, PartialEq, ◌==◌,
}
use pony.Prelude.Map.{Map, lookup, insert, remove}
use pony.Tag.{ProtoTag, wireguard, tag_eq}
use pony.Wireguard.{
  IpAddr, v4, v6, IpAddrMask, as_ipv4, increment_ipv4, first_peer_ip, contains_ipv4,
}
use pony.Subscription.{Uuid, DateTime}
use pony.Connection.{
  WgParam, Proto, wg, ss, xray, h2, mt, proto_tag, proto_wireguard, Conn, BaseOps, conn_ops,
}

-- src/memory/storage/mod.rs: the outcome of an operation on a store.
pub data Status : Type 0 where
  already_exist not_modified updated updated_stat not_found ok deleted_previously : Uuid → Status
  bad_request : Uuid → Status

abbrev pub has_token : Uuid → Proto → Bool
has_token token (h2 t) = nat_eqb t token
has_token token (wg _) = false
has_token token (ss _) = false
has_token token (xray _) = false
has_token token (mt _) = false

-- The key of `max_by_key`: the IPv4 address of the peer, or 0.
abbrev pub addr_key : IpAddr → ℕ
addr_key (v4 ip) = ip
addr_key (v6 ip) = 0

abbrev pub proto_key : Proto → ℕ
proto_key (wg param) = addr_key param.address.address
proto_key (ss _) = 0
proto_key (xray _) = 0
proto_key (h2 _) = 0
proto_key (mt _) = 0

-- `if conns.is_empty() { None } else { Some(conns) }`
unfoldable pub some_if_any : {A : Type 0} → List A → Option (List A)
some_if_any [] = none
some_if_any (e ∷ es) = some (e ∷ es)

module _ {C : Type 0} ⦃o : BaseOps C⦄ where
  -- `add` of both traits
  unfoldable pub add : Uuid → C → Map Uuid C → Map Uuid C × Status
  add conn_id new_conn m = elim (lookup conn_id m) [
    | some _ ↦ (m, already_exist conn_id)
    | none ↦ (insert conn_id new_conn m, ok conn_id)
  ]

  -- `remove`: `false` is the error "Conn not found".
  unfoldable pub remove_conn : Uuid → Map Uuid C → Map Uuid C × Bool
  remove_conn conn_id m = elim (lookup conn_id m) [
    | some _ ↦ (remove conn_id m, true)
    | none ↦ (m, false)
  ]

  unfoldable pub validate_token : Uuid → Map Uuid C → Option Uuid
  validate_token token m = elim (find (λ e. has_token token (o.get_proto e.1)) m) [
    | some e ↦ some e.0
    | none ↦ none
  ]

  unfoldable pub get_by_proto : ProtoTag → Map Uuid C → Option (List (Uuid × C))
  unfolding some_if_any
  get_by_proto tag m = some_if_any (keep (λ e. proto_tag (o.get_proto e.1) == tag) m)

  -- `max_by_key`: the last of the greatest.
  unfoldable pub max_by_key : (Uuid × C → ℕ) → List (Uuid × C) → Option (Uuid × C)
  max_by_key key [] = none
  max_by_key key (e ∷ es) = elim (max_by_key key es) [
    | none ↦ some e
    | some best ↦ if leb (key e) (key best) then some best else some e
  ]

  unfoldable pub get_last_wg_addr : Map Uuid C → Option IpAddrMask
  get_last_wg_addr m =
      elim (max_by_key (λ e. proto_key (o.get_proto e.1))
        (keep (λ e. proto_tag (o.get_proto e.1) == wireguard) m)) [
          | none ↦ none
          | some e ↦ elim (proto_wireguard (o.get_proto e.1)) [
            | none ↦ none
            | some param ↦ some param.address
          ]
        ]

-- `get_by_subscription_id`
unfoldable pub get_by_subscription_id : Uuid → Map Uuid Conn → Option (List (Uuid × Conn))
unfolding some_if_any
get_by_subscription_id sub_id m =
    some_if_any (keep (λ e. option_eqb e.1.subscription_id (some sub_id)) m)

-- The address that `create_connection_handler` and `post_trial_handler` give a new WireGuard peer
-- (src/bin/api/http/handlers/connection.rs and trial.rs).
pub data Allocation : Type 0 where
  allocated : ℕ → Allocation
  failed out_of_range : Allocation

abbrev after_last : IpAddrMask → Option ℕ → Option ℕ
after_last network (some ip) = increment_ipv4 ip
after_last network none = first_peer_ip network

unfoldable pub allocate : IpAddrMask → Map Uuid Conn → Allocation
allocate wg_network m =
    let last_ip : Option ℕ = elim (get_last_wg_addr m) [ none ↦ none | some mask ↦ as_ipv4 mask ] in
    elim (after_last wg_network last_ip) [
      | none ↦ failed
      | some next ↦ if not (contains_ipv4 wg_network next) then out_of_range else allocated next
    ]
