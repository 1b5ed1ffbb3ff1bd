-- ===== src/Database/Reload/Lookup.antt =====
-- What the reloaded memory holds about a connection.
use pony.Prelude.{
  ◌≡◌, refl, ap, sym, nat_eqb_iff, ◌∙◌, List, [], ◌∷◌, Option, none, some, nat_eq, nat_eqb, All,
  Bool-cases, Option-cases, inl, inr, if◌then◌else◌,
}
use pony.Prelude.Map.{Map, lookup, lookup-insert}
use pony.Prelude.Text.{Unicode}
use pony.Subscription.{Uuid, Subscription}
use pony.Connection.{Conn, conn_ops}
use pony.Connections
use pony.Wireguard.{AddrText}
use pony.Node.{Node}
use pony.Sync.World.{Cache}
use pony.Database.Conns.{
  ConnColumns, ConnTable, Read, read, invalid, map_row, map_rows_to_conns, conn_of_row,
}
use pony.Database.Reload.{
  Queried, reloaded, empty_cache, add_nodes, add_conn_to_cache, add_conns, add_subscriptions,
  get_state_from_db, add_node_to_cache, add_subscription_to_cache,
}

-- A row of the table that becomes a connection.
abbrev pub IsReadable : Unicode → AddrText → Uuid × ConnColumns → Type 0
IsReadable u t e = (conn : Conn) × (conn_of_row u (map_row t e.0 e.1) ≡ read conn)

-- What is read for a uuid.
abbrev pub read_option : Read Conn → Option Conn
read_option (read conn) = some conn
read_option (invalid e) = none

abbrev pub read_row : Unicode → AddrText → Uuid → ConnTable → Option Conn
read_row u t id rows = elim (lookup id rows) [
  | none ↦ none
  | some row ↦ read_option (conn_of_row u (map_row t id row))
]

abbrev first_of : Option Conn → Option Conn → Option Conn
first_of (some c) other = some c
first_of none other = other

first_of-none : (a : Option Conn) → first_of a none ≡ a
first_of-none (some x) = refl
first_of-none none = refl

abbrev only_at : Uuid → Conn → Uuid → Option Conn
only_at k conn id = if nat_eqb k id then some conn else none

first_of_assoc : (a b c : Option Conn) → first_of (first_of a b) c ≡ first_of a (first_of b c)
first_of_assoc (some x) b c = refl
first_of_assoc none b c = refl

lookup-add :
    (k id : Uuid) (conn : Conn) (m : Map Uuid Conn)
    → lookup id (Connections.add k conn m).0 ≡ first_of (lookup id m) (only_at k conn id)
unfolding Connections.add
lookup-add k id conn m = elim (Option-cases (lookup k m)) [
  | inl free ↦
      rw (Connections.add, free, lookup-insert k id conn m)
        (elim (Bool-cases (nat_eqb k id)) [
          | inl same ↦ let e : id ≡ k = sym ((nat_eqb_iff k id).0 same) in rw (same, e, free) refl
          | inr other ↦ rw other (sym (first_of-none (lookup id m)))
        ])
  | inr (c, taken) ↦
      rw (Connections.add, taken)
        (elim (Bool-cases (nat_eqb k id)) [
          | inl same ↦ let e : id ≡ k = sym ((nat_eqb_iff k id).0 same) in rw (same, e, taken) refl
          | inr other ↦ rw other (sym (first_of-none (lookup id m)))
        ])
]

module _ (u : Unicode) (t : AddrText) where
  read_row_cons :
      (k id : Uuid) (row : ConnColumns) (rows : ConnTable) (conn : Conn)
      → conn_of_row u (map_row t k row) ≡ read conn
      → read_row u t id ((k, row) ∷ rows) ≡ first_of (only_at k conn id) (read_row u t id rows)
  unfolding lookup
  read_row_cons k id row rows conn h = elim (Bool-cases (nat_eqb k id)) [
    | inl same ↦
        let e : id ≡ k = sym ((nat_eqb_iff k id).0 same) in
        let here : conn_of_row u (map_row t id row) ≡ read conn = rw e h in
        rw (read_row, lookup, same, here) refl
    | inr other ↦ rw (read_row, lookup, other) refl
  ]

  -- All rows are added, and the connections are those that were there and those of the rows.
  add_conns_lem :
      (rows : ConnTable) (cache : Cache)
      → All (IsReadable u t) rows
      → (cache' : Cache) × (add_conns u (map_rows_to_conns t rows) cache ≡ read cache')
        × ((id : Uuid)
            → lookup id cache'.connections
              ≡ first_of (lookup id cache.connections) (read_row u t id rows))
  unfolding add_conns map_rows_to_conns add_conn_to_cache map_row lookup
  add_conns_lem [] cache ok = (cache, refl, λ id. sym (first_of-none (lookup id cache.connections)))
  add_conns_lem ((k, row) ∷ rows) cache ((conn, h), ok) =
      let next : Cache = record cache {
        connections = (Connections.add k conn cache.connections).0;
      } in
      let (cache', run, found) = add_conns_lem rows next ok in
      (
        cache',
        rw (add_conns, add_conn_to_cache, h) run,
        λ id.
            found id
            ∙ ap (λ f. first_of f (read_row u t id rows)) (lookup-add k id conn cache.connections)
            ∙ first_of_assoc (lookup id cache.connections) (only_at k conn id)
                (read_row u t id rows)
            ∙ ap (first_of (lookup id cache.connections))
                (sym (read_row_cons k id row rows conn h)),
      )

add_nodes_connections :
    (nodes : List Node) (cache : Cache) → (add_nodes nodes cache).connections ≡ cache.connections
unfolding add_nodes add_node_to_cache
add_nodes_connections [] cache = refl
add_nodes_connections (n ∷ nodes) cache = add_nodes_connections nodes (add_node_to_cache n cache)

add_subscriptions_connections :
    (subs : List Subscription) (cache : Cache)
    → (add_subscriptions subs cache).connections ≡ cache.connections
unfolding add_subscriptions add_subscription_to_cache
add_subscriptions_connections [] cache = refl
add_subscriptions_connections (s ∷ subs) cache =
    add_subscriptions_connections subs (add_subscription_to_cache s cache)

-- If every row of the table of connections becomes a connection, the memory is replaced, and holds
-- exactly these connections, whatever it held before.
pub get_state_from_db_lem :
    (u : Unicode) (t : AddrText) (rows : ConnTable) (nodes : List Node) (subs : List Subscription)
    (mem : Cache)
    → All (IsReadable u t) rows
    → (let after =
          get_state_from_db u
            (some
              (record { nodes = nodes; conns = map_rows_to_conns t rows; subscriptions = subs }))
            mem in
        (after.1 ≡ reloaded) × ((id : Uuid) → lookup id after.0.connections ≡ read_row u t id rows))
unfolding get_state_from_db lookup
get_state_from_db_lem u t rows nodes subs mem ok =
    let (tmp, run, found) = add_conns_lem u t rows (add_nodes nodes empty_cache) ok in
    let query : Queried = record {
      nodes = nodes;
      conns = map_rows_to_conns t rows;
      subscriptions = subs;
    } in
    let after : get_state_from_db u (some query) mem ≡ (add_subscriptions subs tmp, reloaded) =
      rw (get_state_from_db, run) refl in
    (
      ap (λ r. r.1) after,
      λ id.
          ap (λ r. lookup id r.0.connections) after
          ∙ ap (lookup id) (add_subscriptions_connections subs tmp)
          ∙ found id
          ∙ ap (λ m. first_of (lookup id m) (read_row u t id rows))
              (add_nodes_connections nodes empty_cache),
    )
