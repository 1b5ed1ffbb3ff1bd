-- ===== src/Database/Refresh.antt =====
-- The periodic reload of the memory from the database (src/bin/api/tasks.rs), after requests
-- for connections, deletions and restorations.
use pony.Prelude.{
  ◌≡◌, refl, ap, sym, ◌∙◌, true, false, List, [], ◌∷◌, Option, none, some, arith, nat_eq,
  Option-cases, inl, inr, All,
}
use pony.Prelude.Map.{lookup, HasUniqueKeys, insert-HasUniqueKeys, adjust-HasUniqueKeys, All-lookup}
use pony.Prelude.Text.{Unicode}
use pony.Env.Reading.{IsLower}
use pony.Wireguard.{AddrText}
use pony.Wireguard.Parsing.{RoundTrips}
use pony.Topic.{Topic}
use pony.Subscription.{Uuid, Subscription}
use pony.Connection.{Conn, Message}
use pony.Node.{Node}
use pony.Sync.World.{Event, conn_inserted, conn_deleted, conn_restored, World, Outside}
use pony.System.{Reach}
use pony.Database.Times.{Columns}
use pony.Database.Conns.{
  ConnColumns, ConnTable, ConnRow, row_of_conn, columns_of_row, insert_conn, delete_conn_row,
  restore_conn_row, set_is_deleted, read, map_row, map_rows_to_conns, conn_of_row,
}
use pony.Database.Rows.{IsKept, rounded, row_at, conn_of_row-row_at}
use pony.Database.Reload.{reloaded, get_state_from_db}
use pony.Database.Reload.Lookup.{IsReadable, read_row, get_state_from_db_lem}
use pony.Database.Agreement.{
  on_row_event, replay_rows, conn_table, timeless, row_for, HasRow, Reach-HasRow,
}

-- A connection with its modification time left out.
abbrev pub undated : Option Conn → Option Conn
undated none = none
undated (some c) = some (record c { modified_at = 0 })

abbrev pub kept : Columns → Option Conn → Option Conn
kept cs none = none
kept cs (some c) = some (record (rounded cs c) { modified_at = 0 })

module _ (cs : Columns) (t : AddrText) where
  insert_conn-HasUniqueKeys :
      (row : ConnRow) (rows : ConnTable)
      → HasUniqueKeys rows
      → HasUniqueKeys (insert_conn cs t row rows).0
  unfolding insert_conn
  insert_conn-HasUniqueKeys row rows u = elim (Option-cases (lookup row.conn_id rows)) [
    | inr (r, taken) ↦ rw (insert_conn, taken) u
    | inl free ↦
        rw (insert_conn, free) (insert-HasUniqueKeys row.conn_id (columns_of_row cs t row) rows u)
  ]

  on_row_event-HasUniqueKeys :
      (e : Event) (rows : ConnTable) → HasUniqueKeys rows → HasUniqueKeys (on_row_event cs t e rows)
  unfolding on_row_event delete_conn_row restore_conn_row
  on_row_event-HasUniqueKeys (conn_inserted id conn) rows u =
      insert_conn-HasUniqueKeys (row_of_conn id conn) rows u
  on_row_event-HasUniqueKeys (conn_deleted id) rows u =
      adjust-HasUniqueKeys id (set_is_deleted true) rows u
  on_row_event-HasUniqueKeys (conn_restored id) rows u =
      adjust-HasUniqueKeys id (set_is_deleted false) rows u
  on_row_event-HasUniqueKeys _ rows u = u

  replay_rows-HasUniqueKeys :
      (events : List Event) (rows : ConnTable)
      → HasUniqueKeys rows
      → HasUniqueKeys (replay_rows cs t events rows)
  unfolding replay_rows
  replay_rows-HasUniqueKeys [] rows u = u
  replay_rows-HasUniqueKeys (e ∷ events) rows u =
      replay_rows-HasUniqueKeys events (on_row_event cs t e rows)
        (on_row_event-HasUniqueKeys e rows u)

  -- A row that is that of a connection but for the modification time is read as that connection.
  same_row :
      (id : Uuid) (row : ConnColumns) (c : Conn)
      → timeless cs t (some row) ≡ row_for cs t id (some c)
      → row ≡ row_at row.modified_at cs t id c
  same_row id row c h = ground (arith, h)

  stored_conn :
      (w : World) (id : Uuid) (row : ConnColumns)
      → HasRow cs t w id
      → lookup id (conn_table cs t w) ≡ some row
      → (c : Conn) × (lookup id w.cache.connections ≡ some c)
        × (row ≡ row_at row.modified_at cs t id c)
  stored_conn w id row has found = elim (Option-cases (lookup id w.cache.connections)) [
    | inl absent ↦
        let bad : timeless cs t (some row) ≡ none =
          sym (ap (timeless cs t) found) ∙ has ∙ ap (row_for cs t id) absent in
        absurd (ground (arith, bad))
    | inr (c, known) ↦ (
      c,
      known,
      same_row id row c (sym (ap (timeless cs t) found) ∙ has ∙ ap (row_for cs t id) known),
    )
  ]

  module _ (u : Unicode) (r : RoundTrips t) where
    abbrev IsStorable : World → Type 0
    IsStorable w =
        (id : Uuid) (c : Conn)
        → lookup id w.cache.connections ≡ some c
        → IsLower u c.env × IsKept c.proto

    readable :
        (w : World)
        → ((id : Uuid) → HasRow cs t w id)
        → IsStorable w
        → All (IsReadable u t) (conn_table cs t w)
    readable w has storable =
        All-lookup (IsReadable u t) (conn_table cs t w) (replay_rows-HasUniqueKeys w.events [] tt)
          (λ id row found.
            let (c, known, same) = stored_conn w id row (has id) found in
            let (lower, whole) = storable id c known in
            (
              record (rounded cs c) { modified_at = row.modified_at },
              ap (λ x. conn_of_row u (map_row t id x)) same
                  ∙ conn_of_row-row_at cs t u r id c row.modified_at lower whole,
            ))

    read_row_lem :
        (w : World) (id : Uuid)
        → HasRow cs t w id
        → IsStorable w
        → undated (read_row u t id (conn_table cs t w)) ≡ kept cs (lookup id w.cache.connections)
    read_row_lem w id has storable = elim (Option-cases (lookup id (conn_table cs t w))) [
      | inl lost ↦ elim (Option-cases (lookup id w.cache.connections)) [
        | inl absent ↦ rw (read_row, lost, absent) refl
        | inr (c, known) ↦
            let bad : none ≡ row_for cs t id (some c) =
              sym (ap (timeless cs t) lost) ∙ has ∙ ap (row_for cs t id) known in
            absurd (ground (arith, bad))
      ]
      | inr (row, found) ↦
          let (c, known, same) = stored_conn w id row has found in
          let (lower, whole) = storable id c known in
          let reading : conn_of_row u (map_row t id row)
              ≡ read (record (rounded cs c) { modified_at = row.modified_at }) =
            ap (λ x. conn_of_row u (map_row t id x)) same
            ∙ conn_of_row-row_at cs t u r id c row.modified_at lower whole in
          rw (read_row, found, reading, known) refl
    ]

    -- Whatever requests for connections, deletions and restorations the API has run since the table
    -- had the rows of the connections, a reload of the memory from the database succeeds and keeps
    -- every connection, with its times as the columns keep them, but for the modification time, if
    -- the queries succeed and return the table, and every connection of the memory is one that is
    -- read back from its row. The calls of the bus, and those of the database for a restoration,
    -- have gone through.
    pub get_state_from_db-Reach :
        (o : Outside)
        → ((ms : List Message) → o.to_bytes ms ≡ true)
        → ((topic : Topic) (ms : List Message) → o.send_binary topic ms ≡ true)
        → ((id : Uuid) → o.conn_restore id ≡ true)
        → (start w : World) → ((id : Uuid) → HasRow cs t start id)
        → Reach o start w
        → ((id : Uuid) (c : Conn)
            → lookup id w.cache.connections ≡ some c
            → IsLower u c.env × IsKept c.proto)
        → (nodes : List Node) (subs : List Subscription)
        → (let after =
              get_state_from_db u
                (some (record {
                  nodes = nodes;
                  conns = map_rows_to_conns t (conn_table cs t w);
                  subscriptions = subs;
                }))
                w.cache in
            (after.1 ≡ reloaded)
            × ((id : Uuid)
                → undated (lookup id after.0.connections)
                  ≡ kept cs (lookup id w.cache.connections)))
    get_state_from_db-Reach o bytes sent restores start w a reach storable nodes subs =
        let has : (id : Uuid) → HasRow cs t w id =
          λ id. Reach-HasRow cs t o bytes sent restores start w id a reach in
        let (done, found) =
          get_state_from_db_lem u t (conn_table cs t w) nodes subs w.cache
            (readable w has storable) in
        (done, λ id. ap undated (found id) ∙ read_row_lem w id (has id) storable)
