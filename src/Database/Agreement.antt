-- ===== src/Database/Agreement.antt =====
-- The table of the connections after the statements that the API has run, and the memory.
use pony.Prelude.{
  ◌≡◌, refl, ap, sym, ◌∙◌, ◌⊎◌, Bool, true, false, List, [], ◌∷◌, ◌++◌, Option, none, some, arith,
  nat_eq, nat_eqb, nat_eqb_iff, Option-cases, Bool-cases, inl, inr,
}
use pony.Prelude.Map.{
  Map, lookup, adjust, insert, lookup-insert, lookup-adjust_self, lookup-adjust_ne,
  lookup-adjust-none,
}
use pony.Wireguard.{AddrText}
use pony.Topic.{Topic}
use pony.Subscription.{Uuid, DateTime}
use pony.Connection.{Conn, mark, Message, as_delete_message, as_update_message}
use pony.Sync.World.{
  Event, conn_inserted, conn_deleted, conn_restored, sub_created, sub_updated, sub_days_added,
  published, node_upserted, node_status_updated, World, Outside,
}
use pony.Sync.Operations.{topic_of, delete_connection}
use pony.System.{Step, created, deleted, restored, Reach, started, stepped}
use pony.System.Agreement.{announced, with_conn, create_cases}
use pony.System.Removal.{deleted_world}
use pony.System.Restoration.{restored_world, restore_one_lem}
use pony.Handlers.{create_topic}
use pony.Database.Times.{Columns}
use pony.Database.Conns.{
  ConnColumns, ConnTable, row_of_conn, columns_of_row, insert_conn, delete_conn_row,
  restore_conn_row, set_is_deleted,
}

module _ (cs : Columns) (t : AddrText) where
  -- The statement of an event.
  unfoldable pub on_row_event : Event → ConnTable → ConnTable
  on_row_event (conn_inserted id conn) rows = (insert_conn cs t (row_of_conn id conn) rows).0
  on_row_event (conn_deleted id) rows = delete_conn_row id rows
  on_row_event (conn_restored id) rows = restore_conn_row id rows
  on_row_event (sub_created _) rows = rows
  on_row_event (sub_updated _ _ _ _) rows = rows
  on_row_event (sub_days_added _ _) rows = rows
  on_row_event (published _ _) rows = rows
  on_row_event (node_upserted _ _) rows = rows
  on_row_event (node_status_updated _ _ _) rows = rows

  unfoldable pub replay_rows : List Event → ConnTable → ConnTable
  replay_rows [] rows = rows
  replay_rows (e ∷ events) rows = replay_rows events (on_row_event e rows)

  abbrev pub conn_table : World → ConnTable
  conn_table w = replay_rows w.events []

  -- The row with its modification time left out, and that of a connection.
  abbrev pub timeless : Option ConnColumns → Option ConnColumns
  timeless none = none
  timeless (some row) = some (record row { modified_at = 0 })

  abbrev pub row_for : Uuid → Option Conn → Option ConnColumns
  row_for id none = none
  row_for id (some c) = some (record (columns_of_row cs t (row_of_conn id c)) { modified_at = 0 })

  -- The table has the row of the connection of the memory, but for the modification time.
  abbrev pub HasRow : World → Uuid → Type 0
  HasRow w id = timeless (lookup id (conn_table w)) ≡ row_for id (lookup id w.cache.connections)

  replay_rows-append :
      (events more : List Event) (rows : ConnTable)
      → replay_rows (events ++ more) rows ≡ replay_rows more (replay_rows events rows)
  unfolding replay_rows
  replay_rows-append [] more rows = refl
  replay_rows-append (e ∷ events) more rows = replay_rows-append events more (on_row_event e rows)

  timeless-none : (r : Option ConnColumns) → timeless r ≡ none → r ≡ none
  timeless-none none h = refl
  timeless-none (some row) h = ground (arith, h)

  replay_rows-announced :
      (topic : Option Topic) (id : Uuid) (conn : Conn) (rows : ConnTable)
      → replay_rows (announced topic id conn) rows ≡ rows
  unfolding replay_rows on_row_event
  replay_rows-announced none id conn rows = refl
  replay_rows-announced (some topic) id conn rows = refl

  insert_free :
      (id : Uuid) (conn : Conn) (rows : ConnTable)
      → lookup id rows ≡ none
      → (insert_conn cs t (row_of_conn id conn) rows).0
        ≡ insert id (columns_of_row cs t (row_of_conn id conn)) rows
  unfolding insert_conn row_of_conn
  insert_free id conn rows free = rw (insert_conn, free) refl

  inserted-HasRow :
      (o : Outside) (now : DateTime) (id j : Uuid) (conn : Conn) (w : World)
      → lookup id w.cache.connections ≡ none
      → HasRow w id
      → HasRow w j
      → HasRow (with_conn o now id conn w) j
  unfolding replay_rows on_row_event
  inserted-HasRow o now id j conn w free here there =
      let absent : lookup id (conn_table w) ≡ none =
        timeless-none (lookup id (conn_table w)) (here ∙ ap (row_for id) free) in
      let run : conn_table (with_conn o now id conn w)
          ≡ insert id (columns_of_row cs t (row_of_conn id conn)) (conn_table w) =
        rw
          (
            replay_rows-append (w.events ++ conn_inserted id conn ∷ [])
                (announced (create_topic o now conn) id conn) [],
            replay_rows-append w.events (conn_inserted id conn ∷ []) [],
            replay_rows-announced (create_topic o now conn) id conn,
          )
          (insert_free id conn (conn_table w) absent) in
      rw
        (
          run,
          lookup-insert id j (columns_of_row cs t (row_of_conn id conn)) (conn_table w),
          lookup-insert id j conn w.cache.connections,
        )
        (elim (Bool-cases (nat_eqb id j)) [
          | inr other ↦ rw other there
          | inl same ↦ let e : j ≡ id = sym ((nat_eqb_iff id j).0 same) in rw (same, e) refl
        ])

  flagged_self :
      (now : DateTime) (flag : Bool) (id : Uuid) (rows : ConnTable) (m : Map Uuid Conn)
      → timeless (lookup id rows) ≡ row_for id (lookup id m)
      → timeless (lookup id (adjust id (set_is_deleted flag) rows))
        ≡ row_for id (lookup id (adjust id (mark now flag) m))
  unfolding columns_of_row row_of_conn set_is_deleted mark
  flagged_self now flag id rows m here = elim (Option-cases (lookup id m)) [
    | inl absent ↦
        let none_here : lookup id rows ≡ none =
          timeless-none (lookup id rows) (here ∙ ap (row_for id) absent) in
        rw
          (
            lookup-adjust-none id id (set_is_deleted flag) rows none_here,
            lookup-adjust-none id id (mark now flag) m absent,
          )
          refl
    | inr (c, stored) ↦ elim (Option-cases (lookup id rows)) [
      | inl lost ↦ absurd (ground (arith, here, stored, lost))
      | inr (row, kept) ↦
          rw
            (
              lookup-adjust_self id (set_is_deleted flag) rows row kept,
              lookup-adjust_self id (mark now flag) m c stored,
            )
            (ground (arith, here, stored, kept))
    ]
  ]

  -- The flag of a connection is set in its row as in the memory.
  flagged :
      (now : DateTime) (flag : Bool) (id j : Uuid) (rows : ConnTable) (m : Map Uuid Conn)
      → timeless (lookup id rows) ≡ row_for id (lookup id m)
      → timeless (lookup j rows) ≡ row_for j (lookup j m)
      → timeless (lookup j (adjust id (set_is_deleted flag) rows))
        ≡ row_for j (lookup j (adjust id (mark now flag) m))
  unfolding columns_of_row row_of_conn set_is_deleted mark
  flagged now flag id j rows m here there = elim (Bool-cases (nat_eqb id j)) [
    | inr other ↦
        rw
          (
            lookup-adjust_ne id j (set_is_deleted flag) rows other,
            lookup-adjust_ne id j (mark now flag) m other,
          )
          there
    | inl same ↦
        let e : j ≡ id = sym ((nat_eqb_iff id j).0 same) in
        rw e (flagged_self now flag id rows m here)
  ]

  deleted-HasRow :
      (now : DateTime) (id j : Uuid) (conn : Conn) (w : World)
      → HasRow w id
      → HasRow w j
      → HasRow (deleted_world now id conn w) j
  unfolding replay_rows on_row_event delete_conn_row
  deleted-HasRow now id j conn w here there =
      rw
        (
          replay_rows-append (w.events ++ conn_deleted id ∷ [])
              (published (topic_of conn) (as_delete_message id conn ∷ []) ∷ []) [],
          replay_rows-append w.events (conn_deleted id ∷ []) [],
        )
        (flagged now true id j (conn_table w) w.cache.connections here there)

  restored-HasRow :
      (now : DateTime) (id j : Uuid) (conn : Conn) (w : World)
      → HasRow w id
      → HasRow w j
      → HasRow (restored_world now id conn w) j
  unfolding replay_rows on_row_event restore_conn_row
  restored-HasRow now id j conn w here there =
      rw
        (
          replay_rows-append
              (w.events ++ published (topic_of conn) (as_update_message id conn ∷ []) ∷ [])
              (conn_restored id ∷ []) [],
          replay_rows-append w.events
              (published (topic_of conn) (as_update_message id conn ∷ []) ∷ []) [],
        )
        (flagged now false id j (conn_table w) w.cache.connections here there)

  module _ (o : Outside) (bytes : (ms : List Message) → o.to_bytes ms ≡ true)
      (sent : (topic : Topic) (ms : List Message) → o.send_binary topic ms ≡ true)
      (restores : (id : Uuid) → o.conn_restore id ≡ true) where
    delete_cases :
        (now : DateTime) (id : Uuid) (conn : Conn) (w : World)
        → ((delete_connection o now id conn w).0 ≡ w)
          ⊎ ((delete_connection o now id conn w).0 ≡ deleted_world now id conn w)
    unfolding delete_connection
    delete_cases now id conn w = ground (
      arith,
      bytes (as_delete_message id conn ∷ []),
      sent (topic_of conn) (as_delete_message id conn ∷ []),
    )

    step-HasRow :
        (w w' : World) (j : Uuid) → Step o w w' → ((id : Uuid) → HasRow w id) → HasRow w' j
    step-HasRow w w' j (created now chrono network fresh req free) a =
        elim (create_cases o bytes sent now chrono network fresh req w free) [
          | inl same ↦ rw same (a j)
          | inr (conn, made, live) ↦
              rw made (inserted-HasRow o now fresh.id j conn w free (a fresh.id) (a j))
        ]
    step-HasRow w w' j (deleted now id conn stored) a = elim (delete_cases now id conn w) [
      | inl same ↦ rw same (a j)
      | inr gone ↦ rw gone (deleted-HasRow now id j conn w (a id) (a j))
    ]
    step-HasRow w w' j (restored now id conn stored dead) a =
        rw
          (restore_one_lem o now id conn w (bytes (as_update_message id conn ∷ []))
            (sent (topic_of conn) (as_update_message id conn ∷ [])) (restores id) stored)
          (restored-HasRow now id j conn w (a id) (a j))

    -- If the table of the connections has the rows of the connections of the memory, but for their
    -- modification times, it has exactly these rows again after whatever requests for connections,
    -- deletions and restorations, in whatever order. The calls of the bus, and those of the
    -- database for a restoration, go through.
    pub Reach-HasRow :
        (start w : World) (id : Uuid)
        → ((j : Uuid) → HasRow start j)
        → Reach o start w
        → HasRow w id
    Reach-HasRow start w id a started = a id
    Reach-HasRow start w id a (stepped {w = w'} before step) =
        step-HasRow w' w id step (λ j. Reach-HasRow start w' j a before)
