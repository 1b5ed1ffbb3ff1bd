-- ===== src/System/Agreement.antt =====
-- What the authentication service knows, and what it should.
use pony.Prelude.{
  append_nil, ◌≡◌, refl, ap, sym, ◌∙◌, ◌⊎◌, true, false, List, [], ◌∷◌, ◌++◌, Option, none, some,
  arith, nat_eq, nat_eqb, nat_eqb_iff, Option-cases, Bool-cases, inl, inr, ==_refl, if◌then◌else◌,
}
use pony.Prelude.Map.{Map, lookup, insert, lookup-insert}
use pony.Wireguard.{IpAddrMask}
use pony.Topic.{Topic}
use pony.Subscription.{Uuid, DateTime, Chrono}
use pony.Connection.{
  Proto, h2, Conn, new_conn, Base, new_base, proto_token, is_mtproto, Message, as_create_message,
}
use pony.Connections
use pony.Connections.{ok}
use pony.Auth.{on_action, add_message, handle_messages_batch}
use pony.Sync.World.{Event, published, conn_inserted, World, Outside, done, error, database}
use pony.Sync.Operations.{add_conn}
use pony.Handlers.{
  ConnCreateRequest, Fresh, is_allowed, new_proto, expired_at, create_topic, announce, added,
  create_conn, create_connection_handler,
}
use pony.System.{on_topic, on_event, replay}
use pony.System.Replay.{replay-append, add_message_self, add_message_other}

-- The token that the authentication service should accept for a connection: that of a live
-- connection of Hysteria2.
abbrev pub expected : Option Conn → Option Proto
expected none = none
expected (some c) =
    if c.is_deleted then none else elim (proto_token c.proto) [ some t ↦ some (h2 t) | none ↦ none ]

abbrev pub held : Option Base → Option Proto
held none = none
held (some b) = some b.proto

-- The store, once everything that was published is handled.
abbrev pub auth_store : DateTime → World → Map Uuid Base
auth_store now w = replay now w.events []

abbrev pub Agrees : DateTime → World → Uuid → Type 0
Agrees now w id = held (lookup id (auth_store now w)) ≡ expected (lookup id w.cache.connections)

-- The worlds after a creation, a deletion and a restoration that go through.
abbrev pub announced : Option Topic → Uuid → Conn → List Event
announced none id conn = []
announced (some topic) id conn = published topic (as_create_message id conn ∷ []) ∷ []

abbrev pub with_conn : Outside → DateTime → Uuid → Conn → World → World
with_conn o now id conn w = record w {
  events = (w.events ++ conn_inserted id conn ∷ []) ++ announced (create_topic o now conn) id conn;
  cache = record w.cache { connections = insert id conn w.cache.connections };
}

pub held-none : (b : Option Base) → held b ≡ none → b ≡ none
held-none none h = refl
held-none (some b) h = ground (arith, h)

module _ (o : Outside) (bytes : (ms : List Message) → o.to_bytes ms ≡ true)
    (sent : (topic : Topic) (ms : List Message) → o.send_binary topic ms ≡ true) where
  announce_lem :
      (now : DateTime) (id : Uuid) (conn : Conn) (w : World)
      → (announce o now id conn w).0
        ≡ record w { events = w.events ++ announced (create_topic o now conn) id conn }
  unfolding announce
  announce_lem now id conn w = elim (Option-cases (create_topic o now conn)) [
    | inl none_drawn ↦
        rw (announce, bytes, none_drawn)
          (ap (λ es. record w { events = es }) (sym (append_nil w.events)))
    | inr (topic, e) ↦ rw (announce, bytes, e, sent) refl
  ]

  create_conn_cases :
      (now : DateTime) (fresh : Fresh) (req : ConnCreateRequest) (e : Option DateTime)
      (p : Option Proto) (w : World)
      → lookup fresh.id w.cache.connections ≡ none
      → ((create_conn o now req fresh e p w).0 ≡ w)
        ⊎ ((conn : Conn) × ((create_conn o now req fresh e p w).0 ≡ with_conn o now fresh.id conn w)
            × (conn.is_deleted ≡ false))
  unfolding create_conn added add_conn Connections.add new_conn
  create_conn_cases now fresh req e none w free = inl refl
  create_conn_cases now fresh req e (some p) w free =
      let conn : Conn = new_conn now req.env req.subscription_id p e in
      let w' : World = record w {
        events = w.events ++ conn_inserted fresh.id conn ∷ [];
        cache = record w.cache { connections = insert fresh.id conn w.cache.connections };
      } in
      elim (Bool-cases (o.conn_insert fresh.id conn)) [
        | inr down ↦
            let run : add_conn o now fresh.id conn w ≡ (w, error database) =
              rw (add_conn, down) refl in
            inl (ap (λ q. (added o now fresh.id conn q.0 q.1).0) run)
        | inl up ↦
            let run : add_conn o now fresh.id conn w ≡ (w', done (ok fresh.id)) =
              rw (add_conn, up, Connections.add, free) refl in
            inr (
              conn,
              ap (λ q. (added o now fresh.id conn q.0 q.1).0) run
                  ∙ announce_lem now fresh.id conn w',
              refl,
            )
      ]

  pub create_cases :
      (now : DateTime) (chrono : Chrono) (network : IpAddrMask) (fresh : Fresh)
      (req : ConnCreateRequest) (w : World)
      → lookup fresh.id w.cache.connections ≡ none
      → ((create_connection_handler o now chrono network fresh req w).0 ≡ w)
        ⊎ ((conn : Conn) × ((create_connection_handler o now chrono network fresh req w).0
              ≡ with_conn o now fresh.id conn w)
            × (conn.is_deleted ≡ false))
  unfolding create_connection_handler
  create_cases now chrono network fresh req w free =
      elim (Bool-cases (is_allowed o now req.subscription_id w)) [
        | inr refused ↦ inl (rw (create_connection_handler, refused) refl)
        | inl allowed ↦
            rw (create_connection_handler, allowed)
              (create_conn_cases now fresh req (expired_at o now chrono req.days)
                (new_proto o now network fresh req.proto w.cache.connections) w free)
      ]

  replay-announced :
      (clock now : DateTime) (id : Uuid) (conn : Conn) (mem : Map Uuid Base)
      → replay clock (announced (create_topic o now conn) id conn) mem
        ≡ add_message clock (as_create_message id conn) (proto_token conn.proto) mem
  unfolding replay on_event on_topic handle_messages_batch on_action as_create_message create_topic
      add_message
  replay-announced clock now id conn mem = elim (Option-cases (proto_token conn.proto)) [
    | inr (t, e) ↦
        rw
          (
            create_topic, e, replay, on_event, on_topic, handle_messages_batch, on_action,
            as_create_message, e,
          )
          refl
    | inl e ↦ elim (Bool-cases (is_mtproto conn.proto)) [
      | inl silent ↦ rw (create_topic, e, silent, add_message) refl
      | inr loud ↦ rw (create_topic, e, loud, add_message) refl
    ]
  ]

  add_message-Agrees :
      (clock : DateTime) (msg : Message) (conn : Conn) (mem : Map Uuid Base)
      → conn.is_deleted ≡ false
      → held (lookup msg.conn_id mem) ≡ none
      → held (lookup msg.conn_id (add_message clock msg (proto_token conn.proto) mem))
        ≡ expected (some conn)
  unfolding add_message new_base
  add_message-Agrees clock msg conn mem live free = elim (Option-cases (proto_token conn.proto)) [
    | inl e ↦ rw (e, add_message, live) free
    | inr (t, e) ↦
        let absent : lookup msg.conn_id mem ≡ none = held-none (lookup msg.conn_id mem) free in
        rw (e, live, add_message_self clock msg t mem absent) refl
  ]

  pub with_conn-Agrees :
      (clock now : DateTime) (id j : Uuid) (conn : Conn) (w : World)
      → conn.is_deleted ≡ false
      → lookup id w.cache.connections ≡ none
      → Agrees clock w id
      → Agrees clock w j
      → Agrees clock (with_conn o now id conn w) j
  unfolding replay on_event as_create_message
  with_conn-Agrees clock now id j conn w live free here there =
      let run : auth_store clock (with_conn o now id conn w)
          ≡ add_message clock (as_create_message id conn) (proto_token conn.proto)
              (auth_store clock w) =
        rw
          (
            replay-append clock (w.events ++ conn_inserted id conn ∷ [])
                (announced (create_topic o now conn) id conn) [],
            replay-append clock w.events (conn_inserted id conn ∷ []) [],
          )
          (replay-announced clock now id conn (auth_store clock w)) in
      elim (Bool-cases (nat_eqb id j)) [
        | inr other ↦
            rw
              (
                run,
                lookup-insert id j conn w.cache.connections,
                other,
                add_message_other clock (as_create_message id conn) (proto_token conn.proto) j
                    (auth_store clock w) other,
              )
              there
        | inl same ↦
            let e : j ≡ id = sym ((nat_eqb_iff id j).0 same) in
            rw (e, run, lookup-insert id id conn w.cache.connections, ==_refl id)
              (add_message-Agrees clock (as_create_message id conn) conn (auth_store clock w) live
                (here ∙ ap expected free))
      ]
