-- ===== src/System/Restoration.antt =====
-- The agreement of the two services over a restoration.
use pony.Prelude.{
  ◌≡◌, refl, ap, sym, ◌∙◌, true, false, [], ◌∷◌, ◌++◌, Option, none, some, nat_eq, nat_eqb,
  nat_eqb_iff, Option-cases, Bool-cases, inl, inr, if◌then◌else◌,
}
use pony.Prelude.Map.{Map, lookup, lookup-adjust_self, lookup-adjust_ne}
use pony.Subscription.{Uuid, DateTime}
use pony.Connection.{h2, Conn, mark, Base, new_base, proto_token, Message, as_update_message}
use pony.Auth.{on_action, add_message, handle_messages_batch}
use pony.Sync.World.{published, conn_restored, World, Outside}
use pony.Sync.Operations.{topic_of, restore_connection, restore_one}
use pony.Sync.Deletion.{marked}
use pony.System.{on_topic, on_event, replay}
use pony.System.Replay.{replay-append, add_message_self, add_message_other}
use pony.System.Agreement.{expected, held, held-none, auth_store, Agrees}

replay_restored :
    (clock : DateTime) (id : Uuid) (conn : Conn) (mem : Map Uuid Base)
    → on_topic clock (topic_of conn) (as_update_message id conn ∷ []) mem
      ≡ add_message clock (as_update_message id conn) (proto_token conn.proto) mem
unfolding on_topic topic_of handle_messages_batch on_action as_update_message add_message
replay_restored clock id conn mem = elim (Option-cases (proto_token conn.proto)) [
  | inr (t, e) ↦
      rw (topic_of, e, on_topic, handle_messages_batch, on_action, as_update_message) refl
  | inl e ↦ rw (topic_of, e, on_topic, add_message) refl
]

-- The world after a restoration that goes through.
abbrev pub restored_world : DateTime → Uuid → Conn → World → World
restored_world now id conn w = record {
  cache = marked now false id w.cache;
  events =
      (w.events ++ published (topic_of conn) (as_update_message id conn ∷ []) ∷ [])
      ++ conn_restored id ∷ [];
}

pub restore_one_lem :
    (o : Outside) (now : DateTime) (id : Uuid) (conn : Conn) (w : World)
    → o.to_bytes (as_update_message id conn ∷ []) ≡ true
    → o.send_binary (topic_of conn) (as_update_message id conn ∷ []) ≡ true
    → o.conn_restore id ≡ true
    → lookup id w.cache.connections ≡ some conn
    → (restore_one o now id conn w).0 ≡ restored_world now id conn w
unfolding restore_one restore_connection
restore_one_lem o now id conn w b s r stored =
    rw (restore_one, b, s, restore_connection, stored, r) refl

marked_live-expected :
    (now : DateTime) (id j : Uuid) (conn : Conn) (w : World)
    → lookup id w.cache.connections ≡ some conn
    → expected (lookup j (marked now false id w.cache).connections) ≡ (
        if nat_eqb id j
        then elim (proto_token conn.proto) [ some t ↦ some (h2 t) | none ↦ none ]
        else expected (lookup j w.cache.connections))
unfolding mark
marked_live-expected now id j conn w stored = elim (Bool-cases (nat_eqb id j)) [
  | inr other ↦ rw (lookup-adjust_ne id j (mark now false) w.cache.connections other, other) refl
  | inl same ↦
      let e : j ≡ id = sym ((nat_eqb_iff id j).0 same) in
      rw (same, e, lookup-adjust_self id (mark now false) w.cache.connections conn stored) refl
]

added_lem :
    (clock : DateTime) (msg : Message) (j : Uuid) (token : Option Uuid) (mem : Map Uuid Base)
    → lookup msg.conn_id mem ≡ none
    → held (lookup j (add_message clock msg token mem)) ≡ (
        if nat_eqb msg.conn_id j
        then elim token [ some t ↦ some (h2 t) | none ↦ none ]
        else held (lookup j mem))
unfolding add_message new_base
added_lem clock msg j token mem free = elim (Bool-cases (nat_eqb msg.conn_id j)) [
  | inr other ↦ rw (other, add_message_other clock msg token j mem other) refl
  | inl same ↦
      let e : j ≡ msg.conn_id = sym ((nat_eqb_iff msg.conn_id j).0 same) in
      elim (Option-cases token) [
        | inl silent ↦ rw (same, e, silent, add_message, free) refl
        | inr (t, loud) ↦ rw (same, e, loud, add_message_self clock msg t mem free) refl
      ]
]

pub restored-Agrees :
    (clock now : DateTime) (id j : Uuid) (conn : Conn) (w : World)
    → lookup id w.cache.connections ≡ some conn
    → conn.is_deleted ≡ true
    → Agrees clock w id
    → Agrees clock w j
    → Agrees clock (restored_world now id conn w) j
unfolding replay on_event as_update_message
restored-Agrees clock now id j conn w stored dead here there =
    let mem : Map Uuid Base = auth_store clock w in
    let free : lookup id mem ≡ none =
      held-none (lookup id mem) (here ∙ ap expected stored ∙ rw dead refl) in
    let run : auth_store clock (restored_world now id conn w)
        ≡ add_message clock (as_update_message id conn) (proto_token conn.proto) mem =
      rw
        (
          replay-append clock
              (w.events ++ published (topic_of conn) (as_update_message id conn ∷ []) ∷ [])
              (conn_restored id ∷ []) [],
          replay-append clock w.events
              (published (topic_of conn) (as_update_message id conn ∷ []) ∷ []) [],
        )
        (replay_restored clock id conn mem) in
    rw
      (
        run,
        marked_live-expected now id j conn w stored,
        added_lem clock (as_update_message id conn) j (proto_token conn.proto) mem free,
      )
      (ap
        (λ p.
          if nat_eqb id j
          then elim (proto_token conn.proto) [ some t ↦ some (h2 t) | none ↦ none ]
          else p)
        there)
