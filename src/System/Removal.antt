-- ===== src/System/Removal.antt =====
-- The agreement of the two services over a deletion.
use pony.Prelude.{
  ◌≡◌, refl, ap, sym, ◌∙◌, true, [], ◌∷◌, ◌++◌, none, some, arith, nat_eq, nat_eqb, nat_eqb_iff,
  Option-cases, Bool-cases, inl, inr, if◌then◌else◌,
}
use pony.Prelude.Map.{Map, lookup, HasUniqueKeys, lookup-adjust_self, lookup-adjust_ne}
use pony.Subscription.{Uuid, DateTime}
use pony.Connection.{Conn, mark, Base, proto_token, as_delete_message}
use pony.Auth.{handle_messages_batch}
use pony.Auth.Store.{after_delete_lem}
use pony.Sync.World.{published, conn_deleted, World}
use pony.Sync.Operations.{topic_of}
use pony.Sync.Deletion.{marked}
use pony.System.{on_topic, on_event, replay}
use pony.System.Replay.{replay-append, replay-HasUniqueKeys}
use pony.System.Agreement.{expected, held, auth_store, Agrees}

-- What a deletion publishes.
replay_deleted :
    (clock : DateTime) (id : Uuid) (conn : Conn) (mem : Map Uuid Base)
    → on_topic clock (topic_of conn) (as_delete_message id conn ∷ []) mem
      ≡ elim (proto_token conn.proto) [
        | some _ ↦ handle_messages_batch clock (as_delete_message id conn ∷ []) mem
        | none ↦ mem
      ]
unfolding on_topic topic_of
replay_deleted clock id conn mem = elim (Option-cases (proto_token conn.proto)) [
  | inr (t, e) ↦ rw (topic_of, e) refl
  | inl e ↦ rw (topic_of, e) refl
]

removed_lem :
    (clock : DateTime) (id j : Uuid) (conn : Conn) (mem : Map Uuid Base)
    → HasUniqueKeys mem
    → held (lookup id mem) ≡ expected (some conn)
    → held (lookup j (on_topic clock (topic_of conn) (as_delete_message id conn ∷ []) mem))
      ≡ (if nat_eqb id j then none else held (lookup j mem))
removed_lem clock id j conn mem u h = elim (Option-cases (proto_token conn.proto)) [
  | inr (t, e) ↦
      let (gone, kept) = after_delete_lem clock id conn mem u in
      rw (replay_deleted, e)
        (elim (Bool-cases (nat_eqb id j)) [
          | inr other ↦ rw (kept j other, other) refl
          | inl same ↦ let i : j ≡ id = sym ((nat_eqb_iff id j).0 same) in rw (same, i, gone) refl
        ])
  | inl e ↦
      let absent : held (lookup id mem) ≡ none = ground (arith, h, e) in
      rw (replay_deleted, e)
        (elim (Bool-cases (nat_eqb id j)) [
          | inr other ↦ rw other refl
          | inl same ↦ let i : j ≡ id = sym ((nat_eqb_iff id j).0 same) in rw (same, i) absent
        ])
]

-- The world after a deletion that goes through.
abbrev pub deleted_world : DateTime → Uuid → Conn → World → World
deleted_world now id conn w = record {
  cache = marked now true id w.cache;
  events =
      (w.events ++ conn_deleted id ∷ [])
      ++ published (topic_of conn) (as_delete_message id conn ∷ []) ∷ [];
}

marked-expected :
    (now : DateTime) (id j : Uuid) (conn : Conn) (w : World)
    → lookup id w.cache.connections ≡ some conn
    → expected (lookup j (marked now true id w.cache).connections)
      ≡ (if nat_eqb id j then none else expected (lookup j w.cache.connections))
unfolding mark
marked-expected now id j conn w stored = elim (Bool-cases (nat_eqb id j)) [
  | inr other ↦ rw (lookup-adjust_ne id j (mark now true) w.cache.connections other, other) refl
  | inl same ↦
      let e : j ≡ id = sym ((nat_eqb_iff id j).0 same) in
      rw (same, e, lookup-adjust_self id (mark now true) w.cache.connections conn stored) refl
]

pub deleted-Agrees :
    (clock now : DateTime) (id j : Uuid) (conn : Conn) (w : World)
    → lookup id w.cache.connections ≡ some conn
    → Agrees clock w id
    → Agrees clock w j
    → Agrees clock (deleted_world now id conn w) j
unfolding replay on_event
deleted-Agrees clock now id j conn w stored here there =
    let mem : Map Uuid Base = auth_store clock w in
    let u : HasUniqueKeys mem = replay-HasUniqueKeys clock w.events [] tt in
    let run : auth_store clock (deleted_world now id conn w)
        ≡ on_topic clock (topic_of conn) (as_delete_message id conn ∷ []) mem =
      rw
        (
          replay-append clock (w.events ++ conn_deleted id ∷ [])
              (published (topic_of conn) (as_delete_message id conn ∷ []) ∷ []) [],
          replay-append clock w.events (conn_deleted id ∷ []) [],
        )
        refl in
    rw
      (
        run,
        marked-expected now id j conn w stored,
        removed_lem clock id j conn mem u (here ∙ ap expected stored),
      )
      (ap (λ p. if nat_eqb id j then none else p) there)
