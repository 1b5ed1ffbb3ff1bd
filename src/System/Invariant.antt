-- ===== src/System/Invariant.antt =====
-- The agreement of the two services in every reachable world.
use pony.Prelude.{
  ◌≡◌, refl, ap, sym, ◌∙◌, ◌↔◌, true, false, List, [], ◌∷◌, Option, none, some, arith, nat_eq,
  Option-cases, Bool-cases, inl, inr,
}
use pony.Prelude.Map.{Map, lookup, HasUniqueKeys}
use pony.Topic.{Topic}
use pony.Subscription.{Uuid, DateTime}
use pony.Connection.{
  Proto, wg, ss, xray, mt, h2, base_ops, Conn, Base, proto_token, Message, as_update_message,
}
use pony.Auth.{auth_handler}
use pony.Connections.{validate_token}
use pony.Connections.Tokens.{validate_token_sound, validate_token_complete}
use pony.Sync.World.{conn_deleted, World, Outside}
use pony.Sync.Operations.{topic_of}
use pony.Sync.Deletion.{delete_connection_cases}
use pony.System.{Step, created, deleted, restored, Reach, started, stepped, on_event, replay}
use pony.System.Replay.{replay-append, replay-HasUniqueKeys}
use pony.System.Agreement.{expected, held, auth_store, Agrees}
use pony.System.Agreement.{create_cases, with_conn-Agrees}
use pony.System.Removal.{deleted-Agrees}
use pony.System.Restoration.{restored-Agrees, restore_one_lem}

token_h2 : (p : Proto) (t : Uuid) → proto_token p ≡ some t → p ≡ h2 t
unfolding proto_token
token_h2 (wg _) t h = ground (arith, h)
token_h2 (ss _) t h = ground (arith, h)
token_h2 (xray _) t h = ground (arith, h)
token_h2 (h2 _) t h = ground (arith, h)
token_h2 (mt _) t h = ground (arith, h)

expected_live :
    (c : Option Conn) (token : Uuid)
    → expected c ≡ some (h2 token)
    → (conn : Conn) × (c ≡ some conn) × (conn.is_deleted ≡ false) × (conn.proto ≡ h2 token)
expected_live none token h = ground (arith, h)
expected_live (some conn) token h = elim (Bool-cases conn.is_deleted) [
  | inl dead ↦ absurd (ground (arith, dead, h))
  | inr alive ↦ elim (Option-cases (proto_token conn.proto)) [
    | inl silent ↦ absurd (ground (arith, alive, silent, h))
    | inr (t, e) ↦
        let same : t ≡ token = ground (arith, alive, e, h) in
        (conn, refl, alive, token_h2 conn.proto t e ∙ ap h2 same)
  ]
]

live_expected :
    (conn : Conn) (token : Uuid)
    → conn.is_deleted ≡ false
    → conn.proto ≡ h2 token
    → expected (some conn) ≡ some (h2 token)
unfolding proto_token
live_expected conn token alive p = ground (arith, alive, p)

held-some :
    (b : Option Base) (p : Proto)
    → held b ≡ some p
    → (base : Base) × (b ≡ some base) × (base.proto ≡ p)
held-some none p h = ground (arith, h)
held-some (some base) p h = (base, refl, ground (arith, h))

module _ (o : Outside) (clock : DateTime) (bytes : (ms : List Message) → o.to_bytes ms ≡ true)
    (sent : (topic : Topic) (ms : List Message) → o.send_binary topic ms ≡ true)
    (restores : (id : Uuid) → o.conn_restore id ≡ true) where
  step-Agrees :
      (w w' : World) (j : Uuid)
      → Step o w w'
      → ((id : Uuid) → Agrees clock w id)
      → Agrees clock w' j
  unfolding replay on_event
  step-Agrees w w' j (created now chrono network fresh req free) a =
      elim (create_cases o bytes sent now chrono network fresh req w free) [
        | inl same ↦ rw same (a j)
        | inr (conn, made, live) ↦
            rw made (
              with_conn-Agrees o bytes sent clock now fresh.id j conn w live free (a fresh.id)
                (a j))
      ]
  step-Agrees w w' j (deleted now id conn stored) a =
      elim (delete_connection_cases o now id conn w) [
        | inl gone ↦ rw gone (deleted-Agrees clock now id j conn w stored (a id) (a j))
        | inr (_, kept, inl quiet) ↦ rw (kept, quiet) (a j)
        | inr (_, kept, inr row_only) ↦
            rw (kept, row_only, replay-append clock w.events (conn_deleted id ∷ []) []) (a j)
      ]
  step-Agrees w w' j (restored now id conn stored dead) a =
      rw
        (restore_one_lem o now id conn w (bytes (as_update_message id conn ∷ []))
          (sent (topic_of conn) (as_update_message id conn ∷ [])) (restores id) stored)
        (restored-Agrees clock now id j conn w stored dead (a id) (a j))

  -- Whatever requests for connections, deletions and restorations the API has run, in whatever
  -- order, the authentication service, once it has handled everything that was published for it,
  -- agrees with the memory of the API about every connection: it has exactly the live connections
  -- of Hysteria2, with their tokens. The calls of the bus, and those of the database for a
  -- restoration, go through.
  pub Reach-Agrees :
      (start w : World) (id : Uuid)
      → ((j : Uuid) → Agrees clock start j)
      → Reach o start w
      → Agrees clock w id
  Reach-Agrees start w id a started = a id
  Reach-Agrees start w id a (stepped {w = w'} before step) =
      step-Agrees w' w id step (λ j. Reach-Agrees start w' j a before)

  -- A token is accepted, once everything is handled, exactly if it is the token of a connection of
  -- the memory of the API that is not deleted.
  pub auth_handler_iff :
      (start w : World) (token : Uuid)
      → ((id : Uuid) → Agrees clock start id)
      → Reach o start w
      → ((auth_handler token (auth_store clock w)).ok ≡ true) ↔ (
          (id : Uuid) × (conn : Conn) × (lookup id w.cache.connections ≡ some conn)
          × (conn.is_deleted ≡ false)
          × (conn.proto ≡ h2 token))
  unfolding auth_handler
  auth_handler_iff start w token a reach =
      let mem : Map Uuid Base = auth_store clock w in
      let u : HasUniqueKeys mem = replay-HasUniqueKeys clock w.events [] tt in
      (
        (λ h. elim (Option-cases (validate_token token mem)) [
          | inl refused ↦
              let bad : false ≡ true = rw (auth_handler, refused) at h in
              absurd (ground (arith, bad))
          | inr (id, found) ↦
              let (base, stored, p) = validate_token_sound token id mem u found in
              let agrees : held (lookup id mem) ≡ expected (lookup id w.cache.connections) =
                Reach-Agrees start w id a reach in
              let e : expected (lookup id w.cache.connections) ≡ some (h2 token) =
                sym agrees ∙ ap held stored ∙ ap some p in
              let (conn, known, alive, q) = expected_live (lookup id w.cache.connections) token e in
              (id, conn, known, alive, q)
        ]),
        (λ (id, conn, stored, alive, p). elim (Option-cases (validate_token token mem)) [
          | inr (j, found) ↦ rw (auth_handler, found) refl
          | inl refused ↦
              let e : held (lookup id mem) ≡ some (h2 token) =
                Reach-Agrees start w id a reach
                ∙ ap expected stored
                ∙ live_expected conn token alive p in
              let (base, kept, q) = held-some (lookup id mem) (h2 token) e in
              absurd (validate_token_complete token mem id base refused kept q)
        ]),
      )
