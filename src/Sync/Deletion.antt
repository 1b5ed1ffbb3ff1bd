-- ===== src/Sync/Deletion.antt =====
-- Deleting a connection, and restoring it.
use pony.Prelude.{
  ◌≡◌, ◌≢◌, ◌⊎◌, refl, Bool, true, false, [], ◌∷◌, ◌++◌, some, arith, nat_eq, Option-cases, inl,
  inr,
}
use pony.Prelude.Map.{lookup, adjust, lookup-adjust_self}
use pony.Subscription.{Uuid, DateTime}
use pony.Env.{Env}
use pony.Topic.{Topic, auth, updates}
use pony.Connection.{Proto, wg, ss, xray, h2, mt, proto_token, Conn, mark, as_delete_message}
use pony.Connections.{not_modified, ok}
use pony.Sync.World.{Cache, conn_deleted, published, World, Outside, done}
use pony.Sync.Operations.{topic_of, delete_connection, restore_connection}

-- The memory with the connection marked.
abbrev pub marked : DateTime → Bool → Uuid → Cache → Cache
marked now deleted id c = record c { connections = adjust id (mark now deleted) c.connections }

-- The authentication service is told about Hysteria2, the nodes of the environment about the rest.
abbrev pub IsTopicOf : Proto → Env → Topic → Type 0
IsTopicOf (h2 token) env topic = topic ≡ auth
IsTopicOf (wg param) env topic = topic ≡ updates env
IsTopicOf (ss password) env topic = topic ≡ updates env
IsTopicOf (xray tag) env topic = topic ≡ updates env
IsTopicOf (mt secret) env topic = topic ≡ updates env

topic_of-IsTopicOf :
    (p : Proto) (conn : Conn) → conn.proto ≡ p → IsTopicOf p conn.env (topic_of conn)
unfolding topic_of proto_token
topic_of-IsTopicOf (h2 token) conn e = rw (topic_of, e) refl
topic_of-IsTopicOf (wg param) conn e = rw (topic_of, e) refl
topic_of-IsTopicOf (ss password) conn e = rw (topic_of, e) refl
topic_of-IsTopicOf (xray tag) conn e = rw (topic_of, e) refl
topic_of-IsTopicOf (mt secret) conn e = rw (topic_of, e) refl

module _ (o : Outside) (now : DateTime) (id : Uuid) where
  pub delete_connection_cases :
      (conn : Conn) (w : World)
      → ((delete_connection o now id conn w ≡ (
        record {
          cache = marked now true id w.cache;
          events =
              (w.events ++ conn_deleted id ∷ [])
              ++ published (topic_of conn) (as_delete_message id conn ∷ []) ∷ [];
        },
        done (ok id),
      ))
          ⊎ (((delete_connection o now id conn w).1 ≢ done (ok id))
              × ((delete_connection o now id conn w).0.cache ≡ w.cache)
              × (((delete_connection o now id conn w).0.events ≡ w.events)
                  ⊎ ((delete_connection o now id conn w).0.events
                      ≡ w.events ++ conn_deleted id ∷ []))))
  unfolding delete_connection
  delete_connection_cases conn w = ground arith

  -- A deletion that returns `Ok` has deleted the row, has published the one delete message of the
  -- connection, on the auth topic for Hysteria2 and on that of its environment otherwise, and has
  -- marked it in the memory, in this order; any other outcome leaves the memory as it was, and has
  -- published nothing.
  pub delete_connection_atomic :
      (conn : Conn) (w : World)
      → ((delete_connection o now id conn w ≡ (
        record {
          cache = marked now true id w.cache;
          events =
              (w.events ++ conn_deleted id ∷ [])
              ++ published (topic_of conn) (as_delete_message id conn ∷ []) ∷ [];
        },
        done (ok id),
      ))
          ⊎ (((delete_connection o now id conn w).1 ≢ done (ok id))
              × ((delete_connection o now id conn w).0.cache ≡ w.cache)
              × (((delete_connection o now id conn w).0.events ≡ w.events)
                  ⊎ ((delete_connection o now id conn w).0.events
                      ≡ w.events ++ conn_deleted id ∷ []))))
        × IsTopicOf conn.proto conn.env (topic_of conn)
  delete_connection_atomic conn w =
      (delete_connection_cases conn w, topic_of-IsTopicOf conn.proto conn refl)

  -- After a deletion that returned `Ok`, deleting the connection again changes nothing and
  -- publishes nothing, and answers that it was not modified.
  pub delete_connection_twice :
      (conn again : Conn) (w : World)
      → (delete_connection o now id conn w).1 ≡ done (ok id)
      → delete_connection o now id again (delete_connection o now id conn w).0
        ≡ ((delete_connection o now id conn w).0, done (not_modified id))
  unfolding delete_connection mark
  delete_connection_twice conn again w h = elim (Option-cases (lookup id w.cache.connections)) [
    | inl absent ↦ ground arith
    | inr (c, held) ↦
        ground (arith, lookup-adjust_self id (mark now true) w.cache.connections c held)
  ]

  -- Restoring a connection that a deletion has marked brings it back under its uuid, as it was
  -- but for the time of modification, if the database goes along.
  pub restore-delete :
      (conn : Conn) (w : World) (c : Conn)
      → lookup id w.cache.connections ≡ some c
      → (delete_connection o now id conn w).1 ≡ done (ok id)
      → o.conn_restore id ≡ true
      → lookup id
          (restore_connection o now id (delete_connection o now id conn w).0).0.cache.connections
        ≡ some (record c { is_deleted = false; modified_at = now })
  unfolding delete_connection restore_connection mark
  restore-delete conn w c held h r = ground (
    arith,
    lookup-adjust_self id (mark now true) w.cache.connections c held,
    lookup-adjust_self id (mark now false) (adjust id (mark now true) w.cache.connections)
        (mark now true c),
  )
