-- ===== src/Auth/Revocation.antt =====
-- From a deletion by the API service to the authentication service.
use pony.Prelude.{◌≡◌, ◌≢◌, refl, ap, ◌∙◌, [], ◌∷◌, ◌++◌, some, nat_eq, inl, inr}
use pony.Prelude.Map.{Map, HasUniqueKeys}
use pony.Topic.{auth}
use pony.Subscription.{Uuid, DateTime}
use pony.Connection.{h2, proto_token, Conn, Base, as_delete_message}
use pony.Connections.{ok}
use pony.Sync.World.{World, Outside, conn_deleted, published, done}
use pony.Sync.Operations.{topic_of, delete_connection}
use pony.Sync.Deletion.{delete_connection_cases}
use pony.Auth.{handle_messages_batch, auth_handler}
use pony.Auth.Store.{auth_handler-deleted}

topic_of_hysteria : (conn : Conn) (token : Uuid) → conn.proto ≡ h2 token → topic_of conn ≡ auth
unfolding topic_of proto_token
topic_of_hysteria conn token p = rw (topic_of, p) refl

-- A deletion of a Hysteria2 connection that returns `Ok` ends with the publication of its delete
-- message on the auth topic; and an authentication service without double uuids that has handled
-- this message does not answer the connection's uuid to its token any more.
pub deletion_revokes :
    (o : Outside) (now later : DateTime) (id token : Uuid) (conn : Conn) (w : World)
    (mem : Map Uuid Base)
    → conn.proto ≡ h2 token
    → HasUniqueKeys mem
    → (delete_connection o now id conn w).1 ≡ done (ok id)
    → ((delete_connection o now id conn w).0.events
        ≡ (w.events ++ conn_deleted id ∷ [])
          ++ published auth (as_delete_message id conn ∷ []) ∷ [])
      × ((auth_handler token (handle_messages_batch later (as_delete_message id conn ∷ []) mem)).id
          ≢ some id)
deletion_revokes o now later id token conn w mem p unique h = (
  elim (delete_connection_cases o now id conn w) [
    | inl all ↦
        ap (λ r. r.0.events) all
        ∙ ap
            (λ t.
              (w.events ++ conn_deleted id ∷ [])
              ++ published t (as_delete_message id conn ∷ []) ∷ [])
            (topic_of_hysteria conn token p)
    | inr part ↦ absurd (part.0 h)
  ],
  λ answered. (auth_handler-deleted later id id token conn mem unique answered).0 refl,
)
