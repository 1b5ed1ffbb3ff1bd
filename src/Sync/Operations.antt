-- ===== src/Sync/Operations.antt =====
-- src/bin/api/sync/tasks.rs: the operations that keep the memory, the database and the nodes
-- together. Every operation runs without another one in between; `now` is the clock.
use pony.Prelude.{
  Bool, true, false, not, List, [], ◌∷◌, ◌++◌, Option, none, some, ltb, nat_eq, if◌then◌else◌, keep,
}
use pony.Prelude.Int.{ℤ}
use pony.Prelude.Map.{Map, lookup, adjust}
use pony.Prelude.Text.{Text}
use pony.Topic.{Topic, auth, updates}
use pony.Subscription.{
  Uuid, DateTime, Chrono, Subscription, is_active, set_expires_at, extend, set_refer_code,
  set_referred_by, set_limit_bytes, refer_code_of, referred_by_of,
}
use pony.Connection.{
  Conn, Message, proto_token, mark, as_update_message, as_delete_message, conn_ops,
}
use pony.Connections
use pony.Connections.{
  Status, already_exist, not_modified, updated, not_found, ok, bad_request, get_by_subscription_id,
}
use pony.Subscriptions
use pony.Sync.World.{
  conn_inserted, conn_deleted, conn_restored, sub_created, sub_updated, sub_days_added, published,
  World, Outside, database, memory, zmq, rkyv_serialize, inconsistent_state, SyncResult, done, M,
  ◌>>=◌, ◌>>◌, pure, fail, gets, modify, call, on_connections, on_subscriptions,
}

-- Where the messages about a connection go: those with a Hysteria2 token to the authentication
-- service, the others to the nodes of the environment.
unfoldable pub topic_of : Conn → Topic
topic_of c = elim (proto_token c.proto) [ some _ ↦ auth | none ↦ updates c.env ]

-- The request body of a subscription (src/bin/api/http/request.rs).
pub record SubReq : Type 0 where
  pub referred_by : Option Text
  pub refer_code : Option Text
  pub days : Option ℤ
  pub limit_bytes : Option ℤ

abbrev pub when_some :
    {A : Type 0} → Option A → (A → Subscription → Subscription) → Subscription → Subscription
when_some none f s = s
when_some (some a) f s = f a s

module _ (o : Outside) (now : DateTime) where
  -- `rkyv::to_bytes` and `send_binary`
  publish : Topic → List Message → M (Unit {0})
  publish topic msgs = do
    if o.to_bytes msgs then pure tt else fail rkyv_serialize
    call (o.send_binary topic msgs) zmq (published topic msgs)

  conn_status : Status → M Status
  conn_status (ok id) = pure (ok id)
  conn_status (already_exist id) = pure (ok id)
  conn_status (bad_request id) = pure (bad_request id)
  conn_status _ = fail memory

  unfoldable pub add_conn : Uuid → Conn → M Status
  unfolding conn_status
  add_conn conn_id conn = do
    call (o.conn_insert conn_id conn) database (conn_inserted conn_id conn)
    status ← gets (λ c. (Connections.add conn_id conn c.connections).1)
    modify (on_connections (λ m. (Connections.add conn_id conn m).0))
    conn_status status

  unfoldable pub sub_status : Status → M Status
  sub_status (ok id) = pure (ok id)
  sub_status (updated id) = pure (updated id)
  sub_status (already_exist id) = pure (already_exist id)
  sub_status (bad_request id) = pure (bad_request id)
  sub_status _ = fail memory

  unfoldable pub add_sub : Subscription → M Status
  unfolding sub_status
  add_sub sub = do
    call (o.sub_create sub) database (sub_created sub)
    status ← gets (λ c. (Subscriptions.add sub c.subscriptions).1)
    modify (on_subscriptions (λ m. (Subscriptions.add sub m).0))
    sub_status status

  delete_existing : Uuid → Conn → M Status
  delete_existing conn_id conn = do
    call (o.conn_delete conn_id) database (conn_deleted conn_id)
    publish (topic_of conn) (as_delete_message conn_id conn ∷ [])
    modify (on_connections (adjust conn_id (mark now true)))
    pure (ok conn_id)

  delete_found : Uuid → Conn → Option Conn → M Status
  delete_found conn_id conn none = pure (not_found conn_id)
  delete_found conn_id conn (some existing) =
      if existing.is_deleted then pure (not_modified conn_id) else delete_existing conn_id conn

  unfoldable pub delete_connection : Uuid → Conn → M Status
  unfolding delete_found delete_existing publish
  delete_connection conn_id conn = do
    existing ← gets (λ c. lookup conn_id c.connections)
    delete_found conn_id conn existing

  restore_found : Uuid → Option Conn → M Status
  restore_found conn_id none = pure (not_found conn_id)
  restore_found conn_id (some c) = do
    call (o.conn_restore conn_id) database (conn_restored conn_id)
    modify (on_connections (adjust conn_id (mark now false)))
    pure (ok conn_id)

  unfoldable pub restore_connection : Uuid → M Status
  unfolding restore_found
  restore_connection conn_id = do
    current ← gets (λ c. lookup conn_id c.connections)
    restore_found conn_id current

  -- One of the joined tasks: whatever fails, the others go on.
  restored_id : SyncResult Status → List Uuid
  restored_id (done (ok id)) = id ∷ []
  restored_id (done (updated id)) = id ∷ []
  restored_id _ = []

  unfoldable pub restore_one : Uuid → Conn → World → World × List Uuid
  unfolding publish restored_id
  restore_one conn_id conn w =
      let (w', r) =
        (publish (topic_of conn) (as_update_message conn_id conn ∷ [])
            >> restore_connection conn_id)
          w in
      (w', restored_id r)

  unfoldable pub restore_all : List (Uuid × Conn) → World → World × List Uuid
  restore_all [] w = (w, [])
  restore_all ((id, c) ∷ es) w =
      let (w', ids) = restore_one id c w in
      let (w'', rest) = restore_all es w' in (w'', ids ++ rest)

  -- The connections of the subscription that are marked as deleted.
  unfoldable pub to_restore : Uuid → Map Uuid Conn → List (Uuid × Conn)
  to_restore sub_id m = elim (get_by_subscription_id sub_id m) [
    | some conns ↦ keep (λ e. e.1.is_deleted) conns
    | none ↦ []
  ]

  unfoldable pub restore_connections_by_subscription : Uuid → World → World × List Uuid
  unfolding restore_all
  restore_connections_by_subscription sub_id w =
      restore_all (to_restore sub_id w.cache.connections) w

  module _ (chrono : Chrono) where
    unfoldable pub apply_req : SubReq → Subscription → Subscription
    apply_req req s = when_some req.limit_bytes set_limit_bytes (
        when_some req.refer_code set_refer_code
          (when_some req.referred_by set_referred_by (when_some req.days (extend chrono now) s)))

    write_sub : Uuid → Subscription → Option DateTime → M Status
    write_sub sub_id sub none = fail inconsistent_state
    write_sub sub_id sub (some expires_at) = do
      call (o.sub_update sub_id) database
          (sub_updated sub_id expires_at (referred_by_of sub) (refer_code_of sub))
      pure (updated sub_id)

    update_found : Uuid → SubReq → Option Subscription → M Status
    update_found sub_id req none = pure (not_found sub_id)
    update_found sub_id req (some s) = do
      modify (on_subscriptions (adjust sub_id (apply_req req)))
      write_sub sub_id (apply_req req s) (apply_req req s).expires_at

    unfoldable pub update_sub : Uuid → SubReq → M Status
    unfolding update_found write_sub apply_req
    update_sub sub_id req = do
      found ← gets (λ c. lookup sub_id c.subscriptions)
      update_found sub_id req found

    -- The new expiry: counted from the old one if that is still ahead, from now otherwise.
    abbrev pub new_expires : ℤ → Option DateTime → DateTime
    new_expires days none = chrono.plus_days now days
    new_expires days (some exp) =
        if ltb now exp then chrono.plus_days exp days else chrono.plus_days now days

    -- `let _ = sub.set_expires_at(…)`: an error leaves the subscription alone.
    unfoldable pub prolong : ℤ → Subscription → Subscription
    prolong days s = elim (set_expires_at now (new_expires days s.expires_at) s) [
      | some s' ↦ s'
      | none ↦ s
    ]

    restore_if : Bool → Uuid → M (Unit {0})
    restore_if was_inactive sub_id w =
        if was_inactive
        then ((restore_connections_by_subscription sub_id w).0, done tt)
        else (w, done tt)

    days_found : Uuid → ℤ → Option Subscription → M Status
    days_found sub_id days none = pure (not_found sub_id)
    days_found sub_id days (some s) = do
      modify (on_subscriptions (adjust sub_id (prolong days)))
      call (o.sub_add_days sub_id days) database (sub_days_added sub_id days)
      restore_if (not (is_active now s)) sub_id
      pure (updated sub_id)

    unfoldable pub add_days : Uuid → ℤ → M Status
    unfolding days_found restore_if
    add_days sub_id days = do
      found ← gets (λ c. lookup sub_id c.subscriptions)
      days_found sub_id days found
