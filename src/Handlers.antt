-- ===== src/Handlers.antt =====
-- src/bin/api/http/handlers/connection.rs and key.rs: the requests about connections and keys. The
-- texts of the replies are left out.
pub mod Creating
pub mod Keys
pub mod Subscriptions
pub mod Nodes
pub mod Activating
use pony.Prelude.{
  ℕ, Bool, true, false, not, ◌&&◌, ◌||◌, List, [], ◌∷◌, ◌++◌, Option, none, some, leb, nat_eq,
  if◌then◌else◌, keep, length, map, ◌==◌,
}
use pony.Prelude.Int.{ℤ, pos, ◌≤ℤ◌, int_eq}
use pony.Prelude.Map.{Map, lookup}
use pony.Prelude.Text.{Text}
use pony.Env.{Env, env_eq}
use pony.Tag.{
  ProtoTag, vless_tcp_reality, vless_grpc_reality, vless_xhttp_reality, vmess, shadowsocks,
  wireguard, hysteria2, mtproto, tag_eq,
}
use pony.Wireguard.{IpAddrMask, v4}
use pony.Topic.{Topic, auth, updates}
use pony.Subscription.{Uuid, DateTime, Chrono, is_active}
use pony.Key.{Key, activate}
use pony.Connection.{
  Proto, wg, ss, xray, h2, mt, proto_tag, proto_token, is_mtproto, Conn, new_conn,
  as_create_message, Message,
}
use pony.Connections.{
  Status, already_exist, not_modified, updated, not_found, ok, bad_request, Allocation, allocated,
  failed, out_of_range, allocate,
}
use pony.Sync.World.{Cache, World, Outside, SyncResult, done, error, published}
use pony.Sync.Operations.{add_conn, delete_connection, add_days}

pub data Reply : Type 0 where
  unchanged bad missing internal : Reply
  connection : Uuid → Conn → Reply
  count : ℕ → Reply
  key : Key → Reply

-- `ConnCreateRequest`; its `validate` accepts every request.
pub record ConnCreateRequest : Type 0 where
  pub env : Env
  pub subscription_id : Option Uuid
  pub proto : ProtoTag
  pub days : Option ℕ

-- What the handler draws at random.
pub record Fresh : Type 0 where
  pub id : Uuid
  pub keys : Text
  pub password : Text
  pub token : Uuid

pub record ConnType : Type 0 where
  pub proto : ProtoTag
  pub topic : Topic
  pub last_update : Option ℕ
  pub env : Env

modified_since : Chrono → Conn → Option ℕ → Bool
modified_since chrono c none = true
modified_since chrono c (some ts) = leb ts (chrono.timestamp c.modified_at)

-- Which connections a node, or the authentication service, is sent when it asks for them.
unfoldable pub is_sent : Chrono → ConnType → Conn → Bool
unfolding modified_since
is_sent chrono req c =
    not c.is_deleted
    && proto_tag c.proto == req.proto
    && (req.proto == hysteria2 || c.env == req.env)
    && modified_since chrono c req.last_update

module _ (o : Outside) (now : DateTime) where
  send_all : ConnType → List Message → World → World × Reply
  send_all req [] w = (w, unchanged)
  send_all req (m ∷ ms) w =
      if o.to_bytes (m ∷ ms) && o.send_binary req.topic (m ∷ ms)
      then (
        record w { events = w.events ++ published req.topic (m ∷ ms) ∷ [] },
        count (length (m ∷ ms)),
      )
      else (w, internal)

  unfoldable pub get_connections_handler : Chrono → ConnType → World → World × Reply
  unfolding send_all
  get_connections_handler chrono req w =
      send_all req
        (map (λ e. as_create_message e.0 e.1)
          (keep (λ e. is_sent chrono req e.1) w.cache.connections))
        w

  -- The subscription of the request is stored and active, if it names one.
  unfoldable pub is_allowed : Option Uuid → World → Bool
  is_allowed none w = true
  is_allowed (some sub_id) w = elim (lookup sub_id w.cache.subscriptions) [
    | none ↦ false
    | some sub ↦ is_active now sub
  ]

  unfoldable pub of_allocation : Text → Allocation → Option Proto
  of_allocation keys (allocated ip) =
      some (wg (record { privkey = keys; address = record { address = v4 ip; cidr = 32 } }))
  of_allocation keys failed = none
  of_allocation keys out_of_range = none

  unfoldable pub new_proto : IpAddrMask → Fresh → ProtoTag → Map Uuid Conn → Option Proto
  unfolding of_allocation
  new_proto network fresh wireguard m = of_allocation fresh.keys (allocate network m)
  new_proto network fresh shadowsocks m = some (ss fresh.password)
  new_proto network fresh vless_tcp_reality m = some (xray vless_tcp_reality)
  new_proto network fresh vless_grpc_reality m = some (xray vless_grpc_reality)
  new_proto network fresh vless_xhttp_reality m = some (xray vless_xhttp_reality)
  new_proto network fresh vmess m = some (xray vmess)
  new_proto network fresh hysteria2 m = some (h2 fresh.token)
  new_proto network fresh mtproto m = some (mt fresh.password)

  unfoldable pub create_topic : Conn → Option Topic
  create_topic conn = elim (proto_token conn.proto) [
    | some _ ↦ some auth
    | none ↦ if is_mtproto conn.proto then none else some (updates conn.env)
  ]

  -- `let _ = send_binary(…)`: whether the message went out does not matter.
  send_create : Option Topic → List Message → World → World
  send_create none ms w = w
  send_create (some topic) ms w =
      if o.send_binary topic ms
      then record w { events = w.events ++ published topic ms ∷ [] }
      else w

  unfoldable pub announce : Uuid → Conn → World → World × Reply
  unfolding send_create
  announce id conn w =
      let ms : List Message = as_create_message id conn ∷ [] in
      if o.to_bytes ms
      then (send_create (create_topic conn) ms w, connection id conn)
      else (w, internal)

  unfoldable pub added : Uuid → Conn → World → SyncResult Status → World × Reply
  added conn_id conn w (done (ok id)) = announce conn_id conn w
  added conn_id conn w (done (already_exist id)) = (w, unchanged)
  added conn_id conn w (done _) = (w, bad)
  added conn_id conn w (error e) = (w, internal)

  unfoldable pub create_conn :
      ConnCreateRequest → Fresh → Option DateTime → Option Proto → World → World × Reply
  unfolding added
  create_conn req fresh expires_at none w = (w, internal)
  create_conn req fresh expires_at (some proto) w =
      let conn = new_conn now req.env req.subscription_id proto expires_at in
      let (w', r) = add_conn o now fresh.id conn w in added fresh.id conn w' r

  unfoldable pub expired_at : Chrono → Option ℕ → Option DateTime
  expired_at chrono none = none
  expired_at chrono (some days) = some (chrono.plus_days now (pos days))

  unfoldable pub create_connection_handler :
      Chrono → IpAddrMask → Fresh → ConnCreateRequest → World → World × Reply
  unfolding expired_at
  create_connection_handler chrono wg_network fresh req w =
      if is_allowed req.subscription_id w
      then create_conn req fresh (expired_at chrono req.days)
          (new_proto wg_network fresh req.proto w.cache.connections) w
      else (w, bad)

  deleted : Uuid → Conn → World → SyncResult Status → World × Reply
  deleted conn_id conn w (done (ok id)) = (w, connection id conn)
  deleted conn_id conn w (done (not_found id)) = (w, missing)
  deleted conn_id conn w (done _) = (w, bad)
  deleted conn_id conn w (error e) = (w, internal)

  delete_found : Uuid → Option Conn → World → World × Reply
  delete_found conn_id none w = (w, missing)
  delete_found conn_id (some conn) w =
      if conn.is_deleted
      then (w, missing)
      else let (w', r) = delete_connection o now conn_id conn w in deleted conn_id conn w' r

  unfoldable pub delete_connection_handler : Uuid → World → World × Reply
  unfolding delete_found deleted
  delete_connection_handler conn_id w = delete_found conn_id (lookup conn_id w.cache.connections) w

  -- `key_db.activate(&key)`: the row is written, or the call fails.
  unfoldable pub save_key :
      Bool → Uuid → Key → World → SyncResult Status → World × Option Key × Reply
  save_key saved sub_id k w (done (updated _)) =
      if saved
      then (w, some (activate now sub_id k), key (activate now sub_id k))
      else (w, some k, bad)
  save_key saved sub_id k w (done (not_found _)) = (w, some k, missing)
  save_key saved sub_id k w (done _) = (w, some k, unchanged)
  save_key saved sub_id k w (error e) = (w, some k, bad)

  -- The row of the code before and after the request; `saved` is whether the database takes it.
  unfoldable pub post_activate_key_handler :
      Chrono → Bool → Uuid → Option Key → World → World × Option Key × Reply
  unfolding save_key
  post_activate_key_handler chrono saved sub_id none w = (w, none, missing)
  post_activate_key_handler chrono saved sub_id (some k) w =
      if k.activated
      then (w, some k, bad)
      else let (w', r) = add_days o now chrono sub_id k.days w in save_key saved sub_id k w' r
