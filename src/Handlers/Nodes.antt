-- ===== src/Handlers/Nodes.antt =====
-- src/bin/api/http/handlers/node.rs: the requests about nodes. The texts of the replies are left
-- out; the decimal text of a series' key is the parameter `u64_text`.
use pony.Prelude.{
  ℕ, ◌≡◌, refl, ◌∙◌, Bool, true, false, ◌||◌, List, [], ◌∷◌, ◌++◌, Option, none, some, arith,
  nat_eqb_iff, nat_eq, if◌then◌else◌, map, Bool-cases, inl, inr, ==_refl,
}
use pony.Prelude.Int.{ℤ}
use pony.Prelude.Map.{Map, lookup}
use pony.Prelude.Text.{Text, codes, Unicode, strip_prefix}
use pony.Subscription.{Uuid, DateTime}
use pony.Env.{Env, env_eq, from_text}
use pony.Tag.{ProtoTag}
use pony.Inbound.{Inbound}
use pony.Node.{
  Node, NodeType, common, online, node_eqb, NodeResponse, NodeMetricInfo, as_node_response,
}
use pony.Nodes
use pony.Nodes.{get, get_by_env, get_by_id, all}
use pony.Nodes.Registry.{row, get-add}
use pony.Metrics.{MetricStorage, MetricPoint, Series}
use pony.Connections.{Status, already_exist, not_modified, ok}
use pony.Sync.World.{World, Outside, SyncResult, done, error, node_upserted, call, database}
use pony.Sync.Nodes.{add_node, update_node_status, node_status, set_status}

-- src/bin/api/http/request.rs
pub record NodeRequest : Type 0 where
  pub env : Env
  pub hostname : Text
  pub address : ℕ
  pub inbounds : Map ProtoTag Inbound
  pub uuid : Uuid
  pub label : Text
  pub interface : Text
  pub cores : ℕ
  pub max_bandwidth_bps : ℤ
  pub country : Text
  pub type : Option NodeType

unfoldable pub as_node : DateTime → NodeRequest → Node
as_node now r = record {
  uuid = r.uuid;
  env = r.env;
  hostname = r.hostname;
  address = r.address;
  inbounds = r.inbounds;
  status = online;
  created_at = now;
  modified_at = now;
  label = r.label;
  interface = r.interface;
  cores = r.cores;
  max_bandwidth_bps = r.max_bandwidth_bps;
  country = r.country;
  type = elim r.type [ some t ↦ t | none ↦ common ];
}

pub data NodeReply : Type 0 where
  registered : Uuid → NodeReply
  unsupported internal not_found : NodeReply
  nodes : List NodeResponse → NodeReply
  node : NodeResponse → NodeReply

module _ (o : Outside) (now : DateTime) where
  unfoldable pub after_add : Uuid → Env → World → SyncResult Status → World × NodeReply
  after_add node_id env w (done (ok id)) =
      ((update_node_status o node_id env online w).0, registered id)
  after_add node_id env w (done (already_exist id)) =
      ((update_node_status o node_id env online w).0, registered id)
  after_add node_id env w (done (not_modified id)) =
      ((update_node_status o node_id env online w).0, registered id)
  after_add node_id env w (done _) = (w, unsupported)
  after_add node_id env w (error _) = (w, internal)

  unfoldable pub post_node_handler : NodeRequest → World → World × NodeReply
  post_node_handler req w =
      let (w', result) = add_node o req.uuid (as_node now req) w in
      after_add req.uuid req.env w' result

-- `name.starts_with("sys.") || name.starts_with("net.")`
abbrev starts_with : Text → Text → Bool
starts_with p s = elim (strip_prefix p s) [ some _ ↦ true | none ↦ false ]

unfoldable pub is_shown : Text → Bool
unfolding strip_prefix
is_shown name = starts_with (codes "sys.") name || starts_with (codes "net.") name

module _ (u64_text : ℕ → Text) where
  -- The closure of `filter_map`.
  unfoldable pub metric_info : MetricStorage → Series → List MetricPoint → Option NodeMetricInfo
  unfolding is_shown
  metric_info st key [] = none
  metric_info st key (p ∷ points) = elim (lookup key st.metadata) [
    | none ↦ none
    | some meta ↦
        if is_shown meta.0
        then some (record { key = u64_text key; name = meta.0; tags = meta.1 })
        else none
  ]

  unfoldable pub metric_infos : MetricStorage → Map Series (List MetricPoint) → List NodeMetricInfo
  metric_infos st [] = []
  metric_infos st ((key, points) ∷ series) =
      let rest = metric_infos st series in
      elim (metric_info st key points) [ some info ↦ info ∷ rest | none ↦ rest ]

  unfoldable pub with_metrics : MetricStorage → Node → NodeResponse
  with_metrics st n = record (as_node_response n) {
    metrics = elim (lookup n.uuid st.inner) [ some series ↦ metric_infos st series | none ↦ [] ];
  }

  abbrev listed : MetricStorage → Option (List Node) → NodeReply
  listed st (some ns) = nodes (map (with_metrics st) ns)
  listed st none = not_found

  unfoldable pub get_nodes_handler : Unicode → Option Text → MetricStorage → World → NodeReply
  get_nodes_handler u env st w =
      listed st
        (elim env [ some e ↦ get_by_env (from_text u e) w.cache.nodes | none ↦ all w.cache.nodes ])

unfoldable pub get_node_handler : Uuid → World → NodeReply
get_node_handler id w = elim (get_by_id id w.cache.nodes) [
  | some n ↦ node (as_node_response n)
  | none ↦ not_found
]

-- The world after a registration that the database takes.
abbrev pub with_node : Node → World → World
with_node n w = record w {
  events = w.events ++ node_upserted n.uuid n ∷ [];
  cache = record w.cache { nodes = (Nodes.add n w.cache.nodes).0 };
}

node_eqb-status : (old new : Node) → node_eqb old new ≡ true → old.status ≡ new.status
unfolding node_eqb
node_eqb-status old new h = ground (arith, h)

row-online :
    (new : Node) (old : Option Node) → new.status ≡ online → (row new old).0.status ≡ online
row-online new none e = e
row-online new (some old) e = elim (Bool-cases (node_eqb old new)) [
  | inl equal ↦ rw equal (node_eqb-status old new equal ∙ e)
  | inr changed ↦ rw changed e
]

module _ (o : Outside) where
  node_status-row :
      (node_id : Uuid) (new : Node) (old : Option Node) (w : World)
      → node_status o node_id (row new old).1 w ≡ (w, done (ok node_id))
  unfolding node_status
  node_status-row node_id new none w = refl
  node_status-row node_id new (some old) w = elim (Bool-cases (node_eqb old new)) [
    | inl equal ↦ rw equal refl
    | inr changed ↦ rw changed refl
  ]

  update_online :
      (uuid : Uuid) (env : Env) (n : Node) (w : World)
      → get env uuid w.cache.nodes ≡ some n
      → n.status ≡ online
      → (update_node_status o uuid env online w).0 ≡ w
  unfolding update_node_status set_status
  update_online uuid env n w h e = rw (update_node_status, h, set_status, e) refl

  add_node_up :
      (n : Node) (w : World)
      → o.node_upsert n.uuid n ≡ true
      → add_node o n.uuid n w ≡ (with_node n w, done (ok n.uuid))
  unfolding add_node
  add_node_up n w up =
      let status : node_status o n.uuid (Nodes.add n w.cache.nodes).1 (with_node n w)
          ≡ (with_node n w, done (ok n.uuid)) =
        rw (get-add n w.cache.nodes n.env n.uuid).1
          (node_status-row n.uuid n (get n.env n.uuid w.cache.nodes) (with_node n w)) in
      rw (add_node, call, up) status

  add_node_down :
      (n : Node) (w : World)
      → o.node_upsert n.uuid n ≡ false
      → add_node o n.uuid n w ≡ (w, error database)
  unfolding add_node
  add_node_down n w down = rw (add_node, call, down) refl

stored_row :
    (n : Node) (w : World)
    → get n.env n.uuid (with_node n w).cache.nodes ≡ some (row n (get n.env n.uuid w.cache.nodes)).0
stored_row n w =
    (get-add n w.cache.nodes n.env n.uuid).0
    ∙ rw (==_refl n.env, (nat_eqb_iff n.uuid n.uuid).1 refl) refl

-- A registration replies with the uuid of the node, and puts the node into the database and in its
-- row of the memory, if the database takes it, and changes nothing otherwise. Afterwards the row
-- of the node is online, so that the update of the status behind it never does anything.
pub post_node_handler_lem :
    (o : Outside) (now : DateTime) (req : NodeRequest) (w : World)
    → post_node_handler o now req w ≡ (
        if o.node_upsert req.uuid (as_node now req)
        then (with_node (as_node now req) w, registered req.uuid)
        else (w, internal))
unfolding post_node_handler after_add as_node
post_node_handler_lem o now req w =
    let n : Node = as_node now req in
    let before : Option Node = get n.env n.uuid w.cache.nodes in
    elim (Bool-cases (o.node_upsert req.uuid n)) [
      | inr down ↦ rw (post_node_handler, add_node_down o n w down, down) refl
      | inl up ↦
          let unchanged : (update_node_status o req.uuid req.env online (with_node n w)).0
              ≡ with_node n w =
            update_online o req.uuid req.env (row n before).0 (with_node n w) (stored_row n w)
              (row-online n before refl) in
          let added : add_node o req.uuid n w ≡ (with_node n w, done (ok req.uuid)) =
            add_node_up o n w up in
          rw (post_node_handler, added, after_add, added, unchanged, up) refl
    ]
