-- ===== src/Sync/Nodes.antt =====
-- src/bin/api/sync/tasks.rs: the operations that keep the nodes of the memory and of the database
-- together.
use pony.Prelude.{Option, none, some, if◌then◌else◌}
use pony.Subscription.{Uuid}
use pony.Env.{Env, as_str}
use pony.Node.{Node, NodeStatus, status_eqb, update_status}
use pony.Connections.{Status, already_exist, not_modified, updated, ok}
use pony.Nodes
use pony.Nodes.{get, put}
use pony.Sync.World.{
  node_upserted, node_status_updated, Outside, database, memory, M, ◌>>=◌, ◌>>◌, pure, fail, gets,
  modify, call, on_nodes,
}

module _ (o : Outside) where
  unfoldable pub node_status : Uuid → Status → M Status
  node_status node_id (ok _) = pure (ok node_id)
  node_status node_id (already_exist _) = pure (ok node_id)
  node_status node_id (updated _) = pure (ok node_id)
  node_status node_id (not_modified id) = pure (not_modified id)
  node_status node_id _ = fail memory

  unfoldable pub add_node : Uuid → Node → M Status
  add_node node_id node = do
    call (o.node_upsert node_id node) database (node_upserted node_id node)
    status ← gets (λ c. (Nodes.add node c.nodes).1)
    modify (on_nodes (λ m. (Nodes.add node m).0))
    node_status node_id status

  unfoldable pub set_status : Uuid → Env → NodeStatus → Option Node → M (Unit {0})
  set_status uuid env status none = pure tt
  set_status uuid env status (some n) = if status_eqb n.status status then pure tt else do
    call (o.node_update_status uuid (as_str env) status) database
        (node_status_updated uuid (as_str env) status)
    modify (on_nodes (put env uuid (update_status status n)))

  unfoldable pub update_node_status : Uuid → Env → NodeStatus → M (Unit {0})
  unfolding set_status
  update_node_status uuid env status = do
    current ← gets (λ c. get env uuid c.nodes)
    set_status uuid env status current
