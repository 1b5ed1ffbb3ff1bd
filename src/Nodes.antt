-- ===== src/Nodes.antt =====
-- src/memory/storage/node.rs: the store of the nodes, a HashMap of lists by environment.
pub mod Registry
pub mod Filing
use pony.Prelude.{
  ℕ, Bool, true, false, List, [], ◌∷◌, ◌++◌, Option, none, some, nat_eqb, nat_eq, if◌then◌else◌,
  find,
}
use pony.Prelude.Int.{ℤ}
use pony.Prelude.Map.{Map, lookup, insert, adjust}
use pony.Subscription.{Uuid}
use pony.Env.{Env, env_eq}
use pony.Tag.{ProtoTag}
use pony.Inbound.{Inbound, update_uplink, update_downlink, update_conn_count}
use pony.Node.{Node, node_eqb, update_inbound, values}
use pony.Connections.{Status, already_exist, updated, ok, some_if_any}

abbrev pub Nodes : Type 0
Nodes = Map Env (List Node)

abbrev pub has_uuid : Uuid → Node → Bool
has_uuid uuid n = nat_eqb n.uuid uuid

-- The loop of `add` over the nodes of the environment, with `push` at its end.
unfoldable pub add_to : Node → List Node → List Node × Status
add_to new_node [] = (new_node ∷ [], ok new_node.uuid)
add_to new_node (node ∷ nodes) =
    let rest = add_to new_node nodes in
    if has_uuid new_node.uuid node
    then if node_eqb node new_node
      then (node ∷ nodes, already_exist new_node.uuid)
      else (new_node ∷ nodes, updated new_node.uuid)
    else (node ∷ rest.0, rest.1)

unfoldable pub add : Node → Nodes → Nodes × Status
add new_node m = elim (lookup new_node.env m) [
  | some nodes ↦ (insert new_node.env (add_to new_node nodes).0 m, (add_to new_node nodes).1)
  | none ↦ (insert new_node.env (new_node ∷ []) m, ok new_node.uuid)
]

unfoldable pub get : Env → Uuid → Nodes → Option Node
get env uuid m = elim (lookup env m) [ some nodes ↦ find (has_uuid uuid) nodes | none ↦ none ]

unfoldable pub get_by_env : Env → Nodes → Option (List Node)
get_by_env env m = lookup env m

-- `values().flatten()`
unfoldable pub flatten : List (List Node) → List Node
flatten [] = []
flatten (nodes ∷ rest) = nodes ++ flatten rest

unfoldable pub get_by_id : Uuid → Nodes → Option Node
get_by_id uuid m = find (has_uuid uuid) (flatten (values m))

unfoldable pub all : Nodes → Option (List Node)
unfolding some_if_any
all m = some_if_any (flatten (values m))

-- `*iter_mut().find(…) = n`
abbrev pub replace_first : Uuid → Node → List Node → List Node
replace_first uuid n [] = []
replace_first uuid n (m ∷ ms) = if has_uuid uuid m then n ∷ ms else m ∷ replace_first uuid n ms

-- `*get_mut(env, uuid) = n`
unfoldable pub put : Env → Uuid → Node → Nodes → Nodes
put env uuid n = adjust env (replace_first uuid n)

-- The errors of the updates: `false` of the code's texts are told apart by what was not found.
pub data UpdateResult : Type 0 where
  done node_not_found inbound_not_found env_not_found : UpdateResult

-- The three updates: of the first node of the environment with the uuid.
abbrev pub update_node :
    (Inbound → Inbound) → ProtoTag → Env → Uuid → UpdateResult → Nodes → Nodes × UpdateResult
update_node f tag env uuid missing m = elim (get env uuid m) [
  | none ↦ (m, missing)
  | some n ↦ elim (update_inbound tag f n) [
    | none ↦ (m, inbound_not_found)
    | some n' ↦ (put env uuid n' m, done)
  ]
]

unfoldable pub update_node_uplink : ProtoTag → ℤ → Env → Uuid → Nodes → Nodes × UpdateResult
update_node_uplink tag new_uplink env node_id =
    update_node (update_uplink new_uplink) tag env node_id node_not_found

unfoldable pub update_node_downlink : ProtoTag → ℤ → Env → Uuid → Nodes → Nodes × UpdateResult
update_node_downlink tag new_downlink env node_id =
    update_node (update_downlink new_downlink) tag env node_id node_not_found

-- This one tells a missing environment from a missing node.
unfoldable pub update_node_conn_count : ProtoTag → ℤ → Env → Uuid → Nodes → Nodes × UpdateResult
update_node_conn_count tag conn_count env node_id m =
    update_node (update_conn_count conn_count) tag env node_id
      (elim (lookup env m) [ some _ ↦ node_not_found | none ↦ env_not_found ]) m
