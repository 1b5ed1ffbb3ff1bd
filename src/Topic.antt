-- ===== src/Topic.antt =====
-- src/zmq/topic.rs: the topics of the message bus, and the topic filters of the subscribers'
-- loops (`run_subscriber` of src/bin/node/tasks.rs and src/bin/auth/tasks.rs).
-- The text form of a uuid (a crate) is the parameter `UuidText`.
pub mod Routing
use pony.Prelude.{
  ℕ, ◌≡◌, ◌↔◌, Bool, true, false, List, [], ◌∷◌, ◌++◌, Option, none, some, arith, if◌then◌else◌,
  PartialEq, ◌==◌, list_eq, nat_eq,
}
use pony.Prelude.Text.{Text, codes, Unicode, to_lowercase, strip_prefix}
use pony.Env
use pony.Env.{Env, env_eq}

pub data Topic : Type 0 where
  auth metrics : Topic
  updates : Env → Topic
  init : ℕ → Topic

pub record UuidText : Type 0 where
  pub to_string : ℕ → Text
  pub parse_str : Text → Option ℕ

-- `as_str`, `as_string`, `as_bytes` and `Display` give the same text.
unfoldable pub as_str : UuidText → Topic → Text
as_str t auth = codes "auth"
as_str t metrics = codes "metrics"
as_str t (updates env) = codes "updates-" ++ Env.as_str env
as_str t (init uuid) = codes "init-" ++ t.to_string uuid

-- `FromStr`
unfoldable pub from_str : Unicode → UuidText → Text → Option Topic
unfolding strip_prefix
from_str u t s =
    let s' = to_lowercase u s in
    if s' == codes "auth"
    then some auth
    else if s' == codes "metrics"
    then some metrics
    else elim (strip_prefix (codes "updates-") s') [
      | some env_str ↦ elim (Env.from_str u env_str) [ some env ↦ some (updates env) | none ↦ none ]
      | none ↦ elim (strip_prefix (codes "init-") s') [
        | some uuid_str ↦ elim (t.parse_str uuid_str) [ some id ↦ some (init id) | none ↦ none ]
        | none ↦ none
      ]
    ]

-- The `match &topic` of a node: whether a message on this topic is processed.
unfoldable pub node_accepts : ℕ → Env → Topic → Bool
node_accepts node_uuid node_env auth = false
node_accepts node_uuid node_env metrics = false
node_accepts node_uuid node_env (init uuid) = uuid == node_uuid
node_accepts node_uuid node_env (updates env) = env == node_env

-- The same of the authentication service.
unfoldable pub auth_accepts : ℕ → Topic → Bool
auth_accepts node_uuid auth = true
auth_accepts node_uuid metrics = false
auth_accepts node_uuid (updates env) = false
auth_accepts node_uuid (init uuid) = uuid == node_uuid

-- A received topic is parsed, and what does not parse is skipped.
unfoldable pub node_receives : Unicode → UuidText → ℕ → Env → Text → Bool
unfolding node_accepts
node_receives u t node_uuid node_env topic_str = elim (from_str u t topic_str) [
  | some topic ↦ node_accepts node_uuid node_env topic
  | none ↦ false
]

unfoldable pub auth_receives : Unicode → UuidText → ℕ → Text → Bool
unfolding auth_accepts
auth_receives u t node_uuid topic_str = elim (from_str u t topic_str) [
  | some topic ↦ auth_accepts node_uuid topic
  | none ↦ false
]
