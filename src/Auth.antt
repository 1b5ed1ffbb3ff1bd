-- ===== src/Auth.antt =====
-- src/bin/auth/tasks.rs and src/bin/auth/handlers.rs: the authentication service, which keeps a
-- store of connections from the messages of the API and tells Hysteria2 whose token it is shown.
pub mod Store
pub mod Revocation
use pony.Prelude.{ℕ, Bool, true, false, List, [], ◌∷◌, Option, none, some, nat_eq, if◌then◌else◌}
use pony.Prelude.Map.{Map}
use pony.Subscription.{Uuid, DateTime}
use pony.Connection.{
  Proto, h2, Base, new_base, base_ops, Action, create, update, delete, reset_stat, Message,
}
use pony.Connections.{add, remove_conn, validate_token}

-- The two arms that add a connection: without a token the message is skipped. The error of `add`
-- that the code maps does not exist: `add` always returns `Ok`.
unfoldable pub add_message : DateTime → Message → Option Uuid → Map Uuid Base → Map Uuid Base
add_message now msg (some token) mem =
    (add msg.conn_id (new_base now (h2 token) msg.expires_at msg.subscription_id) mem).0
add_message now msg none mem = mem

unfoldable pub on_action : DateTime → Message → Action → Map Uuid Base → Map Uuid Base
on_action now msg create mem = add_message now msg msg.token mem
on_action now msg update mem = add_message now msg msg.token mem
on_action now msg delete mem = (remove_conn msg.conn_id mem).0
on_action now msg reset_stat mem = mem

unfoldable pub handle_messages_batch : DateTime → List Message → Map Uuid Base → Map Uuid Base
unfolding on_action add_message
handle_messages_batch now [] mem = mem
handle_messages_batch now (msg ∷ messages) mem =
    handle_messages_batch now messages (on_action now msg msg.action mem)

pub record AuthResponse : Type 0 where
  pub ok : Bool
  pub id : Option Uuid

unfoldable pub auth_handler : Uuid → Map Uuid Base → AuthResponse
auth_handler auth mem = elim (validate_token auth mem) [
  | some id ↦ record { ok = true; id = some id }
  | none ↦ record { ok = false; id = none }
]
