-- ===== src/Auth/Store.antt =====
-- What the authentication service answers after the messages of the API.
use pony.Prelude.{
  ◌≡◌, ◌≢◌, refl, true, false, List, [], ◌∷◌, Option, none, some, arith, nat_eq, nat_eqb,
  nat_eqb_iff, Option-cases, Bool-cases, inl, inr, ==_refl,
}
use pony.Prelude.Map.{
  Map, lookup, HasUniqueKeys, lookup-insert, lookup-remove_self, lookup-remove_ne,
  insert-HasUniqueKeys, remove-HasUniqueKeys,
}
use pony.Subscription.{Uuid, DateTime}
use pony.Connection.{
  h2, Conn, proto_token, Base, new_base, base_ops, Action, create, update, delete, reset_stat,
  Message, as_create_message, as_update_message, as_delete_message,
}
use pony.Connections.{add, remove_conn, validate_token}
use pony.Connections.Tokens.{validate_token_sound, validate_token_complete}
use pony.Auth.{on_action, add_message, handle_messages_batch, auth_handler}

add_message-HasUniqueKeys :
    (now : DateTime) (msg : Message) (token : Option Uuid) (mem : Map Uuid Base)
    → HasUniqueKeys mem
    → HasUniqueKeys (add_message now msg token mem)
unfolding add_message add
add_message-HasUniqueKeys now msg none mem u = u
add_message-HasUniqueKeys now msg (some token) mem u = ground (
  arith,
  insert-HasUniqueKeys msg.conn_id (new_base now (h2 token) msg.expires_at msg.subscription_id) mem
      u,
)

on_action-HasUniqueKeys :
    (now : DateTime) (msg : Message) (action : Action) (mem : Map Uuid Base)
    → HasUniqueKeys mem
    → HasUniqueKeys (on_action now msg action mem)
unfolding on_action remove_conn
on_action-HasUniqueKeys now msg create mem u = add_message-HasUniqueKeys now msg msg.token mem u
on_action-HasUniqueKeys now msg update mem u = add_message-HasUniqueKeys now msg msg.token mem u
on_action-HasUniqueKeys now msg delete mem u =
    ground (arith, remove-HasUniqueKeys msg.conn_id mem u)
on_action-HasUniqueKeys now msg reset_stat mem u = u

-- No batch of messages gives the store two entries of one uuid.
pub handle_messages_batch-HasUniqueKeys :
    (now : DateTime) (messages : List Message) (mem : Map Uuid Base)
    → HasUniqueKeys mem
    → HasUniqueKeys (handle_messages_batch now messages mem)
unfolding handle_messages_batch
handle_messages_batch-HasUniqueKeys now [] mem u = u
handle_messages_batch-HasUniqueKeys now (msg ∷ messages) mem u =
    handle_messages_batch-HasUniqueKeys now messages (on_action now msg msg.action mem)
      (on_action-HasUniqueKeys now msg msg.action mem u)

abbrev pub after_delete : DateTime → Uuid → Conn → Map Uuid Base → Map Uuid Base
after_delete now id conn mem = handle_messages_batch now (as_delete_message id conn ∷ []) mem

abbrev pub after_create : DateTime → Uuid → Conn → Map Uuid Base → Map Uuid Base
after_create now id conn mem = handle_messages_batch now (as_create_message id conn ∷ []) mem

pub after_delete_lem :
    (now : DateTime) (id : Uuid) (conn : Conn) (mem : Map Uuid Base)
    → HasUniqueKeys mem
    → (lookup id (after_delete now id conn mem) ≡ none)
      × ((j : Uuid) → nat_eqb id j ≡ false → lookup j (after_delete now id conn mem) ≡ lookup j mem)
unfolding handle_messages_batch on_action remove_conn as_delete_message
after_delete_lem now id conn mem u = (
  ground (arith, lookup-remove_self id mem u),
  λ j ne. ground (arith, lookup-remove_ne id j mem ne),
)

pub after_create_lem :
    (now : DateTime) (id token : Uuid) (conn : Conn) (mem : Map Uuid Base)
    → conn.proto ≡ h2 token
    → lookup id mem ≡ none
    → lookup id (after_create now id conn mem)
      ≡ some (new_base now (h2 token) conn.expires_at conn.subscription_id)
unfolding handle_messages_batch on_action add_message add as_create_message proto_token
after_create_lem now id token conn mem p free =
    rw (p, add_message, proto_token, add, as_create_message, free, lookup-insert, ==_refl) refl

-- A token is accepted after the delete message of a connection only if it belongs to another
-- connection: the uuid that is answered is another one, whose stored connection has the token.
pub auth_handler-deleted :
    (now : DateTime) (id j token : Uuid) (conn : Conn) (mem : Map Uuid Base)
    → HasUniqueKeys mem
    → (auth_handler token (handle_messages_batch now (as_delete_message id conn ∷ []) mem)).id
      ≡ some j
    → (j ≢ id) × ((c : Base) × (lookup j mem ≡ some c) × (c.proto ≡ h2 token))
unfolding auth_handler
auth_handler-deleted now id j token conn mem u h =
    let (c, found, has) =
      validate_token_sound token j (after_delete now id conn mem)
        (handle_messages_batch-HasUniqueKeys now (as_delete_message id conn ∷ []) mem u)
        (ground arith) in
    let (gone, kept) = after_delete_lem now id conn mem u in
    elim (Bool-cases (nat_eqb id j)) [
      | inl same ↦ ground (arith, nat_eqb_iff id j)
      | inr other ↦ (ground (arith, nat_eqb_iff id j), (c, ground (arith, kept j other), has))
    ]

-- The token of a connection that the API creates is accepted after its create message, if the
-- service had no connection of the uuid, and the answer names a connection with this token.
pub auth_handler-created :
    (now : DateTime) (id token : Uuid) (conn : Conn) (mem : Map Uuid Base)
    → HasUniqueKeys mem
    → conn.proto ≡ h2 token
    → lookup id mem ≡ none
    → (j : Uuid) × (c : Base) × (auth_handler token
          (handle_messages_batch now (as_create_message id conn ∷ []) mem)
        ≡ record { ok = true; id = some j })
      × (lookup j (handle_messages_batch now (as_create_message id conn ∷ []) mem) ≡ some c)
      × (c.proto ≡ h2 token)
unfolding auth_handler new_base
auth_handler-created now id token conn mem u p free =
    elim (Option-cases (validate_token token (after_create now id conn mem))) [
      | inl refused ↦ absurd (
          validate_token_complete token (after_create now id conn mem) id
            (new_base now (h2 token) conn.expires_at conn.subscription_id) refused
            (after_create_lem now id token conn mem p free) refl)
      | inr (j, accepted) ↦
          let (c, found, has) =
            validate_token_sound token j (after_create now id conn mem)
              (handle_messages_batch-HasUniqueKeys now (as_create_message id conn ∷ []) mem u)
              accepted in
          (j, c, rw (auth_handler, accepted) refl, found, has)
    ]

-- An update message about a connection that the service knows does not change its store, whatever
-- token or expiry the message has.
pub update_ignored :
    (now : DateTime) (id : Uuid) (conn : Conn) (mem : Map Uuid Base) (c : Base)
    → lookup id mem ≡ some c
    → handle_messages_batch now (as_update_message id conn ∷ []) mem ≡ mem
unfolding handle_messages_batch on_action add_message add as_update_message
update_ignored now id conn mem c held = elim (Option-cases (proto_token conn.proto)) [
  | inl e ↦ rw (e, add_message) refl
  | inr (t, e) ↦ rw (e, add_message, add, as_update_message, held) refl
]
