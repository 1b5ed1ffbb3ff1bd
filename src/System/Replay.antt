-- ===== src/System/Replay.antt =====
-- The store of the authentication service, event by event.
use pony.Prelude.{◌≡◌, refl, false, List, [], ◌∷◌, ◌++◌, Option, none, some, arith, nat_eq, nat_eqb}
use pony.Prelude.Map.{Map, lookup, HasUniqueKeys, lookup-insert}
use pony.Topic.{Topic, auth}
use pony.Subscription.{Uuid, DateTime}
use pony.Connection.{h2, Base, new_base, base_ops, Message}
use pony.Connections.{add}
use pony.Auth.{add_message}
use pony.Auth.Store.{handle_messages_batch-HasUniqueKeys}
use pony.Sync.World.{Event, published}
use pony.System.{on_topic, on_event, replay}

pub replay-append :
    (now : DateTime) (events more : List Event) (mem : Map Uuid Base)
    → replay now (events ++ more) mem ≡ replay now more (replay now events mem)
unfolding replay
replay-append now [] more mem = refl
replay-append now (e ∷ events) more mem = replay-append now events more (on_event now e mem)

on_topic-HasUniqueKeys :
    (now : DateTime) (topic : Topic) (msgs : List Message) (mem : Map Uuid Base)
    → HasUniqueKeys mem
    → HasUniqueKeys (on_topic now topic msgs mem)
unfolding on_topic
on_topic-HasUniqueKeys now auth msgs mem u = handle_messages_batch-HasUniqueKeys now msgs mem u
on_topic-HasUniqueKeys now _ msgs mem u = u

on_event-HasUniqueKeys :
    (now : DateTime) (e : Event) (mem : Map Uuid Base)
    → HasUniqueKeys mem
    → HasUniqueKeys (on_event now e mem)
unfolding on_event
on_event-HasUniqueKeys now (published topic msgs) mem u =
    on_topic-HasUniqueKeys now topic msgs mem u
on_event-HasUniqueKeys now _ mem u = u

pub replay-HasUniqueKeys :
    (now : DateTime) (events : List Event) (mem : Map Uuid Base)
    → HasUniqueKeys mem
    → HasUniqueKeys (replay now events mem)
unfolding replay
replay-HasUniqueKeys now [] mem u = u
replay-HasUniqueKeys now (e ∷ events) mem u =
    replay-HasUniqueKeys now events (on_event now e mem) (on_event-HasUniqueKeys now e mem u)

-- The store after the create or update message about a connection with a token.
pub add_message_self :
    (now : DateTime) (msg : Message) (token : Uuid) (mem : Map Uuid Base)
    → lookup msg.conn_id mem ≡ none
    → lookup msg.conn_id (add_message now msg (some token) mem)
      ≡ some (new_base now (h2 token) msg.expires_at msg.subscription_id)
unfolding add_message add
add_message_self now msg token mem free = ground (
  arith,
  lookup-insert msg.conn_id msg.conn_id (new_base now (h2 token) msg.expires_at msg.subscription_id)
      mem,
)

pub add_message_other :
    (now : DateTime) (msg : Message) (token : Option Uuid) (j : Uuid) (mem : Map Uuid Base)
    → nat_eqb msg.conn_id j ≡ false
    → lookup j (add_message now msg token mem) ≡ lookup j mem
unfolding add_message add
add_message_other now msg none j mem ne = refl
add_message_other now msg (some token) j mem ne = ground (
  arith,
  lookup-insert msg.conn_id j (new_base now (h2 token) msg.expires_at msg.subscription_id) mem,
)
