-- ===== src/Tests/Data.antt =====
-- A network, connections, subscriptions and states for the tests.
use pony.Prelude.{ℕ, ◌+◌, true, false, [], ◌∷◌, Option, none, some}
use pony.Prelude.Int.{pos}
use pony.Prelude.Map.{Map}
use pony.Prelude.Text.{codes}
use pony.Env.{dev}
use pony.Wireguard.{IpAddrMask, v4}
use pony.Subscription.{Uuid, DateTime, Subscription}
use pony.Connection.{Proto, wg, h2, Conn, Base}
use pony.Key.{Key}
use pony.Sync.World.{World, Outside}
use pony.Handlers.{ConnCreateRequest, Fresh}
use pony.Tag.{wireguard}

-- 10.0.0.0
abbrev pub ten : ℕ
ten = 167772160

abbrev pub network : IpAddrMask
network = record { address = v4 ten; cidr = 24 }

-- Everything outside goes along.
abbrev pub up : Outside
up = record {
  conn_insert = λ id c. true;
  conn_delete = λ id. true;
  conn_restore = λ id. true;
  sub_create = λ s. true;
  sub_update = λ id. true;
  sub_add_days = λ id d. true;
  node_upsert = λ id n. true;
  node_update_status = λ id env s. true;
  to_bytes = λ ms. true;
  send_binary = λ t ms. true;
}

-- The database takes no days.
abbrev pub days_down : Outside
days_down = record up { sub_add_days = λ id d. false }

abbrev pub now : DateTime
now = 1000

abbrev pub conn_of : Proto → Option DateTime → Conn
conn_of proto expires_at = record {
  env = dev;
  proto = proto;
  subscription_id = some 7;
  created_at = 1;
  modified_at = 1;
  expires_at = expires_at;
  is_deleted = false;
}

abbrev pub peer : Conn
peer =
    conn_of
      (wg
        (record { privkey = codes "key"; address = record { address = v4 (ten + 5); cidr = 32 } }))
      (some 900)

abbrev pub hysteria : Conn
hysteria = conn_of (h2 77) none

abbrev pub dead_peer : Conn
dead_peer = record peer { is_deleted = true }

abbrev pub paid : Subscription
paid = record {
  id = 7;
  expires_at = some 5000;
  referred_by = none;
  refer_code = codes "abc";
  created_at = 1;
  updated_at = 1;
  is_deleted = false;
  limit_bytes = none;
  downlink_bytes = some (pos 0);
}

abbrev pub unlimited : Subscription
unlimited = record paid { expires_at = none }

abbrev pub world : World
world = record {
  cache = record {
    connections = (1, peer) ∷ (2, hysteria) ∷ [];
    subscriptions = (7, paid) ∷ [];
    nodes = [];
  };
  events = [];
}

abbrev pub dead_world : World
dead_world = record {
  cache = record { connections = (1, dead_peer) ∷ []; subscriptions = (7, paid) ∷ []; nodes = [] };
  events = [];
}

abbrev pub base_of : Uuid → Base
base_of token = record {
  created_at = 1;
  modified_at = 1;
  expires_at = none;
  proto = h2 token;
  subscription_id = some 7;
  is_deleted = false;
}

abbrev pub store : Map Uuid Base
store = (2, base_of 77) ∷ (3, base_of 88) ∷ []

abbrev pub thirty_days : Key
thirty_days = record {
  id = 4;
  code = codes "CODE";
  days = pos 30;
  activated = false;
  subscription_id = none;
  created_at = 1;
  modified_at = 1;
  distributor_bytes = codes "FRKN";
}

abbrev pub fresh : Fresh
fresh = record { id = 9; keys = codes "key"; password = codes "secret"; token = 99 }

abbrev pub peer_request : ConnCreateRequest
peer_request = record { env = dev; subscription_id = some 7; proto = wireguard; days = some 3 }
