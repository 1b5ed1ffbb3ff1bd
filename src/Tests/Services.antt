-- ===== src/Tests/Services.antt =====
-- The API and the authentication service together.
use pony.Prelude.{◌≡◌, ◌↔◌, refl, true, false, [], ◌∷◌, none, some, nat_eq}
use pony.Prelude.Map.{lookup}
use pony.Tag.{hysteria2}
use pony.Subscription.{Uuid}
use pony.Connection.{h2, Conn}
use pony.Auth.{auth_handler}
use pony.Sync.World.{World}
use pony.Handlers.{ConnCreateRequest, create_connection_handler}
use pony.System.{Reach, started, stepped, created, replay}
use pony.System.Agreement.{auth_store, Agrees}
use pony.System.Invariant.{auth_handler_iff}
use pony.Tests.Crates.{chrono}
use pony.Tests.Data.{network, up, now, paid, fresh, peer_request}

abbrev pub empty : World
empty = record {
  cache = record { connections = []; subscriptions = (7, paid) ∷ []; nodes = [] };
  events = [];
}

abbrev token_request : ConnCreateRequest
token_request = record peer_request { proto = hysteria2 }

abbrev pub grown : World
grown = (create_connection_handler up now chrono network fresh token_request empty).0

empty-Agrees : (id : Uuid) → Agrees now empty id
unfolding replay lookup
empty-Agrees id = refl

free : lookup 9 empty.cache.connections ≡ none
unfolding lookup
free = refl

pub grown-Reach : Reach up empty grown
grown-Reach = stepped started (created now chrono network fresh token_request free)

auth_handler_iff_example : ((auth_handler 99 (auth_store now grown)).ok ≡ true) ↔ (
    (id : Uuid) × (conn : Conn) × (lookup id grown.cache.connections ≡ some conn)
    × (conn.is_deleted ≡ false)
    × (conn.proto ≡ h2 99))
auth_handler_iff_example =
    auth_handler_iff up now (λ ms. refl) (λ topic ms. refl) (λ id. refl) empty grown 99 empty-Agrees
      grown-Reach
