-- ===== src/Tests/Topics.antt =====
-- Environments and topics.
use pony.Prelude.{◌≡◌, ◌≢◌, ◌⊎◌, ◌↔◌, refl, arith, true}
use pony.Prelude.Text.{codes, to_lowercase}
use pony.Env.{dev}
use pony.Topic.{auth, updates, init, as_str, node_receives, auth_receives}
use pony.Topic.Routing.{receives_iff}
use pony.Tests.Crates.{unicode, uuid_text, uuid_text-IsLawful}

receives_iff_example :
    ((node_receives unicode uuid_text 5 dev (as_str uuid_text (init 5)) ≡ true)
      ↔ ((init 5 ≡ updates dev) ⊎ (init 5 ≡ init 5)))
    × ((auth_receives unicode uuid_text 5 (as_str uuid_text (init 5)) ≡ true)
        ↔ ((init 5 ≡ auth) ⊎ (init 5 ≡ init 5)))
receives_iff_example = receives_iff unicode uuid_text uuid_text-IsLawful 5 dev (init 5) tt

upper : to_lowercase unicode (codes "EU") ≢ codes "EU"
unfolding to_lowercase
upper = ground arith

twice : to_lowercase unicode (to_lowercase unicode (codes "EU")) ≡ to_lowercase unicode (codes "EU")
unfolding to_lowercase
twice = refl
