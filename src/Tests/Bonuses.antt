-- ===== src/Tests/Bonuses.antt =====
-- Referrals.
use pony.Prelude.{◌≡◌, refl, arith, [], ◌∷◌, none, some, list_eq, nat_eq}
use pony.Prelude.Int.{pos}
use pony.Prelude.Map.{lookup}
use pony.Prelude.Text.{codes}
use pony.Subscription.{Subscription, refer_code_of, trim}
use pony.Subscriptions.{find_by_refer_code}
use pony.Sync.Operations.{SubReq, new_expires}
use pony.Referrals.{FreshSub, post_subscription_handler}
use pony.Referrals.Bonus.{referrer_rewarded}
use pony.Tests.Crates.{chrono, chrono-IsLawful}
use pony.Tests.Data.{up, now, paid, world}

abbrev friend : SubReq
friend = record {
  referred_by = some (codes "abc");
  refer_code = none;
  days = some (pos 10);
  limit_bytes = none;
}

abbrev newcomer : FreshSub
newcomer = record { id = 20; code = codes "xyz" }

found : find_by_refer_code (codes "abc") world.cache.subscriptions ≡ some paid
unfolding find_by_refer_code refer_code_of trim
found = refl

held : lookup 7 world.cache.subscriptions ≡ some paid
unfolding lookup
held = refl

-- The code is one of the system's.
referrer_rewarded_example :
    (s' : Subscription) × (lookup 7
        (post_subscription_handler up now chrono newcomer friend
          (pos 5)
          (codes "abc" ∷ [])
          world).0.cache.subscriptions
      ≡ some s')
    × (s'.expires_at ≡ some (new_expires up now chrono (pos 5) paid.expires_at))
referrer_rewarded_example =
    referrer_rewarded up now chrono chrono-IsLawful newcomer friend (pos 5) (codes "abc" ∷ []) world
      (codes "abc") paid refl found held refl (omega arith)

abbrev stranger : SubReq
stranger = record friend { referred_by = some (codes "nobody") }

unknown : find_by_refer_code (codes "nobody") world.cache.subscriptions ≡ none
unfolding find_by_refer_code refer_code_of trim
unknown = refl
