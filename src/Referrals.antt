-- ===== src/Referrals.antt =====
-- src/bin/api/http/handlers/subscription.rs: creating a subscription, with its referral. The uuid
-- and the refer code that is made of it are arguments.
pub mod Bonus
use pony.Prelude.{
  ℕ, Bool, true, false, List, Option, none, some, nat_eq, list_eqb, any, if◌then◌else◌,
}
use pony.Prelude.Int.{ℤ, pos, ◌+ℤ◌}
use pony.Prelude.Text.{Text}
use pony.Subscription.{Uuid, DateTime, Chrono, Subscription, new_subscription}
use pony.Connections.{Status, already_exist, not_found, ok}
use pony.Subscriptions.{find_by_refer_code}
use pony.Sync.World.{World, Outside, SyncResult, done, error}
use pony.Sync.Operations.{SubReq, add_sub, add_days}

pub data SubReply : Type 0 where
  created : Subscription → SubReply
  unchanged bad missing internal : SubReply

pub record FreshSub : Type 0 where
  pub id : Uuid
  pub code : Text

-- `is_system_code`
unfoldable pub is_system : List Text → Text → Bool
is_system codes ref_by = any (λ c. list_eqb c ref_by) codes

expires_in : DateTime → Chrono → ℤ → Option ℤ → Option DateTime
expires_in now chrono bonus_days none = none
expires_in now chrono bonus_days (some days) = some (chrono.plus_days now (days +ℤ bonus_days))

refer_code_or : FreshSub → Option Text → Text
refer_code_or fresh none = fresh.code
refer_code_or fresh (some code) = code

-- The subscription that the request asks for.
unfoldable pub requested : DateTime → Chrono → FreshSub → SubReq → ℤ → Subscription
unfolding expires_in refer_code_or
requested now chrono fresh req bonus_days =
    new_subscription now fresh.id req.referred_by (refer_code_or fresh req.refer_code)
      (expires_in now chrono bonus_days req.days) req.limit_bytes

module _ (o : Outside) (now : DateTime) (chrono : Chrono) where
  unfoldable pub added : Subscription → World → SyncResult Status → World × SubReply
  added sub w (done (ok id)) = (w, created sub)
  added sub w (done (already_exist id)) = (w, unchanged)
  added sub w (done (not_found id)) = (w, missing)
  added sub w (done _) = (w, unchanged)
  added sub w (error e) = (w, internal)

  unfoldable pub create_sub : Subscription → World → World × SubReply
  unfolding added
  create_sub sub w = let (w', r) = add_sub o now sub w in added sub w' r

  unfoldable pub rewarded : Subscription → World → SyncResult Status → World × SubReply
  rewarded sub w (error e) = (w, internal)
  rewarded sub w (done status) = create_sub sub w

  -- The subscription whose refer code was given, if there is one, is given the days first.
  unfoldable pub refer :
      FreshSub → SubReq → ℤ → Bool → Option Subscription → World → World × SubReply
  unfolding rewarded
  refer fresh req bonus system none w = (w, bad)
  refer fresh req bonus system (some referrer) w =
      let sub : Subscription = requested now chrono fresh req (if system then pos 0 else bonus) in
      let (w', r) = add_days o now chrono referrer.id bonus w in rewarded sub w' r

  unfoldable pub post_subscription_handler :
      FreshSub → SubReq → ℤ → List Text → World → World × SubReply
  post_subscription_handler fresh req bonus system_refer_codes w = elim req.referred_by [
    | none ↦ create_sub (requested now chrono fresh req (pos 0)) w
    | some ref_by ↦
        refer fresh req bonus (is_system system_refer_codes ref_by)
          (find_by_refer_code ref_by w.cache.subscriptions) w
  ]
