-- ===== src/Referrals/Bonus.antt =====
-- Who gets the bonus of a referral.
use pony.Prelude.{
  ◌≡◌, ◌∙◌, ◌⊎◌, refl, false, List, none, some, arith, nat_eq, nat_eqb, if◌then◌else◌, Bool-cases,
  inl, inr,
}
use pony.Prelude.Int.{ℤ, pos, ◌≤ℤ◌}
use pony.Prelude.Map.{lookup}
use pony.Prelude.Text.{Text}
use pony.Subscription.{Uuid, DateTime, Chrono, Subscription, new_subscription}
use pony.Subscription.Activity.{IsLawful}
use pony.Subscriptions
use pony.Subscriptions.{find_by_refer_code}
use pony.Subscriptions.Store.{add_lem}
use pony.Connections.{Status}
use pony.Sync.World.{World, Outside, SyncResult, done, error}
use pony.Sync.Operations.{SubReq, new_expires, sub_status, add_sub, add_days}
use pony.Sync.Prolonging.{add_days-is_active}
use pony.Referrals.{
  bad, FreshSub, is_system, requested, added, create_sub, rewarded, refer,
  post_subscription_handler,
}

module _ (o : Outside) (now : DateTime) where
  sub_status_world : (status : Status) (w : World) → (sub_status o now status w).0 ≡ w
  unfolding sub_status
  sub_status_world status w = ground arith

  -- The memory after `add_sub`.
  add_sub_memory :
      (sub : Subscription) (w : World)
      → ((add_sub o now sub w).0.cache.subscriptions ≡ w.cache.subscriptions)
        ⊎ ((add_sub o now sub w).0.cache.subscriptions
            ≡ (Subscriptions.add sub w.cache.subscriptions).0)
  unfolding add_sub
  add_sub_memory sub w = elim (Bool-cases (o.sub_create sub)) [
    | inl taken ↦ inr (rw (add_sub, taken, sub_status_world) refl)
    | inr down ↦ inl (rw (add_sub, down) refl)
  ]

  -- The other subscriptions are as before.
  add_sub-other :
      (sub : Subscription) (w : World) (j : Uuid)
      → nat_eqb sub.id j ≡ false
      → lookup j (add_sub o now sub w).0.cache.subscriptions ≡ lookup j w.cache.subscriptions
  add_sub-other sub w j ne = elim (add_sub_memory sub w) [
    | inl same ↦ rw same refl
    | inr stored ↦ rw stored (rw ne at (add_lem sub w.cache.subscriptions j).0)
  ]

  module _ (chrono : Chrono) where
    added_world :
        (sub : Subscription) (w : World) (r : SyncResult Status)
        → (added o now chrono sub w r).0 ≡ w
    unfolding added
    added_world sub w r = ground arith

    create_sub-other :
        (sub : Subscription) (w : World) (j : Uuid)
        → nat_eqb sub.id j ≡ false
        → lookup j (create_sub o now chrono sub w).0.cache.subscriptions
          ≡ lookup j w.cache.subscriptions
    unfolding create_sub
    create_sub-other sub w j ne =
        rw (added_world sub (add_sub o now sub w).0 (add_sub o now sub w).1)
          (add_sub-other sub w j ne)

    rewarded-other :
        (sub : Subscription) (w : World) (r : SyncResult Status) (j : Uuid)
        → nat_eqb sub.id j ≡ false
        → lookup j (rewarded o now chrono sub w r).0.cache.subscriptions
          ≡ lookup j w.cache.subscriptions
    unfolding rewarded
    rewarded-other sub w (error e) j ne = refl
    rewarded-other sub w (done status) j ne = create_sub-other sub w j ne

    requested-ne :
        (fresh : FreshSub) (req : SubReq) (days : ℤ) (j : Uuid)
        → nat_eqb fresh.id j ≡ false
        → nat_eqb (requested now chrono fresh req days).id j ≡ false
    unfolding requested new_subscription
    requested-ne fresh req days j ne = ne

    referred :
        (fresh : FreshSub) (req : SubReq) (bonus : ℤ) (codes : List Text) (w : World) (code : Text)
        (s : Subscription)
        → req.referred_by ≡ some code
        → find_by_refer_code code w.cache.subscriptions ≡ some s
        → post_subscription_handler o now chrono fresh req bonus codes w
          ≡ refer o now chrono fresh req bonus (is_system codes code) (some s) w
    unfolding post_subscription_handler
    referred fresh req bonus codes w code s named found =
        simp (post_subscription_handler, named, found) refl

    -- A stored subscription whose refer code a request for another subscription names has the bonus
    -- of one or more days afterwards, even when the code is one of the system's, and whether the
    -- new subscription was created or not.
    pub referrer_rewarded :
        IsLawful chrono
        → (fresh : FreshSub) (req : SubReq) (bonus : ℤ) (codes : List Text) (w : World)
          (code : Text) (s : Subscription)
        → req.referred_by ≡ some code
        → find_by_refer_code code w.cache.subscriptions ≡ some s
        → lookup s.id w.cache.subscriptions ≡ some s
        → nat_eqb fresh.id s.id ≡ false
        → pos 1 ≤ℤ bonus
        → (s' : Subscription) × (lookup s.id
              (post_subscription_handler o now chrono fresh req bonus codes w).0.cache.subscriptions
            ≡ some s')
          × (s'.expires_at ≡ some (new_expires o now chrono bonus s.expires_at))
    unfolding refer
    referrer_rewarded lawful fresh req bonus codes w code s named found held ne d =
        let (s', kept, e, live) = add_days-is_active o now chrono lawful s.id bonus w s d held in
        let sub : Subscription =
          requested now chrono fresh req (if is_system codes code then pos 0 else bonus) in
        (
          s',
          rw (referred fresh req bonus codes w code s named found) (
              rewarded-other sub (add_days o now chrono s.id bonus w).0
                (add_days o now chrono s.id bonus w).1 s.id
                (requested-ne fresh req (if is_system codes code then pos 0 else bonus) s.id ne)
              ∙ kept),
          e,
        )

    -- A request with a refer code that no subscription has changes nothing.
    pub referral_unknown :
        (fresh : FreshSub) (req : SubReq) (bonus : ℤ) (codes : List Text) (w : World) (code : Text)
        → req.referred_by ≡ some code
        → find_by_refer_code code w.cache.subscriptions ≡ none
        → post_subscription_handler o now chrono fresh req bonus codes w ≡ (w, bad)
    unfolding post_subscription_handler refer
    referral_unknown fresh req bonus codes w code named unknown =
        rw (post_subscription_handler, named, unknown) refl
