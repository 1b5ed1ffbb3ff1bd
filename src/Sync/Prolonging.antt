-- ===== src/Sync/Prolonging.antt =====
-- Adding days to a subscription, the operation behind keys and bonuses.
use pony.Prelude.{◌<◌, ◌≡◌, refl, false, not, List, [], ◌∷◌, some, arith, nat_eq, Option-cases}
use pony.Prelude.Int.{ℤ, pos, ◌≤ℤ◌}
use pony.Prelude.Map.{lookup, lookup-adjust_self}
use pony.Subscription.{Uuid, DateTime, Chrono, Subscription, is_active, set_expires_at}
use pony.Subscription.Activity.{IsLawful}
use pony.Connection.{Conn}
use pony.Sync.World.{World, Outside, error, database}
use pony.Sync.Operations.{
  to_restore, restore_connection, restore_one, restore_all, restore_connections_by_subscription,
  new_expires, prolong, add_days,
}

module _ (o : Outside) (now : DateTime) where
  restore_one-subscriptions :
      (id : Uuid) (c : Conn) (w : World)
      → (restore_one o now id c w).0.cache.subscriptions ≡ w.cache.subscriptions
  unfolding restore_one restore_connection
  restore_one-subscriptions id c w = ground arith

  restore_all-subscriptions :
      (es : List (Uuid × Conn)) (w : World)
      → (restore_all o now es w).0.cache.subscriptions ≡ w.cache.subscriptions
  unfolding restore_all
  restore_all-subscriptions [] w = refl
  restore_all-subscriptions ((id, c) ∷ es) w =
      rw
        (
          restore_all-subscriptions es (restore_one o now id c w).0,
          restore_one-subscriptions id c w,
        )
        refl

  restore_connections-subscriptions :
      (id : Uuid) (w : World)
      → (restore_connections_by_subscription o now id w).0.cache.subscriptions
        ≡ w.cache.subscriptions
  unfolding restore_connections_by_subscription
  restore_connections-subscriptions id w =
      restore_all-subscriptions (to_restore o now id w.cache.connections) w

  module _ (chrono : Chrono) where
    -- The subscription that `add_days` leaves in the memory, whether the database goes along or not.
    add_days_memory :
        (id : Uuid) (days : ℤ) (w : World) (s : Subscription)
        → lookup id w.cache.subscriptions ≡ some s
        → lookup id (add_days o now chrono id days w).0.cache.subscriptions
          ≡ some (prolong o now chrono days s)
    unfolding add_days
    add_days_memory id days w s held = grind (
      arith,
      lookup-adjust_self id (prolong o now chrono days) w.cache.subscriptions s held,
      restore_connections-subscriptions id,
    )

    module _ (lawful : IsLawful chrono) where
      prolong_lem :
          (days : ℤ) (s : Subscription)
          → pos 1 ≤ℤ days
          → ((prolong o now chrono days s).expires_at
              ≡ some (new_expires o now chrono days s.expires_at))
            × (now < new_expires o now chrono days s.expires_at)
            × ((prolong o now chrono days s).is_deleted ≡ s.is_deleted)
      unfolding prolong set_expires_at
      prolong_lem days s d = grind (arith, lawful.lt-plus_days, Option-cases s.expires_at)

      -- After one or more days were added to a stored subscription the memory holds it with the
      -- days counted from its old expiry if that was still ahead, and from now otherwise; it is
      -- active unless it was marked as deleted.
      pub add_days-is_active :
          (id : Uuid) (days : ℤ) (w : World) (s : Subscription)
          → pos 1 ≤ℤ days
          → lookup id w.cache.subscriptions ≡ some s
          → (s' : Subscription) × (lookup id (add_days o now chrono id days w).0.cache.subscriptions
              ≡ some s')
            × (s'.expires_at ≡ some (new_expires o now chrono days s.expires_at))
            × (is_active now s' ≡ not s.is_deleted)
      unfolding is_active
      add_days-is_active id days w s d held =
          let (e, l, k) = prolong_lem days s d in
          (prolong o now chrono days s, add_days_memory id days w s held, e, ground arith)

      -- When the database refuses the days, the operation returns the error of the database, but
      -- the memory keeps the later expiry.
      pub add_days_unsaved :
          (id : Uuid) (days : ℤ) (w : World) (s : Subscription)
          → pos 1 ≤ℤ days
          → lookup id w.cache.subscriptions ≡ some s
          → o.sub_add_days id days ≡ false
          → ((add_days o now chrono id days w).1 ≡ error database)
            × ((add_days o now chrono id days w).0.events ≡ w.events)
            × ((s' : Subscription) × (lookup id
                    (add_days o now chrono id days w).0.cache.subscriptions
                  ≡ some s')
                × (s'.expires_at ≡ some (new_expires o now chrono days s.expires_at)))
      unfolding add_days
      add_days_unsaved id days w s d held down =
          let (e, l, k) = prolong_lem days s d in
          (
            ground arith,
            ground arith,
            (prolong o now chrono days s, add_days_memory id days w s held, e),
          )
