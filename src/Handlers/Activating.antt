-- ===== src/Handlers/Activating.antt =====
-- The activation of keys.
use pony.Prelude.{◌≡◌, refl, Bool, true, false, Option, none, some, arith, nat_eq}
use pony.Prelude.Int.{pos, ◌≤ℤ◌}
use pony.Prelude.Map.{lookup}
use pony.Subscription.{Uuid, DateTime, Chrono, Subscription}
use pony.Subscription.Activity.{IsLawful}
use pony.Key.{Key, activate}
use pony.Connections.{Status}
use pony.Sync.World.{World, Outside, SyncResult}
use pony.Sync.Operations.{new_expires, add_days}
use pony.Sync.Prolonging.{add_days-is_active}
use pony.Handlers.{key, bad, save_key, post_activate_key_handler}

module _ (o : Outside) (now : DateTime) (chrono : Chrono) where
  save_key-activated :
      (saved : Bool) (sub_id : Uuid) (r k : Key) (w : World) (result : SyncResult Status)
      → (save_key o now saved sub_id r w result).2 ≡ key k
      → ((save_key o now saved sub_id r w result).1 ≡ some k) × (k.activated ≡ true)
  unfolding save_key activate
  save_key-activated saved sub_id r k w result h = ground arith

  stored_lem :
      (saved : Bool) (sub_id : Uuid) (row : Option Key) (w : World) (k : Key)
      → (post_activate_key_handler o now chrono saved sub_id row w).2 ≡ key k
      → ((post_activate_key_handler o now chrono saved sub_id row w).1 ≡ some k)
        × (k.activated ≡ true)
  unfolding post_activate_key_handler
  stored_lem saved sub_id none w k h = ground arith
  stored_lem saved sub_id (some r) w k h = ground (
    arith,
    save_key-activated saved sub_id r k (add_days o now chrono sub_id r.days w).0
        (add_days o now chrono sub_id r.days w).1,
  )

  -- A key that was activated is stored as activated, and no later request with its code gives days:
  -- whatever the subscription, the state, the clock and the database, the reply is an error and
  -- nothing changes.
  pub activate_once :
      (saved : Bool) (sub_id : Uuid) (row : Option Key) (w : World) (k : Key)
      → (post_activate_key_handler o now chrono saved sub_id row w).2 ≡ key k
      → ((post_activate_key_handler o now chrono saved sub_id row w).1 ≡ some k)
        × ((o' : Outside) (later : DateTime) (saved' : Bool) (other : Uuid) (w' : World)
            → post_activate_key_handler o' later chrono saved' other
                (post_activate_key_handler o now chrono saved sub_id row w).1
                w'
              ≡ (w', some k, bad))
  unfolding post_activate_key_handler
  activate_once saved sub_id row w k h =
      let (stored, used) = stored_lem saved sub_id row w k h in
      (stored, λ o' later saved' other w'. rw (stored, used) refl)

  module _ (lawful : IsLawful chrono) where
    -- If the database takes the days but not the key's activation, the reply is an error and the
    -- row is as before, to be used again, but the subscription in the memory has the days.
    pub activation_unsaved :
        (sub_id : Uuid) (k : Key) (w : World) (s : Subscription)
        → k.activated ≡ false
        → pos 1 ≤ℤ k.days
        → lookup sub_id w.cache.subscriptions ≡ some s
        → ((post_activate_key_handler o now chrono false sub_id (some k) w).1 ≡ some k)
          × ((post_activate_key_handler o now chrono false sub_id (some k) w).2 ≡ bad)
          × ((s' : Subscription) × (lookup sub_id
                  (post_activate_key_handler o now chrono false sub_id
                    (some k)
                    w).0.cache.subscriptions
                ≡ some s')
              × (s'.expires_at ≡ some (new_expires o now chrono k.days s.expires_at)))
    unfolding post_activate_key_handler save_key add_days
    activation_unsaved sub_id k w s a d held =
        let (s', kept, e, live) = add_days-is_active o now chrono lawful sub_id k.days w s d held in
        (ground arith, ground arith, (s', ground arith, e))
