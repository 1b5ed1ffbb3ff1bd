-- ===== src/Handlers/Subscriptions.antt =====
-- src/bin/api/http/handlers/subscription.rs: the request that updates a subscription.
use pony.Prelude.{
  ◌≡◌, refl, ◌⊎◌, false, Bool-cases, List, [], ◌∷◌, ◌++◌, none, some, arith, nat_eq, Option-cases,
  inl, inr,
}
use pony.Prelude.Map.{lookup, adjust, lookup-adjust_self}
use pony.Subscription.{
  Uuid, DateTime, Chrono, Subscription, extend, set_refer_code, set_referred_by, set_limit_bytes,
  referred_by_of, refer_code_of,
}
use pony.Connections.{Status, updated, not_found}
use pony.Sync.World.{Event, sub_updated, World, Outside, SyncResult, done, error}
use pony.Sync.Operations.{SubReq, apply_req, update_sub}

pub data PutReply : Type 0 where
  changed missing internal unchanged : PutReply

abbrev pub put_reply : SyncResult Status → PutReply
put_reply (done (updated id)) = changed
put_reply (done (not_found id)) = missing
put_reply (done _) = unchanged
put_reply (error e) = internal

module _ (o : Outside) (now : DateTime) (chrono : Chrono) where
  unfoldable pub put_subscription_handler : Uuid → SubReq → World → World × PutReply
  put_subscription_handler sub_id req w =
      let (w', r) = update_sub o now chrono sub_id req w in (w', put_reply r)

  apply_req-unlimited :
      (req : SubReq) (s : Subscription)
      → (apply_req o now chrono req s).expires_at ≡ none
      → s.expires_at ≡ none
  unfolding apply_req extend set_refer_code set_referred_by set_limit_bytes
  apply_req-unlimited req s h = ground (arith, h)

  -- The world after an update whose row is written, or is not.
  abbrev pub applied : Uuid → SubReq → List Event → World → World
  applied sub_id req events w = record {
    cache = record w.cache {
      subscriptions = adjust sub_id (apply_req o now chrono req) w.cache.subscriptions;
    };
    events = events;
  }

  abbrev pub event_of : Uuid → SubReq → Subscription → DateTime → Event
  event_of sub_id req s t =
      sub_updated sub_id t (referred_by_of (apply_req o now chrono req s))
        (refer_code_of (apply_req o now chrono req s))

  abbrev pub Written : Uuid → SubReq → Subscription → World → World × PutReply → Type 0
  Written sub_id req s w after =
      (after.1 ≡ changed)
      × ((t : DateTime) × ((apply_req o now chrono req s).expires_at ≡ some t)
          × (after.0.events ≡ w.events ++ event_of sub_id req s t ∷ []))

  abbrev pub Refused : Uuid → Subscription → World → World × PutReply → Type 0
  Refused sub_id s w after =
      (after.1 ≡ internal)
      × (after.0.events ≡ w.events)
      × ((s.expires_at ≡ none) ⊎ (o.sub_update sub_id ≡ false))

  -- What an update does to a subscription: the fields that the request names are set, the days are
  -- added to an expiry that is there, and the rest stays.
  abbrev pub IsApplied : SubReq → Subscription → Subscription → Type 0
  IsApplied req s s' =
      (s'.id ≡ s.id)
      × (s'.created_at ≡ s.created_at)
      × (s'.is_deleted ≡ s.is_deleted)
      × (s'.limit_bytes ≡ elim req.limit_bytes [ none ↦ s.limit_bytes | some n ↦ some n ])
      × (s'.refer_code ≡ elim req.refer_code [ none ↦ s.refer_code | some code ↦ code ])
      × (s'.referred_by ≡ elim req.referred_by [ none ↦ s.referred_by | some code ↦ some code ])
      × (s'.expires_at ≡ elim req.days [
        | none ↦ s.expires_at
        | some days ↦ elim s.expires_at [ none ↦ none | some t ↦ some (chrono.plus_days t days) ]
      ])

  apply_req-IsApplied :
      (req : SubReq) (s : Subscription) → IsApplied req s (apply_req o now chrono req s)
  unfolding apply_req extend set_refer_code set_referred_by set_limit_bytes
  apply_req-IsApplied req s = (
    ground arith,
    ground arith,
    ground arith,
    ground arith,
    ground arith,
    ground arith,
    ground arith,
  )

  put_cases :
      (sub_id : Uuid) (req : SubReq) (w : World) (s : Subscription)
      → lookup sub_id w.cache.subscriptions ≡ some s
      → ((t : DateTime) × ((apply_req o now chrono req s).expires_at ≡ some t)
          × (put_subscription_handler sub_id req w
              ≡ (applied sub_id req (w.events ++ event_of sub_id req s t ∷ []) w, changed)))
        ⊎ ((put_subscription_handler sub_id req w ≡ (applied sub_id req w.events w, internal))
            × ((s.expires_at ≡ none) ⊎ (o.sub_update sub_id ≡ false)))
  unfolding put_subscription_handler update_sub
  put_cases sub_id req w s stored = elim (Option-cases (apply_req o now chrono req s).expires_at) [
    | inl gone ↦ inr (
      rw (put_subscription_handler, update_sub, stored, gone) refl,
      inl (apply_req-unlimited req s gone),
    )
    | inr (t, new) ↦ elim (Bool-cases (o.sub_update sub_id)) [
      | inr down ↦ inr (rw (put_subscription_handler, update_sub, stored, new, down) refl, inr down)
      | inl up ↦ inl (t, new, rw (put_subscription_handler, update_sub, stored, new, up) refl)
    ]
  ]

  -- An update of a stored subscription sets in the memory, in any case, the fields that the request
  -- names, adds the days to an expiry that is there and keeps the rest. The reply is good
  -- exactly if the row is written, with the new expiry and codes; otherwise it is an internal
  -- error, nothing is written, and the subscription had no expiry or the database refused.
  pub put_subscription_handler_lem :
      (sub_id : Uuid) (req : SubReq) (w : World) (s : Subscription)
      → lookup sub_id w.cache.subscriptions ≡ some s
      → (lookup sub_id (put_subscription_handler sub_id req w).0.cache.subscriptions
          ≡ some (apply_req o now chrono req s))
        × IsApplied req s (apply_req o now chrono req s)
        × (Written sub_id req s w (put_subscription_handler sub_id req w)
            ⊎ Refused sub_id s w (put_subscription_handler sub_id req w))
  put_subscription_handler_lem sub_id req w s stored =
      let held : lookup sub_id (adjust sub_id (apply_req o now chrono req) w.cache.subscriptions)
          ≡ some (apply_req o now chrono req s) =
        lookup-adjust_self sub_id (apply_req o now chrono req) w.cache.subscriptions s stored in
      elim (put_cases sub_id req w s stored) [
        | inl (t, new, run) ↦ rw run (held, apply_req-IsApplied req s, inl (refl, (t, new, refl)))
        | inr (run, why) ↦ rw run (held, apply_req-IsApplied req s, inr (refl, refl, why))
      ]
