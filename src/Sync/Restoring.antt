-- ===== src/Sync/Restoring.antt =====
-- Restoring the connections of a subscription.
use pony.Prelude.{
  ◌≡◌, ◌⊎◌, refl, sym, ◌∙◌, Bool, true, false, List, [], ◌∷◌, none, some, arith, nat_eq, nat_eqb,
  nat_eqb_iff, keep, option_eqb, option_eqb_iff, Option-cases, Bool-cases, inl, inr,
}
use pony.Prelude.Map.{
  Map, lookup, lookup-keep, adjust, lookup-adjust_self, lookup-adjust_ne, lookup-adjust-none,
}
use pony.Topic.{Topic}
use pony.Subscription.{Uuid, DateTime}
use pony.Connection.{Conn, mark, Message, as_update_message}
use pony.Connections.{get_by_subscription_id, some_if_any}
use pony.Sync.World.{World, Outside}
use pony.Sync.Operations.{
  topic_of, restore_connection, restore_one, restore_all, to_restore,
  restore_connections_by_subscription,
}

-- A connection of the later store was in the earlier one, of the same subscription, and is live if
-- it was.
abbrev Follows : Uuid → Map Uuid Conn → Map Uuid Conn → Type 0
Follows id before after =
    (c : Conn)
    → lookup id after ≡ some c
    → (b : Conn) × (lookup id before ≡ some b)
      × (c.subscription_id ≡ b.subscription_id)
      × (b.is_deleted ≡ false → c.is_deleted ≡ false)

abbrev Live : Uuid → Map Uuid Conn → Type 0
Live id m = (c : Conn) → lookup id m ≡ some c → c.is_deleted ≡ false

adjust-Follows :
    (now : DateTime) (id j : Uuid) (m : Map Uuid Conn) → Follows j m (adjust id (mark now false) m)
unfolding mark
adjust-Follows now id j m c held = elim (Option-cases (lookup j m)) [
  | inl absent ↦ ground (arith, lookup-adjust-none id j (mark now false) m)
  | inr (b, was) ↦ elim (Bool-cases (nat_eqb id j)) [
    | inl same ↦
        let e : lookup j (adjust id (mark now false) m) ≡ some (mark now false b) =
          rw ((nat_eqb_iff id j).0 same) (lookup-adjust_self j (mark now false) m b was) in
        (b, was, ground arith, λ d. ground arith)
    | inr other ↦
        let e : lookup j (adjust id (mark now false) m) ≡ lookup j m =
          lookup-adjust_ne id j (mark now false) m other in
        (b, was, ground arith, λ d. ground arith)
  ]
]

keep_if_any :
    (es : List (Uuid × Conn))
    → (elim (some_if_any es) [ some conns ↦ keep (λ e. e.1.is_deleted) conns | none ↦ [] ])
      ≡ keep (λ e. e.1.is_deleted) es
unfolding some_if_any
keep_if_any [] = refl
keep_if_any (e ∷ es) = refl

lookup-to_restore :
    (o : Outside) (now : DateTime) (sub_id id : Uuid) (c : Conn) (m : Map Uuid Conn)
    → lookup id m ≡ some c
    → c.subscription_id ≡ some sub_id
    → c.is_deleted ≡ true
    → lookup id (to_restore o now sub_id m) ≡ some c
unfolding to_restore get_by_subscription_id
lookup-to_restore o now sub_id id c m held sub deleted =
    let of_sub : Uuid × Conn → Bool = λ e. option_eqb e.1.subscription_id (some sub_id) in
    rw (keep_if_any (keep of_sub m)) (
      lookup-keep id c (λ e. e.1.is_deleted) (keep of_sub m)
        (lookup-keep id c of_sub m held ((option_eqb_iff c.subscription_id (some sub_id)).1 sub))
        deleted)

module _ (o : Outside) (now : DateTime) where
  abbrev step : Uuid → Conn → World → World
  step id c w = (restore_one o now id c w).0

  restore_one_cases :
      (id : Uuid) (c : Conn) (w : World)
      → ((step id c w).cache.connections ≡ w.cache.connections)
        ⊎ ((step id c w).cache.connections ≡ adjust id (mark now false) w.cache.connections)
  unfolding restore_one restore_connection
  restore_one_cases id c w = ground arith

  restore_one-Follows :
      (id j : Uuid) (c : Conn) (w : World)
      → Follows j w.cache.connections (step id c w).cache.connections
  restore_one-Follows id j c w d held = elim (restore_one_cases id c w) [
    | inl same ↦ (d, rw same at held, refl, λ x. x)
    | inr marked ↦ adjust-Follows now id j w.cache.connections d (rw marked at held)
  ]

  restore_all-Follows :
      (es : List (Uuid × Conn)) (j : Uuid) (w : World)
      → Follows j w.cache.connections (restore_all o now es w).0.cache.connections
  unfolding restore_all
  restore_all-Follows [] j w c held = (c, held, refl, λ d. d)
  restore_all-Follows ((id, d) ∷ es) j w c held =
      let (b, was, e, k) = restore_all-Follows es j (step id d w) c held in
      let (a, old, e', k') = restore_one-Follows id j d w b was in (a, old, e ∙ e', λ x. k (k' x))

  -- With the database and the bus up.
  module _ (up : (id : Uuid) → o.conn_restore id ≡ true)
      (bytes : (ms : List Message) → o.to_bytes ms ≡ true)
      (sent : (t : Topic) (ms : List Message) → o.send_binary t ms ≡ true) where
    restore_one-Live : (id : Uuid) (c : Conn) (w : World) → Live id (step id c w).cache.connections
    unfolding restore_one restore_connection mark
    restore_one-Live id c w = elim (Option-cases (lookup id w.cache.connections)) [
      | inl absent ↦ λ d h. ground (
        arith,
        bytes (as_update_message id c ∷ []),
        sent (topic_of c) (as_update_message id c ∷ []),
      )
      | inr (d, held) ↦ λ c' h. ground (
        arith,
        up id,
        bytes (as_update_message id c ∷ []),
        sent (topic_of c) (as_update_message id c ∷ []),
        lookup-adjust_self id (mark now false) w.cache.connections d held,
      )
    ]

    restore_all-Live :
        (es : List (Uuid × Conn)) (id : Uuid) (w : World) (c : Conn)
        → lookup id es ≡ some c
        → Live id (restore_all o now es w).0.cache.connections
    unfolding restore_all lookup
    restore_all-Live [] id w c h = ground arith
    restore_all-Live ((j, d) ∷ es) id w c h = elim (Bool-cases (nat_eqb j id)) [
      | inl here ↦
          let same : j ≡ id = (nat_eqb_iff j id).0 here in
          λ x held.
            let (b, was, e, k) = restore_all-Follows es id (step j d w) x held in
            k (restore_one-Live j d w b (ground arith))
      | inr there ↦ restore_all-Live es id (step j d w) c (ground arith)
    ]

    -- With the database and the bus up, no connection of the subscription is marked as deleted
    -- after its connections were restored, whatever it was marked for: the ones that were deleted
    -- by a request and the expired ones are live too.
    pub restore_connections_by_subscription_lem :
        (sub_id : Uuid) (w : World) (id : Uuid) (c : Conn)
        → lookup id (restore_connections_by_subscription o now sub_id w).0.cache.connections
          ≡ some c
        → c.subscription_id ≡ some sub_id
        → c.is_deleted ≡ false
    unfolding restore_connections_by_subscription
    restore_connections_by_subscription_lem sub_id w id c held sub =
        let (b, was, same, live) =
          restore_all-Follows (to_restore o now sub_id w.cache.connections) id w c held in
        elim (Bool-cases b.is_deleted) [
          | inl was_dead ↦
              restore_all-Live (to_restore o now sub_id w.cache.connections) id w b
                (lookup-to_restore o now sub_id id b w.cache.connections was (sym same ∙ sub)
                  was_dead)
                c held
          | inr was_live ↦ live was_live
        ]
