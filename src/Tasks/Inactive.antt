-- ===== src/Tasks/Inactive.antt =====
-- The pass over the subscriptions that are not active.
use pony.Prelude.{
  ◌≡◌, refl, sym, ◌∙◌, Bool, true, false, not, List, [], ◌∷◌, none, some, arith, nat_eq, nat_eqb,
  nat_eqb_iff, keep, option_eqb, option_eqb_iff, Bool-cases, inl, inr,
}
use pony.Prelude.Map.{Map, lookup, lookup-keep}
use pony.Topic.{Topic}
use pony.Subscription.{Uuid, DateTime, Subscription, is_active}
use pony.Connection.{Conn, Message}
use pony.Connections.{get_by_subscription_id, some_if_any}
use pony.Sync.World.{World, Outside}
use pony.Tasks.{ids_of, delete_all, conns_to_delete, cleanup_subs, cleanup_expired_subscriptions}
use pony.Tasks.Cleanup.{Follows, delete_all-Follows, delete_all-Dead}

keep_if_any :
    (es : List (Uuid × Conn))
    → (elim (some_if_any es) [ some conns ↦ keep (λ e. not e.1.is_deleted) conns | none ↦ [] ])
      ≡ keep (λ e. not e.1.is_deleted) es
unfolding some_if_any
keep_if_any [] = refl
keep_if_any (e ∷ es) = refl

module _ (o : Outside) (now : DateTime) where
  lookup-conns_to_delete :
      (sub_id id : Uuid) (c : Conn) (m : Map Uuid Conn)
      → lookup id m ≡ some c
      → c.subscription_id ≡ some sub_id
      → c.is_deleted ≡ false
      → lookup id (conns_to_delete o now sub_id m) ≡ some c
  unfolding conns_to_delete get_by_subscription_id
  lookup-conns_to_delete sub_id id c m held sub live =
      let of_sub : Uuid × Conn → Bool = λ e. option_eqb e.1.subscription_id (some sub_id) in
      rw (keep_if_any (keep of_sub m)) (
        lookup-keep id c (λ e. not e.1.is_deleted) (keep of_sub m)
          (lookup-keep id c of_sub m held ((option_eqb_iff c.subscription_id (some sub_id)).1 sub))
          (rw live refl))

  abbrev pass : Uuid → World → World
  pass sub_id w = delete_all o now (conns_to_delete o now sub_id w.cache.connections) w

  cleanup_subs-Follows :
      (ids : List Uuid) (j : Uuid) (w : World)
      → Follows j w.cache.connections (cleanup_subs o now ids w).cache.connections
  unfolding cleanup_subs
  cleanup_subs-Follows [] j w c held = (c, held, refl, refl, λ d. d)
  cleanup_subs-Follows (id ∷ ids) j w c held =
      let (b, was, e, g, k) = cleanup_subs-Follows ids j (pass id w) c held in
      let (a, old, e', g', k') =
        delete_all-Follows o now (conns_to_delete o now id w.cache.connections) j w b was in
      (a, old, e ∙ e', g ∙ g', λ x. k (k' x))

  -- With the database and the bus up.
  module _ (up : (id : Uuid) → o.conn_delete id ≡ true)
      (bytes : (ms : List Message) → o.to_bytes ms ≡ true)
      (sent : (t : Topic) (ms : List Message) → o.send_binary t ms ≡ true) where
    pass-deleted :
        (sub_id : Uuid) (w : World) (id : Uuid) (c : Conn)
        → lookup id (pass sub_id w).cache.connections ≡ some c
        → c.subscription_id ≡ some sub_id
        → c.is_deleted ≡ true
    pass-deleted sub_id w id c held sub =
        let es : List (Uuid × Conn) = conns_to_delete o now sub_id w.cache.connections in
        let (b, was, e, g, k) = delete_all-Follows o now es id w c held in
        elim (Bool-cases b.is_deleted) [
          | inl was_dead ↦ k was_dead
          | inr was_live ↦
              delete_all-Dead o now up bytes sent es id w b
                (lookup-conns_to_delete sub_id id b w.cache.connections was (sym g ∙ sub) was_live)
                c held
        ]

    cleanup_subs-deleted :
        (es : List (Uuid × Subscription)) (w : World) (sub_id : Uuid) (s : Subscription) (id : Uuid)
        (c : Conn)
        → lookup sub_id es ≡ some s
        → lookup id (cleanup_subs o now (ids_of es) w).cache.connections ≡ some c
        → c.subscription_id ≡ some sub_id
        → c.is_deleted ≡ true
    unfolding cleanup_subs ids_of lookup
    cleanup_subs-deleted [] w sub_id s id c listed held sub = ground arith
    cleanup_subs-deleted ((i, t) ∷ es) w sub_id s id c listed held sub =
        elim (Bool-cases (nat_eqb i sub_id)) [
          | inl here ↦
              let same : i ≡ sub_id = (nat_eqb_iff i sub_id).0 here in
              let (b, was, e, g, k) = cleanup_subs-Follows (ids_of es) id (pass i w) c held in
              k (pass-deleted i w id b was (sym g ∙ sub ∙ rw same refl))
          | inr there ↦ cleanup_subs-deleted es (pass i w) sub_id s id c (ground arith) held sub
        ]

    -- After a pass over the subscriptions, with the database and the bus up, every connection of a
    -- subscription that was stored and not active is marked as deleted.
    pub cleanup_expired_subscriptions_lem :
        (w : World) (sub_id : Uuid) (s : Subscription) (id : Uuid) (c : Conn)
        → lookup sub_id w.cache.subscriptions ≡ some s
        → is_active now s ≡ false
        → lookup id (cleanup_expired_subscriptions o now w).cache.connections ≡ some c
        → c.subscription_id ≡ some sub_id
        → c.is_deleted ≡ true
    unfolding cleanup_expired_subscriptions
    cleanup_expired_subscriptions_lem w sub_id s id c stored inactive held sub =
        cleanup_subs-deleted (keep (λ e. not (is_active now e.1)) w.cache.subscriptions) w sub_id s
          id c
          (lookup-keep sub_id s (λ e. not (is_active now e.1)) w.cache.subscriptions stored
            (rw inactive refl))
          held sub
