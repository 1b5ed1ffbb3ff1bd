-- ===== src/Tasks/Cleanup.antt =====
-- The pass over the expired connections.
use pony.Prelude.{
  ◌≡◌, ◌⊎◌, ◌≤◌, refl, sym, ◌∙◌, true, false, List, [], ◌∷◌, some, arith, le→leb, nat_eq, nat_eqb,
  nat_eqb_iff, keep, Option-cases, Bool-cases, inl, inr,
}
use pony.Prelude.Map.{
  Map, lookup, lookup-keep, adjust, lookup-adjust_self, lookup-adjust_ne, lookup-adjust-none,
}
use pony.Subscription.{Uuid, DateTime}
use pony.Topic.{Topic}
use pony.Connection.{Conn, mark, Message, as_delete_message}
use pony.Sync.World.{World, Outside}
use pony.Sync.Operations.{topic_of, delete_connection}
use pony.Tasks.{is_expired_conn, delete_all, cleanup_expired_connections}

-- A connection of the later store was in the earlier one, with the same expiry and subscription, and
-- is deleted if it was.
abbrev pub Follows : Uuid → Map Uuid Conn → Map Uuid Conn → Type 0
Follows id before after =
    (c : Conn)
    → lookup id after ≡ some c
    → (b : Conn) × (lookup id before ≡ some b)
      × (c.expires_at ≡ b.expires_at)
      × (c.subscription_id ≡ b.subscription_id)
      × (b.is_deleted ≡ true → c.is_deleted ≡ true)

abbrev pub Dead : Uuid → Map Uuid Conn → Type 0
Dead id m = (c : Conn) → lookup id m ≡ some c → c.is_deleted ≡ true

adjust-Follows :
    (now : DateTime) (id j : Uuid) (m : Map Uuid Conn) → Follows j m (adjust id (mark now true) m)
unfolding mark
adjust-Follows now id j m c held = elim (Option-cases (lookup j m)) [
  | inl absent ↦ ground (arith, lookup-adjust-none id j (mark now true) m)
  | inr (b, was) ↦ elim (Bool-cases (nat_eqb id j)) [
    | inl same ↦
        let e : lookup j (adjust id (mark now true) m) ≡ some (mark now true b) =
          rw ((nat_eqb_iff id j).0 same) (lookup-adjust_self j (mark now true) m b was) in
        (b, was, ground arith, ground arith, λ d. ground arith)
    | inr other ↦
        let e : lookup j (adjust id (mark now true) m) ≡ lookup j m =
          lookup-adjust_ne id j (mark now true) m other in
        (b, was, ground arith, ground arith, λ d. ground arith)
  ]
]

pub Follows-Dead : (id : Uuid) (m n : Map Uuid Conn) → Follows id m n → Dead id m → Dead id n
Follows-Dead id m n f dead c held = let (b, was, e, g, d) = f c held in d (dead b was)

is_expired_live :
    (now : DateTime) (id : Uuid) (b : Conn) (expires_at : DateTime)
    → b.expires_at ≡ some expires_at
    → expires_at ≤ now
    → b.is_deleted ≡ false
    → is_expired_conn now (id, b) ≡ true
is_expired_live now id b expires_at e late live = rw (e, live, le→leb expires_at now late) refl

module _ (o : Outside) (now : DateTime) where
  abbrev step : Uuid → Conn → World → World
  step id c w = (delete_connection o now id c w).0

  delete_connection_cases :
      (id : Uuid) (c : Conn) (w : World)
      → ((step id c w).cache.connections ≡ w.cache.connections)
        ⊎ ((step id c w).cache.connections ≡ adjust id (mark now true) w.cache.connections)
  unfolding delete_connection
  delete_connection_cases id c w = ground arith

  delete_connection-Follows :
      (id j : Uuid) (c : Conn) (w : World)
      → Follows j w.cache.connections (step id c w).cache.connections
  delete_connection-Follows id j c w d held = elim (delete_connection_cases id c w) [
    | inl same ↦ (d, rw same at held, refl, refl, λ x. x)
    | inr marked ↦ adjust-Follows now id j w.cache.connections d (rw marked at held)
  ]

  pub delete_all-Follows :
      (es : List (Uuid × Conn)) (j : Uuid) (w : World)
      → Follows j w.cache.connections (delete_all o now es w).cache.connections
  unfolding delete_all
  delete_all-Follows [] j w c held = (c, held, refl, refl, λ d. d)
  delete_all-Follows ((id, d) ∷ es) j w c held =
      let (b, was, e, g, k) = delete_all-Follows es j (step id d w) c held in
      let (a, old, e', g', k') = delete_connection-Follows id j d w b was in
      (a, old, e ∙ e', g ∙ g', λ x. k (k' x))

  -- With the database and the bus up a deletion leaves the connection dead.
  module _ (up : (id : Uuid) → o.conn_delete id ≡ true)
      (bytes : (ms : List Message) → o.to_bytes ms ≡ true)
      (sent : (t : Topic) (ms : List Message) → o.send_binary t ms ≡ true) where
    delete_connection-Dead :
        (id : Uuid) (c : Conn) (w : World) → Dead id (step id c w).cache.connections
    unfolding delete_connection mark
    delete_connection-Dead id c w = elim (Option-cases (lookup id w.cache.connections)) [
      | inl absent ↦ λ d h. ground arith
      | inr (d, held) ↦ λ c' h. ground (
        arith,
        up id,
        bytes (as_delete_message id c ∷ []),
        sent (topic_of c) (as_delete_message id c ∷ []),
        lookup-adjust_self id (mark now true) w.cache.connections d held,
      )
    ]

    pub delete_all-Dead :
        (es : List (Uuid × Conn)) (id : Uuid) (w : World) (c : Conn)
        → lookup id es ≡ some c
        → Dead id (delete_all o now es w).cache.connections
    unfolding delete_all lookup
    delete_all-Dead [] id w c h = ground arith
    delete_all-Dead ((j, d) ∷ es) id w c h = elim (Bool-cases (nat_eqb j id)) [
      | inl here ↦
          let same : j ≡ id = (nat_eqb_iff j id).0 here in
          Follows-Dead id (step j d w).cache.connections
            (delete_all o now es (step j d w)).cache.connections
            (delete_all-Follows es id (step j d w))
            (λ x held. delete_connection-Dead j d w x (ground arith))
      | inr there ↦ delete_all-Dead es id (step j d w) c (ground arith)
    ]

    -- After a pass over the expired connections, with the database and the bus up, every connection
    -- whose expiry is not after the pass's time is marked as deleted.
    pub cleanup_expired_connections_lem :
        (w : World) (id : Uuid) (c : Conn) (expires_at : DateTime)
        → lookup id (cleanup_expired_connections o now w).cache.connections ≡ some c
        → c.expires_at ≡ some expires_at
        → expires_at ≤ now
        → c.is_deleted ≡ true
    unfolding cleanup_expired_connections
    cleanup_expired_connections_lem w id c expires_at held expires late =
        let es : List (Uuid × Conn) = keep (is_expired_conn now) w.cache.connections in
        let (b, was, same, sub, dead) = delete_all-Follows es id w c held in
        elim (Bool-cases b.is_deleted) [
          | inl was_dead ↦ dead was_dead
          | inr was_live ↦
              delete_all-Dead es id w b
                (lookup-keep id b (is_expired_conn now) w.cache.connections was
                  (is_expired_live now id b expires_at (sym same ∙ expires) late was_live))
                c held
        ]
