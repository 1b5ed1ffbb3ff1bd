-- ===== src/Links/Summary/Flags.antt =====
-- What the summary of a subscription says of its environments.
use pony.Prelude.{
  All-imp, All-IsIn, ap, IsIn, IsIn-any, any-IsIn, ◌↔◌, ◌⊎◌, Option, Bool, ◌≡◌, refl, true, false,
  not, ◌&&◌, ◌||◌, List, [], ◌∷◌, none, some, arith, nat_eq, All, any, Bool-cases, Option-cases,
  inl, inr, ◌==◌,
}
use mathlib.Core.Path.{subst}
use pony.Prelude.Map.{Map, lookup}
use pony.Env.{Env, env_eqb_iff, env_eq}
use pony.Tag.{ProtoTag, wireguard, hysteria2, mtproto}
use pony.Prelude.Int.{pos}
use pony.Subscription.{Uuid, DateTime, Chrono, Subscription, days_remaining, refer_code_of}
use pony.Subscriptions.{count_invited_by}
use pony.Connection.{proto_tag, Conn}
use pony.Connections.{get_by_subscription_id}
use pony.Node.{Node, values}
use pony.Inbound.{Inbound}
use pony.Nodes.{get_by_env}
use pony.Links.Selection.{get_by_subscription_id-All, IsIn-get_by_subscription_id}
use pony.Sync.World.{World}
use pony.Links.Summary.{
  EnvInfo, SubscriptionResponse, xray_tags, contains, active_envs, node_exists, conn_exists,
  has_tag, env_info, env_infos, locations_of, or_default, get_subscription_info_json,
}

-- A live connection of the store, of the subscription and in the environment.
abbrev pub IsLive : Map Uuid Conn → Uuid → Env → Uuid × Conn → Type 0
IsLive m id env e =
    IsIn e m × (e.1.subscription_id ≡ some id) × (e.1.is_deleted ≡ false) × (e.1.env ≡ env)

-- Such a connection has one of the protocols, and so has an inbound of a node of the environment.
abbrev pub Offers : World → Uuid → Env → List ProtoTag → Type 0
Offers w id env tags =
    ((e : Uuid × Conn) × IsLive w.cache.connections id env e
      × (contains tags (proto_tag e.1.proto) ≡ true))
    × ((ns : List Node) × (node : Node) × (inbound : Inbound) × (get_by_env env w.cache.nodes
          ≡ some ns)
        × IsIn node ns
        × IsIn inbound (values node.inbounds)
        × (contains tags inbound.tag ≡ true))

abbrev pub IsTrue : World → Uuid → EnvInfo → Type 0
IsTrue w id i =
    ((e : Uuid × Conn) × IsLive w.cache.connections id i.env e)
    × (i.has_xray ≡ true ↔ Offers w id i.env xray_tags)
    × (i.has_h2 ≡ true ↔ Offers w id i.env (hysteria2 ∷ []))
    × (i.has_mtproto ≡ true ↔ Offers w id i.env (mtproto ∷ []))
    × (i.has_wg ≡ true ↔ Offers w id i.env (wireguard ∷ []))

-- The environment of the connection, if it is a live one of the subscription, is mentioned.
abbrev pub IsMentioned : Uuid → List EnvInfo → Uuid × Conn → Type 0
IsMentioned id infos e =
    e.1.subscription_id ≡ some id
    → e.1.is_deleted ≡ false
    → (i : EnvInfo) × IsIn i infos × (i.env ≡ e.1.env)

node_exists_iff :
    (tags : List ProtoTag) (found : Option (List Node))
    → (node_exists tags found ≡ true) ↔ (
        (ns : List Node) × (node : Node) × (inbound : Inbound) × (found ≡ some ns)
        × IsIn node ns
        × IsIn inbound (values node.inbounds)
        × (contains tags inbound.tag ≡ true))
unfolding node_exists
node_exists_iff tags none = (
  (λ h. absurd (ground (arith, h))),
  (λ h. absurd (let (ns, node, inbound, bad, held, there, tagged) = h in ground (arith, bad))),
)
node_exists_iff tags (some ns) =
    let has : Node → Bool = (λ n. any (λ i. contains tags i.tag) (values n.inbounds)) in
    (
      (λ h.
          let (node, held, more) = any-IsIn has ns h in
          let (inbound, there, tagged) =
            any-IsIn (λ i. contains tags i.tag) (values node.inbounds) more in
          (ns, node, inbound, refl, held, there, tagged)),
      (λ h.
          let (ms, node, inbound, same, held, there, tagged) = h in
          let e : ms ≡ ns = ground (arith, same) in
          IsIn-any has node ns (subst (IsIn node) e held)
            (IsIn-any (λ i. contains tags i.tag) inbound (values node.inbounds) there tagged)),
    )

-- The connections of the subscription: each is one of the store, and each of the store is there.
abbrev AreOwn : Map Uuid Conn → Uuid → List (Uuid × Conn) → Type 0
AreOwn m id conns =
    All (λ e. (e.1.subscription_id ≡ some id) × IsIn e m) conns
    × ((e : Uuid × Conn) → IsIn e m → e.1.subscription_id ≡ some id → IsIn e conns)

All-use : {A : Type 0} (P : A → Type 0) (x : A) (xs : List A) → All P xs → IsIn x xs → P x
All-use P x [] a h = absurd h
All-use P x (y ∷ xs) a (inl here) = subst P here a.0
All-use P x (y ∷ xs) a (inr there) = All-use P x xs a.1 there

IsIn-skipped :
    (e c : Uuid × Conn) (envs : List Env)
    → c ≡ e
    → e.1.is_deleted ≡ false
    → (c.1.is_deleted || any (λ x. x == c.1.env) envs) ≡ true
    → IsIn e.1.env envs
IsIn-skipped e c envs here live skipped =
    let met : (e.1.is_deleted || any (λ x. x == e.1.env) envs) ≡ true =
      subst (λ z. (z.1.is_deleted || any (λ x. x == z.1.env) envs) ≡ true) here skipped in
    let (x, held, same) = any-IsIn (λ x. x == e.1.env) envs (ground (arith, live, met)) in
    subst (λ z. IsIn z envs) ((env_eqb_iff x e.1.env).0 same) held

module _ (w : World) (id : Uuid) (conns : List (Uuid × Conn))
    (own : AreOwn w.cache.connections id conns) where
  abbrev is_right : List ProtoTag → Env → Uuid × Conn → Bool
  is_right tags env e = not e.1.is_deleted && e.1.env == env && contains tags (proto_tag e.1.proto)

  conn_exists_iff :
      (tags : List ProtoTag) (env : Env)
      → (conn_exists tags env conns ≡ true) ↔ (
          (e : Uuid × Conn) × IsLive w.cache.connections id env e
          × (contains tags (proto_tag e.1.proto) ≡ true))
  unfolding conn_exists
  conn_exists_iff tags env = (
    (λ h.
        let (e, held, right) = any-IsIn (is_right tags env) conns h in
        let (owned, stored) =
          All-use (λ e. (e.1.subscription_id ≡ some id) × IsIn e w.cache.connections) e conns own.0
            held in
        (
          e,
          (
            stored,
            owned,
            ground (arith, right),
            (env_eqb_iff e.1.env env).0 (ground (arith, right)),
          ),
          ground (arith, right),
        )),
    (λ h.
        let (e, (stored, owned, live, here), tagged) = h in
        IsIn-any (is_right tags env) e conns (own.1 e stored owned)
          (ground (arith, live, tagged, (env_eqb_iff e.1.env env).1 here))),
  )

  has_tag_iff :
      (tags : List ProtoTag) (env : Env)
      → (has_tag tags w.cache.nodes conns env ≡ true) ↔ Offers w id env tags
  unfolding has_tag
  has_tag_iff tags env =
      let conn_iff = conn_exists_iff tags env in
      let node_iff = node_exists_iff tags (get_by_env env w.cache.nodes) in
      (
        (λ h. (conn_iff.0 (ground (arith, h)), node_iff.0 (ground (arith, h)))),
        (λ h. ground (arith, conn_iff.1 h.0, node_iff.1 h.1)),
      )

  active_envs-All :
      (some_conns : List (Uuid × Conn))
      → All (λ e. (e.1.subscription_id ≡ some id) × IsIn e w.cache.connections) some_conns
      → All
          (λ env. (e : Uuid × Conn) × IsLive w.cache.connections id env e)
          (active_envs some_conns)
  unfolding active_envs
  active_envs-All [] a = tt
  active_envs-All ((conn_id, conn) ∷ rest) a =
      let more = active_envs-All rest a.1 in
      elim (Bool-cases (conn.is_deleted || any (λ e. e == conn.env) (active_envs rest))) [
        | inl skipped ↦ rw (active_envs, skipped) more
        | inr new ↦
            rw (active_envs, new)
              (((conn_id, conn), (a.0.1, a.0.0, ground (arith, new), refl)), more)
      ]

  IsIn-active_envs :
      (e : Uuid × Conn) (some_conns : List (Uuid × Conn))
      → IsIn e some_conns
      → e.1.is_deleted ≡ false
      → IsIn e.1.env (active_envs some_conns)
  unfolding active_envs
  IsIn-active_envs e [] h live = absurd h
  IsIn-active_envs e (c ∷ rest) (inl here) live =
      elim (Bool-cases (c.1.is_deleted || any (λ x. x == c.1.env) (active_envs rest))) [
        | inl skipped ↦
            rw (active_envs, skipped) (IsIn-skipped e c (active_envs rest) here live skipped)
        | inr new ↦ rw (active_envs, new) (inl (ap (λ x. x.1.env) here))
      ]
  IsIn-active_envs e (c ∷ rest) (inr there) live =
      let more = IsIn-active_envs e rest there live in
      elim (Bool-cases (c.1.is_deleted || any (λ x. x == c.1.env) (active_envs rest))) [
        | inl skipped ↦ rw (active_envs, skipped) more
        | inr new ↦ rw (active_envs, new) (inr more)
      ]

  env_infos-IsTrue :
      (envs : List Env)
      → All (λ env. (e : Uuid × Conn) × IsLive w.cache.connections id env e) envs
      → All (IsTrue w id) (env_infos w.cache.nodes conns envs)
  unfolding env_infos env_info
  env_infos-IsTrue [] live = tt
  env_infos-IsTrue (env ∷ envs) live = (
    (
      live.0,
      has_tag_iff xray_tags env,
      has_tag_iff (hysteria2 ∷ []) env,
      has_tag_iff (mtproto ∷ []) env,
      has_tag_iff (wireguard ∷ []) env,
    ),
    env_infos-IsTrue envs live.1,
  )

  IsIn-env_infos :
      (env : Env) (envs : List Env)
      → IsIn env envs
      → (i : EnvInfo) × IsIn i (env_infos w.cache.nodes conns envs) × (i.env ≡ env)
  unfolding env_infos env_info
  IsIn-env_infos env [] h = absurd h
  IsIn-env_infos env (x ∷ envs) (inl here) = (env_info w.cache.nodes conns x, inl refl, here)
  IsIn-env_infos env (x ∷ envs) (inr there) =
      let (i, held, same) = IsIn-env_infos env envs there in (i, inr held, same)

  locations-IsTrue : All (IsTrue w id) (locations_of w.cache.nodes (some conns))
  unfolding locations_of
  locations-IsTrue = env_infos-IsTrue (active_envs conns) (active_envs-All conns own.0)

  locations-IsMentioned :
      (e : Uuid × Conn)
      → IsIn e w.cache.connections
      → IsMentioned id (locations_of w.cache.nodes (some conns)) e
  unfolding locations_of
  locations-IsMentioned e stored owned live =
      IsIn-env_infos e.1.env (active_envs conns)
        (IsIn-active_envs e conns (own.1 e stored owned) live)

-- What the summary says of the environments is complete and true.
abbrev pub AreRight : World → Uuid → List EnvInfo → Type 0
AreRight w id infos = All (IsTrue w id) infos × All (IsMentioned id infos) w.cache.connections

locations_of-AreRight :
    (w : World) (id : Uuid)
    → AreRight w id (locations_of w.cache.nodes (get_by_subscription_id id w.cache.connections))
unfolding locations_of
locations_of-AreRight w id =
    let m : Map Uuid Conn = w.cache.connections in
    let found = get_by_subscription_id id m in
    let infos : List EnvInfo = locations_of w.cache.nodes found in
    elim (Option-cases (get_by_subscription_id id m)) [
      | inl nothing ↦
          rw (nothing, locations_of)
            (
              tt,
              All-imp (λ e. IsIn e m) (IsMentioned id [])
                  (λ e stored owned live.
                    let (conns, some_found, kept) =
                      IsIn-get_by_subscription_id id m e stored owned in
                    absurd (ground (arith, nothing, some_found)))
                  m (All-IsIn m),
            )
      | inr (conns, there) ↦
          let own : AreOwn m id conns = (
            get_by_subscription_id-All id m conns there,
            (λ e stored owned.
                let (cs, some_found, kept) = IsIn-get_by_subscription_id id m e stored owned in
                let same : cs ≡ conns = ground (arith, there, some_found) in
                subst (IsIn e) same kept),
          ) in
          rw there (
            locations-IsTrue w id conns own,
            All-imp (λ e. IsIn e m) (IsMentioned id (locations_of w.cache.nodes (some conns)))
                (locations-IsMentioned w id conns own) m (All-IsIn m),
          )
    ]

-- A summary comes exactly for a stored subscription. The environments in it are exactly those of
-- the live connections of the subscription in the memory, and a flag is set exactly if such a
-- connection of the environment and an inbound of a node of the environment have one of its
-- protocols.
pub get_subscription_info_json_lem :
    (chrono : Chrono) (epoch now : DateTime) (id : Uuid) (w : World)
    → ((lookup id w.cache.subscriptions ≡ none)
        × (get_subscription_info_json chrono epoch now id w ≡ none))
      ⊎ ((sub : Subscription) × (r : SubscriptionResponse) × (lookup id w.cache.subscriptions
            ≡ some sub)
          × (get_subscription_info_json chrono epoch now id w ≡ some r)
          × (r.id ≡ sub.id)
          × AreRight w id r.locations)
unfolding get_subscription_info_json
get_subscription_info_json_lem chrono epoch now id w =
    elim (Option-cases (lookup id w.cache.subscriptions)) [
      | inl unknown ↦ inl (unknown, rw (get_subscription_info_json, unknown) refl)
      | inr (sub, stored) ↦
          let r : SubscriptionResponse = record {
            id = sub.id;
            expires = or_default epoch sub.expires_at;
            days = or_default (pos 0) (days_remaining chrono now sub);
            ref_code = refer_code_of sub;
            invited_count = count_invited_by (refer_code_of sub) w.cache.subscriptions;
            locations = locations_of w.cache.nodes (get_by_subscription_id id w.cache.connections);
            downlink = pos 0;
            limit_bytes = or_default (pos 0) sub.limit_bytes;
          } in
          inr (
            sub,
            r,
            stored,
            rw (get_subscription_info_json, stored) refl,
            refl,
            locations_of-AreRight w id,
          )
    ]
