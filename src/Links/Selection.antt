-- ===== src/Links/Selection.antt =====
-- What the links of a subscription are made of.
use pony.Prelude.{
  ◌≡◌, ◌≢◌, refl, ap, Bool, true, false, List, [], ◌∷◌, Option, none, some, arith, nat_eq, any,
  keep, keep-All, IsIn, IsIn-keep, All-IsIn, All-imp, option_eqb, option_eqb_iff, option_eq, All,
  All-append, Bool-cases, Option-cases, inl, inr,
}
use pony.Prelude.Map.{Map, lookup}
use pony.Prelude.Text.{Text}
use pony.Env.{env_eq, env_eqb_iff}
use pony.Tag.{shadowsocks, tag_eqb, tag_eqb_iff, tag_eq}
use pony.Subscription.{Uuid, DateTime, Subscription, is_active}
use pony.Connection.{proto_tag, Conn}
use pony.Connections.{get_by_subscription_id, some_if_any}
use pony.Inbound.{Inbound}
use pony.Inbound.Link.{LinkText, link_of, create_link}
use pony.Node.{Node}
use pony.Nodes.{Nodes, get_by_env}
use pony.Sync.World.{World}
use pony.Links.{
  tags, SubscriptionInfoRequest, FormatReq, txt, base64, clash, validate, Served, at_nodes,
  is_wanted, inbounds_list, served, bad, expired, missing, failed, text, links, as_text, formatted,
  reply_with, subscription_link_handler,
}

-- The connection is live, of the subscription and of the environment of the request, and of one of
-- its protocols.
abbrev pub IsWanted : SubscriptionInfoRequest → Conn → Type 0
IsWanted req conn =
    (conn.subscription_id ≡ some req.id)
    × (conn.is_deleted ≡ false)
    × (conn.env ≡ req.env)
    × (any (λ tag. tag_eqb tag (proto_tag conn.proto)) (tags req.proto) ≡ true)

is_wanted_lem :
    (req : SubscriptionInfoRequest) (conn : Conn)
    → conn.subscription_id ≡ some req.id
    → is_wanted req conn ≡ true
    → IsWanted req conn
unfolding is_wanted
is_wanted_lem req conn e h =
    (e, ground (arith, h), (env_eqb_iff conn.env req.env).0 (ground (arith, h)), ground (arith, h))

-- What the handler keeps of an inbound of a node for a connection.
abbrev pub served_at : Uuid → Conn → Node → Inbound → Served
served_at conn_id conn node inbound = record {
  inbound = inbound;
  conn_id = conn_id;
  conn = conn;
  hostname = node.hostname;
  address = node.address;
  label = node.label;
}

-- The inbound of a node in one of the environment's nodes for the protocol of the connection.
abbrev pub IsAt : Nodes → Conn → Node → Inbound → Type 0
IsAt nodes conn node inbound =
    ((ns : List Node) × (get_by_env conn.env nodes ≡ some ns) × IsIn node ns)
    × (lookup (proto_tag conn.proto) node.inbounds ≡ some inbound)

-- The connection is one of the memory, and wanted, and the inbound is for it.
abbrev pub IsOffered :
    SubscriptionInfoRequest → Nodes → List (Uuid × Conn) → Uuid → Conn → Node → Inbound → Type 0
IsOffered req nodes conns conn_id conn node inbound =
    IsIn (conn_id, conn) conns × IsWanted req conn × IsAt nodes conn node inbound

abbrev pub WasOffered : SubscriptionInfoRequest → Nodes → List (Uuid × Conn) → Served → Type 0
WasOffered req nodes conns s =
    (node : Node) × IsOffered req nodes conns s.conn_id s.conn node s.inbound
    × (s ≡ served_at s.conn_id s.conn node s.inbound)

at_nodes-All :
    (P : Served → Type 0) (conn_id : Uuid) (conn : Conn) (nodes : List Node)
    → All
        (λ n.
          (i : Inbound)
          → lookup (proto_tag conn.proto) n.inbounds ≡ some i
          → P (served_at conn_id conn n i))
        nodes
    → All P (at_nodes conn_id conn nodes)
unfolding at_nodes
at_nodes-All P conn_id conn [] p = tt
at_nodes-All P conn_id conn (n ∷ nodes) p =
    elim (Option-cases (lookup (proto_tag conn.proto) n.inbounds)) [
      | inl absent ↦ rw (at_nodes, absent) (at_nodes-All P conn_id conn nodes p.1)
      | inr (i, found) ↦ rw (at_nodes, found) (p.0 i found, at_nodes-All P conn_id conn nodes p.1)
    ]

inbounds_list-WasOffered :
    (req : SubscriptionInfoRequest) (nodes : Nodes) (all conns : List (Uuid × Conn))
    → All (λ e. (e.1.subscription_id ≡ some req.id) × IsIn e all) conns
    → All (WasOffered req nodes all) (inbounds_list req nodes conns)
unfolding inbounds_list
inbounds_list-WasOffered req nodes all [] a = tt
inbounds_list-WasOffered req nodes all ((conn_id, conn) ∷ conns) a =
    let rest : All (WasOffered req nodes all) (inbounds_list req nodes conns) =
      inbounds_list-WasOffered req nodes all conns a.1 in
    elim (Bool-cases (is_wanted req conn)) [
      | inr unwanted ↦ rw (inbounds_list, unwanted) rest
      | inl wanted ↦ elim (Option-cases (get_by_env conn.env nodes)) [
        | inl nowhere ↦ rw (inbounds_list, wanted, nowhere) rest
        | inr (ns, there) ↦
            let own : IsWanted req conn = is_wanted_lem req conn a.0.0 wanted in
            rw (inbounds_list, wanted, there)
              (All-append (WasOffered req nodes all) (at_nodes conn_id conn ns)
                (inbounds_list req nodes conns)
                (at_nodes-All (WasOffered req nodes all) conn_id conn ns (
                  All-imp (λ n. IsIn n ns)
                    (λ n.
                      (i : Inbound)
                      → lookup (proto_tag conn.proto) n.inbounds ≡ some i
                      → WasOffered req nodes all (served_at conn_id conn n i))
                    (λ n here i found. (n, (a.0.1, own, ((ns, there, here), found)), refl)) ns
                    (All-IsIn ns)))
                rest)
      ]
    ]

some_if_any-some : {A : Type 0} (xs ys : List A) → some_if_any xs ≡ some ys → ys ≡ xs
unfolding some_if_any
some_if_any-some [] ys h = ground (arith, h)
some_if_any-some (x ∷ xs) ys h = ground (arith, h)

-- The connections of a subscription are its, and of the store.
pub get_by_subscription_id-All :
    (id : Uuid) (m : Map Uuid Conn) (conns : List (Uuid × Conn))
    → get_by_subscription_id id m ≡ some conns
    → All {A = Uuid × Conn} (λ e. (e.1.subscription_id ≡ some id) × IsIn e m) conns
unfolding get_by_subscription_id
get_by_subscription_id-All id m conns found =
    let e : conns ≡ keep (λ e. option_eqb e.1.subscription_id (some id)) m =
      some_if_any-some (keep (λ e. option_eqb e.1.subscription_id (some id)) m) conns found in
    rw e (
      keep-All {A = Uuid × Conn} (λ e. IsIn e m) (λ e. (e.1.subscription_id ≡ some id) × IsIn e m)
        (λ e. option_eqb e.1.subscription_id (some id))
        (λ e h there. ((option_eqb_iff e.1.subscription_id (some id)).0 h, there)) m (All-IsIn m))

some_if_any-IsIn :
    (e : Uuid × Conn) (xs : List (Uuid × Conn)) → IsIn e xs → some_if_any xs ≡ some xs
unfolding some_if_any
some_if_any-IsIn e [] h = absurd h
some_if_any-IsIn e (x ∷ xs) h = refl

-- No connection of the subscription is missing.
pub IsIn-get_by_subscription_id :
    (id : Uuid) (m : Map Uuid Conn) (e : Uuid × Conn)
    → IsIn e m
    → e.1.subscription_id ≡ some id
    → (conns : List (Uuid × Conn)) × (get_by_subscription_id id m ≡ some conns) × IsIn e conns
unfolding get_by_subscription_id
IsIn-get_by_subscription_id id m e stored owned =
    let own : Uuid × Conn → Bool = (λ e. option_eqb e.1.subscription_id (some id)) in
    let kept : IsIn e (keep own m) =
      IsIn-keep e own m stored ((option_eqb_iff e.1.subscription_id (some id)).1 owned) in
    (keep own m, some_if_any-IsIn e (keep own m) kept, kept)

-- The inbounds of a request are those of live connections of the memory that it wants.
served-WasOffered :
    (req : SubscriptionInfoRequest) (w : World)
    → All (WasOffered req w.cache.nodes w.cache.connections) (served req w)
unfolding served
served-WasOffered req w = elim (Option-cases (get_by_subscription_id req.id w.cache.connections)) [
  | inl none_found ↦ rw (served, none_found) tt
  | inr (conns, found) ↦
      rw (served, found)
        (inbounds_list-WasOffered req w.cache.nodes w.cache.connections conns
          (get_by_subscription_id-All req.id w.cache.connections conns found))
]

as_text_lem :
    (expires_at e : Option DateTime) (o : Option (List (List Text))) (ls : List (List Text))
    → as_text expires_at o ≡ text e ls
    → (o ≡ some ls) × (e ≡ expires_at)
as_text_lem expires_at e none ls h = ground (arith, h)
as_text_lem expires_at e (some ls') ls h = (ground (arith, h), ground (arith, h))

abbrev pub is_shadowsocks : Served → Bool
is_shadowsocks s = tag_eqb s.inbound.tag shadowsocks

module _ (t : LinkText) where
  -- The links are those of the inbounds, one for each, in their order.
  abbrev pub AreLinks : List Served → List (List Text) → Type 0
  AreLinks [] [] = Unit
  AreLinks [] (link ∷ ls) = ⊥
  AreLinks (s ∷ list) [] = ⊥
  AreLinks (s ∷ list) (link ∷ ls) =
      (create_link t s.inbound s.conn_id s.conn s.address s.label ≡ some link) × AreLinks list ls

  links-cons :
      (s : Served) (list : List Served) (ls : List (List Text))
      → links t (s ∷ list) ≡ some ls
      → (link : List Text) × (rest : List (List Text)) × (create_link t s.inbound s.conn_id s.conn
            s.address s.label
          ≡ some link)
        × (links t list ≡ some rest)
        × (ls ≡ link ∷ rest)
  unfolding links
  links-cons s list ls h =
      elim (Option-cases (create_link t s.inbound s.conn_id s.conn s.address s.label)) [
        | inl broken ↦
            let bad : none ≡ some ls = rw (links, broken) at h in absurd (ground (arith, bad))
        | inr (link, made) ↦ elim (Option-cases (links t list)) [
          | inl stuck ↦
              let bad : none ≡ some ls = rw (links, made, stuck) at h in
              absurd (ground (arith, bad))
          | inr (rest, more) ↦
              let e : some (link ∷ rest) ≡ some ls = rw (links, made, more) at h in
              (link, rest, made, more, ground (arith, e))
        ]
      ]

  links_nil : (ls : List (List Text)) → links t [] ≡ some ls → ls ≡ []
  unfolding links
  links_nil ls h = ground (arith, h)

  links-AreLinks :
      (list : List Served) (ls : List (List Text)) → links t list ≡ some ls → AreLinks list ls
  links-AreLinks [] ls h = rw (links_nil ls h) tt
  links-AreLinks (s ∷ list) ls h =
      let (link, rest, made, more, e) = links-cons s list ls h in
      rw e (made, links-AreLinks list rest more)

  formatted_lem :
      (format : FormatReq) (expires_at e : Option DateTime) (list : List Served)
      (ls : List (List Text))
      → formatted t format expires_at list ≡ text e ls
      → (links t list ≡ some ls) × (e ≡ expires_at)
  unfolding formatted
  formatted_lem txt expires_at e list ls h = as_text_lem expires_at e (links t list) ls h
  formatted_lem base64 expires_at e list ls h = as_text_lem expires_at e (links t list) ls h
  formatted_lem clash expires_at e list ls h = ground (arith, h)

  reply_with_lem :
      (format : FormatReq) (expires_at e : Option DateTime) (list : List Served)
      (ls : List (List Text))
      → reply_with t format expires_at list ≡ text e ls
      → (links t list ≡ some ls) × (e ≡ expires_at)
  unfolding reply_with
  reply_with_lem format expires_at e [] ls h = ground (arith, h)
  reply_with_lem format expires_at e (s ∷ list) ls h =
      formatted_lem format expires_at e (s ∷ list) ls h

  -- A text of links comes only for a stored and active subscription, with its expiry, and has one
  -- link for each inbound that is served, in their order. Each of these is the inbound of a node of
  -- the requested environment for a connection of the memory that is live, of the subscription and
  -- of the requested environment and protocols.
  pub subscription_link_handler_lem :
      (now : DateTime) (req : SubscriptionInfoRequest) (w : World) (e : Option DateTime)
      (ls : List (List Text))
      → subscription_link_handler t now req w ≡ text e ls
      → ((sub : Subscription) × (lookup req.id w.cache.subscriptions ≡ some sub)
          × (is_active now sub ≡ true)
          × (e ≡ sub.expires_at))
        × AreLinks (served req w) ls
        × All (WasOffered req w.cache.nodes w.cache.connections) (served req w)
  unfolding subscription_link_handler
  subscription_link_handler_lem now req w e ls h = elim (Bool-cases (validate req)) [
    | inr invalid ↦
        let r : bad ≡ text e ls = rw (subscription_link_handler, invalid) at h in
        absurd (ground (arith, r))
    | inl valid ↦ elim (Option-cases (lookup req.id w.cache.subscriptions)) [
      | inl unknown ↦
          let r : missing ≡ text e ls = rw (subscription_link_handler, valid, unknown) at h in
          absurd (ground (arith, r))
      | inr (sub, known) ↦ elim (Bool-cases (is_active now sub)) [
        | inr inactive ↦
            let r : expired ≡ text e ls =
              rw (subscription_link_handler, valid, known, inactive) at h in
            absurd (ground (arith, r))
        | inl active ↦
            let (made, same) =
              reply_with_lem req.format sub.expires_at e (served req w) ls
                (rw (subscription_link_handler, valid, known, active) at h) in
            (
              (sub, known, active, same),
              links-AreLinks (served req w) ls made,
              served-WasOffered req w,
            )
      ]
    ]
  ]

  links-shadowsocks : (list : List Served) → any is_shadowsocks list ≡ true → links t list ≡ none
  unfolding links create_link link_of
  links-shadowsocks [] h = ground (arith, h)
  links-shadowsocks (s ∷ list) h = elim (Bool-cases (is_shadowsocks s)) [
    | inl here ↦
        let e : s.inbound.tag ≡ shadowsocks = (tag_eqb_iff s.inbound.tag shadowsocks).0 here in
        let broken : create_link t s.inbound s.conn_id s.conn s.address s.label ≡ none =
          rw (create_link, e) refl in
        rw (links, broken) refl
    | inr there ↦
        let more : links t list ≡ none = links-shadowsocks list (ground (arith, there, h)) in
        elim (Option-cases (create_link t s.inbound s.conn_id s.conn s.address s.label)) [
          | inl broken ↦ rw (links, broken) refl
          | inr (link, made) ↦ rw (links, made, more) refl
        ]
  ]

  reply_with_shadowsocks :
      (format : FormatReq) (expires_at : Option DateTime) (list : List Served)
      → format ≢ clash
      → any is_shadowsocks list ≡ true
      → reply_with t format expires_at list ≡ failed
  unfolding reply_with formatted
  reply_with_shadowsocks format expires_at [] f h = ground (arith, h)
  reply_with_shadowsocks txt expires_at (s ∷ list) f h =
      ap (as_text expires_at) (links-shadowsocks (s ∷ list) h)
  reply_with_shadowsocks base64 expires_at (s ∷ list) f h =
      ap (as_text expires_at) (links-shadowsocks (s ∷ list) h)
  reply_with_shadowsocks clash expires_at (s ∷ list) f h = absurd (f refl)

  -- One inbound of Shadowsocks, for which there is no link, makes the whole text of an active
  -- subscription an error, whatever its other inbounds are.
  pub shadowsocks_fails :
      (now : DateTime) (req : SubscriptionInfoRequest) (w : World) (sub : Subscription)
      → validate req ≡ true
      → req.format ≢ clash
      → lookup req.id w.cache.subscriptions ≡ some sub
      → is_active now sub ≡ true
      → any is_shadowsocks (served req w) ≡ true
      → subscription_link_handler t now req w ≡ failed
  unfolding subscription_link_handler formatted
  shadowsocks_fails now req w sub valid f known active ss =
      rw (subscription_link_handler, valid, known, active)
        (reply_with_shadowsocks req.format sub.expires_at (served req w) f ss)
