-- ===== src/Links/Completeness.antt =====
-- Nothing that a request wants is missing in the links.
use pony.Prelude.{
  ◌≡◌, refl, sym, inl, inr, true, List, [], ◌∷◌, ◌++◌, Option, some, arith, nat_eq, option_eq, IsIn,
  IsIn-append_left, IsIn-append_right, Option-cases, Bool-cases,
}
use mathlib.Core.Path.{subst}
use pony.Prelude.Map.{lookup}
use pony.Prelude.Text.{Text}
use pony.Env.{env_eq, env_eqb_iff}
use pony.Tag.{tag_eq}
use pony.Subscription.{Uuid, DateTime}
use pony.Connection.{proto_tag, Conn}
use pony.Inbound.{Inbound}
use pony.Inbound.Link.{LinkText, create_link}
use pony.Node.{Node}
use pony.Nodes.{Nodes, get_by_env}
use pony.Links.{
  SubscriptionInfoRequest, Served, at_nodes, is_wanted, inbounds_list, served, text,
  subscription_link_handler,
}
use pony.Links.Selection.{
  IsWanted, IsIn-get_by_subscription_id, served_at, IsAt, IsOffered, AreLinks,
  subscription_link_handler_lem,
}
use pony.Sync.World.{World}

is_wanted-IsWanted :
    (req : SubscriptionInfoRequest) (conn : Conn) → IsWanted req conn → is_wanted req conn ≡ true
unfolding is_wanted
is_wanted-IsWanted req conn (owned, live, here, tagged) =
    ground (arith, live, tagged, (env_eqb_iff conn.env req.env).1 here)

at_nodes-cons :
    (conn_id : Uuid) (conn : Conn) (node : Node) (i : Inbound) (nodes : List Node)
    → lookup (proto_tag conn.proto) node.inbounds ≡ some i
    → at_nodes conn_id conn (node ∷ nodes)
      ≡ served_at conn_id conn node i ∷ at_nodes conn_id conn nodes
unfolding at_nodes
at_nodes-cons conn_id conn node i nodes found = rw (at_nodes, found) refl

inbounds_list-cons :
    (req : SubscriptionInfoRequest) (nodes : Nodes) (conn_id : Uuid) (conn : Conn) (ns : List Node)
    (conns : List (Uuid × Conn))
    → is_wanted req conn ≡ true
    → get_by_env conn.env nodes ≡ some ns
    → inbounds_list req nodes ((conn_id, conn) ∷ conns)
      ≡ at_nodes conn_id conn ns ++ inbounds_list req nodes conns
unfolding inbounds_list
inbounds_list-cons req nodes conn_id conn ns conns wanted there =
    rw (inbounds_list, wanted, there) refl

IsIn-at_nodes :
    (conn_id : Uuid) (conn : Conn) (node : Node) (i : Inbound) (nodes : List Node)
    → IsIn node nodes
    → lookup (proto_tag conn.proto) node.inbounds ≡ some i
    → IsIn (served_at conn_id conn node i) (at_nodes conn_id conn nodes)
unfolding at_nodes
IsIn-at_nodes conn_id conn node i [] h found = absurd h
IsIn-at_nodes conn_id conn node i (n ∷ nodes) (inl here) found =
    rw (here, at_nodes-cons conn_id conn node i nodes found) (inl refl)
IsIn-at_nodes conn_id conn node i (n ∷ nodes) (inr there) found =
    let rest = IsIn-at_nodes conn_id conn node i nodes there found in
    elim (Option-cases (lookup (proto_tag conn.proto) n.inbounds)) [
      | inl absent ↦ rw (at_nodes, absent) rest
      | inr (j, other) ↦ rw (at_nodes, other) (inr rest)
    ]

IsIn-first :
    (req : SubscriptionInfoRequest) (nodes : Nodes) (conn_id : Uuid) (conn : Conn) (node : Node)
    (i : Inbound) (ns : List Node) (conns : List (Uuid × Conn))
    → IsWanted req conn
    → get_by_env conn.env nodes ≡ some ns
    → IsIn node ns
    → lookup (proto_tag conn.proto) node.inbounds ≡ some i
    → IsIn (served_at conn_id conn node i) (inbounds_list req nodes ((conn_id, conn) ∷ conns))
IsIn-first req nodes conn_id conn node i ns conns wanted there held found =
    rw
      (inbounds_list-cons req nodes conn_id conn ns conns (is_wanted-IsWanted req conn wanted)
        there)
      (IsIn-append_left (served_at conn_id conn node i) (at_nodes conn_id conn ns)
        (inbounds_list req nodes conns) (IsIn-at_nodes conn_id conn node i ns held found))

IsIn-inbounds_list :
    (req : SubscriptionInfoRequest) (nodes : Nodes) (conn_id : Uuid) (conn : Conn) (node : Node)
    (i : Inbound) (conns : List (Uuid × Conn))
    → IsIn (conn_id, conn) conns
    → IsWanted req conn
    → IsAt nodes conn node i
    → IsIn (served_at conn_id conn node i) (inbounds_list req nodes conns)
unfolding inbounds_list
IsIn-inbounds_list req nodes conn_id conn node i [] h wanted at = absurd h
IsIn-inbounds_list req nodes conn_id conn node i (e ∷ conns) (inl here) wanted
      ((ns, there, held), found) =
    subst (λ z. IsIn (served_at conn_id conn node i) (inbounds_list req nodes (z ∷ conns)))
      (sym here) (IsIn-first req nodes conn_id conn node i ns conns wanted there held found)
IsIn-inbounds_list req nodes conn_id conn node i (e ∷ conns) (inr there) wanted at =
    let rest = IsIn-inbounds_list req nodes conn_id conn node i conns there wanted at in
    elim (Bool-cases (is_wanted req e.1)) [
      | inr unwanted ↦ rw (inbounds_list, unwanted) rest
      | inl asked ↦ elim (Option-cases (get_by_env e.1.env nodes)) [
        | inl nowhere ↦ rw (inbounds_list, asked, nowhere) rest
        | inr (ms, found) ↦
            rw (inbounds_list, asked, found)
              (IsIn-append_right (served_at conn_id conn node i) (at_nodes e.0 e.1 ms)
                (inbounds_list req nodes conns) rest)
      ]
    ]

-- An inbound that is offered is served.
IsIn-served :
    (req : SubscriptionInfoRequest) (w : World) (conn_id : Uuid) (conn : Conn) (node : Node)
    (i : Inbound)
    → IsOffered req w.cache.nodes w.cache.connections conn_id conn node i
    → IsIn (served_at conn_id conn node i) (served req w)
unfolding served
IsIn-served req w conn_id conn node i (stored, wanted, at) =
    let (conns, found, kept) =
      IsIn-get_by_subscription_id req.id w.cache.connections (conn_id, conn) stored wanted.0 in
    rw (served, found)
      (IsIn-inbounds_list req w.cache.nodes conn_id conn node i conns kept wanted at)

module _ (t : LinkText) where
  AreLinks-IsIn :
      (s : Served) (list : List Served) (ls : List (List Text))
      → IsIn s list
      → AreLinks t list ls
      → (link : List Text) × (create_link t s.inbound s.conn_id s.conn s.address s.label
          ≡ some link)
        × IsIn link ls
  AreLinks-IsIn s [] ls h are = absurd h
  AreLinks-IsIn s (r ∷ list) [] h are = absurd are
  AreLinks-IsIn s (r ∷ list) (link ∷ ls) (inl here) are = (link, rw (← here) are.0, inl refl)
  AreLinks-IsIn s (r ∷ list) (link ∷ ls) (inr there) are =
      let (l, made, held) = AreLinks-IsIn s list ls there are.1 in (l, made, inr held)

  -- A text of links has the link of every inbound that is offered: every inbound for the protocol
  -- of a live connection of the memory, which is of the subscription and of the requested
  -- environment and protocols, at a node of its environment.
  pub subscription_link_handler_complete :
      (now : DateTime) (req : SubscriptionInfoRequest) (w : World) (e : Option DateTime)
      (ls : List (List Text)) (conn_id : Uuid) (conn : Conn) (node : Node) (i : Inbound)
      → subscription_link_handler t now req w ≡ text e ls
      → IsOffered req w.cache.nodes w.cache.connections conn_id conn node i
      → (link : List Text) × (create_link t i conn_id conn node.address node.label ≡ some link)
        × IsIn link ls
  subscription_link_handler_complete now req w e ls conn_id conn node i h offered =
      AreLinks-IsIn (served_at conn_id conn node i) (served req w) ls
        (IsIn-served req w conn_id conn node i offered)
        (subscription_link_handler_lem t now req w e ls h).1
