-- ===== src/Nodes/Registry.antt =====
-- The store of the nodes as a table by environment and uuid.
use pony.Prelude.{
  ◌≡◌, refl, sym, ◌∙◌, ◌&&◌, List, [], ◌∷◌, Option, none, some, arith, nat_eqb, nat_eqb_iff, nat_eq,
  if◌then◌else◌, find, Bool-cases, Option-cases, inl, inr, ◌==◌,
}
use pony.Prelude.Map.{
  lookup, insert, adjust, lookup-adjust_self, lookup-adjust_ne, get_or_default,
  get_or_default-insert,
}
use pony.Subscription.{Uuid}
use pony.Env.{Env, env_eq, env_eqb_iff}
use pony.Node.{Node, node_eqb, update_inbound}
use pony.Connections.{Status, already_exist, updated, ok}
use pony.Tag.{ProtoTag}
use pony.Inbound.{Inbound}
use pony.Nodes.{
  Nodes, has_uuid, add_to, add, get, replace_first, put, UpdateResult, done, inbound_not_found,
  update_node,
}

-- What a table makes of a node: a new row, the old one, or the new one in its place.
abbrev pub row : Node → Option Node → Node × Status
row new none = (new, ok new.uuid)
row new (some old) =
    if node_eqb old new then (old, already_exist new.uuid) else (new, updated new.uuid)

add_to_lem :
    (new : Node) (nodes : List Node) (uuid : Uuid)
    → (find (has_uuid uuid) (add_to new nodes).0 ≡ (
        if nat_eqb new.uuid uuid
        then some (row new (find (has_uuid new.uuid) nodes)).0
        else find (has_uuid uuid) nodes))
      × ((add_to new nodes).1 ≡ (row new (find (has_uuid new.uuid) nodes)).1)
unfolding add_to
add_to_lem new [] uuid = ground (arith, nat_eqb_iff new.uuid uuid)
add_to_lem new (n ∷ nodes) uuid = ground (
  arith,
  add_to_lem new nodes uuid,
  nat_eqb_iff n.uuid new.uuid,
  nat_eqb_iff n.uuid uuid,
  nat_eqb_iff new.uuid uuid,
)

-- The nodes of an environment.
abbrev pub bucket : Env → Nodes → List Node
bucket env m = get_or_default env [] m

pub get_lem :
    (env : Env) (uuid : Uuid) (m : Nodes) → get env uuid m ≡ find (has_uuid uuid) (bucket env m)
unfolding get
get_lem env uuid m = elim (Option-cases (lookup env m)) [
  | inl missing ↦ rw (get, get_or_default, missing) refl
  | inr (nodes, known) ↦ rw (get, get_or_default, known) refl
]

pub add_lem :
    (new : Node) (m : Nodes)
    → (add new m).0 ≡ insert new.env (add_to new (bucket new.env m)).0 m
      × ((add new m).1 ≡ (add_to new (bucket new.env m)).1)
unfolding add add_to
add_lem new m = elim (Option-cases (lookup new.env m)) [
  | inl missing ↦ rw (add, get_or_default, missing) (refl, refl)
  | inr (nodes, known) ↦ rw (add, get_or_default, known) (refl, refl)
]

-- The store implements a table with a row for every environment and uuid: `add` has the outcome of
-- the table, changes the row of the new node as the table does, and no other row.
pub get-add :
    (new : Node) (m : Nodes) (env : Env) (uuid : Uuid)
    → (get env uuid (add new m).0 ≡ (
        if new.env == env && nat_eqb new.uuid uuid
        then some (row new (get new.env new.uuid m)).0
        else get env uuid m))
      × ((add new m).1 ≡ (row new (get new.env new.uuid m)).1)
get-add new m env uuid =
    rw ((add_lem new m).0, (add_lem new m).1, get_lem, get_lem, get_lem, get_or_default-insert)
      (elim (Bool-cases (new.env == env)) [
        | inl same ↦
            let e : env ≡ new.env = sym ((env_eqb_iff new.env env).0 same) in
            rw (same, e) (add_to_lem new (bucket new.env m) uuid)
        | inr other ↦ rw other (refl, (add_to_lem new (bucket new.env m) uuid).1)
      ])

find-replace_first :
    (uuid id : Uuid) (n n' : Node) (nodes : List Node)
    → find (has_uuid uuid) nodes ≡ some n
    → n'.uuid ≡ uuid
    → find (has_uuid id) (replace_first uuid n' nodes)
      ≡ (if nat_eqb uuid id then some n' else find (has_uuid id) nodes)
find-replace_first uuid id n n' [] h e = ground arith
find-replace_first uuid id n n' (x ∷ nodes) h e = ground (
  arith,
  find-replace_first uuid id n n' nodes,
  nat_eqb_iff x.uuid uuid,
  nat_eqb_iff n'.uuid id,
  nat_eqb_iff x.uuid id,
  nat_eqb_iff uuid id,
)

bucket-adjust :
    (env k : Env) (f : List Node → List Node) (m : Nodes) (nodes : List Node)
    → lookup k m ≡ some nodes
    → bucket env (adjust k f m) ≡ (if k == env then f (bucket k m) else bucket env m)
bucket-adjust env k f m nodes h = elim (Bool-cases (k == env)) [
  | inl same ↦
      let e : env ≡ k = sym ((env_eqb_iff k env).0 same) in
      rw (same, e, get_or_default, lookup-adjust_self k f m nodes h, get_or_default, h) refl
  | inr other ↦ rw (get_or_default, lookup-adjust_ne k env f m other, other) refl
]

-- `*get_mut(env, uuid) = n` changes the row of a node that is there, and no other row.
pub get-put :
    (env k : Env) (uuid id : Uuid) (n n' : Node) (m : Nodes)
    → get k uuid m ≡ some n
    → n'.uuid ≡ uuid
    → get env id (put k uuid n' m) ≡ (if k == env && nat_eqb uuid id then some n' else get env id m)
unfolding put get
get-put env k uuid id n n' m h e = elim (Option-cases (lookup k m)) [
  | inl missing ↦ absurd (let bad : none ≡ some n = rw (get, missing) at h in ground (arith, bad))
  | inr (nodes, known) ↦
      let found : find (has_uuid uuid) (bucket k m) ≡ some n = rw (get_lem k uuid m) at h in
      rw (get_lem, put, bucket-adjust env k (replace_first uuid n') m nodes known, get_lem)
        (elim (Bool-cases (k == env)) [
          | inl same ↦
              let e' : env ≡ k = sym ((env_eqb_iff k env).0 same) in
              rw (same, e') (find-replace_first uuid id n n' (bucket k m) found e)
          | inr other ↦ rw other refl
        ])
]

find-uuid :
    (uuid : Uuid) (n : Node) (nodes : List Node)
    → find (has_uuid uuid) nodes ≡ some n
    → n.uuid ≡ uuid
find-uuid uuid n [] h = ground arith
find-uuid uuid n (x ∷ nodes) h = ground (arith, nat_eqb_iff x.uuid uuid, find-uuid uuid n nodes)

pub get-uuid :
    (env : Env) (uuid : Uuid) (n : Node) (m : Nodes) → get env uuid m ≡ some n → n.uuid ≡ uuid
get-uuid env uuid n m h = find-uuid uuid n (bucket env m) (rw (get_lem env uuid m) at h)

-- The row after an update of an inbound of its node.
abbrev pub updated_row : (Inbound → Inbound) → ProtoTag → Option Node → Option Node
updated_row f tag none = none
updated_row f tag (some n) = elim (update_inbound tag f n) [ some n' ↦ some n' | none ↦ some n ]

abbrev pub outcome : (Inbound → Inbound) → ProtoTag → UpdateResult → Option Node → UpdateResult
outcome f tag missing none = missing
outcome f tag missing (some n) = elim (update_inbound tag f n) [
  | some n' ↦ done
  | none ↦ inbound_not_found
]

update_inbound-uuid :
    (tag : ProtoTag) (f : Inbound → Inbound) (n n' : Node)
    → update_inbound tag f n ≡ some n'
    → n'.uuid ≡ n.uuid
unfolding update_inbound
update_inbound-uuid tag f n n' h = ground (arith, h)

own_row :
    (env k : Env) (uuid id : Uuid) (r : Option Node) (m : Nodes)
    → get k uuid m ≡ r
    → get env id m ≡ (if k == env && nat_eqb uuid id then r else get env id m)
own_row env k uuid id r m h = elim (Bool-cases (k == env)) [
  | inr other ↦ rw other refl
  | inl same ↦ elim (Bool-cases (nat_eqb uuid id)) [
    | inr differs ↦ rw (same, differs) refl
    | inl also ↦
        let e : env ≡ k = sym ((env_eqb_iff k env).0 same) in
        let i : id ≡ uuid = sym ((nat_eqb_iff uuid id).0 also) in rw (same, also, e, i) h
  ]
]

-- An update of a counter of an inbound changes the row of its node only, and only if the node has
-- the inbound; it tells a missing node from a missing inbound.
pub get-update_node :
    (f : Inbound → Inbound) (tag : ProtoTag) (env k : Env) (uuid id : Uuid) (missing : UpdateResult)
    (m : Nodes)
    → (get env id (update_node f tag k uuid missing m).0
        ≡ (if k == env && nat_eqb uuid id then updated_row f tag (get k uuid m) else get env id m))
      × ((update_node f tag k uuid missing m).1 ≡ outcome f tag missing (get k uuid m))
get-update_node f tag env k uuid id missing m = elim (Option-cases (get k uuid m)) [
  | inl gone ↦ rw (update_node, gone) (own_row env k uuid id none m gone, refl)
  | inr (n, held) ↦ elim (Option-cases (update_inbound tag f n)) [
    | inl absent ↦
        rw (update_node, updated_row, outcome, held, absent)
          (own_row env k uuid id (some n) m held, refl)
    | inr (n', changed) ↦
        rw (update_node, updated_row, outcome, held, changed)
          (
            get-put env k uuid id n n' m held
                (update_inbound-uuid tag f n n' changed ∙ get-uuid k uuid n m held),
            refl,
          )
  ]
]
