-- ===== src/Nodes/Filing.antt =====
-- The store of the nodes keeps a node in the list of its environment, and once only.
use pony.Prelude.{
  ◌≡◌, ◌⊎◌, refl, sym, ◌∙◌, true, false, List, [], ◌∷◌, ◌++◌, none, some, arith, nat_eqb,
  nat_eqb_iff, nat_eq, find, All, Bool-cases, Option-cases, inl, inr, ◌==◌,
}
use pony.Prelude.Map.{
  lookup, adjust, HasUniqueKeys, insert-HasUniqueKeys, adjust-HasUniqueKeys, insert-All_entries,
  lookup-All, get_or_default,
}
use pony.Subscription.{Uuid}
use pony.Env.{Env, env_eq, env_eqb_iff}
use pony.Node.{Node, node_eqb, values}
use pony.Nodes.{Nodes, has_uuid, add_to, add, get, flatten, get_by_id, replace_first, put}
use pony.Nodes.Registry.{bucket, add_lem, get_lem}

abbrev pub HasUniqueUuids : List Node → Type 0
HasUniqueUuids [] = Unit
HasUniqueUuids (n ∷ nodes) = (find (has_uuid n.uuid) nodes ≡ none) × HasUniqueUuids nodes

abbrev pub IsBucket : Env × List Node → Type 0
IsBucket b = All (λ n. n.env ≡ b.0) b.1 × HasUniqueUuids b.1

-- An environment has one list, all nodes of which are of the environment and have different uuids.
abbrev pub IsFiled : Nodes → Type 0
IsFiled m = HasUniqueKeys m × All IsBucket m

add_to-find-none :
    (new : Node) (uuid : Uuid) (nodes : List Node)
    → find (has_uuid uuid) nodes ≡ none
    → nat_eqb new.uuid uuid ≡ false
    → find (has_uuid uuid) (add_to new nodes).0 ≡ none
unfolding add_to
add_to-find-none new uuid [] h e = ground arith
add_to-find-none new uuid (n ∷ nodes) h e =
    ground (arith, add_to-find-none new uuid nodes, nat_eqb_iff n.uuid new.uuid)

add_to-HasUniqueUuids :
    (new : Node) (nodes : List Node) → HasUniqueUuids nodes → HasUniqueUuids (add_to new nodes).0
unfolding add_to
add_to-HasUniqueUuids new [] u = (refl, tt)
add_to-HasUniqueUuids new (n ∷ nodes) u = elim (Bool-cases (has_uuid new.uuid n)) [
  | inl same ↦ elim (Bool-cases (node_eqb n new)) [
    | inl equal ↦ rw (same, equal) u
    | inr changed ↦
        let e : new.uuid ≡ n.uuid = sym ((nat_eqb_iff n.uuid new.uuid).0 same) in
        rw (same, changed, e) u
  ]
  | inr other ↦
      let differs : nat_eqb new.uuid n.uuid ≡ false =
        ground (arith, nat_eqb_iff n.uuid new.uuid, nat_eqb_iff new.uuid n.uuid) in
      rw other (add_to-find-none new n.uuid nodes u.0 differs, add_to-HasUniqueUuids new nodes u.1)
]

add_to-env :
    (new : Node) (nodes : List Node)
    → All (λ n. n.env ≡ new.env) nodes
    → All (λ n. n.env ≡ new.env) (add_to new nodes).0
unfolding add_to
add_to-env new [] a = (refl, tt)
add_to-env new (n ∷ nodes) a = elim (Bool-cases (has_uuid new.uuid n)) [
  | inl same ↦ elim (Bool-cases (node_eqb n new)) [
    | inl equal ↦ rw (same, equal) a
    | inr changed ↦ rw (same, changed) (refl, a.1)
  ]
  | inr other ↦ rw other (a.0, add_to-env new nodes a.1)
]

bucket-IsBucket : (env : Env) (m : Nodes) → All IsBucket m → IsBucket (env, bucket env m)
bucket-IsBucket env m a = elim (Option-cases (lookup env m)) [
  | inl missing ↦ rw (get_or_default, missing) (tt, tt)
  | inr (nodes, known) ↦ rw (get_or_default, known) (lookup-All IsBucket env nodes m known a)
]

-- `add` keeps the store filed.
pub add-IsFiled : (new : Node) (m : Nodes) → IsFiled m → IsFiled (add new m).0
add-IsFiled new m (unique, buckets) =
    let b : IsBucket (new.env, bucket new.env m) = bucket-IsBucket new.env m buckets in
    let nodes : List Node = (add_to new (bucket new.env m)).0 in
    rw (add_lem new m).0 (
      insert-HasUniqueKeys new.env nodes m unique,
      insert-All_entries IsBucket new.env nodes m
          (add_to-env new (bucket new.env m) b.0, add_to-HasUniqueUuids new (bucket new.env m) b.1)
          buckets,
    )

find-append_some :
    (uuid : Uuid) (n : Node) (xs ys : List Node)
    → find (has_uuid uuid) (xs ++ ys) ≡ some n
    → (find (has_uuid uuid) xs ≡ some n) ⊎ (find (has_uuid uuid) ys ≡ some n)
find-append_some uuid n [] ys h = inr h
find-append_some uuid n (x ∷ xs) ys h = elim (Bool-cases (has_uuid uuid x)) [
  | inl here ↦ inl (ground (arith, here, h))
  | inr there ↦ elim (find-append_some uuid n xs ys (ground (arith, there, h))) [
    | inl front ↦ inl (rw there front)
    | inr back ↦ inr back
  ]
]

find-All {κ} :
    (P : Node → Type κ) (uuid : Uuid) (n : Node) (nodes : List Node)
    → find (has_uuid uuid) nodes ≡ some n
    → All P nodes
    → P n
find-All P uuid n [] h a = absurd (ground (arith, h))
find-All P uuid n (x ∷ nodes) h a = elim (Bool-cases (has_uuid uuid x)) [
  | inl here ↦ let e : x ≡ n = ground (arith, here, h) in rw (sym e) a.0
  | inr there ↦ find-All P uuid n nodes (ground (arith, there, h)) a.1
]

flatten-get :
    (uuid : Uuid) (n : Node) (m : Nodes)
    → IsFiled m
    → find (has_uuid uuid) (flatten (values m)) ≡ some n
    → find (has_uuid uuid) (bucket n.env m) ≡ some n
unfolding flatten lookup
flatten-get uuid n [] f h = absurd (ground (arith, h))
flatten-get uuid n ((env, nodes) ∷ m) (u, b) h =
    elim (find-append_some uuid n nodes (flatten (values m)) h) [
      | inl here ↦
          let e : n.env ≡ env = find-All (λ x. x.env ≡ env) uuid n nodes here b.0.0 in
          let same : (env == n.env) ≡ true = (env_eqb_iff env n.env).1 (sym e) in
          rw (get_or_default, lookup, same) here
      | inr later ↦
          let rest : find (has_uuid uuid) (bucket n.env m) ≡ some n =
            flatten-get uuid n m (u.1, b.1) later in
          elim (Bool-cases (env == n.env)) [
            | inr other ↦ rw (get_or_default, lookup, other) rest
            | inl same ↦
                let e : n.env ≡ env = sym ((env_eqb_iff env n.env).0 same) in
                let gone : lookup n.env m ≡ none = rw e u.0 in
                let bad : none ≡ some n = rw (get_or_default, gone) at rest in
                absurd (ground (arith, bad))
          ]
    ]

-- In a filed store the node that `get_by_id` returns is the one that `get` returns for its
-- environment and uuid.
pub get_by_id-get :
    (uuid : Uuid) (n : Node) (m : Nodes)
    → IsFiled m
    → get_by_id uuid m ≡ some n
    → get n.env uuid m ≡ some n
unfolding get_by_id
get_by_id-get uuid n m f h = rw (get_lem n.env uuid m) (flatten-get uuid n m f h)

replace_first-find-none :
    (uuid id : Uuid) (n : Node) (nodes : List Node)
    → n.uuid ≡ uuid
    → find (has_uuid id) nodes ≡ none
    → nat_eqb uuid id ≡ false
    → find (has_uuid id) (replace_first uuid n nodes) ≡ none
replace_first-find-none uuid id n [] e h d = refl
replace_first-find-none uuid id n (x ∷ nodes) e h d =
    ground (
      arith,
      replace_first-find-none uuid id n nodes,
      nat_eqb_iff x.uuid uuid,
      nat_eqb_iff n.uuid id,
    )

replace_first-HasUniqueUuids :
    (uuid : Uuid) (n : Node) (nodes : List Node)
    → n.uuid ≡ uuid
    → HasUniqueUuids nodes
    → HasUniqueUuids (replace_first uuid n nodes)
replace_first-HasUniqueUuids uuid n [] e u = tt
replace_first-HasUniqueUuids uuid n (x ∷ nodes) e u = elim (Bool-cases (has_uuid uuid x)) [
  | inl same ↦
      let i : n.uuid ≡ x.uuid = ground (arith, nat_eqb_iff x.uuid uuid, same, e) in
      let fresh : find (has_uuid n.uuid) nodes ≡ none = rw i u.0 in rw same (fresh, u.1)
  | inr other ↦
      let differs : nat_eqb uuid x.uuid ≡ false =
        ground (arith, nat_eqb_iff uuid x.uuid, nat_eqb_iff x.uuid uuid) in
      rw other (
        replace_first-find-none uuid x.uuid n nodes e u.0 differs,
        replace_first-HasUniqueUuids uuid n nodes e u.1,
      )
]

replace_first-env :
    (uuid : Uuid) (n : Node) (env : Env) (nodes : List Node)
    → n.env ≡ env
    → All (λ x. x.env ≡ env) nodes
    → All (λ x. x.env ≡ env) (replace_first uuid n nodes)
replace_first-env uuid n env [] e a = tt
replace_first-env uuid n env (x ∷ nodes) e a = elim (Bool-cases (has_uuid uuid x)) [
  | inl same ↦ rw same (e, a.1)
  | inr other ↦ rw other (a.0, replace_first-env uuid n env nodes e a.1)
]

adjust-All_buckets :
    (uuid : Uuid) (n : Node) (env : Env) (m : Nodes)
    → n.uuid ≡ uuid
    → n.env ≡ env
    → All IsBucket m
    → All IsBucket (adjust env (replace_first uuid n) m)
unfolding adjust
adjust-All_buckets uuid n env [] e v a = tt
adjust-All_buckets uuid n env ((k, nodes) ∷ m) e v a = elim (Bool-cases (k == env)) [
  | inl same ↦
      let here : n.env ≡ k = v ∙ sym ((env_eqb_iff k env).0 same) in
      rw same (
        (
          replace_first-env uuid n k nodes here a.0.0,
          replace_first-HasUniqueUuids uuid n nodes e a.0.1,
        ),
        a.1,
      )
  | inr other ↦ rw other (a.0, adjust-All_buckets uuid n env m e v a.1)
]

-- A node that replaces one of its own environment and uuid keeps the store filed.
pub put-IsFiled :
    (env : Env) (uuid : Uuid) (n : Node) (m : Nodes)
    → n.uuid ≡ uuid
    → n.env ≡ env
    → IsFiled m
    → IsFiled (put env uuid n m)
unfolding put
put-IsFiled env uuid n m e v (unique, buckets) = (
  adjust-HasUniqueKeys env (replace_first uuid n) m unique,
  adjust-All_buckets uuid n env m e v buckets,
)
