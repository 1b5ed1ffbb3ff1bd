-- ===== src/Database/NodeTables/Stored.antt =====
-- A node that is written to the tables, and read back.
use pony.Prelude.{
  ℕ, ◌<◌, ◌≡◌, refl, ap, ◌∙◌, false, [], Option, none, some, arith, All, any, nat_eq, nat_eqb,
  Bool-cases, Option-cases, inl, inr, ==_refl,
}
use pony.Prelude.Map.{
  Map, lookup, insert, lookup-insert, get_or_default, get_or_default-insert, HasUniqueKeys,
  lookup-All,
}
use pony.Prelude.Text.{Unicode}
use pony.Env.Reading.{IsLower}
use pony.Database.Rows.{from_text-as_str}
use pony.Wireguard.{AddrText}
use pony.Wireguard.Parsing.{RoundTrips}
use pony.Subscription.{Uuid, DateTime}
use pony.Tag.{ProtoTag, tag_eq}
use pony.Node.{Node, NodeType, values}
use pony.Database.Times.{Columns}
use pony.Database.NodeTables.{
  Json, InboundColumns, NodeColumns, NodeTables, option_map, as_i32, as_usize, columns_of_inbound,
  columns_of_node, upsert_columns, upsert_node, upsert_inbounds, inbound_of_row, read_inbounds,
  node_of_rows, stored_node, is_same_node,
}
use pony.Database.NodeTables.Inbounds.{
  IsLawful, IsStorable, or_else, inbound_of_row-columns_of_inbound, option_map-or_else,
  upsert_inbounds_lem, upsert_inbounds-HasUniqueKeys, read_inbounds_lem,
}

-- The number of cores fits, the environment is in lower case, and every inbound is filed under its
-- tag and can be stored.
pub record IsStorableNode (u : Unicode) (node : Node) : Type 0 where
  pub cores : node.cores < 2147483648
  pub env : IsLower u node.env
  pub unique : HasUniqueKeys node.inbounds
  pub filed : All (λ e. e.0 ≡ e.1.tag) node.inbounds
  pub storable : All (λ e. IsStorable e.1) node.inbounds

as_usize-as_i32 : (n : ℕ) → n < 2147483648 → as_usize (as_i32 n) ≡ n
as_usize-as_i32 n h = ground arith

-- The creation time and the type of the row that was there, or those of a new row.
abbrev pub created_at_of : Columns → Node → Option NodeColumns → DateTime
created_at_of cs node none = cs.timestamp node.created_at
created_at_of cs node (some old) = old.created_at

abbrev pub type_of : NodeType → Option NodeColumns → NodeType
type_of default_type none = default_type
type_of default_type (some old) = old.node_type

or_else-none : {A : Type 0} (o : Option A) → or_else o none ≡ o
or_else-none none = refl
or_else-none (some a) = refl

module _ {J : Type 0} (cs : Columns) (t : AddrText) (json : Json J) (u : Unicode) where
  -- The columns of the node, whatever the inbounds.
  node_of_rows_lem :
      (default_type : NodeType) (node : Node) (old : Option NodeColumns)
      (rows : Map ProtoTag (InboundColumns J))
      → node.cores < 2147483648
      → IsLower u node.env
      → node_of_rows cs t json u (upsert_columns cs t json default_type node old) rows
        ≡ some (record node {
          created_at = created_at_of cs node old;
          modified_at = cs.timestamp node.modified_at;
          type = type_of default_type old;
          inbounds = read_inbounds cs t json rows [];
        })
  unfolding node_of_rows upsert_columns columns_of_node
  node_of_rows_lem default_type node none rows h lower =
      rw (node_of_rows, from_text-as_str u node.env lower, as_usize-as_i32 node.cores h) refl
  node_of_rows_lem default_type node (some old) rows h lower =
      rw (node_of_rows, from_text-as_str u node.env lower, as_usize-as_i32 node.cores h) refl

  -- An inbound of the node is read back from the columns that were made of it.
  inbound_lem :
      (tag : ProtoTag) (node : Node)
      → IsLawful json
      → RoundTrips t
      → IsStorableNode u node
      → option_map
          (inbound_of_row cs t json tag)
          (option_map (columns_of_inbound cs t json) (lookup tag node.inbounds))
        ≡ lookup tag node.inbounds
  inbound_lem tag node l r k = elim (Option-cases (lookup tag node.inbounds)) [
    | inl absent ↦ rw absent refl
    | inr (i, found) ↦
        let filed : tag ≡ i.tag =
          lookup-All (λ e. e.0 ≡ e.1.tag) tag i node.inbounds found k.filed in
        let whole : IsStorable i =
          lookup-All (λ e. IsStorable e.1) tag i node.inbounds found k.storable in
        rw (found, filed) (ap some (inbound_of_row-columns_of_inbound cs t json l r i whole))
  ]

  -- The tables after an upsert that goes through.
  abbrev upserted : NodeType → Uuid → Node → (NodeTables J) → (NodeTables J)
  upserted default_type id node tables = record {
    nodes =
        insert id (upsert_columns cs t json default_type node (lookup id tables.nodes))
          tables.nodes;
    inbounds =
        insert id
          (upsert_inbounds cs t json (values node.inbounds) (get_or_default id [] tables.inbounds))
          tables.inbounds;
  }

  upsert_node_lem :
      (default_type : NodeType) (id : Uuid) (node : Node) (tables tables' : (NodeTables J))
      → upsert_node cs t json default_type id node tables ≡ some tables'
      → upserted default_type id node tables ≡ tables'
  unfolding upsert_node
  upsert_node_lem default_type id node tables tables' h =
      elim (Bool-cases (any (is_same_node cs t json id node) tables.nodes)) [
        | inl clash ↦
            let bad : none ≡ some tables' = rw (upsert_node, clash) at h in
            absurd (ground (arith, bad))
        | inr free ↦
            let run : some (upserted default_type id node tables) ≡ some tables' =
              rw (upsert_node, free) at h in
            ground (arith, run)
      ]

  inbounds_lem :
      (tag : ProtoTag) (node : Node) (rows : Map ProtoTag (InboundColumns J))
      → IsLawful json
      → RoundTrips t
      → IsStorableNode u node
      → HasUniqueKeys rows
      → lookup tag
          (read_inbounds cs t json (upsert_inbounds cs t json (values node.inbounds) rows) [])
        ≡ or_else
            (lookup tag node.inbounds)
            (option_map (inbound_of_row cs t json tag) (lookup tag rows))
  unfolding lookup
  inbounds_lem tag node rows l r k u' =
      read_inbounds_lem cs t json tag (upsert_inbounds cs t json (values node.inbounds) rows) []
        (upsert_inbounds-HasUniqueKeys cs t json (values node.inbounds) rows u')
      ∙ or_else-none (
          option_map (inbound_of_row cs t json tag)
            (lookup tag (upsert_inbounds cs t json (values node.inbounds) rows)))
      ∙ ap (option_map (inbound_of_row cs t json tag))
          (upsert_inbounds_lem cs t json tag node.inbounds rows k.unique k.filed)
      ∙ option_map-or_else cs t json (inbound_of_row cs t json tag)
          (option_map (columns_of_inbound cs t json) (lookup tag node.inbounds)) (lookup tag rows)
      ∙ ap (λ o. or_else o (option_map (inbound_of_row cs t json tag) (lookup tag rows)))
          (inbound_lem tag node l r k)

  -- After an upsert the tables hold under the id the node, with the type and the creation time of
  -- the row that was there, or the default type if there was none, its times as the columns keep
  -- them; its inbounds are the node's and, for the other tags, those that were there. Nothing else
  -- changes.
  pub stored_node-upsert_node :
      IsLawful json
      → RoundTrips t
      → (default_type : NodeType) (id : Uuid) (node : Node) (tables tables' : (NodeTables J))
      → IsStorableNode u node
      → HasUniqueKeys (get_or_default id [] tables.inbounds)
      → upsert_node cs t json default_type id node tables ≡ some tables'
      → ((n : Node) × (stored_node cs t json u id tables' ≡ some n)
          × (n ≡ record node {
            created_at = created_at_of cs node (lookup id tables.nodes);
            modified_at = cs.timestamp node.modified_at;
            type = type_of default_type (lookup id tables.nodes);
            inbounds = n.inbounds;
          })
          × ((tag : ProtoTag)
              → lookup tag n.inbounds
                ≡ or_else (lookup tag node.inbounds) (
                    option_map
                      (inbound_of_row cs t json tag)
                      (lookup tag (get_or_default id [] tables.inbounds)))))
        × ((j : Uuid)
            → nat_eqb id j ≡ false
            → stored_node cs t json u j tables' ≡ stored_node cs t json u j tables)
  unfolding stored_node
  stored_node-upsert_node l r default_type id node tables tables' k u' h =
      let old : Map ProtoTag (InboundColumns J) = get_or_default id [] tables.inbounds in
      let rows : Map ProtoTag (InboundColumns J) =
        upsert_inbounds cs t json (values node.inbounds) old in
      let row : NodeColumns = upsert_columns cs t json default_type node (lookup id tables.nodes) in
      rw (← upsert_node_lem default_type id node tables tables' h) (
        (
          record node {
            created_at = created_at_of cs node (lookup id tables.nodes);
            modified_at = cs.timestamp node.modified_at;
            type = type_of default_type (lookup id tables.nodes);
            inbounds = read_inbounds cs t json rows [];
          },
          rw
              (
                stored_node,
                lookup-insert id id row tables.nodes,
                ==_refl id,
                get_or_default-insert id id [] rows tables.inbounds,
                ==_refl id,
              )
              (node_of_rows_lem default_type node (lookup id tables.nodes) rows k.cores k.env),
          refl,
          λ tag. inbounds_lem tag node old l r k u',
        ),
        λ j other.
            rw (stored_node, lookup-insert id j row tables.nodes, other)
              (elim (Option-cases (lookup j tables.nodes)) [
                | inl absent ↦ rw (absent, stored_node) refl
                | inr (kept, found) ↦
                    rw
                      (
                        found,
                        get_or_default-insert id j [] rows tables.inbounds,
                        other,
                        stored_node,
                      )
                      refl
              ]),
      )
