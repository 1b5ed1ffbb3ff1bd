-- ===== src/Metrics.antt =====
-- src/metrics/storage.rs and src/metrics/mod.rs: the samples that nodes send, by node and series.
-- A value (f64) is its bits, a timestamp an i64 of milliseconds; what leaves the range of i64 is
-- outside of the model. The hash of a series' name and tags (`DefaultHasher`) is the parameter
-- `series_key`.
pub mod Window
pub mod Index
pub mod Garbage
pub mod Alive
use pony.Prelude.{
  ℕ, ◌*◌, Bool, true, false, not, ◌&&◌, List, [], ◌∷◌, ◌++◌, Option, none, some, ltb, nat_eq,
  nat_eqb, list_eq, list_eqb, if◌then◌else◌, length, keep, any,
}
use pony.Prelude.Int.{ℤ, pos_part, neg_part, sub_ℕ, ltb_ℤ, ◌-ℤ◌}
use pony.Prelude.Map.{Map, lookup, insert, entry, retain, get_or_default}
use pony.Prelude.Text.{Text}
use pony.Subscription.{Uuid}

pub record MetricPoint : Type 0 where
  pub timestamp : ℤ
  pub value : ℕ

-- The tags are a BTreeMap, in the order of its keys.
abbrev pub Tags : Type 0
Tags = List (Text × Text)

pub record MetricEnvelope : Type 0 where
  pub node_id : Uuid
  pub name : Text
  pub value : ℕ
  pub timestamp : ℤ
  pub tags : Tags

abbrev pub Series : Type 0
Series = ℕ

pub record MetricStorage : Type 0 where
  pub inner : Map Uuid (Map Series (List MetricPoint))
  pub metadata : Map Series (Text × Tags)
  pub tag_index : Map Text (Map Text (List Series))
  pub max_points : ℕ
  pub retention_seconds : ℤ

-- `HashSet::contains` and `insert`
abbrev pub has : Series → List Series → Bool
has key keys = any (λ k. nat_eqb k key) keys

abbrev pub set_insert : Series → List Series → List Series
set_insert key keys = if has key keys then keys else keys ++ key ∷ []

unfoldable pub index_tags :
    Series → Tags → Map Text (Map Text (List Series)) → Map Text (Map Text (List Series))
index_tags key [] index = index
index_tags key ((k, v) ∷ tags) index =
    index_tags key tags (entry k [] (entry v [] (set_insert key)) index)

-- `metadata.entry(key).or_insert_with(…)`
unfoldable pub register : Series → MetricEnvelope → MetricStorage → MetricStorage
register key e st = elim (lookup key st.metadata) [
  | some _ ↦ st
  | none ↦ record st {
    metadata = insert key (e.name, e.tags) st.metadata;
    tag_index = index_tags key e.tags st.tag_index;
  }
]

-- `while entry.len() > max_points { entry.pop_front(); }`
unfoldable pub trim_len : ℕ → List MetricPoint → List MetricPoint
trim_len max [] = []
trim_len max (p ∷ ps) =
    let rest = trim_len max ps in if ltb max (length (p ∷ ps)) then rest else p ∷ ps

-- `while let Some(front) = … { if front.timestamp < min_ts { pop_front } else { break } }`
unfoldable pub drop_old : ℤ → List MetricPoint → List MetricPoint
drop_old min_ts [] = []
drop_old min_ts (p ∷ ps) =
    let rest = drop_old min_ts ps in if ltb_ℤ p.timestamp min_ts then rest else p ∷ ps

-- `retention_seconds * 1000`
abbrev pub retention_ms : MetricStorage → ℤ
retention_ms st =
    sub_ℕ (pos_part st.retention_seconds * 1000) (neg_part st.retention_seconds * 1000)

-- What a new point makes of the points of its series.
unfoldable pub push_point : MetricStorage → MetricPoint → List MetricPoint → List MetricPoint
push_point st p points =
    drop_old (p.timestamp -ℤ retention_ms st) (trim_len st.max_points (points ++ p ∷ []))

abbrev pub point_of : MetricEnvelope → MetricPoint
point_of e = record { timestamp = e.timestamp; value = e.value }

module _ (series_key : Text → Tags → Series) where
  unfoldable pub insert_envelope : MetricEnvelope → MetricStorage → MetricStorage
  insert_envelope e st =
      let key = series_key e.name e.tags in
      let st' = register key e st in
      record st' {
        inner = entry e.node_id [] (entry key [] (push_point st (point_of e))) st'.inner;
      }

abbrev pub in_range : ℤ → ℤ → MetricPoint → Bool
in_range from to p = not (ltb_ℤ p.timestamp from) && not (ltb_ℤ to p.timestamp)

-- The points of a series, none if it is not stored.
abbrev pub points_of : MetricStorage → Uuid → Series → List MetricPoint
points_of st node_id key = get_or_default key [] (get_or_default node_id [] st.inner)

unfoldable pub get_range : MetricStorage → Uuid → Series → ℤ → ℤ → List MetricPoint
get_range st node_id key from to = keep (in_range from to) (points_of st node_id key)

unfoldable pub find_series_by_tag : MetricStorage → Text → Text → List Series
find_series_by_tag st tag_key tag_value =
    get_or_default tag_value [] (get_or_default tag_key [] st.tag_index)

-- The two loops of `get_aggregated_range`: the series with the tag, and the nodes. A later series
-- of a node takes the place of an earlier one.
abbrev pub is_named : MetricStorage → Text → Series → Bool
is_named st name key = elim (lookup key st.metadata) [
  | some meta ↦ list_eqb meta.0 name
  | none ↦ false
]

abbrev insert_points :
    Uuid → List MetricPoint → Map Uuid (List MetricPoint) → Map Uuid (List MetricPoint)
insert_points node_id [] result = result
insert_points node_id (p ∷ ps) result = insert node_id (p ∷ ps) result

unfoldable pub aggregate_node :
    MetricStorage
    → Text
    → ℤ
    → ℤ
    → Uuid
    → List Series
    → Map Uuid (List MetricPoint)
    → Map Uuid (List MetricPoint)
aggregate_node st name from to node_id [] result = result
aggregate_node st name from to node_id (key ∷ keys) result =
    aggregate_node st name from to node_id keys (
      if is_named st name key
      then insert_points node_id (get_range st node_id key from to) result
      else result)

unfoldable pub aggregate :
    MetricStorage
    → Text
    → ℤ
    → ℤ
    → List Series
    → Map Uuid (Map Series (List MetricPoint))
    → Map Uuid (List MetricPoint)
    → Map Uuid (List MetricPoint)
aggregate st name from to keys [] result = result
aggregate st name from to keys ((node_id, series) ∷ nodes) result =
    aggregate st name from to keys nodes (aggregate_node st name from to node_id keys result)

unfoldable pub get_aggregated_range :
    MetricStorage → Text → Text → Text → ℤ → ℤ → Map Uuid (List MetricPoint)
get_aggregated_range st tag_key tag_value metric_name from to =
    aggregate st metric_name from to (find_series_by_tag st tag_key tag_value) st.inner []

-- `!x.is_empty()`, the last line of each `retain`.
abbrev pub unless_empty : {A : Type 0} → List A → Option (List A)
unless_empty [] = none
unless_empty (x ∷ xs) = some (x ∷ xs)

unfoldable pub series_keys : Map Series (List MetricPoint) → List Series
series_keys [] = []
series_keys ((key, points) ∷ series) = key ∷ series_keys series

-- The set of the keys that are left.
unfoldable pub alive_series : Map Uuid (Map Series (List MetricPoint)) → List Series
alive_series [] = []
alive_series ((node_id, series) ∷ nodes) = series_keys series ++ alive_series nodes

unfoldable pub collect_points :
    ℤ → Map Uuid (Map Series (List MetricPoint)) → Map Uuid (Map Series (List MetricPoint))
collect_points min_ts =
    retain
      (λ series. unless_empty (retain (λ points. unless_empty (drop_old min_ts points)) series))

unfoldable pub collect_index :
    List Series → Map Text (Map Text (List Series)) → Map Text (Map Text (List Series))
collect_index alive =
    retain (λ values.
      unless_empty (retain (λ set. unless_empty (keep (λ key. has key alive) set)) values))

unfoldable pub perform_gc : ℤ → MetricStorage → MetricStorage
perform_gc now_ms st =
    let inner' = collect_points (now_ms -ℤ retention_ms st) st.inner in
    let alive = alive_series inner' in
    record st {
      inner = inner';
      metadata = keep (λ e. has e.0 alive) st.metadata;
      tag_index = collect_index alive st.tag_index;
    }
