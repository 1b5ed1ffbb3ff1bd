-- ===== src/Metrics/Garbage.antt =====
-- What the collection of old points leaves in the index.
use pony.Prelude.{
  ◌≡◌, refl, Bool, true, List, [], ◌∷◌, Option, some, arith, nat_eq, nat_eqb_iff, list_eq, keep,
  All, All-imp, All-both, Bool-cases, Option-cases, inl, inr,
}
use pony.Prelude.Int.{ℤ, ◌-ℤ◌}
use pony.Prelude.Map.{
  Map, lookup, lookup-keep, get_or_default, retain, retain-All, lookup-retain, get_or_default-some,
  get_or_default-none,
}
use pony.Prelude.Text.{Text}
use pony.Subscription.{Uuid}
use pony.Metrics.{
  MetricPoint, Series, Tags, MetricStorage, has, drop_old, retention_ms, series_keys, alive_series,
  collect_points, collect_index, unless_empty, perform_gc,
}
use pony.Metrics.Window.{unless_empty-some}
use pony.Metrics.Index.{
  Index, Metadata, tagged, has_append, has_append_right, IsFiled, AllFiled, HasMetadata, AllSeries,
  IsIndexed,
}

has-keep :
    (key : Series) (p : Series → Bool) (keys : List Series)
    → has key keys ≡ true
    → p key ≡ true
    → has key (keep p keys) ≡ true
has-keep key p [] h q = h
has-keep key p (k ∷ keys) h q = ground (arith, nat_eqb_iff k key, has-keep key p keys)

has-get_or_default :
    (key : Series) (k : Text) (values : Map Text (List Series))
    → has key (get_or_default k [] values) ≡ true
    → (set : List Series) × (lookup k values ≡ some set) × (has key set ≡ true)
has-get_or_default key k values h = elim (Option-cases (lookup k values)) [
  | inl missing ↦
      let bad : has key [] ≡ true = rw (get_or_default-none k [] values missing) at h in
      absurd (ground (arith, bad))
  | inr (set, found) ↦ (set, found, rw (get_or_default-some k [] set values found) at h)
]

tagged-cases :
    (key : Series) (k v : Text) (index : Index)
    → has key (tagged k v index) ≡ true
    → (values : Map Text (List Series)) × (set : List Series) × (lookup k index ≡ some values)
      × (lookup v values ≡ some set)
      × (has key set ≡ true)
unfolding lookup
tagged-cases key k v index h = elim (Option-cases (lookup k index)) [
  | inl missing ↦
      let bad : has key [] ≡ true = rw (get_or_default-none k [] index missing) at h in
      absurd (ground (arith, bad))
  | inr (values, found) ↦
      let held : has key (get_or_default v [] values) ≡ true =
        rw (get_or_default-some k [] values index found) at h in
      let (set, stored, has_it) = has-get_or_default key v values held in
      (values, set, found, stored, has_it)
]

tagged-some :
    (k v : Text) (values : Map Text (List Series)) (set : List Series) (index : Index)
    → lookup k index ≡ some values
    → lookup v values ≡ some set
    → tagged k v index ≡ set
tagged-some k v values set index h g =
    rw (get_or_default-some k [] values index h) (get_or_default-some v [] set values g)

unless_empty-has :
    (key : Series) (set : List Series) → has key set ≡ true → unless_empty set ≡ some set
unless_empty-has key [] h = ground arith
unless_empty-has key (x ∷ xs) h = refl

unless_empty-lookup :
    (k : Text) (set : List Series) (values : Map Text (List Series))
    → lookup k values ≡ some set
    → unless_empty values ≡ some values
unfolding lookup
unless_empty-lookup k set [] h = ground arith
unless_empty-lookup k set (x ∷ xs) h = refl

-- What is alive stays in the index.
has-collect_index :
    (key : Series) (alive : List Series) (k v : Text) (index : Index)
    → has key alive ≡ true
    → has key (tagged k v index) ≡ true
    → has key (tagged k v (collect_index alive index)) ≡ true
unfolding collect_index
has-collect_index key alive k v index h t =
    let sets : List Series → Option (List Series) =
      (λ set. unless_empty (keep (λ key. has key alive) set)) in
    let (values, set, found, stored, held) = tagged-cases key k v index t in
    let left : List Series = keep (λ key. has key alive) set in
    let held' : has key left ≡ true = has-keep key (λ key. has key alive) set held h in
    let stored' : lookup v (retain sets values) ≡ some left =
      lookup-retain v set left sets values stored (unless_empty-has key left held') in
    let found' : lookup k (retain (λ values. unless_empty (retain sets values)) index)
        ≡ some (retain sets values) =
      lookup-retain k values (retain sets values) (λ values. unless_empty (retain sets values))
        index found (unless_empty-lookup v left (retain sets values) stored') in
    rw
      (tagged-some k v (retain sets values) left
        (retain (λ values. unless_empty (retain sets values)) index) found' stored')
      held'

series_keys-All :
    (keys : List Series) (series : Map Series (List MetricPoint))
    → ((key : Series) → has key (series_keys series) ≡ true → has key keys ≡ true)
    → All {A = Series × List MetricPoint} (λ s. has s.0 keys ≡ true) series
unfolding series_keys
series_keys-All keys [] f = tt
series_keys-All keys ((key, points) ∷ series) f = (
  f key (ground (arith, nat_eqb_iff key key)),
  series_keys-All keys series (λ j h. f j (ground (arith, h))),
)

alive_series-All :
    (keys : List Series) (nodes : Map Uuid (Map Series (List MetricPoint)))
    → ((key : Series) → has key (alive_series nodes) ≡ true → has key keys ≡ true)
    → AllSeries (λ key. has key keys ≡ true) nodes
unfolding alive_series
alive_series-All keys [] f = tt
alive_series-All keys ((node_id, series) ∷ nodes) f = (
  series_keys-All keys series
      (λ key h. f key (has_append key (series_keys series) (alive_series nodes) h)),
  alive_series-All keys nodes
      (λ key h. f key (has_append_right key (series_keys series) (alive_series nodes) h)),
)

collect_points-AllSeries :
    (P : Series → Type 0) (min_ts : ℤ) (nodes : Map Uuid (Map Series (List MetricPoint)))
    → AllSeries P nodes
    → AllSeries P (collect_points min_ts nodes)
unfolding collect_points
collect_points-AllSeries P min_ts =
    let step : Map Series (List MetricPoint) → Map Series (List MetricPoint) =
      retain (λ points. unless_empty (drop_old min_ts points)) in
    retain-All {K = Uuid} {V = Map Series (List MetricPoint)}
      (λ n. All {A = Series × List MetricPoint} (λ s. P s.0) n.1)
      (λ n. All {A = Series × List MetricPoint} (λ s. P s.0) n.1)
      (λ series. unless_empty (step series))
      (λ node_id series left a some_left.
        let e : left ≡ step series = unless_empty-some (step series) left some_left in
        rw e (
          retain-All {K = Series} {V = List MetricPoint} (λ s. P s.0) (λ s. P s.0)
            (λ points. unless_empty (drop_old min_ts points)) (λ key points fewer p _. p) series a))

AllSeries-both :
    (P Q R : Series → Type 0)
    → ((key : Series) → P key → Q key → R key)
    → (nodes : Map Uuid (Map Series (List MetricPoint))) → AllSeries P nodes
    → AllSeries Q nodes
    → AllSeries R nodes
AllSeries-both P Q R f =
    All-both (λ n. All {A = Series × List MetricPoint} (λ s. P s.0) n.1)
      (λ n. All {A = Series × List MetricPoint} (λ s. Q s.0) n.1)
      (λ n. All {A = Series × List MetricPoint} (λ s. R s.0) n.1)
      (λ n. All-both (λ s. P s.0) (λ s. Q s.0) (λ s. R s.0) (λ s. f s.0) n.1)

collect_index-IsFiled :
    (key : Series) (alive : List Series) (tags : Tags) (index : Index)
    → has key alive ≡ true
    → IsFiled key tags index
    → IsFiled key tags (collect_index alive index)
collect_index-IsFiled key alive tags index h =
    All-imp (λ t. has key (tagged t.0 t.1 index) ≡ true)
      (λ t. has key (tagged t.0 t.1 (collect_index alive index)) ≡ true)
      (λ t. has-collect_index key alive t.0 t.1 index h) tags

collect-AllFiled :
    (alive : List Series) (metadata : Metadata) (index : Index)
    → AllFiled metadata index
    → AllFiled (keep (λ e. has e.0 alive) metadata) (collect_index alive index)
collect-AllFiled alive [] index a = tt
collect-AllFiled alive ((key, meta) ∷ metadata) index a = elim (Bool-cases (has key alive)) [
  | inl live ↦ rw live (
    collect_index-IsFiled key alive meta.1 index live a.0,
    collect-AllFiled alive metadata index a.1,
  )
  | inr dead ↦ rw dead (collect-AllFiled alive metadata index a.1)
]

keep-HasMetadata :
    (metadata : Metadata) (alive : List Series) (key : Series)
    → has key alive ≡ true
    → HasMetadata metadata key
    → HasMetadata (keep (λ e. has e.0 alive) metadata) key
keep-HasMetadata metadata alive key h (meta, known) =
    (meta, lookup-keep key meta (λ e. has e.0 alive) metadata known h)

-- A collection keeps the invariant of the index: no series that still has points loses its
-- metadata or its place in the index.
pub perform_gc-IsIndexed :
    (now_ms : ℤ) (st : MetricStorage) → IsIndexed st → IsIndexed (perform_gc now_ms st)
unfolding perform_gc
perform_gc-IsIndexed now_ms st (filed, known) =
    let min_ts : ℤ = now_ms -ℤ retention_ms st in
    let nodes : Map Uuid (Map Series (List MetricPoint)) = collect_points min_ts st.inner in
    let alive : List Series = alive_series nodes in
    (
      collect-AllFiled alive st.metadata st.tag_index filed,
      AllSeries-both (λ key. has key alive ≡ true) (HasMetadata st.metadata)
          (HasMetadata (keep (λ e. has e.0 alive) st.metadata)) (keep-HasMetadata st.metadata alive)
          nodes (alive_series-All alive nodes (λ key h. h))
          (collect_points-AllSeries (HasMetadata st.metadata) min_ts st.inner known),
    )
