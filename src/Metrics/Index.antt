-- ===== src/Metrics/Index.antt =====
-- The index of the series by their tags.
use pony.Prelude.{
  ◌≡◌, refl, true, List, [], ◌∷◌, ◌++◌, some, arith, nat_eq, nat_eqb_iff, list_eq, list_eqb_iff,
  All, All-imp, Bool-cases, Option-cases, inl, inr, ◌==◌, ==_refl,
}
use pony.Prelude.Map.{
  Map, lookup, lookup-insert, entry, get_or_default, get_or_default-entry, insert-All,
  insert-All_entries, get_or_default-All,
}
use pony.Prelude.Text.{Text}
use pony.Subscription.{Uuid}
use pony.Metrics.Window.{register-inner}
use pony.Metrics.{
  MetricPoint, MetricEnvelope, Series, Tags, MetricStorage, has, set_insert, index_tags, register,
  push_point, point_of, insert_envelope,
}

abbrev pub Index : Type 0
Index = Map Text (Map Text (List Series))

-- The series that the index has for a tag.
abbrev pub tagged : Text → Text → Index → List Series
tagged k v index = get_or_default v [] (get_or_default k [] index)

pub has_append :
    (key : Series) (xs ys : List Series) → has key xs ≡ true → has key (xs ++ ys) ≡ true
has_append key [] ys h = ground arith
has_append key (x ∷ xs) ys h = ground (arith, has_append key xs ys)

pub has_append_right :
    (key : Series) (xs ys : List Series) → has key ys ≡ true → has key (xs ++ ys) ≡ true
has_append_right key [] ys h = h
has_append_right key (x ∷ xs) ys h = ground (arith, has_append_right key xs ys h)

has-set_insert :
    (key new : Series) (xs : List Series) → has key xs ≡ true → has key (set_insert new xs) ≡ true
has-set_insert key new xs h = ground (arith, has_append key xs (new ∷ []))

has-set_insert_self : (key : Series) (xs : List Series) → has key (set_insert key xs) ≡ true
has-set_insert_self key xs = ground (arith, has_append_right key xs (key ∷ []), nat_eqb_iff key key)

abbrev index_tag : Series → Text → Text → Index → Index
index_tag key k v index = entry k [] (entry v [] (set_insert key)) index

-- One more tag loses nothing.
has-index_tag :
    (key new : Series) (j w k v : Text) (index : Index)
    → has key (tagged j w index) ≡ true
    → has key (tagged j w (index_tag new k v index)) ≡ true
has-index_tag key new j w k v index h = elim (Bool-cases (k == j)) [
  | inr other ↦ rw (get_or_default-entry k j, other) h
  | inl same ↦
      let e : k ≡ j = (list_eqb_iff k j).0 same in
      elim (Bool-cases (v == w)) [
        | inr differs ↦ rw (get_or_default-entry k j, same, get_or_default-entry v w, differs, e) h
        | inl also ↦
            let i : v ≡ w = (list_eqb_iff v w).0 also in
            rw (get_or_default-entry k j, same, get_or_default-entry v w, also, e, i)
              (has-set_insert key new (tagged j w index) h)
      ]
]

has-index_tag_self :
    (key : Series) (k v : Text) (index : Index)
    → has key (tagged k v (index_tag key k v index)) ≡ true
has-index_tag_self key k v index =
    rw (get_or_default-entry k k, ==_refl k, get_or_default-entry v v, ==_refl v)
      (has-set_insert_self key (tagged k v index))

has-index_tags :
    (key new : Series) (j w : Text) (tags : Tags) (index : Index)
    → has key (tagged j w index) ≡ true
    → has key (tagged j w (index_tags new tags index)) ≡ true
unfolding index_tags
has-index_tags key new j w [] index h = h
has-index_tags key new j w ((k, v) ∷ tags) index h =
    has-index_tags key new j w tags (index_tag new k v index)
      (has-index_tag key new j w k v index h)

-- The index has the series for every one of the tags.
abbrev pub IsFiled : Series → Tags → Index → Type 0
IsFiled key tags index = All (λ t. has key (tagged t.0 t.1 index) ≡ true) tags

index_tags-IsFiled :
    (key : Series) (tags : Tags) (index : Index) → IsFiled key tags (index_tags key tags index)
unfolding index_tags
index_tags-IsFiled key [] index = tt
index_tags-IsFiled key ((k, v) ∷ tags) index = (
  has-index_tags key key k v tags (index_tag key k v index) (has-index_tag_self key k v index),
  index_tags-IsFiled key tags (index_tag key k v index),
)

index_tags-IsFiled_other :
    (key new : Series) (tags more : Tags) (index : Index)
    → IsFiled key tags index
    → IsFiled key tags (index_tags new more index)
index_tags-IsFiled_other key new tags more index =
    All-imp (λ t. has key (tagged t.0 t.1 index) ≡ true)
      (λ t. has key (tagged t.0 t.1 (index_tags new more index)) ≡ true)
      (λ t h. has-index_tags key new t.0 t.1 more index h) tags

abbrev pub Metadata : Type 0
Metadata = Map Series (Text × Tags)

abbrev pub AllFiled : Metadata → Index → Type 0
AllFiled metadata index = All {A = Series × (Text × Tags)} (λ e. IsFiled e.0 e.1.1 index) metadata

abbrev pub HasMetadata : Metadata → Series → Type 0
HasMetadata metadata key = (meta : Text × Tags) × (lookup key metadata ≡ some meta)

abbrev pub AllSeries : (Series → Type 0) → Map Uuid (Map Series (List MetricPoint)) → Type 0
AllSeries P =
    All {A = Uuid × Map Series (List MetricPoint)}
      (λ n. All {A = Series × List MetricPoint} (λ s. P s.0) n.1)

pub AllSeries-imp :
    (P Q : Series → Type 0)
    → ((key : Series) → P key → Q key)
    → (nodes : Map Uuid (Map Series (List MetricPoint))) → AllSeries P nodes
    → AllSeries Q nodes
AllSeries-imp P Q f =
    All-imp (λ n. All {A = Series × List MetricPoint} (λ s. P s.0) n.1)
      (λ n. All {A = Series × List MetricPoint} (λ s. Q s.0) n.1)
      (λ n. All-imp (λ s. P s.0) (λ s. Q s.0) (λ s. f s.0) n.1)

-- Every series with metadata is in the index for each of its tags, and every series with points
-- has metadata.
abbrev pub IsIndexed : MetricStorage → Type 0
IsIndexed st = AllFiled st.metadata st.tag_index × AllSeries (HasMetadata st.metadata) st.inner

register-AllFiled :
    (key : Series) (e : MetricEnvelope) (st : MetricStorage)
    → AllFiled st.metadata st.tag_index
    → AllFiled (register key e st).metadata (register key e st).tag_index
unfolding register
register-AllFiled key e st a = elim (Option-cases (lookup key st.metadata)) [
  | inr (meta, known) ↦ rw (register, known) a
  | inl new ↦
      rw (register, new)
        (insert-All_entries (λ f. IsFiled f.0 f.1.1 (index_tags key e.tags st.tag_index)) key
          (e.name, e.tags) st.metadata (index_tags-IsFiled key e.tags st.tag_index)
          (All-imp (λ f. IsFiled f.0 f.1.1 st.tag_index)
            (λ f. IsFiled f.0 f.1.1 (index_tags key e.tags st.tag_index))
            (λ f. index_tags-IsFiled_other f.0 key f.1.1 e.tags st.tag_index) st.metadata a))
]

register-HasMetadata :
    (key : Series) (e : MetricEnvelope) (st : MetricStorage)
    → HasMetadata (register key e st).metadata key
unfolding register
register-HasMetadata key e st = elim (Option-cases (lookup key st.metadata)) [
  | inr (meta, known) ↦ (meta, rw (register, known) known)
  | inl new ↦ (
    (e.name, e.tags),
    rw (register, new, lookup-insert key key (e.name, e.tags) st.metadata, ==_refl key) refl,
  )
]

register-HasMetadata_other :
    (key j : Series) (e : MetricEnvelope) (st : MetricStorage)
    → HasMetadata st.metadata j
    → HasMetadata (register key e st).metadata j
unfolding register
register-HasMetadata_other key j e st (meta, h) = elim (Option-cases (lookup key st.metadata)) [
  | inr (_, known) ↦ (meta, rw (register, known) h)
  | inl new ↦ elim (Bool-cases (key == j)) [
    | inl same ↦ (
      (e.name, e.tags),
      rw (register, new, lookup-insert key j (e.name, e.tags) st.metadata, same) refl,
    )
    | inr other ↦
        (meta, rw (register, new, lookup-insert key j (e.name, e.tags) st.metadata, other) h)
  ]
]

module _ (series_key : Text → Tags → Series) where
  -- An envelope keeps the invariant of the index: its series is in the index for each of its tags
  -- and has metadata, and what was indexed before still is.
  pub insert_envelope-IsIndexed :
      (e : MetricEnvelope) (st : MetricStorage)
      → IsIndexed st
      → IsIndexed (insert_envelope series_key e st)
  unfolding insert_envelope entry
  insert_envelope-IsIndexed e st (filed, known) =
      let k : Series = series_key e.name e.tags in
      let st' : MetricStorage = register k e st in
      let known' : AllSeries (HasMetadata st'.metadata) st'.inner = rw (register-inner k e st).0 (
        AllSeries-imp (HasMetadata st.metadata) (HasMetadata st'.metadata)
          (λ j. register-HasMetadata_other k j e st) st.inner known) in
      let P : Series × List MetricPoint → Type 0 = (λ s. HasMetadata st'.metadata s.0) in
      (
        register-AllFiled k e st filed,
        insert-All (λ n. All P n) e.node_id
            (entry k [] (push_point st (point_of e)) (get_or_default e.node_id [] st'.inner))
            st'.inner
            (insert-All_entries P k
              (push_point st (point_of e)
                (get_or_default k [] (get_or_default e.node_id [] st'.inner)))
              (get_or_default e.node_id [] st'.inner) (register-HasMetadata k e st)
              (get_or_default-All (λ n. All P n) e.node_id [] st'.inner tt known'))
            known',
      )
