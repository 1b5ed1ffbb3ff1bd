-- ===== src/Metrics/Window.antt =====
-- Which points a series keeps.
use pony.Prelude.{
  ℕ, suc, ◌-◌, ◌≤◌, ◌≡◌, refl, ap, Bool, false, not, ◌&&◌, List, [], ◌∷◌, ◌++◌, some, arith, ltb,
  nat_eq, nat_eqb, nat_eqb_iff, if◌then◌else◌, length, keep, drop, All, Bool-cases, inl, inr,
}
use pony.Prelude.Int.{ℤ, ltb_ℤ, ◌≤ℤ◌, ◌-ℤ◌}
use pony.Prelude.Map.{
  Map, insert, entry, get_or_default-entry, get_or_default, insert-All, get_or_default-All, retain,
  retain-All,
}
use pony.Prelude.Text.{Text}
use pony.Subscription.{Uuid}
use pony.Metrics.{
  MetricPoint, MetricEnvelope, Series, Tags, MetricStorage, register, trim_len, drop_old,
  retention_ms, push_point, point_of, insert_envelope, points_of, in_range, get_range,
  collect_points, unless_empty, perform_gc,
}

-- No point is older than one before it.
abbrev pub IsOrdered : List MetricPoint → Type 0
IsOrdered [] = Unit
IsOrdered (p ∷ ps) = All (λ q. p.timestamp ≤ℤ q.timestamp) ps × IsOrdered ps

abbrev pub is_recent : ℤ → MetricPoint → Bool
is_recent min_ts p = not (ltb_ℤ p.timestamp min_ts)

-- The last points of the series, at most `max_points`, of which only those of the retention time
-- before the new point are left.
abbrev pub window : MetricStorage → MetricPoint → List MetricPoint → List MetricPoint
window st p points =
    keep (is_recent (p.timestamp -ℤ retention_ms st))
      (drop (length (points ++ p ∷ []) - st.max_points) (points ++ p ∷ []))

trim_len-drop : (max : ℕ) (ps : List MetricPoint) → trim_len max ps ≡ drop (length ps - max) ps
unfolding trim_len
trim_len-drop max [] = let e : 0 - max ≡ 0 = omega arith in rw e refl
trim_len-drop max (p ∷ ps) = elim (Bool-cases (ltb max (suc (length ps)))) [
  | inl over ↦
      let e : suc (length ps) - max ≡ suc (length ps - max) = ground arith in
      rw (over, e) (trim_len-drop max ps)
  | inr fits ↦ let e : suc (length ps) - max ≡ 0 = ground arith in rw (fits, e) refl
]

keep_every :
    (min_ts : ℤ) (p : MetricPoint) (ps : List MetricPoint)
    → ltb_ℤ p.timestamp min_ts ≡ false
    → All (λ q. p.timestamp ≤ℤ q.timestamp) ps
    → keep (is_recent min_ts) ps ≡ ps
keep_every min_ts p [] h a = refl
keep_every min_ts p (q ∷ ps) h a = ground (arith, keep_every min_ts p ps h a.1)

drop_old-keep :
    (min_ts : ℤ) (ps : List MetricPoint)
    → IsOrdered ps
    → drop_old min_ts ps ≡ keep (is_recent min_ts) ps
unfolding drop_old
drop_old-keep min_ts [] o = refl
drop_old-keep min_ts (p ∷ ps) o = elim (Bool-cases (ltb_ℤ p.timestamp min_ts)) [
  | inl old ↦ rw old (drop_old-keep min_ts ps o.1)
  | inr recent ↦ rw (recent, keep_every min_ts p ps recent o.0) refl
]

drop-IsOrdered : (n : ℕ) (ps : List MetricPoint) → IsOrdered ps → IsOrdered (drop n ps)
drop-IsOrdered ℕ.zero ps o = o
drop-IsOrdered (suc n) [] o = o
drop-IsOrdered (suc n) (p ∷ ps) o = drop-IsOrdered n ps o.1

push_point-window :
    (st : MetricStorage) (p : MetricPoint) (points : List MetricPoint)
    → IsOrdered (points ++ p ∷ [])
    → push_point st p points ≡ window st p points
unfolding push_point
push_point-window st p points o = rw (trim_len-drop st.max_points (points ++ p ∷ [])) (
    drop_old-keep (p.timestamp -ℤ retention_ms st)
      (drop (length (points ++ p ∷ []) - st.max_points) (points ++ p ∷ []))
      (drop-IsOrdered (length (points ++ p ∷ []) - st.max_points) (points ++ p ∷ []) o))

pub register-inner :
    (key : Series) (e : MetricEnvelope) (st : MetricStorage)
    → ((register key e st).inner ≡ st.inner)
      × ((register key e st).max_points ≡ st.max_points)
      × ((register key e st).retention_seconds ≡ st.retention_seconds)
unfolding register
register-inner key e st = ground arith

length-trim_len : (max : ℕ) (ps : List MetricPoint) → length (trim_len max ps) ≤ max
unfolding trim_len
length-trim_len max [] = omega arith
length-trim_len max (p ∷ ps) = ground (arith, length-trim_len max ps)

length-drop_old : (min_ts : ℤ) (ps : List MetricPoint) → length (drop_old min_ts ps) ≤ length ps
unfolding drop_old
length-drop_old min_ts [] = omega arith
length-drop_old min_ts (p ∷ ps) = ground (arith, length-drop_old min_ts ps)

length-push_point :
    (st : MetricStorage) (p : MetricPoint) (points : List MetricPoint)
    → length (push_point st p points) ≤ st.max_points
unfolding push_point
length-push_point st p points = omega (
  arith,
  length-drop_old (p.timestamp -ℤ retention_ms st) (trim_len st.max_points (points ++ p ∷ [])),
  length-trim_len st.max_points (points ++ p ∷ []),
)

-- No series holds more than `max_points` points.
abbrev pub IsBounded : MetricStorage → Type 0
IsBounded st = All (λ n. All (λ s. length s.1 ≤ st.max_points) n.1) st.inner

module _ (series_key : Text → Tags → Series) where
  -- An envelope changes its own series only, which holds the window of its points afterwards, if
  -- the points before are in order and the envelope is not older than they are: `get_range`
  -- returns what of the window lies in the range, and of any other series what it returned before.
  pub get_range-insert_envelope :
      (e : MetricEnvelope) (st : MetricStorage) (node_id : Uuid) (key : Series) (from to : ℤ)
      → IsOrdered (points_of st e.node_id (series_key e.name e.tags) ++ point_of e ∷ [])
      → get_range (insert_envelope series_key e st) node_id key from to ≡ (
          if nat_eqb e.node_id node_id && nat_eqb (series_key e.name e.tags) key
          then keep
              (in_range from to)
              (window st (point_of e) (points_of st e.node_id (series_key e.name e.tags)))
          else get_range st node_id key from to)
  unfolding get_range insert_envelope
  get_range-insert_envelope e st node_id key from to o =
      let k : Series = series_key e.name e.tags in
      let push : List MetricPoint → List MetricPoint = push_point st (point_of e) in
      let kept : (register k e st).inner ≡ st.inner = (register-inner k e st).0 in
      elim (Bool-cases (nat_eqb e.node_id node_id)) [
        | inr elsewhere ↦
            rw (get_range, insert_envelope, kept, get_or_default-entry, elsewhere) refl
        | inl node ↦ elim (Bool-cases (nat_eqb k key)) [
          | inr other ↦
              rw
                (
                  get_range, insert_envelope, kept, get_or_default-entry, node,
                  get_or_default-entry, other,
                )
                (ap
                  (λ n.
                    keep (in_range from to) (get_or_default key [] (get_or_default n [] st.inner)))
                  ((nat_eqb_iff e.node_id node_id).0 node))
          | inl same ↦
              rw
                (
                  get_range, insert_envelope, kept, get_or_default-entry, node,
                  get_or_default-entry, same,
                )
                (ap (keep (in_range from to))
                  (push_point-window st (point_of e) (points_of st e.node_id k) o))
        ]
      ]

  -- No envelope gives a series more than `max_points` points.
  pub insert_envelope-IsBounded :
      (e : MetricEnvelope) (st : MetricStorage)
      → IsBounded st
      → IsBounded (insert_envelope series_key e st)
  unfolding insert_envelope entry push_point
  insert_envelope-IsBounded e st b =
      let k : Series = series_key e.name e.tags in
      rw ((register-inner k e st).0, (register-inner k e st).1)
        (insert-All (λ n. All (λ s. length s.1 ≤ st.max_points) n) e.node_id
          (insert k
            (push_point st (point_of e)
              (get_or_default k [] (get_or_default e.node_id [] st.inner)))
            (get_or_default e.node_id [] st.inner))
          st.inner
          (insert-All (λ ps. length ps ≤ st.max_points) k
            (push_point st (point_of e)
              (get_or_default k [] (get_or_default e.node_id [] st.inner)))
            (get_or_default e.node_id [] st.inner)
            (length-push_point st (point_of e) (points_of st e.node_id k))
            (get_or_default-All (λ n. All (λ s. length s.1 ≤ st.max_points) n) e.node_id [] st.inner
              tt b))
          b)

pub unless_empty-some : {A : Type 0} (xs ys : List A) → unless_empty xs ≡ some ys → ys ≡ xs
unless_empty-some [] ys h = ground arith
unless_empty-some (x ∷ xs) ys h = ground arith

collect_series-All :
    (max : ℕ) (min_ts : ℤ) (series : Map Series (List MetricPoint))
    → All {A = Series × List MetricPoint} (λ s. length s.1 ≤ max) series
    → All {A = Series × List MetricPoint}
        (λ s. length s.1 ≤ max)
        (retain (λ points. unless_empty (drop_old min_ts points)) series)
collect_series-All max min_ts =
    retain-All {K = Series} {V = List MetricPoint} (λ s. length s.1 ≤ max) (λ s. length s.1 ≤ max)
      (λ points. unless_empty (drop_old min_ts points))
      (λ key points fewer short some_left.
        let e : fewer ≡ drop_old min_ts points =
          unless_empty-some (drop_old min_ts points) fewer some_left in
        rw e (omega (arith, length-drop_old min_ts points, short)))

collect_points-All :
    (max : ℕ) (min_ts : ℤ) (nodes : Map Uuid (Map Series (List MetricPoint)))
    → All {A = Uuid × Map Series (List MetricPoint)}
        (λ n. All {A = Series × List MetricPoint} (λ s. length s.1 ≤ max) n.1)
        nodes
    → All {A = Uuid × Map Series (List MetricPoint)}
        (λ n. All {A = Series × List MetricPoint} (λ s. length s.1 ≤ max) n.1)
        (collect_points min_ts nodes)
unfolding collect_points
collect_points-All max min_ts =
    let step : Map Series (List MetricPoint) → Map Series (List MetricPoint) =
      retain (λ points. unless_empty (drop_old min_ts points)) in
    retain-All {K = Uuid} {V = Map Series (List MetricPoint)}
      (λ n. All {A = Series × List MetricPoint} (λ s. length s.1 ≤ max) n.1)
      (λ n. All {A = Series × List MetricPoint} (λ s. length s.1 ≤ max) n.1)
      (λ series. unless_empty (step series))
      (λ node_id series left a some_left.
        let e : left ≡ step series = unless_empty-some (step series) left some_left in
        rw e (collect_series-All max min_ts series a))

-- The collection of old points gives no series more than `max_points` points.
pub perform_gc-IsBounded :
    (now_ms : ℤ) (st : MetricStorage) → IsBounded st → IsBounded (perform_gc now_ms st)
unfolding perform_gc
perform_gc-IsBounded now_ms st =
    collect_points-All st.max_points (now_ms -ℤ retention_ms st) st.inner
