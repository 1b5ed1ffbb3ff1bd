-- ===== src/Metrics/Alive.antt =====
-- After a collection of old points the index has only series with points.
use pony.Prelude.{◌≡◌, Bool, true, List, [], ◌∷◌, arith, nat_eq, list_eq, keep, All, All-intro}
use pony.Prelude.Int.{ℤ, ◌-ℤ◌}
use pony.Prelude.Map.{Map, get_or_default, get_or_default-All, retain, retain-All}
use pony.Prelude.Text.{Text}
use pony.Metrics.{
  Series, MetricStorage, has, retention_ms, find_series_by_tag, alive_series, collect_points,
  collect_index, unless_empty, perform_gc,
}
use pony.Metrics.Window.{unless_empty-some}
use pony.Metrics.Index.{Index}

keep-All-true : (p : Series → Bool) (keys : List Series) → All (λ key. p key ≡ true) (keep p keys)
keep-All-true p [] = tt
keep-All-true p (k ∷ keys) = ground (arith, keep-All-true p keys)

values_alive :
    (alive : List Series) (values : Map Text (List Series))
    → All {A = Text × List Series}
        (λ e. All (λ key. has key alive ≡ true) e.1)
        (retain (λ set. unless_empty (keep (λ key. has key alive) set)) values)
values_alive alive values =
    retain-All {0, 0, 0, 0} {K = Text} {V = List Series} (λ e. Unit)
      (λ e. All (λ key. has key alive ≡ true) e.1)
      (λ set. unless_empty (keep (λ key. has key alive) set))
      (λ value set left _ some_left.
        let e : left ≡ keep (λ key. has key alive) set =
          unless_empty-some (keep (λ key. has key alive) set) left some_left in
        rw e (keep-All-true (λ key. has key alive) set))
      values (All-intro (λ e. Unit) (λ e. tt) values)

index_alive :
    (alive : List Series) (index : Index)
    → All {A = Text × Map Text (List Series)}
        (λ n. All {A = Text × List Series} (λ e. All (λ key. has key alive ≡ true) e.1) n.1)
        (collect_index alive index)
unfolding collect_index
index_alive alive index =
    let step : Map Text (List Series) → Map Text (List Series) =
      retain (λ set. unless_empty (keep (λ key. has key alive) set)) in
    retain-All {0, 0, 0, 0} {K = Text} {V = Map Text (List Series)} (λ n. Unit)
      (λ n. All {A = Text × List Series} (λ e. All (λ key. has key alive ≡ true) e.1) n.1)
      (λ values. unless_empty (step values))
      (λ k values left _ some_left.
        let e : left ≡ step values = unless_empty-some (step values) left some_left in
        rw e (values_alive alive values))
      index (All-intro (λ e. Unit) (λ e. tt) index)

-- After a collection every series that `find_series_by_tag` returns has points on some node.
pub find_series_by_tag-perform_gc :
    (now_ms : ℤ) (st : MetricStorage) (tag_key tag_value : Text)
    → All
        (λ key. has key (alive_series (perform_gc now_ms st).inner) ≡ true)
        (find_series_by_tag (perform_gc now_ms st) tag_key tag_value)
unfolding perform_gc find_series_by_tag
find_series_by_tag-perform_gc now_ms st tag_key tag_value =
    let alive : List Series = alive_series (collect_points (now_ms -ℤ retention_ms st) st.inner) in
    get_or_default-All (λ set. All (λ key. has key alive ≡ true) set) tag_value []
      (get_or_default tag_key [] (collect_index alive st.tag_index)) tt
      (get_or_default-All
        (λ values. All {A = Text × List Series} (λ e. All (λ key. has key alive ≡ true) e.1) values)
        tag_key [] (collect_index alive st.tag_index) tt (index_alive alive st.tag_index))
