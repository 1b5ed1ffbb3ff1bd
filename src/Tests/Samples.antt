-- ===== src/Tests/Samples.antt =====
-- Samples of the nodes.
use pony.Prelude.{ℕ, ◌≡◌, refl, arith, [], ◌∷◌, ◌++◌, length, keep}
use pony.Prelude.Int.{pos}
use pony.Prelude.Map.{lookup}
use pony.Prelude.Text.{Text, codes}
use pony.Metrics.{
  MetricPoint, MetricEnvelope, Tags, Series, MetricStorage, insert_envelope, get_range, in_range,
  points_of, point_of, perform_gc,
}
use pony.Metrics.Window.{IsOrdered, window, IsBounded, get_range-insert_envelope}
use pony.Metrics.Index.{IsIndexed, insert_envelope-IsIndexed}
use pony.Metrics.Garbage.{perform_gc-IsIndexed}

abbrev by_length : Text → Tags → Series
by_length name tags = length name

abbrev load : MetricEnvelope
load = record {
  node_id = 1;
  name = codes "sys.load";
  value = 3;
  timestamp = pos 30000;
  tags = (codes "env", codes "dev") ∷ [];
}

abbrev at : ℕ → MetricPoint
at ms = record { timestamp = pos ms; value = 1 }

abbrev storage : MetricStorage
storage = record {
  inner = (1, (8, at 1000 ∷ at 25000 ∷ []) ∷ []) ∷ [];
  metadata = (8, (codes "sys.load", (codes "env", codes "dev") ∷ [])) ∷ [];
  tag_index = (codes "env", (codes "dev", 8 ∷ []) ∷ []) ∷ [];
  max_points = 2;
  retention_seconds = pos 10;
}

later : IsOrdered (points_of storage 1 8 ++ point_of load ∷ [])
unfolding lookup
later = ground arith

get_range-insert_envelope_example :
    get_range (insert_envelope by_length load storage) 1 8 (pos 0) (pos 90000)
    ≡ keep (in_range (pos 0) (pos 90000)) (window storage (point_of load) (points_of storage 1 8))
get_range-insert_envelope_example =
    get_range-insert_envelope by_length load storage 1 8 (pos 0) (pos 90000) later

bounded : IsBounded storage
bounded = ground arith

indexed : IsIndexed storage
unfolding lookup
indexed =
    (((refl, tt), tt), ((((codes "sys.load", (codes "env", codes "dev") ∷ []), refl), tt), tt))

insert_envelope-IsIndexed_example : IsIndexed (insert_envelope by_length load storage)
insert_envelope-IsIndexed_example = insert_envelope-IsIndexed by_length load storage indexed

perform_gc-IsIndexed_example : IsIndexed (perform_gc (pos 40000) storage)
perform_gc-IsIndexed_example = perform_gc-IsIndexed (pos 40000) storage indexed
