-- ===== src/Tests/Schedule.antt =====
-- A daily task at ten hours whose sleep starts two and a half seconds before.
use pony.Prelude.{ℕ, ◌+◌, ◌≤◌, ◌<◌, ◌≡◌, refl, arith}
use pony.Schedule.{nanos, LocalTime, instant, next_run, wait_duration}
use pony.Schedule.Waking.{wait-next_run}

abbrev ten : ℕ
ten = 36000000000000

abbrev asleep : LocalTime
asleep = record { date = 20000; time = 35997500000000 }

abbrev awake : LocalTime
awake = record { date = 20000; time = 35999500000000 }

two_seconds : wait_duration ten asleep ≡ 2
unfolding wait_duration next_run
two_seconds = refl

wait-next_run_example :
    (instant awake ≤ instant (next_run ten asleep))
    × (instant (next_run ten asleep) < instant awake + nanos)
    × (instant awake < instant (next_run ten asleep)
        → (instant (next_run ten awake) ≡ instant (next_run ten asleep))
          × (wait_duration ten awake ≡ 0))
wait-next_run_example =
    wait-next_run ten asleep awake (omega arith) (omega arith) (omega arith) (rw two_seconds refl)
