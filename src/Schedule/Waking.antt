-- ===== src/Schedule/Waking.antt =====
-- When the daily task of src/utils.rs runs next, and when it wakes up.
use pony.Prelude.{ℕ, ◌+◌, ◌-◌, ◌*◌, ◌/◌, ◌≤◌, ◌<◌, ◌≡◌, arith}
use pony.Schedule.{nanos, day, LocalTime, IsLocal, instant, next_run, wait_duration}

-- The next run is after now and at most a day away, and no later than any reading of the clock
-- after now that shows the target time.
pub next_run_lem :
    (target_time : ℕ) (now other : LocalTime)
    → target_time < day
    → IsLocal now
    → (instant now < instant (next_run target_time now))
      × (instant (next_run target_time now) ≤ instant now + day)
      × (other.time ≡ target_time
          → instant now < instant other
          → instant (next_run target_time now) ≤ instant other)
unfolding next_run
next_run_lem t now other h local = ground arith

div_bounds : (d : ℕ) → (d / nanos * nanos ≤ d) × (d < d / nanos * nanos + nanos)
div_bounds d = (omega arith, omega arith)

same_next :
    (t : ℕ) (now woken : LocalTime)
    → t < day
    → IsLocal now
    → IsLocal woken
    → instant now ≤ instant woken
    → instant woken < instant (next_run t now)
    → instant (next_run t woken) ≡ instant (next_run t now)
unfolding next_run
same_next t now woken h local local' later early = ground arith

-- Less than a second is no second.
wait-soon :
    (t : ℕ) (woken : LocalTime)
    → instant (next_run t woken) < instant woken + nanos
    → wait_duration t woken ≡ 0
unfolding wait_duration
wait-soon t woken h = omega arith

-- A sleep of wait_duration that takes exactly its seconds ends at most at the next run and less
-- than a second before it; if it ends before, the task, which runs then, is due again at the same
-- next run and the following sleep has no seconds.
pub wait-next_run :
    (target_time : ℕ) (now woken : LocalTime)
    → target_time < day
    → IsLocal now
    → IsLocal woken
    → instant woken ≡ instant now + wait_duration target_time now * nanos
    → (instant woken ≤ instant (next_run target_time now))
      × (instant (next_run target_time now) < instant woken + nanos)
      × (instant woken < instant (next_run target_time now)
          → (instant (next_run target_time woken) ≡ instant (next_run target_time now))
            × (wait_duration target_time woken ≡ 0))
unfolding wait_duration
wait-next_run t now woken h local local' slept =
    let after : instant now < instant (next_run t now) = (next_run_lem t now now h local).0 in
    let bounds = div_bounds (instant (next_run t now) - instant now) in
    let upper : instant woken ≤ instant (next_run t now) = omega arith in
    let lower : instant (next_run t now) < instant woken + nanos = omega arith in
    (
      upper,
      lower,
      λ early.
          let same : instant (next_run t woken) ≡ instant (next_run t now) =
            same_next t now woken h local local' (omega arith) early in
          (same, wait-soon t woken (omega arith)),
    )
