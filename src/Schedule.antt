-- ===== src/Schedule.antt =====
-- src/utils.rs: the task that runs once a day. The local clock counts days and nanoseconds of the
-- day; a change of the offset from UTC is not modelled.
pub mod Waking
use pony.Prelude.{ℕ, ◌+◌, ◌-◌, ◌*◌, ◌/◌, ◌<◌, ltb, if◌then◌else◌}

abbrev pub nanos : ℕ
nanos = 1000000000

abbrev pub day : ℕ
day = 86400000000000

pub record LocalTime : Type 0 where
  pub date : ℕ
  pub time : ℕ

abbrev pub IsLocal : LocalTime → Type 0
IsLocal now = now.time < day

abbrev pub instant : LocalTime → ℕ
instant now = now.date * day + now.time

unfoldable pub next_run : ℕ → LocalTime → LocalTime
next_run target_time now =
    if ltb now.time target_time
    then record { date = now.date; time = target_time }
    else record { date = now.date + 1; time = target_time }

-- The seconds of the sleep; what is left of the last second is dropped.
unfoldable pub wait_duration : ℕ → LocalTime → ℕ
wait_duration target_time now = (instant (next_run target_time now) - instant now) / nanos
