-- ===== src/RestartSchedule.antt =====
-- The weekly restart of a camera or the server
-- (app/server/monitor/services/restart_schedule_model.py). A time of day is a number of seconds on the
-- clock of the schedule's time zone, a date a number of days, and day 0 a Monday. Days in a payload are
-- as they are behind `strip()` and `lower()`; a value of another type is `none`.
pub mod Next
mod Tests
use rpi_home_monitor.Base.{
  ℕ, zero, suc, ◌+◌, ◌*◌, ◌%◌, String, Bool, true, false, ◌&&◌, ◌||◌, not, Option, none, some, List,
  [], ◌∷◌, Text, keep, leb, ltb, ◌==◌, if◌then◌else◌, is_empty,
}
use rpi_home_monitor.TimeWindow.{parse_hhmm, any_day}

pub record Payload : Type 0 where
  pub enabled : Bool
  pub days : Option (List String)
  pub time : Option Text

pub record Schedule : Type 0 where
  pub enabled : Bool
  pub days : List ℕ
  pub time : ℕ

abbrev pub default_restart_time : ℕ
default_restart_time = 210

abbrev pub day_order : List ℕ
day_order = 0 ∷ 1 ∷ 2 ∷ 3 ∷ 4 ∷ 5 ∷ 6 ∷ []

abbrev pub or_default : Option ℕ → ℕ
or_default none = default_restart_time
or_default (some minutes) = minutes

unfoldable pub valid_time : Option Text → ℕ
valid_time none = default_restart_time
valid_time (some text) = or_default (parse_hhmm text)

abbrev pub or_sunday : List ℕ → List ℕ
or_sunday [] = 6 ∷ []
or_sunday (day ∷ days) = day ∷ days

unfoldable pub valid_days : Option (List String) → List ℕ
valid_days none = 6 ∷ []
valid_days (some names) = or_sunday (keep (λ day. any_day day names) day_order)

-- `normalise_restart_schedule`, as far as it says when to restart.
unfoldable pub normalise_restart_schedule : Payload → Schedule
normalise_restart_schedule raw = record {
  enabled = raw.enabled;
  days = valid_days raw.days;
  time = valid_time raw.time;
}

pub record Instant : Type 0 where
  pub date : ℕ
  pub second : ℕ

abbrev pub is_after : Instant → Instant → Bool
is_after a b = ltb b.date a.date || (a.date == b.date && ltb b.second a.second)

unfoldable pub is_wanted : ℕ → List ℕ → Bool
is_wanted weekday [] = false
is_wanted weekday (day ∷ days) = day == weekday || is_wanted weekday days

abbrev pub candidate : Schedule → ℕ → Instant
candidate schedule date = record { date = date; second = schedule.time * 60 }

-- The loop of `next_run_at`, with the days that are left to look at.
unfoldable pub next_from : ℕ → ℕ → Schedule → Instant → Option Instant
next_from zero date schedule now = none
next_from (suc left) date schedule now =
    let later = next_from left (date + 1) schedule now in
    if not (is_wanted (date % 7) schedule.days)
    then later
    else if not (is_after (candidate schedule date) now)
    then later
    else some (candidate schedule date)

unfoldable pub next_run_at : Payload → Instant → Option Instant
next_run_at payload now =
    let schedule = normalise_restart_schedule payload in
    if schedule.enabled then next_from 8 now.date schedule now else none
