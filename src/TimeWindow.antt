-- ===== src/TimeWindow.antt =====
-- The weekly schedule windows (app/server/monitor/services/time_window.py) and the recording
-- scheduler that reads them, with the motion events, for one camera
-- (app/server/monitor/services/recording_scheduler.py). A day of the week counts from Monday, 0; a
-- time of day is the number of its whole minutes, since windows start and end with a minute; a date is a
-- number of days, and day 0 is a Monday. Digits are those of ASCII.
mod Tests
pub mod Week
pub mod Recording
use rpi_home_monitor.Base.{
  ℕ, ◌+◌, ◌-◌, ◌*◌, ◌/◌, ◌%◌, String, Bool, true, false, ◌&&◌, not, Option, none, some, List, [],
  ◌∷◌, Text, is_digit, str_eq, ltb, leb, ◌==◌, if◌then◌else◌,
}

abbrev pub day_index : String → Option ℕ
day_index d =
    if str_eq d "mon"
    then some 0
    else if str_eq d "tue"
    then some 1
    else if str_eq d "wed"
    then some 2
    else if str_eq d "thu"
    then some 3
    else if str_eq d "fri"
    then some 4
    else if str_eq d "sat"
    then some 5
    else if str_eq d "sun"
    then some 6
    else none

-- `_TIME_RE` and the split at the colon: two digits, a colon, two digits, where `$` also lets a line
-- feed stand at the end; hours and minutes that `datetime.time` takes.
abbrev pub ends_line : Text → Bool
ends_line [] = true
ends_line (c ∷ []) = c == 10
ends_line (c ∷ d ∷ rest) = false

abbrev pub two_digits : ℕ → ℕ → ℕ
two_digits a b = (a - 48) * 10 + (b - 48)

unfoldable pub parse_hhmm : Text → Option ℕ
parse_hhmm (a ∷ b ∷ colon ∷ c ∷ d ∷ rest) =
    if ((is_digit a && is_digit b) && colon == 58) && ((is_digit c && is_digit d) && ends_line rest)
    then (if ltb (two_digits a b) 24 && ltb (two_digits c d) 60
        then some (two_digits a b * 60 + two_digits c d)
        else none)
    else none
parse_hhmm _ = none

-- A window as it is stored: an entry that is no object is `junk`.
pub data Window : Type 0 where
  junk : Window
  window : List String → Text → Text → Window

pub record Now : Type 0 where
  pub date : ℕ
  pub minute : ℕ

abbrev pub weekday : ℕ → ℕ
weekday date = date % 7

pub record ScheduleMatch : Type 0 where
  pub index : ℕ
  pub start_date : ℕ
  pub overnight : Bool

-- `any(DAY_INDEX[d] == idx for d in day_keys)`
abbrev pub is_day : ℕ → Option ℕ → Bool
is_day idx none = false
is_day idx (some i) = i == idx

unfoldable pub any_day : ℕ → List String → Bool
any_day idx [] = false
any_day idx (d ∷ days) =
    let rest = any_day idx days in if is_day idx (day_index d) then true else rest

-- A window with both times: whether it holds the instant, and on which day it began.
unfoldable pub match_times : ℕ → List String → ℕ → ℕ → Now → Option ScheduleMatch
match_times idx days start end now =
    let today_match = any_day (weekday now.date) days in
    let yest_match = any_day ((weekday now.date + 6) % 7) days in
    if ltb start end
    then (if today_match && (leb start now.minute && ltb now.minute end)
        then some (record { index = idx; start_date = now.date; overnight = false })
        else none)
    else (if today_match && leb start now.minute
        then some (record { index = idx; start_date = now.date; overnight = true })
        else (if yest_match && ltb now.minute end
            then some (record { index = idx; start_date = now.date - 1; overnight = true })
            else none))

abbrev pub match_parsed : ℕ → List String → Option ℕ → Option ℕ → Now → Option ScheduleMatch
match_parsed idx days (some start) (some end) now = match_times idx days start end now
match_parsed idx days _ _ now = none

abbrev pub match_window : ℕ → Window → Now → Option ScheduleMatch
match_window idx junk now = none
match_window idx (window days start end) now =
    match_parsed idx days (parse_hhmm start) (parse_hhmm end) now

abbrev pub or_next : Option ScheduleMatch → Option ScheduleMatch → Option ScheduleMatch
or_next none next = next
or_next (some found) next = some found

unfoldable pub match_from : ℕ → List Window → Now → Option ScheduleMatch
match_from idx [] now = none
match_from idx (w ∷ schedule) now =
    or_next (match_window idx w now) (match_from (idx + 1) schedule now)

unfoldable pub match_schedule_window : List Window → Now → Option ScheduleMatch
match_schedule_window schedule now = match_from 0 schedule now

abbrev pub is_some : Option ScheduleMatch → Bool
is_some none = false
is_some (some m) = true

unfoldable pub now_in_window : List Window → Now → Bool
now_in_window schedule now = is_some (match_schedule_window schedule now)
