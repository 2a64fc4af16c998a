-- ===== src/RestartSchedule/Tests.antt =====
-- A restart on Mondays and Thursdays, and the theorem of the schedule at it.
use rpi_home_monitor.Base.{◌≡◌, refl, true, none, some, [], ◌∷◌, codes, keep}
use rpi_home_monitor.TimeWindow.{parse_hhmm, any_day}
use rpi_home_monitor.RestartSchedule.{
  Payload, Instant, valid_time, valid_days, normalise_restart_schedule, is_wanted, next_from,
  next_run_at,
}
use rpi_home_monitor.RestartSchedule.Next.{IsNext, next_run_at-IsNext}

program : Unit {0}
unfolding keep parse_hhmm any_day valid_time valid_days normalise_restart_schedule is_wanted
    next_from next_run_at
program = tt

abbrev payload : Payload
payload = record {
  enabled = true;
  days = some ("thu" ∷ "mon" ∷ "someday" ∷ []);
  time = some (codes "04:15");
}

abbrev now : Instant
now = record { date = 700; second = 15300 }

-- It is just 04:15 on a Monday: the next restart is that of Thursday.
thursday : next_run_at payload now ≡ some (record { date = 703; second = 15300 })
unfolding program
thursday = refl

broken :
    next_run_at (record { enabled = true; days = none; time = some (codes "25:00") }) now
    ≡ some (record { date = 706; second = 12600 })
unfolding program
broken = refl

next_run_at-IsNext_example :
    IsNext (normalise_restart_schedule payload) now now.date 702 (next_run_at payload now)
next_run_at-IsNext_example = next_run_at-IsNext payload now 702 refl
