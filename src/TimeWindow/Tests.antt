-- ===== src/TimeWindow/Tests.antt =====
-- A schedule, a camera in motion mode, and the theorems of the windows and of the scheduler at them.
use rpi_home_monitor.Base.{
  ℕ, ◌*◌, ◌-◌, String, ◌≡◌, ◌≢◌, refl, true, false, none, some, Option, List, [], ◌∷◌, arith, All,
  keep, codes,
}
use Prim.Native.String.{◌++◌ as concat}
use rpi_home_monitor.MotionEventStore.{
  MotionEvent, Duration, forward, update_last, compact, append, scan, is_camera_active,
}
use rpi_home_monitor.TimeWindow.{
  Now, Window, junk, window, ScheduleMatch, weekday, any_day, match_times, match_from,
  match_schedule_window, now_in_window, parse_hhmm,
}
use rpi_home_monitor.TimeWindow.Week.{Covers, match_times-Covers, match_times_found}
use rpi_home_monitor.TimeWindow.Recording.{
  Camera, Rig, start_recorder, is_needed, ask_stream, start_commands, stop_commands, reconcile,
  evaluate, reconcile_camera,
}
use rpi_home_monitor.TimeWindow.Recording.Decisions.{
  IsFounded, reconcile-IsFounded, append-reconcile_camera,
}

program : Unit {0}
unfolding keep any_day match_times match_from match_schedule_window now_in_window parse_hhmm codes
    is_needed ask_stream start_commands stop_commands reconcile evaluate reconcile_camera
    update_last compact append scan is_camera_active
program = tt

-- From 22:00 to 06:00 on Fridays.
abbrev fridays : List Window
fridays = junk ∷ window ("fri" ∷ []) (codes "22:00") (codes "06:00") ∷ []

-- Saturday, 05:59.
abbrev saturday : Now
saturday = record { date = 12; minute = 359 }

overnight_match :
    match_schedule_window fridays saturday
    ≡ some (record { index = 1; start_date = 11; overnight = true })
unfolding program
overnight_match = refl

abbrev found : ScheduleMatch
found = record { index = 0; start_date = 11; overnight = true }

match_times-Covers_example :
    (any_day (weekday 11) ("fri" ∷ []) ≡ true) × Covers 1320 360 saturday 11
match_times-Covers_example =
    match_times-Covers ("fri" ∷ []) 1320 360 saturday 0 found (omega arith) (omega arith)
      (omega arith) (unfold program in refl)

match_times_found_case : match_times 0 ("fri" ∷ []) 1320 360 saturday ≢ none
match_times_found_case =
    match_times_found ("fri" ∷ []) 1320 360 saturday 0 11 (omega arith) (omega arith) (omega arith)
      (unfold program in refl) (unfold program in (omega arith, omega arith))

abbrev parse : String → Option ℕ
parse t = none

abbrev elapsed : ℕ → ℕ → Duration
elapsed a b = forward ((b - a) * 0)

abbrev motion_camera : Camera
motion_camera = record {
  id = "cam";
  ip = "10.0.0.5";
  recording_mode = "motion";
  recording_schedule = [];
  desired_stream_state = "running";
  streaming = true;
}

abbrev idle : Rig
idle = record { has_streaming = true; records = false; control = some true; has_coordinator = true }

abbrev started : MotionEvent
started = record {
  id = "e1";
  camera_id = "cam";
  started_at = "T1";
  ended_at = none;
  duration_seconds = forward 0;
  clip_ref = none;
}

reconcile-IsFounded_example :
    All
      (IsFounded true (reconcile true motion_camera idle []).0.0 idle)
      (reconcile true motion_camera idle []).0.1
reconcile-IsFounded_example = reconcile-IsFounded true motion_camera idle []

append-reconcile_camera_example :
    (reconcile_camera parse elapsed motion_camera saturday 5
      (some (append parse elapsed started []))
      10
      idle
      []).0.1
    ≡ start_recorder "cam" (concat "rtsp://127.0.0.1:8554/" "cam") ∷ []
append-reconcile_camera_example =
    append-reconcile_camera parse elapsed started [] motion_camera saturday 5 10 idle []
      (unfold program in refl) refl refl refl refl refl refl refl
