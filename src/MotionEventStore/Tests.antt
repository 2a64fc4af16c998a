-- ===== src/MotionEventStore/Tests.antt =====
-- Motion events of one camera, and the theorems of the event store at them.
use rpi_home_monitor.Base.{
  ℕ, ◌-◌, ◌/◌, String, ◌≡◌, ◌≤◌, refl, true, none, some, Option, List, [], ◌∷◌, length, arith, All,
  str_eq, if◌then◌else◌,
}
use rpi_home_monitor.MotionEventStore.{
  MotionEvent, Duration, forward, max_events, update_last, find_last, compact, append, reap_stale,
  scan, is_camera_active, list_events, get, count, attach_clip,
}
use rpi_home_monitor.MotionEventStore.Lookup.{append-bound, get-append}
use rpi_home_monitor.MotionEventStore.Orphans.{
  OnlyOpen, NotStale, append-OnlyOpen, append-is_camera_active, reap_stale-NotStale,
}

program : Unit {0}
unfolding update_last find_last compact append reap_stale scan is_camera_active list_events get
    count attach_clip
program = tt

-- Two timestamps that can be read.
abbrev parse : String → Option ℕ
parse t = if str_eq t "T1" then some 1000000 else if str_eq t "T9" then some 9000000 else none

abbrev elapsed : ℕ → ℕ → Duration
elapsed a b = forward ((b - a) / 10000)

abbrev started : String → String → MotionEvent
started id at = record {
  id = id;
  camera_id = "cam";
  started_at = at;
  ended_at = none;
  duration_seconds = forward 0;
  clip_ref = none;
}

abbrev one : List MotionEvent
one = started "e1" "T1" ∷ []

-- The second start ends the first event, after eight seconds.
orphan_closed :
    append parse elapsed (started "e2" "T9") one
    ≡ record (started "e1" "T1") { ended_at = some "T9"; duration_seconds = forward 800 }
      ∷ started "e2" "T9"
      ∷ []
unfolding program
orphan_closed = refl

append-bound_example : length (append parse elapsed (started "e2" "T9") one) ≤ max_events
append-bound_example = append-bound parse elapsed (started "e2" "T9") one (omega arith)

append-OnlyOpen_case :
    All (OnlyOpen parse elapsed (started "e2" "T9")) (append parse elapsed (started "e2" "T9") one)
append-OnlyOpen_case =
    append-OnlyOpen parse elapsed (started "e2" "T9") one (unfold program in refl) refl refl

append-is_camera_active_case :
    is_camera_active parse elapsed "cam" 10 99000000 (append parse elapsed (started "e2" "T9") one)
    ≡ true
append-is_camera_active_case =
    append-is_camera_active parse elapsed (started "e2" "T9") one 10 99000000
      (unfold program in refl) refl

reap_stale-NotStale_case :
    All
      (NotStale parse elapsed 700000000 600000000)
      (reap_stale parse elapsed 700000000 600000000 one).1
reap_stale-NotStale_case = reap_stale-NotStale parse elapsed 700000000 600000000 one

get-append_example :
    get parse elapsed "e2" (append parse elapsed (started "e2" "T9") one) ≡ some (started "e2" "T9")
get-append_example = get-append parse elapsed (started "e2" "T9") one
