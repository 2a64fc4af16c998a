-- ===== src/TimeWindow/Recording.antt =====
-- The recording scheduler for one camera (app/server/monitor/services/recording_scheduler.py) over
-- the schedule windows and the motion event store. What it asks of the recorder, the camera and the
-- coordinator is a list of commands; what it finds out from them is a record, `Rig`.
pub mod Decisions
use Prim.Native.String.{◌++◌ as concat}
use rpi_home_monitor.Base.{
  ℕ, String, Bool, true, false, ◌&&◌, not, Option, none, some, List, [], ◌∷◌, ◌++◌, ◌||◌, keep,
  str_eq, if◌then◌else◌,
}
use rpi_home_monitor.MotionEventStore.{MotionEvent, Duration, is_camera_active}
use rpi_home_monitor.TimeWindow.{Window, Now, now_in_window}

pub record Camera : Type 0 where
  pub id : String
  pub ip : String
  pub recording_mode : String
  pub recording_schedule : List Window
  pub desired_stream_state : String
  pub streaming : Bool

-- `control` is the answer of `start_stream`, without an error or with one, where there is a client.
pub record Rig : Type 0 where
  pub has_streaming : Bool
  pub records : Bool
  pub control : Option Bool
  pub has_coordinator : Bool

pub data Command : Type 0 where
  start_stream : String → String → Command
  save_camera : Camera → Command
  start_recorder : String → String → Command
  stop_recorder coordinator_stop : String → Command

-- `self._needed`, a set.
unfoldable pub is_needed : String → List String → Bool
is_needed k [] = false
is_needed k (j ∷ needed) = str_eq j k || is_needed k needed

abbrev pub add_needed : String → List String → List String
add_needed k needed = if is_needed k needed then needed else k ∷ needed

abbrev pub discard_needed : String → List String → List String
discard_needed k needed = keep (λ j. not (str_eq j k)) needed

abbrev pub is_recording : Rig → Bool
is_recording rig = rig.has_streaming && rig.records

abbrev pub asked : Camera → Option Bool → Bool × (Camera × List Command)
asked camera none = (false, (camera, []))
asked camera (some false) = (false, (camera, start_stream camera.ip camera.id ∷ []))
asked camera (some true) =
    let running = record camera { desired_stream_state = "running" } in
    (true, (running, start_stream camera.ip camera.id ∷ save_camera running ∷ []))

-- Whether the stream is ready, once the camera was asked for it where it is not.
unfoldable pub ask_stream : Camera → Rig → Bool × (Camera × List Command)
ask_stream camera rig =
    if str_eq camera.desired_stream_state "running"
    then (true, (camera, []))
    else (if str_eq camera.ip "" then (false, (camera, [])) else asked camera rig.control)

unfoldable pub start_commands : Bool → Camera → Rig → List Command
start_commands stream_ready camera rig =
    if (stream_ready && camera.streaming) && (not (is_recording rig) && rig.has_streaming)
    then start_recorder camera.id (concat "rtsp://127.0.0.1:8554/" camera.id) ∷ []
    else []

unfoldable pub stop_commands : Camera → Rig → List Command
stop_commands camera rig =
    if is_recording rig
    then stop_recorder camera.id
      ∷ (if rig.has_coordinator then coordinator_stop camera.id ∷ [] else [])
    else []

-- `_reconcile_camera` behind `evaluate`: the camera, the commands, and the cameras that are needed.
unfoldable pub reconcile : Bool → Camera → Rig → List String → (Camera × List Command) × List String
reconcile wanted camera rig needed =
    if wanted
    then (let (ready, (camera', commands)) = ask_stream camera rig in
        ((camera', commands ++ start_commands ready camera' rig), add_needed camera.id needed))
    else ((camera, stop_commands camera rig), discard_needed camera.id needed)

module _ (parse : String → Option ℕ) (elapsed : ℕ → ℕ → Duration) where
  -- The instant of the motion events is counted in microseconds.
  abbrev pub motion_active : String → ℕ → ℕ → Option (List MotionEvent) → Bool
  motion_active camera_id post_roll instant none = false
  motion_active camera_id post_roll instant (some events) =
      is_camera_active parse elapsed camera_id post_roll instant events

  unfoldable pub evaluate : Camera → Now → ℕ → Option (List MotionEvent) → ℕ → Bool
  evaluate camera now instant motion_event_store post_roll =
      if str_eq camera.recording_mode "continuous"
      then true
      else if str_eq camera.recording_mode "schedule"
      then now_in_window camera.recording_schedule now
      else if str_eq camera.recording_mode "motion"
      then motion_active camera.id post_roll instant motion_event_store
      else false

  unfoldable pub reconcile_camera :
      Camera
      → Now
      → ℕ
      → Option (List MotionEvent)
      → ℕ
      → Rig
      → List String
      → (Camera × List Command) × List String
  reconcile_camera camera now instant motion_event_store post_roll rig needed =
      reconcile (evaluate camera now instant motion_event_store post_roll) camera rig needed
