-- ===== src/TimeWindow/Recording/Decisions.antt =====
-- When the recorder of a camera is started and stopped
-- (app/server/monitor/services/recording_scheduler.py).
use rpi_home_monitor.Base.{
  ℕ, String, ◌≡◌, refl, ◌∙◌, Bool, true, false, ◌&&◌, not, Option, none, some, List, [], ◌∷◌, All,
  All-append, Bool-cases, inl, inr, str_eq, eq_iff, arith,
}
use mathlib.Core.Path.{subst}
use Prim.Native.String.{◌++◌ as concat}
use rpi_home_monitor.MotionEventStore.{MotionEvent, Duration, is_open, append, is_camera_active}
use rpi_home_monitor.MotionEventStore.Orphans.{IsNew, append-is_camera_active}
use rpi_home_monitor.TimeWindow.{Now}
use rpi_home_monitor.TimeWindow.Recording.{
  Camera, Rig, Command, start_stream, save_camera, start_recorder, stop_recorder, coordinator_stop,
  is_recording, asked, ask_stream, start_commands, stop_commands, reconcile, evaluate,
  reconcile_camera,
}

-- What must hold where a command is given, by whether a recording is wanted and the camera after it.
abbrev pub IsFounded : Bool → Camera → Rig → Command → Type 0
IsFounded wanted camera rig (start_recorder k url) =
    (wanted ≡ true)
    × (camera.desired_stream_state ≡ "running")
    × (camera.streaming ≡ true)
    × (is_recording rig ≡ false)
IsFounded wanted camera rig (stop_recorder k) = (wanted ≡ false) × (is_recording rig ≡ true)
IsFounded wanted camera rig (coordinator_stop k) = wanted ≡ false
IsFounded wanted camera rig (start_stream ip k) = wanted ≡ true
IsFounded wanted camera rig (save_camera c) = wanted ≡ true

-- A stream that is ready was asked for.
abbrev Asked : Rig → Bool × (Camera × List Command) → Type 0
Asked rig (ready, (camera, commands)) =
    (ready ≡ true → camera.desired_stream_state ≡ "running")
    × All (IsFounded true camera rig) commands

asked-Asked :
    (camera : Camera) (rig : Rig) (control : Option Bool) → Asked rig (asked camera control)
asked-Asked camera rig none = ((λ e. cc), tt)
asked-Asked camera rig (some false) = ((λ e. cc), (refl, tt))
asked-Asked camera rig (some true) = ((λ e. refl), (refl, (refl, tt)))

ask_stream-Asked : (camera : Camera) (rig : Rig) → Asked rig (ask_stream camera rig)
unfolding ask_stream
ask_stream-Asked camera rig = elim (Bool-cases (str_eq camera.desired_stream_state "running")) [
  | inl runs ↦ rw runs ((λ e. (eq_iff camera.desired_stream_state "running").0 runs), tt)
  | inr stopped ↦ rw stopped (elim (Bool-cases (str_eq camera.ip "")) [
    | inl nowhere ↦ rw nowhere ((λ e. cc), tt)
    | inr somewhere ↦ rw somewhere (asked-Asked camera rig rig.control)
  ])
]

start_commands-IsFounded :
    (ready : Bool) (camera : Camera) (rig : Rig)
    → (ready ≡ true → camera.desired_stream_state ≡ "running")
    → All (IsFounded true camera rig) (start_commands ready camera rig)
unfolding start_commands
start_commands-IsFounded ready camera rig h =
    elim (Bool-cases
      ((ready && camera.streaming) && (not (is_recording rig) && rig.has_streaming))) [
        | inl go ↦ rw go ((refl, h (ground arith), ground arith, ground arith), tt)
        | inr no_go ↦ rw no_go tt
      ]

stop_commands-IsFounded :
    (camera : Camera) (rig : Rig) → All (IsFounded false camera rig) (stop_commands camera rig)
unfolding stop_commands
stop_commands-IsFounded camera rig = elim (Bool-cases (is_recording rig)) [
  | inl records ↦ rw records (
    (refl, records),
    elim (Bool-cases rig.has_coordinator) [
      | inl has ↦ rw has (refl, tt)
      | inr without ↦ rw without tt
    ],
  )
  | inr idle ↦ rw idle tt
]

-- Recorders follow the decision and the stream: every command to start a recorder is given while a
-- recording is wanted, the camera's stream is asked to run and publishes, and nothing records yet;
-- every command to stop one while none is wanted and one is running; the camera is asked for its
-- stream only for a recording, and the coordinator to stop it only without one.
pub reconcile-IsFounded :
    (wanted : Bool) (camera : Camera) (rig : Rig) (needed : List String)
    → All
        (IsFounded wanted (reconcile wanted camera rig needed).0.0 rig)
        (reconcile wanted camera rig needed).0.1
unfolding reconcile
reconcile-IsFounded true camera rig needed =
    let (running, founded) = ask_stream-Asked camera rig in
    All-append _ _ _ founded (start_commands-IsFounded _ _ rig running)
reconcile-IsFounded false camera rig needed = stop_commands-IsFounded camera rig

evaluate_motion :
    (parse : String → Option ℕ) (elapsed : ℕ → ℕ → Duration) (camera : Camera) (now : Now)
    (instant : ℕ) (events : List MotionEvent) (post_roll : ℕ)
    → camera.recording_mode ≡ "motion"
    → evaluate parse elapsed camera now instant (some events) post_roll
      ≡ is_camera_active parse elapsed camera.id post_roll instant events
unfolding evaluate
evaluate_motion parse elapsed camera now instant events post_roll mode = rw mode refl

reconcile_ready :
    (camera : Camera) (rig : Rig) (needed : List String)
    → camera.desired_stream_state ≡ "running"
    → camera.streaming ≡ true
    → rig.has_streaming ≡ true
    → rig.records ≡ false
    → (reconcile true camera rig needed).0.1
      ≡ start_recorder camera.id (concat "rtsp://127.0.0.1:8554/" camera.id) ∷ []
unfolding reconcile ask_stream start_commands
reconcile_ready camera rig needed run publishes has idle =
    rw ((eq_iff camera.desired_stream_state "running").1 run) (rw publishes (rw has (rw idle refl)))

-- Motion starts a recording: for a camera in motion mode whose stream runs and publishes and which
-- does not record yet, with a recorder at hand, the reconciliation after a new motion event without
-- an end was appended for it starts the recorder, and does nothing else, at every instant and for
-- every post-roll.
pub append-reconcile_camera :
    (parse : String → Option ℕ) (elapsed : ℕ → ℕ → Duration) (event : MotionEvent)
    (events : List MotionEvent) (camera : Camera) (now : Now) (instant post_roll : ℕ) (rig : Rig)
    (needed : List String)
    → IsNew parse elapsed event events
    → is_open event ≡ true
    → event.camera_id ≡ camera.id
    → camera.recording_mode ≡ "motion"
    → camera.desired_stream_state ≡ "running"
    → camera.streaming ≡ true
    → rig.has_streaming ≡ true
    → rig.records ≡ false
    → (reconcile_camera parse elapsed camera now instant
        (some (append parse elapsed event events))
        post_roll
        rig
        needed).0.1
      ≡ start_recorder camera.id (concat "rtsp://127.0.0.1:8554/" camera.id) ∷ []
unfolding reconcile_camera
append-reconcile_camera parse elapsed event events camera now instant post_roll rig needed new
      unended same mode run publishes has idle =
    let active : evaluate parse elapsed camera now instant
          (some (append parse elapsed event events)) post_roll
        ≡ true =
      evaluate_motion parse elapsed camera now instant (append parse elapsed event events) post_roll
        mode
      ∙ subst
          (λ k.
            is_camera_active parse elapsed k post_roll instant (append parse elapsed event events)
            ≡ true)
          same (append-is_camera_active parse elapsed event events post_roll instant new unended) in
    rw active (reconcile_ready camera rig needed run publishes has idle)
