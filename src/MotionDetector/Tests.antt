-- ===== src/MotionDetector/Tests.antt =====
-- A run of the motion detector, and its theorem at that run.
use rpi_home_monitor.Base.{ℕ, ◌≡◌, refl, none, List, [], ◌∷◌, map, arith}
use rpi_home_monitor.MotionDetector.{
  Frame, Config, Event, Phase, start, end, reset, at_least, at_most, exceeds, changed_pixels,
  maybe_emit_start, close_event, look_for_onset, update_peak, look_for_exit, update_hysteresis,
  process_frame, poll_event, run,
}
use rpi_home_monitor.MotionDetector.Events.{Paired, reset-Paired}

program : Unit {0}
unfolding at_least at_most exceeds changed_pixels maybe_emit_start close_event look_for_onset
    update_peak look_for_exit update_hysteresis process_frame poll_event run
program = tt

abbrev cfg : Config
cfg = record {
  pixel_diff_threshold = 8;
  start_score_threshold = 6000;
  end_score_threshold = 2000;
  min_start_frames = 2;
  min_end_frames = 2;
  min_event_duration = 2;
}

abbrev dark : Frame
dark = 0 ∷ 0 ∷ []

abbrev bright : Frame
bright = 0 ∷ 99 ∷ []

-- Something moves from instant 3 to 8, and then nothing does.
abbrev frames : List (Frame × ℕ)
frames =
    (dark, 1)
    ∷ (dark, 2)
    ∷ (bright, 3)
    ∷ (dark, 4)
    ∷ (bright, 5)
    ∷ (dark, 6)
    ∷ (bright, 7)
    ∷ (bright, 8)
    ∷ (bright, 9)
    ∷ []

abbrev brief : Phase × Event → Phase × ℕ
brief (phase, evt) = (phase, evt.started_at)

one_event : map brief (run cfg frames reset) ≡ (start, 4) ∷ (end, 4) ∷ []
unfolding program
one_event = refl

reset-Paired_example : Paired cfg none (run cfg frames reset)
reset-Paired_example = reset-Paired cfg 0 frames (omega arith)
