-- ===== src/MotionDetector.antt =====
-- The on-camera motion detector (app/camera/camera_streamer/motion.py). A frame is the list of its
-- pixels. A score is the fraction of changed pixels, kept as its two numbers; the thresholds are
-- in millionths, and instants are natural numbers of one unit. Comparisons of fractions are
-- written by cross multiplication, so there is no rounding.
pub mod Events
mod Tests
use rpi_home_monitor.Base.{
  ℕ, zero, suc, ◌+◌, ◌-◌, ◌*◌, Bool, true, false, ◌&&◌, ◌||◌, not, Option, none, some, List, [],
  ◌∷◌, length, ltb, leb, if◌then◌else◌,
}

abbrev pub Frame : Type 0
Frame = List ℕ

pub record Score : Type 0 where
  pub changed : ℕ
  pub size : ℕ

pub record Config : Type 0 where
  pub pixel_diff_threshold : ℕ
  pub start_score_threshold : ℕ
  pub end_score_threshold : ℕ
  pub min_start_frames : ℕ
  pub min_end_frames : ℕ
  pub min_event_duration : ℕ

pub record Event : Type 0 where
  pub started_at : ℕ
  pub ended_at : Option ℕ
  pub peak_score : Score
  pub peak_pixels_changed : ℕ
  pub frames_above : ℕ
  pub frames_below : ℕ

pub data Phase : Type 0 where
  start end : Phase

pub record Detector : Type 0 where
  pub prev1 : Option Frame
  pub prev2 : Option Frame
  pub frames_above : ℕ
  pub frames_below : ℕ
  pub current : Option Event
  pub pending_transition : Option (Phase × Event)
  pub start_emitted : Bool

-- `__init__`, and what `reset` returns to.
abbrev pub reset : Detector
reset = record {
  prev1 = none;
  prev2 = none;
  frames_above = 0;
  frames_below = 0;
  current = none;
  pending_transition = none;
  start_emitted = false;
}

abbrev million : ℕ
million = 1_000_000

-- `score >= threshold` and `score <= threshold`
unfoldable pub at_least : Score → ℕ → Bool
at_least score threshold = leb (threshold * score.size) (score.changed * million)

unfoldable pub at_most : Score → ℕ → Bool
at_most score threshold = leb (score.changed * million) (threshold * score.size)

-- `score > peak`
unfoldable pub exceeds : Score → Score → Bool
exceeds score peak = ltb (peak.changed * score.size) (score.changed * peak.size)

-- `(np.abs(frame - prev) > thr).sum()`
unfoldable pub changed_pixels : ℕ → Frame → Frame → ℕ
changed_pixels thr (p ∷ frame) (q ∷ prev) =
    let rest = changed_pixels thr frame prev in
    if ltb thr ((p - q) + (q - p)) then suc rest else rest
changed_pixels thr _ _ = 0

module _ (cfg : Config) where
  unfoldable pub maybe_emit_start : ℕ → Event → Detector → Detector
  maybe_emit_start now evt d = if d.start_emitted then d else elim d.pending_transition [
    | some queued ↦ d
    | none ↦
        if leb (evt.started_at + cfg.min_event_duration) now
        then record d { pending_transition = some (start, evt); start_emitted = true }
        else d
  ]

  unfoldable pub close_event : ℕ → Event → Detector → Detector
  close_event now evt d =
      let closed = record d {
        current = none;
        frames_below = 0;
        frames_above = 0;
        start_emitted = false;
      } in
      if ltb now (evt.started_at + cfg.min_event_duration) || not d.start_emitted
      then closed
      else record closed { pending_transition = some (end, record evt { ended_at = some now }) }

  -- Not in an event: look for an onset.
  unfoldable pub look_for_onset : Score → ℕ → ℕ → Detector → Detector
  look_for_onset score pixels now d =
      if at_least score cfg.start_score_threshold
      then (if leb cfg.min_start_frames (suc d.frames_above)
          then record d {
            frames_above = 0;
            frames_below = 0;
            current = some (record {
              started_at = now;
              ended_at = none;
              peak_score = score;
              peak_pixels_changed = pixels;
              frames_above = suc d.frames_above;
              frames_below = 0;
            });
          }
          else record d { frames_above = suc d.frames_above; frames_below = 0 })
      else record d { frames_above = 0 }

  unfoldable pub update_peak : Score → ℕ → Event → Event
  update_peak score pixels evt =
      if exceeds score evt.peak_score
      then record evt { peak_score = score; peak_pixels_changed = pixels }
      else evt

  -- In an event: look for its exit.
  unfoldable pub look_for_exit : Score → ℕ → Event → Detector → Detector
  look_for_exit score now evt d =
      if at_most score cfg.end_score_threshold
      then (if leb cfg.min_end_frames (suc d.frames_below)
          then close_event now evt d
          else record d { frames_below = suc d.frames_below; frames_above = 0 })
      else maybe_emit_start now evt (record d { frames_below = 0 })

  -- The detector with the peak of its event updated, then the exit.
  abbrev pub update_event : Score → ℕ → ℕ → Detector → Option Event → Detector
  update_event score pixels now d none = look_for_onset score pixels now d
  update_event score pixels now d (some evt) =
      let evt' = update_peak score pixels evt in
      look_for_exit score now evt' (record d { current = some evt' })

  unfoldable pub update_hysteresis : Score → ℕ → ℕ → Detector → Detector
  update_hysteresis score pixels now d = update_event score pixels now d d.current

  -- By the two frames that are remembered: two are needed before scores are taken.
  abbrev pub feed : Frame → ℕ → Detector → Option Frame → Option Frame → Detector
  feed frame now d none prev2 = record d { prev1 = some frame }
  feed frame now d (some prev1) none = record d { prev2 = some prev1; prev1 = some frame }
  feed frame now d (some prev1) (some prev2) =
      let pixels = changed_pixels cfg.pixel_diff_threshold frame prev1 in
      let score : Score = record { changed = pixels; size = length frame } in
      record (update_hysteresis score pixels now d) { prev2 = some prev1; prev1 = some frame }

  -- `process_frame` on a frame of the right shape.
  unfoldable pub process_frame : Frame → ℕ → Detector → Detector
  process_frame frame now d = feed frame now d d.prev1 d.prev2

  unfoldable pub poll_event : Detector → Option (Phase × Event) × Detector
  poll_event d = (d.pending_transition, record d { pending_transition = none })

  -- The loop of the runner: every frame is processed and polled for. The transitions, in order.
  unfoldable pub run : List (Frame × ℕ) → Detector → List (Phase × Event)
  run [] d = []
  run ((frame, now) ∷ frames) d =
      let (transition, d') = poll_event (process_frame frame now d) in
      let rest = run frames d' in elim transition [ none ↦ rest | some t ↦ t ∷ rest ]
