-- ===== src/MotionDetector/Events.antt =====
-- The transitions that the detector of `motion.py` reports: starts and ends in pairs.
use rpi_home_monitor.Base.{
  ℕ, ◌+◌, ◌≤◌, ◌≡◌, refl, Bool, true, false, Bool-cases, leb, ltb, suc, Option, none, some, List,
  [], ◌∷◌, length, arith, inl, inr,
}
use rpi_home_monitor.MotionDetector.{
  Frame, Score, Config, Event, Phase, start, end, Detector, reset, changed_pixels, at_most,
  at_least, maybe_emit_start, close_event, look_for_onset, update_peak, look_for_exit, update_event,
  feed, update_hysteresis, process_frame, poll_event, run,
}

-- Reports in order, from a state in which `open` holds the beginning of an event whose start is
-- reported and whose end is not.
abbrev pub Paired : Config → Option ℕ → List (Phase × Event) → Type 0
Paired cfg opened [] = Unit
Paired cfg opened ((start, evt) ∷ reports) =
    (opened ≡ none) × Paired cfg (some evt.started_at) reports
Paired cfg opened ((end, evt) ∷ reports) =
    (opened ≡ some evt.started_at)
    × ((e : ℕ) × (evt.ended_at ≡ some e) × (evt.started_at + cfg.min_event_duration ≤ e))
    × Paired cfg none reports

-- The event whose start has been reported.
abbrev reported : Bool → Option Event → Option ℕ
reported false current = none
reported true none = none
reported true (some evt) = some evt.started_at

-- Between two frames nothing is queued; a reported start belongs to the current event, which was
-- old enough by the instant `t` of the last frame.
abbrev pub Aged : Config → ℕ → Bool → Option Event → Type 0
Aged cfg t false current = Unit
Aged cfg t true none = ⊥
Aged cfg t true (some evt) = evt.started_at + cfg.min_event_duration ≤ t

pub record IsValid (cfg : Config) (t : ℕ) (d : Detector) : Type 0 where
  pub polled : d.pending_transition ≡ none
  pub aged : Aged cfg t d.start_emitted d.current

-- What one frame does to the reports, of which `before` and `after` are open.
abbrev Reported : Config → Option ℕ → Option ℕ → Option (Phase × Event) → Type 0
Reported cfg before after none = after ≡ before
Reported cfg before after (some (start, evt)) = (before ≡ none) × (after ≡ some evt.started_at)
Reported cfg before after (some (end, evt)) =
    (before ≡ some evt.started_at)
    × ((e : ℕ) × (evt.ended_at ≡ some e) × (evt.started_at + cfg.min_event_duration ≤ e))
    × (after ≡ none)

abbrev Reports : Config → Detector → Detector → Type 0
Reports cfg d d' =
    Reported cfg (reported d.start_emitted d.current) (reported d'.start_emitted d'.current)
      d'.pending_transition

module _ (cfg : Config) (now : ℕ) where
  abbrev Step : Detector → Detector → Type 0
  Step d d' = Reports cfg d d' × Aged cfg now d'.start_emitted d'.current

  -- `Step` as a statement about the fields, for the tactics.
  abbrev Fields : Bool → Option Event → Option (Phase × Event) → Bool → Option Event → Type 0
  Fields b c pending b' c' =
      Reported cfg (reported b c) (reported b' c') pending × Aged cfg now b' c'

  close-Step :
      (b : Bool) (evt : Event) (d : Detector)
      → d.start_emitted ≡ b
      → d.pending_transition ≡ none
      → Aged cfg now b (some evt)
      → let d' = close_event cfg now evt d in
        Fields b (some evt) d'.pending_transition d'.start_emitted d'.current
  unfolding close_event
  close-Step false evt d e p a =
      elim (Bool-cases (ltb now (evt.started_at + cfg.min_event_duration))) [
        | inl early ↦ rw (e, early, p) (refl, tt)
        | inr late ↦ rw (e, late, p) (refl, tt)
      ]
  close-Step true evt d e p a =
      let late : ltb now (evt.started_at + cfg.min_event_duration) ≡ false = ground arith in
      rw (e, late) ((refl, (now, refl, a), refl), tt)

  emit-Step :
      (b : Bool) (evt : Event) (d : Detector)
      → d.start_emitted ≡ b
      → d.pending_transition ≡ none
      → d.current ≡ some evt
      → Aged cfg now b (some evt)
      → let d' = maybe_emit_start cfg now evt d in
        Fields b (some evt) d'.pending_transition d'.start_emitted d'.current
  unfolding maybe_emit_start
  emit-Step false evt d e p c a =
      elim (Bool-cases (leb (evt.started_at + cfg.min_event_duration) now)) [
        | inl old ↦ rw (e, p, old, c) ((refl, refl), ground arith)
        | inr young ↦ rw (e, p, young, e, p) (refl, tt)
      ]
  emit-Step true evt d e p c a = rw (e, p, c) (refl, a)

  onset-Step :
      (b : Bool) (score : Score) (pixels : ℕ) (d : Detector)
      → d.start_emitted ≡ b
      → d.pending_transition ≡ none
      → d.current ≡ none
      → Aged cfg now b none
      → let d' = look_for_onset cfg score pixels now d in
        Fields b none d'.pending_transition d'.start_emitted d'.current
  unfolding look_for_onset
  onset-Step true score pixels d e p c a = absurd a
  onset-Step false score pixels d e p c a =
      elim (Bool-cases (at_least score cfg.start_score_threshold)) [
        | inr still ↦ rw (still, e, p) (refl, tt)
        | inl moving ↦ elim (Bool-cases (leb cfg.min_start_frames (suc d.frames_above))) [
          | inl begins ↦ rw (moving, begins, e, p) (refl, tt)
          | inr more ↦ rw (moving, more, e, p) (refl, tt)
        ]
      ]

  exit-Step :
      (b : Bool) (score : Score) (evt : Event) (d : Detector)
      → d.start_emitted ≡ b
      → d.pending_transition ≡ none
      → d.current ≡ some evt
      → Aged cfg now b (some evt)
      → let d' = look_for_exit cfg score now evt d in
        Fields b (some evt) d'.pending_transition d'.start_emitted d'.current
  unfolding look_for_exit
  exit-Step b score evt d e p c a = elim (Bool-cases (at_most score cfg.end_score_threshold)) [
    | inr moving ↦ rw moving (emit-Step b evt (record d { frames_below = 0 }) e p c a)
    | inl quiet ↦ elim (Bool-cases (leb cfg.min_end_frames (suc d.frames_below))) [
      | inl over ↦ rw (quiet, over) (close-Step b evt d e p a)
      | inr more ↦ rw (quiet, more, e, p, c) (refl, a)
    ]
  ]

  Aged-later : (t : ℕ) (b : Bool) (c : Option Event) → t ≤ now → Aged cfg t b c → Aged cfg now b c
  Aged-later t false c le a = tt
  Aged-later t true none le a = a
  Aged-later t true (some evt) le a = omega arith

  update_peak-started_at :
      (score : Score) (pixels : ℕ) (evt : Event)
      → (update_peak cfg score pixels evt).started_at ≡ evt.started_at
  unfolding update_peak
  update_peak-started_at score pixels evt = ground arith

  reported-started_at :
      (b : Bool) (evt evt' : Event)
      → evt'.started_at ≡ evt.started_at
      → reported b (some evt) ≡ reported b (some evt')
  reported-started_at false evt evt' h = refl
  reported-started_at true evt evt' h = rw h

  Aged-started_at :
      (b : Bool) (evt evt' : Event)
      → evt'.started_at ≡ evt.started_at
      → Aged cfg now b (some evt)
      → Aged cfg now b (some evt')
  Aged-started_at false evt evt' h a = tt
  Aged-started_at true evt evt' h a = omega arith

  update_event-Step :
      (score : Score) (pixels : ℕ) (d : Detector) (c : Option Event)
      → d.current ≡ c
      → d.pending_transition ≡ none
      → Aged cfg now d.start_emitted c
      → let d' = update_event cfg score pixels now d c in
        Fields d.start_emitted c d'.pending_transition d'.start_emitted d'.current
  update_event-Step score pixels d none e p a = onset-Step d.start_emitted score pixels d refl p e a
  update_event-Step score pixels d (some evt) e p a =
      let evt' = update_peak cfg score pixels evt in
      let same = update_peak-started_at score pixels evt in
      rw (reported-started_at d.start_emitted evt evt' same) (
        exit-Step d.start_emitted score evt' (record d { current = some evt' }) refl p refl
          (Aged-started_at d.start_emitted evt evt' same a))

  feed-Step :
      (frame : Frame) (d : Detector) (prev1 prev2 : Option Frame)
      → d.pending_transition ≡ none
      → Aged cfg now d.start_emitted d.current
      → let d' = feed cfg frame now d prev1 prev2 in
        Fields d.start_emitted d.current d'.pending_transition d'.start_emitted d'.current
  unfolding update_hysteresis
  feed-Step frame d none prev2 p a = rw p (refl, a)
  feed-Step frame d (some prev1) none p a = rw p (refl, a)
  feed-Step frame d (some prev1) (some prev2) p a =
      let pixels = changed_pixels cfg.pixel_diff_threshold frame prev1 in
      update_event-Step (record { changed = pixels; size = length frame }) pixels d d.current refl p
        a

  process_frame-Step :
      (frame : Frame) (t : ℕ) (d : Detector)
      → IsValid cfg t d
      → t ≤ now
      → let d' = process_frame cfg frame now d in
        Fields d.start_emitted d.current d'.pending_transition d'.start_emitted d'.current
  unfolding process_frame
  process_frame-Step frame t d v le =
      feed-Step frame d d.prev1 d.prev2 v.polled (Aged-later t d.start_emitted d.current le v.aged)

Paired-report :
    (cfg : Config) (before after : Option ℕ) (t : Option (Phase × Event))
    (reports : List (Phase × Event))
    → Reported cfg before after t
    → Paired cfg after reports
    → Paired cfg before (elim t [ none ↦ reports | some r ↦ r ∷ reports ])
Paired-report cfg before after none reports r h = rw r at h
Paired-report cfg before after (some (start, evt)) reports r h = (r.0, rw r.1 at h)
Paired-report cfg before after (some (end, evt)) reports r h = (r.0, r.1, rw r.2 at h)

-- Instants of the frames, from `t` on.
abbrev pub Chronological : ℕ → List (Frame × ℕ) → Type 0
Chronological t [] = Unit
Chronological t ((frame, now) ∷ frames) = (t ≤ now) × Chronological now frames

run-Paired :
    (cfg : Config) (t : ℕ) (frames : List (Frame × ℕ)) (d : Detector)
    → IsValid cfg t d
    → Chronological t frames
    → Paired cfg (reported d.start_emitted d.current) (run cfg frames d)
unfolding run poll_event
run-Paired cfg t [] d v c = tt
run-Paired cfg t ((frame, now) ∷ frames) d v c =
    let (r, aged) = process_frame-Step cfg now frame t d v c.0 in
    let d' = process_frame cfg frame now d in
    Paired-report cfg _ _ d'.pending_transition _ r (
      run-Paired cfg now frames (record d' { pending_transition = none })
        (record { polled = refl; aged = aged }) c.1)

-- From a fresh or reset detector, whatever the frames and with a clock that does not go back,
-- starts and ends are reported alternately, a start first. Each end belongs to the event whose
-- start was reported last, and that event has lasted at least the minimum duration.
pub reset-Paired :
    (cfg : Config) (t : ℕ) (frames : List (Frame × ℕ))
    → Chronological t frames
    → Paired cfg none (run cfg frames reset)
reset-Paired cfg t frames c = run-Paired cfg t frames reset (record { polled = refl; aged = tt }) c
