-- ===== src/MotionEventStore/Orphans.antt =====
-- Events that were never ended: what a new start and `reap_stale` do to them, and whether their
-- camera counts as active (app/server/monitor/services/motion_event_store.py).
use rpi_home_monitor.Base.{
  ℕ, String, ◌≡◌, refl, ◌∙◌, ap, true, false, Bool-cases, inl, inr, Option, none, some, List, [],
  ◌∷◌, ◌++◌, map, length, length-append, ltb→lt, sym, drop, ltb, arith, str_eq, eq_iff,
  if◌then◌else◌, All, All-append, All-drop, ◌&&◌,
}
use mathlib.Core.Bool.{true≢false}
use rpi_home_monitor.MotionEventStore.Lookup.{drop-tail}
use rpi_home_monitor.MotionEventStore.{
  MotionEvent, Duration, max_events, is_unset, is_open, has_id, update_last, or_this, close_orphan,
  compact, append, scan, is_camera_active, or_false, by_ended_at, is_stale, reap_stale, forward,
}

module _ (parse : String → Option ℕ) (elapsed : ℕ → ℕ → Duration) where
  -- Where no event of the identifier is on file.
  abbrev pub IsNew : MotionEvent → List MotionEvent → Type 0
  IsNew event events = update_last (has_id event.id) (λ old. event) events ≡ none

  -- An open event of this camera is this one.
  abbrev pub OnlyOpen : MotionEvent → MotionEvent → Type 0
  OnlyOpen event x = x.camera_id ≡ event.camera_id → is_open x ≡ true → x ≡ event

  close_orphan-OnlyOpen :
      (event x : MotionEvent)
      → str_eq event.started_at "" ≡ false
      → OnlyOpen event (close_orphan parse elapsed event x)
  close_orphan-OnlyOpen event x h =
      elim (Bool-cases (str_eq x.camera_id event.camera_id && is_open x)) [
        | inl orphan ↦ rw orphan (λ same unended. absurd (true≢false (sym unended ∙ h)))
        | inr other ↦
            rw other (λ same unended. absurd (true≢false (sym (both same unended) ∙ other)))
      ]
    where
      both :
          x.camera_id ≡ event.camera_id
          → is_open x ≡ true
          → (str_eq x.camera_id event.camera_id && is_open x) ≡ true
      both same unended = rw ((eq_iff x.camera_id event.camera_id).1 same) unended

  map-OnlyOpen :
      (event : MotionEvent) (xs : List MotionEvent)
      → str_eq event.started_at "" ≡ false
      → All (OnlyOpen event) (map (close_orphan parse elapsed event) xs)
  map-OnlyOpen event [] h = tt
  map-OnlyOpen event (x ∷ xs) h = (close_orphan-OnlyOpen event x h, map-OnlyOpen event xs h)

  compact-All :
      (P : MotionEvent → Type 0) (xs : List MotionEvent)
      → All P xs
      → All P (compact parse elapsed xs)
  unfolding compact
  compact-All P xs h = elim (Bool-cases (ltb max_events (length xs))) [
    | inl big ↦ rw big (All-drop P 500 xs h)
    | inr small ↦ rw small h
  ]

  -- A camera has one motion event in progress at most after it starts a new one: `append` of an
  -- event with a new identifier, without an end and with a start that is not empty leaves no other
  -- open event of that camera on file.
  pub append-OnlyOpen :
      (event : MotionEvent) (events : List MotionEvent)
      → IsNew event events
      → is_open event ≡ true
      → str_eq event.started_at "" ≡ false
      → All (OnlyOpen event) (append parse elapsed event events)
  unfolding append
  append-OnlyOpen event events new unended started = rw new (
      rw unended (
        compact-All (OnlyOpen event) _ (
          All-append (OnlyOpen event) _ (event ∷ []) (map-OnlyOpen event events started)
            ((λ s o. refl), tt))))

  by_ended_at_open :
      (post_roll now : ℕ) (ended : Option String)
      → is_unset ended ≡ true
      → by_ended_at parse elapsed post_roll now ended ≡ some true
  by_ended_at_open post_roll now none h = refl
  by_ended_at_open post_roll now (some t) h = rw h refl

  scan-tail :
      (camera_id : String) (post_roll now : ℕ) (x : MotionEvent) (xs : List MotionEvent)
      → x.camera_id ≡ camera_id
      → is_open x ≡ true
      → scan parse elapsed camera_id post_roll now (xs ++ x ∷ []) ≡ some true
  unfolding scan
  scan-tail camera_id post_roll now x [] h unended =
      rw ((eq_iff x.camera_id camera_id).1 h) (by_ended_at_open post_roll now x.ended_at unended)
  scan-tail camera_id post_roll now x (y ∷ xs) h unended =
      ap (or_this _) (scan-tail camera_id post_roll now x xs h unended)

  scan-compact :
      (camera_id : String) (post_roll now : ℕ) (x : MotionEvent) (xs : List MotionEvent)
      → x.camera_id ≡ camera_id
      → is_open x ≡ true
      → scan parse elapsed camera_id post_roll now (compact parse elapsed (xs ++ x ∷ []))
        ≡ some true
  unfolding compact
  scan-compact camera_id post_roll now x xs h unended =
      elim (Bool-cases (ltb max_events (length (xs ++ x ∷ [])))) [
        | inl big ↦
            let l = length-append xs (x ∷ []) in
            let b = ltb→lt max_events _ big in
            rw big (
              rw (drop-tail 500 x xs (omega arith))
                (scan-tail camera_id post_roll now x (drop 500 xs) h unended))
        | inr small ↦ rw small (scan-tail camera_id post_roll now x xs h unended)
      ]

  -- A camera is active as soon as its motion starts: after `append` of an event with a new identifier
  -- and without an end, `is_camera_active` says so at every instant, for every post-roll, also when
  -- the list was compacted.
  pub append-is_camera_active :
      (event : MotionEvent) (events : List MotionEvent) (post_roll now : ℕ)
      → IsNew event events
      → is_open event ≡ true
      → is_camera_active parse elapsed event.camera_id post_roll now
          (append parse elapsed event events)
        ≡ true
  unfolding append is_camera_active
  append-is_camera_active event events post_roll now new unended = rw new (
      ap (or_false parse elapsed) (
        scan-compact event.camera_id post_roll now event
          (if is_open event then map (close_orphan parse elapsed event) events else events) refl
          unended))

  -- Whether `reap_stale` has anything left to close.
  abbrev pub NotStale : ℕ → ℕ → MotionEvent → Type 0
  NotStale now max_age x = is_stale parse elapsed now max_age x ≡ false

  closed_lem :
      (now max_age : ℕ) (x : MotionEvent)
      → NotStale now max_age
          (record x { ended_at = some x.started_at; duration_seconds = forward 0 })
  closed_lem now max_age x = elim (Bool-cases (str_eq x.started_at "")) [
    | inl empty ↦ rw empty refl
    | inr timed ↦ rw timed refl
  ]

  -- After `reap_stale` no event is left that is open and has started `max_age_seconds` ago or
  -- earlier.
  pub reap_stale-NotStale :
      (now max_age : ℕ) (events : List MotionEvent)
      → All (NotStale now max_age) (reap_stale parse elapsed now max_age events).1
  unfolding reap_stale
  reap_stale-NotStale now max_age [] = tt
  reap_stale-NotStale now max_age (x ∷ events) =
      elim (Bool-cases (is_stale parse elapsed now max_age x)) [
        | inl stale ↦ rw stale (closed_lem now max_age x, reap_stale-NotStale now max_age events)
        | inr fine ↦ rw fine (fine, reap_stale-NotStale now max_age events)
      ]
