-- ===== src/MotionEventStore.antt =====
-- The list of motion events (app/server/monitor/services/motion_event_store.py), oldest first.
-- Instants are microseconds. What `datetime.fromisoformat` reads of a timestamp (`parse`) and the
-- rounded difference of two instants (`elapsed`) are parameters. Each method holds the lock; the
-- writing of the file and the fields of an event that the store only keeps are left out.
mod Tests
pub mod Lookup
pub mod Orphans
use rpi_home_monitor.Base.{
  ℕ, ◌-◌, ◌+◌, ◌*◌, String, Bool, true, false, ◌&&◌, not, Option, none, some, List, [], ◌∷◌, ◌++◌,
  map, reverse, length, take, drop, keep, ltb, leb, str_eq, if◌then◌else◌,
}

-- A duration in hundredths of a second.
pub data Duration : Type 0 where
  forward backward : ℕ → Duration

pub record MotionEvent : Type 0 where
  pub id : String
  pub camera_id : String
  pub started_at : String
  pub ended_at : Option String
  pub duration_seconds : Duration
  pub clip_ref : Option String

abbrev pub max_events : ℕ
max_events = 5000

-- `max(1, int(MAX_EVENTS * COMPACT_DROP_FRACTION))`
abbrev pub drop_count : ℕ
drop_count = 500

-- `ended_at in (None, "")`
abbrev pub is_unset : Option String → Bool
is_unset none = true
is_unset (some t) = str_eq t ""

abbrev pub is_open : MotionEvent → Bool
is_open evt = is_unset evt.ended_at

abbrev pub has_id : String → MotionEvent → Bool
has_id event_id evt = str_eq evt.id event_id

-- A scan from the tail that changes the first event it finds.
abbrev pub updated :
    (MotionEvent → Bool)
    → (MotionEvent → MotionEvent)
    → MotionEvent
    → List MotionEvent
    → Option (List MotionEvent)
    → Option (List MotionEvent)
updated p f evt events (some events') = some (evt ∷ events')
updated p f evt events none = if p evt then some (f evt ∷ events) else none

unfoldable pub update_last :
    (MotionEvent → Bool)
    → (MotionEvent → MotionEvent)
    → List MotionEvent
    → Option (List MotionEvent)
update_last p f [] = none
update_last p f (evt ∷ events) = updated p f evt events (update_last p f events)

-- What a scan from the tail returns: the answer of the later events, or else of this one.
abbrev pub or_this {ℓ} : {A : Type ℓ} → Option A → Option A → Option A
or_this here none = here
or_this here (some later) = some later

unfoldable pub find_last : (MotionEvent → Bool) → List MotionEvent → Option MotionEvent
find_last p [] = none
find_last p (evt ∷ events) = or_this (if p evt then some evt else none) (find_last p events)

module _ (parse : String → Option ℕ) (elapsed : ℕ → ℕ → Duration) where
  abbrev pub parse_iso_z : String → Option ℕ
  parse_iso_z iso = if str_eq iso "" then none else parse iso

  -- The duration of an orphan, where both timestamps can be read.
  abbrev pub closed_duration : Duration → Option ℕ → Option ℕ → Duration
  closed_duration old (some start_dt) (some end_dt) = elapsed start_dt end_dt
  closed_duration old _ _ = old

  abbrev pub close_orphan : MotionEvent → MotionEvent → MotionEvent
  close_orphan event existing =
      if str_eq existing.camera_id event.camera_id && is_open existing
      then record existing {
        ended_at = some event.started_at;
        duration_seconds =
            closed_duration existing.duration_seconds (parse_iso_z existing.started_at)
              (parse_iso_z event.started_at);
      }
      else existing

  unfoldable pub compact : List MotionEvent → List MotionEvent
  compact events = if ltb max_events (length events) then drop drop_count events else events

  abbrev pub appended :
      MotionEvent → List MotionEvent → Option (List MotionEvent) → List MotionEvent
  appended event events (some events') = events'
  appended event events none =
      compact ((if is_open event then map (close_orphan event) events else events) ++ event ∷ [])

  unfoldable pub append : MotionEvent → List MotionEvent → List MotionEvent
  append event events = appended event events (update_last (has_id event.id) (λ old. event) events)

  -- Whether `reap_stale` closes an event, by the instant at which it started.
  abbrev pub is_old : ℕ → ℕ → Option ℕ → Bool
  is_old now max_age none = false
  is_old now max_age (some start_dt) = leb (start_dt + max_age) now

  abbrev pub is_stale : ℕ → ℕ → MotionEvent → Bool
  is_stale now max_age evt = is_open evt && is_old now max_age (parse_iso_z evt.started_at)

  unfoldable pub reap_stale : ℕ → ℕ → List MotionEvent → ℕ × List MotionEvent
  reap_stale now max_age [] = (0, [])
  reap_stale now max_age (evt ∷ events) =
      let (closed, rest) = reap_stale now max_age events in
      if is_stale now max_age evt
      then (
        closed + 1,
        record evt { ended_at = some evt.started_at; duration_seconds = forward 0 } ∷ rest,
      )
      else (closed, evt ∷ rest)

  unfoldable pub list_events : String → ℕ → List MotionEvent → List MotionEvent
  list_events camera_id limit events =
      let newest = reverse events in
      take limit
        (if str_eq camera_id "" then newest else keep (λ e. str_eq e.camera_id camera_id) newest)

  unfoldable pub get : String → List MotionEvent → Option MotionEvent
  get event_id events = find_last (has_id event_id) events

  abbrev pub attached : List MotionEvent → Option (List MotionEvent) → Bool × List MotionEvent
  attached events none = (false, events)
  attached events (some events') = (true, events')

  unfoldable pub attach_clip : String → String → List MotionEvent → Bool × List MotionEvent
  attach_clip event_id clip_ref events =
      attached events
        (update_last (has_id event_id) (λ evt. record evt { clip_ref = some clip_ref }) events)

  unfoldable pub count : List MotionEvent → ℕ
  count events = length events

  -- The verdict on one event of the camera: `none` goes on to the event before it.
  abbrev pub by_end : ℕ → ℕ → Option ℕ → Option Bool
  by_end post_roll now none = none
  by_end post_roll now (some end_dt) = some (leb now (end_dt + post_roll))

  abbrev pub by_ended_at : ℕ → ℕ → Option String → Option Bool
  by_ended_at post_roll now none = some true
  by_ended_at post_roll now (some t) =
      if str_eq t "" then some true else by_end post_roll now (parse_iso_z t)

  unfoldable pub scan : String → ℕ → ℕ → List MotionEvent → Option Bool
  scan camera_id post_roll now [] = none
  scan camera_id post_roll now (evt ∷ events) =
      or_this
        (if str_eq evt.camera_id camera_id then by_ended_at post_roll now evt.ended_at else none)
        (scan camera_id post_roll now events)

  abbrev pub or_false : Option Bool → Bool
  or_false none = false
  or_false (some active) = active

  unfoldable pub is_camera_active : String → ℕ → ℕ → List MotionEvent → Bool
  is_camera_active camera_id post_roll now events = or_false (scan camera_id post_roll now events)
