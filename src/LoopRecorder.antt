-- ===== src/LoopRecorder.antt =====
-- The clean-up of old recordings (app/server/monitor/services/loop_recorder.py). What the file system
-- says is an argument: the size of the volume and its free space, and of every segment its path, its
-- time, its size and whether it can be deleted. Deleting a segment frees its size.
mod Tests
pub mod Reclaim
use rpi_home_monitor.Base.{
  ℕ, ◌+◌, ◌*◌, String, Bool, true, false, ◌&&◌, ◌||◌, not, Option, none, some, List, [], ◌∷◌, ◌++◌,
  length, ltb, leb, ◌==◌, str_eq, if◌then◌else◌,
}

pub record Segment : Type 0 where
  pub path : String
  pub mtime : Option ℕ
  pub size : ℕ
  pub deletable : Bool

pub data AuditEvent : Type 0 where
  storage_low retention_risk : AuditEvent
  deleted_clip : String → ℕ → AuditEvent

pub record Recorder : Type 0 where
  pub low : ℕ
  pub hysteresis : ℕ
  pub low_headroom : ℕ
  pub live_age : ℕ
  pub storage_low_active : Bool
  pub retention_risk_active : Bool
  pub audit : List AuditEvent

pub record Volume : Type 0 where
  pub total : ℕ
  pub free : ℕ

-- `free_percent() >= percent`: a volume without size counts as free.
abbrev pub free_at_least : Volume → ℕ → Bool
free_at_least v percent =
    if v.total == 0 then leb percent 100 else leb (percent * v.total) (100 * v.free)

-- `_safe_mtime`
abbrev pub safe_mtime : Segment → ℕ
safe_mtime s = elim s.mtime [ none ↦ 0 | some t ↦ t ]

-- A stable sort by time.
unfoldable pub insert_segment : Segment → List Segment → List Segment
insert_segment s [] = s ∷ []
insert_segment s (t ∷ ts) =
    if leb (safe_mtime s) (safe_mtime t) then s ∷ t ∷ ts else t ∷ insert_segment s ts

unfoldable pub segments_oldest_first : List Segment → List Segment
segments_oldest_first [] = []
segments_oldest_first (s ∷ ss) = insert_segment s (segments_oldest_first ss)

unfoldable pub is_member : String → List String → Bool
is_member p [] = false
is_member p (q ∷ qs) = str_eq q p || is_member p qs

module _ (r : Recorder) (live : List String) (now : ℕ) where
  abbrev pub is_young : Option ℕ → Bool
  is_young none = true
  is_young (some t) = ltb now (t + r.live_age)

  unfoldable pub is_live : Segment → Bool
  is_live s = is_member s.path live || is_young s.mtime

  -- The loop of `tick`: what it deletes, and the volume after it.
  unfoldable pub reclaim : ℕ → List Segment → Volume → List Segment × Volume
  reclaim target [] v = ([], v)
  reclaim target (s ∷ candidates) v =
      let held = is_live s || not s.deletable in
      let freed = if held then v else record v { free = v.free + s.size } in
      let (deleted, v') = reclaim target candidates freed in
      if free_at_least v target
      then ([], v)
      else (if held then (deleted, v') else (s ∷ deleted, v'))

abbrev pub deletions : List Segment → List AuditEvent
deletions [] = []
deletions (s ∷ ss) = deleted_clip s.path s.size ∷ deletions ss

-- The first part of `tick`: STORAGE_LOW once for every fall below the warning level.
unfoldable pub warn_low : Volume → Recorder → Recorder
warn_low v r =
    let is_low_now = not (free_at_least v (r.low + r.low_headroom)) in
    record r {
      storage_low_active = is_low_now;
      audit =
          if is_low_now && not r.storage_low_active then r.audit ++ storage_low ∷ [] else r.audit;
    }

-- The last part: RETENTION_RISK once, when a pass deleted something.
unfoldable pub warn_risk : List Segment → Recorder → Recorder
warn_risk deleted r =
    let logged = record r { audit = r.audit ++ deletions deleted } in
    if ltb 0 (length deleted) && not r.retention_risk_active
    then record logged { retention_risk_active = true; audit = logged.audit ++ retention_risk ∷ [] }
    else logged

-- `tick`: what is deleted, the volume and the recorder after it.
unfoldable pub tick :
    List String → ℕ → List Segment → Volume → Recorder → (List Segment × Volume) × Recorder
tick live now segments v r =
    let r' = warn_low v r in
    if free_at_least v r.low
    then (([], v), record r' { retention_risk_active = false })
    else (let (deleted, v') =
          reclaim r live now (r.low + r.hysteresis) (segments_oldest_first segments) v in
        ((deleted, v'), warn_risk deleted r'))
