-- ===== src/LoopRecorder/Reclaim.antt =====
-- Which segments a pass of the clean-up deletes (app/server/monitor/services/loop_recorder.py).
use rpi_home_monitor.Base.{
  ℕ, ◌+◌, ◌≤◌, String, ◌≡◌, refl, ap, Bool, true, false, ◌||◌, not, List, [], ◌∷◌, ◌++◌, keep, leb,
  leb→le, All, Bool-cases, inl, inr, arith,
}
use rpi_home_monitor.LoopRecorder.{
  Segment, Recorder, Volume, free_at_least, safe_mtime, insert_segment, segments_oldest_first,
  is_live, reclaim, tick,
}

module _ (r : Recorder) (live : List String) (now : ℕ) where
  -- Segments that may be deleted.
  abbrev pub is_spare : Segment → Bool
  is_spare s = not (is_live r live now s || not s.deletable)

  -- What is deleted is the start of the spare candidates, and all of them where the volume stays
  -- below the target.
  abbrev pub Oldest : ℕ → List Segment → List Segment × Volume → Type 0
  Oldest target candidates (deleted, v) =
      (rest : List Segment) × (keep is_spare candidates ≡ deleted ++ rest)
      × (free_at_least v target ≡ false → rest ≡ [])

  reclaim-Oldest :
      (target : ℕ) (candidates : List Segment) (v : Volume)
      → Oldest target candidates (reclaim r live now target candidates v)
  unfolding reclaim keep
  reclaim-Oldest target [] v = ([], refl, λ e. refl)
  reclaim-Oldest target (s ∷ candidates) v = elim (Bool-cases (free_at_least v target)) [
    | inl enough ↦ rw enough (keep is_spare (s ∷ candidates), refl, λ e. cc)
    | inr short ↦ rw short (elim (Bool-cases (is_live r live now s || not s.deletable)) [
      | inl held ↦ rw held (reclaim-Oldest target candidates v)
      | inr spare ↦
          let (rest, same, none_left) =
            reclaim-Oldest target candidates (record v { free = v.free + s.size }) in
          rw spare (rest, ap (◌∷◌ s) same, none_left)
    ])
  ]

-- A segment that is neither live nor refuses to be deleted.
abbrev pub Settled : Recorder → List String → ℕ → Segment → Type 0
Settled r live now s = (is_live r live now s ≡ false) × (s.deletable ≡ true)

reclaim-Settled :
    (r : Recorder) (live : List String) (now target : ℕ) (candidates : List Segment) (v : Volume)
    → All (Settled r live now) (reclaim r live now target candidates v).0
unfolding reclaim
reclaim-Settled r live now target [] v = tt
reclaim-Settled r live now target (s ∷ candidates) v = elim (Bool-cases (free_at_least v target)) [
  | inl enough ↦ rw enough tt
  | inr short ↦ rw short (elim (Bool-cases (is_live r live now s || not s.deletable)) [
    | inl held ↦ rw held (reclaim-Settled r live now target candidates v)
    | inr spare ↦ rw spare (
      (ground arith, ground arith),
      reclaim-Settled r live now target candidates (record v { free = v.free + s.size }),
    )
  ])
]

-- The clip that is being written stays: whatever the free space is, `tick` deletes no segment that
-- is named as live, is younger than the live age or has no readable time.
pub tick-Settled :
    (live : List String) (now : ℕ) (segments : List Segment) (v : Volume) (r : Recorder)
    → All (Settled r live now) (tick live now segments v r).0.0
unfolding tick
tick-Settled live now segments v r = elim (Bool-cases (free_at_least v r.low)) [
  | inl enough ↦ rw enough tt
  | inr below ↦
      rw below
        (reclaim-Settled r live now (r.low + r.hysteresis) (segments_oldest_first segments) v)
]

-- A pass deletes the oldest first and no more than it must: what `tick` deletes when the free space is
-- below the low watermark is the start of the segments that are neither live nor impossible to
-- delete, in the order of their times, and all of these unless the free space has reached the low
-- watermark and the hysteresis.
pub tick-Oldest :
    (live : List String) (now : ℕ) (segments : List Segment) (v : Volume) (r : Recorder)
    → free_at_least v r.low ≡ false
    → Oldest r live now
        (r.low + r.hysteresis)
        (segments_oldest_first segments)
        (tick live now segments v r).0
unfolding tick
tick-Oldest live now segments v r below =
    rw below (reclaim-Oldest r live now (r.low + r.hysteresis) (segments_oldest_first segments) v)

-- Each segment is as old as the next or older.
abbrev pub Sorted : List Segment → Type 0
Sorted [] = Unit
Sorted (s ∷ ss) = All (λ t. safe_mtime s ≤ safe_mtime t) ss × Sorted ss

weaken :
    (a b : ℕ) (ss : List Segment)
    → a ≤ b
    → All (λ t. b ≤ safe_mtime t) ss
    → All (λ t. a ≤ safe_mtime t) ss
weaken a b [] h all = tt
weaken a b (s ∷ ss) h all = (omega (arith, all.0), weaken a b ss h all.1)

insert_segment-All :
    (a : ℕ) (s : Segment) (ss : List Segment)
    → a ≤ safe_mtime s
    → All (λ t. a ≤ safe_mtime t) ss
    → All (λ t. a ≤ safe_mtime t) (insert_segment s ss)
unfolding insert_segment
insert_segment-All a s [] h all = (h, tt)
insert_segment-All a s (t ∷ ts) h all = elim (Bool-cases (leb (safe_mtime s) (safe_mtime t))) [
  | inl before ↦ rw before (h, all)
  | inr after ↦ rw after (all.0, insert_segment-All a s ts h all.1)
]

insert_segment-Sorted : (s : Segment) (ss : List Segment) → Sorted ss → Sorted (insert_segment s ss)
unfolding insert_segment
insert_segment-Sorted s [] h = (tt, tt)
insert_segment-Sorted s (t ∷ ts) h = elim (Bool-cases (leb (safe_mtime s) (safe_mtime t))) [
  | inl before ↦
      let le = leb→le (safe_mtime s) (safe_mtime t) before in
      rw before ((le, weaken (safe_mtime s) (safe_mtime t) ts le h.0), h)
  | inr after ↦
      rw after
        (insert_segment-All (safe_mtime t) s ts (ground arith) h.0, insert_segment-Sorted s ts h.1)
]

-- The candidates come in the order of their times, the oldest first.
pub segments_oldest_first-Sorted :
    (segments : List Segment) → Sorted (segments_oldest_first segments)
unfolding segments_oldest_first
segments_oldest_first-Sorted [] = tt
segments_oldest_first-Sorted (s ∷ ss) =
    insert_segment-Sorted s (segments_oldest_first ss) (segments_oldest_first-Sorted ss)
