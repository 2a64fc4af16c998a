-- ===== src/LoopRecorder/Tests.antt =====
-- A full volume with four clips, and the theorems of the clean-up at it.
use rpi_home_monitor.Base.{ℕ, String, ◌≡◌, refl, true, false, some, List, [], ◌∷◌, All, keep, map}
use rpi_home_monitor.LoopRecorder.{
  Segment, Recorder, Volume, insert_segment, segments_oldest_first, is_member, is_live, reclaim,
  warn_low, warn_risk, tick,
}
use rpi_home_monitor.LoopRecorder.Reclaim.{
  Oldest, Settled, Sorted, tick-Oldest, tick-Settled, segments_oldest_first-Sorted,
}

program : Unit {0}
unfolding keep insert_segment segments_oldest_first is_member is_live reclaim warn_low warn_risk
    tick
program = tt

abbrev clip : String → ℕ → Segment
clip path mtime = record { path = path; mtime = some mtime; size = 4; deletable = true }

abbrev clips : List Segment
clips = clip "d" 990 ∷ clip "b" 200 ∷ clip "a" 100 ∷ clip "c" 300 ∷ []

abbrev full : Volume
full = record { total = 100; free = 3 }

abbrev recorder : Recorder
recorder = record {
  low = 5;
  hysteresis = 3;
  low_headroom = 5;
  live_age = 60;
  storage_low_active = false;
  retention_risk_active = false;
  audit = [];
}

-- Clip a is live by its name: b and c go.
two_go : map (λ s. s.path) (tick ("a" ∷ []) 1000 clips full recorder).0.0 ≡ "b" ∷ "c" ∷ []
unfolding program
two_go = refl

tick-Oldest_case :
    Oldest recorder
      ("a" ∷ [])
      1000
      8
      (segments_oldest_first clips)
      (tick ("a" ∷ []) 1000 clips full recorder).0
tick-Oldest_case = tick-Oldest ("a" ∷ []) 1000 clips full recorder refl

tick-Settled_example :
    All (Settled recorder ("a" ∷ []) 1000) (tick ("a" ∷ []) 1000 clips full recorder).0.0
tick-Settled_example = tick-Settled ("a" ∷ []) 1000 clips full recorder

segments_oldest_first-Sorted_case : Sorted (segments_oldest_first clips)
segments_oldest_first-Sorted_case = segments_oldest_first-Sorted clips
