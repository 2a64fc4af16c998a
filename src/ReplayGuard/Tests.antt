-- ===== src/ReplayGuard/Tests.antt =====
-- Runs of the replay guard, and its theorems at concrete requests.
use rpi_home_monitor.Base.{
  ℕ, ◌<◌, String, ◌≡◌, ◌↔◌, refl, true, false, some, [], ◌∷◌, get, put, has, keep_values, arith,
  eq_iff,
}
use rpi_home_monitor.ReplayGuard.{
  Stored, unreadable, root, object, other, Request, cache_of, read_state, write_state,
  pruned_camera_cache, record_in, record_and_check, serve,
}
use rpi_home_monitor.ReplayGuard.Storage.{IsValid}
use rpi_home_monitor.ReplayGuard.Detect.{
  serve-IsValid, replay_detected, replay_iff, cameras_isolated,
}

program : Unit {0}
unfolding get put has keep_values cache_of read_state write_state pruned_camera_cache record_in
    record_and_check serve
program = tt

-- A stand-in for the digest.
abbrev digest : String → String → String → String
digest camera_id timestamp signature = signature

abbrev first : Request
first = record { camera_id = "cam-1"; timestamp = "100"; signature = "aa" }

abbrev second : Request
second = record { camera_id = "cam-1"; timestamp = "101"; signature = "bb" }

abbrev after_first : Stored
after_first = root (("cam-1", object (("aa", some 400) ∷ [])) ∷ [])

first_accepted : record_and_check digest 300 unreadable first 100 ≡ (after_first, false)
unfolding program
first_accepted = refl

-- What cannot be a cache is left out when the file is read.
malformed : read_state (root (("cam-1", other) ∷ ("cam-2", object []) ∷ [])) ≡ []
unfolding program
malformed = refl

start-IsValid : IsValid (read_state unreadable)
unfolding program
start-IsValid = record { cameras = tt; caches = λ c. tt }

serve-IsValid_case : IsValid (read_state (serve digest 300 unreadable ((first, 100) ∷ [])))
serve-IsValid_case = serve-IsValid digest 300 unreadable ((first, 100) ∷ []) start-IsValid

after_first-IsValid : IsValid (read_state after_first)
unfolding program
after_first-IsValid = serve-IsValid digest 300 unreadable ((first, 100) ∷ []) start-IsValid

replay_detected_example :
    (record_and_check digest 300
      (serve digest 300 (record_and_check digest 300 unreadable first 100).0 ((second, 399) ∷ []))
      first
      399).1
    ≡ true
replay_detected_example =
    replay_detected digest 300 unreadable first 100 ((second, 399) ∷ []) 399 start-IsValid
      (unfold program in refl) (omega arith) (omega arith)

replay_iff_example :
    ((record_and_check digest 300 after_first first 400).1 ≡ true)
    ↔ ((e : ℕ) × (get "aa" (cache_of "cam-1" (read_state after_first)) ≡ some e) × (400 < e))
replay_iff_example = replay_iff digest 300 after_first first 400 after_first-IsValid

cameras_isolated_case :
    cache_of "cam-2" (read_state (record_and_check digest 300 after_first second 150).0)
    ≡ cache_of "cam-2" (read_state after_first)
cameras_isolated_case =
    cameras_isolated digest 300 after_first second 150 "cam-2" after_first-IsValid
      (ground (arith, eq_iff "cam-1" "cam-2"))
