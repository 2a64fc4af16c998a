-- ===== src/LoginLimiter/Tests.antt =====
-- Runs of the login limiter, and its theorems at concrete calls.
use rpi_home_monitor.Base.{
  ◌≡◌, refl, true, false, List, [], ◌∷◌, get, put, keep, keep_values, arith,
}
use rpi_home_monitor.LoginLimiter.{
  unreadable, Limiter, Call, checked, recorded, key, attempts_of, last_items, pruned_attempts,
  verdict, check, record_attempt, run, read_state, write_state,
}
use rpi_home_monitor.LoginLimiter.Budget.{check-refines, history, last_instant}
use rpi_home_monitor.LoginLimiter.Bound.{IsBounded, run-IsBounded}
use rpi_home_monitor.LoginLimiter.Window.{recent}

program : Unit {0}
unfolding get put keep keep_values read_state write_state key attempts_of last_items pruned_attempts
    verdict check record_attempt run history last_instant
program = tt

-- Warned about from two attempts in a minute on, refused from three on.
abbrev limiter : Limiter
limiter = record { window_seconds = 60; warn_after = 2; block_after = 3 }

abbrev three : List Call
three =
    recorded "10.0.0.7" 100 100
    ∷ checked "10.0.0.8" 110
    ∷ recorded "10.0.0.7" 110 111
    ∷ recorded "10.0.0.7" 120 120
    ∷ []

blocked : (check limiter (run limiter unreadable three) "10.0.0.7" 160).1 ≡ (false, false)
unfolding program
blocked = refl

warned : (check limiter (run limiter unreadable three) "10.0.0.7" 161).1 ≡ (true, true)
unfolding program
warned = refl

check-refines_example :
    (check limiter (run limiter unreadable three) "10.0.0.7" 161).1
    ≡ verdict limiter (recent 101 (history (key "10.0.0.7") three))
check-refines_example =
    check-refines limiter three "10.0.0.7" 161 (omega arith) (unfold program in omega arith)

start-IsBounded : IsBounded limiter (read_state unreadable)
unfolding program
start-IsBounded = record { distinct = tt; bounded = λ k. omega arith }

run-IsBounded_example : IsBounded limiter (read_state (run limiter unreadable three))
run-IsBounded_example = run-IsBounded limiter (omega arith) unreadable three start-IsBounded
