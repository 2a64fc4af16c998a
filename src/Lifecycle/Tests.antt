-- ===== src/Lifecycle/Tests.antt =====
-- The life of a camera that is set up at its third look, and the theorems of the lifecycle at it.
use rpi_home_monitor.Base.{
  ℕ, ◌≡◌, refl, Bool, true, false, Option, none, some, List, [], ◌∷◌, ◌++◌, leb, ltb, le→leb, arith,
}
use rpi_home_monitor.Lifecycle.{
  State, Look, Config, Camera, setup, shutdown, init, connecting, pairing, stop_all, wait_for_setup,
  do_setup, wait_for_pairing, do_pairing, wait_for_wifi, do_connecting, wait_for_shutdown,
  do_running, handle, transitions, run_from, run,
}
use rpi_home_monitor.Lifecycle.Ends.{IsStopped, IsEnded, run-IsEnded}
use rpi_home_monitor.Lifecycle.Starts.{IsReady}
use rpi_home_monitor.Lifecycle.Starts.Full.{IsFull, run-IsFull}

program : Unit {0}
unfolding stop_all wait_for_setup do_setup wait_for_pairing do_pairing wait_for_wifi do_connecting
    wait_for_shutdown do_running handle run_from run
program = tt

abbrev look : ℕ → Look
look m = record {
  is_shutdown = leb 50 m;
  needs_setup = ltb m 3;
  is_paired = leb 3 m;
  has_ip = leb 5 m;
}

abbrev config : Config
config = record { is_configured = true; has_server_ip = true; desired_running = false }

stopped : IsStopped look 50
stopped m h = le→leb 50 m h

ready : IsReady look 3 5 50
ready = (
  ((λ m h. (ground (arith, h), le→leb 3 m h)), λ m h. le→leb 5 m h),
  ((λ m h. ground (arith, h)), stopped),
)

-- A camera that never gets an address goes back to its set-up.
abbrev offline : ℕ → Look
offline m = record { is_shutdown = false; needs_setup = false; is_paired = true; has_ip = false }

abbrev states_of : Option Camera → List State
states_of none = []
states_of (some c) = c.states

abbrev reverted_of : Option Camera → Bool
reverted_of none = false
reverted_of (some c) = c.setup_reverted

offline_states :
    states_of (run offline config 1) ≡ (init ∷ setup ∷ pairing ∷ connecting ∷ shutdown ∷ [])
unfolding program
offline_states = refl

offline_reverted : reverted_of (run offline config 1) ≡ true
unfolding program
offline_reverted = refl

run-IsEnded_example : IsEnded (transitions look config) (run look config 51)
run-IsEnded_example = run-IsEnded look 50 stopped config 50 (omega arith)

run-IsFull_example : IsFull (transitions look config ++ shutdown ∷ []) (run look config 51)
run-IsFull_example =
    run-IsFull look 3 5 50 ready config 50 (omega arith) (omega arith) (omega arith)
