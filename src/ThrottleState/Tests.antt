-- ===== src/ThrottleState/Tests.antt =====
-- A camera that is throttled, keeps quiet, reboots and is throttled again.
use rpi_home_monitor.Base.{ℕ, ◌≡◌, refl, true, false, none, some, List, [], ◌∷◌, codes, keep}
use rpi_home_monitor.ThrottleState.{
  Label, Report, RawBits, Camera, Beat, object, missing, critical, sanitize_throttle_state,
  merge_throttle_state, sticky_bit, sticky_transition_labels, summarize_throttle_state,
  uptime_looks_rebooted, accept_heartbeat, accept_all,
}
use rpi_home_monitor.ThrottleState.Labels.{count, IsLogged, accept_all-IsLogged}

program : Unit {0}
unfolding sanitize_throttle_state merge_throttle_state sticky_transition_labels
    summarize_throttle_state uptime_looks_rebooted accept_heartbeat accept_all count keep
program = tt

abbrev no_bits : RawBits
no_bits = record {
  under_voltage = none;
  frequency_capped = none;
  throttled = none;
  soft_temp_limit = none;
}

abbrev low : RawBits
low = record no_bits { under_voltage = some true }

abbrev throttled : Report
throttled = object (record {
  current = low;
  sticky = low;
  last_updated = some (codes "t1");
  source = none;
  raw_value_hex = none;
})

abbrev quiet : Report
quiet = object (record {
  current = record no_bits { under_voltage = some false };
  sticky = no_bits;
  last_updated = some (codes "t2");
  source = none;
  raw_value_hex = none;
})

abbrev beat : ℕ → Report → Beat
beat uptime report = record { uptime_seconds = some uptime; throttle_state = report }

abbrev beats : List Beat
beats =
    beat 100 throttled
    ∷ beat 115 quiet
    ∷ beat 130 throttled
    ∷ beat 10 quiet
    ∷ beat 25 throttled
    ∷ beat 40 missing
    ∷ []

abbrev camera : Camera
camera = record { uptime_seconds = 0; throttle_state = none }

two_logs : (accept_all beats camera).1.0 ≡ (Label.under_voltage ∷ Label.under_voltage ∷ [])
unfolding program
two_logs = refl

one_reboot : (accept_all beats camera).1.1 ≡ 1
unfolding program
one_reboot = refl

summary :
    summarize_throttle_state (sanitize_throttle_state throttled)
    ≡ some (critical, Label.under_voltage ∷ [])
unfolding program
summary = refl

accept_all-IsLogged_example : IsLogged Label.under_voltage camera (accept_all beats camera)
accept_all-IsLogged_example = accept_all-IsLogged Label.under_voltage beats camera

-- A reboot whose first beat has no throttle state: the flag of the boot before stays.
stale_flag :
    sticky_bit Label.under_voltage
      (accept_all
        (beat 100 throttled ∷ beat 10 missing ∷ beat 25 quiet ∷ [])
        camera).0.throttle_state
    ≡ true
unfolding program
stale_flag = refl
