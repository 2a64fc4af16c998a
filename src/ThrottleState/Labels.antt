-- ===== src/ThrottleState/Labels.antt =====
-- How often a throttle label is logged, and how long a sticky flag lasts
-- (app/server/monitor/services/throttle_state.py, app/server/monitor/services/camera_service.py).
use rpi_home_monitor.Base.{
  ℕ, ◌+◌, ◌≤◌, ◌≡◌, refl, Bool, true, false, ◌&&◌, ◌||◌, not, Option, none, some, List, [], ◌∷◌,
  ◌++◌, keep, if◌then◌else◌, if_both, ◌==◌, arith,
}
use rpi_home_monitor.ThrottleState.{
  Label, Throttle, Report, Camera, Beat, thermal_throttle, merge_throttle_state, sticky_bit,
  sticky_transition_labels, sanitize_throttle_state, uptime_looks_rebooted, or_old, taken,
  accept_heartbeat, accept_all, is_null,
}

abbrev index : Label → ℕ
index Label.under_voltage = 0
index thermal_throttle = 1
index Label.frequency_capped = 2
index Label.soft_temp_limit = 3

-- How often a label stands in a list.
unfoldable pub count : Label → List Label → ℕ
count l [] = 0
count l (m ∷ labels) = let rest = count l labels in if index l == index m then rest + 1 else rest

abbrev pub as_one : Bool → ℕ
as_one false = 0
as_one true = 1

count-append : (l : Label) (xs ys : List Label) → count l (xs ++ ys) ≡ count l xs + count l ys
unfolding count
count-append l [] ys = omega arith
count-append l (x ∷ xs) ys = ground (arith, count-append l xs ys)

count-sticky_transition_labels :
    (l : Label) (previous t : Option Throttle)
    → count l (sticky_transition_labels previous t)
      ≡ as_one (sticky_bit l t && not (sticky_bit l previous))
unfolding sticky_transition_labels keep count
count-sticky_transition_labels Label.under_voltage previous t = ground arith
count-sticky_transition_labels thermal_throttle previous t = ground arith
count-sticky_transition_labels Label.frequency_capped previous t = ground arith
count-sticky_transition_labels Label.soft_temp_limit previous t = ground arith

sticky_bit-merge_throttle_state :
    (l : Label) (previous : Option Throttle) (t : Throttle) (rebooted : Bool)
    → sticky_bit l (some (merge_throttle_state previous t rebooted))
      ≡ (if rebooted then sticky_bit l (some t) else sticky_bit l previous || sticky_bit l (some t))
unfolding merge_throttle_state
sticky_bit-merge_throttle_state l previous t true = refl
sticky_bit-merge_throttle_state l none t false = refl
sticky_bit-merge_throttle_state Label.under_voltage (some p) t false = refl
sticky_bit-merge_throttle_state thermal_throttle (some p) t false = refl
sticky_bit-merge_throttle_state Label.frequency_capped (some p) t false = refl
sticky_bit-merge_throttle_state Label.soft_temp_limit (some p) t false = refl

-- One heartbeat: what is logged, and the flag before and after it.
abbrev Balanced : Label → Bool → Camera → Camera × List Label → Type 0
Balanced l rebooted c (c', logged) =
    (count l logged + as_one (sticky_bit l c.throttle_state)
      ≤ as_one (sticky_bit l c'.throttle_state) + as_one rebooted)
    × (as_one (sticky_bit l c'.throttle_state)
        ≤ count l logged + as_one (sticky_bit l c.throttle_state))

taken-Balanced :
    (l : Label) (report : Report) (rebooted : Bool) (c : Camera) (o : Option Throttle)
    → Balanced l rebooted c (taken report rebooted c o)
unfolding count
taken-Balanced l report rebooted c none =
    if_both (λ c'. Balanced l rebooted c (c', [])) (is_null report && rebooted)
      (λ cleared. ground (arith, cleared)) (λ e. (omega arith, omega arith))
taken-Balanced l report true c (some t) =
    rw (count-sticky_transition_labels l none (some (merge_throttle_state c.throttle_state t true)))
      (ground arith)
taken-Balanced l report false c (some t) =
    let kept = sticky_bit-merge_throttle_state l c.throttle_state t false in
    rw
      (count-sticky_transition_labels l c.throttle_state
        (some (merge_throttle_state c.throttle_state t false)))
      (ground (arith, kept))

accept_heartbeat-Balanced :
    (l : Label) (beat : Beat) (c : Camera)
    → Balanced l
        (uptime_looks_rebooted c.uptime_seconds beat.uptime_seconds)
        c
        (accept_heartbeat beat c)
unfolding accept_heartbeat
accept_heartbeat-Balanced l beat c =
    taken-Balanced l beat.throttle_state
      (uptime_looks_rebooted c.uptime_seconds beat.uptime_seconds)
      (record c { uptime_seconds = or_old c.uptime_seconds beat.uptime_seconds })
      (sanitize_throttle_state beat.throttle_state)

-- What a run of heartbeats logs of a label, against its flag before and behind the run.
abbrev pub IsLogged : Label → Camera → Camera × (List Label × ℕ) → Type 0
IsLogged l c (c', (logged, reboots)) =
    (count l logged + as_one (sticky_bit l c.throttle_state)
      ≤ as_one (sticky_bit l c'.throttle_state) + reboots)
    × (as_one (sticky_bit l c'.throttle_state)
        ≤ count l logged + as_one (sticky_bit l c.throttle_state))

-- How often a label is logged in any run of heartbeats: as many times as it is logged, and one more if
-- its sticky flag was set before the run, is at most the number of beats that look like a reboot by
-- their uptime, and one more if the flag is set behind the run. So in a run without such a beat a flag
-- that was set stays set and its label is not logged again. And a label whose flag is set behind the
-- run and was not before is logged at least once.
pub accept_all-IsLogged :
    (l : Label) (beats : List Beat) (c : Camera) → IsLogged l c (accept_all beats c)
unfolding accept_all count
accept_all-IsLogged l [] c = (omega arith, omega arith)
accept_all-IsLogged l (beat ∷ beats) c =
    let rebooted = uptime_looks_rebooted c.uptime_seconds beat.uptime_seconds in
    let (c', logged) = accept_heartbeat beat c in
    let (c'', (more, reboots)) = accept_all beats c' in
    let (few, all) = accept_heartbeat-Balanced l beat c in
    let (few_more, all_more) = accept_all-IsLogged l beats c' in
    rw (count-append l logged more) (
      together rebooted (count l logged) (count l more) (as_one (sticky_bit l c.throttle_state))
        (as_one (sticky_bit l c'.throttle_state)) (as_one (sticky_bit l c''.throttle_state)) reboots
        few all few_more all_more)
  where
    together :
        (b : Bool) (m n a d e r : ℕ)
        → m + a ≤ d + as_one b
        → d ≤ m + a
        → n + d ≤ e + r
        → e ≤ n + d
        → (m + n + a ≤ e + (if b then r + 1 else r)) × (e ≤ m + n + a)
    together true m n a d e r p q s t = (omega (arith, p, q, s, t), omega (arith, p, q, s, t))
    together false m n a d e r p q s t = (omega (arith, p, q, s, t), omega (arith, p, q, s, t))
