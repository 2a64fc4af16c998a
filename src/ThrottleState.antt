-- ===== src/ThrottleState.antt =====
-- The throttle state of a camera (app/server/monitor/services/throttle_state.py), and what a heartbeat
-- does with it (app/server/monitor/services/camera_service.py). The eight flags are two records of
-- four: now, and since the boot. The texts of a summary are left out, but for its labels.
pub mod Labels
mod Tests
use rpi_home_monitor.Base.{
  ℕ, ◌+◌, Bool, true, false, ◌&&◌, ◌||◌, not, Option, none, some, List, [], ◌∷◌, ◌++◌, Text, take,
  keep, ltb, ◌==◌, if◌then◌else◌, is_empty, nonempty,
}

pub data Label : Type 0 where
  under_voltage thermal_throttle frequency_capped soft_temp_limit : Label

pub record Bits : Type 0 where
  pub under_voltage : Bool
  pub frequency_capped : Bool
  pub throttled : Bool
  pub soft_temp_limit : Bool

-- A throttle state as the server keeps it: a text that is missing has no key.
pub record Throttle : Type 0 where
  pub current : Bits
  pub sticky : Bits
  pub last_updated : Option Text
  pub source : Option Text
  pub raw_value_hex : Option Text

-- What a heartbeat reports: a flag that is there counts by its truth, a text only if it is one.
pub record RawBits : Type 0 where
  pub under_voltage : Option Bool
  pub frequency_capped : Option Bool
  pub throttled : Option Bool
  pub soft_temp_limit : Option Bool

pub record RawThrottle : Type 0 where
  pub current : RawBits
  pub sticky : RawBits
  pub last_updated : Option Text
  pub source : Option Text
  pub raw_value_hex : Option Text

pub data Report : Type 0 where
  missing null other : Report
  object : RawThrottle → Report

abbrev pub or_false : Option Bool → Bool
or_false none = false
or_false (some b) = b

abbrev pub is_present : Option Bool → Bool
is_present none = false
is_present (some b) = true

abbrev pub clean_bits : RawBits → Bits
clean_bits raw = record {
  under_voltage = or_false raw.under_voltage;
  frequency_capped = or_false raw.frequency_capped;
  throttled = or_false raw.throttled;
  soft_temp_limit = or_false raw.soft_temp_limit;
}

abbrev pub saw_bits : RawBits → Bool
saw_bits raw =
    (is_present raw.under_voltage || is_present raw.frequency_capped)
    || (is_present raw.throttled || is_present raw.soft_temp_limit)

abbrev pub clean_text : ℕ → Bool → Option Text → Option Text
clean_text n saw_flag none = if saw_flag then some [] else none
clean_text n saw_flag (some text) = some (take n text)

abbrev pub says_something : Option Text → Bool
says_something none = false
says_something (some text) = nonempty text

-- `sanitize_throttle_state`
unfoldable pub sanitize_throttle_state : Report → Option Throttle
sanitize_throttle_state missing = none
sanitize_throttle_state null = none
sanitize_throttle_state other = none
sanitize_throttle_state (object raw) =
    let saw_flag = saw_bits raw.current || saw_bits raw.sticky in
    if not saw_flag
      && not (
          says_something raw.last_updated
          || (says_something raw.source || says_something raw.raw_value_hex))
    then none
    else some (record {
      current = clean_bits raw.current;
      sticky = clean_bits raw.sticky;
      last_updated = clean_text 32 saw_flag raw.last_updated;
      source = clean_text 32 saw_flag raw.source;
      raw_value_hex = clean_text 18 saw_flag raw.raw_value_hex;
    })

abbrev pub either_bits : Bits → Bits → Bits
either_bits a b = record {
  under_voltage = a.under_voltage || b.under_voltage;
  frequency_capped = a.frequency_capped || b.frequency_capped;
  throttled = a.throttled || b.throttled;
  soft_temp_limit = a.soft_temp_limit || b.soft_temp_limit;
}

abbrev pub merged : Option Throttle → Throttle → Throttle
merged none t = t
merged (some previous) t = record t { sticky = either_bits previous.sticky t.sticky }

-- `merge_throttle_state`
unfoldable pub merge_throttle_state : Option Throttle → Throttle → Bool → Throttle
merge_throttle_state previous t rebooted = if rebooted then t else merged previous t

abbrev pub bit : Label → Bits → Bool
bit Label.under_voltage b = b.under_voltage
bit thermal_throttle b = b.throttled
bit Label.frequency_capped b = b.frequency_capped
bit Label.soft_temp_limit b = b.soft_temp_limit

abbrev pub sticky_bit : Label → Option Throttle → Bool
sticky_bit l none = false
sticky_bit l (some t) = bit l t.sticky

abbrev pub all_labels : List Label
all_labels =
    Label.under_voltage ∷ thermal_throttle ∷ Label.frequency_capped ∷ Label.soft_temp_limit ∷ []

-- `sticky_transition_labels`
unfoldable pub sticky_transition_labels : Option Throttle → Option Throttle → List Label
sticky_transition_labels previous t =
    keep (λ l. sticky_bit l t && not (sticky_bit l previous)) all_labels

pub data Severity : Type 0 where
  warning error critical : Severity

-- `summarize_throttle_state`: the severity and the labels, or nothing.
unfoldable pub summarize_throttle_state : Option Throttle → Option (Severity × List Label)
summarize_throttle_state none = none
summarize_throttle_state (some t) =
    let current_labels = keep (λ l. bit l t.current) all_labels in
    let sticky_labels = keep (λ l. bit l t.sticky && not (bit l t.current)) all_labels in
    if is_empty current_labels && is_empty sticky_labels
    then none
    else some (
      (if t.current.under_voltage
          then critical
          else if t.current.throttled || t.current.frequency_capped
          then error
          else warning),
      if is_empty current_labels then sticky_labels else current_labels,
    )

-- The part of a camera's row, and of a heartbeat, that matters here.
pub record Camera : Type 0 where
  pub uptime_seconds : ℕ
  pub throttle_state : Option Throttle

pub record Beat : Type 0 where
  pub uptime_seconds : Option ℕ
  pub throttle_state : Report

-- `_uptime_looks_rebooted`
unfoldable pub uptime_looks_rebooted : ℕ → Option ℕ → Bool
uptime_looks_rebooted previous none = false
uptime_looks_rebooted previous (some current) = not (previous == 0) && ltb (current + 60) previous

abbrev pub or_old : ℕ → Option ℕ → ℕ
or_old previous none = previous
or_old previous (some current) = current

abbrev pub is_null : Report → Bool
is_null missing = false
is_null null = true
is_null other = false
is_null (object raw) = false

abbrev pub taken : Report → Bool → Camera → Option Throttle → Camera × List Label
taken report rebooted c none =
    ((if is_null report && rebooted then record c { throttle_state = none } else c), [])
taken report rebooted c (some t) =
    let baseline = if rebooted then none else c.throttle_state in
    let t' = merge_throttle_state c.throttle_state t rebooted in
    (record c { throttle_state = some t' }, sticky_transition_labels baseline (some t'))

-- The throttle part of `accept_heartbeat`: the row, and the labels that are logged.
unfoldable pub accept_heartbeat : Beat → Camera → Camera × List Label
accept_heartbeat beat c =
    taken beat.throttle_state (uptime_looks_rebooted c.uptime_seconds beat.uptime_seconds)
      (record c { uptime_seconds = or_old c.uptime_seconds beat.uptime_seconds })
      (sanitize_throttle_state beat.throttle_state)

-- Heartbeats, the oldest first: the row, the labels that were logged, and how many looked like the
-- first one after a reboot.
unfoldable pub accept_all : List Beat → Camera → Camera × (List Label × ℕ)
accept_all [] c = (c, ([], 0))
accept_all (beat ∷ beats) c =
    let rebooted = uptime_looks_rebooted c.uptime_seconds beat.uptime_seconds in
    let (c', logged) = accept_heartbeat beat c in
    let (c'', (more, reboots)) = accept_all beats c' in
    (c'', (logged ++ more, if rebooted then reboots + 1 else reboots))
