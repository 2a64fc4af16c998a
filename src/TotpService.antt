-- ===== src/TotpService.antt =====
-- One-time passwords and recovery codes (app/server/monitor/services/totp_service.py), and the loop
-- of a log-in over them (app/server/monitor/api/auth_totp.py). Texts are ASCII. What pyotp expects
-- at an instant (`totp_at`) and whether bcrypt matches a code with a hash, without raising
-- (`checkpw`), are parameters.
mod Tests
pub mod Steps
pub mod Recovery
use rpi_home_monitor.Base.{
  ℕ, ◌+◌, ◌-◌, ◌*◌, ◌/◌, ◌%◌, String, Bool, true, false, ◌&&◌, ◌||◌, not, Option, none, some, List,
  [], ◌∷◌, Text, is_digit, is_empty, text_eq, strip, length, keep, leb, ltb, ◌==◌, if◌then◌else◌,
}

abbrev pub dash : ℕ
dash = 45

-- `.replace(" ", "").replace("-", "")` behind `strip()`
unfoldable pub clean_code : Text → Text
clean_code code = keep (λ c. not (c == 32 || c == dash)) (strip code)

unfoldable pub all_digits : Text → Bool
all_digits [] = true
all_digits (c ∷ s) = is_digit c && all_digits s

abbrev pub totp_step_seconds : ℕ
totp_step_seconds = 30

-- The steps that the drift allows. The step before the first is never accepted, nor is step 0.
abbrev pub candidates : ℕ → List ℕ
candidates current = (current - 1) ∷ current ∷ (current + 1) ∷ []

module _ (totp_at : ℕ → Text) where
  unfoldable pub first_match : Text → ℕ → List ℕ → Option ℕ
  first_match cleaned last_step [] = none
  first_match cleaned last_step (step ∷ steps) =
      let rest = first_match cleaned last_step steps in
      if leb step last_step
      then rest
      else (if text_eq (totp_at (step * totp_step_seconds)) cleaned then some step else rest)

  abbrev pub verdict : Option ℕ → Bool × ℕ
  verdict none = (false, 0)
  verdict (some step) = (true, step)

  -- `verify_code`, where `has_secret` says whether the secret is set.
  unfoldable pub verify_code : Bool → Text → ℕ → ℕ → Bool × ℕ
  verify_code has_secret code last_step now =
      let cleaned = clean_code code in
      if not has_secret || is_empty code
      then (false, 0)
      else (if not (length cleaned == 6) || not (all_digits cleaned)
          then (false, 0)
          else verdict (first_match cleaned last_step (candidates (now / totp_step_seconds))))

  -- A run of log-ins of one user, who keeps the last accepted step: the steps that are accepted.
  unfoldable pub accepted_steps : Bool → ℕ → List (Text × ℕ) → List ℕ
  accepted_steps has_secret last_step [] = []
  accepted_steps has_secret last_step ((code, now) ∷ calls) =
      let (ok, step) = verify_code has_secret code last_step now in
      if ok
      then step ∷ accepted_steps has_secret step calls
      else accepted_steps has_secret last_step calls

abbrev pub upper : ℕ → ℕ
upper c = if leb 97 c && leb c 122 then c - 32 else c

unfoldable pub upper_text : Text → Text
upper_text [] = []
upper_text (c ∷ s) = upper c ∷ upper_text s

unfoldable pub has_dash : Text → Bool
has_dash [] = false
has_dash (c ∷ s) = c == dash || has_dash s

-- `"-".join` of the groups of four.
unfoldable pub join_groups : Text → Text
join_groups (a ∷ b ∷ c ∷ d ∷ e ∷ rest) = a ∷ b ∷ c ∷ d ∷ dash ∷ join_groups (e ∷ rest)
join_groups s = s

abbrev pub recovery_code_group_len : ℕ
recovery_code_group_len = 4

-- The code in the form in which it was hashed, if it can be one.
unfoldable pub normalize : Text → Option Text
normalize code =
    let cleaned = upper_text (keep (λ c. not (c == 32)) (strip code)) in
    let group_count = length cleaned / recovery_code_group_len in
    if has_dash cleaned
    then some cleaned
    else (if length cleaned % recovery_code_group_len == 0 && (group_count == 5 || group_count == 4)
        then some (join_groups cleaned)
        else none)

module _ (checkpw : Text → String → Bool) where
  abbrev pub without : String → Option (List String) → Option (List String)
  without h none = none
  without h (some rest) = some (h ∷ rest)

  -- The hashes without the first that matches.
  unfoldable pub remove_match : Text → List String → Option (List String)
  remove_match cleaned [] = none
  remove_match cleaned (h ∷ hashes) =
      let rest = remove_match cleaned hashes in
      if checkpw cleaned h then some hashes else without h rest

  abbrev pub consumed : List String → Option (List String) → Bool × List String
  consumed hashes none = (false, hashes)
  consumed hashes (some rest) = (true, rest)

  abbrev pub consume_normalized : List String → Option Text → Bool × List String
  consume_normalized hashes none = (false, hashes)
  consume_normalized hashes (some cleaned) = consumed hashes (remove_match cleaned hashes)

  unfoldable pub consume_recovery_code : Text → List String → Bool × List String
  consume_recovery_code code hashes =
      if is_empty code || is_empty hashes
      then (false, hashes)
      else consume_normalized hashes (normalize code)
