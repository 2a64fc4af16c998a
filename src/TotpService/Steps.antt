-- ===== src/TotpService/Steps.antt =====
-- A one-time password counts once (app/server/monitor/services/totp_service.py).
use rpi_home_monitor.Base.{
  ℕ, ◌+◌, ◌*◌, ◌/◌, ◌≤◌, ◌<◌, ◌≡◌, Bool, true, false, not, ◌||◌, List, [], ◌∷◌, Text, is_empty,
  text_eq, length, leb, ◌==◌, if◌then◌else◌, Bool-cases, inl, inr, arith, All,
}
use mathlib.Core.Path.{subst}
use rpi_home_monitor.TotpService.{
  clean_code, all_digits, totp_step_seconds, candidates, first_match, verdict, verify_code,
  accepted_steps,
}

-- Each step is later than the one before it.
abbrev pub Ascending : ℕ → List ℕ → Type 0
Ascending last [] = Unit
Ascending last (step ∷ steps) = (last < step) × Ascending step steps

module _ (totp_at : ℕ → Text) where
  -- What an accepted step satisfies.
  abbrev pub Accepted : Text → ℕ → ℕ → ℕ → Type 0
  Accepted code last_step now step =
      (last_step < step)
      × (now / totp_step_seconds ≤ step + 1)
      × (step ≤ now / totp_step_seconds + 1)
      × (text_eq (totp_at (step * totp_step_seconds)) (clean_code code) ≡ true)

  abbrev Judged : Text → ℕ → ℕ → Bool × ℕ → Type 0
  Judged code last_step now (false, step) = Unit
  Judged code last_step now (true, step) = Accepted code last_step now step

  abbrev Near : ℕ → ℕ → Type 0
  Near current step = (current ≤ step + 1) × (step ≤ current + 1)

  first_match-Judged :
      (code : Text) (last_step now : ℕ) (steps : List ℕ)
      → All (Near (now / totp_step_seconds)) steps
      → Judged code last_step now
          (verdict totp_at (first_match totp_at (clean_code code) last_step steps))
  unfolding first_match
  first_match-Judged code last_step now [] h = tt
  first_match-Judged code last_step now (step ∷ steps) h = elim (Bool-cases (leb step last_step)) [
    | inl used ↦ rw used (first_match-Judged code last_step now steps h.1)
    | inr newer ↦
        rw newer
          (elim (Bool-cases (text_eq (totp_at (step * totp_step_seconds)) (clean_code code))) [
            | inl same ↦ rw same (ground arith, h.0.0, h.0.1, same)
            | inr other ↦ rw other (first_match-Judged code last_step now steps h.1)
          ])
  ]

  verify_code-Judged :
      (has_secret : Bool) (code : Text) (last_step now : ℕ)
      → Judged code last_step now (verify_code totp_at has_secret code last_step now)
  unfolding verify_code
  verify_code-Judged has_secret code last_step now =
      elim (Bool-cases (not has_secret || is_empty code)) [
        | inl missing ↦ rw missing tt
        | inr given ↦
            rw given
              (elim (Bool-cases
                (not (length (clean_code code) == 6) || not (all_digits (clean_code code)))) [
                  | inl malformed ↦ rw malformed tt
                  | inr formed ↦
                      let c = now / totp_step_seconds in
                      rw formed (
                        first_match-Judged code last_step now (candidates c) (
                          (omega arith, omega arith),
                          ((omega arith, omega arith), ((omega arith, omega arith), tt)),
                        ))
                ])
      ]

  -- A code that is accepted is right, recent and new: the step that `verify_code` returns with True is
  -- later than the last accepted one and at most one step away from the present, and the code, without
  -- spaces and dashes, is the one expected at that step.
  pub verify_code-Accepted :
      (has_secret : Bool) (code : Text) (last_step now step : ℕ)
      → verify_code totp_at has_secret code last_step now ≡ (true, step)
      → Accepted code last_step now step
  verify_code-Accepted has_secret code last_step now step e =
      subst (Judged code last_step now) e (verify_code-Judged has_secret code last_step now)

  next_steps :
      (code : Text) (last_step now : ℕ) (calls : List (Text × ℕ)) (v : Bool × ℕ)
      → Judged code last_step now v
      → (later : ℕ → List ℕ) → ((last : ℕ) → Ascending last (later last))
      → Ascending last_step (if v.0 then v.1 ∷ later v.1 else later last_step)
  next_steps code last_step now calls (true, step) h later ok = (h.0, ok step)
  next_steps code last_step now calls (false, step) h later ok = ok last_step

  -- No step counts twice: in any run of log-ins, whatever the codes and the instants, every step that
  -- is accepted is later than all that were accepted before it.
  pub accepted_steps-Ascending :
      (has_secret : Bool) (last_step : ℕ) (calls : List (Text × ℕ))
      → Ascending last_step (accepted_steps totp_at has_secret last_step calls)
  unfolding accepted_steps
  accepted_steps-Ascending has_secret last_step [] = tt
  accepted_steps-Ascending has_secret last_step ((code, now) ∷ calls) =
      next_steps code last_step now calls (verify_code totp_at has_secret code last_step now)
        (verify_code-Judged has_secret code last_step now)
        (λ last. accepted_steps totp_at has_secret last calls)
        (λ last. accepted_steps-Ascending has_secret last calls)
