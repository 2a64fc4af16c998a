-- ===== src/TotpService/Recovery.antt =====
-- A recovery code counts once (app/server/monitor/services/totp_service.py).
use rpi_home_monitor.Base.{
  ℕ, ◌+◌, String, ◌≡◌, refl, sym, ◌∙◌, ap, Bool, true, false, ◌||◌, Option, none, some, List, [],
  ◌∷◌, Text, is_empty, keep, length, if◌then◌else◌, Bool-cases, inl, inr, arith,
}
use rpi_home_monitor.TotpService.{
  normalize, without, remove_match, consumed, consume_normalized, consume_recovery_code,
}

module _ (checkpw : Text → String → Bool) where
  -- How many hashes a code matches.
  unfoldable pub matching : Text → List String → ℕ
  matching cleaned hashes = length (keep (checkpw cleaned) hashes)

  matching_hit :
      (cleaned : Text) (h : String) (hashes : List String)
      → checkpw cleaned h ≡ true
      → matching cleaned (h ∷ hashes) ≡ matching cleaned hashes + 1
  unfolding matching keep
  matching_hit cleaned h hashes e = rw e (omega arith)

  matching_miss :
      (cleaned : Text) (h : String) (hashes : List String)
      → checkpw cleaned h ≡ false
      → matching cleaned (h ∷ hashes) ≡ matching cleaned hashes
  unfolding matching keep
  matching_miss cleaned h hashes e = rw e refl

  matching_none : (cleaned : Text) → matching cleaned [] ≡ 0
  unfolding matching keep
  matching_none cleaned = refl

  abbrev Removed : Text → List String → Option (List String) → Type 0
  Removed cleaned hashes none = matching cleaned hashes ≡ 0
  Removed cleaned hashes (some rest) =
      (matching cleaned rest + 1 ≡ matching cleaned hashes) × (length rest + 1 ≡ length hashes)

  without-Removed :
      (cleaned : Text) (h : String) (hashes : List String) (o : Option (List String))
      → checkpw cleaned h ≡ false
      → Removed cleaned hashes o
      → Removed cleaned (h ∷ hashes) (without checkpw h o)
  without-Removed cleaned h hashes none e r = matching_miss cleaned h hashes e ∙ r
  without-Removed cleaned h hashes (some rest) e r = (
    omega (arith, matching_miss cleaned h hashes e, matching_miss cleaned h rest e, r.0),
    omega (arith, r.1),
  )

  remove_match-Removed :
      (cleaned : Text) (hashes : List String)
      → Removed cleaned hashes (remove_match checkpw cleaned hashes)
  unfolding remove_match
  remove_match-Removed cleaned [] = matching_none cleaned
  remove_match-Removed cleaned (h ∷ hashes) = elim (Bool-cases (checkpw cleaned h)) [
    | inl hit ↦ rw hit (sym (matching_hit cleaned h hashes hit), omega arith)
    | inr miss ↦
        rw miss (without-Removed cleaned h hashes _ miss (remove_match-Removed cleaned hashes))
  ]

  -- What a call with a code in its normal form returns.
  abbrev Consumed : Text → List String → Bool × List String → Type 0
  Consumed cleaned hashes (true, rest) =
      (matching cleaned rest + 1 ≡ matching cleaned hashes) × (length rest + 1 ≡ length hashes)
  Consumed cleaned hashes (false, rest) = (matching cleaned hashes ≡ 0) × (rest ≡ hashes)

  consumed-Consumed :
      (cleaned : Text) (hashes : List String) (o : Option (List String))
      → Removed cleaned hashes o
      → Consumed cleaned hashes (consumed checkpw hashes o)
  consumed-Consumed cleaned hashes none r = (r, refl)
  consumed-Consumed cleaned hashes (some rest) r = r

  consume-Consumed :
      (code cleaned : Text) (hashes : List String)
      → is_empty code ≡ false
      → normalize code ≡ some cleaned
      → Consumed cleaned hashes (consume_recovery_code checkpw code hashes)
  unfolding consume_recovery_code
  consume-Consumed code cleaned [] given e = nothing_left (is_empty code)
    where
      nothing_left :
          (b : Bool)
          → Consumed cleaned []
              (if b || true then (false, []) else consume_normalized checkpw [] (normalize code))
      nothing_left true = (matching_none cleaned, refl)
      nothing_left false = (matching_none cleaned, refl)
  consume-Consumed code cleaned (h ∷ hashes) given e =
      rw given (
        rw e (consumed-Consumed cleaned (h ∷ hashes) _ (remove_match-Removed cleaned (h ∷ hashes))))

  single_use :
      (cleaned : Text) (hashes : List String) (r r' : Bool × List String)
      → matching cleaned hashes ≡ 1
      → Consumed cleaned hashes r
      → Consumed cleaned r.1 r'
      → (r.0 ≡ true) × (r' ≡ (false, r.1))
  single_use cleaned hashes (true, rest) (true, rest') one h h' =
      absurd (omega (arith, h.0, h'.0, one))
  single_use cleaned hashes (true, rest) (false, rest') one h h' = (refl, ap (λ x. (false, x)) h'.1)
  single_use cleaned hashes (false, rest) r' one h h' = absurd (omega (arith, h.0, one))

  -- A recovery code works once: when a code that is not empty has a normal form, and one stored hash
  -- matches it, the first call of `consume_recovery_code` accepts it, and a second call with the
  -- hashes that are left refuses it and leaves them as they are.
  pub consume_once :
      (code cleaned : Text) (hashes : List String)
      → is_empty code ≡ false
      → normalize code ≡ some cleaned
      → matching cleaned hashes ≡ 1
      → ((consume_recovery_code checkpw code hashes).0 ≡ true)
        × (consume_recovery_code checkpw code (consume_recovery_code checkpw code hashes).1
            ≡ (false, (consume_recovery_code checkpw code hashes).1))
  consume_once code cleaned hashes given e one =
      single_use cleaned hashes _ _ one (consume-Consumed code cleaned hashes given e)
        (consume-Consumed code cleaned _ given e)
