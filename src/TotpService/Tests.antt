-- ===== src/TotpService/Tests.antt =====
-- Codes and the instants at which they are tried, and the theorems of the one-time passwords at them.
use rpi_home_monitor.Base.{
  ℕ, ◌+◌, ◌/◌, ◌%◌, String, ◌≡◌, refl, Bool, true, false, List, [], ◌∷◌, Text, codes, keep,
  skip_spaces, strip, text_eq, str_eq,
}
use rpi_home_monitor.TotpService.{
  clean_code, all_digits, first_match, verify_code, accepted_steps, upper_text, has_dash,
  join_groups, normalize, remove_match, consume_recovery_code,
}
use rpi_home_monitor.TotpService.Steps.{
  Ascending, Accepted, verify_code-Accepted, accepted_steps-Ascending,
}
use rpi_home_monitor.TotpService.Recovery.{matching, consume_once}

program : Unit {0}
unfolding keep skip_spaces strip text_eq clean_code all_digits first_match verify_code
    accepted_steps upper_text has_dash join_groups normalize remove_match consume_recovery_code
    matching
program = tt

-- The digits of a step stand for the code that is expected at it.
abbrev totp_at : ℕ → Text
totp_at instant = 49 ∷ 50 ∷ 51 ∷ 52 ∷ 53 ∷ (48 + instant / 30 % 10) ∷ []

abbrev code_of_seven : Text
code_of_seven = codes " 123 457 "

abbrev log_ins : List (Text × ℕ)
log_ins = (code_of_seven, 211) ∷ (code_of_seven, 215) ∷ (codes "123-458", 220) ∷ []

once : accepted_steps totp_at true 0 log_ins ≡ 7 ∷ 8 ∷ []
unfolding program
once = refl

verify_code-Accepted_case : Accepted totp_at code_of_seven 0 211 7
verify_code-Accepted_case =
    verify_code-Accepted totp_at true code_of_seven 0 211 7 (unfold program in refl)

accepted_steps-Ascending_example : Ascending 0 (accepted_steps totp_at true 0 log_ins)
accepted_steps-Ascending_example = accepted_steps-Ascending totp_at true 0 log_ins

abbrev checkpw : Text → String → Bool
checkpw code hash = str_eq hash "h2"

abbrev hashes : List String
hashes = "h1" ∷ "h2" ∷ "h3" ∷ []

abbrev recovery : Text
recovery = codes "abcd efgh jklm npqr"

consume_once_example :
    ((consume_recovery_code checkpw recovery hashes).0 ≡ true)
    × (consume_recovery_code checkpw recovery (consume_recovery_code checkpw recovery hashes).1
        ≡ (false, (consume_recovery_code checkpw recovery hashes).1))
consume_once_example =
    consume_once checkpw recovery (codes "ABCD-EFGH-JKLM-NPQR") hashes refl (unfold program in refl)
      (unfold program in refl)
