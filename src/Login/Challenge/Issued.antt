-- ===== src/Login/Challenge/Issued.antt =====
-- A challenge token, from the first step of a log-in to the second
-- (app/server/monitor/services/totp_service.py).
use mathlib.Core.List.{append_assoc}
use rpi_home_monitor.Base.{
  ℕ, ◌+◌, String, ◌≡◌, ◌≢◌, refl, sym, ap, ◌∙◌, Bool, true, false, not, ◌&&◌, none, some, List, [],
  ◌∷◌, ◌++◌, leb, if◌then◌else◌, Bool-cases, inl, inr, arith, str_eq, eq_iff,
}
use rpi_home_monitor.Login.Challenge.{
  pos, print, flag, body, dotted, split_dots, challenge_ttl_seconds, issue_challenge_token,
  verified, four_parts, verify_challenge_token,
}
use rpi_home_monitor.Login.Challenge.Texts.{
  parse_int-print, has_dot, has_dot-print, split_dots-dotted, split_dots-single, Parted,
  split_dots-Parted, split_dots-Split,
}

has_dot-flag : (remote : Bool) → has_dot (flag remote) ≡ false
unfolding has_dot
has_dot-flag true = refl
has_dot-flag false = refl

-- The parts of a text that is put together like a token.
split_dots-body :
    (at : ℕ) (user_id : String) (remote : Bool) (sig : String)
    → split_dots (dotted (body at user_id remote) sig)
      ≡ print at ∷ (split_dots user_id ++ flag remote ∷ split_dots sig)
unfolding body
split_dots-body at user_id remote sig =
    rw (split_dots-dotted (dotted (print at) (dotted user_id (flag remote))) sig) (
      rw (split_dots-dotted (print at) (dotted user_id (flag remote))) (
        rw (split_dots-dotted user_id (flag remote)) (
          rw (split_dots-single (print at) (has_dot-print at)) (
            rw (split_dots-single (flag remote) (has_dot-flag remote)) (
              ap (◌∷◌ (print at))
                (append_assoc (split_dots user_id) (flag remote ∷ []) (split_dots sig)))))))

module _ (sign : String → String) where
  crowded :
      (a b c : String) (before : List String) (d e : String) (behind : List String) (now : ℕ)
      → four_parts sign (a ∷ b ∷ c ∷ (before ++ d ∷ e ∷ behind)) now ≡ none
  crowded a b c [] d e behind now = refl
  crowded a b c (x ∷ []) d e behind now = refl
  crowded a b c (x ∷ y ∷ before) d e behind now = refl

  crowded_behind :
      (a : String) (parts : List String) (c d e : String) (behind : List String) (now : ℕ)
      → Parted parts
      → four_parts sign (a ∷ (parts ++ c ∷ d ∷ e ∷ behind)) now ≡ none
  crowded_behind a [] c d e behind now (p, rest, h) = cc
  crowded_behind a (b ∷ []) c d e behind now h = refl
  crowded_behind a (b ∷ x ∷ []) c d e behind now h = refl
  crowded_behind a (b ∷ x ∷ y ∷ parts) c d e behind now h =
      crowded a b x (y ∷ parts) c d (e ∷ behind) now

  verified-body :
      (at : ℕ) (user_id : String) (remote : Bool) (sig : String) (now : ℕ)
      → verified sign (print at) user_id (flag remote) sig now (some (pos at)) ≡ (
          if str_eq (sign (body at user_id remote)) sig
            && (leb now (at + challenge_ttl_seconds) && leb at (now + 5))
          then some (user_id, remote)
          else none)
  unfolding body
  verified-body at user_id true sig now = ground arith
  verified-body at user_id false sig now = ground arith

  -- What a text comes to that is put together like a token, with any signature without a dot.
  verify-dotted :
      (at : ℕ) (user_id : String) (remote : Bool) (sig : String) (now : ℕ)
      → has_dot sig ≡ false
      → verify_challenge_token sign (dotted (body at user_id remote) sig) now ≡ (
          if not (has_dot user_id)
            && (str_eq (sign (body at user_id remote)) sig
                && (leb now (at + challenge_ttl_seconds) && leb at (now + 5)))
          then some (user_id, remote)
          else none)
  unfolding verify_challenge_token
  verify-dotted at user_id remote sig now plain = rw (split_dots-body at user_id remote sig) (
      rw (split_dots-single sig plain) (elim (Bool-cases (has_dot user_id)) [
        | inl dots ↦ rw dots (
            let (p, q, rest, e) = split_dots-Split user_id dots in
            rw e (crowded (print at) p q rest (flag remote) sig [] now))
        | inr single ↦ rw single (
            rw (split_dots-single user_id single)
              (rw (parse_int-print at) (verified-body at user_id remote sig now)))
      ]))

  verify-other :
      (at : ℕ) (user_id : String) (remote : Bool) (sig : String) (now : ℕ)
      → sig ≢ sign (body at user_id remote)
      → verify_challenge_token sign (dotted (body at user_id remote) sig) now ≡ none
  unfolding verify_challenge_token
  verify-other at user_id remote sig now other = elim (Bool-cases (has_dot sig)) [
    | inl dots ↦ rw (split_dots-body at user_id remote sig) (
        let (p, q, rest, e) = split_dots-Split sig dots in
        rw e (
          crowded_behind (print at) (split_dots user_id) (flag remote) p q rest now
            (split_dots-Parted user_id)))
    | inr plain ↦
        verify-dotted at user_id remote sig now plain
        ∙ rw (unequal (sign (body at user_id remote)) sig (λ e. other (sym e)))
            (if_none (not (has_dot user_id)) _)
  ]
    where
      unequal : (s t : String) → s ≢ t → str_eq s t ≡ false
      unequal s t n = elim (Bool-cases (str_eq s t)) [
        | inl same ↦ absurd (n ((eq_iff s t).0 same))
        | inr differ ↦ differ
      ]

      if_none : (b : Bool) (r : String × Bool) → (if b && false then some r else none) ≡ none
      if_none true r = refl
      if_none false r = refl

  -- A challenge token, as the text that it is, is good for five minutes, and with its own signature only:
  -- where signatures have no dot, the token that `issue_challenge_token` makes at `at` is verified
  -- at `now` as the same user and the same origin, if `now` is at most 300 seconds later and at most 5
  -- seconds earlier and the user's identifier has no dot, and is refused in every other case; and the
  -- same text with any other signature is refused.
  pub verify-issue_challenge_token :
      (user_id : String) (remote : Bool) (at now : ℕ) (other : String)
      → has_dot (sign (body at user_id remote)) ≡ false
      → other ≢ sign (body at user_id remote)
      → (verify_challenge_token sign (issue_challenge_token sign user_id remote at) now ≡ (
          if not (has_dot user_id) && (leb now (at + challenge_ttl_seconds) && leb at (now + 5))
          then some (user_id, remote)
          else none))
        × (verify_challenge_token sign (dotted (body at user_id remote) other) now ≡ none)
  unfolding issue_challenge_token
  verify-issue_challenge_token user_id remote at now other plain n = (
    verify-dotted at user_id remote (sign (body at user_id remote)) now plain
        ∙ rw ((eq_iff (sign (body at user_id remote)) (sign (body at user_id remote))).1 refl) refl,
    verify-other at user_id remote other now n,
  )
