-- ===== src/Login/Entry.antt =====
-- How a session begins: by a right password alone, or by a challenge and a second factor
-- (app/server/monitor/auth.py, app/server/monitor/api/auth_totp.py).
use Prim.Native.Char.{Char}
use rpi_home_monitor.Base.{
  ℕ, String, ◌≡◌, ◌≢◌, refl, sym, Bool, true, false, ◌&&◌, ◌||◌, not, Option, none, some, List, ◌∷◌,
  Text, is_empty, strip, skip_spaces, str_eq, eq_iff, Bool-cases, inl, inr,
}
use mathlib.Core.Path.{subst}
use rpi_home_monitor.Accounts.{User, get_user, get_user_by_username, save_user, is_account_locked}
use rpi_home_monitor.Sessions
use rpi_home_monitor.Sessions.{Session, Service, get_session, new_session}
use rpi_home_monitor.Login.Challenge.{
  split_dots, has_separator, parse_int, scan, verify_challenge_token,
}
use rpi_home_monitor.Login.{
  Setup, Server, Client, Cookie, Answer, logged_in, blank_session, cookie_of, issued,
  begin_user_session, check_rate_limit, is_remote, password_ok, known_user, login, second_factor,
  totp_login,
}

and_false : (b : Bool) → (b && false) ≡ false
and_false true = refl
and_false false = refl

module _ (setup : Setup) (parse_ip : String → Option (ℕ × ℕ)) (sign : String → String)
    (check_password : String → String → Bool) where
  -- What a session that comes from the password alone says of the user.
  abbrev Entered : String → ℕ → User → Answer → Type 0
  Entered password now user (logged_in cookie) =
      (check_password password user.password_hash ≡ true)
      × (is_account_locked user now ≡ false)
      × ((user.totp_enabled && setup.has_totp) ≡ false)
      × (cookie.user_id ≡ user.id)
      × (cookie.role ≡ user.role)
  Entered password now user _ = Unit

  issued-Entered :
      (password : String) (now : ℕ) (user u : User) (s : Server) (p : Option Session × Service)
      → u.id ≡ user.id
      → u.role ≡ user.role
      → check_password password user.password_hash ≡ true
      → is_account_locked user now ≡ false
      → (user.totp_enabled && setup.has_totp) ≡ false
      → Entered password now user (issued setup u s p).0
  issued-Entered password now user u s (none, sessions) i r right free single = tt
  issued-Entered password now user u s (some row, sessions) i r right free single =
      (right, free, single, i, r)

  password_ok-Entered :
      (password : String) (now : ℕ) (user : User) (client : Client) (s : Server)
      → check_password password user.password_hash ≡ true
      → is_account_locked user now ≡ false
      → Entered password now user
          (password_ok setup parse_ip sign check_password user client now s).0
  unfolding password_ok begin_user_session
  password_ok-Entered password now user client s right free =
      elim (Bool-cases (
        ((setup.require_2fa_for_remote && setup.has_totp)
          && is_remote setup parse_ip sign check_password client.ip)
        && not user.totp_enabled)) [
          | inl must ↦ rw must tt
          | inr may ↦
              rw may
                (elim (Bool-cases (
                  (user.totp_enabled
                    || ((setup.require_2fa_for_remote && setup.has_totp)
                        && is_remote setup parse_ip sign check_password client.ip))
                  && setup.has_totp)) [
                    | inl second ↦ rw second tt
                    | inr one ↦ rw one (
                        issued-Entered password now user
                          (record user { failed_logins = 0; locked_until = 0; last_login = now })
                          (record s {
                            users =
                                save_user
                                  (record user {
                                    failed_logins = 0;
                                    locked_until = 0;
                                    last_login = now;
                                  })
                                  s.users;
                          })
                          _ refl refl right free (single user.totp_enabled _ setup.has_totp one))
                  ])
        ]
    where
      single : (a b c : Bool) → ((a || b) && c) ≡ false → (a && c) ≡ false
      single true b c e = e
      single false b c e = refl

  login-Entered :
      (username password : String) (client : Client) (now : ℕ) (s : Server) (user : User)
      → get_user_by_username username s.users ≡ some user
      → Entered password now user
          (login setup parse_ip sign check_password username password client now s).0
  unfolding login check_rate_limit
  login-Entered username password client now s user e =
      elim (Bool-cases (check_rate_limit setup client now s).1) [
        | inl allowed ↦ rw allowed (elim (Bool-cases (str_eq username "" || str_eq password "")) [
          | inl missing ↦ rw missing tt
          | inr given ↦ rw given (rw e (known now _))
        ])
        | inr blocked ↦ rw blocked tt
      ]
    where
      known :
          (at : ℕ) (t : Server)
          → Entered password at user
              (known_user setup parse_ip sign check_password password client at t (some user)).0
      known at t = elim (Bool-cases (is_account_locked user at)) [
        | inl locked ↦ rw locked tt
        | inr free ↦ rw free (elim (Bool-cases (check_password password user.password_hash)) [
          | inl right ↦ rw right (password_ok-Entered password at user client t right free)
          | inr wrong ↦ rw wrong tt
        ])
      ]

  -- Only the right password opens a session, and alone only without a second factor: when `login`
  -- answers with a session for a user on file, the password is that user's, the account is not locked,
  -- its second factor is not enabled (or there is no service for it), and the session carries the
  -- user's identifier and role.
  pub login-logged_in :
      (username password : String) (client : Client) (now : ℕ) (s : Server) (user : User)
      (cookie : Cookie)
      → get_user_by_username username s.users ≡ some user
      → (login setup parse_ip sign check_password username password client now s).0
        ≡ logged_in cookie
      → (check_password password user.password_hash ≡ true)
        × (is_account_locked user now ≡ false)
        × ((user.totp_enabled && setup.has_totp) ≡ false)
        × (cookie.user_id ≡ user.id)
        × (cookie.role ≡ user.role)
  login-logged_in username password client now s user cookie e answer =
      subst (Entered password now user) answer (login-Entered username password client now s user e)

  issue_fresh :
      (cfg : Sessions.Config) (k : String) (ids : List String) (blank : Session) (now : ℕ)
      (s : Service)
      → get_session k s.sessions ≡ none
      → (Sessions.issue cfg (k ∷ ids) blank now s).0 ≡ some (new_session cfg k blank now)
  unfolding Sessions.issue
  issue_fresh cfg k ids blank now s e = rw e refl

  issued_lem :
      (u : User) (s : Server) (p : Option Session × Service) (r : Session)
      → p.0 ≡ some r
      → (issued setup u s p).0 ≡ logged_in (cookie_of u r)
  issued_lem u s (o, sessions) r e =
      subst (λ x. (issued setup u s (x, sessions)).0 ≡ logged_in (cookie_of u r)) (sym e) refl

  -- A session begins where the first identifier is unused.
  begin_fresh :
      (u : User) (client : Client) (now : ℕ) (s : Server) (k : String) (ids : List String)
      → client.ids ≡ k ∷ ids
      → get_session k (Sessions.discard setup.session_config client.sid s.sessions).sessions ≡ none
      → (begin_user_session setup u client now s).0
        ≡ logged_in (cookie_of u (new_session setup.session_config k (blank_session u client) now))
  unfolding begin_user_session
  begin_fresh u client now s k ids drawn unused =
      issued_lem u s _ (new_session setup.session_config k (blank_session u client) now)
        (rw drawn (issue_fresh setup.session_config k ids (blank_session u client) now _ unused))

  not_empty : (c : Char) (s : String) → String.◌∷◌ c s ≢ ""
  not_empty c s e = cc

  present :
      (token : String) (now : ℕ) (r : String × Bool)
      → verify_challenge_token sign token now ≡ some r
      → str_eq token "" ≡ false
  unfolding verify_challenge_token split_dots has_separator parse_int strip skip_spaces scan
  present String.[] now r e = cc
  present (String.◌∷◌ c s) now r e = elim (Bool-cases (str_eq (String.◌∷◌ c s) "")) [
    | inl same ↦ absurd (not_empty c s ((eq_iff (String.◌∷◌ c s) "").0 same))
    | inr other ↦ other
  ]

  module _ (totp_at : String → ℕ → Text) (checkpw : Text → String → Bool) where
    -- The lock of an account does not stop the second factor: for a user whose account is locked, with
    -- a second factor enabled, a token that is still good and a code that is accepted, `verify`
    -- answers with a session, when the address is not limited and the first identifier that is
    -- drawn is unused.
    pub totp_login_locked :
        (token : String) (recovery : Bool) (code : Text) (client : Client) (now : ℕ) (s : Server)
        (user used : User) (remote : Bool) (k : String) (ids : List String)
        → verify_challenge_token sign token now ≡ some (user.id, remote)
        → get_user user.id s.users ≡ some user
        → is_account_locked user now ≡ true
        → user.totp_enabled ≡ true
        → (check_rate_limit setup client now s).1 ≡ true
        → is_empty (strip code) ≡ false
        → second_factor setup parse_ip sign check_password totp_at checkpw recovery
            (strip code)
            now
            user
          ≡ some used
        → client.ids ≡ k ∷ ids
        → get_session k (Sessions.discard setup.session_config client.sid s.sessions).sessions
          ≡ none
        → (cookie : Cookie) × ((totp_login setup parse_ip sign check_password totp_at checkpw token
              recovery code client now s).0
            ≡ logged_in cookie)
    unfolding totp_login check_rate_limit
    totp_login_locked token recovery code client now s user used remote k ids good found locked
          enabled allowed given accepted drawn unused =
        (
          cookie_of (record used { failed_logins = 0; locked_until = 0 })
              (new_session setup.session_config k
                (blank_session (record used { failed_logins = 0; locked_until = 0 }) client) now),
          rw (present token now (user.id, remote) good) (
              rw good (
                rw found (
                  rw allowed (
                    rw given (
                      rw accepted (
                        rw enabled (
                          rw (and_false remote) (
                            begin_fresh (record used { failed_logins = 0; locked_until = 0 }) client
                              now
                              (record s {
                                attempts = (check_rate_limit setup client now s).0.attempts;
                                users =
                                    save_user (record used { failed_logins = 0; locked_until = 0 })
                                      s.users;
                              })
                              k ids drawn unused)))))))),
        )
