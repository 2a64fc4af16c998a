-- ===== src/Login/Lockout.antt =====
-- The lockout of an account after failed passwords (app/server/monitor/auth.py).
use rpi_home_monitor.Base.{
  ℕ, ◌+◌, ◌≤◌, ◌<◌, String, ◌≡◌, refl, sym, ap, ◌∙◌, Bool, true, false, ◌&&◌, ◌||◌, not, Option,
  none, some, List, [], ◌∷◌, lt→ltb, All, str_eq, eq_iff, Bool-cases, inl, inr, arith,
}
use mathlib.Core.Path.{subst}
use mathlib.Core.Bool.{true≢false}
use rpi_home_monitor.Accounts.{
  User, find_user, get_user_by_username, save_user, lockout_from, get_lockout_duration,
  is_account_locked, count_failure,
}
use rpi_home_monitor.Accounts.Admins.{Hit, find_user-Hit}
use rpi_home_monitor.Sessions
use rpi_home_monitor.Sessions.{Service}
use rpi_home_monitor.Login.{
  Setup, Server, Client, Answer, invalid_credentials, challenged, logged_in, issued,
  begin_user_session, record_failure, check_rate_limit, is_remote, password_ok, known_user, login,
}

-- The password of a log-in, where it comes from and when.
pub record Attempt : Type 0 where
  pub password : String
  pub client : Client
  pub at : ℕ

-- Neither a session nor a challenge.
abbrev pub IsRefused : Answer → Type 0
IsRefused (challenged token) = ⊥
IsRefused (logged_in cookie) = ⊥
IsRefused _ = Unit

-- Five failures or more lock for a minute or more.
lockout_lem : (n : ℕ) → 5 ≤ n → 60 ≤ get_lockout_duration n
unfolding get_lockout_duration lockout_from
lockout_lem n h = ground arith

count_failure_locks :
    (now later : ℕ) (user : User)
    → 4 ≤ user.failed_logins
    → later < now + 60
    → is_account_locked (count_failure now user) later ≡ true
unfolding count_failure is_account_locked
count_failure_locks now later user h soon =
    let l = lockout_lem (user.failed_logins + 1) (omega (arith, h)) in
    rw (lt→ltb 0 (get_lockout_duration (user.failed_logins + 1)) (omega (arith, l)))
      (lt→ltb later (now + get_lockout_duration (user.failed_logins + 1)) (omega (arith, l, soon)))

abbrev id_of : Option User → String
id_of none = ""
id_of (some u) = u.id

find_hit :
    (p : User → Bool) (u : User) (users : List User) → p u ≡ true → find_user p (u ∷ users) ≡ some u
unfolding find_user
find_hit p u users h = rw h refl

find_miss :
    (p : User → Bool) (u : User) (users : List User)
    → p u ≡ false
    → find_user p (u ∷ users) ≡ find_user p users
unfolding find_user
find_miss p u users h = rw h refl

head_id :
    (p : User → Bool) (u user : User) (users : List User)
    → p u ≡ true
    → find_user p (u ∷ users) ≡ some user
    → u.id ≡ user.id
head_id p u user users h e = ap id_of (sym (find_hit p u users h) ∙ e)

-- Saving a found user anew, under the same identifier, leaves the changed user to be found.
find-save_user :
    (p : User → Bool) (user user' : User) (users : List User)
    → user'.id ≡ user.id
    → p user' ≡ true
    → find_user p users ≡ some user
    → find_user p (save_user user' users) ≡ some user'
unfolding find_user save_user
find-save_user p user user' [] same hit e = rw hit refl
find-save_user p user user' (u ∷ users) same hit e = elim (Bool-cases (str_eq u.id user'.id)) [
  | inl here ↦ rw here (rw hit refl)
  | inr other ↦ rw other (elim (Bool-cases (p u)) [
    | inl found ↦ absurd (
        true≢false
          (sym ((eq_iff u.id user'.id).1 (head_id p u user users found e ∙ sym same)) ∙ other))
    | inr miss ↦
        rw miss (find-save_user p user user' users same hit (sym (find_miss p u users miss) ∙ e))
  ])
]

module _ (setup : Setup) (parse_ip : String → Option (ℕ × ℕ)) (sign : String → String)
    (check_password : String → String → Bool) where
  -- An answer that names wrong credentials has counted the failure of the user.
  abbrev Counted : ℕ → User → List User → Answer × Server → Type 0
  Counted now user users (invalid_credentials, s) =
      s.users ≡ save_user (count_failure now user) users
  Counted now user users (_, s) = Unit

  issued-Counted :
      (now : ℕ) (user u : User) (users : List User) (s : Server)
      (p : Option Sessions.Session × Service)
      → Counted now user users (issued setup u s p)
  issued-Counted now user u users s (none, sessions) = tt
  issued-Counted now user u users s (some r, sessions) = tt

  begin-Counted :
      (now at : ℕ) (user u : User) (users : List User) (client : Client) (s : Server)
      → Counted now user users (begin_user_session setup u client at s)
  unfolding begin_user_session
  begin-Counted now at user u users client s = issued-Counted now user u users s _

  password_ok-Counted :
      (now : ℕ) (user : User) (client : Client) (s : Server)
      → Counted now user s.users (password_ok setup parse_ip sign check_password user client now s)
  unfolding password_ok
  password_ok-Counted now user client s =
      elim (Bool-cases (
        ((setup.require_2fa_for_remote && setup.has_totp)
          && is_remote setup parse_ip sign check_password client.ip)
        && not user.totp_enabled)) [
          | inl must ↦ rw must tt
          | inr may ↦
              rw may
                (elim (Bool-cases (
                  (user.totp_enabled
                    || ((setup.require_2fa_for_remote && setup.has_totp)
                        && is_remote setup parse_ip sign check_password client.ip))
                  && setup.has_totp)) [
                    | inl second ↦ rw second tt
                    | inr one ↦ rw one (begin-Counted now now user _ s.users client _)
                  ])
        ]

  known_user-Counted :
      (password : String) (client : Client) (now : ℕ) (s : Server) (user : User)
      → Counted now user s.users
          (known_user setup parse_ip sign check_password password client now s (some user))
  unfolding record_failure
  known_user-Counted password client now s user = elim (Bool-cases (is_account_locked user now)) [
    | inl locked ↦ rw locked tt
    | inr open_account ↦
        rw open_account (elim (Bool-cases (check_password password user.password_hash)) [
          | inl right ↦ rw right (password_ok-Counted now user client s)
          | inr wrong ↦ rw wrong refl
        ])
  ]

  -- What a log-in of a known user does to the rows.
  login-Counted :
      (username password : String) (client : Client) (now : ℕ) (s : Server) (user : User)
      → get_user_by_username username s.users ≡ some user
      → Counted now user s.users
          (login setup parse_ip sign check_password username password client now s)
  unfolding login check_rate_limit
  login-Counted username password client now s user e =
      elim (Bool-cases (check_rate_limit setup client now s).1) [
        | inl allowed ↦ rw allowed (elim (Bool-cases (str_eq username "" || str_eq password "")) [
          | inl missing ↦ rw missing tt
          | inr given ↦ rw given (rw e (known_user-Counted password client now _ user))
        ])
        | inr blocked ↦ rw blocked tt
      ]

  counted :
      (now : ℕ) (user : User) (users : List User) (a : Answer × Server)
      → Counted now user users a
      → a.0 ≡ invalid_credentials
      → a.1.users ≡ save_user (count_failure now user) users
  counted now user users (a, s) h e = subst (λ x. Counted now user users (x, s)) e h

  -- A log-in of a locked user is refused, and leaves the rows as they are.
  locked-IsRefused :
      (username password : String) (client : Client) (now : ℕ) (s : Server) (user : User)
      → get_user_by_username username s.users ≡ some user
      → is_account_locked user now ≡ true
      → IsRefused (login setup parse_ip sign check_password username password client now s).0
        × ((login setup parse_ip sign check_password username password client now s).1.users
            ≡ s.users)
  unfolding login check_rate_limit record_failure
  locked-IsRefused username password client now s user e locked =
      elim (Bool-cases (check_rate_limit setup client now s).1) [
        | inl allowed ↦ rw allowed (elim (Bool-cases (str_eq username "" || str_eq password "")) [
          | inl missing ↦ rw missing (tt, refl)
          | inr given ↦ rw given (rw e (rw locked (tt, refl)))
        ])
        | inr blocked ↦ rw blocked (tt, refl)
      ]

  -- The answers to log-ins of one user, one after the other.
  unfoldable pub login_all : String → List Attempt → Server → List Answer
  login_all username [] s = []
  login_all username (a ∷ attempts) s =
      let (answer, s') =
        login setup parse_ip sign check_password username a.password a.client a.at s in
      answer ∷ login_all username attempts s'

  locked-login_all :
      (username : String) (until : ℕ) (user : User) (attempts : List Attempt) (s : Server)
      → get_user_by_username username s.users ≡ some user
      → ((at : ℕ) → at < until → is_account_locked user at ≡ true)
      → All (λ a. a.at < until) attempts
      → All IsRefused (login_all username attempts s)
  unfolding login_all
  locked-login_all username until user [] s e locked soon = tt
  locked-login_all username until user (a ∷ attempts) s e locked soon =
      let (refused, same) =
        locked-IsRefused username a.password a.client a.at s user e (locked a.at soon.0) in
      (
        refused,
        locked-login_all username until user attempts
            (login setup parse_ip sign check_password username a.password a.client a.at s).1
            (ap (get_user_by_username username) same ∙ e) locked soon.1,
      )

  found_again :
      (username : String) (now : ℕ) (users : List User) (user : User)
      → get_user_by_username username users ≡ some user
      → get_user_by_username username (save_user (count_failure now user) users)
        ≡ some (count_failure now user)
  unfolding count_failure
  found_again username now users user e =
      find-save_user (λ u. str_eq u.username username) user (count_failure now user) users refl
        (subst (Hit (λ u. str_eq u.username username)) e
          (find_user-Hit (λ u. str_eq u.username username) users))
        e

  -- The fifth wrong password locks the account: when a log-in of a user with four failures or more is
  -- answered with invalid credentials, then in any row of log-ins of that user that follows it, each
  -- less than a minute after it and with only such log-ins in between, every one gets neither a session
  -- nor a challenge, whatever its password and wherever it comes from.
  pub login-login :
      (username wrong : String) (client : Client) (now : ℕ) (attempts : List Attempt) (s : Server)
      (user : User)
      → get_user_by_username username s.users ≡ some user
      → 4 ≤ user.failed_logins
      → (login setup parse_ip sign check_password username wrong client now s).0
        ≡ invalid_credentials
      → All (λ a. a.at < now + 60) attempts
      → All IsRefused (
          login_all username attempts
            (login setup parse_ip sign check_password username wrong client now s).1)
  login-login username wrong client now attempts s user e four refused soon =
      locked-login_all username (now + 60) (count_failure now user) attempts
        (login setup parse_ip sign check_password username wrong client now s).1
        (ap (get_user_by_username username)
            (counted now user s.users _ (login-Counted username wrong client now s user e) refused)
          ∙ found_again username now s.users user e)
        (λ at. count_failure_locks now at user four) soon
