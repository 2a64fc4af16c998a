-- ===== src/Login.antt =====
-- Logging in and out and the guards of the endpoints (app/server/monitor/auth.py), with the second
-- factor (app/server/monitor/api/auth_totp.py) and its challenge tokens
-- (app/server/monitor/services/totp_service.py), over the accounts, the login limiter and the session
-- service. A handler runs without interruption and reads the clock once, in whole seconds. What
-- bcrypt, pyotp, hmac and ipaddress answer are parameters; random identifiers come with a request.
pub mod Challenge
pub mod Guards
pub mod Lockout
pub mod Entry
mod Tests
use Prim.Native.Nat.{max}
use rpi_home_monitor.Base.{
  ℕ, ◌+◌, ◌*◌, ◌/◌, String, Bool, true, false, ◌&&◌, ◌||◌, not, Option, none, some, List, [], ◌∷◌,
  Text, is_empty, strip, ltb, leb, ◌==◌, str_eq, if◌then◌else◌,
}
use rpi_home_monitor.Accounts.{
  User, get_user, get_user_by_username, save_user, is_account_locked, count_failure,
}
use rpi_home_monitor.Login.Challenge.{issue_challenge_token, verify_challenge_token}
use rpi_home_monitor.LoginLimiter
use rpi_home_monitor.LoginLimiter.{Limiter, Stored}
use rpi_home_monitor.Sessions
use rpi_home_monitor.Sessions.{Session, Service}
use rpi_home_monitor.TotpService.{verify_code, consume_recovery_code}

pub record Server : Type 0 where
  pub users : List User
  pub attempts : Stored
  pub sessions : Service

pub record Setup : Type 0 where
  pub limiter : Limiter
  pub session_config : Sessions.Config
  pub has_totp : Bool
  pub require_2fa_for_remote : Bool
  pub session_timeout_minutes : ℕ

-- Where a request comes from, and the identifiers that `issue` would draw for it.
pub record Client : Type 0 where
  pub ip : String
  pub user_agent : String
  pub sid : String
  pub ids : List String

-- The signed cookie of a session.
pub record Cookie : Type 0 where
  pub sid : String
  pub user_id : String
  pub username : String
  pub role : String
  pub created_at : ℕ
  pub last_active : ℕ
  pub must_change_password : Bool

pub data Answer : Type 0 where
  too_many credentials_missing account_locked invalid_credentials enrollment_required failed :
      Answer
  token_required sign_in_expired user_not_found code_required not_enabled code_rejected : Answer
  challenged : String → Answer
  logged_in : Cookie → Answer

abbrev pub blank_session : User → Client → Session
blank_session user client = record {
  id = "";
  user_id = user.id;
  username = user.username;
  role = user.role;
  created_at = 0;
  last_active = 0;
  expires_at = 0;
  source_ip = client.ip;
  user_agent = client.user_agent;
}

abbrev pub cookie_of : User → Session → Cookie
cookie_of user r = record {
  sid = r.id;
  user_id = user.id;
  username = user.username;
  role = user.role;
  created_at = r.created_at;
  last_active = r.last_active;
  must_change_password = user.must_change_password;
}

module _ (setup : Setup) where
  abbrev pub issued : User → Server → Option Session × Service → Answer × Server
  issued user s (none, sessions) = (failed, record s { sessions = sessions })
  issued user s (some r, sessions) =
      (logged_in (cookie_of user r), record s { sessions = sessions })

  -- `_begin_user_session`
  unfoldable pub begin_user_session : User → Client → ℕ → Server → Answer × Server
  begin_user_session user client now s = issued user s (
      Sessions.issue setup.session_config client.ids (blank_session user client) now
        (Sessions.discard setup.session_config client.sid s.sessions))

  unfoldable pub record_failure : Client → ℕ → Server → Server
  record_failure client now s = record s {
    attempts = LoginLimiter.record_attempt setup.limiter s.attempts client.ip now now;
  }

  -- `_check_rate_limit`: the server after it, and whether the attempt is allowed.
  unfoldable pub check_rate_limit : Client → ℕ → Server → Server × Bool
  check_rate_limit client now s =
      let (file, (allowed, warn)) = LoginLimiter.check setup.limiter s.attempts client.ip now in
      (record s { attempts = file }, allowed)

  module _ (parse_ip : String → Option (ℕ × ℕ)) (sign : String → String)
      (check_password : String → String → Bool) where
    -- `classify` of app/server/monitor/services/request_origin.py, as whether it is not "lan": the
    -- version and the number of an address, and the network 100.64.0.0/10.
    abbrev pub is_cgnat : Option (ℕ × ℕ) → Bool
    is_cgnat none = true
    is_cgnat (some (version, address)) =
        version == 4 && address / 4194304 == (100 * 16777216 + 64 * 65536) / 4194304

    unfoldable pub is_remote : String → Bool
    is_remote ip = if str_eq ip "" then true else is_cgnat (parse_ip ip)

    -- `login` once the password is right.
    unfoldable pub password_ok : User → Client → ℕ → Server → Answer × Server
    password_ok user client now s =
        let user' = record user { failed_logins = 0; locked_until = 0; last_login = now } in
        let s' = record s { users = save_user user' s.users } in
        let remote = (setup.require_2fa_for_remote && setup.has_totp) && is_remote client.ip in
        if remote && not user.totp_enabled
        then (enrollment_required, s')
        else if (user.totp_enabled || remote) && setup.has_totp
        then (challenged (issue_challenge_token sign user.id remote now), s')
        else begin_user_session user' client now s'

    abbrev pub known_user : String → Client → ℕ → Server → Option User → Answer × Server
    known_user password client now s none = (invalid_credentials, record_failure client now s)
    known_user password client now s (some user) =
        if is_account_locked user now
        then (account_locked, record_failure client now s)
        else if not (check_password password user.password_hash)
        then (let s' = record_failure client now s in
            (
              invalid_credentials,
              record s' { users = save_user (count_failure now user) s'.users },
            ))
        else password_ok user client now s

    -- `login`, where an empty text stands for a missing one too.
    unfoldable pub login : String → String → Client → ℕ → Server → Answer × Server
    login username password client now s =
        let (s', allowed) = check_rate_limit client now s in
        if not allowed
        then (too_many, s')
        else if str_eq username "" || str_eq password ""
        then (credentials_missing, record_failure client now s')
        else known_user password client now s' (get_user_by_username username s'.users)

    module _ (totp_at : String → ℕ → Text) (checkpw : Text → String → Bool) where
      abbrev pub used_recovery : User → Bool × List String → Option User
      used_recovery user (false, remaining) = none
      used_recovery user (true, remaining) = some (record user { recovery_code_hashes = remaining })

      abbrev pub used_step : User → Bool × ℕ → Option User
      used_step user (false, step) = none
      used_step user (true, step) = some (record user { last_totp_step = step })

      -- The second factor: the user with the code used up, if it is accepted.
      unfoldable pub second_factor : Bool → Text → ℕ → User → Option User
      second_factor use_recovery code now user =
          if use_recovery
          then used_recovery user (consume_recovery_code checkpw code user.recovery_code_hashes)
          else used_step user (
              verify_code (totp_at user.totp_secret) (not (str_eq user.totp_secret "")) code
                user.last_totp_step now)

      abbrev pub code_checked : User → Client → ℕ → Server → Option User → Answer × Server
      code_checked user client now s none =
          let s' = record_failure client now s in
          (code_rejected, record s' { users = save_user (count_failure now user) s'.users })
      code_checked user client now s (some used) =
          let user' = record used { failed_logins = 0; locked_until = 0 } in
          begin_user_session user' client now (record s { users = save_user user' s.users })

      abbrev pub totp_user :
          Bool → Bool → Text → Client → ℕ → Server → Option User → Answer × Server
      totp_user require_remote use_recovery code client now s none = (user_not_found, s)
      totp_user require_remote use_recovery code client now s (some user) =
          let (s', allowed) = check_rate_limit client now s in
          if not allowed
          then (too_many, s')
          else if is_empty (strip code)
          then (code_required, record_failure client now s')
          else if not user.totp_enabled && not require_remote
          then (not_enabled, record_failure client now s')
          else if require_remote && not user.totp_enabled
          then (enrollment_required, s')
          else code_checked user client now s' (second_factor use_recovery (strip code) now user)

      abbrev pub totp_token :
          Bool → Text → Client → ℕ → Server → Option (String × Bool) → Answer × Server
      totp_token use_recovery code client now s none = (sign_in_expired, s)
      totp_token use_recovery code client now s (some (user_id, require_remote)) =
          totp_user require_remote use_recovery code client now s (get_user user_id s.users)

      -- `verify`, where an empty token stands for a missing one too.
      unfoldable pub totp_login : String → Bool → Text → Client → ℕ → Server → Answer × Server
      totp_login token use_recovery code client now s =
          if str_eq token ""
          then (token_required, s)
          else totp_token use_recovery code client now s (verify_challenge_token sign token now)
