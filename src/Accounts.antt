-- ===== src/Accounts.antt =====
-- User accounts: the rows of users.json (app/server/monitor/store.py), the user service
-- (app/server/monitor/services/user_service.py) and the lockout of an account
-- (app/server/monitor/auth.py). Instants are whole seconds, as the stored ones are. An empty or
-- unreadable `locked_until` is 0. What bcrypt makes of a password is a parameter, and so are
-- random identifiers.
pub mod Admins
mod Tests
use rpi_home_monitor.Base.{
  ℕ, ◌+◌, String, Bool, true, false, ◌&&◌, ◌||◌, not, ◌⊎◌, inl, inr, Option, none, some, List, [],
  ◌∷◌, ◌++◌, length, keep, ltb, leb, ◌==◌, str_eq, Text, codes, text_eq, if◌then◌else◌,
}
use rpi_home_monitor.Sessions
use rpi_home_monitor.Sessions.{Service}

pub record User : Type 0 where
  pub id : String
  pub username : String
  pub password_hash : String
  pub role : String
  pub created_at : ℕ
  pub last_login : ℕ
  pub totp_secret : String
  pub totp_enabled : Bool
  pub recovery_code_hashes : List String
  pub last_totp_step : ℕ
  pub failed_logins : ℕ
  pub locked_until : ℕ
  pub must_change_password : Bool

-- `Store.get_user`, `get_user_by_username`, `save_user` and `delete_user`.
unfoldable pub find_user : (User → Bool) → List User → Option User
find_user p [] = none
find_user p (u ∷ users) = if p u then some u else find_user p users

abbrev pub get_user : String → List User → Option User
get_user k users = find_user (λ u. str_eq u.id k) users

abbrev pub get_user_by_username : String → List User → Option User
get_user_by_username name users = find_user (λ u. str_eq u.username name) users

unfoldable pub save_user : User → List User → List User
save_user user [] = user ∷ []
save_user user (u ∷ users) = if str_eq u.id user.id then user ∷ users else u ∷ save_user user users

abbrev pub other_users : String → List User → List User
other_users k users = keep (λ u. not (str_eq u.id k)) users

unfoldable pub delete_user_row : String → List User → Bool × List User
delete_user_row k users =
    if ltb (length (other_users k users)) (length users)
    then (true, other_users k users)
    else (false, users)

-- `LOCKOUT_THRESHOLDS` and `_get_lockout_duration`.
abbrev pub lockout_thresholds : List (ℕ × ℕ)
lockout_thresholds = (5, 60) ∷ (10, 300) ∷ (15, 1800) ∷ []

unfoldable pub lockout_from : ℕ → ℕ → List (ℕ × ℕ) → ℕ
lockout_from failed_count duration [] = duration
lockout_from failed_count duration ((threshold, secs) ∷ thresholds) =
    lockout_from failed_count (if leb threshold failed_count then secs else duration) thresholds

unfoldable pub get_lockout_duration : ℕ → ℕ
get_lockout_duration failed_count = lockout_from failed_count 0 lockout_thresholds

unfoldable pub is_account_locked : User → ℕ → Bool
is_account_locked user now = ltb now user.locked_until

-- The counting of a failed attempt, as the two handlers of a log-in do it.
unfoldable pub count_failure : ℕ → User → User
count_failure now user =
    let failed = user.failed_logins + 1 in
    let lockout_secs = get_lockout_duration failed in
    record user {
      failed_logins = failed;
      locked_until = if ltb 0 lockout_secs then now + lockout_secs else user.locked_until;
    }

pub data AccountError : Type 0 where
  username_required username_length weak_password unknown_role username_taken : AccountError
  own_account user_not_found not_permitted only_admin : AccountError

abbrev pub error_code : AccountError → ℕ
error_code username_taken = 409
error_code user_not_found = 404
error_code not_permitted = 403
error_code _ = 400

abbrev pub is_admin : User → Bool
is_admin u = str_eq u.role "admin"

abbrev pub is_valid_role : String → Bool
is_valid_role role = str_eq role "admin" || str_eq role "viewer"

-- Who asks for a change of the accounts.
pub record Requester : Type 0 where
  pub id : String
  pub role : String

abbrev pub new_user : String → String → String → String → ℕ → User
new_user k name hash role now = record {
  id = k;
  username = name;
  password_hash = hash;
  role = role;
  created_at = now;
  last_login = 0;
  totp_secret = "";
  totp_enabled = false;
  recovery_code_hashes = [];
  last_totp_step = 0;
  failed_logins = 0;
  locked_until = 0;
  must_change_password = false;
}

abbrev pub without_sessions : Sessions.Config → String → Option Service → Option Service
without_sessions cfg k none = none
without_sessions cfg k (some s) = some (Sessions.delete_sessions_for_user cfg k s).1

-- `delete_user`: the answer, the rows, and the session service, which may be missing.
unfoldable pub delete_user :
    Sessions.Config
    → String
    → String
    → List User
    → Option Service
    → Option AccountError × (List User × Option Service)
delete_user cfg k requesting_user_id users sessions =
    if str_eq k requesting_user_id
    then (some own_account, (users, sessions))
    else (let (deleted, rest) = delete_user_row k users in
        if deleted
        then (none, (rest, without_sessions cfg k sessions))
        else (some user_not_found, (users, sessions)))

unfoldable pub lower_text : Text → Text
lower_text [] = []
lower_text (c ∷ s) = (if leb 65 c && leb c 90 then c + 32 else c) ∷ lower_text s

unfoldable pub in_blocklist : Text → List Text → Bool
in_blocklist s [] = false
in_blocklist s (t ∷ blocklist) = text_eq s t || in_blocklist s blocklist

-- Whether `validate_password` of app/server/monitor/password_policy.py has an objection.
unfoldable pub is_weak : List Text → String → Bool
is_weak blocklist password =
    let len = length (codes password) in
    (ltb len 12 || ltb 128 len) || in_blocklist (lower_text (codes password)) blocklist

module _ (blocklist : List Text) (hash_password : String → String) where
  abbrev pub unless_taken :
      String → User → List User → Option User → (AccountError ⊎ User) × List User
  unless_taken name user users (some taken) = (inl username_taken, users)
  unless_taken name user users none = (inr user, save_user user users)

  -- `create_user`, with the name behind `strip()`.
  unfoldable pub create_user :
      String → String → String → String → ℕ → List User → (AccountError ⊎ User) × List User
  create_user k username password role now users =
      let len = length (codes username) in
      if str_eq username ""
      then (inl username_required, users)
      else if ltb len 3 || ltb 32 len
      then (inl username_length, users)
      else if is_weak blocklist password
      then (inl weak_password, users)
      else if not (is_valid_role role)
      then (inl unknown_role, users)
      else unless_taken username (new_user k username (hash_password password) role now) users
          (get_user_by_username username users)

  abbrev pub changed : String → Bool → List User → User → Option AccountError × List User
  changed password is_admin_reset users user =
      if (is_admin_reset && is_admin user) && leb (length (keep is_admin users)) 1
      then (some only_admin, users)
      else (
        none,
        save_user
            (record user {
              password_hash = hash_password password;
              must_change_password = is_admin_reset;
            })
            users,
      )

  abbrev pub change_found :
      String → Bool → List User → Option User → Option AccountError × List User
  change_found password is_admin_reset users none = (some user_not_found, users)
  change_found password is_admin_reset users (some user) =
      changed password is_admin_reset users user

  unfoldable pub change_password :
      String → String → Requester → Bool → List User → Option AccountError × List User
  change_password k password by force_change users =
      let admin = str_eq by.role "admin" in
      let own = str_eq by.id k in
      if not admin && not own
      then (some not_permitted, users)
      else if is_weak blocklist password
      then (some weak_password, users)
      else change_found password ((admin && not own) && force_change) users (get_user k users)
