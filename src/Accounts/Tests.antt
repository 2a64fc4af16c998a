-- ===== src/Accounts/Tests.antt =====
-- Three accounts, and the theorems of the user service at them.
use rpi_home_monitor.Base.{
  String, ◌≡◌, ◌≢◌, refl, false, none, some, List, [], ◌∷◌, Text, codes, keep, eq_iff, text_eq, map,
  remove,
}
use rpi_home_monitor.Sessions
use rpi_home_monitor.Sessions.{Service, Session, delete_for_user, delete_sessions_for_user}
use rpi_home_monitor.Accounts.{
  User, Requester, new_user, find_user, get_user, save_user, delete_user_row, delete_user,
  lockout_from, get_lockout_duration, lower_text, in_blocklist, is_weak, create_user,
  change_password, weak_password,
}
use rpi_home_monitor.Accounts.Admins.{delete_user-get_user, change_password-get_user}

program : Unit {0}
unfolding Sessions.forget remove delete_for_user delete_sessions_for_user keep text_eq find_user
    save_user delete_user_row delete_user lockout_from get_lockout_duration lower_text in_blocklist
    is_weak create_user change_password
program = tt

abbrev ann : User
ann = new_user "u1" "ann" "h1" "admin" 100

abbrev bob : User
bob = new_user "u2" "bob" "h2" "viewer" 200

abbrev users : List User
users = ann ∷ bob ∷ []

abbrev blocklist : List Text
blocklist = codes "correcthorse" ∷ []

abbrev hash : String → String
hash password = "h9"

abbrev session_config : Sessions.Config
session_config = record {
  idle_timeout_minutes = 60;
  cache_ttl_seconds = 10;
  touch_flush_seconds = 10;
}

abbrev bob_row : Session
bob_row = record {
  id = "s2";
  user_id = "u2";
  username = "bob";
  role = "viewer";
  created_at = 300;
  last_active = 300;
  expires_at = 3900;
  source_ip = "";
  user_agent = "";
}

abbrev sessions : Service
sessions = record { sessions = bob_row ∷ []; cache = []; audit = [] }

abbrev ann_id : String
ann_id = "u1"

abbrev bob_id : String
bob_id = "u2"

bob_other : bob_id ≢ ann_id
bob_other e = let same = (eq_iff bob_id ann_id).1 e in cc

ann_other : ann_id ≢ bob_id
ann_other e = let same = (eq_iff ann_id bob_id).1 e in cc

too_common :
    change_password blocklist hash "u2" "CorrectHorse"
      (record { id = "u2"; role = "viewer" })
      false
      users
    ≡ (some weak_password, users)
unfolding program
too_common = refl

durations :
    map get_lockout_duration (4 ∷ 5 ∷ 9 ∷ 10 ∷ 15 ∷ 99 ∷ []) ≡ 0 ∷ 60 ∷ 60 ∷ 300 ∷ 1800 ∷ 1800 ∷ []
unfolding program
durations = refl

delete_user-get_user_example :
    (get_user "u2" (delete_user session_config "u2" "u1" users (some sessions)).1.0 ≡ none)
    × (get_user "u1" (delete_user session_config "u2" "u1" users (some sessions)).1.0
        ≡ get_user "u1" users)
delete_user-get_user_example =
    delete_user-get_user session_config "u2" "u1" "u1" users (some sessions) bob_other ann_other

without_bob :
    delete_user session_config "u2" "u1" users (some sessions)
    ≡ (none, (ann ∷ [], some (record { sessions = []; cache = []; audit = [] })))
unfolding program
without_bob = refl

abbrev by_bob : Requester
by_bob = record { id = "u2"; role = "viewer" }

abbrev viewer : String
viewer = "viewer"

abbrev admin : String
admin = "admin"

viewer_only : viewer ≢ admin
viewer_only e = let same = (eq_iff viewer admin).1 e in cc

change_password-get_user_case :
    get_user "u1" (change_password blocklist hash "u1" "a long password" by_bob false users).1
    ≡ get_user "u1" users
change_password-get_user_case =
    change_password-get_user blocklist hash "u1" "u1" "a long password" by_bob false users
      viewer_only ann_other
