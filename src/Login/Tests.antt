-- ===== src/Login/Tests.antt =====
-- Log-ins of two users, and the theorems of the log-in at them.
use rpi_home_monitor.Base.{
  ℕ, ◌+◌, String, ◌≡◌, ◌≢◌, refl, Bool, true, false, ◌&&◌, Option, none, some, List, [], ◌∷◌, not,
  All, Text, codes, keep, keep_values, get, put, remove, eq_iff, text_eq, skip_spaces, strip,
  str_eq, leb, if◌then◌else◌, arith,
}
use rpi_home_monitor.Accounts.{
  User, new_user, find_user, save_user, lockout_from, get_lockout_duration, is_account_locked,
  count_failure,
}
use rpi_home_monitor.LoginLimiter.{
  unreadable, read_state, write_state, key, attempts_of, last_items, pruned_attempts, verdict,
  check, record_attempt,
}
use rpi_home_monitor.Sessions.{
  Service, Session, get_session, save_session, delete_session, is_expired, get_cached_or_load,
  drop_session, log_event, expire_session, get_valid, refresh, touch, issue, revoke, discard,
  expire, run,
}
use rpi_home_monitor.Sessions.Lifetime.{IsFiled}
use rpi_home_monitor.TotpService.{
  clean_code, all_digits, first_match, verify_code, consume_recovery_code,
}
use rpi_home_monitor.Login.{
  Setup, Server, Client, Cookie, logged_in, begin_user_session, record_failure, check_rate_limit,
  is_remote, password_ok, login, second_factor, totp_login,
}
use rpi_home_monitor.Login.Challenge.{
  print_from, print, has_separator, scan, parse_int, split_dots, body, pos, dotted,
  challenge_ttl_seconds, issue_challenge_token, verify_challenge_token,
}
use rpi_home_monitor.Login.Challenge.Texts.{has_dot}
use rpi_home_monitor.Login.Challenge.Issued.{verify-issue_challenge_token}
use rpi_home_monitor.Login.Guards.{
  unauthorized, timed_out, expire_named, is_session_valid, guard, logout,
}
use rpi_home_monitor.Login.Guards.Passing.{logout-guard}
use rpi_home_monitor.Login.Lockout.{Attempt, IsRefused, login_all, login-login}
use rpi_home_monitor.Login.Entry.{login-logged_in, totp_login_locked}

program : Unit {0}
unfolding keep keep_values get put remove text_eq skip_spaces strip find_user save_user lockout_from
    get_lockout_duration is_account_locked count_failure read_state write_state key attempts_of
    last_items pruned_attempts verdict check record_attempt get_session save_session delete_session
    is_expired get_cached_or_load drop_session log_event expire_session get_valid refresh touch
    issue revoke discard expire run clean_code all_digits first_match verify_code
    consume_recovery_code begin_user_session record_failure check_rate_limit is_remote
    issue_challenge_token verify_challenge_token password_ok login second_factor totp_login
    print_from print has_separator scan parse_int split_dots body has_dot login_all timed_out
    expire_named is_session_valid guard logout
program = tt

abbrev setup : Setup
setup = record {
  limiter = record { window_seconds = 60; warn_after = 5; block_after = 10 };
  session_config = record {
    idle_timeout_minutes = 60;
    cache_ttl_seconds = 10;
    touch_flush_seconds = 10;
  };
  has_totp = true;
  require_2fa_for_remote = false;
  session_timeout_minutes = 60;
}

abbrev parse_ip : String → Option (ℕ × ℕ)
parse_ip ip = some (4, 3232235777)

abbrev sign : String → String
sign text = if str_eq text "" then "00" else "ab12"

abbrev check_password : String → String → Bool
check_password password hash = str_eq password "secret" && str_eq hash "h1"

abbrev totp_at : String → ℕ → Text
totp_at secret instant = codes "123456"

abbrev checkpw : Text → String → Bool
checkpw code hash = false

-- Four wrong passwords so far.
abbrev ann : User
ann = record (new_user "u1" "ann" "h1" "admin" 100) { failed_logins = 4 }

-- A second factor, and a lock until 5000.
abbrev bob : User
bob = record (new_user "u2" "bob" "h1" "viewer" 200) {
  totp_secret = "S";
  totp_enabled = true;
  failed_logins = 5;
  locked_until = 5000;
}

abbrev server : Server
server = record {
  users = ann ∷ bob ∷ [];
  attempts = unreadable;
  sessions = record { sessions = []; cache = []; audit = [] };
}

abbrev client : Client
client = record { ip = "192.168.1.1"; user_agent = "Firefox"; sid = ""; ids = "s1" ∷ [] }

abbrev attempts : List Attempt
attempts =
    record { password = "secret"; client = client; at = 1001 }
    ∷ record { password = "wrong"; client = client; at = 1030 }
    ∷ record { password = "secret"; client = client; at = 1059 }
    ∷ []

login-login_example : All IsRefused (
    login_all setup parse_ip sign check_password "ann" attempts
      (login setup parse_ip sign check_password "ann" "wrong" client 1000 server).1)
login-login_example =
    login-login setup parse_ip sign check_password "ann" "wrong" client 1000 attempts server ann
      (unfold program in refl) (omega arith) (unfold program in refl)
      (omega arith, (omega arith, (omega arith, tt)))

token_text : issue_challenge_token sign "u2" false 1000 ≡ "1000.u2.0.ab12"
unfolding program
token_text = refl

-- An identifier with a dot in it is never verified.
dotted_user : verify_challenge_token sign (issue_challenge_token sign "u.2" false 1000) 1000 ≡ none
unfolding program
dotted_user = refl

-- `int` reads more than what was printed.
loose_number : parse_int (codes " +1_000") ≡ some (pos 1000)
unfolding program
loose_number = refl

abbrev signature : String
signature = "ab12"

abbrev other_signature : String
other_signature = "ab13"

signatures_differ : other_signature ≢ signature
signatures_differ e = let same = (eq_iff other_signature signature).1 e in cc

verify-issue_challenge_token_example :
    (verify_challenge_token sign (issue_challenge_token sign "u2" false 1000) 1300 ≡ (
      if not (has_dot "u2") && (leb 1300 (1000 + challenge_ttl_seconds) && leb 1000 (1300 + 5))
      then some ("u2", false)
      else none))
    × (verify_challenge_token sign (dotted (body 1000 "u2" false) "ab13") 1300 ≡ none)
verify-issue_challenge_token_example =
    verify-issue_challenge_token sign "u2" false 1000 1300 "ab13" (unfold program in refl)
      (unfold program in signatures_differ)

abbrev cookie : Cookie
cookie = record {
  sid = "s1";
  user_id = "u1";
  username = "ann";
  role = "admin";
  created_at = 1000;
  last_active = 1000;
  must_change_password = false;
}

login-logged_in_example :
    (check_password "secret" ann.password_hash ≡ true)
    × (is_account_locked ann 1000 ≡ false)
    × ((ann.totp_enabled && setup.has_totp) ≡ false)
    × (cookie.user_id ≡ ann.id)
    × (cookie.role ≡ ann.role)
login-logged_in_example =
    login-logged_in setup parse_ip sign check_password "ann" "secret" client 1000 server ann cookie
      (unfold program in refl) (unfold program in refl)

abbrev token : String
token = "4700.u2.0.ab12"

totp_login_locked_example :
    (c : Cookie) × ((totp_login setup parse_ip sign check_password totp_at checkpw token false
        (codes "123456")
        client
        4800
        server).0
      ≡ logged_in c)
totp_login_locked_example =
    totp_login_locked setup parse_ip sign check_password totp_at checkpw token false
      (codes "123456") client 4800 server bob (record bob { last_totp_step = 159 }) false "s1" []
      (unfold program in refl) (unfold program in refl) (unfold program in refl) refl
      (unfold program in refl) (unfold program in refl) (unfold program in refl) refl
      (unfold program in refl)

abbrev inside : Service
inside = (login setup parse_ip sign check_password "ann" "secret" client 1000 server).1.sessions

inside-IsFiled : IsFiled inside
unfolding program
inside-IsFiled = record { rows = (tt, tt); cached = ((refl, tt), tt) }

abbrev ann_row : Session
ann_row = record {
  id = "s1";
  user_id = "u1";
  username = "ann";
  role = "admin";
  created_at = 1000;
  last_active = 1000;
  expires_at = 87400;
  source_ip = "192.168.1.1";
  user_agent = "Firefox";
}

abbrev empty_id : String
empty_id = ""

abbrev ann_sid : String
ann_sid = "s1"

named : ann_sid ≢ empty_id
named e = let same = (eq_iff ann_sid empty_id).1 e in cc

logout-guard_example :
    (guard setup false "cameras.list"
      (some cookie)
      1200
      (run setup.session_config [] (logout setup cookie 1100 inside).1)).0
    ≡ unauthorized
logout-guard_example =
    logout-guard setup cookie 1100 1200 inside ann_row [] false "cameras.list" inside-IsFiled
      (unfold program in refl) named tt
