-- ===== src/Sessions/Tests.antt =====
-- Calls of the session service, and its theorems at concrete instants.
use rpi_home_monitor.Base.{
  ℕ, String, ◌≡◌, refl, true, none, some, List, [], ◌∷◌, get, put, remove, keep, arith, ◌≢◌, eq_iff,
}
use rpi_home_monitor.Sessions.{
  Session, Config, Service, Call, get_call, touch_call, issue_call, get_session, save_session,
  delete_session, delete_for_user, is_expired, get_cached_or_load, drop_session, log_event,
  expire_session, get_valid, refresh, touch, issue, revoke, discard, expire, forget, revoke_others,
  delete_sessions_for_user, step, run,
}
use rpi_home_monitor.Sessions.Keeps.{Holds}
use rpi_home_monitor.Sessions.Lifetime.{IsFiled, CreatedAt, revoke-get, get-day}

program : Unit {0}
unfolding get put remove keep get_session save_session delete_session delete_for_user is_expired
    get_cached_or_load drop_session log_event expire_session get_valid refresh touch issue revoke
    discard expire forget revoke_others delete_sessions_for_user step run
program = tt

-- A session is idle after one hour, and the cache holds a record for a minute.
abbrev cfg : Config
cfg = record { idle_timeout_minutes = 60; cache_ttl_seconds = 60; touch_flush_seconds = 30 }

abbrev ann : Session
ann = record {
  id = "a1";
  user_id = "u1";
  username = "ann";
  role = "viewer";
  created_at = 1000;
  last_active = 1000;
  expires_at = 87400;
  source_ip = "10.0.0.9";
  user_agent = "Firefox";
}

abbrev stored : Service
stored = record { sessions = ann ∷ []; cache = []; audit = [] }

stored-IsFiled : IsFiled stored
stored-IsFiled = record { rows = (tt, tt); cached = tt }

stored-CreatedAt : Holds (CreatedAt "a1" 1000) stored
stored-CreatedAt = record { rows = (λ e. refl, tt); cached = tt }

abbrev calls : List (Call × ℕ)
calls =
    (touch_call "a1", 1200)
    ∷ (issue_call ("a1" ∷ "b2" ∷ []) ann, 1210)
    ∷ (get_call true "a1", 1250)
    ∷ []

still_there :
    (get_valid cfg true "a1" 1300 (run cfg calls stored)).0
    ≡ some (record ann { last_active = 1200 })
unfolding program
still_there = refl

abbrev other_id : String
other_id = "b2"

abbrev old_id : String
old_id = "a1"

b2_other : other_id ≢ old_id
b2_other e = let same = (eq_iff other_id old_id).1 e in cc

abbrev later_calls : List (Call × ℕ)
later_calls =
    (touch_call "a1", 1200) ∷ (issue_call ("b2" ∷ []) ann, 1210) ∷ (get_call true "a1", 1250) ∷ []

revoke-get_example :
    (get_valid cfg true "a1" 1300
      (run cfg later_calls (revoke cfg "a1" "ann" "viewer" 1100 stored).1)).0
    ≡ none
revoke-get_example =
    revoke-get cfg "a1" "ann" "viewer" 1100 stored ann later_calls true 1300 stored-IsFiled
      (unfold program in refl) (tt, ((b2_other, tt), (tt, tt)))

get-day_example : (get_valid cfg true "a1" 87401 (run cfg later_calls stored)).0 ≡ none
get-day_example =
    get-day cfg "a1" 1000 87401 stored later_calls (omega arith) (omega arith) stored-CreatedAt
      (tt, ((λ e. absurd (b2_other e), tt), (tt, tt)))
