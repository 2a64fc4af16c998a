-- ===== src/Sessions/Calls.antt =====
-- Every call of `session_service.py`, and every run of calls, keeps a property of sessions that
-- does not turn on `last_active`, if the rows that are issued have it.
use rpi_home_monitor.Base.{
  ℕ, ◌+◌, String, ◌≡◌, refl, Bool, true, false, Option, none, some, List, [], ◌∷◌, Dict, inl, inr,
  Bool-cases, str_eq, if◌then◌else◌, All, All-keep, leb,
}
use rpi_home_monitor.Sessions.{
  Session, CacheEntry, Config, Service, Call, issue_call, get_call, touch_call, revoke_call,
  discard_call, expire_call, revoke_others_call, delete_user_call, get_session, save_session,
  delete_for_user, is_expired, fresh, entry_of, refresh, touch_stored, touch_cached, touch,
  new_session, issue_id, issue, deleted_row, revoked, revoke, discard, expired_row, expire, forget,
  revoke_others, delete_sessions_for_user, step, run,
}
use rpi_home_monitor.Sessions.Rows.{
  Found, get_session-Found, save_session-All, Entries, FoundEntry, get-Entries, put-Entries,
  remove-Entries,
}
use rpi_home_monitor.Sessions.Keeps.{Good, Holds, Issues, drop-Holds, log-Holds, get_valid-Holds}

module _ (cfg : Config) (P : Session → Type 0)
    (stable : (r : Session) (n : ℕ) → P r → P (record r { last_active = n })) where
  refresh-Holds :
      (shared : Bool) (k : String) (r : Session) (entry : CacheEntry) (now : ℕ) (s : Service)
      → (r.id ≡ k) × P r
      → Good P k entry
      → Holds P s
      → Holds P (refresh cfg shared k r entry now s).1
  unfolding refresh
  refresh-Holds shared k r entry now s f g h = elim (Bool-cases (is_expired cfg r now)) [
    | inl old ↦ rw old (log-Holds cfg P _ _ (drop-Holds cfg P k s h))
    | inr good ↦ rw good (record {
      rows = saved (leb (entry.last_persisted_active + cfg.touch_flush_seconds) now);
      cached = put-Entries (Good P) k _ s.cache (entry_good shared) h.cached;
    })
  ]
    where
      r' : Session
      r' = record r { last_active = now }

      saved : (b : Bool) → All P (if b then save_session r' s.sessions else s.sessions)
      saved true = save_session-All P r' s.sessions (stable r now f.1) h.rows
      saved false = h.rows

      entry_good :
          (b : Bool)
          → ((if b then r' else entry.session).id ≡ k) × P (if b then r' else entry.session)
      entry_good true = (f.0, stable r now f.1)
      entry_good false = g

  touch_stored-Holds :
      (k : String) (now : ℕ) (s : Service) (o : Option Session)
      → Found P k o
      → Holds P s
      → Holds P (touch_stored cfg k now s o).1
  touch_stored-Holds k now s none f h = record {
    rows = h.rows;
    cached = remove-Entries (Good P) k s.cache h.cached;
  }
  touch_stored-Holds k now s (some r) f h =
      refresh-Holds false k r (entry_of cfg r now) now _ f f (record {
        rows = h.rows;
        cached = put-Entries (Good P) k (entry_of cfg r now) s.cache f h.cached;
      })

  touch_cached-Holds :
      (k : String) (now : ℕ) (s : Service) (o : Option CacheEntry)
      → FoundEntry (Good P) k o
      → Holds P s
      → Holds P (touch_cached cfg k now s o).1
  touch_cached-Holds k now s none f h =
      touch_stored-Holds k now s _ (get_session-Found P k s.sessions h.rows) h
  touch_cached-Holds k now s (some entry) f h = elim (Bool-cases (fresh cfg entry now)) [
    | inl recent ↦ rw recent (refresh-Holds true k entry.session entry now s f f h)
    | inr stale ↦
        rw stale (touch_stored-Holds k now s _ (get_session-Found P k s.sessions h.rows) h)
  ]

  touch-Holds : (k : String) (now : ℕ) (s : Service) → Holds P s → Holds P (touch cfg k now s).1
  unfolding touch
  touch-Holds k now s h = elim (Bool-cases (str_eq k "")) [
    | inl empty ↦ rw empty h
    | inr named ↦
        rw named (touch_cached-Holds k now s _ (get-Entries (Good P) k s.cache h.cached) h)
  ]

  issue_id-Holds :
      (k : String) (blank : Session) (now : ℕ) (s : Service) (retry : Option Session × Service)
      (o : Option Session)
      → P (new_session cfg k blank now)
      → Holds P s
      → Holds P retry.1
      → Holds P (issue_id cfg k blank now s retry o).1
  issue_id-Holds k blank now s retry (some taken) p h h' = h'
  issue_id-Holds k blank now s retry none p h h' = record {
    rows = save_session-All P _ s.sessions p h.rows;
    cached = put-Entries (Good P) k _ s.cache (refl, p) h.cached;
  }

  issue-Holds :
      (ids : List String) (blank : Session) (now : ℕ) (s : Service)
      → All (λ k. P (new_session cfg k blank now)) ids
      → Holds P s
      → Holds P (issue cfg ids blank now s).1
  unfolding issue
  issue-Holds [] blank now s p h = h
  issue-Holds (k ∷ ids) blank now s p h =
      issue_id-Holds k blank now s _ (get_session k s.sessions) p.0 h
        (issue-Holds ids blank now s p.1 h)

  deleted_row-Holds :
      (user role : String) (r : Session) (o : Option Session) (s : Service)
      → Holds P s
      → Holds P (deleted_row cfg user role r o s).1
  deleted_row-Holds user role r none s h = h
  deleted_row-Holds user role r (some row) s h = log-Holds cfg P _ s h

  revoked-Holds :
      (k user role : String) (o : Option Session) (s : Service)
      → Holds P s
      → Holds P (revoked cfg k user role o s).1
  revoked-Holds k user role none s h = h
  revoked-Holds k user role (some r) s h =
      deleted_row-Holds user role r (get_session k s.sessions) _ (drop-Holds cfg P k s h)

  expired_row-Holds :
      (k : String) (o : Option Session) (s : Service) → Holds P s → Holds P (expired_row cfg k o s)
  expired_row-Holds k none s h = h
  expired_row-Holds k (some r) s h = log-Holds cfg P _ _ (drop-Holds cfg P k s h)

  forget-Entries :
      (rows : List Session) (cache : Dict CacheEntry)
      → Entries (Good P) cache
      → Entries (Good P) (forget cfg rows cache)
  unfolding forget
  forget-Entries [] cache h = h
  forget-Entries (row ∷ rows) cache h =
      forget-Entries rows _ (remove-Entries (Good P) row.id cache h)

  step-Holds :
      (call : Call) (now : ℕ) (s : Service)
      → Issues cfg P call now
      → Holds P s
      → Holds P (step cfg call now s)
  unfolding step revoke discard expire revoke_others delete_sessions_for_user delete_for_user
  step-Holds (issue_call ids blank) now s i h = issue-Holds ids blank now s i h
  step-Holds (get_call b k) now s i h = (get_valid-Holds cfg P b k now s h).1
  step-Holds (touch_call k) now s i h = touch-Holds k now s h
  step-Holds (revoke_call k user role) now s i h =
      revoked-Holds k user role _ _ (get_valid-Holds cfg P true k now s h).1
  step-Holds (discard_call k) now s i h = elim (Bool-cases (str_eq k "")) [
    | inl empty ↦ rw empty h
    | inr named ↦ rw named (drop-Holds cfg P k s h)
  ]
  step-Holds (expire_call k) now s i h =
      expired_row-Holds k _ _ (get_valid-Holds cfg P false k now s h).1
  step-Holds (revoke_others_call user_id except actor) now s i h =
      log-Holds cfg P _ _ (record {
        rows = All-keep P _ s.sessions h.rows;
        cached = forget-Entries _ s.cache h.cached;
      })
  step-Holds (delete_user_call user_id) now s i h = record {
    rows = All-keep P _ s.sessions h.rows;
    cached = forget-Entries _ s.cache h.cached;
  }

  pub run-Holds :
      (calls : List (Call × ℕ)) (s : Service)
      → All (λ c. Issues cfg P c.0 c.1) calls
      → Holds P s
      → Holds P (run cfg calls s)
  unfolding run
  run-Holds [] s i h = h
  run-Holds ((call, now) ∷ calls) s i h =
      run-Holds calls (step cfg call now s) i.1 (step-Holds call now s i.0 h)
