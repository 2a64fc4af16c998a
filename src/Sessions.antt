-- ===== src/Sessions.antt =====
-- The inventory of browser sessions (app/server/monitor/services/session_service.py) over the
-- session rows of the JSON store (app/server/monitor/store.py). The rows of sessions.json are a
-- list, the cache is a dictionary, and the audit events are kept in a list. Instants are natural
-- numbers of seconds, where 0 is the value that Python takes for false. Each method runs without
-- interruption. Random identifiers are arguments.
pub mod Rows
pub mod Keeps
pub mod Calls
pub mod Lifetime
pub mod Refresh
mod Tests
use Prim.Native.Nat.{max}
use rpi_home_monitor.Base.{
  ℕ, ◌+◌, ◌*◌, String, Bool, true, false, ◌&&◌, ◌||◌, not, Option, none, some, List, [], ◌∷◌, ◌++◌,
  Dict, get, put, remove, keep, length, ltb, leb, ◌==◌, str_eq, if◌then◌else◌,
}

pub record Session : Type 0 where
  pub id : String
  pub user_id : String
  pub username : String
  pub role : String
  pub created_at : ℕ
  pub last_active : ℕ
  pub expires_at : ℕ
  pub source_ip : String
  pub user_agent : String

pub record CacheEntry : Type 0 where
  pub session : Session
  pub loaded_at : ℕ
  pub last_persisted_active : ℕ
  pub dirty : Bool

pub data AuditEvent : Type 0 where
  session_expired : String → String → AuditEvent
  session_revoked admin_session_revoked : String → String → AuditEvent
  session_others_revoked : String → String → ℕ → AuditEvent

pub record Config : Type 0 where
  pub idle_timeout_minutes : ℕ
  pub cache_ttl_seconds : ℕ
  pub touch_flush_seconds : ℕ

pub record Service : Type 0 where
  pub sessions : List Session
  pub cache : Dict CacheEntry
  pub audit : List AuditEvent

abbrev pub absolute_session_seconds : ℕ
absolute_session_seconds = 24 * 60 * 60

-- `Store.get_session`, `save_session` and `delete_session` on the rows.
unfoldable pub get_session : String → List Session → Option Session
get_session k [] = none
get_session k (row ∷ rows) = if str_eq row.id k then some row else get_session k rows

unfoldable pub save_session : Session → List Session → List Session
save_session session [] = session ∷ []
save_session session (row ∷ rows) =
    if str_eq row.id session.id then session ∷ rows else row ∷ save_session session rows

unfoldable pub delete_session : String → List Session → List Session
delete_session k rows = keep (λ row. not (str_eq row.id k)) rows

abbrev pub is_target : String → String → Session → Bool
is_target user_id except row = str_eq row.user_id user_id && not (str_eq row.id except)

-- `Store.delete_sessions_for_user`: the rows that stay, and those that were deleted.
unfoldable pub delete_for_user : String → String → List Session → List Session × List Session
delete_for_user user_id except rows = (
  keep (λ row. not (is_target user_id except row)) rows,
  keep (λ row. is_target user_id except row) rows,
)

abbrev pub truthy : ℕ → Bool
truthy n = not (n == 0)

module _ (cfg : Config) where
  unfoldable pub is_expired : Session → ℕ → Bool
  is_expired r now =
      let idle_timeout_seconds =
        max 1 (if cfg.idle_timeout_minutes == 0 then 60 else cfg.idle_timeout_minutes) * 60 in
      (truthy r.last_active && ltb (r.last_active + idle_timeout_seconds) now)
      || (truthy r.expires_at && ltb r.expires_at now)
      || (truthy r.created_at && ltb (r.created_at + absolute_session_seconds) now)

  abbrev pub fresh : CacheEntry → ℕ → Bool
  fresh entry now = leb now (entry.loaded_at + cfg.cache_ttl_seconds)

  abbrev pub entry_of : Session → ℕ → CacheEntry
  entry_of r now = record {
    session = r;
    loaded_at = now;
    last_persisted_active = r.last_active;
    dirty = false;
  }

  -- `_get_cached_or_load`: the row that the store returned, and before it the cache entry.
  abbrev pub loaded : String → ℕ → Service → Option Session → Option Session × Service
  loaded k now s none = (none, record s { cache = remove k s.cache })
  loaded k now s (some r) = (some r, record s { cache = put k (entry_of r now) s.cache })

  abbrev pub cached_or_load : String → ℕ → Service → Option CacheEntry → Option Session × Service
  cached_or_load k now s none = loaded k now s (get_session k s.sessions)
  cached_or_load k now s (some entry) =
      if fresh entry now then (some entry.session, s) else loaded k now s (get_session k s.sessions)

  unfoldable pub get_cached_or_load : String → ℕ → Service → Option Session × Service
  get_cached_or_load k now s = cached_or_load k now s (get k s.cache)

  -- The row and the cache entry of a session go; `_expire` also logs it.
  unfoldable pub drop_session : String → Service → Service
  drop_session k s = record s { sessions = delete_session k s.sessions; cache = remove k s.cache }

  unfoldable pub log_event : AuditEvent → Service → Service
  log_event e s = record s { audit = s.audit ++ e ∷ [] }

  unfoldable pub expire_session : Session → Service → Service
  expire_session r s = log_event (session_expired r.username r.id) (drop_session r.id s)

  -- The validation of `get` behind the load.
  abbrev pub validated : Bool → ℕ → Option Session → Service → Option Session × Service
  validated validate_timeout now none s = (none, s)
  validated validate_timeout now (some r) s =
      if validate_timeout && is_expired r now then (none, expire_session r s) else (some r, s)

  -- `get(session_id, validate_timeout=…)`
  unfoldable pub get_valid : Bool → String → ℕ → Service → Option Session × Service
  get_valid validate_timeout k now s =
      if str_eq k ""
      then (none, s)
      else (let (r, s') = get_cached_or_load k now s in validated validate_timeout now r s')

  -- `touch` once the record and its cache entry are found. The record is the entry's own object
  -- (`shared`) or a second copy, which the store has just returned.
  unfoldable pub refresh : Bool → String → Session → CacheEntry → ℕ → Service → Bool × Service
  refresh shared k r entry now s =
      if is_expired r now
      then (false, log_event (session_expired r.username r.id) (drop_session k s))
      else (let r' = record r { last_active = now } in
          let flush = leb (entry.last_persisted_active + cfg.touch_flush_seconds) now in
          let entry' : CacheEntry = record {
            session = if shared then r' else entry.session;
            loaded_at = now;
            last_persisted_active = if flush then now else entry.last_persisted_active;
            dirty = not flush;
          } in
          (
            true,
            record s {
              sessions = if flush then save_session r' s.sessions else s.sessions;
              cache = put k entry' s.cache;
            },
          ))

  abbrev pub touch_stored : String → ℕ → Service → Option Session → Bool × Service
  touch_stored k now s none = (false, record s { cache = remove k s.cache })
  touch_stored k now s (some r) =
      refresh false k r (entry_of r now) now (record s { cache = put k (entry_of r now) s.cache })

  abbrev pub touch_cached : String → ℕ → Service → Option CacheEntry → Bool × Service
  touch_cached k now s none = touch_stored k now s (get_session k s.sessions)
  touch_cached k now s (some entry) =
      if fresh entry now
      then refresh true k entry.session entry now s
      else touch_stored k now s (get_session k s.sessions)

  unfoldable pub touch : String → ℕ → Service → Bool × Service
  touch k now s = if str_eq k "" then (false, s) else touch_cached k now s (get k s.cache)

  -- The row that `issue` makes. `blank` has the fields of the user and the request.
  abbrev pub new_session : String → Session → ℕ → Session
  new_session k blank now = record blank {
    id = k;
    created_at = now;
    last_active = now;
    expires_at = now + absolute_session_seconds;
  }

  abbrev pub issue_id :
      String
      → Session
      → ℕ
      → Service
      → Option Session × Service
      → Option Session
      → Option Session × Service
  issue_id k blank now s retry (some taken) = retry
  issue_id k blank now s retry none =
      let r = new_session k blank now in
      (
        some r,
        record s { sessions = save_session r s.sessions; cache = put k (entry_of r now) s.cache },
      )

  -- `issue`, with the identifiers that `secrets.token_urlsafe` returns: `none` is the RuntimeError
  -- after the last one.
  unfoldable pub issue : List String → Session → ℕ → Service → Option Session × Service
  issue [] blank now s = (none, s)
  issue (k ∷ ids) blank now s =
      issue_id k blank now s (issue ids blank now s) (get_session k s.sessions)

  abbrev pub revoke_event : String → String → Session → AuditEvent
  revoke_event actor_user actor_role r =
      if str_eq actor_role "admin"
        && (not (str_eq actor_user "") && not (str_eq actor_user r.username))
      then admin_session_revoked actor_user r.id
      else session_revoked actor_user r.id

  abbrev pub deleted_row :
      String → String → Session → Option Session → Service → Option Session × Service
  deleted_row actor_user actor_role r none s = (none, s)
  deleted_row actor_user actor_role r (some row) s =
      (some r, log_event (revoke_event actor_user actor_role r) s)

  abbrev pub revoked :
      String → String → String → Option Session → Service → Option Session × Service
  revoked k actor_user actor_role none s = (none, s)
  revoked k actor_user actor_role (some r) s =
      deleted_row actor_user actor_role r (get_session k s.sessions) (drop_session k s)

  unfoldable pub revoke : String → String → String → ℕ → Service → Option Session × Service
  revoke k actor_user actor_role now s =
      let (r, s') = get_valid true k now s in revoked k actor_user actor_role r s'

  unfoldable pub discard : String → Service → Service
  discard k s = if str_eq k "" then s else drop_session k s

  abbrev pub expired_row : String → Option Session → Service → Service
  expired_row k none s = s
  expired_row k (some r) s = log_event (session_expired r.username r.id) (drop_session k s)

  unfoldable pub expire : String → ℕ → Service → Service
  expire k now s = let (r, s') = get_valid false k now s in expired_row k r s'

  -- `self._cache.pop(row.id, None)` for every deleted row.
  unfoldable pub forget : List Session → Dict CacheEntry → Dict CacheEntry
  forget [] cache = cache
  forget (row ∷ rows) cache = forget rows (remove row.id cache)

  unfoldable pub revoke_others : String → String → String → Service → ℕ × Service
  revoke_others user_id except actor_user s =
      let (kept, deleted) = delete_for_user user_id except s.sessions in
      let n = length deleted in
      (
        n,
        log_event (session_others_revoked actor_user user_id n)
            (record s { sessions = kept; cache = forget deleted s.cache }),
      )

  unfoldable pub delete_sessions_for_user : String → Service → ℕ × Service
  delete_sessions_for_user user_id s =
      let (kept, deleted) = delete_for_user user_id "" s.sessions in
      (length deleted, record s { sessions = kept; cache = forget deleted s.cache })

-- The calls of the service.
pub data Call : Type 0 where
  issue_call : List String → Session → Call
  get_call : Bool → String → Call
  touch_call : String → Call
  revoke_call : String → String → String → Call
  discard_call : String → Call
  expire_call : String → Call
  revoke_others_call : String → String → String → Call
  delete_user_call : String → Call

unfoldable pub step : Config → Call → ℕ → Service → Service
step cfg (issue_call ids blank) now s = (issue cfg ids blank now s).1
step cfg (get_call validate k) now s = (get_valid cfg validate k now s).1
step cfg (touch_call k) now s = (touch cfg k now s).1
step cfg (revoke_call k user role) now s = (revoke cfg k user role now s).1
step cfg (discard_call k) now s = discard cfg k s
step cfg (expire_call k) now s = expire cfg k now s
step cfg (revoke_others_call user_id except actor) now s =
    (revoke_others cfg user_id except actor s).1
step cfg (delete_user_call user_id) now s = (delete_sessions_for_user cfg user_id s).1

unfoldable pub run : Config → List (Call × ℕ) → Service → Service
run cfg [] s = s
run cfg ((call, now) ∷ calls) s = run cfg calls (step cfg call now s)
