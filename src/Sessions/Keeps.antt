-- ===== src/Sessions/Keeps.antt =====
-- A property of sessions that does not turn on `last_active` is kept by every call of
-- `session_service.py`, if the rows that it issues have it.
use rpi_home_monitor.Base.{
  ℕ, String, ◌≡◌, Bool, ◌&&◌, Option, none, some, inl, inr, Bool-cases, str_eq, All, All-keep,
}
use rpi_home_monitor.Sessions.{
  Session, CacheEntry, AuditEvent, Config, Service, Call, issue_call, delete_session, is_expired,
  fresh, entry_of, loaded, cached_or_load, get_cached_or_load, drop_session, log_event,
  expire_session, validated, get_valid, new_session,
}
use rpi_home_monitor.Sessions.Rows.{
  Found, get_session-Found, Entries, FoundEntry, get-Entries, put-Entries, remove-Entries,
}

-- The property, of every stored row and of every cached record, which stands under its own id.
abbrev pub Good : (Session → Type 0) → String → CacheEntry → Type 0
Good P k entry = (entry.session.id ≡ k) × P entry.session

pub record Holds (P : Session → Type 0) (s : Service) : Type 0 where
  pub rows : All P s.sessions
  pub cached : Entries (Good P) s.cache

-- What a call that issues a session needs.
abbrev pub Issues : Config → (Session → Type 0) → Call → ℕ → Type 0
Issues cfg P (issue_call ids blank) now = All (λ k. P (new_session cfg k blank now)) ids
Issues cfg P _ now = Unit

module _ (cfg : Config) (P : Session → Type 0) where
  abbrev pub Lookup : String → Option Session × Service → Type 0
  Lookup k (r, s) = Found P k r × Holds P s

  loaded-Holds :
      (k : String) (now : ℕ) (s : Service) (o : Option Session)
      → Found P k o
      → Holds P s
      → Lookup k (loaded cfg k now s o)
  loaded-Holds k now s none f h =
      (tt, record { rows = h.rows; cached = remove-Entries (Good P) k s.cache h.cached })
  loaded-Holds k now s (some r) f h = (
    f,
    record {
      rows = h.rows;
      cached = put-Entries (Good P) k (entry_of cfg r now) s.cache f h.cached;
    },
  )

  cached-Holds :
      (k : String) (now : ℕ) (s : Service) (o : Option CacheEntry)
      → FoundEntry (Good P) k o
      → Holds P s
      → Lookup k (cached_or_load cfg k now s o)
  cached-Holds k now s none f h = loaded-Holds k now s _ (get_session-Found P k s.sessions h.rows) h
  cached-Holds k now s (some entry) f h = elim (Bool-cases (fresh cfg entry now)) [
    | inl recent ↦ rw recent (f, h)
    | inr stale ↦ rw stale (loaded-Holds k now s _ (get_session-Found P k s.sessions h.rows) h)
  ]

  pub drop-Holds : (k : String) (s : Service) → Holds P s → Holds P (drop_session cfg k s)
  unfolding drop_session delete_session
  drop-Holds k s h = record {
    rows = All-keep P _ s.sessions h.rows;
    cached = remove-Entries (Good P) k s.cache h.cached;
  }

  pub log-Holds : (e : AuditEvent) (s : Service) → Holds P s → Holds P (log_event cfg e s)
  unfolding log_event
  log-Holds e s h = record { rows = h.rows; cached = h.cached }

  validated-Holds :
      (b : Bool) (k : String) (now : ℕ) (o : Option Session) (s : Service)
      → Found P k o
      → Holds P s
      → Lookup k (validated cfg b now o s)
  unfolding expire_session
  validated-Holds b k now none s f h = (tt, h)
  validated-Holds b k now (some r) s f h = elim (Bool-cases (b && is_expired cfg r now)) [
    | inl old ↦ rw old (tt, log-Holds _ _ (drop-Holds r.id s h))
    | inr good ↦ rw good (f, h)
  ]

  -- A lookup keeps the property, and what it returns has it.
  pub get_valid-Holds :
      (b : Bool) (k : String) (now : ℕ) (s : Service)
      → Holds P s
      → Lookup k (get_valid cfg b k now s)
  unfolding get_valid get_cached_or_load
  get_valid-Holds b k now s h = elim (Bool-cases (str_eq k "")) [
    | inl empty ↦ rw empty (tt, h)
    | inr named ↦ rw named (
        let (f, h') = cached-Holds k now s _ (get-Entries (Good P) k s.cache h.cached) h in
        validated-Holds b k now _ _ f h')
  ]
