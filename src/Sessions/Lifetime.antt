-- ===== src/Sessions/Lifetime.antt =====
-- How long a session lives: a session that is logged out stays out, and none outlives its day
-- (app/server/monitor/services/session_service.py).
use rpi_home_monitor.Base.{
  ℕ, ◌+◌, ◌<◌, String, ◌≡◌, ◌≢◌, refl, Bool, true, false, Option, none, some, List, [], ◌∷◌, Dict,
  remove, keep, arith, inl, inr, Bool-cases, str_eq, eq_iff, All,
}
use rpi_home_monitor.Sessions.{
  Session, CacheEntry, Config, Service, Call, absolute_session_seconds, delete_session, is_expired,
  drop_session, get_valid, validated, deleted_row, revoked, revoke, run,
}
use rpi_home_monitor.Sessions.Rows.{Found, Entries}
use rpi_home_monitor.Sessions.Keeps.{Good, Holds, Issues, log-Holds, get_valid-Holds}
use rpi_home_monitor.Sessions.Calls.{run-Holds}

abbrev pub Gone : String → Session → Type 0
Gone k r = r.id ≢ k

abbrev pub CreatedAt : String → ℕ → Session → Type 0
CreatedAt k t r = r.id ≡ k → r.created_at ≡ t

-- Every cached record stands under its own identifier.
abbrev pub IsFiled : Service → Type 0
IsFiled s = Holds (λ r. Unit) s

module _ (cfg : Config) where
  abbrev Live : ℕ → Option Session → Type 0
  Live now none = Unit
  Live now (some r) = is_expired cfg r now ≡ false

  validated-Live :
      (now : ℕ) (o : Option Session) (s : Service) → Live now (validated cfg true now o s).0
  validated-Live now none s = tt
  validated-Live now (some r) s = elim (Bool-cases (is_expired cfg r now)) [
    | inl old ↦ rw old tt
    | inr good ↦ rw good good
  ]

  -- What a checked lookup returns has not expired.
  get_valid-Live : (k : String) (now : ℕ) (s : Service) → Live now (get_valid cfg true k now s).0
  unfolding get_valid
  get_valid-Live k now s = elim (Bool-cases (str_eq k "")) [
    | inl empty ↦ rw empty tt
    | inr named ↦ rw named (validated-Live now _ _)
  ]

  out_of_day :
      (r : Session) (now : ℕ)
      → 0 < r.created_at
      → r.created_at + absolute_session_seconds < now
      → is_expired cfg r now ≡ true
  unfolding is_expired
  out_of_day r now h h' = ground arith

delete_session-Gone : (k : String) (rows : List Session) → All (Gone k) (delete_session k rows)
unfolding delete_session keep
delete_session-Gone k [] = tt
delete_session-Gone k (row ∷ rows) = elim (Bool-cases (str_eq row.id k)) [
  | inl same ↦ rw same (delete_session-Gone k rows)
  | inr other ↦ rw other (ground (arith, eq_iff row.id k), delete_session-Gone k rows)
]

remove-Gone :
    (k : String) (cache : Dict CacheEntry)
    → Entries (Good (λ r. Unit)) cache
    → Entries (Good (Gone k)) (remove k cache)
unfolding remove
remove-Gone k [] h = tt
remove-Gone k ((j, entry) ∷ cache) h = elim (Bool-cases (str_eq j k)) [
  | inl same ↦ rw same (remove-Gone k cache h.1)
  | inr other ↦ rw other ((h.0.0, ground (arith, eq_iff j k, h.0.0)), remove-Gone k cache h.1)
]

drop-Gone :
    (cfg : Config) (k : String) (s : Service) → IsFiled s → Holds (Gone k) (drop_session cfg k s)
unfolding drop_session
drop-Gone cfg k s h = record {
  rows = delete_session-Gone k s.sessions;
  cached = remove-Gone k s.cache h.cached;
}

deleted_row-Gone :
    (cfg : Config) (k user role : String) (r : Session) (o : Option Session) (s : Service)
    → Holds (Gone k) s
    → Holds (Gone k) (deleted_row cfg user role r o s).1
deleted_row-Gone cfg k user role r none s h = h
deleted_row-Gone cfg k user role r (some row) s h = log-Holds cfg (Gone k) _ s h

revoked-Gone :
    (cfg : Config) (k user role : String) (r : Session) (o : Option Session) (s : Service)
    → IsFiled s
    → (revoked cfg k user role o s).0 ≡ some r
    → Holds (Gone k) (revoked cfg k user role o s).1
revoked-Gone cfg k user role r none s h e = cc
revoked-Gone cfg k user role r (some found) s h e =
    deleted_row-Gone cfg k user role found _ _ (drop-Gone cfg k s h)

none_of_Gone : (k : String) (o : Option Session) → Found (Gone k) k o → o ≡ none
none_of_Gone k none f = refl
none_of_Gone k (some r) f = absurd (f.1 f.0)

-- A session that was revoked is never found again: once `revoke` has returned the session, every
-- later `get`, checked or not, returns None, whatever calls come between, at whatever instants,
-- unless one of them issues the same identifier anew. The cache must file every record under its
-- own identifier, as it does from the start on.
pub revoke-get :
    (cfg : Config) (k user role : String) (now : ℕ) (s : Service) (r : Session)
    (calls : List (Call × ℕ)) (checked : Bool) (later : ℕ)
    → IsFiled s
    → (revoke cfg k user role now s).0 ≡ some r
    → All (λ c. Issues cfg (Gone k) c.0 c.1) calls
    → (get_valid cfg checked k later (run cfg calls (revoke cfg k user role now s).1)).0 ≡ none
unfolding revoke
revoke-get cfg k user role now s r calls checked later h e i =
    none_of_Gone k _
      (get_valid-Holds cfg (Gone k) checked k later _ (
        run-Holds cfg (Gone k) (λ r n g. g) calls _ i
          (revoked-Gone cfg k user role r _ _ (get_valid-Holds cfg (λ r. Unit) true k now s h).1
            e))).0

none_of_old :
    (cfg : Config) (k : String) (t now : ℕ) (o : Option Session)
    → 0 < t
    → t + absolute_session_seconds < now
    → Found (CreatedAt k t) k o
    → Live cfg now o
    → o ≡ none
none_of_old cfg k t now none h late f live = refl
none_of_old cfg k t now (some r) h late f live =
    let c : r.created_at ≡ t = f.1 f.0 in
    let e = out_of_day cfg r now (omega arith) (omega arith) in cc

-- No session outlives its day: when the rows and the cached records of an identifier all say that
-- it was created at instant `t`, after 0, a checked `get` later than 24 hours after `t` returns
-- None, however often the session was touched meanwhile and whatever other calls came between,
-- unless one of them issues the same identifier anew at another instant.
pub get-day :
    (cfg : Config) (k : String) (t now : ℕ) (s : Service) (calls : List (Call × ℕ))
    → 0 < t
    → t + absolute_session_seconds < now
    → Holds (CreatedAt k t) s
    → All (λ c. Issues cfg (CreatedAt k t) c.0 c.1) calls
    → (get_valid cfg true k now (run cfg calls s)).0 ≡ none
get-day cfg k t now s calls h late holds i =
    none_of_old cfg k t now _ h late
      (get_valid-Holds cfg (CreatedAt k t) true k now _
        (run-Holds cfg (CreatedAt k t) (λ r n g. g) calls s i holds)).0
      (get_valid-Live cfg k now _)
