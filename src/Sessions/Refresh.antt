-- ===== src/Sessions/Refresh.antt =====
-- What `touch` leaves in the cache (app/server/monitor/services/session_service.py).
use rpi_home_monitor.Base.{ℕ, String, ◌≡◌, some, get}
use rpi_home_monitor.Sessions.{Session, CacheEntry, Config, Service}

module _ (cfg : Config) (k : String) where
  -- The cache entry that a `touch` leaves, of a record that it has just loaded: the entry holds the
  -- copy that `_get_cached_or_load` made, with the old `last_active`.
  abbrev Left : Session → ℕ → Service → Type 0
  Left r now s = (e : CacheEntry) × (get k s.cache ≡ some e) × (e.session ≡ r) × (e.loaded_at ≡ now)
