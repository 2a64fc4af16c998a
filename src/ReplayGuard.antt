-- ===== src/ReplayGuard.antt =====
-- The replay guard of the camera-to-server HMAC requests
-- (app/server/monitor/services/hmac_replay_guard.py). The JSON file is a value of `Stored`, and
-- each call reads it, changes the dictionary and writes it back, as `_locked_state` does under
-- its two locks. Instants are natural numbers of one unit; the SHA-256 digest is a parameter.
pub mod Storage
pub mod Detect
mod Tests
use rpi_home_monitor.Base.{
  ℕ, ◌+◌, String, Bool, true, false, Option, none, some, List, [], ◌∷◌, Dict, get, put, has,
  keep_values, is_empty, nonempty, or_empty, ltb, not, if◌then◌else◌,
}

-- What the file holds: nothing that can be read as a JSON object, or an object. A field is a
-- nested object or some other value, and an item of it a number or some other value.
pub data Field : Type 0 where
  other : Field
  object : List (String × Option ℕ) → Field

pub data Stored : Type 0 where
  unreadable : Stored
  root : List (String × Field) → Stored

abbrev pub Cache : Type 0
Cache = Dict ℕ

abbrev pub State : Type 0
State = Dict Cache

-- The inner loop of `_read_state`: items that are no numbers are left out.
pub clean_cache : List (String × Option ℕ) → Cache
clean_cache [] = []
clean_cache ((key, none) ∷ cache) = clean_cache cache
clean_cache ((key, some expires_at) ∷ cache) = (key, expires_at) ∷ clean_cache cache

read_fields : List (String × Field) → State
unfolding clean_cache
read_fields [] = []
read_fields ((camera_id, other) ∷ fields) = read_fields fields
read_fields ((camera_id, object cache) ∷ fields) =
    let rest = read_fields fields in
    let clean = clean_cache cache in if is_empty clean then rest else (camera_id, clean) ∷ rest

unfoldable pub read_state : Stored → State
unfolding read_fields
read_state unreadable = []
read_state (root fields) = read_fields fields

dump_cache : Cache → List (String × Option ℕ)
dump_cache [] = []
dump_cache ((key, expires_at) ∷ cache) = (key, some expires_at) ∷ dump_cache cache

dump : State → List (String × Field)
unfolding dump_cache
dump [] = []
dump ((camera_id, cache) ∷ state) = (camera_id, object (dump_cache cache)) ∷ dump state

-- `del state[camera_id]` for every camera whose cache is empty; with nothing left the file goes.
unfoldable pub write_state : State → Stored
unfolding dump keep_values
write_state state =
    let kept = keep_values nonempty state in if is_empty kept then unreadable else root (dump kept)

-- `state.get(camera_id, {})`
unfoldable pub cache_of : String → State → Cache
cache_of camera_id state = or_empty (get camera_id state)

unfoldable pub pruned_camera_cache : State → String → ℕ → Cache
unfolding cache_of keep_values
pruned_camera_cache state camera_id now =
    keep_values (λ expires_at. ltb now expires_at) (cache_of camera_id state)

pub record Request : Type 0 where
  pub camera_id : String
  pub timestamp : String
  pub signature : String

module _ (digest : String → String → String → String) (ttl_seconds : ℕ) where
  -- `_key`: the SHA-256 hex digest of the three texts, joined by colons.
  abbrev pub key : Request → String
  key r = digest r.camera_id r.timestamp r.signature

  -- The body of the `with` block, between the read and the write.
  unfoldable pub record_in : State → Request → ℕ → State × Bool
  record_in state r now =
      let camera_cache = pruned_camera_cache state r.camera_id now in
      if has (key r) camera_cache
      then (state, true)
      else (put r.camera_id (put (key r) (now + ttl_seconds) camera_cache) state, false)

  -- `record_and_check`: the file after the call, and whether the request is a replay.
  unfoldable pub record_and_check : Stored → Request → ℕ → Stored × Bool
  record_and_check file r now =
      let (state, replay) = record_in (read_state file) r now in (write_state state, replay)

  -- A run of requests, each with the instant of the call.
  unfoldable pub serve : Stored → List (Request × ℕ) → Stored
  serve file [] = file
  serve file ((r, now) ∷ calls) = serve (record_and_check file r now).0 calls
