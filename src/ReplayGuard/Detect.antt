-- ===== src/ReplayGuard/Detect.antt =====
-- What the replay guard of `hmac_replay_guard.py` detects, over any run of requests.
use rpi_home_monitor.Base.{
  ℕ, ◌+◌, ◌<◌, String, ◌≡◌, ◌≢◌, ◌↔◌, refl, ◌∙◌, true, false, Option, none, some, List, [], ◌∷◌,
  get, put, has, only, Distinct, get-put, get-keep_values, keep_values-Distinct, put-Distinct,
  has_lem, ltb, arith, if◌then◌else◌, str_eq, eq_iff, All, Bool-cases, inl, inr,
}
use rpi_home_monitor.ReplayGuard.{
  Stored, State, Request, cache_of, read_state, write_state, pruned_camera_cache, key, record_in,
  record_and_check, serve,
}
use rpi_home_monitor.ReplayGuard.Storage.{IsValid, cache_of-read-write, read-write-IsValid}

cache_of-put :
    (c d : String) (v : List (String × ℕ)) (s : State)
    → cache_of d (put c v s) ≡ (if str_eq c d then v else cache_of d s)
unfolding cache_of
cache_of-put c d v s = ground (arith, get-put c d v s)

get-pruned :
    (s : State) (c k : String) (now : ℕ)
    → IsValid s
    → get k (pruned_camera_cache s c now) ≡ only (λ e. ltb now e) (get k (cache_of c s))
unfolding pruned_camera_cache
get-pruned s c k now h = get-keep_values (λ e. ltb now e) k (cache_of c s) (h.caches c)

-- The file holds the entry of a request, and it expires at `e`.
pub record Holds (s : State) (c k : String) (e : ℕ) : Type 0 where
  pub valid : IsValid s
  pub entry : get k (cache_of c s) ≡ some e

has-pruned :
    (s : State) (c k : String) (now e : ℕ)
    → Holds s c k e
    → now < e
    → has k (pruned_camera_cache s c now) ≡ true
unfolding only
has-pruned s c k now e h l =
    ground (arith, has_lem k (pruned_camera_cache s c now), get-pruned s c k now h.valid, h.entry)

pruned-Distinct :
    (s : State) (c : String) (now : ℕ) → IsValid s → Distinct (pruned_camera_cache s c now)
unfolding pruned_camera_cache
pruned-Distinct s c now h = keep_values-Distinct _ (cache_of c s) (h.caches c)

-- The state after a request that was no replay.
abbrev added : State → String → String → ℕ → ℕ → State
added s c k now expires_at = put c (put k expires_at (pruned_camera_cache s c now)) s

added-IsValid :
    (s : State) (c k : String) (now expires_at : ℕ)
    → IsValid s
    → IsValid (added s c k now expires_at)
added-IsValid s c k now expires_at h = record {
  cameras = put-Distinct c _ s h.cameras;
  caches = λ d.
      rw (cache_of-put c d (put k expires_at (pruned_camera_cache s c now)) s)
        (elim (Bool-cases (str_eq c d)) [
          | inl same ↦ rw same (put-Distinct k expires_at _ (pruned-Distinct s c now h))
          | inr differ ↦ rw differ (h.caches d)
        ]);
}

added-entry :
    (s : State) (c k : String) (now expires_at : ℕ)
    → get k (cache_of c (added s c k now expires_at)) ≡ some expires_at
added-entry s c k now expires_at = ground (
  arith,
  cache_of-put c c (put k expires_at (pruned_camera_cache s c now)) s,
  eq_iff c c,
  eq_iff k k,
  get-put k k expires_at (pruned_camera_cache s c now),
)

-- Adding a request keeps every entry that has not expired, but its own.
added-keeps :
    (s : State) (c k d j : String) (now expires_at e : ℕ)
    → Holds s d j e
    → now < e
    → has k (pruned_camera_cache s c now) ≡ false
    → get j (cache_of d (added s c k now expires_at)) ≡ some e
unfolding only
added-keeps s c k d j now expires_at e h l fresh = ground (
  arith,
  cache_of-put c d (put k expires_at (pruned_camera_cache s c now)) s,
  get-put k j expires_at (pruned_camera_cache s c now),
  eq_iff c d,
  eq_iff k j,
  get-pruned s c j now h.valid,
  has-pruned s d j now e h l,
)

found-live :
    (now : ℕ) (o : Option ℕ)
    → (elim (only (λ e. ltb now e) o) [ none ↦ false | some e ↦ true ]) ≡ true
    → (e : ℕ) × (o ≡ some e) × (now < e)
unfolding only
found-live now none h = absurd (ground arith)
found-live now (some e) h = (e, refl, ground arith)

module _ (digest : String → String → String → String) (ttl : ℕ) where
  record_in-IsValid :
      (s : State) (r : Request) (now : ℕ) → IsValid s → IsValid (record_in digest ttl s r now).0
  unfolding record_in
  record_in-IsValid s r now h =
      elim (Bool-cases (has (key digest ttl r) (pruned_camera_cache s r.camera_id now))) [
        | inl old ↦ rw old h
        | inr new ↦ rw new (added-IsValid s r.camera_id (key digest ttl r) now (now + ttl) h)
      ]

  record_in-Holds :
      (s : State) (r : Request) (now : ℕ) (d j : String) (e : ℕ)
      → Holds s d j e
      → now < e
      → Holds (record_in digest ttl s r now).0 d j e
  unfolding record_in
  record_in-Holds s r now d j e h l =
      elim (Bool-cases (has (key digest ttl r) (pruned_camera_cache s r.camera_id now))) [
        | inl old ↦ rw old h
        | inr new ↦ rw new (record {
          valid = added-IsValid s r.camera_id (key digest ttl r) now (now + ttl) h.valid;
          entry = added-keeps s r.camera_id (key digest ttl r) d j now (now + ttl) e h l new;
        })
      ]

  record_in-accepted :
      (s : State) (r : Request) (now : ℕ)
      → IsValid s
      → (record_in digest ttl s r now).1 ≡ false
      → Holds (record_in digest ttl s r now).0 r.camera_id (key digest ttl r) (now + ttl)
  unfolding record_in
  record_in-accepted s r now h accepted =
      elim (Bool-cases (has (key digest ttl r) (pruned_camera_cache s r.camera_id now))) [
        | inl old ↦ absurd (ground (arith, accepted, old))
        | inr new ↦ rw new (record {
          valid = added-IsValid s r.camera_id (key digest ttl r) now (now + ttl) h;
          entry = added-entry s r.camera_id (key digest ttl r) now (now + ttl);
        })
      ]

  record_in-replay :
      (s : State) (r : Request) (now e : ℕ)
      → Holds s r.camera_id (key digest ttl r) e
      → now < e
      → (record_in digest ttl s r now).1 ≡ true
  unfolding record_in
  record_in-replay s r now e h l = rw (has-pruned s r.camera_id (key digest ttl r) now e h l)

  Holds-write :
      (s : State) (c k : String) (e : ℕ) → Holds s c k e → Holds (read_state (write_state s)) c k e
  Holds-write s c k e h = record {
    valid = read-write-IsValid s h.valid;
    entry = rw (cache_of-read-write c s h.valid.cameras) h.entry;
  }

  -- Serving requests keeps the file free of double cameras and double keys.
  pub serve-IsValid :
      (file : Stored) (calls : List (Request × ℕ))
      → IsValid (read_state file)
      → IsValid (read_state (serve digest ttl file calls))
  unfolding serve record_and_check
  serve-IsValid file [] h = h
  serve-IsValid file ((r, now) ∷ calls) h =
      serve-IsValid (record_and_check digest ttl file r now).0 calls
        (read-write-IsValid _ (record_in-IsValid (read_state file) r now h))

  serve-Holds :
      (file : Stored) (calls : List (Request × ℕ)) (c k : String) (e : ℕ)
      → Holds (read_state file) c k e
      → All (λ call. call.1 < e) calls
      → Holds (read_state (serve digest ttl file calls)) c k e
  unfolding serve record_and_check
  serve-Holds file [] c k e h _ = h
  serve-Holds file ((r, now) ∷ calls) c k e h early =
      serve-Holds (record_and_check digest ttl file r now).0 calls c k e
        (Holds-write (record_in digest ttl (read_state file) r now).0 c k e
          (record_in-Holds (read_state file) r now c k e h early.0))
        early.1

  -- A request that was accepted at `first` is reported as a replay when it comes again before
  -- `first + ttl`, whatever other requests, of any camera, were served since, if their instants
  -- lie before that too. The file held no key twice at the start.
  pub replay_detected :
      (file : Stored) (r : Request) (first : ℕ) (calls : List (Request × ℕ)) (now : ℕ)
      → IsValid (read_state file)
      → (record_and_check digest ttl file r first).1 ≡ false
      → All (λ call. call.1 < first + ttl) calls
      → now < first + ttl
      → (record_and_check digest ttl
          (serve digest ttl (record_and_check digest ttl file r first).0 calls)
          r
          now).1
        ≡ true
  unfolding record_and_check
  replay_detected file r first calls now valid accepted early l =
      record_in-replay _ r now (first + ttl)
        (serve-Holds (record_and_check digest ttl file r first).0 calls r.camera_id
          (key digest ttl r) (first + ttl)
          (Holds-write _ r.camera_id (key digest ttl r) (first + ttl)
            (record_in-accepted (read_state file) r first valid accepted))
          early)
        l

  -- A request is a replay exactly when the file holds an entry for it, in the cache of its own
  -- camera, that has not expired.
  pub replay_iff :
      (file : Stored) (r : Request) (now : ℕ)
      → IsValid (read_state file)
      → ((record_and_check digest ttl file r now).1 ≡ true) ↔ (
          (e : ℕ) × (get (key digest ttl r) (cache_of r.camera_id (read_state file)) ≡ some e)
          × (now < e))
  unfolding record_and_check record_in
  replay_iff file r now h =
      let s = read_state file in
      let k = key digest ttl r in
      let pruned = pruned_camera_cache s r.camera_id now in
      (
        λ replay.
            found-live now (get k (cache_of r.camera_id s))
              (ground (arith, has_lem k pruned, get-pruned s r.camera_id k now h)),
        λ live. record_in-replay s r now live.0 (record { valid = h; entry = live.1 }) live.2,
      )

  record_in-isolated :
      (s : State) (r : Request) (now : ℕ) (c : String)
      → r.camera_id ≢ c
      → cache_of c (record_in digest ttl s r now).0 ≡ cache_of c s
  unfolding record_in
  record_in-isolated s r now c other = ground (
    arith,
    eq_iff r.camera_id c,
    cache_of-put r.camera_id c
        (put (key digest ttl r) (now + ttl) (pruned_camera_cache s r.camera_id now)) s,
  )

  -- A request of one camera changes nothing of what is remembered for another.
  pub cameras_isolated :
      (file : Stored) (r : Request) (now : ℕ) (c : String)
      → IsValid (read_state file)
      → r.camera_id ≢ c
      → cache_of c (read_state (record_and_check digest ttl file r now).0)
        ≡ cache_of c (read_state file)
  unfolding record_and_check
  cameras_isolated file r now c h other =
      let s = read_state file in
      let s' = (record_in digest ttl s r now).0 in
      cache_of-read-write c s' (record_in-IsValid s r now h).cameras
      ∙ record_in-isolated s r now c other
