-- ===== src/LoginLimiter.antt =====
-- The login rate limiter (app/server/monitor/services/login_rate_limiter.py): per address the
-- instants of the recent attempts, in a JSON file that every call reads and writes back under its
-- locks. Instants are natural numbers of one unit. `clock()` is read anew where the code reads it.
pub mod Window
pub mod Storage
pub mod Budget
pub mod Bound
mod Tests
use rpi_home_monitor.Base.{
  ℕ, ◌+◌, ◌-◌, String, Bool, true, false, Option, none, some, List, [], ◌∷◌, ◌++◌, Dict, get, put,
  keep, length, drop, is_empty, or_empty, ltb, leb, ◌==◌, str_eq, if◌then◌else◌,
}

-- What the file holds: no JSON object, or an object. A field is an array or some other value, and
-- an item of it a number or some other value.
pub data Field : Type 0 where
  other : Field
  array : List (Option ℕ) → Field

pub data Stored : Type 0 where
  unreadable : Stored
  root : List (String × Field) → Stored

abbrev pub State : Type 0
State = Dict (List ℕ)

-- The comprehension over the items of an array.
timestamps : List (Option ℕ) → List ℕ
timestamps [] = []
timestamps (none ∷ items) = timestamps items
timestamps (some item ∷ items) = item ∷ timestamps items

read_fields : List (String × Field) → State
unfolding timestamps
read_fields [] = []
read_fields ((key, other) ∷ fields) = read_fields fields
read_fields ((key, array value) ∷ fields) =
    let rest = read_fields fields in
    let found = timestamps value in if is_empty found then rest else (key, found) ∷ rest

unfoldable pub read_state : Stored → State
unfolding read_fields
read_state unreadable = []
read_state (root fields) = read_fields fields

dump_items : List ℕ → List (Option ℕ)
dump_items [] = []
dump_items (item ∷ items) = some item ∷ dump_items items

dump : State → List (String × Field)
unfolding dump_items
dump [] = []
dump ((key, value) ∷ state) = (key, array (dump_items value)) ∷ dump state

-- With no address left the file is unlinked.
unfoldable pub write_state : State → Stored
unfolding dump
write_state state = if is_empty state then unreadable else root (dump state)

-- `ip or "unknown"`
unfoldable pub key : String → String
key ip = if str_eq ip "" then "unknown" else ip

-- `state.get(key, [])`
unfoldable pub attempts_of : String → State → List ℕ
attempts_of k state = or_empty (get k state)

-- `xs[-n:]`, which is all of `xs` at `n = 0`.
unfoldable pub last_items {ℓ} : {A : Type ℓ} → ℕ → List A → List A
last_items n xs = if n == 0 then xs else drop (length xs - n) xs

pub record Limiter : Type 0 where
  pub window_seconds : ℕ
  pub warn_after : ℕ
  pub block_after : ℕ

module _ (l : Limiter) where
  unfoldable pub pruned_attempts : State → String → ℕ → List ℕ
  pruned_attempts state k now =
      let cutoff = now - l.window_seconds in
      keep (λ timestamp. leb cutoff timestamp) (attempts_of k state)

  -- The two thresholds of `check`: whether a login is allowed, and whether it is warned about.
  unfoldable pub verdict : ℕ → Bool × Bool
  verdict count =
      if leb l.block_after count
      then (false, false)
      else if leb l.warn_after count
      then (true, true)
      else (true, false)

  -- `check`, called at `now`: the file after it, and its result.
  unfoldable pub check : Stored → String → ℕ → Stored × (Bool × Bool)
  check file ip now =
      let state = read_state file in
      let attempts = pruned_attempts state (key ip) now in
      (write_state (put (key ip) attempts state), verdict (length attempts))

  -- `record`, which reads the clock for the pruning and once more for the attempt.
  unfoldable pub record_attempt : Stored → String → ℕ → ℕ → Stored
  record_attempt file ip pruned_at now =
      let state = read_state file in
      let attempts = pruned_attempts state (key ip) pruned_at ++ now ∷ [] in
      write_state (put (key ip) (last_items l.block_after attempts) state)

-- The calls of the limiter with the instants that they read.
pub data Call : Type 0 where
  checked : String → ℕ → Call
  recorded : String → ℕ → ℕ → Call

unfoldable pub run : Limiter → Stored → List Call → Stored
run l file [] = file
run l file (checked ip now ∷ calls) = run l (check l file ip now).0 calls
run l file (recorded ip pruned_at now ∷ calls) =
    run l (record_attempt l file ip pruned_at now) calls
