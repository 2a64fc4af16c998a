-- ===== src/LoginLimiter/Bound.antt =====
-- How much `login_rate_limiter.py` stores for an address.
use rpi_home_monitor.Base.{
  ℕ, ◌-◌, ◌≤◌, ◌<◌, String, List, [], ◌∷◌, length, length-drop, length-keep-le, leb, Distinct,
  arith, inl, inr, Bool-cases, str_eq, put, put-Distinct,
}
use rpi_home_monitor.LoginLimiter.{
  Stored, State, Limiter, Call, checked, recorded, key, attempts_of, last_items, pruned_attempts,
  check, record_attempt, run, read_state, write_state,
}
use rpi_home_monitor.LoginLimiter.Storage.{Distinct-read-write, attempts_of-put}

pub record IsBounded (l : Limiter) (s : State) : Type 0 where
  pub distinct : Distinct s
  pub bounded : (k : String) → length (attempts_of k s) ≤ l.block_after

module _ (l : Limiter) (pos : 0 < l.block_after) where
  IsBounded-put :
      (s : State) (k : String) (stored : List ℕ)
      → IsBounded l s
      → length stored ≤ l.block_after
      → IsBounded l (read_state (write_state (put k stored s)))
  IsBounded-put s k stored h fits = record {
    distinct = Distinct-read-write (put k stored s) (put-Distinct k stored s h.distinct);
    bounded = λ j.
        rw (attempts_of-put k j stored s h.distinct)
          (elim (Bool-cases (str_eq k j)) [ inl e ↦ rw e fits | inr e ↦ rw e (h.bounded j) ]);
  }

  length-last_items-le : (xs : List ℕ) → length (last_items l.block_after xs) ≤ l.block_after
  unfolding last_items
  length-last_items-le xs = ground (arith, length-drop (length xs - l.block_after) xs)

  length-pruned_attempts-le :
      (s : State) (k : String) (now : ℕ)
      → IsBounded l s
      → length (pruned_attempts l s k now) ≤ l.block_after
  unfolding pruned_attempts
  length-pruned_attempts-le s k now h =
      omega
        (arith, h.bounded k, length-keep-le (λ t. leb (now - l.window_seconds) t) (attempts_of k s))

  -- With a positive block threshold, every run of calls on a file that holds at most
  -- `block_after` attempts for each address, and no address twice, leaves such a file.
  pub run-IsBounded :
      (file : Stored) (calls : List Call)
      → IsBounded l (read_state file)
      → IsBounded l (read_state (run l file calls))
  unfolding run check record_attempt
  run-IsBounded file [] h = h
  run-IsBounded file (checked ip now ∷ calls) h = run-IsBounded (check l file ip now).0 calls (
      IsBounded-put (read_state file) (key ip) _ h
        (length-pruned_attempts-le (read_state file) (key ip) now h))
  run-IsBounded file (recorded ip pruned_at now ∷ calls) h =
      run-IsBounded (record_attempt l file ip pruned_at now) calls
        (IsBounded-put (read_state file) (key ip) _ h (length-last_items-le _))
