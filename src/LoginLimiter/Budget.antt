-- ===== src/LoginLimiter/Budget.antt =====
-- The limiter of `login_rate_limiter.py` refines one that never forgets: its verdict counts the
-- attempts of the window in the whole history.
use Prim.Native.Nat.{min}
use mathlib.Core.List.{append_assoc, append-nil}
use rpi_home_monitor.Base.{
  get, ℕ, ◌-◌, ◌≤◌, String, ◌≡◌, refl, ap, ◌∙◌, List, [], ◌∷◌, ◌++◌, keep, length, leb, All,
  All-keep, All-drop, All-append, Distinct, arith, inl, inr, Bool-cases, str_eq, eq_iff,
  if◌then◌else◌, false, ◌==◌, put, put-Distinct,
}
use rpi_home_monitor.LoginLimiter.{
  Stored, unreadable, State, Limiter, Call, checked, recorded, key, attempts_of, last_items,
  pruned_attempts, verdict, check, record_attempt, run, read_state, write_state,
}
use rpi_home_monitor.LoginLimiter.Window.{
  recent, Sorted, recent-keep, recent-append, Sorted-keep, Sorted-drop, Sorted-snoc,
  recent-last_items,
}
use rpi_home_monitor.LoginLimiter.Storage.{Distinct-read-write, attempts_of-put}

-- The attempts that one call adds to the history of an address, and those of a run of calls.
abbrev pub noted : String → Call → List ℕ
noted k (checked ip now) = []
noted k (recorded ip pruned_at now) = if str_eq (key ip) k then now ∷ [] else []

unfoldable pub history : String → List Call → List ℕ
history k [] = []
history k (call ∷ calls) = noted k call ++ history k calls

-- The clock never goes back.
abbrev pub Chronological : ℕ → List Call → Type 0
Chronological t [] = Unit
Chronological t (checked ip now ∷ calls) = (t ≤ now) × Chronological now calls
Chronological t (recorded ip pruned_at now ∷ calls) =
    (t ≤ pruned_at) × (pruned_at ≤ now) × Chronological now calls

unfoldable pub last_instant : ℕ → List Call → ℕ
last_instant t [] = t
last_instant t (checked ip now ∷ calls) = last_instant now calls
last_instant t (recorded ip pruned_at now ∷ calls) = last_instant now calls

-- One address: the stored attempts are in order and past, and show as many recent attempts as
-- the history, up to the number that blocks.
pub record Fits (l : Limiter) (t : ℕ) (stored times : List ℕ) : Type 0 where
  pub sorted : Sorted stored
  pub past : All (λ u. u ≤ t) stored
  pub counts :
      (now : ℕ)
      → t ≤ now
      → min l.block_after (recent (now - l.window_seconds) stored)
        ≡ min l.block_after (recent (now - l.window_seconds) times)

pub record Tracks (l : Limiter) (t : ℕ) (s : State) (times : String → List ℕ) : Type 0 where
  pub distinct : Distinct s
  pub fits : (k : String) → Fits l t (attempts_of k s) (times k)

weaken : (t now : ℕ) (xs : List ℕ) → t ≤ now → All (λ u. u ≤ t) xs → All (λ u. u ≤ now) xs
weaken t now [] h k = tt
weaken t now (x ∷ xs) h k = (omega arith, weaken t now xs h k.1)

module _ (l : Limiter) where
  abbrev window_from : ℕ → List ℕ → List ℕ
  window_from now = keep (λ u. leb (now - l.window_seconds) u)

  Fits-later :
      {t : ℕ} {stored times : List ℕ} (now : ℕ)
      → t ≤ now
      → Fits l t stored times
      → Fits l now stored times
  Fits-later {t} {stored} now h f = record {
    sorted = f.sorted;
    past = weaken t now stored h f.past;
    counts = λ n k. f.counts n (omega arith);
  }

  Fits-pruned :
      {t : ℕ} {stored times : List ℕ} (now : ℕ)
      → t ≤ now
      → Fits l t stored times
      → Fits l now (window_from now stored) times
  Fits-pruned {t} {stored} now h f = record {
    sorted = Sorted-keep _ stored f.sorted;
    past = All-keep (λ u. u ≤ now) _ stored (weaken t now stored h f.past);
    counts = λ n k.
        ap (min l.block_after)
          (recent-keep (now - l.window_seconds) (n - l.window_seconds) stored (omega arith))
        ∙ f.counts n (omega arith);
  }

  All-last_items :
      (t b : ℕ) (xs : List ℕ) → All (λ u. u ≤ t) xs → All (λ u. u ≤ t) (last_items b xs)
  unfolding last_items
  All-last_items t b xs h = elim (Bool-cases (b == 0)) [
    | inl e ↦ rw e h
    | inr e ↦ rw e (All-drop (λ u. u ≤ t) (length xs - b) xs h)
  ]

  Sorted-last_items : (b : ℕ) (xs : List ℕ) → Sorted xs → Sorted (last_items b xs)
  unfolding last_items
  Sorted-last_items b xs h = elim (Bool-cases (b == 0)) [
    | inl e ↦ rw e h
    | inr e ↦ rw e (Sorted-drop (length xs - b) xs h)
  ]

  Fits-recorded :
      {t : ℕ} {stored times : List ℕ} (now : ℕ)
      → t ≤ now
      → Fits l t stored times
      → Fits l now (last_items l.block_after (stored ++ now ∷ [])) (times ++ now ∷ [])
  Fits-recorded {t} {stored} {times} now h f =
      let past : All (λ u. u ≤ now) stored = weaken t now stored h f.past in
      let added : All (λ u. u ≤ now) (stored ++ now ∷ []) =
        All-append (λ u. u ≤ now) stored (now ∷ []) past (omega arith) in
      let order : Sorted (stored ++ now ∷ []) = Sorted-snoc stored now f.sorted past in
      record {
        sorted = Sorted-last_items l.block_after _ order;
        past = All-last_items now l.block_after _ added;
        counts = λ n k.
            let c = n - l.window_seconds in
            omega (
              arith,
              recent-last_items l.block_after c (stored ++ now ∷ []) order,
              recent-append c stored (now ∷ []),
              recent-append c times (now ∷ []),
              f.counts n (omega arith),
            );
      }

  -- One address gets new attempts, and the others keep theirs.
  Tracks-put :
      (t now : ℕ) (s : State) (times times' : String → List ℕ) (k : String) (stored : List ℕ)
      → Tracks l t s times
      → t ≤ now
      → Fits l now stored (times' k)
      → ((j : String) → str_eq k j ≡ false → times' j ≡ times j)
      → Tracks l now (read_state (write_state (put k stored s))) times'
  Tracks-put t now s times times' k stored h le new same = record {
    distinct = Distinct-read-write (put k stored s) (put-Distinct k stored s h.distinct);
    fits = λ j. rw (attempts_of-put k j stored s h.distinct) (elim (Bool-cases (str_eq k j)) [
      | inl e ↦ rw e (rw ((eq_iff k j).0 e) at new)
      | inr e ↦ rw (e, same j e) (Fits-later now le (h.fits j))
    ]);
  }

  Tracks-check :
      (t : ℕ) (file : Stored) (times : String → List ℕ) (ip : String) (now : ℕ)
      → Tracks l t (read_state file) times
      → t ≤ now
      → Tracks l now (read_state (check l file ip now).0) times
  unfolding check pruned_attempts
  Tracks-check t file times ip now h le =
      Tracks-put t now (read_state file) times times (key ip) _ h le
        (Fits-pruned now le (h.fits (key ip))) (λ j e. refl)

  Tracks-record :
      (t : ℕ) (file : Stored) (times : String → List ℕ) (ip : String) (pruned_at now : ℕ)
      → Tracks l t (read_state file) times
      → t ≤ pruned_at
      → pruned_at ≤ now
      → Tracks l now
          (read_state (record_attempt l file ip pruned_at now))
          (λ j. times j ++ noted j (recorded ip pruned_at now))
  unfolding record_attempt pruned_attempts
  Tracks-record t file times ip pruned_at now h le le' =
      Tracks-put t now (read_state file) times _ (key ip) _ h (omega arith)
        (rw ((eq_iff (key ip) (key ip)).1 refl)
          (Fits-recorded now le' (Fits-pruned pruned_at le (h.fits (key ip)))))
        (λ j e. rw (e, append-nil))

  Tracks-same :
      (t : ℕ) (s : State) (times times' : String → List ℕ)
      → ((j : String) → times j ≡ times' j)
      → Tracks l t s times
      → Tracks l t s times'
  Tracks-same t s times times' same h = record {
    distinct = h.distinct;
    fits = λ j. rw (same j) at (h.fits j);
  }

  run-Tracks :
      (t : ℕ) (file : Stored) (times : String → List ℕ) (calls : List Call)
      → Tracks l t (read_state file) times
      → Chronological t calls
      → Tracks l
          (last_instant t calls)
          (read_state (run l file calls))
          (λ j. times j ++ history j calls)
  unfolding run history last_instant
  run-Tracks t file times [] h c = Tracks-same t (read_state file) times _ (λ j. rw append-nil) h
  run-Tracks t file times (checked ip now ∷ calls) h c =
      run-Tracks now (check l file ip now).0 times calls (Tracks-check t file times ip now h c.0)
        c.1
  run-Tracks t file times (recorded ip pruned_at now ∷ calls) h c =
      Tracks-same (last_instant now calls) _ _ _ (λ j. append_assoc (times j) _ (history j calls))
        (run-Tracks now (record_attempt l file ip pruned_at now) _ calls
          (Tracks-record t file times ip pruned_at now h c.0 c.1) c.2)

  start-Tracks : Tracks l 0 (read_state unreadable) (λ j. [])
  unfolding read_state attempts_of get
  start-Tracks = record {
    distinct = tt;
    fits = λ k. record { sorted = tt; past = tt; counts = λ now h. refl };
  }

  verdict-min : (a b : ℕ) → min l.block_after a ≡ min l.block_after b → verdict l a ≡ verdict l b
  unfolding verdict
  verdict-min a b h = ground arith

  -- The verdict of a check on any address, after any calls on a file that starts missing or
  -- unreadable and with a clock that never goes back, is the verdict on the number of all the
  -- attempts ever recorded for that address that are not older than the window. Neither the
  -- pruning, nor the truncation to `block_after` attempts, nor the calls for other addresses
  -- change it.
  pub check-refines :
      (calls : List Call) (ip : String) (now : ℕ)
      → Chronological 0 calls
      → last_instant 0 calls ≤ now
      → (check l (run l unreadable calls) ip now).1
        ≡ verdict l (recent (now - l.window_seconds) (history (key ip) calls))
  unfolding check pruned_attempts
  check-refines calls ip now c le =
      let tracks = run-Tracks 0 unreadable (λ j. []) calls start-Tracks c in
      verdict-min _ _ ((tracks.fits (key ip)).counts now le)
