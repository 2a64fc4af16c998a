-- ===== src/MotionEventStore/Lookup.antt =====
-- What `append` does to the lookups and to the length of the list of motion events.
use rpi_home_monitor.Base.{
  ℕ, suc, zero, ◌≤◌, String, ◌≡◌, refl, ◌∙◌, ap, true, Bool-cases, inl, inr, Option, none, some,
  List, [], ◌∷◌, ◌++◌, map, length, drop, length-append, length-drop, ltb, ltb→lt, arith, eq_iff,
  if◌then◌else◌, Bool,
}
use rpi_home_monitor.MotionEventStore.{
  MotionEvent, Duration, max_events, is_open, has_id, updated, update_last, or_this, find_last,
  close_orphan, compact, appended, append, get,
}

length-map : (f : MotionEvent → MotionEvent) (xs : List MotionEvent) → length (map f xs) ≡ length xs
length-map f [] = refl
length-map f (x ∷ xs) = ap suc (length-map f xs)

-- What `update_last` and the scan for the same event have to do with each other.
abbrev pub Updated :
    (MotionEvent → Bool)
    → (MotionEvent → MotionEvent)
    → List MotionEvent
    → Option (List MotionEvent)
    → Type 0
Updated p f xs none = find_last p xs ≡ none
Updated p f xs (some ys) =
    (length ys ≡ length xs)
    × (x : MotionEvent) × (find_last p xs ≡ some x)
    × (find_last p ys ≡ some (f x))

module _ (p : MotionEvent → Bool) (f : MotionEvent → MotionEvent)
    (keeps : (x : MotionEvent) → p x ≡ true → p (f x) ≡ true) where
  picked : (x : MotionEvent) → p x ≡ true → (if p x then some x else none) ≡ some x
  picked x hit = rw hit refl

  updated-Updated :
      (x : MotionEvent) (xs : List MotionEvent) (o : Option (List MotionEvent))
      → Updated p f xs o
      → Updated p f (x ∷ xs) (updated p f x xs o)
  unfolding find_last
  updated-Updated x xs (some ys) (len, y, before, after) =
      (ap suc len, y, ap (or_this _) before, ap (or_this _) after)
  updated-Updated x xs none h = elim (Bool-cases (p x)) [
    | inl hit ↦
        rw hit
          (refl, x, ap (or_this _) h ∙ picked x hit, ap (or_this _) h ∙ picked (f x) (keeps x hit))
    | inr miss ↦ rw miss (ap (or_this _) h ∙ rw miss refl)
  ]

  pub update_last-Updated : (xs : List MotionEvent) → Updated p f xs (update_last p f xs)
  unfolding update_last find_last
  update_last-Updated [] = refl
  update_last-Updated (x ∷ xs) = updated-Updated x xs _ (update_last-Updated xs)

find_last-tail :
    (p : MotionEvent → Bool) (x : MotionEvent) (xs : List MotionEvent)
    → p x ≡ true
    → find_last p (xs ++ x ∷ []) ≡ some x
unfolding find_last
find_last-tail p x [] h = rw h refl
find_last-tail p x (y ∷ xs) h = ap (or_this _) (find_last-tail p x xs h)

pub drop-tail :
    (n : ℕ) (x : MotionEvent) (xs : List MotionEvent)
    → n ≤ length xs
    → drop n (xs ++ x ∷ []) ≡ drop n xs ++ x ∷ []
drop-tail zero x xs h = refl
drop-tail (suc n) x [] h = absurd (omega arith)
drop-tail (suc n) x (y ∷ xs) h = drop-tail n x xs (omega arith)

module _ (parse : String → Option ℕ) (elapsed : ℕ → ℕ → Duration) where
  -- Compaction keeps the newest event.
  compact-find_last :
      (p : MotionEvent → Bool) (x : MotionEvent) (xs : List MotionEvent)
      → p x ≡ true
      → find_last p (compact parse elapsed (xs ++ x ∷ [])) ≡ some x
  unfolding compact
  compact-find_last p x xs h = elim (Bool-cases (ltb max_events (length (xs ++ x ∷ [])))) [
    | inl big ↦
        let l = length-append xs (x ∷ []) in
        let b = ltb→lt max_events _ big in
        rw big (rw (drop-tail 500 x xs (omega arith)) (find_last-tail p x (drop 500 xs) h))
    | inr small ↦ rw small (find_last-tail p x xs h)
  ]

  compact-bound :
      (x : MotionEvent) (xs : List MotionEvent)
      → length xs ≤ max_events
      → length (compact parse elapsed (xs ++ x ∷ [])) ≤ max_events
  unfolding compact
  compact-bound x xs h =
      let l = length-append xs (x ∷ []) in
      elim (Bool-cases (ltb max_events (length (xs ++ x ∷ [])))) [
        | inl big ↦ rw big (omega (arith, length-drop 500 (xs ++ x ∷ [])))
        | inr small ↦ rw small (ground arith)
      ]

  abbrev kept_events : MotionEvent → List MotionEvent → List MotionEvent
  kept_events event events =
      if is_open event then map (close_orphan parse elapsed event) events else events

  length-kept_events :
      (event : MotionEvent) (events : List MotionEvent)
      → length (kept_events event events) ≡ length events
  length-kept_events event events = elim (Bool-cases (is_open event)) [
    | inl unended ↦ rw unended (length-map _ events)
    | inr ended ↦ rw ended refl
  ]

  appended-find_last :
      (event : MotionEvent) (events : List MotionEvent) (o : Option (List MotionEvent))
      → Updated (has_id event.id) (λ old. event) events o
      → find_last (has_id event.id) (appended parse elapsed event events o) ≡ some event
  appended-find_last event events (some events') h = h.3
  appended-find_last event events none h =
      compact-find_last (has_id event.id) event (kept_events event events)
        ((eq_iff event.id event.id).1 refl)

  appended-bound :
      (event : MotionEvent) (events : List MotionEvent) (o : Option (List MotionEvent))
      → Updated (has_id event.id) (λ old. event) events o
      → length events ≤ max_events
      → length (appended parse elapsed event events o) ≤ max_events
  appended-bound event events (some events') h b = rw h.0 b
  appended-bound event events none h b =
      compact-bound event (kept_events event events) (rw (length-kept_events event events) b)

  -- An event that was just appended can be looked up by its identifier: directly after `append`, whether
  -- it replaced an event of that identifier or was added, and even when this `append` compacted the
  -- list, `get` returns it.
  pub get-append :
      (event : MotionEvent) (events : List MotionEvent)
      → get parse elapsed event.id (append parse elapsed event events) ≡ some event
  unfolding get append
  get-append event events = appended-find_last event events _ (
      update_last-Updated (has_id event.id) (λ old. event)
        (λ x h. (eq_iff event.id event.id).1 refl) events)

  -- The list of events never grows beyond 5000: `append` keeps this bound.
  pub append-bound :
      (event : MotionEvent) (events : List MotionEvent)
      → length events ≤ max_events
      → length (append parse elapsed event events) ≤ max_events
  unfolding append
  append-bound event events h =
      appended-bound event events _
        (update_last-Updated (has_id event.id) (λ old. event)
          (λ x h. (eq_iff event.id event.id).1 refl) events)
        h
