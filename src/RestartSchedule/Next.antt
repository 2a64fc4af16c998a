-- ===== src/RestartSchedule/Next.antt =====
-- That the next restart is the first one that the schedule allows
-- (app/server/monitor/services/restart_schedule_model.py).
use rpi_home_monitor.Base.{
  ℕ, zero, suc, ◌+◌, ◌-◌, ◌%◌, ◌≤◌, ◌<◌, String, ◌≡◌, refl, Bool, true, false, ◌&&◌, not, Option,
  none, some, List, [], ◌∷◌, leb, ltb, leb→le, ◌==◌, if_both, Bool-cases, inl, inr, All, All-keep,
  arith,
}
use rpi_home_monitor.TimeWindow.{any_day}
use rpi_home_monitor.RestartSchedule.{
  Payload, Schedule, Instant, day_order, or_sunday, valid_days, normalise_restart_schedule,
  is_after, is_wanted, candidate, next_from, next_run_at,
}

-- The restart of a day would be on a day of the schedule, and after the instant.
abbrev pub fits : Schedule → Instant → ℕ → Bool
fits schedule now date =
    is_wanted (date % 7) schedule.days && is_after (candidate schedule date) now

-- A restart that fits, where that of a day `d` is no earlier one.
abbrev pub IsNext : Schedule → Instant → ℕ → ℕ → Option Instant → Type 0
IsNext schedule now from d none = ⊥
IsNext schedule now from d (some r) =
    ((fits schedule now r.date ≡ true) × (r ≡ candidate schedule r.date))
    × ((leb from d && (fits schedule now d && ltb d r.date)) ≡ false)

module _ (schedule : Schedule) (now : Instant) (d : ℕ) where
  IsNext-earlier :
      (date : ℕ) (o : Option Instant)
      → fits schedule now date ≡ false
      → IsNext schedule now (date + 1) d o
      → IsNext schedule now date d o
  IsNext-earlier date none f h = h
  IsNext-earlier date (some r) f (fit, first) = (
    fit,
    elim (Bool-cases (date == d)) [
      | inl same ↦
          let it : date ≡ d = ground (arith, same) in
          let no : fits schedule now d ≡ false = (rw it at f) in rw no (ground arith)
      | inr other ↦ ground (arith, first, other)
    ],
  )

  -- A day that does not fit is left behind.
  onward-IsNext :
      (date e : ℕ) (o : Option Instant)
      → date ≤ e
      → fits schedule now e ≡ true
      → fits schedule now date ≡ false
      → (date + 1 ≤ e → IsNext schedule now (date + 1) d o)
      → IsNext schedule now date d o
  onward-IsNext date e o l f none_here again =
      IsNext-earlier date o none_here (elim (Bool-cases (date == e)) [
        | inl same ↦ absurd (
            let it : date ≡ e = ground (arith, same) in
            let no : fits schedule now e ≡ false = (rw it at none_here) in ground (arith, f, no))
        | inr other ↦ again (ground (arith, l, other))
      ])

  next_from-IsNext :
      (left date e : ℕ)
      → date ≤ e
      → e < date + left
      → fits schedule now e ≡ true
      → IsNext schedule now date d (next_from left date schedule now)
  unfolding next_from
  next_from-IsNext zero date e l r f = absurd (omega (arith, l, r))
  next_from-IsNext (suc left) date e l r f =
      let again : date + 1 ≤ e
          → IsNext schedule now (date + 1) d (next_from left (date + 1) schedule now) =
        (λ m. next_from-IsNext left (date + 1) e m (omega (arith, r)) f) in
      if_both (IsNext schedule now date d) (not (is_wanted (date % 7) schedule.days))
        (λ other. onward-IsNext date e _ l f (ground (arith, other)) again)
        (λ wanted.
          if_both (IsNext schedule now date d) (not (is_after (candidate schedule date) now))
            (λ past. onward-IsNext date e _ l f (ground (arith, past)) again)
            (λ ahead. ((ground (arith, wanted, ahead), refl), ground arith)))

-- Every weekday comes within a week.
coming : (n i : ℕ) → i < 7 → (k : ℕ) × (((1 ≤ k) × (k ≤ 7)) × ((n + k) % 7 ≡ i))
coming n i h = elim (Bool-cases (leb i (n % 7))) [
  | inl low ↦
      let l = leb→le i (n % 7) low in
      (i + 7 - n % 7, ((omega (arith, h, l), omega (arith, h, l)), omega (arith, h, l)))
  | inr high ↦
      let l : n % 7 < i = ground (arith, high) in
      (i - n % 7, ((omega (arith, h, l), omega (arith, h, l)), omega (arith, h, l)))
]

abbrev HasDay : List ℕ → Type 0
HasDay days = (i : ℕ) × ((i < 7) × (is_wanted i days ≡ true))

or_sunday-HasDay : (days : List ℕ) → All (λ i. i < 7) days → HasDay (or_sunday days)
unfolding is_wanted
or_sunday-HasDay [] h = (6, (omega arith, refl))
or_sunday-HasDay (i ∷ days) h = (i, (h.0, ground arith))

valid_days-HasDay : (names : Option (List String)) → HasDay (valid_days names)
unfolding valid_days is_wanted
valid_days-HasDay none = (6, (omega arith, refl))
valid_days-HasDay (some names) = or_sunday-HasDay _ (
    All-keep (λ i. i < 7) (λ day. any_day day names) day_order
      (
        omega arith,
        (
          omega arith,
          (omega arith, (omega arith, (omega arith, (omega arith, (omega arith, tt))))),
        ),
      ))

-- The next restart is found, and is the first: for every payload that enables the schedule, however
-- broken its days and time are, and every instant, `next_run_at` gives a restart that is on a day of
-- the normalised schedule, at its time and after the instant, and no such restart is on an earlier
-- day from that of the instant on.
pub next_run_at-IsNext :
    (payload : Payload) (now : Instant) (d : ℕ)
    → payload.enabled ≡ true
    → IsNext (normalise_restart_schedule payload) now now.date d (next_run_at payload now)
unfolding next_run_at normalise_restart_schedule
next_run_at-IsNext payload now d on =
    let (i, (small, wanted)) = valid_days-HasDay payload.days in
    let (k, ((low, high), day)) = coming now.date i small in
    if_both (IsNext (normalise_restart_schedule payload) now now.date d) payload.enabled
      (λ _.
        next_from-IsNext (normalise_restart_schedule payload) now d 8 now.date (now.date + k)
          (omega arith) (omega (arith, high)) (rw day (rw wanted (ground (arith, low)))))
      (λ off. absurd (ground (arith, on, off)))
