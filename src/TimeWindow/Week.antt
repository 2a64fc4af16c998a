-- ===== src/TimeWindow/Week.antt =====
-- Windows of a weekly schedule against the stretches of time that they stand for
-- (app/server/monitor/services/time_window.py).
use rpi_home_monitor.Base.{
  ℕ, ◌+◌, ◌-◌, ◌*◌, ◌%◌, ◌≤◌, ◌<◌, String, ◌≡◌, ◌≢◌, refl, sym, ◌∙◌, true, false, ◌&&◌, Option,
  none, some, List, Bool-cases, ◌⊎◌, ◌==◌, inl, inr, ltb, leb, ltb→lt, lt→ltb, le→leb,
  if◌then◌else◌, arith,
}
use mathlib.Core.Path.{subst}
use mathlib.Core.Bool.{true≢false}
use rpi_home_monitor.TimeWindow.{Now, weekday, ScheduleMatch, any_day, match_times}

abbrev pub day_minutes : ℕ
day_minutes = 1440

abbrev pub minute_of : Now → ℕ
minute_of now = now.date * day_minutes + now.minute

-- How many minutes after the start of its day a window ends.
abbrev pub closing : ℕ → ℕ → ℕ
closing start end = if ltb start end then end else end + day_minutes

-- The stretch of time of the window that began on a day.
abbrev pub Covers : ℕ → ℕ → Now → ℕ → Type 0
Covers start end now date =
    (date * day_minutes + start ≤ minute_of now)
    × (minute_of now < date * day_minutes + closing start end)

abbrev pub Covered : List String → ℕ → ℕ → Now → Option ScheduleMatch → Type 0
Covered days start end now none = Unit
Covered days start end now (some m) =
    (any_day (weekday m.start_date) days ≡ true) × Covers start end now m.start_date

day_before : (d : ℕ) → 0 < d → (weekday d + 6) % 7 ≡ weekday (d - 1)
day_before d h = omega arith

some≢none : {A : Type 0} {a : A} → some a ≢ none
some≢none n = cc

Nat_cases : (a b : ℕ) → (a ≡ b) ⊎ (a ≢ b)
Nat_cases a b = elim (Bool-cases (a == b)) [
  | inl same ↦ inl (ground arith)
  | inr other ↦ inr (λ e. ground arith)
]

module _ (days : List String) (start end : ℕ) (now : Now) where
  -- A window within one day.
  day_Covered :
      (idx : ℕ)
      → ltb start end ≡ true
      → Covered days start end now (
          if any_day (weekday now.date) days && (leb start now.minute && ltb now.minute end)
          then some (record { index = idx; start_date = now.date; overnight = false })
          else none)
  day_Covered idx w =
      elim (Bool-cases
        (any_day (weekday now.date) days && (leb start now.minute && ltb now.minute end))) [
          | inl hit ↦ rw hit (ground arith, (ground arith, rw w (ground arith)))
          | inr miss ↦ rw miss tt
        ]

  -- A window over midnight.
  night_Covered :
      (idx : ℕ)
      → 0 < now.date
      → start < day_minutes
      → now.minute < day_minutes
      → ltb start end ≡ false
      → Covered days start end now (
          if any_day (weekday now.date) days && leb start now.minute
          then some (record { index = idx; start_date = now.date; overnight = true })
          else (if any_day ((weekday now.date + 6) % 7) days && ltb now.minute end
              then some (record { index = idx; start_date = now.date - 1; overnight = true })
              else none))
  night_Covered idx h a c w =
      elim (Bool-cases (any_day (weekday now.date) days && leb start now.minute)) [
        | inl late ↦ rw late (ground arith, (ground arith, rw w (ground arith)))
        | inr not_late ↦
            rw not_late
              (elim (Bool-cases (any_day ((weekday now.date + 6) % 7) days && ltb now.minute end)) [
                | inl early ↦
                    let e = day_before now.date h in
                    rw early (rw (← e) (ground arith), (ground arith, rw w (ground arith)))
                | inr miss ↦ rw miss tt
              ])
      ]

  match_times-Covered :
      (idx : ℕ)
      → 0 < now.date
      → start < day_minutes
      → now.minute < day_minutes
      → Covered days start end now (match_times idx days start end now)
  unfolding match_times
  match_times-Covered idx h a c = elim (Bool-cases (ltb start end)) [
    | inl w ↦ rw w (day_Covered idx w)
    | inr w ↦ rw w (night_Covered idx h a c w)
  ]

  -- A window that matches covers the instant: the day on which it began, as it is reported, is one of
  -- its days, and the instant lies between the start on that day and the next end after it. The times
  -- are below 24:00, as `parse_hhmm` returns them, and the instant is not on day 0.
  pub match_times-Covers :
      (idx : ℕ) (m : ScheduleMatch)
      → 0 < now.date
      → start < day_minutes
      → now.minute < day_minutes
      → match_times idx days start end now ≡ some m
      → (any_day (weekday m.start_date) days ≡ true) × Covers start end now m.start_date
  match_times-Covers idx m h a c e =
      subst (Covered days start end now) e (match_times-Covered idx h a c)

  within_day :
      (date : ℕ)
      → end < day_minutes
      → now.minute < day_minutes
      → ltb start end ≡ true
      → Covers start end now date
      → date ≡ now.date
  within_day date b c w (from_start, to_end) =
      let later = ltb→lt start end w in
      let close : closing start end ≡ end = rw w refl in omega (arith, from_start, to_end, close)

  before_end :
      (date : ℕ)
      → ltb start end ≡ true
      → minute_of now < date * day_minutes + closing start end
      → date ≡ now.date
      → ltb now.minute end ≡ true
  before_end date w to_end e =
      let close : closing start end ≡ end = rw w refl in
      lt→ltb now.minute end (omega (arith, to_end, close, e))

  -- Past midnight, or on the day itself when `not_late` is wrong.
  early_found :
      (date : ℕ)
      → 0 < now.date
      → end < day_minutes
      → now.minute < day_minutes
      → any_day (weekday date) days ≡ true
      → ltb start end ≡ false
      → Covers start end now date
      → (any_day (weekday now.date) days && leb start now.minute) ≡ false
      → (m : ScheduleMatch)
      → (if any_day ((weekday now.date + 6) % 7) days && ltb now.minute end then some m else none)
        ≢ none
  early_found date h b c on w (from_start, to_end) not_late m = elim (Nat_cases date now.date) [
    | inl same ↦
        let t : any_day (weekday now.date) days ≡ true =
          subst (λ d. any_day (weekday d) days ≡ true) same on in
        let l = le→leb start now.minute (omega (arith, from_start, same)) in
        absurd (true≢false (sym (rw t l) ∙ not_late))
    | inr other ↦
        let close : closing start end ≡ end + day_minutes = rw w refl in
        let e : (weekday now.date + 6) % 7 ≡ weekday date =
          omega (arith, from_start, to_end, close, other, h) in
        rw e (
          rw on (
            rw (lt→ltb now.minute end (omega (arith, from_start, to_end, close, other, h)))
              (λ n. some≢none n)))
  ]

  -- Every instant that a window covers is matched: if a day of the window is such that the instant
  -- lies between the start on that day and the next end after it, the window matches. The times are
  -- below 24:00, as `parse_hhmm` returns them, and the instant is not on day 0.
  pub match_times_found :
      (idx date : ℕ)
      → 0 < now.date
      → end < day_minutes
      → now.minute < day_minutes
      → any_day (weekday date) days ≡ true
      → Covers start end now date
      → match_times idx days start end now ≢ none
  unfolding match_times
  match_times_found idx date h b c on covers = elim (Bool-cases (ltb start end)) [
    | inl w ↦
        let later = ltb→lt start end w in
        let e : date ≡ now.date = within_day date b c w covers in
        let t : any_day (weekday now.date) days ≡ true =
          subst (λ d. any_day (weekday d) days ≡ true) e on in
        let (from_start, to_end) = subst (Covers start end now) e covers in
        rw w (
          rw t (
            rw (le→leb start now.minute (omega (arith, from_start)))
              (rw (before_end now.date w to_end refl) (λ n. some≢none n))))
    | inr w ↦ rw w (elim (Bool-cases (any_day (weekday now.date) days && leb start now.minute)) [
      | inl late ↦ rw late (λ n. some≢none n)
      | inr not_late ↦ rw not_late (early_found date h b c on w covers not_late _)
    ])
  ]
