-- ===== src/Webhooks/Degraded.antt =====
-- When a webhook counts as degraded (app/server/monitor/services/webhook_delivery_service.py).
use rpi_home_monitor.Base.{
  ℕ, ◌+◌, String, ◌≡◌, refl, ◌∙◌, ap, Bool, true, false, Option, none, some, List, [], ◌∷◌, leb,
  str_eq, Bool-cases, inl, inr, if◌then◌else◌, ◌==◌, arith,
}
use rpi_home_monitor.Webhooks.{
  Destination, degraded_failure_threshold, get_destination, mark, mark_delivery_result,
}

-- The results of deliveries to a destination, the oldest first, with their times: the settings behind
-- them, and how many degraded events they wrote.
unfoldable pub mark_all : String → List (Bool × String) → List Destination → List Destination × ℕ
mark_all k [] rows = (rows, 0)
mark_all k ((success, at) ∷ results) rows =
    let (rows', degraded_now) = mark_delivery_result k success at rows in
    let (rows'', events) = mark_all k results rows' in
    (rows'', if degraded_now then events + 1 else events)

-- The failures since the last success, where there were n before.
unfoldable pub failures_since : List (Bool × String) → ℕ → ℕ
failures_since [] n = n
failures_since ((true, at) ∷ results) n = failures_since results 0
failures_since ((false, at) ∷ results) n = failures_since results (n + 1)

-- How many of the results are the fifth failure in a row.
unfoldable pub fifth_failures : List (Bool × String) → ℕ → ℕ
fifth_failures [] n = 0
fifth_failures ((true, at) ∷ results) n = fifth_failures results 0
fifth_failures ((false, at) ∷ results) n =
    let rest = fifth_failures results (n + 1) in if n + 1 == 5 then rest + 1 else rest

-- The flag agrees with the count of failures in a row.
abbrev pub IsMarked : Destination → Type 0
IsMarked d = d.degraded ≡ leb degraded_failure_threshold d.consecutive_failures

mark-IsMarked :
    (success : Bool) (at : String) (d : Destination) → IsMarked d → IsMarked (mark success at d).0
unfolding mark
mark-IsMarked true at d h = refl
mark-IsMarked false at d h = rw h (ground arith)

-- A failure reports a degraded destination when it is the fifth in a row.
mark-fifth :
    (at : String) (d : Destination)
    → IsMarked d
    → (mark false at d).1 ≡ (d.consecutive_failures + 1 == 5)
unfolding mark
mark-fifth at d h = rw h (ground arith)

mark-id : (success : Bool) (at : String) (d : Destination) → (mark success at d).0.id ≡ d.id
unfolding mark
mark-id true at d = refl
mark-id false at d = refl

abbrev Marked : String → Bool → String → Destination → List Destination × Bool → Type 0
Marked k success at d (rows, degraded_now) =
    (get_destination k rows ≡ some (mark success at d).0) × (degraded_now ≡ (mark success at d).1)

mark_delivery_result-get_destination :
    (k : String) (success : Bool) (at : String) (d : Destination) (rows : List Destination)
    → get_destination k rows ≡ some d
    → Marked k success at d (mark_delivery_result k success at rows)
unfolding get_destination mark_delivery_result
mark_delivery_result-get_destination k success at d [] h = absurd (cc h)
mark_delivery_result-get_destination k success at d (x ∷ rows) h =
    elim (Bool-cases (str_eq x.id k)) [
      | inl same ↦
          let first : str_eq (mark success at x).0.id k ≡ true = rw (mark-id success at x) same in
          let found_first : some x ≡ some d = (rw same at h) in
          let found : x ≡ d = cc found_first in
          rw same (
            rw first
              (ap (λ y. some (mark success at y).0) found, ap (λ y. (mark success at y).1) found))
      | inr other ↦
          rw other
            (rw other (mark_delivery_result-get_destination k success at d rows (rw other at h)))
    ]

-- What the settings say of a destination: its failures in a row, and whether it is degraded.
abbrev pub standing : Option Destination → Option (ℕ × Bool)
standing none = none
standing (some d) = some (d.consecutive_failures, d.degraded)

abbrev pub IsCounted : String → List (Bool × String) → ℕ → List Destination × ℕ → Type 0
IsCounted k results n (rows, events) =
    let failures = failures_since results n in
    (standing (get_destination k rows) ≡ some (failures, leb degraded_failure_threshold failures))
    × (events ≡ fifth_failures results n)

-- Which webhook counts as degraded: after any deliveries to a destination whose flag agrees with its
-- count, the settings hold the number of failures since the last success, the destination is marked
-- as degraded exactly if these are five or more, and a degraded event was written at each fifth
-- failure in a row and at no other result.
pub mark_all-IsCounted :
    (k : String) (results : List (Bool × String)) (d : Destination) (rows : List Destination)
    → get_destination k rows ≡ some d
    → IsMarked d
    → IsCounted k results d.consecutive_failures (mark_all k results rows)
unfolding mark mark_all failures_since fifth_failures
mark_all-IsCounted k [] d rows h m =
    (ap standing h ∙ ap (λ b. some (d.consecutive_failures, b)) m, refl)
mark_all-IsCounted k ((true, at) ∷ results) d rows h m =
    let (kept, event) = mark_delivery_result-get_destination k true at d rows h in
    let (rows', degraded_now) = mark_delivery_result k true at rows in
    let (stands, counted) =
      mark_all-IsCounted k results (mark true at d).0 rows' kept (mark-IsMarked true at d m) in
    (stands, ground (arith, event, counted))
mark_all-IsCounted k ((false, at) ∷ results) d rows h m =
    let (kept, event) = mark_delivery_result-get_destination k false at d rows h in
    let (rows', degraded_now) = mark_delivery_result k false at rows in
    let (stands, counted) =
      mark_all-IsCounted k results (mark false at d).0 rows' kept (mark-IsMarked false at d m) in
    (stands, rw event (rw (mark-fifth at d m) (ground (arith, counted))))
