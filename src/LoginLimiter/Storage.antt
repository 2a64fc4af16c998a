-- ===== src/LoginLimiter/Storage.antt =====
-- The file and the dictionary of `login_rate_limiter.py`: what one call leaves for the next.
use rpi_home_monitor.Base.{
  ℕ, String, ◌≡◌, refl, ◌∙◌, ap, List, [], ◌∷◌, get, put, keep_values, nonempty, or_empty,
  or_empty-only, Distinct, get-keep_values, keep_values-Distinct, put-Distinct, get-put, arith,
  str_eq, if◌then◌else◌,
}
use rpi_home_monitor.LoginLimiter.{
  State, timestamps, read_fields, read_state, dump_items, dump, write_state, attempts_of,
}

timestamps-dump_items : (items : List ℕ) → timestamps (dump_items items) ≡ items
unfolding timestamps dump_items
timestamps-dump_items [] = refl
timestamps-dump_items (t ∷ items) = ap (◌∷◌ t) (timestamps-dump_items items)

read-dump : (s : State) → read_fields (dump s) ≡ keep_values nonempty s
unfolding read_fields dump keep_values
read-dump [] = refl
read-dump ((k, times) ∷ s) = rw (timestamps-dump_items times) (ground (arith, read-dump s))

-- A read after a write finds what was written, but for the addresses with no attempt left.
pub read-write : (s : State) → read_state (write_state s) ≡ keep_values nonempty s
unfolding read_state write_state keep_values
read-write [] = refl
read-write (entry ∷ s) = read-dump (entry ∷ s)

pub attempts_of-read-write :
    (k : String) (s : State)
    → Distinct s
    → attempts_of k (read_state (write_state s)) ≡ attempts_of k s
attempts_of-read-write k s h =
    rw (read-write s) (
      unfold attempts_of in
      (ap or_empty (get-keep_values nonempty k s h) ∙ or_empty-only (get k s)))

pub Distinct-read-write : (s : State) → Distinct s → Distinct (read_state (write_state s))
Distinct-read-write s h = rw (read-write s) (keep_values-Distinct nonempty s h)

-- The attempts of every address after one address has been given new ones.
pub attempts_of-put :
    (k j : String) (times : List ℕ) (s : State)
    → Distinct s
    → attempts_of j (read_state (write_state (put k times s)))
      ≡ (if str_eq k j then times else attempts_of j s)
attempts_of-put k j times s h =
    attempts_of-read-write j (put k times s) (put-Distinct k times s h)
    ∙ unfold attempts_of in ground (arith, get-put k j times s)
