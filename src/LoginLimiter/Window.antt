-- ===== src/LoginLimiter/Window.antt =====
-- Counting the attempts of a sliding window: what pruning and truncating leave to count.
use Prim.Native.Nat.{min}
use rpi_home_monitor.Base.{
  ℕ, zero, suc, ◌+◌, ◌-◌, ◌≤◌, ◌≡◌, refl, Bool, List, [], ◌∷◌, ◌++◌, keep, length, drop, leb, All,
  arith, All-keep, All-append, inl, inr, Bool-cases, length-append, keep-append, ◌==◌,
}
use rpi_home_monitor.LoginLimiter.{last_items}

-- The attempts at `cutoff` or later.
abbrev pub recent : ℕ → List ℕ → ℕ
recent cutoff times = length (keep (λ t. leb cutoff t) times)

abbrev pub Sorted : List ℕ → Type 0
Sorted [] = Unit
Sorted (t ∷ times) = All (λ u. t ≤ u) times × Sorted times

pub recent-keep :
    (c d : ℕ) (times : List ℕ) → c ≤ d → recent d (keep (λ t. leb c t) times) ≡ recent d times
unfolding keep
recent-keep c d [] h = refl
recent-keep c d (t ∷ times) h = ground (arith, recent-keep c d times h)

pub recent-append : (c : ℕ) (xs ys : List ℕ) → recent c (xs ++ ys) ≡ recent c xs + recent c ys
recent-append c xs ys = rw (keep-append (λ t. leb c t) xs ys) (length-append _ _)

pub Sorted-keep : (p : ℕ → Bool) (times : List ℕ) → Sorted times → Sorted (keep p times)
unfolding keep
Sorted-keep p [] h = tt
Sorted-keep p (t ∷ times) h = elim (Bool-cases (p t)) [
  | inl e ↦ rw e (All-keep (λ u. t ≤ u) p times h.0, Sorted-keep p times h.1)
  | inr e ↦ rw e (Sorted-keep p times h.1)
]

pub Sorted-drop : (n : ℕ) (times : List ℕ) → Sorted times → Sorted (drop n times)
Sorted-drop zero times h = h
Sorted-drop (suc n) [] h = h
Sorted-drop (suc n) (t ∷ times) h = Sorted-drop n times h.1

pub Sorted-snoc :
    (times : List ℕ) (now : ℕ)
    → Sorted times
    → All (λ t. t ≤ now) times
    → Sorted (times ++ now ∷ [])
Sorted-snoc [] now h k = (tt, tt)
Sorted-snoc (t ∷ times) now h k =
    (All-append (λ u. t ≤ u) times (now ∷ []) h.0 (k.0, tt), Sorted-snoc times now h.1 k.1)

recent-eq-length :
    (c t : ℕ) (times : List ℕ) → c ≤ t → All (λ u. t ≤ u) times → recent c times ≡ length times
unfolding keep
recent-eq-length c t [] l h = refl
recent-eq-length c t (u ∷ times) l h = ground (arith, recent-eq-length c t times l h.1, h.0)

recent-le-length : (c : ℕ) (times : List ℕ) → recent c times ≤ length times
unfolding keep
recent-le-length c [] = omega arith
recent-le-length c (t ∷ times) = ground (arith, recent-le-length c times)

drop-nil : (n : ℕ) → drop {A = ℕ} n [] ≡ []
drop-nil zero = refl
drop-nil (suc n) = refl

-- Of a sorted list the last `b` items show up to `b` recent ones.
recent-drop :
    (b c : ℕ) (times : List ℕ)
    → Sorted times
    → recent c (drop (length times - b) times) ≡ min b (recent c times)
unfolding keep
recent-drop b c [] h = rw (drop-nil (0 - b)) (omega arith)
recent-drop b c (t ∷ times) h = elim (Bool-cases (leb b (length times))) [
  | inl many ↦
      let e : suc (length times) - b ≡ suc (length times - b) = ground arith in
      rw e (ground (arith, recent-drop b c times h.1, recent-eq-length c t times, h.0))
  | inr few ↦
      let e : suc (length times) - b ≡ 0 = ground arith in
      rw e (ground (arith, recent-le-length c (t ∷ times)))
]

pub recent-last_items :
    (b c : ℕ) (times : List ℕ)
    → Sorted times
    → min b (recent c (last_items b times)) ≡ min b (recent c times)
unfolding last_items
recent-last_items b c times h = elim (Bool-cases (b == 0)) [
  | inl zero_b ↦ rw zero_b
  | inr pos_b ↦ rw pos_b (omega (arith, recent-drop b c times h))
]
