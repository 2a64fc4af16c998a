-- ===== src/Base/Strip.antt =====
-- `str.strip`: what it leaves alone, and that a second one changes nothing.
use mathlib.Core.List.{reverse-reverse, reverse-cons, reverse-append}
use Prim.Native.Nat.{ℕ, ◌≤◌}
use mathlib.Core.Path.{◌≡◌, refl, sym, ap, ◌∙◌}
use mathlib.Core.Bool.{false}
use mathlib.Core.Logic.{inl, inr}
use mathlib.Core.List.{[], ◌∷◌, ◌++◌, reverse}
use native.Mathlib.Omega.{arith}
use rpi_home_monitor.Base.Tests.{if◌then◌else◌, Bool-cases}
use rpi_home_monitor.Base.Lists.{All, All-append, length}
use rpi_home_monitor.Base.Codes.{Text, is_space, skip_spaces, strip}

-- A text without white space is not changed by `strip`.
abbrev pub IsDense : Text → Type 0
IsDense s = All (λ c. is_space c ≡ false) s

skip_spaces-dense : (s : Text) → IsDense s → skip_spaces s ≡ s
unfolding skip_spaces
skip_spaces-dense [] h = refl
skip_spaces-dense (c ∷ s) h = rw h.0

reverse-IsDense : (s : Text) → IsDense s → IsDense (reverse s)
reverse-IsDense [] h = tt
reverse-IsDense (c ∷ s) h =
    rw (reverse-cons c s)
      (All-append (λ d. is_space d ≡ false) (reverse s) (c ∷ []) (reverse-IsDense s h.1) (h.0, tt))

pub strip-dense : (s : Text) → IsDense s → strip s ≡ s
unfolding strip
strip-dense s h =
    ap (λ t. reverse (skip_spaces (reverse t))) (skip_spaces-dense s h)
    ∙ ap reverse (skip_spaces-dense (reverse s) (reverse-IsDense s h))
    ∙ reverse-reverse s

skip_spaces_idem : (s : Text) → skip_spaces (skip_spaces s) ≡ skip_spaces s
unfolding skip_spaces
skip_spaces_idem [] = refl
skip_spaces_idem (c ∷ s) = elim (Bool-cases (is_space c)) [
  | inl e ↦ rw e (skip_spaces_idem s)
  | inr e ↦ rw e (rw e)
]

length-skip_spaces-le : (s : Text) → length (skip_spaces s) ≤ length s
unfolding skip_spaces
length-skip_spaces-le [] = omega arith
length-skip_spaces-le (c ∷ s) = ground (arith, length-skip_spaces-le s)

-- What is left out at the front.
dropped : Text → Text
dropped [] = []
dropped (c ∷ s) = let rest = dropped s in if is_space c then c ∷ rest else []

dropped-append : (s : Text) → dropped s ++ skip_spaces s ≡ s
unfolding dropped skip_spaces
dropped-append [] = refl
dropped-append (c ∷ s) = elim (Bool-cases (is_space c)) [
  | inl e ↦ rw e (ap (◌∷◌ c) (dropped-append s))
  | inr e ↦ rw e
]

skip_spaces_shorter : (c : ℕ) (t : Text) → skip_spaces t ≡ c ∷ t → ⊥
skip_spaces_shorter c t h = omega (arith, ap length h, length-skip_spaces-le t)

skip_spaces-prefix : (x y : Text) → skip_spaces (x ++ y) ≡ x ++ y → skip_spaces x ≡ x
unfolding skip_spaces
skip_spaces-prefix [] y h = refl
skip_spaces-prefix (c ∷ x) y h = elim (Bool-cases (is_space c)) [
  | inl e ↦ absurd (skip_spaces_shorter c (x ++ y) (rw e at h))
  | inr e ↦ rw e
]

pub strip_idem : (s : Text) → strip (strip s) ≡ strip s
unfolding strip
strip_idem s =
    let u = skip_spaces s in
    let r = reverse u in
    let w = skip_spaces r in
    let whole : reverse w ++ reverse (dropped r) ≡ u =
      sym (reverse-append (dropped r) w) ∙ ap reverse (dropped-append r) ∙ reverse-reverse u in
    let front : skip_spaces (reverse w) ≡ reverse w =
      skip_spaces-prefix (reverse w) (reverse (dropped r))
        (ap skip_spaces whole ∙ skip_spaces_idem s ∙ sym whole) in
    ap (λ z. reverse (skip_spaces (reverse z))) front
    ∙ ap (λ z. reverse (skip_spaces z)) (reverse-reverse w)
    ∙ ap reverse (skip_spaces_idem r)
