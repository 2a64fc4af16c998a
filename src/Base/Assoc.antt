-- ===== src/Base/Assoc.antt =====
-- A Python `dict` with text keys, as an association list in insertion order.
use Prim.Native.String.{String}
use mathlib.Core.Path.{◌≡◌, refl, ap}
use mathlib.Core.Bool.{Bool, true, false, ◌||◌}
use mathlib.Core.Option.{Option, none, some}
use mathlib.Core.List.{List, [], ◌∷◌}
use native.Mathlib.Omega.{arith}
use text.Mathlib.Text.{◌==◌ as str_eq}
use text.Mathlib.TextEquality.{eq_iff}
use mathlib.Core.Logic.{inl, inr}
use rpi_home_monitor.Base.Tests.{if◌then◌else◌, Bool-cases}

abbrev pub Dict {ℓ} : Type ℓ → Type ℓ
Dict V = List (String × V)

module _ {ℓ} {A : Type ℓ} where
  abbrev pub is_empty : List A → Bool
  is_empty [] = true
  is_empty (x ∷ xs) = false

  abbrev pub nonempty : List A → Bool
  nonempty [] = false
  nonempty (x ∷ xs) = true

  -- `d.get(k, [])`, after the lookup.
  abbrev pub or_empty : Option (List A) → List A
  or_empty none = []
  or_empty (some xs) = xs

module _ {ℓ} {V : Type ℓ} where
  unfoldable pub get : String → Dict V → Option V
  get k [] = none
  get k ((j, v) ∷ d) = if str_eq j k then some v else get k d

  -- `d[k] = v`
  unfoldable pub put : String → V → Dict V → Dict V
  put k v [] = (k, v) ∷ []
  put k v ((j, w) ∷ d) = if str_eq j k then (k, v) ∷ d else (j, w) ∷ put k v d

  -- `k in d`
  unfoldable pub has : String → Dict V → Bool
  has k [] = false
  has k ((j, v) ∷ d) = str_eq j k || has k d

  -- `d.pop(k, None)`
  unfoldable pub remove : String → Dict V → Dict V
  remove k [] = []
  remove k ((j, v) ∷ d) = let rest = remove k d in if str_eq j k then rest else (j, v) ∷ rest

  -- `{k: v for k, v in d.items() if p(v)}`
  unfoldable pub keep_values : (V → Bool) → Dict V → Dict V
  keep_values p [] = []
  keep_values p ((j, v) ∷ d) = let rest = keep_values p d in if p v then (j, v) ∷ rest else rest

  pub get-put :
      (k j : String) (v : V) (d : Dict V)
      → get j (put k v d) ≡ (if str_eq k j then some v else get j d)
  unfolding get put
  get-put k j v [] = refl
  get-put k j v ((i, w) ∷ d) = ground (arith, eq_iff k j, eq_iff i k, eq_iff i j, get-put k j v d)

  pub get-remove :
      (k j : String) (d : Dict V) → get j (remove k d) ≡ (if str_eq k j then none else get j d)
  unfolding get remove
  get-remove k j [] = ground arith
  get-remove k j ((i, w) ∷ d) = ground (arith, eq_iff k j, eq_iff i k, eq_iff i j, get-remove k j d)

  pub get_stored : (k : String) (v : V) (d : Dict V) → get k (put k v d) ≡ some v
  get_stored k v d = ground (arith, get-put k k v d, (eq_iff k k).1 refl)

  pub get_removed : (k : String) (d : Dict V) → get k (remove k d) ≡ none
  get_removed k d = ground (arith, get-remove k k d, (eq_iff k k).1 refl)

  -- What a comprehension over the items leaves of a looked-up value.
  unfoldable pub only : (V → Bool) → Option V → Option V
  only p none = none
  only p (some v) = if p v then some v else none

  -- No key twice, as in every Python dict.
  abbrev pub Distinct : Dict V → Type 0
  Distinct [] = Unit
  Distinct ((j, v) ∷ d) = (has j d ≡ false) × Distinct d

  has-put : (k j : String) (v : V) (d : Dict V) → has j (put k v d) ≡ (str_eq k j || has j d)
  unfolding has put
  has-put k j v [] = refl
  has-put k j v ((i, w) ∷ d) = ground (arith, eq_iff k j, eq_iff i k, eq_iff i j, has-put k j v d)

  has-keep_values :
      (p : V → Bool) (k : String) (d : Dict V) → has k d ≡ false → has k (keep_values p d) ≡ false
  unfolding has keep_values
  has-keep_values p k [] h = refl
  has-keep_values p k ((j, v) ∷ d) h = ground (arith, has-keep_values p k d)

  pub get_of_has : (k : String) (d : Dict V) → has k d ≡ false → get k d ≡ none
  unfolding has get
  get_of_has k [] h = refl
  get_of_has k ((j, v) ∷ d) h = ground (arith, get_of_has k d)

  -- `k in d` says that a lookup finds a value.
  pub has_lem :
      (k : String) (d : Dict V) → has k d ≡ (elim (get k d) [ none ↦ false | some v ↦ true ])
  unfolding has get
  has_lem k [] = refl
  has_lem k ((j, v) ∷ d) = ground (arith, has_lem k d)

  pub put-Distinct : (k : String) (v : V) (d : Dict V) → Distinct d → Distinct (put k v d)
  unfolding has put
  put-Distinct k v [] h = (refl, tt)
  put-Distinct k v ((j, w) ∷ d) h = elim (Bool-cases (str_eq j k)) [
    | inl e ↦ rw e (rw (← (eq_iff j k).0 e) (h.0, h.1))
    | inr e ↦ rw e (ground (arith, has-put k j v d, eq_iff j k, eq_iff k j), put-Distinct k v d h.1)
  ]

  pub keep_values-Distinct : (p : V → Bool) (d : Dict V) → Distinct d → Distinct (keep_values p d)
  unfolding keep_values
  keep_values-Distinct p [] h = tt
  keep_values-Distinct p ((j, v) ∷ d) h = elim (Bool-cases (p v)) [
    | inl e ↦ rw e (has-keep_values p j d h.0, keep_values-Distinct p d h.1)
    | inr e ↦ rw e (keep_values-Distinct p d h.1)
  ]

  pub get-keep_values :
      (p : V → Bool) (k : String) (d : Dict V)
      → Distinct d
      → get k (keep_values p d) ≡ only p (get k d)
  unfolding get keep_values only
  get-keep_values p k [] h = refl
  get-keep_values p k ((j, v) ∷ d) h =
      ground (arith, eq_iff j k, get-keep_values p k d h.1, get_of_has j d h.0)

module _ {ℓ} {A : Type ℓ} where
  -- Empty values may as well be absent.
  pub or_empty-only : (o : Option (List A)) → or_empty (only nonempty o) ≡ or_empty o
  unfolding only
  or_empty-only none = refl
  or_empty-only (some []) = refl
  or_empty-only (some (x ∷ xs)) = refl

  pub keep_values-nonempty :
      (d : Dict (List A)) → keep_values nonempty (keep_values nonempty d) ≡ keep_values nonempty d
  unfolding keep_values
  keep_values-nonempty [] = refl
  keep_values-nonempty ((k, []) ∷ d) = keep_values-nonempty d
  keep_values-nonempty ((k, x ∷ xs) ∷ d) = ap (◌∷◌ (k, x ∷ xs)) (keep_values-nonempty d)

pub ruleset dict_laws = (get-put, get-remove)
