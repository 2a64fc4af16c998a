-- ===== src/OtaPolicy/Prefix.antt =====
-- Readers of `ota_policy.py` on a text with a tail: a build profile behind a version changes
-- nothing of the three numbers that it begins with.
use rpi_home_monitor.Base.{
  ℕ, ◌+◌, ◌*◌, ◌-◌, ◌≡◌, refl, sym, ap, ◌∙◌, true, false, Option, some, none, [], ◌∷◌, ◌++◌, Text,
  text_eq, strip, is_space, is_digit, is_empty, All-append, ◌==◌, arith, inl, inr, Bool-cases,
  if◌then◌else◌,
}
use mathlib.Core.List.{append_assoc}
use mathlib.Core.Path.{subst}
use rpi_home_monitor.Base.Strip.{IsDense, strip-dense}
use rpi_home_monitor.OtaPolicy.{
  ParsedVersion, Release, ◌>>=◌, digits, number, expect, skip_v, read_base, read_prerelease, parse,
  span_digits, some_digits, span_v, span_base, is_profile, strip_build_profile_suffix,
}

-- Readers that are run on `s ++ b'-' ∷ t` stop where they stop on `s`.
abbrev with_tail {ℓ} : {A : Type ℓ} → Text → Option (A × Text) → Option (A × Text)
with_tail tail none = none
with_tail tail (some (a, rest)) = some (a, rest ++ tail)

abbrev tail_of : Text → Text
tail_of t = b'-' ∷ t

digits-tail :
    (n : ℕ) (s t : Text) → digits n (s ++ tail_of t) ≡ ((digits n s).0, (digits n s).1 ++ tail_of t)
unfolding digits
digits-tail n [] t = refl
digits-tail n (c ∷ s) t = elim (Bool-cases (is_digit c)) [
  | inl e ↦ rw e (digits-tail (n * 10 + (c - b'0')) s t)
  | inr e ↦ rw e
]

number-tail : (s t : Text) → number (s ++ tail_of t) ≡ with_tail (tail_of t) (number s)
unfolding number digits
number-tail [] t = refl
number-tail (c ∷ s) t = elim (Bool-cases (c == b'0')) [
  | inl e ↦ rw e
  | inr e ↦ rw e (elim (Bool-cases (is_digit c)) [
    | inl d ↦ rw d (ap some (digits-tail (c - b'0') s t))
    | inr d ↦ rw d
  ])
]

expect-tail :
    (k : ℕ) (s t : Text)
    → (k == b'-') ≡ false
    → expect k (s ++ tail_of t) ≡ (expect k s >>= λ rest. some (rest ++ tail_of t))
unfolding expect
expect-tail k [] t h = ground arith
expect-tail k (c ∷ s) t h = ground arith

skip_v-tail : (s t : Text) → skip_v (s ++ tail_of t) ≡ skip_v s ++ tail_of t
unfolding skip_v
skip_v-tail [] t = refl
skip_v-tail (c ∷ s) t = ground arith

module _ {B : Type 0} (t : Text) where
  number_bind-tail {ℓ} :
      {A : Type ℓ} (o : Option (A × Text)) (k : A × Text → Option (B × Text))
      → ((a : A) (rest : Text) → k (a, rest ++ tail_of t) ≡ with_tail (tail_of t) (k (a, rest)))
      → (with_tail (tail_of t) o >>= k) ≡ with_tail (tail_of t) (o >>= k)
  number_bind-tail none k h = refl
  number_bind-tail (some (a, rest)) k h = h a rest

  expect_bind-tail :
      (o : Option Text) (k : Text → Option (B × Text))
      → ((rest : Text) → k (rest ++ tail_of t) ≡ with_tail (tail_of t) (k rest))
      → ((o >>= λ rest. some (rest ++ tail_of t)) >>= k) ≡ with_tail (tail_of t) (o >>= k)
  expect_bind-tail none k h = refl
  expect_bind-tail (some rest) k h = h rest

dot_bind-tail :
    (s t : Text) (k : Text → Option (Release × Text))
    → ((rest : Text) → k (rest ++ tail_of t) ≡ with_tail (tail_of t) (k rest))
    → (expect b'.' (s ++ tail_of t) >>= k) ≡ with_tail (tail_of t) (expect b'.' s >>= k)
dot_bind-tail s t k h =
    ap (λ o. o >>= k) (expect-tail b'.' s t refl) ∙ expect_bind-tail t (expect b'.' s) k h

num_bind-tail :
    (s t : Text) (k : ℕ × Text → Option (Release × Text))
    → ((n : ℕ) (rest : Text) → k (n, rest ++ tail_of t) ≡ with_tail (tail_of t) (k (n, rest)))
    → (number (s ++ tail_of t) >>= k) ≡ with_tail (tail_of t) (number s >>= k)
num_bind-tail s t k h = ap (λ o. o >>= k) (number-tail s t) ∙ number_bind-tail t (number s) k h

read_base-tail : (s t : Text) → read_base (s ++ tail_of t) ≡ with_tail (tail_of t) (read_base s)
unfolding read_base
read_base-tail s t = rw (skip_v-tail s t) (
    num_bind-tail (skip_v s) t _ λ major s. dot_bind-tail s t _ λ s.
      num_bind-tail s t _ λ minor s. dot_bind-tail s t _ λ s. num_bind-tail s t _ λ patch s. refl)

-- The three numbers that a version begins with.
unfoldable pub base_of : Text → Option Release
base_of version = read_base (strip version) >>= λ x. some x.0

base-with_tail :
    (o : Option (Release × Text)) (t : Text)
    → (with_tail t o >>= λ x. some x.0) ≡ (o >>= λ x. some x.0)
base-with_tail none t = refl
base-with_tail (some x) t = refl

-- What `span_base` reads is the text before its rest, and it is dense.
span_digits-append : (s : Text) → (span_digits s).0 ++ (span_digits s).1 ≡ s
unfolding span_digits
span_digits-append [] = refl
span_digits-append (c ∷ s) = elim (Bool-cases (is_digit c)) [
  | inl e ↦ rw e (ap (◌∷◌ c) (span_digits-append s))
  | inr e ↦ rw e
]

span_digits-IsDense : (s : Text) → IsDense (span_digits s).0
unfolding span_digits
span_digits-IsDense [] = tt
span_digits-IsDense (c ∷ s) = elim (Bool-cases (is_digit c)) [
  | inl e ↦ rw e (ground arith, span_digits-IsDense s)
  | inr e ↦ rw e tt
]

-- A reader that takes a dense piece from the front.
abbrev Takes : Text → Text → Text → Type 0
Takes s piece rest = (s ≡ piece ++ rest) × IsDense piece

some_digits-Takes : (s a rest : Text) → some_digits s ≡ some (a, rest) → Takes s a rest
unfolding some_digits
some_digits-Takes s a rest h = elim (Bool-cases (is_empty (span_digits s).0)) [
  | inl e ↦ cc
  | inr e ↦
      let p : (span_digits s).0 ≡ a = ground (arith, h, e) in
      let q : (span_digits s).1 ≡ rest = ground (arith, h, e) in
      (
        sym (span_digits-append s) ∙ ap (λ x. x ++ (span_digits s).1) p ∙ ap (λ y. a ++ y) q,
        subst IsDense p (span_digits-IsDense s),
      )
]

expect-takes : (k : ℕ) (s rest : Text) → expect k s ≡ some rest → s ≡ k ∷ rest
unfolding expect
expect-takes k [] rest h = cc
expect-takes k (c ∷ s) rest h = ground arith

span_v-Takes : (s : Text) → Takes s (span_v s).0 (span_v s).1
unfolding span_v
span_v-Takes [] = (refl, tt)
span_v-Takes (c ∷ s) = elim (Bool-cases (c == b'v')) [
  | inl e ↦ rw e (refl, (ground arith, tt))
  | inr e ↦ rw e (refl, tt)
]

pub bind-eq-some {ℓ κ} :
    {A : Type ℓ} {B : Type κ} (o : Option A) (k : A → Option B) {b : B}
    → (o >>= k) ≡ some b
    → (a : A) × (o ≡ some a) × (k a ≡ some b)
bind-eq-some none k h = cc
bind-eq-some (some a) k h = (a, refl, h)

abbrev joined : Text → Text → Text → Text → Text
joined v a b c = v ++ (a ++ (b'.' ∷ (b ++ (b'.' ∷ c))))

joined-append :
    (v a b c rest : Text)
    → v ++ (a ++ (b'.' ∷ (b ++ (b'.' ∷ (c ++ rest))))) ≡ joined v a b c ++ rest
joined-append v a b c rest = simp append_assoc

joined-IsDense :
    (v a b c : Text) → IsDense v → IsDense a → IsDense b → IsDense c → IsDense (joined v a b c)
joined-IsDense v a b c hv ha hb hc =
    let dense = λ (d : ℕ). is_space d ≡ false in
    All-append dense v _ hv (All-append dense a _ ha (refl, All-append dense b _ hb (refl, hc)))

pub span_base-Takes : (s base rest : Text) → span_base s ≡ some (base, rest) → Takes s base rest
unfolding span_base
span_base-Takes s base rest h =
    let (v_front, v_dense) = span_v-Takes s in
    let (a, pa, ha) = bind-eq-some (some_digits (span_v s).1) _ h in
    let (s₂, p₂, h₂) = bind-eq-some (expect b'.' a.1) _ ha in
    let (b, pb, hb) = bind-eq-some (some_digits s₂) _ h₂ in
    let (s₄, p₄, h₄) = bind-eq-some (expect b'.' b.1) _ hb in
    let (c, pc, hc) = bind-eq-some (some_digits s₄) _ h₄ in
    let (ea, da) = some_digits-Takes _ a.0 a.1 pa in
    let (eb, db) = some_digits-Takes _ b.0 b.1 pb in
    let (ec, dc) = some_digits-Takes _ c.0 c.1 pc in
    let read : joined (span_v s).0 a.0 b.0 c.0 ≡ base = cc in
    (
      cc (
        expect-takes b'.' a.1 s₂ p₂,
        expect-takes b'.' b.1 s₄ p₄,
        joined-append (span_v s).0 a.0 b.0 c.0 c.1,
      ),
      subst IsDense read (joined-IsDense (span_v s).0 a.0 b.0 c.0 v_dense da db dc),
    )

profile-tail : (rest : Text) → is_profile rest ≡ true → (t : Text) × (rest ≡ tail_of t)
unfolding text_eq
profile-tail [] h = cc
profile-tail (c ∷ rest) h = (rest, ground arith)

-- A build profile changes nothing of the three numbers.
pub base_of-strip_build_profile :
    (version : Text) → base_of (strip_build_profile_suffix version) ≡ base_of version
unfolding strip_build_profile_suffix
base_of-strip_build_profile version = go (span_base (strip version)) refl
  where
    go :
        (o : Option (Text × Text))
        → span_base (strip version) ≡ o
        → base_of (elim o [
          | none ↦ version
          | some (base, rest) ↦ if is_profile rest then base else version
        ])
          ≡ base_of version
    go none e = refl
    go (some (base, rest)) e = elim (Bool-cases (is_profile rest)) [
      | inl profile ↦
          let (front, dense) = span_base-Takes (strip version) base rest e in
          let (t, et) = profile-tail rest profile in
          rw profile (
            unfold base_of in
            rw (strip-dense base dense, front, et)
              (sym (
                ap (λ o. o >>= λ x. some x.0) (read_base-tail base t)
                ∙ base-with_tail (read_base base) (tail_of t))))
      | inr plain ↦ rw plain
    ]

-- A version that can be parsed begins with the numbers of its parse.
abbrev pub release : ParsedVersion → Release
release p = record { major = p.major; minor = p.minor; patch = p.patch }

pub base_of-parse : (v : Text) (p : ParsedVersion) → parse v ≡ some p → base_of v ≡ some (release p)
unfolding base_of parse
base_of-parse v p h =
    let (b, pb, hb) = bind-eq-some (read_base (strip v)) _ h in
    let (pre, pp, hp) = bind-eq-some (read_prerelease b.1) _ hb in rw pb (cc)
