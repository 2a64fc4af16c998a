-- ===== src/OtaPolicy/Order.antt =====
-- The comparison of `ota_policy.py` is a strict order: it flips with its arguments, and `below`
-- is transitive.
use rpi_home_monitor.Base.{
  ℕ, ◌≡◌, refl, ap, true, Option, some, none, List, [], ◌∷◌, Text, text_eq, arith, inl, inr,
  Option-cases, ◌↔◌, ◌≢◌,
}
use rpi_home_monitor.OtaPolicy.{
  Sign, below, level, above, ParsedVersion, parse, compare_num, compare_text, numeric,
  compare_ranked, compare_part, compare_parts, compare_prerelease, compare_parsed, compare_versions,
  then_by, ◌>>=◌,
}

abbrev pub flip : Sign → Sign
flip below = above
flip level = level
flip above = below

pub text_eq_iff : (s t : Text) → (text_eq s t ≡ true) ↔ (s ≡ t)
unfolding text_eq
text_eq_iff [] [] = ground arith
text_eq_iff [] (d ∷ t) = ground arith
text_eq_iff (c ∷ s) [] = ground arith
text_eq_iff (c ∷ s) (d ∷ t) = ground (arith, text_eq_iff s t)

pub compare_num-flip : (a b : ℕ) → compare_num b a ≡ flip (compare_num a b)
unfolding compare_num
compare_num-flip a b = ground arith

compare_text-flip : (s t : Text) → compare_text t s ≡ flip (compare_text s t)
unfolding compare_text
compare_text-flip [] [] = refl
compare_text-flip [] (d ∷ t) = refl
compare_text-flip (c ∷ s) [] = refl
compare_text-flip (c ∷ s) (d ∷ t) = ground (arith, compare_text-flip s t)

compare_ranked-flip :
    (a b : Option ℕ) (s t : Sign) → t ≡ flip s → compare_ranked b a t ≡ flip (compare_ranked a b s)
unfolding compare_ranked
compare_ranked-flip (some n) (some m) s t h = compare_num-flip n m
compare_ranked-flip (some n) none s t h = refl
compare_ranked-flip none (some m) s t h = refl
compare_ranked-flip none none s t h = h

compare_part-flip : (l r : Text) → compare_part r l ≡ flip (compare_part l r)
unfolding compare_part
compare_part-flip l r =
    compare_ranked-flip (numeric l) (numeric r) (compare_text l r) _ (compare_text-flip l r)

compare_parts-flip : (ls rs : List Text) → compare_parts rs ls ≡ flip (compare_parts ls rs)
unfolding compare_parts
compare_parts-flip [] [] = refl
compare_parts-flip [] (r ∷ rs) = refl
compare_parts-flip (l ∷ ls) [] = refl
compare_parts-flip (l ∷ ls) (r ∷ rs) =
    ground
      (arith, compare_parts-flip ls rs, compare_part-flip l r, text_eq_iff l r, text_eq_iff r l)

compare_prerelease-flip :
    (ls rs : List Text) → compare_prerelease rs ls ≡ flip (compare_prerelease ls rs)
unfolding compare_prerelease
compare_prerelease-flip [] [] = refl
compare_prerelease-flip [] (r ∷ rs) = refl
compare_prerelease-flip (l ∷ ls) [] = refl
compare_prerelease-flip (l ∷ ls) (r ∷ rs) = compare_parts-flip (l ∷ ls) (r ∷ rs)

pub compare_parsed-flip : (l r : ParsedVersion) → compare_parsed r l ≡ flip (compare_parsed l r)
unfolding compare_parsed
compare_parsed-flip l r = ground (
  arith,
  compare_num-flip l.major r.major,
  compare_num-flip l.minor r.minor,
  compare_num-flip l.patch r.patch,
  compare_prerelease-flip l.prerelease r.prerelease,
)

-- Swapping the arguments of the comparison swaps the result, for parseable versions and for
-- others, where neither order has a result.
pub compare_versions-flip :
    (left right : Text)
    → compare_versions right left ≡ (compare_versions left right >>= λ s. some (flip s))
unfolding compare_versions
compare_versions-flip left right = elim (Option-cases (parse left)) [
  | inl e ↦ rw e (no_result (parse right))
  | inr (l, e) ↦ rw e (one_result l (parse right))
]
  where
    no_result : (o : Option ParsedVersion) → ◌>>=◌ {B = Sign} o (λ r. none) ≡ none
    no_result none = refl
    no_result (some r) = refl

    one_result :
        (l : ParsedVersion) (o : Option ParsedVersion)
        → (o >>= λ r. some (compare_parsed r l))
          ≡ ((o >>= λ r. some (compare_parsed l r)) >>= λ s. some (flip s))
    one_result l none = refl
    one_result l (some r) = ap some (compare_parsed-flip l r)

compare_num_trans :
    (a b c : ℕ) → compare_num a b ≡ below → compare_num b c ≡ below → compare_num a c ≡ below
unfolding compare_num
compare_num_trans a b c p q = ground arith

compare_text_trans :
    (s t u : Text) → compare_text s t ≡ below → compare_text t u ≡ below → compare_text s u ≡ below
unfolding compare_text
compare_text_trans [] [] u p q = cc
compare_text_trans [] (d ∷ t) [] p q = cc
compare_text_trans [] (d ∷ t) (e ∷ u) p q = refl
compare_text_trans (c ∷ s) [] u p q = cc
compare_text_trans (c ∷ s) (d ∷ t) [] p q = cc
compare_text_trans (c ∷ s) (d ∷ t) (e ∷ u) p q = ground (arith, compare_text_trans s t u)

compare_ranked_trans :
    (a b c : Option ℕ) (s t u : Sign)
    → (s ≡ below → t ≡ below → u ≡ below)
    → compare_ranked a b s ≡ below
    → compare_ranked b c t ≡ below
    → compare_ranked a c u ≡ below
unfolding compare_ranked
compare_ranked_trans (some n) (some m) (some k) s t u h p q = compare_num_trans n m k p q
compare_ranked_trans (some n) b none s t u h p q = refl
compare_ranked_trans (some n) none (some k) s t u h p q = cc
compare_ranked_trans none (some m) c s t u h p q = cc
compare_ranked_trans none none (some k) s t u h p q = cc
compare_ranked_trans none none none s t u h p q = h p q

compare_part_trans :
    (l m r : Text) → compare_part l m ≡ below → compare_part m r ≡ below → compare_part l r ≡ below
unfolding compare_part
compare_part_trans l m r =
    compare_ranked_trans (numeric l) (numeric m) (numeric r) _ _ _ (compare_text_trans l m r)

compare_part_asym : (l r : Text) → compare_part l r ≡ below → compare_part r l ≢ below
compare_part_asym l r p q = cc (compare_part-flip l r)

compare_parts_trans :
    (ls ms rs : List Text)
    → compare_parts ls ms ≡ below
    → compare_parts ms rs ≡ below
    → compare_parts ls rs ≡ below
unfolding compare_parts
compare_parts_trans [] [] rs p q = cc
compare_parts_trans [] (m ∷ ms) [] p q = cc
compare_parts_trans [] (m ∷ ms) (r ∷ rs) p q = refl
compare_parts_trans (l ∷ ls) [] rs p q = cc
compare_parts_trans (l ∷ ls) (m ∷ ms) [] p q = cc
compare_parts_trans (l ∷ ls) (m ∷ ms) (r ∷ rs) p q = ground (
  arith,
  text_eq_iff l m,
  text_eq_iff m r,
  text_eq_iff l r,
  compare_parts_trans ls ms rs,
  compare_part_trans l m r,
  compare_part_asym l r,
  compare_part_asym l m,
)

compare_prerelease_trans :
    (ls ms rs : List Text)
    → compare_prerelease ls ms ≡ below
    → compare_prerelease ms rs ≡ below
    → compare_prerelease ls rs ≡ below
unfolding compare_prerelease
compare_prerelease_trans [] [] rs p q = cc
compare_prerelease_trans [] (m ∷ ms) rs p q = cc
compare_prerelease_trans (l ∷ ls) [] [] p q = cc
compare_prerelease_trans (l ∷ ls) [] (r ∷ rs) p q = cc
compare_prerelease_trans (l ∷ ls) (m ∷ ms) [] p q = refl
compare_prerelease_trans (l ∷ ls) (m ∷ ms) (r ∷ rs) p q =
    compare_parts_trans (l ∷ ls) (m ∷ ms) (r ∷ rs) p q

then_by_trans :
    (a b c : ℕ) (s t u : Sign)
    → (s ≡ below → t ≡ below → u ≡ below)
    → then_by (compare_num a b) s ≡ below
    → then_by (compare_num b c) t ≡ below
    → then_by (compare_num a c) u ≡ below
unfolding compare_num
then_by_trans a b c s t u h p q = ground arith

compare_parsed_trans :
    (l m r : ParsedVersion)
    → compare_parsed l m ≡ below
    → compare_parsed m r ≡ below
    → compare_parsed l r ≡ below
unfolding compare_parsed
compare_parsed_trans l m r = then_by_trans l.major m.major r.major _ _ _ (
    then_by_trans l.minor m.minor r.minor _ _ _ (
      then_by_trans l.patch m.patch r.patch _ _ _
        (compare_prerelease_trans l.prerelease m.prerelease r.prerelease)))

parsed_trans :
    (a b c : Option ParsedVersion)
    → (a >>= λ l. b >>= λ r. some (compare_parsed l r)) ≡ some below
    → (b >>= λ l. c >>= λ r. some (compare_parsed l r)) ≡ some below
    → (a >>= λ l. c >>= λ r. some (compare_parsed l r)) ≡ some below
parsed_trans none b c p q = cc
parsed_trans (some l) none c p q = cc
parsed_trans (some l) (some m) none p q = cc
parsed_trans (some l) (some m) (some r) p q = ap some (compare_parsed_trans l m r (cc) (cc))

-- The order of versions is transitive: with `left` below `middle` and `middle` below `right`,
-- `left` is below `right`, prerelease parts included.
pub compare_versions_trans :
    (left middle right : Text)
    → compare_versions left middle ≡ some below
    → compare_versions middle right ≡ some below
    → compare_versions left right ≡ some below
unfolding compare_versions
compare_versions_trans left middle right p q =
    parsed_trans (parse left) (parse middle) (parse right) p q
