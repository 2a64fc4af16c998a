-- ===== src/OtaPolicy/Install.antt =====
-- What the policy of `ota_policy.py` lets be installed over what.
use rpi_home_monitor.Base.{
  ◌≤◌, ◌<◌, ◌≡◌, ◌≢◌, refl, sym, ap, ◌∙◌, Bool, true, false, ◌||◌, Option, some, none, [], ◌∷◌,
  Text, text_eq, strip, skip_spaces, is_empty, arith, inl, inr, ◌⊎◌, Bool-cases,
}
use rpi_home_monitor.Base.Strip.{strip_idem}
use rpi_home_monitor.OtaPolicy.{
  Sign, below, level, above, ParsedVersion, Release, parse, read_base, number, skip_v, compare_num,
  compare_parsed, compare_versions, strip_build_profile_suffix, is_level, versions_match, upgrade,
  classify_update, is_blocked_downgrade, ◌>>=◌,
}
use rpi_home_monitor.OtaPolicy.Order.{text_eq_iff, flip, compare_versions-flip}
use rpi_home_monitor.OtaPolicy.Prefix.{
  bind-eq-some, base_of, base_of-strip_build_profile, release, base_of-parse,
}

-- The numbers of one release do not exceed those of another, read from the left.
abbrev pub AtMost : Release → Release → Type 0
AtMost a b =
    (a.major < b.major)
    ⊎ ((a.major ≡ b.major) × ((a.minor < b.minor) ⊎ ((a.minor ≡ b.minor) × (a.patch ≤ b.patch))))

AtMost-trans : (a b c : Release) → AtMost a b → AtMost b c → AtMost a c
AtMost-trans a b c p q = ground arith

level-release : (p q : ParsedVersion) → compare_parsed p q ≡ level → release p ≡ release q
unfolding compare_parsed compare_num
level-release p q h = ground arith

not_below-AtMost :
    (p q : ParsedVersion) → compare_parsed q p ≢ below → AtMost (release p) (release q)
unfolding compare_parsed compare_num
not_below-AtMost p q h = ground arith

-- The test of one pair of candidates.
abbrev same_image : Text → Text → Bool
same_image x y = text_eq x y || is_level (compare_versions x y)

level-base_of : (x y : Text) → compare_versions x y ≡ some level → base_of x ≡ base_of y
unfolding compare_versions
level-base_of x y h =
    let (p, ep, hp) = bind-eq-some (parse x) _ h in
    let (q, eq, hq) = bind-eq-some (parse y) _ hp in
    base_of-parse x p ep ∙ ap some (level-release p q (cc)) ∙ sym (base_of-parse y q eq)

level_of : (o : Option Sign) → is_level o ≡ true → o ≡ some level
level_of (some level) h = refl
level_of (some below) h = cc
level_of (some above) h = cc
level_of none h = cc

same_image-base_of : (x y : Text) → same_image x y ≡ true → base_of x ≡ base_of y
same_image-base_of x y h = elim (Bool-cases (text_eq x y)) [
  | inl e ↦ ap base_of ((text_eq_iff x y).0 e)
  | inr e ↦ level-base_of x y (level_of _ (rw e at h))
]

same_image_comm : (x y : Text) → same_image y x ≡ same_image x y
same_image_comm x y = ground (arith, text_eq_iff x y, text_eq_iff y x, compare_versions-flip x y)

versions_match-base_of : (x y : Text) → versions_match x y ≡ true → base_of x ≡ base_of y
unfolding versions_match
versions_match-base_of x y h = elim (Bool-cases (same_image x y)) [
  | inl e ↦ same_image-base_of x y e
  | inr e ↦
      sym (base_of-strip_build_profile x)
      ∙ same_image-base_of (strip_build_profile_suffix x) (strip_build_profile_suffix y)
          (ground arith)
      ∙ base_of-strip_build_profile y
]

parse-strip : (v : Text) → parse (strip v) ≡ parse v
unfolding parse
parse-strip v = rw (strip_idem v)

compare-strip : (v w : Text) → compare_versions (strip v) (strip w) ≡ compare_versions v w
unfolding compare_versions
compare-strip v w = rw (parse-strip v, parse-strip w)

-- What is allowed is the same image, or not below the current version.
allowed_cases :
    (current target : Text)
    → (classify_update current target).allowed ≡ true
    → (versions_match (strip current) (strip target) ≡ true)
      ⊎ (compare_versions target current ≢ some below)
unfolding classify_update
allowed_cases current target h = ground (arith, compare-strip target current)

-- An update between two versions that can be parsed is allowed only if the numbers of the
-- target's release, read from the left, are not below those of the current one.
pub allowed_release :
    (current target : Text) (p q : ParsedVersion)
    → parse current ≡ some p
    → parse target ≡ some q
    → (classify_update current target).allowed ≡ true
    → AtMost (release p) (release q)
allowed_release current target p q from to h = elim (allowed_cases current target h) [
  | inl same ↦
      let e : some (release p) ≡ some (release q) =
        sym (base_of-parse (strip current) p (parse-strip current ∙ from))
        ∙ versions_match-base_of (strip current) (strip target) same
        ∙ base_of-parse (strip target) q (parse-strip target ∙ to) in
      let f : release p ≡ release q = cc in ground (arith, f)
  | inr ordered ↦
      not_below-AtMost p q (λ b. ordered (unfold compare_versions in rw (to, from) (ap some b)))
]

-- A device that installs one allowed update after another, each with a version that can be
-- parsed.
pub data Updates (first : Text) (p : ParsedVersion) : Text → ParsedVersion → Type 0 where
  start : Updates first p first p
  install :
      {current : Text} {c : ParsedVersion} (target : Text) (q : ParsedVersion)
      → Updates first p current c
      → parse current ≡ some c
      → parse target ≡ some q
      → (classify_update current target).allowed ≡ true
      → Updates first p target q

-- However many allowed updates a device installs one after another, between versions that can
-- be parsed, its release numbers never fall below those that it started with.
pub no_downgrade :
    {first : Text} {p : ParsedVersion} {last : Text} {q : ParsedVersion}
    → Updates first p last q
    → AtMost (release p) (release q)
no_downgrade start = ground arith
no_downgrade {p = p} (install {current = current} {c = c} target q before from to allowed) =
    AtMost-trans (release p) (release c) (release q) (no_downgrade before)
      (allowed_release current target c q from to allowed)

flipped : (o : Option Sign) → (o >>= λ s. some (flip s)) ≡ some above → o ≡ some below
flipped (some below) h = refl
flipped (some level) h = cc
flipped (some above) h = cc
flipped none h = cc

no_parse_of_empty : (t u : Text) (s : Sign) → compare_versions t u ≡ some s → is_empty t ≡ false
unfolding compare_versions parse strip skip_spaces read_base number skip_v
no_parse_of_empty [] u s h = cc
no_parse_of_empty (c ∷ t) u s h = refl

versions_match_back :
    (x y : Text) → is_empty y ≡ false → versions_match x y ≡ false → versions_match y x ≡ false
unfolding versions_match
versions_match_back x y n h = ground (
  arith,
  same_image_comm x y,
  same_image_comm (strip_build_profile_suffix x) (strip_build_profile_suffix y),
)

upgrade_cases :
    (current target : Text)
    → (classify_update current target).relation ≡ upgrade
    → (versions_match (strip current) (strip target) ≡ false)
      × (compare_versions (strip target) (strip current) ≡ some above)
unfolding classify_update
upgrade_cases current target h = ground arith

-- Whatever counts as an upgrade in one direction is a blocked downgrade in the other.
pub upgrade_blocks_back :
    (current target : Text)
    → (classify_update current target).relation ≡ upgrade
    → is_blocked_downgrade target current ≡ true
unfolding is_blocked_downgrade classify_update
upgrade_blocks_back current target h =
    let (differ, ordered) = upgrade_cases current target h in
    let back = flipped _ (sym (compare_versions-flip (strip current) (strip target)) ∙ ordered) in
    ground (
      arith,
      back,
      versions_match_back (strip current) (strip target)
          (no_parse_of_empty (strip target) (strip current) above ordered) differ,
    )
