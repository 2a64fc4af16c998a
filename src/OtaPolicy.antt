-- ===== src/OtaPolicy.antt =====
-- The ordering policy of OTA bundles (app/shared/ota_policy/ota_policy.py, which the build copies
-- into both packages). A version is a text of ASCII code points; the regular expressions are
-- deterministic readers, since no character that ends a group can stand inside it. Python's -1,
-- 0 and 1 are the constructors of `Sign`.
pub mod Order
pub mod Prefix
pub mod Install
mod Tests
use rpi_home_monitor.Base.{
  ℕ, ◌+◌, ◌-◌, ◌*◌, Bool, true, false, ◌&&◌, ◌||◌, not, Option, none, some, List, [], ◌∷◌, ◌++◌,
  String, Text, codes, is_digit, text_eq, strip, is_empty, ltb, leb, ◌==◌, if◌then◌else◌,
}

pub data Sign : Type 0 where
  below level above : Sign

infixl 5 ◌>>=◌
abbrev pub ◌>>=◌ {ℓ κ} : {A : Type ℓ} {B : Type κ} → Option A → (A → Option B) → Option B
none >>= f = none
some a >>= f = f a

pub record ParsedVersion : Type 0 where
  pub major : ℕ
  pub minor : ℕ
  pub patch : ℕ
  pub prerelease : List Text

-- `\d*`, as a number that is read on from `n`, and what follows.
unfoldable pub digits : ℕ → Text → ℕ × Text
digits n [] = (n, [])
digits n (c ∷ s) =
    let rest = digits (n * 10 + (c - b'0')) s in if is_digit c then rest else (n, c ∷ s)

-- `0|[1-9]\d*`
unfoldable pub number : Text → Option (ℕ × Text)
number [] = none
number (c ∷ s) =
    if c == b'0' then some (0, s) else if is_digit c then some (digits (c - b'0') s) else none

unfoldable pub expect : ℕ → Text → Option Text
expect k [] = none
expect k (c ∷ s) = if c == k then some s else none

-- `v?`
unfoldable pub skip_v : Text → Text
skip_v [] = []
skip_v (c ∷ s) = if c == b'v' then s else c ∷ s

pub record Release : Type 0 where
  pub major : ℕ
  pub minor : ℕ
  pub patch : ℕ

-- `^v?MAJOR.MINOR.PATCH`, and what follows.
unfoldable pub read_base : Text → Option (Release × Text)
read_base s = do
  (major, s) ← number (skip_v s)
  s ← expect b'.' s
  (minor, s) ← number s
  s ← expect b'.' s
  (patch, s) ← number s
  some (record { major = major; minor = minor; patch = patch }, s)

-- `[0-9A-Za-z.-]`
unfoldable pub is_ident : ℕ → Bool
is_ident c =
    is_digit c || (leb b'A' c && leb c b'Z') || (leb b'a' c && leb c b'z') || c == b'.' || c == b'-'

-- `[0-9A-Za-z.-]*`, and what follows.
unfoldable pub ident : Text → Text × Text
unfolding is_ident
ident [] = ([], [])
ident (c ∷ s) = let (a, rest) = ident s in if is_ident c then (c ∷ a, rest) else ([], c ∷ s)

-- `(?:\+[0-9A-Za-z.-]+)?$`
unfoldable pub build_ends : Text → Bool
unfolding ident
build_ends [] = true
build_ends (c ∷ s) = let (a, rest) = ident s in c == b'+' && not (is_empty a) && is_empty rest

-- `str.split(".")`
unfoldable pub split_dots : Text → List Text
split_dots [] = [] ∷ []
split_dots (c ∷ s) = elim (split_dots s) [
  | [] ↦ [] ∷ []
  | p ∷ ps ↦ if c == b'.' then [] ∷ p ∷ ps else (c ∷ p) ∷ ps
]

-- `(?:-(?P<pre>…))?` and the end: the prerelease parts.
unfoldable pub read_prerelease : Text → Option (List Text)
unfolding ident build_ends split_dots
read_prerelease [] = some []
read_prerelease (c ∷ s) =
    let (pre, rest) = ident s in
    if c == b'-'
    then (if not (is_empty pre) && build_ends rest then some (split_dots pre) else none)
    else if build_ends (c ∷ s)
    then some []
    else none

unfoldable pub parse : Text → Option ParsedVersion
parse value = do
  (b, rest) ← read_base (strip value)
  prerelease ← read_prerelease rest
  some (record { major = b.major; minor = b.minor; patch = b.patch; prerelease = prerelease })

-- `(a > b) - (a < b)` on numbers and on texts.
unfoldable pub compare_num : ℕ → ℕ → Sign
compare_num a b = if ltb a b then below else if ltb b a then above else level

unfoldable pub compare_text : Text → Text → Sign
compare_text [] [] = level
compare_text [] (d ∷ t) = below
compare_text (c ∷ s) [] = above
compare_text (c ∷ s) (d ∷ t) =
    let rest = compare_text s t in if ltb c d then below else if ltb d c then above else rest

-- `_NUM_RE`, with the number that it reads.
unfoldable pub numeric : Text → Option ℕ
numeric part = do (n, rest) ← number part; if is_empty rest then some n else none

-- Two parts that differ: numbers by value and before texts, texts by `as_text`.
unfoldable pub compare_ranked : Option ℕ → Option ℕ → Sign → Sign
compare_ranked (some n) (some m) as_text = compare_num n m
compare_ranked (some n) none as_text = below
compare_ranked none (some m) as_text = above
compare_ranked none none as_text = as_text

-- The parts of two prereleases at the first place where they differ.
unfoldable pub compare_part : Text → Text → Sign
compare_part l r = compare_ranked (numeric l) (numeric r) (compare_text l r)

-- The loop of `_compare_prerelease` and the comparison of the lengths behind it.
unfoldable pub compare_parts : List Text → List Text → Sign
compare_parts [] [] = level
compare_parts [] (r ∷ rs) = below
compare_parts (l ∷ ls) [] = above
compare_parts (l ∷ ls) (r ∷ rs) =
    let rest = compare_parts ls rs in if text_eq l r then rest else compare_part l r

unfoldable pub compare_prerelease : List Text → List Text → Sign
compare_prerelease [] [] = level
compare_prerelease [] (r ∷ rs) = above
compare_prerelease (l ∷ ls) [] = below
compare_prerelease (l ∷ ls) (r ∷ rs) = compare_parts (l ∷ ls) (r ∷ rs)

abbrev pub then_by : Sign → Sign → Sign
then_by level s = s
then_by below s = below
then_by above s = above

-- Python compares the tuples of major, minor and patch from the left.
unfoldable pub compare_parsed : ParsedVersion → ParsedVersion → Sign
compare_parsed l r = then_by (compare_num l.major r.major) (
    then_by (compare_num l.minor r.minor)
      (then_by (compare_num l.patch r.patch) (compare_prerelease l.prerelease r.prerelease)))

unfoldable pub compare_versions : Text → Text → Option Sign
compare_versions left right = do l ← parse left; r ← parse right; some (compare_parsed l r)

-- `\d*` as text, and what follows.
unfoldable pub span_digits : Text → Text × Text
span_digits [] = ([], [])
span_digits (c ∷ s) =
    let (a, rest) = span_digits s in if is_digit c then (c ∷ a, rest) else ([], c ∷ s)

-- `\d+`
unfoldable pub some_digits : Text → Option (Text × Text)
some_digits s = let (a, rest) = span_digits s in if is_empty a then none else some (a, rest)

-- `v?`, as text.
unfoldable pub span_v : Text → Text × Text
span_v [] = ([], [])
span_v (c ∷ s) = if c == b'v' then (c ∷ [], s) else ([], c ∷ s)

-- `^(?P<base>v?\d+\.\d+\.\d+)`, and what follows.
unfoldable pub span_base : Text → Option (Text × Text)
span_base s = do
  let v = (span_v s).0
  (a, s) ← some_digits (span_v s).1
  s ← expect b'.' s
  (b, s) ← some_digits s
  s ← expect b'.' s
  (c, s) ← some_digits s
  some (v ++ (a ++ (b'.' ∷ (b ++ (b'.' ∷ c)))), s)

abbrev pub is_profile : Text → Bool
is_profile rest = text_eq rest (codes "-dev") || text_eq rest (codes "-prod")

unfoldable pub strip_build_profile_suffix : Text → Text
strip_build_profile_suffix version = elim (span_base (strip version)) [
  | none ↦ version
  | some (base, rest) ↦ if is_profile rest then base else version
]

abbrev pub is_level : Option Sign → Bool
is_level (some level) = true
is_level _ = false

unfoldable pub versions_match : Text → Text → Bool
versions_match actual expected =
    let actual' = strip_build_profile_suffix actual in
    let expected' = strip_build_profile_suffix expected in
    if is_empty expected
    then false
    else (text_eq actual expected || is_level (compare_versions actual expected))
      || (text_eq actual' expected' || is_level (compare_versions actual' expected'))

pub data Relation : Type 0 where
  same unknown downgrade upgrade : Relation

pub record UpdateDecision : Type 0 where
  pub relation : Relation
  pub allowed : Bool
  pub current_version : Text
  pub target_version : Text

-- The part of `classify_update` behind the test for the same image.
unfoldable pub by_ordering : Option Sign → Relation × Bool
by_ordering none = (unknown, true)
by_ordering (some below) = (downgrade, false)
by_ordering (some level) = (same, true)
by_ordering (some above) = (upgrade, true)

unfoldable pub classify_update : Text → Text → UpdateDecision
unfolding by_ordering
classify_update current_version target_version =
    let current = strip current_version in
    let target = strip target_version in
    let (relation, allowed) =
      if versions_match current target
      then (same, true)
      else by_ordering (compare_versions target current) in
    record {
      relation = relation;
      allowed = allowed;
      current_version = current;
      target_version = target;
    }

unfoldable pub is_blocked_downgrade : Text → Text → Bool
is_blocked_downgrade current_version target_version =
    not (classify_update current_version target_version).allowed
