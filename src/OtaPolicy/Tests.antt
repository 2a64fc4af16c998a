-- ===== src/OtaPolicy/Tests.antt =====
-- Comparisons of concrete versions, and the theorems at concrete versions.
use rpi_home_monitor.Base.{
  ℕ, ◌≡◌, refl, true, false, some, none, [], ◌∷◌, codes, text_eq, skip_spaces, strip,
}
use rpi_home_monitor.OtaPolicy.{
  below, above, digits, number, expect, skip_v, read_base, is_ident, ident, build_ends, split_dots,
  read_prerelease, parse, compare_num, compare_text, numeric, compare_ranked, compare_part,
  compare_parts, compare_prerelease, compare_parsed, compare_versions, span_digits, some_digits,
  span_v, span_base, strip_build_profile_suffix, versions_match, by_ordering, classify_update,
  is_blocked_downgrade,
}
use rpi_home_monitor.OtaPolicy.{ParsedVersion, ◌>>=◌}
use rpi_home_monitor.OtaPolicy.Order.{flip, compare_versions-flip, compare_versions_trans}
use rpi_home_monitor.OtaPolicy.Prefix.{release}
use rpi_home_monitor.OtaPolicy.Install.{
  AtMost, Updates, start, install, allowed_release, no_downgrade, upgrade_blocks_back,
}

program : Unit {0}
unfolding text_eq skip_spaces strip digits number expect skip_v read_base is_ident ident build_ends
    split_dots read_prerelease parse compare_num compare_text numeric compare_ranked compare_part
    compare_parts compare_prerelease compare_parsed compare_versions span_digits some_digits span_v
    span_base strip_build_profile_suffix versions_match by_ordering classify_update
    is_blocked_downgrade
program = tt

comparisons :
    (compare_versions (codes "1.2.3") (codes " v1.10.0+b1 ") ≡ some below)
    × (compare_versions (codes "1.2.3") (codes "1.2.3-rc.1") ≡ some above)
    × (compare_versions (codes "1.2.3-rc.2") (codes "1.2.3-rc.10") ≡ some below)
    × (compare_versions (codes "1.2.3-rc") (codes "1.2.3-7") ≡ some above)
    × (compare_versions (codes "1.02.3") (codes "1.2.3") ≡ none)
unfolding program
comparisons = (refl, refl, refl, refl, refl)

matches :
    (versions_match (codes "1.6.10") (codes "v1.6.10-dev") ≡ true)
    × (versions_match (codes "1.6.10") (codes "1.6.10-dev.20260601") ≡ false)
    × (is_blocked_downgrade (codes "1.6.10") (codes "1.6.9") ≡ true)
    × (is_blocked_downgrade (codes "1.6.10") (codes "legacy") ≡ false)
unfolding program
matches = (refl, refl, refl, refl)

compare_versions-flip_case :
    compare_versions (codes "1.2.4") (codes "1.2.3")
    ≡ (compare_versions (codes "1.2.3") (codes "1.2.4") >>= λ s. some (flip s))
compare_versions-flip_case = compare_versions-flip (codes "1.2.3") (codes "1.2.4")

compare_versions_trans_example : compare_versions (codes "1.2.3-rc.2") (codes "1.3.0") ≡ some below
compare_versions_trans_example =
    compare_versions_trans (codes "1.2.3-rc.2") (codes "1.2.3") (codes "1.3.0")
      (unfold program in refl) (unfold program in refl)

abbrev version : ℕ → ℕ → ℕ → ParsedVersion
version a b c = record { major = a; minor = b; patch = c; prerelease = [] }

abbrev dev : ParsedVersion
dev = record { major = 1; minor = 6; patch = 10; prerelease = codes "dev" ∷ [] }

allowed_release_case : AtMost (release (version 1 6 10)) (release dev)
allowed_release_case =
    allowed_release (codes "1.6.10") (codes "1.6.10-dev") (version 1 6 10) dev
      (unfold program in refl) (unfold program in refl) (unfold program in refl)

updated : Updates (codes "1.6.9") (version 1 6 9) (codes "1.6.10-dev") dev
unfolding program
updated =
    install (codes "1.6.10-dev") dev
      (install (codes "1.6.10") (version 1 6 10) start refl refl refl) refl refl refl

no_downgrade_example : AtMost (release (version 1 6 9)) (release dev)
no_downgrade_example = no_downgrade updated

upgrade_blocks_back_case : is_blocked_downgrade (codes "1.6.10") (codes "1.6.9") ≡ true
upgrade_blocks_back_case =
    upgrade_blocks_back (codes "1.6.9") (codes "1.6.10") (unfold program in refl)
