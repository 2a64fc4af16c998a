-- ===== src/ShareLinks/Visitors.antt =====
-- What a share link keeps of its visitors (app/server/monitor/services/share_link_service.py): the
-- network of an address, as ipaddress reads it, and the family of a browser. Letters are those of
-- ASCII.
use rpi_home_monitor.Base.{
  ℕ, ◌/◌, ◌^◌, String, Bool, true, false, ◌&&◌, ◌||◌, not, Option, none, some, [], ◌∷◌, ◌++◌, Text,
  codes, strip, ◌==◌, if◌then◌else◌, is_empty,
}
use rpi_home_monitor.Accounts.{lower_text}

-- `_ip_matches`, on the version and the number of an address: a /24 and a /64 network.
unfoldable pub ip_matches : Option (ℕ × ℕ) → Option (ℕ × ℕ) → Bool
ip_matches none pinned = false
ip_matches (some candidate) none = false
ip_matches (some (version, a)) (some (pinned_version, b)) =
    version == pinned_version
    && (if version == 4 then a / 2 ^ 8 == b / 2 ^ 8 else a / 2 ^ 64 == b / 2 ^ 64)

unfoldable pub starts_with : Text → Text → Bool
starts_with [] s = true
starts_with (p ∷ prefix) [] = false
starts_with (p ∷ prefix) (c ∷ s) = p == c && starts_with prefix s

-- `part in s`
unfoldable pub contains : Text → Text → Bool
contains part [] = is_empty part
contains part (c ∷ s) = starts_with part (c ∷ s) || contains part s

abbrev pub platform_of : Text → String
platform_of s =
    if contains (codes "iphone") s
    then "iphone"
    else if contains (codes "ipad") s
    then "ipad"
    else if contains (codes "android") s
    then "android"
    else if contains (codes "windows") s
    then "windows"
    else if contains (codes "mac os x") s
    then "mac-os-x"
    else if contains (codes "linux") s
    then "linux"
    else "other"

abbrev pub family_of : Text → String
family_of s =
    if contains (codes "edg/") s
    then "edge"
    else if contains (codes "firefox/") s
    then "firefox"
    else if contains (codes "chrome/") s && not (contains (codes "chromium/") s)
    then "chrome"
    else if contains (codes "safari/") s
    then "safari"
    else "other"

-- `_normalise_ua`
unfoldable pub normalise_ua : Text → Text
normalise_ua user_agent =
    let ua = strip user_agent in
    let lower = lower_text ua in
    if is_empty ua then [] else codes (platform_of lower) ++ 58 ∷ codes (family_of lower)
