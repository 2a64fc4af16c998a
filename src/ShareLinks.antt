-- ===== src/ShareLinks.antt =====
-- Public share links (app/server/monitor/services/share_link_service.py) with their rows
-- (app/server/monitor/models.py, app/server/monitor/store.py). A public token is a text, its digest a
-- parameter, and so is what ipaddress reads. Instants are seconds. Where a row
-- may lack one, `none` is the empty text, and for the expiry also one that cannot be read.
mod Visitors
mod Links
pub mod Pages
pub mod Runs
pub mod Rows
pub mod Revoked
pub mod Pins
pub mod Created
mod Tests
unfoldable pub use Links.*
use rpi_home_monitor.ShareLinks.Visitors.{ip_matches, normalise_ua}
use rpi_home_monitor.Base.{
  ℕ, ◌+◌, String, Bool, true, false, ◌&&◌, ◌||◌, not, Option, none, some, List, [], ◌∷◌, ◌++◌, ◌⊎◌,
  inl, inr, Text, codes, text_eq, keep, leb, ◌==◌, str_eq, if◌then◌else◌, is_empty,
}

-- What `_validate_resource_reference` answers is an argument here, and so is `_hash_public_token` but
-- for the prefix of its text.
unfoldable pub ttl_seconds : String → Option (Option ℕ)
ttl_seconds ttl =
    if str_eq ttl "1h"
    then some (some 3600)
    else if str_eq ttl "24h"
    then some (some 86400)
    else if str_eq ttl "7d"
    then some (some 604800)
    else if str_eq ttl "30d"
    then some (some 2592000)
    else if str_eq ttl "never"
    then some none
    else none

abbrev pub expiry : ℕ → Option ℕ → Option ℕ
expiry now none = none
expiry now (some seconds) = some (now + seconds)

-- The arguments of `create_share_link`, and what `secrets` draws for it.
pub record Order : Type 0 where
  pub resource_type : String
  pub resource_id : Text
  pub owner_id : String
  pub owner_username : String
  pub ttl : String
  pub pin_ip : Bool
  pub pin_ua : Bool
  pub note : String
  pub drawn_id : Text
  pub drawn_secret : Text

abbrev pub token_id : Order → Text
token_id order = codes "sharelink_" ++ order.drawn_id

abbrev pub public_token : Order → Text
public_token order = token_id order ++ 46 ∷ order.drawn_secret

-- A visitor of a public link.
pub record Visitor : Type 0 where
  pub ip : String
  pub ua : Text

-- `list_share_links`, in the order of the rows.
unfoldable pub list_share_links : String → Text → ℕ → List ShareLink → List ShareLink
list_share_links resource_type resource_id now links =
    keep
      (λ link.
        (str_eq link.resource_type resource_type && text_eq link.resource_id resource_id)
        && (not (is_stamped link.revoked_at) && not (is_expired link now)))
      links

abbrev pub revoked : ℕ → List ShareLink → Option ShareLink → Option Refusal × List ShareLink
revoked now links none = (some link_not_found, links)
revoked now links (some link) =
    if is_stamped link.revoked_at
    then (none, links)
    else (none, save_share_link (record link { revoked_at = some now }) links)

-- `revoke_share_link`
unfoldable pub revoke_share_link : Text → ℕ → List ShareLink → Option Refusal × List ShareLink
revoke_share_link token now links =
    revoked now links (get_share_link (token_id_from_public_token token) links)

-- `cleanup_expired_links`
unfoldable pub cleanup_expired_links : ℕ → List ShareLink → List ShareLink
cleanup_expired_links now links = keep (λ link. not (is_expired link now)) links

-- `_record_access`
unfoldable pub record_access : ShareLink → ℕ → List ShareLink → List ShareLink
record_access link now links =
    save_share_link
      (record link {
        first_access_at = if link.access_count == 0 then now else link.first_access_at;
        access_count = link.access_count + 1;
        last_access_at = now;
      })
      links

module _ (hash_public_token : Text → String) (parse_ip : String → Option (ℕ × ℕ)) where
  abbrev pub link_of : Order → ℕ → Option ℕ → ShareLink
  link_of order now seconds = record {
    token = token_id order;
    resource_type = order.resource_type;
    resource_id = order.resource_id;
    owner_id = order.owner_id;
    token_hash = hmac_sha256 (hash_public_token (public_token order));
    owner_username = order.owner_username;
    created_at = now;
    expires_at = expiry now seconds;
    revoked_at = none;
    note = order.note;
    pin_ip = order.pin_ip;
    pin_ua = order.pin_ua;
    pinned_ip = "";
    pinned_ua = [];
    access_count = 0;
    first_access_at = 0;
    last_access_at = 0;
  }

  abbrev pub created :
      Order → ℕ → List ShareLink → Option (Option ℕ) → (Refusal ⊎ ShareLink) × List ShareLink
  created order now links none = (inl invalid_ttl, links)
  created order now links (some seconds) =
      let link = link_of order now seconds in
      if str_eq order.owner_id "" || str_eq order.owner_username ""
      then (inl owner_required, links)
      else (inr link, save_share_link link links)

  -- `create_share_link`
  unfoldable pub create_share_link :
      Option Refusal → Order → ℕ → List ShareLink → (Refusal ⊎ ShareLink) × List ShareLink
  create_share_link (some refusal) order now links = (inl refusal, links)
  create_share_link none order now links = created order now links (ttl_seconds order.ttl)

  abbrev pub verify_public_token : TokenHash → Text → Bool
  verify_public_token missing token = false
  verify_public_token legacy_revoked token = false
  verify_public_token (hmac_sha256 digest) token = str_eq digest (hash_public_token token)

  -- The two pins of `_authorise_link`: the link, if the visitor may pass, and the rows.
  abbrev pub ip_pinned : String → ShareLink → List ShareLink → Option ShareLink × List ShareLink
  ip_pinned ip link links =
      if not link.pin_ip
      then (some link, links)
      else if str_eq ip ""
      then (none, links)
      else if str_eq link.pinned_ip ""
      then (let link' = record link { pinned_ip = ip } in (some link', save_share_link link' links))
      else if ip_matches (parse_ip ip) (parse_ip link.pinned_ip)
      then (some link, links)
      else (none, links)

  abbrev pub ua_pinned :
      Text → Option ShareLink × List ShareLink → Option ShareLink × List ShareLink
  ua_pinned signature (none, links) = (none, links)
  ua_pinned signature (some link, links) =
      if not link.pin_ua
      then (some link, links)
      else if is_empty signature
      then (none, links)
      else if is_empty link.pinned_ua
      then (let link' = record link { pinned_ua = signature } in
          (some link', save_share_link link' links))
      else if text_eq signature link.pinned_ua
      then (some link, links)
      else (none, links)

  abbrev pub is_open : Text → String → ℕ → ShareLink → Bool
  is_open token expected_type now link =
      verify_public_token link.token_hash token
      && (str_eq link.resource_type expected_type
          && (not (is_stamped link.revoked_at) && not (is_expired link now)))

  abbrev pub found :
      Text
      → String
      → Visitor
      → ℕ
      → List ShareLink
      → Option ShareLink
      → Option ShareLink × List ShareLink
  found token expected_type visitor now links none = (none, links)
  found token expected_type visitor now links (some link) =
      if is_open token expected_type now link
      then ua_pinned (normalise_ua visitor.ua) (ip_pinned visitor.ip link links)
      else (none, links)

  -- `_authorise_link`, where `none` is the one refusal that it has.
  unfoldable pub authorise_link :
      Text → String → Visitor → ℕ → List ShareLink → Option ShareLink × List ShareLink
  authorise_link token expected_type visitor now links =
      found token expected_type visitor now links
        (get_share_link (token_id_from_public_token token) links)
