-- ===== src/ShareLinks/Links.antt =====
-- The rows of the share links with their tokens (app/server/monitor/models.py,
-- app/server/monitor/store.py, app/server/monitor/services/share_link_service.py).
use rpi_home_monitor.Base.{
  ℕ, String, Bool, true, false, Option, none, some, List, [], ◌∷◌, Text, codes, text_eq, leb, ◌==◌,
  if◌then◌else◌,
}
use rpi_home_monitor.ShareLinks.Visitors.{starts_with}

-- The `token_hash` of a row: empty in rows of old, the mark of a revoked old row, or a digest behind
-- its prefix.
pub data TokenHash : Type 0 where
  missing legacy_revoked : TokenHash
  hmac_sha256 : String → TokenHash

pub record ShareLink : Type 0 where
  pub token : Text
  pub resource_type : String
  pub resource_id : Text
  pub owner_id : String
  pub token_hash : TokenHash
  pub owner_username : String
  pub created_at : ℕ
  pub expires_at : Option ℕ
  pub revoked_at : Option ℕ
  pub note : String
  pub pin_ip : Bool
  pub pin_ua : Bool
  pub pinned_ip : String
  pub pinned_ua : Text
  pub access_count : ℕ
  pub first_access_at : ℕ
  pub last_access_at : ℕ

-- What the service answers in place of a result, and its status code.
pub data Refusal : Type 0 where
  link_failure resource_failure link_not_found camera_not_found : Refusal
  invalid_resource_type invalid_resource_id invalid_ttl owner_required invalid_file_type
        invalid_path :
      Refusal

unfoldable pub status_code : Refusal → ℕ
status_code link_failure = 404
status_code resource_failure = 404
status_code link_not_found = 404
status_code camera_not_found = 404
status_code refusal = 400

-- The store: `get_share_link` and `save_share_link`.
unfoldable pub get_share_link : Text → List ShareLink → Option ShareLink
get_share_link k [] = none
get_share_link k (link ∷ links) = if text_eq link.token k then some link else get_share_link k links

unfoldable pub save_share_link : ShareLink → List ShareLink → List ShareLink
save_share_link link [] = link ∷ []
save_share_link link (l ∷ links) =
    let rest = save_share_link link links in
    if text_eq l.token link.token then link ∷ links else l ∷ rest

-- `_token_id_from_public_token`: what stands before the first dot, in a token of today.
abbrev pub put_before : ℕ → Option Text → Option Text
put_before c none = none
put_before c (some s) = some (c ∷ s)

unfoldable pub before_dot : Text → Option Text
before_dot [] = none
before_dot (c ∷ s) = let rest = before_dot s in if c == 46 then some [] else put_before c rest

abbrev pub or_whole : Text → Option Text → Text
or_whole s none = s
or_whole s (some id) = id

unfoldable pub token_id_from_public_token : Text → Text
token_id_from_public_token token =
    if starts_with (codes "sharelink_") token then or_whole token (before_dot token) else token

abbrev pub is_stamped : Option ℕ → Bool
is_stamped none = false
is_stamped (some at) = true

abbrev pub is_reached : Option ℕ → ℕ → Bool
is_reached none now = false
is_reached (some at) now = leb at now

unfoldable pub is_expired : ShareLink → ℕ → Bool
is_expired link now = is_reached link.expires_at now
