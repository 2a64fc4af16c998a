-- ===== src/ShareLinks/Runs.antt =====
-- Runs of the share-link service (app/server/monitor/services/share_link_service.py).
pub mod Keeps
use rpi_home_monitor.Base.{
  ℕ, String, ◌≡◌, Bool, true, false, ◌||◌, not, Option, none, some, List, [], ◌∷◌, ◌⊎◌, inl, inr,
  Text, text_eq, str_eq, if_both, Bool-cases, All, All-keep, is_empty,
}
use rpi_home_monitor.ShareLinks.Visitors.{ip_matches, normalise_ua}
use rpi_home_monitor.ShareLinks.{
  ShareLink, Refusal, Order, Visitor, token_id, is_stamped, ttl_seconds, get_share_link,
  save_share_link, token_id_from_public_token, link_of, created, create_share_link, revoked,
  revoke_share_link, cleanup_expired_links, ip_pinned, ua_pinned, is_open, found, authorise_link,
  record_access,
}
use rpi_home_monitor.ShareLinks.Pages.{
  Page, Site, answered, shown, validate_resource_reference, get_shared_clip_page,
  get_shared_clip_asset, get_shared_camera_page, get_shared_camera_whep_target,
  get_shared_camera_file,
}

pub data Place : Type 0 where
  clip_page clip_asset camera_page camera_whep : Place
  camera_file : Text → Place

-- A call, with the instant that it reads.
pub data Call : Type 0 where
  create : Order → ℕ → Call
  revoke : Text → ℕ → Call
  cleanup : ℕ → Call
  visit : Place → Text → Visitor → ℕ → Call

module _ (hash_public_token : Text → String) (parse_ip : String → Option (ℕ × ℕ))
    (site : Site) where
  abbrev pub visited : Place → Text → Visitor → ℕ → List ShareLink → List ShareLink
  visited clip_page token visitor now links =
      (get_shared_clip_page site hash_public_token parse_ip token visitor now links).1
  visited clip_asset token visitor now links =
      (get_shared_clip_asset site hash_public_token parse_ip token visitor now links).1
  visited camera_page token visitor now links =
      (get_shared_camera_page site hash_public_token parse_ip token visitor now links).1
  visited camera_whep token visitor now links =
      (get_shared_camera_whep_target site hash_public_token parse_ip token visitor now links).1
  visited (camera_file filename) token visitor now links =
      (get_shared_camera_file site hash_public_token parse_ip filename token visitor now links).1

  abbrev pub after : Call → List ShareLink → List ShareLink
  after (create order now) links =
      (create_share_link hash_public_token parse_ip
        (validate_resource_reference site order.resource_type order.resource_id true) order now
        links).1
  after (revoke token now) links = (revoke_share_link token now links).1
  after (cleanup now) links = cleanup_expired_links now links
  after (visit place token visitor now) links = visited place token visitor now links

  unfoldable pub run : List Call → List ShareLink → List ShareLink
  run [] links = links
  run (call ∷ calls) links = run calls (after call links)

-- A token that is made is not one of this identifier.
abbrev pub IsFresh : Text → Call → Type 0
IsFresh k (create order now) = text_eq (token_id order) k ≡ false
IsFresh k (revoke token now) = Unit
IsFresh k (cleanup now) = Unit
IsFresh k (visit place token visitor now) = Unit
