-- ===== src/ShareLinks/Tests.antt =====
-- A share link of a camera and its visitors, and the theorems of the share links at them.
use rpi_home_monitor.Base.{
  ℕ, String, ◌≡◌, refl, true, false, Option, none, some, List, [], ◌∷◌, inr, Text, codes, text_eq,
  skip_spaces, strip, keep, str_eq, if◌then◌else◌, is_empty,
}
use rpi_home_monitor.Accounts.{lower_text}
use rpi_home_monitor.ShareLinks.Visitors.{ip_matches, starts_with, contains, normalise_ua}
use rpi_home_monitor.ShareLinks.{
  ShareLink, Order, Visitor, invalid_path, status_code, before_dot, token_id_from_public_token,
  is_reached, is_expired, ttl_seconds, expiry, public_token, get_share_link, save_share_link,
  link_of, create_share_link, list_share_links, revoke_share_link, cleanup_expired_links,
  authorise_link, record_access, is_open,
}
use rpi_home_monitor.ShareLinks.Pages.{
  Site, live_file, id_from, has_shape, split_slash, clip_resource_parts, get_camera,
  resolve_clip_resource, resolve_camera_resource, validate_resource_reference, get_shared_clip_page,
  get_shared_clip_asset, get_shared_camera_page, get_shared_camera_whep_target,
  get_shared_camera_file,
}
use rpi_home_monitor.ShareLinks.Runs.{Call, cleanup, visit, camera_page, run}
use rpi_home_monitor.ShareLinks.Revoked.{revoke-authorise_link}
use rpi_home_monitor.ShareLinks.Pins.{bound-authorise_link, refused_visitor_binds}
use rpi_home_monitor.ShareLinks.Created.{create_share_link-authorise_link}

program : Unit {0}
unfolding lower_text skip_spaces strip keep text_eq ip_matches starts_with contains normalise_ua
    status_code before_dot token_id_from_public_token is_expired ttl_seconds get_share_link
    save_share_link create_share_link list_share_links revoke_share_link cleanup_expired_links
    authorise_link record_access id_from has_shape split_slash clip_resource_parts get_camera
    resolve_clip_resource resolve_camera_resource validate_resource_reference get_shared_clip_page
    get_shared_clip_asset get_shared_camera_page get_shared_camera_whep_target
    get_shared_camera_file run
program = tt

abbrev order : Order
order = record {
  resource_type = "camera";
  resource_id = codes "cam-1";
  owner_id = "u1";
  owner_username = "ann";
  ttl = "1h";
  pin_ip = true;
  pin_ua = true;
  note = "";
  drawn_id = codes "a1";
  drawn_secret = codes "s1";
}

abbrev free_order : Order
free_order = record order { pin_ip = false; pin_ua = false }

abbrev hash_public_token : Text → String
hash_public_token token = if text_eq token (public_token order) then "d1" else "d0"

abbrev parse_ip : String → Option (ℕ × ℕ)
parse_ip ip =
    if str_eq ip "203.0.113.5"
    then some (4, 3405803781)
    else if str_eq ip "203.0.113.77"
    then some (4, 3405803853)
    else if str_eq ip "198.51.100.2"
    then some (4, 3325256706)
    else none

abbrev site : Site
site = record {
  resolve_clip_path = λ camera_id clip_date filename. true;
  cameras = record { id = codes "cam-1"; status = "online" } ∷ [];
  has_playlist = λ camera_id. true;
  is_inside = λ camera_id filename. true;
  is_file = λ camera_id filename. true;
}

abbrev ann : Visitor
ann = record { ip = "203.0.113.5"; ua = codes "Mozilla (X11; Linux) Firefox/128" }

abbrev ann_again : Visitor
ann_again = record { ip = "203.0.113.77"; ua = codes "Mozilla (X11; Linux) Firefox/129" }

abbrev bob : Visitor
bob = record { ip = "198.51.100.2"; ua = codes "Mozilla (X11; Linux) Firefox/128" }

abbrev silent : Visitor
silent = record { ip = "198.51.100.2"; ua = [] }

abbrev token : Text
token = public_token order

abbrev link : ShareLink
link = link_of hash_public_token parse_ip order 1000 (some 3600)

abbrev links : List ShareLink
links = link ∷ []

abbrev bound : ShareLink
bound = record link { pinned_ip = "203.0.113.5"; pinned_ua = codes "linux:firefox" }

abbrev calls : List Call
calls = visit camera_page token ann_again 1200 ∷ cleanup 1300 ∷ []

signature : normalise_ua ann.ua ≡ codes "linux:firefox"
unfolding program
signature = refl

-- A file of the camera, for the first visitor.
shared_file :
    (get_shared_camera_file site hash_public_token parse_ip (codes "a.ts") token ann 1100 links).0
    ≡ inr (live_file (codes "cam-1") (codes "a.ts"))
unfolding program
shared_file = refl

wrong_secret :
    (authorise_link hash_public_token parse_ip (codes "sharelink_a1.s2") "camera" ann 1100 links).0
    ≡ none
unfolding program
wrong_secret = refl

clip_parts_read :
    clip_resource_parts (codes "cam-1/2026-01-02/x.mp4")
    ≡ some (codes "cam-1", codes "2026-01-02", codes "x.mp4")
unfolding program
clip_parts_read = refl

refused_path : status_code invalid_path ≡ 400
unfolding program
refused_path = refl

still_listed : list_share_links "camera" (codes "cam-1") 4599 links ≡ links
unfolding program
still_listed = refl

expired_removed : cleanup_expired_links 4600 links ≡ []
unfolding program
expired_removed = refl

row_found : get_share_link (token_id_from_public_token token) links ≡ some link
unfolding program
row_found = refl

bound_row_found : get_share_link (token_id_from_public_token token) (bound ∷ []) ≡ some bound
unfolding program
bound_row_found = refl

far : ip_matches (parse_ip bob.ip) (parse_ip bound.pinned_ip) ≡ false
unfolding program
far = refl

far_from_silent : ip_matches (parse_ip ann.ip) (parse_ip silent.ip) ≡ false
unfolding program
far_from_silent = refl

plain : before_dot free_order.drawn_id ≡ none
unfolding program
plain = refl

ttl_known : ttl_seconds free_order.ttl ≡ some (some 3600)
unfolding program
ttl_known = refl

quiet : is_empty (normalise_ua silent.ua) ≡ true
unfolding program
quiet = refl

revoke-authorise_link_example :
    (let later = run hash_public_token parse_ip site calls (revoke_share_link token 1100 links).1 in
      authorise_link hash_public_token parse_ip token "camera" ann 1400 later ≡ (none, later))
revoke-authorise_link_example =
    revoke-authorise_link hash_public_token parse_ip site token token 1100 1400 links calls "camera"
      ann (tt, tt) (tt, (tt, tt)) refl

bound-authorise_link_example :
    (authorise_link hash_public_token parse_ip token "camera" bob 1400
      (run hash_public_token parse_ip site calls (bound ∷ []))).0
    ≡ none
bound-authorise_link_example =
    bound-authorise_link hash_public_token parse_ip site token 1400 bound (bound ∷ []) calls
      "camera" bob (tt, tt) bound_row_found refl refl (tt, (tt, tt)) far

open_link : is_open hash_public_token parse_ip token "camera" 1100 link ≡ true
unfolding program
open_link = refl

refused_visitor_binds_example :
    (let (answer, links') =
        authorise_link hash_public_token parse_ip token "camera" silent 1100 links in
      (answer ≡ none)
      × ((authorise_link hash_public_token parse_ip token "camera" ann 1400
            (run hash_public_token parse_ip site calls links')).0
          ≡ none))
refused_visitor_binds_example =
    refused_visitor_binds hash_public_token parse_ip site token 1100 1400 link links calls "camera"
      silent ann (tt, tt) row_found open_link (refl, refl) refl refl quiet (tt, (tt, tt))
      far_from_silent

create_share_link-authorise_link_example :
    (authorise_link hash_public_token parse_ip
      (public_token free_order)
      "camera"
      bob
      4599
      (create_share_link hash_public_token parse_ip none free_order 1000 links).1).0
    ≡ (if is_reached (expiry 1000 (some 3600)) 4599
        then none
        else some (link_of hash_public_token parse_ip free_order 1000 (some 3600)))
create_share_link-authorise_link_example =
    create_share_link-authorise_link hash_public_token parse_ip free_order 1000 4599 links
      (some 3600) bob plain ttl_known refl (refl, refl)
