-- ===== src/ShareLinks/Runs/Keeps.antt =====
-- Properties of a share link that every call of the service keeps
-- (app/server/monitor/services/share_link_service.py).
use rpi_home_monitor.Base.{
  ℕ, String, ◌≡◌, Bool, true, false, ◌||◌, not, Option, none, some, List, [], ◌∷◌, ◌⊎◌, inl, inr,
  Text, text_eq, str_eq, if_both, Bool-cases, All, All-keep, is_empty,
}
use rpi_home_monitor.ShareLinks.Visitors.{ip_matches, normalise_ua}
use rpi_home_monitor.ShareLinks.{
  ShareLink, Refusal, Order, Visitor, is_stamped, ttl_seconds, get_share_link, save_share_link,
  token_id_from_public_token, link_of, created, create_share_link, revoked, revoke_share_link,
  cleanup_expired_links, ip_pinned, ua_pinned, is_open, found, authorise_link, record_access,
}
use rpi_home_monitor.ShareLinks.Pages.{
  Page, Site, answered, shown, get_shared_clip_page, get_shared_clip_asset, get_shared_camera_page,
  get_shared_camera_whep_target, get_shared_camera_file,
}
use rpi_home_monitor.ShareLinks.Runs.{
  Place, Call, create, revoke, cleanup, visit, clip_page, clip_asset, camera_page, camera_whep,
  camera_file, visited, after, run,
}

-- What the operations change in a row keeps the property.
abbrev pub Stable : (ShareLink → Type 0) → Type 0
Stable P =
    (((l : ShareLink) (ip : String)
        → P l
        → str_eq l.pinned_ip "" ≡ true
        → P (record l { pinned_ip = ip }))
      × ((l : ShareLink) (ua : Text) → P l → P (record l { pinned_ua = ua })))
    × (((l : ShareLink) (first last n : ℕ)
          → P l
          → P (record l { first_access_at = first; access_count = n; last_access_at = last }))
        × ((l : ShareLink) (now : ℕ) → P l → P (record l { revoked_at = some now })))

abbrev pub Held : (ShareLink → Type 0) → Option ShareLink → Type 0
Held P none = Unit
Held P (some l) = P l

pub get_share_link-Held :
    (P : ShareLink → Type 0) (k : Text) (links : List ShareLink)
    → All P links
    → Held P (get_share_link k links)
unfolding get_share_link
get_share_link-Held P k [] h = tt
get_share_link-Held P k (l ∷ links) h = elim (Bool-cases (text_eq l.token k)) [
  | inl same ↦ rw same h.0
  | inr other ↦ rw other (get_share_link-Held P k links h.1)
]

pub save_share_link-All :
    (P : ShareLink → Type 0) (link : ShareLink) (links : List ShareLink)
    → P link
    → All P links
    → All P (save_share_link link links)
unfolding save_share_link
save_share_link-All P link [] p h = (p, tt)
save_share_link-All P link (l ∷ links) p h = elim (Bool-cases (text_eq l.token link.token)) [
  | inl same ↦ rw same (p, h.1)
  | inr other ↦ rw other (h.0, save_share_link-All P link links p h.1)
]

module _ (hash_public_token : Text → String) (parse_ip : String → Option (ℕ × ℕ)) where
  module _ (P : ShareLink → Type 0) (s : Stable P) where
    abbrev Passed : Option ShareLink × List ShareLink → Type 0
    Passed (o, links) = Held P o × All P links

    ip_pinned-Passed :
        (ip : String) (link : ShareLink) (links : List ShareLink)
        → P link
        → All P links
        → Passed (ip_pinned hash_public_token parse_ip ip link links)
    ip_pinned-Passed ip link links p h =
        if_both Passed (not link.pin_ip) (λ off. (p, h))
          (λ on.
            if_both Passed (str_eq ip "") (λ e. (tt, h))
              (λ n.
                if_both Passed (str_eq link.pinned_ip "")
                  (λ e. let q = s.0.0 link ip p e in (q, save_share_link-All P _ links q h))
                  (λ bound.
                    if_both Passed (ip_matches (parse_ip ip) (parse_ip link.pinned_ip))
                      (λ e. (p, h)) (λ e. (tt, h)))))

    ua_pinned-Passed :
        (signature : Text) (o : Option ShareLink) (links : List ShareLink)
        → Passed (o, links)
        → Passed (ua_pinned hash_public_token parse_ip signature (o, links))
    ua_pinned-Passed signature none links h = h
    ua_pinned-Passed signature (some link) links (p, h) =
        if_both Passed (not link.pin_ua) (λ off. (p, h))
          (λ on.
            if_both Passed (is_empty signature) (λ e. (tt, h))
              (λ n.
                if_both Passed (is_empty link.pinned_ua)
                  (λ e. let q = s.0.1 link signature p in (q, save_share_link-All P _ links q h))
                  (λ bound.
                    if_both Passed (text_eq signature link.pinned_ua) (λ e. (p, h))
                      (λ e. (tt, h)))))

    found-Passed :
        (token : Text) (expected_type : String) (visitor : Visitor) (now : ℕ)
        (links : List ShareLink) (o : Option ShareLink)
        → Held P o
        → All P links
        → Passed (found hash_public_token parse_ip token expected_type visitor now links o)
    found-Passed token expected_type visitor now links none p h = (tt, h)
    found-Passed token expected_type visitor now links (some link) p h =
        if_both Passed (is_open hash_public_token parse_ip token expected_type now link)
          (λ e.
            ua_pinned-Passed (normalise_ua visitor.ua) _ _
              (ip_pinned-Passed visitor.ip link links p h))
          (λ e. (tt, h))

    authorise_link-Passed :
        (token : Text) (expected_type : String) (visitor : Visitor) (now : ℕ)
        (links : List ShareLink)
        → All P links
        → Passed (authorise_link hash_public_token parse_ip token expected_type visitor now links)
    unfolding authorise_link
    authorise_link-Passed token expected_type visitor now links h =
        found-Passed token expected_type visitor now links _
          (get_share_link-Held P (token_id_from_public_token token) links h) h

    pub revoke_share_link-All :
        (token : Text) (now : ℕ) (links : List ShareLink)
        → All P links
        → All P (revoke_share_link token now links).1
    unfolding revoke_share_link
    revoke_share_link-All token now links h =
        revoked-All (get_share_link (token_id_from_public_token token) links)
          (get_share_link-Held P (token_id_from_public_token token) links h)
      where
        revoked-All : (o : Option ShareLink) → Held P o → All P (revoked now links o).1
        revoked-All none p = h
        revoked-All (some link) p =
            if_both {A = Option Refusal × List ShareLink} (λ r. All P r.1)
              (is_stamped link.revoked_at) (λ e. h)
              (λ e. save_share_link-All P _ links (s.1.1 link now p) h)

    shown-All :
        (recorded : Bool) (now : ℕ) (resolve : Text → Refusal ⊎ Page)
        (r : Option ShareLink × List ShareLink)
        → Passed r
        → All P (shown recorded now resolve r).1
    unfolding record_access
    shown-All recorded now resolve (none, links) (p, h) = h
    shown-All recorded now resolve (some link, links) (p, h) = page_shown (resolve link.resource_id)
      where
        page_shown : (page : Refusal ⊎ Page) → All P (answered recorded now link links page).1
        page_shown (inl refusal) = h
        page_shown (inr page) =
            if_both (All P) recorded (λ e. save_share_link-All P _ links (s.1.0 link _ _ _ p) h)
              (λ e. h)

    created-All :
        (order : Order) (now : ℕ) (links : List ShareLink) (o : Option (Option ℕ))
        → All P links
        → ((seconds : Option ℕ) → P (link_of hash_public_token parse_ip order now seconds))
        → All P (created hash_public_token parse_ip order now links o).1
    created-All order now links none h m = h
    created-All order now links (some seconds) h m =
        if_both {A = (Refusal ⊎ ShareLink) × List ShareLink} (λ r. All P r.1)
          (str_eq order.owner_id "" || str_eq order.owner_username "") (λ e. h)
          (λ e. save_share_link-All P _ links (m seconds) h)

    -- The rows that a call makes have the property.
    abbrev pub Made : Call → Type 0
    Made (create order now) =
        (seconds : Option ℕ) → P (link_of hash_public_token parse_ip order now seconds)
    Made (revoke token now) = Unit
    Made (cleanup now) = Unit
    Made (visit place token visitor now) = Unit

    module _ (site : Site) where
      create_share_link-All :
          (o : Option Refusal) (order : Order) (now : ℕ) (links : List ShareLink)
          → All P links
          → ((seconds : Option ℕ) → P (link_of hash_public_token parse_ip order now seconds))
          → All P (create_share_link hash_public_token parse_ip o order now links).1
      unfolding create_share_link
      create_share_link-All (some refusal) order now links h m = h
      create_share_link-All none order now links h m =
          created-All order now links (ttl_seconds order.ttl) h m

      visited-All :
          (place : Place) (token : Text) (visitor : Visitor) (now : ℕ) (links : List ShareLink)
          → All P links
          → All P (visited hash_public_token parse_ip site place token visitor now links)
      unfolding get_shared_clip_page get_shared_clip_asset get_shared_camera_page
          get_shared_camera_whep_target get_shared_camera_file
      visited-All clip_page token visitor now links h =
          shown-All true now _ _ (authorise_link-Passed token "clip" visitor now links h)
      visited-All clip_asset token visitor now links h =
          shown-All false now _ _ (authorise_link-Passed token "clip" visitor now links h)
      visited-All camera_page token visitor now links h =
          shown-All true now _ _ (authorise_link-Passed token "camera" visitor now links h)
      visited-All camera_whep token visitor now links h =
          shown-All false now _ _ (authorise_link-Passed token "camera" visitor now links h)
      visited-All (camera_file filename) token visitor now links h =
          shown-All false now _ _ (authorise_link-Passed token "camera" visitor now links h)

      after-All :
          (call : Call) (links : List ShareLink)
          → All P links
          → Made call
          → All P (after hash_public_token parse_ip site call links)
      unfolding cleanup_expired_links
      after-All (create order now) links h m = create_share_link-All _ order now links h m
      after-All (revoke token now) links h m = revoke_share_link-All token now links h
      after-All (cleanup now) links h m = All-keep P _ links h
      after-All (visit place token visitor now) links h m =
          visited-All place token visitor now links h

      -- A stable property of the rows lasts through every run that makes rows with it.
      pub run-All :
          (calls : List Call) (links : List ShareLink)
          → All P links
          → All Made calls
          → All P (run hash_public_token parse_ip site calls links)
      unfolding run
      run-All [] links h m = h
      run-All (call ∷ calls) links h m = run-All calls _ (after-All call links h m.0) m.1
