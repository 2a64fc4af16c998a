-- ===== src/ShareLinks/Created.antt =====
-- That the token of a new share link opens it until it expires
-- (app/server/monitor/services/share_link_service.py).
use rpi_home_monitor.Base.{
  ℕ, String, ◌≡◌, refl, true, false, ◌||◌, not, Option, none, some, List, [], ◌∷◌, ◌++◌, inl, inr,
  Text, text_eq, str_eq, eq_iff, if◌then◌else◌, if_both, Bool-cases, arith,
}
use rpi_home_monitor.OtaPolicy.Order.{text_eq_iff}
use rpi_home_monitor.ShareLinks.Visitors.{starts_with, normalise_ua}
use rpi_home_monitor.ShareLinks.{
  ShareLink, Order, Visitor, before_dot, token_id_from_public_token, is_reached, is_expired,
  ttl_seconds, expiry, token_id, public_token, get_share_link, save_share_link, link_of,
  create_share_link, ua_pinned, is_open, found, authorise_link,
}

pub get_share_link-save_share_link :
    (l : ShareLink) (links : List ShareLink)
    → get_share_link l.token (save_share_link l links) ≡ some l
unfolding get_share_link save_share_link
get_share_link-save_share_link l [] = rw ((text_eq_iff l.token l.token).1 refl) refl
get_share_link-save_share_link l (m ∷ links) = elim (Bool-cases (text_eq m.token l.token)) [
  | inl same ↦ rw same (rw ((text_eq_iff l.token l.token).1 refl) refl)
  | inr other ↦ rw other (rw other (get_share_link-save_share_link l links))
]

before_dot-append :
    (id secret : Text) → before_dot id ≡ none → before_dot (id ++ 46 ∷ secret) ≡ some id
unfolding before_dot
before_dot-append [] secret h = refl
before_dot-append (c ∷ id) secret h = ground (arith, before_dot-append id secret)

token_id_from_public_token-public_token :
    (order : Order)
    → before_dot order.drawn_id ≡ none
    → token_id_from_public_token (public_token order) ≡ token_id order
unfolding token_id_from_public_token before_dot starts_with
token_id_from_public_token-public_token order h =
    rw (before_dot-append order.drawn_id order.drawn_secret h) refl

module _ (hash_public_token : Text → String) (parse_ip : String → Option (ℕ × ℕ)) where
  made_rows :
      (order : Order) (made : ℕ) (links : List ShareLink) (seconds : Option ℕ)
      → ttl_seconds order.ttl ≡ some seconds
      → (str_eq order.owner_id "" || str_eq order.owner_username "") ≡ false
      → (create_share_link hash_public_token parse_ip none order made links).1
        ≡ save_share_link (link_of hash_public_token parse_ip order made seconds) links
  unfolding create_share_link
  made_rows order made links seconds ttl owned = rw ttl (rw owned refl)

  made-found :
      (order : Order) (made now : ℕ) (links : List ShareLink) (seconds : Option ℕ)
      (visitor : Visitor)
      → (order.pin_ip ≡ false) × (order.pin_ua ≡ false)
      → (let l = link_of hash_public_token parse_ip order made seconds in
          (found hash_public_token parse_ip
            (public_token order)
            order.resource_type
            visitor
            now
            links
            (some l)).0
          ≡ (if is_reached (expiry made seconds) now then none else some l))
  unfolding is_expired
  made-found order made now links seconds visitor (ip, ua) =
      let digest =
        (eq_iff (hash_public_token (public_token order)) (hash_public_token (public_token order))).1
          refl in
      let kind = (eq_iff order.resource_type order.resource_type).1 refl in
      if_both Right
        (is_open hash_public_token parse_ip (public_token order) order.resource_type now l)
        (λ opened.
          let early : is_reached (expiry made seconds) now ≡ false = ground (arith, opened) in
          rw early (
            if_both Here (not order.pin_ip)
              (λ _.
                if_both {A = Option ShareLink × List ShareLink} (λ r. r.0 ≡ some l)
                  (not order.pin_ua) (λ _. refl) (λ on. absurd (ground (arith, on, ua))))
              (λ on. absurd (ground (arith, on, ip)))))
        (λ closed.
          let late : is_reached (expiry made seconds) now ≡ true =
            ground (arith, closed, digest, kind) in
          rw late refl)
    where
      l : ShareLink
      l = link_of hash_public_token parse_ip order made seconds

      Right : Option ShareLink × List ShareLink → Type 0
      Right r = r.0 ≡ (if is_reached (expiry made seconds) now then none else some l)

      Here : Option ShareLink × List ShareLink → Type 0
      Here r = (ua_pinned hash_public_token parse_ip (normalise_ua visitor.ua) r).0 ≡ some l

  -- Until it expires, and no longer, a new share link can be opened: where the drawn identifier has no
  -- dot, the time to live is one of the five, there is an owner, and neither pin is asked for, the
  -- token that `create_share_link` returns is authorised for its kind of resource at exactly the
  -- instants before the expiry, at all of them for "never", and yields the link that was made, for
  -- every visitor and whatever rows there were before.
  pub create_share_link-authorise_link :
      (order : Order) (made now : ℕ) (links : List ShareLink) (seconds : Option ℕ)
      (visitor : Visitor)
      → before_dot order.drawn_id ≡ none
      → ttl_seconds order.ttl ≡ some seconds
      → (str_eq order.owner_id "" || str_eq order.owner_username "") ≡ false
      → (order.pin_ip ≡ false) × (order.pin_ua ≡ false)
      → (authorise_link hash_public_token parse_ip
          (public_token order)
          order.resource_type
          visitor
          now
          (create_share_link hash_public_token parse_ip none order made links).1).0
        ≡ (if is_reached (expiry made seconds) now
            then none
            else some (link_of hash_public_token parse_ip order made seconds))
  unfolding authorise_link
  create_share_link-authorise_link order made now links seconds visitor plain ttl owned pins =
      rw (made_rows order made links seconds ttl owned) (
        rw (token_id_from_public_token-public_token order plain) (
          rw
            (get_share_link-save_share_link (link_of hash_public_token parse_ip order made seconds)
              links)
            (made-found order made now _ seconds visitor pins)))
