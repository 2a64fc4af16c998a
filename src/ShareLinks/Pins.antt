-- ===== src/ShareLinks/Pins.antt =====
-- How a share link is bound to the network of its first visitor
-- (app/server/monitor/services/share_link_service.py).
use rpi_home_monitor.Base.{
  ℕ, String, ◌≡◌, refl, true, false, not, Option, none, some, List, Text, str_eq, if_both, All,
  arith, is_empty,
}
use rpi_home_monitor.OtaPolicy.Order.{text_eq_iff}
use rpi_home_monitor.ShareLinks.Visitors.{ip_matches, normalise_ua}
use rpi_home_monitor.ShareLinks.{
  ShareLink, Visitor, get_share_link, save_share_link, token_id_from_public_token, ip_pinned,
  ua_pinned, is_open, found, authorise_link,
}
use rpi_home_monitor.ShareLinks.Pages.{Site}
use rpi_home_monitor.ShareLinks.Runs.{Call, IsFresh, run}
use rpi_home_monitor.ShareLinks.Runs.Keeps.{Stable, Held, get_share_link-Held, run-All}
use rpi_home_monitor.ShareLinks.Rows.{
  IsKeyed, AtKey, of_row, of_save, get_share_link-token, fresh-Made,
}

-- A row that is bound to the network of an address.
abbrev pub IsBound : String → ShareLink → Type 0
IsBound ip l = (l.pin_ip ≡ true) × (l.pinned_ip ≡ ip)

IsBound-Stable : (k : Text) (ip : String) → str_eq ip "" ≡ false → Stable (AtKey k (IsBound ip))
IsBound-Stable k ip n = (
  (
    (λ l other h e s.
        absurd (let same = (h s).1 in let empty = (rw same at e) in ground (arith, n, empty))),
    λ l ua h. h,
  ),
  (λ l first last m h. h, λ l now h. h),
)

module _ (hash_public_token : Text → String) (parse_ip : String → Option (ℕ × ℕ))
    (site : Site) where
  abbrev Refused : Option ShareLink × List ShareLink → Type 0
  Refused (o, links) = o ≡ none

  ip_pinned-Refused :
      (ip visitor_ip : String) (l : ShareLink) (links : List ShareLink)
      → IsBound ip l
      → str_eq ip "" ≡ false
      → ip_matches (parse_ip visitor_ip) (parse_ip ip) ≡ false
      → Refused (ip_pinned hash_public_token parse_ip visitor_ip l links)
  ip_pinned-Refused ip visitor_ip l links (on, same) n far =
      if_both Refused (not l.pin_ip) (λ off. absurd (ground (arith, on, off)))
        (λ _.
          if_both Refused (str_eq visitor_ip "") (λ e. refl)
            (λ m.
              if_both Refused (str_eq l.pinned_ip "")
                (λ e. absurd (let empty = (rw same at e) in ground (arith, n, empty)))
                (λ bound.
                  if_both Refused (ip_matches (parse_ip visitor_ip) (parse_ip l.pinned_ip))
                    (λ e. absurd (let near = (rw same at e) in ground (arith, far, near)))
                    (λ e. refl))))

  ua_pinned-Refused :
      (signature : Text) (o : Option ShareLink) (links : List ShareLink)
      → Refused (o, links)
      → Refused (ua_pinned hash_public_token parse_ip signature (o, links))
  ua_pinned-Refused signature none links h = refl
  ua_pinned-Refused signature (some l) links h = absurd (cc h)

  bound-found :
      (ip : String) (token : Text) (expected_type : String) (visitor : Visitor) (now : ℕ)
      (links : List ShareLink) (k : Text) (o : Option ShareLink)
      → get_share_link k links ≡ o
      → Held (AtKey k (IsBound ip)) o
      → str_eq ip "" ≡ false
      → ip_matches (parse_ip visitor.ip) (parse_ip ip) ≡ false
      → Refused (found hash_public_token parse_ip token expected_type visitor now links o)
  bound-found ip token expected_type visitor now links k none e h n far = refl
  bound-found ip token expected_type visitor now links k (some l) e h n far =
      if_both Refused (is_open hash_public_token parse_ip token expected_type now l)
        (λ opened. ua_pinned-Refused (normalise_ua visitor.ua) _ _ (
          ip_pinned-Refused ip visitor.ip l links
            (h ((text_eq_iff l.token k).1 (get_share_link-token k l links e))) n far))
        (λ closed. refl)

  bound_run :
      (token : Text) (now : ℕ) (ip : String) (links : List ShareLink) (calls : List Call)
      (expected_type : String) (visitor : Visitor)
      → All (AtKey (token_id_from_public_token token) (IsBound ip)) links
      → str_eq ip "" ≡ false
      → All (IsFresh (token_id_from_public_token token)) calls
      → ip_matches (parse_ip visitor.ip) (parse_ip ip) ≡ false
      → Refused (
          authorise_link hash_public_token parse_ip token expected_type visitor now
            (run hash_public_token parse_ip site calls links))
  unfolding authorise_link
  bound_run token now ip links calls expected_type visitor h n f far =
      bound-found ip token expected_type visitor now later k _ refl
        (get_share_link-Held (AtKey k (IsBound ip)) k later (
          run-All hash_public_token parse_ip (AtKey k (IsBound ip)) (IsBound-Stable k ip n) site
            calls _ h
            (fresh-Made hash_public_token parse_ip k (IsBound ip) (IsBound-Stable k ip n) calls f)))
        n far
    where
      k : Text
      k = token_id_from_public_token token

      later : List ShareLink
      later = run hash_public_token parse_ip site calls links

  -- A bound share link serves one network: where the row of a token's identifier is pinned to an
  -- address, no identifier stands twice, and further calls make no link of it, a visitor whose address
  -- is not in the network of the pinned one is refused, for every token of the identifier, after any
  -- such calls and at any instant.
  pub bound-authorise_link :
      (token : Text) (now : ℕ) (l : ShareLink) (links : List ShareLink) (calls : List Call)
      (expected_type : String) (visitor : Visitor)
      → IsKeyed links
      → get_share_link (token_id_from_public_token token) links ≡ some l
      → l.pin_ip ≡ true
      → str_eq l.pinned_ip "" ≡ false
      → All (IsFresh (token_id_from_public_token token)) calls
      → ip_matches (parse_ip visitor.ip) (parse_ip l.pinned_ip) ≡ false
      → (authorise_link hash_public_token parse_ip token expected_type visitor now
          (run hash_public_token parse_ip site calls links)).0
        ≡ none
  bound-authorise_link token now l links calls expected_type visitor h e on n f far =
      bound_run token now l.pinned_ip links calls expected_type visitor
        (of_row (IsBound l.pinned_ip) (token_id_from_public_token token) l links h e (on, refl)) n f
        far

  -- The address of a first visitor, who has one, is written into the row.
  ip_pinned-first :
      (visitor_ip : String) (l : ShareLink) (links : List ShareLink)
      → l.pin_ip ≡ true
      → str_eq l.pinned_ip "" ≡ true
      → str_eq visitor_ip "" ≡ false
      → (let l' = record l { pinned_ip = visitor_ip } in
          ip_pinned hash_public_token parse_ip visitor_ip l links
          ≡ (some l', save_share_link l' links))
  ip_pinned-first visitor_ip l links on fresh n =
      if_both Bound (not l.pin_ip) (λ off. absurd (ground (arith, on, off)))
        (λ _.
          if_both Bound (str_eq visitor_ip "") (λ e. absurd (ground (arith, n, e)))
            (λ _.
              if_both Bound (str_eq l.pinned_ip "") (λ e. refl)
                (λ bound. absurd (ground (arith, fresh, bound)))))
    where
      Bound : Option ShareLink × List ShareLink → Type 0
      Bound r =
          (let l' = record l { pinned_ip = visitor_ip } in r ≡ (some l', save_share_link l' links))

  -- A visitor without a browser signature is refused behind that.
  silent-found :
      (token : Text) (expected_type : String) (visitor : Visitor) (now : ℕ) (links : List ShareLink)
      (l : ShareLink)
      → is_open hash_public_token parse_ip token expected_type now l ≡ true
      → (l.pin_ip ≡ true) × (l.pin_ua ≡ true)
      → str_eq l.pinned_ip "" ≡ true
      → str_eq visitor.ip "" ≡ false
      → is_empty (normalise_ua visitor.ua) ≡ true
      → found hash_public_token parse_ip token expected_type visitor now links (some l)
        ≡ (none, save_share_link (record l { pinned_ip = visitor.ip }) links)
  silent-found token expected_type visitor now links l opened (on, on_ua) fresh n silent =
      if_both Silent (is_open hash_public_token parse_ip token expected_type now l)
        (λ _. rw (ip_pinned-first visitor.ip l links on fresh n) (
          if_both Silent (not l.pin_ua) (λ off. absurd (ground (arith, on_ua, off)))
            (λ _.
              if_both Silent (is_empty (normalise_ua visitor.ua)) (λ e. refl)
                (λ heard. absurd (ground (arith, silent, heard))))))
        (λ closed. absurd (ground (arith, opened, closed)))
    where
      Silent : Option ShareLink × List ShareLink → Type 0
      Silent r = r ≡ (none, save_share_link (record l { pinned_ip = visitor.ip }) links)

  -- A refused visitor binds a share link: where both pins of an open link are on and no address is
  -- pinned, a visitor with an address but without a browser signature is refused, and from then on,
  -- after any calls that make no link of the identifier, every visitor is refused whose address is not
  -- in the network of that one, where no identifier stands twice.
  pub refused_visitor_binds :
      (token : Text) (first now : ℕ) (l : ShareLink) (links : List ShareLink) (calls : List Call)
      (expected_type : String) (silent visitor : Visitor)
      → IsKeyed links
      → get_share_link (token_id_from_public_token token) links ≡ some l
      → is_open hash_public_token parse_ip token expected_type first l ≡ true
      → (l.pin_ip ≡ true) × (l.pin_ua ≡ true)
      → str_eq l.pinned_ip "" ≡ true
      → str_eq silent.ip "" ≡ false
      → is_empty (normalise_ua silent.ua) ≡ true
      → All (IsFresh (token_id_from_public_token token)) calls
      → ip_matches (parse_ip visitor.ip) (parse_ip silent.ip) ≡ false
      → (let (answer, links') =
            authorise_link hash_public_token parse_ip token expected_type silent first links in
          (answer ≡ none)
          × ((authorise_link hash_public_token parse_ip token expected_type visitor now
                (run hash_public_token parse_ip site calls links')).0
              ≡ none))
  unfolding authorise_link
  refused_visitor_binds token first now l links calls expected_type silent visitor h e opened pins
        fresh n quiet f far =
      rw e (
        rw (silent-found token expected_type silent first links l opened pins fresh n quiet) (
          refl,
          bound_run token now silent.ip (save_share_link l' links) calls expected_type visitor bound
              n f far,
        ))
    where
      k : Text
      k = token_id_from_public_token token

      l' : ShareLink
      l' = record l { pinned_ip = silent.ip }

      bound : All (AtKey k (IsBound silent.ip)) (save_share_link l' links)
      bound =
          of_save (IsBound silent.ip) k l' links h (get_share_link-token k l links e) (pins.0, refl)
