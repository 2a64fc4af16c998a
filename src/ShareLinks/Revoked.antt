-- ===== src/ShareLinks/Revoked.antt =====
-- What ends the access by a share link
-- (app/server/monitor/services/share_link_service.py).
use rpi_home_monitor.Base.{
  ℕ, String, ◌≡◌, refl, true, Option, none, some, List, inl, inr, Text, if_both, Option-cases, All,
  arith,
}
use rpi_home_monitor.OtaPolicy.Order.{text_eq_iff}
use rpi_home_monitor.ShareLinks.{
  ShareLink, Visitor, Refusal, is_stamped, get_share_link, token_id_from_public_token,
  revoke_share_link, is_open, found, authorise_link,
}
use rpi_home_monitor.ShareLinks.Pages.{Site}
use rpi_home_monitor.ShareLinks.Runs.{Call, IsFresh, run}
use rpi_home_monitor.ShareLinks.Runs.Keeps.{Stable, Held, get_share_link-Held, run-All}
use rpi_home_monitor.ShareLinks.Rows.{
  IsKeyed, AtKey, of_row, of_none, of_save, get_share_link-token, fresh-Made,
}

abbrev Off : ShareLink → Type 0
Off l = is_stamped l.revoked_at ≡ true

abbrev IsOff : Text → ShareLink → Type 0
IsOff k = AtKey k Off

IsOff-Stable : (k : Text) → Stable (IsOff k)
IsOff-Stable k = ((λ l ip h e. h, λ l ua h. h), (λ l first last n h. h, λ l now h e. refl))

revoke-IsOff :
    (token : Text) (now : ℕ) (links : List ShareLink)
    → IsKeyed links
    → All (IsOff (token_id_from_public_token token)) (revoke_share_link token now links).1
unfolding revoke_share_link
revoke-IsOff token now links h = elim (Option-cases (get_share_link k links)) [
  | inl e ↦ rw e (of_none Off k links e)
  | inr (l, e) ↦ rw e (
      if_both {A = Option Refusal × List ShareLink} (λ r. All (IsOff k) r.1)
        (is_stamped l.revoked_at) (of_row Off k l links h e)
        (λ on.
          of_save Off k (record l { revoked_at = some now }) links h
            (get_share_link-token k l links e) refl))
]
  where
    k : Text
    k = token_id_from_public_token token

module _ (hash_public_token : Text → String) (parse_ip : String → Option (ℕ × ℕ))
    (site : Site) where
  off-found :
      (token : Text) (expected_type : String) (visitor : Visitor) (now : ℕ) (links : List ShareLink)
      (k : Text) (o : Option ShareLink)
      → get_share_link k links ≡ o
      → Held (IsOff k) o
      → found hash_public_token parse_ip token expected_type visitor now links o ≡ (none, links)
  off-found token expected_type visitor now links k none e h = refl
  off-found token expected_type visitor now links k (some l) e h =
      if_both {A = Option ShareLink × List ShareLink} (λ r. r ≡ (none, links))
        (is_open hash_public_token parse_ip token expected_type now l)
        (λ opened. absurd (
          let off = h ((text_eq_iff l.token k).1 (get_share_link-token k l links e)) in
          ground (arith, opened, off)))
        (λ closed. refl)

  -- A revoked share link stays dead: after `revoke_share_link` with a token, on rows without an
  -- identifier twice, and after any further calls of the service by anybody that make no link of that
  -- identifier, every token of the same identifier is refused, whatever the visitor, the kind of page
  -- and the instant, and the rows stay as they are.
  pub revoke-authorise_link :
      (revoked_token token : Text) (revoked_at now : ℕ) (links : List ShareLink) (calls : List Call)
      (expected_type : String) (visitor : Visitor)
      → IsKeyed links
      → All (IsFresh (token_id_from_public_token token)) calls
      → token_id_from_public_token revoked_token ≡ token_id_from_public_token token
      → (let later =
            run hash_public_token parse_ip site calls
              (revoke_share_link revoked_token revoked_at links).1 in
          authorise_link hash_public_token parse_ip token expected_type visitor now later
          ≡ (none, later))
  unfolding authorise_link
  revoke-authorise_link revoked_token token revoked_at now links calls expected_type visitor h f
        same =
      off-found token expected_type visitor now later k _ refl
        (get_share_link-Held (IsOff k) k later off)
    where
      k : Text
      k = token_id_from_public_token token

      later : List ShareLink
      later =
          run hash_public_token parse_ip site calls
            (revoke_share_link revoked_token revoked_at links).1

      off : All (IsOff k) later
      off =
          run-All hash_public_token parse_ip (IsOff k) (IsOff-Stable k) site calls _
            (rw same at (revoke-IsOff revoked_token revoked_at links h))
            (fresh-Made hash_public_token parse_ip k Off (IsOff-Stable k) calls f)
