-- ===== src/ShareLinks/Rows.antt =====
-- The rows of one identifier among the share links
-- (app/server/monitor/services/share_link_service.py).
use rpi_home_monitor.Base.{
  ℕ, String, ◌≡◌, sym, ◌∙◌, ap, true, false, Option, none, some, List, [], ◌∷◌, inl, inr, Text,
  text_eq, Bool-cases, All, arith,
}
use rpi_home_monitor.OtaPolicy.Order.{text_eq_iff}
use rpi_home_monitor.ShareLinks.{ShareLink, get_share_link, save_share_link}
use rpi_home_monitor.ShareLinks.Runs.{Call, IsFresh}
use rpi_home_monitor.ShareLinks.Runs.Keeps.{Stable, Made}

-- No identifier twice, as `save_share_link` keeps it.
abbrev pub IsKeyed : List ShareLink → Type 0
IsKeyed [] = Unit
IsKeyed (l ∷ links) = All (λ m. text_eq m.token l.token ≡ false) links × IsKeyed links

-- A property of the rows of one identifier.
abbrev pub AtKey : Text → (ShareLink → Type 0) → ShareLink → Type 0
AtKey k Q l = text_eq l.token k ≡ true → Q l

of_others :
    (Q : ShareLink → Type 0) (k : Text) (links : List ShareLink)
    → All (λ m. text_eq m.token k ≡ false) links
    → All (AtKey k Q) links
of_others Q k [] h = tt
of_others Q k (l ∷ links) h = ((λ e. absurd (ground (arith, e, h.0))), of_others Q k links h.1)

-- Behind a row of the identifier there is no other one.
behind :
    (Q : ShareLink → Type 0) (k j : Text) (links : List ShareLink)
    → text_eq j k ≡ true
    → All (λ m. text_eq m.token j ≡ false) links
    → All (AtKey k Q) links
behind Q k j links e h = of_others Q k links (rw⁻¹ ((text_eq_iff j k).0 e) h)

pub of_row :
    (Q : ShareLink → Type 0) (k : Text) (l : ShareLink) (links : List ShareLink)
    → IsKeyed links
    → get_share_link k links ≡ some l
    → Q l
    → All (AtKey k Q) links
unfolding get_share_link
of_row Q k l [] h e r = absurd (cc e)
of_row Q k l (m ∷ links) h e r = elim (Bool-cases (text_eq m.token k)) [
  | inl same ↦
      let first : some m ≡ some l = (rw same at e) in
      let it : m ≡ l = cc first in ((λ _. rw it r), behind Q k m.token links same h.0)
  | inr other ↦ ((λ s. absurd (ground (arith, s, other))), of_row Q k l links h.1 (rw other at e) r)
]

pub of_none :
    (Q : ShareLink → Type 0) (k : Text) (links : List ShareLink)
    → get_share_link k links ≡ none
    → All (AtKey k Q) links
unfolding get_share_link
of_none Q k [] e = tt
of_none Q k (m ∷ links) e = elim (Bool-cases (text_eq m.token k)) [
  | inl same ↦ absurd (let found : some m ≡ none = (rw same at e) in cc found)
  | inr other ↦ ((λ s. absurd (ground (arith, s, other))), of_none Q k links (rw other at e))
]

pub get_share_link-token :
    (k : Text) (l : ShareLink) (links : List ShareLink)
    → get_share_link k links ≡ some l
    → l.token ≡ k
unfolding get_share_link
get_share_link-token k l [] e = absurd (cc e)
get_share_link-token k l (m ∷ links) e = elim (Bool-cases (text_eq m.token k)) [
  | inl same ↦
      let first : some m ≡ some l = (rw same at e) in
      let it : m ≡ l = cc first in ap (λ x. x.token) (sym it) ∙ (text_eq_iff m.token k).0 same
  | inr other ↦ get_share_link-token k l links (rw other at e)
]

-- A revoked row in the place of the row of its identifier.
pub of_save :
    (Q : ShareLink → Type 0) (k : Text) (l : ShareLink) (links : List ShareLink)
    → IsKeyed links
    → l.token ≡ k
    → Q l
    → All (AtKey k Q) (save_share_link l links)
unfolding save_share_link
of_save Q k l [] h e r = ((λ _. r), tt)
of_save Q k l (m ∷ links) h e r = elim (Bool-cases (text_eq m.token l.token)) [
  | inl same ↦ rw same ((λ _. r), behind Q k m.token links (rw e at same) h.0)
  | inr other ↦ rw other (
    (λ s. absurd (let no = (rw e at other) in ground (arith, s, no))),
    of_save Q k l links h.1 e r,
  )
]

module _ (hash_public_token : Text → String) (parse_ip : String → Option (ℕ × ℕ)) where
  -- Calls that make no link of the identifier make no other row of it.
  pub fresh-Made :
      (k : Text) (Q : ShareLink → Type 0) (s : Stable (AtKey k Q)) (calls : List Call)
      → All (IsFresh k) calls
      → All (Made hash_public_token parse_ip (AtKey k Q) s) calls
  fresh-Made k Q s [] h = tt
  fresh-Made k Q s (call ∷ calls) h = (made call h.0, fresh-Made k Q s calls h.1)
    where
      made : (c : Call) → IsFresh k c → Made hash_public_token parse_ip (AtKey k Q) s c
      made (Call.create order now) f = λ seconds e. absurd (ground (arith, e, f))
      made (Call.revoke token now) f = tt
      made (Call.cleanup now) f = tt
      made (Call.visit place token visitor now) f = tt
