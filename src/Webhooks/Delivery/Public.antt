-- ===== src/Webhooks/Delivery/Public.antt =====
-- Where a delivery connects to, and how often
-- (app/server/monitor/services/webhook_delivery_service.py).
use rpi_home_monitor.Base.{
  ℕ, zero, suc, ◌+◌, ◌-◌, ◌*◌, ◌≤◌, String, ◌≡◌, true, false, Option, none, some, List, [], ◌∷◌,
  ◌++◌, codes, text_eq, length, length-append, All, All-append, Bool-cases, inl, inr, arith,
}
use rpi_home_monitor.Accounts.{lower_text}
use rpi_home_monitor.Webhooks.{Destination}
use rpi_home_monitor.Webhooks.Delivery.{
  Address, Url, Target, Response, Network, DeliveryResult, Progress, is_private_address,
  any_private, is_redirect, max_redirects, nth, public_target, ensure_public_target, redirected,
  answered, contacted, contacted_last, post_from, post_with_redirects, verdict, concluded,
  deliver_from, deliver,
}

-- A target over HTTPS at an address that is not private in any of the six ways.
abbrev pub IsPublic : Target → Type 0
IsPublic t =
    (is_private_address t.connect ≡ false)
    × (text_eq (lower_text (codes t.url.scheme)) (codes "https") ≡ true)

-- The targets that a redirect chain contacts: all public, and no more than so many.
abbrev Bounded : ℕ → List Target × Option Response → Type 0
Bounded n (targets, r) = All IsPublic targets × (length targets ≤ n)

abbrev Checked : Option Target → Type 0
Checked none = Unit
Checked (some t) = IsPublic t

public_first :
    (a : Address) (addresses : List Address)
    → any_private (a ∷ addresses) ≡ false
    → is_private_address a ≡ false
unfolding any_private
public_first a addresses h = ground arith

module _ (urlsplit : String → Url) (urljoin : String → String → String)
    (ip_address : String → Option Address) (net : Network) where
  public_target-Checked :
      (url : Url) (o : Option (List Address))
      → text_eq (lower_text (codes url.scheme)) (codes "https") ≡ true
      → Checked (public_target urlsplit urljoin ip_address net url o)
  public_target-Checked url none h = tt
  public_target-Checked url (some []) h = tt
  public_target-Checked url (some (a ∷ addresses)) h =
      elim (Bool-cases (any_private (a ∷ addresses))) [
        | inl inside ↦ rw inside tt
        | inr outside ↦ rw outside (public_first a addresses outside, h)
      ]

  ensure-Checked :
      (attempt hop : ℕ) (url : String)
      → Checked (ensure_public_target urlsplit urljoin ip_address net attempt hop url)
  unfolding ensure_public_target
  ensure-Checked attempt hop url =
      elim (Bool-cases (text_eq (lower_text (codes (urlsplit url).scheme)) (codes "https"))) [
        | inl https ↦ rw https (public_target-Checked (urlsplit url) _ https)
        | inr other ↦ rw other tt
      ]

  redirected-Bounded :
      (n : ℕ) (t : Target) (r : Response) (again : String → List Target × Option Response)
      (url : String) (o : Option String)
      → IsPublic t
      → ((next : String) → Bounded n (again next))
      → Bounded (suc n) (redirected urlsplit urljoin ip_address net t r again url o)
  redirected-Bounded n t r again url none p h = ((p, tt), omega arith)
  redirected-Bounded n t r again url (some location) p h =
      let (rest, few) = h (urljoin url location) in ((p, rest), omega (arith, few))

  answered-Bounded :
      (n : ℕ) (t : Target) (again : String → List Target × Option Response) (url : String)
      (o : Option Response)
      → IsPublic t
      → ((next : String) → Bounded n (again next))
      → Bounded (suc n) (answered urlsplit urljoin ip_address net t again url o)
  answered-Bounded n t again url none p h = ((p, tt), omega arith)
  answered-Bounded n t again url (some r) p h = elim (Bool-cases (is_redirect r.status_code)) [
    | inl on ↦ rw on (redirected-Bounded n t r again url _ p h)
    | inr off ↦ rw off ((p, tt), omega arith)
  ]

  contacted-Bounded :
      (n attempt hop : ℕ) (again : String → List Target × Option Response) (url : String)
      (o : Option Target)
      → Checked o
      → ((next : String) → Bounded n (again next))
      → Bounded (suc n) (contacted urlsplit urljoin ip_address net attempt hop again url o)
  contacted-Bounded n attempt hop again url none p h = (tt, omega arith)
  contacted-Bounded n attempt hop again url (some t) p h =
      answered-Bounded n t again url (net.send attempt hop t) p h

  contacted_last-Bounded :
      (attempt hop : ℕ) (o : Option Target)
      → Checked o
      → Bounded 1 (contacted_last urlsplit urljoin ip_address net attempt hop o)
  contacted_last-Bounded attempt hop none p = (tt, omega arith)
  contacted_last-Bounded attempt hop (some t) p = ((p, tt), omega arith)

  post_from-Bounded :
      (attempt left hop : ℕ) (url : String)
      → Bounded (suc left) (post_from urlsplit urljoin ip_address net attempt left hop url)
  unfolding post_from
  post_from-Bounded attempt zero hop url =
      contacted_last-Bounded attempt hop _ (ensure-Checked attempt hop url)
  post_from-Bounded attempt (suc left) hop url =
      contacted-Bounded (suc left) attempt hop
        (λ next. post_from urlsplit urljoin ip_address net attempt left (hop + 1) next) url _
        (ensure-Checked attempt hop url) (λ next. post_from-Bounded attempt left (hop + 1) next)

  -- What a delivery has contacted.
  abbrev Contacts : ℕ → Progress → Type 0
  Contacts n p = All IsPublic p.targets × (length p.targets ≤ n)

  concluded-Contacts :
      (n m : ℕ) (d : Destination) (at : String) (delay : ℕ) (result : DeliveryResult)
      (targets : List Target) (again : Progress → DeliveryResult × Progress) (p : Progress)
      → Contacts n p
      → All IsPublic targets
      → length targets ≤ 3
      → n + 3 ≤ m
      → ((q : Progress) → Contacts (n + 3) q → Contacts m (again q).1)
      → Contacts m (concluded urlsplit urljoin ip_address net d at delay result targets again p).1
  concluded-Contacts n m d at delay result targets again p (good, few) more short room h =
      elim (Bool-cases result.will_retry) [
        | inl retry ↦ rw retry (h _ (together, omega (arith, lens, few, short)))
        | inr over ↦ rw over (together, omega (arith, lens, few, short, room))
      ]
    where
      together : All IsPublic (p.targets ++ targets)
      together = All-append IsPublic p.targets targets good more

      lens : length (p.targets ++ targets) ≡ length p.targets + length targets
      lens = length-append p.targets targets

  deliver_from-Contacts :
      (d : Destination) (at : String) (delays : List ℕ) (left attempt n : ℕ) (p : Progress)
      → Contacts n p
      → Contacts
          (n + 3 * left)
          (deliver_from urlsplit urljoin ip_address net d at delays left attempt p).1
  unfolding deliver_from post_with_redirects
  deliver_from-Contacts d at delays zero attempt n p h = (h.0, omega (arith, h.1))
  deliver_from-Contacts d at delays (suc left) attempt n p h =
      let (good, few) = post_from-Bounded attempt max_redirects 0 d.url in
      let (targets, response) = post_with_redirects urlsplit urljoin ip_address net attempt d.url in
      concluded-Contacts n (n + 3 * suc left) d at (nth (attempt - 1) delays)
        (verdict urlsplit urljoin ip_address net (length delays) attempt response) targets
        (λ q. deliver_from urlsplit urljoin ip_address net d at delays left (attempt + 1) q) p h
        good (omega (arith, few)) (omega arith)
        (λ q c.
          let (g, f) = deliver_from-Contacts d at delays left (attempt + 1) (n + 3) q c in
          (g, omega (arith, f)))

  -- A delivery connects to public addresses only, and not often: every target that `_deliver` contacts,
  -- in all its attempts and at every redirect, is reached over HTTPS at an address that is neither
  -- private nor loopback, link-local, multicast, reserved or unspecified, whatever names resolve to
  -- and wherever answers redirect to; and there are at most three contacts for each of the attempts.
  pub deliver-IsPublic :
      (d : Destination) (at : String) (delays : List ℕ) (rows : List Destination)
      → All IsPublic (deliver urlsplit urljoin ip_address net d at delays rows).1.targets
        × (length (deliver urlsplit urljoin ip_address net d at delays rows).1.targets
            ≤ 3 * (1 + length delays))
  unfolding deliver
  deliver-IsPublic d at delays rows =
      let (good, few) =
        deliver_from-Contacts d at delays (1 + length delays) 1 0 _ (tt, omega arith) in
      (good, omega (arith, few))
