-- ===== src/Webhooks/Delivery.antt =====
-- One delivery of a webhook, with its redirects and retries
-- (app/server/monitor/services/webhook_delivery_service.py). The network is a record of answers, by
-- the attempt and the redirect in it. How urllib and ipaddress read a text is a parameter.
pub mod Public
pub mod Retries
use rpi_home_monitor.Base.{
  ℕ, zero, suc, ◌+◌, ◌*◌, String, Bool, true, false, ◌&&◌, ◌||◌, not, Option, none, some, List, [],
  ◌∷◌, ◌++◌, Text, codes, text_eq, ◌-◌, length, ltb, leb, ◌==◌, str_eq, if◌then◌else◌, is_empty,
}
use rpi_home_monitor.Accounts.{lower_text}
use rpi_home_monitor.Webhooks.{Destination, mark_delivery_result}

-- What ipaddress says of an address, and of the IPv4 address that is mapped into it.
pub record Flags : Type 0 where
  pub is_private : Bool
  pub is_loopback : Bool
  pub is_link_local : Bool
  pub is_multicast : Bool
  pub is_reserved : Bool
  pub is_unspecified : Bool

pub record Address : Type 0 where
  pub text : String
  pub flags : Flags
  pub ipv4_mapped : Option Flags

abbrev pub seen_flags : Flags → Option Flags → Flags
seen_flags own none = own
seen_flags own (some mapped) = mapped

unfoldable pub is_private_address : Address → Bool
is_private_address a =
    let f = seen_flags a.flags a.ipv4_mapped in
    f.is_private
    || (f.is_loopback
        || (f.is_link_local || (f.is_multicast || (f.is_reserved || f.is_unspecified))))

unfoldable pub any_private : List Address → Bool
any_private [] = false
any_private (a ∷ addresses) = is_private_address a || any_private addresses

pub record Url : Type 0 where
  pub scheme : String
  pub host : String
  pub port : ℕ
  pub rest : String

-- `ValidatedWebhookTarget`: where the connection goes.
pub record Target : Type 0 where
  pub url : Url
  pub connect : Address

pub record Response : Type 0 where
  pub status_code : ℕ
  pub location : Option String

-- What is asked of the network in an attempt and a redirect: the addresses of a name, without the
-- texts that are no addresses, and the answer of a target. `none` is an exception.
pub record Network : Type 0 where
  pub resolve : ℕ → ℕ → String → Option (List Address)
  pub send : ℕ → ℕ → Target → Option Response

abbrev pub is_redirect : ℕ → Bool
is_redirect code = (code == 301 || (code == 302 || code == 303)) || (code == 307 || code == 308)

abbrev pub max_redirects : ℕ
max_redirects = 2

abbrev pub retry_delays_seconds : List ℕ
retry_delays_seconds = 5 ∷ 8 ∷ 13 ∷ []

pub record DeliveryResult : Type 0 where
  pub delivered : Bool
  pub status_code : Option ℕ
  pub attempt : ℕ
  pub will_retry : Bool
  pub exhausted : Bool

-- What a delivery has done so far.
pub record Progress : Type 0 where
  pub rows : List Destination
  pub targets : List Target
  pub sleeps : List ℕ
  pub degraded_events : ℕ

-- `delays[n]`, which is only read within the list.
unfoldable pub nth : ℕ → List ℕ → ℕ
nth n [] = 0
nth zero (x ∷ xs) = x
nth (suc n) (x ∷ xs) = nth n xs

module _ (urlsplit : String → Url) (urljoin : String → String → String)
    (ip_address : String → Option Address) (net : Network) where
  abbrev pub addresses_of : ℕ → ℕ → String → Option Address → Option (List Address)
  addresses_of attempt hop host (some literal) = some (literal ∷ [])
  addresses_of attempt hop host none = net.resolve attempt hop host

  abbrev pub public_target : Url → Option (List Address) → Option Target
  public_target url none = none
  public_target url (some []) = none
  public_target url (some (a ∷ addresses)) =
      if any_private (a ∷ addresses) then none else some (record { url = url; connect = a })

  -- `_ensure_public_target`
  unfoldable pub ensure_public_target : ℕ → ℕ → String → Option Target
  ensure_public_target attempt hop url =
      let parsed = urlsplit url in
      if not (text_eq (lower_text (codes parsed.scheme)) (codes "https"))
      then none
      else public_target parsed (addresses_of attempt hop parsed.host (ip_address parsed.host))

  abbrev pub next_location : Option String → Option String
  next_location none = none
  next_location (some location) = if str_eq location "" then none else some location

  -- What follows the response of a target that was contacted: `again` goes on at the next address.
  abbrev pub redirected :
      Target
      → Response
      → (String → List Target × Option Response)
      → String
      → Option String
      → List Target × Option Response
  redirected target r again url none = (target ∷ [], some r)
  redirected target r again url (some location) =
      let (more, last) = again (urljoin url location) in (target ∷ more, last)

  abbrev pub answered :
      Target
      → (String → List Target × Option Response)
      → String
      → Option Response
      → List Target × Option Response
  answered target again url none = (target ∷ [], none)
  answered target again url (some r) =
      if is_redirect r.status_code
      then redirected target r again url (next_location r.location)
      else (target ∷ [], some r)

  abbrev pub contacted :
      ℕ
      → ℕ
      → (String → List Target × Option Response)
      → String
      → Option Target
      → List Target × Option Response
  contacted attempt hop again url none = ([], none)
  contacted attempt hop again url (some target) =
      answered target again url (net.send attempt hop target)

  abbrev pub contacted_last : ℕ → ℕ → Option Target → List Target × Option Response
  contacted_last attempt hop none = ([], none)
  contacted_last attempt hop (some target) = (target ∷ [], net.send attempt hop target)

  -- `_post_with_redirects`, with the redirects that are left: the targets that were contacted, and the
  -- response, where none is an exception.
  unfoldable pub post_from : ℕ → ℕ → ℕ → String → List Target × Option Response
  post_from attempt zero hop url = contacted_last attempt hop (ensure_public_target attempt hop url)
  post_from attempt (suc left) hop url =
      contacted attempt hop (λ next. post_from attempt left (hop + 1) next) url
        (ensure_public_target attempt hop url)

  unfoldable pub post_with_redirects : ℕ → String → List Target × Option Response
  post_with_redirects attempt url = post_from attempt max_redirects 0 url

  -- `DeliveryResult`, as far as it decides something. `exhausted` is the result behind the loop.
  abbrev pub verdict : ℕ → ℕ → Option Response → DeliveryResult
  verdict retries attempt none = record {
    delivered = false;
    status_code = none;
    attempt = attempt;
    will_retry = leb attempt retries;
    exhausted = false;
  }
  verdict retries attempt (some r) =
      let fine = leb 200 r.status_code && ltb r.status_code 300 in
      record {
        delivered = fine;
        status_code = some r.status_code;
        attempt = attempt;
        will_retry = not fine && (leb 500 r.status_code && leb attempt retries);
        exhausted = false;
      }

  abbrev pub progressed : Destination → String → Bool → List Target → Progress → Progress
  progressed d at success targets p =
      let (rows, degraded_now) = mark_delivery_result d.id success at p.rows in
      record {
        rows = rows;
        targets = p.targets ++ targets;
        sleeps = p.sleeps;
        degraded_events = if degraded_now then p.degraded_events + 1 else p.degraded_events;
      }

  -- What follows an attempt: `again` is the next one.
  abbrev pub concluded :
      Destination
      → String
      → ℕ
      → DeliveryResult
      → List Target
      → (Progress → DeliveryResult × Progress)
      → Progress
      → DeliveryResult × Progress
  concluded d at delay result targets again p =
      let p' = progressed d at result.delivered targets p in
      if result.will_retry
      then again (record p' { sleeps = p'.sleeps ++ delay ∷ [] })
      else (result, p')

  -- The loop of `_deliver`, with the attempts that are left.
  unfoldable pub deliver_from :
      Destination → String → List ℕ → ℕ → ℕ → Progress → DeliveryResult × Progress
  deliver_from d at delays zero attempt p = (
    record {
      delivered = false;
      status_code = none;
      attempt = attempt - 1;
      will_retry = false;
      exhausted = true;
    },
    p,
  )
  deliver_from d at delays (suc left) attempt p =
      let (targets, response) = post_with_redirects attempt d.url in
      concluded d at (nth (attempt - 1) delays) (verdict (length delays) attempt response) targets
        (λ p'. deliver_from d at delays left (attempt + 1) p') p

  -- `_deliver`
  unfoldable pub deliver :
      Destination → String → List ℕ → List Destination → DeliveryResult × Progress
  deliver d at delays rows =
      deliver_from d at delays (1 + length delays) 1
        (record { rows = rows; targets = []; sleeps = []; degraded_events = 0 })
