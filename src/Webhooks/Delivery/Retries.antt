-- ===== src/Webhooks/Delivery/Retries.antt =====
-- How the retries of a delivery end (app/server/monitor/services/webhook_delivery_service.py).
use rpi_home_monitor.Base.{
  ℕ, zero, suc, ◌+◌, ◌-◌, ◌≤◌, String, ◌≡◌, refl, true, false, Option, none, some, List, [], ◌∷◌,
  ◌++◌, length, length-append, Bool-cases, inl, inr, arith,
}
use rpi_home_monitor.Webhooks.{Destination}
use rpi_home_monitor.Webhooks.Delivery.{
  Address, Url, Target, Response, Network, DeliveryResult, Progress, nth, post_with_redirects,
  verdict, concluded, deliver_from, deliver,
}

-- How a delivery has ended: with a result of an attempt, after a pause before every later attempt.
abbrev pub IsEnded : ℕ → DeliveryResult × Progress → Type 0
IsEnded retries (result, p) =
    ((result.exhausted ≡ false) × (result.will_retry ≡ false))
    × ((length p.sleeps + 1 ≡ result.attempt) × (result.attempt ≤ 1 + retries))

module _ (urlsplit : String → Url) (urljoin : String → String → String)
    (ip_address : String → Option Address) (net : Network) where
  -- A result says that it is one of this attempt, and a retry that there are attempts left.
  abbrev Sound : ℕ → ℕ → DeliveryResult → Type 0
  Sound retries attempt result =
      ((result.exhausted ≡ false) × (result.attempt ≡ attempt))
      × (result.will_retry ≡ true → attempt ≤ retries)

  verdict-Sound :
      (retries attempt : ℕ) (o : Option Response)
      → Sound retries attempt (verdict urlsplit urljoin ip_address net retries attempt o)
  verdict-Sound retries attempt none = ((refl, refl), λ h. ground arith)
  verdict-Sound retries attempt (some r) = ((refl, refl), λ h. ground arith)

  concluded-IsEnded :
      (d : Destination) (at : String) (retries attempt delay : ℕ) (result : DeliveryResult)
      (targets : List Target) (again : Progress → DeliveryResult × Progress) (p : Progress)
      → Sound retries attempt result
      → length p.sleeps + 1 ≡ attempt
      → attempt ≤ 1 + retries
      → (attempt ≤ retries
          → (q : Progress) → length q.sleeps + 1 ≡ attempt + 1
          → IsEnded retries (again q))
      → IsEnded retries
          (concluded urlsplit urljoin ip_address net d at delay result targets again p)
  concluded-IsEnded d at retries attempt delay result targets again p ((one, two), on) h few go =
      elim (Bool-cases result.will_retry) [
        | inl retry ↦ rw retry (go (on retry) _ (omega (arith, lens, h)))
        | inr over ↦ rw over ((one, refl), (omega (arith, two, h), omega (arith, two, few)))
      ]
    where
      lens : length (p.sleeps ++ delay ∷ []) ≡ length p.sleeps + 1
      lens = length-append p.sleeps (delay ∷ [])

  deliver_from-IsEnded :
      (d : Destination) (at : String) (delays : List ℕ) (left attempt : ℕ) (p : Progress)
      → length p.sleeps + 1 ≡ attempt
      → attempt + left ≡ 2 + length delays
      → attempt ≤ 1 + length delays
      → IsEnded
          (length delays)
          (deliver_from urlsplit urljoin ip_address net d at delays left attempt p)
  unfolding deliver_from
  deliver_from-IsEnded d at delays zero attempt p h total few = absurd (omega (arith, total, few))
  deliver_from-IsEnded d at delays (suc left) attempt p h total few =
      let (targets, response) = post_with_redirects urlsplit urljoin ip_address net attempt d.url in
      concluded-IsEnded d at (length delays) attempt (nth (attempt - 1) delays)
        (verdict urlsplit urljoin ip_address net (length delays) attempt response) targets
        (λ q. deliver_from urlsplit urljoin ip_address net d at delays left (attempt + 1) q) p
        (verdict-Sound (length delays) attempt response) h few
        (λ room q slept.
          deliver_from-IsEnded d at delays left (attempt + 1) q slept (omega (arith, total))
            (omega (arith, room)))

  -- Every delivery ends with a result of an attempt: `_deliver` never falls out of its loop, what it
  -- returns does not promise another retry, it slept once before each attempt but the first, and it
  -- made at most one attempt more than there are delays, whatever the network answers.
  pub deliver-IsEnded :
      (d : Destination) (at : String) (delays : List ℕ) (rows : List Destination)
      → IsEnded (length delays) (deliver urlsplit urljoin ip_address net d at delays rows)
  unfolding deliver
  deliver-IsEnded d at delays rows =
      deliver_from-IsEnded d at delays (1 + length delays) 1 _ refl (omega arith) (omega arith)
