-- ===== src/Webhooks/Tests.antt =====
-- Deliveries of a webhook over a small network, and the theorems of the webhooks at them.
use rpi_home_monitor.Base.{
  ℕ, zero, suc, ◌+◌, ◌*◌, ◌≤◌, ◌≡◌, refl, String, Bool, true, false, Option, none, some, List, [],
  ◌∷◌, text_eq, length, keep, if◌then◌else◌, str_eq, All,
}
use rpi_home_monitor.Accounts.{lower_text}
use rpi_home_monitor.Webhooks.{
  Destination, is_one_of, get_destination, mark, mark_delivery_result, enqueue, task_destination,
  audit_class,
}
use rpi_home_monitor.Webhooks.Delivery.{
  Flags, Address, Url, Target, Response, Network, DeliveryResult, Progress, is_private_address,
  any_private, nth, ensure_public_target, post_from, post_with_redirects, deliver_from, deliver,
}
use rpi_home_monitor.Webhooks.Degraded.{
  mark_all, failures_since, fifth_failures, IsCounted, mark_all-IsCounted,
}
use rpi_home_monitor.Webhooks.Delivery.Public.{IsPublic, deliver-IsPublic}
use rpi_home_monitor.Webhooks.Delivery.Retries.{IsEnded, deliver-IsEnded}

program : Unit {0}
unfolding is_one_of get_destination mark mark_delivery_result enqueue task_destination audit_class
    is_private_address any_private nth ensure_public_target post_from post_with_redirects
    deliver_from deliver mark_all failures_since fifth_failures lower_text text_eq keep
program = tt

abbrev hook : Destination
hook = record {
  id = "w1";
  url = "https://hooks.example/a";
  auth_type = "none";
  secret = "";
  custom_headers = [];
  event_classes = "motion" ∷ "storage_low" ∷ [];
  enabled = true;
  created_at = "2026-01-01T00:00:00Z";
  last_delivery_at = none;
  consecutive_failures = 0;
  degraded = false;
}

abbrev rows : List Destination
rows = hook ∷ []

abbrev open_flags : Flags
open_flags = record {
  is_private = false;
  is_loopback = false;
  is_link_local = false;
  is_multicast = false;
  is_reserved = false;
  is_unspecified = false;
}

abbrev outside : Address
outside = record { text = "203.0.113.9"; flags = open_flags; ipv4_mapped = none }

abbrev inside : Address
inside = record {
  text = "::ffff:192.168.1.7";
  flags = open_flags;
  ipv4_mapped = some (record open_flags { is_private = true });
}

-- Three texts that the parameters read: the hook, a place within the network, and plain HTTP.
abbrev urlsplit : String → Url
urlsplit url =
    if str_eq url "https://hooks.example/a"
    then record { scheme = "HTTPS"; host = "hooks.example"; port = 443; rest = "/a" }
    else if str_eq url "https://camera.lan/b"
    then record { scheme = "https"; host = "camera.lan"; port = 443; rest = "/b" }
    else record { scheme = "http"; host = "hooks.example"; port = 80; rest = "/c" }

abbrev urljoin : String → String → String
urljoin base location = location

abbrev ip_address : String → Option Address
ip_address host = none

-- A server that is busy at the first attempt, and sends the second one into the network.
abbrev send : ℕ → ℕ → Target → Option Response
send (suc zero) hop target = some (record { status_code = 503; location = none })
send (suc (suc zero)) zero target =
    some (record { status_code = 302; location = some "https://camera.lan/b" })
send attempt hop target = some (record { status_code = 204; location = none })

abbrev net : Network
net = record {
  resolve = λ attempt hop host. some ((if str_eq host "camera.lan" then inside else outside) ∷ []);
  send = send;
}

abbrev delays : List ℕ
delays = 5 ∷ 8 ∷ 13 ∷ []

abbrev outcome : DeliveryResult × Progress
outcome = deliver urlsplit urljoin ip_address net hook "t1" delays rows

third_attempt : outcome.0.attempt ≡ 3
unfolding program
third_attempt = refl

delivered : outcome.0.delivered ≡ true
unfolding program
delivered = refl

three_contacts : length outcome.1.targets ≡ 3
unfolding program
three_contacts = refl

two_pauses : outcome.1.sleeps ≡ (5 ∷ 8 ∷ [])
unfolding program
two_pauses = refl

queued : enqueue "storage_low" rows ≡ rows
unfolding program
queued = refl

not_wanted : task_destination "w1" "ota_outcome" rows ≡ none
unfolding program
not_wanted = refl

retention : audit_class false "RETENTION_RISK" ≡ some ("storage_low", "error")
unfolding program
retention = refl

deliver-IsPublic_example :
    All IsPublic (deliver urlsplit urljoin ip_address net hook "t1" delays rows).1.targets
    × (length (deliver urlsplit urljoin ip_address net hook "t1" delays rows).1.targets
        ≤ 3 * (1 + length delays))
deliver-IsPublic_example = deliver-IsPublic urlsplit urljoin ip_address net hook "t1" delays rows

deliver-IsEnded_example :
    IsEnded (length delays) (deliver urlsplit urljoin ip_address net hook "t1" delays rows)
deliver-IsEnded_example = deliver-IsEnded urlsplit urljoin ip_address net hook "t1" delays rows

-- A success, and then six failures.
abbrev results : List (Bool × String)
results =
    (true, "t0")
    ∷ (false, "t1")
    ∷ (false, "t2")
    ∷ (false, "t3")
    ∷ (false, "t4")
    ∷ (false, "t5")
    ∷ (false, "t6")
    ∷ []

one_event : (mark_all "w1" results rows).1 ≡ 1
unfolding program
one_event = refl

found : get_destination "w1" rows ≡ some hook
unfolding program
found = refl

mark_all-IsCounted_example :
    IsCounted "w1" results hook.consecutive_failures (mark_all "w1" results rows)
mark_all-IsCounted_example = mark_all-IsCounted "w1" results hook rows found refl
