-- ===== src/Webhooks.antt =====
-- Outbound webhooks (app/server/monitor/services/webhook_delivery_service.py): the destinations in the
-- settings, the events that are queued for them, and the count of failed deliveries. Texts are as
-- they are behind `str()` and `strip()`.
pub mod Delivery
pub mod Degraded
mod Tests
use rpi_home_monitor.Base.{
  ℕ, ◌+◌, String, Bool, true, false, ◌&&◌, ◌||◌, not, Option, none, some, List, [], ◌∷◌, Dict, keep,
  length, ltb, leb, str_eq, if◌then◌else◌,
}

pub record Destination : Type 0 where
  pub id : String
  pub url : String
  pub auth_type : String
  pub secret : String
  pub custom_headers : Dict String
  pub event_classes : List String
  pub enabled : Bool
  pub created_at : String
  pub last_delivery_at : Option String
  pub consecutive_failures : ℕ
  pub degraded : Bool

abbrev pub degraded_failure_threshold : ℕ
degraded_failure_threshold = 5

unfoldable pub is_one_of : String → List String → Bool
is_one_of x [] = false
is_one_of x (y ∷ ys) = str_eq x y || is_one_of x ys

abbrev pub event_class_choices : List String
event_class_choices = "motion" ∷ "camera_offline" ∷ "storage_low" ∷ "ota_outcome" ∷ []

-- `_get_destination`
unfoldable pub get_destination : String → List Destination → Option Destination
get_destination k [] = none
get_destination k (d ∷ rows) = if str_eq d.id k then some d else get_destination k rows

-- `_mark_delivery_result` on one destination: the destination, and whether it is degraded now.
unfoldable pub mark : Bool → String → Destination → Destination × Bool
mark true at d =
    (record d { last_delivery_at = some at; consecutive_failures = 0; degraded = false }, false)
mark false at d =
    let failures = d.consecutive_failures + 1 in
    let degraded_now = leb degraded_failure_threshold failures && not d.degraded in
    (
      record d {
        consecutive_failures = failures;
        degraded = if degraded_now then true else d.degraded;
      },
      degraded_now,
    )

unfoldable pub mark_delivery_result :
    String → Bool → String → List Destination → List Destination × Bool
mark_delivery_result k success at [] = ([], false)
mark_delivery_result k success at (d ∷ rows) =
    let (rest, degraded_later) = mark_delivery_result k success at rows in
    let (d', degraded_now) = mark success at d in
    if str_eq d.id k then (d' ∷ rows, degraded_now) else (d ∷ rest, degraded_later)

-- The destinations that `_enqueue` puts a task in the queue for.
unfoldable pub enqueue : String → List Destination → List Destination
enqueue event_class rows =
    keep (λ d. d.enabled && (str_eq event_class "test" || is_one_of event_class d.event_classes))
      rows

-- `_deliver_task` up to the delivery: the destination, if the task still stands.
abbrev pub still_wanted : String → Option Destination → Option Destination
still_wanted event_class none = none
still_wanted event_class (some d) =
    if d.enabled && is_one_of event_class d.event_classes then some d else none

unfoldable pub task_destination : String → String → List Destination → Option Destination
task_destination k event_class rows = still_wanted event_class (get_destination k rows)

-- `handle_audit_entry`: the class of event and the severity that an audit event stands for. What
-- concerns webhooks themselves is left out first.
unfoldable pub audit_class : Bool → String → Option (String × String)
audit_class starts_with_webhook code =
    if starts_with_webhook
    then none
    else if str_eq code "CAMERA_OFFLINE"
    then some ("camera_offline", "warning")
    else if str_eq code "STORAGE_LOW"
    then some ("storage_low", "warning")
    else if str_eq code "RETENTION_RISK"
    then some ("storage_low", "error")
    else if str_eq code "OTA_COMPLETED"
    then some ("ota_outcome", "info")
    else if str_eq code "OTA_FAILED"
    then some ("ota_outcome", "error")
    else if str_eq code "OTA_ROLLBACK"
    then some ("ota_outcome", "warning")
    else if str_eq code "OTA_INSTALL_COMPLETE"
    then some ("ota_outcome", "info")
    else if str_eq code "OTA_INSTALL_FAILED"
    then some ("ota_outcome", "error")
    else none
