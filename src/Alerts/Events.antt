-- ===== src/Alerts/Events.antt =====
-- The rows of an alert: the event, and a delivery for each recipient. `AvailabilityService` of
-- server/app/health/service.py and `GPUIncidentService` of server/app/gpu/service.py write the same.
pub mod Effects
pub mod Sending
use skybeat.Base.{
  ℕ, ◌+◌, String, Bool, ◌&&◌, List, [], ◌∷◌, ◌++◌, map, none, some, ◌==◌, if◌then◌else◌, any, find?,
  str_eq,
}
use skybeat.Store.{Db, Env, Result, ok, raise, integrity_error, project_missing, ◌>>=◌}
use skybeat.Store.Kinds.{EventKind, Channel, same_kind, same_channel, pending, email, sms}
use skybeat.Alerts.Recipients.{snapshot_device_email_recipients}
use skybeat.Store.Rows.{Time, hours, Device, Project, Incident, AlertEvent, Delivery, Details}

-- `(channel, provider, destination)`.
pub record Recipient : Type 0 where
  pub channel : Channel
  pub provider : String
  pub destination : String

-- `("EMAIL", "smtp", value)` and `("SMS", "sms", value)`.
abbrev pub email_recipient : String → Recipient
email_recipient value = record { channel = email; provider = "smtp"; destination = value }

abbrev pub sms_recipient : String → Recipient
sms_recipient value = record { channel = sms; provider = "sms"; destination = value }

abbrev pub is_event_of : ℕ → EventKind → AlertEvent → Bool
is_event_of incident_id kind e = e.incident_id == incident_id && same_kind e.event_kind kind

-- `AlertEvent(...)` at `now`.
abbrev pub new_event :
    ℕ → String → Incident → Device → Project → EventKind → Details → Time → AlertEvent
new_event id uuid incident device project kind details now = record {
  id = id;
  event_uuid = uuid;
  incident_id = incident.id;
  device_id = device.id;
  event_kind = kind;
  occurred_at = now;
  detected_at = now;
  project_name_snapshot = project.name;
  device_name_snapshot = device.name;
  reason_snapshot = incident.current_reason;
  details = details;
  created_at = now;
}

-- Inserts the event under the unique key (incident_id, event_kind).
unfoldable pub add_event :
    Env → Incident → Device → Project → EventKind → Details → Time → Db → Result Db
add_event env incident device project kind details now db =
    if any (is_event_of incident.id kind) db.events
    then raise integrity_error
    else ok (record db {
      events =
          db.events
          ++ new_event db.next_event (env.uuid4 db.draws) incident device project kind details now
            ∷ [];
      next_event = db.next_event + 1;
      draws = db.draws + 1;
    })

-- `NotificationDelivery(...)` at `now`.
unfoldable pub new_delivery : Env → ℕ → String → ℕ → Recipient → Time → Delivery
new_delivery env id uuid event_id r now = record {
  id = id;
  delivery_uuid = uuid;
  event_id = event_id;
  channel = r.channel;
  recipient_key = env.sha256_hex r.destination;
  destination_snapshot = r.destination;
  provider_name = r.provider;
  status = pending;
  attempt_count = 0;
  next_attempt_at = some now;
  expires_at = now + hours 24;
  lease_token = none;
  lease_expires_at = none;
  superseded_at = none;
  last_error_category = none;
  provider_message_id = none;
  cancel_reason = none;
  created_at = now;
  updated_at = now;
}

abbrev pub same_target : Env → ℕ → Recipient → Delivery → Bool
same_target env event_id r d =
    d.event_id == event_id
    && same_channel d.channel r.channel
    && str_eq d.recipient_key (env.sha256_hex r.destination)

-- Inserts one delivery under the unique key (event_id, channel, recipient_key).
unfoldable pub add_delivery : Env → ℕ → Time → Recipient → Db → Result Db
add_delivery env event_id now r db =
    if any (same_target env event_id r) db.deliveries
    then raise integrity_error
    else ok (record db {
      deliveries =
          db.deliveries
          ++ new_delivery env db.next_delivery (env.uuid4 db.draws) event_id r now ∷ [];
      next_delivery = db.next_delivery + 1;
      draws = db.draws + 1;
    })

unfoldable pub add_deliveries : Env → ℕ → Time → List Recipient → Db → Result Db
add_deliveries env event_id now [] db = ok db
add_deliveries env event_id now (r ∷ rs) db = do
  db1 ← add_delivery env event_id now r db
  add_deliveries env event_id now rs db1

-- `_create_event` after the project is read: the event, its recipients at this moment, and their
-- deliveries. `emails` and `texts` are the service's own recipients.
unfoldable pub alert :
    Env
    → List String
    → List Recipient
    → Incident
    → Device
    → Project
    → EventKind
    → Details
    → Time
    → Db
    → Result Db
alert env emails texts incident device project kind details now db = do
  db1 ← add_event env incident device project kind details now db
  addresses ← snapshot_device_email_recipients env device.id device.project_id kind emails db1
  add_deliveries env db.next_event now (map email_recipient addresses ++ texts) db1

-- `session.get(Project, device.project_id)`, which must be there, and the rest of `_create_event`.
unfoldable pub create_event :
    Env
    → List String
    → List Recipient
    → Incident
    → Device
    → EventKind
    → Details
    → Time
    → Db
    → Result Db
unfolding alert
create_event env emails texts incident device kind details now db =
    elim (find? (λ p. p.id == device.project_id) db.projects) [
      | none ↦ raise project_missing
      | some project ↦ alert env emails texts incident device project kind details now db
    ]
