-- ===== src/Health/Service.antt =====
-- `AvailabilityService` of server/app/health/service.py: each transaction a function on the
-- database. A device that the code has locked and read is a value, written back at the end.
pub mod Incidents
pub mod Consistency
pub mod Arrival
pub mod Overdue
use skybeat.Base.{
  ℕ, ◌+◌, String, List, [], ◌∷◌, map, none, some, ◌==◌, if◌then◌else◌, find?, select, update_where,
}
use skybeat.Base.Order.{sort}
use skybeat.Store.{Db, Env, Result, ok, raise, value_error, ◌>>=◌, Run, after}
use skybeat.Store.Kinds.{
  Availability, online, offline, is_offline, availability, EventKind, device_offline,
  device_recovered,
}
use skybeat.Store.Rows.{Time, Device, Incident, availability_details}
use skybeat.Alerts.Events.{sms_recipient, create_event}
use skybeat.Alerts.Incidents.{
  active_incident, add_incident, next_incident_of, close_incident, is_undelivered_of, supersede,
}
use skybeat.Alerts.Recipients.{normalized, add_distinct, text_le}
use skybeat.Gpu.Service.{reset_for_device_offline}
use skybeat.Health.State.{availability_state, monitoring_baseline, valid_thresholds}

pub record AvailabilityService : Type 0 where
  pub email_recipients : List String
  pub sms_recipients : List String
  pub suspect_after_seconds : ℕ
  pub offline_after_seconds : ℕ

-- `set(values)`, as a list with no text twice.
unfoldable pub distinct_texts : List String → List String
unfolding add_distinct
distinct_texts [] = []
distinct_texts (v ∷ vs) = add_distinct v (distinct_texts vs)

-- The constructor. `validate_email_recipient` normalizes and tests as `normalize_email` does.
unfoldable pub new_service : Env → List String → List String → ℕ → ℕ → Result AvailabilityService
new_service env emails texts suspect_after offline_after =
    if valid_thresholds suspect_after offline_after
    then (do
      addresses ← normalized env emails
      ok (record {
        email_recipients = addresses;
        sms_recipients = sort text_le (distinct_texts texts);
        suspect_after_seconds = suspect_after;
        offline_after_seconds = offline_after;
      }))
    else raise value_error

-- The device's state at `now` by the service's thresholds.
abbrev pub state_at : AvailabilityService → Device → Time → Result Availability
state_at service device now =
    availability_state (monitoring_baseline device.monitoring_started_at device.last_seen_at) now
      service.suspect_after_seconds service.offline_after_seconds

-- `_create_event`.
unfoldable pub availability_event :
    Env → AvailabilityService → Incident → Device → EventKind → Time → Db → Result Db
availability_event env service incident device kind now =
    create_event env service.email_recipients (map sms_recipient service.sms_recipients) incident
      device kind (availability_details device.availability_state) now

-- `_ensure_offline_incident`.
unfoldable pub ensure_offline_incident : Env → AvailabilityService → Device → Time → Db → Result Db
ensure_offline_incident env service device now db =
    elim (active_incident device.id availability db) [
      | some incident ↦ ok db
      | none ↦ (do
        db1 ← add_incident env device.id availability "heartbeat_timeout" now db
        availability_event env service
            (next_incident_of env device.id availability "heartbeat_timeout" now db) device
            device_offline now db1)
    ]

abbrev pub heartbeat_received : String
heartbeat_received = "heartbeat_received"

-- `_close_for_recovery`, without the last write to the device.
unfoldable pub close_for_recovery : Env → AvailabilityService → Device → Time → Db → Result Db
close_for_recovery env service device now db = elim (active_incident device.id availability db) [
  | none ↦ ok db
  | some incident ↦
      let closed = record db {
        incidents =
            update_where (λ i. i.id == incident.id) (close_incident heartbeat_received now)
              db.incidents;
      } in
      availability_event env service (close_incident heartbeat_received now incident) device
        device_recovered now
        (supersede now (is_undelivered_of closed incident.id device_offline) closed)
]

-- The write of a device that was read under a lock.
abbrev pub save_device : Device → Db → Db
save_device device db = record db {
  devices = update_where (λ d. d.id == device.id) (λ _. device) db.devices;
}

-- The device goes OFFLINE: its state, its incident and alert, its GPU confirmation.
unfoldable pub go_offline : Env → AvailabilityService → Device → Time → Db → Result (Device × Db)
go_offline env service device now db =
    let down = record device { availability_state = offline } in
    do
      db1 ← ensure_offline_incident env service down now db
      ok (reset_for_device_offline down now db1)

-- The branches of `evaluate_device` on a device that is monitored.
unfoldable pub apply_state :
    Env → AvailabilityService → Availability → Device → Time → Db → Result (Device × Db)
apply_state env service offline device now db = go_offline env service device now db
apply_state env service desired device now db = ok (
  if is_offline device.availability_state
      then device
      else record device { availability_state = desired },
  db,
)

unfoldable pub evaluate_locked : Env → AvailabilityService → Device → Time → Db → Result Db
evaluate_locked env service device now db = do
  desired ← state_at service device now
  (changed, db1) ← apply_state env service desired device now db
  ok (save_device (record changed { updated_at = now }) db1)

unfoldable pub evaluate_device : Env → AvailabilityService → ℕ → Time → Db → Result Db
evaluate_device env service device_id now db = elim (find? (λ d. d.id == device_id) db.devices) [
  | none ↦ ok db
  | some device ↦
      if device.monitoring_enabled then evaluate_locked env service device now db else ok db
]

-- The loop of `sweep`: a transaction for each device, at the k-th reading of the clock.
unfoldable pub evaluate_devices : Env → AvailabilityService → (ℕ → Time) → ℕ → List ℕ → Db → Run
evaluate_devices env service clock k [] db = (none, db)
evaluate_devices env service clock k (id ∷ ids) db =
    after db (evaluate_device env service id (clock k) db)
      (evaluate_devices env service clock (k + 1) ids)

unfoldable pub sweep : Env → AvailabilityService → (ℕ → Time) → Db → Run
sweep env service clock db =
    evaluate_devices env service clock 0
      (map (λ d. d.id) (select (λ d. d.monitoring_enabled) db.devices)) db

-- `accept_heartbeat` after its first step, where the state that is overdue has been applied.
unfoldable pub come_back : Env → AvailabilityService → Device → Time → Db → Result (Device × Db)
come_back env service device received_at db =
    let seen = record device { last_seen_at = some received_at } in
    do
      db1 ←
          if is_offline seen.availability_state
          then close_for_recovery env service seen received_at db
          else ok db
      ok (record seen { availability_state = online; updated_at = received_at }, db1)

unfoldable pub catch_up :
    Env → AvailabilityService → Availability → Device → Time → Db → Result (Device × Db)
catch_up env service offline device now db = go_offline env service device now db
catch_up env service prior device now db = ok (device, db)

unfoldable pub accept_heartbeat :
    Env → AvailabilityService → Device → Time → Db → Result (Device × Db)
accept_heartbeat env service device received_at db = do
  prior ← state_at service device received_at
  (late, db1) ← catch_up env service prior device received_at db
  come_back env service late received_at db1
