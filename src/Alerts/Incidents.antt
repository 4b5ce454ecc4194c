-- ===== src/Alerts/Incidents.antt =====
-- The incidents table: the active incident of a device, opening one, and the deliveries that a
-- recovery makes pointless. Health and GPU monitoring share these queries.
pub mod Counts
pub mod Effects
use skybeat.Base.{
  ℕ, ◌+◌, String, Bool, false, ◌&&◌, [], ◌∷◌, ◌++◌, Option, none, some, ◌==◌, if◌then◌else◌, any,
  find?, update_where, is_none,
}
use skybeat.Store.{Db, Env, Result, ok, raise, integrity_error}
use skybeat.Store.Kinds.{IncidentType, EventKind, same_type, same_kind, is_open, gpu, gpu_degraded}
use skybeat.Store.Rows.{Time, Incident, Delivery}
use skybeat.Notifications.Delivery.{supersede_row}

-- The test of `_active_incident` and `_active`, and of the unique `active_key`.
abbrev pub is_active_of : ℕ → IncidentType → Incident → Bool
is_active_of device_id type i =
    i.device_id == device_id && same_type i.incident_type type && is_none i.closed_at

unfoldable pub active_incident : ℕ → IncidentType → Db → Option Incident
active_incident device_id type db = find? (is_active_of device_id type) db.incidents

-- `Incident(...)` at `now`.
abbrev pub new_incident : ℕ → String → ℕ → IncidentType → String → Time → Incident
new_incident id uuid device_id type reason now = record {
  id = id;
  incident_uuid = uuid;
  device_id = device_id;
  incident_type = type;
  opened_at = now;
  detected_at = now;
  closed_at = none;
  close_reason = none;
  current_reason = some reason;
  created_at = now;
  updated_at = now;
}

-- The incident that `add_incident` inserts.
abbrev pub next_incident_of : Env → ℕ → IncidentType → String → Time → Db → Incident
next_incident_of env device_id type reason now db =
    new_incident db.next_incident (env.uuid4 db.draws) device_id type reason now

-- Inserts an incident under the unique `active_key`.
unfoldable pub add_incident : Env → ℕ → IncidentType → String → Time → Db → Result Db
add_incident env device_id type reason now db =
    if any (is_active_of device_id type) db.incidents
    then raise integrity_error
    else ok (record db {
      incidents = db.incidents ++ next_incident_of env device_id type reason now db ∷ [];
      next_incident = db.next_incident + 1;
      draws = db.draws + 1;
    })

-- The writes to an incident that ends.
abbrev pub close_incident : String → Time → Incident → Incident
close_incident reason now i = record i {
  closed_at = some now;
  close_reason = some reason;
  current_reason = none;
  updated_at = now;
}

-- An undelivered message of that kind about an incident.
unfoldable pub is_undelivered_of : Db → ℕ → EventKind → Delivery → Bool
is_undelivered_of db incident_id kind d =
    is_open d.status && elim (find? (λ e. e.id == d.event_id) db.events) [
      | none ↦ false
      | some e ↦ e.incident_id == incident_id && same_kind e.event_kind kind
    ]

-- The loop over those messages.
unfoldable pub supersede : Time → (Delivery → Bool) → Db → Db
supersede now p db = record db { deliveries = update_where p (supersede_row now) db.deliveries }

-- An undelivered GPU_DEGRADED message about any GPU incident of a device.
unfoldable pub is_undelivered_gpu : Db → ℕ → Delivery → Bool
is_undelivered_gpu db device_id d =
    is_open d.status && elim (find? (λ e. e.id == d.event_id) db.events) [
      | none ↦ false
      | some e ↦
          same_kind e.event_kind gpu_degraded
          && elim (find? (λ i. i.id == e.incident_id) db.incidents) [
            | none ↦ false
            | some i ↦ i.device_id == device_id && same_type i.incident_type gpu
          ]
    ]
