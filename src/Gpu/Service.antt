-- ===== src/Gpu/Service.antt =====
-- `GPUIncidentService` of server/app/gpu/service.py. A device is locked and read by the caller, who
-- writes it back: `device` is the object, and the methods return it changed.
use skybeat.Base.{
  String, Bool, true, false, not, ◌&&◌, List, ◌++◌, map, Option, none, some, ◌==◌, if◌then◌else◌,
  select, update_where,
}
use skybeat.Store.{Db, Env, Result, ok, ◌>>=◌}
use skybeat.Store.Kinds
use skybeat.Store.Kinds.{
  GpuState, gpu_missing, nvidia_smi_failed, driver_error, unknown, not_monitored, EventKind,
  Channel, email, sms, gpu, gpu_degraded, gpu_recovered, device_offline, device_recovered, is_fault,
  is_offline, same_channel,
}
use skybeat.Store.Rows.{
  Time, Device, Incident, GpuItem, no_mapping, mapping, Details, degraded_details,
  recovered_details,
}
use skybeat.Alerts.Events.{Recipient, email_recipient, sms_recipient, create_event}
use skybeat.Alerts.Incidents.{
  active_incident, add_incident, next_incident_of, close_incident, is_undelivered_of,
  is_undelivered_gpu, supersede,
}
use skybeat.Gpu.Confirmation.{GpuConfirmation, evaluate_gpu_observation}

-- `self.recipients` of a new service.
abbrev pub recipients_of : List String → List String → List Recipient
recipients_of emails texts = map email_recipient emails ++ map sms_recipient texts

-- The `value` of a state.
abbrev pub state_name : GpuState → String
state_name Kinds.ok = "OK"
state_name gpu_missing = "GPU_MISSING"
state_name nvidia_smi_failed = "NVIDIA_SMI_FAILED"
state_name driver_error = "DRIVER_ERROR"
state_name unknown = "UNKNOWN"
state_name not_monitored = "NOT_MONITORED"

-- The parts of a heartbeat's payload that `accept` reads: `none` where `gpu_health` is no mapping,
-- or `gpus` no list.
pub record GpuHealth : Type 0 where
  pub state : String
  pub inventory_reliable : Bool

pub record GpuPayload : Type 0 where
  pub gpu_health : Option GpuHealth
  pub gpus : Option (List GpuItem)

abbrev pub is_mapping : GpuItem → Bool
is_mapping no_mapping = false
is_mapping (mapping uuid) = true

-- `_event`: the service's e-mail addresses, and its SMS recipients.
unfoldable pub gpu_event :
    Env → List Recipient → Incident → Device → EventKind → Details → Time → Db → Result Db
gpu_event env recipients =
    create_event env
      (map (λ r. r.destination) (select (λ r. same_channel r.channel email) recipients))
      (select (λ r. same_channel r.channel sms) recipients)

-- `_open`.
unfoldable pub open_incident :
    Env → List Recipient → Device → Time → String → List GpuItem → Db → Result Db
unfolding gpu_event
open_incident env recipients device now reason gpus db = elim (active_incident device.id gpu db) [
  | some incident ↦ ok db
  | none ↦ (do
    db1 ← add_incident env device.id gpu reason now db
    gpu_event env recipients (next_incident_of env device.id gpu reason now db) device gpu_degraded
        (degraded_details reason gpus) now db1)
]

-- `_update_current_reason`.
unfoldable pub update_current_reason : Device → String → Time → Db → Db
update_current_reason device reason now db = elim (active_incident device.id gpu db) [
  | none ↦ db
  | some incident ↦ record db {
    incidents =
        update_where (λ i. i.id == incident.id)
          (λ i. record i { current_reason = some reason; updated_at = now }) db.incidents;
  }
]

abbrev pub confirmed_ok : String
confirmed_ok = "confirmed_ok"

-- `_close`.
unfoldable pub close_active : Env → List Recipient → Device → Time → Db → Result Db
unfolding gpu_event
close_active env recipients device now db = elim (active_incident device.id gpu db) [
  | none ↦ ok db
  | some incident ↦
      let closed = record db {
        incidents =
            update_where (λ i. i.id == incident.id) (close_incident confirmed_ok now) db.incidents;
      } in
      gpu_event env recipients (close_incident confirmed_ok now incident) device gpu_recovered
        recovered_details now
        (supersede now (is_undelivered_of closed incident.id gpu_degraded) closed)
]

-- `reset_for_device_offline`.
unfoldable pub reset_for_device_offline : Device → Time → Db → Device × Db
reset_for_device_offline device now db = (
  record device { gpu_failure_streak = 0; gpu_ok_streak = 0; gpu_last_sample_at = none },
  supersede now (is_undelivered_gpu db device.id) db,
)

abbrev pub prior_of : Device → GpuConfirmation
prior_of device = record {
  state = device.gpu_effective_state;
  failure_streak = device.gpu_failure_streak;
  ok_streak = device.gpu_ok_streak;
  last_sample_at = device.gpu_last_sample_at;
  event = none;
}

abbrev pub with_confirmation : GpuConfirmation → Device → Device
with_confirmation c device = record device {
  gpu_effective_state = c.state;
  gpu_failure_streak = c.failure_streak;
  gpu_ok_streak = c.ok_streak;
  gpu_last_sample_at = c.last_sample_at;
}

-- What `accept` does to the incidents after a confirmation.
unfoldable pub act_on :
    Env → List Recipient → Device → GpuConfirmation → List GpuItem → Time → Db → Result Db
unfolding open_incident update_current_reason close_active
act_on env recipients device c gpus now db = elim c.event [
  | some gpu_degraded ↦ open_incident env recipients device now (state_name c.state) gpus db
  | some gpu_recovered ↦ close_active env recipients device now db
  | _ ↦
      ok (if is_fault c.state then update_current_reason device (state_name c.state) now db else db)
]

-- `accept`, on a payload with both parts.
unfoldable pub accept_report :
    Env → List Recipient → Device → GpuHealth → List GpuItem → Time → Db → Result (Device × Db)
unfolding act_on
accept_report env recipients device health gpus now db = do
  c ← evaluate_gpu_observation (prior_of device) (record {
    reported_state = health.state;
    inventory_reliable = health.inventory_reliable;
    gpus = select is_mapping gpus;
    expected_min_count = device.expected_gpu_min_count;
    expected_uuids = device.expected_gpu_uuids;
    observed_at = now;
    monitoring_enabled =
        device.gpu_monitoring_enabled && not (is_offline device.availability_state);
  })
  db1 ← act_on env recipients (with_confirmation c device) c gpus now db
  ok (with_confirmation c device, db1)

unfoldable pub accept :
    Env → List Recipient → Device → GpuPayload → Time → Db → Result (Device × Db)
unfolding accept_report
accept env recipients device payload now db = elim payload.gpu_health [
  | none ↦ ok (device, db)
  | some health ↦ elim payload.gpus [
    | none ↦ ok (device, db)
    | some gpus ↦ accept_report env recipients device health gpus now db
  ]
]
