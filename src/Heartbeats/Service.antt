-- ===== src/Heartbeats/Service.antt =====
-- `HeartbeatService.accept` of server/app/heartbeats/service.py, and `payload_digest` of
-- server/app/schemas/heartbeat.py. A call is one transaction, in which the clock is read when the
-- token is checked and again when the heartbeat is new.
pub mod Replay
use skybeat.Base.{
  ℕ, ◌+◌, String, Bool, ◌&&◌, List, [], ◌∷◌, ◌++◌, Option, none, some, ◌==◌, if◌then◌else◌, any,
  find?, update_where, str_eq, is_none,
}
use skybeat.Store.{
  Db, Env, Result, ok, raise, integrity_error, identity_mismatch, rate_limited, heartbeat_conflict,
  ◌>>=◌, ensure,
}
use skybeat.Store.Rows.{
  Time, hours, Device, Acknowledgement, HeartbeatReceipt, HeartbeatSample, DeviceLatest,
}
use skybeat.Alerts.Events.{Recipient}
use skybeat.Devices.Credentials.{authenticate_token}
use skybeat.Gpu.Service
use skybeat.Gpu.Service.{GpuPayload, recipients_of}
use skybeat.Health.Service.{AvailabilityService, accept_heartbeat, save_device}

-- What `accept` reads of a validated heartbeat. `payload` is the normalized payload as JSON with
-- sorted keys, `gpu` the parts of it that GPU monitoring reads, `disks` how many disks it lists.
pub record Heartbeat : Type 0 where
  pub heartbeat_id : String
  pub device_id : String
  pub collected_at : Time
  pub schema_version : ℕ
  pub agent_version : String
  pub hostname : String
  pub ip_addresses : List String
  pub cpu_percent : Option String
  pub memory_percent : Option String
  pub disks : ℕ
  pub gpu_health : String
  pub payload : String
  pub gpu : GpuPayload

abbrev pub payload_digest : Env → Heartbeat → String
payload_digest env h = env.sha256_digest h.payload

pub record HeartbeatService : Type 0 where
  pub allowed : ℕ → Bool
  pub availability : AvailabilityService
  pub gpu : List Recipient

abbrev pub is_receipt : ℕ → String → HeartbeatReceipt → Bool
is_receipt device_id heartbeat_id r = r.device_id == device_id && str_eq r.heartbeat_id heartbeat_id

abbrev pub acknowledgement_of : Env → Heartbeat → Time → Acknowledgement
acknowledgement_of env h received_at = record {
  schema_version = 1;
  heartbeat_id = h.heartbeat_id;
  device_id = h.device_id;
  accepted_at = env.iso_time received_at;
}

abbrev pub new_receipt : Env → ℕ → Heartbeat → Time → HeartbeatReceipt
new_receipt env device_id h received_at = record {
  device_id = device_id;
  heartbeat_id = h.heartbeat_id;
  payload_hash = payload_digest env h;
  received_at = received_at;
  expires_at = received_at + hours 24;
  response_payload = acknowledgement_of env h received_at;
}

-- The insertion under the primary key (device_id, heartbeat_id).
unfoldable pub add_receipt : Env → ℕ → Heartbeat → Time → Db → Result Db
add_receipt env device_id h received_at db =
    if any (is_receipt device_id h.heartbeat_id) db.receipts
    then raise integrity_error
    else ok (record db { receipts = db.receipts ++ new_receipt env device_id h received_at ∷ [] })

unfoldable pub add_sample : ℕ → Heartbeat → Time → Db → Db
add_sample device_id h received_at db = record db {
  samples =
      db.samples
      ++ record {
        id = db.next_sample;
        device_id = device_id;
        heartbeat_id = h.heartbeat_id;
        received_at = received_at;
        collected_at = h.collected_at;
        schema_version = h.schema_version;
        agent_version = h.agent_version;
        payload = h.payload;
      }
        ∷ [];
  next_sample = db.next_sample + 1;
}

abbrev pub first_of : List String → Option String
first_of [] = none
first_of (x ∷ xs) = some x

-- `values`, as the row of a device.
abbrev pub latest_row : ℕ → Heartbeat → Time → DeviceLatest
latest_row device_id h received_at = record {
  device_id = device_id;
  heartbeat_id = h.heartbeat_id;
  received_at = received_at;
  collected_at = h.collected_at;
  schema_version = h.schema_version;
  agent_version = h.agent_version;
  hostname = h.hostname;
  primary_ip = first_of h.ip_addresses;
  cpu_percent = h.cpu_percent;
  memory_percent = h.memory_percent;
  disk_summary = h.disks;
  gpu_summary = h.gpu_health;
  payload = h.payload;
}

abbrev pub is_latest_of : ℕ → DeviceLatest → Bool
is_latest_of device_id l = l.device_id == device_id

unfoldable pub put_latest : ℕ → Heartbeat → Time → Db → Db
put_latest device_id h received_at db = record db {
  latest =
      if is_none (find? (is_latest_of device_id) db.latest)
      then db.latest ++ latest_row device_id h received_at ∷ []
      else update_where (is_latest_of device_id) (λ _. latest_row device_id h received_at)
          db.latest;
}

-- `accept` on a heartbeat without a receipt.
unfoldable pub accept_new :
    Env → HeartbeatService → Device → Time → Heartbeat → Db → Result (Acknowledgement × Db)
unfolding add_sample put_latest
accept_new env service device received_at h db = do
  (seen, db1) ← accept_heartbeat env service.availability device received_at db
  (checked, db2) ← Service.accept env service.gpu seen h.gpu received_at db1
  db3 ← add_receipt env device.id h received_at (save_device checked db2)
  ok (
    acknowledgement_of env h received_at,
    put_latest device.id h received_at (add_sample device.id h received_at db3),
  )

-- `accept` on a device that may send.
unfoldable pub accept_from :
    Env → HeartbeatService → Device → Time → Heartbeat → Db → Result (Acknowledgement × Db)
unfolding accept_new
accept_from env service device received_at h db =
    elim (find? (is_receipt device.id h.heartbeat_id) db.receipts) [
      | some receipt ↦
          if str_eq receipt.payload_hash (payload_digest env h)
          then ok (receipt.response_payload, db)
          else raise heartbeat_conflict
      | none ↦ accept_new env service device received_at h db
    ]

unfoldable pub accept :
    Env → HeartbeatService → Time → Time → Heartbeat → String → Db → Result (Acknowledgement × Db)
unfolding accept_from
accept env service checked_at received_at h token db = do
  device ← authenticate_token env checked_at token db
  ensure identity_mismatch (str_eq device.device_uuid h.device_id) (
      ensure rate_limited (service.allowed device.id)
        (accept_from env service device received_at h db))
